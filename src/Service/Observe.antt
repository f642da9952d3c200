-- ===== src/Service/Observe.antt =====
-- What the service lifecycle asks of systemd and the kernel, in awgctl/core.py.
use Prim.Native.String.{◌++◌ as append}
use amneziawg_manager.Prelude.{ℕ, zero, suc, String, Bool, true, false, ◌||◌, ◌==◌, if◌then◌else◌}
use amneziawg_manager.Prelude.Int.{pos, negsuc}
use amneziawg_manager.Result.{Result, ok, raised, require, ◌>>=◌, ◌>>◌}
use amneziawg_manager.Validate.{is_interface}
use amneziawg_manager.Service.World.{World, Host, Device, index, no_device, os_error}

-- SERVICE_TEMPLATE
pub service_unit : String → String
service_unit interface = append "awg-quick@" (append interface ".service")

active_status : ℕ → Result Bool
active_status n =
    if n == 0
    then ok true
    else if n == 3 || n == 4
    then ok false
    else raised "cannot verify service lifecycle state"

absent_status : Device → Result Bool
absent_status no_device = ok true
absent_status os_error = raised "cannot verify service lifecycle state"
absent_status (index (pos zero)) = raised "cannot verify service lifecycle state"
absent_status (index (pos (suc n))) = ok false
absent_status (index (negsuc n)) = raised "cannot verify service lifecycle state"

module _ (h : Host) where
  open h use {State}

  unfoldable pub service_is_active_exact : String → World State → Result Bool
  unfolding service_unit active_status
  service_is_active_exact interface w = do
    require (is_interface interface) "invalid service interface"
    status ← h.is_active w.outside (service_unit interface)
    active_status status

  unfoldable pub kernel_interface_is_absent_exact : String → World State → Result Bool
  unfolding absent_status
  kernel_interface_is_absent_exact interface w = do
    require (is_interface interface) "invalid service interface"
    absent_status (h.if_nametoindex w.outside interface)
