-- ===== src/Service/Firewall.antt =====
-- The firewall hooks of the service, in awgctl/core.py: `run_firewall_action_locked` and the
-- checks that it makes.
pub mod Checks
pub mod Hooks
use amneziawg_manager.Prelude.{
  String, Bool, true, false, ◌||◌, Option, none, some, same, if◌then◌else◌,
}
use amneziawg_manager.Result.{Result, ok, raised, require, raise_if, or_raise}
use amneziawg_manager.Service.Intent.{Hook, up, down, Intent}
use amneziawg_manager.Service.World.{World, Host}
use amneziawg_manager.Step.{Exec, pure, lift, asks, ◌>>=◌, ◌>>◌}
use amneziawg_manager.Service.Load.{load_optional}
use amneziawg_manager.Service.Store.{require_lock, compare_and_swap}
use amneziawg_manager.Service.Observe.{service_is_active_exact, kernel_interface_is_absent_exact}
use amneziawg_manager.Service.Progress.{
  hook_named, is_current, is_duplicate, same_optional, accepts_hooks, advance,
}

module _ (h : Host) where
  open h use {State}

  pub ensure_service_stopped : String → Exec (World State) (Unit {0})
  ensure_service_stopped interface = do
    active ← asks (service_is_active_exact h interface)
    lift (raise_if active "firewall down is unsafe while the service is active")
    absent ← asks (kernel_interface_is_absent_exact h interface)
    lift (require absent "firewall down is unsafe while the kernel interface is still present")

  pub current_firewall_up : Exec (World State) Bool
  current_firewall_up = do
    is_up ← asks (λ w. h.firewall_is w.outside up)
    is_down ← if is_up then pure false else asks (λ w. h.firewall_is w.outside down)
    lift (
        if is_up
        then ok true
        else if is_down
        then ok false
        else raised "firewall lifecycle state is inconsistent")

  -- a change of the host that no file of the program sees
  effect : (State → Result (Unit {0}) × State) → Exec (World State) (Unit {0})
  effect f w =
      let (r, s) = f w.outside in (r, record w { shared = record w.shared { outside = s } })

  -- `apply_firewall() if action == "up" else firewall_cleanup()`
  pub perform : Hook → Exec (World State) (Unit {0})
  unfolding effect
  perform up = effect h.apply_firewall
  perform down = effect h.firewall_cleanup

  pub prove_postcondition : Hook → Exec (World State) (Unit {0})
  prove_postcondition k = do
    holds ← asks (λ w. h.firewall_is w.outside k)
    lift (require holds "firewall lifecycle postcondition was not proven")

  -- `if action == "down": ensure_service_stopped_for_firewall_down(…)`
  pub stopped_for : Hook → Exec (World State) String → Exec (World State) (Unit {0})
  stopped_for up interface = pure tt
  stopped_for down interface = do i ← interface; ensure_service_stopped i

  -- the hook when no service operation is recorded
  pub hook_alone : Hook → Exec (World State) (Unit {0})
  hook_alone k = do
    stopped_for k (asks (λ w. h.config_interface w.outside))
    perform k
    prove_postcondition k

  -- the progress of the operation, recorded when the hook was its next action
  pub record_progress : Bool → Intent → Exec (World State) (Unit {0})
  record_progress true i = do
    now ← asks (λ w. ok (h.now w.outside))
    compare_and_swap h (advance i now) (some i.operation_id) (some i.phase)
  record_progress false i = pure tt

  -- the hook under a recorded service operation
  pub hook_under : Hook → Intent → Exec (World State) (Unit {0})
  hook_under k i = do
    current ← asks (λ w. h.transition_id w.outside)
    lift (require (same_optional i.transition_id current) "service operation transition changed")
    generation ← asks (λ w. h.generation w.outside)
    lift (require (same i.generation_sha256 generation) "service operation generation changed")
    lift (require (accepts_hooks i.phase) "service operation is not accepting firewall hooks")
    lift (
        require (is_current k i || is_duplicate k i)
          "expected firewall action does not match service operation")
    stopped_for k (pure i.interface)
    if is_current k i then perform k else pure tt
    prove_postcondition k
    record_progress (is_current k i) i

  hook_with : Hook → Option Intent → Exec (World State) (Unit {0})
  hook_with k none = hook_alone k
  hook_with k (some i) = hook_under k i

  -- the hook that `dispatch` calls, `_firewall up` and `_firewall down`
  pub run_firewall_action_locked : String → Exec (World State) (Unit {0})
  unfolding hook_with
  run_firewall_action_locked action = do
    require_lock "firewall lifecycle action requires the mutation lock"
    k ← lift (or_raise (hook_named action) "invalid firewall hook action")
    found ← asks (λ w. load_optional h w.shared)
    hook_with k found
