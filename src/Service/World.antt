-- ===== src/Service/World.antt =====
-- The state that the service lifecycle of awgctl/core.py works on, and what it asks of the host.
-- systemd, the kernel, nft, the clock, the process table and the disk are not modelled: they are
-- the fields of `Host`, functions of its state `State`.
use amneziawg_manager.Prelude.{ℕ, String, Bool, not, ◌&&◌, Option, ltb}
use amneziawg_manager.Prelude.Int.{ℤ}
use amneziawg_manager.Result.{Result}
use amneziawg_manager.Value.{Value}
use amneziawg_manager.Timestamp.{Iso}
use amneziawg_manager.Service.Intent.{Hook}

-- `_MUTATION_LOCK_STATE` of this thread
pub record Lock : Type 0 where
  pub depth : ℕ
  pub released : Bool

-- What the processes share: SERVICE_OPERATION_FILE, as the JSON value that it holds, and the rest.
pub record Shared (State : Type 0) : Type 0 where
  pub document : Option Value
  pub outside : State

pub record World (State : Type 0) : Type 0 where
  pub lock : Lock
  pub shared : Shared State
  pub open shared use *

-- how `atomic_json` ended: by its rename and the sync, by an OSError before the rename or after it
pub data Write : Type 0 where
  written not_written not_synced : Write

-- what `socket.if_nametoindex` answered: an index, ENODEV, or another OSError
pub data Device : Type 0 where
  index : ℤ → Device
  no_device : Device
  os_error : Device

pub record Host : Type 1 where
  pub State : Type 0
  -- datetime.fromisoformat, and `_utc_z` of the current time
  pub iso : Iso
  pub now : State → String
  -- `current_process_identity`
  pub process_identity : State → Result (ℕ × ℕ)
  -- `secrets.token_hex(16)`
  pub token : State → String
  -- `_open_protected_runtime_directory`, and the safety checks of `_read_protected_json`
  pub runtime_directory : State → Result (Unit {0})
  pub readable : State → Result (Unit {0})
  -- how `atomic_json` of this value, and the unlink with its sync, end in this state of the file
  -- and the rest
  pub write : Shared State → Value → Write
  pub unlink : Shared State → Write
  -- `flock` with LOCK_UN and LOCK_EX: whether it returns
  pub unlocks : State → Bool
  pub relocks : State → Bool
  -- the exit status of `systemctl is-active`
  pub is_active : State → String → Result ℕ
  pub if_nametoindex : State → String → Device
  -- `firewall_action_postcondition`: the nft ruleset against the expected one
  pub firewall_is : State → Hook → Result Bool
  -- the transaction ID of `load_transition_document(required=False)`
  pub transition_id : State → Result (Option String)
  -- `managed_transition_prestate_digest`
  pub generation : State → Result String
  -- the interface of `load_config`
  pub config_interface : State → Result String
  -- `apply_firewall` and `firewall_cleanup`
  pub apply_firewall : State → Result (Unit {0}) × State
  pub firewall_cleanup : State → Result (Unit {0}) × State
  -- `systemctl VERB UNIT`, with all that other processes do until it returns
  pub systemctl : String → String → Shared State → Result (Unit {0}) × Shared State

-- `mutation_lock_is_held`
abbrev pub is_held : Lock → Bool
is_held l = ltb 0 l.depth && not l.released
