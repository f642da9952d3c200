-- ===== src/Service/Store.antt =====
-- Writing the service-operation intent: the compare-and-swap and the deletion of awgctl/core.py.
pub mod Swap
pub mod Delete
pub mod Returns
use amneziawg_manager.Prelude.{String, same, ◌≡◌, Option, none, some}
use amneziawg_manager.Result.{Result, ok, raised, require}
use amneziawg_manager.Value.{Value, str}
use amneziawg_manager.Validate.{validate_transaction_id}
use amneziawg_manager.Service.Intent.{Phase, Intent, Intent-discrete}
use amneziawg_manager.Service.Document.{document, normalize_service_operation_intent}
use amneziawg_manager.Service.World.{
  Write, written, not_written, not_synced, Shared, World, Host, is_held,
}
use amneziawg_manager.Step.{Exec, lift, asks, ◌>>=◌, ◌>>◌}
use amneziawg_manager.Service.Load.{load_optional, load_required, expect_current}

-- `if not mutation_lock_is_held(): raise …`
abbrev pub require_lock : {S : Type 0} → String → Exec (World S) (Unit {0})
require_lock e = asks (λ w. require (is_held w.lock) e)

-- `if load_service_operation_intent() != normalized: raise …`
pub require_same : Intent → Intent → String → Result (Unit {0})
require_same i j e = elim (Intent-discrete i j) [ yes _ ↦ ok tt | no _ ↦ raised e ]

-- `if current["operation_id"] != operation_id: raise …`
abbrev require_id : Intent → String → Result (Unit {0})
require_id i id = require (same i.operation_id id) "service operation intent does not match"

-- an OSError becomes an `AwgctlError`
outcome : Write → String → Result (Unit {0})
outcome written e = ok tt
outcome not_written e = raised e
outcome not_synced e = raised e

module _ {S : Type 0} where
  -- the file after a write of `v` that ended so
  stored : Write → Option Value → Shared S → Shared S
  stored written v s = record s { document = v }
  stored not_written v s = s
  stored not_synced v s = record s { document = v }

module _ (h : Host) where
  open h use {State, iso, runtime_directory, write, unlink}

  -- `atomic_json(SERVICE_OPERATION_FILE, …)`
  pub atomic_json : Value → Exec (World State) (Unit {0})
  unfolding stored outcome
  atomic_json v w = (
    outcome (write w.shared v) "service operation intent persistence failed",
    record w { shared = stored (write w.shared v) (some v) w.shared },
  )

  -- `SERVICE_OPERATION_FILE.unlink()` and the sync of its directory
  pub unlink_document : Exec (World State) (Unit {0})
  unfolding stored outcome
  unlink_document w = (
    outcome (unlink w.shared) "service operation intent cleanup failed",
    record w { shared = stored (unlink w.shared) none w.shared },
  )

  pub compare_and_swap : Intent → Option String → Option Phase → Exec (World State) (Unit {0})
  unfolding require_same
  compare_and_swap value expected_operation_id expected_phase = do
    require_lock "service operation intent update requires the mutation lock"
    normalized ← lift (normalize_service_operation_intent iso (document value))
    asks (λ w. runtime_directory w.outside)
    current ← asks (λ w. load_optional h w.shared)
    lift (expect_current current expected_operation_id expected_phase)
    atomic_json (document normalized)
    again ← asks (λ w. load_required h w.shared)
    lift (require_same again normalized "service operation intent could not be verified")

  pub delete_intent : String → Exec (World State) (Unit {0})
  delete_intent operation_id = do
    require_lock "service operation intent deletion requires the mutation lock"
    id ← lift (validate_transaction_id (str operation_id))
    current ← asks (λ w. load_required h w.shared)
    lift (require_id current id)
    unlink_document
