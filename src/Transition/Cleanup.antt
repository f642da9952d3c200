-- ===== src/Transition/Cleanup.antt =====
-- The end of an obfuscation transition in awgctl/core.py: the record of its outcome and the cleanup
-- with its checkpoints, which may be resumed after a failure at any step.
pub mod Metadata
pub mod Steps
pub mod Resume
pub mod Repair
pub mod Begin
pub mod Completes
use amneziawg_manager.Prelude.{
  ℕ, String, Bool, true, false, not, ◌&&◌, Option, none, some, List, [], ◌∷◌, same, ◌==◌,
  if◌then◌else◌,
}
use amneziawg_manager.Prelude.Int.{pos}
use amneziawg_manager.Result.{Result, ok, raised, require, raise_if, or_raise}
use amneziawg_manager.Value.{Value, null, int, str, obj, Fields, is_null}
use amneziawg_manager.Contracts.Dict.{value_at, is_among}
use amneziawg_manager.Contracts.Metadata.{normalize_client_metadata, mark_profile_regenerated}
use amneziawg_manager.Step.{Exec, pure, raise, lift, asks, ◌>>=◌, ◌>>◌}
use amneziawg_manager.Transition.Document.{
  Library, Pending, Transition, normalize_transition_document,
}
use amneziawg_manager.Transition.Document.Written.{transition_document}
use amneziawg_manager.Transition.Outcome.{
  Ending, confirmed, rolled_back, Reason, Checkpoint, checkpoint, metadata, pending, current,
  complete, Update, Outcome, cleanup_text, normalize_transition_outcome, outcome_document,
}
use amneziawg_manager.Transition.Load.{
  Files, Disk, Host, Transition-discrete, Outcome-discrete, require_equal, load_transition,
  load_stored, load_outcome, load_recorded, identify,
}
use amneziawg_manager.Transition.Store.{with_transition, change}

-- the files with this record of an outcome, with this metadata, or without these artifacts
abbrev pub with_outcome : Outcome → Files → Files
with_outcome o s = record s { outcome = some (outcome_document o) }

abbrev pub with_metadata : String → Fields → Files → Files
with_metadata name d s = record s {
  metadata = λ n. if same n name then some (obj d) else s.metadata n;
}

abbrev pub without_pending : (String → String → Bool) → String → Files → Files
without_pending same_path root s = record s {
  pending = λ path. if same_path path root then false else s.pending path;
}

-- `value == n` for the revision in normalized metadata, which is an integer
abbrev pub is_revision : ℕ → Value → Bool
is_revision n (int (pos m)) = m == n
is_revision n _ = false

-- The metadata of a profile after its update.
abbrev pub is_updated : String → Update → Fields → Bool
is_updated completed_at u d =
    is_revision u.to_revision (value_at "profile_revision" d)
    && is_among (completed_at ∷ []) (value_at "profile_generated_at" d)
    && is_among ("obfuscation:awg31" ∷ []) (value_at "profile_change_reason" d)
    && is_among ("pending" ∷ []) (value_at "distribution_status" d)
    && is_null (value_at "distributed_at" d)

-- the outcome at another checkpoint of its cleanup
abbrev pub at_phase : Checkpoint → Outcome → Outcome
at_phase p o = record o { cleanup_phase = p }

abbrev recorded_before : Outcome → Outcome → Result (Unit {0})
recorded_before existing result =
    require_equal Outcome-discrete (at_phase checkpoint existing) (at_phase checkpoint result)
      "obfuscation transition outcome changed; stale completion rejected"

-- a new record of an outcome
abbrev pub outcome_of : Transition → Ending → Reason → String → List Update → Outcome
outcome_of t ending reason completed_at updates = record {
  transaction_id = t.transaction_id;
  outcome = ending;
  reason = reason;
  completed_at = completed_at;
  client_name = t.client_name;
  old_port = t.old_port;
  new_port = t.new_port;
  cleanup_phase = checkpoint;
  profile_updates = updates;
}

module _ (h : Host) where
  open h use {Outside, library, dates, readable, layout, cancel_recovery}
  open library use {iso, same_path}

  -- A profile that is at its revision before the update is regenerated and written.
  unfoldable pub regenerate : Bool → Outcome → Update → Fields → Exec (Disk Outside) Fields
  regenerate false o u d = pure d
  regenerate true o u d = do
    proposed ← lift (mark_profile_regenerated iso dates "obfuscation:awg31" o.completed_at (obj d))
    lift (
        require (is_revision u.to_revision (value_at "profile_revision" proposed))
          "managed profile revision update is inconsistent")
    change h (with_metadata u.name proposed)
    pure proposed

  unfoldable pub apply_update : Outcome → Update → Exec (Disk Outside) (Unit {0})
  apply_update o u = do
    asks (λ d. readable d.outside)
    value ← asks (λ d.
        or_raise (d.files.metadata u.name) "managed profile metadata is missing during cleanup")
    read ← lift (normalize_client_metadata iso dates value)
    lift (
        require (is_among (u.name ∷ []) (value_at "name" read))
          "managed profile metadata identity changed during cleanup")
    written ← regenerate (is_revision u.from_revision (value_at "profile_revision" read)) o u read
    lift (
        require (is_updated o.completed_at u written)
          "managed profile metadata changed during terminal cleanup")

  unfoldable pub apply_updates : Outcome → List Update → Exec (Disk Outside) (Unit {0})
  apply_updates o [] = pure tt
  apply_updates o (u ∷ us) = do apply_update o u; apply_updates o us

  unfoldable pub apply_by_ending : Ending → Outcome → Exec (Disk Outside) (Unit {0})
  apply_by_ending confirmed o = apply_updates o o.profile_updates
  apply_by_ending rolled_back o = pure tt

  unfoldable pub apply_confirmed_profile_updates : Outcome → Exec (Disk Outside) (Unit {0})
  apply_confirmed_profile_updates outcome = do
    o ← lift (normalize_transition_outcome iso (outcome_document outcome))
    apply_by_ending o.outcome o

  unfoldable pub remove_if : Bool → String → Exec (Disk Outside) (Unit {0})
  remove_if false root = pure tt
  remove_if true root = change h (without_pending same_path root)

  unfoldable pub remove_transition_pending : Transition → Exec (Disk Outside) (Unit {0})
  remove_transition_pending t = do
    there ← asks (λ d. ok (d.files.pending t.pending.root))
    remove_if there t.pending.root
    asks (λ d.
        raise_if (d.files.pending t.pending.root)
          "pending transition artifacts could not be removed")

  unfoldable pub remove_found : Option Transition → Transition → Exec (Disk Outside) (Unit {0})
  remove_found none t = pure tt
  remove_found (some c) t = do
    lift (
        require_equal Transition-discrete c t
          "obfuscation transition changed during terminal cleanup")
    change h (with_transition none)

  unfoldable pub remove_current_transition : Transition → Exec (Disk Outside) (Unit {0})
  remove_current_transition t = do stored ← asks (load_transition h); remove_found stored t

  unfoldable pub update_transition_outcome_phase :
      Checkpoint → Checkpoint → Outcome → Exec (Disk Outside) Outcome
  update_transition_outcome_phase expected phase outcome = do
    o ← lift (normalize_transition_outcome iso (outcome_document outcome))
    now ← asks (load_recorded h)
    lift (require_equal Outcome-discrete now o "obfuscation transition cleanup checkpoint changed")
    lift (
        require (same (cleanup_text now.cleanup_phase) (cleanup_text expected))
          "obfuscation transition cleanup checkpoint changed")
    proposed ← lift (normalize_transition_outcome iso (outcome_document (at_phase phase o)))
    change h (with_outcome proposed)
    again ← asks (load_recorded h)
    lift (
        require_equal Outcome-discrete again proposed
          "obfuscation transition cleanup checkpoint write failed")
    pure proposed

  unfoldable pub cancel_unless : Bool → String → Exec (Disk Outside) (Unit {0})
  cancel_unless true id d = (ok tt, d)
  cancel_unless false id d =
      let (r, outside) = cancel_recovery id d.outside in (r, record d { outside = outside })

  unfoldable pub given_root : Option Transition → Exec (Disk Outside) Transition
  given_root none = raise "terminal cleanup lost its pending artifact identity"
  given_root (some t) = pure t

  unfoldable pub remove_given : Option Transition → Exec (Disk Outside) (Unit {0})
  remove_given none = pure tt
  remove_given (some t) = remove_current_transition t

  -- the cleanup from each of its checkpoints to its end
  unfoldable pub from_current : Bool → Outcome → Exec (Disk Outside) Outcome
  from_current skip o = do
    cancel_unless skip o.transaction_id
    update_transition_outcome_phase current complete o

  unfoldable pub from_pending : Bool → Option Transition → Outcome → Exec (Disk Outside) Outcome
  from_pending skip given o = do
    remove_given given
    next ← update_transition_outcome_phase pending current o
    from_current skip next

  unfoldable pub from_metadata : Bool → Option Transition → Outcome → Exec (Disk Outside) Outcome
  from_metadata skip given o = do
    t ← given_root given
    remove_transition_pending t
    next ← update_transition_outcome_phase metadata pending o
    from_pending skip given next

  unfoldable pub from_checkpoint : Bool → Option Transition → Outcome → Exec (Disk Outside) Outcome
  from_checkpoint skip given o = do
    apply_confirmed_profile_updates o
    next ← update_transition_outcome_phase checkpoint metadata o
    from_metadata skip given next

  -- A complete outcome whose transition is still stored: all of its effects again.
  unfoldable pub from_complete : Bool → Option Transition → Outcome → Exec (Disk Outside) Outcome
  from_complete skip none o = pure o
  from_complete skip (some c) o = do
    apply_confirmed_profile_updates o
    remove_transition_pending c
    cancel_unless skip o.transaction_id
    remove_current_transition c
    pure o

  unfoldable pub from_phase :
      Checkpoint
      → Bool
      → Option Transition
      → Option Transition
      → Outcome
      → Exec (Disk Outside) Outcome
  from_phase checkpoint skip stored given o = from_checkpoint skip given o
  from_phase metadata skip stored given o = from_metadata skip given o
  from_phase pending skip stored given o = from_pending skip given o
  from_phase current skip stored given o = from_current skip o
  from_phase complete skip stored given o = from_complete skip stored o

  unfoldable pub resume_transition_cleanup :
      Bool → Option Transition → Outcome → Exec (Disk Outside) Outcome
  resume_transition_cleanup skip document outcome = do
    o ← lift (normalize_transition_outcome iso (outcome_document outcome))
    stored ← asks (load_transition h)
    given ← lift (identify library stored document o)
    from_phase o.cleanup_phase skip stored given o

  unfoldable pub record_outcome : Outcome → Exec (Disk Outside) Outcome
  record_outcome result = do
    change h (with_outcome result)
    again ← asks (load_recorded h)
    lift (
        require_equal Outcome-discrete again result
          "obfuscation transition outcome write could not be verified")
    pure result

  -- An outcome that is recorded is completed before another one is recorded.
  unfoldable pub begin_over : Bool → Outcome → Outcome → Exec (Disk Outside) Outcome
  begin_over true existing result = do lift (recorded_before existing result); pure existing
  begin_over false existing result = do
    lift (
        require (same (cleanup_text existing.cleanup_phase) "complete")
          "prior obfuscation transition cleanup is incomplete")
    record_outcome result

  unfoldable pub begin_after : Option Outcome → Outcome → Exec (Disk Outside) Outcome
  begin_after none result = record_outcome result
  begin_after (some existing) result =
      begin_over (same existing.transaction_id result.transaction_id) existing result

  unfoldable pub begin_transition_outcome :
      Transition → Ending → Reason → String → List Update → Exec (Disk Outside) Outcome
  begin_transition_outcome document ending reason completed_at updates = do
    t ← lift (normalize_transition_document library (transition_document document))
    stored ← asks (load_stored h)
    lift (
        require_equal Transition-discrete stored t
          "obfuscation transition changed; stale completion rejected")
    result ← lift (
        normalize_transition_outcome iso
          (outcome_document (outcome_of t ending reason completed_at updates)))
    asks (λ d. layout d.outside)
    existing ← asks (load_outcome h)
    begin_after existing result

  unfoldable pub complete_transition_document :
      Bool → Transition → Ending → Reason → String → Exec (Disk Outside) Outcome
  complete_transition_document skip document ending reason completed_at = do
    recorded ← begin_transition_outcome document ending reason completed_at []
    resume_transition_cleanup skip (some document) recorded
