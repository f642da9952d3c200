-- ===== src/Tests/Transition.antt =====
-- An obfuscation transition of one client on a disk that works.
use amneziawg_manager.Prelude.{
  ◌↔◌, ℕ, String, ◌≡◌, ◌⊎◌, refl, false, none, some, [], ◌∷◌, same, if◌then◌else◌,
}
use amneziawg_manager.Prelude.Int.{pos}
use amneziawg_manager.Validate.{
  is_client_name, is_transaction_id, is_sha256, is_backup_name, validate_client_name,
  validate_transaction_id,
}
use amneziawg_manager.Timestamp.{instant_of, transition_time}
use amneziawg_manager.Result.{◌>>=◌, ok, Ensures}
use amneziawg_manager.Value.{dict_of, Value, obj, field, end, str, int, null}
use amneziawg_manager.Step.Ends.{Ends}
use amneziawg_manager.Service.World.{written}
use amneziawg_manager.Transition.Document.RoundTrip.{normalize-transition_document_iff}
use amneziawg_manager.Transition.Outcome.RoundTrip.{normalize-outcome_document_iff}
use amneziawg_manager.Transition.Document.{
  Library, prepared, lightsail, Transition, normalize_transition_document, text_is, number_in,
  is_true, all_null, path_is, read_profile, read_profiles, read_pending, read_activation,
  read_state, is_version, boundary_named,
}
use amneziawg_manager.Transition.Document.Written.{transition_document}
use amneziawg_manager.Transition.Document.Accepts.{IsTransition, normalize-IsTransition}
use amneziawg_manager.Transition.Outcome.{
  confirmed, rolled_back, by_confirmation, by_operator, Checkpoint, checkpoint, metadata, pending,
  current, ending_named, reason_named, cleanup_named, read_updates, complete, Update, Outcome,
  outcome_document, normalize_transition_outcome,
}
use amneziawg_manager.Transition.Outcome.Accepts.{IsOutcome, normalize-IsOutcome}
use amneziawg_manager.Transition.Load.{Disk, Host, load_transition, read_transition}
use amneziawg_manager.Transition.Store.{compare_and_swap_transition}
use amneziawg_manager.Transition.Store.Swap.{Swapped, compare_and_swap_transition-Ends}
use amneziawg_manager.Transition.Cleanup.{
  at_phase, outcome_of, begin_transition_outcome, resume_transition_cleanup,
  apply_confirmed_profile_updates,
}
use amneziawg_manager.Transition.Cleanup.Metadata.{
  Applied, OutcomeFrame, apply_confirmed_profile_updates-Applied,
}
use amneziawg_manager.Transition.Cleanup.Resume.{
  Completed, Resumable, resume_transition_cleanup-Cleans,
}
use amneziawg_manager.Transition.Cleanup.Completes.{
  Returns, Works, resume_transition_cleanup-Returns,
}
use amneziawg_manager.Transition.Cleanup.Repair.{Repaired, resume_transition_cleanup-Repaired}
use amneziawg_manager.Transition.Cleanup.Begin.{
  Started, NotStarted, begin_transition_outcome-Started,
}
use amneziawg_manager.Tests.Host.{iso, operation, digest}

abbrev library : Library
library = record { iso = iso; same_path = same }

-- every write ends well
abbrev host : Host
host = record {
  Outside = ℕ;
  library = library;
  dates = λ s. some s;
  readable = λ _. ok tt;
  layout = λ _. ok tt;
  ends = λ _. written;
  next = λ n. n;
  cancel_recovery = λ id n. (ok tt, n);
}

abbrev root : String
root = "/opt/amneziawg/pending/obfuscation/0123456789abcdef0123456789abcdef"

abbrev planned : Transition
planned = record {
  transaction_id = operation;
  state = prepared;
  client_name = "phone";
  old_port = 443;
  new_port = 4500;
  backup_name = "20260901T110000Z";
  manifest_sha256 = digest;
  snapshot_sha256 = digest;
  ingress_boundary = lightsail;
  tools_version = "1.0.20250901";
  module_version = "1.0.20250901";
  pending = record {
    root = root;
    server_state =
        "/opt/amneziawg/pending/obfuscation/0123456789abcdef0123456789abcdef/server.json";
    server_config = "/opt/amneziawg/pending/obfuscation/0123456789abcdef0123456789abcdef/awg0.conf";
    header_key =
        "/opt/amneziawg/pending/obfuscation/0123456789abcdef0123456789abcdef/header-protection";
    profiles =
        record {
          name = "phone";
          config =
              "/opt/amneziawg/pending/obfuscation/0123456789abcdef0123456789abcdef/clients/phone/phone.conf";
          qr =
              "/opt/amneziawg/pending/obfuscation/0123456789abcdef0123456789abcdef/clients/phone/phone.png";
          current_revision = 1;
        }
        ∷ [];
  };
  prepared_at = "2026-09-01T11:00:00Z";
  prestate_sha256 = digest;
  pending_sha256 = digest;
}

abbrev phone_update : Update
phone_update = record { name = "phone"; from_revision = 1; to_revision = 2 }

abbrev confirmation : Outcome
confirmation =
    outcome_of planned confirmed by_confirmation "2026-09-01T11:05:00Z" (phone_update ∷ [])

abbrev phone_metadata : Value
phone_metadata = obj (
    field "schema_version" (int (pos 3)) (
      field "name" (str "phone") (
        field "management" (str "managed") (
          field "owner" null (
            field "device" null (
              field "expires" null (
                field "profile_revision" (int (pos 1)) (
                  field "profile_generated_at" (str "2026-09-01T10:00:00Z") (
                    field "profile_change_reason" (str "created") (
                      field "distribution_status" (str "pending")
                        (field "distributed_at" null end)))))))))))

-- the transition is stored, and its artifacts and the client's metadata are there
abbrev pending_change : Disk ℕ
pending_change = record {
  files = record {
    transition = some (transition_document planned);
    outcome = none;
    pending = λ path. same path root;
    metadata = λ name. if same name "phone" then some phone_metadata else none;
  };
  outside = 0;
}

-- and the confirmation is recorded, with nothing of its cleanup done
abbrev confirmed_change : Disk ℕ
confirmed_change = record pending_change {
  files = record pending_change.files { outcome = some (outcome_document confirmation) };
}

normalize-transition_document_iff_example :
    (normalize_transition_document library (transition_document planned) ≡ ok planned)
    ↔ (IsTransition library planned × (planned ≡ planned))
normalize-transition_document_iff_example =
    normalize-transition_document_iff library planned planned

normalize-IsTransition_example :
    Ensures
      (IsTransition library)
      (normalize_transition_document library (transition_document planned))
normalize-IsTransition_example = normalize-IsTransition library (transition_document planned)

normalize-outcome_document_iff_example :
    (normalize_transition_outcome iso (outcome_document confirmation) ≡ ok confirmation)
    ↔ (IsOutcome iso confirmation × (confirmation ≡ confirmation))
normalize-outcome_document_iff_example =
    normalize-outcome_document_iff iso confirmation confirmation

normalize-IsOutcome_example :
    Ensures (IsOutcome iso) (normalize_transition_outcome iso (outcome_document confirmation))
normalize-IsOutcome_example = normalize-IsOutcome iso (outcome_document confirmation)

compare_and_swap_transition-Ends_example :
    Ends
      (λ _ (d' : Disk ℕ).
        Swapped host planned none none
          (record pending_change { files = record pending_change.files { transition = none } })
          d')
      (λ _ (d' : Disk ℕ).
        (d'.files ≡ record pending_change.files { transition = none })
        ⊎ Swapped host planned none none
            (record pending_change { files = record pending_change.files { transition = none } })
            d')
      (compare_and_swap_transition host planned none none
        (record pending_change { files = record pending_change.files { transition = none } }))
compare_and_swap_transition-Ends_example =
    compare_and_swap_transition-Ends host planned none none
      (record pending_change { files = record pending_change.files { transition = none } })

apply_confirmed_profile_updates-Applied_example :
    Ends
      (λ _ (w' : Disk ℕ).
        Applied host confirmation w'.files.metadata
        × OutcomeFrame host confirmation confirmed_change.files w'.files)
      (λ _ (w' : Disk ℕ). OutcomeFrame host confirmation confirmed_change.files w'.files)
      (apply_confirmed_profile_updates host confirmation confirmed_change)
apply_confirmed_profile_updates-Applied_example =
    apply_confirmed_profile_updates-Applied host confirmation confirmed_change

begin_transition_outcome-Started_example :
    Ends
      (λ o (w' : Disk ℕ). Started host planned confirmation pending_change o w'.files)
      (λ _ (w' : Disk ℕ). NotStarted host confirmation pending_change w'.files)
      (begin_transition_outcome host planned confirmed by_confirmation "2026-09-01T11:05:00Z"
        (phone_update ∷ [])
        pending_change)
begin_transition_outcome-Started_example =
    begin_transition_outcome-Started host planned confirmed by_confirmation "2026-09-01T11:05:00Z"
      (phone_update ∷ []) pending_change

resume_transition_cleanup-Cleans_example :
    Ends
      (λ o' (w' : Disk ℕ). Completed host planned confirmation o' w'.files)
      (λ _ (w' : Disk ℕ). Resumable host planned confirmation w'.files)
      (resume_transition_cleanup host false (some planned) confirmation confirmed_change)
resume_transition_cleanup-Cleans_example =
    resume_transition_cleanup-Cleans host false planned (some planned) confirmation confirmed_change
      (record { recorded = refl; done = tt }) refl

-- the outcome is recorded as complete while the transition is still stored
abbrev contradictory : Disk ℕ
contradictory = record pending_change {
  files = record pending_change.files {
    outcome = some (outcome_document (at_phase complete confirmation));
  };
}

stored_change : load_transition host contradictory ≡ ok (some planned)
unfolding load_transition read_transition normalize_transition_document text_is number_in is_true
    all_null path_is read_profile read_profiles read_pending read_activation read_state is_version
    boundary_named is_client_name is_transaction_id is_sha256 is_backup_name validate_client_name
    validate_transaction_id instant_of transition_time dict_of ◌>>=◌
stored_change = refl

resume_transition_cleanup-Repaired_example :
    Ends
      (λ o' (w' : Disk ℕ).
        (o' ≡ at_phase complete confirmation)
        × Repaired host planned (at_phase complete confirmation) contradictory.files w'.files)
      (λ _ (w' : Disk ℕ). w'.files.outcome ≡ contradictory.files.outcome)
      (resume_transition_cleanup host false none (at_phase complete confirmation) contradictory)
resume_transition_cleanup-Repaired_example =
    resume_transition_cleanup-Repaired host false none planned (at_phase complete confirmation)
      contradictory refl stored_change

-- the transition is rolled back instead
abbrev rollback : Outcome
rollback = outcome_of planned rolled_back by_operator "2026-09-01T11:05:00Z" []

abbrev rolled_change : Disk ℕ
rolled_change = record pending_change {
  files = record pending_change.files { outcome = some (outcome_document rollback) };
}

planned_accepted : normalize_transition_document library (transition_document planned) ≡ ok planned
unfolding normalize_transition_document text_is number_in is_true all_null path_is read_profile
    read_profiles read_pending read_activation read_state is_version boundary_named is_client_name
    is_transaction_id is_sha256 is_backup_name validate_client_name validate_transaction_id
    instant_of transition_time dict_of ◌>>=◌
planned_accepted = refl

rollback_accepted :
    (p : Checkpoint)
    → normalize_transition_outcome iso (outcome_document (at_phase p rollback))
      ≡ ok (at_phase p rollback)
unfolding normalize_transition_outcome ending_named reason_named cleanup_named read_updates
    number_in text_is is_client_name is_transaction_id validate_client_name validate_transaction_id
    instant_of transition_time dict_of ◌>>=◌
rollback_accepted checkpoint = refl
rollback_accepted metadata = refl
rollback_accepted pending = refl
rollback_accepted current = refl
rollback_accepted complete = refl

host-Works : Works host planned rollback
host-Works = record {
  reads = λ _. refl;
  writes = λ _. refl;
  cancels = λ _. refl;
  transition_accepted = planned_accepted;
  outcome_accepted = rollback_accepted;
  same_root = refl;
  of_transition = refl;
}

resume_transition_cleanup-Returns_example :
    Returns
      (λ o' (w' : Disk ℕ). o' ≡ at_phase complete rollback)
      (resume_transition_cleanup host false (some planned) rollback rolled_change)
resume_transition_cleanup-Returns_example =
    resume_transition_cleanup-Returns host false planned rollback rolled_change host-Works refl refl
      refl
