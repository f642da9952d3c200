-- ===== src/Transition/Outcome.antt =====
-- `normalize_transition_outcome` of awgctl/core.py: the strict reading of the record of a finished
-- transition and of the progress of its cleanup, and the document of an outcome.
pub mod Faithful
pub mod Accepts
pub mod RoundTrip
use amneziawg_manager.Prelude.{
  ℕ, ◌+◌, String, Bool, true, false, not, ◌||◌, ◌&&◌, Option, none, some, List, [], ◌∷◌, map, leb,
  ◌==◌, same, one_of, length, if◌then◌else◌,
}
use amneziawg_manager.Prelude.Int.{ℤ, pos, in_range}
use amneziawg_manager.Prelude.Sort.{sorted, same_texts}
use amneziawg_manager.Result.{Result, ok, raised, ◌>>=◌, ◌>>◌, raise_if, require, or_raise}
use amneziawg_manager.Value.{
  Value, Items, Fields, int, str, arr, obj, item, nil, field, end, as_text, as_int, as_list, at,
  dict_of,
}
use amneziawg_manager.Timestamp.{Iso, transition_time}
use amneziawg_manager.Validate.{validate_transaction_id, validate_client_name, text_where}
use amneziawg_manager.Transition.Document.{text_is, number_in, positive}

pub data Ending : Type 0 where
  confirmed rolled_back : Ending

pub data Reason : Type 0 where
  by_confirmation by_operator by_timeout by_failure by_expiry : Reason

-- how far the cleanup has come
pub data Checkpoint : Type 0 where
  checkpoint metadata pending current complete : Checkpoint

-- an entry of `profile_updates`
pub record Update : Type 0 where
  pub name : String
  pub from_revision : ℕ
  pub to_revision : ℕ

pub record Outcome : Type 0 where
  pub transaction_id : String
  pub outcome : Ending
  pub reason : Reason
  pub completed_at : String
  pub client_name : String
  pub old_port : ℕ
  pub new_port : ℕ
  pub cleanup_phase : Checkpoint
  pub profile_updates : List Update

unfoldable pub ending_named : String → Option Ending
ending_named s =
    if same s "confirmed"
    then some confirmed
    else if same s "rolled_back"
    then some rolled_back
    else none

unfoldable pub reason_named : String → Option Reason
reason_named s =
    if same s "confirmed"
    then some by_confirmation
    else if same s "operator"
    then some by_operator
    else if same s "timeout"
    then some by_timeout
    else if same s "activation-failed"
    then some by_failure
    else if same s "expiry"
    then some by_expiry
    else none

unfoldable pub cleanup_named : String → Option Checkpoint
cleanup_named s =
    if same s "checkpoint"
    then some checkpoint
    else if same s "metadata"
    then some metadata
    else if same s "pending"
    then some pending
    else if same s "current"
    then some current
    else if same s "complete"
    then some complete
    else none

-- `(outcome == "confirmed") == (reason == "confirmed")`
abbrev pub agrees : Ending → Reason → Bool
agrees confirmed by_confirmation = true
agrees confirmed _ = false
agrees rolled_back by_confirmation = false
agrees rolled_back _ = true

unfoldable pub read_update : List String → Value → Result Update
read_update names v = do
  d ←
      dict_of ("name" ∷ "from_revision" ∷ "to_revision" ∷ []) v
        "invalid obfuscation transition profile update checkpoint"
  name ← validate_client_name (← at "name" d)
  raise_if (one_of name names) "invalid obfuscation transition profile update checkpoint"
  before_given ←
      or_raise (as_int (← at "from_revision" d))
        "invalid obfuscation transition profile update checkpoint"
  before ←
      or_raise (positive before_given) "invalid obfuscation transition profile update checkpoint"
  after_given ←
      or_raise (as_int (← at "to_revision" d))
        "invalid obfuscation transition profile update checkpoint"
  after ←
      or_raise (in_range (before + 1) (before + 1) after_given)
        "invalid obfuscation transition profile update checkpoint"
  ok (record { name = name; from_revision = before; to_revision = after })

unfoldable pub read_updates : List String → List Value → Result (List Update)
read_updates names [] = ok []
read_updates names (v ∷ vs) = do
  u ← read_update names v
  us ← read_updates (u.name ∷ names) vs
  ok (u ∷ us)

-- A confirmed outcome has updates, and one that was rolled back has none.
abbrev pub updates_fit : Ending → List Update → Bool
updates_fit confirmed [] = false
updates_fit confirmed (u ∷ us) = true
updates_fit rolled_back [] = true
updates_fit rolled_back (u ∷ us) = false

abbrev pub update_names : List Update → List String
update_names us = map (λ u. u.name) us

abbrev outcome_fields : List String
outcome_fields =
    "schema_version" ∷ "transaction_id" ∷ "outcome" ∷ "reason" ∷ "completed_at" ∷ "client_name"
    ∷ "profile_name" ∷ "old_port" ∷ "new_port" ∷ "cleanup_phase" ∷ "profile_updates" ∷ []

unfoldable pub normalize_transition_outcome : Iso → Value → Result Outcome
normalize_transition_outcome iso value = do
  d ←
      dict_of outcome_fields value
        "obfuscation transition outcome fields are incomplete or unexpected"
  schema ←
      number_in 1 1 (← at "schema_version" d) "unsupported obfuscation transition outcome schema"
  id ← validate_transaction_id (← at "transaction_id" d)
  ending_text ← or_raise (as_text (← at "outcome" d)) "invalid obfuscation transition outcome"
  ending ← or_raise (ending_named ending_text) "invalid obfuscation transition outcome"
  reason_text ← or_raise (as_text (← at "reason" d)) "invalid obfuscation transition outcome reason"
  reason ← or_raise (reason_named reason_text) "invalid obfuscation transition outcome reason"
  require (agrees ending reason) "inconsistent obfuscation transition outcome"
  completed_value ← at "completed_at" d
  completed_instant ← transition_time iso completed_value
  client ← validate_client_name (← at "client_name" d)
  profile ←
      text_is "russia-ios-v1" (← at "profile_name" d)
        "invalid obfuscation transition outcome profile"
  old_port ← number_in 1 65535 (← at "old_port" d) "invalid obfuscation transition outcome port"
  new_port ← number_in 1 65535 (← at "new_port" d) "invalid obfuscation transition outcome port"
  raise_if (not (leb 1024 new_port && leb new_port 9999) || new_port == old_port)
      "invalid obfuscation transition outcome port"
  phase_text ←
      or_raise (as_text (← at "cleanup_phase" d))
        "invalid obfuscation transition cleanup checkpoint"
  phase ← or_raise (cleanup_named phase_text) "invalid obfuscation transition cleanup checkpoint"
  given ←
      or_raise (as_list (← at "profile_updates" d))
        "invalid obfuscation transition profile update checkpoint"
  updates ← read_updates [] given
  require (same_texts (update_names updates) (sorted (update_names updates)))
      "obfuscation transition profile update checkpoint is not canonical"
  require (updates_fit ending updates) "transition outcome and its profile updates disagree"
  completed_at ← or_raise (as_text completed_value) "completed_at"
  ok (record {
    transaction_id = id;
    outcome = ending;
    reason = reason;
    completed_at = completed_at;
    client_name = client;
    old_port = old_port;
    new_port = new_port;
    cleanup_phase = phase;
    profile_updates = updates;
  })

abbrev pub ending_text : Ending → String
ending_text confirmed = "confirmed"
ending_text rolled_back = "rolled_back"

abbrev pub reason_text : Reason → String
reason_text by_confirmation = "confirmed"
reason_text by_operator = "operator"
reason_text by_timeout = "timeout"
reason_text by_failure = "activation-failed"
reason_text by_expiry = "expiry"

abbrev pub cleanup_text : Checkpoint → String
cleanup_text checkpoint = "checkpoint"
cleanup_text metadata = "metadata"
cleanup_text pending = "pending"
cleanup_text current = "current"
cleanup_text complete = "complete"

abbrev pub update_fields : Update → Fields
update_fields u = field "name" (str u.name) (
    field "from_revision" (int (pos u.from_revision))
      (field "to_revision" (int (pos u.to_revision)) end))

abbrev pub updates_value : List Update → Items
updates_value [] = nil
updates_value (u ∷ us) = item (obj (update_fields u)) (updates_value us)

-- The JSON document of an outcome, as `begin_transition_outcome` lays it out.
abbrev pub outcome_document_fields : Outcome → Fields
outcome_document_fields o = field "schema_version" (int (pos 1)) (
    field "transaction_id" (str o.transaction_id) (
      field "outcome" (str (ending_text o.outcome)) (
        field "reason" (str (reason_text o.reason)) (
          field "completed_at" (str o.completed_at) (
            field "client_name" (str o.client_name) (
              field "profile_name" (str "russia-ios-v1") (
                field "old_port" (int (pos o.old_port)) (
                  field "new_port" (int (pos o.new_port)) (
                    field "cleanup_phase" (str (cleanup_text o.cleanup_phase))
                      (field "profile_updates" (arr (updates_value o.profile_updates)) end))))))))))

abbrev pub outcome_document : Outcome → Value
outcome_document o = obj (outcome_document_fields o)
