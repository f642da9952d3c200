-- ===== src/Service/Document.antt =====
-- `normalize_service_operation_intent` of awgctl/core.py: the strict reading of the intent's JSON
-- document, and the document of an intent.
pub mod Accepts
pub mod RoundTrip
pub mod Faithful
use amneziawg_manager.Prelude.{
  ℕ, ◌-◌, ◌^◌, String, Bool, true, false, ◌||◌, ◌&&◌, Option, none, some, List, [], ◌∷◌, ltb, leb,
  length, same, if◌then◌else◌,
}
use amneziawg_manager.Prelude.Int.{ℤ, pos, in_range}
use amneziawg_manager.Result.{Result, ok, raised, ◌>>=◌, ◌>>◌, raise_if, require, or_raise}
use amneziawg_manager.Value.{
  Value, Items, Fields, null, bool, int, str, arr, obj, item, nil, field, end, as_dict, as_text,
  as_int, as_bool, as_list, is_null, at, dict_of,
}
use amneziawg_manager.Timestamp.{Iso, transition_time}
use amneziawg_manager.Validate.{validate_transaction_id, is_sha256, is_interface, text_where}
use amneziawg_manager.Service.Intent.{
  Action, start, stop, restart, Phase, prepared, invoking, compensating, verified, Goal, requested,
  stopped, Hook, up, down, Intent, expected_for,
}

abbrev intent_fields : List String
intent_fields =
    "schema_version" ∷ "operation_id" ∷ "service_action" ∷ "interface" ∷ "phase" ∷ "goal"
    ∷ "expected_actions" ∷ "next_action" ∷ "transition_id" ∷ "generation_sha256" ∷ "owner_pid"
    ∷ "owner_start_ticks" ∷ "pre_service_active" ∷ "pre_firewall_up" ∷ "created_at" ∷ "updated_at"
    ∷ []

pub action_named : String → Option Action
action_named s =
    if same s "start"
    then some start
    else if same s "stop"
    then some stop
    else if same s "restart"
    then some restart
    else none

pub phase_named : String → Option Phase
phase_named s =
    if same s "prepared"
    then some prepared
    else if same s "invoking"
    then some invoking
    else if same s "compensating"
    then some compensating
    else if same s "verified"
    then some verified
    else none

pub goal_named : String → Option Goal
goal_named s =
    if same s "requested" then some requested else if same s "stopped" then some stopped else none

abbrev is_text : String → Value → Bool
is_text s v = elim (as_text v) [ none ↦ false | some t ↦ same t s ]

abbrev hook_name : Hook → String
hook_name up = "up"
hook_name down = "down"

hook_read : Value → Option Hook
hook_read v = if is_text "up" v then some up else if is_text "down" v then some down else none

with_hook : Option Hook → Option (List Hook) → Option (List Hook)
with_hook none hs = none
with_hook (some h) none = none
with_hook (some h) (some hs) = some (h ∷ hs)

hooks_in : List Value → Option (List Hook)
unfolding hook_read with_hook
hooks_in [] = some []
hooks_in (v ∷ vs) = with_hook (hook_read v) (hooks_in vs)

-- The hooks that a JSON list of texts names.
pub hooks_read : Value → Option (List Hook)
unfolding hooks_in
hooks_read v = elim (as_list v) [ none ↦ none | some vs ↦ hooks_in vs ]

-- `expected_actions == expected`
same_hooks : List Hook → List Hook → Bool
same_hooks [] [] = true
same_hooks [] (h ∷ hs) = false
same_hooks (g ∷ gs) [] = false
same_hooks (g ∷ gs) (h ∷ hs) = same (hook_name g) (hook_name h) && same_hooks gs hs

-- the phase and goal that contradict one another
inconsistent : Phase → Goal → Bool
inconsistent prepared requested = false
inconsistent prepared stopped = true
inconsistent invoking requested = false
inconsistent invoking stopped = true
inconsistent compensating requested = true
inconsistent compensating stopped = false
inconsistent verified g = false

optional_id : Value → Result (Option String)
optional_id v = if is_null v then ok none else (do t ← validate_transaction_id v; ok (some t))

process_identity : Value → Value → Result (ℕ × ℕ)
process_identity p t = do
  pid_given ← or_raise (as_int p) "service operation owner is invalid"
  pid ← or_raise (in_range 1 (2 ^ 31 - 1) pid_given) "service operation owner is invalid"
  ticks_given ← or_raise (as_int t) "service operation owner is invalid"
  ticks ← or_raise (in_range 1 (2 ^ 63 - 1) ticks_given) "service operation owner is invalid"
  ok (pid, ticks)

-- the owner that goes with the phase
owner_of : Phase → Value → Value → Result (Option (ℕ × ℕ))
unfolding process_identity
owner_of prepared p t = do o ← process_identity p t; ok (some o)
owner_of invoking p t = do o ← process_identity p t; ok (some o)
owner_of compensating p t = do o ← process_identity p t; ok (some o)
owner_of verified p t = do
  require (is_null p && is_null t) "service operation recovery owner is invalid"
  ok none

abbrev pub action_name : Action → String
action_name start = "start"
action_name stop = "stop"
action_name restart = "restart"

abbrev pub phase_name : Phase → String
phase_name prepared = "prepared"
phase_name invoking = "invoking"
phase_name compensating = "compensating"
phase_name verified = "verified"

abbrev goal_name : Goal → String
goal_name requested = "requested"
goal_name stopped = "stopped"

abbrev hooks_value : List Hook → Items
hooks_value [] = nil
hooks_value (h ∷ hs) = item (str (hook_name h)) (hooks_value hs)

abbrev pub text_or_null : Option String → Value
text_or_null none = null
text_or_null (some s) = str s

abbrev pid_value : Option (ℕ × ℕ) → Value
pid_value none = null
pid_value (some (pid, ticks)) = int (pos pid)

abbrev ticks_value : Option (ℕ × ℕ) → Value
ticks_value none = null
ticks_value (some (pid, ticks)) = int (pos ticks)

-- The JSON document of an intent, as `service_action` and `_service_intent_with` lay it out.
pub document_fields : Intent → Fields
document_fields i =
    (field "schema_version" (int (pos 1)) (
      field "operation_id" (str i.operation_id) (
        field "service_action" (str (action_name i.service_action)) (
          field "interface" (str i.interface) (
            field "phase" (str (phase_name i.phase)) (
              field "goal" (str (goal_name i.goal)) (
                field "expected_actions" (arr (hooks_value i.expected_actions)) (
                  field "next_action" (int (pos i.next_action)) (
                    field "transition_id" (text_or_null i.transition_id) (
                      field "generation_sha256" (str i.generation_sha256) (
                        field "owner_pid" (pid_value i.owner) (
                          field "owner_start_ticks" (ticks_value i.owner) (
                            field "pre_service_active" (bool i.pre_service_active) (
                              field "pre_firewall_up" (bool i.pre_firewall_up) (
                                field "created_at" (str i.created_at)
                                  (field "updated_at" (str i.updated_at) end))))))))))))))))

pub document : Intent → Value
unfolding document_fields
document i = obj (document_fields i)

-- The strict contract of the document.
pub normalize_service_operation_intent : Iso → Value → Result Intent
unfolding action_named phase_named goal_named hooks_read same_hooks inconsistent optional_id
    owner_of
normalize_service_operation_intent iso value = do
  d ← dict_of intent_fields value "service operation intent is invalid"
  schema ← or_raise (as_int (← at "schema_version" d)) "service operation intent is invalid"
  schema_version ← or_raise (in_range 1 1 schema) "service operation intent is invalid"
  operation_id ← validate_transaction_id (← at "operation_id" d)
  action_text ← or_raise (as_text (← at "service_action" d)) "service operation action is invalid"
  action ← or_raise (action_named action_text) "service operation action is invalid"
  interface ← text_where is_interface (← at "interface" d) "service operation interface is invalid"
  phase_text ← or_raise (as_text (← at "phase" d)) "service operation phase is invalid"
  phase ← or_raise (phase_named phase_text) "service operation phase is invalid"
  goal_text ← or_raise (as_text (← at "goal" d)) "service operation goal is invalid"
  goal ← or_raise (goal_named goal_text) "service operation goal is invalid"
  raise_if (inconsistent phase goal) "service operation phase and goal are inconsistent"
  let expected = expected_for goal action
  actions ←
      or_raise (hooks_read (← at "expected_actions" d))
        "service operation action sequence is invalid"
  require (same_hooks actions expected) "service operation action sequence is invalid"
  next_given ←
      or_raise (as_int (← at "next_action" d)) "service operation action progress is invalid"
  next ←
      or_raise (in_range 0 (length expected) next_given)
        "service operation action progress is invalid"
  transition ← optional_id (← at "transition_id" d)
  generation ←
      text_where is_sha256 (← at "generation_sha256" d) "service operation generation is invalid"
  owner ← owner_of phase (← at "owner_pid" d) (← at "owner_start_ticks" d)
  service_active ←
      or_raise (as_bool (← at "pre_service_active" d)) "pre_service_active must be boolean"
  firewall_up ← or_raise (as_bool (← at "pre_firewall_up" d)) "pre_firewall_up must be boolean"
  created_text ← at "created_at" d
  created ← transition_time iso created_text
  updated_text ← at "updated_at" d
  updated ← transition_time iso updated_text
  raise_if (ltb updated created) "service operation timestamps are inconsistent"
  created_at ← or_raise (as_text created_text) "created_at"
  updated_at ← or_raise (as_text updated_text) "updated_at"
  ok (record {
    operation_id = operation_id;
    service_action = action;
    interface = interface;
    phase = phase;
    goal = goal;
    expected_actions = actions;
    next_action = next;
    transition_id = transition;
    generation_sha256 = generation;
    owner = owner;
    pre_service_active = service_active;
    pre_firewall_up = firewall_up;
    created_at = created_at;
    updated_at = updated_at;
  })
