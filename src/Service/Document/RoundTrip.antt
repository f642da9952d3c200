-- ===== src/Service/Document/RoundTrip.antt =====
-- Writing an intent as a document and reading it again.
use amneziawg_manager.Prelude.{
  ℕ, ◌≤◌, ◌≡◌, refl, ap, sym, true, false, String, Option, none, some, List, [], ◌∷◌, arith, ltb,
}
use amneziawg_manager.Prelude.Int.{in_range-pos}
use amneziawg_manager.Result.{ok, ◌>>=◌}
use amneziawg_manager.Value.{arr, dict_of}
use amneziawg_manager.Validate.{
  is_transaction_id, is_interface, is_sha256, validate_transaction_id, text_where-str,
}
use amneziawg_manager.Timestamp.{Iso, transition_time-str}
use amneziawg_manager.Service.Intent.{
  Action, start, Phase, prepared, invoking, compensating, verified, Goal, requested, Hook, up, down,
  Intent, IdentityFits, OwnerFits, GoalFits, TransitionFits, IsValid,
}
use amneziawg_manager.Service.Document.{
  action_named, action_name, phase_named, phase_name, goal_named, goal_name, hooks_value,
  text_or_null, pid_value, ticks_value, hook_read, with_hook, hooks_in, hooks_read, same_hooks,
  inconsistent, optional_id, process_identity, owner_of, document,
  normalize_service_operation_intent,
}

pub action_named-action_name : (a : Action) → action_named (action_name a) ≡ some a
unfolding action_named
action_named-action_name start = refl
action_named-action_name _ = refl

pub phase_named-phase_name : (p : Phase) → phase_named (phase_name p) ≡ some p
unfolding phase_named
phase_named-phase_name prepared = refl
phase_named-phase_name _ = refl

pub goal_named-goal_name : (g : Goal) → goal_named (goal_name g) ≡ some g
unfolding goal_named
goal_named-goal_name requested = refl
goal_named-goal_name _ = refl

GoalFits-inconsistent : (p : Phase) (g : Goal) → GoalFits p g → inconsistent p g ≡ false
unfolding inconsistent
GoalFits-inconsistent p g h = ground arith

pub hooks_read-hooks_value : (hs : List Hook) → hooks_read (arr (hooks_value hs)) ≡ some hs
unfolding hooks_read hook_read with_hook hooks_in
hooks_read-hooks_value [] = refl
hooks_read-hooks_value (up ∷ hs) = rw (hooks_read-hooks_value hs) refl
hooks_read-hooks_value (down ∷ hs) = rw (hooks_read-hooks_value hs) refl

same_hooks_refl : (hs : List Hook) → same_hooks hs hs ≡ true
unfolding same_hooks
same_hooks_refl [] = refl
same_hooks_refl (up ∷ hs) = same_hooks_refl hs
same_hooks_refl (down ∷ hs) = same_hooks_refl hs

optional_id-text_or_null :
    (t : Option String) → TransitionFits t → optional_id (text_or_null t) ≡ ok t
unfolding optional_id validate_transaction_id ◌>>=◌
optional_id-text_or_null none h = refl
optional_id-text_or_null (some t) h = rw h

process_identity-int :
    (o : ℕ × ℕ)
    → IdentityFits o
    → process_identity (pid_value (some o)) (ticks_value (some o)) ≡ ok o
unfolding process_identity ◌>>=◌
process_identity-int (pid, ticks) h =
    simp (in_range-pos _ _ pid h.0 h.1, in_range-pos _ _ ticks h.2 h.3)

owner_of-pid_value :
    (p : Phase) (o : Option (ℕ × ℕ))
    → OwnerFits p o
    → owner_of p (pid_value o) (ticks_value o) ≡ ok o
unfolding owner_of ◌>>=◌
owner_of-pid_value verified none h = refl
owner_of-pid_value verified (some o) h = elim h [ ]
owner_of-pid_value prepared none h = elim h [ ]
owner_of-pid_value invoking none h = elim h [ ]
owner_of-pid_value compensating none h = elim h [ ]
owner_of-pid_value prepared (some o) h = rw (process_identity-int o h)
owner_of-pid_value invoking (some o) h = rw (process_identity-int o h)
owner_of-pid_value compensating (some o) h = rw (process_identity-int o h)

not_ltb : (a b : ℕ) → a ≤ b → ltb b a ≡ false
not_ltb a b h = ground arith

-- A valid intent survives being written as its JSON document and read back.
pub normalize-document :
    (iso : Iso) (i : Intent)
    → IsValid iso i
    → normalize_service_operation_intent iso (document i) ≡ ok i
unfolding normalize_service_operation_intent document validate_transaction_id dict_of ◌>>=◌
normalize-document iso i h =
    simp
      (
        text_where-str is_transaction_id i.operation_id _ h.id_fits,
        text_where-str is_interface i.interface _ h.interface_fits,
        text_where-str is_sha256 i.generation_sha256 _ h.generation_fits,
        action_named-action_name,
        phase_named-phase_name,
        goal_named-goal_name,
        GoalFits-inconsistent i.phase i.goal h.goal_fits,
        h.actions_fit,
        hooks_read-hooks_value,
        same_hooks_refl,
        in_range-pos 0 _ i.next_action (omega arith) h.progress_fits,
        optional_id-text_or_null i.transition_id h.transition_fits,
        owner_of-pid_value i.phase i.owner h.owner_fits,
        transition_time-str,
        h.times_fit.created_read,
        h.times_fit.updated_read,
        not_ltb _ _ h.times_fit.in_order,
      )
      (ap (λ actions. ok (record i { expected_actions = actions })) (sym h.actions_fit))
