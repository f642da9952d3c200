-- ===== src/Service/Document/Faithful.antt =====
-- The texts of a document and the intent that they are read as, for
-- `normalize_service_operation_intent` of awgctl/core.py.
use mathlib.Core.Path.{subst}
use amneziawg_manager.Prelude.{
  ℕ, ◌≡◌, ◌↔◌, refl, sym, ap, ◌∙◌, String, Option, none, some, List, arith,
}
use amneziawg_manager.Prelude.Int.{pos, in_range}
use amneziawg_manager.Result.{
  ok, ◌>>=◌, or_raise, Ensures, bind-Ensures, known-Ensures, ok-Ensures, or_raise-eq-ok,
}
use amneziawg_manager.Value.{arr, dict_of}
use amneziawg_manager.Validate.{
  is_interface, is_sha256, validate_transaction_id, text_where-read, id-read,
}
use amneziawg_manager.Timestamp.{Iso}
use amneziawg_manager.Service.Intent.{
  Action, start, Phase, prepared, invoking, compensating, verified, Goal, requested, Hook, Intent,
  IsValid,
}
use amneziawg_manager.Service.Document.{
  action_named, action_name, phase_named, phase_name, goal_named, goal_name, hooks_value,
  text_or_null, pid_value, ticks_value, hooks_read, optional_id, process_identity, owner_of,
  intent_fields, document_fields, document, normalize_service_operation_intent,
}
use amneziawg_manager.Service.Document.Accepts.{normalize-IsValid}
use amneziawg_manager.Service.Document.RoundTrip.{hooks_read-hooks_value, normalize-document}

hooks_read-read :
    (hs : List Hook) (e : String) {gs : List Hook}
    → or_raise (hooks_read (arr (hooks_value hs))) e ≡ ok gs
    → gs ≡ hs
hooks_read-read hs e {gs = gs} h =
    let same : some gs ≡ some hs = sym (or_raise-eq-ok _ e h) ∙ hooks_read-hooks_value hs in cc

optional_id-read :
    (t : Option String) {u : Option String} → optional_id (text_or_null t) ≡ ok u → u ≡ t
unfolding optional_id validate_transaction_id ◌>>=◌
optional_id-read none h = ground arith
optional_id-read (some t) h = ground arith

owner_of-read :
    (p : Phase) (o : Option (ℕ × ℕ)) {u : Option (ℕ × ℕ)}
    → owner_of p (pid_value o) (ticks_value o) ≡ ok u
    → u ≡ o
unfolding owner_of process_identity ◌>>=◌
owner_of-read verified none h = ground arith
owner_of-read verified (some (pid, ticks)) h = ground arith
owner_of-read prepared none h = ground arith
owner_of-read prepared (some (pid, ticks)) h = ground arith
owner_of-read invoking none h = ground arith
owner_of-read invoking (some (pid, ticks)) h = ground arith
owner_of-read compensating none h = ground arith
owner_of-read compensating (some (pid, ticks)) h = ground arith

dict_of-document :
    (i : Intent) (e : String) → dict_of intent_fields (document i) e ≡ ok (document_fields i)
unfolding document dict_of ◌>>=◌
dict_of-document i e = refl

action-read :
    (a : Action) (e : String) {b : Action}
    → or_raise (action_named (action_name a)) e ≡ ok b
    → b ≡ a
unfolding action_named
action-read start e h = ground arith
action-read _ e h = ground arith

phase-read :
    (p : Phase) (e : String) {q : Phase} → or_raise (phase_named (phase_name p)) e ≡ ok q → q ≡ p
unfolding phase_named
phase-read prepared e h = ground arith
phase-read _ e h = ground arith

goal-read :
    (g : Goal) (e : String) {k : Goal} → or_raise (goal_named (goal_name g)) e ≡ ok k → k ≡ g
unfolding goal_named
goal-read requested e h = ground arith
goal-read _ e h = ground arith

in_range-read :
    (lo hi n : ℕ) (e : String) {m : ℕ} → or_raise (in_range lo hi (pos n)) e ≡ ok m → m ≡ n
in_range-read lo hi n e h = ground arith

normalize-read :
    (iso : Iso) (i : Intent)
    → Ensures (λ n. n ≡ i) (normalize_service_operation_intent iso (document i))
unfolding normalize_service_operation_intent document_fields
normalize-read iso i = rw dict_of-document (
    known-Ensures _ _ λ _. known-Ensures _ _ λ _. known-Ensures _ _ λ _.
      bind-Ensures _ _ λ schema _. known-Ensures _ _ λ _. bind-Ensures _ _ λ operation_id h1.
        known-Ensures _ _ λ _. known-Ensures _ _ λ _. bind-Ensures _ _ λ action h2.
          known-Ensures _ _ λ _. bind-Ensures _ _ λ interface h3. known-Ensures _ _ λ _.
            known-Ensures _ _ λ _. bind-Ensures _ _ λ phase h4. known-Ensures _ _ λ _.
              known-Ensures _ _ λ _. bind-Ensures _ _ λ goal h5. bind-Ensures _ _ λ _ _.
                known-Ensures _ _ λ _. bind-Ensures _ _ λ actions h6. bind-Ensures _ _ λ _ _.
                  known-Ensures _ _ λ _. known-Ensures _ _ λ _. bind-Ensures _ _ λ next h7.
                    known-Ensures _ _ λ _. bind-Ensures _ _ λ transition h8. known-Ensures _ _ λ _.
                      bind-Ensures _ _ λ generation h9. known-Ensures _ _ λ _.
                        known-Ensures _ _ λ _. bind-Ensures _ _ λ owner h10. known-Ensures _ _ λ _.
                          known-Ensures _ _ λ _. known-Ensures _ _ λ _. known-Ensures _ _ λ _.
                            known-Ensures _ _ λ _. bind-Ensures _ _ λ created _.
                              known-Ensures _ _ λ _. bind-Ensures _ _ λ updated _.
                                bind-Ensures _ _ λ _ _. known-Ensures _ _ λ _.
                                  known-Ensures _ _ λ _. ok-Ensures _ λ k. record i {
                                    operation_id = id-read i.operation_id h1 k;
                                    service_action = action-read i.service_action _ h2 k;
                                    interface = text_where-read is_interface i.interface _ h3 k;
                                    phase = phase-read i.phase _ h4 k;
                                    goal = goal-read i.goal _ h5 k;
                                    expected_actions = hooks_read-read i.expected_actions _ h6 k;
                                    next_action = in_range-read 0 _ i.next_action _ h7 k;
                                    transition_id = optional_id-read i.transition_id h8 k;
                                    generation_sha256 =
                                        text_where-read is_sha256 i.generation_sha256 _ h9 k;
                                    owner = owner_of-read phase i.owner h10 k;
                                  })

-- The document of an intent is accepted exactly where the intent is valid, and then it is read
-- as that intent.
pub normalize-document_iff :
    (iso : Iso) (i n : Intent)
    → (normalize_service_operation_intent iso (document i) ≡ ok n) ↔ (IsValid iso i × (n ≡ i))
normalize-document_iff iso i n = (
  λ h.
      let same : n ≡ i = (normalize-read iso i).on n h in
      (subst (IsValid iso) same ((normalize-IsValid iso (document i)).on n h), same),
  λ (valid, same). normalize-document iso i valid ∙ ap ok (sym same),
)
