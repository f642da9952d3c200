-- ===== src/Service/Document/Accepts.antt =====
-- What `normalize_service_operation_intent` of awgctl/core.py accepts.
use amneziawg_manager.Prelude.{
  ℕ, ◌-◌, ◌^◌, ◌≤◌, ◌≡◌, true, false, none, some, List, [], ◌∷◌, ap, arith, ltb, refl, String,
  Bool-cases, inl, inr,
}
use amneziawg_manager.Prelude.Int.{ℤ, in_range, in_range_bounds}
use amneziawg_manager.Result.{
  ok, or_raise, Ensures, bind-Ensures, ok-Ensures, require-eq-ok, raise_if-eq-ok, or_raise-eq-ok,
}
use amneziawg_manager.Value.{Value, is_null, as_text}
use amneziawg_manager.Validate.{
  is_sha256, is_interface, text_where-Ensures, validate_transaction_id,
  validate_transaction_id-Ensures,
}
use amneziawg_manager.Timestamp.{Iso, transition_time, transition_time-eq-ok}
use amneziawg_manager.Service.Intent.{
  Phase, prepared, invoking, compensating, verified, Goal, Hook, up, down, IdentityFits, OwnerFits,
  GoalFits, TransitionFits, InOrder, IsValid,
}
use amneziawg_manager.Service.Document.{
  inconsistent, same_hooks, optional_id, process_identity, owner_of,
  normalize_service_operation_intent,
}

inconsistent-GoalFits : (p : Phase) (g : Goal) → inconsistent p g ≡ false → GoalFits p g
unfolding inconsistent
inconsistent-GoalFits p g h = ground arith

same_hooks-eq : (gs hs : List Hook) → same_hooks gs hs ≡ true → gs ≡ hs
unfolding same_hooks
same_hooks-eq [] [] h = refl
same_hooks-eq [] (j ∷ hs) h = cc
same_hooks-eq (g ∷ gs) [] h = cc
same_hooks-eq (up ∷ gs) (up ∷ hs) h = ap (λ t. up ∷ t) (same_hooks-eq gs hs h)
same_hooks-eq (up ∷ gs) (down ∷ hs) h = cc
same_hooks-eq (down ∷ gs) (up ∷ hs) h = cc
same_hooks-eq (down ∷ gs) (down ∷ hs) h = ap (λ t. down ∷ t) (same_hooks-eq gs hs h)

in_range-Ensures :
    (lo hi : ℕ) (z : ℤ) (e : String)
    → Ensures (λ n. (lo ≤ n) × (n ≤ hi)) (or_raise (in_range lo hi z) e)
in_range-Ensures lo hi z e = record { on = λ n h. ground (arith, in_range_bounds lo hi z {n = n}) }

optional_id-Ensures : (v : Value) → Ensures TransitionFits (optional_id v)
unfolding optional_id
optional_id-Ensures v = elim (Bool-cases (is_null v)) [
  | inl absent ↦ rw absent (ok-Ensures none tt)
  | inr given ↦ rw given (
      bind-Ensures (validate_transaction_id v) _
        λ t h. ok-Ensures (some t) ((validate_transaction_id-Ensures v).on t h))
]

process_identity-Ensures : (v w : Value) → Ensures IdentityFits (process_identity v w)
unfolding process_identity
process_identity-Ensures v w = bind-Ensures _ _ λ p _. bind-Ensures _ _ λ pid hp.
    bind-Ensures _ _ λ t _. bind-Ensures _ _ λ ticks ht.
      let (p1, p2) = (in_range-Ensures 1 (2 ^ 31 - 1) p _).on pid hp in
      let (t1, t2) = (in_range-Ensures 1 (2 ^ 63 - 1) t _).on ticks ht in
      ok-Ensures (pid, ticks) (p1, p2, t1, t2)

owner_of-Ensures : (p : Phase) (v w : Value) → Ensures (OwnerFits p) (owner_of p v w)
unfolding owner_of
owner_of-Ensures prepared v w =
    bind-Ensures _ _ λ o h. ok-Ensures (some o) ((process_identity-Ensures v w).on o h)
owner_of-Ensures invoking v w =
    bind-Ensures _ _ λ o h. ok-Ensures (some o) ((process_identity-Ensures v w).on o h)
owner_of-Ensures compensating v w =
    bind-Ensures _ _ λ o h. ok-Ensures (some o) ((process_identity-Ensures v w).on o h)
owner_of-Ensures verified v w = bind-Ensures _ _ λ _ _. ok-Ensures none tt

times :
    (iso : Iso) (v w : Value) {c u : String} {t t' : ℕ}
    → transition_time iso v ≡ ok t
    → transition_time iso w ≡ ok t'
    → as_text v ≡ some c
    → as_text w ≡ some u
    → ltb t' t ≡ false
    → InOrder iso c u
times iso v w {t = t} {t' = t'} h h' e e' order = record {
  created_instant = t;
  updated_instant = t';
  created_read = transition_time-eq-ok iso v e h;
  updated_read = transition_time-eq-ok iso w e' h';
  in_order = ground arith;
}

-- Whatever JSON value the reader accepts, the intent that it reads is valid.
pub normalize-IsValid :
    (iso : Iso) (v : Value) → Ensures (IsValid iso) (normalize_service_operation_intent iso v)
unfolding normalize_service_operation_intent
normalize-IsValid iso v = bind-Ensures _ _ λ d _. bind-Ensures _ _ λ schema_given _.
    bind-Ensures _ _ λ schema _. bind-Ensures _ _ λ schema_version _. bind-Ensures _ _ λ id_value _.
      bind-Ensures _ _ λ operation_id h_id. bind-Ensures _ _ λ action_value _.
        bind-Ensures _ _ λ action_text _. bind-Ensures _ _ λ action _.
          bind-Ensures _ _ λ interface_value _. bind-Ensures _ _ λ interface h_interface.
            bind-Ensures _ _ λ phase_value _. bind-Ensures _ _ λ phase_text _.
              bind-Ensures _ _ λ phase _. bind-Ensures _ _ λ goal_value _.
                bind-Ensures _ _ λ goal_text _. bind-Ensures _ _ λ goal _.
                  bind-Ensures _ _ λ _ h_goal. bind-Ensures _ _ λ actions_value _.
                    bind-Ensures _ _ λ actions _. bind-Ensures _ _ λ _ h_actions.
                      bind-Ensures _ _ λ next_value _. bind-Ensures _ _ λ next_given _.
                        bind-Ensures _ _ λ next h_next. bind-Ensures _ _ λ transition_value _.
                          bind-Ensures _ _ λ transition h_transition.
                            bind-Ensures _ _ λ generation_value _.
                              bind-Ensures _ _ λ generation h_generation.
                                bind-Ensures _ _ λ pid_value _. bind-Ensures _ _ λ ticks_value _.
                                  bind-Ensures _ _ λ owner h_owner.
                                    bind-Ensures _ _ λ active_value _.
                                      bind-Ensures _ _ λ service_active _.
                                        bind-Ensures _ _ λ firewall_value _.
                                          bind-Ensures _ _ λ firewall_up _.
                                            bind-Ensures _ _ λ created_value _.
                                              bind-Ensures _ _ λ created h_created.
                                                bind-Ensures _ _ λ updated_value _.
                                                  bind-Ensures _ _ λ updated h_updated.
                                                    bind-Ensures _ _ λ _ h_order.
                                                      bind-Ensures _ _ λ created_at h_created_at.
                                                        bind-Ensures _ _ λ updated_at h_updated_at.
                                                          ok-Ensures _ (record {
                                                            id_fits =
                                                            (validate_transaction_id-Ensures
                                                            id_value).on
                                                            operation_id h_id;
                                                            interface_fits =
                                                            (text_where-Ensures is_interface
                                                            interface_value _).on
                                                            interface h_interface;
                                                            goal_fits =
                                                            inconsistent-GoalFits phase goal
                                                            (raise_if-eq-ok _ _ h_goal);
                                                            actions_fit =
                                                            same_hooks-eq actions _
                                                            (require-eq-ok _ _ h_actions);
                                                            progress_fits =
                                                            ((in_range-Ensures 0 _ next_given _).on
                                                            next h_next).1;
                                                            transition_fits =
                                                            (optional_id-Ensures
                                                            transition_value).on
                                                            transition h_transition;
                                                            generation_fits =
                                                            (text_where-Ensures is_sha256
                                                            generation_value _).on
                                                            generation h_generation;
                                                            owner_fits =
                                                            (owner_of-Ensures phase pid_value
                                                            ticks_value).on
                                                            owner h_owner;
                                                            times_fit =
                                                            times iso created_value updated_value
                                                            h_created h_updated
                                                            (or_raise-eq-ok _ _ h_created_at)
                                                            (or_raise-eq-ok _ _ h_updated_at)
                                                            (raise_if-eq-ok _ _ h_order);
                                                          })
