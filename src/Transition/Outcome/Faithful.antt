-- ===== src/Transition/Outcome/Faithful.antt =====
-- The texts of an outcome's document and what they are read as, for
-- `normalize_transition_outcome` of awgctl/core.py.
use amneziawg_manager.Prelude.{ℕ, ◌≡◌, refl, String, List, [], ◌∷◌, arith}
use amneziawg_manager.Prelude.Int.{pos, in_range}
use amneziawg_manager.Result.{ok, or_raise, Ensures, bind-Ensures, known-Ensures, ok-Ensures}
use amneziawg_manager.Value.{items_list, obj, dict_of-obj}
use amneziawg_manager.Timestamp.{Iso}
use amneziawg_manager.Validate.{id-read, name-read}
use amneziawg_manager.Transition.Document.Faithful.{number_in-read, positive-read}
use amneziawg_manager.Transition.Outcome.{
  Ending, confirmed, rolled_back, Reason, by_confirmation, by_operator, by_timeout, by_failure,
  by_expiry, Checkpoint, checkpoint, metadata, pending, current, complete, Update, Outcome,
  ending_named, reason_named, cleanup_named, read_update, read_updates,
  normalize_transition_outcome, ending_text, reason_text, cleanup_text, update_fields,
  updates_value, outcome_document_fields, outcome_document,
}

ending-read :
    (a : Ending) (e : String) {b : Ending}
    → or_raise (ending_named (ending_text a)) e ≡ ok b
    → b ≡ a
unfolding ending_named
ending-read confirmed e h = ground arith
ending-read rolled_back e h = ground arith

reason-read :
    (a : Reason) (e : String) {b : Reason}
    → or_raise (reason_named (reason_text a)) e ≡ ok b
    → b ≡ a
unfolding reason_named
reason-read by_confirmation e h = ground arith
reason-read by_operator e h = ground arith
reason-read by_timeout e h = ground arith
reason-read by_failure e h = ground arith
reason-read by_expiry e h = ground arith

cleanup-read :
    (a : Checkpoint) (e : String) {b : Checkpoint}
    → or_raise (cleanup_named (cleanup_text a)) e ≡ ok b
    → b ≡ a
unfolding cleanup_named
cleanup-read checkpoint e h = ground arith
cleanup-read metadata e h = ground arith
cleanup-read pending e h = ground arith
cleanup-read current e h = ground arith
cleanup-read complete e h = ground arith

within-read :
    (lo hi n : ℕ) (e : String) {m : ℕ} → or_raise (in_range lo hi (pos n)) e ≡ ok m → m ≡ n
within-read lo hi n e h = ground arith

read_update-written :
    (names : List String) (u : Update)
    → Ensures (λ v. v ≡ u) (read_update names (obj (update_fields u)))
unfolding read_update
read_update-written names u = rw (dict_of-obj _ (update_fields u) _ refl) (
    known-Ensures _ _ λ _. known-Ensures _ _ λ _. bind-Ensures _ _ λ name h1.
      bind-Ensures _ _ λ _ _. known-Ensures _ _ λ _. known-Ensures _ _ λ _.
        bind-Ensures _ _ λ before h2. known-Ensures _ _ λ _. known-Ensures _ _ λ _.
          bind-Ensures _ _ λ after h3. ok-Ensures _ λ k. record {
            name = name-read u.name h1 k;
            from_revision = positive-read u.from_revision _ h2 k;
            to_revision = within-read _ _ u.to_revision _ h3 k;
          })

read_updates-written :
    (names : List String) (us : List Update)
    → Ensures (λ vs. vs ≡ us) (read_updates names (items_list (updates_value us)))
unfolding read_updates
read_updates-written names [] = ok-Ensures [] refl
read_updates-written names (u ∷ us) = bind-Ensures _ _ λ v h. bind-Ensures _ _ λ vs hs.
    ok-Ensures (v ∷ vs)
      λ k. (read_update-written names u).on v h k ∷ (read_updates-written _ us).on vs hs k

-- The document of an outcome, if it is accepted, is read as that outcome.
pub normalize-outcome_document :
    (iso : Iso) (o : Outcome)
    → Ensures (λ n. n ≡ o) (normalize_transition_outcome iso (outcome_document o))
unfolding normalize_transition_outcome
normalize-outcome_document iso o = rw (dict_of-obj _ (outcome_document_fields o) _ refl) (
    known-Ensures _ _ λ _. known-Ensures _ _ λ _. bind-Ensures _ _ λ _ _. known-Ensures _ _ λ _.
      bind-Ensures _ _ λ id h1. known-Ensures _ _ λ _. known-Ensures _ _ λ _.
        bind-Ensures _ _ λ ending h2. known-Ensures _ _ λ _. known-Ensures _ _ λ _.
          bind-Ensures _ _ λ reason h3. bind-Ensures _ _ λ _ _. known-Ensures _ _ λ _.
            bind-Ensures _ _ λ _ _. known-Ensures _ _ λ _. bind-Ensures _ _ λ client h4.
              known-Ensures _ _ λ _. bind-Ensures _ _ λ _ _. known-Ensures _ _ λ _.
                bind-Ensures _ _ λ old_port h5. known-Ensures _ _ λ _.
                  bind-Ensures _ _ λ new_port h6. bind-Ensures _ _ λ _ _. known-Ensures _ _ λ _.
                    known-Ensures _ _ λ _. bind-Ensures _ _ λ phase h7. known-Ensures _ _ λ _.
                      known-Ensures _ _ λ _. bind-Ensures _ _ λ updates h8. bind-Ensures _ _ λ _ _.
                        bind-Ensures _ _ λ _ _. known-Ensures _ _ λ _. ok-Ensures _ λ k. record {
                          transaction_id = id-read o.transaction_id h1 k;
                          outcome = ending-read o.outcome _ h2 k;
                          reason = reason-read o.reason _ h3 k;
                          completed_at = o.completed_at;
                          client_name = name-read o.client_name h4 k;
                          old_port = number_in-read _ _ o.old_port _ h5 k;
                          new_port = number_in-read _ _ o.new_port _ h6 k;
                          cleanup_phase = cleanup-read o.cleanup_phase _ h7 k;
                          profile_updates =
                              (read_updates-written [] o.profile_updates).on updates h8 k;
                        })
