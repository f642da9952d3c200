-- ===== src/Transition/Outcome/Accepts.antt =====
-- What `normalize_transition_outcome` of awgctl/core.py accepts.
use amneziawg_manager.Prelude.{
  ℕ, ◌+◌, ◌≤◌, ◌≡◌, ◌≢◌, refl, true, false, String, some, List, [], ◌∷◌, All, arith, one_of,
}
use amneziawg_manager.Prelude.Int.{ℤ, in_range, in_range_bounds}
use amneziawg_manager.Prelude.Sort.{sorted, same_texts}
use amneziawg_manager.Result.{
  ok, Ensures, bind-Ensures, ok-Ensures, or_raise-eq-ok, require-eq-ok, raise_if-eq-ok,
}
use amneziawg_manager.Value.{Value}
use amneziawg_manager.Timestamp.{Iso, instant_of, transition_time-eq-ok}
use amneziawg_manager.Validate.{
  is_transaction_id, is_client_name, validate_transaction_id-Ensures, validate_client_name-Ensures,
}
use amneziawg_manager.Transition.Document.Accepts.{number_in-Ensures, positive_bound, ports}
use amneziawg_manager.Transition.Outcome.{
  Ending, confirmed, rolled_back, Reason, by_confirmation, Update, Outcome, agrees, read_update,
  read_updates, updates_fit, update_names, normalize_transition_outcome,
}

-- An update takes a profile to its next revision.
pub record IsUpdate (u : Update) : Type 0 where
  pub name_fits : is_client_name u.name ≡ true
  pub revision_fits : 1 ≤ u.from_revision
  pub next : u.to_revision ≡ u.from_revision + 1

-- The reason is a confirmation exactly where the outcome is confirmed, which alone has updates.
abbrev pub EndingFits : Ending → Reason → List Update → Type 0
EndingFits confirmed r us = (r ≡ by_confirmation) × (us ≢ [])
EndingFits rolled_back r us = (r ≢ by_confirmation) × (us ≡ [])

-- No name occurs twice, nor among those before.
abbrev pub OnceEach : List String → List Update → Type 0
OnceEach seen [] = Unit
OnceEach seen (u ∷ us) = (one_of u.name seen ≡ false) × OnceEach (u.name ∷ seen) us

pub record IsOutcome (iso : Iso) (o : Outcome) : Type 0 where
  pub id_fits : is_transaction_id o.transaction_id ≡ true
  pub client_fits : is_client_name o.client_name ≡ true
  pub completed_instant : ℕ
  pub completed_read : instant_of iso o.completed_at ≡ ok completed_instant
  pub old_port_fits : (1 ≤ o.old_port) × (o.old_port ≤ 65535)
  pub new_port_fits : (1024 ≤ o.new_port) × (o.new_port ≤ 9999)
  pub ports_differ : o.new_port ≢ o.old_port
  pub updates_fit_each : All IsUpdate o.profile_updates
  pub once_each : OnceEach [] o.profile_updates
  pub in_order :
      same_texts (update_names o.profile_updates) (sorted (update_names o.profile_updates)) ≡ true
  pub ending_fits : EndingFits o.outcome o.reason o.profile_updates

next_revision : (b : ℕ) (z : ℤ) {n : ℕ} → in_range (b + 1) (b + 1) z ≡ some n → n ≡ b + 1
next_revision b z h = let (low, high, _) = in_range_bounds (b + 1) (b + 1) z h in omega arith

read_update-IsUpdate :
    (names : List String) (v : Value)
    → Ensures (λ u. IsUpdate u × (one_of u.name names ≡ false)) (read_update names v)
unfolding read_update
read_update-IsUpdate names v = bind-Ensures _ _ λ _ _. bind-Ensures _ _ λ v1 _.
    bind-Ensures _ _ λ name h1. bind-Ensures _ _ λ _ h2. bind-Ensures _ _ λ _ _.
      bind-Ensures _ _ λ z _. bind-Ensures _ _ λ before h3. bind-Ensures _ _ λ _ _.
        bind-Ensures _ _ λ y _. bind-Ensures _ _ λ after h4. ok-Ensures _ (
          record {
            name_fits = (validate_client_name-Ensures v1).on name h1;
            revision_fits = positive_bound z (or_raise-eq-ok _ _ h3);
            next = next_revision before y (or_raise-eq-ok _ _ h4);
          },
          raise_if-eq-ok _ _ h2,
        )

read_updates-IsUpdate :
    (names : List String) (vs : List Value)
    → Ensures (λ us. All IsUpdate us × OnceEach names us) (read_updates names vs)
unfolding read_updates
read_updates-IsUpdate names [] = ok-Ensures [] (tt, tt)
read_updates-IsUpdate names (v ∷ vs) = bind-Ensures _ _ λ u h. bind-Ensures _ _ λ us hs.
    let (fits, fresh) = (read_update-IsUpdate names v).on u h in
    let (all_fit, rest_fresh) = (read_updates-IsUpdate _ vs).on us hs in
    ok-Ensures (u ∷ us) ((fits, all_fit), (fresh, rest_fresh))

agrees-EndingFits :
    (e : Ending) (r : Reason) (us : List Update)
    → agrees e r ≡ true
    → updates_fit e us ≡ true
    → EndingFits e r us
agrees-EndingFits confirmed by_confirmation [] h k = cc
agrees-EndingFits confirmed by_confirmation (u ∷ us) h k = (refl, λ e. cc)
agrees-EndingFits confirmed _ us h k = cc
agrees-EndingFits rolled_back by_confirmation us h k = cc
agrees-EndingFits rolled_back _ [] h k = (λ e. cc, refl)
agrees-EndingFits rolled_back _ (u ∷ us) h k = cc

-- Whatever JSON value is accepted as an outcome is one: its names, ports and time are in their
-- ranges, each update takes a profile to its next revision, the updates are distinct and in order,
-- and a confirmed outcome, and no other, has the reason of a confirmation and has updates.
pub normalize-IsOutcome :
    (iso : Iso) (v : Value) → Ensures (IsOutcome iso) (normalize_transition_outcome iso v)
unfolding normalize_transition_outcome
normalize-IsOutcome iso v = bind-Ensures _ _ λ d _. bind-Ensures _ _ λ _ _. bind-Ensures _ _ λ _ _.
    bind-Ensures _ _ λ v1 _. bind-Ensures _ _ λ id h1. bind-Ensures _ _ λ _ _.
      bind-Ensures _ _ λ _ _. bind-Ensures _ _ λ ending _. bind-Ensures _ _ λ _ _.
        bind-Ensures _ _ λ _ _. bind-Ensures _ _ λ reason _. bind-Ensures _ _ λ _ h2.
          bind-Ensures _ _ λ completed _. bind-Ensures _ _ λ instant h3. bind-Ensures _ _ λ v4 _.
            bind-Ensures _ _ λ client h4. bind-Ensures _ _ λ _ _. bind-Ensures _ _ λ _ _.
              bind-Ensures _ _ λ v5 _. bind-Ensures _ _ λ old_port h5. bind-Ensures _ _ λ v6 _.
                bind-Ensures _ _ λ new_port _. bind-Ensures _ _ λ _ h6. bind-Ensures _ _ λ _ _.
                  bind-Ensures _ _ λ _ _. bind-Ensures _ _ λ phase _. bind-Ensures _ _ λ _ _.
                    bind-Ensures _ _ λ given _. bind-Ensures _ _ λ updates h7.
                      bind-Ensures _ _ λ _ h8. bind-Ensures _ _ λ _ h9.
                        bind-Ensures _ _ λ completed_at h10.
                          let (low, high, differ) =
                            ports new_port old_port (raise_if-eq-ok _ _ h6) in
                          let (fit, once) = (read_updates-IsUpdate [] given).on updates h7 in
                          ok-Ensures _ (record {
                            id_fits = (validate_transaction_id-Ensures v1).on id h1;
                            client_fits = (validate_client_name-Ensures v4).on client h4;
                            completed_instant = instant;
                            completed_read =
                                transition_time-eq-ok iso completed (or_raise-eq-ok _ _ h10) h3;
                            old_port_fits = (number_in-Ensures 1 65535 v5 _).on old_port h5;
                            new_port_fits = (low, high);
                            ports_differ = differ;
                            updates_fit_each = fit;
                            once_each = once;
                            in_order = require-eq-ok _ _ h8;
                            ending_fits =
                                agrees-EndingFits ending reason updates (require-eq-ok _ _ h2)
                                  (require-eq-ok _ _ h9);
                          })
