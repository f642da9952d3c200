-- ===== src/Service/Command/Reconcile.antt =====
-- The recovery of a recorded operation, `reconcile_service_operation_locked` of awgctl/core.py.
use mathlib.Core.Path.{subst}
use amneziawg_manager.Prelude.{
  String, ◌≡◌, refl, ◌∙◌, ap, Bool, true, false, Option, none, some, if◌then◌else◌,
}
use amneziawg_manager.Result.{Result, ok}
use amneziawg_manager.Service.Intent.{Phase, prepared, invoking, compensating, verified, Intent}
use amneziawg_manager.Service.World.{World, Host}
use amneziawg_manager.Step.{Exec, asks, pure}
use amneziawg_manager.Step.Ends.{Ends, bind-Ends, ask-Ends, last_ask-Ends, pure-Ends, weaken-Ends}
use amneziawg_manager.Service.Load.{load_optional}
use amneziawg_manager.Service.Store.{delete_intent}
use amneziawg_manager.Service.Progress.{same_optional}
use amneziawg_manager.Service.Store.Swap.{compare_and_swap-Ends}
use amneziawg_manager.Service.Store.Delete.{delete_intent-Ends}
use amneziawg_manager.Service.Postcondition.{requested_postcondition, prestate_postcondition}
use amneziawg_manager.Service.Postcondition.Facts.{
  intent_with-SameOperation, IsDown, IsReached, IsReached-outside, prestate-outside,
  requested_postcondition-IsReached,
}
use amneziawg_manager.Service.Lifecycle.Steps.{KeepsOperation}
use amneziawg_manager.Service.Lifecycle.Compensation.{
  Swapped-outside, Deleted-outside, compensate-Ends,
}
use amneziawg_manager.Service.Command.{
  finish, generation_matches, compare_generation, take_over, by_phase, reconcile_found,
  reconcile_service_operation_locked,
}

module _ (h : Host) where
  open h use {State}

  -- How an operation that a process left behind is settled.
  pub data Settled (i : Intent) (w : World State) : Type 0 where
    was_verified : i.phase ≡ verified → Settled i w
    at_prestate : i.phase ≡ prepared → prestate_postcondition h i w ≡ ok true → Settled i w
    as_requested : i.phase ≡ invoking → IsReached h i w → Settled i w
    down : IsDown h i.interface w → Settled i w

  -- Its removal changes nothing outside the file.
  finish-Ends :
      (i : Intent) (id : String) (p : Phase) (w : World State)
      → Ends
          (λ _ w'. (w'.document ≡ none) × (w'.outside ≡ w.outside))
          (λ _ _. Unit)
          (finish h i id p w)
  unfolding finish
  finish-Ends i id p w =
      ask-Ends _ _ w (λ _ _. tt)
        λ done _.
          bind-Ends _ _ w
            (weaken-Ends _ (λ _ _ s. s) (λ _ _ _. tt) (compare_and_swap-Ends h _ _ _ w))
            λ _ w1 swapped.
              weaken-Ends _
                (λ _ _ d.
                  (ap (λ v. v.document) d.removes, Deleted-outside h d ∙ Swapped-outside h swapped))
                (λ _ _ _. tt) (delete_intent-Ends h id w1)

  abbrev Done : Intent → World State → Type 0
  Done i w' = (w'.document ≡ none) × Settled i w'

  delete-Done :
      (i : Intent) (w : World State)
      → ((w' : World State) → w'.outside ≡ w.outside → Settled i w')
      → Ends (λ _ w'. Done i w') (λ _ _. Unit) (delete_intent h i.operation_id w)
  delete-Done i w settled =
      weaken-Ends _ (λ _ w' d. (ap (λ v. v.document) d.removes, settled w' (Deleted-outside h d)))
        (λ _ _ _. tt) (delete_intent-Ends h i.operation_id w)

  generation_matches-Ends :
      (i : Intent) (w : World State)
      → Ends (λ _ w'. w' ≡ w) (λ _ _. Unit) (generation_matches h i w)
  unfolding generation_matches
  generation_matches-Ends i w =
      ask-Ends _ _ w (λ _ _. tt) λ t _. compared (same_optional i.transition_id t) i w
    where
      compared :
          (b : Bool) (i : Intent) (w : World State)
          → Ends (λ _ w'. w' ≡ w) (λ _ _. Unit {0}) (compare_generation h b i w)
      compared true i w = ask-Ends _ _ w (λ _ _. tt) λ g _. pure-Ends _ w refl
      compared false i w = pure-Ends _ w refl

  -- A question that is asked only if the generation matches; a yes is its answer.
  asked-Ends :
      (b : Bool) (g : World State → Result Bool) (w : World State)
      → Ends
          (λ answer w'. (w' ≡ w) × (answer ≡ true → g w ≡ ok true))
          (λ _ _. Unit)
          ((if b then asks g else pure false) w)
  asked-Ends true g w = last_ask-Ends g w (λ _ _. tt) λ a e. (refl, λ is. e ∙ ap ok is)
  asked-Ends false g w = pure-Ends false w (refl, λ is. cc)

  -- What a reconciliation that returns has done.
  pub data Reconciled (w w' : World State) : Type 0 where
    nothing_recorded : load_optional h w.shared ≡ ok none → w' ≡ w → Reconciled w w'
    settled :
        (i : Intent)
        → load_optional h w.shared ≡ ok (some i)
        → w'.document ≡ none
        → Settled i w'
        → Reconciled w w'

  module _ (keeps : KeepsOperation h) where
    take_over-Ends :
        (i : Intent) (w : World State) → Ends (λ _ w'. Done i w') (λ _ _. Unit) (take_over h i w)
    unfolding take_over
    take_over-Ends i w =
        ask-Ends _ _ w (λ _ _. tt)
          λ owner _.
            ask-Ends _ _ w (λ _ _. tt)
              λ claimed succeeded.
                bind-Ends _ _ w
                  (weaken-Ends _ (λ _ _ s. s) (λ _ _ _. tt) (compare_and_swap-Ends h _ _ _ w))
                  λ _ w1 _.
                    weaken-Ends _
                      (λ _ w' c. (
                        c.removed,
                        down (
                            subst (λ t. IsDown h t w')
                              (intent_with-SameOperation h _ _ _ i claimed w
                                succeeded).same_interface
                              c.is_down),
                      ))
                      (λ _ _ _. tt) (compensate-Ends h keeps claimed w1)

    -- The last step, by the answer.
    settle :
        (b : Bool) (i : Intent) (m : Exec (World State) (Unit {0})) (w : World State)
        → (b ≡ true → Ends (λ _ w'. Done i w') (λ _ _. Unit) (m w))
        → Ends (λ _ w'. Done i w') (λ _ _. Unit) ((if b then m else take_over h i) w)
    settle true i m w yes_case = yes_case refl
    settle false i m w yes_case = take_over-Ends i w

    by_phase-Ends :
        (p : Phase) (i : Intent) (w : World State)
        → i.phase ≡ p
        → Ends (λ _ w'. Done i w') (λ _ _. Unit) (by_phase h p i w)
    unfolding by_phase
    by_phase-Ends verified i w e = delete-Done i w (λ _ _. was_verified e)
    by_phase-Ends prepared i w e = bind-Ends _ _ w (generation_matches-Ends i w) λ m w1 e1. rw e1 (
        bind-Ends _ _ w (asked-Ends m (prestate_postcondition h i) w) λ b w2 q. rw q.0 (
          settle b i (delete_intent h i.operation_id) w
            λ is. delete-Done i w (λ w' o. at_prestate e (prestate-outside h i w w' o ∙ q.1 is))))
    by_phase-Ends invoking i w e = bind-Ends _ _ w (generation_matches-Ends i w) λ m w1 e1. rw e1 (
        bind-Ends _ _ w (asked-Ends m (requested_postcondition h i) w) λ b w2 q. rw q.0 (
          settle b i (finish h i i.operation_id i.phase) w λ is.
            weaken-Ends _
              (λ _ w' f. (
                f.0,
                as_requested e (
                    IsReached-outside h i w w' f.1
                      (requested_postcondition-IsReached h i w (q.1 is))),
              ))
              (λ _ _ _. tt) (finish-Ends i i.operation_id i.phase w)))
    by_phase-Ends compensating i w e =
        bind-Ends _ _ w (generation_matches-Ends i w) λ _ w1 e1. rw e1 (take_over-Ends i w)

    reconcile_found-Ends :
        (o : Option Intent) (w : World State)
        → load_optional h w.shared ≡ ok o
        → Ends (λ _ w'. Reconciled w w') (λ _ _. Unit) (reconcile_found h o w)
    unfolding reconcile_found
    reconcile_found-Ends none w e = pure-Ends tt w (nothing_recorded e refl)
    reconcile_found-Ends (some i) w e =
        weaken-Ends _ (λ _ w' d. settled i e d.0 d.1) (λ _ _ _. tt) (by_phase-Ends i.phase i w refl)

    -- Let no other process put another operation in the place of the recorded one while systemctl
    -- runs. Then, if the reconciliation returns, either no operation was recorded and nothing has
    -- changed, or no operation is recorded any more and the one that was is settled: it had been
    -- verified, or it is proven at the state before it, or at the state that it asked for, or its
    -- service is down.
    pub reconcile-Ends :
        (w : World State)
        → Ends (λ _ w'. Reconciled w w') (λ _ _. Unit) (reconcile_service_operation_locked h w)
    unfolding reconcile_service_operation_locked
    reconcile-Ends w =
        ask-Ends _ _ w (λ _ _. tt)
          λ _ _. ask-Ends _ _ w (λ _ _. tt) λ o loaded. reconcile_found-Ends o w loaded
