-- ===== src/Service/Command/Change.antt =====
-- `service_action` of awgctl/core.py: the states that its end is described by, and its proof.
use mathlib.Core.Path.{subst, subst₂}
use amneziawg_manager.Prelude.{
  String, ◌≡◌, ◌≢◌, refl, sym, ◌∙◌, ap, ◌⊎◌, inl, inr, Bool, true, false, not, ◌&&◌, Option, none,
  some, same, same_iff, if◌then◌else◌, Bool-cases,
}
use amneziawg_manager.Result.{ok, raised, require-eq-ok, ok_injective}
use amneziawg_manager.Service.Intent.{
  Action, Phase, prepared, invoking, compensating, verified, Intent,
}
use amneziawg_manager.Service.Document.{action_name}
use amneziawg_manager.Validate.{id-read}
use amneziawg_manager.Service.Firewall.Checks.{current_firewall_up-Ends}
use amneziawg_manager.Service.World.{World, Host, is_held}
use amneziawg_manager.Step.{pure}
use amneziawg_manager.Step.Ends.{
  Ends, bind-Ends, ask-Ends, lift-Ends, pure-Ends, raise-Ends, weaken-Ends, try-Ends,
}
use amneziawg_manager.Service.Load.{load_optional, same_phase}
use amneziawg_manager.Service.Load.ReadBack.{load_optional-required, load_required-none}
use amneziawg_manager.Service.Observe.{service_unit, service_is_active_exact}
use amneziawg_manager.Service.Store.Swap.{Swapped, NotSwapped, compare_and_swap-Ends}
use amneziawg_manager.Service.Store.Delete.{delete_intent-Ends}
use amneziawg_manager.Service.Postcondition.{wants_active, hook_for}
use amneziawg_manager.Service.Postcondition.Facts.{
  SameOperation, intent_with-SameOperation, IsReached, IsReached-outside,
  requested_postcondition-IsReached,
}
use amneziawg_manager.Service.Lifecycle.{compensate_service_operation_locked}
use amneziawg_manager.Service.Lifecycle.Steps.{KeepsOperation, Records, systemctl_unlocked-Ends}
use amneziawg_manager.Service.Lifecycle.Compensation.{
  Compensated, Swapped-outside, Swapped-Records, Deleted-outside, compensate-Ends,
}
use amneziawg_manager.Service.Command.{
  finish, invoke, compensate_found, recover_by, recover, prepare, change_service,
}

module _ (h : Host) where
  open h use {State}

  -- The operation is over: the service and its firewall are as it wanted.
  pub record Reached (action : Action) (interface : String) (w : World State) : Type 0 where
    pub removed : w.document ≡ none
    pub as_wanted : service_is_active_exact h interface w ≡ ok (wants_active action)
    pub firewall_as_wanted : h.firewall_is w.outside (hook_for (wants_active action)) ≡ ok true

  -- How a failed operation leaves the world: systemctl was not called; or the lock was lost; or
  -- the file could not be read; or it records nothing, or another operation, or a verified one;
  -- or the service of the operation is down and nothing is recorded; or the error says that the
  -- compensation failed.
  pub data Aborted (interface id : String) (w : World State) (e : String) (w' : World State)
      : Type 0 where
    not_invoked : w'.outside ≡ w.outside → Aborted interface id w e w'
    lock_lost : is_held w'.lock ≡ false → Aborted interface id w e w'
    unreadable : load_optional h w'.shared ≡ raised e → Aborted interface id w e w'
    none_recorded : load_optional h w'.shared ≡ ok none → Aborted interface id w e w'
    not_ours :
        (i : Intent)
        → load_optional h w'.shared ≡ ok (some i)
        → (i.operation_id ≢ id) ⊎ (i.phase ≡ verified)
        → Aborted interface id w e w'
    compensated : Compensated h interface w' → Aborted interface id w e w'
    compensation_failed : e ≡ "fail-safe service compensation failed" → Aborted interface id w e w'

  NotSwapped-outside :
      {i : Intent} {id : Option String} {p : Option Phase} {w w' : World State}
      → NotSwapped h i id p w w'
      → w'.outside ≡ w.outside
  NotSwapped-outside (inl kept) = ap (λ v. v.outside) kept
  NotSwapped-outside (inr (s, _)) = Swapped-outside h s

  -- An intent that the world records is of this interface.
  abbrev Holds : String → World State → Type 0
  Holds interface w = (j : Intent) → Records h w j → j.interface ≡ interface

  Holds-Records :
      (interface : String) (i : Intent) (w : World State)
      → Records h w i
      → i.interface ≡ interface
      → Holds interface w
  Holds-Records interface i w r e j read =
      subst (λ n. n.interface ≡ interface) (ok_injective (sym r ∙ read)) e

  finish_holding-Ends :
      (interface id : String) (i : Intent) (p : Phase) (w : World State)
      → Records h w i
      → i.interface ≡ interface
      → Ends
          (λ _ w'. (w'.document ≡ none) × (w'.outside ≡ w.outside))
          (λ _ w'. Holds interface w')
          (finish h i id p w)
  unfolding finish
  finish_holding-Ends interface id i p w r e =
      ask-Ends _ _ w (λ _ _. Holds-Records interface i w r e)
        λ done succeeded.
          let same : done.interface ≡ interface =
            (intent_with-SameOperation h _ _ _ i done w succeeded).same_interface ∙ e in
          let stored = λ (w' : World State) (s : Swapped h done (some id) (some p) w w').
            Holds-Records interface done w' (Swapped-Records h s) same in
          bind-Ends _ _ w
            (weaken-Ends _ (λ _ _ s. s)
              (λ _ w' o. elim o [
                | inl kept ↦ rw kept (Holds-Records interface i w r e)
                | inr (s, _) ↦ stored w' s
              ])
              (compare_and_swap-Ends h done (some id) (some p) w))
            λ _ w1 swapped.
              weaken-Ends _
                (λ _ _ d.
                  (ap (λ v. v.document) d.removes, Deleted-outside h d ∙ Swapped-outside h swapped))
                (λ _ w' o. elim o [
                  | inl kept ↦ rw kept (stored w1 swapped)
                  | inr (d, _) ↦ λ j read.
                      absurd
                        (load_required-none h w'.shared j (ap (λ v. v.document) d.removes) read)
                ])
                (delete_intent-Ends h id w1)

  -- The outcome of the compensation in the handler.
  data After (id : String) (w : World State) : Option Intent → World State → Type 0 where
    nothing : {w' : World State} → w' ≡ w → After id w none w'
    foreign :
        {i : Intent} {w' : World State}
        → (i.operation_id ≢ id) ⊎ (i.phase ≡ verified)
        → w' ≡ w
        → After id w (some i) w'
    is_down :
        {i : Intent} {w' : World State} → Compensated h i.interface w' → After id w (some i) w'

  not_to_compensate :
      (i : Intent) (id : String)
      → (same i.operation_id id && not (same_phase i.phase (some verified))) ≡ false
      → (i.operation_id ≢ id) ⊎ (i.phase ≡ verified)
  not_to_compensate i id e = elim (Bool-cases (same i.operation_id id)) [
    | inr differs ↦ inl (λ p. cc ((same_iff i.operation_id id).1 p))
    | inl equal ↦ inr (phase_verified i.phase (rw equal at e))
  ]
    where
      phase_verified : (p : Phase) → not (same_phase p (some verified)) ≡ false → p ≡ verified
      phase_verified prepared e = cc
      phase_verified invoking e = cc
      phase_verified compensating e = cc
      phase_verified verified e = refl

  Reached-IsReached :
      {action : Action} {interface : String} (n : Intent) (w w' : World State)
      → (w'.document ≡ none) × (w'.outside ≡ w.outside)
      → IsReached h n w
      → n.interface ≡ interface
      → n.service_action ≡ action
      → Reached action interface w'
  Reached-IsReached n w w' (gone, outside) p ei ea =
      let q : IsReached h n w' = IsReached-outside h n w w' outside p in
      record {
        removed = gone;
        as_wanted =
            subst₂ (λ t a. service_is_active_exact h t w' ≡ ok (wants_active a)) ei ea q.as_wanted;
        firewall_as_wanted =
            subst (λ a. h.firewall_is w'.outside (hook_for (wants_active a)) ≡ ok true) ea
              q.firewall_as_wanted;
      }

  module _ (keeps : KeepsOperation h) where
    invoke-Ends :
        (action : Action) (interface id : String) (i : Intent) (w : World State)
        → Records h w i
        → i.interface ≡ interface
        → i.service_action ≡ action
        → Ends
            (λ _ w'. Reached action interface w')
            (λ _ w'. Holds interface w')
            (invoke h action interface id w)
    unfolding invoke
    invoke-Ends action interface id i w r e a =
        bind-Ends _ _ w
          (weaken-Ends _ (λ _ _ c. c)
            (λ _ w' o. elim o [
              | inl quiet ↦ λ j read. Holds-Records interface i w r e j (rw quiet at read)
              | inr called ↦ λ j read. (kept w' called j read).same_interface ∙ e
            ])
            (systemctl_unlocked-Ends h (action_name action) (service_unit interface) w))
          λ _ w1 called.
            ask-Ends _ _ w1 (λ _ _ j read. (kept w1 called j read).same_interface ∙ e)
              λ latest read.
                let op : SameOperation i latest = kept w1 called latest read in
                let holds : Holds interface w1 =
                  Holds-Records interface latest w1 read (op.same_interface ∙ e) in
                ask-Ends _ _ w1 (λ _ _. holds)
                  λ reached asked.
                    lift-Ends _ _ w1 (λ _ _. holds)
                      λ _ passed.
                        let proven : IsReached h latest w1 =
                          requested_postcondition-IsReached h latest w1
                            (asked ∙ ap ok (require-eq-ok reached _ passed)) in
                        weaken-Ends _
                          (λ _ w2 f.
                            Reached-IsReached latest w1 w2 f proven (op.same_interface ∙ e)
                              (op.same_action ∙ a))
                          (λ _ _ x. x)
                          (finish_holding-Ends interface id latest invoking w1 read
                            (op.same_interface ∙ e))
      where
        kept :
            (w' : World State)
            → w'.shared ≡ (h.systemctl (action_name action) (service_unit interface) w.shared).1
            → (j : Intent) → Records h w' j
            → SameOperation i j
        kept w' called j read =
            keeps (action_name action) (service_unit interface) w.shared i j r (rw called at read)

    compensate_found-Ends :
        (o : Option Intent) (id : String) (w : World State)
        → Ends (λ _ w'. After id w o w') (λ _ _. Unit) (compensate_found h o id w)
    unfolding compensate_found
    compensate_found-Ends none id w = pure-Ends tt w (nothing refl)
    compensate_found-Ends (some i) id w =
        by_test (same i.operation_id id && not (same_phase i.phase (some verified)))
          (not_to_compensate i id)
      where
        by_test :
            (b : Bool)
            → (b ≡ false → (i.operation_id ≢ id) ⊎ (i.phase ≡ verified))
            → Ends
                (λ _ w'. After id w (some i) w')
                (λ _ _. Unit {0})
                ((if b then compensate_service_operation_locked h i else pure tt) w)
        by_test true f =
            weaken-Ends _ (λ _ _ c. is_down c) (λ _ _ _. tt) (compensate-Ends h keeps i w)
        by_test false f = pure-Ends tt w (foreign (f refl) refl)

    After-Aborted :
        (interface id : String) (w0 w : World State) (o : Option Intent) (e : String)
        (w' : World State)
        → Holds interface w
        → load_optional h w.shared ≡ ok o
        → After id w o w'
        → Aborted interface id w0 e w'
    After-Aborted interface id w0 w o e w' holds loaded (nothing same) =
        none_recorded (rw same loaded)
    After-Aborted interface id w0 w o e w' holds loaded (foreign {i = i} why same) =
        not_ours i (rw same loaded) why
    After-Aborted interface id w0 w o e w' holds loaded (is_down {i = i} c) =
        compensated
          (subst (λ t. Compensated h t w') (holds i (load_optional-required h w.shared i loaded)) c)

    recover_by-Ends :
        (b : Bool) (interface id original : String) (w0 w : World State)
        → Holds interface w
        → is_held w.lock ≡ b
        → Ends (λ _ _. ⊥) (λ e w'. Aborted interface id w0 e w') (recover_by h b id original w)
    unfolding recover_by
    recover_by-Ends false interface id original w0 w holds lost = raise-Ends _ w (lock_lost lost)
    recover_by-Ends true interface id original w0 w holds held =
        ask-Ends _ _ w (λ e bad. unreadable bad)
          λ o loaded.
            bind-Ends _ _ w
              (try-Ends (compensate_found h o id) _ w (compensate_found-Ends o id w)
                λ _ w' _. raise-Ends _ w' (compensation_failed refl))
              λ _ w' after.
                raise-Ends original w'
                  (After-Aborted interface id w0 w o original w' holds loaded after)

    -- The handler always raises, and leaves the operation aborted.
    recover-Ends :
        (interface id original : String) (w0 w : World State)
        → Holds interface w
        → Ends (λ _ _. ⊥) (λ e w'. Aborted interface id w0 e w') (recover h id original w)
    unfolding recover
    recover-Ends interface id original w0 w holds =
        ask-Ends _ _ w (λ e bad. cc)
          λ held asked. recover_by-Ends held interface id original w0 w holds (ok_injective asked)

    prepare-Ends :
        (action : Action) (interface : String) (w : World State)
        → Ends
            (λ i w'.
              (w' ≡ w)
              × (i.operation_id ≡ h.token w.outside)
              × (i.interface ≡ interface)
              × (i.service_action ≡ action))
            (λ _ w'. w' ≡ w)
            (prepare h action interface w)
    unfolding prepare
    prepare-Ends action interface w =
        ask-Ends _ _ w (λ _ _. refl)
          λ owner _.
            ask-Ends _ _ w (λ _ _. refl)
              λ t _.
                ask-Ends _ _ w (λ _ _. refl)
                  λ now _.
                    ask-Ends _ _ w (λ _ _. refl)
                      λ id valid.
                        ask-Ends _ _ w (λ _ _. refl)
                          λ g _.
                            ask-Ends _ _ w (λ _ _. refl)
                              λ active _.
                                bind-Ends _ _ w (current_firewall_up-Ends h w)
                                  λ b w1 e. rw e (pure-Ends _ w (refl, id-read _ valid, refl, refl))

    -- Let no other process put another operation in the place of the recorded one while systemctl
    -- runs. Then start, stop and restart return only if no operation is recorded any more and the
    -- service and the firewall are as the action asks. If they raise, nothing outside the file was
    -- changed, or the service is down and nothing is recorded, or the lock is lost, or the file is
    -- unreadable, empty, or records another operation or a verified one, or the error says that the
    -- compensation failed.
    pub change_service-Ends :
        (action : Action) (interface : String) (w : World State)
        → Ends
            (λ _ w'. Reached action interface w')
            (λ e w'. Aborted interface (h.token w.outside) w e w')
            (change_service h action interface w)
    unfolding change_service
    change_service-Ends action interface w =
        bind-Ends _ _ w
          (weaken-Ends _ (λ _ _ q. q) (λ _ _ e. not_invoked (ap (λ v. v.outside) e))
            (prepare-Ends action interface w))
          λ i w1 p. rw p.0 (
            bind-Ends _ _ w
              (weaken-Ends _ (λ _ _ s. s) (λ _ w' o. not_invoked (NotSwapped-outside o))
                (compare_and_swap-Ends h i none none w))
              λ _ w2 s2.
                ask-Ends _ _ w2 (λ _ _. not_invoked (Swapped-outside h s2))
                  λ n succeeded.
                    let op : SameOperation i n =
                      intent_with-SameOperation h _ _ _ i n w2 succeeded in
                    bind-Ends _ _ w2
                      (weaken-Ends _ (λ _ _ s. s)
                        (λ _ w' o. not_invoked (NotSwapped-outside o ∙ Swapped-outside h s2))
                        (compare_and_swap-Ends h n _ _ w2))
                      λ _ w3 s3.
                        try-Ends (invoke h action interface i.operation_id) _ w3
                          (invoke-Ends action interface i.operation_id n w3 (Swapped-Records h s3)
                            (op.same_interface ∙ p.2) (op.same_action ∙ p.3))
                          λ e w' holds. rw (sym p.1) (
                            weaken-Ends _ (λ _ _ impossible. absurd impossible) (λ _ _ a. a)
                              (recover-Ends interface i.operation_id e w w' holds)))
