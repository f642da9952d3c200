-- ===== src/Transition/Cleanup/Begin.antt =====
-- `begin_transition_outcome` of awgctl/core.py.
use mathlib.Core.Path.{subst}
use amneziawg_manager.Prelude.{
  String, ◌≡◌, refl, ap, ◌∙◌, ◌⊎◌, inl, inr, Bool, true, false, Option, none, some, List, same,
}
use amneziawg_manager.Result.{ok, require-eq-ok}
use amneziawg_manager.Step.Ends.{Ends, bind-Ends, ask-Ends, lift-Ends, pure-Ends, weaken-Ends}
use amneziawg_manager.Transition.Document.{Transition}
use amneziawg_manager.Transition.Document.Faithful.{normalize-transition_document}
use amneziawg_manager.Transition.Outcome.{
  Ending, Reason, Checkpoint, checkpoint, metadata, pending, current, complete, Update, Outcome,
  cleanup_text,
}
use amneziawg_manager.Transition.Outcome.Faithful.{normalize-outcome_document}
use amneziawg_manager.Transition.Outcome.Accepts.{IsOutcome, normalize-IsOutcome}
use amneziawg_manager.Transition.Load.{
  Files, Disk, Host, Transition-discrete, Outcome-discrete, load_stored, load_outcome,
}
use amneziawg_manager.Transition.Store.Swap.{equal_of_require, change-Ends}
use amneziawg_manager.Transition.Cleanup.{
  with_outcome, at_phase, outcome_of, record_outcome, begin_over, begin_after,
  begin_transition_outcome,
}

-- The outcome may be recorded: none is, or the recorded one is complete.
abbrev pub MayBegin : Option Outcome → Type 0
MayBegin none = Unit
MayBegin (some existing) = existing.cleanup_phase ≡ complete

complete_of : (p : Checkpoint) → same (cleanup_text p) "complete" ≡ true → p ≡ complete
complete_of checkpoint e = cc
complete_of metadata e = cc
complete_of pending e = cc
complete_of current e = cc
complete_of complete e = refl

module _ (h : Host) where
  open h use {Outside, library}
  open library use {iso}

  -- A new outcome is recorded over none or a complete one, and no other file has changed.
  pub record Begun (result : Outcome) (existing : Option Outcome) (s s' : Files) : Type 0 where
    pub may_begin : MayBegin existing
    pub recorded : s' ≡ with_outcome result s

  -- The outcome of a beginning: the new one, or the one of the same lifecycle that is recorded.
  abbrev Begins : Outcome → Option Outcome → Files → Outcome → Files → Type 0
  Begins result existing s o s' =
      ((o ≡ result) × Begun result existing s s')
      ⊎ ((existing ≡ some o) × (at_phase checkpoint o ≡ at_phase checkpoint result) × (s' ≡ s))

  abbrev Fails : Outcome → Option Outcome → Files → Files → Type 0
  Fails result existing s s' = (s' ≡ s) ⊎ Begun result existing s s'

  record_outcome-Begun :
      (result : Outcome) (existing : Option Outcome) (w : Disk Outside)
      → MayBegin existing
      → Ends
          (λ o (w' : Disk Outside). Begins result existing w.files o w'.files)
          (λ _ (w' : Disk Outside). Fails result existing w.files w'.files)
          (record_outcome h result w)
  unfolding record_outcome
  record_outcome-Begun result existing w may =
      bind-Ends _ _ w
        (weaken-Ends _ (λ _ _ e. record { may_begin = may; recorded = e })
          (λ _ _ x. elim x [
            | inl e ↦ inl e
            | inr e ↦ inr (record { may_begin = may; recorded = e })
          ])
          (change-Ends h _ w))
        λ _ w' begun.
          ask-Ends _ _ w' (λ _ _. inr begun)
            λ _ _.
              lift-Ends _ _ w' (λ _ _. inr begun) λ _ _. pure-Ends result w' (inl (refl, begun))

  begin_over-Begun :
      (b : Bool) (existing result : Outcome) (w : Disk Outside)
      → Ends
          (λ o (w' : Disk Outside). Begins result (some existing) w.files o w'.files)
          (λ _ (w' : Disk Outside). Fails result (some existing) w.files w'.files)
          (begin_over h b existing result w)
  unfolding begin_over
  begin_over-Begun true existing result w =
      lift-Ends _ _ w (λ _ _. inl refl)
        λ u same_lifecycle.
          pure-Ends existing w
            (inr (refl, (equal_of_require Outcome-discrete _ _ _).on u same_lifecycle, refl))
  begin_over-Begun false existing result w =
      lift-Ends _ _ w (λ _ _. inl refl)
        λ _ done.
          record_outcome-Begun result (some existing) w
            (complete_of existing.cleanup_phase (require-eq-ok _ _ done))

  begin_after-Begun :
      (existing : Option Outcome) (result : Outcome) (w : Disk Outside)
      → Ends
          (λ o (w' : Disk Outside). Begins result existing w.files o w'.files)
          (λ _ (w' : Disk Outside). Fails result existing w.files w'.files)
          (begin_after h existing result w)
  unfolding begin_after
  begin_after-Begun none result w = record_outcome-Begun result none w tt
  begin_after-Begun (some existing) result w = begin_over-Begun _ existing result w

  -- What a beginning that returns has found: the transition is the stored one, and its outcome is
  -- valid.
  pub record Started (t : Transition) (result : Outcome) (w : Disk Outside) (o : Outcome)
      (s' : Files) : Type 0 where
    pub stored : load_stored h w ≡ ok t
    pub valid : IsOutcome iso result
    pub existing : Option Outcome
    pub loaded : load_outcome h w ≡ ok existing
    pub begins : Begins result existing w.files o s'

  abbrev pub NotStarted : Outcome → Disk Outside → Files → Type 0
  NotStarted result w s' =
      (s' ≡ w.files)
      ⊎ ((existing : Option Outcome) × (load_outcome h w ≡ ok existing)
          × Begun result existing w.files s')

  -- An outcome begins only for the stored transition, and is a valid outcome at its first
  -- checkpoint. It is recorded where none is or where the recorded one is complete, and then no other
  -- file has changed; or the outcome of the same lifecycle that is recorded is returned and nothing
  -- has changed. If it raises, nothing has changed or the new outcome is recorded so.
  pub begin_transition_outcome-Started :
      (t : Transition) (e : Ending) (r : Reason) (at : String) (us : List Update) (w : Disk Outside)
      → Ends
          (λ o (w' : Disk Outside). Started t (outcome_of t e r at us) w o w'.files)
          (λ _ (w' : Disk Outside). NotStarted (outcome_of t e r at us) w w'.files)
          (begin_transition_outcome h t e r at us w)
  unfolding begin_transition_outcome
  begin_transition_outcome-Started t e r at us w =
      lift-Ends _ _ w (λ _ _. inl refl)
        λ n normal.
          ask-Ends _ _ w (λ _ _. inl refl)
            λ c loaded.
              lift-Ends _ _ w (λ _ _. inl refl)
                λ u equal.
                  lift-Ends _ _ w (λ _ _. inl refl)
                    λ result read.
                      ask-Ends _ _ w (λ _ _. inl refl)
                        λ _ _.
                          ask-Ends _ _ w (λ _ _. inl refl)
                            λ existing found.
                              let named : n ≡ t =
                                (normalize-transition_document library t).on n normal in
                              let this : result ≡ outcome_of t e r at us =
                                (normalize-outcome_document iso _).on result read
                                ∙ ap (λ x. outcome_of x e r at us) named in
                              weaken-Ends _
                                (λ o w' begins. record {
                                  stored =
                                      loaded
                                      ∙ ap ok (
                                          (equal_of_require Transition-discrete c n _).on u equal
                                          ∙ named);
                                  valid =
                                      subst (IsOutcome iso) this
                                        ((normalize-IsOutcome iso _).on result read);
                                  existing = existing;
                                  loaded = found;
                                  begins =
                                      subst (λ x. Begins x existing w.files o w'.files) this begins;
                                })
                                (λ _ w' x. elim x [
                                  | inl same_files ↦ inl same_files
                                  | inr begun ↦ inr (
                                    existing,
                                    found,
                                    subst (λ x. Begun x existing w.files w'.files) this begun,
                                  )
                                ])
                                (begin_after-Begun existing result w)
