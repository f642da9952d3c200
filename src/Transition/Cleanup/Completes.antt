-- ===== src/Transition/Cleanup/Completes.antt =====
-- The cleanup of awgctl/core.py on a disk that works.
use amneziawg_manager.Prelude.{String, ◌≡◌, refl, ap, ◌∙◌, Bool, true, false, some, same, same_iff}
use amneziawg_manager.Result.{Result, ok, raised, require, raise_if}
use amneziawg_manager.Service.World.{written}
use amneziawg_manager.Step.Ends.{
  Ends, ok-Ends, known_lift-Ends, known_ask-Ends, bind-Ends, pure-Ends, last_ask-Ends, weaken-Ends,
}
use amneziawg_manager.Transition.Document.{Transition, normalize_transition_document}
use amneziawg_manager.Transition.Document.Written.{transition_document}
use amneziawg_manager.Transition.Outcome.{
  Checkpoint, checkpoint, metadata, pending, current, complete, Ending, rolled_back, Outcome,
  outcome_document, cleanup_text, normalize_transition_outcome,
}
use amneziawg_manager.Transition.Load.{
  Disk, Host, Transition-discrete, identify, require_equal, read_transition, read_outcome,
  load_transition, load_outcome, load_recorded,
}
use amneziawg_manager.Transition.Store.Swap.{change-Returns}
use amneziawg_manager.Transition.Cleanup.{
  with_outcome, at_phase, update_transition_outcome_phase, apply_by_ending,
  apply_confirmed_profile_updates, remove_if, remove_transition_pending, remove_found,
  remove_current_transition, cancel_unless, given_root, remove_given, from_current, from_pending,
  from_metadata, from_checkpoint, from_phase, resume_transition_cleanup, without_pending,
}

-- The step returns.
abbrev pub Returns : {W A : Type 0} → (A → W → Type 0) → Result A × W → Type 0
Returns Q out = Ends Q (λ _ _. ⊥) out

module _ (h : Host) where
  open h use {Outside, library, readable, ends, cancel_recovery}
  open library use {iso, same_path}

  -- The disk works, and the documents of the transition and the outcome are accepted.
  pub record Works (t : Transition) (o : Outcome) : Type 0 where
    pub reads : (x : Outside) → readable x ≡ ok tt
    pub writes : (x : Outside) → ends x ≡ written
    pub cancels : (x : Outside) → (cancel_recovery o.transaction_id x).0 ≡ ok tt
    pub transition_accepted : normalize_transition_document library (transition_document t) ≡ ok t
    pub outcome_accepted :
        (p : Checkpoint)
        → normalize_transition_outcome iso (outcome_document (at_phase p o)) ≡ ok (at_phase p o)
    pub same_root : same_path t.pending.root t.pending.root ≡ true
    pub of_transition : t.transaction_id ≡ o.transaction_id

  load_recorded-ok :
      (o : Outcome) (w : Disk Outside)
      → readable w.outside ≡ ok tt
      → normalize_transition_outcome iso (outcome_document o) ≡ ok o
      → w.files.outcome ≡ some (outcome_document o)
      → load_recorded h w ≡ ok o
  unfolding load_recorded load_outcome read_outcome amneziawg_manager.Result.◌>>=◌
  load_recorded-ok o w r n e = rw r (rw e (rw n refl))

  require_equal_refl :
      {A : Type 0} (d : Discrete A) (a : A) (e : String) → require_equal d a a e ≡ ok tt
  unfolding require_equal
  require_equal_refl d a e =
      elim (d a a) as (λ c. elim c [ yes _ ↦ ok tt | no _ ↦ raised e ] ≡ ok tt) [
        | yes _ ↦ refl
        | no differs ↦ absurd (differs refl)
      ]

  -- A move of the recorded outcome to another checkpoint.
  moves-Returns :
      (t : Transition) (o : Outcome) (before p : Checkpoint) (w : Disk Outside)
      → Works t o
      → w.files.outcome ≡ some (outcome_document (at_phase before o))
      → Returns
          (λ o' (w' : Disk Outside).
            (o' ≡ at_phase p o) × (w'.files ≡ with_outcome (at_phase p o) w.files))
          (update_transition_outcome_phase h before p (at_phase before o) w)
  unfolding update_transition_outcome_phase
  moves-Returns t o before p w works e = known_lift-Ends _ _ w (works.outcome_accepted before) (
      known_ask-Ends _ _ w
        (load_recorded-ok (at_phase before o) w (works.reads _) (works.outcome_accepted before) e)
        (known_lift-Ends _ _ w (require_equal_refl _ _ _) (
          known_lift-Ends _ _ w (require_same_text before _) (
            known_lift-Ends _ _ w (works.outcome_accepted p) (
              bind-Ends _ _ w (change-Returns h _ w (works.writes _)) λ _ w' changed.
                known_ask-Ends _ _ w'
                  (load_recorded-ok (at_phase p o) w' (works.reads _) (works.outcome_accepted p)
                    (ap (λ s. s.outcome) changed))
                  (known_lift-Ends _ _ w' (require_equal_refl _ _ _)
                    (pure-Ends _ w' (refl, changed))))))))
    where
      require_same_text :
          (q : Checkpoint) (e : String) → require (same (cleanup_text q) (cleanup_text q)) e ≡ ok tt
      require_same_text q e = rw ((same_iff (cleanup_text q) (cleanup_text q)).1 refl) refl

  load_transition-ok :
      (t : Transition) (w : Disk Outside)
      → readable w.outside ≡ ok tt
      → normalize_transition_document library (transition_document t) ≡ ok t
      → w.files.transition ≡ some (transition_document t)
      → load_transition h w ≡ ok (some t)
  unfolding load_transition read_transition amneziawg_manager.Result.◌>>=◌
  load_transition-ok t w r n e = rw r (rw e (rw n refl))

  identify-ok :
      (t : Transition) (o : Outcome)
      → normalize_transition_document library (transition_document t) ≡ ok t
      → t.transaction_id ≡ o.transaction_id
      → identify library (some t) (some t) o ≡ ok (some t)
  unfolding identify amneziawg_manager.Result.◌>>=◌
  identify-ok t o n e = rw ((same_iff t.transaction_id o.transaction_id).1 e) (
      rw n
        (rw (require_equal_refl Transition-discrete t "terminal cleanup transition changed") refl))

  nothing_applied :
      (e : Ending) (o : Outcome) (w : Disk Outside)
      → e ≡ rolled_back
      → Returns (λ _ (w' : Disk Outside). w' ≡ w) (apply_by_ending h e o w)
  unfolding apply_by_ending
  nothing_applied e o w r = rw r (pure-Ends tt w refl)

  removed_root :
      (t : Transition) (o : Outcome) (b : Bool) (w : Disk Outside)
      → Works t o
      → w.files.pending t.pending.root ≡ b
      → Returns
          (λ _ (w' : Disk Outside).
            (w'.files.pending t.pending.root ≡ false)
            × (w'.files.outcome ≡ w.files.outcome)
            × (w'.files.transition ≡ w.files.transition))
          (remove_if h b t.pending.root w)
  unfolding remove_if
  removed_root t o false w works e = pure-Ends tt w (e, refl, refl)
  removed_root t o true w works e =
      weaken-Ends _
        (λ _ _ e. (
          ap (λ s. s.pending t.pending.root) e ∙ cleared,
          ap (λ s. s.outcome) e,
          ap (λ s. s.transition) e,
        ))
        (λ _ _ x. x) (change-Returns h _ w (works.writes _))
    where
      cleared : (without_pending same_path t.pending.root w.files).pending t.pending.root ≡ false
      cleared = rw works.same_root refl

  never : (b : Bool) (e d : String) → b ≡ false → raise_if b e ≡ raised d → ⊥
  never true e d h k = cc
  never false e d h k = cc

  removed_pending :
      (t : Transition) (o : Outcome) (w : Disk Outside)
      → Works t o
      → Returns
          (λ _ (w' : Disk Outside).
            (w'.files.outcome ≡ w.files.outcome) × (w'.files.transition ≡ w.files.transition))
          (remove_transition_pending h t w)
  unfolding remove_transition_pending
  removed_pending t o w works = known_ask-Ends _ _ w refl (
      bind-Ends _ _ w (removed_root t o _ w works refl) λ _ w' (gone, record_kept, kept).
        last_ask-Ends _ w' (λ e bad. never _ _ e gone bad) λ _ _. (record_kept, kept))

  removed_current :
      (t : Transition) (o : Outcome) (w : Disk Outside)
      → Works t o
      → w.files.transition ≡ some (transition_document t)
      → Returns
          (λ _ (w' : Disk Outside). w'.files.outcome ≡ w.files.outcome)
          (remove_current_transition h t w)
  unfolding remove_current_transition remove_found
  removed_current t o w works e =
      known_ask-Ends _ _ w (load_transition-ok t w (works.reads _) works.transition_accepted e) (
        known_lift-Ends _ _ w (require_equal_refl _ _ _) (
          weaken-Ends _ (λ _ _ e. ap (λ s. s.outcome) e) (λ _ _ x. x)
            (change-Returns h _ w (works.writes _))))

  cancelled :
      (skip : Bool) (t : Transition) (o : Outcome) (w : Disk Outside)
      → Works t o
      → Returns
          (λ _ (w' : Disk Outside). w'.files ≡ w.files)
          (cancel_unless h skip o.transaction_id w)
  unfolding cancel_unless
  cancelled true t o w works = ok-Ends _ _ tt w refl
  cancelled false t o w works = rw (works.cancels w.outside) (ok-Ends _ _ tt _ refl)

  current_Returns :
      (skip : Bool) (t : Transition) (o : Outcome) (w : Disk Outside)
      → Works t o
      → w.files.outcome ≡ some (outcome_document (at_phase current o))
      → Returns
          (λ o' (w' : Disk Outside). o' ≡ at_phase complete o)
          (from_current h skip (at_phase current o) w)
  unfolding from_current
  current_Returns skip t o w works recorded =
      bind-Ends _ _ w (cancelled skip t o w works) λ _ w' same_files.
        weaken-Ends _ (λ _ _ (same_outcome, _). same_outcome) (λ _ _ x. x)
          (moves-Returns t o current complete w' works (ap (λ s. s.outcome) same_files ∙ recorded))

  pending_Returns :
      (skip : Bool) (t : Transition) (o : Outcome) (w : Disk Outside)
      → Works t o
      → w.files.transition ≡ some (transition_document t)
      → w.files.outcome ≡ some (outcome_document (at_phase pending o))
      → Returns
          (λ o' (w' : Disk Outside). o' ≡ at_phase complete o)
          (from_pending h skip (some t) (at_phase pending o) w)
  unfolding from_pending remove_given
  pending_Returns skip t o w works stored recorded =
      bind-Ends _ _ w (removed_current t o w works stored) λ _ w1 kept.
        bind-Ends _ _ w1 (moves-Returns t o pending current w1 works (kept ∙ recorded))
          λ o2 w2 (same_outcome, moved).
            rw same_outcome (current_Returns skip t o w2 works (ap (λ s. s.outcome) moved))

  given_Returns :
      (t : Transition) (w : Disk Outside)
      → Returns (λ x (w' : Disk Outside). (x ≡ t) × (w' ≡ w)) (given_root h (some t) w)
  unfolding given_root
  given_Returns t w = pure-Ends t w (refl, refl)

  metadata_Returns :
      (skip : Bool) (t : Transition) (o : Outcome) (w : Disk Outside)
      → Works t o
      → w.files.transition ≡ some (transition_document t)
      → w.files.outcome ≡ some (outcome_document (at_phase metadata o))
      → Returns
          (λ o' (w' : Disk Outside). o' ≡ at_phase complete o)
          (from_metadata h skip (some t) (at_phase metadata o) w)
  unfolding from_metadata
  metadata_Returns skip t o w works stored recorded =
      bind-Ends _ _ w (given_Returns t w) λ x w0 (same_given, same_disk). rw same_given (
        rw same_disk (
          bind-Ends _ _ w (removed_pending t o w works) λ _ w1 (kept, kept_transition).
            bind-Ends _ _ w1 (moves-Returns t o metadata pending w1 works (kept ∙ recorded))
              λ o2 w2 (same_outcome, moved). rw same_outcome (
                pending_Returns skip t o w2 works
                  (ap (λ s. s.transition) moved ∙ kept_transition ∙ stored)
                  (ap (λ s. s.outcome) moved))))

  checkpoint_Returns :
      (skip : Bool) (t : Transition) (o : Outcome) (w : Disk Outside)
      → Works t o
      → o.outcome ≡ rolled_back
      → w.files.transition ≡ some (transition_document t)
      → w.files.outcome ≡ some (outcome_document (at_phase checkpoint o))
      → Returns
          (λ o' (w' : Disk Outside). o' ≡ at_phase complete o)
          (from_checkpoint h skip (some t) (at_phase checkpoint o) w)
  unfolding from_checkpoint apply_confirmed_profile_updates
  checkpoint_Returns skip t o w works back stored recorded =
      bind-Ends _ _ w
        (known_lift-Ends _ _ w (works.outcome_accepted checkpoint)
          (nothing_applied o.outcome (at_phase checkpoint o) w back))
        λ _ w1 same_disk. rw same_disk (
          bind-Ends _ _ w (moves-Returns t o checkpoint metadata w works recorded)
            λ o2 w2 (same_outcome, moved). rw same_outcome (
              metadata_Returns skip t o w2 works (ap (λ s. s.transition) moved ∙ stored)
                (ap (λ s. s.outcome) moved)))

  -- On a disk that works, and with a cancellation of the timer that works, the cleanup of a transition
  -- that was rolled back returns from its first checkpoint, and the outcome that it returns is
  -- complete.
  pub resume_transition_cleanup-Returns :
      (skip : Bool) (t : Transition) (o : Outcome) (w : Disk Outside)
      → Works t o
      → o.outcome ≡ rolled_back
      → w.files.transition ≡ some (transition_document t)
      → w.files.outcome ≡ some (outcome_document (at_phase checkpoint o))
      → Returns
          (λ o' (w' : Disk Outside). o' ≡ at_phase complete o)
          (resume_transition_cleanup h skip (some t) (at_phase checkpoint o) w)
  unfolding resume_transition_cleanup from_phase
  resume_transition_cleanup-Returns skip t o w works back stored recorded =
      known_lift-Ends _ _ w (works.outcome_accepted checkpoint) (
        known_ask-Ends _ _ w
          (load_transition-ok t w (works.reads _) works.transition_accepted stored)
          (known_lift-Ends _ _ w
            (identify-ok t (at_phase checkpoint o) works.transition_accepted works.of_transition)
            (checkpoint_Returns skip t o w works back stored recorded)))
