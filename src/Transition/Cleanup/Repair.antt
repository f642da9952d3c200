-- ===== src/Transition/Cleanup/Repair.antt =====
-- `resume_transition_cleanup` of awgctl/core.py on a complete outcome whose transition is stored.
use amneziawg_manager.Prelude.{◌≡◌, refl, sym, ap, ◌∙◌, Bool, Option, some}
use mathlib.Core.Path.{subst}
use amneziawg_manager.Result.{ok, ok_injective}
use amneziawg_manager.Step.Ends.{Ends, bind-Ends, ask-Ends, lift-Ends, pure-Ends, weaken-Ends}
use amneziawg_manager.Transition.Document.{Transition}
use amneziawg_manager.Transition.Outcome.{Checkpoint, complete, Outcome}
use amneziawg_manager.Transition.Outcome.Faithful.{normalize-outcome_document}
use amneziawg_manager.Transition.Load.{Files, Disk, Host, load_transition}
use amneziawg_manager.Transition.Cleanup.{from_complete, from_phase, resume_transition_cleanup}
use amneziawg_manager.Transition.Cleanup.Metadata.{Applied, apply_confirmed_profile_updates-Applied}
use amneziawg_manager.Transition.Cleanup.Steps.{
  remove_transition_pending-Ends, remove_current_transition-Ends, cancel_unless-Ends,
}
use amneziawg_manager.Transition.Cleanup.Resume.{Cleared, Gone}

module _ (h : Host) where
  open h use {Outside, library}
  open library use {iso}

  -- All effects of the outcome are there, and its record is the one before.
  pub record Repaired (c : Transition) (o : Outcome) (s s' : Files) : Type 0 where
    pub applied : Applied h o s'.metadata
    pub cleared : Cleared c s'
    pub gone : Gone s'
    pub same_record : s'.outcome ≡ s.outcome

  from_complete-Repaired :
      (skip : Bool) (c : Transition) (o : Outcome) (w : Disk Outside)
      → Ends
          (λ o' (w' : Disk Outside). (o' ≡ o) × Repaired c o w.files w'.files)
          (λ _ (w' : Disk Outside). w'.files.outcome ≡ w.files.outcome)
          (from_complete h skip (some c) o w)
  unfolding from_complete
  from_complete-Repaired skip c o w =
      bind-Ends _ _ w
        (weaken-Ends _ (λ _ _ r. r) (λ _ _ f. f.same_outcome)
          (apply_confirmed_profile_updates-Applied h o w))
        λ _ w1 (applied, f1).
          bind-Ends _ _ w1
            (weaken-Ends _ (λ _ _ r. r) (λ _ _ f. f.same_outcome ∙ f1.same_outcome)
              (remove_transition_pending-Ends h c w1))
            λ _ w2 (cleared, f2).
              bind-Ends _ _ w2
                (weaken-Ends _ (λ _ _ r. r)
                  (λ _ _ e. ap (λ s. s.outcome) e ∙ f2.same_outcome ∙ f1.same_outcome)
                  (cancel_unless-Ends h skip o.transaction_id w2))
                λ _ w3 e3.
                  bind-Ends _ _ w3
                    (weaken-Ends _ (λ _ _ r. r)
                      (λ _ _ f.
                        f.same_outcome ∙ ap (λ s. s.outcome) e3 ∙ f2.same_outcome ∙ f1.same_outcome)
                      (remove_current_transition-Ends h c w3))
                    λ _ w4 (gone, f4). pure-Ends o w4 (
                      refl,
                      record {
                        applied =
                            subst (Applied h o)
                              (sym (f4.same_metadata ∙ ap (λ s. s.metadata) e3 ∙ f2.same_metadata))
                              applied;
                        cleared =
                            ap (λ p. p c.pending.root) (f4.same_pending ∙ ap (λ s. s.pending) e3)
                            ∙ cleared;
                        gone = gone;
                        same_record =
                            f4.same_outcome
                            ∙ ap (λ s. s.outcome) e3
                            ∙ f2.same_outcome
                            ∙ f1.same_outcome;
                      },
                    )

  from_phase-Repaired :
      (p : Checkpoint) (skip : Bool) (given : Option Transition) (c : Transition) (o : Outcome)
      (w : Disk Outside)
      → p ≡ complete
      → Ends
          (λ o' (w' : Disk Outside). (o' ≡ o) × Repaired c o w.files w'.files)
          (λ _ (w' : Disk Outside). w'.files.outcome ≡ w.files.outcome)
          (from_phase h p skip (some c) given o w)
  unfolding from_phase
  from_phase-Repaired p skip given c o w e = rw e (from_complete-Repaired skip c o w)

  -- Where the outcome is complete and yet a transition is stored, a cleanup that returns has applied
  -- the outcome's updates and has removed the artifacts and the document of that transition. The
  -- record of the outcome never changes, whether the cleanup returns or raises.
  pub resume_transition_cleanup-Repaired :
      (skip : Bool) (document : Option Transition) (c : Transition) (o : Outcome) (w : Disk Outside)
      → o.cleanup_phase ≡ complete
      → load_transition h w ≡ ok (some c)
      → Ends
          (λ o' (w' : Disk Outside). (o' ≡ o) × Repaired c o w.files w'.files)
          (λ _ (w' : Disk Outside). w'.files.outcome ≡ w.files.outcome)
          (resume_transition_cleanup h skip document o w)
  unfolding resume_transition_cleanup
  resume_transition_cleanup-Repaired skip document c o w done loaded =
      lift-Ends _ _ w (λ _ _. refl)
        λ n normal.
          ask-Ends _ _ w (λ _ _. refl)
            λ stored found.
              lift-Ends _ _ w (λ _ _. refl)
                λ given _. rw ((normalize-outcome_document iso o).on n normal) (
                  rw (ok_injective (sym found ∙ loaded))
                    (from_phase-Repaired o.cleanup_phase skip given c o w done))
