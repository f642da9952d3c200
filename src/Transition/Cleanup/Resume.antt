-- ===== src/Transition/Cleanup/Resume.antt =====
-- `resume_transition_cleanup` of awgctl/core.py: the checkpoints of the cleanup.
use mathlib.Core.Path.{subst}
use amneziawg_manager.Prelude.{◌≡◌, refl, sym, ap, ◌∙◌, inl, inr, Bool, false, Option, none, some}
use amneziawg_manager.Result.{Result, ok, Ensures, ok-Ensures, bind-Ensures}
use amneziawg_manager.Step.Ends.{
  Ends, bind-Ends, ask-Ends, lift-Ends, pure-Ends, raise-Ends, weaken-Ends,
}
use amneziawg_manager.Transition.Document.{Transition}
use amneziawg_manager.Transition.Document.Faithful.{normalize-transition_document}
use amneziawg_manager.Transition.Outcome.{
  Checkpoint, checkpoint, metadata, pending, current, complete, Outcome, outcome_document,
}
use amneziawg_manager.Transition.Outcome.Faithful.{normalize-outcome_document}
use amneziawg_manager.Transition.Load.{Files, Disk, Host, load_transition, identify}
use amneziawg_manager.Transition.Cleanup.{
  with_outcome, at_phase, given_root, remove_given, from_current, from_pending, from_metadata,
  from_checkpoint, from_complete, from_phase, resume_transition_cleanup,
  update_transition_outcome_phase,
}
use amneziawg_manager.Transition.Cleanup.Metadata.{
  OutcomeFrame, Applied, apply_confirmed_profile_updates-Applied,
}
use amneziawg_manager.Transition.Cleanup.Steps.{
  load_transition-none, none-load_transition, PendingFrame, TransitionFrame,
  remove_transition_pending-Ends, remove_current_transition-Ends, Moved,
  update_transition_outcome_phase-Ends, cancel_unless-Ends,
}

abbrev pub Cleared : Transition → Files → Type 0
Cleared t s = s.pending t.pending.root ≡ false

abbrev pub Gone : Files → Type 0
Gone s = s.transition ≡ none

module _ (h : Host) where
  open h use {Outside, library}
  open library use {iso}

  -- What is done at each checkpoint of the cleanup.
  abbrev pub Done : Transition → Checkpoint → Outcome → Files → Type 0
  Done t checkpoint o s = Unit
  Done t metadata o s = Applied h o s.metadata
  Done t pending o s = Applied h o s.metadata × Cleared t s
  Done t current o s = Applied h o s.metadata × Cleared t s × Gone s
  Done t complete o s = Applied h o s.metadata × Cleared t s × Gone s

  -- The outcome is recorded, and what its checkpoint says is done.
  pub record Truthful (t : Transition) (o : Outcome) (s : Files) : Type 0 where
    pub recorded : s.outcome ≡ some (outcome_document o)
    pub done : Done t o.cleanup_phase o s

  -- The cleanup can be resumed: the record of the outcome, at some checkpoint, is truthful.
  pub record Resumable (t : Transition) (o : Outcome) (s : Files) : Type 0 where
    pub phase : Checkpoint
    pub holds : Truthful t (at_phase phase o) s

  -- The cleanup is complete: the record says so, and is truthful.
  abbrev pub Completed : Transition → Outcome → Outcome → Files → Type 0
  Completed t o o' s = (o' ≡ at_phase complete o) × Truthful t (at_phase complete o) s

  -- The transition that the cleanup goes on with is `t`, or there is none any more.
  abbrev Names : Transition → Option Transition → Files → Type 0
  Names t none s = Gone s
  Names t (some given) s = given ≡ t

  abbrev Cleans : Transition → Outcome → Result Outcome × Disk Outside → Type 0
  Cleans t o out =
      Ends (λ o' (w : Disk Outside). Completed t o o' w.files)
        (λ _ (w : Disk Outside). Resumable t o w.files) out

  with_outcome-Done :
      (t : Transition) (o o' : Outcome) (p q : Checkpoint) (s : Files)
      → Done t p o s
      → Done t p (at_phase q o) (with_outcome o' s)
  with_outcome-Done t o o' checkpoint q s d = d
  with_outcome-Done t o o' metadata q s d = d
  with_outcome-Done t o o' pending q s d = d
  with_outcome-Done t o o' current q s d = d
  with_outcome-Done t o o' complete q s d = d

  -- A move to the checkpoint `p`, from what is done at the one before and at `p`.
  moves-Truthful :
      (t : Transition) (o : Outcome) (before p : Checkpoint) (w : Disk Outside)
      → Truthful t (at_phase before o) w.files
      → Done t p o w.files
      → Ends
          (λ o' (w' : Disk Outside).
            (o' ≡ at_phase p o)
            × Truthful t (at_phase p o) w'.files
            × (w'.files.transition ≡ w.files.transition))
          (λ _ (w' : Disk Outside). Resumable t o w'.files)
          (update_transition_outcome_phase h before p (at_phase before o) w)
  moves-Truthful t o before p w was done =
      let next : (w' : Disk Outside)
          → Moved (at_phase p o) w.files w'.files
          → Truthful t (at_phase p o) w'.files =
        λ w' e. subst (Truthful t (at_phase p o)) (sym e) (record {
          recorded = refl;
          done = with_outcome-Done t o (at_phase p o) p p w.files done;
        }) in
      weaken-Ends _ (λ _ w' (same, e). (same, next w' e, ap (λ s. s.transition) e))
        (λ _ w' x. elim x [
          | inl e ↦ record {
            phase = before;
            holds = subst (Truthful t (at_phase before o)) (sym e) was;
          }
          | inr e ↦ record { phase = p; holds = next w' e }
        ])
        (update_transition_outcome_phase-Ends h before p (at_phase before o) w)

  -- The given transition is the same while the stored one is.
  same_transition-Names :
      (t : Transition) (given : Option Transition) (s s' : Files)
      → Names t given s
      → s'.transition ≡ s.transition
      → Names t given s'
  same_transition-Names t none s s' n e = e ∙ n
  same_transition-Names t (some x) s s' n e = n

  from_current-Cleans :
      (skip : Bool) (t : Transition) (o : Outcome) (w : Disk Outside)
      → Truthful t (at_phase current o) w.files
      → Cleans t o (from_current h skip (at_phase current o) w)
  unfolding from_current
  from_current-Cleans skip t o w was =
      let still : (w' : Disk Outside)
          → w'.files ≡ w.files
          → Truthful t (at_phase current o) w'.files =
        λ w' e. subst (Truthful t (at_phase current o)) (sym e) was in
      bind-Ends _ _ w
        (weaken-Ends _ (λ _ _ e. e) (λ _ w' e. record { phase = current; holds = still w' e })
          (cancel_unless-Ends h skip o.transaction_id w))
        λ _ w' e.
          weaken-Ends _ (λ _ _ (same, truth, _). (same, truth)) (λ _ _ r. r)
            (moves-Truthful t o current complete w' (still w' e) (still w' e).done)

  from_pending-Cleans :
      (skip : Bool) (t : Transition) (given : Option Transition) (o : Outcome) (w : Disk Outside)
      → Truthful t (at_phase pending o) w.files
      → Names t given w.files
      → Cleans t o (from_pending h skip given (at_phase pending o) w)
  unfolding from_pending remove_given
  from_pending-Cleans skip t given o w was names =
      bind-Ends _ _ w (removes given names) λ _ w' (gone, f).
        bind-Ends _ _ w'
          (moves-Truthful t o pending current w' (kept w' f)
            ((kept w' f).done.0, (kept w' f).done.1, gone))
          λ o' w2 (same, truth, _). rw same (from_current-Cleans skip t o w2 truth)
    where
      kept :
          (w' : Disk Outside)
          → TransitionFrame w.files w'.files
          → Truthful t (at_phase pending o) w'.files
      kept w' f = record {
        recorded = f.same_outcome ∙ was.recorded;
        done = (
          subst (Applied h o) (sym f.same_metadata) was.done.0,
          ap (λ x. x t.pending.root) f.same_pending ∙ was.done.1,
        );
      }

      removes :
          (g : Option Transition)
          → Names t g w.files
          → Ends
              (λ _ (w' : Disk Outside). Gone w'.files × TransitionFrame w.files w'.files)
              (λ _ (w' : Disk Outside). Resumable t o w'.files)
              (remove_given h g w)
      removes none n =
          pure-Ends tt w
            (n, record { same_outcome = refl; same_pending = refl; same_metadata = refl })
      removes (some x) n =
          weaken-Ends _ (λ _ _ x. x) (λ _ w' f. record { phase = pending; holds = kept w' f })
            (remove_current_transition-Ends h x w)

  from_metadata-Cleans :
      (skip : Bool) (t : Transition) (given : Option Transition) (o : Outcome) (w : Disk Outside)
      → Truthful t (at_phase metadata o) w.files
      → Names t given w.files
      → Cleans t o (from_metadata h skip given (at_phase metadata o) w)
  unfolding from_metadata given_root amneziawg_manager.Step.raise
  from_metadata-Cleans skip t given o w was names =
      bind-Ends _ _ w (named given names) λ x w1 (same, e). rw e (
        bind-Ends _ _ w
          (weaken-Ends _ (λ _ _ r. r) (λ _ w' f. record { phase = metadata; holds = kept w' f })
            (remove_transition_pending-Ends h x w))
          λ _ w2 (gone, f).
            bind-Ends _ _ w2
              (moves-Truthful t o metadata pending w2 (kept w2 f)
                ((kept w2 f).done, subst (λ y. Cleared y w2.files) same gone))
              λ o' w3 (next, truth, e3). rw next (
                from_pending-Cleans skip t given o w3 truth
                  (same_transition-Names t given w.files w3.files names (e3 ∙ f.same_transition))))
    where
      kept :
          (w' : Disk Outside)
          → PendingFrame w.files w'.files
          → Truthful t (at_phase metadata o) w'.files
      kept w' f = record {
        recorded = f.same_outcome ∙ was.recorded;
        done = subst (Applied h o) (sym f.same_metadata) was.done;
      }

      named :
          (g : Option Transition)
          → Names t g w.files
          → Ends
              (λ x (w' : Disk Outside). (x ≡ t) × (w' ≡ w))
              (λ _ (w' : Disk Outside). Resumable t o w'.files)
              (given_root h g w)
      named none n = raise-Ends _ w (record { phase = metadata; holds = was })
      named (some x) n = pure-Ends x w (n, refl)

  from_checkpoint-Cleans :
      (skip : Bool) (t : Transition) (given : Option Transition) (o : Outcome) (w : Disk Outside)
      → Truthful t (at_phase checkpoint o) w.files
      → Names t given w.files
      → Cleans t o (from_checkpoint h skip given (at_phase checkpoint o) w)
  unfolding from_checkpoint
  from_checkpoint-Cleans skip t given o w was names =
      let kept : (w' : Disk Outside)
          → OutcomeFrame h o w.files w'.files
          → Truthful t (at_phase checkpoint o) w'.files =
        λ w' f. record { recorded = f.same_outcome ∙ was.recorded; done = tt } in
      bind-Ends _ _ w
        (weaken-Ends _ (λ _ _ r. r) (λ _ w' f. record { phase = checkpoint; holds = kept w' f })
          (apply_confirmed_profile_updates-Applied h (at_phase checkpoint o) w))
        λ _ w1 (applied, f).
          bind-Ends _ _ w1 (moves-Truthful t o checkpoint metadata w1 (kept w1 f) applied)
            λ o' w2 (next, truth, e). rw next (
              from_metadata-Cleans skip t given o w2 truth
                (same_transition-Names t given w.files w2.files names (e ∙ f.same_transition)))

  -- The cleanup from any of its checkpoints.
  from_phase-Cleans :
      (p : Checkpoint) (skip : Bool) (t : Transition) (stored given : Option Transition)
      (o : Outcome) (w : Disk Outside)
      → load_transition h w ≡ ok stored
      → Truthful t (at_phase p o) w.files
      → Names t given w.files
      → Cleans t o (from_phase h p skip stored given (at_phase p o) w)
  unfolding from_phase from_complete
  from_phase-Cleans checkpoint skip t stored given o w loaded was names =
      from_checkpoint-Cleans skip t given o w was names
  from_phase-Cleans metadata skip t stored given o w loaded was names =
      from_metadata-Cleans skip t given o w was names
  from_phase-Cleans pending skip t stored given o w loaded was names =
      from_pending-Cleans skip t given o w was names
  from_phase-Cleans current skip t stored given o w loaded was names =
      from_current-Cleans skip t o w was
  from_phase-Cleans complete skip t stored given o w loaded was names =
      rw (load_transition-none h w stored was.done.2 loaded) (pure-Ends _ w (refl, was))

  -- The transition that the caller knows, or the one that is stored, is `t`.
  abbrev pub Known : Transition → Option Transition → Disk Outside → Type 0
  Known t none w = (c : Transition) → load_transition h w ≡ ok (some c) → c ≡ t
  Known t (some given) w = given ≡ t

  identify-Names :
      (t : Transition) (stored document : Option Transition) (o : Outcome) (w : Disk Outside)
      → load_transition h w ≡ ok stored
      → Known t document w
      → Ensures (λ given. Names t given w.files) (identify library stored document o)
  unfolding identify
  identify-Names t none none o w loaded known = ok-Ensures none (none-load_transition h w loaded)
  identify-Names t none (some g) o w loaded known = bind-Ensures _ _ λ n normal.
      ok-Ensures (some n) ((normalize-transition_document library g).on n normal ∙ known)
  identify-Names t (some c) none o w loaded known =
      bind-Ensures _ _ λ _ _. ok-Ensures (some c) (known c loaded)
  identify-Names t (some c) (some g) o w loaded known = bind-Ensures _ _ λ _ _.
      bind-Ensures _ _ λ n normal.
        bind-Ensures _ _
          λ _ _. ok-Ensures (some n) ((normalize-transition_document library g).on n normal ∙ known)

  -- Where the record of the outcome is truthful, a cleanup that returns is complete: the updates of
  -- the profiles are in the metadata, the pending artifacts and the transition are gone, and the
  -- outcome is recorded as complete. If it raises, at whatever step, the same outcome is recorded
  -- with a checkpoint that is truthful again, so that the cleanup can be resumed.
  pub resume_transition_cleanup-Cleans :
      (skip : Bool) (t : Transition) (document : Option Transition) (o : Outcome) (w : Disk Outside)
      → Truthful t o w.files
      → Known t document w
      → Cleans t o (resume_transition_cleanup h skip document o w)
  unfolding resume_transition_cleanup
  resume_transition_cleanup-Cleans skip t document o w was known =
      let safe : Resumable t o w.files = record { phase = o.cleanup_phase; holds = was } in
      lift-Ends _ _ w (λ _ _. safe)
        λ n normal.
          ask-Ends _ _ w (λ _ _. safe)
            λ stored loaded.
              lift-Ends _ _ w (λ _ _. safe)
                λ given found. rw ((normalize-outcome_document iso o).on n normal) (
                  from_phase-Cleans o.cleanup_phase skip t stored given o w loaded was
                    ((identify-Names t stored document n w loaded known).on given found))
