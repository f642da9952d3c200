-- ===== src/Transition/Cleanup/Steps.antt =====
-- The steps of the cleanup in awgctl/core.py: the removal of the pending artifacts, that of the
-- transition's document, and the move to the next checkpoint.
use mathlib.Core.Path.{subst}
use amneziawg_manager.Prelude.{
  String, ◌≡◌, refl, sym, ap, ◌∙◌, ◌⊎◌, inl, inr, Bool, true, false, Option, none, some, arith,
}
use amneziawg_manager.Result.{ok, ◌>>=◌, raise_if-eq-ok, Ensures, ok-Ensures, bind-Ensures}
use amneziawg_manager.Value.{Value}
use amneziawg_manager.Step.Ends.{
  Ends, ok-Ends, bind-Ends, ask-Ends, lift-Ends, last_ask-Ends, pure-Ends, weaken-Ends,
}
use amneziawg_manager.Transition.Document.{Library, Transition}
use amneziawg_manager.Transition.Outcome.{Checkpoint, Outcome}
use amneziawg_manager.Transition.Outcome.Faithful.{normalize-outcome_document}
use amneziawg_manager.Transition.Load.{Files, Disk, Host, read_transition, load_transition}
use amneziawg_manager.Transition.Store.{with_transition}
use amneziawg_manager.Transition.Store.Swap.{change-Ends}
use amneziawg_manager.Transition.Cleanup.{
  with_outcome, without_pending, at_phase, remove_if, remove_transition_pending, remove_found,
  remove_current_transition, update_transition_outcome_phase, cancel_unless,
}

-- Only whether roots of artifacts exist has changed.
pub record PendingFrame (s s' : Files) : Type 0 where
  pub same_transition : s'.transition ≡ s.transition
  pub same_outcome : s'.outcome ≡ s.outcome
  pub same_metadata : s'.metadata ≡ s.metadata

pub record TransitionFrame (s s' : Files) : Type 0 where
  pub same_outcome : s'.outcome ≡ s.outcome
  pub same_pending : s'.pending ≡ s.pending
  pub same_metadata : s'.metadata ≡ s.metadata

read-none :
    (l : Library) (v : Option Value) → Ensures (λ c. c ≡ none → v ≡ none) (read_transition l v)
unfolding read_transition
read-none l none = ok-Ensures _ (λ _. refl)
read-none l (some v) = bind-Ensures _ _ λ t _. ok-Ensures _ (λ e. cc)

abbrev pub Moved : Outcome → Files → Files → Type 0
Moved o s s' = s' ≡ with_outcome o s

module _ (h : Host) where
  open h use {Outside, library}
  open library use {iso, same_path}

  -- What is loaded from no document.
  pub load_transition-none :
      (w : Disk Outside) (x : Option Transition)
      → w.files.transition ≡ none
      → load_transition h w ≡ ok x
      → x ≡ none
  unfolding load_transition ◌>>=◌
  load_transition-none w x e l = ground arith

  pub none-load_transition :
      (w : Disk Outside) → load_transition h w ≡ ok none → w.files.transition ≡ none
  unfolding load_transition
  none-load_transition w l =
      (bind-Ensures (Host.readable h w.outside) _ λ _ _. read-none library w.files.transition).on
        none l refl

  same_files : (s : Files) → PendingFrame s s
  same_files s = record { same_transition = refl; same_outcome = refl; same_metadata = refl }

  remove_if-Ends :
      (b : Bool) (root : String) (w : Disk Outside)
      → Ends
          (λ _ (w' : Disk Outside). PendingFrame w.files w'.files)
          (λ _ (w' : Disk Outside). PendingFrame w.files w'.files)
          (remove_if h b root w)
  unfolding remove_if
  remove_if-Ends false root w = pure-Ends tt w (same_files _)
  remove_if-Ends true root w =
      let gone : PendingFrame w.files (without_pending same_path root w.files) = record {
        same_transition = refl;
        same_outcome = refl;
        same_metadata = refl;
      } in
      weaken-Ends _ (λ _ _ e. subst (PendingFrame w.files) (sym e) gone)
        (λ _ _ x. elim x [
          | inl e ↦ subst (PendingFrame w.files) (sym e) (same_files _)
          | inr e ↦ subst (PendingFrame w.files) (sym e) gone
        ])
        (change-Ends h _ w)

  -- The removal of the artifacts returns only when they are gone.
  pub remove_transition_pending-Ends :
      (t : Transition) (w : Disk Outside)
      → Ends
          (λ _ (w' : Disk Outside).
            (w'.files.pending t.pending.root ≡ false) × PendingFrame w.files w'.files)
          (λ _ (w' : Disk Outside). PendingFrame w.files w'.files)
          (remove_transition_pending h t w)
  unfolding remove_transition_pending
  remove_transition_pending-Ends t w =
      ask-Ends _ _ w (λ _ _. same_files _)
        λ there _.
          bind-Ends _ _ w (remove_if-Ends there t.pending.root w)
            λ _ w' f. last_ask-Ends _ w' (λ _ _. f) λ _ gone. (raise_if-eq-ok _ _ gone, f)

  abbrev stays : (s : Files) → TransitionFrame s s
  stays s = record { same_outcome = refl; same_pending = refl; same_metadata = refl }

  remove_found-Ends :
      (c : Option Transition) (t : Transition) (w : Disk Outside)
      → load_transition h w ≡ ok c
      → Ends
          (λ _ (w' : Disk Outside). (w'.files.transition ≡ none) × TransitionFrame w.files w'.files)
          (λ _ (w' : Disk Outside). TransitionFrame w.files w'.files)
          (remove_found h c t w)
  unfolding remove_found
  remove_found-Ends none t w loaded = pure-Ends tt w (none-load_transition w loaded, stays _)
  remove_found-Ends (some c) t w loaded =
      let gone : TransitionFrame w.files (with_transition none w.files) = record {
        same_outcome = refl;
        same_pending = refl;
        same_metadata = refl;
      } in
      lift-Ends _ _ w (λ _ _. stays _)
        λ _ _.
          weaken-Ends _
            (λ _ w' e. (ap (λ s. s.transition) e, subst (TransitionFrame w.files) (sym e) gone))
            (λ _ _ x. elim x [
              | inl e ↦ subst (TransitionFrame w.files) (sym e) (stays _)
              | inr e ↦ subst (TransitionFrame w.files) (sym e) gone
            ])
            (change-Ends h _ w)

  -- The removal of the transition returns only when no transition is stored.
  pub remove_current_transition-Ends :
      (t : Transition) (w : Disk Outside)
      → Ends
          (λ _ (w' : Disk Outside). (w'.files.transition ≡ none) × TransitionFrame w.files w'.files)
          (λ _ (w' : Disk Outside). TransitionFrame w.files w'.files)
          (remove_current_transition h t w)
  unfolding remove_current_transition
  remove_current_transition-Ends t w =
      ask-Ends _ _ w (λ _ _. stays _) λ c loaded. remove_found-Ends c t w loaded

  -- The move returns the outcome at its new checkpoint, which is recorded.
  pub update_transition_outcome_phase-Ends :
      (expected phase : Checkpoint) (o : Outcome) (w : Disk Outside)
      → Ends
          (λ o' (w' : Disk Outside).
            (o' ≡ at_phase phase o) × Moved (at_phase phase o) w.files w'.files)
          (λ _ (w' : Disk Outside).
            (w'.files ≡ w.files) ⊎ Moved (at_phase phase o) w.files w'.files)
          (update_transition_outcome_phase h expected phase o w)
  unfolding update_transition_outcome_phase
  update_transition_outcome_phase-Ends expected phase o w =
      lift-Ends _ _ w (λ _ _. inl refl)
        λ n normal.
          ask-Ends _ _ w (λ _ _. inl refl)
            λ now _.
              lift-Ends _ _ w (λ _ _. inl refl)
                λ _ _.
                  lift-Ends _ _ w (λ _ _. inl refl)
                    λ _ _.
                      lift-Ends _ _ w (λ _ _. inl refl)
                        λ p proposed.
                          let same : p ≡ at_phase phase o =
                            (normalize-outcome_document iso (at_phase phase n)).on p proposed
                            ∙ ap (at_phase phase)
                                ((normalize-outcome_document iso o).on n normal) in
                          rw same (
                            bind-Ends _ _ w
                              (weaken-Ends _ (λ _ _ e. e) (λ _ _ x. x) (change-Ends h _ w))
                              λ _ w' e.
                                ask-Ends _ _ w' (λ _ _. inr e)
                                  λ _ _.
                                    lift-Ends _ _ w' (λ _ _. inr e) λ _ _. pure-Ends _ w' (refl, e))

  -- A cancellation of the recovery changes no file.
  pub cancel_unless-Ends :
      (skip : Bool) (id : String) (w : Disk Outside)
      → Ends
          (λ _ (w' : Disk Outside). w'.files ≡ w.files)
          (λ _ (w' : Disk Outside). w'.files ≡ w.files)
          (cancel_unless h skip id w)
  unfolding cancel_unless
  cancel_unless-Ends true id w = ok-Ends _ _ tt w refl
  cancel_unless-Ends false id w = record { returns = λ _ _. refl; raises = λ _ _. refl }
