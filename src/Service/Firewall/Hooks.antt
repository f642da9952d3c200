-- ===== src/Service/Firewall/Hooks.antt =====
-- A firewall hook under the recorded operation and without one: `run_firewall_action_locked` of
-- awgctl/core.py.
use mathlib.Core.Path.{subst}
use amneziawg_manager.Prelude.{
  ℕ, suc, String, ◌≡◌, refl, sym, ◌∙◌, ap, ◌⊎◌, inl, inr, Bool, true, false, ◌||◌, Option, none,
  some, same_iff, same, if◌then◌else◌,
}
use amneziawg_manager.Result.{Result, ok, require-eq-ok, or_raise-eq-ok, ok_injective}
use amneziawg_manager.Service.Intent.{Hook, up, down, invoking, compensating, Intent}
use amneziawg_manager.Service.Document.{document}
use amneziawg_manager.Service.World.{World, Host, is_held, not_synced}
use amneziawg_manager.Step.{pure, asks}
use amneziawg_manager.Step.Ends.{Ends, bind-Ends, ask-Ends, lift-Ends, pure-Ends, weaken-Ends}
use amneziawg_manager.Service.Load.{load_optional}
use amneziawg_manager.Service.Store.Swap.{compare_and_swap-Ends, with_document}
use amneziawg_manager.Service.Progress.{hook_named, is_current, is_duplicate, advance}
use amneziawg_manager.Service.Progress.Turn.{
  At, moved_on, is_current-At, not_current-At, is_duplicate-At, accepts_hooks-eq, same_optional-eq,
}
use amneziawg_manager.Service.Firewall.{
  perform, stopped_for, record_progress, hook_under, hook_alone, hook_with,
  run_firewall_action_locked,
}
use amneziawg_manager.Service.Firewall.Checks.{
  SameFile, SameFile-of_eq, SameFile-trans, IsStopped, StoppedFor, stopped_for-Ends,
  ensure_service_stopped-Ends, perform-Ends, prove_postcondition-Ends,
}

module _ (h : Host) where
  open h use {State}

  -- A hook that is the next action has been recorded; a repeated one changed nothing at all.
  abbrev pub Recorded : Bool → Intent → World State → World State → Type 0
  Recorded true i w w' = w'.document ≡ some (document (moved_on i (h.now w'.outside)))
  Recorded false i w w' = w' ≡ w

  -- The file still holds what it held, or the hook was recorded and only the sync failed.
  abbrev pub Unrecorded : Intent → World State → World State → Type 0
  Unrecorded i w w' =
      (w'.document ≡ w.document)
      ⊎ ((w'.document ≡ some (document (moved_on i (h.now w'.outside))))
          × (h.write (record { document = w.document; outside = w'.outside })
                (document (moved_on i (h.now w'.outside)))
              ≡ not_synced))

  -- The hook `k` is the next one of the operation and has been recorded, or it repeats the one
  -- before the next, which differs from it, and nothing at all has changed.
  abbrev pub Progressed : Hook → Intent → World State → World State → Type 0
  Progressed k i w w' =
      (At i.expected_actions i.next_action k
        × (w'.document ≡ some (document (moved_on i (h.now w'.outside)))))
      ⊎ ((n : ℕ) × (i.next_action ≡ suc n)
          × At i.expected_actions n k
          × (¬ At i.expected_actions i.next_action k)
          × (w' ≡ w))

  -- The hook `k` under the operation `i` has been accepted and proven.
  pub record HookDone (k : Hook) (i : Intent) (w w' : World State) : Type 0 where
    pub accepted : (i.phase ≡ invoking) ⊎ (i.phase ≡ compensating)
    pub same_transition : h.transition_id w.outside ≡ ok i.transition_id
    pub same_generation : h.generation w.outside ≡ ok i.generation_sha256
    pub service_stopped : StoppedFor h k i.interface w
    pub progress : Progressed k i w w'
    pub proven : h.firewall_is w'.outside k ≡ ok true

  -- the change of the firewall, made only for the next action
  act-Ends :
      (b : Bool) (k : Hook) (w : World State)
      → Ends
          (λ _ w'. SameFile w w' × (b ≡ false → w' ≡ w))
          (λ _ w'. SameFile w w')
          ((if b then perform h k else pure tt) w)
  act-Ends true k w = weaken-Ends _ (λ _ _ s. (s, λ e. cc)) (λ _ _ s. s) (perform-Ends h k w)
  act-Ends false k w = pure-Ends tt w (SameFile-of_eq refl, λ _. refl)

  record_progress-Ends :
      (b : Bool) (i : Intent) (w : World State)
      → Ends
          (λ _ w'. Recorded b i w w' × (w'.outside ≡ w.outside))
          (λ _ w'. Unrecorded i w w')
          (record_progress h b i w)
  unfolding record_progress advance
  record_progress-Ends false i w = pure-Ends tt w (refl, refl)
  record_progress-Ends true i w =
      ask-Ends _ _ w (λ _ _. inl refl)
        λ now e.
          weaken-Ends _ (λ _ w' swapped. stored w w' now e swapped.stores)
            (λ _ w' o. elim o [
              | inl kept ↦ inl (ap (λ v. v.document) kept)
              | inr (swapped, late) ↦ inr (failed w w' now e swapped.stores late)
            ])
            (compare_and_swap-Ends h (advance i now) (some i.operation_id) (some i.phase) w)
    where
      stored :
          (w w' : World State) (now : String)
          → ok (h.now w.outside) ≡ ok now
          → w' ≡ with_document w (some (document (moved_on i now)))
          → (w'.document ≡ some (document (moved_on i (h.now w'.outside))))
            × (w'.outside ≡ w.outside)
      stored w w' now e s =
          rw s (ap (λ t. some (document (moved_on i t))) (sym (ok_injective e)), refl)

      failed :
          (w w' : World State) (now : String)
          → ok (h.now w.outside) ≡ ok now
          → w' ≡ with_document w (some (document (moved_on i now)))
          → h.write w.shared (document (moved_on i now)) ≡ not_synced
          → (w'.document ≡ some (document (moved_on i (h.now w'.outside))))
            × (h.write
                  (record { document = w.document; outside = w'.outside })
                  (document (moved_on i (h.now w'.outside)))
                ≡ not_synced)
      failed w w' now e s late = rw s (rw (ok_injective e) (refl, late))

  relay :
      (b : Bool) (i : Intent) (w w2 w' : World State)
      → Recorded b i w2 w'
      → (b ≡ false → w2 ≡ w)
      → Recorded b i w w'
  relay true i w w2 w' r same = r
  relay false i w w2 w' r same = r ∙ same refl

  progressed :
      (k : Hook) (i : Intent) (b d : Bool) (w w' : World State)
      → is_current k i ≡ b
      → is_duplicate k i ≡ d
      → (b || d) ≡ true
      → Recorded b i w w'
      → Progressed k i w w'
  progressed k i true d w w' now before turn r = inl (is_current-At k i now, r)
  progressed k i false true w w' now before turn r =
      let (n, next, at) = is_duplicate-At k i before in
      inr (n, next, at, λ here. not_current-At k i now here, r)
  progressed k i false false w w' now before turn r = cc

  -- a failure after a change that kept the file, seen from before it
  before_act :
      (i : Intent) (w w2 w' : World State)
      → w2.document ≡ w.document
      → Unrecorded i w2 w'
      → Unrecorded i w w'
  before_act i w w2 w' same (inl kept) = inl (kept ∙ same)
  before_act i w w2 w' same (inr (stored, late)) = inr (
    stored,
    subst
        (λ d.
          h.write (record { document = d; outside = w'.outside })
            (document (moved_on i (h.now w'.outside)))
          ≡ not_synced)
        same late,
  )

  -- a step that raises without changing the world
  quiet :
      {A : Type 0} {Q : A → World State → Type 0} (i : Intent) (w : World State)
      {out : Result A × World State}
      → Ends Q (λ _ w'. w' ≡ w) out
      → Ends Q (λ _ w'. Unrecorded i w w') out
  quiet i w {out = out} e =
      weaken-Ends out (λ _ _ q. q) (λ _ _ same. inl (ap (λ v. v.document) same)) e

  pub hook_under-Ends :
      (k : Hook) (i : Intent) (w : World State)
      → Ends (λ _ w'. HookDone k i w w') (λ _ w'. Unrecorded i w w') (hook_under h k i w)
  unfolding hook_under
  hook_under-Ends k i w =
      ask-Ends _ _ w (λ _ _. inl refl)
        λ t t_read.
          lift-Ends _ _ w (λ _ _. inl refl)
            λ _ t_same.
              ask-Ends _ _ w (λ _ _. inl refl)
                λ g g_read.
                  lift-Ends _ _ w (λ _ _. inl refl)
                    λ _ g_same.
                      lift-Ends _ _ w (λ _ _. inl refl)
                        λ _ phase_fits.
                          lift-Ends _ _ w (λ _ _. inl refl)
                            λ _ turn.
                              bind-Ends _ _ w (quiet i w (stopped_for-Ends h k i.interface w))
                                λ _ w1 s1. rw s1.0 (
                                  bind-Ends _ _ w
                                    (weaken-Ends _ (λ _ _ s. s) (λ _ _ f. inl f.same_document)
                                      (act-Ends (is_current k i) k w))
                                    λ _ w2 acted.
                                      bind-Ends _ _ w2
                                        (weaken-Ends _ (λ _ _ s. s)
                                          (λ _ v e.
                                            inl (ap (λ u. u.document) e ∙ acted.0.same_document))
                                          (prove_postcondition-Ends h k w2))
                                        λ _ w3 shown. rw shown.0 (
                                          weaken-Ends _
                                            (λ _ w' done. record {
                                              accepted =
                                                  accepts_hooks-eq i.phase
                                                    (require-eq-ok _ _ phase_fits);
                                              same_transition =
                                                  t_read
                                                  ∙ ap ok (
                                                      sym (
                                                        same_optional-eq i.transition_id t
                                                          (require-eq-ok _ _ t_same)));
                                              same_generation =
                                                  g_read
                                                  ∙ ap ok (
                                                      sym (
                                                        (same_iff i.generation_sha256 g).0
                                                          (require-eq-ok _ _ g_same)));
                                              service_stopped = s1.1;
                                              progress =
                                                  progressed k i _ _ w w' refl refl
                                                    (require-eq-ok _ _ turn)
                                                    (relay (is_current k i) i w w2 w' done.0
                                                      acted.1);
                                              proven = rw done.1 shown.1;
                                            })
                                            (λ _ w' f. before_act i w w2 w' acted.0.same_document f)
                                            (record_progress-Ends (is_current k i) i w2)))

  -- Before `down`, the service of the interface that the configuration names is stopped.
  abbrev pub StoppedAlone : Hook → World State → Type 0
  StoppedAlone up w = Unit {0}
  StoppedAlone down w = (i : String) × (h.config_interface w.outside ≡ ok i) × IsStopped h i w

  -- The hook with no operation recorded: the service is stopped before `down`, the firewall is
  -- proven, and the file is not touched.
  pub record AloneDone (k : Hook) (w w' : World State) : Type 0 where
    pub alone_stopped : StoppedAlone k w
    pub same_file : SameFile w w'
    pub alone_proven : h.firewall_is w'.outside k ≡ ok true

  StoppedAlone-Ends :
      (k : Hook) (w : World State)
      → Ends
          (λ _ w'. (w' ≡ w) × StoppedAlone k w)
          (λ _ w'. w' ≡ w)
          (stopped_for h k (asks (λ v. h.config_interface v.outside)) w)
  unfolding stopped_for
  StoppedAlone-Ends up w = pure-Ends tt w (refl, tt)
  StoppedAlone-Ends down w =
      ask-Ends _ _ w (λ _ _. refl)
        λ i named.
          weaken-Ends _ (λ _ _ d. (d.0, (i, named, d.1))) (λ _ _ e. e)
            (ensure_service_stopped-Ends h i w)

  hook_alone-Ends :
      (k : Hook) (w : World State)
      → Ends (λ _ w'. AloneDone k w w') (λ _ w'. SameFile w w') (hook_alone h k w)
  unfolding hook_alone
  hook_alone-Ends k w =
      bind-Ends _ _ w
        (weaken-Ends _ (λ _ _ e. e) (λ _ _ e. SameFile-of_eq e) (StoppedAlone-Ends k w))
        λ _ w1 s. rw s.0 (
          bind-Ends _ _ w (perform-Ends h k w) λ _ w2 f.
            weaken-Ends _
              (λ _ _ p. record {
                alone_stopped = s.1;
                same_file = SameFile-trans f (SameFile-of_eq p.0);
                alone_proven = rw p.0 p.1;
              })
              (λ _ _ e. SameFile-trans f (SameFile-of_eq e)) (prove_postcondition-Ends h k w2))

  -- by whether an operation is recorded
  abbrev pub DoneWith : Hook → Option Intent → World State → World State → Type 0
  DoneWith k none w w' = AloneDone k w w'
  DoneWith k (some i) w w' = HookDone k i w w'

  abbrev pub FailedWith : Option Intent → World State → World State → Type 0
  FailedWith none w w' = w'.document ≡ w.document
  FailedWith (some i) w w' = Unrecorded i w w'

  hook_with-Ends :
      (k : Hook) (o : Option Intent) (w : World State)
      → Ends (λ _ w'. DoneWith k o w w') (λ _ w'. FailedWith o w w') (hook_with h k o w)
  unfolding hook_with
  hook_with-Ends k none w =
      weaken-Ends _ (λ _ _ d. d) (λ _ _ f. f.same_document) (hook_alone-Ends k w)
  hook_with-Ends k (some i) w = hook_under-Ends k i w

  -- The hook named `action` has run, alone or under the operation that the file records.
  pub record Ran (action : String) (w w' : World State) : Type 0 where
    pub held : is_held w.lock ≡ true
    pub hook : Hook
    pub named : hook_named action ≡ some hook
    pub found : Option Intent
    pub loaded : load_optional h w.shared ≡ ok found
    pub effect_done : DoneWith hook found w w'

  -- The file is as it was, or the recorded operation has advanced and only the sync failed.
  pub record Failed (w w' : World State) : Type 0 where
    pub outcome :
        (w'.document ≡ w.document)
        ⊎ ((i : Intent) × (load_optional h w.shared ≡ ok (some i)) × Unrecorded i w w')

  failed_with :
      (o : Option Intent) (w w' : World State)
      → load_optional h w.shared ≡ ok o
      → FailedWith o w w'
      → Failed w w'
  failed_with none w w' e f = record { outcome = inl f }
  failed_with (some i) w w' e f = record { outcome = inr (i, e, f) }

  -- A firewall hook returns only with the lock held, with the service stopped before `down` and the
  -- firewall proven at the end. Under a recorded operation, the operation is invoking or
  -- compensating, its transition and generation are those of the host, and the hook is its next
  -- action, which is then recorded, or repeats the action before the next one, and then nothing has
  -- changed; with none recorded, the file is not touched. If it raises, no progress is recorded,
  -- except by a write whose sync failed.
  pub run_firewall_action_locked-Ends :
      (action : String) (w : World State)
      → Ends (λ _ w'. Ran action w w') (λ _ w'. Failed w w') (run_firewall_action_locked h action w)
  unfolding run_firewall_action_locked
  run_firewall_action_locked-Ends action w =
      ask-Ends _ _ w (λ _ _. record { outcome = inl refl })
        λ _ locked.
          lift-Ends _ _ w (λ _ _. record { outcome = inl refl })
            λ k named.
              ask-Ends _ _ w (λ _ _. record { outcome = inl refl })
                λ o loaded.
                  weaken-Ends _
                    (λ _ _ d. record {
                      held = require-eq-ok _ _ locked;
                      hook = k;
                      named = or_raise-eq-ok (hook_named action) _ named;
                      found = o;
                      loaded = loaded;
                      effect_done = d;
                    })
                    (λ _ w' f. failed_with o w w' loaded f) (hook_with-Ends k o w)
