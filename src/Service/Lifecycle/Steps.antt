-- ===== src/Service/Lifecycle/Steps.antt =====
-- Lemmas on the steps of a compensation, and what is assumed of other processes while the lock is
-- released for systemd.
use mathlib.Core.Path.{subst}
use amneziawg_manager.Prelude.{
  String, ◌≡◌, ◌==◌, ◌&&◌, Bool-cases, refl, sym, ◌∙◌, ap, Bool, true, false, Option, none, some,
  ◌⊎◌, inl, inr,
}
use amneziawg_manager.Result.{Result, ok, ok_injective}
use amneziawg_manager.Service.Intent.{Hook, Intent}
use amneziawg_manager.Service.World.{Shared, World, Host, is_held}
use amneziawg_manager.Step.Ends.{
  Ends, raised-Ends, bind-Ends, last_ask-Ends, pure-Ends, weaken-Ends,
}
use amneziawg_manager.Service.Load.{load_optional, load_required}
use amneziawg_manager.Service.Load.ReadBack.{some_inj, load_required-optional, load_document-eq}
use amneziawg_manager.Service.Observe.{service_unit}
use amneziawg_manager.Service.Progress.Turn.{moved_on}
use amneziawg_manager.Service.Firewall.Hooks.{Progressed, DoneWith, run_firewall_action_locked-Ends}
use amneziawg_manager.Service.Postcondition.Facts.{SameOperation, SameOperation-refl}
use amneziawg_manager.Service.Lifecycle.{systemctl_unlocked, reacquire, stop_active, clean_up}

module _ (h : Host) where
  open h use {State}

  -- While systemctl runs, other processes may move the recorded operation on, but it stays the
  -- same operation: a live owner keeps every command out, and a hook only advances it.
  abbrev pub KeepsOperation : Type 0
  KeepsOperation =
      (verb unit : String) (s : Shared State) (i j : Intent)
      → load_required h s ≡ ok i
      → load_required h (h.systemctl verb unit s).1 ≡ ok j
      → SameOperation i j

  -- An intent is the one that the world records.
  abbrev pub Records : World State → Intent → Type 0
  Records w i = load_required h w.shared ≡ ok i

  reacquire-shared :
      (b : Bool) (r : Result (Unit {0})) (w : World State) → (reacquire b r w).1.shared ≡ w.shared
  unfolding reacquire
  reacquire-shared true r w = refl
  reacquire-shared false r w = refl

  -- The systemd call ran, or it was not made.
  abbrev pub Called : String → String → World State → World State → Type 0
  Called verb unit w w' = w'.shared ≡ (h.systemctl verb unit w.shared).1

  -- Whatever it raises, the call was made or the shared state is as it was.
  pub systemctl_unlocked-Ends :
      (verb unit : String) (w : World State)
      → Ends
          (λ _ w'. Called verb unit w w')
          (λ _ w'. (w'.shared ≡ w.shared) ⊎ Called verb unit w w')
          (systemctl_unlocked h verb unit w)
  unfolding systemctl_unlocked
  systemctl_unlocked-Ends verb unit w = elim (Bool-cases (w.lock.depth == 1 && is_held w.lock)) [
    | inr unheld ↦ rw unheld (raised-Ends _ _ _ w (inl refl))
    | inl held ↦ elim (Bool-cases (h.unlocks w.outside)) [
      | inr stuck ↦ rw (held, stuck) (raised-Ends _ _ _ w (inl refl))
      | inl free ↦
          rw (held, free)
            (record {
              returns = λ _ _. reacquire-shared _ _ _;
              raises = λ _ _. inr (reacquire-shared _ _ _);
            })
    ]
  ]

  -- The intent that a step returns is the one that the world records, of the same operation.
  abbrev pub Continues : Intent → Intent → World State → Type 0
  Continues i j w' = Records w' j × SameOperation i j

  pub stop_active-Ends :
      KeepsOperation
      → (b : Bool) (i : Intent) (w : World State) → Records w i
      → Ends (λ j w'. Continues i j w') (λ _ _. Unit) (stop_active h b i w)
  unfolding stop_active
  stop_active-Ends keeps false i w r = pure-Ends i w (r, SameOperation-refl i)
  stop_active-Ends keeps true i w r =
      bind-Ends _ _ w
        (weaken-Ends _ (λ _ _ c. c) (λ _ _ _. tt)
          (systemctl_unlocked-Ends "stop" (service_unit i.interface) w))
        λ _ w1 called.
          last_ask-Ends _ w1 (λ _ _. tt)
            λ j read.
              (read, keeps "stop" (service_unit i.interface) w.shared i j r (rw called at read))

  Progressed-Continues :
      (k : Hook) (i j : Intent) (w w' : World State)
      → Records w i
      → Progressed h k i w w'
      → Records w' j
      → SameOperation i j
  Progressed-Continues k i j w w' r (inl (at, done)) read =
      subst (SameOperation i)
        (sym (load_document-eq h w'.shared (moved_on i (h.now w'.outside)) j done read))
        (record { same_id = refl; same_action = refl; same_interface = refl })
  Progressed-Continues k i j w w' r (inr (n, next, at, differs, kept)) read =
      subst (SameOperation i)
        (ok_injective (sym r ∙ ap (λ v. load_required h v.shared) (sym kept) ∙ read))
        (SameOperation-refl i)

  ran-Continues :
      (k : Hook) (o : Option Intent) (i j : Intent) (w w' : World State)
      → Records w i
      → load_optional h w.shared ≡ ok o
      → DoneWith h k o w w'
      → Records w' j
      → SameOperation i j
  ran-Continues k none i j w w' r l done read = cc (load_required-optional h w.shared i r)
  ran-Continues k (some n) i j w w' r l done read =
      let same : n ≡ i = some_inj (ok_injective (sym l ∙ load_required-optional h w.shared i r)) in
      Progressed-Continues k i j w w' r (subst (λ m. Progressed h k m w w') same done.progress) read

  pub clean_up-Ends :
      (b : Bool) (i : Intent) (w : World State)
      → Records w i
      → Ends (λ j w'. Continues i j w') (λ _ _. Unit) (clean_up h b i w)
  unfolding clean_up
  clean_up-Ends false i w r = pure-Ends i w (r, SameOperation-refl i)
  clean_up-Ends true i w r =
      bind-Ends _ _ w
        (weaken-Ends _ (λ _ _ d. d) (λ _ _ _. tt) (run_firewall_action_locked-Ends h "down" w))
        λ _ w1 ran.
          last_ask-Ends _ w1 (λ _ _. tt)
            λ j read.
              (read, ran-Continues ran.hook ran.found i j w w1 r ran.loaded ran.effect_done read)
