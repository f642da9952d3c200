-- ===== src/Transition/Store/Swap.antt =====
-- `compare_and_swap_transition` of awgctl/core.py.
use mathlib.Core.Path.{subst}
use amneziawg_manager.Prelude.{
  ap, String, ◌≡◌, refl, ◌∙◌, ◌⊎◌, inl, inr, true, Option, none, some, same, same_iff,
}
use amneziawg_manager.Result.{ok, raised, require-eq-ok, Ensures, bind-Ensures, known-Ensures}
use amneziawg_manager.Validate.{id-read}
use amneziawg_manager.Service.World.{Write, written, not_written, not_synced}
use amneziawg_manager.Step.Ends.{
  Ends, ok-Ends, raised-Ends, bind-Ends, ask-Ends, lift-Ends, last_lift-Ends, weaken-Ends,
}
use amneziawg_manager.Transition.Document.{TransitionState, prepared, active, Transition}
use amneziawg_manager.Transition.Document.Written.{transition_document}
use amneziawg_manager.Transition.Document.Faithful.{normalize-transition_document}
use amneziawg_manager.Transition.Document.Accepts.{IsTransition, normalize-IsTransition}
use amneziawg_manager.Transition.Load.{
  Files, Disk, Host, Transition-discrete, require_equal, load_transition, state_name, as_prepared,
  expect_transition,
}
use amneziawg_manager.Transition.Store.{
  with_transition, ended, changed_by, change, compare_and_swap_transition,
}

abbrev pub IsActive : TransitionState → Type 0
IsActive prepared = ⊥
IsActive (active a) = Unit

-- A transition begins prepared where none is stored, and the stored one becomes active with all
-- else as it was prepared.
abbrev pub Allowed : Option Transition → Option String → Option String → Transition → Type 0
Allowed none none none t = t.state ≡ prepared
Allowed (some c) (some id) (some s) t =
    (c.transaction_id ≡ id) × (s ≡ "prepared") × IsActive t.state × (c ≡ as_prepared t)
Allowed _ _ _ t = ⊥

pub equal_of_require :
    {A : Type 0} (d : Discrete A) (a b : A) (e : String)
    → Ensures (λ _. a ≡ b) (require_equal d a b e)
unfolding require_equal
equal_of_require d a b e =
    elim (d a b) as (λ c. Ensures (λ _. a ≡ b) (elim c [ yes _ ↦ ok tt | no _ ↦ raised e ])) [
      | yes p ↦ record { on = λ _ _. p }
      | no _ ↦ record { on = λ _ h. cc }
    ]

state_name_prepared : (s : TransitionState) → same (state_name s) "prepared" ≡ true → s ≡ prepared
state_name_prepared prepared h = refl
state_name_prepared (active a) h = cc

state_name-IsActive : (s : TransitionState) → same (state_name s) "active" ≡ true → IsActive s
state_name-IsActive prepared h = cc
state_name-IsActive (active a) h = tt

expect_transition-Allowed :
    (c : Option Transition) (id s : Option String) (t : Transition)
    → Ensures (λ _. Allowed c id s t) (expect_transition c id s t)
unfolding expect_transition
expect_transition-Allowed none none none t = record {
  on = λ _ h. state_name_prepared t.state (require-eq-ok _ _ h);
}
expect_transition-Allowed (some c) (some given) (some s) t = bind-Ensures _ _ λ id h1.
    bind-Ensures _ _ λ _ _. known-Ensures _ _ λ _. bind-Ensures _ _ λ _ h2. bind-Ensures _ _ λ _ _.
      bind-Ensures _ _ λ _ h3. bind-Ensures _ _ λ _ h4. bind-Ensures _ _ λ _ _. record {
        on = λ u h. (
          (same_iff c.transaction_id id).0 (require-eq-ok _ _ h2) ∙ id-read given h1,
          (same_iff s "prepared").0 (require-eq-ok _ _ h3),
          state_name-IsActive t.state (require-eq-ok _ _ h4),
          (equal_of_require Transition-discrete c (as_prepared t) _).on u h,
        );
      }
expect_transition-Allowed none (some given) (some s) t =
    bind-Ensures _ _ λ id _. bind-Ensures _ _ λ _ _. bind-Ensures _ _ λ c h. cc
expect_transition-Allowed none none (some s) t = record { on = λ _ h. cc }
expect_transition-Allowed none (some id) none t = record { on = λ _ h. cc }
expect_transition-Allowed (some c) none none t = record { on = λ _ h. cc }
expect_transition-Allowed (some c) none (some s) t = record { on = λ _ h. cc }
expect_transition-Allowed (some c) (some id) none t = record { on = λ _ h. cc }

module _ (h : Host) where
  open h use {Outside, library, ends}

  -- What a change leaves if it ends well, and if it does not.
  pub change-Ends :
      (f : Files → Files) (d : Disk Outside)
      → Ends
          (λ _ (d' : Disk Outside). d'.files ≡ f d.files)
          (λ _ (d' : Disk Outside). (d'.files ≡ d.files) ⊎ (d'.files ≡ f d.files))
          (change h f d)
  unfolding change ended changed_by
  change-Ends f d = go (ends d.outside)
    where
      go :
          (x : Write)
          → Ends
              (λ _ (d' : Disk Outside). d'.files ≡ f d.files)
              (λ _ (d' : Disk Outside). (d'.files ≡ d.files) ⊎ (d'.files ≡ f d.files))
              (ended x, record { files = changed_by x f d.files; outside = Host.next h d.outside })
      go written = ok-Ends _ _ tt _ refl
      go not_written = raised-Ends _ _ _ _ (inl refl)
      go not_synced = raised-Ends _ _ _ _ (inr refl)

  -- A change that ends well.
  pub change-Returns :
      (f : Files → Files) (d : Disk Outside)
      → ends d.outside ≡ written
      → Ends (λ _ (d' : Disk Outside). d'.files ≡ f d.files) (λ _ _. ⊥) (change h f d)
  unfolding change ended changed_by
  change-Returns f d e = rw e (ok-Ends _ _ tt _ refl)

  -- The file held what the caller expected, and now it holds the new transition.
  pub record Swapped (t : Transition) (id s : Option String) (d d' : Disk Outside) : Type 0 where
    pub valid : IsTransition library t
    pub before : Option Transition
    pub loaded : load_transition h d ≡ ok before
    pub allowed : Allowed before id s t
    pub stores : d'.files ≡ with_transition (some (transition_document t)) d.files

  -- The compare-and-swap returns only if the new transition is valid and either none is stored, none
  -- is expected and the new one is prepared, or the stored one is the expected one and is the new
  -- one as it was before it became active. Then the file holds the new transition and no other file
  -- has changed. If it raises, no file has changed, or all of this is done.
  pub compare_and_swap_transition-Ends :
      (t : Transition) (id s : Option String) (d : Disk Outside)
      → Ends
          (λ _ d'. Swapped t id s d d')
          (λ _ (d' : Disk Outside). (d'.files ≡ d.files) ⊎ Swapped t id s d d')
          (compare_and_swap_transition h t id s d)
  unfolding compare_and_swap_transition
  compare_and_swap_transition-Ends t id s d =
      lift-Ends _ _ d (λ _ _. inl refl)
        λ n normal.
          ask-Ends _ _ d (λ _ _. inl refl)
            λ _ _.
              ask-Ends _ _ d (λ _ _. inl refl)
                λ before loaded.
                  lift-Ends _ _ d (λ _ _. inl refl)
                    λ u expected.
                      let same : n ≡ t = (normalize-transition_document library t).on n normal in
                      let now : (d' : Disk Outside)
                          → d'.files ≡ with_transition (some (transition_document n)) d.files
                          → Swapped t id s d d' =
                        λ d' e. record {
                          valid =
                              subst (IsTransition library) same
                                ((normalize-IsTransition library _).on n normal);
                          before = before;
                          loaded = loaded;
                          allowed =
                              subst (Allowed before id s) same
                                ((expect_transition-Allowed before id s n).on u expected);
                          stores =
                              e
                              ∙ ap (λ x. with_transition (some (transition_document x)) d.files)
                                  same;
                        } in
                      bind-Ends _ _ d
                        (weaken-Ends _ (λ _ _ e. e)
                          (λ _ d' o. elim o [ inl e ↦ inl e | inr e ↦ inr (now d' e) ])
                          (change-Ends _ d))
                        λ _ d' e.
                          ask-Ends _ _ d' (λ _ _. inr (now d' e))
                            λ _ _. last_lift-Ends _ d' (λ _ _. inr (now d' e)) λ _ _. now d' e
