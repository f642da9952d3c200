-- ===== src/Service/Store/Swap.antt =====
-- `compare_and_swap_service_operation_intent` of awgctl/core.py.
use amneziawg_manager.Prelude.{String, ◌≡◌, refl, sym, ◌∙◌, ◌⊎◌, inl, inr, true, Option, some}
use amneziawg_manager.Result.{ok, raised, require-eq-ok, ok_injective}
use amneziawg_manager.Value.{Value}
use amneziawg_manager.Service.Intent.{Phase, Intent, IsValid, Intent-discrete}
use amneziawg_manager.Service.Document.{document}
use amneziawg_manager.Service.Document.Faithful.{normalize-document_iff}
use amneziawg_manager.Service.World.{Write, written, not_written, not_synced, World, Host, is_held}
use amneziawg_manager.Step.{lift, asks, ◌>>=◌}
use amneziawg_manager.Step.Ends.{
  Ends, ok-Ends, raised-Ends, bind-Ends, ask-Ends, lift-Ends, last_lift-Ends, weaken-Ends,
}
use amneziawg_manager.Service.Load.{load_optional, load_required}
use amneziawg_manager.Service.Load.Expected.{Expected, expect_current-Expected}
use amneziawg_manager.Service.Load.ReadBack.{load_required-document, readable-load}
use amneziawg_manager.Service.Store.{require_same, atomic_json, compare_and_swap}

-- the world with this service-operation file
abbrev pub with_document : {S : Type 0} → World S → Option Value → World S
with_document w v = record w { shared = record w.shared { document = v } }

pub Write-cases : (x : Write) → (x ≡ written) ⊎ (x ≡ not_written) ⊎ (x ≡ not_synced)
Write-cases written = inl refl
Write-cases not_written = inr (inl refl)
Write-cases not_synced = inr (inr refl)

module _ (h : Host) where
  open h use {State, iso, readable, write}

  -- The file held what the caller expected, and now it holds the new intent.
  pub record Swapped (value : Intent) (id : Option String) (phase : Option Phase)
      (w w' : World State) : Type 0 where
    pub held : is_held w.lock ≡ true
    pub valid : IsValid iso value
    pub current : Option Intent
    pub loaded : load_optional h w.shared ≡ ok current
    pub expected : Expected current id phase
    pub stores : w' ≡ with_document w (some (document value))

  -- Nothing has changed, or the file is written and its directory could not be synced.
  abbrev pub NotSwapped : Intent → Option String → Option Phase → World State → World State → Type 0
  NotSwapped value id phase w w' =
      (w' ≡ w) ⊎ (Swapped value id phase w w' × (write w.shared (document value) ≡ not_synced))

  pub require_same_refl : (i : Intent) (e : String) → require_same i i e ≡ ok tt
  unfolding require_same
  require_same_refl i e =
      elim (Intent-discrete i i) as (λ d. elim d [ yes _ ↦ ok tt | no _ ↦ raised e ] ≡ ok tt) [
        | yes _ ↦ refl
        | no differs ↦ absurd (differs refl)
      ]

  atomic_json-Ends :
      (v : Value) (w : World State)
      → Ends
          (λ _ w'. w' ≡ with_document w (some v))
          (λ _ w'. (w' ≡ w) ⊎ ((w' ≡ with_document w (some v)) × (write w.shared v ≡ not_synced)))
          (atomic_json h v w)
  unfolding atomic_json
  atomic_json-Ends v w = elim (Write-cases (write w.shared v)) [
    | inl e ↦ rw e (ok-Ends _ _ tt _ refl)
    | inr (inl e) ↦ rw e (raised-Ends _ _ _ _ (inl refl))
    | inr (inr e) ↦ rw e (raised-Ends _ _ _ _ (inr (refl, refl)))
  ]

  -- The verification of a write never fails.
  verify-Ends :
      (n : Intent) (w : World State) {E : String → World State → Type 0} (message : String)
      → load_required h w.shared ≡ ok n
      → Ends
          (λ _ w'. w' ≡ w)
          E
          ((asks (λ v. load_required h v.shared) >>= λ again. lift (require_same again n message))
            w)
  verify-Ends n w message e =
      ask-Ends _ _ w (λ d bad. cc)
        λ again same.
          rw (ok_injective (sym same ∙ e)) (
            rw (require_same_refl n message) (last_lift-Ends (ok tt) w (λ e bad. cc) (λ _ _. refl)))

  -- The compare-and-swap returns only if the lock is held, the new intent is valid and the file
  -- records no intent and none was expected, or an intent with the expected ID and phase; then the file records the new intent and nothing else has
  -- changed. If it raises, nothing has changed, or all of this is done and only the sync of the
  -- directory failed.
  pub compare_and_swap-Ends :
      (value : Intent) (id : Option String) (phase : Option Phase) (w : World State)
      → Ends
          (λ _ w'. Swapped value id phase w w')
          (λ _ w'. NotSwapped value id phase w w')
          (compare_and_swap h value id phase w)
  unfolding compare_and_swap
  compare_and_swap-Ends value id phase w =
      ask-Ends _ _ w (λ _ _. inl refl)
        λ _ locked.
          lift-Ends _ _ w (λ _ _. inl refl)
            λ n normal.
              ask-Ends _ _ w (λ _ _. inl refl)
                λ _ _.
                  ask-Ends _ _ w (λ _ _. inl refl)
                    λ c loaded.
                      lift-Ends _ _ w (λ _ _. inl refl)
                        λ u expected.
                          let (valid, same) = (normalize-document_iff iso value n).0 normal in
                          let now : Swapped value id phase w
                              (with_document w (some (document value))) =
                            record {
                              held = require-eq-ok (is_held w.lock) _ locked;
                              valid = valid;
                              current = c;
                              loaded = loaded;
                              expected = (expect_current-Expected c id phase).on u expected;
                              stores = refl;
                            } in
                          rw same (
                            bind-Ends _ _ w
                              (weaken-Ends _ (λ _ _ e. e)
                                (λ _ _ o. elim o [ inl e ↦ inl e | inr (e, x) ↦ inr (rw e now, x) ])
                                (atomic_json-Ends (document value) w))
                              λ _ w' e. rw e (
                                weaken-Ends _ (λ _ _ e. rw e now) (λ _ _ x. x)
                                  (verify-Ends value _ _ (
                                    load_required-document h value w.shared valid
                                      (readable-load h w.shared c loaded)))))
