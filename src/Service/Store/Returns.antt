-- ===== src/Service/Store/Returns.antt =====
-- When the compare-and-swap and the deletion of the intent in awgctl/core.py succeed.
use amneziawg_manager.Prelude.{
  same_iff, String, ◌≡◌, refl, ◌∙◌, ap, Bool, true, false, Option, none, some,
}
use amneziawg_manager.Result.{Result, ok, raised, require}
use amneziawg_manager.Value.{Value, str}
use amneziawg_manager.Validate.{is_transaction_id, validate_transaction_id}
use amneziawg_manager.Service.Intent.{Phase, Intent, IsValid}
use amneziawg_manager.Service.Document.{document}
use amneziawg_manager.Service.Document.RoundTrip.{normalize-document}
use amneziawg_manager.Service.World.{written, World, Host, is_held}
use amneziawg_manager.Step.{Exec, lift, asks, continue, ◌>>=◌}
use amneziawg_manager.Service.Load.{load_optional}
use amneziawg_manager.Service.Load.Expected.{Expected, expect_current-accepts}
use amneziawg_manager.Service.Load.ReadBack.{
  load_required-document, readable-load, load_optional-IsValid, load_optional-required,
}
use amneziawg_manager.Service.Store.{
  atomic_json, unlink_document, compare_and_swap, delete_intent, stored, outcome,
}
use amneziawg_manager.Service.Store.Swap.{with_document, require_same_refl}

require-returns : (b : Bool) (e : String) → b ≡ true → require b e ≡ ok tt
require-returns true e h = refl
require-returns false e h = cc

module _ {S A B : Type 0} where
  ask-returns :
      (g : World S → Result A) (f : A → Exec (World S) B) (w : World S) {a : A}
      → g w ≡ ok a
      → (asks g >>= f) w ≡ f a w
  unfolding ◌>>=◌ asks continue
  ask-returns g f w e = ap (λ r. continue r f w) e

  lift-returns :
      (r : Result A) (f : A → Exec (World S) B) (w : World S) {a : A}
      → r ≡ ok a
      → (lift r >>= f) w ≡ f a w
  unfolding ◌>>=◌ lift continue
  lift-returns r f w e = ap (λ q. continue q f w) e

  bind-returns :
      (m : Exec (World S) A) (f : A → Exec (World S) B) (w w' : World S) {a : A}
      → m w ≡ (ok a, w')
      → (m >>= f) w ≡ f a w'
  unfolding ◌>>=◌ continue
  bind-returns m f w w' e = ap (λ q. continue q.0 f q.1) e

module _ (h : Host) where
  open h use {State, iso, runtime_directory, write, unlink}

  written-returns :
      (v : Value) (w : World State)
      → write w.shared v ≡ written
      → atomic_json h v w ≡ (ok tt, with_document w (some v))
  unfolding atomic_json stored outcome
  written-returns v w e = rw e refl

  -- What lets a compare-and-swap succeed.
  pub record MaySwap (value : Intent) (id : Option String) (phase : Option Phase) (w : World State)
      : Type 0 where
    pub held : is_held w.lock ≡ true
    pub valid : IsValid iso value
    pub directory : runtime_directory w.outside ≡ ok tt
    pub current : Option Intent
    pub loaded : load_optional h w.shared ≡ ok current
    pub expected : Expected current id phase
    pub writes : write w.shared (document value) ≡ written

  -- With the lock held, a valid intent, a protected directory, a write that succeeds, and in the
  -- file the operation of the expected ID and phase, or none where none is expected, the compare-and-swap returns, the file records the intent and nothing
  -- else has changed.
  pub compare_and_swap-returns :
      (value : Intent) (id : Option String) (phase : Option Phase) (w : World State)
      → MaySwap value id phase w
      → compare_and_swap h value id phase w ≡ (ok tt, with_document w (some (document value)))
  unfolding compare_and_swap lift
  compare_and_swap-returns value id phase w may =
      let w' = with_document w (some (document value)) in
      ask-returns _ _ w (require-returns _ _ may.held)
      ∙ lift-returns _ _ w (normalize-document iso value may.valid)
      ∙ ask-returns _ _ w may.directory
      ∙ ask-returns _ _ w may.loaded
      ∙ lift-returns _ _ w (
          expect_current-accepts may.current id phase
            (λ i same. (load_optional-IsValid h w.shared i (may.loaded ∙ ap ok same)).id_fits)
            may.expected)
      ∙ bind-returns _ _ w w' (written-returns (document value) w may.writes)
      ∙ ask-returns _ _ w' (
          load_required-document h value w.shared may.valid
            (readable-load h w.shared may.current may.loaded))
      ∙ ap (λ r. (r, w')) (require_same_refl h value _)

  removed-returns :
      (w : World State)
      → unlink w.shared ≡ written
      → unlink_document h w ≡ (ok tt, with_document w none)
  unfolding unlink_document stored outcome
  removed-returns w e = rw e refl

  id_returns : (s : String) → is_transaction_id s ≡ true → validate_transaction_id (str s) ≡ ok s
  unfolding validate_transaction_id amneziawg_manager.Result.◌>>=◌
  id_returns s e = rw e refl

  -- With the lock held, the operation in the file and a removal that succeeds, the deletion of the
  -- operation by its ID returns, no operation is recorded and nothing else has changed.
  pub delete_intent-returns :
      (i : Intent) (w : World State)
      → is_held w.lock ≡ true
      → load_optional h w.shared ≡ ok (some i)
      → unlink w.shared ≡ written
      → delete_intent h i.operation_id w ≡ (ok tt, with_document w none)
  unfolding delete_intent
  delete_intent-returns i w held loaded removes =
      ask-returns _ _ w (require-returns _ _ held)
      ∙ lift-returns _ _ w
          (id_returns i.operation_id (load_optional-IsValid h w.shared i loaded).id_fits)
      ∙ ask-returns _ _ w (load_optional-required h w.shared i loaded)
      ∙ lift-returns _ _ w (require-returns _ _ ((same_iff i.operation_id i.operation_id).1 refl))
      ∙ removed-returns w removes
