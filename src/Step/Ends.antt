-- ===== src/Step/Ends.antt =====
-- How a step ends: what holds if it returns, and what if it raises.
-- One rule for each way to build a step.
use mathlib.Core.Path.{subst}
use amneziawg_manager.Prelude.{String, ◌≡◌, refl, sym}
use amneziawg_manager.Result.{Result, ok, raised, ok_injective}
use amneziawg_manager.Step.{Exec, pure, raise, lift, asks, continue, handle, ◌>>=◌, try_except}

pub record Ends {W A : Type 0} (Q : A → W → Type 0) (E : String → W → Type 0) (out : Result A × W)
    : Type 0 where
  pub returns : (a : A) → out.0 ≡ ok a → Q a out.1
  pub raises : (e : String) → out.0 ≡ raised e → E e out.1

raised_injective : {A : Type 0} {d e : String} → ◌≡◌ {A = Result A} (raised d) (raised e) → d ≡ e
raised_injective h = cc

module _ {W A : Type 0} (Q : A → W → Type 0) (E : String → W → Type 0) where
  pub ok-Ends : (a : A) (w : W) → Q a w → Ends Q E (ok a, w)
  ok-Ends a w q = record {
    returns = λ b h. subst (λ x. Q x w) (ok_injective h) q;
    raises = λ e h. cc;
  }

  pub raised-Ends : (e : String) (w : W) → E e w → Ends Q E (raised e, w)
  raised-Ends e w x = record {
    returns = λ b h. cc;
    raises = λ d h. subst (λ y. E y w) (raised_injective {A = A} h) x;
  }

module _ {W A B : Type 0} {Q : B → W → Type 0} {E : String → W → Type 0} where
  pub bind-Ends :
      {R : A → W → Type 0} (m : Exec W A) (f : A → Exec W B) (w : W)
      → Ends R E (m w)
      → ((a : A) (w' : W) → R a w' → Ends Q E (f a w'))
      → Ends Q E ((m >>= f) w)
  unfolding ◌>>=◌
  bind-Ends {R} m f w h k = go (m w) h
    where
      go : (out : Result A × W) → Ends R E out → Ends Q E (continue out.0 f out.1)
      go (ok a, w') r = k a w' (r.returns a refl)
      go (raised e, w') r = raised-Ends Q E e w' (r.raises e refl)

  pub ask-Ends :
      (g : W → Result A) (f : A → Exec W B) (w : W)
      → ((e : String) → g w ≡ raised e → E e w)
      → ((a : A) → g w ≡ ok a → Ends Q E (f a w))
      → Ends Q E ((asks g >>= f) w)
  unfolding ◌>>=◌
  ask-Ends g f w bad good = go (g w) bad good
    where
      go :
          (r : Result A)
          → ((e : String) → r ≡ raised e → E e w)
          → ((a : A) → r ≡ ok a → Ends Q E (f a w))
          → Ends Q E (continue r f w)
      go (ok a) x y = y a refl
      go (raised e) x y = raised-Ends Q E e w (x e refl)

  pub lift-Ends :
      (r : Result A) (f : A → Exec W B) (w : W)
      → ((e : String) → r ≡ raised e → E e w)
      → ((a : A) → r ≡ ok a → Ends Q E (f a w))
      → Ends Q E ((lift r >>= f) w)
  unfolding ◌>>=◌
  lift-Ends (ok a) f w x y = y a refl
  lift-Ends (raised e) f w x y = raised-Ends Q E e w (x e refl)

  -- A step whose value is known.
  pub known_lift-Ends :
      (r : Result A) (f : A → Exec W B) (w : W) {a : A}
      → r ≡ ok a
      → Ends Q E (f a w)
      → Ends Q E ((lift r >>= f) w)
  unfolding ◌>>=◌ lift
  known_lift-Ends r f w e k = subst (λ x. Ends Q E (continue x f w)) (sym e) k

  pub known_ask-Ends :
      (g : W → Result A) (f : A → Exec W B) (w : W) {a : A}
      → g w ≡ ok a
      → Ends Q E (f a w)
      → Ends Q E ((asks g >>= f) w)
  unfolding ◌>>=◌ asks
  known_ask-Ends g f w e k = subst (λ x. Ends Q E (continue x f w)) (sym e) k

-- The last step of a block.
module _ {W A : Type 0} {Q : A → W → Type 0} {E : String → W → Type 0} where
  pub last_lift-Ends :
      (r : Result A) (w : W)
      → ((e : String) → r ≡ raised e → E e w)
      → ((a : A) → r ≡ ok a → Q a w)
      → Ends Q E (lift r w)
  unfolding lift
  last_lift-Ends (ok a) w x y = ok-Ends Q E a w (y a refl)
  last_lift-Ends (raised e) w x y = raised-Ends Q E e w (x e refl)

  pub last_ask-Ends :
      (g : W → Result A) (w : W)
      → ((e : String) → g w ≡ raised e → E e w)
      → ((a : A) → g w ≡ ok a → Q a w)
      → Ends Q E (asks g w)
  unfolding asks
  last_ask-Ends g w x y = go (g w) x y
    where
      go :
          (r : Result A)
          → ((e : String) → r ≡ raised e → E e w)
          → ((a : A) → r ≡ ok a → Q a w)
          → Ends Q E (r, w)
      go (ok a) x y = ok-Ends Q E a w (y a refl)
      go (raised e) x y = raised-Ends Q E e w (x e refl)

  pub pure-Ends : (a : A) (w : W) → Q a w → Ends Q E (pure a w)
  unfolding pure
  pure-Ends a w q = ok-Ends Q E a w q

  pub raise-Ends : (e : String) (w : W) → E e w → Ends Q E (raise e w)
  unfolding raise
  raise-Ends e w x = raised-Ends Q E e w x

module _ {W A : Type 0} {Q : A → W → Type 0} {E F : String → W → Type 0} where
  pub try-Ends :
      (m : Exec W A) (f : String → Exec W A) (w : W)
      → Ends Q F (m w)
      → ((e : String) (w' : W) → F e w' → Ends Q E (f e w'))
      → Ends Q E (try_except m f w)
  unfolding try_except
  try-Ends m f w h k = go (m w) h
    where
      go : (out : Result A × W) → Ends Q F out → Ends Q E (handle f out.0 out.1)
      go (ok a, w') r = ok-Ends Q E a w' (r.returns a refl)
      go (raised e, w') r = k e w' (r.raises e refl)

module _ {W A : Type 0} {Q R : A → W → Type 0} {E F : String → W → Type 0} where
  pub weaken-Ends :
      (out : Result A × W)
      → ((a : A) (w : W) → Q a w → R a w)
      → ((e : String) (w : W) → E e w → F e w)
      → Ends Q E out
      → Ends R F out
  weaken-Ends out q e h = record {
    returns = λ a p. q a out.1 (h.returns a p);
    raises = λ d p. e d out.1 (h.raises d p);
  }
