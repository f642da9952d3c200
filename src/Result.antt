-- ===== src/Result.antt =====
-- A Python function that may raise `AwgctlError` (awgctl/core.py): its value, or the message.
use mathlib.Core.Path.{subst}
use amneziawg_manager.Prelude.{
  ◌≡◌, refl, ap, ◌⊎◌, inl, inr, Bool, true, false, Option, none, some, String,
}

pub data Result {ℓ} (A : Type ℓ) : Type ℓ where
  ok : A → Result A
  raised : String → Result A

infixl 5 ◌>>=◌ ◌>>◌
unfoldable pub ◌>>=◌ {ℓ κ} : {A : Type ℓ} {B : Type κ} → Result A → (A → Result B) → Result B
ok a >>= f = f a
raised e >>= f = raised e

abbrev pub ◌>>◌ {ℓ} : {B : Type ℓ} → Result (Unit {0}) → Result B → Result B
m >> k = m >>= λ _. k

-- `if condition: raise AwgctlError(message)`
abbrev pub raise_if : Bool → String → Result (Unit {0})
raise_if true e = raised e
raise_if false e = ok tt

-- `if not condition: raise AwgctlError(message)`
abbrev pub require : Bool → String → Result (Unit {0})
require true e = ok tt
require false e = raised e

-- a value that is there, or the error
abbrev pub or_raise {ℓ} : {A : Type ℓ} → Option A → String → Result A
or_raise (some a) e = ok a
or_raise none e = raised e

pub ok_injective {ℓ} : {A : Type ℓ} {a b : A} → ok a ≡ ok b → a ≡ b
ok_injective h = cc

-- What a function ensures of the value that it returns; a raise ends the caller too.
pub record Ensures {ℓ κ} {A : Type ℓ} (P : A → Type κ) (r : Result A) : Type (ℓ ⊔ κ) where
  pub on : (a : A) → r ≡ ok a → P a

-- The rest of a block may use that its first call returned.
pub bind-Ensures {ℓ κ μ} :
    {A : Type ℓ} {B : Type κ} {Q : B → Type μ} (m : Result A) (f : A → Result B)
    → ((a : A) → m ≡ ok a → Ensures Q (f a))
    → Ensures Q (m >>= f)
unfolding ◌>>=◌
bind-Ensures (ok a) f k = k a refl
bind-Ensures (raised e) f k = record { on = λ b h. cc }

-- A call whose value is known; the rest stands under a λ, as after `bind-Ensures`.
pub known-Ensures {ℓ κ μ} :
    {A : Type ℓ} {B : Type κ} {Q : B → Type μ} (a : A) (f : A → Result B)
    → (Unit {0} → Ensures Q (f a))
    → Ensures Q (ok a >>= f)
unfolding ◌>>=◌
known-Ensures a f k = k tt

pub ok-Ensures {ℓ κ} : {B : Type ℓ} {Q : B → Type κ} (b : B) → Q b → Ensures Q (ok b)
ok-Ensures {Q} b q = record { on = λ c h. subst Q (ok_injective h) q }

-- The test of a `require` or a `raise_if` that was passed, and the value of an `or_raise`.
pub require-eq-ok : (b : Bool) (e : String) {u : Unit {0}} → require b e ≡ ok u → b ≡ true
require-eq-ok true e h = refl
require-eq-ok false e h = cc

pub raise_if-eq-ok : (b : Bool) (e : String) {u : Unit {0}} → raise_if b e ≡ ok u → b ≡ false
raise_if-eq-ok true e h = cc
raise_if-eq-ok false e h = refl

pub or_raise-eq-ok {ℓ} :
    {A : Type ℓ} (o : Option A) (e : String) {a : A} → or_raise o e ≡ ok a → o ≡ some a
or_raise-eq-ok (some b) e h = ap some (ok_injective h)
or_raise-eq-ok none e h = cc

pub Result-cases {ℓ} :
    {A : Type ℓ} (r : Result A) → ((a : A) × (r ≡ ok a)) ⊎ ((e : String) × (r ≡ raised e))
Result-cases (ok a) = inl (a, refl)
Result-cases (raised e) = inr (e, refl)

-- The rest of a block runs on the value of a call that returned.
pub bind-eq-ok {ℓ κ} :
    {A : Type ℓ} {B : Type κ} (m : Result A) (f : A → Result B) {a : A} → m ≡ ok a → (m >>= f) ≡ f a
unfolding ◌>>=◌
bind-eq-ok m f e = rw e refl
