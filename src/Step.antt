-- ===== src/Step.antt =====
-- A step of the program on a state: a Python function that reads and changes the state `W` and may
-- raise. What it changed before a raise stays changed.
pub mod Ends
use amneziawg_manager.Prelude.{String}
use amneziawg_manager.Result.{Result, ok, raised}

-- A step of the program: what it returns or raises, and the world that it leaves.
abbrev pub Exec : Type 0 → Type 0 → Type 0
Exec W A = W → Result A × W

module _ {W A : Type 0} where
  unfoldable pub pure : A → Exec W A
  pure a w = (ok a, w)

  unfoldable pub raise : String → Exec W A
  raise e w = (raised e, w)

  unfoldable pub lift : Result A → Exec W A
  lift r w = (r, w)

  -- a question to the state that may raise
  unfoldable pub asks : (W → Result A) → Exec W A
  asks f w = (f w, w)

module _ {W A B : Type 0} where
  unfoldable pub continue : Result A → (A → Exec W B) → Exec W B
  continue (ok a) f w = f a w
  continue (raised e) f w = (raised e, w)

  infixl 5 ◌>>=◌ ◌>>◌
  unfoldable pub ◌>>=◌ : Exec W A → (A → Exec W B) → Exec W B
  unfolding pure raise lift asks continue
  ◌>>=◌ m f w = let (r, w') = m w in continue r f w'

  abbrev pub ◌>>◌ : Exec W A → Exec W B → Exec W B
  m >> n = m >>= λ _. n

module _ {W A : Type 0} where
  pub handle : (String → Exec W A) → Result A → Exec W A
  handle f (ok a) w = (ok a, w)
  handle f (raised e) w = f e w

  -- `try: m` with `except BaseException as e: f(e)`; what `m` wrote stays written
  unfoldable pub try_except : Exec W A → (String → Exec W A) → Exec W A
  unfolding handle
  try_except m f w = let (r, w') = m w in handle f r w'
