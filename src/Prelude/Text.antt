-- ===== src/Prelude/Text.antt =====
-- Texts as Python compares them, and their characters as numbers for the regular expressions.
use Prim.Native.Nat.{ℕ}
use Prim.Native.Char.{code}
use Prim.Native.String.{String}
use mathlib.Core.Path.{◌≡◌, refl}
use mathlib.Core.Logic.{◌↔◌}
use mathlib.Core.Bool.{Bool, true, false, false≢true, ◌&&◌, ◌||◌}
use mathlib.Core.List.{List, [], ◌∷◌}
use text.Mathlib.Text.{◌==◌}
use text.Mathlib.TextEquality.{eq_iff}
use amneziawg_manager.Prelude.Tests.{leb}
use amneziawg_manager.Prelude.Lists.{any}

-- `s == t` on Python texts
abbrev pub same : String → String → Bool
same s t = s == t

decide_by : {A : Type 0} {s t : A} (b : Bool) → (b ≡ true) ↔ (s ≡ t) → Dec (s ≡ t)
decide_by true e = yes (e.0 refl)
decide_by false e = no (λ p. false≢true (e.1 p))

pub same_iff : (s t : String) → (same s t ≡ true) ↔ (s ≡ t)
same_iff s t = eq_iff s t

-- Texts are equal or not, by the test.
pub String-discrete : Discrete String
String-discrete s t = decide_by (same s t) (same_iff s t)

-- `s in {…}` for a set of texts written out
abbrev pub one_of : String → List String → Bool
one_of s ts = any (same s) ts

-- The code points of a text.
abbrev pub codes : String → List ℕ
codes String.[] = []
codes (String.◌∷◌ c s) = code c ∷ codes s

-- character classes of the regular expressions
abbrev pub between : ℕ → ℕ → ℕ → Bool
between lo hi c = leb lo c && leb c hi

abbrev pub is_digit : ℕ → Bool
is_digit = between b'0' b'9'

abbrev pub is_alnum : ℕ → Bool
is_alnum c = between b'0' b'9' c || between b'A' b'Z' c || between b'a' b'z' c
