-- ===== src/Releases/Semver.antt =====
-- `precedence_key` of awgctl/semver.py. `_VERSION_RE` is read part by part: the core has no dash, so
-- that a prerelease begins at the first one.
pub mod Bounds
use amneziawg_manager.Prelude.{
  ℕ, suc, ◌-◌, String, Bool, true, false, not, ◌&&◌, ◌||◌, Option, none, some, List, [], ◌∷◌, leb,
  ltb, ◌==◌, all, length, codes, is_digit, is_alnum, if◌then◌else◌,
}
use amneziawg_manager.Result.{Result, ok, raised, ◌>>=◌, ◌>>◌, require, raise_if, or_raise}
use amneziawg_manager.Value.{Value, as_text}
use amneziawg_manager.Obfuscation.Cps.{decimal}

-- an entry of `identifiers`: (0, int) or (1, text)
pub data Identifier : Type 0 where
  numeric : ℕ → Identifier
  alphanumeric : List ℕ → Identifier

pub record Key : Type 0 where
  pub major : ℕ
  pub minor : ℕ
  pub patch : ℕ
  -- whether there is no prerelease
  pub final : Bool
  pub identifiers : List Identifier

-- `text.split(c)`, from the part so far
abbrev pub on_first : (List ℕ → List ℕ) → List (List ℕ) → List (List ℕ)
on_first f [] = []
on_first f (p ∷ ps) = f p ∷ ps

abbrev pub split_at : ℕ → List ℕ → List (List ℕ)
split_at sep [] = [] ∷ []
split_at sep (c ∷ cs) =
    let rest = split_at sep cs in if c == sep then [] ∷ rest else on_first (λ p. c ∷ p) rest

abbrev pub core_part : List ℕ → List ℕ
core_part [] = []
core_part (c ∷ cs) = let rest = core_part cs in if c == b'-' then [] else c ∷ rest

abbrev pub prerelease_part : List ℕ → Option (List ℕ)
prerelease_part [] = none
prerelease_part (c ∷ cs) = let rest = prerelease_part cs in if c == b'-' then some cs else rest

-- `0|[1-9][0-9]*`
abbrev pub is_number : List ℕ → Bool
is_number [] = false
is_number (c ∷ []) = is_digit c
is_number (c ∷ d ∷ ds) = is_digit c && not (c == b'0') && all is_digit (d ∷ ds)

-- `[0-9A-Za-z-]+`
abbrev is_identifier : List ℕ → Bool
is_identifier [] = false
is_identifier (c ∷ cs) = all (λ x. is_alnum x || x == b'-') (c ∷ cs)

abbrev fits_prerelease : Option (List ℕ) → Bool
fits_prerelease none = true
fits_prerelease (some pre) = all is_identifier (split_at b'.' pre)

-- the three groups of the core
abbrev pub three_numbers : List (List ℕ) → Option (List ℕ × List ℕ × List ℕ)
three_numbers (a ∷ b ∷ c ∷ []) =
    if is_number a && is_number b && is_number c then some (a, b, c) else none
three_numbers _ = none

unfoldable pub numeric_value : List ℕ → Result ℕ
numeric_value ds = do
  raise_if (ltb 128 (length ds)) "numeric identifier is too long"
  ok (decimal 0 ds)

abbrev starts_with_zero : List ℕ → Bool
starts_with_zero [] = false
starts_with_zero (c ∷ cs) = c == b'0'

abbrev read_numeric : List ℕ → Result Identifier
read_numeric cs = do
  raise_if (ltb 1 (length cs) && starts_with_zero cs)
      "numeric prerelease identifier has a leading zero"
  n ← numeric_value cs
  ok (numeric n)

unfoldable pub read_identifier : List ℕ → Result Identifier
read_identifier cs = if all is_digit cs then read_numeric cs else ok (alphanumeric cs)

unfoldable pub read_identifiers : List (List ℕ) → Result (List Identifier)
read_identifiers [] = ok []
read_identifiers (p ∷ ps) = do i ← read_identifier p; is ← read_identifiers ps; ok (i ∷ is)

unfoldable pub read_prerelease : Option (List ℕ) → Result (List Identifier)
read_prerelease none = ok []
read_prerelease (some pre) = read_identifiers (split_at b'.' pre)

abbrev pub is_none : Option (List ℕ) → Bool
is_none none = true
is_none (some x) = false

unfoldable pub precedence_key : Value → Result Key
precedence_key value = do
  s ← or_raise (as_text value) "version must be a string"
  groups ← or_raise (three_numbers (split_at b'.' (core_part (codes s)))) "invalid semantic version"
  require (fits_prerelease (prerelease_part (codes s))) "invalid semantic version"
  major ← numeric_value groups.0
  minor ← numeric_value groups.1
  patch ← numeric_value groups.2
  identifiers ← read_prerelease (prerelease_part (codes s))
  ok (record {
    major = major;
    minor = minor;
    patch = patch;
    final = is_none (prerelease_part (codes s));
    identifiers = identifiers;
  })
