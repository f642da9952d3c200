-- ===== src/Releases/Semver/Bounds.antt =====
-- What `precedence_key` of awgctl/semver.py accepts, and the bounds of its numbers.
use mathlib.Core.Path.{subst}
use native.Mathlib.Nat.{pow-suc, pow-le-pow_right, mul_assoc, mul-le-mul_left}
use amneziawg_manager.Prelude.{
  &&-eq-true, Bool-cases, ◌⊎◌, inl, inr, ◌==◌, ℕ, suc, ◌+◌, ◌-◌, ◌*◌, ◌^◌, ◌≤◌, ◌<◌, ◌≡◌, ◌↔◌, refl,
  ap, true, false, ◌&&◌, Option, none, some, List, [], ◌∷◌, length, all, All, codes, is_digit, ltb,
  arith,
}
use amneziawg_manager.Result.{Ensures, bind-Ensures, ok-Ensures, or_raise-eq-ok, raise_if-eq-ok}
use amneziawg_manager.Value.{Value}
use amneziawg_manager.Obfuscation.Cps.{decimal}
use amneziawg_manager.Releases.Semver.{
  core_part, prerelease_part, on_first, split_at, is_number, three_numbers, is_none, Identifier,
  numeric, alphanumeric, Key, numeric_value, read_identifier, read_identifiers, read_prerelease,
  precedence_key,
}

digit_small : (d : ℕ) → is_digit d ≡ true → d - b'0' ≤ 9
digit_small d h = ground arith

scaled : (p a e : ℕ) → e ≤ 9 → p * (10 * a + e + 1) ≤ p * 10 * (a + 1)
scaled p a e h = rw (mul_assoc p 10 (a + 1)) (mul-le-mul_left p (omega arith))

-- `int(text)` of n digits is below 10 ^ n.
decimal-bound :
    (acc : ℕ) (ds : List ℕ) → all is_digit ds ≡ true → decimal acc ds < 10 ^ length ds * (acc + 1)
unfolding decimal
decimal-bound acc [] h = omega arith
decimal-bound acc (d ∷ ds) h =
    let (first, rest) = &&-eq-true (is_digit d) _ h in
    let step = decimal-bound (10 * acc + (d - b'0')) ds rest in
    let more = scaled (10 ^ length ds) acc (d - b'0') (digit_small d first) in
    rw (pow-suc 10 (length ds)) (omega arith)

-- a number of at most 128 digits
abbrev pub Bounded : ℕ → Type 0
Bounded n = n < 10 ^ 128

numeric_value-Bounded : (ds : List ℕ) → all is_digit ds ≡ true → Ensures Bounded (numeric_value ds)
unfolding numeric_value
numeric_value-Bounded ds digits = bind-Ensures _ _ λ _ h.
    let short : length ds ≤ 128 = small (length ds) (raise_if-eq-ok _ _ h) in
    let least = decimal-bound 0 ds digits in
    let most = pow-le-pow_right (positive_base 10) short in
    ok-Ensures _ (omega (arith, least, most))
  where
    small : (n : ℕ) → ltb 128 n ≡ false → n ≤ 128
    small n h = ground arith

    positive_base : (n : ℕ) → 0 < 10
    positive_base n = omega arith

is_number_digits : (ds : List ℕ) → is_number ds ≡ true → all is_digit ds ≡ true
is_number_digits [] h = cc
is_number_digits (c ∷ []) h = ground arith
is_number_digits (c ∷ d ∷ ds) h = ground arith

abbrev AreDigits : List ℕ × List ℕ × List ℕ → Type 0
AreDigits (a, b, c) = (all is_digit a ≡ true) × (all is_digit b ≡ true) × (all is_digit c ≡ true)

some_inj : {A : Type 0} {x y : A} → some x ≡ some y → x ≡ y
some_inj e = cc

none_some : {A B : Type 0} {x : A} → none ≡ some x → B
none_some e = cc

three_numbers-AreDigits :
    (ps : List (List ℕ)) (g : List ℕ × List ℕ × List ℕ) → three_numbers ps ≡ some g → AreDigits g
three_numbers-AreDigits [] g h = cc
three_numbers-AreDigits (a ∷ []) g h = cc
three_numbers-AreDigits (a ∷ b ∷ []) g h = cc
three_numbers-AreDigits (a ∷ b ∷ c ∷ []) g h =
    go (Bool-cases (is_number a && is_number b && is_number c)) h
  where
    go :
        ((is_number a && is_number b && is_number c) ≡ true)
          ⊎ ((is_number a && is_number b && is_number c) ≡ false)
        → three_numbers (a ∷ b ∷ c ∷ []) ≡ some g
        → AreDigits g
    go (inl e) h =
        let (xy, z) = &&-eq-true _ (is_number c) e in
        let (x, y) = &&-eq-true (is_number a) (is_number b) xy in
        subst AreDigits (some_inj (rw e at h))
          (is_number_digits a x, is_number_digits b y, is_number_digits c z)
    go (inr e) h = none_some (rw e at h)
three_numbers-AreDigits (a ∷ b ∷ c ∷ d ∷ ps) g h = cc

abbrev IdentifierFits : Identifier → Type 0
IdentifierFits (numeric n) = Bounded n
IdentifierFits (alphanumeric cs) = all is_digit cs ≡ false

-- The numbers of a key have at most 128 digits, an identifier that is no number has a character that
-- is no digit, and a version is final exactly where it has no identifier of a prerelease.
pub record IsKey (k : Key) : Type 0 where
  pub major_fits : Bounded k.major
  pub minor_fits : Bounded k.minor
  pub patch_fits : Bounded k.patch
  pub identifiers_fit : All IdentifierFits k.identifiers
  pub final_fits : (k.final ≡ true) ↔ (k.identifiers ≡ [])

read_identifier-IdentifierFits : (cs : List ℕ) → Ensures IdentifierFits (read_identifier cs)
unfolding read_identifier
read_identifier-IdentifierFits cs = elim (Bool-cases (all is_digit cs)) [
  | inl e ↦ rw e (
      bind-Ensures _ _
        λ _ _. bind-Ensures _ _ λ n h. ok-Ensures _ ((numeric_value-Bounded cs e).on n h))
  | inr e ↦ rw e (ok-Ensures _ e)
]

read_identifiers-fit :
    (ps : List (List ℕ))
    → Ensures (λ is. All IdentifierFits is × (length is ≡ length ps)) (read_identifiers ps)
unfolding read_identifiers
read_identifiers-fit [] = ok-Ensures [] (tt, refl)
read_identifiers-fit (p ∷ ps) = bind-Ensures _ _ λ i h. bind-Ensures _ _ λ is hs.
    let (fit, same_length) = (read_identifiers-fit ps).on is hs in
    ok-Ensures _ (((read_identifier-IdentifierFits p).on i h, fit), ap suc same_length)

not_empty : (sep : ℕ) (cs : List ℕ) → 0 < length (split_at sep cs)
not_empty sep [] = omega arith
not_empty sep (c ∷ cs) = elim (Bool-cases (c == sep)) [
  | inl e ↦ rw e (omega arith)
  | inr e ↦ rw e (first_grows (split_at sep cs) (not_empty sep cs))
]
  where
    first_grows : (ps : List (List ℕ)) → 0 < length ps → 0 < length (on_first (λ p. c ∷ p) ps)
    first_grows [] h = h
    first_grows (p ∷ ps) h = omega arith

read_prerelease-fits :
    (pre : Option (List ℕ))
    → Ensures
        (λ is. All IdentifierFits is × ((is_none pre ≡ true) ↔ (is ≡ [])))
        (read_prerelease pre)
unfolding read_prerelease
read_prerelease-fits none = ok-Ensures [] (tt, (λ _. refl, λ _. refl))
read_prerelease-fits (some cs) = record {
  on = λ is h.
      let (fit, same_length) = (read_identifiers-fit (split_at b'.' cs)).on is h in
      (fit, (λ e. clash e, λ e. absurd (some_part is e same_length)));
}
  where
    clash : {A : Type 0} → false ≡ true → A
    clash e = cc

    some_part : (is : List Identifier) → is ≡ [] → length is ≡ length (split_at b'.' cs) → ⊥
    some_part is e h = let l = not_empty b'.' cs in let z = ap length e in omega arith

-- Every version that is accepted has numbers of at most 128 digits, identifiers that are such a
-- number or have a character that is no digit, and is a final one exactly where no identifier of a
-- prerelease is read.
pub precedence_key-IsKey : (v : Value) → Ensures IsKey (precedence_key v)
unfolding precedence_key
precedence_key-IsKey v = bind-Ensures _ _ λ s _. bind-Ensures _ _ λ g h1. bind-Ensures _ _ λ _ _.
    bind-Ensures _ _ λ major h2. bind-Ensures _ _ λ minor h3. bind-Ensures _ _ λ patch h4.
      bind-Ensures _ _ λ is h5.
        let digits =
          three_numbers-AreDigits (split_at b'.' (core_part (codes s))) g (or_raise-eq-ok _ _ h1) in
        let (fit, final) = (read_prerelease-fits (prerelease_part (codes s))).on is h5 in
        ok-Ensures _ (record {
          major_fits = (numeric_value-Bounded g.0 digits.0).on major h2;
          minor_fits = (numeric_value-Bounded g.1 digits.1).on minor h3;
          patch_fits = (numeric_value-Bounded g.2 digits.2).on patch h4;
          identifiers_fit = fit;
          final_fits = final;
        })
