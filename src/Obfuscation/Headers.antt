-- ===== src/Obfuscation/Headers.antt =====
-- The header ranges H1 to H4: `validate_header_ranges` of awgctl/core.py.
use amneziawg_manager.Prelude.{
  ℕ, ◌≤◌, String, ◌≡◌, ◌↔◌, refl, Bool, false, List, [], ◌∷◌, leb, min, max, arith, All, any,
  Bool-cases, inl, inr,
}
use amneziawg_manager.Result.{
  Result, ok, ◌>>=◌, ◌>>◌, raise_if, Ensures, bind-Ensures, ok-Ensures, raise_if-eq-ok,
}
use amneziawg_manager.Value.{Fields, at}
use amneziawg_manager.Obfuscation.Range.{
  Range, lower_bound, upper_bound, normalize_closed_range, IsWithin, normalize_closed_range-Ensures,
}

-- AWG31_HEADER_FIELDS
abbrev pub header_fields : List String
header_fields = "H1" ∷ "H2" ∷ "H3" ∷ "H4" ∷ []

abbrev pub header_maximum : ℕ
header_maximum = 0xffffffff

-- `{field: normalize_closed_range(parameters[field], …) for field in fields}`, in their order
unfoldable pub read_ranges : ℕ → List String → Fields → Result (List Range)
read_ranges maximum [] d = ok []
read_ranges maximum (f ∷ fs) d = do
  r ← normalize_closed_range maximum (← at f d)
  rs ← read_ranges maximum fs d
  ok (r ∷ rs)

-- `max(left_min, right_min) <= min(left_max, right_max)`
unfoldable pub overlaps : Range → Range → Bool
overlaps a b = leb (max (lower_bound a) (lower_bound b)) (min (upper_bound a) (upper_bound b))

-- the two loops: each range against those after it
unfoldable pub reject_overlaps : List Range → Result (Unit {0})
reject_overlaps [] = ok tt
reject_overlaps (r ∷ rs) = do
  raise_if (any (overlaps r) rs) "obfuscation header ranges overlap"
  reject_overlaps rs

unfoldable pub validate_header_ranges : Fields → Result (List Range)
validate_header_ranges d = do
  rs ← read_ranges header_maximum header_fields d
  reject_overlaps rs
  ok rs

-- A header value that a packet may carry.
pub record Contains (x : ℕ) (r : Range) : Type 0 where
  pub from : lower_bound r ≤ x
  pub to : x ≤ upper_bound r

-- No value is in both ranges.
abbrev pub Disjoint : Range → Range → Type 0
Disjoint a b = (x : ℕ) → Contains x a → Contains x b → ⊥

-- Each range is disjoint from those after it.
abbrev pub AllDisjoint : List Range → Type 0
AllDisjoint [] = Unit
AllDisjoint (r ∷ rs) = All (Disjoint r) rs × AllDisjoint rs

overlaps-Disjoint : (a b : Range) → overlaps a b ≡ false → Disjoint a b
unfolding overlaps
overlaps-Disjoint a b h x p q = ground arith

Disjoint-overlaps :
    {m : ℕ} (a b : Range) → IsWithin m a → IsWithin m b → Disjoint a b → overlaps a b ≡ false
unfolding overlaps
Disjoint-overlaps a b p q d = elim (Bool-cases (overlaps a b)) [
  | inr apart ↦ apart
  | inl meet ↦ absurd (
      d (max (lower_bound a) (lower_bound b)) (record { from = omega arith; to = ground arith })
        (record { from = omega arith; to = ground arith }))
]

any-overlaps : (r : Range) (rs : List Range) → any (overlaps r) rs ≡ false → All (Disjoint r) rs
any-overlaps r [] h = tt
any-overlaps r (s ∷ rs) h = elim (Bool-cases (overlaps r s)) [
  | inl meet ↦ cc (rw meet at h)
  | inr apart ↦ (overlaps-Disjoint r s apart, any-overlaps r rs (rw apart at h))
]

overlaps-any :
    {m : ℕ} (r : Range) (rs : List Range)
    → IsWithin m r
    → All (IsWithin m) rs
    → All (Disjoint r) rs
    → any (overlaps r) rs ≡ false
overlaps-any r [] p ps d = refl
overlaps-any r (s ∷ rs) p (q, ps) (d, ds) =
    rw (Disjoint-overlaps r s p q d) (overlaps-any r rs p ps ds)

reject_overlaps-Ensures : (rs : List Range) → Ensures (λ _. AllDisjoint rs) (reject_overlaps rs)
unfolding reject_overlaps
reject_overlaps-Ensures [] = ok-Ensures tt tt
reject_overlaps-Ensures (r ∷ rs) = bind-Ensures _ _ λ _ h. record {
  on = λ u rest. (any-overlaps r rs (raise_if-eq-ok _ _ h), (reject_overlaps-Ensures rs).on u rest);
}

AllDisjoint-reject_overlaps :
    (m : ℕ) (rs : List Range) → All (IsWithin m) rs → AllDisjoint rs → reject_overlaps rs ≡ ok tt
unfolding reject_overlaps ◌>>=◌
AllDisjoint-reject_overlaps m [] ps ds = refl
AllDisjoint-reject_overlaps m (r ∷ rs) (p, ps) (d, ds) =
    rw (overlaps-any r rs p ps d) (AllDisjoint-reject_overlaps m rs ps ds)

pub read_ranges-Ensures :
    (maximum : ℕ) (fields : List String) (d : Fields)
    → Ensures (All (IsWithin maximum)) (read_ranges maximum fields d)
unfolding read_ranges
read_ranges-Ensures maximum [] d = ok-Ensures [] tt
read_ranges-Ensures maximum (f ∷ fs) d = bind-Ensures _ _ λ v _. bind-Ensures _ _ λ r h.
    bind-Ensures _ _ λ rs hs. ok-Ensures (r ∷ rs) (
      (normalize_closed_range-Ensures maximum v).on r h,
      (read_ranges-Ensures maximum fs d).on rs hs,
    )

-- The accepted header ranges are not empty, fit in 32 bits, and no header value is in two of them.
pub validate_header_ranges-Ensures :
    (d : Fields)
    → Ensures (λ rs. All (IsWithin header_maximum) rs × AllDisjoint rs) (validate_header_ranges d)
unfolding validate_header_ranges
validate_header_ranges-Ensures d = bind-Ensures _ _ λ rs h. bind-Ensures _ _ λ u k. ok-Ensures rs (
  (read_ranges-Ensures header_maximum header_fields d).on rs h,
  (reject_overlaps-Ensures rs).on u k,
)

pub validate_header_ranges-read :
    (d : Fields) (rs qs : List Range)
    → read_ranges header_maximum header_fields d ≡ ok rs
    → validate_header_ranges d ≡ ok qs
    → qs ≡ rs
unfolding validate_header_ranges ◌>>=◌
validate_header_ranges-read d rs qs read h = ground arith

accepted :
    (d : Fields) (rs : List Range)
    → read_ranges header_maximum header_fields d ≡ ok rs
    → reject_overlaps rs ≡ ok tt
    → validate_header_ranges d ≡ ok rs
unfolding validate_header_ranges ◌>>=◌
accepted d rs read apart = simp (read, apart)

-- Ranges that have been read are accepted exactly where no header value is in two of them.
pub validate_header_ranges_iff :
    (d : Fields) (rs : List Range)
    → read_ranges header_maximum header_fields d ≡ ok rs
    → (validate_header_ranges d ≡ ok rs) ↔ AllDisjoint rs
validate_header_ranges_iff d rs read = (
  λ h. ((validate_header_ranges-Ensures d).on rs h).1,
  λ disjoint. accepted d rs read (
      AllDisjoint-reject_overlaps header_maximum rs
        ((read_ranges-Ensures header_maximum header_fields d).on rs read) disjoint),
)
