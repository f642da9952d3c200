-- ===== src/Obfuscation/Classic.antt =====
-- The classic profile: `_classic_profile` of awgctl/core.py.
use mathlib.Core.Path.{subst}
use amneziawg_manager.Prelude.{
  ℕ, ◌+◌, ◌≤◌, String, ◌≡◌, ◌≢◌, refl, ap, ◌∙◌, some, Bool, false, List, [], ◌∷◌, ltb, ◌==◌, arith,
  All,
}
use amneziawg_manager.Prelude.Int.{pos, in_range-pos}
use amneziawg_manager.Result.{
  Result, ok, ◌>>=◌, ◌>>◌, raise_if, or_raise, Ensures, bind-Ensures, bind-eq-ok, ok-Ensures,
  raise_if-eq-ok,
}
use amneziawg_manager.Value.{obj, Value, int, Fields, field, end, as_dict, at, dict_of}
use amneziawg_manager.Obfuscation.Range.{
  Range, scalar, normalize_closed_range, strict_integer, strict_integer-Ensures,
}
use amneziawg_manager.Obfuscation.Headers.{
  header_maximum, validate_header_ranges, header_fields, read_ranges,
  validate_header_ranges-Ensures, validate_header_ranges-read, validate_header_ranges_iff, Disjoint,
  AllDisjoint,
}

-- OBFUSCATION_FIELDS
abbrev pub obfuscation_fields : List String
obfuscation_fields = "Jc" ∷ "Jmin" ∷ "Jmax" ∷ "S1" ∷ "S2" ∷ "H1" ∷ "H2" ∷ "H3" ∷ "H4" ∷ []

-- the `parameters` of the profile
pub record Classic : Type 0 where
  pub jc : ℕ
  pub jmin : ℕ
  pub jmax : ℕ
  pub s1 : ℕ
  pub s2 : ℕ
  pub h1 : ℕ
  pub h2 : ℕ
  pub h3 : ℕ
  pub h4 : ℕ

-- the header fields of the result, as `validate_header_ranges(result)` reads them
abbrev header_values : Classic → Fields
header_values p =
    field "H1" (int (pos p.h1))
      (field "H2" (int (pos p.h2)) (field "H3" (int (pos p.h3)) (field "H4" (int (pos p.h4)) end)))

classic_integer : String → Fields → Result ℕ
classic_integer f d = do v ← at f d; strict_integer header_maximum v

pub classic_profile : Value → Result Classic
unfolding classic_integer
classic_profile parameters = do
  d ← or_raise (as_dict parameters) "classic obfuscation parameters must be an object"
  exact ←
      dict_of obfuscation_fields parameters
        "classic AmneziaWG obfuscation fields are incomplete or unexpected"
  jc ← classic_integer "Jc" d
  jmin ← classic_integer "Jmin" d
  jmax ← classic_integer "Jmax" d
  s1 ← classic_integer "S1" d
  s2 ← classic_integer "S2" d
  h1 ← classic_integer "H1" d
  h2 ← classic_integer "H2" d
  h3 ← classic_integer "H3" d
  h4 ← classic_integer "H4" d
  let result : Classic = record {
    jc = jc;
    jmin = jmin;
    jmax = jmax;
    s1 = s1;
    s2 = s2;
    h1 = h1;
    h2 = h2;
    h3 = h3;
    h4 = h4;
  }
  raise_if (ltb jmax jmin) "Jmin must not exceed Jmax"
  ranges ← validate_header_ranges (header_values result)
  raise_if (s1 + 56 == s2) "classic handshake packet lengths are ambiguous"
  ok result

-- What an accepted profile satisfies: 32-bit values, an order of the junk sizes, four headers that
-- differ, and handshake packets that can be told apart by their length.
pub record IsClassic (p : Classic) : Type 0 where
  pub junk_ordered : p.jmin ≤ p.jmax
  pub junk_bounded : p.jmax ≤ header_maximum
  pub headers_bounded : All (λ h. h ≤ header_maximum) (p.h1 ∷ p.h2 ∷ p.h3 ∷ p.h4 ∷ [])
  pub h1_apart : All (λ h. p.h1 ≢ h) (p.h2 ∷ p.h3 ∷ p.h4 ∷ [])
  pub h2_apart : All (λ h. p.h2 ≢ h) (p.h3 ∷ p.h4 ∷ [])
  pub h3_apart : p.h3 ≢ p.h4
  pub lengths_apart : p.s1 + 56 ≢ p.s2

apart : {a b : ℕ} → Disjoint (scalar a) (scalar b) → a ≢ b
apart {a} {b} d e =
    d a (record { from = omega arith; to = omega arith })
      (record { from = omega arith; to = omega arith })

read-header_values :
    (p : Classic)
    → All (λ h. h ≤ header_maximum) (p.h1 ∷ p.h2 ∷ p.h3 ∷ p.h4 ∷ [])
    → read_ranges header_maximum header_fields (header_values p)
      ≡ ok (scalar p.h1 ∷ scalar p.h2 ∷ scalar p.h3 ∷ scalar p.h4 ∷ [])
unfolding read_ranges normalize_closed_range strict_integer ◌>>=◌
read-header_values p (b1, (b2, (b3, (b4, _)))) = simp (
  in_range-pos 0 header_maximum p.h1 (omega arith) b1,
  in_range-pos 0 header_maximum p.h2 (omega arith) b2,
  in_range-pos 0 header_maximum p.h3 (omega arith) b3,
  in_range-pos 0 header_maximum p.h4 (omega arith) b4,
)

classic_integer-Ensures :
    (f : String) (d : Fields) → Ensures (λ n. n ≤ header_maximum) (classic_integer f d)
unfolding classic_integer
classic_integer-Ensures f d = bind-Ensures _ _ λ v _. strict_integer-Ensures header_maximum v

jmin-le-jmax : (a b : ℕ) → ltb b a ≡ false → a ≤ b
jmin-le-jmax a b h = ground arith

lengths_differ : (a b : ℕ) → (a + 56 == b) ≡ false → a + 56 ≢ b
lengths_differ a b h = ground arith

IsClassic-of :
    (p : Classic)
    → All (λ h. h ≤ header_maximum) (p.h1 ∷ p.h2 ∷ p.h3 ∷ p.h4 ∷ [])
    → p.jmax ≤ header_maximum
    → p.jmin ≤ p.jmax
    → (ranges : List Range) → validate_header_ranges (header_values p) ≡ ok ranges
    → p.s1 + 56 ≢ p.s2
    → IsClassic p
IsClassic-of p bounds junk order ranges h lengths =
    let same =
      validate_header_ranges-read (header_values p) _ ranges (read-header_values p bounds) h in
    let apart_all : AllDisjoint (scalar p.h1 ∷ scalar p.h2 ∷ scalar p.h3 ∷ scalar p.h4 ∷ []) =
      subst AllDisjoint same ((validate_header_ranges-Ensures (header_values p)).on ranges h).1 in
    let (d1, rest1) = apart_all in
    let (d2, rest2) = rest1 in
    let (d3, rest3) = rest2 in
    record {
      junk_ordered = order;
      junk_bounded = junk;
      headers_bounded = bounds;
      h1_apart = (apart d1.0, (apart d1.1.0, (apart d1.1.1.0, tt)));
      h2_apart = (apart d2.0, (apart d2.1.0, tt));
      h3_apart = apart d3.0;
      lengths_apart = lengths;
    }

-- Whatever JSON value is accepted as a classic profile satisfies `IsClassic`.
pub classic_profile-IsClassic : (v : Value) → Ensures IsClassic (classic_profile v)
unfolding classic_profile
classic_profile-IsClassic v = bind-Ensures _ _ λ d _. bind-Ensures _ _ λ _ _.
    bind-Ensures _ _ λ jc _. bind-Ensures _ _ λ jmin _. bind-Ensures _ _ λ jmax hj.
      bind-Ensures _ _ λ s1 _. bind-Ensures _ _ λ s2 _. bind-Ensures _ _ λ h1 k1.
        bind-Ensures _ _ λ h2 k2. bind-Ensures _ _ λ h3 k3. bind-Ensures _ _ λ h4 k4.
          let p : Classic = record {
            jc = jc;
            jmin = jmin;
            jmax = jmax;
            s1 = s1;
            s2 = s2;
            h1 = h1;
            h2 = h2;
            h3 = h3;
            h4 = h4;
          } in
          bind-Ensures _ _ λ _ h_order. bind-Ensures _ _ λ ranges h_ranges.
            bind-Ensures _ _ λ _ h_lengths.
              let order = raise_if-eq-ok (ltb jmax jmin) _ h_order in
              let lengths = raise_if-eq-ok (s1 + 56 == s2) _ h_lengths in
              let bounds : All (λ h. h ≤ header_maximum) (h1 ∷ h2 ∷ h3 ∷ h4 ∷ []) = (
                (classic_integer-Ensures "H1" d).on h1 k1,
                (
                  (classic_integer-Ensures "H2" d).on h2 k2,
                  (
                    (classic_integer-Ensures "H3" d).on h3 k3,
                    ((classic_integer-Ensures "H4" d).on h4 k4, tt),
                  ),
                ),
              ) in
              ok-Ensures p (
                IsClassic-of p bounds ((classic_integer-Ensures "Jmax" d).on jmax hj)
                  (jmin-le-jmax jmin jmax order) ranges h_ranges (lengths_differ s1 s2 lengths))

-- the `parameters` of a profile as a JSON object
abbrev pub classic_fields : Classic → Fields
classic_fields p = field "Jc" (int (pos p.jc)) (
    field "Jmin" (int (pos p.jmin)) (
      field "Jmax" (int (pos p.jmax))
        (field "S1" (int (pos p.s1)) (field "S2" (int (pos p.s2)) (header_values p)))))

abbrev pub classic_document : Classic → Value
classic_document p = obj (classic_fields p)

-- The values that are not headers fit in 32 bits.
abbrev pub IsBounded : Classic → Type 0
IsBounded p =
    (p.jc ≤ header_maximum)
    × (p.jmin ≤ header_maximum)
    × (p.jmax ≤ header_maximum)
    × (p.s1 ≤ header_maximum)
    × (p.s2 ≤ header_maximum)

scalars_apart : {a b : ℕ} → a ≢ b → Disjoint (scalar a) (scalar b)
scalars_apart {a} {b} n x p q =
    n (let f = p.from in let t = p.to in let g = q.from in let u = q.to in omega arith)

in_order : (a b : ℕ) → a ≤ b → ltb b a ≡ false
in_order a b h = ground arith

not_equal : (a b : ℕ) → a ≢ b → (a == b) ≡ false
not_equal a b h = ground arith

headers_accepted :
    (p : Classic)
    → IsClassic p
    → validate_header_ranges (header_values p)
      ≡ ok (scalar p.h1 ∷ scalar p.h2 ∷ scalar p.h3 ∷ scalar p.h4 ∷ [])
headers_accepted p g =
    (validate_header_ranges_iff (header_values p) _ (read-header_values p g.headers_bounded)).1 (
      (
        scalars_apart g.h1_apart.0,
        (scalars_apart g.h1_apart.1.0, (scalars_apart g.h1_apart.1.1.0, tt)),
      ),
      (
        (scalars_apart g.h2_apart.0, (scalars_apart g.h2_apart.1.0, tt)),
        ((scalars_apart g.h3_apart, tt), (tt, tt)),
      ),
    )

integer_read :
    (f : String) (d : Fields) (n : ℕ)
    → at f d ≡ ok (int (pos n))
    → n ≤ header_maximum
    → classic_integer f d ≡ ok n
unfolding classic_integer strict_integer ◌>>=◌
integer_read f d n e b = rw e (rw (in_range-pos 0 header_maximum n (omega arith) b) refl)

passed : {b : Bool} (e : String) → b ≡ false → raise_if b e ≡ ok tt
passed e h = rw h refl

document_read :
    (p : Classic) (d : Fields) (e : String)
    → as_dict (classic_document p) ≡ some d
    → dict_of obfuscation_fields (classic_document p) e ≡ ok d
unfolding dict_of ◌>>=◌
document_read p d e h = ap (λ o. or_raise o e) h

-- The document of a profile of 32-bit values that satisfies `IsClassic` is accepted, and read as
-- that profile.
pub classic_profile-classic_document :
    (p : Classic) → IsBounded p → IsClassic p → classic_profile (classic_document p) ≡ ok p
unfolding classic_profile
classic_profile-classic_document p (jc, jmin, jmax, s1, s2) g =
    let (h1, (h2, (h3, (h4, _)))) = g.headers_bounded in
    bind-eq-ok _ _ refl
    ∙ bind-eq-ok _ _ (document_read p _ _ refl)
    ∙ bind-eq-ok _ _ (integer_read "Jc" (classic_fields p) p.jc refl jc)
    ∙ bind-eq-ok _ _ (integer_read "Jmin" (classic_fields p) p.jmin refl jmin)
    ∙ bind-eq-ok _ _ (integer_read "Jmax" (classic_fields p) p.jmax refl jmax)
    ∙ bind-eq-ok _ _ (integer_read "S1" (classic_fields p) p.s1 refl s1)
    ∙ bind-eq-ok _ _ (integer_read "S2" (classic_fields p) p.s2 refl s2)
    ∙ bind-eq-ok _ _ (integer_read "H1" (classic_fields p) p.h1 refl h1)
    ∙ bind-eq-ok _ _ (integer_read "H2" (classic_fields p) p.h2 refl h2)
    ∙ bind-eq-ok _ _ (integer_read "H3" (classic_fields p) p.h3 refl h3)
    ∙ bind-eq-ok _ _ (integer_read "H4" (classic_fields p) p.h4 refl h4)
    ∙ bind-eq-ok _ _ (passed _ (in_order p.jmin p.jmax g.junk_ordered))
    ∙ bind-eq-ok _ _ (headers_accepted p g)
    ∙ bind-eq-ok _ _ (passed _ (not_equal (p.s1 + 56) p.s2 g.lengths_apart))
