-- ===== src/Obfuscation/Awg31/Policy.antt =====
-- The policy of russia-ios-v1 on the values of a profile, for `_normalize_awg31_profile` of
-- awgctl/core.py.
use amneziawg_manager.Prelude.{
  ℕ, zero, suc, ◌+◌, ◌≤◌, String, ◌≡◌, ◌≢◌, refl, ap, ◌∙◌, Bool, true, false, not, ◌&&◌, ◌||◌,
  Option, none, some, List, [], ◌∷◌, leb, ◌==◌, ==_iff, all, All, arith, length, &&-eq-true, leb→le,
}
use amneziawg_manager.Result.{ok, Ensures, bind-Ensures, ok-Ensures, raise_if-eq-ok, require-eq-ok}
use amneziawg_manager.Value.{Value, null, bool, int, float, str, arr, obj, Fields}
use amneziawg_manager.Obfuscation.Range.{Range, scalar, closed, lower_bound, upper_bound}
use amneziawg_manager.Obfuscation.Headers.{AllDisjoint, validate_header_ranges-Ensures}
use amneziawg_manager.Obfuscation.Cps.{validate_cps}
use amneziawg_manager.Obfuscation.Cps.Packet.{IsCps, validate_cps_iff}
use amneziawg_manager.Obfuscation.Awg31.{
  Awg31, cps_fields, packet_of, read_packets, is_unset, first_is_set, others_are_unset, within,
  are_fixed, required_ranges, same_range, same_ranges, enforce_policy, awg31_profile,
}

-- A packet that is set is a custom packet specification for the MTU.
abbrev pub FitsMtu : ℕ → Option String → Type 0
FitsMtu mtu none = Unit
FitsMtu mtu (some s) = IsCps mtu (str s) s

as_set : (mtu : ℕ) (v : Value) (s : String) → validate_cps mtu v ≡ ok s → IsCps mtu (str s) s
as_set mtu v s h =
    let g = (validate_cps_iff mtu v s).0 h in
    record {
      text = refl;
      not_empty = g.not_empty;
      size = g.size;
      packet = g.packet;
      bounded = g.bounded;
      below_mtu = g.below_mtu;
    }

packet_of-FitsMtu : (mtu : ℕ) (v : Value) → Ensures (FitsMtu mtu) (packet_of mtu v)
unfolding packet_of
packet_of-FitsMtu mtu null = ok-Ensures none tt
packet_of-FitsMtu mtu (bool b) = bind-Ensures _ _ λ s h. ok-Ensures (some s) (as_set mtu _ s h)
packet_of-FitsMtu mtu (int z) = bind-Ensures _ _ λ s h. ok-Ensures (some s) (as_set mtu _ s h)
packet_of-FitsMtu mtu (float x) = bind-Ensures _ _ λ s h. ok-Ensures (some s) (as_set mtu _ s h)
packet_of-FitsMtu mtu (str t) = bind-Ensures _ _ λ s h. ok-Ensures (some s) (as_set mtu _ s h)
packet_of-FitsMtu mtu (arr vs) = bind-Ensures _ _ λ s h. ok-Ensures (some s) (as_set mtu _ s h)
packet_of-FitsMtu mtu (obj fs) = bind-Ensures _ _ λ s h. ok-Ensures (some s) (as_set mtu _ s h)

read_packets-FitsMtu :
    (mtu : ℕ) (fields : List String) (d : Fields)
    → Ensures (λ ps. (length ps ≡ length fields) × All (FitsMtu mtu) ps) (read_packets mtu fields d)
unfolding read_packets
read_packets-FitsMtu mtu [] d = ok-Ensures [] (refl, tt)
read_packets-FitsMtu mtu (f ∷ fs) d = bind-Ensures _ _ λ v _. bind-Ensures _ _ λ p h.
    bind-Ensures _ _ λ ps hs.
      let (l, all_fit) = (read_packets-FitsMtu mtu fs d).on ps hs in
      ok-Ensures (p ∷ ps) (ap (λ n. suc n) l, ((packet_of-FitsMtu mtu v).on p h, all_fit))

-- I1 alone is set.
pub record OnlyFirst (mtu : ℕ) (ps : List (Option String)) : Type 0 where
  pub first : String
  pub only : ps ≡ some first ∷ none ∷ none ∷ none ∷ none ∷ []
  pub is_packet : IsCps mtu (str first) first

unset : ℕ → List (Option String)
unset zero = []
unset (suc n) = none ∷ unset n

all-unset :
    (n : ℕ) (ps : List (Option String)) → length ps ≡ n → all is_unset ps ≡ true → ps ≡ unset n
unfolding unset
all-unset zero [] l h = refl
all-unset zero (p ∷ ps) l h = absurd (omega arith)
all-unset (suc n) [] l h = absurd (omega arith)
all-unset (suc n) (none ∷ ps) l h = ap (λ xs. none ∷ xs) (all-unset n ps (omega arith) h)
all-unset (suc n) (some s ∷ ps) l h = cc

only_first :
    (mtu : ℕ) (ps : List (Option String))
    → length ps ≡ 5
    → All (FitsMtu mtu) ps
    → first_is_set ps ≡ true
    → others_are_unset ps ≡ true
    → OnlyFirst mtu ps
unfolding unset
only_first mtu [] l f h k = cc
only_first mtu (none ∷ ps) l f h k = cc
only_first mtu (some s ∷ ps) l f h k = record {
  first = s;
  only = ap (λ xs. some s ∷ xs) (all-unset 4 ps (omega arith) k);
  is_packet = f.0;
}

same_range-eq : (r q : Range) → same_range r q ≡ true → r ≡ q
same_range-eq (closed a b) (closed c d) h =
    let (k, l) = &&-eq-true (a == c) (b == d) h in
    ap (λ x. closed x b) ((==_iff a c).0 k) ∙ ap (λ x. closed c x) ((==_iff b d).0 l)
same_range-eq (scalar a) (scalar b) h = ap scalar ((==_iff a b).0 h)
same_range-eq (closed a b) (scalar c) h = cc
same_range-eq (scalar a) (closed c d) h = cc

same_ranges-eq : (rs qs : List Range) → same_ranges rs qs ≡ true → rs ≡ qs
same_ranges-eq [] [] h = refl
same_ranges-eq [] (q ∷ qs) h = cc
same_ranges-eq (r ∷ rs) [] h = cc
same_ranges-eq (r ∷ rs) (q ∷ qs) h =
    let (k, l) = &&-eq-true (same_range r q) (same_ranges rs qs) h in
    ap (λ x. x ∷ rs) (same_range-eq r q k) ∙ ap (λ xs. q ∷ xs) (same_ranges-eq rs qs l)

-- The headers are single values, counted from `n` up to 4.
abbrev pub Counts : ℕ → List Range → Type 0
Counts n [] = n ≡ 5
Counts n (r ∷ rs) = (lower_bound r ≡ n) × (upper_bound r ≡ n) × Counts (n + 1) rs

are_fixed-Counts : (n : ℕ) (rs : List Range) → are_fixed n rs ≡ true → Counts n rs
are_fixed-Counts n [] h = (==_iff n 5).0 h
are_fixed-Counts n (r ∷ rs) h =
    let (k, l) = &&-eq-true (lower_bound r == n && upper_bound r == n) _ h in
    let (lo, hi) = &&-eq-true (lower_bound r == n) (upper_bound r == n) k in
    (
      (==_iff (lower_bound r) n).0 lo,
      (==_iff (upper_bound r) n).0 hi,
      are_fixed-Counts (n + 1) rs l,
    )

-- What the policy asks of the values of a profile.
pub record IsPolicy (p : Awg31) : Type 0 where
  pub jc_within : (6 ≤ p.jc) × (p.jc ≤ 12)
  pub s1_within : (20 ≤ p.s1) × (p.s1 ≤ 120)
  pub s2_within : (20 ≤ p.s2) × (p.s2 ≤ 120)
  pub s3_within : (12 ≤ p.s3) × (p.s3 ≤ 60)
  pub s4_within : (12 ≤ p.s4) × (p.s4 ≤ 30)
  pub lengths_apart : p.s1 + 56 ≢ p.s2
  pub junk_fixed : (p.jmin ≡ 8) × (p.jmax ≡ 80)
  pub headers_fixed : Counts 1 p.headers
  pub ranges_fixed : p.ranges ≡ required_ranges
  pub trailers_off : p.random_trailers ≡ false
  pub cookies_disabled : p.disable_cookies ≡ true

within-le : (lo hi n : ℕ) → within lo hi n ≡ true → (lo ≤ n) × (n ≤ hi)
within-le lo hi n h =
    let (k, l) = &&-eq-true (leb lo n) (leb n hi) h in (leb→le lo n k, leb→le n hi l)

lengths_differ : (a b : ℕ) → (a + 56 == b) ≡ false → a + 56 ≢ b
lengths_differ a b h = ground arith

switches : (t c : Bool) → (t || not c) ≡ false → (t ≡ false) × (c ≡ true)
switches t c h = ground arith

enforce_policy-IsPolicy :
    (p : Awg31) → Ensures (λ _. IsPolicy p × (others_are_unset p.packets ≡ true)) (enforce_policy p)
unfolding enforce_policy
enforce_policy-IsPolicy p = bind-Ensures _ _ λ _ h1. bind-Ensures _ _ λ _ h2.
    bind-Ensures _ _ λ _ h3. bind-Ensures _ _ λ _ h4. bind-Ensures _ _ λ _ h5.
      bind-Ensures _ _ λ _ h6. record {
        on = λ _ h7.
            let (b4, w4) = &&-eq-true _ (within 12 30 p.s4) (require-eq-ok _ _ h2) in
            let (b3, w3) = &&-eq-true _ (within 12 60 p.s3) b4 in
            let (b2, w2) = &&-eq-true _ (within 20 120 p.s2) b3 in
            let (w0, w1) = &&-eq-true (within 6 12 p.jc) (within 20 120 p.s1) b2 in
            let (lo, hi) = &&-eq-true (p.jmin == 8) (p.jmax == 80) (require-eq-ok _ _ h4) in
            let (off, disabled) =
              switches p.random_trailers p.disable_cookies (raise_if-eq-ok _ _ h1) in
            (
              record {
                jc_within = within-le 6 12 p.jc w0;
                s1_within = within-le 20 120 p.s1 w1;
                s2_within = within-le 20 120 p.s2 w2;
                s3_within = within-le 12 60 p.s3 w3;
                s4_within = within-le 12 30 p.s4 w4;
                lengths_apart = lengths_differ p.s1 p.s2 (raise_if-eq-ok _ _ h3);
                junk_fixed = ((==_iff p.jmin 8).0 lo, (==_iff p.jmax 80).0 hi);
                headers_fixed = are_fixed-Counts 1 p.headers (require-eq-ok _ _ h5);
                ranges_fixed = same_ranges-eq p.ranges required_ranges (require-eq-ok _ _ h7);
                trailers_off = off;
                cookies_disabled = disabled;
              },
              require-eq-ok _ _ h6,
            );
      }

-- Whatever JSON value is accepted as a 3.1 profile keeps the policy of russia-ios-v1, its headers
-- are disjoint, and of its packets I1 alone is set, to a packet that fits the MTU.
pub awg31_profile-IsPolicy :
    (mtu : ℕ) (v : Value)
    → Ensures
        (λ p. IsPolicy p × AllDisjoint p.headers × OnlyFirst mtu p.packets)
        (awg31_profile mtu v)
unfolding awg31_profile
awg31_profile-IsPolicy mtu v = bind-Ensures _ _ λ d _. bind-Ensures _ _ λ jc _.
    bind-Ensures _ _ λ jmin _. bind-Ensures _ _ λ jmax _. bind-Ensures _ _ λ s1 _.
      bind-Ensures _ _ λ s2 _. bind-Ensures _ _ λ s3 _. bind-Ensures _ _ λ s4 _.
        bind-Ensures _ _ λ _ _. bind-Ensures _ _ λ headers h. bind-Ensures _ _ λ packets k.
          bind-Ensures _ _ λ _ first. bind-Ensures _ _ λ ranges _. bind-Ensures _ _ λ trailers _.
            bind-Ensures _ _ λ cookies _. bind-Ensures _ _ λ u policy.
              let (kept, others) = (enforce_policy-IsPolicy _).on u policy in
              let (l, fit) = (read_packets-FitsMtu mtu cps_fields d).on packets k in
              ok-Ensures _ (
                kept,
                ((validate_header_ranges-Ensures d).on headers h).1,
                only_first mtu packets l fit (require-eq-ok _ _ first) others,
              )
