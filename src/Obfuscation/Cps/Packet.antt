-- ===== src/Obfuscation/Cps/Packet.antt =====
-- Packets: the loop of `validate_cps` of awgctl/core.py against a sequence of tags.
use mathlib.Core.Path.{subst}
use amneziawg_manager.Prelude.{
  ℕ, zero, suc, ◌+◌, ◌/◌, ◌%◌, ◌≤◌, ◌<◌, String, ◌≡◌, ◌↔◌, refl, sym, ap, ◌∙◌, false, some, List,
  [], ◌∷◌, ◌++◌, ◌==◌, leb, leb→le, le→leb, not, ◌||◌, arith, length, codes,
}
use amneziawg_manager.Result.{
  ok, ◌>>=◌, Ensures, bind-Ensures, ok-Ensures, or_raise-eq-ok, require-eq-ok, raise_if-eq-ok,
}
use amneziawg_manager.Value.{Value, as_text}
use amneziawg_manager.Obfuscation.Cps.{
  Kind, bytes, timestamp, random, random_chars, random_digits, Tag, opening, decimal, is_empty,
  match_tag, contribution, scan, validate_cps,
}
use amneziawg_manager.Obfuscation.Cps.Tags.{IsTag, print, match_tag_sound, match_tag-print}

-- the number of bytes that a tag stands for: the hexadecimal pairs, a timestamp, random bytes
abbrev pub Renders : Kind → List ℕ → ℕ → Type 0
Renders bytes body n = (length body ≡ n + n) × (1 ≤ n) × (n ≤ 1000)
Renders timestamp body n = n ≡ 4
Renders random body n = (n ≡ decimal 0 body) × (n ≤ 1000)
Renders random_chars body n = (n ≡ decimal 0 body) × (n ≤ 1000)
Renders random_digits body n = (n ≡ decimal 0 body) × (n ≤ 1000)

-- A text that is a sequence of tags, and the number of bytes that they render together.
pub data Packet : List ℕ → ℕ → Type 0 where
  done : Packet [] 0
  next :
      (t : Tag) (rest : List ℕ) (n m : ℕ)
      → IsTag t
      → Renders t.kind t.body n
      → Packet rest m
      → Packet (print t rest) (n + m)

below : (n : ℕ) → leb 1001 n ≡ false → n ≤ 1000
below n h = ground arith

paired :
    (n : ℕ)
    → not (n % 2 == 0) ≡ false
    → (n / 2 == 0 || leb 1001 (n / 2)) ≡ false
    → (n ≡ n / 2 + n / 2) × (1 ≤ n / 2) × (n / 2 ≤ 1000)
paired n h g = (ground arith, ground arith, ground arith)

contribution-Renders : (k : Kind) (body : List ℕ) → Ensures (Renders k body) (contribution k body)
unfolding contribution
contribution-Renders bytes body = bind-Ensures _ _ λ _ h.
    bind-Ensures _ _
      λ _ g. ok-Ensures _ (paired (length body) (raise_if-eq-ok _ _ h) (raise_if-eq-ok _ _ g))
contribution-Renders timestamp body = ok-Ensures 4 refl
contribution-Renders random body =
    bind-Ensures _ _ λ _ h. ok-Ensures _ (refl, below (decimal 0 body) (raise_if-eq-ok _ _ h))
contribution-Renders random_chars body =
    bind-Ensures _ _ λ _ h. ok-Ensures _ (refl, below (decimal 0 body) (raise_if-eq-ok _ _ h))
contribution-Renders random_digits body =
    bind-Ensures _ _ λ _ h. ok-Ensures _ (refl, below (decimal 0 body) (raise_if-eq-ok _ _ h))

even : (l n : ℕ) → l ≡ n + n → not (l % 2 == 0) ≡ false
even l n e = ground arith

half : (l n : ℕ) → l ≡ n + n → l / 2 ≡ n
half l n e = omega arith

not_above : (n : ℕ) → n ≤ 1000 → leb 1001 n ≡ false
not_above n h = ground arith

in_pairs : (n : ℕ) → 1 ≤ n → n ≤ 1000 → (n == 0 || leb 1001 n) ≡ false
in_pairs n h k = ground arith

Renders-contribution :
    (k : Kind) (body : List ℕ) (n : ℕ) → Renders k body n → contribution k body ≡ ok n
unfolding contribution ◌>>=◌
Renders-contribution bytes body n (e, h, k) =
    rw (even (length body) n e) (rw (half (length body) n e) (rw (in_pairs n h k) refl))
Renders-contribution timestamp body n h = ap ok (sym h)
Renders-contribution random body n (e, h) = rw (sym e) (rw (not_above n h) refl)
Renders-contribution random_chars body n (e, h) = rw (sym e) (rw (not_above n h) refl)
Renders-contribution random_digits body n (e, h) = rw (sym e) (rw (not_above n h) refl)

-- What the loop has read when it returns `total`, from `size` on.
pub record Scanned (cs : List ℕ) (size total : ℕ) : Type 0 where
  pub more : ℕ
  pub packet : Packet cs more
  pub sum : total ≡ size + more
  pub bounded : total ≤ 1000

Scanned-more :
    (cs : List ℕ) (t : Tag) (rest : List ℕ) (size n total : ℕ)
    → match_tag cs ≡ some (t, rest)
    → Renders t.kind t.body n
    → Scanned rest (size + n) total
    → Scanned cs size total
Scanned-more cs t rest size n total e r s =
    let (is_tag, text) = match_tag_sound cs e in
    record {
      more = n + s.more;
      packet =
          subst (λ xs. Packet xs (n + s.more)) (sym text) (next t rest n s.more is_tag r s.packet);
      sum = omega arith;
      bounded = s.bounded;
    }

scan-Scanned :
    (fuel : ℕ) (cs : List ℕ) (size : ℕ)
    → size ≤ 1000
    → Ensures (Scanned cs size) (scan fuel cs size)
unfolding scan
scan-Scanned fuel [] size b =
    ok-Ensures size (record { more = 0; packet = done; sum = omega arith; bounded = b })
scan-Scanned zero (c ∷ cs) size b = record { on = λ t h. cc }
scan-Scanned (suc fuel) (c ∷ cs) size b = bind-Ensures _ _ λ m e. bind-Ensures _ _ λ n r.
    bind-Ensures _ _ λ _ k. record {
      on = λ total h.
          Scanned-more (c ∷ cs) m.0 m.1 size n total (or_raise-eq-ok _ _ e)
            ((contribution-Renders m.0.kind m.0.body).on n r)
            ((scan-Scanned fuel m.1 (size + n) (leb→le (size + n) 1000 (require-eq-ok _ _ k))).on
              total h);
    }

shorter : (xs r : List ℕ) → length r ≤ length (xs ++ r)
shorter [] r = omega arith
shorter (x ∷ xs) r = let h = shorter xs r in omega arith

rest_shorter : (t : Tag) (rest : List ℕ) → length rest < length (print t rest)
rest_shorter t rest =
    let h = shorter t.body (b'>' ∷ rest) in
    let g = shorter (opening t.kind) (t.body ++ (b'>' ∷ rest)) in omega arith

Packet-scan :
    (cs : List ℕ) (m fuel size : ℕ)
    → Packet cs m
    → length cs ≤ fuel
    → size + m ≤ 1000
    → scan fuel cs size ≡ ok (size + m)
unfolding scan ◌>>=◌
Packet-scan _ _ fuel size done f b = ap ok (omega arith)
Packet-scan _ _ zero size (next t rest n m g r p) f b = absurd (omega arith)
Packet-scan _ _ (suc fuel) size (next t rest n m g r p) f b =
    let step : length rest ≤ fuel = (let s = rest_shorter t rest in omega arith) in
    let later = Packet-scan rest m fuel (size + n) p step (omega arith) in
    rw (match_tag-print t rest g) (
      rw (Renders-contribution t.kind t.body n r)
        (rw (le→leb (size + n) 1000 (omega arith)) (later ∙ ap ok (omega arith))))

-- A value that is a custom packet specification for this MTU: a text that is not empty and is a
-- sequence of tags, which render at most 1000 bytes and fewer than the MTU.
pub record IsCps (mtu : ℕ) (v : Value) (s : String) : Type 0 where
  pub text : as_text v ≡ some s
  pub not_empty : 1 ≤ length (codes s)
  pub size : ℕ
  pub packet : Packet (codes s) size
  pub bounded : size ≤ 1000
  pub below_mtu : size < mtu

not_empty_of : (cs : List ℕ) → is_empty cs ≡ false → 1 ≤ length cs
not_empty_of [] h = cc
not_empty_of (c ∷ cs) h = omega arith

of_not_empty : (cs : List ℕ) → 1 ≤ length cs → is_empty cs ≡ false
of_not_empty [] h = absurd (omega arith)
of_not_empty (c ∷ cs) h = refl

under : (mtu n : ℕ) → leb mtu n ≡ false → n < mtu
under mtu n h = ground arith

not_over : (mtu n : ℕ) → n < mtu → leb mtu n ≡ false
not_over mtu n h = ground arith

validate_cps-IsCps : (mtu : ℕ) (v : Value) → Ensures (IsCps mtu v) (validate_cps mtu v)
unfolding validate_cps
validate_cps-IsCps mtu v = bind-Ensures _ _ λ s e. bind-Ensures _ _ λ _ h.
    bind-Ensures _ _ λ size k. bind-Ensures _ _ λ _ g.
      let found = (scan-Scanned (length (codes s)) (codes s) 0 (omega arith)).on size k in
      ok-Ensures s (record {
        text = or_raise-eq-ok _ _ e;
        not_empty = not_empty_of (codes s) (raise_if-eq-ok _ _ h);
        size = found.more;
        packet = found.packet;
        bounded = (let b = found.bounded in let c = found.sum in omega arith);
        below_mtu =
            (let b = under mtu size (raise_if-eq-ok _ _ g) in let c = found.sum in omega arith);
      })

IsCps-validate_cps : (mtu : ℕ) (v : Value) (s : String) → IsCps mtu v s → validate_cps mtu v ≡ ok s
unfolding validate_cps ◌>>=◌
IsCps-validate_cps mtu v s g =
    let scanned =
      Packet-scan (codes s) g.size (length (codes s)) 0 g.packet (omega arith)
        (let b = g.bounded in omega arith) in
    let total : scan (length (codes s)) (codes s) 0 ≡ ok g.size = scanned ∙ ap ok (omega arith) in
    rw g.text (
      rw (of_not_empty (codes s) g.not_empty)
        (rw total (rw (not_over mtu g.size g.below_mtu) refl)))

-- A value is accepted as a custom packet specification, and returned unchanged, exactly where it is
-- a text that is not empty and is a sequence of tags of the grammar, each with a whole number of
-- bytes, which render at most 1000 bytes together and fewer than the MTU.
pub validate_cps_iff :
    (mtu : ℕ) (v : Value) (s : String) → (validate_cps mtu v ≡ ok s) ↔ IsCps mtu v s
validate_cps_iff mtu v s = ((validate_cps-IsCps mtu v).on s, IsCps-validate_cps mtu v s)
