-- ===== src/Obfuscation/Cps.antt =====
-- The custom packet specifications I1 to I5: `validate_cps` of awgctl/core.py, on the characters of
-- the text. `_CPS_TAG` has five alternatives, none of which is a prefix of another.
pub mod Tags
pub mod Packet
use amneziawg_manager.Prelude.{
  ℕ, zero, suc, ◌+◌, ◌*◌, ◌-◌, ◌/◌, ◌%◌, ◌≤◌, ◌<◌, String, ◌≡◌, refl, Bool, true, false, ◌&&◌, ◌||◌,
  not, Option, none, some, List, [], ◌∷◌, ◌++◌, leb, ◌==◌, length, all, codes, is_digit, between,
  if◌then◌else◌,
}
use amneziawg_manager.Result.{Result, ok, raised, ◌>>=◌, ◌>>◌, require, raise_if, or_raise}
use amneziawg_manager.Value.{Value, as_text}

-- the alternatives of a tag
pub data Kind : Type 0 where
  bytes timestamp random random_chars random_digits : Kind

-- A tag that was matched: `body` is the group `bytes` or `size`.
pub record Tag : Type 0 where
  pub kind : Kind
  pub body : List ℕ

-- the text between `<` and the group
abbrev pub opening : Kind → List ℕ
opening bytes = b'b' ∷ b' ' ∷ b'0' ∷ b'x' ∷ []
opening timestamp = b't' ∷ []
opening random = b'r' ∷ b' ' ∷ []
opening random_chars = b'r' ∷ b'c' ∷ b' ' ∷ []
opening random_digits = b'r' ∷ b'd' ∷ b' ' ∷ []

-- `[0-9a-fA-F]`
abbrev is_hex_digit : ℕ → Bool
is_hex_digit c = is_digit c || between b'a' b'f' c || between b'A' b'F' c

-- the characters of the group
abbrev pub belongs : Kind → ℕ → Bool
belongs bytes c = is_hex_digit c
belongs timestamp c = false
belongs random c = is_digit c
belongs random_chars c = is_digit c
belongs random_digits c = is_digit c

-- `[1-9][0-9]{0,3}`, of digits
abbrev is_size : List ℕ → Bool
is_size [] = false
is_size (c ∷ cs) = not (c == b'0') && leb (length cs) 3

abbrev pub is_empty : List ℕ → Bool
is_empty [] = true
is_empty (c ∷ cs) = false

-- the number of characters of the group, and its first
abbrev pub fits : Kind → List ℕ → Bool
fits bytes body = not (is_empty body)
fits timestamp body = is_empty body
fits random body = is_size body
fits random_chars body = is_size body
fits random_digits body = is_size body

-- the text after a literal prefix
unfoldable pub after : List ℕ → List ℕ → Option (List ℕ)
after [] cs = some cs
after (p ∷ ps) [] = none
after (p ∷ ps) (c ∷ cs) = let rest = after ps cs in if p == c then rest else none

-- the longest beginning whose characters pass the test, and the text after it
unfoldable pub span : (ℕ → Bool) → List ℕ → List ℕ × List ℕ
span p [] = ([], [])
span p (c ∷ cs) = let (xs, rest) = span p cs in if p c then (c ∷ xs, rest) else ([], c ∷ cs)

-- the rest of a match, where there is one so far
abbrev given : {A B : Type 0} → Option A → (A → Option B) → Option B
given none f = none
given (some a) f = f a

abbrev or_else : {A : Type 0} → Option A → Option A → Option A
or_else (some a) other = some a
or_else none other = other

abbrev closed_by : Tag → Option (List ℕ) → Option (Tag × List ℕ)
closed_by t none = none
closed_by t (some rest) = some (t, rest)

abbrev pub grouped : Kind → List ℕ × List ℕ → Option (Tag × List ℕ)
grouped k (body, rest) =
    if fits k body
    then closed_by (record { kind = k; body = body }) (after (b'>' ∷ []) rest)
    else none

-- one alternative, on the text after `<`
unfoldable pub match_kind : Kind → List ℕ → Option (Tag × List ℕ)
match_kind k cs = given (after (opening k) cs) (λ rest. grouped k (span (belongs k) rest))

-- the first alternative that matches
unfoldable pub match_any : List Kind → List ℕ → Option (Tag × List ℕ)
match_any [] cs = none
match_any (k ∷ ks) cs = or_else (match_kind k cs) (match_any ks cs)

abbrev pub kinds : List Kind
kinds = bytes ∷ timestamp ∷ random ∷ random_chars ∷ random_digits ∷ []

-- `_CPS_TAG.match(value, position)`
unfoldable pub match_tag : List ℕ → Option (Tag × List ℕ)
match_tag cs = given (after (b'<' ∷ []) cs) (match_any kinds)

-- `int(text)` of digits, from the value so far
unfoldable pub decimal : ℕ → List ℕ → ℕ
decimal n [] = n
decimal n (c ∷ cs) = decimal (10 * n + (c - b'0')) cs

abbrev invalid_packet : String
invalid_packet = "invalid custom packet specification"

abbrev sized : ℕ → Result ℕ
sized n = do raise_if (leb 1001 n) invalid_packet; ok n

-- the bytes that a tag is rendered as
unfoldable pub contribution : Kind → List ℕ → Result ℕ
contribution bytes body = do
  raise_if (not (length body % 2 == 0)) invalid_packet
  raise_if (length body / 2 == 0 || leb 1001 (length body / 2)) invalid_packet
  ok (length body / 2)
contribution timestamp body = ok 4
contribution random body = sized (decimal 0 body)
contribution random_chars body = sized (decimal 0 body)
contribution random_digits body = sized (decimal 0 body)

-- the loop, on the text from `position` on, with its fuel
unfoldable pub scan : ℕ → List ℕ → ℕ → Result ℕ
scan fuel [] rendered_size = ok rendered_size
scan zero (c ∷ cs) rendered_size = raised "out of fuel"
scan (suc fuel) (c ∷ cs) rendered_size = do
  m ← or_raise (match_tag (c ∷ cs)) invalid_packet
  more ← contribution m.0.kind m.0.body
  require (leb (rendered_size + more) 1000) "custom packet specification exceeds size limit"
  scan fuel m.1 (rendered_size + more)

unfoldable pub validate_cps : ℕ → Value → Result String
validate_cps mtu v = do
  s ← or_raise (as_text v) invalid_packet
  raise_if (is_empty (codes s)) invalid_packet
  rendered_size ← scan (length (codes s)) (codes s) 0
  raise_if (leb mtu rendered_size) "custom packet specification exceeds configured MTU"
  ok s
