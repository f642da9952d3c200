-- ===== src/Contracts/Texts.antt =====
-- `_optional_text` and `_optional_timestamp` of awgctl/contracts.py.
use Prim.Native.Char.{code}
use amneziawg_manager.Prelude.{
  ℕ, ◌≤◌, String, ◌≡◌, Bool, true, false, ◌||◌, ◌&&◌, Option, none, some, ltb, ◌==◌, length, codes,
  any, between, arith, if◌then◌else◌, Bool-cases, inl, inr,
}
use amneziawg_manager.Result.{
  Result, ok, raised, ◌>>=◌, ◌>>◌, raise_if, or_raise, Ensures, bind-Ensures, ok-Ensures,
  raise_if-eq-ok,
}
use amneziawg_manager.Value.{Value, null, bool, int, float, str, arr, obj}
use amneziawg_manager.Timestamp.{Iso, replace_z}

-- the characters that `str.strip` removes
abbrev pub is_space : ℕ → Bool
is_space c =
    between 9 13 c
    || between 28 32 c
    || c == 0x85
    || c == 0xa0
    || c == 0x1680
    || between 0x2000 0x200a c
    || c == 0x2028
    || c == 0x2029
    || c == 0x202f
    || c == 0x205f
    || c == 0x3000

abbrev pub is_empty : String → Bool
is_empty String.[] = true
is_empty (String.◌∷◌ c s) = false

strip_left : String → String
strip_left String.[] = String.[]
strip_left (String.◌∷◌ c s) =
    let rest = strip_left s in if is_space (code c) then rest else String.◌∷◌ c s

strip_right : String → String
strip_right String.[] = String.[]
strip_right (String.◌∷◌ c s) =
    let rest = strip_right s in
    if is_empty rest && is_space (code c) then String.[] else String.◌∷◌ c rest

-- `value.strip()`
unfoldable pub strip : String → String
unfolding strip_left strip_right
strip s = strip_right (strip_left s)

-- `ord(character) < 32 or ord(character) == 127`
abbrev pub is_control : ℕ → Bool
is_control c = ltb c 32 || c == 127

unfoldable pub printable_text : String → Result (Option String)
printable_text t = if is_empty t then ok none else (do
  raise_if (ltb 64 (length (codes t)) || any is_control (codes t))
      "must be 1-64 printable characters"
  ok (some t))

unfoldable pub optional_text : Value → Result (Option String)
optional_text null = ok none
optional_text (str s) = printable_text (strip s)
optional_text (bool b) = raised "must be text or null"
optional_text (int z) = raised "must be text or null"
optional_text (float x) = raised "must be text or null"
optional_text (arr vs) = raised "must be text or null"
optional_text (obj fs) = raised "must be text or null"

-- a timestamp with any timezone
unfoldable pub timestamp_of : Iso → Option String → Result (Option String)
timestamp_of iso none = ok none
timestamp_of iso (some s) = do
  stamp ← or_raise (iso (replace_z s)) "must be an ISO 8601 timestamp or null"
  offset ← or_raise stamp.utc_offset "must include a timezone"
  ok (some s)

unfoldable pub optional_timestamp : Iso → Value → Result (Option String)
optional_timestamp iso v = do t ← optional_text v; timestamp_of iso t

-- A text that is shown: at most 64 characters, none of them a control character.
pub record IsPrintable (s : String) : Type 0 where
  pub not_empty : is_empty s ≡ false
  pub short : length (codes s) ≤ 64
  pub clean : any is_control (codes s) ≡ false

abbrev pub IfSome : (String → Type 0) → Option String → Type 0
IfSome P none = Unit
IfSome P (some s) = P s

short_clean : (n : ℕ) (b : Bool) → (ltb 64 n || b) ≡ false → (n ≤ 64) × (b ≡ false)
short_clean n b h = (ground arith, ground arith)

printable_text-IsPrintable : (t : String) → Ensures (IfSome IsPrintable) (printable_text t)
unfolding printable_text
printable_text-IsPrintable t = elim (Bool-cases (is_empty t)) [
  | inl e ↦ rw e (ok-Ensures none tt)
  | inr e ↦ rw e (
      bind-Ensures _ _ λ _ h.
        let (short, clean) = short_clean (length (codes t)) _ (raise_if-eq-ok _ _ h) in
        ok-Ensures (some t) (record { not_empty = e; short = short; clean = clean }))
]

pub optional_text-IsPrintable : (v : Value) → Ensures (IfSome IsPrintable) (optional_text v)
unfolding optional_text
optional_text-IsPrintable null = ok-Ensures none tt
optional_text-IsPrintable (str s) = printable_text-IsPrintable (strip s)
optional_text-IsPrintable (bool b) = record { on = λ o h. cc }
optional_text-IsPrintable (int z) = record { on = λ o h. cc }
optional_text-IsPrintable (float x) = record { on = λ o h. cc }
optional_text-IsPrintable (arr vs) = record { on = λ o h. cc }
optional_text-IsPrintable (obj fs) = record { on = λ o h. cc }
