-- ===== src/Timestamp.antt =====
-- Timestamps of the protected documents: `_transition_time` of awgctl/core.py.
-- `datetime.fromisoformat` is not modelled: it is the parameter `iso`, a function of the text.
use Prim.Native.Char.{code}
use amneziawg_manager.Prelude.{
  refl, ℕ, String, ◌≡◌, Bool, false, Option, none, some, leb, ◌==◌, length, codes, if◌then◌else◌,
}
use amneziawg_manager.Prelude.Int.{ℤ, pos, negsuc}
use amneziawg_manager.Result.{Result, ok, ◌>>=◌, ◌>>◌, require, or_raise}
use amneziawg_manager.Value.{Value, str, as_text}

-- A `datetime`: the instant in UTC, in microseconds, and `utcoffset()`, which a naive one lacks.
pub record Stamp : Type 0 where
  pub instant : ℕ
  pub utc_offset : Option ℤ

-- `datetime.fromisoformat`, `none` where it raises ValueError
abbrev pub Iso : Type 0
Iso = String → Option Stamp

-- `value.replace("Z", "+00:00")`
pub replace_z : String → String
replace_z String.[] = String.[]
replace_z (String.◌∷◌ c s) =
    let rest = replace_z s in
    if code c == b'Z'
    then String.◌∷◌ "+"
        (String.◌∷◌ "0" (String.◌∷◌ "0" (String.◌∷◌ ":" (String.◌∷◌ "0" (String.◌∷◌ "0" rest)))))
    else String.◌∷◌ c rest

-- `parsed.tzinfo is not None and parsed.utcoffset() == timedelta(0)`
abbrev is_utc : Option ℤ → Bool
is_utc none = false
is_utc (some (pos n)) = n == 0
is_utc (some (negsuc n)) = false

abbrev bounded_utc : String
bounded_utc = " must be one bounded UTC timestamp"

-- A text of a timestamp, to its instant.
unfoldable pub instant_of : Iso → String → Result ℕ
unfolding replace_z
instant_of iso s = do
  require (leb (length (codes s)) 32) bounded_utc
  stamp ← or_raise (iso (replace_z s)) bounded_utc
  require (is_utc stamp.utc_offset) bounded_utc
  ok stamp.instant

-- `_transition_time(value, field)`
unfoldable pub transition_time : Iso → Value → Result ℕ
transition_time iso v = do s ← or_raise (as_text v) bounded_utc; instant_of iso s

-- The instant that a text of a JSON document stands for.
pub transition_time-eq-ok :
    (iso : Iso) (v : Value) {s : String} {t : ℕ}
    → as_text v ≡ some s
    → transition_time iso v ≡ ok t
    → instant_of iso s ≡ ok t
unfolding transition_time ◌>>=◌
transition_time-eq-ok iso v e h = rw e at h

pub transition_time-str : (iso : Iso) (s : String) → transition_time iso (str s) ≡ instant_of iso s
unfolding transition_time ◌>>=◌
transition_time-str iso s = refl
