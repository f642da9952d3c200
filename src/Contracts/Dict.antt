-- ===== src/Contracts/Dict.antt =====
-- Updates of a `dict` and comparisons of JSON values, as awgctl/contracts.py uses them.
use amneziawg_manager.Prelude.{
  List, [], ◌∷◌, ap, arith, ℕ, String, ◌≡◌, refl, Bool, true, false, not, ◌||◌, Option, none, some,
  same, same_iff, ◌==◌, one_of, if◌then◌else◌, Bool-cases, inl, inr,
}
use amneziawg_manager.Prelude.Int.{pos, negsuc}
use amneziawg_manager.Value.{
  Value, Fields, null, bool, int, float, str, arr, obj, nil, item, end, field, get,
}

-- `d[k] = v`, which keeps the place of a key that is there
unfoldable pub put : String → Value → Fields → Fields
put k v end = field k v end
put k v (field j w fs) = let rest = put k v fs in if same j k then field j v fs else field j w rest

-- `d.get(k)`, where a missing key reads as `None`
abbrev pub or_null : Option Value → Value
or_null none = null
or_null (some v) = v

abbrev pub value_at : String → Fields → Value
value_at k d = or_null (get k d)

-- the bits of 1.0, 2.0 and 3.0
abbrev pub float_bits : ℕ → ℕ
float_bits n =
    if n == 1 then 0x3ff0000000000000 else if n == 2 then 0x4000000000000000 else 0x4008000000000000

-- `v == n` for a number from 1 to 3: `True == 1`, `1.0 == 1`
abbrev pub equals_number : ℕ → Value → Bool
equals_number n null = false
equals_number n (bool true) = 1 == n
equals_number n (bool false) = 0 == n
equals_number n (int (pos m)) = m == n
equals_number n (int (negsuc m)) = false
equals_number n (float bits) = bits == float_bits n
equals_number n (str s) = false
equals_number n (arr vs) = false
equals_number n (obj fs) = false

-- a value that can be looked up in a set; a list or a dict raises TypeError
abbrev pub is_hashable : Value → Bool
is_hashable (arr vs) = false
is_hashable (obj fs) = false
is_hashable _ = true

-- `v in {texts}`
abbrev pub is_among : List String → Value → Bool
is_among ts (str s) = one_of s ts
is_among ts _ = false

-- `v or other`: whether `v` is true
abbrev pub is_truthy : Value → Bool
is_truthy null = false
is_truthy (bool b) = b
is_truthy (int (pos n)) = not (n == 0)
is_truthy (int (negsuc n)) = true
is_truthy (float bits) = not (bits == 0 || bits == 0x8000000000000000)
is_truthy (str String.[]) = false
is_truthy (str (String.◌∷◌ c s)) = true
is_truthy (arr nil) = false
is_truthy (arr (item v vs)) = true
is_truthy (obj end) = false
is_truthy (obj (field k v fs)) = true

same_self : (k : String) → same k k ≡ true
same_self k = (same_iff k k).1 refl

pub get-put : (k : String) (v : Value) (d : Fields) → get k (put k v d) ≡ some v
unfolding put
get-put k v end = rw (same_self k) refl
get-put k v (field j w fs) = elim (Bool-cases (same j k)) [
  | inl e ↦ rw e (rw e refl)
  | inr e ↦ rw e (rw e (get-put k v fs))
]

-- Another key keeps its value.
pub get-put_other :
    (j k : String) (v : Value) (d : Fields) → same k j ≡ false → get j (put k v d) ≡ get j d
unfolding put
get-put_other j k v end e = rw e refl
get-put_other j k v (field i w fs) e = elim (Bool-cases (same i k)) [
  | inl h ↦ let f : same i j ≡ false = rw ((same_iff i k).0 h) e in rw h (rw f refl)
  | inr h ↦
      rw h (elim (Bool-cases (same i j)) [
        | inl g ↦ rw g refl
        | inr g ↦ rw g (get-put_other j k v fs e)
      ])
]

-- The value is the only text of a set that it is among.
pub among_one : (t : String) (v : Value) → is_among (t ∷ []) v ≡ true → v ≡ str t
among_one t null h = cc
among_one t (bool b) h = cc
among_one t (int z) h = cc
among_one t (float bits) h = cc
among_one t (str s) h = ap str ((same_iff s t).0 (ground arith))
among_one t (arr vs) h = cc
among_one t (obj fs) h = cc
