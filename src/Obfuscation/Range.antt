-- ===== src/Obfuscation/Range.antt =====
-- The integers and inclusive ranges of an obfuscation profile: `_strict_integer`,
-- `normalize_closed_range` and `_range_bounds` of awgctl/core.py.
use amneziawg_manager.Prelude.{ℕ, ◌≤◌, String, List, [], ◌∷◌, ltb, arith, all, one_of}
use amneziawg_manager.Prelude.Int.{in_range, in_range_bounds}
use amneziawg_manager.Result.{
  Result, ok, ◌>>=◌, ◌>>◌, raise_if, require, or_raise, Ensures, bind-Ensures, ok-Ensures,
  raise_if-eq-ok, or_raise-eq-ok,
}
use amneziawg_manager.Value.{
  Value, null, bool, int, float, str, arr, obj, Fields, as_dict, as_int, keys, at, has_exactly,
}

-- a scalar, or an inclusive range
pub data Range : Type 0 where
  scalar : ℕ → Range
  closed : ℕ → ℕ → Range

-- `_strict_integer` with its minimum 0; the field that it names is left out of the message
unfoldable pub strict_integer : ℕ → Value → Result ℕ
strict_integer maximum v = do
  z ← or_raise (as_int v) "invalid obfuscation value"
  or_raise (in_range 0 maximum z) "invalid obfuscation value"

-- `_reject_unknown_fields`
unfoldable pub reject_unknown_fields : Fields → List String → String → Result (Unit {0})
reject_unknown_fields d allowed e = require (all (λ k. one_of k allowed) (keys d)) e

closed_range : ℕ → Value → Result Range
closed_range maximum v = do
  d ← or_raise (as_dict v) "invalid obfuscation range"
  reject_unknown_fields d ("min" ∷ "max" ∷ []) "obfuscation range has unexpected fields"
  require (has_exactly ("min" ∷ "max" ∷ []) d) "invalid obfuscation range"
  lower ← strict_integer maximum (← at "min" d)
  upper ← strict_integer maximum (← at "max" d)
  raise_if (ltb upper lower) "invalid obfuscation range"
  ok (closed lower upper)

unfoldable pub normalize_closed_range : ℕ → Value → Result Range
unfolding closed_range
normalize_closed_range maximum (int z) = do n ← strict_integer maximum (int z); ok (scalar n)
normalize_closed_range maximum null = closed_range maximum null
normalize_closed_range maximum (bool b) = closed_range maximum (bool b)
normalize_closed_range maximum (float x) = closed_range maximum (float x)
normalize_closed_range maximum (str s) = closed_range maximum (str s)
normalize_closed_range maximum (arr vs) = closed_range maximum (arr vs)
normalize_closed_range maximum (obj fs) = closed_range maximum (obj fs)

-- `_range_bounds`
abbrev pub lower_bound : Range → ℕ
lower_bound (scalar n) = n
lower_bound (closed lo hi) = lo

abbrev pub upper_bound : Range → ℕ
upper_bound (scalar n) = n
upper_bound (closed lo hi) = hi

-- A range that is not empty and stays below the field's maximum.
pub record IsWithin (maximum : ℕ) (r : Range) : Type 0 where
  pub not_empty : lower_bound r ≤ upper_bound r
  pub bounded : upper_bound r ≤ maximum

pub strict_integer-Ensures :
    (maximum : ℕ) (v : Value) → Ensures (λ n. n ≤ maximum) (strict_integer maximum v)
unfolding strict_integer
strict_integer-Ensures maximum v =
    bind-Ensures _ _
      λ z _. record { on = λ n h. (in_range_bounds 0 maximum z (or_raise-eq-ok _ _ h)).1 }

closed_range-Ensures :
    (maximum : ℕ) (v : Value) → Ensures (IsWithin maximum) (closed_range maximum v)
unfolding closed_range
closed_range-Ensures maximum v = bind-Ensures _ _ λ d _. bind-Ensures _ _ λ _ _.
    bind-Ensures _ _ λ _ _. bind-Ensures _ _ λ lower_value _. bind-Ensures _ _ λ lower h_lower.
      bind-Ensures _ _ λ upper_value _. bind-Ensures _ _ λ upper h_upper.
        bind-Ensures _ _ λ _ h_order.
          let order = raise_if-eq-ok (ltb upper lower) _ h_order in
          ok-Ensures _ (record {
            not_empty = ground arith;
            bounded = (strict_integer-Ensures maximum upper_value).on upper h_upper;
          })

pub normalize_closed_range-Ensures :
    (maximum : ℕ) (v : Value) → Ensures (IsWithin maximum) (normalize_closed_range maximum v)
unfolding normalize_closed_range
normalize_closed_range-Ensures maximum (int z) = bind-Ensures _ _ λ n h.
    let bound = (strict_integer-Ensures maximum (int z)).on n h in
    ok-Ensures _ (record { not_empty = omega arith; bounded = bound })
normalize_closed_range-Ensures maximum v = closed_range-Ensures maximum v
