-- ===== src/Value.antt =====
-- The values that `json.loads` gives and the strict contracts of awgctl/core.py inspect.
-- `float` is a number written with a fraction or an exponent, by its bits: the contracts only ask
-- whether a value is one. A `dict` is its entries, in their order and with distinct keys.
use amneziawg_manager.Prelude.{
  ℕ, String, ◌≡◌, refl, Bool, true, false, ◌&&◌, Option, none, some, List, [], ◌∷◌, all, same,
  one_of, if◌then◌else◌,
}
use amneziawg_manager.Prelude.Int.{ℤ}
use amneziawg_manager.Result.{Result, ok, ◌>>=◌, ◌>>◌, require, or_raise}

mutual
  pub data Value : Type 0 where
    null : Value
    bool : Bool → Value
    int : ℤ → Value
    float : ℕ → Value
    str : String → Value
    arr : Items → Value
    obj : Fields → Value

  pub data Items : Type 0 where
    nil : Items
    item : Value → Items → Items

  pub data Fields : Type 0 where
    end : Fields
    field : String → Value → Fields → Fields

abbrev pub items_list : Items → List Value
items_list nil = []
items_list (item v vs) = v ∷ items_list vs

abbrev pub keys : Fields → List String
keys end = []
keys (field k v fs) = k ∷ keys fs

-- `d.get(k)`
abbrev pub get : String → Fields → Option Value
get k end = none
get k (field j v fs) = if same j k then some v else get k fs

-- `d[k]`
abbrev pub at : String → Fields → Result Value
at k fs = or_raise (get k fs) "KeyError"

-- `set(d) == expected`
abbrev pub has_exactly : List String → Fields → Bool
has_exactly expected fs =
    all (λ k. one_of k expected) (keys fs) && all (λ k. one_of k (keys fs)) expected

-- `isinstance(v, dict)`
abbrev pub as_dict : Value → Option Fields
as_dict (obj fs) = some fs
as_dict null = none
as_dict (bool _) = none
as_dict (int _) = none
as_dict (float _) = none
as_dict (str _) = none
as_dict (arr _) = none

-- `isinstance(v, list)`
abbrev pub as_list : Value → Option (List Value)
as_list (arr vs) = some (items_list vs)
as_list null = none
as_list (bool _) = none
as_list (int _) = none
as_list (float _) = none
as_list (str _) = none
as_list (obj _) = none

-- `isinstance(v, str)`
abbrev pub as_text : Value → Option String
as_text (str s) = some s
as_text null = none
as_text (bool _) = none
as_text (int _) = none
as_text (float _) = none
as_text (arr _) = none
as_text (obj _) = none

-- `isinstance(v, int) and not isinstance(v, bool)`
abbrev pub as_int : Value → Option ℤ
as_int (int z) = some z
as_int null = none
as_int (bool _) = none
as_int (float _) = none
as_int (str _) = none
as_int (arr _) = none
as_int (obj _) = none

-- `isinstance(v, bool)`
abbrev pub as_bool : Value → Option Bool
as_bool (bool b) = some b
as_bool null = none
as_bool (int _) = none
as_bool (float _) = none
as_bool (str _) = none
as_bool (arr _) = none
as_bool (obj _) = none

-- `v is None`
abbrev pub is_null : Value → Bool
is_null null = true
is_null (bool _) = false
is_null (int _) = false
is_null (float _) = false
is_null (str _) = false
is_null (arr _) = false
is_null (obj _) = false

-- a `dict` with exactly these keys, or the error
unfoldable pub dict_of : List String → Value → String → Result Fields
dict_of expected v e = do fs ← or_raise (as_dict v) e; require (has_exactly expected fs) e; ok fs

-- A `dict` that has the keys is read.
pub dict_of-obj :
    (expected : List String) (fs : Fields) (e : String)
    → has_exactly expected fs ≡ true
    → dict_of expected (obj fs) e ≡ ok fs
unfolding dict_of ◌>>=◌
dict_of-obj expected fs e h = rw h refl
