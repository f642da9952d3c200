-- ===== src/Obfuscation/Profile.antt =====
-- The obfuscation of a server's configuration: `_normalize_obfuscation` of awgctl/core.py.
use amneziawg_manager.Prelude.{ℕ, String, ◌&&◌, List, [], ◌∷◌, inl, inr, Bool-cases, if◌then◌else◌}
use amneziawg_manager.Result.{
  Result, ok, raised, ◌>>=◌, ◌>>◌, require, or_raise, Ensures, bind-Ensures, ok-Ensures,
}
use amneziawg_manager.Value.{Value, Fields, as_dict, get, at, has_exactly}
use amneziawg_manager.Obfuscation.Range.{reject_unknown_fields}
use amneziawg_manager.Obfuscation.Headers.{AllDisjoint}
use amneziawg_manager.Obfuscation.Classic.{
  Classic, classic_profile, IsClassic, classic_profile-IsClassic,
}
use amneziawg_manager.Obfuscation.Awg31.{Awg31, is_schema_one, is_text, awg31_profile}
use amneziawg_manager.Obfuscation.Awg31.Policy.{IsPolicy, OnlyFirst, awg31_profile-IsPolicy}

-- the result, by its mode
pub data Profile : Type 0 where
  classic : Classic → Profile
  awg31 : Awg31 → Profile

abbrev contract_fields : List String
contract_fields = "schema_version" ∷ "name" ∷ "parameters" ∷ []

classic_obfuscation : Fields → Result Profile
classic_obfuscation d = do
  profile ← or_raise (as_dict (← at "profile" d)) "obfuscation profile must be an object"
  reject_unknown_fields profile contract_fields "obfuscation profile has unexpected fields"
  require (has_exactly contract_fields profile) "invalid classic obfuscation profile contract"
  require
      (is_schema_one (get "schema_version" profile) && is_text "classic-v1" (get "name" profile))
      "unsupported classic obfuscation profile"
  c ← classic_profile (← at "parameters" profile)
  ok (classic c)

awg31_obfuscation : ℕ → Fields → Result Profile
awg31_obfuscation mtu d = do a ← awg31_profile mtu (← at "profile" d); ok (awg31 a)

by_mode : ℕ → Fields → Result Profile
unfolding classic_obfuscation awg31_obfuscation
by_mode mtu d =
    if is_text "classic" (get "mode" d)
    then classic_obfuscation d
    else if is_text "awg31" (get "mode" d)
    then awg31_obfuscation mtu d
    else raised "obfuscation mode must be classic or awg31"

unfoldable pub normalize_obfuscation : ℕ → Value → Result Profile
unfolding by_mode
normalize_obfuscation mtu value = do
  d ← or_raise (as_dict value) "obfuscation must be an object"
  reject_unknown_fields d ("mode" ∷ "profile" ∷ []) "obfuscation has unexpected fields"
  require (has_exactly ("mode" ∷ "profile" ∷ []) d) "obfuscation mode and profile are required"
  by_mode mtu d

-- What is accepted in each mode.
abbrev pub IsProfile : ℕ → Profile → Type 0
IsProfile mtu (classic c) = IsClassic c
IsProfile mtu (awg31 a) = IsPolicy a × AllDisjoint a.headers × OnlyFirst mtu a.packets

classic_obfuscation-IsProfile :
    (mtu : ℕ) (d : Fields) → Ensures (IsProfile mtu) (classic_obfuscation d)
unfolding classic_obfuscation
classic_obfuscation-IsProfile mtu d = bind-Ensures _ _ λ _ _. bind-Ensures _ _ λ _ _.
    bind-Ensures _ _ λ _ _. bind-Ensures _ _ λ _ _. bind-Ensures _ _ λ _ _.
      bind-Ensures _ _
        λ v _. bind-Ensures _ _ λ c h. ok-Ensures (classic c) ((classic_profile-IsClassic v).on c h)

awg31_obfuscation-IsProfile :
    (mtu : ℕ) (d : Fields) → Ensures (IsProfile mtu) (awg31_obfuscation mtu d)
unfolding awg31_obfuscation
awg31_obfuscation-IsProfile mtu d =
    bind-Ensures _ _
      λ v _. bind-Ensures _ _ λ a h. ok-Ensures (awg31 a) ((awg31_profile-IsPolicy mtu v).on a h)

by_mode-IsProfile : (mtu : ℕ) (d : Fields) → Ensures (IsProfile mtu) (by_mode mtu d)
unfolding by_mode
by_mode-IsProfile mtu d = elim (Bool-cases (is_text "classic" (get "mode" d))) [
  | inl e ↦ rw e (classic_obfuscation-IsProfile mtu d)
  | inr e ↦ rw e (elim (Bool-cases (is_text "awg31" (get "mode" d))) [
    | inl f ↦ rw f (awg31_obfuscation-IsProfile mtu d)
    | inr f ↦ rw f (record { on = λ p h. cc })
  ])
]

-- Whatever JSON value is accepted as the obfuscation of a server satisfies the rules of its mode:
-- the classic ones, or the policy of russia-ios-v1 with disjoint headers and I1 alone set.
pub normalize_obfuscation-IsProfile :
    (mtu : ℕ) (v : Value) → Ensures (IsProfile mtu) (normalize_obfuscation mtu v)
unfolding normalize_obfuscation
normalize_obfuscation-IsProfile mtu v =
    bind-Ensures _ _ λ d _. bind-Ensures _ _ λ _ _. bind-Ensures _ _ λ _ _. by_mode-IsProfile mtu d
