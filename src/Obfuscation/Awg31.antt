-- ===== src/Obfuscation/Awg31.antt =====
-- The AWG 3.1 profile: `_normalize_awg31_profile` of awgctl/core.py.
pub mod Policy
use amneziawg_manager.Prelude.{
  ℕ, ◌+◌, ◌≤◌, String, ◌≡◌, ◌≢◌, refl, Bool, true, false, not, ◌&&◌, ◌||◌, Option, none, some, List,
  [], ◌∷◌, ◌++◌, ltb, leb, ◌==◌, same, all, any, arith, length,
}
use amneziawg_manager.Prelude.Int.{pos}
use amneziawg_manager.Result.{Result, ok, raised, ◌>>=◌, ◌>>◌, raise_if, require, or_raise}
use amneziawg_manager.Value.{
  Value, null, bool, int, float, str, arr, obj, Fields, as_dict, as_bool, get, at, has_exactly,
}
use amneziawg_manager.Obfuscation.Range.{
  Range, scalar, closed, lower_bound, upper_bound, strict_integer, reject_unknown_fields,
  normalize_closed_range,
}
use amneziawg_manager.Obfuscation.Headers.{header_fields, validate_header_ranges, read_ranges}
use amneziawg_manager.Obfuscation.Cps.{validate_cps}

-- AWG31_INTEGER_FIELDS, AWG31_CPS_FIELDS, AWG31_RANGE_FIELDS and AWG31_BOOLEAN_FIELDS
abbrev pub integer_fields : List String
integer_fields = "Jc" ∷ "Jmin" ∷ "Jmax" ∷ "S1" ∷ "S2" ∷ "S3" ∷ "S4" ∷ []

abbrev pub cps_fields : List String
cps_fields = "I1" ∷ "I2" ∷ "I3" ∷ "I4" ∷ "I5" ∷ []

abbrev pub range_fields : List String
range_fields =
    "ContentPaddingAddition" ∷ "RekeyAfterTime" ∷ "RekeyTimeout" ∷ "RejectAfterTime"
    ∷ "KeepaliveTimeout" ∷ "MaxHandshakeAttempts" ∷ []

abbrev pub boolean_fields : List String
boolean_fields = "RandomTrailers" ∷ "DisableCookies" ∷ []

-- AWG31_PARAMETER_FIELDS
abbrev pub parameter_fields : List String
parameter_fields =
    integer_fields ++ (header_fields ++ (cps_fields ++ (range_fields ++ boolean_fields)))

abbrev profile_fields : List String
profile_fields = "schema_version" ∷ "name" ∷ "parameters" ∷ "header_protection_key_path" ∷ []

-- HEADER_PROTECTION_KEY
abbrev pub header_protection_key : String
header_protection_key = "/opt/amneziawg/keys/server/header-protection"

-- the `parameters` of the profile; `headers`, `packets` and `ranges` in the order of their fields
pub record Awg31 : Type 0 where
  pub jc : ℕ
  pub jmin : ℕ
  pub jmax : ℕ
  pub s1 : ℕ
  pub s2 : ℕ
  pub s3 : ℕ
  pub s4 : ℕ
  pub headers : List Range
  pub packets : List (Option String)
  pub ranges : List Range
  pub random_trailers : Bool
  pub disable_cookies : Bool

-- `isinstance(v, int) and not isinstance(v, bool) and v == 1`
abbrev pub is_schema_one : Option Value → Bool
is_schema_one (some (int (pos n))) = n == 1
is_schema_one _ = false

-- `v == text`
abbrev pub is_text : String → Option Value → Bool
is_text text (some (str s)) = same s text
is_text text _ = false

abbrev word_maximum : ℕ
word_maximum = 0xffff

integer_at : Fields → String → Result ℕ
integer_at d f = do v ← at f d; strict_integer word_maximum v

switch_at : Fields → String → Result Bool
switch_at d f = do v ← at f d; or_raise (as_bool v) "invalid obfuscation switch"

-- `None if value is None else validate_cps(value, …)`
unfoldable pub packet_of : ℕ → Value → Result (Option String)
packet_of mtu null = ok none
packet_of mtu (bool b) = do s ← validate_cps mtu (bool b); ok (some s)
packet_of mtu (int z) = do s ← validate_cps mtu (int z); ok (some s)
packet_of mtu (float x) = do s ← validate_cps mtu (float x); ok (some s)
packet_of mtu (str t) = do s ← validate_cps mtu (str t); ok (some s)
packet_of mtu (arr vs) = do s ← validate_cps mtu (arr vs); ok (some s)
packet_of mtu (obj fs) = do s ← validate_cps mtu (obj fs); ok (some s)

unfoldable pub read_packets : ℕ → List String → Fields → Result (List (Option String))
read_packets mtu [] d = ok []
read_packets mtu (f ∷ fs) d = do
  packet ← packet_of mtu (← at f d)
  packets ← read_packets mtu fs d
  ok (packet ∷ packets)

-- the contract of the profile object, and its parameters
awg31_parameters : Value → Result Fields
awg31_parameters profile = do
  p ← or_raise (as_dict profile) "obfuscation profile must be an object"
  reject_unknown_fields p profile_fields "obfuscation profile has unexpected fields"
  require (has_exactly profile_fields p && is_schema_one (get "schema_version" p))
      "invalid AWG 3.1 obfuscation profile contract"
  require (is_text "russia-ios-v1" (get "name" p)) "unsupported AWG 3.1 obfuscation profile"
  require (is_text header_protection_key (get "header_protection_key_path" p))
      "AWG 3.1 header-protection key path is outside the protected layout"
  d ← or_raise (as_dict (← at "parameters" p)) "AWG 3.1 obfuscation parameters must be an object"
  reject_unknown_fields d parameter_fields "AWG 3.1 parameters has unexpected fields"
  require (has_exactly parameter_fields d) "AWG 3.1 obfuscation fields are incomplete"
  ok d

-- `result[field] is None`
abbrev pub is_unset : Option String → Bool
is_unset none = true
is_unset (some s) = false

-- I1 is set, and I2 to I5 are not.
abbrev pub first_is_set : List (Option String) → Bool
first_is_set [] = false
first_is_set (p ∷ ps) = not (is_unset p)

abbrev pub others_are_unset : List (Option String) → Bool
others_are_unset [] = true
others_are_unset (p ∷ ps) = all is_unset ps

-- `required_bounds`
abbrev pub within : ℕ → ℕ → ℕ → Bool
within lower upper n = leb lower n && leb n upper

abbrev pub randomized_within : Awg31 → Bool
randomized_within p =
    within 6 12 p.jc
    && within 20 120 p.s1
    && within 20 120 p.s2
    && within 12 60 p.s3
    && within 12 30 p.s4

-- the bounds of the headers, against `[(1, 1), (2, 2), (3, 3), (4, 4)]` from `n` on
abbrev pub are_fixed : ℕ → List Range → Bool
are_fixed n [] = n == 5
are_fixed n (r ∷ rs) = lower_bound r == n && upper_bound r == n && are_fixed (n + 1) rs

-- `required_ranges`, in the order of their fields
abbrev pub required_ranges : List Range
required_ranges =
    closed 0 64 ∷ closed 105 135 ∷ closed 4 7 ∷ closed 165 195 ∷ closed 8 12 ∷ closed 15 21 ∷ []

abbrev pub same_range : Range → Range → Bool
same_range (closed a b) (closed c d) = a == c && b == d
same_range (scalar a) (scalar b) = a == b
same_range _ _ = false

abbrev pub same_ranges : List Range → List Range → Bool
same_ranges [] [] = true
same_ranges (r ∷ rs) (q ∷ qs) = same_range r q && same_ranges rs qs
same_ranges _ _ = false

-- the policy of russia-ios-v1 on the values that were read
unfoldable pub enforce_policy : Awg31 → Result (Unit {0})
enforce_policy p = do
  raise_if (p.random_trailers || not p.disable_cookies)
      "russia-ios-v1 requires trailers off and cookies disabled"
  require (randomized_within p) "russia-ios-v1 randomized value is outside its profile bounds"
  raise_if (p.s1 + 56 == p.s2) "classic handshake packet lengths are ambiguous"
  require (p.jmin == 8 && p.jmax == 80) "russia-ios-v1 requires fixed junk-size bounds"
  require (are_fixed 1 p.headers) "russia-ios-v1 requires fixed header values"
  require (others_are_unset p.packets) "russia-ios-v1 leaves I2-I5 unset"
  require (same_ranges p.ranges required_ranges)
      "russia-ios-v1 timing or padding range differs from policy"

unfoldable pub awg31_profile : ℕ → Value → Result Awg31
unfolding integer_at switch_at awg31_parameters
awg31_profile mtu profile = do
  d ← awg31_parameters profile
  jc ← integer_at d "Jc"
  jmin ← integer_at d "Jmin"
  jmax ← integer_at d "Jmax"
  s1 ← integer_at d "S1"
  s2 ← integer_at d "S2"
  s3 ← integer_at d "S3"
  s4 ← integer_at d "S4"
  raise_if (ltb jmax jmin) "Jmin must not exceed Jmax"
  headers ← validate_header_ranges d
  packets ← read_packets mtu cps_fields d
  require (first_is_set packets) "russia-ios-v1 requires nonempty I1"
  ranges ← read_ranges word_maximum range_fields d
  random_trailers ← switch_at d "RandomTrailers"
  disable_cookies ← switch_at d "DisableCookies"
  let result : Awg31 = record {
    jc = jc;
    jmin = jmin;
    jmax = jmax;
    s1 = s1;
    s2 = s2;
    s3 = s3;
    s4 = s4;
    headers = headers;
    packets = packets;
    ranges = ranges;
    random_trailers = random_trailers;
    disable_cookies = disable_cookies;
  }
  enforce_policy result
  ok result
