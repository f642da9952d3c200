-- ===== src/Contracts/Metadata.antt =====
-- The client metadata of awgctl/contracts.py: `normalize_client_metadata` and the profile revisions.
pub mod Revisions
use amneziawg_manager.Prelude.{
  ℕ, ◌+◌, String, Bool, true, false, not, ◌||◌, ◌&&◌, Option, none, some, List, [], ◌∷◌, same,
  if◌then◌else◌,
}
use amneziawg_manager.Prelude.Int.{ℤ, pos}
use amneziawg_manager.Result.{Result, ok, raised, ◌>>=◌, ◌>>◌, require, raise_if, or_raise}
use amneziawg_manager.Value.{
  Value, null, int, str, obj, Fields, field, end, as_dict, as_int, as_text, is_null,
}
use amneziawg_manager.Timestamp.{Iso}
use amneziawg_manager.Transition.Document.{positive}
use amneziawg_manager.Contracts.Dict.{
  put, value_at, equals_number, is_hashable, is_among, is_truthy,
}
use amneziawg_manager.Contracts.Texts.{optional_text, optional_timestamp}

-- `date.fromisoformat(text).isoformat()`, `none` where it raises ValueError
abbrev pub Dates : Type 0
Dates = String → Option String

-- `d.update(entries)`
abbrev pub update : Fields → Fields → Fields
update end d = d
update (field k v entries) d = update entries (put k v d)

abbrev first_schema : Fields
first_schema =
    field "management" (str "managed")
      (field "owner" null (field "device" null (field "expires" null end)))

-- `result.get("updated_at") or result.get("created_at")`
abbrev generated_value : Fields → Value
generated_value d =
    if is_truthy (value_at "updated_at" d) then value_at "updated_at" d else value_at "created_at" d

abbrev pub third_schema : Value → Fields
third_schema generated = field "schema_version" (int (pos 3)) (
    field "profile_revision" (int (pos 1)) (
      field "profile_generated_at" generated (
        field "profile_change_reason" (str "legacy-import")
          (field "distribution_status" (str "unknown") (field "distributed_at" null end)))))

-- the fields that schema 1 lacks
abbrev widened : Value → Fields → Fields
widened schema d = if equals_number 1 schema then update first_schema d else d

unfoldable pub third : Value → Fields → Result Fields
third schema read =
    if equals_number 1 schema || equals_number 2 schema
    then ok (update (third_schema (generated_value read)) read)
    else (do require (equals_number 3 schema) "unsupported client metadata schema"; ok read)

-- schemas 1 and 2 become schema 3
unfoldable pub migrate : Fields → Result Fields
migrate d = do
  let schema = value_at "schema_version" d
  let read = widened schema d
  require (is_hashable schema) "unhashable type"
  third schema read

abbrev pub text_or_none : Option String → Value
text_or_none none = null
text_or_none (some s) = str s

unfoldable pub check_expires : Dates → Value → Result (Unit {0})
check_expires dates v = if is_null v then ok tt else (do
  s ← or_raise (as_text v) "expires must be YYYY-MM-DD or null"
  date ← or_raise (dates s) "expires must be YYYY-MM-DD or null"
  require (same date s) "expires must be YYYY-MM-DD or null")

unfoldable pub positive_integer : Value → Result ℕ
positive_integer v = do
  z ← or_raise (as_int v) "profile_revision must be a positive integer"
  or_raise (positive z) "profile_revision must be a positive integer"

abbrev pub revision_of : Fields → Result ℕ
revision_of d = positive_integer (value_at "profile_revision" d)

-- the texts that a check writes back
abbrev pub checked :
    Fields → Option String → Option String → String → String → Option String → Fields
checked d owner device generated_at change_reason distributed =
    put "distributed_at" (text_or_none distributed) (
      put "profile_change_reason" (str change_reason) (
        put "profile_generated_at" (str generated_at)
          (put "device" (text_or_none device) (put "owner" (text_or_none owner) d))))

-- The distribution status, and the time of the distribution that goes with it alone.
unfoldable pub distribution_fits : Value → Option String → Result (Unit {0})
distribution_fits status none =
    require (not (is_among ("distributed" ∷ []) status))
      "distributed_at is required when distribution_status is distributed"
distribution_fits status (some t) =
    require (is_among ("distributed" ∷ []) status)
      "distributed_at must be null unless distribution_status is distributed"

module _ (iso : Iso) (dates : Dates) where
  -- the fields of schema 3
  unfoldable pub check_metadata : Fields → Result Fields
  check_metadata d = do
    require (is_among ("managed" ∷ "external" ∷ []) (value_at "management" d))
        "client management must be managed or external"
    owner ← optional_text (value_at "owner" d)
    device ← optional_text (value_at "device" d)
    check_expires dates (value_at "expires" d)
    revision ← revision_of d
    generated ← optional_timestamp iso (value_at "profile_generated_at" d)
    generated_at ← or_raise generated "profile_generated_at must be an ISO 8601 timestamp"
    reason ← optional_text (value_at "profile_change_reason" d)
    change_reason ← or_raise reason "profile_change_reason is required"
    require
        (is_among ("unknown" ∷ "pending" ∷ "distributed" ∷ []) (value_at "distribution_status" d))
        "distribution_status must be unknown, pending, or distributed"
    distributed ← optional_timestamp iso (value_at "distributed_at" d)
    distribution_fits (value_at "distribution_status" d) distributed
    ok (checked d owner device generated_at change_reason distributed)

  unfoldable pub normalize_client_metadata : Value → Result Fields
  normalize_client_metadata metadata = do
    d ← or_raise (as_dict metadata) "client metadata must be an object"
    migrated ← migrate d
    check_metadata migrated

  -- the entries of a profile that has been generated again
  abbrev pub regenerated : ℕ → String → String → Fields
  regenerated revision reason timestamp = field "schema_version" (int (pos 3)) (
      field "profile_revision" (int (pos (revision + 1))) (
        field "profile_generated_at" (str timestamp) (
          field "profile_change_reason" (str reason) (
            field "distribution_status" (str "pending")
              (field "distributed_at" null (field "updated_at" (str timestamp) end))))))

  unfoldable pub mark_profile_regenerated : String → String → Value → Result Fields
  mark_profile_regenerated reason timestamp metadata = do
    result ← normalize_client_metadata metadata
    revision ← revision_of result
    normalize_client_metadata (obj (update (regenerated revision reason timestamp) result))

  -- the entries that a replacement takes from the prior recipient
  abbrev pub rotated : Fields → ℕ → String → Fields
  rotated old revision timestamp = field "owner" (value_at "owner" old) (
      field "device" (value_at "device" old) (
        field "expires" (value_at "expires" old) (
          field "profile_revision" (int (pos (revision + 1))) (
            field "profile_generated_at" (str timestamp) (
              field "profile_change_reason" (str "rotated") (
                field "distribution_status" (str "pending")
                  (field "distributed_at" null (field "updated_at" (str timestamp) end))))))))

  unfoldable pub mark_profile_rotated : String → Value → Value → Result Fields
  mark_profile_rotated timestamp previous replacement = do
    old ← normalize_client_metadata previous
    result ← normalize_client_metadata replacement
    revision ← revision_of old
    normalize_client_metadata (obj (update (rotated old revision timestamp) result))
