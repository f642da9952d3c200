-- ===== src/Service/Load.antt =====
-- Reading the service-operation intent: `load_service_operation_intent` of awgctl/core.py, and the
-- comparison of the stored intent with the expected one.
pub mod ReadBack
pub mod Expected
use amneziawg_manager.Prelude.{
  ℕ, String, ◌≡◌, refl, Bool, true, false, not, ◌&&◌, ◌||◌, Option, none, some, same, if◌then◌else◌,
}
use amneziawg_manager.Result.{Result, ok, raised, ◌>>=◌, ◌>>◌, require, raise_if}
use amneziawg_manager.Value.{Value, str, null}
use amneziawg_manager.Validate.{validate_transaction_id}
use amneziawg_manager.Timestamp.{Iso}
use amneziawg_manager.Service.Intent.{Phase, prepared, invoking, compensating, verified, Intent}
use amneziawg_manager.Service.Document.{
  text_or_null, phase_name, normalize_service_operation_intent,
}
use amneziawg_manager.Service.World.{Shared, Host}

read_document : Iso → Option Value → Result (Option Intent)
read_document iso none = ok none
read_document iso (some v) = do i ← normalize_service_operation_intent iso v; ok (some i)

missing_raises : Option Intent → Result Intent
missing_raises none = raised "service operation intent is missing"
missing_raises (some i) = ok i

module _ (h : Host) where
  open h use {State, iso, readable}

  -- `load_service_operation_intent(required=False)`
  unfoldable pub load_optional : Shared State → Result (Option Intent)
  unfolding read_document
  load_optional s = do readable s.outside; read_document iso s.document

  -- `load_service_operation_intent()`
  unfoldable pub load_required : Shared State → Result Intent
  unfolding missing_raises
  load_required s = do found ← load_optional s; missing_raises found

-- `current["phase"] == expected`
abbrev pub same_phase : Phase → Option Phase → Bool
same_phase p none = false
same_phase p (some q) = same (phase_name p) (phase_name q)

changed : Result (Unit {0})
changed = raised "service operation intent changed"

matches : Intent → Option String → Option Phase → Result (Unit {0})
unfolding changed
matches i id phase = do
  wanted ← validate_transaction_id (text_or_null id)
  if same i.operation_id wanted && same_phase i.phase phase then ok tt else changed

-- The comparison of a compare-and-swap: the stored intent against the expected ID and phase.
unfoldable pub expect_current : Option Intent → Option String → Option Phase → Result (Unit {0})
unfolding changed matches
expect_current none none none = ok tt
expect_current (some i) none none = changed
expect_current none _ _ = changed
expect_current (some i) id phase = matches i id phase
