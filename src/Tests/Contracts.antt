-- ===== src/Tests/Contracts.antt =====
-- The metadata and the health report at concrete inputs.
use amneziawg_manager.Prelude.{some}
use amneziawg_manager.Prelude.Int.{pos}
use amneziawg_manager.Result.{Ensures}
use amneziawg_manager.Value.{Value, obj, field, end, str, int}
use amneziawg_manager.Contracts.Texts.{
  IfSome, IsPrintable, optional_text, optional_text-IsPrintable,
}
use amneziawg_manager.Contracts.Metadata.{normalize_client_metadata, mark_profile_regenerated}
use amneziawg_manager.Contracts.Metadata.Revisions.{
  IsMetadata, IsRead, IsRegenerated, normalize_client_metadata-IsMetadata,
  mark_profile_regenerated-IsRegenerated,
}
use amneziawg_manager.Tests.Host.{iso}

-- metadata of the first schema
abbrev legacy : Value
legacy = obj (
    field "schema_version" (int (pos 1))
      (field "name" (str "phone") (field "created_at" (str "2026-09-01T10:00:00Z") end)))

optional_text-IsPrintable_example : Ensures (IfSome IsPrintable) (optional_text (str "  phone "))
optional_text-IsPrintable_example = optional_text-IsPrintable (str "  phone ")

normalize_client_metadata-IsMetadata_example :
    Ensures (λ m. IsRead iso some legacy × IsMetadata m) (normalize_client_metadata iso some legacy)
normalize_client_metadata-IsMetadata_example = normalize_client_metadata-IsMetadata iso some legacy

mark_profile_regenerated-IsRegenerated_example :
    Ensures
      (IsRegenerated iso some legacy)
      (mark_profile_regenerated iso some "edited" "2026-09-02T10:00:00Z" legacy)
mark_profile_regenerated-IsRegenerated_example =
    mark_profile_regenerated-IsRegenerated iso some "edited" "2026-09-02T10:00:00Z" legacy
