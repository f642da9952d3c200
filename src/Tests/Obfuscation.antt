-- ===== src/Tests/Obfuscation.antt =====
-- The obfuscation profiles at concrete documents.
use amneziawg_manager.Prelude.{arith, ℕ, true, false, String, ◌≡◌, ◌↔◌, refl, List, [], ◌∷◌, All}
use amneziawg_manager.Prelude.Int.{pos}
use amneziawg_manager.Result.{Result, ok, Ensures, ◌>>=◌}
use amneziawg_manager.Value.{null, bool, str, Value, Fields, int, obj, field, end}
use amneziawg_manager.Obfuscation.Cps.{validate_cps}
use amneziawg_manager.Obfuscation.Cps.Packet.{IsCps, validate_cps_iff}
use amneziawg_manager.Obfuscation.Profile.{
  Profile, IsProfile, normalize_obfuscation, normalize_obfuscation-IsProfile,
}
use amneziawg_manager.Obfuscation.Range.{
  Range, scalar, IsWithin, normalize_closed_range, strict_integer,
}
use amneziawg_manager.Obfuscation.Headers.{
  header_maximum, header_fields, read_ranges, validate_header_ranges, AllDisjoint,
  validate_header_ranges-Ensures, validate_header_ranges_iff,
}
use amneziawg_manager.Obfuscation.Classic.{
  Classic, classic_document, classic_profile-classic_document, IsClassic, classic_profile,
  classic_profile-IsClassic,
}

abbrev headers : Fields
headers =
    field "H1" (int (pos 5))
      (field "H2" (int (pos 6)) (field "H3" (int (pos 7)) (field "H4" (int (pos 8)) end)))

abbrev profile : Value
profile = obj (
    field "Jc" (int (pos 4)) (
      field "Jmin" (int (pos 40)) (
        field "Jmax" (int (pos 70))
          (field "S1" (int (pos 20)) (field "S2" (int (pos 30)) headers)))))

abbrev ranges : List Range
ranges = scalar 5 ∷ scalar 6 ∷ scalar 7 ∷ scalar 8 ∷ []

headers_read : read_ranges header_maximum header_fields headers ≡ ok ranges
unfolding read_ranges normalize_closed_range strict_integer ◌>>=◌
headers_read = refl

validate_header_ranges-Ensures_example :
    Ensures
      (λ rs. All (IsWithin header_maximum) rs × AllDisjoint rs)
      (validate_header_ranges headers)
validate_header_ranges-Ensures_example = validate_header_ranges-Ensures headers

validate_header_ranges_iff_example :
    (validate_header_ranges headers ≡ ok ranges) ↔ AllDisjoint ranges
validate_header_ranges_iff_example = validate_header_ranges_iff headers ranges headers_read

classic_profile-IsClassic_example : Ensures IsClassic (classic_profile profile)
classic_profile-IsClassic_example = classic_profile-IsClassic profile

validate_cps_iff_example :
    (validate_cps 1280 (str "<b 0x0aFf><t><rd 16>") ≡ ok "<b 0x0aFf><t><rd 16>")
    ↔ IsCps 1280 (str "<b 0x0aFf><t><rd 16>") "<b 0x0aFf><t><rd 16>"
validate_cps_iff_example = validate_cps_iff 1280 (str "<b 0x0aFf><t><rd 16>") "<b 0x0aFf><t><rd 16>"

cps_run : Result String
cps_run = validate_cps 1280 (str "<b 0x0aFf><t><rd 16>")

cps_run_odd : Result String
cps_run_odd = validate_cps 1280 (str "<b 0x0aF>")

abbrev closed_value : ℕ → ℕ → Value
closed_value a b = obj (field "min" (int (pos a)) (field "max" (int (pos b)) end))

abbrev ios_parameters : Value
ios_parameters = obj (
    field "Jc" (int (pos 8)) (
      field "Jmin" (int (pos 8)) (
        field "Jmax" (int (pos 80)) (
          field "S1" (int (pos 30)) (
            field "S2" (int (pos 40)) (
              field "S3" (int (pos 20)) (
                field "S4" (int (pos 15)) (
                  field "H1" (int (pos 1)) (
                    field "H2" (int (pos 2)) (
                      field "H3" (int (pos 3)) (
                        field "H4" (int (pos 4)) (
                          field "I1" (str "<b 0x0aFf><t><rd 16>") (
                            field "I2" null (
                              field "I3" null (
                                field "I4" null (
                                  field "I5" null (
                                    field "ContentPaddingAddition" (closed_value 0 64) (
                                      field "RekeyAfterTime" (closed_value 105 135) (
                                        field "RekeyTimeout" (closed_value 4 7) (
                                          field "RejectAfterTime" (closed_value 165 195) (
                                            field "KeepaliveTimeout" (closed_value 8 12) (
                                              field "MaxHandshakeAttempts" (closed_value 15 21) (
                                                field "RandomTrailers" (bool false) (
                                                  field "DisableCookies" (bool true)
                                                    end))))))))))))))))))))))))

abbrev ios : Value
ios = obj (
    field "mode" (str "awg31") (
      field "profile"
        (obj (
          field "schema_version" (int (pos 1)) (
            field "name" (str "russia-ios-v1") (
              field "parameters" ios_parameters (
                field "header_protection_key_path"
                  (str "/opt/amneziawg/keys/server/header-protection") end)))))
        end))

ios_run : Result Profile
ios_run = normalize_obfuscation 1280 ios

normalize_obfuscation-IsProfile_example : Ensures (IsProfile 1280) (normalize_obfuscation 1280 ios)
normalize_obfuscation-IsProfile_example = normalize_obfuscation-IsProfile 1280 ios

abbrev plain : Classic
plain = record { jc = 4; jmin = 40; jmax = 70; s1 = 20; s2 = 30; h1 = 5; h2 = 6; h3 = 7; h4 = 8 }

plain-IsClassic : IsClassic plain
plain-IsClassic = record {
  junk_ordered = omega arith;
  junk_bounded = omega arith;
  headers_bounded = (omega arith, (omega arith, (omega arith, (omega arith, tt))));
  h1_apart = (λ e. omega arith, (λ e. omega arith, (λ e. omega arith, tt)));
  h2_apart = (λ e. omega arith, (λ e. omega arith, tt));
  h3_apart = λ e. omega arith;
  lengths_apart = λ e. omega arith;
}

classic_profile-classic_document_example : classic_profile (classic_document plain) ≡ ok plain
classic_profile-classic_document_example =
    classic_profile-classic_document plain
      (omega arith, omega arith, omega arith, omega arith, omega arith) plain-IsClassic
