-- ===== src/Releases/Manifest.antt =====
-- `parse_manifest` of awgctl/releases.py, on the JSON value of a manifest. A `ReleaseError` is a raise.
use Prim.Native.String.{◌++◌ as append}
use amneziawg_manager.Prelude.{
  ℕ, ◌*◌, ◌≤◌, ◌≡◌, ap, ◌∙◌, sym, String, true, Option, none, some, [], ◌∷◌, same, same_iff, one_of,
  if◌then◌else◌,
}
use amneziawg_manager.Prelude.Int.{in_range, in_range_bounds}
use amneziawg_manager.Result.{
  Result, ok, ◌>>=◌, ◌>>◌, require, or_raise, Ensures, bind-Ensures, ok-Ensures, require-eq-ok,
  or_raise-eq-ok,
}
use amneziawg_manager.Value.{Value, str, as_text, as_int, at, dict_of}
use amneziawg_manager.Validate.{is_sha256, text_where, text_where-Ensures}
use amneziawg_manager.Contracts.Dict.{equals_number}
use amneziawg_manager.Releases.Semver.{Key, precedence_key}

pub record Artifact : Type 0 where
  pub sha256 : String
  pub size : ℕ

pub record Manifest : Type 0 where
  pub version : String
  pub tag : String
  pub channel : String
  pub platform : String
  pub artifact : Artifact

abbrev pub version_channel : Key → String
version_channel k = if k.final then "stable" else "beta"

abbrev pub equal_to : String → Value → String → Result String
equal_to expected v e = text_where (λ s. same s expected) v e

unfoldable pub read_artifact : Value → Result Artifact
read_artifact v = do
  d ←
      dict_of ("name" ∷ "sha256" ∷ "size" ∷ []) v
        "release artifact fields are incomplete or unexpected"
  name ← equal_to "awgctl.pyz" (← at "name" d) "unexpected release artifact name"
  digest ← text_where is_sha256 (← at "sha256" d) "invalid release artifact SHA-256"
  z ← or_raise (as_int (← at "size" d)) "invalid release artifact size"
  size ← or_raise (in_range 1 (16 * 1024 * 1024) z) "invalid release artifact size"
  ok (record { sha256 = digest; size = size })

-- the test against the channel that the caller asks for
unfoldable pub check_channel : Option String → String → Result (Unit {0})
check_channel none channel = ok tt
check_channel (some expected) channel = do
  require (one_of expected ("beta" ∷ "stable" ∷ [])) "unsupported update channel"
  require (same channel expected) "signed release channel does not match requested channel"

unfoldable pub parse_manifest : String → Option String → Value → Result Manifest
parse_manifest expected_platform expected_channel value = do
  d ←
      dict_of
        ("schema_version" ∷ "version" ∷ "tag" ∷ "channel" ∷ "platform"
          ∷ "installation_schema_version" ∷ "artifact" ∷ [])
        value "release manifest fields are incomplete or unexpected"
  version_value ← at "version" d
  key ← precedence_key version_value
  version ← or_raise (as_text version_value) "version must be a string"
  require (equals_number 1 (← at "schema_version" d))
      "unsupported release manifest schema or version"
  tag ← equal_to (append "v" version) (← at "tag" d) "release tag and version do not match"
  channel ←
      text_where (λ s. one_of s ("beta" ∷ "stable" ∷ [])) (← at "channel" d)
        "unsupported release channel"
  require (same channel (version_channel key))
      "release channel does not match tag prerelease semantics"
  check_channel expected_channel channel
  platform ← equal_to expected_platform (← at "platform" d) "release platform mismatch"
  require (equals_number 1 (← at "installation_schema_version" d))
      "unsupported installation settings schema"
  artifact ← read_artifact (← at "artifact" d)
  ok (record {
    version = version;
    tag = tag;
    channel = channel;
    platform = platform;
    artifact = artifact;
  })

-- A manifest for this platform and channel: its tag and channel follow from its version.
pub record IsManifest (platform : String) (channel : Option String) (m : Manifest) : Type 0 where
  pub key : Key
  pub version_fits : precedence_key (str m.version) ≡ ok key
  pub tag_fits : m.tag ≡ append "v" m.version
  pub channel_fits : m.channel ≡ version_channel key
  pub asked : (c : String) → channel ≡ some c → m.channel ≡ c
  pub platform_fits : m.platform ≡ platform
  pub digest_fits : is_sha256 m.artifact.sha256 ≡ true
  pub size_fits : (1 ≤ m.artifact.size) × (m.artifact.size ≤ 16 * 1024 * 1024)

some_inj : {a b : String} → some a ≡ some b → a ≡ b
some_inj e = cc

as_text-str : (v : Value) (s : String) → as_text v ≡ some s → v ≡ str s
as_text-str Value.null s e = cc
as_text-str (Value.bool b) s e = cc
as_text-str (Value.int z) s e = cc
as_text-str (Value.float x) s e = cc
as_text-str (str t) s e = cc
as_text-str (Value.arr vs) s e = cc
as_text-str (Value.obj fs) s e = cc

read_artifact-fits :
    (v : Value)
    → Ensures
        (λ a. (is_sha256 a.sha256 ≡ true) × (1 ≤ a.size) × (a.size ≤ 16 * 1024 * 1024))
        (read_artifact v)
unfolding read_artifact
read_artifact-fits v = bind-Ensures _ _ λ _ _. bind-Ensures _ _ λ _ _. bind-Ensures _ _ λ _ _.
    bind-Ensures _ _ λ digest_value _. bind-Ensures _ _ λ digest h1. bind-Ensures _ _ λ _ _.
      bind-Ensures _ _ λ z _. bind-Ensures _ _ λ size h2.
        let (low, high, _) = in_range_bounds 1 (16 * 1024 * 1024) z (or_raise-eq-ok _ _ h2) in
        ok-Ensures _ ((text_where-Ensures _ digest_value _).on digest h1, low, high)

check_channel_asked :
    (asked : Option String) (channel : String)
    → Ensures (λ _. (c : String) → asked ≡ some c → channel ≡ c) (check_channel asked channel)
unfolding check_channel
check_channel_asked none channel = ok-Ensures tt (λ c e. cc)
check_channel_asked (some expected) channel = bind-Ensures _ _ λ _ _. record {
  on = λ _ h c e. (same_iff channel expected).0 (require-eq-ok _ _ h) ∙ some_inj e;
}

-- The same text, where a value was tested to be it.
equal_of_text :
    (expected : String) (v : Value) (e : String)
    → Ensures (λ s. s ≡ expected) (equal_to expected v e)
equal_of_text expected v e = record {
  on = λ s h. (same_iff s expected).0 ((text_where-Ensures _ v e).on s h);
}

-- Every manifest that is accepted is for the platform, and for the channel that is asked for if one
-- is: its version is a semantic version, its tag is the version's, its channel is beta exactly for a
-- prerelease, and its artifact has a SHA-256 digest and a size of at most 16 MiB.
pub parse_manifest-IsManifest :
    (platform : String) (channel : Option String) (v : Value)
    → Ensures (IsManifest platform channel) (parse_manifest platform channel v)
unfolding parse_manifest
parse_manifest-IsManifest platform asked v = bind-Ensures _ _ λ _ _.
    bind-Ensures _ _ λ version_value _. bind-Ensures _ _ λ key h1. bind-Ensures _ _ λ version h2.
      bind-Ensures _ _ λ _ _. bind-Ensures _ _ λ _ _. bind-Ensures _ _ λ tag_value _.
        bind-Ensures _ _ λ tag h3. bind-Ensures _ _ λ _ _. bind-Ensures _ _ λ channel _.
          bind-Ensures _ _ λ _ h4. bind-Ensures _ _ λ u h5. bind-Ensures _ _ λ platform_value _.
            bind-Ensures _ _ λ p h6. bind-Ensures _ _ λ _ _. bind-Ensures _ _ λ _ _.
              bind-Ensures _ _ λ artifact_value _. bind-Ensures _ _ λ artifact h7.
                let fits = (read_artifact-fits artifact_value).on artifact h7 in
                ok-Ensures _ (record {
                  key = key;
                  version_fits =
                      ap precedence_key
                        (sym (as_text-str version_value version (or_raise-eq-ok _ _ h2)))
                      ∙ h1;
                  tag_fits = (equal_of_text _ tag_value _).on tag h3;
                  channel_fits = (same_iff channel (version_channel key)).0 (require-eq-ok _ _ h4);
                  asked = (check_channel_asked asked channel).on u h5;
                  platform_fits = (equal_of_text _ platform_value _).on p h6;
                  digest_fits = fits.0;
                  size_fits = (fits.1, fits.2);
                })
