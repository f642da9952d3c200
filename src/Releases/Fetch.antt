-- ===== src/Releases/Fetch.antt =====
-- `fetch_verified_release` and `discover_release_tag` of awgctl/releases.py. The network, OpenSSH,
-- SHA-256 and `json.loads` are parameters; a downloaded file is its bytes.
pub mod Discover
use mathlib.Core.Path.{subst}
use Prim.Native.String.{◌++◌ as append}
use amneziawg_manager.Prelude.{
  codes, ◌+◌, ◌≤◌, ℕ, ◌*◌, ◌≡◌, refl, ap, ◌∙◌, sym, String, ◌⊎◌, inl, inr, Bool, true, false, not,
  ◌||◌, ◌&&◌, Option, none, some, List, [], ◌∷◌, same, same_iff, one_of, leb, ltb, ◌==◌, length,
  arith, if◌then◌else◌,
}
use amneziawg_manager.Result.{
  Result, ok, raised, ◌>>=◌, ◌>>◌, require, raise_if, or_raise, Ensures, bind-Ensures, ok-Ensures,
  require-eq-ok, raise_if-eq-ok, or_raise-eq-ok,
}
use amneziawg_manager.Value.{Value, Fields, str, as_text, as_dict, as_list}
use amneziawg_manager.Contracts.Dict.{value_at, is_truthy}
use amneziawg_manager.Releases.Semver.{Key, precedence_key}
use amneziawg_manager.Releases.Manifest.{
  Artifact, Manifest, version_channel, parse_manifest, IsManifest, parse_manifest-IsManifest,
}

pub record Remote : Type 0 where
  -- the body of the response, read up to so many bytes, or an error
  pub urlopen : String → ℕ → Result (List ℕ)
  pub loads : List ℕ → Option Value
  -- the exit status of `ssh-keygen -Y verify` with the file of allowed signers, the identity, the
  -- namespace, the signature and the signed bytes
  pub ssh_keygen_verify : String → String → String → List ℕ → List ℕ → Result ℕ
  pub sha256 : List ℕ → String

-- the text after a leading "v"
unfoldable pub after_v : String → Option String
after_v String.[] = none
after_v (String.◌∷◌ c s) = if same (String.◌∷◌ c String.[]) "v" then some s else none

abbrev channel_of_key : Result Key → Option String
channel_of_key (ok k) = some (version_channel k)
channel_of_key (raised e) = none

abbrev channel_of_text : Option String → Option String
channel_of_text none = none
channel_of_text (some version) = channel_of_key (precedence_key (str version))

abbrev channel_after_v : Option String → Option String
channel_after_v none = none
channel_after_v (some t) = channel_of_text (after_v t)

-- `_version_channel(tag[1:])` of a valid tag, and `none` for a value that is none
abbrev pub tag_channel : Value → Option String
tag_channel v = channel_after_v (as_text v)

abbrev has_channel : String → Option String → Bool
has_channel channel none = false
has_channel channel (some c) = same c channel

-- the draft and the prerelease that a channel does not offer
abbrev pub is_withheld : String → Fields → Bool
is_withheld channel d =
    is_truthy (value_at "draft" d) || (same channel "stable" && is_truthy (value_at "prerelease" d))

abbrev offered : String → Fields → Option String
offered channel d =
    if is_withheld channel d || not (has_channel channel (tag_channel (value_at "tag_name" d)))
    then none
    else as_text (value_at "tag_name" d)

abbrev offered_by : String → Option Fields → Option String
offered_by channel none = none
offered_by channel (some d) = offered channel d

abbrev or_else : Option String → Option String → Option String
or_else none o = o
or_else (some t) o = some t

unfoldable pub first_offered : String → List Value → Option String
first_offered channel [] = none
first_offered channel (r ∷ rs) = or_else (offered_by channel (as_dict r)) (first_offered channel rs)

-- `codes.startswith(prefix)`, on the characters
abbrev begins : List ℕ → List ℕ → Bool
begins [] cs = true
begins (p ∷ ps) [] = false
begins (p ∷ ps) (c ∷ cs) = c == p && begins ps cs

-- `text.startswith(prefix)`
unfoldable pub starts_with : String → String → Bool
starts_with prefix s = begins (codes prefix) (codes s)

abbrev pub release_identity : String
release_identity = "releases@amneziawg-manager"

abbrev pub release_public_key : String
release_public_key =
    "ssh-ed25519 AAAAC3NzaC1lZDI1NTE5AAAAILyqkGfE04/pFwwS2b+K0trRm6SFVhAGSqrTewfpOhpO releases@amneziawg-manager"

-- the line that is written into the file of allowed signers
abbrev pub allowed_signers : String → String
allowed_signers public_key = append release_identity (append " " (append public_key "\n"))

abbrev pub release_list_url : String
release_list_url = "https://api.github.com/repos/jkordish/amneziawg-manager/releases?per_page=20"

abbrev pub base_url : String → String
base_url tag = append "https://github.com/jkordish/amneziawg-manager/releases/download/" tag

equal_numbers : (a b : ℕ) → (a == b) ≡ true → a ≡ b
equal_numbers a b h = ground arith

-- A release of the list that the channel offers, with its tag.
pub record IsOffered (channel tag : String) (r : Value) : Type 0 where
  pub fields : Fields
  pub is_object : as_dict r ≡ some fields
  pub not_draft : is_truthy (value_at "draft" fields) ≡ false
  pub not_prerelease : channel ≡ "stable" → is_truthy (value_at "prerelease" fields) ≡ false
  pub tag_read : as_text (value_at "tag_name" fields) ≡ some tag
  pub tag_fits : tag_channel (str tag) ≡ some channel

-- The first such release.
abbrev pub FirstOffered : String → String → List Value → Type 0
FirstOffered channel tag [] = ⊥
FirstOffered channel tag (r ∷ rs) =
    IsOffered channel tag r
    ⊎ (((t : String) → IsOffered channel t r → ⊥) × FirstOffered channel tag rs)

module _ (n : Remote) where
  open n use {urlopen, loads, ssh_keygen_verify, sha256}

  unfoldable pub fetch_bytes : String → ℕ → Result (List ℕ)
  fetch_bytes url maximum = do
    require (starts_with "https://" url) "release URL must use HTTPS"
    bytes ← urlopen url (maximum + 1)
    raise_if (ltb maximum (length bytes)) "release download exceeds the safety limit"
    ok bytes

  -- with the public key of the release, or another one
  unfoldable pub verify_ssh_signature : List ℕ → List ℕ → String → Result (Unit {0})
  verify_ssh_signature manifest signature public_key = do
    require (starts_with "ssh-ed25519 " public_key) "release public key is not Ed25519"
    returncode ←
        ssh_keygen_verify (allowed_signers public_key) release_identity "file" signature manifest
    require (returncode == 0) "release signature verification failed"

  unfoldable pub verify_artifact : Manifest → List ℕ → Result (Unit {0})
  verify_artifact m bytes = do
    require (length bytes == m.artifact.size) "release artifact size mismatch"
    require (same (sha256 bytes) m.artifact.sha256) "release artifact hash mismatch"

  unfoldable pub discover_release_tag : String → Result String
  discover_release_tag channel = do
    require (one_of channel ("beta" ∷ "stable" ∷ [])) "unsupported update channel"
    bytes ← fetch_bytes release_list_url (512 * 1024)
    value ← or_raise (loads bytes) "GitHub release discovery returned invalid JSON"
    releases ← or_raise (as_list value) "GitHub release discovery returned an unexpected response"
    or_raise (first_offered channel releases) "no published release was found"

  unfoldable pub with_artifact : Bool → String → Manifest → Result (Manifest × Option (List ℕ))
  with_artifact false base m = ok (m, none)
  with_artifact true base m = do
    bytes ← fetch_bytes (append base "/awgctl.pyz") (16 * 1024 * 1024)
    verify_artifact m bytes
    ok (m, some bytes)

  abbrev is_some : Option String → Bool
  is_some none = false
  is_some (some c) = true

  unfoldable pub fetch_verified_release :
      String → String → String → Bool → Result (Manifest × Option (List ℕ))
  fetch_verified_release tag platform channel include_artifact = do
    require (is_some (tag_channel (str tag))) "invalid discovered release tag"
    bytes ← fetch_bytes (append (base_url tag) "/release.json") (64 * 1024)
    signature ← fetch_bytes (append (base_url tag) "/release.json.sig") (16 * 1024)
    verify_ssh_signature bytes signature release_public_key
    value ← or_raise (loads bytes) "release manifest is not valid JSON"
    m ← parse_manifest platform (some channel) value
    require (same m.tag tag) "signed manifest does not match the discovered release tag"
    with_artifact include_artifact (base_url tag) m

  -- The file is the whole response for the URL, which is within the limit: one byte more is asked for.
  pub record IsDownload (url : String) (maximum : ℕ) (bytes : List ℕ) : Type 0 where
    pub response : urlopen url (maximum + 1) ≡ ok bytes
    pub within : length bytes ≤ maximum

  -- The artifact is downloaded from the base URL and is the one that the manifest describes.
  abbrev pub IsArtifact : String → Manifest → Bool → Option (List ℕ) → Type 0
  IsArtifact base m false none = Unit
  IsArtifact base m true (some bytes) =
      IsDownload (append base "/awgctl.pyz") (16 * 1024 * 1024) bytes
      × (length bytes ≡ m.artifact.size)
      × (sha256 bytes ≡ m.artifact.sha256)
  IsArtifact base m _ _ = ⊥

  -- Where the files of the release of a tag are.
  abbrev pub place_of : String → String
  place_of tag = append "https://github.com/jkordish/amneziawg-manager/releases/download/" tag

  -- The one signer that a release may have.
  abbrev pub only_signer : String
  only_signer =
      append
        "releases@amneziawg-manager ssh-ed25519 AAAAC3NzaC1lZDI1NTE5AAAAILyqkGfE04/pFwwS2b+K0trRm6"
        "SFVhAGSqrTewfpOhpO releases@amneziawg-manager\n"

  -- The release is authentic: the responses for the tag are a manifest of that tag and a signature
  -- that ssh-keygen verifies.
  pub record IsVerified (tag platform channel : String) (include_artifact : Bool)
      (r : Manifest × Option (List ℕ)) : Type 0 where
    pub bytes : List ℕ
    pub signature : List ℕ
    pub value : Value
    pub manifest_download : IsDownload (append (place_of tag) "/release.json") (64 * 1024) bytes
    pub signature_download :
        IsDownload (append (place_of tag) "/release.json.sig") (16 * 1024) signature
    pub signed :
        ssh_keygen_verify only_signer "releases@amneziawg-manager" "file" signature bytes ≡ ok 0
    pub decoded : loads bytes ≡ some value
    pub parsed : parse_manifest platform (some channel) value ≡ ok r.0
    pub fits : IsManifest platform (some channel) r.0
    pub same_tag : r.0.tag ≡ tag
    pub artifact_fits : IsArtifact (place_of tag) r.0 include_artifact r.1

  pub fetch_bytes-IsDownload :
      (url : String) (maximum : ℕ) → Ensures (IsDownload url maximum) (fetch_bytes url maximum)
  unfolding fetch_bytes
  fetch_bytes-IsDownload url maximum = bind-Ensures _ _ λ _ _. bind-Ensures _ _ λ bytes h.
      bind-Ensures _ _ λ _ k.
        ok-Ensures bytes
          (record { response = h; within = small maximum (length bytes) (raise_if-eq-ok _ _ k) })
    where
      small : (m n : ℕ) → ltb m n ≡ false → n ≤ m
      small m n h = ground arith

  verify_ssh_signature_sound :
      (b s : List ℕ) (key : String)
      → Ensures
          (λ _. ssh_keygen_verify (allowed_signers key) release_identity "file" s b ≡ ok 0)
          (verify_ssh_signature b s key)
  unfolding verify_ssh_signature
  verify_ssh_signature_sound b s key = bind-Ensures _ _ λ _ _.
      bind-Ensures _ _
        λ v h. record { on = λ _ k. h ∙ ap ok (equal_numbers v 0 (require-eq-ok _ _ k)) }

  verify_artifact_sound :
      (m : Manifest) (bytes : List ℕ)
      → Ensures
          (λ _. (length bytes ≡ m.artifact.size) × (sha256 bytes ≡ m.artifact.sha256))
          (verify_artifact m bytes)
  unfolding verify_artifact
  verify_artifact_sound m bytes = bind-Ensures _ _ λ _ h. record {
    on = λ _ k. (
      equal_numbers (length bytes) m.artifact.size (require-eq-ok _ _ h),
      (same_iff (sha256 bytes) m.artifact.sha256).0 (require-eq-ok _ _ k),
    );
  }

  with_artifact-IsArtifact :
      (include_artifact : Bool) (base : String) (m : Manifest)
      → Ensures
          (λ r. (r.0 ≡ m) × IsArtifact base m include_artifact r.1)
          (with_artifact include_artifact base m)
  unfolding with_artifact
  with_artifact-IsArtifact false base m = ok-Ensures _ (refl, tt)
  with_artifact-IsArtifact true base m = bind-Ensures _ _ λ bytes d. bind-Ensures _ _ λ u h.
      let (size, digest) = (verify_artifact_sound m bytes).on u h in
      ok-Ensures _ (refl, ((fetch_bytes-IsDownload _ _).on bytes d, size, digest))

  -- A release that is returned is verified: the responses for the URLs of the tag's manifest and its
  -- signature are whole, ssh-keygen verifies the signature for the release's identity and public
  -- key, the manifest is accepted for the platform and the channel, its tag is the one asked for, and
  -- the artifact, which is there exactly where it is asked for, is the whole response for its URL and
  -- has the size and the SHA-256 digest of the manifest.
  pub fetch_verified_release-IsVerified :
      (tag platform channel : String) (include_artifact : Bool)
      → Ensures
          (IsVerified tag platform channel include_artifact)
          (fetch_verified_release tag platform channel include_artifact)
  unfolding fetch_verified_release
  fetch_verified_release-IsVerified tag platform channel include_artifact = bind-Ensures _ _ λ _ _.
      bind-Ensures _ _ λ bytes d1. bind-Ensures _ _ λ signature d2. bind-Ensures _ _ λ u h1.
        bind-Ensures _ _ λ value h2. bind-Ensures _ _ λ m h3. bind-Ensures _ _ λ _ h4. record {
          on = λ r h5.
              let (same_manifest, artifact) =
                (with_artifact-IsArtifact include_artifact _ m).on r h5 in
              record {
                bytes = bytes;
                signature = signature;
                value = value;
                manifest_download = (fetch_bytes-IsDownload _ _).on bytes d1;
                signature_download = (fetch_bytes-IsDownload _ _).on signature d2;
                signed = (verify_ssh_signature_sound bytes signature release_public_key).on u h1;
                decoded = or_raise-eq-ok _ _ h2;
                parsed = h3 ∙ ap ok (sym same_manifest);
                fits =
                    subst (IsManifest platform (some channel)) (sym same_manifest)
                      ((parse_manifest-IsManifest platform (some channel) value).on m h3);
                same_tag =
                    ap (λ x. x.tag) same_manifest ∙ (same_iff m.tag tag).0 (require-eq-ok _ _ h4);
                artifact_fits =
                    subst (λ x. IsArtifact (place_of tag) x include_artifact r.1)
                      (sym same_manifest) artifact;
              };
        }
