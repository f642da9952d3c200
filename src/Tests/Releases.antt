-- ===== src/Tests/Releases.antt =====
-- A release that is published, and its verification.
use amneziawg_manager.Prelude.{
  ℕ, String, true, Option, some, List, [], ◌∷◌, ◌==◌, length, if◌then◌else◌,
}
use amneziawg_manager.Prelude.Int.{pos}
use amneziawg_manager.Result.{Result, ok, Ensures}
use amneziawg_manager.Value.{Value, obj, arr, field, end, str, int, bool, item, nil}
use amneziawg_manager.Releases.Semver.{precedence_key}
use amneziawg_manager.Releases.Semver.Bounds.{IsKey, precedence_key-IsKey}
use amneziawg_manager.Releases.Manifest.{
  Manifest, parse_manifest, IsManifest, parse_manifest-IsManifest,
}
use amneziawg_manager.Releases.Fetch.{
  Remote, IsVerified, fetch_verified_release, fetch_verified_release-IsVerified,
  discover_release_tag,
}
use amneziawg_manager.Releases.Fetch.Discover.{IsDiscovered, discover_release_tag-IsDiscovered}
use amneziawg_manager.Tests.Host.{digest}

abbrev manifest : Value
manifest = obj (
    field "schema_version" (int (pos 1)) (
      field "version" (str "1.2.0-rc.1") (
        field "tag" (str "v1.2.0-rc.1") (
          field "channel" (str "beta") (
            field "platform" (str "linux") (
              field "installation_schema_version" (int (pos 1)) (
                field "artifact"
                  (obj (
                    field "name" (str "awgctl.pyz")
                      (field "sha256" (str digest) (field "size" (int (pos 3)) end))))
                  end)))))))

abbrev listing : Value
listing = arr (
    item (obj (field "draft" (bool true) (field "tag_name" (str "v1.3.0-rc.1") end)))
      (item (obj (field "prerelease" (bool true) (field "tag_name" (str "v1.2.0-rc.1") end))) nil))

-- A listing is one byte, and any other file three.
abbrev network : Remote
network = record {
  urlopen = λ url maximum. ok (if maximum == 524289 then 1 ∷ [] else 1 ∷ 2 ∷ 3 ∷ []);
  loads = λ bytes. if length bytes == 1 then some listing else some manifest;
  ssh_keygen_verify = λ allowed identity namespace signature bytes. ok 0;
  sha256 = λ bytes. digest;
}

abbrev release_run : Result (Manifest × Option (List ℕ))
release_run = fetch_verified_release network "v1.2.0-rc.1" "linux" "beta" true

abbrev tag_run : Result String
tag_run = discover_release_tag network "beta"

parse_manifest-IsManifest_example :
    Ensures (IsManifest "linux" (some "beta")) (parse_manifest "linux" (some "beta") manifest)
parse_manifest-IsManifest_example = parse_manifest-IsManifest "linux" (some "beta") manifest

fetch_verified_release-IsVerified_example :
    Ensures (IsVerified network "v1.2.0-rc.1" "linux" "beta" true) release_run
fetch_verified_release-IsVerified_example =
    fetch_verified_release-IsVerified network "v1.2.0-rc.1" "linux" "beta" true

discover_release_tag-IsDiscovered_example : Ensures (λ tag. IsDiscovered network "beta" tag) tag_run
discover_release_tag-IsDiscovered_example = discover_release_tag-IsDiscovered network "beta"

precedence_key-IsKey_example : Ensures IsKey (precedence_key (str "1.2.0-rc.1"))
precedence_key-IsKey_example = precedence_key-IsKey (str "1.2.0-rc.1")
