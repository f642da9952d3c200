-- ===== src/Releases/Fetch/Discover.antt =====
-- `discover_release_tag` of awgctl/releases.py.
use mathlib.Core.Path.{subst}
use amneziawg_manager.Prelude.{
  ◌*◌, ℕ, ◌≡◌, refl, ap, ◌∙◌, sym, String, ◌⊎◌, inl, inr, Bool, true, false, not, ◌&&◌, Option,
  none, some, List, [], ◌∷◌, same, same_iff, Bool-cases, ||-eq-false, ||-false, if◌then◌else◌,
  arith,
}
use amneziawg_manager.Result.{Ensures, bind-Ensures, or_raise-eq-ok}
use amneziawg_manager.Value.{Value, Fields, as_dict, as_list}
use amneziawg_manager.Contracts.Dict.{value_at, is_truthy}
use amneziawg_manager.Releases.Fetch.{
  Remote, channel_after_v, tag_channel, has_channel, is_withheld, offered, offered_by, or_else,
  first_offered, IsDownload, fetch_bytes-IsDownload, IsOffered, FirstOffered, discover_release_tag,
}

passed :
    (b : Bool) (o : Option String) (t : String)
    → (if b then none else o) ≡ some t
    → (b ≡ false) × (o ≡ some t)
passed true o t h = cc
passed false o t h = (refl, h)

has_channel-eq : (c : String) (o : Option String) → has_channel c o ≡ true → o ≡ some c
has_channel-eq c none h = cc
has_channel-eq c (some d) h = ap some ((same_iff d c).0 h)

not-false : (b : Bool) → not b ≡ false → b ≡ true
not-false true h = refl
not-false false h = cc

offered-IsOffered :
    (channel t : String) (r : Value) (d : Fields)
    → as_dict r ≡ some d
    → offered channel d ≡ some t
    → IsOffered channel t r
offered-IsOffered channel t r d e h =
    let (out, read) = passed _ _ t h in
    let (kept, fits) = ||-eq-false (is_withheld channel d) _ out in
    let (draft, pre) = ||-eq-false (is_truthy (value_at "draft" d)) _ kept in
    record {
      fields = d;
      is_object = e;
      not_draft = draft;
      not_prerelease = λ s. and_false _ _ pre ((same_iff channel "stable").1 s);
      tag_read = read;
      tag_fits = sym (ap channel_after_v read) ∙ has_channel-eq channel _ (not-false _ fits);
    }
  where
    and_false : (a b : Bool) → (a && b) ≡ false → a ≡ true → b ≡ false
    and_false a b h k = ground arith

IsOffered-offered :
    (channel t : String) (r : Value) (d : Fields)
    → as_dict r ≡ some d
    → IsOffered channel t r
    → offered channel d ≡ some t
IsOffered-offered channel t r d e o =
    let same_fields : o.fields ≡ d = some_inj (sym o.is_object ∙ e) in
    subst (λ x. offered channel x ≡ some t) same_fields
      (rw
        (||-false _ _ (||-false _ _ o.not_draft (stable_only (Bool-cases (same channel "stable"))))
          fits)
        o.tag_read)
  where
    some_inj : {a b : Fields} → some a ≡ some b → a ≡ b
    some_inj h = cc

    stable_only :
        (same channel "stable" ≡ true) ⊎ (same channel "stable" ≡ false)
        → (same channel "stable" && is_truthy (value_at "prerelease" o.fields)) ≡ false
    stable_only (inl s) = rw s (o.not_prerelease ((same_iff channel "stable").0 s))
    stable_only (inr s) = rw s refl

    fits : not (has_channel channel (tag_channel (value_at "tag_name" o.fields))) ≡ false
    fits = rw o.tag_read (rw o.tag_fits (rw ((same_iff channel channel).1 refl) refl))

offered_by-IsOffered :
    (channel t : String) (r : Value)
    → offered_by channel (as_dict r) ≡ some t
    → IsOffered channel t r
offered_by-IsOffered channel t r h = go (as_dict r) refl h
  where
    go : (o : Option Fields) → as_dict r ≡ o → offered_by channel o ≡ some t → IsOffered channel t r
    go none e h = cc
    go (some d) e h = offered-IsOffered channel t r d e h

offered_by-none :
    (channel t : String) (r : Value)
    → offered_by channel (as_dict r) ≡ none
    → IsOffered channel t r
    → ⊥
offered_by-none channel t r h o = none_some (
    sym (subst (λ x. offered_by channel x ≡ none) o.is_object h)
    ∙ IsOffered-offered channel t r o.fields o.is_object o)
  where
    none_some : none ≡ some t → ⊥
    none_some e = cc

-- The first release that is offered is found, and none where none is offered.
first_offered-FirstOffered :
    (channel t : String) (rs : List Value)
    → first_offered channel rs ≡ some t
    → FirstOffered channel t rs
unfolding first_offered
first_offered-FirstOffered channel t [] h = cc
first_offered-FirstOffered channel t (r ∷ rs) h =
    go (offered_by channel (as_dict r)) (first_offered-FirstOffered channel t rs) refl h
  where
    go :
        (o : Option String)
        → (first_offered channel rs ≡ some t → FirstOffered channel t rs)
        → offered_by channel (as_dict r) ≡ o
        → or_else o (first_offered channel rs) ≡ some t
        → FirstOffered channel t (r ∷ rs)
    go none later e h = inr (λ u. offered_by-none channel u r e, later h)
    go (some x) later e h = inl (offered_by-IsOffered channel t r (e ∙ h))

-- The whole response for the URL of the list, in which the tag is that of the first release that
-- the channel offers.
pub record IsDiscovered (n : Remote) (channel tag : String) : Type 0 where
  pub bytes : List ℕ
  pub value : Value
  pub download :
      IsDownload n "https://api.github.com/repos/jkordish/amneziawg-manager/releases?per_page=20"
        (512 * 1024)
        bytes
  pub decoded : Remote.loads n bytes ≡ some value
  pub releases : List Value
  pub listed : as_list value ≡ some releases
  pub offers : FirstOffered channel tag releases

-- A tag that is discovered is that of the first release, in the list that is the whole response for
-- the URL of the repository's releases, that is not a draft, is not a prerelease if the channel is
-- stable, and has the tag of a version of the channel.
pub discover_release_tag-IsDiscovered :
    (n : Remote) (channel : String)
    → Ensures (λ tag. IsDiscovered n channel tag) (discover_release_tag n channel)
unfolding discover_release_tag
discover_release_tag-IsDiscovered n channel = bind-Ensures _ _ λ _ _. bind-Ensures _ _ λ bytes d.
    bind-Ensures _ _ λ value h1. bind-Ensures _ _ λ releases h2. record {
      on = λ tag h. record {
        bytes = bytes;
        download = (fetch_bytes-IsDownload n _ _).on bytes d;
        value = value;
        decoded = or_raise-eq-ok _ _ h1;
        releases = releases;
        listed = or_raise-eq-ok _ _ h2;
        offers = first_offered-FirstOffered channel tag releases (or_raise-eq-ok _ _ h);
      };
    }
