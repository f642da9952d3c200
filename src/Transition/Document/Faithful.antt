-- ===== src/Transition/Document/Faithful.antt =====
-- The texts of a transition's document and what they are read as, for
-- `normalize_transition_document` of awgctl/core.py.
use amneziawg_manager.Prelude.{ℕ, ◌≡◌, refl, ap, true, String, List, [], ◌∷◌, arith, same}
use amneziawg_manager.Prelude.Int.{pos}
use amneziawg_manager.Result.{ok, ◌>>=◌, or_raise, Ensures, bind-Ensures, known-Ensures, ok-Ensures}
use amneziawg_manager.Value.{items_list, obj, str, bool, int, dict_of-obj, field, end}
use amneziawg_manager.Validate.{text_where-read, id-read, name-read}
use amneziawg_manager.Transition.Document.{
  Library, PendingProfile, Pending, Activation, TransitionState, prepared, active, Boundary,
  lightsail, external_firewall, Transition, number_in, boundary_named, versions_of, identity_of,
  path_is, positive, read_profile, read_profiles, read_pending, read_activation, read_state,
  normalize_transition_document,
}
use amneziawg_manager.Transition.Document.Written.{
  state_text, boundary_text, pending_profile_fields, profiles_value, pending_fields,
  transition_document_fields, transition_document,
}

pub number_in-read :
    (lo hi n : ℕ) (e : String) {m : ℕ} → number_in lo hi (int (pos n)) e ≡ ok m → m ≡ n
unfolding number_in ◌>>=◌
number_in-read lo hi n e h = ground arith

pub positive-read : (n : ℕ) (e : String) {m : ℕ} → or_raise (positive (pos n)) e ≡ ok m → m ≡ n
positive-read n e h = ground arith

boundary-read :
    (b : Boundary) (e : String) {c : Boundary}
    → or_raise (boundary_named (boundary_text b)) e ≡ ok c
    → c ≡ b
unfolding boundary_named
boundary-read lightsail e h = ground arith
boundary-read external_firewall e h = ground arith

identity-written :
    (m n : String)
    → Ensures
        (λ q. q ≡ (m, n))
        (identity_of (obj (field "manifest_sha256" (str m) (field "snapshot_sha256" (str n) end))))
identity-written m n = rw (dict_of-obj _ _ _ refl) (
    known-Ensures _ _ λ _. known-Ensures _ _ λ _. bind-Ensures _ _ λ _ h. known-Ensures _ _ λ _.
      bind-Ensures _ _
        λ _ g. ok-Ensures _ λ k. (text_where-read _ m _ h k, text_where-read _ n _ g k))

versions-written :
    (m n : String)
    → Ensures
        (λ q. q ≡ (m, n))
        (versions_of (
          obj (
            field "policy_version" (int (pos 1)) (
              field "tools_version"
                (str m)
                (field "module_version" (str n) (field "qualified" (bool true) end))))))
versions-written m n = rw (dict_of-obj _ _ _ refl) (
    known-Ensures _ _ λ _. known-Ensures _ _ λ _. bind-Ensures _ _ λ _ _. known-Ensures _ _ λ _.
      bind-Ensures _ _ λ _ _. known-Ensures _ _ λ _. bind-Ensures _ _ λ _ h. known-Ensures _ _ λ _.
        bind-Ensures _ _
          λ _ g. ok-Ensures _ λ k. (text_where-read _ m _ h k, text_where-read _ n _ g k))

module _ (l : Library) where
  path_is-read : (expected s e : String) {t : String} → path_is l expected (str s) e ≡ ok t → t ≡ s
  unfolding path_is
  path_is-read expected s e h = text_where-read _ s e h

  read_profile-written :
      (id : String) (seen : List String) (p : PendingProfile)
      → Ensures (λ q. q ≡ p) (read_profile l id seen (obj (pending_profile_fields p)))
  unfolding read_profile
  read_profile-written id seen p = rw (dict_of-obj _ (pending_profile_fields p) _ refl) (
      known-Ensures _ _ λ _. known-Ensures _ _ λ _. bind-Ensures _ _ λ name h1.
        bind-Ensures _ _ λ _ _. known-Ensures _ _ λ _. known-Ensures _ _ λ _.
          bind-Ensures _ _ λ revision h2. known-Ensures _ _ λ _. bind-Ensures _ _ λ config h3.
            known-Ensures _ _ λ _. bind-Ensures _ _ λ qr h4. ok-Ensures _ λ k. record {
              name = name-read p.name h1 k;
              config = path_is-read _ p.config _ h3 k;
              qr = path_is-read _ p.qr _ h4 k;
              current_revision = positive-read p.current_revision _ h2 k;
            })

  read_profiles-written :
      (id : String) (seen : List String) (ps : List PendingProfile)
      → Ensures (λ qs. qs ≡ ps) (read_profiles l id seen (items_list (profiles_value ps)))
  unfolding read_profiles
  read_profiles-written id seen [] = ok-Ensures [] refl
  read_profiles-written id seen (p ∷ ps) = bind-Ensures _ _ λ q h. bind-Ensures _ _ λ qs hs.
      ok-Ensures (q ∷ qs)
        λ k. (read_profile-written id seen p).on q h k ∷ (read_profiles-written id _ ps).on qs hs k

  read_pending-written :
      (id client : String) (p : Pending)
      → Ensures (λ q. q ≡ p) (read_pending l id client (obj (pending_fields p)))
  unfolding read_pending
  read_pending-written id client p = rw (dict_of-obj _ (pending_fields p) _ refl) (
      known-Ensures _ _ λ _. known-Ensures _ _ λ _. bind-Ensures _ _ λ root h1.
        known-Ensures _ _ λ _. bind-Ensures _ _ λ state h2. known-Ensures _ _ λ _.
          bind-Ensures _ _ λ config h3. known-Ensures _ _ λ _. bind-Ensures _ _ λ key h4.
            known-Ensures _ _ λ _. known-Ensures _ _ λ _. bind-Ensures _ _ λ _ _.
              bind-Ensures _ _ λ profiles h5. bind-Ensures _ _ λ _ _. ok-Ensures _ λ k. record {
                root = path_is-read _ p.root _ h1 k;
                server_state = path_is-read _ p.server_state _ h2 k;
                server_config = path_is-read _ p.server_config _ h3 k;
                header_key = path_is-read _ p.header_key _ h4 k;
                profiles = (read_profiles-written id [] p.profiles).on profiles h5 k;
              })

  read_activation-written :
      (t : Transition) (a : Activation) (instant : ℕ)
      → Ensures
          (λ b. b ≡ a)
          (read_activation l instant (transition_document_fields (record t { state = active a })))
  unfolding read_activation
  read_activation-written t a instant = known-Ensures _ _ λ _. known-Ensures _ _ λ _.
      known-Ensures _ _ λ _. bind-Ensures _ _ λ _ _. bind-Ensures _ _ λ _ _. bind-Ensures _ _ λ _ _.
        known-Ensures _ _ λ _. bind-Ensures _ _ λ rx h1. known-Ensures _ _ λ _.
          bind-Ensures _ _ λ tx h2. known-Ensures _ _ λ _. bind-Ensures _ _ λ handshake h3.
            known-Ensures _ _ λ _. known-Ensures _ _ λ _. ok-Ensures _ λ k. record a {
              pre_rx = number_in-read _ _ a.pre_rx _ h1 k;
              pre_tx = number_in-read _ _ a.pre_tx _ h2 k;
              pre_handshake = number_in-read _ _ a.pre_handshake _ h3 k;
            }

  read_state-written :
      (t : Transition) (s : TransitionState) (text : String) (instant : ℕ)
      → text ≡ state_text s
      → Ensures
          (λ r. r ≡ s)
          (read_state l
            (same text "prepared")
            instant
            (transition_document_fields (record t { state = s })))
  unfolding read_state
  read_state-written t prepared text instant e =
      rw e (bind-Ensures _ _ λ _ _. ok-Ensures prepared refl)
  read_state-written t (active a) text instant e = rw e (
      bind-Ensures _ _
        λ b h. ok-Ensures _ (ap active ((read_activation-written t a instant).on b h)))

  identity-read :
      (m n : String) {q : String × String}
      → identity_of (obj (field "manifest_sha256" (str m) (field "snapshot_sha256" (str n) end)))
        ≡ ok q
      → q ≡ (m, n)
  identity-read m n h = (identity-written m n).on _ h

  versions-read :
      (m n : String) {q : String × String}
      → versions_of (
          obj (
            field "policy_version" (int (pos 1)) (
              field "tools_version"
                (str m)
                (field "module_version" (str n) (field "qualified" (bool true) end)))))
        ≡ ok q
      → q ≡ (m, n)
  versions-read m n h = (versions-written m n).on _ h

  -- The document of a transition, if it is accepted, is read as that transition.
  pub normalize-transition_document :
      (t : Transition)
      → Ensures (λ n. n ≡ t) (normalize_transition_document l (transition_document t))
  unfolding normalize_transition_document
  normalize-transition_document t = rw (dict_of-obj _ (transition_document_fields t) _ refl) (
      known-Ensures _ _ λ _. known-Ensures _ _ λ _. bind-Ensures _ _ λ _ _. known-Ensures _ _ λ _.
        bind-Ensures _ _ λ id h1. known-Ensures _ _ λ _. bind-Ensures _ _ λ state h2.
          known-Ensures _ _ λ _. bind-Ensures _ _ λ _ _. known-Ensures _ _ λ _.
            bind-Ensures _ _ λ _ _. known-Ensures _ _ λ _. bind-Ensures _ _ λ client h3.
              known-Ensures _ _ λ _. bind-Ensures _ _ λ old_port h4. known-Ensures _ _ λ _.
                bind-Ensures _ _ λ new_port h5. bind-Ensures _ _ λ _ _. known-Ensures _ _ λ _.
                  bind-Ensures _ _ λ backup h6. known-Ensures _ _ λ _.
                    bind-Ensures _ _ λ identity h7. known-Ensures _ _ λ _. known-Ensures _ _ λ _.
                      bind-Ensures _ _ λ boundary h8. known-Ensures _ _ λ _.
                        bind-Ensures _ _ λ versions h9. known-Ensures _ _ λ _.
                          bind-Ensures _ _ λ pending h10. known-Ensures _ _ λ _.
                            bind-Ensures _ _ λ instant _. bind-Ensures _ _ λ read h11.
                              known-Ensures _ _ λ _. bind-Ensures _ _ λ prestate h12.
                                known-Ensures _ _ λ _. bind-Ensures _ _ λ digest h13.
                                  known-Ensures _ _ λ _. ok-Ensures _ λ k. record {
                                    transaction_id = id-read t.transaction_id h1 k;
                                    state =
                                        (read_state-written t t.state state instant
                                            (text_where-read _ (state_text t.state) _ h2)).on
                                          read h11 k;
                                    client_name = name-read t.client_name h3 k;
                                    old_port = number_in-read _ _ t.old_port _ h4 k;
                                    new_port = number_in-read _ _ t.new_port _ h5 k;
                                    backup_name = text_where-read _ t.backup_name _ h6 k;
                                    manifest_sha256 =
                                        (identity-read t.manifest_sha256 t.snapshot_sha256 h7 k).0;
                                    snapshot_sha256 =
                                        (identity-read t.manifest_sha256 t.snapshot_sha256 h7 k).1;
                                    ingress_boundary = boundary-read t.ingress_boundary _ h8 k;
                                    tools_version =
                                        (versions-read t.tools_version t.module_version h9 k).0;
                                    module_version =
                                        (versions-read t.tools_version t.module_version h9 k).1;
                                    pending =
                                        (read_pending-written id client t.pending).on pending h10 k;
                                    prepared_at = t.prepared_at;
                                    prestate_sha256 = text_where-read _ t.prestate_sha256 _ h12 k;
                                    pending_sha256 = text_where-read _ t.pending_sha256 _ h13 k;
                                  })
