-- ===== src/Transition/Document/RoundTrip.antt =====
-- Writing a transition as its document and reading it again, for `normalize_transition_document` of
-- awgctl/core.py.
use mathlib.Core.Path.{subst}
use amneziawg_manager.Prelude.{
  ℕ, ◌+◌, ◌-◌, ◌^◌, ◌≤◌, ◌≡◌, ◌≢◌, ◌↔◌, refl, sym, ap, ◌∙◌, true, false, not, ◌||◌, ◌&&◌, String,
  some, List, [], ◌∷◌, All, arith, one_of, ltb, leb, ◌==◌, same, length, map,
}
use amneziawg_manager.Prelude.Int.{pos, in_range-pos}
use amneziawg_manager.Result.{ok, ◌>>=◌}
use amneziawg_manager.Value.{int, str, obj, bool, field, end, items_list, dict_of}
use amneziawg_manager.Timestamp.{transition_time-str}
use amneziawg_manager.Validate.{is_sha256, id-str, name-str}
use amneziawg_manager.Transition.Document.{
  Library, PendingProfile, Pending, Activation, TransitionState, prepared, active, Boundary,
  lightsail, external_firewall, Transition, number_in, text_is, boundary_named, is_true, is_version,
  versions_of, identity_of, all_null, path_is, positive, read_profile, read_profiles, read_pending,
  activation_window, read_activation, read_state, normalize_transition_document,
}
use amneziawg_manager.Transition.Document.Written.{
  state_text, boundary_text, pending_profile_fields, profiles_value, pending_fields,
  transition_document_fields, transition_document,
}
use amneziawg_manager.Transition.Document.Accepts.{
  IsProfile, NoRepeat, IsPending, IsActivation, StateFits, IsTransition, normalize-IsTransition,
}
use amneziawg_manager.Transition.Document.Faithful.{normalize-transition_document}

pub number_in-pos :
    (lo hi n : ℕ) (e : String) → lo ≤ n → n ≤ hi → number_in lo hi (int (pos n)) e ≡ ok n
unfolding number_in ◌>>=◌
number_in-pos lo hi n e h k = rw (in_range-pos lo hi n h k) refl

pub ports_fit :
    (n o : ℕ) → 1024 ≤ n → n ≤ 9999 → n ≢ o → (not (leb 1024 n && leb n 9999) || n == o) ≡ false
ports_fit n o low high differ = ground arith

pub positive-pos : (n : ℕ) → 1 ≤ n → positive (pos n) ≡ some n
positive-pos n h = ground arith

boundary_named-boundary_text : (b : Boundary) → boundary_named (boundary_text b) ≡ some b
unfolding boundary_named
boundary_named-boundary_text lightsail = refl
boundary_named-boundary_text external_firewall = refl

identity_of-str :
    (m n : String)
    → is_sha256 m ≡ true
    → is_sha256 n ≡ true
    → identity_of (obj (field "manifest_sha256" (str m) (field "snapshot_sha256" (str n) end)))
      ≡ ok (m, n)
unfolding dict_of ◌>>=◌
identity_of-str m n h k = simp (h, k)

versions_of-str :
    (m n : String)
    → is_version m ≡ true
    → is_version n ≡ true
    → versions_of (
        obj (
          field "policy_version" (int (pos 1)) (
            field "tools_version"
              (str m)
              (field "module_version" (str n) (field "qualified" (bool true) end)))))
      ≡ ok (m, n)
unfolding dict_of number_in is_true ◌>>=◌
versions_of-str m n h k = simp (h, k)

-- A set of names that has this one is not empty.
listed_length :
    (client : String) (ps : List PendingProfile)
    → one_of client (map (λ q. q.name) ps) ≡ true
    → leb 1 (length (items_list (profiles_value ps))) ≡ true
listed_length client [] h = cc
listed_length client (p ∷ ps) h = ground arith

within_window :
    (p a : ℕ) → p ≤ a → (ltb a p || not (a + activation_window == a + activation_window)) ≡ false
within_window p a h = ground arith

module _ (l : Library) where
  open l use {iso}

  read_profile-fields :
      (id : String) (seen : List String) (p : PendingProfile)
      → IsProfile l id p
      → one_of p.name seen ≡ false
      → read_profile l id seen (obj (pending_profile_fields p)) ≡ ok p
  unfolding read_profile path_is dict_of ◌>>=◌
  read_profile-fields id seen p fits fresh = simp (
    name-str p.name fits.name_fits,
    fresh,
    positive-pos p.current_revision fits.revision_fits,
    fits.config_place,
    fits.qr_place,
  )

  read_profiles-profiles_value :
      (id : String) (seen : List String) (ps : List PendingProfile)
      → All (IsProfile l id) ps
      → NoRepeat l seen ps
      → read_profiles l id seen (items_list (profiles_value ps)) ≡ ok ps
  unfolding read_profiles ◌>>=◌
  read_profiles-profiles_value id seen [] fit distinct = refl
  read_profiles-profiles_value id seen (p ∷ ps) fit distinct =
      rw (read_profile-fields id seen p fit.0 distinct.0)
        (rw (read_profiles-profiles_value id (p.name ∷ seen) ps fit.1 distinct.1) refl)

  read_pending-fields :
      (id client : String) (p : Pending)
      → IsPending l id client p
      → read_pending l id client (obj (pending_fields p)) ≡ ok p
  unfolding read_pending path_is dict_of ◌>>=◌
  read_pending-fields id client p h = simp (
    h.root_place,
    h.state_place,
    h.config_place,
    h.key_place,
    listed_length client p.profiles h.client_listed,
    read_profiles-profiles_value id [] p.profiles h.profiles_fit h.no_repeat,
    h.client_listed,
    h.in_order,
  )

  read_activation-fields :
      (t : Transition) (a : Activation) (instant : ℕ)
      → IsActivation l instant a
      → read_activation l instant (transition_document_fields (record t { state = active a }))
        ≡ ok a
  unfolding read_activation ◌>>=◌
  read_activation-fields t a instant h = simp (
    transition_time-str,
    h.activated_read,
    h.window,
    within_window instant h.activated_instant h.not_before,
    number_in-pos 0 (2 ^ 64 - 1) a.pre_rx _ (omega arith) h.rx_fits,
    number_in-pos 0 (2 ^ 64 - 1) a.pre_tx _ (omega arith) h.tx_fits,
    number_in-pos 0 (2 ^ 64 - 1) a.pre_handshake _ (omega arith) h.handshake_fits,
  )

  read_state-fields :
      (t : Transition) (s : TransitionState) (instant : ℕ)
      → StateFits l instant s
      → read_state l
          (same (state_text s) "prepared")
          instant
          (transition_document_fields (record t { state = s }))
        ≡ ok s
  unfolding read_state all_null ◌>>=◌
  read_state-fields t prepared instant h = refl
  read_state-fields t (active a) instant h = rw (read_activation-fields t a instant h) refl

  state_known : (s : TransitionState) → one_of (state_text s) ("prepared" ∷ "active" ∷ []) ≡ true
  state_known prepared = refl
  state_known (active a) = refl

  accepts-transition_document :
      (t : Transition)
      → IsTransition l t
      → normalize_transition_document l (transition_document t) ≡ ok t
  unfolding normalize_transition_document dict_of number_in text_is ◌>>=◌
  accepts-transition_document t h = simp (
    id-str t.transaction_id h.id_fits,
    state_known t.state,
    name-str t.client_name h.client_fits,
    number_in-pos 1 65535 t.old_port _ h.old_port_fits.0 h.old_port_fits.1,
    number_in-pos 1 65535 t.new_port _ (omega (arith, h.new_port_fits.0))
        (omega (arith, h.new_port_fits.1)),
    ports_fit t.new_port t.old_port h.new_port_fits.0 h.new_port_fits.1 h.ports_differ,
    h.backup_fits,
    identity_of-str t.manifest_sha256 t.snapshot_sha256 h.manifest_fits h.snapshot_fits,
    boundary_named-boundary_text,
    versions_of-str t.tools_version t.module_version h.tools_fit h.module_fits,
    read_pending-fields t.transaction_id t.client_name t.pending h.pending_fits,
    transition_time-str,
    h.prepared_read,
    read_state-fields t t.state h.prepared_instant h.state_fits,
    h.prestate_fits,
    h.pending_digest_fits,
  )

  -- The document of a transition is accepted exactly where the transition is one: its texts and
  -- numbers are in their ranges, its ports differ, its pending paths lie where its ID says, its
  -- profiles are distinct, in order and include the client, and an activation is not before the
  -- preparation and lasts ten minutes. Then it is read as that transition.
  pub normalize-transition_document_iff :
      (t n : Transition)
      → (normalize_transition_document l (transition_document t) ≡ ok n)
        ↔ (IsTransition l t × (n ≡ t))
  normalize-transition_document_iff t n = (
    λ h.
        let same_one : n ≡ t = (normalize-transition_document l t).on n h in
        (
          subst (IsTransition l) same_one
              ((normalize-IsTransition l (transition_document t)).on n h),
          same_one,
        ),
    λ (fits, same_one). accepts-transition_document t fits ∙ ap ok (sym same_one),
  )
