-- ===== src/Transition/Document/Accepts.antt =====
-- What `normalize_transition_document` of awgctl/core.py accepts.
use Prim.Native.String.{◌++◌ as append}
use amneziawg_manager.Prelude.{
  ℕ, ◌+◌, ◌-◌, ◌^◌, ◌≤◌, ◌≡◌, ◌≢◌, ap, ◌∙◌, Bool, true, false, not, ◌&&◌, ◌||◌, String, some, List,
  [], ◌∷◌, map, All, arith, ltb, leb, ◌==◌, same, one_of, &&-eq-true,
}
use amneziawg_manager.Prelude.Int.{ℤ, pos, negsuc, in_range_bounds}
use amneziawg_manager.Prelude.Sort.{sorted, same_texts}
use amneziawg_manager.Result.{
  ok, Ensures, bind-Ensures, ok-Ensures, or_raise-eq-ok, require-eq-ok, raise_if-eq-ok,
}
use amneziawg_manager.Value.{Value, Fields}
use amneziawg_manager.Timestamp.{instant_of, transition_time-eq-ok}
use amneziawg_manager.Validate.{
  is_transaction_id, is_client_name, is_sha256, is_backup_name, text_where-Ensures,
  validate_transaction_id-Ensures, validate_client_name-Ensures,
}
use amneziawg_manager.Transition.Document.{
  Library, PendingProfile, Pending, Activation, TransitionState, prepared, active, Transition,
  number_in, is_version, versions_of, identity_of, expected_root, profile_path, path_is, positive,
  read_profile, read_profiles, read_pending, activation_window, read_activation, read_state,
  normalize_transition_document,
}

pub number_in-Ensures :
    (lo hi : ℕ) (v : Value) (e : String) → Ensures (λ n. (lo ≤ n) × (n ≤ hi)) (number_in lo hi v e)
unfolding number_in
number_in-Ensures lo hi v e = bind-Ensures _ _ λ z _. record {
  on = λ n h. let b = in_range_bounds lo hi z (or_raise-eq-ok _ _ h) in (b.0, b.1);
}

pub positive_bound : (z : ℤ) {n : ℕ} → positive z ≡ some n → 1 ≤ n
positive_bound (pos n) h = ground arith
positive_bound (negsuc n) h = cc

pub ports :
    (n o : ℕ)
    → (not (leb 1024 n && leb n 9999) || n == o) ≡ false
    → (1024 ≤ n) × (n ≤ 9999) × (n ≢ o)
ports n o h = (ground arith, ground arith, λ e. ground arith)

module _ (l : Library) where
  open l use {iso, same_path}

  -- An entry of the pending profiles, in the place that its name gives it.
  pub record IsProfile (id : String) (p : PendingProfile) : Type 0 where
    pub name_fits : is_client_name p.name ≡ true
    pub revision_fits : 1 ≤ p.current_revision
    pub config_place : same_path p.config (profile_path id p.name ".conf") ≡ true
    pub qr_place : same_path p.qr (profile_path id p.name ".png") ≡ true

  -- No name occurs twice, nor among the names seen before.
  abbrev pub NoRepeat : List String → List PendingProfile → Type 0
  NoRepeat seen [] = Unit
  NoRepeat seen (p ∷ ps) = (one_of p.name seen ≡ false) × NoRepeat (p.name ∷ seen) ps

  pub record IsPending (id client : String) (p : Pending) : Type 0 where
    pub root_place : same_path p.root (expected_root id) ≡ true
    pub state_place : same_path p.server_state (append (expected_root id) "/server.json") ≡ true
    pub config_place : same_path p.server_config (append (expected_root id) "/awg0.conf") ≡ true
    pub key_place : same_path p.header_key (append (expected_root id) "/header-protection") ≡ true
    pub profiles_fit : All (IsProfile id) p.profiles
    pub no_repeat : NoRepeat [] p.profiles
    pub client_listed : one_of client (map (λ q. q.name) p.profiles) ≡ true
    pub in_order :
        same_texts (map (λ q. q.name) p.profiles) (sorted (map (λ q. q.name) p.profiles)) ≡ true

  -- An activation is not before the preparation, lasts ten minutes, and has 64-bit counters.
  pub record IsActivation (prepared_instant : ℕ) (a : Activation) : Type 0 where
    pub activated_instant : ℕ
    pub activated_read : instant_of iso a.activated_at ≡ ok activated_instant
    pub not_before : prepared_instant ≤ activated_instant
    pub window : instant_of iso a.deadline_at ≡ ok (activated_instant + activation_window)
    pub rx_fits : a.pre_rx ≤ 2 ^ 64 - 1
    pub tx_fits : a.pre_tx ≤ 2 ^ 64 - 1
    pub handshake_fits : a.pre_handshake ≤ 2 ^ 64 - 1

  abbrev pub StateFits : ℕ → TransitionState → Type 0
  StateFits prepared_instant prepared = Unit
  StateFits prepared_instant (active a) = IsActivation prepared_instant a

  pub record IsTransition (t : Transition) : Type 0 where
    pub id_fits : is_transaction_id t.transaction_id ≡ true
    pub client_fits : is_client_name t.client_name ≡ true
    pub old_port_fits : (1 ≤ t.old_port) × (t.old_port ≤ 65535)
    pub new_port_fits : (1024 ≤ t.new_port) × (t.new_port ≤ 9999)
    pub ports_differ : t.new_port ≢ t.old_port
    pub backup_fits : is_backup_name t.backup_name ≡ true
    pub manifest_fits : is_sha256 t.manifest_sha256 ≡ true
    pub snapshot_fits : is_sha256 t.snapshot_sha256 ≡ true
    pub tools_fit : is_version t.tools_version ≡ true
    pub module_fits : is_version t.module_version ≡ true
    pub pending_fits : IsPending t.transaction_id t.client_name t.pending
    pub prepared_instant : ℕ
    pub prepared_read : instant_of iso t.prepared_at ≡ ok prepared_instant
    pub state_fits : StateFits prepared_instant t.state
    pub prestate_fits : is_sha256 t.prestate_sha256 ≡ true
    pub pending_digest_fits : is_sha256 t.pending_sha256 ≡ true

  read_profile-IsProfile :
      (id : String) (seen : List String) (v : Value)
      → Ensures (λ p. IsProfile id p × (one_of p.name seen ≡ false)) (read_profile l id seen v)
  unfolding read_profile path_is
  read_profile-IsProfile id seen v = bind-Ensures _ _ λ d _. bind-Ensures _ _ λ name_value _.
      bind-Ensures _ _ λ name h1. bind-Ensures _ _ λ _ h2. bind-Ensures _ _ λ _ _.
        bind-Ensures _ _ λ z _. bind-Ensures _ _ λ revision h3. bind-Ensures _ _ λ config_value _.
          bind-Ensures _ _ λ config h4. bind-Ensures _ _ λ qr_value _. bind-Ensures _ _ λ qr h5.
            ok-Ensures _ (
              record {
                name_fits = (validate_client_name-Ensures name_value).on name h1;
                revision_fits = positive_bound z (or_raise-eq-ok _ _ h3);
                config_place = (text_where-Ensures _ config_value _).on config h4;
                qr_place = (text_where-Ensures _ qr_value _).on qr h5;
              },
              raise_if-eq-ok _ _ h2,
            )

  read_profiles-IsProfile :
      (id : String) (seen : List String) (vs : List Value)
      → Ensures (λ ps. All (IsProfile id) ps × NoRepeat seen ps) (read_profiles l id seen vs)
  unfolding read_profiles
  read_profiles-IsProfile id seen [] = ok-Ensures [] (tt, tt)
  read_profiles-IsProfile id seen (v ∷ vs) = bind-Ensures _ _ λ p h. bind-Ensures _ _ λ ps hs.
      let (fits, fresh) = (read_profile-IsProfile id seen v).on p h in
      let (all_fit, none_repeat) = (read_profiles-IsProfile id _ vs).on ps hs in
      ok-Ensures (p ∷ ps) ((fits, all_fit), (fresh, none_repeat))

  read_pending-IsPending :
      (id client : String) (v : Value) → Ensures (IsPending id client) (read_pending l id client v)
  unfolding read_pending path_is
  read_pending-IsPending id client v = bind-Ensures _ _ λ d _. bind-Ensures _ _ λ root_value _.
      bind-Ensures _ _ λ root h1. bind-Ensures _ _ λ state_value _. bind-Ensures _ _ λ state h2.
        bind-Ensures _ _ λ config_value _. bind-Ensures _ _ λ config h3.
          bind-Ensures _ _ λ key_value _. bind-Ensures _ _ λ key h4. bind-Ensures _ _ λ _ _.
            bind-Ensures _ _ λ given _. bind-Ensures _ _ λ _ _. bind-Ensures _ _ λ profiles h5.
              bind-Ensures _ _ λ _ h6.
                let (fit, distinct) = (read_profiles-IsProfile id [] given).on profiles h5 in
                let (listed, ordered) =
                  &&-eq-true (one_of client (map (λ q. q.name) profiles)) _
                    (require-eq-ok _ _ h6) in
                ok-Ensures _ (record {
                  root_place = (text_where-Ensures _ root_value _).on root h1;
                  state_place = (text_where-Ensures _ state_value _).on state h2;
                  config_place = (text_where-Ensures _ config_value _).on config h3;
                  key_place = (text_where-Ensures _ key_value _).on key h4;
                  profiles_fit = fit;
                  no_repeat = distinct;
                  client_listed = listed;
                  in_order = ordered;
                })

  consistent :
      (p a d : ℕ)
      → (ltb a p || not (d == a + activation_window)) ≡ false
      → (p ≤ a) × (d ≡ a + activation_window)
  consistent p a d h = (ground arith, ground arith)

  read_activation-IsActivation :
      (instant : ℕ) (d : Fields) → Ensures (IsActivation instant) (read_activation l instant d)
  unfolding read_activation
  read_activation-IsActivation instant d = bind-Ensures _ _ λ activated _.
      bind-Ensures _ _ λ deadline _. bind-Ensures _ _ λ _ _.
        bind-Ensures _ _ λ activated_instant h1. bind-Ensures _ _ λ deadline_instant h2.
          bind-Ensures _ _ λ _ h3. bind-Ensures _ _ λ v1 _. bind-Ensures _ _ λ rx h4.
            bind-Ensures _ _ λ v2 _. bind-Ensures _ _ λ tx h5. bind-Ensures _ _ λ v3 _.
              bind-Ensures _ _ λ handshake h6. bind-Ensures _ _ λ activated_at h7.
                bind-Ensures _ _ λ deadline_at h8.
                  let (order, window) =
                    consistent instant activated_instant deadline_instant (raise_if-eq-ok _ _ h3) in
                  ok-Ensures _ (record {
                    activated_instant = activated_instant;
                    activated_read = transition_time-eq-ok iso activated (or_raise-eq-ok _ _ h7) h1;
                    not_before = order;
                    window =
                        transition_time-eq-ok iso deadline (or_raise-eq-ok _ _ h8) h2
                        ∙ ap ok window;
                    rx_fits = ((number_in-Ensures 0 _ v1 _).on rx h4).1;
                    tx_fits = ((number_in-Ensures 0 _ v2 _).on tx h5).1;
                    handshake_fits = ((number_in-Ensures 0 _ v3 _).on handshake h6).1;
                  })

  read_state-StateFits :
      (b : Bool) (instant : ℕ) (d : Fields) → Ensures (StateFits instant) (read_state l b instant d)
  unfolding read_state
  read_state-StateFits true instant d = bind-Ensures _ _ λ _ _. ok-Ensures prepared tt
  read_state-StateFits false instant d =
      bind-Ensures _ _
        λ a h. ok-Ensures (active a) ((read_activation-IsActivation instant d).on a h)

  identity_of-digests :
      (v : Value) → Ensures (λ q. (is_sha256 q.0 ≡ true) × (is_sha256 q.1 ≡ true)) (identity_of v)
  identity_of-digests v = bind-Ensures _ _ λ _ _. bind-Ensures _ _ λ v1 _. bind-Ensures _ _ λ m h.
      bind-Ensures _ _ λ v2 _.
        bind-Ensures _ _ λ s g.
          ok-Ensures _ ((text_where-Ensures _ v1 _).on m h, (text_where-Ensures _ v2 _).on s g)

  versions_of-versions :
      (v : Value) → Ensures (λ q. (is_version q.0 ≡ true) × (is_version q.1 ≡ true)) (versions_of v)
  versions_of-versions v = bind-Ensures _ _ λ _ _. bind-Ensures _ _ λ _ _. bind-Ensures _ _ λ _ _.
      bind-Ensures _ _ λ _ _. bind-Ensures _ _ λ _ _. bind-Ensures _ _ λ v1 _.
        bind-Ensures _ _ λ m h. bind-Ensures _ _ λ v2 _. bind-Ensures _ _ λ s g.
          ok-Ensures _ ((text_where-Ensures _ v1 _).on m h, (text_where-Ensures _ v2 _).on s g)

  -- Whatever JSON value is accepted as a transition is one: its texts and numbers are in their
  -- ranges, its ports differ, its pending paths lie where its ID says, its profiles are distinct, in
  -- order and include the client, and an activation is not before the preparation and lasts ten
  -- minutes.
  pub normalize-IsTransition :
      (v : Value) → Ensures IsTransition (normalize_transition_document l v)
  unfolding normalize_transition_document
  normalize-IsTransition v = bind-Ensures _ _ λ d _. bind-Ensures _ _ λ _ _. bind-Ensures _ _ λ _ _.
      bind-Ensures _ _ λ v1 _. bind-Ensures _ _ λ id h1. bind-Ensures _ _ λ _ _.
        bind-Ensures _ _ λ state _. bind-Ensures _ _ λ _ _. bind-Ensures _ _ λ _ _.
          bind-Ensures _ _ λ _ _. bind-Ensures _ _ λ _ _. bind-Ensures _ _ λ v3 _.
            bind-Ensures _ _ λ client h3. bind-Ensures _ _ λ v4 _. bind-Ensures _ _ λ old_port h4.
              bind-Ensures _ _ λ v5 _. bind-Ensures _ _ λ new_port _. bind-Ensures _ _ λ _ h5.
                bind-Ensures _ _ λ v6 _. bind-Ensures _ _ λ backup h6. bind-Ensures _ _ λ v7 _.
                  bind-Ensures _ _ λ identity h7. bind-Ensures _ _ λ _ _. bind-Ensures _ _ λ _ _.
                    bind-Ensures _ _ λ boundary _. bind-Ensures _ _ λ v9 _.
                      bind-Ensures _ _ λ versions h9. bind-Ensures _ _ λ v10 _.
                        bind-Ensures _ _ λ pending h10. bind-Ensures _ _ λ prepared_value _.
                          bind-Ensures _ _ λ instant h11. bind-Ensures _ _ λ read h12.
                            bind-Ensures _ _ λ v13 _. bind-Ensures _ _ λ prestate h13.
                              bind-Ensures _ _ λ v14 _. bind-Ensures _ _ λ digest h14.
                                bind-Ensures _ _ λ prepared_at h15.
                                  let (low, high, differ) =
                                    ports new_port old_port (raise_if-eq-ok _ _ h5) in
                                  ok-Ensures _ (record {
                                    id_fits = (validate_transaction_id-Ensures v1).on id h1;
                                    client_fits = (validate_client_name-Ensures v3).on client h3;
                                    old_port_fits = (number_in-Ensures 1 65535 v4 _).on old_port h4;
                                    new_port_fits = (low, high);
                                    ports_differ = differ;
                                    backup_fits = (text_where-Ensures _ v6 _).on backup h6;
                                    manifest_fits = ((identity_of-digests v7).on identity h7).0;
                                    snapshot_fits = ((identity_of-digests v7).on identity h7).1;
                                    tools_fit = ((versions_of-versions v9).on versions h9).0;
                                    module_fits = ((versions_of-versions v9).on versions h9).1;
                                    pending_fits =
                                        (read_pending-IsPending id client v10).on pending h10;
                                    prepared_instant = instant;
                                    prepared_read =
                                        transition_time-eq-ok iso prepared_value
                                          (or_raise-eq-ok _ _ h15) h11;
                                    state_fits =
                                        (read_state-StateFits (same state "prepared") instant d).on
                                          read h12;
                                    prestate_fits = (text_where-Ensures _ v13 _).on prestate h13;
                                    pending_digest_fits =
                                        (text_where-Ensures _ v14 _).on digest h14;
                                  })
