-- ===== src/Server/Accepts.antt =====
-- What `normalize_server_config` of awgctl/core.py accepts.
use amneziawg_manager.Prelude.{
  ℕ, ◌+◌, ◌-◌, ◌^◌, ◌≤◌, ◌<◌, ◌≡◌, ◌≢◌, inl, inr, refl, ◌∙◌, sym, String, true, false, List, [],
  ◌∷◌, any, ltb, ◌==◌, length, codes, same, same_iff, one_of, ||-eq-false, ||-false, Bool-cases,
  arith,
}
use amneziawg_manager.Result.{Ensures, bind-Ensures, ok-Ensures, require-eq-ok, raise_if-eq-ok}
use amneziawg_manager.Value.{Value}
use amneziawg_manager.Validate.{is_interface, text_where-Ensures}
use amneziawg_manager.Contracts.Texts.{is_empty, is_space}
use amneziawg_manager.Transition.Document.Accepts.{number_in-Ensures}
use amneziawg_manager.Clients.Address.{Network, Interface}
use amneziawg_manager.Obfuscation.Classic.{classic_profile-IsClassic}
use amneziawg_manager.Obfuscation.Profile.{classic, IsProfile, normalize_obfuscation-IsProfile}
use amneziawg_manager.Server.{
  Addresses, ServerConfig, is_inside, trimmed, is_hostname, validate_endpoint, added, read_dns,
  validate_dns, read_obfuscation, read_server, normalize_server_config,
}

-- The server's address is one of the subnet's, with its prefix.
pub record IsInside (i : Interface) (n : Network) : Type 0 where
  pub from : n.address ≤ i.ip
  pub to : i.ip < n.address + 2 ^ (32 - n.prefix)
  pub same_prefix : i.prefix_length ≡ n.prefix

is_inside-IsInside : (i : Interface) (n : Network) → is_inside i n ≡ true → IsInside i n
is_inside-IsInside i n h = record {
  from = ground arith;
  to = upper i.ip (n.address + 2 ^ (32 - n.prefix)) (ground arith);
  same_prefix = ground arith;
}
  where
    upper : (a b : ℕ) → ltb a b ≡ true → a < b
    upper a b h = ground arith

-- No text occurs twice.
abbrev pub Distinct : List String → Type 0
Distinct [] = Unit
Distinct (s ∷ ss) = (one_of s ss ≡ false) × Distinct ss

same-false : (s t : String) → same s t ≡ false → same t s ≡ false
same-false s t h = elim (Bool-cases (same t s)) [
  | inl e ↦ clash (sym ((same_iff s t).1 (sym ((same_iff t s).0 e))) ∙ h)
  | inr e ↦ e
]
  where
    clash : {A : Type 0} → true ≡ false → A
    clash e = cc

module _ (l : Addresses) where
  added_other :
      (s t : String) (ts : List String)
      → same s t ≡ false
      → one_of t ts ≡ false
      → one_of t (added l s ts) ≡ false
  added_other s t [] h k = ||-false _ _ (same-false s t h) refl
  added_other s t (u ∷ us) h k = elim (Bool-cases (same s u)) [
    | inl e ↦ rw e k
    | inr e ↦ rw e (
        let (first, rest) = ||-eq-false (same t u) _ k in
        ||-false _ _ first (added_other s t us h rest))
  ]

  added-Distinct : (s : String) (ts : List String) → Distinct ts → Distinct (added l s ts)
  added-Distinct s [] d = (refl, tt)
  added-Distinct s (t ∷ ts) (fresh, d) = elim (Bool-cases (same s t)) [
    | inl e ↦ rw e (fresh, d)
    | inr e ↦ rw e (added_other s t ts e fresh, added-Distinct s ts d)
  ]

  added_some : (s : String) (ts : List String) → added l s ts ≢ []
  added_some s [] e = cc
  added_some s (t ∷ ts) e = elim (Bool-cases (same s t)) [
    | inl f ↦ some_entry (rw f at e)
    | inr f ↦ some_entry (rw f at e)
  ]
    where
      some_entry : {x : String} {xs : List String} → x ∷ xs ≡ [] → ⊥
      some_entry h = cc

  read_dns-Distinct :
      (vs : List Value) (result : List String)
      → Distinct result
      → Ensures (λ r. Distinct r × (result ≢ [] → r ≢ [])) (read_dns l result vs)
  unfolding read_dns
  read_dns-Distinct [] result d = ok-Ensures result (d, λ h. h)
  read_dns-Distinct (v ∷ vs) result d = bind-Ensures _ _ λ s _. bind-Ensures _ _ λ a _. record {
    on = λ r h.
        let (distinct, given) =
          (read_dns-Distinct vs _ (added-Distinct (l.address_text a) result d)).on r h in
        (distinct, λ _. given (added_some (l.address_text a) result));
  }

  validate_dns-Distinct :
      (vs : List Value) → Ensures (λ r. Distinct r × (r ≢ [])) (validate_dns l vs)
  unfolding validate_dns read_dns
  validate_dns-Distinct [] = record { on = λ r h. cc }
  validate_dns-Distinct (v ∷ vs) = bind-Ensures _ _ λ s _. bind-Ensures _ _ λ a _. record {
    on = λ r h.
        let (distinct, given) =
          (read_dns-Distinct vs _ (added-Distinct (l.address_text a) [] tt)).on r h in
        (distinct, given (added_some (l.address_text a) []));
  }

  -- A host name or an IPv4 address, without a port.
  pub record IsEndpoint (s : String) : Type 0 where
    pub given : is_empty (trimmed l s) ≡ false
    pub short : length (codes (trimmed l s)) ≤ 253
    pub no_port : any (λ c. c == b':') (codes (trimmed l s)) ≡ false
    pub named : is_hostname l (trimmed l s) (l.ip_address (trimmed l s)) ≡ true

  validate_endpoint-IsEndpoint : (s : String) → Ensures (λ _. IsEndpoint s) (validate_endpoint l s)
  unfolding validate_endpoint
  validate_endpoint-IsEndpoint s = bind-Ensures _ _ λ _ h. bind-Ensures _ _ λ _ k.
      let (most, spaces) =
        ||-eq-false _ (any is_space (codes (trimmed l s))) (raise_if-eq-ok _ _ h) in
      let (least, port) = ||-eq-false _ (any (λ c. c == b':') (codes (trimmed l s))) most in
      let (empty, long) = ||-eq-false (is_empty (trimmed l s)) _ least in
      ok-Ensures _ (record {
        given = empty;
        short = small (length (codes (trimmed l s))) long;
        no_port = port;
        named = require-eq-ok _ _ k;
      })
    where
      small : (n : ℕ) → ltb 253 n ≡ false → n ≤ 253
      small n h = ground arith

  read_obfuscation-IsProfile :
      (schema mtu : ℕ) (v : Value) → Ensures (IsProfile mtu) (read_obfuscation l schema mtu v)
  unfolding read_obfuscation
  read_obfuscation-IsProfile schema mtu v = elim (Bool-cases (schema == 1)) [
    | inl e ↦
        rw e (bind-Ensures _ _ λ c h. ok-Ensures (classic c) ((classic_profile-IsClassic v).on c h))
    | inr e ↦ rw e (normalize_obfuscation-IsProfile mtu v)
  ]

  read_server-IsInside : (v w : Value) → Ensures (λ r. IsInside r.1 r.0) (read_server l v w)
  unfolding read_server
  read_server-IsInside v w = bind-Ensures _ _ λ _ _. bind-Ensures _ _ λ _ _.
      bind-Ensures _ _ λ subnet _. bind-Ensures _ _ λ server _.
        bind-Ensures _ _
          λ _ h. ok-Ensures _ (is_inside-IsInside server subnet (require-eq-ok _ _ h))

  -- The state of a server that the program works with.
  pub record IsServer (c : ServerConfig) : Type 0 where
    pub interface_fits : is_interface c.interface ≡ true
    pub external_fits : is_interface c.external_interface ≡ true
    pub inside : IsInside c.server c.subnet
    pub endpoint_fits : IsEndpoint c.endpoint
    pub port_fits : (1 ≤ c.listen_port) × (c.listen_port ≤ 65535)
    pub mtu_fits : (576 ≤ c.mtu) × (c.mtu ≤ 9000)
    pub keepalive_fits : c.keepalive ≤ 65535
    pub dns_fit : Distinct c.dns × (c.dns ≢ [])
    pub obfuscation_fits : IsProfile c.mtu c.obfuscation

  -- Whatever JSON value is accepted as the state of a server, of either schema, has names of
  -- interfaces, a server address inside its subnet and with its prefix, an endpoint without a port, a
  -- port, an MTU and a keepalive in their ranges, distinct DNS servers and at least one, and an
  -- obfuscation that satisfies the rules of its mode at this MTU.
  pub normalize_server_config-IsServer :
      (v : Value) → Ensures IsServer (normalize_server_config l v)
  unfolding normalize_server_config
  normalize_server_config-IsServer v = bind-Ensures _ _ λ _ _. bind-Ensures _ _ λ _ _.
      bind-Ensures _ _ λ schema _. bind-Ensures _ _ λ v1 _. bind-Ensures _ _ λ interface h1.
        bind-Ensures _ _ λ v2 _. bind-Ensures _ _ λ external h2. bind-Ensures _ _ λ _ _.
          bind-Ensures _ _ λ given _. bind-Ensures _ _ λ listed _. bind-Ensures _ _ λ v3 _.
            bind-Ensures _ _ λ v4 _. bind-Ensures _ _ λ server h3. bind-Ensures _ _ λ _ _.
              bind-Ensures _ _ λ endpoint _. bind-Ensures _ _ λ u h4. bind-Ensures _ _ λ v5 _.
                bind-Ensures _ _ λ port h5. bind-Ensures _ _ λ v6 _. bind-Ensures _ _ λ mtu h6.
                  bind-Ensures _ _ λ v7 _. bind-Ensures _ _ λ keepalive h7. bind-Ensures _ _ λ _ _.
                    bind-Ensures _ _ λ dns_given _. bind-Ensures _ _ λ dns h8.
                      bind-Ensures _ _ λ _ _. bind-Ensures _ _ λ use_psk _. bind-Ensures _ _ λ v9 _.
                        bind-Ensures _ _ λ obfuscation h9. bind-Ensures _ _ λ _ _.
                          bind-Ensures _ _ λ _ _. bind-Ensures _ _ λ _ _. bind-Ensures _ _ λ _ _.
                            bind-Ensures _ _ λ _ _. ok-Ensures _ (record {
                              interface_fits = (text_where-Ensures _ v1 _).on interface h1;
                              external_fits = (text_where-Ensures _ v2 _).on external h2;
                              inside = (read_server-IsInside v3 v4).on server h3;
                              endpoint_fits = (validate_endpoint-IsEndpoint endpoint).on u h4;
                              port_fits = (number_in-Ensures 1 65535 v5 _).on port h5;
                              mtu_fits = (number_in-Ensures 576 9000 v6 _).on mtu h6;
                              keepalive_fits = ((number_in-Ensures 0 65535 v7 _).on keepalive h7).1;
                              dns_fit = (validate_dns-Distinct dns_given).on dns h8;
                              obfuscation_fits =
                                  (read_obfuscation-IsProfile schema mtu v9).on obfuscation h9;
                            })
