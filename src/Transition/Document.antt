-- ===== src/Transition/Document.antt =====
-- `normalize_transition_document` of awgctl/core.py: the strict reading of a transition's document,
-- and the document of a transition.
pub mod Written
pub mod Faithful
pub mod Accepts
pub mod RoundTrip
use Prim.Native.String.{◌++◌ as append}
use amneziawg_manager.Prelude.{
  ℕ, zero, suc, ◌+◌, ◌-◌, ◌*◌, ◌^◌, String, Bool, true, false, not, ◌||◌, ◌&&◌, Option, none, some,
  List, [], ◌∷◌, map, ltb, leb, ◌==◌, length, same, one_of, codes, is_digit, if◌then◌else◌,
}
use amneziawg_manager.Prelude.Int.{ℤ, pos, negsuc, in_range}
use amneziawg_manager.Prelude.Sort.{sorted, same_texts}
use amneziawg_manager.Result.{Result, ok, raised, ◌>>=◌, ◌>>◌, raise_if, require, or_raise}
use amneziawg_manager.Value.{
  Value, Items, Fields, null, bool, int, str, arr, obj, item, nil, field, end, as_dict, as_text,
  as_int, as_bool, as_list, is_null, at, dict_of,
}
use amneziawg_manager.Timestamp.{Iso, transition_time}
use amneziawg_manager.Validate.{
  validate_transaction_id, validate_client_name, is_sha256, is_backup_name, text_where,
}

-- What the reading uses of Python's library: `datetime.fromisoformat`, and whether two texts are
-- equal as `pathlib.Path`s.
pub record Library : Type 0 where
  pub iso : Iso
  pub same_path : String → String → Bool

-- an entry of `pending["profiles"]`
pub record PendingProfile : Type 0 where
  pub name : String
  pub config : String
  pub qr : String
  pub current_revision : ℕ

pub record Pending : Type 0 where
  pub root : String
  pub server_state : String
  pub server_config : String
  pub header_key : String
  pub profiles : List PendingProfile

-- the fields of an active transition alone
pub record Activation : Type 0 where
  pub activated_at : String
  pub deadline_at : String
  pub pre_rx : ℕ
  pub pre_tx : ℕ
  pub pre_handshake : ℕ

pub data TransitionState : Type 0 where
  prepared : TransitionState
  active : Activation → TransitionState

pub data Boundary : Type 0 where
  lightsail external_firewall : Boundary

pub record Transition : Type 0 where
  pub transaction_id : String
  pub state : TransitionState
  pub client_name : String
  pub old_port : ℕ
  pub new_port : ℕ
  pub backup_name : String
  pub manifest_sha256 : String
  pub snapshot_sha256 : String
  pub ingress_boundary : Boundary
  pub tools_version : String
  pub module_version : String
  pub pending : Pending
  pub prepared_at : String
  pub prestate_sha256 : String
  pub pending_sha256 : String

-- the three numbers of a version: `k` of them are left after this one
numbers : ℕ → Bool → List ℕ → Bool
numbers k seen [] = seen && k == 0
numbers k seen (c ∷ cs) =
    let more = numbers k true cs in
    let next = numbers (k - 1) false cs in
    if is_digit c then more else if c == b'.' && seen && not (k == 0) then next else false

-- `[0-9]+\.[0-9]+\.[0-9]+`
unfoldable pub is_version : String → Bool
unfolding numbers
is_version s = numbers 2 false (codes s)

abbrev transition_fields : List String
transition_fields =
    "schema_version" ∷ "transaction_id" ∷ "state" ∷ "mode" ∷ "profile_name" ∷ "client_name"
    ∷ "old_port" ∷ "new_port" ∷ "backup_name" ∷ "backup_identity" ∷ "pending" ∷ "ingress_boundary"
    ∷ "capability" ∷ "prepared_at" ∷ "activated_at" ∷ "deadline_at" ∷ "pre_rx" ∷ "pre_tx"
    ∷ "pre_handshake" ∷ "prestate_sha256" ∷ "pending_sha256" ∷ []

-- a text equal to the one expected
unfoldable pub text_is : String → Value → String → Result String
text_is expected v e = text_where (λ s. same s expected) v e

-- an integer in the range, not a bool
unfoldable pub number_in : ℕ → ℕ → Value → String → Result ℕ
number_in lo hi v e = do z ← or_raise (as_int v) e; or_raise (in_range lo hi z) e

unfoldable pub boundary_named : String → Option Boundary
boundary_named s =
    if same s "lightsail"
    then some lightsail
    else if same s "equivalent-external-firewall"
    then some external_firewall
    else none

unfoldable pub is_true : Value → Result Bool
is_true v = do
  b ← or_raise (as_bool v) "transition capability evidence is invalid"
  require b "transition capability evidence is invalid"
  ok b

abbrev versions_of : Value → Result (String × String)
versions_of v = do
  d ←
      dict_of ("policy_version" ∷ "tools_version" ∷ "module_version" ∷ "qualified" ∷ []) v
        "transition capability evidence is invalid"
  policy ← number_in 1 1 (← at "policy_version" d) "transition capability evidence is invalid"
  qualified ← is_true (← at "qualified" d)
  tools ← text_where is_version (← at "tools_version" d) "unrecognized awg tools version output"
  module_version ←
      text_where is_version (← at "module_version" d) "unrecognized AmneziaWG module version output"
  ok (tools, module_version)

abbrev identity_of : Value → Result (String × String)
identity_of v = do
  d ←
      dict_of ("manifest_sha256" ∷ "snapshot_sha256" ∷ []) v
        "transition backup cryptographic identity is invalid"
  manifest ←
      text_where is_sha256 (← at "manifest_sha256" d)
        "transition backup cryptographic identity is invalid"
  snapshot ←
      text_where is_sha256 (← at "snapshot_sha256" d)
        "transition backup cryptographic identity is invalid"
  ok (manifest, snapshot)

-- PENDING_TRANSITIONS / transaction_id
abbrev pub expected_root : String → String
expected_root id = append "/opt/amneziawg/pending/obfuscation/" id

-- `value >= 1`
abbrev pub positive : ℤ → Option ℕ
positive (pos n) = if leb 1 n then some n else none
positive (negsuc n) = none

-- expected_root / "clients" / name / f"{name}{suffix}"
abbrev pub profile_path : String → String → String → String
profile_path id name suffix =
    append (expected_root id) (append "/clients/" (append name (append "/" (append name suffix))))

-- `client_name not in seen or [item["name"] for item in profiles] != sorted(seen)`
abbrev pub is_canonical : String → List PendingProfile → Bool
is_canonical client ps =
    one_of client (map (λ p. p.name) ps)
    && same_texts (map (λ p. p.name) ps) (sorted (map (λ p. p.name) ps))

-- the fields that a prepared transition leaves null
abbrev pub active_fields : List String
active_fields = "activated_at" ∷ "deadline_at" ∷ "pre_rx" ∷ "pre_tx" ∷ "pre_handshake" ∷ []

unfoldable pub all_null : List String → Fields → Result (Unit {0})
all_null [] d = ok tt
all_null (f ∷ fs) d = do
  v ← at f d
  require (is_null v) "prepared transition contains active-only state"
  all_null fs d

-- ten minutes, in microseconds
abbrev pub activation_window : ℕ
activation_window = 600_000_000

module _ (l : Library) where
  -- a text that is the expected path
  unfoldable pub path_is : String → Value → String → Result String
  path_is expected v e = text_where (λ s. l.same_path s expected) v e

  -- one entry of the profiles, whose name was not seen before
  unfoldable pub read_profile : String → List String → Value → Result PendingProfile
  read_profile id seen v = do
    d ←
        dict_of ("name" ∷ "config" ∷ "qr" ∷ "current_revision" ∷ []) v
          "transition pending profile entry is invalid"
    name ← validate_client_name (← at "name" d)
    raise_if (one_of name seen) "transition pending profile identity is invalid"
    z ←
        or_raise (as_int (← at "current_revision" d))
          "transition pending profile identity is invalid"
    revision ← or_raise (positive z) "transition pending profile identity is invalid"
    config ←
        path_is (profile_path id name ".conf") (← at "config" d)
          "transition pending profile path differs from the protected layout"
    qr ←
        path_is (profile_path id name ".png") (← at "qr" d)
          "transition pending profile path differs from the protected layout"
    ok (record { name = name; config = config; qr = qr; current_revision = revision })

  unfoldable pub read_profiles : String → List String → List Value → Result (List PendingProfile)
  read_profiles id seen [] = ok []
  read_profiles id seen (v ∷ vs) = do
    p ← read_profile id seen v
    ps ← read_profiles id (p.name ∷ seen) vs
    ok (p ∷ ps)

  unfoldable pub read_pending : String → String → Value → Result Pending
  read_pending id client v = do
    d ←
        dict_of ("root" ∷ "server_state" ∷ "server_config" ∷ "header_key" ∷ "profiles" ∷ []) v
          "transition pending paths are invalid"
    root ←
        path_is (expected_root id) (← at "root" d)
          "transition pending path differs from the protected layout"
    server_state ←
        path_is (append (expected_root id) "/server.json") (← at "server_state" d)
          "transition pending path differs from the protected layout"
    server_config ←
        path_is (append (expected_root id) "/awg0.conf") (← at "server_config" d)
          "transition pending path differs from the protected layout"
    header_key ←
        path_is (append (expected_root id) "/header-protection") (← at "header_key" d)
          "transition pending path differs from the protected layout"
    given ←
        or_raise (as_list (← at "profiles" d)) "transition pending profile set is empty or invalid"
    require (leb 1 (length given)) "transition pending profile set is empty or invalid"
    profiles ← read_profiles id [] given
    require (is_canonical client profiles) "transition pending profile set is not canonical"
    ok (record {
      root = root;
      server_state = server_state;
      server_config = server_config;
      header_key = header_key;
      profiles = profiles;
    })

  unfoldable pub read_activation : ℕ → Fields → Result Activation
  read_activation prepared_instant d = do
    activated ← at "activated_at" d
    deadline ← at "deadline_at" d
    raise_if (is_null activated || is_null deadline)
        "active transition is missing activation timestamps"
    activated_instant ← transition_time l.iso activated
    deadline_instant ← transition_time l.iso deadline
    raise_if
        (ltb activated_instant prepared_instant
          || not (deadline_instant == activated_instant + activation_window))
        "active transition timestamps are inconsistent"
    rx ← number_in 0 (2 ^ 64 - 1) (← at "pre_rx" d) "pre_rx must be an unsigned 64-bit integer"
    tx ← number_in 0 (2 ^ 64 - 1) (← at "pre_tx" d) "pre_tx must be an unsigned 64-bit integer"
    handshake ←
        number_in 0 (2 ^ 64 - 1) (← at "pre_handshake" d)
          "pre_handshake must be an unsigned 64-bit integer"
    activated_at ← or_raise (as_text activated) "activated_at"
    deadline_at ← or_raise (as_text deadline) "deadline_at"
    ok (record {
      activated_at = activated_at;
      deadline_at = deadline_at;
      pre_rx = rx;
      pre_tx = tx;
      pre_handshake = handshake;
    })

  -- by the text of the state, which is one of the two
  unfoldable pub read_state : Bool → ℕ → Fields → Result TransitionState
  read_state true prepared_instant d = do all_null active_fields d; ok prepared
  read_state false prepared_instant d = do a ← read_activation prepared_instant d; ok (active a)

  -- The strict contract of the document.
  unfoldable pub normalize_transition_document : Value → Result Transition
  normalize_transition_document value = do
    d ← dict_of transition_fields value "obfuscation transition fields are incomplete or unexpected"
    schema ← number_in 1 1 (← at "schema_version" d) "unsupported obfuscation transition schema"
    id ← validate_transaction_id (← at "transaction_id" d)
    state ←
        text_where (λ s. one_of s ("prepared" ∷ "active" ∷ [])) (← at "state" d)
          "obfuscation transition state must be prepared or active"
    mode ← text_is "awg31" (← at "mode" d) "unsupported obfuscation transition mode or profile"
    profile ←
        text_is "russia-ios-v1" (← at "profile_name" d)
          "unsupported obfuscation transition mode or profile"
    client ← validate_client_name (← at "client_name" d)
    old_port ← number_in 1 65535 (← at "old_port" d) "old_port must be an integer from 1 to 65535"
    new_port ← number_in 1 65535 (← at "new_port" d) "new_port must be an integer from 1 to 65535"
    raise_if (not (leb 1024 new_port && leb new_port 9999) || new_port == old_port)
        "new transition port must be distinct and within 1024..9999"
    backup ← text_where is_backup_name (← at "backup_name" d) "invalid transition backup identity"
    identity ← identity_of (← at "backup_identity" d)
    boundary_text ←
        or_raise (as_text (← at "ingress_boundary" d))
          "transition ingress boundary attestation is invalid"
    boundary ←
        or_raise (boundary_named boundary_text) "transition ingress boundary attestation is invalid"
    versions ← versions_of (← at "capability" d)
    pending ← read_pending id client (← at "pending" d)
    prepared_value ← at "prepared_at" d
    prepared_instant ← transition_time l.iso prepared_value
    read ← read_state (same state "prepared") prepared_instant d
    prestate ←
        text_where is_sha256 (← at "prestate_sha256" d) "transition prestate digest is invalid"
    pending_digest ←
        text_where is_sha256 (← at "pending_sha256" d)
          "transition pending artifact digest is invalid"
    prepared_at ← or_raise (as_text prepared_value) "prepared_at"
    ok (record {
      transaction_id = id;
      state = read;
      client_name = client;
      old_port = old_port;
      new_port = new_port;
      backup_name = backup;
      manifest_sha256 = identity.0;
      snapshot_sha256 = identity.1;
      ingress_boundary = boundary;
      tools_version = versions.0;
      module_version = versions.1;
      pending = pending;
      prepared_at = prepared_at;
      prestate_sha256 = prestate;
      pending_sha256 = pending_digest;
    })
