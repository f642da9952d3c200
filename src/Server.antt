-- ===== src/Server.antt =====
-- The server's state: `normalize_server_config` of awgctl/core.py with its validators. The module
-- `ipaddress` is the parameter `Addresses`; an IPv4 address is its number.
pub mod Accepts
use Prim.Native.Char.{code}
use amneziawg_manager.Prelude.{
  ℕ, ◌+◌, ◌-◌, ◌^◌, ◌%◌, String, Bool, true, false, not, ◌&&◌, ◌||◌, Option, none, some, List, [],
  ◌∷◌, map, all, any, leb, ltb, ◌==◌, length, codes, is_alnum, same, if◌then◌else◌,
}
use amneziawg_manager.Prelude.Int.{in_range}
use amneziawg_manager.Prelude.Sort.{same_texts}
use amneziawg_manager.Result.{Result, ok, raised, ◌>>=◌, ◌>>◌, require, raise_if, or_raise}
use amneziawg_manager.Value.{
  Value, Fields, as_dict, as_text, as_int, as_bool, as_list, at, dict_of, has_exactly,
}
use amneziawg_manager.Validate.{is_interface, text_where}
use amneziawg_manager.Contracts.Texts.{strip, is_space, is_empty}
use amneziawg_manager.Contracts.Dict.{is_among, value_at}
use amneziawg_manager.Transition.Document.{number_in}
use amneziawg_manager.Releases.Semver.{split_at}
use amneziawg_manager.Clients.Address.{Network, Interface}
use amneziawg_manager.Obfuscation.Classic.{classic_profile}
use amneziawg_manager.Obfuscation.Profile.{Profile, classic, normalize_obfuscation}

-- What the code uses of `ipaddress`: each reading is `none` where it raises ValueError and for IPv6,
-- which the code rejects too, and the texts are those of `str`.
pub record Addresses : Type 0 where
  pub ip_network : String → Option Network
  pub ip_interface : String → Option Interface
  pub ip_address : String → Option ℕ
  pub network_text : Network → String
  pub address_text : ℕ → String

pub record ServerConfig : Type 0 where
  pub interface : String
  pub external_interface : String
  pub subnet : Network
  pub server : Interface
  pub endpoint : String
  pub listen_port : ℕ
  pub mtu : ℕ
  pub keepalive : ℕ
  pub dns : List String
  pub use_psk : Bool
  pub obfuscation : Profile

-- `text.rstrip(".")`
unfoldable pub strip_dots : String → String
strip_dots String.[] = String.[]
strip_dots (String.◌∷◌ c s) =
    let rest = strip_dots s in
    if is_empty rest && code c == b'.' then String.[] else String.◌∷◌ c rest

abbrev ends_alnum : List ℕ → Bool
ends_alnum [] = false
ends_alnum (c ∷ []) = is_alnum c
ends_alnum (c ∷ d ∷ cs) = ends_alnum (d ∷ cs)

abbrev starts_alnum : List ℕ → Bool
starts_alnum [] = false
starts_alnum (c ∷ cs) = is_alnum c

-- `[A-Za-z0-9](?:[A-Za-z0-9-]*[A-Za-z0-9])?`, of at most 63 characters
abbrev pub is_label : List ℕ → Bool
is_label cs =
    starts_alnum cs && ends_alnum cs && all (λ c. is_alnum c || c == b'-') cs && leb (length cs) 63

-- `server.ip in subnet and server.network == subnet`
abbrev pub is_inside : Interface → Network → Bool
is_inside i n =
    leb n.address i.ip
    && ltb i.ip (n.address + 2 ^ (32 - n.prefix))
    && i.ip - i.ip % 2 ^ (32 - i.prefix_length) == n.address
    && i.prefix_length == n.prefix

abbrev server_fields : List String
server_fields =
    "schema_version" ∷ "interface" ∷ "subnet" ∷ "server_address" ∷ "endpoint" ∷ "listen_port"
    ∷ "external_interface" ∷ "dns" ∷ "mtu" ∷ "keepalive" ∷ "use_psk" ∷ "obfuscation"
    ∷ "blocked_forward_ipv4" ∷ "paths" ∷ []

abbrev pub expected_paths : List (String × String)
expected_paths =
    ("runtime_config", "/etc/amnezia/amneziawg/awg0.conf")
    ∷ ("generated_config", "/opt/amneziawg/generated/awg0.conf")
    ∷ ("server_private_key", "/opt/amneziawg/keys/server/private")
    ∷ ("server_public_key", "/opt/amneziawg/keys/server/public")
    ∷ ("clients", "/opt/amneziawg/clients")
    ∷ ("client_keys", "/opt/amneziawg/keys/clients")
    ∷ ("revoked", "/opt/amneziawg/revoked")
    ∷ ("backups", "/opt/amneziawg/backups")
    ∷ []

abbrev paths_fit : Fields → Bool
paths_fit d =
    has_exactly (map (λ e. e.0) expected_paths) d
    && all (λ e. is_among (e.1 ∷ []) (value_at e.0 d)) expected_paths

abbrev pub blocked_networks : List String
blocked_networks =
    "0.0.0.0/8" ∷ "10.0.0.0/8" ∷ "100.64.0.0/10" ∷ "127.0.0.0/8" ∷ "169.254.0.0/16"
    ∷ "172.16.0.0/12" ∷ "192.0.0.0/24" ∷ "192.0.2.0/24" ∷ "192.168.0.0/16" ∷ "198.18.0.0/15"
    ∷ "198.51.100.0/24" ∷ "203.0.113.0/24" ∷ "224.0.0.0/4" ∷ "240.0.0.0/4" ∷ []

unfoldable pub read_texts : List Value → Result (List String)
read_texts [] = ok []
read_texts (v ∷ vs) = do
  s ← or_raise (as_text v) "blocked_forward_ipv4 must be a list of networks"
  ss ← read_texts vs
  ok (s ∷ ss)

module _ (l : Addresses) where
  open l use {ip_network, ip_interface, ip_address, network_text, address_text}

  abbrev pub is_hostname : String → Option ℕ → Bool
  is_hostname value (some address) = true
  is_hostname value none = all is_label (split_at b'.' (codes value))

  -- the endpoint, without spaces round it and dots at its end
  abbrev pub trimmed : String → String
  trimmed s = strip_dots (strip s)

  unfoldable pub validate_endpoint : String → Result String
  validate_endpoint s = do
    let value = trimmed s
    raise_if
        (is_empty value
          || ltb 253 (length (codes value))
          || any (λ c. c == b':') (codes value)
          || any is_space (codes value))
        "endpoint must be a hostname or IPv4 address without a port"
    require (is_hostname value (ip_address value)) "invalid endpoint hostname"
    ok value

  -- the loop of `validate_dns`, from the result so far
  abbrev pub added : String → List String → List String
  added s [] = s ∷ []
  added s (t ∷ ts) = let rest = added s ts in if same s t then t ∷ ts else t ∷ rest

  unfoldable pub read_dns : List String → List Value → Result (List String)
  read_dns result [] = ok result
  read_dns result (v ∷ vs) = do
    s ← or_raise (as_text v) "DNS addresses must be text"
    address ← or_raise (ip_address (strip s)) "invalid DNS address"
    read_dns (added (address_text address) result) vs

  unfoldable pub validate_dns : List Value → Result (List String)
  validate_dns [] = raised "at least one DNS server is required"
  validate_dns (v ∷ vs) = read_dns [] (v ∷ vs)

  unfoldable pub network_texts : List String → Result (List String)
  network_texts [] = ok []
  network_texts (s ∷ ss) = do
    n ← or_raise (ip_network s) "blocked_forward_ipv4 is invalid"
    ns ← network_texts ss
    ok (network_text n ∷ ns)

  -- the profile of either schema
  unfoldable pub read_obfuscation : ℕ → ℕ → Value → Result Profile
  read_obfuscation schema mtu v =
      if schema == 1
      then (do c ← classic_profile v; ok (classic c))
      else normalize_obfuscation mtu v

  unfoldable pub read_server : Value → Value → Result (Network × Interface)
  read_server subnet_value server_value = do
    subnet_text ← or_raise (as_text subnet_value) "managed subnet and server address must be text"
    server_text ← or_raise (as_text server_value) "managed subnet and server address must be text"
    subnet ← or_raise (ip_network subnet_text) "invalid managed subnet or server address"
    server ← or_raise (ip_interface server_text) "invalid managed subnet or server address"
    require (is_inside server subnet) "server address must use the managed IPv4 subnet prefix"
    ok (subnet, server)

  unfoldable pub normalize_server_config : Value → Result ServerConfig
  normalize_server_config config = do
    d ← dict_of server_fields config "server configuration missing fields"
    schema ← number_in 1 2 (← at "schema_version" d) "unsupported server configuration schema"
    interface ← text_where is_interface (← at "interface" d) "invalid interface name"
    external ←
        text_where is_interface (← at "external_interface" d) "invalid external interface name"
    given ←
        or_raise (as_list (← at "blocked_forward_ipv4" d))
          "blocked_forward_ipv4 must be a list of networks"
    listed ← read_texts given
    (subnet, server) ← read_server (← at "subnet" d) (← at "server_address" d)
    endpoint ← or_raise (as_text (← at "endpoint" d)) "endpoint must be text"
    valid_endpoint ← validate_endpoint endpoint
    port ← number_in 1 65535 (← at "listen_port" d) "listen_port must be an integer from 1 to 65535"
    mtu ← number_in 576 9000 (← at "mtu" d) "mtu must be an integer from 576 to 9000"
    keepalive ←
        number_in 0 65535 (← at "keepalive" d) "keepalive must be an integer from 0 to 65535"
    dns_given ← or_raise (as_list (← at "dns" d)) "dns must be a list"
    dns ← validate_dns dns_given
    use_psk ← or_raise (as_bool (← at "use_psk" d)) "use_psk must be boolean"
    obfuscation ← read_obfuscation schema mtu (← at "obfuscation" d)
    blocked ← network_texts listed
    require (same_texts blocked blocked_networks)
        "blocked_forward_ipv4 does not match the managed isolation policy"
    paths ←
        or_raise (as_dict (← at "paths" d)) "managed paths differ from the fixed production layout"
    require (paths_fit paths) "managed paths differ from the fixed production layout"
    ok (record {
      interface = interface;
      external_interface = external;
      subnet = subnet;
      server = server;
      endpoint = endpoint;
      listen_port = port;
      mtu = mtu;
      keepalive = keepalive;
      dns = dns;
      use_psk = use_psk;
      obfuscation = obfuscation;
    })
