-- ===== src/Tests/Server.antt =====
-- The state of a server of schema 1, with a small table in place of `ipaddress`.
use amneziawg_manager.Prelude.{
  ℕ, ◌+◌, String, true, Option, none, some, List, [], ◌∷◌, same, if◌then◌else◌,
}
use amneziawg_manager.Prelude.Int.{pos}
use amneziawg_manager.Result.{Result, Ensures}
use amneziawg_manager.Value.{Value, Items, Fields, obj, arr, field, end, str, int, bool, item, nil}
use amneziawg_manager.Clients.Address.{Network}
use amneziawg_manager.Server.{
  Addresses, ServerConfig, blocked_networks, expected_paths, normalize_server_config,
}
use amneziawg_manager.Server.Accepts.{IsServer, normalize_server_config-IsServer}

abbrev position : String → ℕ → List String → Option ℕ
position s n [] = none
position s n (t ∷ ts) = let later = position s (n + 1) ts in if same s t then some n else later

abbrev entry : ℕ → List String → String
entry n [] = ""
entry ℕ.zero (t ∷ ts) = t
entry (ℕ.suc n) (t ∷ ts) = entry n ts

abbrev network_or : Option ℕ → Option Network
network_or none = none
network_or (some n) = some (record { address = n; prefix = 32 })

abbrev table : Addresses
table = record {
  ip_network = λ s.
      if same s "10.8.0.0/24"
      then some (record { address = 168296448; prefix = 24 })
      else network_or (position s 0 blocked_networks);
  ip_interface = λ s. some (record { ip = 168296449; prefix_length = 24 });
  ip_address = λ s. if same s "vpn.example.org" then none else some 16843009;
  network_text = λ n. entry n.address blocked_networks;
  address_text = λ a. "1.1.1.1";
}

abbrev texts : List String → Items
texts [] = nil
texts (s ∷ ss) = item (str s) (texts ss)

abbrev path_fields : List (String × String) → Fields
path_fields [] = end
path_fields ((k, v) ∷ es) = field k (str v) (path_fields es)

abbrev classic_parameters : Value
classic_parameters = obj (
    field "Jc" (int (pos 4)) (
      field "Jmin" (int (pos 40)) (
        field "Jmax" (int (pos 70)) (
          field "S1" (int (pos 20)) (
            field "S2" (int (pos 30)) (
              field "H1" (int (pos 5)) (
                field "H2" (int (pos 6))
                  (field "H3" (int (pos 7)) (field "H4" (int (pos 8)) end)))))))))

abbrev state : Value
state = obj (
    field "schema_version" (int (pos 1)) (
      field "interface" (str "awg0") (
        field "subnet" (str "10.8.0.0/24") (
          field "server_address" (str "10.8.0.1/24") (
            field "endpoint" (str "vpn.example.org") (
              field "listen_port" (int (pos 443)) (
                field "external_interface" (str "eth0") (
                  field "dns" (arr (texts ("1.1.1.1" ∷ []))) (
                    field "mtu" (int (pos 1280)) (
                      field "keepalive" (int (pos 25)) (
                        field "use_psk" (bool true) (
                          field "obfuscation" classic_parameters (
                            field "blocked_forward_ipv4" (arr (texts blocked_networks))
                              (field "paths" (obj (path_fields expected_paths)) end))))))))))))))

abbrev state_run : Result ServerConfig
state_run = normalize_server_config table state

normalize_server_config-IsServer_example : Ensures (IsServer table) state_run
normalize_server_config-IsServer_example = normalize_server_config-IsServer table state
