-- ===== src/Tests/Clients.antt =====
-- The clients' addresses and expiry at concrete inputs.
use amneziawg_manager.Prelude.{true, ℕ, ◌≡◌, ◌↔◌, refl, some, List, [], ◌∷◌, In, arith}
use amneziawg_manager.Result.{ok, Ensures, ◌>>=◌}
use amneziawg_manager.Value.{end}
use amneziawg_manager.Clients.Address.{
  Network, Interface, first_host, host_count, IsHost, IsFree, Chosen, addresses,
  next_client_address, next_client_address-Ensures, next_client_address_iff,
}
use amneziawg_manager.Clients.Status.{
  Client, Midnight, IsEligible, client_is_server_eligible, client_is_server_eligible_iff,
  client_is_server_eligible-earlier, effective_client_status, is_active, stored_status,
}
use amneziawg_manager.Clients.Expiry.{
  clients_due_for_expiry, clients_requiring_expiry_reconciliation, Separates, AllBound,
  bind_expiry_records, keep_if, is_due, is_expired, clients_requiring_expiry_reconciliation-Ensures,
  clients_due_for_expiry_iff, bind_expiry_records_iff,
}

-- 10.8.0.0/29, whose server holds the first host and whose client the second
abbrev subnet : Network
subnet = record { address = 0x0a080000; prefix = 29 }

abbrev server : Interface
server = record { ip = 0x0a080001; prefix_length = 29 }

abbrev allocated : List Interface
allocated = record { ip = 0x0a080002; prefix_length = 32 } ∷ []

abbrev midnight : Midnight
midnight _ = some 100

abbrev laptop : Client
laptop = record {
  name = "laptop";
  address = "10.8.0.2/32";
  public_key = "key";
  expires = some "2026-09-01";
  status = some "active";
  others = end;
}

abbrev revoked : Client
revoked = record laptop { name = "phone"; status = some "revoked" }

next_client_address-Ensures_example :
    Ensures
      (Chosen subnet server (addresses allocated))
      (next_client_address subnet server allocated)
next_client_address-Ensures_example = next_client_address-Ensures subnet server allocated

next_client_address_iff_example :
    ((i : Interface) × (next_client_address subnet server allocated ≡ ok i)) ↔ (
      (y : ℕ) × IsHost (first_host subnet) (host_count subnet) y
      × IsFree server (addresses allocated) y)
next_client_address_iff_example = next_client_address_iff subnet server allocated

client_is_server_eligible_iff_example :
    (client_is_server_eligible midnight 99 laptop ≡ ok true) ↔ IsEligible midnight 99 laptop
client_is_server_eligible_iff_example = client_is_server_eligible_iff midnight 99 laptop

eligible_before : client_is_server_eligible midnight 99 laptop ≡ ok true
unfolding client_is_server_eligible effective_client_status is_active ◌>>=◌
eligible_before = refl

client_is_server_eligible-earlier_example : client_is_server_eligible midnight 7 laptop ≡ ok true
client_is_server_eligible-earlier_example =
    client_is_server_eligible-earlier midnight 7 99 laptop (omega arith) eligible_before

clients_requiring_expiry_reconciliation-Ensures_example :
    Ensures
      (Separates midnight 100 (revoked ∷ laptop ∷ []))
      (clients_requiring_expiry_reconciliation midnight 100 (revoked ∷ laptop ∷ []))
clients_requiring_expiry_reconciliation-Ensures_example =
    clients_requiring_expiry_reconciliation-Ensures midnight 100 (revoked ∷ laptop ∷ [])

due_run : clients_due_for_expiry midnight 100 (revoked ∷ laptop ∷ []) ≡ ok (laptop ∷ [])
unfolding clients_due_for_expiry keep_if is_due is_expired effective_client_status ◌>>=◌
due_run = refl

clients_due_for_expiry_iff_example : In laptop (laptop ∷ []) ↔ (
    In laptop (revoked ∷ laptop ∷ [])
    × (stored_status laptop ≡ "active")
    × (IsEligible midnight 100 laptop → ⊥))
clients_due_for_expiry_iff_example =
    clients_due_for_expiry_iff midnight 100 (revoked ∷ laptop ∷ []) due_run laptop

bind_expiry_records_iff_example :
    (bind_expiry_records (laptop ∷ []) (revoked ∷ laptop ∷ []) ≡ ok (laptop ∷ []))
    ↔ AllBound (revoked ∷ laptop ∷ []) (laptop ∷ []) (laptop ∷ [])
bind_expiry_records_iff_example =
    bind_expiry_records_iff (laptop ∷ []) (revoked ∷ laptop ∷ []) (laptop ∷ [])
