-- ===== src/Tests/Host.antt =====
-- A host that a command can be run on: one interface, a firewall that is up or down, and a systemd
-- whose unit runs the hooks.
use mathlib.Core.Path.{subst}
use amneziawg_manager.Prelude.{
  ℕ, ◌+◌, ◌-◌, ◌*◌, String, ◌≡◌, refl, sym, Bool, true, false, not, Option, none, some, List, [],
  ◌∷◌, is_digit, codes, same, if◌then◌else◌,
}
use amneziawg_manager.Prelude.Int.{pos}
use amneziawg_manager.Result.{Result, ok, raised}
use amneziawg_manager.Value.{Value}
use amneziawg_manager.Timestamp.{Iso}
use amneziawg_manager.Service.Intent.{Hook, up, down, Intent}
use amneziawg_manager.Service.Document.{document, normalize_service_operation_intent}
use amneziawg_manager.Service.World.{Shared, World, Host, written, index, no_device}
use amneziawg_manager.Service.Load.{load_required}
use amneziawg_manager.Service.Load.ReadBack.{
  load_document-eq, load_required-none, load_required-normalize,
}
use amneziawg_manager.Service.Progress.{advance}
use amneziawg_manager.Service.Postcondition.Facts.{SameOperation}
use amneziawg_manager.Service.Lifecycle.Steps.{KeepsOperation}

abbrev digits : ℕ → List ℕ → ℕ
digits n [] = n
digits n (c ∷ cs) = digits (if is_digit c then n * 10 + (c - b'0') else n) cs

-- the digits of a timestamp, as one number
abbrev pub iso : Iso
iso s = some (record { instant = digits 0 (codes s); utc_offset = some (pos 0) })

pub record Machine : Type 0 where
  pub active : Bool
  pub firewall : Hook

abbrev is_up : Hook → Bool
is_up up = true
is_up down = false

abbrev firewall_matches : Hook → Hook → Bool
firewall_matches up k = is_up k
firewall_matches down k = not (is_up k)

abbrev noon : String
noon = "2026-09-01T12:00:00Z"

abbrev pub operation : String
operation = "0123456789abcdef0123456789abcdef"

abbrev pub digest : String
digest = "0123456789abcdef0123456789abcdef0123456789abcdef0123456789abcdef"

abbrev advanced : Result Intent → Option Value → Option Value
advanced (ok i) v = some (document (advance i noon))
advanced (raised e) v = v

abbrev moved : Option Value → Option Value
moved none = none
moved (some v) = advanced (normalize_service_operation_intent iso v) (some v)

-- `start` brings everything up, and `stop` down; the unit's hook advances the operation.
abbrev systemctl : String → Shared Machine → Result (Unit {0}) × Shared Machine
systemctl verb s = (
  ok tt,
  record {
    document = moved s.document;
    outside =
        if same verb "stop"
        then record { active = false; firewall = down }
        else record { active = true; firewall = up };
  },
)

abbrev pub host : Host
host = record {
  State = Machine;
  iso = iso;
  now = λ s. noon;
  process_identity = λ s. ok (4242, 777);
  token = λ s. operation;
  runtime_directory = λ s. ok tt;
  readable = λ s. ok tt;
  write = λ s v. written;
  unlink = λ s. written;
  unlocks = λ s. true;
  relocks = λ s. true;
  is_active = λ s unit. ok (if s.active then 0 else 3);
  if_nametoindex = λ s interface. if s.active then index (pos 7) else no_device;
  firewall_is = λ s k. ok (firewall_matches s.firewall k);
  transition_id = λ s. ok none;
  generation = λ s. ok digest;
  config_interface = λ s. ok "awg0";
  apply_firewall = λ s. (ok tt, record s { firewall = up });
  firewall_cleanup = λ s. (ok tt, record s { firewall = down });
  systemctl = λ verb unit s. systemctl verb s;
}

-- the lock held once, the service down and nothing recorded
abbrev pub idle : World Machine
idle = record {
  lock = record { depth = 1; released = false };
  shared = record { document = none; outside = record { active = false; firewall = down } };
}

moved-document :
    (o : Option Value) (m : Machine) (i : Intent)
    → load_required host (record { document = o; outside = m }) ≡ ok i
    → moved o ≡ some (document (advance i noon))
moved-document none m i e =
    absurd (load_required-none host (record { document = none; outside = m }) i refl e)
moved-document (some v) m i e =
    rw (load_required-normalize host (record { document = some v; outside = m }) v i refl e)

advance-SameOperation : (i : Intent) (now : String) → SameOperation i (advance i now)
unfolding advance
advance-SameOperation i now = record { same_id = refl; same_action = refl; same_interface = refl }

moved-SameOperation :
    (o : Option Value) (m n : Machine) (i j : Intent)
    → load_required host (record { document = o; outside = m }) ≡ ok i
    → load_required host (record { document = moved o; outside = n }) ≡ ok j
    → SameOperation i j
moved-SameOperation o m n i j r q =
    subst (SameOperation i)
      (sym (
        load_document-eq host (record { document = moved o; outside = n }) (advance i noon) j
          (moved-document o m i r) q))
      (advance-SameOperation i noon)

-- the host meets the assumption of the theorems
pub host-KeepsOperation : KeepsOperation host
host-KeepsOperation verb unit s i j r q =
    moved-SameOperation s.document s.outside (systemctl verb s).1.outside i j r q
