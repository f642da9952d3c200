-- ===== src/Tests/Service.antt =====
-- The service lifecycle on the test host.
use amneziawg_manager.Prelude.{refl, arith, ◌≡◌, ◌↔◌, ◌⊎◌, true, false, some, none}
use amneziawg_manager.Result.{Result, ok, Ensures}
use amneziawg_manager.Service.Intent.{
  start, invoking, requested, Intent, IsValid, down, requested_actions,
}
use amneziawg_manager.Service.Document.{document, normalize_service_operation_intent}
use amneziawg_manager.Validate.{is_transaction_id, is_interface, is_sha256}
use amneziawg_manager.Timestamp.{instant_of}
use amneziawg_manager.Service.Document.Accepts.{normalize-IsValid}
use amneziawg_manager.Service.Document.Faithful.{normalize-document_iff}
use amneziawg_manager.Service.World.{World, is_held}
use amneziawg_manager.Step.Ends.{Ends}
use amneziawg_manager.Service.Store.{compare_and_swap, delete_intent}
use amneziawg_manager.Service.Load.{load_optional}
use amneziawg_manager.Service.Load.ReadBack.{load_required-document, load_required-optional}
use amneziawg_manager.Service.Store.Returns.{compare_and_swap-returns, delete_intent-returns}
use amneziawg_manager.Service.Store.Swap.{with_document, Swapped, NotSwapped, compare_and_swap-Ends}
use amneziawg_manager.Service.Store.Delete.{Deleted, NotDeleted, delete_intent-Ends}
use amneziawg_manager.Service.Firewall.{run_firewall_action_locked}
use amneziawg_manager.Service.Firewall.Hooks.{Ran, Failed, run_firewall_action_locked-Ends}
use amneziawg_manager.Service.Lifecycle.{compensate_service_operation_locked}
use amneziawg_manager.Service.Lifecycle.Compensation.{Compensated, compensate-Ends}
use amneziawg_manager.Service.Command.{reconcile_service_operation_locked, change_service}
use amneziawg_manager.Service.Command.Reconcile.{Reconciled, reconcile-Ends}
use amneziawg_manager.Service.Command.Change.{Reached, Aborted, change_service-Ends}
use amneziawg_manager.Tests.Host.{Machine, iso, host, idle, operation, digest, host-KeepsOperation}

-- an operation that a process left behind while it was invoking `start`
abbrev left_behind : Intent
left_behind = record {
  operation_id = operation;
  service_action = start;
  interface = "awg0";
  phase = invoking;
  goal = requested;
  expected_actions = requested_actions start;
  next_action = 0;
  transition_id = none;
  generation_sha256 = digest;
  owner = some (99, 5);
  pre_service_active = false;
  pre_firewall_up = false;
  created_at = "2026-09-01T11:00:00Z";
  updated_at = "2026-09-01T11:00:00Z";
}

abbrev crashed : World Machine
crashed = record idle {
  shared = record {
    document = some (document left_behind);
    outside = record { active = true; firewall = down };
  };
}

start_run : Result (Unit {0}) × World Machine
start_run = change_service host start "awg0" idle

recovery_run : Result (Unit {0}) × World Machine
recovery_run = reconcile_service_operation_locked host crashed

normalize-IsValid_example :
    Ensures (IsValid iso) (normalize_service_operation_intent iso (document left_behind))
normalize-IsValid_example = normalize-IsValid iso (document left_behind)

normalize-document_iff_example :
    (normalize_service_operation_intent iso (document left_behind) ≡ ok left_behind)
    ↔ (IsValid iso left_behind × (left_behind ≡ left_behind))
normalize-document_iff_example = normalize-document_iff iso left_behind left_behind

compare_and_swap-Ends_example :
    Ends
      (λ _ w'. Swapped host left_behind none none idle w')
      (λ _ w'. NotSwapped host left_behind none none idle w')
      (compare_and_swap host left_behind none none idle)
compare_and_swap-Ends_example = compare_and_swap-Ends host left_behind none none idle

delete_intent-Ends_example :
    Ends
      (λ _ w'. Deleted host operation crashed w')
      (λ _ w'. NotDeleted host operation crashed w')
      (delete_intent host operation crashed)
delete_intent-Ends_example = delete_intent-Ends host operation crashed

run_firewall_action_locked-Ends_example :
    Ends
      (λ _ w'. Ran host "up" crashed w')
      (λ _ w'. Failed host crashed w')
      (run_firewall_action_locked host "up" crashed)
run_firewall_action_locked-Ends_example = run_firewall_action_locked-Ends host "up" crashed

compensate-Ends_example :
    Ends
      (λ _ w'. Compensated host "awg0" w')
      (λ e w'. (e ≡ "fail-safe service compensation failed") ⊎ (is_held crashed.lock ≡ false))
      (compensate_service_operation_locked host left_behind crashed)
compensate-Ends_example = compensate-Ends host host-KeepsOperation left_behind crashed

reconcile-Ends_example :
    Ends
      (λ _ w'. Reconciled host crashed w')
      (λ _ _. Unit)
      (reconcile_service_operation_locked host crashed)
reconcile-Ends_example = reconcile-Ends host host-KeepsOperation crashed

change_service-Ends_example :
    Ends
      (λ _ w'. Reached host start "awg0" w')
      (λ e w'. Aborted host "awg0" operation idle e w')
      (change_service host start "awg0" idle)
change_service-Ends_example = change_service-Ends host host-KeepsOperation start "awg0" idle

left_behind-IsValid : IsValid iso left_behind
unfolding is_transaction_id is_interface is_sha256 instant_of amneziawg_manager.Result.◌>>=◌
left_behind-IsValid = record {
  id_fits = refl;
  interface_fits = refl;
  goal_fits = refl;
  actions_fit = refl;
  progress_fits = omega arith;
  transition_fits = tt;
  generation_fits = refl;
  owner_fits = (omega arith, omega arith, omega arith, omega arith);
  times_fit = record {
    created_instant = 202609011100000000;
    updated_instant = 202609011100000000;
    created_read = refl;
    updated_read = refl;
    in_order = omega arith;
  };
}

crashed_loaded : load_optional host crashed.shared ≡ ok (some left_behind)
crashed_loaded =
    load_required-optional host crashed.shared left_behind
      (load_required-document host left_behind crashed.shared left_behind-IsValid refl)

idle_loaded : load_optional host idle.shared ≡ ok none
unfolding load_optional amneziawg_manager.Result.◌>>=◌
idle_loaded = refl

compare_and_swap-returns_example :
    compare_and_swap host left_behind none none idle
    ≡ (ok tt, with_document idle (some (document left_behind)))
compare_and_swap-returns_example =
    compare_and_swap-returns host left_behind none none idle (record {
      held = refl;
      valid = left_behind-IsValid;
      directory = refl;
      current = none;
      loaded = idle_loaded;
      expected = tt;
      writes = refl;
    })

delete_intent-returns_example :
    delete_intent host left_behind.operation_id crashed ≡ (ok tt, with_document crashed none)
delete_intent-returns_example =
    delete_intent-returns host left_behind crashed refl crashed_loaded refl
