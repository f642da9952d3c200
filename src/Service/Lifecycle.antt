-- ===== src/Service/Lifecycle.antt =====
-- The calls of systemd and the fail-safe compensation of awgctl/core.py,
-- `compensate_service_operation_locked`.
pub mod Steps
pub mod Compensation
use amneziawg_manager.Prelude.{
  ℕ, zero, String, ◌≡◌, Bool, true, false, not, ◌&&◌, ◌||◌, Option, none, some, ◌==◌, length, min,
  same, if◌then◌else◌,
}
use amneziawg_manager.Result.{Result, ok, raised, require, raise_if, or_raise}
use amneziawg_manager.Value.{str}
use amneziawg_manager.Validate.{is_interface, validate_transaction_id}
use amneziawg_manager.Service.Intent.{
  Action, start, stop, restart, Phase, prepared, invoking, compensating, verified, Goal, requested,
  stopped, Hook, up, down, Intent, requested_actions, expected_for,
}
use amneziawg_manager.Service.Document.{action_name, document, normalize_service_operation_intent}
use amneziawg_manager.Service.World.{Lock, World, Host, is_held}
use amneziawg_manager.Step.{Exec, pure, raise, lift, asks, ◌>>=◌, ◌>>◌, try_except}
use amneziawg_manager.Service.Load.{load_optional, load_required, same_phase}
use amneziawg_manager.Service.Store.{require_lock, compare_and_swap, delete_intent}
use amneziawg_manager.Service.Observe.{
  service_unit, service_is_active_exact, kernel_interface_is_absent_exact,
}
use amneziawg_manager.Service.Postcondition.{
  kept, set, intent_with, requested_postcondition, prestate_postcondition, stopped_postcondition,
}
use amneziawg_manager.Service.Progress.{same_optional}
use amneziawg_manager.Service.Firewall.{current_firewall_up, run_firewall_action_locked}

-- the end of the `with` block: the lock is taken again, whatever the command did
reacquire : {S : Type 0} → Bool → Result (Unit {0}) → World S → Result (Unit {0}) × World S
reacquire true r w = (r, w)
reacquire false r w = (
  raised "mutation lock could not be reacquired after service operation",
  record w { lock = record w.lock { released = true } },
)

module _ (h : Host) where
  open h use {State}

  -- `temporarily_release_mutation_lock`, round `run(["systemctl", verb, unit])`
  pub systemctl_unlocked : String → String → Exec (World State) (Unit {0})
  unfolding reacquire
  systemctl_unlocked verb unit w =
      if not (w.lock.depth == 1 && is_held w.lock)
      then (raised "service operation requires one held mutation lock", w)
      else if not (h.unlocks w.outside)
      then (raised "mutation lock could not be released for service operation", w)
      else let (r, s) = h.systemctl verb unit w.shared in
        reacquire (h.relocks s.outside) r (record w { shared = s })

  -- `systemctl verb unit` under the lock
  pub systemctl_locked : String → String → Exec (World State) (Unit {0})
  systemctl_locked verb unit w =
      let (r, s) = h.systemctl verb unit w.shared in (r, record w { shared = s })

  -- the stop of an active service during compensation
  pub stop_active : Bool → Intent → Exec (World State) Intent
  stop_active true i = do
    systemctl_unlocked "stop" (service_unit i.interface)
    asks (λ w. load_required h w.shared)
  stop_active false i = pure i

  -- the firewall hook of a compensation that has not run it
  pub clean_up : Bool → Intent → Exec (World State) Intent
  clean_up true i = do run_firewall_action_locked h "down"; asks (λ w. load_required h w.shared)
  clean_up false i = pure i

  -- the body of `compensate_service_operation_locked`
  pub compensate_body : Intent → Exec (World State) (Unit {0})
  compensate_body i = do
    current ← asks (λ w. h.transition_id w.outside)
    next ← asks (intent_with h compensating (some stopped) kept i)
    generation ← asks (λ w. h.generation w.outside)
    let claimed = record next {
      next_action = 0;
      transition_id = current;
      generation_sha256 = generation;
    }
    compare_and_swap h claimed (some i.operation_id) (some i.phase)
    active ← asks (service_is_active_exact h claimed.interface)
    latest ← stop_active active claimed
    remained ← asks (service_is_active_exact h latest.interface)
    lift (raise_if remained "service remained active during fail-safe compensation")
    cleaned ← clean_up (latest.next_action == 0) latest
    proven ← asks (stopped_postcondition h cleaned)
    lift (require proven "stopped service postcondition was not proven")
    done ← asks (intent_with h verified none (set none) cleaned)
    compare_and_swap h done (some i.operation_id) (some compensating)
    delete_intent h i.operation_id

  pub compensate_service_operation_locked : Intent → Exec (World State) (Unit {0})
  compensate_service_operation_locked i = do
    require_lock "service compensation requires the mutation lock"
    try_except (compensate_body i) (λ e. raise "fail-safe service compensation failed")
