-- ===== src/Service/Command.antt =====
-- `service_action` and `reconcile_service_operation_locked` of awgctl/core.py.
pub mod Reconcile
pub mod Change
use amneziawg_manager.Prelude.{
  ℕ, String, Bool, true, false, not, ◌&&◌, ◌||◌, Option, none, some, same, if◌then◌else◌,
}
use amneziawg_manager.Result.{Result, ok, raised, require, or_raise}
use amneziawg_manager.Value.{str}
use amneziawg_manager.Validate.{is_interface, validate_transaction_id}
use amneziawg_manager.Service.Intent.{
  Action, start, stop, restart, Phase, prepared, invoking, compensating, verified, requested,
  Intent, requested_actions,
}
use amneziawg_manager.Service.Document.{action_name, action_named}
use amneziawg_manager.Service.World.{World, Host, is_held}
use amneziawg_manager.Step.{Exec, pure, raise, lift, asks, ◌>>=◌, ◌>>◌, try_except}
use amneziawg_manager.Service.Load.{load_optional, load_required, same_phase}
use amneziawg_manager.Service.Store.{require_lock, compare_and_swap, delete_intent}
use amneziawg_manager.Service.Observe.{service_unit, service_is_active_exact}
use amneziawg_manager.Service.Progress.{same_optional}
use amneziawg_manager.Service.Firewall.{current_firewall_up}
use amneziawg_manager.Service.Postcondition.{
  kept, set, intent_with, requested_postcondition, prestate_postcondition,
}
use amneziawg_manager.Service.Lifecycle.{
  systemctl_unlocked, systemctl_locked, compensate_service_operation_locked,
}

is_named : Option Action → Bool
is_named none = false
is_named (some a) = true

module _ (h : Host) where
  open h use {State}

  -- the record of an operation that is proven, and its removal
  pub finish : Intent → String → Phase → Exec (World State) (Unit {0})
  finish i operation_id phase = do
    done ← asks (intent_with h verified none (set none) i)
    compare_and_swap h done (some operation_id) (some phase)
    delete_intent h operation_id

  compare_generation : Bool → Intent → Exec (World State) Bool
  compare_generation true i = do
    generation ← asks (λ w. h.generation w.outside)
    pure (same i.generation_sha256 generation)
  compare_generation false i = pure false

  -- the transition and the generation are those that the operation recorded
  generation_matches : Intent → Exec (World State) Bool
  unfolding compare_generation
  generation_matches i = do
    current ← asks (λ w. h.transition_id w.outside)
    compare_generation (same_optional i.transition_id current) i

  -- the operation is taken over by this process and compensated
  take_over : Intent → Exec (World State) (Unit {0})
  take_over i = do
    owner ← asks (λ w. h.process_identity w.outside)
    claimed ← asks (intent_with h i.phase none (set (some owner)) i)
    compare_and_swap h claimed (some i.operation_id) (some i.phase)
    compensate_service_operation_locked h claimed

  -- what is done with the operation, by its phase
  by_phase : Phase → Intent → Exec (World State) (Unit {0})
  by_phase verified i = delete_intent h i.operation_id
  by_phase prepared i = do
    matches ← generation_matches i
    before ← if matches then asks (prestate_postcondition h i) else pure false
    if before then delete_intent h i.operation_id else take_over i
  by_phase invoking i = do
    matches ← generation_matches i
    reached ← if matches then asks (requested_postcondition h i) else pure false
    if reached then finish i i.operation_id i.phase else take_over i
  by_phase compensating i = do matches ← generation_matches i; take_over i

  pub reconcile_found : Option Intent → Exec (World State) (Unit {0})
  unfolding by_phase
  reconcile_found none = pure tt
  reconcile_found (some i) = by_phase i.phase i

  pub reconcile_service_operation_locked : Exec (World State) (Unit {0})
  reconcile_service_operation_locked = do
    require_lock "service recovery requires the mutation lock"
    found ← asks (λ w. load_optional h w.shared)
    reconcile_found found

  -- the systemd call of an operation, and the proof of what it was asked for
  invoke : Action → String → String → Exec (World State) (Unit {0})
  invoke action interface operation_id = do
    systemctl_unlocked h (action_name action) (service_unit interface)
    latest ← asks (λ w. load_required h w.shared)
    reached ← asks (requested_postcondition h latest)
    lift (require reached "service action postcondition was not proven")
    finish latest operation_id invoking

  compensate_found : Option Intent → String → Exec (World State) (Unit {0})
  compensate_found none operation_id = pure tt
  compensate_found (some i) operation_id =
      if same i.operation_id operation_id && not (same_phase i.phase (some verified))
      then compensate_service_operation_locked h i
      else pure tt

  -- `except BaseException as original`: compensate if the lock is held, and raise again
  recover_by : Bool → String → String → Exec (World State) (Unit {0})
  unfolding compensate_found
  recover_by false operation_id original = raise original
  recover_by true operation_id original = do
    found ← asks (λ w. load_optional h w.shared)
    try_except (compensate_found found operation_id)
        (λ e. raise "fail-safe service compensation failed")
    raise original

  recover : String → String → Exec (World State) (Unit {0})
  unfolding recover_by
  recover operation_id original = do
    held ← asks (λ w. ok (is_held w.lock))
    recover_by held operation_id original

  -- the intent that `service_action` prepares
  pub prepare : Action → String → Exec (World State) Intent
  prepare action interface = do
    owner ← asks (λ w. h.process_identity w.outside)
    current ← asks (λ w. h.transition_id w.outside)
    now ← asks (λ w. ok (h.now w.outside))
    operation_id ← asks (λ w. validate_transaction_id (str (h.token w.outside)))
    generation ← asks (λ w. h.generation w.outside)
    active ← asks (service_is_active_exact h interface)
    firewall ← current_firewall_up h
    pure (record {
      operation_id = operation_id;
      service_action = action;
      interface = interface;
      phase = prepared;
      goal = requested;
      expected_actions = requested_actions action;
      next_action = 0;
      transition_id = current;
      generation_sha256 = generation;
      owner = some owner;
      pre_service_active = active;
      pre_firewall_up = firewall;
      created_at = now;
      updated_at = now;
    })

  -- start, stop and restart
  pub change_service : Action → String → Exec (World State) (Unit {0})
  unfolding invoke recover
  change_service action interface = do
    document ← prepare action interface
    compare_and_swap h document none none
    invoked ← asks (intent_with h invoking none kept document)
    compare_and_swap h invoked (some document.operation_id) (some prepared)
    try_except (invoke action interface document.operation_id) (recover document.operation_id)

  -- reload, which no hook follows
  reload_service : String → Exec (World State) (Unit {0})
  reload_service interface = do
    systemctl_locked h "reload" (service_unit interface)
    active ← asks (service_is_active_exact h interface)
    lift (require active "service did not remain active after reload")

  pub service_action : String → String → Exec (World State) (Unit {0})
  unfolding reload_service
  service_action action interface = do
    lift (require (same action "reload" || is_named (action_named action)) "invalid service action")
    lift (require (is_interface interface) "invalid service interface")
    require_lock "service action requires the protected mutation lock"
    if same action "reload" then reload_service interface else do
      named ← lift (or_raise (action_named action) "invalid service action")
      change_service named interface
