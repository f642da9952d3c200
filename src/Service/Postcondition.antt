-- ===== src/Service/Postcondition.antt =====
-- The successor intents and the postconditions of the service lifecycle in awgctl/core.py.
pub mod Facts
use amneziawg_manager.Prelude.{
  ℕ, Bool, true, false, not, ◌&&◌, ◌||◌, Option, none, some, ◌==◌, length, min, if◌then◌else◌,
}
use amneziawg_manager.Result.{Result, ok, ◌>>=◌}
use amneziawg_manager.Service.Intent.{
  Action, start, stop, restart, Phase, Goal, Hook, up, down, Intent, expected_for,
}
use amneziawg_manager.Service.Document.{document, normalize_service_operation_intent}
use amneziawg_manager.Service.World.{World, Host}
use amneziawg_manager.Service.Observe.{service_is_active_exact, kernel_interface_is_absent_exact}

-- the `owner` argument of `_service_intent_with`, whose default `...` leaves the owner alone
pub data Owner : Type 0 where
  kept : Owner
  set : Option (ℕ × ℕ) → Owner

with_goal : Option Goal → Intent → Intent
with_goal none i = i
with_goal (some g) i =
    let expected = expected_for g i.service_action in
    record i {
      goal = g;
      expected_actions = expected;
      next_action = min i.next_action (length expected);
    }

with_owner : Owner → Intent → Intent
with_owner kept i = i
with_owner (set o) i = record i { owner = o }

is_start : Action → Bool
is_start start = true
is_start stop = false
is_start restart = false

is_stop : Action → Bool
is_stop start = false
is_stop stop = true
is_stop restart = false

-- `service_action in {"start", "restart"}`
pub wants_active : Action → Bool
wants_active start = true
wants_active stop = false
wants_active restart = true

-- `a == b` on Booleans
pub same_bool : Bool → Bool → Bool
same_bool true b = b
same_bool false b = not b

-- the operation asked for what was so before
pub already : Intent → Bool
unfolding is_start is_stop
already i =
    (is_start i.service_action && i.pre_service_active && i.pre_firewall_up)
    || (is_stop i.service_action && not i.pre_service_active && not i.pre_firewall_up)

-- every hook of the operation has been recorded
pub is_complete : Intent → Bool
is_complete i = i.next_action == length i.expected_actions

pub hook_for : Bool → Hook
hook_for true = up
hook_for false = down

-- the fields that `_service_intent_with` sets
pub successor : Phase → Option Goal → Owner → Intent → Intent
unfolding with_goal with_owner
successor phase goal owner i = with_owner owner (with_goal goal (record i { phase = phase }))

module _ (h : Host) where
  open h use {State, iso}

  -- `_service_intent_with`
  pub intent_with : Phase → Option Goal → Owner → Intent → World State → Result Intent
  intent_with phase goal owner i w =
      normalize_service_operation_intent iso
        (document (record (successor phase goal owner i) { updated_at = h.now w.outside }))

  -- `_service_requested_postcondition`
  pub requested_postcondition : Intent → World State → Result Bool
  unfolding already
  requested_postcondition i w = do
    active ← service_is_active_exact h i.interface w
    if not (same_bool active (wants_active i.service_action)) then ok false else do
      holds ← h.firewall_is w.outside (hook_for (wants_active i.service_action))
      ok (holds && (is_complete i || already i))

  -- `_service_prestate_postcondition`
  pub prestate_postcondition : Intent → World State → Result Bool
  prestate_postcondition i w = do
    active ← service_is_active_exact h i.interface w
    if not (same_bool active i.pre_service_active)
        then ok false
        else h.firewall_is w.outside (hook_for i.pre_firewall_up)

  -- `_service_stopped_postcondition`
  pub stopped_postcondition : Intent → World State → Result Bool
  stopped_postcondition i w = do
    active ← service_is_active_exact h i.interface w
    if active then ok false else do
      absent ← kernel_interface_is_absent_exact h i.interface w
      if absent then h.firewall_is w.outside down else ok false
