-- ===== src/Service/Intent.antt =====
-- The durable service-operation intent of awgctl/core.py: the document that
-- `normalize_service_operation_intent` accepts, with its fields read.
use amneziawg_manager.Prelude.{
  ℕ, ◌-◌, ◌^◌, ◌≤◌, String, ◌≡◌, Bool, true, Option, none, some, List, [], ◌∷◌, length,
  String-discrete, ℕ_discrete,
}
use amneziawg_manager.Result.{ok}
use amneziawg_manager.Timestamp.{Iso, instant_of}
use amneziawg_manager.Validate.{is_transaction_id, is_sha256, is_interface}

-- "service_action"
pub data Action : Type 0 where
  start stop restart : Action

pub data Phase : Type 0 where
  prepared invoking compensating verified : Phase

pub data Goal : Type 0 where
  requested stopped : Goal

-- the firewall hooks, "up" and "down"
pub data Hook : Type 0 where
  up down : Hook

pub record Intent : Type 0 where
  pub operation_id : String
  pub service_action : Action
  pub interface : String
  pub phase : Phase
  pub goal : Goal
  pub expected_actions : List Hook
  pub next_action : ℕ
  pub transition_id : Option String
  pub generation_sha256 : String
  pub owner : Option (ℕ × ℕ)  -- "owner_pid" and "owner_start_ticks", both or neither
  pub pre_service_active : Bool
  pub pre_firewall_up : Bool
  pub created_at : String
  pub updated_at : String

-- `requested_actions`
abbrev pub requested_actions : Action → List Hook
requested_actions start = up ∷ []
requested_actions stop = down ∷ []
requested_actions restart = down ∷ up ∷ []

-- the action sequence that an intent with this goal must list
abbrev pub expected_for : Goal → Action → List Hook
expected_for stopped a = down ∷ []
expected_for requested a = requested_actions a

-- The process that owns an operation: its PID and its start time in clock ticks.
abbrev pub IdentityFits : ℕ × ℕ → Type 0
IdentityFits (pid, ticks) = (1 ≤ pid) × (pid ≤ 2 ^ 31 - 1) × (1 ≤ ticks) × (ticks ≤ 2 ^ 63 - 1)

-- No owner once the operation is verified, and a process identity before.
abbrev pub OwnerFits : Phase → Option (ℕ × ℕ) → Type 0
OwnerFits verified none = Unit
OwnerFits verified (some _) = ⊥
OwnerFits _ none = ⊥
OwnerFits _ (some o) = IdentityFits o

-- The goals that go with a phase.
abbrev pub GoalFits : Phase → Goal → Type 0
GoalFits prepared g = g ≡ requested
GoalFits invoking g = g ≡ requested
GoalFits compensating g = g ≡ stopped
GoalFits verified g = Unit

abbrev pub TransitionFits : Option String → Type 0
TransitionFits none = Unit
TransitionFits (some t) = is_transaction_id t ≡ true

-- The timestamps are read, and the update is not before the creation.
pub record InOrder (iso : Iso) (created updated : String) : Type 0 where
  pub created_instant : ℕ
  pub updated_instant : ℕ
  pub created_read : instant_of iso created ≡ ok created_instant
  pub updated_read : instant_of iso updated ≡ ok updated_instant
  pub in_order : created_instant ≤ updated_instant

-- What an intent must satisfy, said of its fields.
pub record IsValid (iso : Iso) (i : Intent) : Type 0 where
  pub id_fits : is_transaction_id i.operation_id ≡ true
  pub interface_fits : is_interface i.interface ≡ true
  pub goal_fits : GoalFits i.phase i.goal
  pub actions_fit : i.expected_actions ≡ expected_for i.goal i.service_action
  pub progress_fits : i.next_action ≤ length (expected_for i.goal i.service_action)
  pub transition_fits : TransitionFits i.transition_id
  pub generation_fits : is_sha256 i.generation_sha256 ≡ true
  pub owner_fits : OwnerFits i.phase i.owner
  pub times_fit : InOrder iso i.created_at i.updated_at

pub Intent-discrete : Discrete Intent
Intent-discrete = hlevel (String-discrete, ℕ_discrete)
