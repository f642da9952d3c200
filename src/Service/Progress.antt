-- ===== src/Service/Progress.antt =====
-- The progress of a service operation through its firewall hooks, in `run_firewall_action_locked`
-- of awgctl/core.py.
pub mod Turn
use amneziawg_manager.Prelude.{
  ℕ, zero, suc, ◌+◌, String, Bool, true, false, Option, none, some, List, [], ◌∷◌, same,
  if◌then◌else◌,
}
use amneziawg_manager.Service.Intent.{
  Hook, up, down, Phase, prepared, invoking, compensating, verified, Intent,
}

pub hook_named : String → Option Hook
hook_named s = if same s "up" then some up else if same s "down" then some down else none

-- `expected[position]`
pub hook_at : List Hook → ℕ → Option Hook
hook_at [] n = none
hook_at (x ∷ xs) zero = some x
hook_at (x ∷ xs) (suc n) = hook_at xs n

pub is_hook : Hook → Option Hook → Bool
is_hook up (some up) = true
is_hook down (some down) = true
is_hook up (some down) = false
is_hook down (some up) = false
is_hook up none = false
is_hook down none = false

-- `position < len(expected) and action == expected[position]`
pub is_current : Hook → Intent → Bool
is_current k i = is_hook k (hook_at i.expected_actions i.next_action)

pub previous : Hook → List Hook → ℕ → Bool
previous k hs zero = false
previous k hs (suc n) = is_hook k (hook_at hs n)

-- `position > 0 and action == expected[position - 1]`
pub is_duplicate : Hook → Intent → Bool
unfolding previous
is_duplicate k i = previous k i.expected_actions i.next_action

pub same_optional : Option String → Option String → Bool
same_optional none none = true
same_optional none (some t) = false
same_optional (some s) none = false
same_optional (some s) (some t) = same s t

-- `phase in {"invoking", "compensating"}`
pub accepts_hooks : Phase → Bool
accepts_hooks prepared = false
accepts_hooks invoking = true
accepts_hooks compensating = true
accepts_hooks verified = false

unfoldable pub advance : Intent → String → Intent
advance i now = record i { next_action = i.next_action + 1; updated_at = now }
