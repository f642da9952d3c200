-- ===== src/Service/Progress/Turn.antt =====
-- Which hooks a service operation accepts, and when, for `run_firewall_action_locked` of
-- awgctl/core.py.
use amneziawg_manager.Prelude.{
  ◌+◌, ℕ, zero, suc, ◌≡◌, refl, ap, ◌⊎◌, inl, inr, String, true, false, Option, none, some, List,
  [], ◌∷◌, same_iff,
}
use amneziawg_manager.Service.Intent.{
  Hook, up, down, Phase, prepared, invoking, compensating, verified, Intent,
}
use amneziawg_manager.Service.Progress.{
  hook_at, is_hook, is_current, previous, is_duplicate, same_optional, accepts_hooks,
}

-- The list has `k` at this position.
abbrev pub At : List Hook → ℕ → Hook → Type 0
At [] n k = ⊥
At (x ∷ xs) zero k = x ≡ k
At (x ∷ xs) (suc n) k = At xs n k

-- The operation after its next action, at this time.
abbrev pub moved_on : Intent → String → Intent
moved_on i now = record i { next_action = i.next_action + 1; updated_at = now }

is_hook-At : (k : Hook) (hs : List Hook) (n : ℕ) → is_hook k (hook_at hs n) ≡ true → At hs n k
unfolding is_hook hook_at
is_hook-At up [] n h = cc
is_hook-At down [] n h = cc
is_hook-At up (up ∷ hs) zero h = refl
is_hook-At up (down ∷ hs) zero h = cc
is_hook-At down (up ∷ hs) zero h = cc
is_hook-At down (down ∷ hs) zero h = refl
is_hook-At k (x ∷ hs) (suc n) h = is_hook-At k hs n h

At-is_hook : (k : Hook) (hs : List Hook) (n : ℕ) → At hs n k → is_hook k (hook_at hs n) ≡ true
unfolding is_hook hook_at
At-is_hook k [] n at = absurd at
At-is_hook up (x ∷ hs) zero at = rw at refl
At-is_hook down (x ∷ hs) zero at = rw at refl
At-is_hook k (x ∷ hs) (suc n) at = At-is_hook k hs n at

pub is_current-At :
    (k : Hook) (i : Intent) → is_current k i ≡ true → At i.expected_actions i.next_action k
unfolding is_current
is_current-At k i h = is_hook-At k i.expected_actions i.next_action h

pub not_current-At :
    (k : Hook) (i : Intent) → is_current k i ≡ false → ¬ At i.expected_actions i.next_action k
unfolding is_current
not_current-At k i h at = let here = At-is_hook k i.expected_actions i.next_action at in cc

previous-At :
    (k : Hook) (hs : List Hook) (m : ℕ) → previous k hs m ≡ true → (n : ℕ) × (m ≡ suc n) × At hs n k
unfolding previous
previous-At k hs zero h = cc
previous-At k hs (suc n) h = (n, refl, is_hook-At k hs n h)

pub is_duplicate-At :
    (k : Hook) (i : Intent)
    → is_duplicate k i ≡ true
    → (n : ℕ) × (i.next_action ≡ suc n) × At i.expected_actions n k
unfolding is_duplicate
is_duplicate-At k i h = previous-At k i.expected_actions i.next_action h

pub accepts_hooks-eq : (p : Phase) → accepts_hooks p ≡ true → (p ≡ invoking) ⊎ (p ≡ compensating)
unfolding accepts_hooks
accepts_hooks-eq prepared h = cc
accepts_hooks-eq invoking h = inl refl
accepts_hooks-eq compensating h = inr refl
accepts_hooks-eq verified h = cc

pub same_optional-eq : (s t : Option String) → same_optional s t ≡ true → s ≡ t
unfolding same_optional
same_optional-eq none none h = refl
same_optional-eq none (some t) h = cc
same_optional-eq (some s) none h = cc
same_optional-eq (some s) (some t) h = ap some ((same_iff s t).0 h)
