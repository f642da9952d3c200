-- ===== src/Transition/Load.antt =====
-- The files of the obfuscation transition in awgctl/core.py: TRANSITION_FILE,
-- TRANSITION_OUTCOME_FILE, the roots of the pending artifacts and the metadata of the clients, and
-- the reading of the two documents. The answers of the disk are functions of the host's state.
use amneziawg_manager.Prelude.{
  String, Bool, ◌||◌, Option, none, some, String-discrete, ℕ_discrete, same,
}
use amneziawg_manager.Result.{Result, ok, raised, ◌>>=◌, ◌>>◌, require, or_raise}
use amneziawg_manager.Value.{Value, str}
use amneziawg_manager.Validate.{validate_transaction_id}
use amneziawg_manager.Contracts.Metadata.{Dates}
use amneziawg_manager.Service.World.{Write}
use amneziawg_manager.Transition.Document.{
  Library, TransitionState, prepared, active, Transition, normalize_transition_document,
}
use amneziawg_manager.Transition.Document.Written.{transition_document}
use amneziawg_manager.Transition.Outcome.{Outcome, normalize_transition_outcome}

pub record Files : Type 0 where
  pub transition : Option Value
  pub outcome : Option Value
  -- whether the root of pending artifacts with this path exists
  pub pending : String → Bool
  -- the `metadata.json` of the client with this name
  pub metadata : String → Option Value

pub record Disk (Outside : Type 0) : Type 0 where
  pub files : Files
  pub outside : Outside

pub record Host : Type 1 where
  pub Outside : Type 0
  pub library : Library
  pub dates : Dates
  -- the safety checks of `_read_protected_json`, and `ensure_transition_layout`
  pub readable : Outside → Result (Unit {0})
  pub layout : Outside → Result (Unit {0})
  -- how the next change of a file will end, and the host after it
  pub ends : Outside → Write
  pub next : Outside → Outside
  -- `cancel_transition_recovery`
  pub cancel_recovery : String → Outside → Result (Unit {0}) × Outside

pub Transition-discrete : Discrete Transition
Transition-discrete = hlevel (String-discrete, ℕ_discrete)

pub Outcome-discrete : Discrete Outcome
Outcome-discrete = hlevel (String-discrete, ℕ_discrete)

-- `if a != b: raise …`, for two values of a type with a decided equality
unfoldable pub require_equal : {A : Type 0} → Discrete A → A → A → String → Result (Unit {0})
require_equal d a b e = elim (d a b) [ yes _ ↦ ok tt | no _ ↦ raised e ]

unfoldable pub read_transition : Library → Option Value → Result (Option Transition)
read_transition l none = ok none
read_transition l (some v) = do t ← normalize_transition_document l v; ok (some t)

unfoldable pub read_outcome : Library → Option Value → Result (Option Outcome)
read_outcome l none = ok none
read_outcome l (some v) = do o ← normalize_transition_outcome (Library.iso l) v; ok (some o)

module _ (h : Host) where
  open h use {Outside, library, readable}

  -- `load_transition_document(required=False)`
  unfoldable pub load_transition : Disk Outside → Result (Option Transition)
  unfolding read_transition
  load_transition d = do readable d.outside; read_transition library d.files.transition

  -- `load_transition_document()`
  unfoldable pub load_stored : Disk Outside → Result Transition
  load_stored d = do
    found ← load_transition d
    or_raise found "no obfuscation transition is pending"

  unfoldable pub load_outcome : Disk Outside → Result (Option Outcome)
  unfolding read_outcome
  load_outcome d = do readable d.outside; read_outcome library d.files.outcome

  unfoldable pub load_recorded : Disk Outside → Result Outcome
  load_recorded d = do
    found ← load_outcome d
    or_raise found "no obfuscation transition outcome is recorded"

abbrev pub state_name : TransitionState → String
state_name prepared = "prepared"
state_name (active a) = "active"

-- the proposal as it was before its activation
abbrev pub as_prepared : Transition → Transition
as_prepared t = record t { state = prepared }

stale : String
stale = "obfuscation transition changed; stale operation rejected"

abbrev expect_exact : Transition → String → String → Transition → Result (Unit {0})
expect_exact c id state proposed = do
  require (same c.transaction_id id) stale
  require (same (state_name c.state) state) stale
  require (same state "prepared") "invalid obfuscation transition compare-and-swap"
  require (same (state_name proposed.state) "active")
      "invalid obfuscation transition compare-and-swap"
  require (same proposed.transaction_id id) "invalid obfuscation transition compare-and-swap"
  require_equal Transition-discrete c (as_prepared proposed) stale

abbrev expect_some : Option Transition → String → String → Transition → Result (Unit {0})
expect_some current given state proposed = do
  id ← validate_transaction_id (str given)
  require (same state "prepared" || same state "active")
      "invalid expected obfuscation transition state"
  c ← or_raise current stale
  expect_exact c id state proposed

-- The comparison of a compare-and-swap.
unfoldable pub expect_transition :
    Option Transition → Option String → Option String → Transition → Result (Unit {0})
unfolding stale
expect_transition none none none proposed =
    require (same (state_name proposed.state) "prepared")
      "new obfuscation transition must begin prepared"
expect_transition current (some id) (some state) proposed = expect_some current id state proposed
expect_transition current _ _ proposed = raised "another obfuscation transition is already pending"

abbrev same_stored : Library → Transition → Option Transition → Result (Option Transition)
same_stored l c none = ok (some c)
same_stored l c (some given) = do
  t ← normalize_transition_document l (transition_document given)
  require_equal Transition-discrete t c "terminal cleanup transition changed"
  ok (some t)

-- The transition of a cleanup: the stored one, or the one that the caller gives.
unfoldable pub identify :
    Library → Option Transition → Option Transition → Outcome → Result (Option Transition)
identify l none none o = ok none
identify l none (some given) o = do
  t ← normalize_transition_document l (transition_document given)
  ok (some t)
identify l (some c) given o = do
  require (same c.transaction_id o.transaction_id)
      "terminal cleanup does not match the current transition"
  same_stored l c given
