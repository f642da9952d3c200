-- ===== src/Transition/Store.antt =====
-- The writing of the transition's document in awgctl/core.py: `compare_and_swap_transition`.
pub mod Swap
use amneziawg_manager.Prelude.{String, Option, none, some}
use amneziawg_manager.Result.{Result, ok, raised, or_raise}
use amneziawg_manager.Value.{Value}
use amneziawg_manager.Step.{Exec, lift, asks, ◌>>=◌, ◌>>◌}
use amneziawg_manager.Service.World.{Write, written, not_written, not_synced}
use amneziawg_manager.Transition.Document.{Transition, normalize_transition_document}
use amneziawg_manager.Transition.Document.Written.{transition_document}
use amneziawg_manager.Transition.Load.{
  Files, Disk, Host, Transition-discrete, require_equal, load_transition, load_stored,
  expect_transition,
}

ended : Write → Result (Unit {0})
ended written = ok tt
ended not_written = raised "OSError"
ended not_synced = raised "OSError"

changed_by : Write → (Files → Files) → Files → Files
changed_by written f s = f s
changed_by not_written f s = s
changed_by not_synced f s = f s

-- the files with this document of a transition, or without one
abbrev pub with_transition : Option Value → Files → Files
with_transition v s = record s { transition = v }

module _ (h : Host) where
  open h use {Outside, library, layout, ends, next}

  -- One change of the files: an `atomic_json`, an unlink with the sync of its directory, an rmtree.
  unfoldable pub change : (Files → Files) → Exec (Disk Outside) (Unit {0})
  unfolding ended changed_by
  change f d = (
    ended (ends d.outside),
    record { files = changed_by (ends d.outside) f d.files; outside = next d.outside },
  )

  unfoldable pub compare_and_swap_transition :
      Transition → Option String → Option String → Exec (Disk Outside) (Unit {0})
  compare_and_swap_transition value id state = do
    proposed ← lift (normalize_transition_document library (transition_document value))
    asks (λ d. layout d.outside)
    current ← asks (load_transition h)
    lift (expect_transition current id state proposed)
    change (with_transition (some (transition_document proposed)))
    again ← asks (load_stored h)
    lift (
        require_equal Transition-discrete again proposed
          "obfuscation transition write could not be verified")
