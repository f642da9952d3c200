-- ===== src/Service/Postcondition/Facts.antt =====
-- Lemmas on the successor intents and the postconditions.
use mathlib.Core.Path.{subst}
use amneziawg_manager.Prelude.{String, ◌≡◌, refl, sym, ◌∙◌, true, ◌||◌, Option, none, some, arith}
use amneziawg_manager.Result.{ok, ◌>>=◌}
use amneziawg_manager.Service.Intent.{Phase, Goal, down, Intent}
use amneziawg_manager.Service.Document.Faithful.{normalize-document_iff}
use amneziawg_manager.Service.World.{World, Host}
use amneziawg_manager.Service.Observe.{service_is_active_exact, kernel_interface_is_absent_exact}
use amneziawg_manager.Service.Firewall.Checks.{IsStopped}
use amneziawg_manager.Service.Postcondition.{
  Owner, kept, set, successor, intent_with, wants_active, already, is_complete, hook_for, same_bool,
  requested_postcondition, prestate_postcondition, stopped_postcondition,
}

-- One operation: the parts of an intent that no step of it changes.
pub record SameOperation (i j : Intent) : Type 0 where
  pub same_id : j.operation_id ≡ i.operation_id
  pub same_action : j.service_action ≡ i.service_action
  pub same_interface : j.interface ≡ i.interface

pub SameOperation-refl : (i : Intent) → SameOperation i i
SameOperation-refl i = record { same_id = refl; same_action = refl; same_interface = refl }

pub SameOperation-trans :
    {i j k : Intent} → SameOperation i j → SameOperation j k → SameOperation i k
SameOperation-trans f g = record {
  same_id = g.same_id ∙ f.same_id;
  same_action = g.same_action ∙ f.same_action;
  same_interface = g.same_interface ∙ f.same_interface;
}

successor-SameOperation :
    (p : Phase) (g : Option Goal) (o : Owner) (i : Intent) (now : String)
    → SameOperation i (record (successor p g o i) { updated_at = now })
unfolding successor
successor-SameOperation p none kept i now = record {
  same_id = refl;
  same_action = refl;
  same_interface = refl;
}
successor-SameOperation p (some g) kept i now = record {
  same_id = refl;
  same_action = refl;
  same_interface = refl;
}
successor-SameOperation p none (set o) i now = record {
  same_id = refl;
  same_action = refl;
  same_interface = refl;
}
successor-SameOperation p (some g) (set o) i now = record {
  same_id = refl;
  same_action = refl;
  same_interface = refl;
}

module _ (h : Host) where
  open h use {State, iso}

  -- A successor intent is valid, and of the same operation.
  pub intent_with-SameOperation :
      (p : Phase) (g : Option Goal) (o : Owner) (i n : Intent) (w : World State)
      → intent_with h p g o i w ≡ ok n
      → SameOperation i n
  unfolding intent_with
  intent_with-SameOperation p g o i n w e =
      subst (SameOperation i) (sym ((normalize-document_iff iso _ n).0 e).1)
        (successor-SameOperation p g o i (h.now w.outside))

  pub active-outside :
      (interface : String) (w w' : World State)
      → w'.outside ≡ w.outside
      → service_is_active_exact h interface w' ≡ service_is_active_exact h interface w
  unfolding service_is_active_exact
  active-outside interface w w' e = rw e

  pub absent-outside :
      (interface : String) (w w' : World State)
      → w'.outside ≡ w.outside
      → kernel_interface_is_absent_exact h interface w'
        ≡ kernel_interface_is_absent_exact h interface w
  unfolding kernel_interface_is_absent_exact
  absent-outside interface w w' e = rw e

  -- The service is stopped, and the firewall is the one of `down`.
  pub record IsDown (interface : String) (w : World State) : Type 0 where
    pub service_stopped : IsStopped h interface w
    pub firewall_down : h.firewall_is w.outside down ≡ ok true

  pub IsDown-outside :
      (interface : String) (w w' : World State)
      → w'.outside ≡ w.outside
      → IsDown interface w
      → IsDown interface w'
  IsDown-outside interface w w' e d = record {
    service_stopped = record {
      inactive = active-outside interface w w' e ∙ d.service_stopped.inactive;
      absent = absent-outside interface w w' e ∙ d.service_stopped.absent;
    };
    firewall_down = rw e d.firewall_down;
  }

  pub stopped_postcondition-IsDown :
      (i : Intent) (w : World State) → stopped_postcondition h i w ≡ ok true → IsDown i.interface w
  unfolding stopped_postcondition ◌>>=◌
  stopped_postcondition-IsDown i w e = record {
    service_stopped = record { inactive = ground arith; absent = ground arith };
    firewall_down = ground arith;
  }

  -- The service and the firewall are as the operation asked, and its hooks have run, or it asked
  -- for what was so before.
  pub record IsReached (i : Intent) (w : World State) : Type 0 where
    pub as_wanted : service_is_active_exact h i.interface w ≡ ok (wants_active i.service_action)
    pub firewall_as_wanted :
        h.firewall_is w.outside (hook_for (wants_active i.service_action)) ≡ ok true
    pub hooks_ran : (is_complete i || already i) ≡ true

  pub requested_postcondition-IsReached :
      (i : Intent) (w : World State) → requested_postcondition h i w ≡ ok true → IsReached i w
  unfolding requested_postcondition same_bool ◌>>=◌
  requested_postcondition-IsReached i w e = record {
    as_wanted = ground arith;
    firewall_as_wanted = ground arith;
    hooks_ran = ground arith;
  }

  pub prestate-outside :
      (i : Intent) (w w' : World State)
      → w'.outside ≡ w.outside
      → prestate_postcondition h i w' ≡ prestate_postcondition h i w
  unfolding prestate_postcondition service_is_active_exact
  prestate-outside i w w' e = rw e

  pub IsReached-outside :
      (i : Intent) (w w' : World State) → w'.outside ≡ w.outside → IsReached i w → IsReached i w'
  IsReached-outside i w w' e r = record {
    as_wanted = active-outside i.interface w w' e ∙ r.as_wanted;
    firewall_as_wanted = rw e r.firewall_as_wanted;
    hooks_ran = r.hooks_ran;
  }
