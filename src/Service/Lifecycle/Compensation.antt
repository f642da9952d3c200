-- ===== src/Service/Lifecycle/Compensation.antt =====
-- The fail-safe compensation of awgctl/core.py, `compensate_service_operation_locked`.
use mathlib.Core.Path.{subst}
use amneziawg_manager.Prelude.{
  String, ◌≡◌, refl, ◌∙◌, ap, Bool, true, false, Option, none, ◌==◌, ◌⊎◌, inl, inr,
}
use amneziawg_manager.Result.{ok, raised, require, require-eq-ok}
use amneziawg_manager.Service.Intent.{Phase, Intent}
use amneziawg_manager.Service.World.{World, Host, is_held}
use amneziawg_manager.Step.Ends.{
  Ends, bind-Ends, ask-Ends, lift-Ends, raise-Ends, weaken-Ends, try-Ends,
}
use amneziawg_manager.Service.Load.ReadBack.{load_required-document, readable-load}
use amneziawg_manager.Service.Store.Swap.{Swapped, compare_and_swap-Ends}
use amneziawg_manager.Service.Store.Delete.{Deleted, delete_intent-Ends}
use amneziawg_manager.Service.Postcondition.Facts.{
  intent_with-SameOperation, IsDown, IsDown-outside, stopped_postcondition-IsDown,
}
use amneziawg_manager.Service.Lifecycle.{compensate_body, compensate_service_operation_locked}
use amneziawg_manager.Service.Lifecycle.Steps.{
  KeepsOperation, Records, stop_active-Ends, clean_up-Ends,
}

require-raised : (b : Bool) (e : String) {d : String} → require b e ≡ raised d → b ≡ false
require-raised true e h = cc
require-raised false e h = refl

module _ (h : Host) where
  open h use {State}

  pub Swapped-outside :
      {i : Intent} {id : Option String} {p : Option Phase} {w w' : World State}
      → Swapped h i id p w w'
      → w'.outside ≡ w.outside
  Swapped-outside s = ap (λ v. v.outside) s.stores

  pub Deleted-outside :
      {id : String} {w w' : World State} → Deleted h id w w' → w'.outside ≡ w.outside
  Deleted-outside d = ap (λ v. v.outside) d.removes

  -- After a compare-and-swap the world records the new intent.
  pub Swapped-Records :
      {i : Intent} {id : Option String} {p : Option Phase} {w w' : World State}
      → Swapped h i id p w w'
      → Records h w' i
  Swapped-Records {i} {w} s =
      rw s.stores
        (load_required-document h i w.shared s.valid (readable-load h w.shared s.current s.loaded))

  -- No operation is recorded, and the service of this interface is down.
  pub record Compensated (interface : String) (w : World State) : Type 0 where
    pub removed : w.document ≡ none
    pub is_down : IsDown h interface w

  module _ (keeps : KeepsOperation h) where
    compensate_body-Ends :
        (i : Intent) (w : World State)
        → Ends (λ _ w'. Compensated i.interface w') (λ _ _. Unit) (compensate_body h i w)
    unfolding compensate_body
    compensate_body-Ends i w =
        ask-Ends _ _ w (λ _ _. tt)
          λ t _.
            ask-Ends _ _ w (λ _ _. tt)
              λ next succeeded.
                ask-Ends _ _ w (λ _ _. tt)
                  λ g _.
                    bind-Ends _ _ w
                      (weaken-Ends _ (λ _ _ s. s) (λ _ _ _. tt) (compare_and_swap-Ends h _ _ _ w))
                      λ _ w1 claimed.
                        ask-Ends _ _ w1 (λ _ _. tt)
                          λ active _.
                            bind-Ends _ _ w1
                              (stop_active-Ends h keeps active _ w1 (Swapped-Records claimed))
                              λ latest w2 c2.
                                ask-Ends _ _ w2 (λ _ _. tt)
                                  λ remained _.
                                    lift-Ends _ _ w2 (λ _ _. tt)
                                      λ _ _.
                                        bind-Ends _ _ w2
                                          (clean_up-Ends h (latest.next_action == 0) latest w2 c2.0)
                                          λ cleaned w3 c3.
                                            ask-Ends _ _ w3 (λ _ _. tt)
                                              λ proven holds.
                                                lift-Ends _ _ w3 (λ _ _. tt)
                                                  λ _ passed.
                                                    ask-Ends _ _ w3 (λ _ _. tt)
                                                      λ done _.
                                                        bind-Ends _ _ w3
                                                          (weaken-Ends _ (λ _ _ s. s) (λ _ _ _. tt)
                                                            (compare_and_swap-Ends h _ _ _ w3))
                                                          λ _ w4 swapped.
                                                            weaken-Ends _
                                                            (λ _ w5 deleted. record {
                                                            removed =
                                                            ap (λ v. v.document) deleted.removes;
                                                            is_down =
                                                            subst (λ t. IsDown h t w5)
                                                            (c3.1.same_interface
                                                            ∙ c2.1.same_interface
                                                            ∙ (intent_with-SameOperation h _ _ _ i
                                                            next w succeeded).same_interface)
                                                            (IsDown-outside h cleaned.interface w3
                                                            w5
                                                            (Deleted-outside deleted
                                                            ∙ Swapped-outside swapped)
                                                            (stopped_postcondition-IsDown h cleaned
                                                            w3
                                                            (holds
                                                            ∙ ap ok
                                                            (require-eq-ok proven _ passed))));
                                                            })
                                                            (λ _ _ _. tt)
                                                            (delete_intent-Ends h i.operation_id w4)

    -- Let no other process put another operation in the place of the recorded one while systemctl
    -- runs. Then, if the compensation of an operation returns, its service is inactive, the kernel
    -- has no such interface, the firewall is proven down and no operation is recorded any more. If
    -- it raises, it says so by one message, or the lock was not held.
    pub compensate-Ends :
        (i : Intent) (w : World State)
        → Ends
            (λ _ w'. Compensated i.interface w')
            (λ e w'. (e ≡ "fail-safe service compensation failed") ⊎ (is_held w.lock ≡ false))
            (compensate_service_operation_locked h i w)
    unfolding compensate_service_operation_locked
    compensate-Ends i w =
        ask-Ends _ _ w (λ _ bad. inr (require-raised (is_held w.lock) _ bad))
          λ _ _.
            try-Ends (compensate_body h i) _ w (compensate_body-Ends i w)
              λ _ w' _. raise-Ends _ w' (inl refl)
