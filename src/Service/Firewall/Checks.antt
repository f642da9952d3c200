-- ===== src/Service/Firewall/Checks.antt =====
-- Lemmas on the checks of a firewall hook.
use amneziawg_manager.Prelude.{String, ◌≡◌, refl, ◌∙◌, Bool, true, false, ap, if◌then◌else◌}
use amneziawg_manager.Result.{ok, require-eq-ok, raise_if-eq-ok}
use amneziawg_manager.Service.Intent.{Hook, up, down}
use amneziawg_manager.Service.World.{World, Host}
use amneziawg_manager.Step.{pure, asks}
use amneziawg_manager.Step.Ends.{
  Ends, bind-Ends, ask-Ends, lift-Ends, last_lift-Ends, last_ask-Ends, pure-Ends,
}
use amneziawg_manager.Service.Observe.{service_is_active_exact, kernel_interface_is_absent_exact}
use amneziawg_manager.Service.Firewall.{
  current_firewall_up, ensure_service_stopped, perform, prove_postcondition, stopped_for,
}

-- The step kept the lock state and the service-operation file; it may have changed the host.
pub record SameFile {S : Type 0} (w w' : World S) : Type 0 where
  pub same_lock : w'.lock ≡ w.lock
  pub same_document : w'.document ≡ w.document

pub SameFile-of_eq : {S : Type 0} {w w' : World S} → w' ≡ w → SameFile w w'
SameFile-of_eq e = record { same_lock = ap (λ v. v.lock) e; same_document = ap (λ v. v.document) e }

pub SameFile-trans : {S : Type 0} {u v w : World S} → SameFile u v → SameFile v w → SameFile u w
SameFile-trans f g = record {
  same_lock = g.same_lock ∙ f.same_lock;
  same_document = g.same_document ∙ f.same_document;
}

module _ (h : Host) where
  open h use {State}

  -- systemd reports the unit as inactive, and the kernel has no such interface.
  pub record IsStopped (interface : String) (w : World State) : Type 0 where
    pub inactive : service_is_active_exact h interface w ≡ ok false
    pub absent : kernel_interface_is_absent_exact h interface w ≡ ok true

  pub ensure_service_stopped-Ends :
      (interface : String) (w : World State)
      → Ends
          (λ _ w'. (w' ≡ w) × IsStopped interface w)
          (λ _ w'. w' ≡ w)
          (ensure_service_stopped h interface w)
  unfolding ensure_service_stopped
  ensure_service_stopped-Ends interface w =
      ask-Ends _ _ w (λ _ _. refl)
        λ active a.
          lift-Ends _ _ w (λ _ _. refl)
            λ _ idle.
              ask-Ends _ _ w (λ _ _. refl)
                λ absent b.
                  last_lift-Ends _ w (λ _ _. refl)
                    λ _ gone. (
                      refl,
                      record {
                        inactive = a ∙ ap ok (raise_if-eq-ok active _ idle);
                        absent = b ∙ ap ok (require-eq-ok absent _ gone);
                      },
                    )

  -- Before `down`, the service is stopped.
  abbrev pub StoppedFor : Hook → String → World State → Type 0
  StoppedFor up interface w = Unit
  StoppedFor down interface w = IsStopped interface w

  pub stopped_for-Ends :
      (k : Hook) (interface : String) (w : World State)
      → Ends
          (λ _ w'. (w' ≡ w) × StoppedFor k interface w)
          (λ _ w'. w' ≡ w)
          (stopped_for h k (pure interface) w)
  unfolding stopped_for
  stopped_for-Ends up interface w = pure-Ends tt w (refl, tt)
  stopped_for-Ends down interface w =
      bind-Ends {R = λ i w'. (i ≡ interface) × (w' ≡ w)} (pure interface) _ w
        (pure-Ends interface w (refl, refl))
        λ i w' e. rw (e.0, e.1) (ensure_service_stopped-Ends interface w)

  pub perform-Ends :
      (k : Hook) (w : World State)
      → Ends (λ _ w'. SameFile w w') (λ _ w'. SameFile w w') (perform h k w)
  unfolding perform
  perform-Ends up w = record {
    returns = λ _ _. record { same_lock = refl; same_document = refl };
    raises = λ _ _. record { same_lock = refl; same_document = refl };
  }
  perform-Ends down w = record {
    returns = λ _ _. record { same_lock = refl; same_document = refl };
    raises = λ _ _. record { same_lock = refl; same_document = refl };
  }

  pub prove_postcondition-Ends :
      (k : Hook) (w : World State)
      → Ends
          (λ _ w'. (w' ≡ w) × (h.firewall_is w.outside k ≡ ok true))
          (λ _ w'. w' ≡ w)
          (prove_postcondition h k w)
  unfolding prove_postcondition
  prove_postcondition-Ends k w =
      ask-Ends _ _ w (λ _ _. refl)
        λ holds e.
          last_lift-Ends _ w (λ _ _. refl)
            λ _ passed. (refl, e ∙ ap ok (require-eq-ok holds _ passed))

  pub current_firewall_up-Ends :
      (w : World State) → Ends (λ _ w'. w' ≡ w) (λ _ w'. w' ≡ w) (current_firewall_up h w)
  unfolding current_firewall_up
  current_firewall_up-Ends w =
      ask-Ends _ _ w (λ _ _. refl)
        λ a _.
          bind-Ends _ _ w (second a) λ b w1 e. rw e (last_lift-Ends _ w (λ _ _. refl) (λ _ _. refl))
    where
      second :
          (a : Bool)
          → Ends
              (λ _ w'. w' ≡ w)
              (λ _ w'. w' ≡ w)
              ((if a then pure false else asks (λ v. h.firewall_is v.outside down)) w)
      second true = pure-Ends false w refl
      second false = last_ask-Ends _ w (λ _ _. refl) (λ _ _. refl)
