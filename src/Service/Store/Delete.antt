-- ===== src/Service/Store/Delete.antt =====
-- `delete_service_operation_intent` of awgctl/core.py.
use amneziawg_manager.Prelude.{String, ◌≡◌, refl, ◌∙◌, ◌⊎◌, inl, inr, true, none, some, same_iff}
use amneziawg_manager.Result.{ok, require-eq-ok}
use amneziawg_manager.Service.Intent.{Intent}
use amneziawg_manager.Validate.{id-read}
use amneziawg_manager.Service.World.{not_synced, World, Host, is_held}
use amneziawg_manager.Step.Ends.{Ends, ok-Ends, raised-Ends, ask-Ends, lift-Ends, weaken-Ends}
use amneziawg_manager.Service.Load.{load_optional}
use amneziawg_manager.Service.Load.ReadBack.{load_required-optional}
use amneziawg_manager.Service.Store.{unlink_document, delete_intent}
use amneziawg_manager.Service.Store.Swap.{with_document, Write-cases}

module _ (h : Host) where
  open h use {State, unlink}

  -- The file held the intent with this ID, and now there is none.
  pub record Deleted (id : String) (w w' : World State) : Type 0 where
    pub held : is_held w.lock ≡ true
    pub current : Intent
    pub loaded : load_optional h w.shared ≡ ok (some current)
    pub named : current.operation_id ≡ id
    pub removes : w' ≡ with_document w none

  -- Nothing has changed, or the file is gone and its directory could not be synced.
  abbrev pub NotDeleted : String → World State → World State → Type 0
  NotDeleted id w w' = (w' ≡ w) ⊎ (Deleted id w w' × (unlink w.shared ≡ not_synced))

  unlink-Ends :
      (w : World State)
      → Ends
          (λ _ w'. w' ≡ with_document w none)
          (λ _ w'. (w' ≡ w) ⊎ ((w' ≡ with_document w none) × (unlink w.shared ≡ not_synced)))
          (unlink_document h w)
  unfolding unlink_document
  unlink-Ends w = elim (Write-cases (unlink w.shared)) [
    | inl e ↦ rw e (ok-Ends _ _ tt _ refl)
    | inr (inl e) ↦ rw e (raised-Ends _ _ _ _ (inl refl))
    | inr (inr e) ↦ rw e (raised-Ends _ _ _ _ (inr (refl, refl)))
  ]

  -- The deletion returns only if the lock is held and the file records the operation with the
  -- given ID, and then the file is removed and nothing else has changed. If it raises, nothing has
  -- changed, or all of this is done and only the sync of the directory failed.
  pub delete_intent-Ends :
      (id : String) (w : World State)
      → Ends (λ _ w'. Deleted id w w') (λ _ w'. NotDeleted id w w') (delete_intent h id w)
  unfolding delete_intent
  delete_intent-Ends id w =
      ask-Ends _ _ w (λ _ _. inl refl)
        λ _ locked.
          lift-Ends _ _ w (λ _ _. inl refl)
            λ wanted checked.
              ask-Ends _ _ w (λ _ _. inl refl)
                λ i loaded.
                  lift-Ends _ _ w (λ _ _. inl refl)
                    λ _ matched.
                      let now : Deleted id w (with_document w none) = record {
                        held = require-eq-ok (is_held w.lock) _ locked;
                        current = i;
                        loaded = load_required-optional h w.shared i loaded;
                        named =
                            (same_iff i.operation_id wanted).0 (require-eq-ok _ _ matched)
                            ∙ id-read id checked;
                        removes = refl;
                      } in
                      weaken-Ends _ (λ _ _ e. rw e now)
                        (λ _ _ o. elim o [ inl e ↦ inl e | inr (e, x) ↦ inr (rw e now, x) ])
                        (unlink-Ends w)
