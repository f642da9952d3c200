-- ===== src/Transition/Outcome/RoundTrip.antt =====
-- Writing an outcome as its document and reading it again, for `normalize_transition_outcome` of
-- awgctl/core.py.
use mathlib.Core.Path.{subst}
use amneziawg_manager.Prelude.{
  ◌+◌, ◌≡◌, ◌↔◌, refl, sym, ap, ◌∙◌, true, false, String, some, List, [], ◌∷◌, All, arith, one_of,
}
use amneziawg_manager.Prelude.Int.{in_range-pos}
use amneziawg_manager.Result.{ok, ◌>>=◌}
use amneziawg_manager.Value.{obj, items_list, dict_of}
use amneziawg_manager.Timestamp.{Iso, transition_time-str}
use amneziawg_manager.Validate.{id-str, name-str}
use amneziawg_manager.Transition.Document.{number_in, text_is}
use amneziawg_manager.Transition.Document.RoundTrip.{number_in-pos, ports_fit, positive-pos}
use amneziawg_manager.Transition.Outcome.{
  Ending, confirmed, rolled_back, Reason, by_confirmation, by_operator, by_timeout, by_failure,
  by_expiry, Checkpoint, checkpoint, metadata, pending, current, complete, Update, Outcome,
  ending_named, reason_named, cleanup_named, agrees, updates_fit, read_update, read_updates,
  normalize_transition_outcome, ending_text, reason_text, cleanup_text, update_fields,
  updates_value, outcome_document,
}
use amneziawg_manager.Transition.Outcome.Accepts.{
  IsUpdate, EndingFits, OnceEach, IsOutcome, normalize-IsOutcome,
}
use amneziawg_manager.Transition.Outcome.Faithful.{normalize-outcome_document}

ending_named-ending_text : (a : Ending) → ending_named (ending_text a) ≡ some a
unfolding ending_named
ending_named-ending_text confirmed = refl
ending_named-ending_text rolled_back = refl

reason_named-reason_text : (a : Reason) → reason_named (reason_text a) ≡ some a
unfolding reason_named
reason_named-reason_text by_confirmation = refl
reason_named-reason_text by_operator = refl
reason_named-reason_text by_timeout = refl
reason_named-reason_text by_failure = refl
reason_named-reason_text by_expiry = refl

cleanup_named-cleanup_text : (a : Checkpoint) → cleanup_named (cleanup_text a) ≡ some a
unfolding cleanup_named
cleanup_named-cleanup_text checkpoint = refl
cleanup_named-cleanup_text metadata = refl
cleanup_named-cleanup_text pending = refl
cleanup_named-cleanup_text current = refl
cleanup_named-cleanup_text complete = refl

EndingFits-agrees :
    (a : Ending) (r : Reason) (us : List Update)
    → EndingFits a r us
    → (agrees a r ≡ true) × (updates_fit a us ≡ true)
EndingFits-agrees confirmed r [] h = absurd (h.1 refl)
EndingFits-agrees confirmed r (u ∷ us) h = (rw h.0 refl, refl)
EndingFits-agrees rolled_back by_confirmation us h = absurd (h.0 refl)
EndingFits-agrees rolled_back by_operator us h = (refl, rw h.1 refl)
EndingFits-agrees rolled_back by_timeout us h = (refl, rw h.1 refl)
EndingFits-agrees rolled_back by_failure us h = (refl, rw h.1 refl)
EndingFits-agrees rolled_back by_expiry us h = (refl, rw h.1 refl)

read_update-fields :
    (seen : List String) (u : Update)
    → IsUpdate u
    → one_of u.name seen ≡ false
    → read_update seen (obj (update_fields u)) ≡ ok u
unfolding read_update dict_of ◌>>=◌
read_update-fields seen u fits fresh = simp (
  name-str u.name fits.name_fits,
  fresh,
  positive-pos u.from_revision fits.revision_fits,
  in_range-pos (u.from_revision + 1) (u.from_revision + 1) u.to_revision (omega (arith, fits.next))
      (omega (arith, fits.next)),
)

read_updates-updates_value :
    (seen : List String) (us : List Update)
    → All IsUpdate us
    → OnceEach seen us
    → read_updates seen (items_list (updates_value us)) ≡ ok us
unfolding read_updates ◌>>=◌
read_updates-updates_value seen [] fit once = refl
read_updates-updates_value seen (u ∷ us) fit once =
    rw (read_update-fields seen u fit.0 once.0)
      (rw (read_updates-updates_value (u.name ∷ seen) us fit.1 once.1) refl)

-- An outcome that is one is accepted and read back.
accepts-outcome_document :
    (iso : Iso) (o : Outcome)
    → IsOutcome iso o
    → normalize_transition_outcome iso (outcome_document o) ≡ ok o
unfolding normalize_transition_outcome dict_of text_is ◌>>=◌ number_in
accepts-outcome_document iso o h =
    let (agreed, updated) = EndingFits-agrees o.outcome o.reason o.profile_updates h.ending_fits in
    simp (
      id-str o.transaction_id h.id_fits,
      name-str o.client_name h.client_fits,
      ending_named-ending_text,
      reason_named-reason_text,
      cleanup_named-cleanup_text,
      agreed,
      updated,
      transition_time-str,
      h.completed_read,
      number_in-pos 1 65535 o.old_port _ h.old_port_fits.0 h.old_port_fits.1,
      number_in-pos 1 65535 o.new_port _ (omega (arith, h.new_port_fits.0))
          (omega (arith, h.new_port_fits.1)),
      ports_fit o.new_port o.old_port h.new_port_fits.0 h.new_port_fits.1 h.ports_differ,
      read_updates-updates_value [] o.profile_updates h.updates_fit_each h.once_each,
      h.in_order,
    )

-- The document of an outcome is accepted exactly where the outcome is one: its names, ports and
-- time are in their ranges, each update takes a profile to its next revision, the updates are
-- distinct and in order, and a confirmed outcome, and no other, has the reason of a confirmation and
-- has updates. Then it is read as that outcome.
pub normalize-outcome_document_iff :
    (iso : Iso) (o n : Outcome)
    → (normalize_transition_outcome iso (outcome_document o) ≡ ok n) ↔ (IsOutcome iso o × (n ≡ o))
normalize-outcome_document_iff iso o n = (
  λ h.
      let same : n ≡ o = (normalize-outcome_document iso o).on n h in
      (subst (IsOutcome iso) same ((normalize-IsOutcome iso (outcome_document o)).on n h), same),
  λ (fits, same). accepts-outcome_document iso o fits ∙ ap ok (sym same),
)
