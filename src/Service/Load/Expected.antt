-- ===== src/Service/Load/Expected.antt =====
-- Which stored intent a compare-and-swap of awgctl/core.py expects: its comparison, said of the
-- fields of the intent.
use amneziawg_manager.Prelude.{
  String, ◌≡◌, refl, true, false, ◌&&◌, Option, none, some, same, same_iff, Bool, if◌then◌else◌,
  ◌∙◌, ap, sym, arith,
}
use amneziawg_manager.Result.{ok, Ensures, bind-Ensures, ◌>>=◌}
use amneziawg_manager.Validate.{is_transaction_id, validate_transaction_id, id-read}
use amneziawg_manager.Service.Intent.{Phase, prepared, invoking, compensating, verified, Intent}
use amneziawg_manager.Service.Document.{phase_name, phase_named}
use amneziawg_manager.Service.Document.RoundTrip.{phase_named-phase_name}
use amneziawg_manager.Service.Load.{same_phase, changed, matches, expect_current}

-- No intent is stored and none is expected, or the stored intent has the expected ID and phase.
abbrev pub Expected : Option Intent → Option String → Option Phase → Type 0
Expected none none none = Unit
Expected (some c) (some id) (some p) = (c.operation_id ≡ id) × (c.phase ≡ p)
Expected _ _ _ = ⊥

same_phase-eq : (p q : Phase) → same_phase p (some q) ≡ true → p ≡ q
same_phase-eq p q h = some_injective (
    sym (phase_named-phase_name p)
    ∙ ap phase_named ((same_iff (phase_name p) (phase_name q)).0 h)
    ∙ phase_named-phase_name q)
  where
    some_injective : {x y : Phase} → some x ≡ some y → x ≡ y
    some_injective e = cc

same_phase_refl : (p : Phase) → same_phase p (some p) ≡ true
same_phase_refl prepared = refl
same_phase_refl invoking = refl
same_phase_refl compensating = refl
same_phase_refl verified = refl

both_hold :
    (a b : Bool) {u : Unit {0}}
    → (if a && b then ok tt else changed) ≡ ok u
    → (a ≡ true) × (b ≡ true)
unfolding changed
both_hold a b h = ground arith

pub expect_current-Expected :
    (c : Option Intent) (id : Option String) (p : Option Phase)
    → Ensures (λ _. Expected c id p) (expect_current c id p)
unfolding expect_current changed matches validate_transaction_id ◌>>=◌
expect_current-Expected none none none = record { on = λ _ _. tt }
expect_current-Expected none none (some p) = record { on = λ _ h. cc }
expect_current-Expected none (some id) none = record { on = λ _ h. cc }
expect_current-Expected none (some id) (some p) = record { on = λ _ h. cc }
expect_current-Expected (some c) none none = record { on = λ _ h. cc }
expect_current-Expected (some c) none (some p) = record { on = λ _ h. cc }
expect_current-Expected (some c) (some id) none = bind-Ensures _ _ λ wanted _. record {
  on = λ u h. let never = (both_hold (same c.operation_id wanted) false h).1 in cc;
}
expect_current-Expected (some c) (some id) (some p) = bind-Ensures _ _ λ wanted read. record {
  on = λ u h.
      let (id_same, phase_same) = both_hold _ _ h in
      (
        (same_iff c.operation_id wanted).0 id_same ∙ id-read id read,
        same_phase-eq c.phase p phase_same,
      );
}

-- With an ID that is one, what is expected is accepted.
pub expect_current-accepts :
    (c : Option Intent) (id : Option String) (p : Option Phase)
    → ((i : Intent) → c ≡ some i → is_transaction_id i.operation_id ≡ true)
    → Expected c id p
    → expect_current c id p ≡ ok tt
unfolding expect_current matches validate_transaction_id ◌>>=◌
expect_current-accepts none none none fits e = refl
expect_current-accepts (some c) (some id) (some p) fits e = rw (sym e.0) (
    rw (sym e.1) (
      rw (fits c refl)
        (rw ((same_iff c.operation_id c.operation_id).1 refl) (rw (same_phase_refl c.phase) refl))))
expect_current-accepts none none (some p) fits e = absurd e
expect_current-accepts none (some id) p fits e = absurd e
expect_current-accepts (some c) none p fits e = absurd e
expect_current-accepts (some c) (some id) none fits e = absurd e
