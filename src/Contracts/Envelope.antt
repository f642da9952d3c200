-- ===== src/Contracts/Envelope.antt =====
-- The envelopes of the public output: `json_envelope` and `health_envelope` of
-- awgctl/contracts.py. `str.lower` is the parameter `lower`.
use amneziawg_manager.Prelude.{
  ℕ, String, ◌≡◌, ◌↔◌, refl, Bool, true, false, List, [], ◌∷◌, map, keep, length, same, same_iff,
  Bool-cases, inl, inr, ◌⊎◌,
}

-- `{"name": …, "detail": …}`
pub record Note : Type 0 where
  pub name : String
  pub detail : String

-- the keys of an envelope; `payload` is its "data"
pub record Envelope (Data : Type 0) : Type 0 where
  pub command : String
  pub ok : Bool
  pub payload : Data
  pub warnings : List Note
  pub errors : List Note

abbrev is_empty : List Note → Bool
is_empty [] = true
is_empty (n ∷ ns) = false

unfoldable pub json_envelope :
    {Data : Type 0} → String → Data → List Note → List Note → Envelope Data
json_envelope command payload warnings errors = record {
  command = command;
  ok = is_empty errors;
  payload = payload;
  warnings = warnings;
  errors = errors;
}

pub record Check : Type 0 where
  pub level : String
  pub name : String
  pub detail : String

pub record Summary : Type 0 where
  pub checks : List Check
  pub failures : ℕ
  pub warnings : ℕ

abbrev note : Check → Note
note c = record { name = c.name; detail = c.detail }

-- `[… for item in normalized if item["level"] == level]`
abbrev pub at_level : String → List Check → List Note
at_level level checks = map note (keep (λ c. same c.level level) checks)

abbrev lowered : (String → String) → List Check → List Check
lowered lower [] = []
lowered lower (c ∷ cs) = record c { level = lower c.level } ∷ lowered lower cs

unfoldable pub health_envelope : (String → String) → List Check → Envelope Summary
health_envelope lower checks =
    let normalized = lowered lower checks in
    let warnings = at_level "warn" normalized in
    let errors = at_level "fail" normalized in
    json_envelope "health"
      (record { checks = normalized; failures = length errors; warnings = length warnings })
      warnings errors

-- some check failed
abbrev pub Fails : (String → String) → List Check → Type 0
Fails lower [] = ⊥
Fails lower (c ∷ cs) = (lower c.level ≡ "fail") ⊎ Fails lower cs

errors-Fails :
    (lower : String → String) (cs : List Check)
    → is_empty (at_level "fail" (lowered lower cs)) ≡ false
    → Fails lower cs
errors-Fails lower [] h = cc
errors-Fails lower (c ∷ cs) h = elim (Bool-cases (same (lower c.level) "fail")) [
  | inl e ↦ inl ((same_iff (lower c.level) "fail").0 e)
  | inr e ↦ inr (errors-Fails lower cs (rw e at h))
]

Fails-errors :
    (lower : String → String) (cs : List Check)
    → Fails lower cs
    → is_empty (at_level "fail" (lowered lower cs)) ≡ false
Fails-errors lower [] f = absurd f
Fails-errors lower (c ∷ cs) (inl e) = rw ((same_iff (lower c.level) "fail").1 e) refl
Fails-errors lower (c ∷ cs) (inr f) = elim (Bool-cases (same (lower c.level) "fail")) [
  | inl e ↦ rw e refl
  | inr e ↦ rw e (Fails-errors lower cs f)
]

-- The health report is not ok exactly where some check failed.
pub health_envelope_iff :
    (lower : String → String) (checks : List Check)
    → ((health_envelope lower checks).ok ≡ false) ↔ Fails lower checks
unfolding health_envelope json_envelope
health_envelope_iff lower checks = (errors-Fails lower checks, Fails-errors lower checks)
