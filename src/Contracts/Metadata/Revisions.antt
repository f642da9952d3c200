-- ===== src/Contracts/Metadata/Revisions.antt =====
-- The revision and the distribution of a client's profile, in awgctl/contracts.py.
use mathlib.Core.Path.{subst}
use amneziawg_manager.Prelude.{
  not, ◌⊎◌, inl, inr, ◌≢◌, In, Bool-cases, ℕ, ◌+◌, ◌≤◌, String, ◌≡◌, refl, sym, ◌∙◌, ap, true,
  false, Option, none, some, [], ◌∷◌, same, arith,
}
use amneziawg_manager.Prelude.Int.{pos, negsuc}
use amneziawg_manager.Result.{
  ok, ◌>>=◌, Ensures, bind-Ensures, known-Ensures, ok-Ensures, require-eq-ok, or_raise-eq-ok,
}
use amneziawg_manager.Value.{Value, null, bool, int, float, str, arr, obj, Fields, get, as_dict}
use amneziawg_manager.Timestamp.{Iso}
use amneziawg_manager.Transition.Document.Accepts.{positive_bound}
use amneziawg_manager.Contracts.Dict.{
  among_one, equals_number, float_bits, value_at, is_among, get-put, get-put_other, or_null,
}
use amneziawg_manager.Contracts.Metadata.{
  Dates, third_schema, update, migrate, third, text_or_none, checked, positive_integer, revision_of,
  distribution_fits, check_metadata, normalize_client_metadata, regenerated,
  mark_profile_regenerated,
}

-- A JSON number that equals the number `n` in Python: an integer, the float with these bits, or a
-- bool.
abbrev IsNumber : ℕ → ℕ → Value → Type 0
IsNumber n bits v =
    (v ≡ int (pos n))
    ⊎ (v ≡ float bits)
    ⊎ ((n ≡ 1) × (v ≡ bool true))
    ⊎ ((n ≡ 0) × (v ≡ bool false))

-- One of the three schemas that are read: 1, 1.0, true, 2, 2.0, 3 or 3.0.
abbrev pub IsKnownSchema : Value → Type 0
IsKnownSchema v = In v (
    int (pos 1)
    ∷ float 0x3ff0000000000000
    ∷ bool true
    ∷ int (pos 2)
    ∷ float 0x4000000000000000
    ∷ int (pos 3)
    ∷ float 0x4008000000000000
    ∷ [])

-- The third schema: 3 or 3.0.
abbrev pub IsThirdSchema : Value → Type 0
IsThirdSchema v = (v ≡ int (pos 3)) ⊎ (v ≡ float 0x4008000000000000)

-- The time of the distribution goes with the status "distributed" alone.
abbrev pub DistributionFits : Value → Option String → Type 0
DistributionFits status none = status ≢ str "distributed"
DistributionFits status (some t) = status ≡ str "distributed"

-- What a schema 3 document that was accepted holds for its revision and its distribution.
pub record IsMetadata (d : Fields) : Type 0 where
  pub schema_three : IsThirdSchema (value_at "schema_version" d)
  pub revision : ℕ
  pub revision_read : revision_of d ≡ ok revision
  pub positive_revision : 1 ≤ revision
  pub generated_at : String
  pub generated : get "profile_generated_at" d ≡ some (str generated_at)
  pub managed : is_among ("managed" ∷ "external" ∷ []) (value_at "management" d) ≡ true
  pub status_known :
      is_among ("unknown" ∷ "pending" ∷ "distributed" ∷ []) (value_at "distribution_status" d)
      ≡ true
  pub distributed_at : Option String
  pub distributed : get "distributed_at" d ≡ some (text_or_none distributed_at)
  pub status_fits : DistributionFits (value_at "distribution_status" d) distributed_at

equals_number-IsNumber :
    (n : ℕ) (v : Value) → equals_number n v ≡ true → IsNumber n (float_bits n) v
equals_number-IsNumber n null h = cc
equals_number-IsNumber n (bool true) h = inr (inr (inl (ground arith, refl)))
equals_number-IsNumber n (bool false) h = inr (inr (inr (ground arith, refl)))
equals_number-IsNumber n (int (pos m)) h = inl (ap (λ k. int (pos k)) (ground arith))
equals_number-IsNumber n (int (negsuc m)) h = cc
equals_number-IsNumber n (float bits) h = inr (inl (ap float (ground arith)))
equals_number-IsNumber n (str t) h = cc
equals_number-IsNumber n (arr vs) h = cc
equals_number-IsNumber n (obj fs) h = cc

first_known : (v : Value) → equals_number 1 v ≡ true → IsKnownSchema v
first_known v h = elim (equals_number-IsNumber 1 v h) [
  | inl e ↦ inl e
  | inr (inl e) ↦ inr (inl e)
  | inr (inr (inl (_, e))) ↦ inr (inr (inl e))
  | inr (inr (inr (e, _))) ↦ cc
]

second_known : (v : Value) → equals_number 2 v ≡ true → IsKnownSchema v
second_known v h = elim (equals_number-IsNumber 2 v h) [
  | inl e ↦ inr (inr (inr (inl e)))
  | inr (inl e) ↦ inr (inr (inr (inr (inl e))))
  | inr (inr (inl (e, _))) ↦ cc
  | inr (inr (inr (e, _))) ↦ cc
]

IsThirdSchema-of : (v : Value) → equals_number 3 v ≡ true → IsThirdSchema v
IsThirdSchema-of v h = elim (equals_number-IsNumber 3 v h) [
  | inl e ↦ inl e
  | inr (inl e) ↦ inr e
  | inr (inr (inl (e, _))) ↦ cc
  | inr (inr (inr (e, _))) ↦ cc
]

third_known : (v : Value) → IsThirdSchema v → IsKnownSchema v
third_known v (inl e) = inr (inr (inr (inr (inr (inl e)))))
third_known v (inr e) = inr (inr (inr (inr (inr (inr (inl e))))))

third_schema-schema :
    (generated : Value) (d : Fields)
    → get "schema_version" (update (third_schema generated) d) ≡ some (int (pos 3))
third_schema-schema generated d =
    get-put_other _ _ _ _ refl
    ∙ get-put_other _ _ _ _ refl
    ∙ get-put_other _ _ _ _ refl
    ∙ get-put_other _ _ _ _ refl
    ∙ get-put_other _ _ _ _ refl
    ∙ get-put "schema_version" _ _

-- Only the three schemas are read, and each of them becomes the third.
migrate-IsThirdSchema :
    (d : Fields)
    → Ensures
        (λ m.
          IsKnownSchema (value_at "schema_version" d) × IsThirdSchema (value_at "schema_version" m))
        (migrate d)
unfolding migrate third
migrate-IsThirdSchema d = bind-Ensures _ _ λ _ _.
    elim (Bool-cases (equals_number 1 (value_at "schema_version" d))) [
      | inl e ↦ rw e (ok-Ensures _ (first_known _ e, inl (ap or_null (third_schema-schema _ _))))
      | inr e ↦ elim (Bool-cases (equals_number 2 (value_at "schema_version" d))) [
        | inl f ↦
            rw (e, f) (ok-Ensures _ (second_known _ f, inl (ap or_null (third_schema-schema _ _))))
        | inr f ↦
            rw (e, f)
              (bind-Ensures _ _ λ _ h.
                let third_read = IsThirdSchema-of _ (require-eq-ok _ _ h) in
                ok-Ensures _ (third_known _ third_read, third_read))
      ]
    ]

distribution_fits-DistributionFits :
    (status : Value) (t : Option String)
    → distribution_fits status t ≡ ok tt
    → DistributionFits status t
unfolding distribution_fits
distribution_fits-DistributionFits status none h =
    λ e. clash (sym (require-eq-ok _ _ h) ∙ ap (λ v. not (is_among ("distributed" ∷ []) v)) e)
  where
    clash : true ≡ false → ⊥
    clash x = cc
distribution_fits-DistributionFits status (some t) h =
    among_one "distributed" status (require-eq-ok _ _ h)

positive_integer-positive : (v : Value) → Ensures (λ n. 1 ≤ n) (positive_integer v)
unfolding positive_integer
positive_integer-positive v =
    bind-Ensures _ _ λ z _. record { on = λ n h. positive_bound z (or_raise-eq-ok _ _ h) }

module _ (iso : Iso) (dates : Dates) where
  module _ (d : Fields) (owner device : Option String) (generated reason : String)
      (distributed : Option String) where
    checked_other :
        (k : String)
        → same "distributed_at" k ≡ false
        → same "profile_change_reason" k ≡ false
        → same "profile_generated_at" k ≡ false
        → same "device" k ≡ false
        → same "owner" k ≡ false
        → get k (checked d owner device generated reason distributed) ≡ get k d
    checked_other k h1 h2 h3 h4 h5 =
        get-put_other k _ _ _ h1
        ∙ get-put_other k _ _ _ h2
        ∙ get-put_other k _ _ _ h3
        ∙ get-put_other k _ _ _ h4
        ∙ get-put_other k _ _ _ h5

    checked_generated :
        get "profile_generated_at" (checked d owner device generated reason distributed)
        ≡ some (str generated)
    checked_generated =
        get-put_other _ _ _ _ refl ∙ get-put_other _ _ _ _ refl ∙ get-put "profile_generated_at" _ _

    checked_distributed :
        get "distributed_at" (checked d owner device generated reason distributed)
        ≡ some (text_or_none distributed)
    checked_distributed = get-put "distributed_at" _ _

  checked-IsMetadata :
      (d : Fields) (owner device : Option String) (generated reason : String)
      (distributed : Option String) (revision : ℕ)
      → revision_of d ≡ ok revision
      → is_among ("managed" ∷ "external" ∷ []) (value_at "management" d) ≡ true
      → is_among ("unknown" ∷ "pending" ∷ "distributed" ∷ []) (value_at "distribution_status" d)
        ≡ true
      → distribution_fits (value_at "distribution_status" d) distributed ≡ ok tt
      → IsThirdSchema (value_at "schema_version" d)
      → IsMetadata (checked d owner device generated reason distributed)
  checked-IsMetadata d owner device generated reason distributed revision r m k f third_read =
      let same_at = checked_other d owner device generated reason distributed in
      record {
        schema_three =
            subst (λ o. IsThirdSchema (or_null o))
              (sym (same_at "schema_version" refl refl refl refl refl)) third_read;
        revision = revision;
        revision_read =
            subst (λ o. positive_integer (or_null o) ≡ ok revision)
              (sym (same_at "profile_revision" refl refl refl refl refl)) r;
        positive_revision =
            (positive_integer-positive (value_at "profile_revision" d)).on revision r;
        generated_at = generated;
        generated = checked_generated d owner device generated reason distributed;
        managed =
            subst (λ o. is_among ("managed" ∷ "external" ∷ []) (or_null o) ≡ true)
              (sym (same_at "management" refl refl refl refl refl)) m;
        status_known =
            subst (λ o. is_among ("unknown" ∷ "pending" ∷ "distributed" ∷ []) (or_null o) ≡ true)
              (sym (same_at "distribution_status" refl refl refl refl refl)) k;
        distributed_at = distributed;
        distributed = checked_distributed d owner device generated reason distributed;
        status_fits =
            subst (λ o. DistributionFits (or_null o) distributed)
              (sym (same_at "distribution_status" refl refl refl refl refl))
              (distribution_fits-DistributionFits _ distributed f);
      }

  check_metadata-IsMetadata :
      (d : Fields)
      → IsThirdSchema (value_at "schema_version" d)
      → Ensures IsMetadata (check_metadata iso dates d)
  unfolding check_metadata
  check_metadata-IsMetadata d third_read = bind-Ensures _ _ λ _ managed. bind-Ensures _ _ λ owner _.
      bind-Ensures _ _ λ device _. bind-Ensures _ _ λ _ _. bind-Ensures _ _ λ revision h1.
        bind-Ensures _ _ λ _ _. bind-Ensures _ _ λ generated _. bind-Ensures _ _ λ _ _.
          bind-Ensures _ _ λ reason _. bind-Ensures _ _ λ _ known. bind-Ensures _ _ λ distributed _.
            bind-Ensures _ _ λ _ fits. ok-Ensures _ (
              checked-IsMetadata d owner device generated reason distributed revision h1
                (require-eq-ok _ _ managed) (require-eq-ok _ _ known) fits third_read)

  -- The metadata that was read has one of the three schemas.
  abbrev pub IsRead : Value → Type 0
  IsRead v = (d : Fields) × (as_dict v ≡ some d) × IsKnownSchema (value_at "schema_version" d)

  -- Metadata is accepted only with the schema 1, 2 or 3, and what it becomes is schema 3 metadata: it
  -- is managed or external, its revision is positive, it has a time of generation, its distribution
  -- status is known, and it has a time of distribution exactly where it is distributed.
  pub normalize_client_metadata-IsMetadata :
      (v : Value) → Ensures (λ m. IsRead v × IsMetadata m) (normalize_client_metadata iso dates v)
  unfolding normalize_client_metadata
  normalize_client_metadata-IsMetadata v = bind-Ensures _ _ λ d h. bind-Ensures _ _ λ m k. record {
    on = λ r f.
        let (known, third_read) = (migrate-IsThirdSchema d).on m k in
        ((d, or_raise-eq-ok _ _ h, known), (check_metadata-IsMetadata m third_read).on r f);
  }

  -- What a regenerated profile has become, from its metadata.
  pub record IsRegenerated (metadata : Value) (d : Fields) : Type 0 where
    pub before : Fields
    pub was_read : normalize_client_metadata iso dates metadata ≡ ok before
    pub revision : ℕ
    pub revision_before : revision_of before ≡ ok revision
    pub revision_after : revision_of d ≡ ok (revision + 1)
    pub awaits : get "distribution_status" d ≡ some (str "pending")
    pub not_distributed : get "distributed_at" d ≡ some null
    pub same_name : get "name" d ≡ get "name" before
    pub same_address : get "address" d ≡ get "address" before
    pub same_key : get "public_key" d ≡ get "public_key" before

  migrate-third : (d : Fields) → get "schema_version" d ≡ some (int (pos 3)) → migrate d ≡ ok d
  unfolding migrate third ◌>>=◌
  migrate-third d h = rw h refl

  pending-none :
      (distributed : Option String)
      → distribution_fits (str "pending") distributed ≡ ok tt
      → distributed ≡ none
  unfolding distribution_fits
  pending-none none h = refl
  pending-none (some t) h = cc

  -- the entries of a regeneration, over the metadata before
  module _ (d : Fields) (n : ℕ) (reason timestamp : String) where
    abbrev entries : Fields
    entries = update (regenerated iso dates n reason timestamp) d

    kept_by_entries :
        (k : String)
        → same "updated_at" k ≡ false
        → same "distributed_at" k ≡ false
        → same "distribution_status" k ≡ false
        → same "profile_change_reason" k ≡ false
        → same "profile_generated_at" k ≡ false
        → same "profile_revision" k ≡ false
        → same "schema_version" k ≡ false
        → get k entries ≡ get k d
    kept_by_entries k h1 h2 h3 h4 h5 h6 h7 =
        get-put_other k _ _ _ h1
        ∙ get-put_other k _ _ _ h2
        ∙ get-put_other k _ _ _ h3
        ∙ get-put_other k _ _ _ h4
        ∙ get-put_other k _ _ _ h5
        ∙ get-put_other k _ _ _ h6
        ∙ get-put_other k _ _ _ h7

    status_of_entries : get "distribution_status" entries ≡ some (str "pending")
    status_of_entries =
        get-put_other _ _ _ _ refl ∙ get-put_other _ _ _ _ refl ∙ get-put "distribution_status" _ _

    revision_of_entries : get "profile_revision" entries ≡ some (int (pos (n + 1)))
    revision_of_entries =
        get-put_other _ _ _ _ refl
        ∙ get-put_other _ _ _ _ refl
        ∙ get-put_other _ _ _ _ refl
        ∙ get-put_other _ _ _ _ refl
        ∙ get-put_other _ _ _ _ refl
        ∙ get-put "profile_revision" _ _

    schema_of_entries : get "schema_version" entries ≡ some (int (pos 3))
    schema_of_entries =
        get-put_other _ _ _ _ refl
        ∙ get-put_other _ _ _ _ refl
        ∙ get-put_other _ _ _ _ refl
        ∙ get-put_other _ _ _ _ refl
        ∙ get-put_other _ _ _ _ refl
        ∙ get-put_other _ _ _ _ refl
        ∙ get-put "schema_version" _ _

  positive_integer-pos : (n : ℕ) → positive_integer (int (pos (n + 1))) ≡ ok (n + 1)
  unfolding positive_integer ◌>>=◌
  positive_integer-pos n = ground arith

  -- What is checked keeps the entries.
  checked-IsRegenerated :
      (metadata : Value) (d : Fields) (n : ℕ) (reason timestamp : String)
      → normalize_client_metadata iso dates metadata ≡ ok d
      → revision_of d ≡ ok n
      → Ensures (IsRegenerated metadata) (check_metadata iso dates (entries d n reason timestamp))
  unfolding check_metadata
  checked-IsRegenerated metadata d n reason timestamp read was = bind-Ensures _ _ λ _ _.
      bind-Ensures _ _ λ owner _. bind-Ensures _ _ λ device _. bind-Ensures _ _ λ _ _.
        bind-Ensures _ _ λ _ _. bind-Ensures _ _ λ _ _. bind-Ensures _ _ λ generated _.
          bind-Ensures _ _ λ _ _. bind-Ensures _ _ λ change _. bind-Ensures _ _ λ _ _.
            bind-Ensures _ _ λ distributed _. bind-Ensures _ _ λ _ fits.
              let u = entries d n reason timestamp in
              let same_at = checked_other u owner device generated change distributed in
              let status = status_of_entries d n reason timestamp in
              let none_distributed =
                pending-none distributed
                  (subst (λ o. distribution_fits (or_null o) distributed ≡ ok tt) status fits) in
              ok-Ensures _ (record {
                before = d;
                was_read = read;
                revision = n;
                revision_before = was;
                revision_after =
                    subst (λ o. positive_integer (or_null o) ≡ ok (n + 1))
                      (sym (
                        same_at "profile_revision" refl refl refl refl refl
                        ∙ revision_of_entries d n reason timestamp))
                      (positive_integer-pos n);
                awaits = same_at "distribution_status" refl refl refl refl refl ∙ status;
                not_distributed =
                    checked_distributed u owner device generated change distributed
                    ∙ ap (λ o. some (text_or_none o)) none_distributed;
                same_name =
                    same_at "name" refl refl refl refl refl
                    ∙ kept_by_entries d n reason timestamp "name" refl refl refl refl refl refl
                        refl;
                same_address =
                    same_at "address" refl refl refl refl refl
                    ∙ kept_by_entries d n reason timestamp "address" refl refl refl refl refl refl
                        refl;
                same_key =
                    same_at "public_key" refl refl refl refl refl
                    ∙ kept_by_entries d n reason timestamp "public_key" refl refl refl refl refl
                        refl refl;
              })

  -- A profile that is marked as regenerated is at the revision after the one that its metadata
  -- had, awaits its distribution, and keeps its name, address and public key.
  pub mark_profile_regenerated-IsRegenerated :
      (reason timestamp : String) (metadata : Value)
      → Ensures
          (IsRegenerated metadata)
          (mark_profile_regenerated iso dates reason timestamp metadata)
  unfolding mark_profile_regenerated normalize_client_metadata
  mark_profile_regenerated-IsRegenerated reason timestamp metadata = bind-Ensures _ _ λ d read.
      bind-Ensures _ _ λ n was. known-Ensures _ _ λ _.
        rw (migrate-third _ (schema_of_entries d n reason timestamp))
          (known-Ensures _ _ λ _. checked-IsRegenerated metadata d n reason timestamp read was)
