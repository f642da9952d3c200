-- ===== src/Transition/Cleanup/Metadata.antt =====
-- `apply_confirmed_profile_updates` of awgctl/core.py.
use mathlib.Core.Path.{subst}
use amneziawg_manager.Prelude.{
  In, &&-eq-true, ℕ, ◌||◌, String, ◌≡◌, refl, sym, ap, ◌∙◌, ◌⊎◌, inl, inr, Bool, true, false,
  Option, some, List, [], ◌∷◌, All, same, same_iff, one_of, arith, Bool-cases, ||-false,
}
use amneziawg_manager.Result.{ok, require-eq-ok, or_raise-eq-ok}
use amneziawg_manager.Value.{Value, null, bool, int, float, str, arr, obj, Fields, is_null}
use amneziawg_manager.Prelude.Int.{pos, negsuc}
use amneziawg_manager.Contracts.Dict.{value_at, is_among, among_one}
use amneziawg_manager.Contracts.Metadata.{normalize_client_metadata, mark_profile_regenerated}
use amneziawg_manager.Step.Ends.{
  Ends, bind-Ends, ask-Ends, lift-Ends, last_lift-Ends, pure-Ends, weaken-Ends,
}
use amneziawg_manager.Transition.Outcome.{
  Ending, confirmed, rolled_back, Update, Outcome, update_names,
}
use amneziawg_manager.Transition.Outcome.Accepts.{
  OnceEach, IsOutcome, normalize-IsOutcome, EndingFits,
}
use amneziawg_manager.Transition.Outcome.Faithful.{normalize-outcome_document}
use amneziawg_manager.Transition.Load.{Files, Disk, Host}
use amneziawg_manager.Transition.Store.Swap.{change-Ends}
use amneziawg_manager.Transition.Cleanup.{
  is_revision, with_metadata, is_updated, regenerate, apply_update, apply_updates, apply_by_ending,
  apply_confirmed_profile_updates,
}

clash : {A : Type 0} → true ≡ false → A
clash e = cc

later : (x y : String) (seen : List String) → one_of x seen ≡ true → one_of x (y ∷ seen) ≡ true
later x y seen h = ground arith

first : (x : String) (seen : List String) → one_of x (x ∷ seen) ≡ true
first x seen = rw ((same_iff x x).1 refl) refl

-- Texts that are in a list and not in it differ.
differ :
    (x y : String) (seen : List String)
    → one_of x seen ≡ true
    → one_of y seen ≡ false
    → same x y ≡ false
differ x y seen h k = elim (Bool-cases (same x y)) [
  | inl e ↦ clash (sym h ∙ ap (λ z. one_of z seen) ((same_iff x y).0 e) ∙ k)
  | inr e ↦ e
]

fresh_name :
    (x : String) (seen : List String) (us : List Update)
    → one_of x seen ≡ true
    → OnceEach seen us
    → one_of x (update_names us) ≡ false
fresh_name x seen [] h k = refl
fresh_name x seen (u ∷ us) h (k, ks) =
    ||-false _ _ (differ x u.name seen h k)
      (fresh_name x (u.name ∷ seen) us (later x u.name seen h) ks)

-- The updates that an outcome makes: its own if it is confirmed, and none otherwise.
abbrev pub due_updates : Ending → List Update → List Update
due_updates confirmed us = us
due_updates rolled_back us = []

-- The revision, the time, the reason and the distribution of a profile after its update.
pub record IsUpdated (completed_at : String) (u : Update) (d : Fields) : Type 0 where
  pub revision : value_at "profile_revision" d ≡ int (pos u.to_revision)
  pub generated : value_at "profile_generated_at" d ≡ str completed_at
  pub reason : value_at "profile_change_reason" d ≡ str "obfuscation:awg31"
  pub status : value_at "distribution_status" d ≡ str "pending"
  pub not_distributed : value_at "distributed_at" d ≡ null

is_revision-eq : (n : ℕ) (v : Value) → is_revision n v ≡ true → v ≡ int (pos n)
is_revision-eq n null e = cc
is_revision-eq n (bool b) e = cc
is_revision-eq n (int (pos m)) e = ap (λ k. int (pos k)) (ground arith)
is_revision-eq n (int (negsuc m)) e = cc
is_revision-eq n (float x) e = cc
is_revision-eq n (str t) e = cc
is_revision-eq n (arr vs) e = cc
is_revision-eq n (obj fs) e = cc

is_null-eq : (v : Value) → is_null v ≡ true → v ≡ null
is_null-eq null e = refl
is_null-eq (bool b) e = cc
is_null-eq (int z) e = cc
is_null-eq (float x) e = cc
is_null-eq (str t) e = cc
is_null-eq (arr vs) e = cc
is_null-eq (obj fs) e = cc

is_updated-IsUpdated :
    (at : String) (u : Update) (d : Fields) → is_updated at u d ≡ true → IsUpdated at u d
is_updated-IsUpdated at u d e =
    let (e4, distributed) = &&-eq-true _ (is_null (value_at "distributed_at" d)) e in
    let (e3, status) =
      &&-eq-true _ (is_among ("pending" ∷ []) (value_at "distribution_status" d)) e4 in
    let (e2, reason) =
      &&-eq-true _ (is_among ("obfuscation:awg31" ∷ []) (value_at "profile_change_reason" d)) e3 in
    let (revision, generated) =
      &&-eq-true (is_revision u.to_revision (value_at "profile_revision" d)) _ e2 in
    record {
      revision = is_revision-eq u.to_revision _ revision;
      generated = among_one at _ generated;
      reason = among_one "obfuscation:awg31" _ reason;
      status = among_one "pending" _ status;
      not_distributed = is_null-eq _ distributed;
    }

named-In : (u : Update) (us : List Update) → In u us → one_of u.name (update_names us) ≡ true
named-In u [] i = absurd i
named-In u (v ∷ us) (inl e) = rw ((same_iff u.name v.name).1 (ap (λ x. x.name) e)) refl
named-In u (v ∷ us) (inr i) = ||-true (same u.name v.name) _ (named-In u us i)
  where
    ||-true : (a b : Bool) → b ≡ true → (a || b) ≡ true
    ||-true a b e = ground arith

module _ (h : Host) where
  open h use {Outside, library, dates}
  open library use {iso}

  -- The metadata of the client `n` was that of a profile to be updated, and is its regeneration.
  pub record Regenerated (at : String) (us : List Update) (n : String) (m m' : Option Value)
      : Type 0 where
    pub by : Update
    pub listed : In by us
    pub named : by.name ≡ n
    pub value : Value
    pub was : m ≡ some value
    pub read : Fields
    pub reading : normalize_client_metadata iso dates value ≡ ok read
    pub next : Fields
    pub regenerates : mark_profile_regenerated iso dates "obfuscation:awg31" at (obj read) ≡ ok next
    pub now : m' ≡ some (obj next)

  -- No file has changed but the metadata of clients of these updates, each by its regeneration.
  pub record Frame (at : String) (us : List Update) (s s' : Files) : Type 0 where
    pub same_transition : s'.transition ≡ s.transition
    pub same_outcome : s'.outcome ≡ s.outcome
    pub same_pending : s'.pending ≡ s.pending
    pub entries :
        (n : String)
        → (s'.metadata n ≡ s.metadata n) ⊎ Regenerated at us n (s.metadata n) (s'.metadata n)

  still : (at : String) (us : List Update) (s : Files) → Frame at us s s
  still at us s = record {
    same_transition = refl;
    same_outcome = refl;
    same_pending = refl;
    entries = λ n. inl refl;
  }

  untouched :
      {at : String} {us : List Update} {s s' : Files}
      → Frame at us s s'
      → (n : String) → one_of n (update_names us) ≡ false
      → s'.metadata n ≡ s.metadata n
  untouched {us} f n k = elim (f.entries n) [
    | inl e ↦ e
    | inr r ↦
        clash (sym (named-In r.by us r.listed) ∙ ap (λ x. one_of x (update_names us)) r.named ∙ k)
  ]

  carried :
      {at : String} {us us' : List Update} {n : String} {m m' k k' : Option Value}
      (r : Regenerated at us n m m')
      → In r.by us'
      → k ≡ m
      → k' ≡ m'
      → Regenerated at us' n k k'
  carried r i e e' = record {
    by = r.by;
    listed = i;
    named = r.named;
    value = r.value;
    was = e ∙ r.was;
    read = r.read;
    reading = r.reading;
    next = r.next;
    regenerates = r.regenerates;
    now = e' ∙ r.now;
  }

  -- The frame of a loop, from that of its first update and that of the others.
  further :
      {at : String} {us : List Update} {s t v : Files} (u : Update)
      → one_of u.name (update_names us) ≡ false
      → Frame at (u ∷ []) s t
      → Frame at us t v
      → Frame at (u ∷ us) s v
  further {at} {us} {s} {t} {v} u fresh f g = record {
    same_transition = g.same_transition ∙ f.same_transition;
    same_outcome = g.same_outcome ∙ f.same_outcome;
    same_pending = g.same_pending ∙ f.same_pending;
    entries = λ n. elim (f.entries n) [
      | inl e ↦ elim (g.entries n) [
        | inl e' ↦ inl (e' ∙ e)
        | inr r ↦ inr (carried r (inr r.listed) (sym e) refl)
      ]
      | inr r ↦
          let other =
            ap (λ x. one_of x (update_names us)) (sym (same_named r.by r.listed r.named)) ∙ fresh in
          inr (carried r (only r.by r.listed) refl (untouched g n other))
    ];
  }
    where
      only : (x : Update) → In x (u ∷ []) → In x (u ∷ us)
      only x (inl e) = inl e
      only x (inr i) = absurd i

      same_named : {n : String} (x : Update) → In x (u ∷ []) → x.name ≡ n → u.name ≡ n
      same_named x (inl e) k = ap (λ y. y.name) (sym e) ∙ k
      same_named x (inr i) k = absurd i

  -- The metadata on the disk, or its normal form, has the update.
  pub record IsApplied (completed_at : String) (metadata : String → Option Value) (u : Update)
      : Type 0 where
    pub value : Value
    pub stored : metadata u.name ≡ some value
    pub read : Fields
    pub reading : (value ≡ obj read) ⊎ (normalize_client_metadata iso dates value ≡ ok read)
    pub updated : IsUpdated completed_at u read

  own_metadata :
      (name : String) (d : Fields) (s : Files)
      → (with_metadata name d s).metadata name ≡ some (obj d)
  own_metadata name d s = rw ((same_iff name name).1 refl) refl

  abbrev Read : Files → Update → Fields → Type 0
  Read s u d =
      (value : Value) × (s.metadata u.name ≡ some value)
      × ((value ≡ obj d) ⊎ (normalize_client_metadata iso dates value ≡ ok d))

  with_metadata-Frame :
      (at : String) (u : Update) (value : Value) (d p : Fields) (s : Files)
      → s.metadata u.name ≡ some value
      → normalize_client_metadata iso dates value ≡ ok d
      → mark_profile_regenerated iso dates "obfuscation:awg31" at (obj d) ≡ ok p
      → Frame at (u ∷ []) s (with_metadata u.name p s)
  with_metadata-Frame at u value d p s found normal marked = record {
    same_transition = refl;
    same_outcome = refl;
    same_pending = refl;
    entries = λ n. elim (Bool-cases (same n u.name)) [
      | inl e ↦
          let name : u.name ≡ n = sym ((same_iff n u.name).0 e) in
          inr (record {
            by = u;
            listed = inl refl;
            named = name;
            value = value;
            was = ap s.metadata (sym name) ∙ found;
            read = d;
            reading = normal;
            next = p;
            regenerates = marked;
            now = rw e refl;
          })
      | inr e ↦ inl (rw e refl)
    ];
  }

  regenerate-Ends :
      (b : Bool) (o : Outcome) (u : Update) (value : Value) (d : Fields) (w : Disk Outside)
      → w.files.metadata u.name ≡ some value
      → normalize_client_metadata iso dates value ≡ ok d
      → Ends
          (λ d' (w' : Disk Outside).
            Read w'.files u d' × Frame o.completed_at (u ∷ []) w.files w'.files)
          (λ _ (w' : Disk Outside). Frame o.completed_at (u ∷ []) w.files w'.files)
          (regenerate h b o u d w)
  unfolding regenerate
  regenerate-Ends false o u value d w found normal =
      pure-Ends _ w ((value, found, inr normal), still _ _ _)
  regenerate-Ends true o u value d w found normal =
      lift-Ends _ _ w (λ _ _. still _ _ _)
        λ p marked.
          lift-Ends _ _ w (λ _ _. still _ _ _)
            λ _ _.
              let kept_frame =
                with_metadata-Frame o.completed_at u value d p w.files found normal marked in
              bind-Ends _ _ w
                (weaken-Ends _ (λ _ _ e. e)
                  (λ _ w' x. elim x [
                    | inl e ↦ subst (Frame o.completed_at (u ∷ []) w.files) (sym e) (still _ _ _)
                    | inr e ↦ subst (Frame o.completed_at (u ∷ []) w.files) (sym e) kept_frame
                  ])
                  (change-Ends h _ w))
                λ _ w' e. pure-Ends p w' (
                  (
                    obj p,
                    subst (λ s. s.metadata u.name ≡ some (obj p)) (sym e)
                        (own_metadata u.name p w.files),
                    inl refl,
                  ),
                  subst (Frame o.completed_at (u ∷ []) w.files) (sym e) kept_frame,
                )

  apply_update-Ends :
      (o : Outcome) (u : Update) (w : Disk Outside)
      → Ends
          (λ _ (w' : Disk Outside).
            IsApplied o.completed_at w'.files.metadata u
            × Frame o.completed_at (u ∷ []) w.files w'.files)
          (λ _ (w' : Disk Outside). Frame o.completed_at (u ∷ []) w.files w'.files)
          (apply_update h o u w)
  unfolding apply_update
  apply_update-Ends o u w =
      ask-Ends _ _ w (λ _ _. still _ _ _)
        λ _ _.
          ask-Ends _ _ w (λ _ _. still _ _ _)
            λ value found.
              lift-Ends _ _ w (λ _ _. still _ _ _)
                λ read normal.
                  lift-Ends _ _ w (λ _ _. still _ _ _)
                    λ _ _.
                      bind-Ends _ _ w
                        (regenerate-Ends _ o u value read w (or_raise-eq-ok _ _ found) normal)
                        λ d w' ((value', stored, reading), frame).
                          last_lift-Ends _ w' (λ _ _. frame)
                            λ _ fits. (
                              record {
                                value = value';
                                stored = stored;
                                read = d;
                                reading = reading;
                                updated =
                                    is_updated-IsUpdated o.completed_at u d
                                      (require-eq-ok _ _ fits);
                              },
                              frame,
                            )

  -- An update that is applied stays so while the metadata of its client is not touched.
  kept :
      (at : String) (u : Update) (m m' : String → Option Value)
      → IsApplied at m u
      → m' u.name ≡ m u.name
      → IsApplied at m' u
  kept at u m m' a e = record {
    value = a.value;
    stored = e ∙ a.stored;
    read = a.read;
    reading = a.reading;
    updated = a.updated;
  }

  abbrev pub Applied : Outcome → (String → Option Value) → Type 0
  Applied o m = All (IsApplied o.completed_at m) o.profile_updates

  -- the frame of the first update, where the loop has raised in it
  widened :
      {at : String} {us : List Update} {s t : Files} (u : Update)
      → one_of u.name (update_names us) ≡ false
      → Frame at (u ∷ []) s t
      → Frame at (u ∷ us) s t
  widened u fresh f = further u fresh f (still _ _ _)

  apply_updates-Ends :
      (o : Outcome) (seen : List String) (us : List Update) (w : Disk Outside)
      → OnceEach seen us
      → Ends
          (λ _ (w' : Disk Outside).
            All (IsApplied o.completed_at w'.files.metadata) us
            × Frame o.completed_at us w.files w'.files)
          (λ _ (w' : Disk Outside). Frame o.completed_at us w.files w'.files)
          (apply_updates h o us w)
  unfolding apply_updates
  apply_updates-Ends o seen [] w once = pure-Ends tt w (tt, still _ _ _)
  apply_updates-Ends o seen (u ∷ us) w (_, once) =
      let fresh = fresh_name u.name (u.name ∷ seen) us (first u.name seen) once in
      bind-Ends _ _ w
        (weaken-Ends _ (λ _ _ r. r) (λ _ _ f. widened u fresh f) (apply_update-Ends o u w))
        λ _ w1 (one, f1).
          weaken-Ends _
            (λ _ w2 (more, f2). (
              (
                kept o.completed_at u w1.files.metadata w2.files.metadata one
                    (untouched f2 u.name fresh),
                more,
              ),
              further u fresh f1 f2,
            ))
            (λ _ _ f2. further u fresh f1 f2) (apply_updates-Ends o (u.name ∷ seen) us w1 once)

  -- The frame of the updates that the outcome makes.
  abbrev pub OutcomeFrame : Outcome → Files → Files → Type 0
  OutcomeFrame o s s' = Frame o.completed_at (due_updates o.outcome o.profile_updates) s s'

  by_ending-Ends :
      (o : Outcome) (e : Ending) (w : Disk Outside)
      → IsOutcome iso o
      → EndingFits e o.reason o.profile_updates
      → Ends
          (λ _ (w' : Disk Outside).
            Applied o w'.files.metadata
            × Frame o.completed_at (due_updates e o.profile_updates) w.files w'.files)
          (λ _ (w' : Disk Outside).
            Frame o.completed_at (due_updates e o.profile_updates) w.files w'.files)
          (apply_by_ending h e o w)
  unfolding apply_by_ending
  by_ending-Ends o confirmed w valid fits =
      apply_updates-Ends o [] o.profile_updates w valid.once_each
  by_ending-Ends o rolled_back w valid (_, none_listed) =
      pure-Ends tt w
        (subst (All (IsApplied o.completed_at w.files.metadata)) (sym none_listed) tt, still _ _ _)

  -- If it returns, the metadata of each profile that the outcome names has the update's revision, the
  -- outcome's time and reason, and is not distributed. Whether it returns or raises, no file has
  -- changed but the metadata of these clients, and only if the outcome is confirmed; what has changed
  -- is the regeneration of what was there.
  pub apply_confirmed_profile_updates-Applied :
      (o : Outcome) (w : Disk Outside)
      → Ends
          (λ _ (w' : Disk Outside). Applied o w'.files.metadata × OutcomeFrame o w.files w'.files)
          (λ _ (w' : Disk Outside). OutcomeFrame o w.files w'.files)
          (apply_confirmed_profile_updates h o w)
  unfolding apply_confirmed_profile_updates
  apply_confirmed_profile_updates-Applied o w =
      lift-Ends _ _ w (λ _ _. still _ _ _)
        λ n normal.
          let same = (normalize-outcome_document iso o).on n normal in
          let valid : IsOutcome iso o =
            subst (IsOutcome iso) same ((normalize-IsOutcome iso _).on n normal) in
          rw same (by_ending-Ends o o.outcome w valid valid.ending_fits)
