-- ===== src/Clients/Expiry.antt =====
-- The expiry transaction's choice of clients: `clients_due_for_expiry`,
-- `clients_requiring_expiry_reconciliation` and `bind_expiry_records` of awgctl/core.py.
use mathlib.Core.Bool.{false≢true}
use amneziawg_manager.Prelude.{
  ℕ, String, ◌≡◌, ◌↔◌, ◌≢◌, refl, Bool, true, false, ◌&&◌, Option, none, some, List, [], ◌∷◌, same,
  same_iff, In, &&-eq-true, ◌⊎◌, sym, ◌∙◌, ap, inl, inr, if◌then◌else◌, Bool-cases, Option-cases,
}
use amneziawg_manager.Result.{
  Result, ok, ◌>>=◌, ◌>>◌, or_raise, require, Ensures, bind-Ensures, ok-Ensures, Result-cases,
  ok_injective, or_raise-eq-ok, require-eq-ok,
}
use amneziawg_manager.Clients.Status.{
  Client, Midnight, stored_status, effective_client_status, IsEligible,
  effective_client_status-IsEligible, effective_client_status-cases,
}

-- `[x for x in xs if p(x)]` where the condition may raise
unfoldable pub keep_if {ℓ} : {A : Type ℓ} → (A → Result Bool) → List A → Result (List A)
keep_if p [] = ok []
keep_if p (x ∷ xs) = do kept ← p x; rest ← keep_if p xs; ok (if kept then x ∷ rest else rest)

unfoldable pub is_expired : Midnight → ℕ → Client → Result Bool
is_expired midnight current c = do
  status ← effective_client_status midnight current c
  ok (same status "expired")

-- the condition of `clients_due_for_expiry`: `and` does not read the date of an inactive client
unfoldable pub is_due : Midnight → ℕ → Client → Result Bool
is_due midnight current c =
    if same (stored_status c) "active" then is_expired midnight current c else ok false

unfoldable pub clients_due_for_expiry : Midnight → ℕ → List Client → Result (List Client)
clients_due_for_expiry midnight current = keep_if (is_due midnight current)

unfoldable pub clients_requiring_expiry_reconciliation :
    Midnight → ℕ → List Client → Result (List Client)
clients_requiring_expiry_reconciliation midnight current = keep_if (is_expired midnight current)

-- `by_name.get(name)`: the dictionary keeps the last client of a name
unfoldable pub by_name : String → List Client → Option Client
by_name name [] = none
by_name name (c ∷ cs) = elim (by_name name cs) [
  | some d ↦ some d
  | none ↦ if same c.name name then some c else none
]

-- `current.get(field) == original.get(field)` for a field that may be missing
unfoldable pub same_field : Option String → Option String → Bool
same_field none none = true
same_field (some s) (some t) = same s t
same_field _ _ = false

unfoldable pub same_identity : Client → Client → Bool
same_identity c d =
    same c.name d.name
    && same c.address d.address
    && same c.public_key d.public_key
    && same_field c.expires d.expires
    && same_field c.status d.status

unfoldable pub bind_expiry_records : List Client → List Client → Result (List Client)
bind_expiry_records [] reloaded = ok []
bind_expiry_records (original ∷ selected) reloaded = do
  current ← or_raise (by_name original.name reloaded) "client identity changed during expiry"
  require (same_identity current original) "client identity changed during expiry"
  bound ← bind_expiry_records selected reloaded
  ok (current ∷ bound)

-- What `keep_if` keeps of its list.
record Keeps {A : Type 0} (p : A → Result Bool) (xs ys : List A) : Type 0 where
  known : (x : A) → In x xs → (b : Bool) × (p x ≡ ok b)
  kept : (x : A) → In x xs → p x ≡ ok true → In x ys
  only : (x : A) → In x ys → In x xs × (p x ≡ ok true)

keep_if-Ensures :
    {A : Type 0} (p : A → Result Bool) (xs : List A) → Ensures (Keeps p xs) (keep_if p xs)
unfolding keep_if
keep_if-Ensures p [] =
    ok-Ensures _ (record { known = λ x i. absurd i; kept = λ x i h. i; only = λ x i. absurd i })
keep_if-Ensures p (z ∷ xs) = bind-Ensures _ _ λ b h.
    bind-Ensures _ _
      λ rest k. ok-Ensures _ (keep_more p z xs b rest h ((keep_if-Ensures p xs).on rest k))
  where
    keep_more :
        {A : Type 0} (p : A → Result Bool) (z : A) (xs : List A) (b : Bool) (rest : List A)
        → p z ≡ ok b
        → Keeps p xs rest
        → Keeps p (z ∷ xs) (if b then z ∷ rest else rest)
    keep_more p z xs true rest h k = record {
      known = λ x i. elim i [ inl e ↦ (true, ap p e ∙ h) | inr i ↦ k.known x i ];
      kept = λ x i. elim i [ inl e ↦ (λ _. inl e) | inr i ↦ (λ t. inr (k.kept x i t)) ];
      only = λ x i. elim i [
        | inl e ↦ (inl e, ap p e ∙ h)
        | inr i ↦ (inr (k.only x i).0, (k.only x i).1)
      ];
    }
    keep_more p z xs false rest h k = record {
      known = λ x i. elim i [ inl e ↦ (false, ap p e ∙ h) | inr i ↦ k.known x i ];
      kept = λ x i. elim i [
        | inl e ↦ λ t. absurd (false≢true (ok_injective (sym h ∙ (ap p (sym e) ∙ t))))
        | inr i ↦ λ t. k.kept x i t
      ];
      only = λ x i. (inr (k.only x i).0, (k.only x i).1);
    }

-- The clients whose peers must be absent, among all clients: none of them is eligible, and a client
-- that is left out is eligible or has a stored status that is neither active nor expired.
pub record Separates (midnight : Midnight) (current : ℕ) (clients found : List Client)
    : Type 0 where
  pub absent : (c : Client) → In c found → In c clients × (IsEligible midnight current c → ⊥)
  pub present :
      (c : Client)
      → In c clients
      → In c found
        ⊎ (IsEligible midnight current c
            ⊎ ((stored_status c ≢ "active") × (stored_status c ≢ "expired")))

expired-not-IsEligible :
    (midnight : Midnight) (current : ℕ) (c : Client)
    → is_expired midnight current c ≡ ok true
    → IsEligible midnight current c
    → ⊥
unfolding is_expired ◌>>=◌
expired-not-IsEligible midnight current c h g =
    false≢true (ok_injective (rw (effective_client_status-IsEligible midnight current c g) at h))

not-expired-cases :
    (midnight : Midnight) (current : ℕ) (c : Client)
    → is_expired midnight current c ≡ ok false
    → IsEligible midnight current c ⊎ ((stored_status c ≢ "active") × (stored_status c ≢ "expired"))
unfolding is_expired ◌>>=◌
not-expired-cases midnight current c h =
    elim (Result-cases (effective_client_status midnight current c)) [
      | inr (m, e) ↦ cc (rw e at h)
      | inl (s, e) ↦
          let not_expired : same s "expired" ≡ false = ok_injective (rw e at h) in
          elim (effective_client_status-cases midnight current c e) [
            | inl g ↦ inl g
            | inr (inl x) ↦ absurd (false≢true (sym not_expired ∙ (same_iff s "expired").1 x))
            | inr (inr (x, n)) ↦
                inr (n, λ p. false≢true (sym not_expired ∙ (same_iff s "expired").1 (x ∙ p)))
          ]
    ]

-- Of the clients that are found to require reconciliation none is eligible, and a client that is
-- left out is eligible or has a stored status that is neither active nor expired.
pub clients_requiring_expiry_reconciliation-Ensures :
    (midnight : Midnight) (current : ℕ) (clients : List Client)
    → Ensures
        (Separates midnight current clients)
        (clients_requiring_expiry_reconciliation midnight current clients)
unfolding clients_requiring_expiry_reconciliation
clients_requiring_expiry_reconciliation-Ensures midnight current clients = record {
  on = λ found h.
      let k = (keep_if-Ensures (is_expired midnight current) clients).on found h in
      record {
        absent = λ c i. ((k.only c i).0, expired-not-IsEligible midnight current c (k.only c i).1);
        present = λ c i.
            let (b, t) = k.known c i in
            elim (Bool-cases b) [
              | inl e ↦ inl (k.kept c i (t ∙ ap ok e))
              | inr e ↦ inr (not-expired-cases midnight current c (t ∙ ap ok e))
            ];
      };
}

is_due-active :
    (midnight : Midnight) (current : ℕ) (c : Client)
    → is_due midnight current c ≡ ok true
    → (is_expired midnight current c ≡ ok true) × (stored_status c ≡ "active")
unfolding is_due
is_due-active midnight current c h = elim (Bool-cases (same (stored_status c) "active")) [
  | inl e ↦ (rw e at h, (same_iff (stored_status c) "active").0 e)
  | inr e ↦ absurd (false≢true (ok_injective (rw e at h)))
]

-- A client whose test has an answer is due where it is stored as active and is not eligible.
due_when :
    (midnight : Midnight) (current : ℕ) (c : Client) (b : Bool)
    → is_due midnight current c ≡ ok b
    → stored_status c ≡ "active"
    → (IsEligible midnight current c → ⊥)
    → is_due midnight current c ≡ ok true
unfolding is_due
due_when midnight current c true h a n = h
due_when midnight current c false h a n =
    elim (not-expired-cases midnight current c
      (rw ((same_iff (stored_status c) "active").1 a) at h)) [
        | inl g ↦ absurd (n g)
        | inr (x, _) ↦ absurd (x a)
      ]

-- Of the list that is computed, the clients due for expiry are the given clients whose stored status
-- is active and that are not eligible at this instant.
pub clients_due_for_expiry_iff :
    (midnight : Midnight) (current : ℕ) (clients : List Client) {due : List Client}
    → clients_due_for_expiry midnight current clients ≡ ok due
    → (c : Client)
    → In c due ↔ (In c clients × (stored_status c ≡ "active") × (IsEligible midnight current c → ⊥))
unfolding clients_due_for_expiry
clients_due_for_expiry_iff midnight current clients h c =
    let d = (keep_if-Ensures (is_due midnight current) clients).on _ h in
    (
      λ i.
          let (j, t) = d.only c i in
          let (e, a) = is_due-active midnight current c t in
          (j, a, expired-not-IsEligible midnight current c e),
      λ (j, a, n). let (b, t) = d.known c j in d.kept c j (due_when midnight current c b t a n),
    )

-- `c` is the last client of the list with this name.
abbrev pub LastNamed : String → Client → List Client → Type 0
LastNamed name c [] = ⊥
LastNamed name c (d ∷ ds) =
    LastNamed name c ds ⊎ ((d ≡ c) × (c.name ≡ name) × ((e : Client) → In e ds → e.name ≢ name))

by_name-none :
    (name : String) (ds : List Client)
    → by_name name ds ≡ none
    → (e : Client) → In e ds
    → e.name ≢ name
unfolding by_name
by_name-none name [] h e i = absurd i
by_name-none name (d ∷ ds) h e i = elim (Option-cases (by_name name ds)) [
  | inl none_later ↦ elim (Bool-cases (same d.name name)) [
    | inl t ↦ cc (rw (none_later, t) at h)
    | inr t ↦ elim i [
      | inl same_client ↦ λ n.
          false≢true (sym t ∙ (same_iff d.name name).1 (ap (λ x. x.name) (sym same_client) ∙ n))
      | inr later ↦ by_name-none name ds none_later e later
    ]
  ]
  | inr (x, found) ↦ cc (rw found at h)
]

by_name-LastNamed :
    (name : String) (c : Client) (ds : List Client) → by_name name ds ≡ some c → LastNamed name c ds
unfolding by_name
by_name-LastNamed name c [] h = cc
by_name-LastNamed name c (d ∷ ds) h = elim (Option-cases (by_name name ds)) [
  | inl none_later ↦ elim (Bool-cases (same d.name name)) [
    | inl t ↦
        let same_client : d ≡ c = some_inj (rw (none_later, t) at h) in
        inr (
          same_client,
          ap (λ x. x.name) (sym same_client) ∙ (same_iff d.name name).0 t,
          by_name-none name ds none_later,
        )
    | inr t ↦ none_some (rw (none_later, t) at h)
  ]
  | inr (x, found) ↦ inl (by_name-LastNamed name c ds (found ∙ (rw found at h)))
]
  where
    some_inj : {a b : Client} → some a ≡ some b → a ≡ b
    some_inj e = cc

    none_some : none ≡ some c → LastNamed name c (d ∷ ds)
    none_some e = cc

none-by_name :
    (name : String) (ds : List Client)
    → ((e : Client) → In e ds → e.name ≢ name)
    → by_name name ds ≡ none
unfolding by_name
none-by_name name [] h = refl
none-by_name name (d ∷ ds) h =
    rw (none-by_name name ds (λ e i. h e (inr i))) (elim (Bool-cases (same d.name name)) [
      | inl e ↦ absurd (h d (inl refl) ((same_iff d.name name).0 e))
      | inr e ↦ rw e refl
    ])

LastNamed-by_name :
    (name : String) (c : Client) (ds : List Client) → LastNamed name c ds → by_name name ds ≡ some c
unfolding by_name
LastNamed-by_name name c [] l = absurd l
LastNamed-by_name name c (d ∷ ds) (inl l) = rw (LastNamed-by_name name c ds l) refl
LastNamed-by_name name c (d ∷ ds) (inr (e, n, last)) =
    rw (none-by_name name ds last) (rw e (rw ((same_iff c.name name).1 n) refl))

-- The client that the transaction binds to a selected one: the last of its name, with the same
-- address, public key, expiry and status.
pub record IsBound (reloaded : List Client) (original current : Client) : Type 0 where
  pub reloads : LastNamed original.name current reloaded
  pub name : current.name ≡ original.name
  pub address : current.address ≡ original.address
  pub public_key : current.public_key ≡ original.public_key
  pub expires : current.expires ≡ original.expires
  pub status : current.status ≡ original.status

-- The two lists have the same length, and each bound client is bound to its selected one.
abbrev pub AllBound : List Client → List Client → List Client → Type 0
AllBound reloaded [] [] = Unit
AllBound reloaded (o ∷ os) (c ∷ cs) = IsBound reloaded o c × AllBound reloaded os cs
AllBound reloaded _ _ = ⊥

same_field_iff : (a b : Option String) → (same_field a b ≡ true) ↔ (a ≡ b)
unfolding same_field
same_field_iff none none = (λ _. refl, λ _. refl)
same_field_iff none (some t) = (λ h. cc, λ h. cc)
same_field_iff (some s) none = (λ h. cc, λ h. cc)
same_field_iff (some s) (some t) = (λ h. ap some ((same_iff s t).0 h), λ h. (same_iff s t).1 cc)

same_identity-IsBound :
    (reloaded : List Client) (o c : Client)
    → by_name o.name reloaded ≡ some c
    → same_identity c o ≡ true
    → IsBound reloaded o c
unfolding same_identity
same_identity-IsBound reloaded o c r h =
    let (h₁, s) = &&-eq-true _ (same_field c.status o.status) h in
    let (h₂, e) = &&-eq-true _ (same_field c.expires o.expires) h₁ in
    let (h₃, k) = &&-eq-true _ (same c.public_key o.public_key) h₂ in
    let (n, a) = &&-eq-true (same c.name o.name) (same c.address o.address) h₃ in
    record {
      reloads = by_name-LastNamed o.name c reloaded r;
      name = (same_iff c.name o.name).0 n;
      address = (same_iff c.address o.address).0 a;
      public_key = (same_iff c.public_key o.public_key).0 k;
      expires = (same_field_iff c.expires o.expires).0 e;
      status = (same_field_iff c.status o.status).0 s;
    }

IsBound-same_identity :
    (reloaded : List Client) (o c : Client) → IsBound reloaded o c → same_identity c o ≡ true
unfolding same_identity
IsBound-same_identity reloaded o c b = rw ((same_iff c.name o.name).1 b.name) (
    rw ((same_iff c.address o.address).1 b.address) (
      rw ((same_iff c.public_key o.public_key).1 b.public_key) (
        rw ((same_field_iff c.expires o.expires).1 b.expires)
          ((same_field_iff c.status o.status).1 b.status))))

bind_expiry_records-Ensures :
    (selected reloaded : List Client)
    → Ensures (AllBound reloaded selected) (bind_expiry_records selected reloaded)
unfolding bind_expiry_records
bind_expiry_records-Ensures [] reloaded = ok-Ensures [] tt
bind_expiry_records-Ensures (o ∷ os) reloaded = bind-Ensures _ _ λ c r. bind-Ensures _ _ λ _ s.
    bind-Ensures _ _ λ cs b. ok-Ensures (c ∷ cs) (
      same_identity-IsBound reloaded o c (or_raise-eq-ok _ _ r) (require-eq-ok _ _ s),
      (bind_expiry_records-Ensures os reloaded).on cs b,
    )

AllBound-bind_expiry_records :
    (selected reloaded bound : List Client)
    → AllBound reloaded selected bound
    → bind_expiry_records selected reloaded ≡ ok bound
unfolding bind_expiry_records ◌>>=◌
AllBound-bind_expiry_records [] reloaded [] h = refl
AllBound-bind_expiry_records [] reloaded (c ∷ cs) h = absurd h
AllBound-bind_expiry_records (o ∷ os) reloaded [] h = absurd h
AllBound-bind_expiry_records (o ∷ os) reloaded (c ∷ cs) (b, bs) =
    rw (LastNamed-by_name o.name c reloaded b.reloads) (
      rw (IsBound-same_identity reloaded o c b)
        (rw (AllBound-bind_expiry_records os reloaded cs bs) refl))

-- The records are bound exactly when each of them is the last reloaded client of the selected name
-- and has the selected address, public key, expiry and status, one for each selected client in
-- their order; any other case is an error.
pub bind_expiry_records_iff :
    (selected reloaded bound : List Client)
    → (bind_expiry_records selected reloaded ≡ ok bound) ↔ AllBound reloaded selected bound
bind_expiry_records_iff selected reloaded bound = (
  (bind_expiry_records-Ensures selected reloaded).on bound,
  AllBound-bind_expiry_records selected reloaded bound,
)
