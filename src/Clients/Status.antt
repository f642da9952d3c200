-- ===== src/Clients/Status.antt =====
-- Who may connect: `effective_client_status` and `client_is_server_eligible` of awgctl/core.py. The
-- dates are read by `datetime`, which is the parameter `midnight`.
use mathlib.Core.Bool.{false≢true}
use amneziawg_manager.Prelude.{
  ℕ, ◌≤◌, ◌<◌, String, ◌≡◌, ◌↔◌, ◌≢◌, ◌⊎◌, refl, sym, ◌∙◌, Bool, true, false, Option, none, some,
  same, same_iff, leb, arith, inl, inr, if◌then◌else◌, Bool-cases, Option-cases, not,
}
use amneziawg_manager.Result.{Result, ok, ◌>>=◌, or_raise, ok_injective}
use amneziawg_manager.Value.{Fields}

-- A client as `load_clients` returns it: the texts that the expiry reads, and the other fields.
pub record Client : Type 0 where
  pub name : String
  pub address : String
  pub public_key : String
  pub expires : Option String
  pub status : Option String
  pub others : Fields

-- The first instant of a date in UTC, `none` where `date.fromisoformat` raises ValueError.
abbrev pub Midnight : Type 0
Midnight = String → Option ℕ

-- `client.get("status", "active")`
abbrev pub stored_status : Client → String
stored_status c = elim c.status [ none ↦ "active" | some s ↦ s ]

-- the status of an active client with this expiry, at the instant `current`
abbrev status_by : Midnight → ℕ → Option String → Result String
status_by midnight current none = ok "active"
status_by midnight current (some date) = do
  expiry ← or_raise (midnight date) "invalid isoformat string"
  ok (if leb expiry current then "expired" else "active")

unfoldable pub effective_client_status : Midnight → ℕ → Client → Result String
effective_client_status midnight current c =
    if not (same (stored_status c) "active")
    then ok (stored_status c)
    else status_by midnight current c.expires

unfoldable pub client_is_server_eligible : Midnight → ℕ → Client → Result Bool
client_is_server_eligible midnight current c = do
  status ← effective_client_status midnight current c
  ok (same status "active")

-- The expiry of a client has not come.
abbrev pub NotYet : Midnight → ℕ → Option String → Type 0
NotYet midnight current none = Unit
NotYet midnight current (some date) = (t : ℕ) × (midnight date ≡ some t) × (current < t)

pub record IsEligible (midnight : Midnight) (current : ℕ) (c : Client) : Type 0 where
  pub active : stored_status c ≡ "active"
  pub not_yet : NotYet midnight current c.expires

unfoldable pub is_active : Result String → Result Bool
is_active r = do status ← r; ok (same status "active")

before : (t current : ℕ) → leb t current ≡ false → current < t
before t current h = ground arith

not_before : (t current : ℕ) → current < t → leb t current ≡ false
not_before t current h = ground arith

status_by_sound :
    (midnight : Midnight) (current : ℕ) (e : Option String)
    → is_active (status_by midnight current e) ≡ ok true
    → NotYet midnight current e
unfolding is_active ◌>>=◌
status_by_sound midnight current none h = tt
status_by_sound midnight current (some date) h = elim (Option-cases (midnight date)) [
  | inl e ↦ cc (rw e at h)
  | inr (t, e) ↦ elim (Bool-cases (leb t current)) [
    | inl late ↦ cc (rw late at (rw e at h))
    | inr early ↦ (t, e, before t current early)
  ]
]

status_by_complete :
    (midnight : Midnight) (current : ℕ) (e : Option String)
    → NotYet midnight current e
    → status_by midnight current e ≡ ok "active"
unfolding ◌>>=◌
status_by_complete midnight current none h = refl
status_by_complete midnight current (some date) (t, e, early) =
    rw e (rw (not_before t current early) refl)

-- A client is eligible at an instant exactly when its stored status is active and its expiry, if it
-- has one, is a date that begins after the instant.
pub client_is_server_eligible_iff :
    (midnight : Midnight) (current : ℕ) (c : Client)
    → (client_is_server_eligible midnight current c ≡ ok true) ↔ IsEligible midnight current c
unfolding client_is_server_eligible effective_client_status is_active ◌>>=◌
client_is_server_eligible_iff midnight current c = (
  λ h. elim (Bool-cases (same (stored_status c) "active")) [
    | inl e ↦ record {
      active = (same_iff (stored_status c) "active").0 e;
      not_yet = status_by_sound midnight current c.expires (rw e at h);
    }
    | inr e ↦ cc (rw e at (rw e at h))
  ],
  λ g.
      rw ((same_iff (stored_status c) "active").1 g.active)
        (rw (status_by_complete midnight current c.expires g.not_yet) refl),
)

-- A client that is eligible at an instant was eligible at every earlier one: an expired client does
-- not become eligible again as time passes.
pub client_is_server_eligible-earlier :
    (midnight : Midnight) (earlier later : ℕ) (c : Client)
    → earlier ≤ later
    → client_is_server_eligible midnight later c ≡ ok true
    → client_is_server_eligible midnight earlier c ≡ ok true
client_is_server_eligible-earlier midnight earlier later c q h =
    let e = (client_is_server_eligible_iff midnight later c).0 h in
    (client_is_server_eligible_iff midnight earlier c).1 (record {
      active = e.active;
      not_yet = not_yet_earlier midnight earlier later c.expires q e.not_yet;
    })
  where
    not_yet_earlier :
        (midnight : Midnight) (earlier later : ℕ) (e : Option String)
        → earlier ≤ later
        → NotYet midnight later e
        → NotYet midnight earlier e
    not_yet_earlier midnight earlier later none q n = tt
    not_yet_earlier midnight earlier later (some date) q (t, e, n) = (t, e, omega arith)

pub effective_client_status-IsEligible :
    (midnight : Midnight) (current : ℕ) (c : Client)
    → IsEligible midnight current c
    → effective_client_status midnight current c ≡ ok "active"
unfolding effective_client_status
effective_client_status-IsEligible midnight current c g =
    rw ((same_iff (stored_status c) "active").1 g.active)
      (status_by_complete midnight current c.expires g.not_yet)

status_by-cases :
    (midnight : Midnight) (current : ℕ) (e : Option String) {s : String}
    → status_by midnight current e ≡ ok s
    → NotYet midnight current e ⊎ (s ≡ "expired")
unfolding ◌>>=◌
status_by-cases midnight current none h = inl tt
status_by-cases midnight current (some date) h = elim (Option-cases (midnight date)) [
  | inl e ↦ cc (rw e at h)
  | inr (t, e) ↦ elim (Bool-cases (leb t current)) [
    | inl late ↦ inr (sym (ok_injective (rw late at (rw e at h))))
    | inr early ↦ inl (t, e, before t current early)
  ]
]

-- What a status says: the client is eligible, it is expired, or the status is the stored one.
pub effective_client_status-cases :
    (midnight : Midnight) (current : ℕ) (c : Client) {s : String}
    → effective_client_status midnight current c ≡ ok s
    → IsEligible midnight current c
      ⊎ ((s ≡ "expired") ⊎ ((s ≡ stored_status c) × (stored_status c ≢ "active")))
unfolding effective_client_status
effective_client_status-cases midnight current c h =
    elim (Bool-cases (same (stored_status c) "active")) [
      | inl e ↦ elim (status_by-cases midnight current c.expires (rw e at h)) [
        | inl n ↦ inl (record { active = (same_iff (stored_status c) "active").0 e; not_yet = n })
        | inr x ↦ inr (inl x)
      ]
      | inr e ↦ inr (
          inr (
            sym (ok_injective (rw e at h)),
            λ p. false≢true (sym e ∙ (same_iff (stored_status c) "active").1 p),
          ))
    ]
