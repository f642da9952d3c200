-- ===== src/Clients/Address.antt =====
-- The choice of a client address: `next_client_address` of awgctl/core.py. An IPv4 address is its
-- number, and a network is its first address and its prefix length.
use amneziawg_manager.Prelude.{
  ℕ, zero, suc, ◌+◌, ◌-◌, ◌^◌, ◌≤◌, ◌<◌, ◌≡◌, refl, ap, Bool, true, false, ◌||◌, Option, none, some,
  List, [], ◌∷◌, map, ◌==◌, any, arith, Bool-cases, inl, inr, if◌then◌else◌, ◌⊎◌, ◌∙◌, sym, ◌↔◌,
  ◌≢◌, ==_iff, All, leb, leb→le, Option-cases,
}
use mathlib.Core.Bool.{false≢true}
use amneziawg_manager.Result.{Result, Ensures, ok-Ensures, ok, raised}

-- `ipaddress.IPv4Network`
pub record Network : Type 0 where
  pub address : ℕ
  pub prefix : ℕ

-- `ipaddress.IPv4Interface`
pub record Interface : Type 0 where
  pub ip : ℕ
  pub prefix_length : ℕ

-- the numbers from `first` on, `count` of them
abbrev pub range : ℕ → ℕ → List ℕ
range first zero = []
range first (suc n) = first ∷ range (first + 1) n

-- `subnet.hosts()`: without the network and the broadcast address, where there are both
abbrev pub first_host : Network → ℕ
first_host n = if n.prefix == 32 || n.prefix == 31 then n.address else n.address + 1

abbrev pub host_count : Network → ℕ
host_count n = if n.prefix == 32 then 1 else if n.prefix == 31 then 2 else 2 ^ (32 - n.prefix) - 2

abbrev pub hosts : Network → List ℕ
hosts n = range (first_host n) (host_count n)

-- `host == server.ip or host in allocated_ips`
pub is_taken : Interface → List ℕ → ℕ → Bool
is_taken server allocated_ips x = x == server.ip || any (λ ip. x == ip) allocated_ips

-- the loop over the hosts
unfoldable pub first_free : Interface → List ℕ → List ℕ → Option ℕ
first_free server allocated_ips [] = none
first_free server allocated_ips (x ∷ xs) =
    if is_taken server allocated_ips x then first_free server allocated_ips xs else some x

abbrev as_client : Option ℕ → Result Interface
as_client none = raised "no unused client addresses remain in the managed subnet"
as_client (some x) = ok (record { ip = x; prefix_length = 32 })

unfoldable pub next_client_address : Network → Interface → List Interface → Result Interface
next_client_address subnet server allocated =
    as_client (first_free server (map (λ i. i.ip) allocated) (hosts subnet))

-- A number of the hosts from `first` on.
pub record IsHost (first count x : ℕ) : Type 0 where
  pub from : first ≤ x
  pub to : x < first + count

next_up : (first y : ℕ) → first ≤ y → (y ≡ first) ⊎ (first + 1 ≤ y)
next_up first y h = ground arith

module _ (server : Interface) (ips : List ℕ) where
  -- every number from `first` up to `last` is taken
  abbrev pub AllTaken : ℕ → ℕ → Type 0
  AllTaken first last = (y : ℕ) → first ≤ y → y < last → is_taken server ips y ≡ true

  taken_first :
      (first last : ℕ)
      → is_taken server ips first ≡ true
      → AllTaken (first + 1) last
      → AllTaken first last
  taken_first first last taken later y p q = elim (next_up first y p) [
    | inl e ↦ ap (is_taken server ips) e ∙ taken
    | inr more ↦ later y more q
  ]

  first_free-range :
      (first count x : ℕ)
      → first_free server ips (range first count) ≡ some x
      → IsHost first count x × (is_taken server ips x ≡ false) × AllTaken first x
  unfolding first_free
  first_free-range first zero x h = cc
  first_free-range first (suc n) x h = elim (Bool-cases (is_taken server ips first)) [
    | inr free ↦
        let e : first ≡ x = cc (rw free at h) in
        rw (sym e)
          (record { from = omega arith; to = omega arith }, free, λ y p q. absurd (omega arith))
    | inl taken ↦
        let later = first_free-range (first + 1) n x (rw taken at h) in
        (
          record { from = omega arith; to = omega arith },
          later.1,
          taken_first first x taken later.2,
        )
  ]

  first_free-none :
      (first count : ℕ)
      → first_free server ips (range first count) ≡ none
      → AllTaken first (first + count)
  unfolding first_free
  first_free-none first zero h = λ y p q. absurd (omega arith)
  first_free-none first (suc n) h = elim (Bool-cases (is_taken server ips first)) [
    | inr free ↦ cc (rw free at h)
    | inl taken ↦
        taken_first first (first + suc n) taken
          λ y p q. first_free-none (first + 1) n (rw taken at h) y p (omega arith)
  ]

-- Neither the server nor a client has the number.
pub record IsFree (server : Interface) (ips : List ℕ) (x : ℕ) : Type 0 where
  pub not_server : x ≢ server.ip
  pub not_allocated : All (λ k. x ≢ k) ips

differs : (x y : ℕ) → (x == y) ≡ false → x ≢ y
differs x y h e = false≢true (sym h ∙ (==_iff x y).1 e)

differs_test : (x y : ℕ) → x ≢ y → (x == y) ≡ false
differs_test x y h = ground arith

any-differs : (x : ℕ) (ips : List ℕ) → any (λ k. x == k) ips ≡ false → All (λ k. x ≢ k) ips
any-differs x [] h = tt
any-differs x (k ∷ ks) h = elim (Bool-cases (x == k)) [
  | inl e ↦ cc (rw e at h)
  | inr e ↦ (differs x k e, any-differs x ks (rw e at h))
]

any-differs_test : (x : ℕ) (ips : List ℕ) → All (λ k. x ≢ k) ips → any (λ k. x == k) ips ≡ false
any-differs_test x [] h = refl
any-differs_test x (k ∷ ks) (h, hs) = rw (differs_test x k h) (any-differs_test x ks hs)

is_taken-IsFree :
    (server : Interface) (ips : List ℕ) (x : ℕ)
    → is_taken server ips x ≡ false
    → IsFree server ips x
unfolding is_taken
is_taken-IsFree server ips x h = elim (Bool-cases (x == server.ip)) [
  | inl e ↦ cc (rw e at h)
  | inr e ↦ record {
    not_server = differs x server.ip e;
    not_allocated = any-differs x ips (rw e at h);
  }
]

IsFree-is_taken :
    (server : Interface) (ips : List ℕ) (x : ℕ)
    → IsFree server ips x
    → is_taken server ips x ≡ false
unfolding is_taken
IsFree-is_taken server ips x h =
    rw (differs_test x server.ip h.not_server) (any-differs_test x ips h.not_allocated)

-- What an address chosen for a new client is: a /32 on a free host of the subnet, below which no
-- host is free.
pub record Chosen (subnet : Network) (server : Interface) (ips : List ℕ) (i : Interface)
    : Type 0 where
  pub single : i.prefix_length ≡ 32
  pub host : IsHost (first_host subnet) (host_count subnet) i.ip
  pub free : IsFree server ips i.ip
  pub least :
      (y : ℕ) → IsHost (first_host subnet) (host_count subnet) y → IsFree server ips y → i.ip ≤ y

abbrev pub addresses : List Interface → List ℕ
addresses = map (λ i. i.ip)

least_free :
    (server : Interface) (ips : List ℕ) (first count x : ℕ)
    → AllTaken server ips first x
    → (y : ℕ) → IsHost first count y
    → IsFree server ips y
    → x ≤ y
least_free server ips first count x t y h f = elim (Bool-cases (leb x y)) [
  | inl e ↦ leb→le x y e
  | inr e ↦ absurd (false≢true (sym (IsFree-is_taken server ips y f) ∙ t y h.from (ground arith)))
]

-- An address that is returned is a /32 on a host of the subnet that is neither the server's nor
-- allocated, and the least such host.
pub next_client_address-Ensures :
    (subnet : Network) (server : Interface) (allocated : List Interface)
    → Ensures
        (Chosen subnet server (addresses allocated))
        (next_client_address subnet server allocated)
unfolding next_client_address
next_client_address-Ensures subnet server allocated =
    elim (Option-cases (first_free server (addresses allocated) (hosts subnet))) [
      | inl e ↦ record { on = λ i h. cc (rw e at h) }
      | inr (x, e) ↦
          let found =
            first_free-range server (addresses allocated) (first_host subnet) (host_count subnet) x
              e in
          rw e (
            ok-Ensures _ (record {
              single = refl;
              host = found.0;
              free = is_taken-IsFree server (addresses allocated) x found.1;
              least =
                  least_free server (addresses allocated) (first_host subnet) (host_count subnet) x
                    found.2;
            }))
    ]

-- An address is returned exactly when the subnet has a host that is neither the server's nor
-- allocated; otherwise the error is raised.
pub next_client_address_iff :
    (subnet : Network) (server : Interface) (allocated : List Interface)
    → ((i : Interface) × (next_client_address subnet server allocated ≡ ok i)) ↔ (
        (y : ℕ) × IsHost (first_host subnet) (host_count subnet) y
        × IsFree server (addresses allocated) y)
unfolding next_client_address
next_client_address_iff subnet server allocated = (
  λ r.
      let c = (next_client_address-Ensures subnet server allocated).on r.0 r.1 in
      (r.0.ip, c.host, c.free),
  λ f. elim (Option-cases (first_free server (addresses allocated) (hosts subnet))) [
    | inr (x, e) ↦ (record { ip = x; prefix_length = 32 }, ap as_client e)
    | inl e ↦ absurd (
        false≢true (
          sym (IsFree-is_taken server (addresses allocated) f.0 f.2)
          ∙ first_free-none server (addresses allocated) (first_host subnet) (host_count subnet) e
              f.0 f.1.from f.1.to))
  ],
)
