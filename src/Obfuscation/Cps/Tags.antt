-- ===== src/Obfuscation/Cps/Tags.antt =====
-- Tags and their texts, for `_CPS_TAG` of awgctl/core.py.
use mathlib.Core.Path.{subst}
use amneziawg_manager.Prelude.{
  ℕ, ◌≡◌, refl, sym, ap, ◌∙◌, Bool, true, false, some, List, [], ◌∷◌, ◌++◌, ◌==◌, ==_iff, all,
  Bool-cases, Option-cases, &&-eq-true, inl, inr,
}
use amneziawg_manager.Obfuscation.Cps.{
  Kind, bytes, timestamp, random, random_chars, random_digits, Tag, opening, belongs, fits, after,
  span, grouped, match_kind, match_any, kinds, match_tag,
}

-- the text of a tag, and what follows it
abbrev pub print : Tag → List ℕ → List ℕ
print t rest = b'<' ∷ (opening t.kind ++ (t.body ++ (b'>' ∷ rest)))

-- A tag of the grammar: its group has the characters and the length that its kind asks for.
pub record IsTag (t : Tag) : Type 0 where
  pub characters : all (belongs t.kind) t.body ≡ true
  pub group : fits t.kind t.body ≡ true

some_inj : {A : Type 0} {a b : A} → some a ≡ some b → a ≡ b
some_inj e = cc

after-++ : (ps cs : List ℕ) {r : List ℕ} → after ps cs ≡ some r → cs ≡ ps ++ r
unfolding after
after-++ [] cs h = some_inj h
after-++ (p ∷ ps) [] h = cc
after-++ (p ∷ ps) (c ∷ cs) h = elim (Bool-cases (p == c)) [
  | inr e ↦ cc (rw e at h)
  | inl e ↦
      let same : p ≡ c = (==_iff p c).0 e in
      rw same (ap (λ xs. c ∷ xs) (after-++ ps cs (rw e at h)))
]

after_prefix : (ps r : List ℕ) → after ps (ps ++ r) ≡ some r
unfolding after
after_prefix [] r = refl
after_prefix (p ∷ ps) r = rw ((==_iff p p).1 refl) (after_prefix ps r)

span-++ : (p : ℕ → Bool) (cs : List ℕ) → cs ≡ (span p cs).0 ++ (span p cs).1
unfolding span
span-++ p [] = refl
span-++ p (c ∷ cs) = elim (Bool-cases (p c)) [
  | inl e ↦ rw e (ap (λ xs. c ∷ xs) (span-++ p cs))
  | inr e ↦ rw e refl
]

all-span : (p : ℕ → Bool) (cs : List ℕ) → all p (span p cs).0 ≡ true
unfolding span
all-span p [] = refl
all-span p (c ∷ cs) = elim (Bool-cases (p c)) [
  | inl e ↦ rw e (rw e (all-span p cs))
  | inr e ↦ rw e refl
]

span_prefix :
    (p : ℕ → Bool) (xs : List ℕ) (c : ℕ) (r : List ℕ)
    → all p xs ≡ true
    → p c ≡ false
    → span p (xs ++ (c ∷ r)) ≡ (xs, c ∷ r)
unfolding span
span_prefix p [] c r a e = rw e refl
span_prefix p (x ∷ xs) c r a e =
    let (h, hs) = &&-eq-true (p x) (all p xs) a in
    rw h (ap (λ q. (x ∷ q.0, q.1)) (span_prefix p xs c r hs e))

-- What a matched alternative tells of the text after `<`.
pub record Opens (cs : List ℕ) (t : Tag) (rest : List ℕ) : Type 0 where
  pub is_tag : IsTag t
  pub text : cs ≡ opening t.kind ++ (t.body ++ (b'>' ∷ rest))

grouped-Opens :
    (k : Kind) (q : List ℕ × List ℕ) (t : Tag) (rest : List ℕ)
    → all (belongs k) q.0 ≡ true
    → grouped k q ≡ some (t, rest)
    → Opens (opening k ++ (q.0 ++ q.1)) t rest
grouped-Opens k (body, tail) t rest chars h = elim (Bool-cases (fits k body)) [
  | inr bad ↦ cc (rw bad at h)
  | inl good ↦ elim (Option-cases (after (b'>' ∷ []) tail)) [
    | inl lost ↦ cc (rw lost at (rw good at h))
    | inr (s, close) ↦
        let found : (record { kind = k; body = body }, s) ≡ (t, rest) =
          some_inj (rw close at (rw good at h)) in
        subst (λ m. Opens (opening k ++ (body ++ tail)) m.0 m.1) found
          (record {
            is_tag = record { characters = chars; group = good };
            text = ap (λ xs. opening k ++ (body ++ xs)) (after-++ (b'>' ∷ []) tail close);
          })
  ]
]

match_kind-Opens :
    (k : Kind) (cs : List ℕ) {t : Tag} {rest : List ℕ}
    → match_kind k cs ≡ some (t, rest)
    → Opens cs t rest
unfolding match_kind
match_kind-Opens k cs {t} {rest} h = elim (Option-cases (after (opening k) cs)) [
  | inl e ↦ cc (rw e at h)
  | inr (r, e) ↦
      let text : cs ≡ opening k ++ ((span (belongs k) r).0 ++ (span (belongs k) r).1) =
        after-++ (opening k) cs e ∙ ap (λ xs. opening k ++ xs) (span-++ (belongs k) r) in
      subst (λ xs. Opens xs t rest) (sym text)
        (grouped-Opens k (span (belongs k) r) t rest (all-span (belongs k) r) (rw e at h))
]

match_any-Opens :
    (ks : List Kind) (cs : List ℕ) {t : Tag} {rest : List ℕ}
    → match_any ks cs ≡ some (t, rest)
    → Opens cs t rest
unfolding match_any
match_any-Opens [] cs h = cc
match_any-Opens (k ∷ ks) cs h = elim (Option-cases (match_kind k cs)) [
  | inl e ↦ match_any-Opens ks cs (rw e at h)
  | inr (m, e) ↦ match_kind-Opens k cs (e ∙ rw e at h)
]

-- A matched tag is one of the grammar, and the text begins with it.
pub match_tag_sound :
    (cs : List ℕ) {t : Tag} {rest : List ℕ}
    → match_tag cs ≡ some (t, rest)
    → IsTag t × (cs ≡ print t rest)
unfolding match_tag
match_tag_sound cs h = elim (Option-cases (after (b'<' ∷ []) cs)) [
  | inl e ↦ cc (rw e at h)
  | inr (r, e) ↦
      let o = match_any-Opens kinds r (rw e at h) in
      (o.is_tag, after-++ (b'<' ∷ []) cs e ∙ ap (λ xs. b'<' ∷ xs) o.text)
]

stops : (k : Kind) → belongs k b'>' ≡ false
stops bytes = refl
stops timestamp = refl
stops random = refl
stops random_chars = refl
stops random_digits = refl

match_kind-opening :
    (t : Tag) (rest : List ℕ)
    → IsTag t
    → match_kind t.kind (opening t.kind ++ (t.body ++ (b'>' ∷ rest))) ≡ some (t, rest)
unfolding match_kind
match_kind-opening t rest g = rw (after_prefix (opening t.kind) (t.body ++ (b'>' ∷ rest))) (
    rw (span_prefix (belongs t.kind) t.body b'>' rest g.characters (stops t.kind))
      (rw g.group (rw (after_prefix (b'>' ∷ []) rest) refl)))

match_any-kinds :
    (k : Kind) (x : List ℕ) {m : Tag × List ℕ}
    → match_kind k (opening k ++ x) ≡ some m
    → match_any kinds (opening k ++ x) ≡ some m
unfolding match_any match_kind after
match_any-kinds bytes x e = cc
match_any-kinds timestamp x e = cc
match_any-kinds random x e = cc
match_any-kinds random_chars x e = cc
match_any-kinds random_digits x e = cc

-- The text of a tag of the grammar is matched as that tag, whatever follows it.
pub match_tag-print :
    (t : Tag) (rest : List ℕ) → IsTag t → match_tag (print t rest) ≡ some (t, rest)
unfolding match_tag
match_tag-print t rest g =
    rw (after_prefix (b'<' ∷ []) (opening t.kind ++ (t.body ++ (b'>' ∷ rest))))
      (match_any-kinds t.kind (t.body ++ (b'>' ∷ rest)) (match_kind-opening t rest g))
