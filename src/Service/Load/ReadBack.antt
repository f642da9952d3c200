-- ===== src/Service/Load/ReadBack.antt =====
-- Lemmas on reading the service-operation intent.
use mathlib.Core.Path.{subst}
use amneziawg_manager.Value.{Value}
use amneziawg_manager.Timestamp.{Iso}
use amneziawg_manager.Prelude.{◌≡◌, ◌≢◌, refl, Option, none, some, arith}
use amneziawg_manager.Result.{ok, ◌>>=◌, Ensures, bind-Ensures, ok-Ensures}
use amneziawg_manager.Service.Intent.{Intent, IsValid}
use amneziawg_manager.Service.Document.{document, normalize_service_operation_intent}
use amneziawg_manager.Service.Document.RoundTrip.{normalize-document}
use amneziawg_manager.Service.Document.Accepts.{normalize-IsValid}
use amneziawg_manager.Service.Document.Faithful.{normalize-document_iff}
use amneziawg_manager.Service.World.{Shared, Host}
use amneziawg_manager.Service.Load.{read_document, load_optional, load_required}

pub some_inj : {A : Type 0} {a b : A} → some a ≡ some b → a ≡ b
some_inj e = cc

read-Ensures :
    (iso : Iso) (o : Option Value)
    → Ensures (λ found. (i : Intent) → found ≡ some i → IsValid iso i) (read_document iso o)
unfolding read_document
read-Ensures iso none = ok-Ensures none (λ i e. cc)
read-Ensures iso (some v) = bind-Ensures _ _ λ n normal.
    ok-Ensures (some n)
      (λ i e. subst (IsValid iso) (some_inj e) ((normalize-IsValid iso v).on n normal))

module _ (h : Host) where
  open h use {State, iso, readable}

  -- A valid intent that has been written is read back.
  pub load_required-document :
      (i : Intent) (s : Shared State)
      → IsValid iso i
      → readable s.outside ≡ ok tt
      → load_required h (record s { document = some (document i) }) ≡ ok i
  unfolding load_required load_optional ◌>>=◌
  load_required-document i s valid r = simp (r, normalize-document iso i valid)

  pub readable-load :
      (s : Shared State) (c : Option Intent) → load_optional h s ≡ ok c → readable s.outside ≡ ok tt
  unfolding load_optional ◌>>=◌
  readable-load s c e = ground arith

  load-Ensures :
      (s : Shared State)
      → Ensures (λ o. (i : Intent) → o ≡ some i → IsValid iso i) (load_optional h s)
  unfolding load_optional
  load-Ensures s = bind-Ensures _ _ λ _ _. read-Ensures iso s.document

  -- An intent that is read is valid.
  pub load_optional-IsValid :
      (s : Shared State) (i : Intent) → load_optional h s ≡ ok (some i) → IsValid iso i
  load_optional-IsValid s i e = (load-Ensures s).on (some i) e i refl

  pub load_required-optional :
      (s : Shared State) (i : Intent) → load_required h s ≡ ok i → load_optional h s ≡ ok (some i)
  unfolding load_required ◌>>=◌
  load_required-optional s i e = ground arith

  -- The file of an intent is read as that intent, if it is read at all.
  pub load_document-eq :
      (s : Shared State) (i j : Intent)
      → s.document ≡ some (document i)
      → load_required h s ≡ ok j
      → j ≡ i
  unfolding load_required load_optional ◌>>=◌
  load_document-eq s i j e l = ((normalize-document_iff iso i j).0 (ground arith)).1

  -- Nothing is read from a missing file.
  pub load_required-none :
      (s : Shared State) (j : Intent) → s.document ≡ none → load_required h s ≢ ok j
  unfolding load_required load_optional ◌>>=◌
  load_required-none s j e l = ground arith

  pub load_optional-required :
      (s : Shared State) (i : Intent) → load_optional h s ≡ ok (some i) → load_required h s ≡ ok i
  unfolding load_required ◌>>=◌
  load_optional-required s i e = rw e

  pub load_required-normalize :
      (s : Shared State) (v : Value) (i : Intent)
      → s.document ≡ some v
      → load_required h s ≡ ok i
      → normalize_service_operation_intent iso v ≡ ok i
  unfolding load_required load_optional ◌>>=◌
  load_required-normalize s v i e l = ground arith
