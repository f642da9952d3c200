-- ===== src/Prelude/Sort.antt =====
-- `sorted` of texts, by the code points of their characters.
use Prim.Native.Nat.{Ordering}
use Prim.Native.String.{String, compare}
use mathlib.Core.Bool.{Bool, true, false, ◌&&◌}
use mathlib.Core.List.{List, [], ◌∷◌}
use amneziawg_manager.Prelude.Tests.{if◌then◌else◌}
use amneziawg_manager.Prelude.Text.{same}

-- `s <= t`
abbrev pub not_after : String → String → Bool
not_after s t = elim (compare s t) [ Ordering.gt ↦ false | _ ↦ true ]

abbrev insert : String → List String → List String
insert s [] = s ∷ []
insert s (t ∷ ts) = let rest = insert s ts in if not_after s t then s ∷ t ∷ ts else t ∷ rest

abbrev pub sorted : List String → List String
sorted [] = []
sorted (s ∷ ss) = insert s (sorted ss)

-- `ss == ts` on lists of texts
abbrev pub same_texts : List String → List String → Bool
same_texts [] [] = true
same_texts [] (t ∷ ts) = false
same_texts (s ∷ ss) [] = false
same_texts (s ∷ ss) (t ∷ ts) = same s t && same_texts ss ts
