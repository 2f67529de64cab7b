-- ===== src/Base/SortedMaps.antt =====
-- A map's entries put in an order: every key keeps its value.
use mathlib.Core.Path.{◌≡◌, refl, ◌∙◌}
use mathlib.Core.Bool.{Bool}
use mathlib.Core.Logic.{inl, inr}
use mathlib.Core.List.{[], ◌∷◌}
use mathlib.Core.Option.{none}
use native.Mathlib.Omega.{arith}
use cups.Base.Tests.{Bool-cases}
use cups.Base.Maps.{DecEq, Map, IsKeyed, AllEntries}
unfoldable use cups.Base.Maps.{get}
unfoldable use cups.Base.Sort.{insert, sort}

module _ {K V : Type 0} ⦃e : DecEq K⦄ (less : K × V → K × V → Bool) where
  pub get-insert :
      (k i : K) (v : V) (m : Map K V)
      → get k m ≡ none
      → get i (insert less (k, v) m) ≡ get i ((k, v) ∷ m)
  unfolding insert get
  get-insert k i v [] h = refl
  get-insert k i v ((j, w) ∷ m) h = elim (Bool-cases (less (k, v) (j, w))) [
    | inl t ↦ rw t refl
    | inr t ↦ rw t (ground (arith, get-insert k i v m))
  ]

  pub insert-IsKeyed :
      (k : K) (v : V) (m : Map K V) → get k m ≡ none → IsKeyed m → IsKeyed (insert less (k, v) m)
  unfolding insert get
  insert-IsKeyed k v [] h u = (refl, tt)
  insert-IsKeyed k v ((j, w) ∷ m) h u = elim (Bool-cases (less (k, v) (j, w))) [
    | inl t ↦ rw t (h, u)
    | inr t ↦ rw t (ground (arith, get-insert k j v m), insert-IsKeyed k v m (ground arith) u.1)
  ]

  pub get-sort : (i : K) (m : Map K V) → IsKeyed m → get i (sort less m) ≡ get i m
  unfolding sort get
  get-sort i [] u = refl
  get-sort i ((k, v) ∷ m) u =
      get-insert k i v (sort less m) (get-sort k m u.1 ∙ u.0) ∙ ground (arith, get-sort i m u.1)

  pub sort-IsKeyed : (m : Map K V) → IsKeyed m → IsKeyed (sort less m)
  unfolding sort
  sort-IsKeyed [] u = tt
  sort-IsKeyed ((k, v) ∷ m) u =
      insert-IsKeyed k v (sort less m) (get-sort k m u.1 ∙ u.0) (sort-IsKeyed m u.1)

  pub AllEntries-insert {κ} :
      (P : K → V → Type κ) (k : K) (v : V) (m : Map K V)
      → P k v
      → AllEntries P m
      → AllEntries P (insert less (k, v) m)
  unfolding insert
  AllEntries-insert P k v [] p h = (p, tt)
  AllEntries-insert P k v ((j, w) ∷ m) p h = elim (Bool-cases (less (k, v) (j, w))) [
    | inl t ↦ rw t (p, h)
    | inr t ↦ rw t (h.0, AllEntries-insert P k v m p h.1)
  ]

  pub AllEntries-sort {κ} :
      (P : K → V → Type κ) (m : Map K V) → AllEntries P m → AllEntries P (sort less m)
  unfolding sort
  AllEntries-sort P [] h = tt
  AllEntries-sort P ((k, v) ∷ m) h =
      AllEntries-insert P k v (sort less m) h.0 (AllEntries-sort P m h.1)
