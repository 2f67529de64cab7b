-- ===== src/Base/Totals.antt =====
-- The sum of a weight over the entries of a map, and what writes and deletions do to it.
use Prim.Native.Nat.{ℕ, ◌+◌, ◌≤◌}
use mathlib.Core.Path.{◌≡◌}
use mathlib.Core.List.{[], ◌∷◌}
use mathlib.Core.Option.{none, some}
use native.Mathlib.Omega.{arith}
use cups.Base.Lists.{length}
use cups.Base.Maps.{DecEq, Map, get, put, del, IsKeyed, del_missing}

module _ {ℓ} {K V : Type ℓ} ⦃e : DecEq K⦄ (weight : V → ℕ) where
  unfoldable pub total : Map K V → ℕ
  total [] = 0
  total ((k, v) ∷ m) = weight v + total m

  pub total-put_new :
      (k : K) (v : V) (m : Map K V) → get k m ≡ none → total (put k v m) ≡ total m + weight v
  unfolding total get put
  total-put_new k v [] h = omega arith
  total-put_new k v ((j, w) ∷ m) h = ground (arith, total-put_new k v m)

  pub total-put_old :
      (k : K) (v w : V) (m : Map K V)
      → get k m ≡ some w
      → total (put k v m) + weight w ≡ total m + weight v
  unfolding total get put
  total-put_old k v w [] h = cc
  total-put_old k v w ((j, u) ∷ m) h = ground (arith, total-put_old k v w m)

  pub total-del :
      (k : K) (v : V) (m : Map K V)
      → IsKeyed m
      → get k m ≡ some v
      → total (del k m) + weight v ≡ total m
  unfolding total get del
  total-del k v [] u h = cc
  total-del k v ((j, w) ∷ m) u h = ground (arith, total-del k v m u.1, del_missing k m)

  pub total-get : (k : K) (v : V) (m : Map K V) → get k m ≡ some v → weight v ≤ total m
  unfolding total get
  total-get k v [] h = cc
  total-get k v ((j, w) ∷ m) h = ground (arith, total-get k v m)

  pub total_bound : (m : Map K V) → ((v : V) → weight v ≤ 1) → total m ≤ length m
  unfolding total
  total_bound [] h = omega arith
  total_bound ((j, w) ∷ m) h = omega (arith, h w, total_bound m h)
