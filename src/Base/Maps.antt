-- ===== src/Base/Maps.antt =====
-- Go's maps: association lists over a key with decidable equality. A write replaces the entry of
-- its key or adds one at the end; a traversal visits the entries in the list's order, and the
-- theorems range over every order.
use Prim.Native.Nat.{ℕ, ◌+◌}
use mathlib.Core.Path.{◌≡◌, refl, sym, ◌∙◌, subst₂}
use mathlib.Core.Logic.{◌≢◌, ite, if_pos, if_neg}
use mathlib.Core.Bool.{Bool, true, false}
use mathlib.Core.List.{List, [], ◌∷◌}
use mathlib.Core.Option.{Option, none, some}
use native.Mathlib.Omega.{arith}
unfoldable use native.Mathlib.Decide.{ℕ_discrete}
use cups.Base.Tests.{is_some}
use cups.Base.Lists.{length, all, any}

pub record DecEq {ℓ} (K : Type ℓ) : Type ℓ where
  pub decide : Discrete K

instance abbrev pub nat_eq : DecEq ℕ
nat_eq = record { decide = ℕ_discrete }

-- The test `a == b` on keys.
abbrev pub same {ℓ} : {K : Type ℓ} ⦃e : DecEq K⦄ → K → K → Bool
same ⦃e⦄ a b = ite (e.decide a b) true false

pub same-true {ℓ} : {K : Type ℓ} ⦃e : DecEq K⦄ (a b : K) → same a b ≡ true → a ≡ b
same-true ⦃e⦄ a b h = elim (e.decide a b) [ yes p ↦ p | no n ↦ absurd (ground arith) ]

pub same_self {ℓ} : {K : Type ℓ} ⦃e : DecEq K⦄ (a : K) → same a a ≡ true
same_self ⦃e⦄ a = elim (e.decide a a) [ yes p ↦ if_pos _ p true false | no n ↦ absurd (n refl) ]

abbrev pub Map {ℓ} : Type ℓ → Type ℓ → Type ℓ
Map K V = List (K × V)

abbrev pub decide_key {ℓ} : {K : Type ℓ} ⦃e : DecEq K⦄ → Discrete K
decide_key ⦃e⦄ = e.decide

module _ {ℓ} {K V : Type ℓ} ⦃e : DecEq K⦄ where
  unfoldable pub get : K → Map K V → Option V
  get k [] = none
  get k ((j, v) ∷ m) = ite (e.decide j k) (some v) (get k m)

  unfoldable pub put : K → V → Map K V → Map K V
  put k v [] = (k, v) ∷ []
  put k v ((j, w) ∷ m) = ite (e.decide j k) ((k, v) ∷ m) ((j, w) ∷ put k v m)

  unfoldable pub del : K → Map K V → Map K V
  del k [] = []
  del k ((j, w) ∷ m) = ite (e.decide j k) (del k m) ((j, w) ∷ del k m)

  abbrev pub has : K → Map K V → Bool
  has k m = is_some (get k m)

  pub get-put :
      (k j : K) (v : V) (m : Map K V) → get j (put k v m) ≡ ite (e.decide k j) (some v) (get j m)
  unfolding get put
  get-put k j v [] = refl
  get-put k j v ((i, w) ∷ m) = ground (arith, get-put k j v m)

  pub get-put_self : (k : K) (v : V) (m : Map K V) → get k (put k v m) ≡ some v
  get-put_self k v m = ground (arith, get-put k k v m)

  pub get-put_ne : (k j : K) (v : V) (m : Map K V) → k ≢ j → get j (put k v m) ≡ get j m
  get-put_ne k j v m h = ground (arith, get-put k j v m)

  pub get-del : (k j : K) (m : Map K V) → get j (del k m) ≡ ite (e.decide k j) none (get j m)
  unfolding get del
  get-del k j [] = ground arith
  get-del k j ((i, w) ∷ m) = ground (arith, get-del k j m)

  pub get-del_self : (k : K) (m : Map K V) → get k (del k m) ≡ none
  get-del_self k m = ground (arith, get-del k k m)

  pub get-del_ne : (k j : K) (m : Map K V) → k ≢ j → get j (del k m) ≡ get j m
  get-del_ne k j m h = ground (arith, get-del k j m)

  -- A property of every entry that can be read, after a write and after a removal.
  pub put-readable {κ} :
      (P : K → V → Type κ) (k : K) (v : V) (m : Map K V)
      → ((j : K) (w : V) → get j m ≡ some w → P j w)
      → P k v
      → (j : K) (w : V) → get j (put k v m) ≡ some w
      → P j w
  put-readable P k v m h p j w q = elim (decide_key k j) [
    | yes e ↦ let d : v ≡ w = cc (get-put_self k v m, e, q) in subst₂ P e d p
    | no e ↦ h j w (sym (get-put_ne k j v m e) ∙ q)
  ]

  pub del-readable :
      (k j : K) (w : V) (m : Map K V) → get j (del k m) ≡ some w → (get j m ≡ some w) × (k ≢ j)
  del-readable k j w m q = ground (arith, get-del k j m)

  -- Every key stands once, as in a Go map.
  abbrev pub IsKeyed : Map K V → Type ℓ
  IsKeyed [] = Unit {ℓ}
  IsKeyed ((k, v) ∷ m) = (get k m ≡ none) × IsKeyed m

  pub put-IsKeyed : (k : K) (v : V) (m : Map K V) → IsKeyed m → IsKeyed (put k v m)
  unfolding put get
  put-IsKeyed k v [] h = (refl, tt)
  put-IsKeyed k v ((j, w) ∷ m) h = ground (arith, get-put k j v m, put-IsKeyed k v m h.1)

  pub del-IsKeyed : (k : K) (m : Map K V) → IsKeyed m → IsKeyed (del k m)
  unfolding del
  del-IsKeyed k [] h = tt
  del-IsKeyed k ((j, w) ∷ m) h = ground (arith, get-del k j m, del-IsKeyed k m h.1)

  pub del_missing : (k : K) (m : Map K V) → get k m ≡ none → del k m ≡ m
  unfolding del get
  del_missing k [] h = refl
  del_missing k ((j, w) ∷ m) h = ground (arith, del_missing k m)

  pub length-put_new :
      (k : K) (v : V) (m : Map K V) → get k m ≡ none → length (put k v m) ≡ length m + 1
  unfolding put get
  length-put_new k v [] h = omega arith
  length-put_new k v ((j, w) ∷ m) h = ground (arith, length-put_new k v m)

  pub length-put_old :
      (k : K) (v w : V) (m : Map K V) → get k m ≡ some w → length (put k v m) ≡ length m
  unfolding put get
  length-put_old k v w [] h = cc
  length-put_old k v w ((j, u) ∷ m) h = ground (arith, length-put_old k v w m)

  pub length-del_found :
      (k : K) (v : V) (m : Map K V) → IsKeyed m → get k m ≡ some v → length (del k m) + 1 ≡ length m
  unfolding del get
  length-del_found k v [] u h = cc
  length-del_found k v ((j, w) ∷ m) u h =
      ground (arith, length-del_found k v m u.1, del_missing k m)

  -- A traversal that rewrites every entry in place.
  unfoldable pub map_values : (V → V) → Map K V → Map K V
  map_values f [] = []
  map_values f ((k, v) ∷ m) = (k, f v) ∷ map_values f m

  pub get-map_values-some :
      (f : V → V) (k : K) (v : V) (m : Map K V)
      → get k m ≡ some v
      → get k (map_values f m) ≡ some (f v)
  unfolding get map_values
  get-map_values-some f k v [] h = cc
  get-map_values-some f k v ((j, w) ∷ m) h = ground (arith, get-map_values-some f k v m)

  pub get-map_values-none :
      (f : V → V) (k : K) (m : Map K V) → get k m ≡ none → get k (map_values f m) ≡ none
  unfolding get map_values
  get-map_values-none f k [] h = refl
  get-map_values-none f k ((j, w) ∷ m) h = ground (arith, get-map_values-none f k m)

  pub map_values-IsKeyed : (f : V → V) (m : Map K V) → IsKeyed m → IsKeyed (map_values f m)
  unfolding map_values
  map_values-IsKeyed f [] h = tt
  map_values-IsKeyed f ((k, v) ∷ m) h = (get-map_values-none f k m h.0, map_values-IsKeyed f m h.1)

  -- A property of every entry, at its key.
  abbrev pub AllEntries {κ} : (K → V → Type κ) → Map K V → Type κ
  AllEntries P [] = Unit {κ}
  AllEntries P ((k, v) ∷ m) = P k v × AllEntries P m

  pub AllEntries-get {κ} :
      (P : K → V → Type κ) (k : K) (v : V) (m : Map K V) → AllEntries P m → get k m ≡ some v → P k v
  unfolding get
  AllEntries-get P k v [] h e = cc
  AllEntries-get P k v ((j, w) ∷ m) h e = elim (decide_key j k) [
    | yes p ↦ let q : w ≡ v = cc (rw (if_pos _ p) at e) in subst₂ P p q h.0
    | no p ↦ AllEntries-get P k v m h.1 (rw (if_neg _ p) at e)
  ]

  pub AllEntries-put {κ} :
      (P : K → V → Type κ) (k : K) (v : V) (m : Map K V)
      → AllEntries P m
      → P k v
      → AllEntries P (put k v m)
  unfolding put
  AllEntries-put P k v [] h p = (p, tt)
  AllEntries-put P k v ((j, w) ∷ m) h p = elim (decide_key j k) [
    | yes q ↦ rw (if_pos _ q) (p, h.1)
    | no q ↦ rw (if_neg _ q) (h.0, AllEntries-put P k v m h.1 p)
  ]

  pub AllEntries-del {κ} :
      (P : K → V → Type κ) (k : K) (m : Map K V) → AllEntries P m → AllEntries P (del k m)
  unfolding del
  AllEntries-del P k [] h = tt
  AllEntries-del P k ((j, w) ∷ m) h = elim (decide_key j k) [
    | yes q ↦ rw (if_pos _ q) (AllEntries-del P k m h.1)
    | no q ↦ rw (if_neg _ q) (h.0, AllEntries-del P k m h.1)
  ]

  -- What holds of everything that can be read holds of every entry.
  pub AllEntries-intro {κ} :
      (P : K → V → Type κ) (m : Map K V)
      → IsKeyed m
      → ((k : K) (v : V) → get k m ≡ some v → P k v)
      → AllEntries P m
  unfolding get
  AllEntries-intro P [] u h = tt
  AllEntries-intro P ((j, w) ∷ m) u h =
      (h j w (ground arith), AllEntries-intro P m u.1 (λ k v e. h k v (ground arith)))

  pub all-get :
      (p : K × V → Bool) (k : K) (v : V) (m : Map K V)
      → all p m ≡ true
      → get k m ≡ some v
      → p (k, v) ≡ true
  unfolding get
  all-get p k v [] h e = cc
  all-get p k v ((j, w) ∷ m) h e = elim (decide_key j k) [
    | yes q ↦
        let t : w ≡ v = cc (rw (if_pos _ q) at e) in
        let a : p (j, w) ≡ true = ground arith in subst₂ (λ x y. p (x, y) ≡ true) q t a
    | no q ↦ all-get p k v m (ground arith) (rw (if_neg _ q) at e)
  ]

  pub any-get :
      (p : K × V → Bool) (k : K) (v : V) (m : Map K V)
      → any p m ≡ false
      → get k m ≡ some v
      → p (k, v) ≡ false
  unfolding get
  any-get p k v [] h e = cc
  any-get p k v ((j, w) ∷ m) h e = elim (decide_key j k) [
    | yes q ↦
        let t : w ≡ v = cc (rw (if_pos _ q) at e) in
        let a : p (j, w) ≡ false = ground arith in subst₂ (λ x y. p (x, y) ≡ false) q t a
    | no q ↦ any-get p k v m (ground arith) (rw (if_neg _ q) at e)
  ]
