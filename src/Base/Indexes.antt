-- ===== src/Base/Indexes.antt =====
-- A map of records, and an index from keys to the records' numbers: what keeps them in step.
use Prim.Native.Nat.{ℕ}
use mathlib.Core.Path.{◌≡◌, sym, ap, ◌∙◌}
use mathlib.Core.Logic.{◌⊎◌, inl, inr}
use mathlib.Core.Bool.{Bool, true, false}
use mathlib.Core.Option.{none, some, some-injective}
use native.Mathlib.Omega.{arith}
use cups.Base.Tests.{if◌then◌else◌, Bool-cases, Option-cases, is_some}
use cups.Base.Maps.{
  DecEq, Map, same, has, decide_key, get, put, del, nat_eq, get-put_self, get-put_ne, get-del_ne,
  get-del, get-put, del-readable,
}

-- Reads after a write and after a removal, with the code's test on keys.
module _ {K V : Type 0} ⦃e : DecEq K⦄ where
  pub get-put_if :
      (k j : K) (v : V) (m : Map K V) → get j (put k v m) ≡ (if same k j then some v else get j m)
  get-put_if k j v m = ground (arith, get-put k j v m)

  pub get-del_if : (k j : K) (m : Map K V) → get j (del k m) ≡ (if same k j then none else get j m)
  get-del_if k j m = ground (arith, get-del k j m)

  -- What is read after a write is what was written, or was there before.
  pub put_cases :
      (k j : K) (v w : V) (m : Map K V)
      → get j (put k v m) ≡ some w
      → ((k ≡ j) × (v ≡ w)) ⊎ (get j m ≡ some w)
  put_cases k j v w m q = elim (decide_key k j) [
    | yes p ↦ inl (p, cc (get-put_self k v m, p, q))
    | no n ↦ inr (sym (get-put_ne k j v m n) ∙ q)
  ]

  pub has-none : (k : K) (m : Map K V) → has k m ≡ false → get k m ≡ none
  has-none k m h = elim (Option-cases (get k m)) [
    | inl e ↦ e
    | inr (v, e) ↦ absurd (cc (ap is_some e, h))
  ]

module _ {K V : Type 0} ⦃e : DecEq K⦄ (H : V → K → Bool) where
  -- The index names the record that has the key, for every key that a record has.
  pub record IsIndex (m : Map ℕ V) (idx : Map K ℕ) : Type 0 where
    pub sound : (k : K) (i : ℕ) → get k idx ≡ some i → (x : V) × (get i m ≡ some x) × (H x k ≡ true)
    pub complete : (k : K) (i : ℕ) (x : V) → get i m ≡ some x → H x k ≡ true → get k idx ≡ some i

  pub add-IsIndex :
      (m : Map ℕ V) (idx new : Map K ℕ) (i : ℕ) (x : V)
      → IsIndex m idx
      → get i m ≡ none
      → ((k : K) → get k new ≡ (if H x k then some i else get k idx))
      → ((k : K) → H x k ≡ true → get k idx ≡ none)
      → IsIndex (put i x m) new
  add-IsIndex m idx new i x v fresh read free = record {
    sound = λ k j q. elim (Bool-cases (H x k)) [
      | inl h ↦
          let same : i ≡ j =
            some-injective i j (sym (read k ∙ ap (λ b. if b then some i else get k idx) h) ∙ q) in
          (x, ap (λ n. get n (put i x m)) (sym same) ∙ get-put_self i x m, h)
      | inr h ↦
          let old = sym (read k ∙ ap (λ b. if b then some i else get k idx) h) ∙ q in
          let (y, p, t) = v.sound k j old in
          (y, get-put_ne i j x m (λ s. cc (fresh, p, ap (λ n. get n m) s)) ∙ p, t)
    ];
    complete = λ k j y q t. elim (nat_eq.decide i j) [
      | yes same ↦
          let here : x ≡ y =
            some-injective x y (sym (get-put_self i x m) ∙ ap (λ n. get n (put i x m)) same ∙ q) in
          let h : H x k ≡ true = ap (λ z. H z k) here ∙ t in
          read k ∙ ap (λ b. if b then some i else get k idx) h ∙ ap some same
      | no other ↦
          let old = v.complete k j y (sym (get-put_ne i j x m other) ∙ q) t in
          elim (Bool-cases (H x k)) [
            | inl h ↦
                absurd (cc (v.complete k j y (sym (get-put_ne i j x m other) ∙ q) t, free k h))
            | inr h ↦ read k ∙ ap (λ b. if b then some i else get k idx) h ∙ old
          ]
    ];
  }

  pub replace-IsIndex :
      (m : Map ℕ V) (idx new : Map K ℕ) (i : ℕ) (x y : V)
      → IsIndex m idx
      → get i m ≡ some x
      → ((k : K) → get k new ≡ (if H y k then some i else if H x k then none else get k idx))
      → ((k : K) (j : ℕ) → H y k ≡ true → get k idx ≡ some j → j ≡ i)
      → IsIndex (put i y m) new
  replace-IsIndex m idx new i x y v old read free = record {
    sound = λ k j q. elim (Bool-cases (H y k)) [
      | inl h ↦
          let same : i ≡ j = ground (arith, read k) in
          (y, ap (λ n. get n (put i y m)) (sym same) ∙ get-put_self i y m, h)
      | inr h ↦ elim (Bool-cases (H x k)) [
        | inl g ↦ absurd (ground (arith, read k))
        | inr g ↦
            let (z, p, t) = v.sound k j (ground (arith, read k)) in
            (
              z,
              get-put_ne i j y m (λ s. cc (
                ap (λ w. H w k) (some-injective x z (sym old ∙ ap (λ n. get n m) s ∙ p)),
                g,
                t,
              ))
                  ∙ p,
              t,
            )
      ]
    ];
    complete = λ k j z q t. elim (nat_eq.decide i j) [
      | yes same ↦
          let here : y ≡ z =
            some-injective y z (sym (get-put_self i y m) ∙ ap (λ n. get n (put i y m)) same ∙ q) in
          let h : H y k ≡ true = ap (λ w. H w k) here ∙ t in ground (arith, read k)
      | no other ↦
          let there = sym (get-put_ne i j y m other) ∙ q in
          let named = v.complete k j z there t in
          elim (Bool-cases (H y k)) [
            | inl h ↦ absurd (other (sym (free k j h named)))
            | inr h ↦ elim (Bool-cases (H x k)) [
              | inl g ↦ absurd (other (some-injective i j (sym (v.complete k i x old g) ∙ named)))
              | inr g ↦ ground (arith, read k)
            ]
          ]
    ];
  }

  pub remove-IsIndex :
      (m : Map ℕ V) (idx new : Map K ℕ) (i : ℕ) (x : V)
      → IsIndex m idx
      → get i m ≡ some x
      → ((k : K) → get k new ≡ (if H x k then none else get k idx))
      → IsIndex (del i m) new
  remove-IsIndex m idx new i x v old read = record {
    sound = λ k j q. elim (Bool-cases (H x k)) [
      | inl h ↦ absurd (ground (arith, read k))
      | inr h ↦
          let (z, p, t) = v.sound k j (ground (arith, read k)) in
          (
            z,
            get-del_ne i j m (λ s.
                  cc (
                    ap (λ w. H w k) (some-injective x z (sym old ∙ ap (λ n. get n m) s ∙ p)),
                    h,
                    t,
                  ))
                ∙ p,
            t,
          )
    ];
    complete = λ k j z q t.
        let (there, ne) = del-readable i j z m q in
        let named = v.complete k j z there t in
        elim (Bool-cases (H x k)) [
          | inl h ↦ absurd (ne (some-injective i j (sym (v.complete k i x old h) ∙ named)))
          | inr h ↦ ground (arith, read k)
        ];
  }

  -- A record that keeps its keys.
  pub keep-IsIndex :
      (m : Map ℕ V) (idx : Map K ℕ) (i : ℕ) (x y : V)
      → IsIndex m idx
      → get i m ≡ some x
      → ((k : K) → H y k ≡ H x k)
      → IsIndex (put i y m) idx
  keep-IsIndex m idx i x y v old same =
      let named : (k : K) → H y k ≡ true → get k idx ≡ some i =
        λ k h. v.complete k i x old (sym (same k) ∙ h) in
      replace-IsIndex m idx idx i x y v old
        (λ k. elim (Bool-cases (H y k)) [
          | inl h ↦ ground (arith, named k h)
          | inr h ↦ ground (arith, same k)
        ])
        (λ k j h q. sym (some-injective i j (sym (named k h) ∙ q)))
