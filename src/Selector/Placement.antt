-- ===== src/Selector/Placement.antt =====
-- internal/userplane/selector.go: the node that Assign chooses.
use native.Mathlib.Nat.{
  mul-le-mul, mul-le-mul_right, le_of_mul-le-mul_right, mul_assoc, mul_comm, mod-eq_of_lt,
}
use cups.Base.{
  ℕ, ◌*◌, ◌^◌, ◌≡◌, ◌≤◌, ◌<◌, sym, ap, ◌∙◌, subst, true, ◌&&◌, some, some-injective, List, [], ◌∷◌,
  if◌then◌else◌, Map, get, Text, text_eq, arith, All, AllEntries, if_pos, if_neg, Bool-cases, inl,
  inr, mul64, if_both,
}
use cups.Selector.{
  NodeState, eligible, has_room, candidates, prefer, select, max_node_capacity, state_eq,
}

pub record IsSmall (n : NodeState) : Type 0 where
  pub used : n.used ≤ max_node_capacity * 256
  pub positive : 0 < n.node.capacity
  pub bounded : n.node.capacity ≤ max_node_capacity

-- The load of the first is no greater: used / capacity, multiplied out.
abbrev pub LighterThan : NodeState → NodeState → Type 0
LighterThan a b = a.used * b.node.capacity ≤ b.used * a.node.capacity

pub product_fits : (a b : NodeState) → IsSmall a → IsSmall b → a.used * b.node.capacity < 2 ^ 64
product_fits a b v w =
    let bound =
      mul-le-mul {n₁ = a.used} {m₁ = b.node.capacity} {n₂ = max_node_capacity * 256}
        {m₂ = max_node_capacity} v.used w.bounded in
    omega (arith, bound)

swap : (x y z : ℕ) → x * y * z ≡ x * z * y
swap x y z = mul_assoc x y z ∙ ap (λ w. x * w) (mul_comm y z) ∙ sym (mul_assoc x z y)

pub LighterThan-trans :
    (a b c : NodeState) → IsSmall b → LighterThan a b → LighterThan b c → LighterThan a c
LighterThan-trans a b c w h g =
    let one : a.used * c.node.capacity * b.node.capacity
        ≤ b.used * c.node.capacity * a.node.capacity =
      subst (λ x. x ≤ b.used * c.node.capacity * a.node.capacity)
        (swap a.used b.node.capacity c.node.capacity)
        (subst (λ x. a.used * b.node.capacity * c.node.capacity ≤ x)
          (swap b.used a.node.capacity c.node.capacity) (mul-le-mul_right c.node.capacity h)) in
    let two : b.used * c.node.capacity * a.node.capacity
        ≤ c.used * a.node.capacity * b.node.capacity =
      subst (λ x. b.used * c.node.capacity * a.node.capacity ≤ x)
        (swap c.used b.node.capacity a.node.capacity) (mul-le-mul_right a.node.capacity g) in
    le_of_mul-le-mul_right {m = a.used * c.node.capacity} {n = c.used * a.node.capacity}
      {k = b.node.capacity} (omega (arith, one, two)) w.positive

module _ (score : Text → Text → ℕ) (key : Text) where
  -- The first has a lower load, or the same load and no lower score.
  abbrev pub Before : NodeState → NodeState → Type 0
  Before a b = LighterThan a b × (LighterThan b a → score key b.node.id ≤ score key a.node.id)

  Before-refl : (a : NodeState) → Before a a
  Before-refl a = (omega arith, λ h. omega arith)

  Before-trans :
      (a b c : NodeState) → IsSmall a → IsSmall b → IsSmall c → Before a b → Before b c → Before a c
  Before-trans a b c u v w h g = (
    LighterThan-trans a b c v h.0 g.0,
    λ back.
        omega (
          arith,
          h.1 (LighterThan-trans b c a w g.0 back),
          g.1 (LighterThan-trans c a b u back h.0),
        ),
  )

  prefer-Before :
      (a b : NodeState)
      → IsSmall a
      → IsSmall b
      → Before (if prefer score key a b then a else b) a
        × Before (if prefer score key a b then a else b) b
  unfolding prefer
  prefer-Before a b v w =
      let left : mul64 a.used b.node.capacity ≡ a.used * b.node.capacity =
        mod-eq_of_lt (product_fits a b v w) in
      let right : mul64 b.used a.node.capacity ≡ b.used * a.node.capacity =
        mod-eq_of_lt (product_fits b a w v) in
      elim (Bool-cases (prefer score key a b)) [
        | inl e ↦
            let first : Before a b =
              (ground (arith, left, right), λ h. ground (arith, left, right)) in
            rw e (Before-refl a, first)
        | inr e ↦
            let first : Before b a =
              (ground (arith, left, right), λ h. ground (arith, left, right)) in
            rw e (first, Before-refl b)
      ]

  -- Whatever holds of the candidates holds of the one selected.
  pub select_one {κ} :
      (P : NodeState → Type κ) (c : NodeState) (cs : List NodeState)
      → P c
      → All P cs
      → P (select score key c cs)
  unfolding select
  select_one P c [] p h = p
  select_one P c (d ∷ cs) p h =
      select_one P (if prefer score key d c then d else c) cs
        (if_both P (prefer score key d c) h.0 p) h.1

  pub select_first :
      (c : NodeState) (cs : List NodeState)
      → IsSmall c
      → All IsSmall cs
      → All (Before (select score key c cs)) (c ∷ cs)
  unfolding select
  select_first c [] v h = (Before-refl c, tt)
  select_first c (d ∷ cs) v h =
      let best = if prefer score key d c then d else c in
      let small : IsSmall best = if_both IsSmall (prefer score key d c) h.0 v in
      let rest = select_first best cs small h.1 in
      let near = prefer-Before d c h.0 v in
      let n = select score key best cs in
      let least : IsSmall n = select_one IsSmall best cs small h.1 in
      (
        Before-trans n best c least small v rest.0 near.1,
        (Before-trans n best d least small h.0 rest.0 near.0, rest.1),
      )

  pub first-LighterThan :
      (n : NodeState) (cs : List NodeState) → All (Before n) cs → All (LighterThan n) cs
  first-LighterThan n [] h = tt
  first-LighterThan n (c ∷ cs) h = (h.0.0, first-LighterThan n cs h.1)

-- What is known of each candidate.
pub record IsCandidate (region : Text) (m : Map Text NodeState) (n : NodeState) : Type 0 where
  pub stored : get n.node.id m ≡ some n
  pub fits : eligible region n ≡ true
  pub room : has_room n ≡ true
  pub small : IsSmall n

pub candidates-All :
    (region : Text) (m all_nodes : Map Text NodeState)
    → AllEntries (λ id n. (get n.node.id all_nodes ≡ some n) × IsSmall n) m
    → All (IsCandidate region all_nodes) (candidates region m)
unfolding candidates
candidates-All region [] all_nodes h = tt
candidates-All region ((id, n) ∷ m) all_nodes h =
    elim (Bool-cases (eligible region n && has_room n)) [
      | inl e ↦ rw e (
        record { stored = h.0.0; fits = ground arith; room = ground arith; small = h.0.1 },
        candidates-All region m all_nodes h.1,
      )
      | inr e ↦ rw e (candidates-All region m all_nodes h.1)
    ]

pub candidates-get {κ} :
    (Q : NodeState → Type κ) (region : Text) (m : Map Text NodeState) (id : Text) (n : NodeState)
    → All Q (candidates region m)
    → get id m ≡ some n
    → eligible region n ≡ true
    → has_room n ≡ true
    → Q n
unfolding candidates get
candidates-get Q region [] id n h e f g = cc
candidates-get Q region ((j, k) ∷ m) id n h e f g = elim (text_eq.decide j id) [
  | yes p ↦
      let here : k ≡ n = some-injective k n (rw (if_pos _ p) at e) in
      let test : (eligible region k && has_room k) ≡ true =
        subst (λ z. (eligible region z && has_room z) ≡ true) (sym here) (ground arith) in
      subst Q here (rw test at h).0
  | no ne ↦
      let later = λ (r : All Q (candidates region m)).
        candidates-get Q region m id n r (rw (if_neg _ ne) at e) f g in
      elim (Bool-cases (eligible region k && has_room k)) [
        | inl t ↦ later (rw t at h).1
        | inr t ↦ later (rw t at h)
      ]
]
