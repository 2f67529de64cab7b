-- ===== src/Selector/Invariant.antt =====
-- internal/userplane/selector.go: a node's usage is the number of the assignments that name it.
use cups.Base.{
  ℕ, ◌+◌, ◌-◌, ◌*◌, ◌≡◌, ◌≢◌, ◌≤◌, ◌<◌, refl, sym, ap, ◌∙◌, subst, none, some, some-injective,
  if◌then◌else◌, Map, get, put, del, same, length, Text, text_eq, arith, IsKeyed, put-IsKeyed,
  del-IsKeyed, put_cases, del-readable, total, total-put_new, total-del, total-get, total_bound,
  length-put_new, length-del_found, get-put_self, get-put_ne, get-del_ne, ◌⊎◌, subst₂, Bool-cases,
  inl, inr, same-true, same_self, add64,
}
use cups.Selector.{Selector, Node, NodeState, Stats, max_node_capacity}

abbrev pub weight : Text → Text → ℕ
weight id v = if same v id then 1 else 0

-- How many assignments name the node.
abbrev pub assigned_to : Text → Map Text Text → ℕ
assigned_to id m = total (weight id) m

pub record IsCounted (m : Map Text Text) (id : Text) (n : NodeState) : Type 0 where
  pub named : n.node.id ≡ id
  pub used : n.used ≡ assigned_to id m
  pub positive : 0 < n.node.capacity
  pub bounded : n.node.capacity ≤ max_node_capacity

pub record IsValid (s : Selector) : Type 0 where
  pub keyed_nodes : IsKeyed s.nodes
  pub keyed : IsKeyed s.assignments
  pub counted : (id : Text) (n : NodeState) → get id s.nodes ≡ some n → IsCounted s.assignments id n
  pub known :
      (key id : Text)
      → get key s.assignments ≡ some id
      → (n : NodeState) × (get id s.nodes ≡ some n)
  pub within : length s.assignments ≤ s.max_assignments
  pub machine : s.max_assignments ≤ max_node_capacity * 256

pub frame-IsValid : (s : Selector) (t : Stats) → IsValid s → IsValid (record s { stats = t })
frame-IsValid s t v = record {
  keyed_nodes = v.keyed_nodes;
  keyed = v.keyed;
  counted = v.counted;
  known = v.known;
  within = v.within;
  machine = v.machine;
}

weight_self : (id : Text) → weight id id ≡ 1
weight_self id = rw (same_self id) refl

weight_other : (id other : Text) → other ≢ id → weight id other ≡ 0
weight_other id other h = elim (Bool-cases (same other id)) [
  | inl e ↦ absurd (h (same-true other id e))
  | inr e ↦ rw e refl
]

weight_bound : (id v : Text) → weight id v ≤ 1
weight_bound id v = ground arith

-- A usage is far from a wrap-around.
pub used_bound :
    (s : Selector) (id : Text) (n : NodeState)
    → IsValid s
    → get id s.nodes ≡ some n
    → n.used ≤ max_node_capacity * 256
used_bound s id n v e = omega (
  arith,
  (v.counted id n e).used,
  total_bound (weight id) s.assignments (weight_bound id),
  v.within,
  v.machine,
)

-- One node and the assignments to it change.
touch-IsValid :
    (s : Selector) (id : Text) (old new : NodeState) (m : Map Text Text)
    → IsValid s
    → get id s.nodes ≡ some old
    → IsCounted m id new
    → ((j : Text) → id ≢ j → assigned_to j m ≡ assigned_to j s.assignments)
    → ((key j : Text) → get key m ≡ some j → (id ≡ j) ⊎ (get key s.assignments ≡ some j))
    → IsKeyed m
    → length m ≤ s.max_assignments
    → IsValid (record s { nodes = put id new s.nodes; assignments = m })
touch-IsValid s id old new m v e c same_count from keyed within =
    let here : get id (put id new s.nodes) ≡ some new = get-put_self id new s.nodes in
    record {
      keyed_nodes = put-IsKeyed id new s.nodes v.keyed_nodes;
      keyed = keyed;
      counted = λ j n q. elim (text_eq.decide id j) [
        | yes p ↦
            let same_node : new ≡ n =
              some-injective new n (sym here ∙ ap (λ k. get k (put id new s.nodes)) p ∙ q) in
            subst₂ (λ j n. IsCounted m j n) p same_node c
        | no ne ↦
            let d = v.counted j n (sym (get-put_ne id j new s.nodes ne) ∙ q) in
            record {
              named = d.named;
              used = d.used ∙ sym (same_count j ne);
              positive = d.positive;
              bounded = d.bounded;
            }
      ];
      known = λ key j q. elim (text_eq.decide id j) [
        | yes p ↦ (new, subst (λ k. get k (put id new s.nodes) ≡ some new) p here)
        | no ne ↦ elim (from key j q) [
          | inl p ↦ absurd (ne p)
          | inr before ↦
              let (n, r) = v.known key j before in (n, get-put_ne id j new s.nodes ne ∙ r)
        ]
      ];
      within = within;
      machine = v.machine;
    }

-- A new assignment.
pub bind-IsValid :
    (s : Selector) (key id : Text) (n : NodeState)
    → IsValid s
    → get id s.nodes ≡ some n
    → get key s.assignments ≡ none
    → length s.assignments < s.max_assignments
    → IsValid (record s {
      nodes = put id (record n { used = add64 n.used 1 }) s.nodes;
      assignments = put key id s.assignments;
    })
bind-IsValid s key id n v e free room =
    let more = record n { used = add64 n.used 1 } in
    let c = v.counted id n e in
    let count = total-put_new (weight id) key id s.assignments free in
    let machine : add64 n.used 1 ≡ n.used + 1 = omega (arith, used_bound s id n v e) in
    touch-IsValid s id n more (put key id s.assignments) v e
      (record {
        named = c.named;
        used = machine ∙ omega (arith, c.used, count, weight_self id);
        positive = c.positive;
        bounded = c.bounded;
      })
      (λ j ne.
        total-put_new (weight j) key id s.assignments free ∙ omega (arith, weight_other j id ne))
      (λ k j q. elim (put_cases key k id j s.assignments q) [
        | inl (p, r) ↦ inl r
        | inr old ↦ inr old
      ])
      (put-IsKeyed key id s.assignments v.keyed)
      (omega (arith, length-put_new key id s.assignments free))

-- An assignment is given up.
pub unbind-IsValid :
    (s : Selector) (key id : Text) (n : NodeState)
    → IsValid s
    → get id s.nodes ≡ some n
    → get key s.assignments ≡ some id
    → IsValid (record s {
      nodes = put id (record n { used = n.used - 1 }) s.nodes;
      assignments = del key s.assignments;
    })
unbind-IsValid s key id n v e held =
    let less = record n { used = n.used - 1 } in
    let c = v.counted id n e in
    let count = total-del (weight id) key id s.assignments v.keyed held in
    touch-IsValid s id n less (del key s.assignments) v e
      (record {
        named = c.named;
        used = omega (arith, c.used, count, weight_self id);
        positive = c.positive;
        bounded = c.bounded;
      })
      (λ j ne.
        omega (arith, total-del (weight j) key id s.assignments v.keyed held, weight_other j id ne))
      (λ k j q. inr (del-readable key k j s.assignments q).0)
      (del-IsKeyed key s.assignments v.keyed)
      (omega (arith, v.within, length-del_found key id s.assignments v.keyed held))

-- A node keeps its name and its usage.
pub renew-IsValid :
    (s : Selector) (id : Text) (n : NodeState) (next : Node)
    → IsValid s
    → get id s.nodes ≡ some n
    → next.id ≡ n.node.id
    → 0 < next.capacity
    → next.capacity ≤ max_node_capacity
    → IsValid (record s { nodes = put id (record n { node = next }) s.nodes })
renew-IsValid s id n next v e name pos bound =
    let c = v.counted id n e in
    touch-IsValid s id n (record n { node = next }) s.assignments v e
      (record { named = name ∙ c.named; used = c.used; positive = pos; bounded = bound })
      (λ j ne. refl) (λ k j q. inr q) v.keyed v.within

-- A node without assignments is removed.
pub remove-IsValid :
    (s : Selector) (id : Text) (n : NodeState)
    → IsValid s
    → get id s.nodes ≡ some n
    → n.used ≡ 0
    → IsValid (record s { nodes = del id s.nodes })
remove-IsValid s id n v e idle = record {
  keyed_nodes = del-IsKeyed id s.nodes v.keyed_nodes;
  keyed = v.keyed;
  counted = λ j m q. v.counted j m (del-readable id j m s.nodes q).0;
  known = λ key j q. elim (text_eq.decide id j) [
    | yes p ↦
        let held = total-get (weight j) key j s.assignments q in
        absurd (
          omega (
            arith,
            held,
            weight_self j,
            (v.counted id n e).used,
            idle,
            ap (λ k. assigned_to k s.assignments) p,
          ))
    | no ne ↦ let (m, r) = v.known key j q in (m, get-del_ne id j s.nodes ne ∙ r)
  ];
  within = v.within;
  machine = v.machine;
}
