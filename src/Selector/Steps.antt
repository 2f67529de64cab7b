-- ===== src/Selector/Steps.antt =====
-- internal/userplane/selector.go: the methods that change the state, in any order.
use cups.Base.{
  ℕ, ◌*◌, ◌≡◌, ◌<◌, refl, subst, subst₂, Bool, true, false, not, ◌&&◌, ◌||◌, Option, none, some,
  some-injective, List, [], ◌∷◌, ◌==◌, ◌!=◌, ltb, leb, Map, get, put, has, same, length, Text,
  text_eq, arith, All, Bool-cases, Option-cases, inl, inr, add64, if_both, ◌>>=◌, IsKeyed,
  put-IsKeyed, put_cases, total,
}
use cups.Selector.{
  Selector, no_stats, Node, NodeState, State, state_eq, Result, ok, err, Request, Assignment, new,
  add_nodes, validate_node, validate_key, validate_request, max_node_capacity, candidates, select,
  choose, count_reject, fall_back, full_at, assign_new, assign, assignment, invalid,
  assignment_mismatch, restore, restore_at, release, set_state, set_capacity, remove_node,
}
use cups.Selector.Invariant.{
  IsValid, IsCounted, frame-IsValid, bind-IsValid, unbind-IsValid, renew-IsValid, remove-IsValid,
}
use cups.Selector.Placement.{IsCandidate, select_one}
use cups.Selector.Assign.{List-cases, candidates-IsCandidate}

pub data Call : Type 0 where
  assigns : Request → Call
  restores : Text → Text → Call
  releases : Text → Text → Call
  sets_state : Text → State → Call
  sets_capacity : Text → ℕ → Call
  removes : Text → Call

restore-IsValid :
    (s : Selector) (key node_id : Text) → IsValid s → IsValid (restore s key node_id).0
unfolding restore
restore-IsValid s key node_id v =
    if_both (λ (p : Selector × Result Assignment). IsValid p.0) (not (validate_key key))
      {x = (s, err invalid)}
      {y = restore_at s key node_id (get node_id s.nodes) (get key s.assignments)} v
      (elim (Option-cases (get node_id s.nodes)) [
        | inl e ↦ rw e v
        | inr (n, e) ↦ elim (Option-cases (get key s.assignments)) [
          | inr (current, f) ↦
              rw (e, f)
                (if_both (λ (p : Selector × Result Assignment). IsValid p.0)
                  (not (same current node_id)) {x = (s, err assignment_mismatch)}
                  {y = (s, ok (assignment key n.node))} v v)
          | inl f ↦ elim (Bool-cases (leb s.max_assignments (length s.assignments))) [
            | inl full ↦ rw (e, f, full) v
            | inr room ↦
                let u = record (s.stats) { restored = add64 s.stats.restored 1 } in
                rw (e, f, room)
                  (frame-IsValid _ u (bind-IsValid s key node_id n v e f (ground arith)))
          ]
        ]
      ])

release-IsValid :
    (s : Selector) (key node_id : Text) → IsValid s → IsValid (release s key node_id).0
unfolding release
release-IsValid s key node_id v = elim (Bool-cases (validate_key key)) [
  | inr bad ↦ rw bad v
  | inl good ↦ elim (Option-cases (get key s.assignments)) [
    | inl e ↦ rw (good, e) v
    | inr (current, e) ↦ elim (Bool-cases (same current node_id)) [
      | inr other ↦ rw (good, e, other) v
      | inl here ↦ elim (Option-cases (get current s.nodes)) [
        | inl f ↦ rw (good, e, here, f) v
        | inr (n, f) ↦ elim (Bool-cases (n.used == 0)) [
          | inl idle ↦ rw (good, e, here, f, idle) v
          | inr busy ↦
              let u = record (s.stats) { released = add64 s.stats.released 1 } in
              rw (good, e, here, f, busy) (frame-IsValid _ u (unbind-IsValid s key current n v f e))
        ]
      ]
    ]
  ]
]

set_state-IsValid :
    (s : Selector) (node_id : Text) (state : State)
    → IsValid s
    → IsValid (set_state s node_id state).0
unfolding set_state
set_state-IsValid s node_id state v = elim (Option-cases (get node_id s.nodes)) [
  | inl e ↦ rw e v
  | inr (n, e) ↦
      let c = v.counted node_id n e in
      let next = record (n.node) { state = state; generation = add64 n.node.generation 1 } in
      rw e (
        if_both IsValid (not (same n.node.state state))
          {x = record s { nodes = put node_id (record n { node = next }) s.nodes }} {y = s}
          (renew-IsValid s node_id n next v e refl c.positive c.bounded) v)
]

set_capacity-IsValid :
    (s : Selector) (node_id : Text) (capacity : ℕ)
    → IsValid s
    → IsValid (set_capacity s node_id capacity).0
unfolding set_capacity
set_capacity-IsValid s node_id capacity v =
    elim (Bool-cases (capacity == 0 || ltb max_node_capacity capacity)) [
      | inl bad ↦ rw bad v
      | inr good ↦ elim (Option-cases (get node_id s.nodes)) [
        | inl e ↦ rw (good, e) v
        | inr (n, e) ↦
            let next = record (n.node) {
              capacity = capacity;
              generation = add64 n.node.generation 1;
            } in
            rw (good, e)
              (if_both IsValid (n.node.capacity != capacity)
                {x = record s { nodes = put node_id (record n { node = next }) s.nodes }} {y = s}
                (renew-IsValid s node_id n next v e refl (ground arith) (ground arith)) v)
      ]
    ]

remove_node-IsValid :
    (s : Selector) (node_id : Text) → IsValid s → IsValid (remove_node s node_id).0
unfolding remove_node
remove_node-IsValid s node_id v = elim (Option-cases (get node_id s.nodes)) [
  | inl e ↦ rw e v
  | inr (n, e) ↦ elim (Bool-cases (n.used != 0)) [
    | inr idle ↦ rw (e, idle) (remove-IsValid s node_id n v e (ground arith))
    | inl busy ↦ rw (e, busy) v
  ]
]

module _ (score : Text → Text → ℕ) where
  choose-IsValid :
      (s : Selector) (key region : Text) (full : Bool) (cs : List NodeState)
      → IsValid s
      → get key s.assignments ≡ none
      → length s.assignments < s.max_assignments
      → All (IsCandidate region s.nodes) cs
      → IsValid (choose score s key full cs).0
  choose-IsValid s key region true [] v free room h = frame-IsValid s _ v
  choose-IsValid s key region false [] v free room h = frame-IsValid s _ v
  choose-IsValid s key region full (c ∷ cs) v free room h =
      let k = select_one score key (IsCandidate region s.nodes) c cs h.0 h.1 in
      frame-IsValid _ _ (
        bind-IsValid s key (select score key c cs).node.id (select score key c cs) v k.stored free
          room)

  fall_back-IsValid :
      (s : Selector) (key : Text) (full : Bool) (cs : List NodeState)
      → IsValid s
      → get key s.assignments ≡ none
      → length s.assignments < s.max_assignments
      → All (IsCandidate [] s.nodes) cs
      → IsValid (fall_back score s key full cs).0
  fall_back-IsValid s key full [] v free room h = choose-IsValid s key [] full [] v free room tt
  fall_back-IsValid s key full (c ∷ cs) v free room h =
      let u = record (s.stats) { region_fallbacks = add64 s.stats.region_fallbacks 1 } in
      choose-IsValid (record s { stats = u }) key [] full (c ∷ cs) (frame-IsValid s u v) free room h

  assign_new-IsValid :
      (s : Selector) (r : Request)
      → IsValid s
      → get r.key s.assignments ≡ none
      → length s.assignments < s.max_assignments
      → IsValid (assign_new score s r (candidates r.preferred_region s.nodes)).0
  assign_new-IsValid s r v free room = elim (List-cases (candidates r.preferred_region s.nodes)) [
    | inr (c, cs, e) ↦ rw e (
        choose-IsValid s r.key r.preferred_region false (c ∷ cs) v free room (
          subst (All (IsCandidate r.preferred_region s.nodes)) e
            (candidates-IsCandidate s r.preferred_region v)))
    | inl e ↦ rw e (
        if_both (λ (p : Selector × Result Assignment). IsValid p.0)
          (length r.preferred_region != 0 && r.allow_region_fallback)
          {x = fall_back score s r.key (full_at score s []) (candidates [] s.nodes)}
          {y = count_reject score (full_at score s r.preferred_region) s}
          (fall_back-IsValid s r.key (full_at score s []) (candidates [] s.nodes) v free room
            (candidates-IsCandidate s [] v))
          (choose-IsValid s r.key [] (full_at score s r.preferred_region) [] v free room tt))
  ]

  pub assign-IsValid :
      (s : Selector) (r : Request)
      → IsValid s
      → (p : Selector × Result Assignment) × (assign score s r ≡ some p) × IsValid p.0
  unfolding assign
  assign-IsValid s r v =
      let stats = record (s.stats) { placement_attempts = add64 s.stats.placement_attempts 1 } in
      let u = record s { stats = stats } in
      let w = frame-IsValid s stats v in
      elim (Bool-cases (validate_request r)) [
        | inr bad ↦ rw bad (_, refl, v)
        | inl good ↦ elim (Option-cases (get r.key s.assignments)) [
          | inr (id, e) ↦
              let (n, f) = v.known r.key id e in rw (good, e, f) (_, refl, frame-IsValid u _ w)
          | inl e ↦ elim (Bool-cases (leb s.max_assignments (length s.assignments))) [
            | inl full ↦ rw (good, e, full) (_, refl, frame-IsValid u _ w)
            | inr room ↦ rw (good, e, room) (_, refl, assign_new-IsValid u r w e (ground arith))
          ]
        ]
      ]

  abbrev pub serve : Call → Selector → Option Selector
  serve (assigns r) s = assign score s r >>= λ p. some p.0
  serve (restores key id) s = some (restore s key id).0
  serve (releases key id) s = some (release s key id).0
  serve (sets_state id state) s = some (set_state s id state).0
  serve (sets_capacity id capacity) s = some (set_capacity s id capacity).0
  serve (removes id) s = some (remove_node s id).0

  unfoldable pub serve_all : List Call → Selector → Option Selector
  serve_all [] s = some s
  serve_all (c ∷ cs) s = serve c s >>= serve_all cs

  pub serve-IsValid :
      (c : Call) (s : Selector) → IsValid s → (t : Selector) × (serve c s ≡ some t) × IsValid t
  serve-IsValid (assigns r) s v = let (p, e, w) = assign-IsValid s r v in (p.0, rw e refl, w)
  serve-IsValid (restores key id) s v = (_, refl, restore-IsValid s key id v)
  serve-IsValid (releases key id) s v = (_, refl, release-IsValid s key id v)
  serve-IsValid (sets_state id state) s v = (_, refl, set_state-IsValid s id state v)
  serve-IsValid (sets_capacity id capacity) s v = (_, refl, set_capacity-IsValid s id capacity v)
  serve-IsValid (removes id) s v = (_, refl, remove_node-IsValid s id v)

  -- From a valid state any calls return without a panic, to a valid state: the usage of each node is
  -- the number of assignments that name it, each assignment names a known node, and the assignments
  -- are within their maximum.
  pub serve_all-IsValid :
      (cs : List Call) (s : Selector)
      → IsValid s
      → (t : Selector) × (serve_all cs s ≡ some t) × IsValid t
  unfolding serve_all
  serve_all-IsValid [] s v = (s, refl, v)
  serve_all-IsValid (c ∷ cs) s v =
      let (t, e, w) = serve-IsValid c s v in
      let (u, f, x) = serve_all-IsValid cs t w in (u, rw e f, x)

node_fits : (n : Node) → validate_node n ≡ true → IsCounted [] n.id (record { node = n; used = 0 })
unfolding validate_node total
node_fits n good = record {
  named = refl;
  used = refl;
  positive = ground arith;
  bounded = ground arith;
}

record IsFresh (m : Map Text NodeState) : Type 0 where
  keyed : IsKeyed m
  counted : (id : Text) (n : NodeState) → get id m ≡ some n → IsCounted [] id n

add_nodes-IsFresh :
    (ns : List Node) (m k : Map Text NodeState) → IsFresh m → add_nodes ns m ≡ some k → IsFresh k
unfolding add_nodes
add_nodes-IsFresh [] m k f e = subst IsFresh (some-injective m k e) f
add_nodes-IsFresh (n ∷ ns) m k f e = elim (Bool-cases (validate_node n)) [
  | inr bad ↦ cc
  | inl good ↦ elim (Bool-cases (has n.id m)) [
    | inl dup ↦ cc
    | inr free ↦
        let c = node_fits n good in
        add_nodes-IsFresh ns (put n.id (record { node = n; used = 0 }) m) k
          (record {
            keyed = put-IsKeyed n.id (record { node = n; used = 0 }) m f.keyed;
            counted = λ id x q. elim (put_cases n.id id (record { node = n; used = 0 }) x m q) [
              | inl (p, r) ↦ subst₂ (λ id x. IsCounted [] id x) p r c
              | inr old ↦ f.counted id x old
            ];
          })
          (rw (good, free) at e)
  ]
]

pub new-IsValid :
    (nodes : List Node) (max_assignments : ℕ) (s : Selector)
    → new nodes max_assignments ≡ some s
    → IsValid s
unfolding new get
new-IsValid nodes max_assignments s e =
    elim (Bool-cases (length nodes == 0 || ltb 256 (length nodes))) [
      | inl bad ↦ cc
      | inr few ↦
          elim (Bool-cases
            (max_assignments == 0 || ltb (max_node_capacity * 256) max_assignments)) [
              | inl bad ↦ cc
              | inr bound ↦ elim (Option-cases (add_nodes nodes [])) [
                | inl f ↦ cc (rw (few, bound, f) at e)
                | inr (m, f) ↦
                    let fresh =
                      add_nodes-IsFresh nodes [] m
                        (record { keyed = tt; counted = λ id n q. absurd (cc q) }) f in
                    let made : Selector = record {
                      nodes = m;
                      assignments = [];
                      max_assignments = max_assignments;
                      stats = no_stats;
                    } in
                    subst IsValid (some-injective made s (rw (few, bound, f) at e)) (record {
                      keyed_nodes = fresh.keyed;
                      keyed = tt;
                      counted = fresh.counted;
                      known = λ key id q. absurd (cc q);
                      within = omega arith;
                      machine = ground arith;
                    })
              ]
            ]
    ]
