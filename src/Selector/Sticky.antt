-- ===== src/Selector/Sticky.antt =====
-- internal/userplane/selector.go: an assignment that Assign made or Restore took stays until its Release.
use cups.Base.{
  ℕ, ◌≡◌, ◌≢◌, refl, ◌∙◌, subst, Bool, true, false, ◌&&◌, none, some, some-injective, List, [], ◌∷◌,
  ◌!=◌, leb, Map, get, put, length, Text, text_eq, arith, All, Bool-cases, Option-cases, inl, inr,
  add64, if_both, get-put_ne, get-del_ne,
}
use cups.Selector.{
  Selector, NodeState, State, state_eq, Result, ok, err, invalid, Request, Assignment, assignment,
  validate_request, candidates, select, choose, count_reject, fall_back, full_at, assign_new,
  assign, restore, release, set_state, set_capacity, remove_node,
}
use cups.Selector.Invariant.{IsValid}
use cups.Selector.Steps.{
  Call, assigns, restores, releases, sets_state, sets_capacity, removes, serve, serve_all,
  serve-IsValid,
}

abbrev pub Keeps : Text → Text → Selector → Type 0
Keeps key id t = get key t.assignments ≡ some id

put-Keeps :
    (key id k v : Text) (m : Map Text Text)
    → get k m ≡ none
    → get key m ≡ some id
    → get key (put k v m) ≡ some id
put-Keeps key id k v m free e = elim (text_eq.decide k key) [
  | yes p ↦ absurd (cc (free, e, p))
  | no ne ↦ get-put_ne k key v m ne ∙ e
]

restore-Keeps :
    (key id k node_id : Text) (s : Selector) → Keeps key id s → Keeps key id (restore s k node_id).0
unfolding restore
restore-Keeps key id k node_id s e = ground (arith, put-Keeps key id k node_id s.assignments)

release-Keeps :
    (key id k node_id : Text) (s : Selector)
    → k ≢ key
    → Keeps key id s
    → Keeps key id (release s k node_id).0
unfolding release
release-Keeps key id k node_id s ne e = ground (arith, get-del_ne k key s.assignments ne)

set_state-Keeps :
    (key id node_id : Text) (state : State) (s : Selector)
    → Keeps key id s
    → Keeps key id (set_state s node_id state).0
unfolding set_state
set_state-Keeps key id node_id state s e = ground arith

set_capacity-Keeps :
    (key id node_id : Text) (capacity : ℕ) (s : Selector)
    → Keeps key id s
    → Keeps key id (set_capacity s node_id capacity).0
unfolding set_capacity
set_capacity-Keeps key id node_id capacity s e = ground arith

remove_node-Keeps :
    (key id node_id : Text) (s : Selector) → Keeps key id s → Keeps key id (remove_node s node_id).0
unfolding remove_node
remove_node-Keeps key id node_id s e = ground arith

module _ (score : Text → Text → ℕ) where
  choose-Keeps :
      (key id k : Text) (s : Selector) (full : Bool) (cs : List NodeState)
      → get k s.assignments ≡ none
      → Keeps key id s
      → Keeps key id (choose score s k full cs).0
  choose-Keeps key id k s true [] free e = e
  choose-Keeps key id k s false [] free e = e
  choose-Keeps key id k s full (c ∷ cs) free e =
      put-Keeps key id k (select score k c cs).node.id s.assignments free e

  fall_back-Keeps :
      (key id k : Text) (s : Selector) (full : Bool) (cs : List NodeState)
      → get k s.assignments ≡ none
      → Keeps key id s
      → Keeps key id (fall_back score s k full cs).0
  fall_back-Keeps key id k s full [] free e = choose-Keeps key id k s full [] free e
  fall_back-Keeps key id k s full (c ∷ cs) free e =
      choose-Keeps key id k
        (record s {
          stats = record (s.stats) { region_fallbacks = add64 s.stats.region_fallbacks 1 };
        })
        full (c ∷ cs) free e

  assign_new-Keeps :
      (key id : Text) (r : Request) (s : Selector) (cs : List NodeState)
      → get r.key s.assignments ≡ none
      → Keeps key id s
      → Keeps key id (assign_new score s r cs).0
  assign_new-Keeps key id r s (c ∷ cs) free e = choose-Keeps key id r.key s false (c ∷ cs) free e
  assign_new-Keeps key id r s [] free e =
      if_both (λ (p : Selector × Result Assignment). Keeps key id p.0)
        (length r.preferred_region != 0 && r.allow_region_fallback)
        {x = fall_back score s r.key (full_at score s []) (candidates [] s.nodes)}
        {y = count_reject score (full_at score s r.preferred_region) s}
        (fall_back-Keeps key id r.key s (full_at score s []) (candidates [] s.nodes) free e)
        (choose-Keeps key id r.key s (full_at score s r.preferred_region) [] free e)

  assign-Keeps :
      (key id : Text) (r : Request) (s : Selector) (p : Selector × Result Assignment)
      → Keeps key id s
      → assign score s r ≡ some p
      → Keeps key id p.0
  unfolding assign
  assign-Keeps key id r s p e q =
      let u = record s {
        stats = record (s.stats) { placement_attempts = add64 s.stats.placement_attempts 1 };
      } in
      let at =
        λ (o : Selector × Result Assignment) (kept : Keeps key id o.0) (eq : some o ≡ some p).
          subst (λ (o : Selector × Result Assignment). Keeps key id o.0) (some-injective o p eq)
            kept in
      elim (Bool-cases (validate_request r)) [
        | inr bad ↦ at (s, err invalid) e (rw bad at q)
        | inl good ↦ elim (Option-cases (get r.key s.assignments)) [
          | inr (node_id, f) ↦ elim (Option-cases (get node_id s.nodes)) [
            | inl g ↦ cc (rw (good, f, g) at q)
            | inr (n, g) ↦ at _ e (rw (good, f, g) at q)
          ]
          | inl f ↦ elim (Bool-cases (leb s.max_assignments (length s.assignments))) [
            | inl full ↦ at _ e (rw (good, f, full) at q)
            | inr room ↦
                at _ (assign_new-Keeps key id r u (candidates r.preferred_region s.nodes) f e)
                  (rw (good, f, room) at q)
          ]
        ]
      ]

  -- The call releases some other key, if any.
  abbrev pub Spares : Text → Call → Type 0
  Spares key (releases k id) = k ≢ key
  Spares key (assigns r) = Unit
  Spares key (restores k id) = Unit
  Spares key (sets_state id state) = Unit
  Spares key (sets_capacity id capacity) = Unit
  Spares key (removes id) = Unit

  serve-Keeps :
      (c : Call) (key id : Text) (s t : Selector)
      → Spares key c
      → Keeps key id s
      → serve score c s ≡ some t
      → Keeps key id t
  serve-Keeps (assigns r) key id s t h e q = elim (Option-cases (assign score s r)) [
    | inl f ↦ cc (rw f at q)
    | inr (p, f) ↦
        subst (Keeps key id) (some-injective p.0 t (rw f at q)) (assign-Keeps key id r s p e f)
  ]
  serve-Keeps (restores k j) key id s t h e q =
      subst (Keeps key id) (some-injective _ t q) (restore-Keeps key id k j s e)
  serve-Keeps (releases k j) key id s t h e q =
      subst (Keeps key id) (some-injective _ t q) (release-Keeps key id k j s h e)
  serve-Keeps (sets_state j state) key id s t h e q =
      subst (Keeps key id) (some-injective _ t q) (set_state-Keeps key id j state s e)
  serve-Keeps (sets_capacity j capacity) key id s t h e q =
      subst (Keeps key id) (some-injective _ t q) (set_capacity-Keeps key id j capacity s e)
  serve-Keeps (removes j) key id s t h e q =
      subst (Keeps key id) (some-injective _ t q) (remove_node-Keeps key id j s e)

  serve_all-Keeps :
      (cs : List Call) (key id : Text) (s : Selector)
      → IsValid s
      → All (Spares key) cs
      → Keeps key id s
      → (t : Selector) × (serve_all score cs s ≡ some t) × IsValid t × Keeps key id t
  unfolding serve_all
  serve_all-Keeps [] key id s v h e = (s, refl, v, e)
  serve_all-Keeps (c ∷ cs) key id s v h e =
      let (t, f, w) = serve-IsValid score c s v in
      let (u, g, x, k) = serve_all-Keeps cs key id t w h.1 (serve-Keeps c key id s t h.0 e f) in
      (u, rw f g, x, k)

  -- From a valid state where the key of a valid request is assigned: any calls without a Release of
  -- that key return, and Assign with the request then answers the node that the key was assigned to,
  -- whatever that node's state and capacity are by then, and changes neither nodes nor assignments.
  pub assign_again :
      (cs : List Call) (r : Request) (id : Text) (s : Selector)
      → IsValid s
      → validate_request r ≡ true
      → get r.key s.assignments ≡ some id
      → All (Spares r.key) cs
      → (t : Selector) × (n : NodeState) × (u : Selector) × (serve_all score cs s ≡ some t)
        × (get id t.nodes ≡ some n)
        × (n.node.id ≡ id)
        × (assign score t r ≡ some (u, ok (assignment r.key n.node)))
        × (u.nodes ≡ t.nodes)
        × (u.assignments ≡ t.assignments)
  unfolding assign
  assign_again cs r id s v good e h =
      let (t, f, w, k) = serve_all-Keeps cs r.key id s v h e in
      let (n, g) = w.known r.key id k in
      let u : Selector = record t {
        stats = record (t.stats) {
          placement_attempts = add64 t.stats.placement_attempts 1;
          sticky_hits = add64 t.stats.sticky_hits 1;
        };
      } in
      (t, n, u, f, g, (w.counted id n g).named, rw (good, k, g) refl, refl, refl)
