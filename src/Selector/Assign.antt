-- ===== src/Selector/Assign.antt =====
-- internal/userplane/selector.go: what Assign answers.
use cups.Base.{
  ℕ, ◌+◌, ◌≡◌, ◌<◌, ◌⊎◌, refl, sym, ap, ◌∙◌, subst, Bool, true, false, ◌&&◌, none, some,
  some-injective, List, [], ◌∷◌, ◌!=◌, leb, get, length, Text, text_eq, arith, All,
  AllEntries-intro, get-put_self, Bool-cases, inl, inr, add64, if_both,
}
use cups.Selector.{
  Selector, NodeState, Result, ok, err, Request, Assignment, eligible, has_room, candidates, select,
  choose, count_reject, fall_back, full_at, assign_new, assign, assignment, validate_request, place,
}
use cups.Selector.Invariant.{IsValid, frame-IsValid, used_bound}
use cups.Selector.Placement.{
  IsCandidate, IsSmall, LighterThan, candidates-All, candidates-get, select_one, select_first,
  first-LighterThan,
}

-- A new assignment is to a node that was there and was fit, and it takes one unit of the node.
abbrev pub Placed : Selector → Text → (NodeState → Type 0) → Selector × Result Assignment → Type 0
Placed s key Q (t, err e) = Unit
Placed s key Q (t, ok a) =
    (n : NodeState) × (get a.node_id s.nodes ≡ some n)
    × Q n
    × (get key t.assignments ≡ some a.node_id)
    × (get a.node_id t.nodes ≡ some (record n { used = n.used + 1 }))

-- No node that is ready in the region and has room is lighter.
abbrev pub IsLeast : Text → Selector → NodeState → Type 0
IsLeast region s n =
    (j : Text) (k : NodeState)
    → get j s.nodes ≡ some k
    → eligible region k ≡ true
    → has_room k ≡ true
    → LighterThan n k

pub List-cases : {A : Type 0} (l : List A) → (l ≡ []) ⊎ ((x : A) × (xs : List A) × (l ≡ x ∷ xs))
List-cases [] = inl refl
List-cases (x ∷ xs) = inr (x, xs, refl)

pub candidates-IsCandidate :
    (s : Selector) (region : Text)
    → IsValid s
    → All (IsCandidate region s.nodes) (candidates region s.nodes)
candidates-IsCandidate s region v = candidates-All region s.nodes s.nodes (
    AllEntries-intro (λ id n. (get n.node.id s.nodes ≡ some n) × IsSmall n) s.nodes v.keyed_nodes
      (λ id n e.
        let c = v.counted id n e in
        (
          ap (λ k. get k s.nodes) c.named ∙ e,
          record { used = used_bound s id n v e; positive = c.positive; bounded = c.bounded },
        )))

pub All-IsSmall :
    (s : Selector) (region : Text) (cs : List NodeState)
    → All (IsCandidate region s.nodes) cs
    → All IsSmall cs
All-IsSmall s region [] h = tt
All-IsSmall s region (c ∷ cs) h = (h.0.small, All-IsSmall s region cs h.1)

module _ (score : Text → Text → ℕ) where
  choose-Placed :
      (s : Selector) (key region : Text) (full : Bool) (Q : NodeState → Type 0) (c : NodeState)
      (cs : List NodeState)
      → All (IsCandidate region s.nodes) (c ∷ cs)
      → Q (select score key c cs)
      → Placed s key Q (choose score s key full (c ∷ cs))
  choose-Placed s key region full Q c cs h q =
      let n = select score key c cs in
      let k = select_one score key (IsCandidate region s.nodes) c cs h.0 h.1 in
      let more : record n { used = add64 n.used 1 } ≡ record n { used = n.used + 1 } =
        ap (λ u. record n { used = u }) (omega (arith, k.small.used)) in
      (
        n,
        k.stored,
        q,
        get-put_self key n.node.id s.assignments,
        get-put_self n.node.id (record n { used = add64 n.used 1 }) s.nodes ∙ ap some more,
      )

  abbrev pub HasRoom : NodeState → Type 0
  HasRoom n = n.used < n.node.capacity

  chosen-HasRoom :
      (s : Selector) (key region : Text) (c : NodeState) (cs : List NodeState)
      → All (IsCandidate region s.nodes) (c ∷ cs)
      → HasRoom (select score key c cs)
  chosen-HasRoom s key region c cs h =
      let k = select_one score key (IsCandidate region s.nodes) c cs h.0 h.1 in
      ground (arith, k.room)

  count_reject-Placed :
      (s u : Selector) (key : Text) (Q : NodeState → Type 0) (full : Bool)
      → Placed s key Q (count_reject score full u)
  count_reject-Placed s u key Q true = tt
  count_reject-Placed s u key Q false = tt

  fall_back-Placed :
      (s : Selector) (key : Text) (full : Bool) (cs : List NodeState)
      → All (IsCandidate [] s.nodes) cs
      → Placed s key HasRoom (fall_back score s key full cs)
  fall_back-Placed s key full [] h = count_reject-Placed s s key HasRoom full
  fall_back-Placed s key full (c ∷ cs) h =
      let t = record s {
        stats = record (s.stats) { region_fallbacks = add64 s.stats.region_fallbacks 1 };
      } in
      choose-Placed t key [] full HasRoom c cs h (chosen-HasRoom s key [] c cs h)

  assign_new-Placed :
      (s : Selector) (r : Request)
      → IsValid s
      → Placed s r.key HasRoom (assign_new score s r (candidates r.preferred_region s.nodes))
  assign_new-Placed s r v = elim (List-cases (candidates r.preferred_region s.nodes)) [
    | inr (c, cs, e) ↦
        let h =
          subst (All (IsCandidate r.preferred_region s.nodes)) e
            (candidates-IsCandidate s r.preferred_region v) in
        rw e (
          choose-Placed s r.key r.preferred_region false HasRoom c cs h
            (chosen-HasRoom s r.key r.preferred_region c cs h))
    | inl e ↦ rw e (
        if_both (Placed s r.key HasRoom) (length r.preferred_region != 0 && r.allow_region_fallback)
          {x = fall_back score s r.key (full_at score s []) (candidates [] s.nodes)}
          {y = count_reject score (full_at score s r.preferred_region) s}
          (fall_back-Placed s r.key (full_at score s []) (candidates [] s.nodes)
            (candidates-IsCandidate s [] v))
          (count_reject-Placed s s r.key HasRoom (full_at score s r.preferred_region)))
  ]

  -- In a valid state, when Assign assigns a key that had no assignment, it does so to a known node
  -- whose usage is below its capacity; the key then names that node, whose usage is one more.
  pub assign_within :
      (s t : Selector) (r : Request) (a : Assignment)
      → IsValid s
      → get r.key s.assignments ≡ none
      → assign score s r ≡ some (t, ok a)
      → Placed s r.key HasRoom (t, ok a)
  unfolding assign
  assign_within s t r a v free e =
      let u = record s {
        stats = record (s.stats) { placement_attempts = add64 s.stats.placement_attempts 1 };
      } in
      let placed = assign_new-Placed u r (frame-IsValid s u.stats v) in
      elim (Bool-cases (validate_request r)) [
        | inr bad ↦ cc
        | inl good ↦ elim (Bool-cases (leb s.max_assignments (length s.assignments))) [
          | inl full ↦ cc
          | inr room ↦
              let answer : assign_new score u r (candidates r.preferred_region s.nodes)
                  ≡ (t, ok a) =
                some-injective _ _ (rw (good, free, room) at e) in
              subst (Placed s r.key HasRoom) answer placed
        ]
      ]

  -- In a valid state, take a valid request with a new key, when there are fewer assignments than the
  -- maximum and some ready node has room, of the preferred region if one is asked for. It is assigned
  -- to such a node, and no other such node is lighter.
  pub assign-IsLeast :
      (s : Selector) (r : Request) (id : Text) (m : NodeState)
      → IsValid s
      → validate_request r ≡ true
      → get r.key s.assignments ≡ none
      → length s.assignments < s.max_assignments
      → get id s.nodes ≡ some m
      → eligible r.preferred_region m ≡ true
      → has_room m ≡ true
      → (t : Selector) × (n : NodeState) × (assign score s r
          ≡ some (t, ok (assignment r.key n.node)))
        × (get n.node.id s.nodes ≡ some n)
        × (eligible r.preferred_region n ≡ true)
        × (has_room n ≡ true)
        × IsLeast r.preferred_region s n
  unfolding assign
  assign-IsLeast s r id m v valid free room stored fits roomy =
      let u = record s {
        stats = record (s.stats) { placement_attempts = add64 s.stats.placement_attempts 1 };
      } in
      let region = r.preferred_region in
      let not_full : leb s.max_assignments (length s.assignments) ≡ false = ground arith in
      elim (List-cases (candidates region s.nodes)) [
        | inl e ↦
            let never : true ≡ false =
              candidates-get (λ x. true ≡ false) region s.nodes id m
                (subst (All (λ x. true ≡ false)) (sym e) tt) stored fits roomy in
            cc never
        | inr (c, cs, e) ↦
            let h =
              subst (All (IsCandidate region s.nodes)) e (candidates-IsCandidate s region v) in
            let n = select score r.key c cs in
            let k = select_one score r.key (IsCandidate region s.nodes) c cs h.0 h.1 in
            let least =
              first-LighterThan score r.key n (c ∷ cs)
                (select_first score r.key c cs h.0.small (All-IsSmall s region cs h.1)) in
            (
              place score u r.key n,
              n,
              rw (valid, free, not_full, e) refl,
              k.stored,
              k.fits,
              k.room,
              λ j x q f g.
                  candidates-get (LighterThan n) region s.nodes j x
                    (subst (All (LighterThan n)) (sym e) least) q f g,
            )
      ]
