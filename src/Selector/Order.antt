-- ===== src/Selector/Order.antt =====
-- internal/userplane/selector.go: the choice does not depend on the order of the traversal.
use cups.Base.{
  ℕ, ◌≡◌, sym, ap, ◌∙◌, subst, some, some-injective, List, ◌∷◌, get, Text, text_eq, arith, All,
}
use cups.Selector.{Selector, NodeState, select, candidates}
use cups.Selector.Invariant.{IsValid}
use cups.Selector.Placement.{IsCandidate, Before, select_first, select_one, candidates-get}
use cups.Selector.Assign.{All-IsSmall, candidates-IsCandidate}

module _ (score : Text → Text → ℕ) (key : Text) where
  select-Before :
      (s t : Selector) (region : Text) (c d : NodeState) (cs ds : List NodeState)
      → IsValid s
      → IsValid t
      → ((id : Text) → get id s.nodes ≡ get id t.nodes)
      → candidates region s.nodes ≡ c ∷ cs
      → candidates region t.nodes ≡ d ∷ ds
      → Before score key (select score key c cs) (select score key d ds)
  select-Before s t region c d cs ds v w same_nodes e f =
      let h = subst (All (IsCandidate region s.nodes)) e (candidates-IsCandidate s region v) in
      let g = subst (All (IsCandidate region t.nodes)) f (candidates-IsCandidate t region w) in
      let n = select score key d ds in
      let k = select_one score key (IsCandidate region t.nodes) d ds g.0 g.1 in
      let first = select_first score key c cs h.0.small (All-IsSmall s region cs h.1) in
      candidates-get (Before score key (select score key c cs)) region s.nodes n.node.id n
        (subst (All (Before score key (select score key c cs))) (sym e) first)
        (same_nodes n.node.id ∙ k.stored) k.fits k.room

  -- Two valid states with the same nodes, whatever the order in which a traversal visits them: when
  -- no two nodes have the same score for the key, the loop over the candidates of a region selects
  -- the same node.
  pub select_any_order :
      (s t : Selector) (region : Text) (c d : NodeState) (cs ds : List NodeState)
      → IsValid s
      → IsValid t
      → ((id : Text) → get id s.nodes ≡ get id t.nodes)
      → ((i j : Text) (x y : NodeState)
          → get i s.nodes ≡ some x
          → get j s.nodes ≡ some y
          → score key i ≡ score key j
          → i ≡ j)
      → candidates region s.nodes ≡ c ∷ cs
      → candidates region t.nodes ≡ d ∷ ds
      → select score key c cs ≡ select score key d ds
  select_any_order s t region c d cs ds v w same_nodes distinct e f =
      let h = subst (All (IsCandidate region s.nodes)) e (candidates-IsCandidate s region v) in
      let g = subst (All (IsCandidate region t.nodes)) f (candidates-IsCandidate t region w) in
      let m = select score key c cs in
      let n = select score key d ds in
      let stored : get m.node.id s.nodes ≡ some m =
        (select_one score key (IsCandidate region s.nodes) c cs h.0 h.1).stored in
      let other : get n.node.id s.nodes ≡ some n =
        same_nodes n.node.id
        ∙ (select_one score key (IsCandidate region t.nodes) d ds g.0 g.1).stored in
      let there = select-Before s t region c d cs ds v w same_nodes e f in
      let back = select-Before t s region d c ds cs w v (λ id. sym (same_nodes id)) f e in
      let score_up = there.1 back.0 in
      let score_down = back.1 there.0 in
      let named =
        distinct m.node.id n.node.id m n stored other (omega (arith, score_up, score_down)) in
      some-injective m n (sym stored ∙ ap (λ id. get id s.nodes) named ∙ other)
