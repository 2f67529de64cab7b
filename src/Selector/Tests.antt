-- ===== src/Selector/Tests.antt =====
-- internal/userplane/selector.go at concrete nodes.
use cups.Base.{
  ℕ, ◌≡◌, refl, sym, ap, ◌∙◌, subst, if_neg, ◌⊎◌, inl, inr, true, false, some, none, List, [], ◌∷◌,
  Text, Text-discrete, ℕ_discrete, text_eq, nat_eq, some-injective, get, put, All, length, arith,
}
use cups.Selector.{
  Selector, Node, NodeState, Request, Assignment, ready, draining, State-discrete, Result, ok, new,
  add_nodes, no_stats, assign, assignment, select, prefer, candidates, eligible, has_room,
  valid_label, validate_node, validate_key, validate_request,
}
use cups.Selector.Invariant.{IsValid}
use cups.Selector.Assign.{Placed, HasRoom, IsLeast, assign_within, assign-IsLeast}
use cups.Selector.Steps.{
  Call, assigns, restores, releases, sets_state, sets_capacity, removes, serve_all,
  serve_all-IsValid, assign-IsValid, new-IsValid,
}
use cups.Selector.Order.{select_any_order}
use cups.Selector.Sticky.{Spares, assign_again}

-- edge: 'a' and 'b', in the regions 'w' and 'e'.
abbrev a : Node
a = record { id = 97 ∷ []; region = 119 ∷ []; capacity = 2; state = ready; generation = 0 }

abbrev b : Node
b = record { id = 98 ∷ []; region = 101 ∷ []; capacity = 10; state = ready; generation = 0 }

abbrev fresh : Selector
fresh = record {
  nodes = (97 ∷ [], record { node = a; used = 0 }) ∷ (98 ∷ [], record { node = b; used = 0 }) ∷ [];
  assignments = [];
  max_assignments = 100;
  stats = no_stats;
}

new_test : new (a ∷ b ∷ []) 100 ≡ some fresh
unfolding new validate_node valid_label put get Text-discrete add_nodes ℕ_discrete
new_test = refl

fresh-IsValid : IsValid fresh
fresh-IsValid = new-IsValid (a ∷ b ∷ []) 100 fresh new_test

abbrev score : Text → Text → ℕ
score key id = length id

abbrev request : Request
request = record { key = 107 ∷ []; preferred_region = 101 ∷ []; allow_region_fallback = false }

abbrev other : Request
other = record { key = 108 ∷ []; preferred_region = []; allow_region_fallback = false }

valid_test : validate_request request ≡ true
unfolding validate_request validate_key valid_label
valid_test = refl

assign-IsLeast_example :
    (t : Selector) × (n : NodeState) × (assign score fresh request
      ≡ some (t, ok (assignment (107 ∷ []) n.node)))
    × (get n.node.id fresh.nodes ≡ some n)
    × (eligible (101 ∷ []) n ≡ true)
    × (has_room n ≡ true)
    × IsLeast (101 ∷ []) fresh n
unfolding get Text-discrete ℕ_discrete State-discrete
assign-IsLeast_example =
    assign-IsLeast score fresh request (98 ∷ []) (record { node = b; used = 0 }) fresh-IsValid
      valid_test refl (omega arith) refl refl refl

abbrev first : Selector
first = record fresh {
  nodes = (97 ∷ [], record { node = a; used = 0 }) ∷ (98 ∷ [], record { node = b; used = 1 }) ∷ [];
  assignments = (107 ∷ [], 98 ∷ []) ∷ [];
  stats = record no_stats { placement_attempts = 1; placement_accepted = 1 };
}

assign_test : assign score fresh request ≡ some (first, ok (assignment (107 ∷ []) b))
unfolding assign validate_request validate_key valid_label candidates select prefer get put
    Text-discrete State-discrete ℕ_discrete
assign_test = refl

free_test : get (107 ∷ []) fresh.assignments ≡ none
unfolding get
free_test = refl

assign_within_example :
    Placed fresh (107 ∷ []) (HasRoom score) (first, ok (assignment (107 ∷ []) b))
assign_within_example =
    assign_within score fresh first request (assignment (107 ∷ []) b) fresh-IsValid free_test
      assign_test

first-IsValid : IsValid first
first-IsValid =
    let (p, e, v) = assign-IsValid score fresh request fresh-IsValid in
    subst IsValid
      (ap (λ (o : Selector × Result Assignment). o.0)
        (some-injective p (first, ok (assignment (107 ∷ []) b)) (sym e ∙ assign_test)))
      v

held_test : get (107 ∷ []) first.assignments ≡ some (98 ∷ [])
unfolding get Text-discrete ℕ_discrete
held_test = refl

abbrev calls : List Call
calls =
    assigns other
    ∷ sets_state (98 ∷ []) draining
    ∷ sets_capacity (98 ∷ []) 1
    ∷ restores (109 ∷ []) (97 ∷ [])
    ∷ releases (108 ∷ []) (97 ∷ [])
    ∷ removes (97 ∷ [])
    ∷ []

serve_all-IsValid_example : (t : Selector) × (serve_all score calls fresh ≡ some t) × IsValid t
serve_all-IsValid_example = serve_all-IsValid score calls fresh fresh-IsValid

abbrev head : Text → ℕ
head [] = 0
head (c ∷ cs) = c

calls-Spares : All (Spares score (107 ∷ [])) calls
calls-Spares = (tt, (tt, (tt, (tt, ((λ e. omega (arith, ap head e)), (tt, tt))))))

assign_again_example :
    (t : Selector) × (n : NodeState) × (u : Selector) × (serve_all score calls first ≡ some t)
    × (get (98 ∷ []) t.nodes ≡ some n)
    × (n.node.id ≡ 98 ∷ [])
    × (assign score t request ≡ some (u, ok (assignment (107 ∷ []) n.node)))
    × (u.nodes ≡ t.nodes)
    × (u.assignments ≡ t.assignments)
assign_again_example =
    assign_again score calls request (98 ∷ []) first first-IsValid valid_test held_test calls-Spares

abbrev swapped : Selector
swapped = record fresh {
  nodes = (98 ∷ [], record { node = b; used = 0 }) ∷ (97 ∷ [], record { node = a; used = 0 }) ∷ [];
}

swapped_test : new (b ∷ a ∷ []) 100 ≡ some swapped
unfolding new validate_node valid_label put get Text-discrete add_nodes ℕ_discrete
swapped_test = refl

swapped-get : (id : Text) → get id fresh.nodes ≡ get id swapped.nodes
unfolding get Text-discrete ℕ_discrete
swapped-get id = elim (text_eq.decide (97 ∷ []) id) [
  | yes p ↦ subst (λ id. get id fresh.nodes ≡ get id swapped.nodes) p refl
  | no ne ↦ elim (text_eq.decide (98 ∷ []) id) [
    | yes p ↦ subst (λ id. get id fresh.nodes ≡ get id swapped.nodes) p refl
    | no two ↦ rw (if_neg _ ne, if_neg _ two, if_neg _ two, if_neg _ ne) refl
  ]
]

known_id :
    (id : Text) (n : NodeState) → get id fresh.nodes ≡ some n → (97 ∷ [] ≡ id) ⊎ (98 ∷ [] ≡ id)
unfolding get
known_id id n e = elim (text_eq.decide (97 ∷ []) id) [
  | yes p ↦ inl p
  | no ne ↦ elim (text_eq.decide (98 ∷ []) id) [
    | yes p ↦ inr p
    | no two ↦ cc (rw (if_neg _ ne, if_neg _ two) at e)
  ]
]

abbrev by_name : Text → Text → ℕ
by_name key id = head id

distinct_test :
    (i j : Text) (x y : NodeState)
    → get i fresh.nodes ≡ some x
    → get j fresh.nodes ≡ some y
    → by_name [] i ≡ by_name [] j
    → i ≡ j
distinct_test i j x y e f h = elim (known_id i x e) [
  | inl p ↦ elim (known_id j y f) [
    | inl q ↦ sym p ∙ q
    | inr q ↦ absurd (omega (arith, ap head p, ap head q, h))
  ]
  | inr p ↦ elim (known_id j y f) [
    | inl q ↦ absurd (omega (arith, ap head p, ap head q, h))
    | inr q ↦ sym p ∙ q
  ]
]

select_any_order_example :
    select by_name [] (record { node = a; used = 0 }) (record { node = b; used = 0 } ∷ [])
    ≡ select by_name [] (record { node = b; used = 0 }) (record { node = a; used = 0 } ∷ [])
unfolding candidates State-discrete
select_any_order_example =
    select_any_order by_name [] fresh swapped [] (record { node = a; used = 0 })
      (record { node = b; used = 0 }) (record { node = b; used = 0 } ∷ [])
      (record { node = a; used = 0 } ∷ []) fresh-IsValid
      (new-IsValid (b ∷ a ∷ []) 100 swapped swapped_test) swapped-get distinct_test refl refl
