-- ===== src/Selector.antt =====
-- internal/userplane/selector.go: the placement of sessions on user-plane nodes. The mutex makes a
-- method one step. The rendezvous score, eight bytes of a SHA-256 digest, is a parameter. A pointer
-- to a node's state is the node's ID. An outer `none` is a panic, where the code follows an
-- assignment to a node that is not there. Keys are ASCII, as strings.TrimSpace treats other
-- letters by tables of Unicode.
pub mod Invariant
pub mod Steps
pub mod Placement
pub mod Assign
pub mod Sticky
pub mod Order
mod Tests
use cups.Base.{
  ℕ, zero, suc, ◌+◌, ◌-◌, ◌*◌, ◌%◌, ◌^◌, Bool, true, false, not, ◌&&◌, ◌||◌, Option, none, some,
  List, [], ◌∷◌, ltb, leb, ◌==◌, ◌!=◌, if◌then◌else◌, Map, get, put, del, has, same, length, all,
  any, sort, map, reverse, Text, text_eq, mul64, add64, ◌>>=◌, DecEq,
}

pub data State : Type 0 where
  ready draining unavailable : State

pub State-discrete : Discrete State
State-discrete = hlevel

instance abbrev pub state_eq : DecEq State
state_eq = record { decide = State-discrete }

pub record Node : Type 0 where
  pub id : Text
  pub region : Text
  pub capacity : ℕ
  pub state : State
  pub generation : ℕ

pub record Request : Type 0 where
  pub key : Text
  pub preferred_region : Text
  pub allow_region_fallback : Bool

pub record Assignment : Type 0 where
  pub key : Text
  pub node_id : Text
  pub region : Text
  pub generation : ℕ

pub record Stats : Type 0 where
  pub placement_attempts : ℕ
  pub placement_accepted : ℕ
  pub sticky_hits : ℕ
  pub region_fallbacks : ℕ
  pub no_eligible_rejects : ℕ
  pub capacity_rejects : ℕ
  pub restored : ℕ
  pub released : ℕ

pub record NodeState : Type 0 where
  pub node : Node
  pub used : ℕ

pub record Selector : Type 0 where
  pub nodes : Map Text NodeState
  pub assignments : Map Text Text
  pub max_assignments : ℕ
  pub stats : Stats

pub data Error : Type 0 where
  invalid no_eligible_node capacity_exhausted unknown_node unknown_assignment assignment_mismatch
        node_in_use accounting :
      Error

pub data Result (A : Type 0) : Type 0 where
  ok : A → Result A
  err : Error → Result A

abbrev pub max_node_capacity : ℕ
max_node_capacity = 100_000_000

-- The bytes of a lowercase DNS label: 97 is 'a', 48 is '0' and 45 is '-'.
abbrev pub is_label_byte : ℕ → Bool
is_label_byte c = leb 97 c && leb c 122 || leb 48 c && leb c 57 || c == 45

abbrev pub starts_with_dash : Text → Bool
starts_with_dash [] = false
starts_with_dash (c ∷ cs) = c == 45

unfoldable pub valid_label : Text → Bool
valid_label value =
    not (
      length value == 0
      || ltb 63 (length value)
      || starts_with_dash value
      || starts_with_dash (reverse value))
    && all is_label_byte value

unfoldable pub validate_node : Node → Bool
unfolding valid_label
validate_node n =
    valid_label n.id
    && valid_label n.region
    && not (n.capacity == 0 || ltb max_node_capacity n.capacity)

abbrev pub is_space : ℕ → Bool
is_space c = c == 32 || leb 9 c && leb c 13

abbrev pub starts_with_space : Text → Bool
starts_with_space [] = false
starts_with_space (c ∷ cs) = is_space c

unfoldable pub validate_key : Text → Bool
validate_key key = not (
    starts_with_space key
    || starts_with_space (reverse key)
    || length key == 0
    || ltb 256 (length key))

unfoldable pub validate_request : Request → Bool
unfolding validate_key valid_label
validate_request r =
    validate_key r.key && (length r.preferred_region == 0 || valid_label r.preferred_region)

abbrev pub no_stats : Stats
no_stats = record {
  placement_attempts = 0;
  placement_accepted = 0;
  sticky_hits = 0;
  region_fallbacks = 0;
  no_eligible_rejects = 0;
  capacity_rejects = 0;
  restored = 0;
  released = 0;
}

-- The loop of New; `none` is its error.
unfoldable pub add_nodes : List Node → Map Text NodeState → Option (Map Text NodeState)
add_nodes [] m = some m
add_nodes (n ∷ ns) m =
    let rest = add_nodes ns (put n.id (record { node = n; used = 0 }) m) in
    if not (validate_node n) || has n.id m then none else rest

unfoldable pub new : List Node → ℕ → Option Selector
new nodes max_assignments =
    let built = add_nodes nodes [] in
    if length nodes == 0 || ltb 256 (length nodes)
    then none
    else if max_assignments == 0 || ltb (max_node_capacity * 256) max_assignments
    then none
    else built >>= λ m. some (record {
      nodes = m;
      assignments = [];
      max_assignments = max_assignments;
      stats = no_stats;
    })

abbrev pub assignment : Text → Node → Assignment
assignment key n = record {
  key = key;
  node_id = n.id;
  region = n.region;
  generation = n.generation;
}

abbrev pub eligible : Text → NodeState → Bool
eligible region n = same n.node.state ready && (length region == 0 || same n.node.region region)

abbrev pub has_room : NodeState → Bool
has_room n = not (leb n.node.capacity n.used)

-- The nodes that candidates returns, in the order of the traversal.
unfoldable pub candidates : Text → Map Text NodeState → List NodeState
candidates region [] = []
candidates region ((id, n) ∷ m) =
    let rest = candidates region m in if eligible region n && has_room n then n ∷ rest else rest

abbrev pub ready_any : Text → Map Text NodeState → Bool
ready_any region m = any (λ (e : Text × NodeState). eligible region e.1) m

abbrev pub ready_with_capacity : Text → Map Text NodeState → Bool
ready_with_capacity region m = any (λ (e : Text × NodeState). eligible region e.1 && has_room e.1) m

module _ (score : Text → Text → ℕ) where
  unfoldable pub prefer : Text → NodeState → NodeState → Bool
  prefer key candidate current =
      let left = mul64 candidate.used current.node.capacity in
      let right = mul64 current.used candidate.node.capacity in
      if left != right
      then ltb left right
      else ltb (score key current.node.id) (score key candidate.node.id)

  -- The loop over the candidates.
  unfoldable pub select : Text → NodeState → List NodeState → NodeState
  unfolding prefer
  select key selected [] = selected
  select key selected (c ∷ cs) = select key (if prefer key c selected then c else selected) cs

  abbrev pub place : Selector → Text → NodeState → Selector
  place s key n = record s {
    nodes = put n.node.id (record n { used = add64 n.used 1 }) s.nodes;
    assignments = put key n.node.id s.assignments;
    stats = record (s.stats) { placement_accepted = add64 s.stats.placement_accepted 1 };
  }

  abbrev pub count_reject : Bool → Selector → Selector × Result Assignment
  count_reject true s = (
    record s { stats = record (s.stats) { capacity_rejects = add64 s.stats.capacity_rejects 1 } },
    err capacity_exhausted,
  )
  count_reject false s = (
    record s {
      stats = record (s.stats) { no_eligible_rejects = add64 s.stats.no_eligible_rejects 1 };
    },
    err no_eligible_node,
  )

  -- The choice among the candidates of a region; `full` is whether the nodes that are ready there
  -- are all full.
  abbrev pub choose : Selector → Text → Bool → List NodeState → Selector × Result Assignment
  choose s key full [] = count_reject full s
  choose s key full (c ∷ cs) =
      let n = select key c cs in (place s key n, ok (assignment key n.node))

  abbrev pub full_at : Selector → Text → Bool
  full_at s region = ready_any region s.nodes && not (ready_with_capacity region s.nodes)

  abbrev pub fall_back : Selector → Text → Bool → List NodeState → Selector × Result Assignment
  fall_back s key full [] = count_reject full s
  fall_back s key full (c ∷ cs) =
      choose
        (record s {
          stats = record (s.stats) { region_fallbacks = add64 s.stats.region_fallbacks 1 };
        })
        key full (c ∷ cs)

  abbrev pub assign_new : Selector → Request → List NodeState → Selector × Result Assignment
  assign_new s r (c ∷ cs) = choose s r.key false (c ∷ cs)
  assign_new s r [] =
      if length r.preferred_region != 0 && r.allow_region_fallback
      then fall_back s r.key (full_at s []) (candidates [] s.nodes)
      else count_reject (full_at s r.preferred_region) s

  abbrev pub sticky : Selector → Text → Option NodeState → Option (Selector × Result Assignment)
  sticky s key none = none
  sticky s key (some n) = some (
    record s { stats = record (s.stats) { sticky_hits = add64 s.stats.sticky_hits 1 } },
    ok (assignment key n.node),
  )

  abbrev pub assign_to : Selector → Request → Option Text → Option (Selector × Result Assignment)
  assign_to s r (some node_id) = sticky s r.key (get node_id s.nodes)
  assign_to s r none =
      if leb s.max_assignments (length s.assignments)
      then some (count_reject true s)
      else some (assign_new s r (candidates r.preferred_region s.nodes))

  unfoldable pub assign : Selector → Request → Option (Selector × Result Assignment)
  assign s r =
      let t = record s {
        stats = record (s.stats) { placement_attempts = add64 s.stats.placement_attempts 1 };
      } in
      if not (validate_request r)
      then some (s, err invalid)
      else assign_to t r (get r.key s.assignments)

abbrev pub restore_new : Selector → Text → Text → NodeState → Selector × Result Assignment
restore_new s key node_id n =
    let t = record s {
      nodes = put node_id (record n { used = add64 n.used 1 }) s.nodes;
      assignments = put key node_id s.assignments;
      stats = record (s.stats) { restored = add64 s.stats.restored 1 };
    } in
    if leb s.max_assignments (length s.assignments)
    then (s, err capacity_exhausted)
    else (t, ok (assignment key n.node))

abbrev pub restore_at :
    Selector → Text → Text → Option NodeState → Option Text → Selector × Result Assignment
restore_at s key node_id none current = (s, err unknown_node)
restore_at s key node_id (some n) none = restore_new s key node_id n
restore_at s key node_id (some n) (some current) =
    if not (same current node_id)
    then (s, err assignment_mismatch)
    else (s, ok (assignment key n.node))

unfoldable pub restore : Selector → Text → Text → Selector × Result Assignment
restore s key node_id =
    if not (validate_key key)
    then (s, err invalid)
    else restore_at s key node_id (get node_id s.nodes) (get key s.assignments)

abbrev pub release_at : Selector → Text → Text → Option NodeState → Selector × Option Error
release_at s key node_id none = (s, some accounting)
release_at s key node_id (some n) =
    let t = record s {
      nodes = put node_id (record n { used = n.used - 1 }) s.nodes;
      assignments = del key s.assignments;
      stats = record (s.stats) { released = add64 s.stats.released 1 };
    } in
    if n.used == 0 then (s, some accounting) else (t, none)

abbrev pub release_of : Selector → Text → Text → Option Text → Selector × Option Error
release_of s key node_id none = (s, some unknown_assignment)
release_of s key node_id (some current) =
    if not (same current node_id)
    then (s, some assignment_mismatch)
    else release_at s key current (get current s.nodes)

-- Release, with its error.
unfoldable pub release : Selector → Text → Text → Selector × Option Error
release s key node_id =
    if not (validate_key key)
    then (s, some invalid)
    else release_of s key node_id (get key s.assignments)

-- A change of one node, which counts as a generation if it is one.
abbrev pub renew : Selector → Text → NodeState → Bool → Node → Selector
renew s node_id n changed next =
    if changed
    then record s {
      nodes =
          put node_id (record n { node = record next { generation = add64 n.node.generation 1 } })
            s.nodes;
    }
    else s

abbrev pub set_state_at : Selector → Text → State → Option NodeState → Selector × Option Error
set_state_at s node_id state none = (s, some unknown_node)
set_state_at s node_id state (some n) =
    (renew s node_id n (not (same n.node.state state)) (record (n.node) { state = state }), none)

-- SetState; every State of the model is a valid one.
unfoldable pub set_state : Selector → Text → State → Selector × Option Error
set_state s node_id state = set_state_at s node_id state (get node_id s.nodes)

abbrev pub set_capacity_at : Selector → Text → ℕ → Option NodeState → Selector × Option Error
set_capacity_at s node_id capacity none = (s, some unknown_node)
set_capacity_at s node_id capacity (some n) = (
  renew s node_id n (n.node.capacity != capacity) (record (n.node) { capacity = capacity }),
  none,
)

unfoldable pub set_capacity : Selector → Text → ℕ → Selector × Option Error
set_capacity s node_id capacity =
    if capacity == 0 || ltb max_node_capacity capacity
    then (s, some invalid)
    else set_capacity_at s node_id capacity (get node_id s.nodes)

abbrev pub remove_node_at : Selector → Text → Option NodeState → Selector × Option Error
remove_node_at s node_id none = (s, some unknown_node)
remove_node_at s node_id (some n) =
    if n.used != 0 then (s, some node_in_use) else (record s { nodes = del node_id s.nodes }, none)

unfoldable pub remove_node : Selector → Text → Selector × Option Error
remove_node s node_id = remove_node_at s node_id (get node_id s.nodes)

pub record NodeSnapshot : Type 0 where
  pub id : Text
  pub region : Text
  pub state : State
  pub capacity : ℕ
  pub assignments : ℕ
  pub available : ℕ
  pub over_capacity : Bool
  pub generation : ℕ

unfoldable pub node_snapshot : NodeState → NodeSnapshot
node_snapshot n = record {
  id = n.node.id;
  region = n.node.region;
  state = n.node.state;
  capacity = n.node.capacity;
  assignments = n.used;
  available = if ltb n.used n.node.capacity then n.node.capacity - n.used else 0;
  over_capacity = ltb n.node.capacity n.used;
  generation = n.node.generation;
}

-- The order of Go strings.
abbrev pub text_less : Text → Text → Bool
text_less xs [] = false
text_less [] (y ∷ ys) = true
text_less (x ∷ xs) (y ∷ ys) = ltb x y || x == y && text_less xs ys

-- Snapshot; the number is the field Assignments of the Stats that the code returns.
unfoldable pub snapshot : Selector → List NodeSnapshot × ℕ × Stats
unfolding node_snapshot
snapshot s = (
  sort (λ x y. text_less x.id y.id) (map (λ (e : Text × NodeState). node_snapshot e.1) s.nodes),
  length s.assignments,
  s.stats,
)
