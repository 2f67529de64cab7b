-- ===== src/Association.antt =====
-- internal/pfcp/association/manager.go: the grace state machine of a PFCP association. The mutex
-- makes each method one step, so a method is a function from the manager to the new manager and
-- its result. `now` is the clock's reading, an argument of each method that reads it; times are
-- nanoseconds and 0 is the zero time.Time; durations stay below the 292 years at which Sub clips.
pub mod Invariant
pub mod Lifecycle
mod Tests
use cups.Base.{
  ℕ, zero, suc, ◌+◌, ◌-◌, ◌*◌, Bool, true, false, not, ◌&&◌, ◌||◌, Option, none, some, List, [],
  ◌∷◌, ltb, leb, ◌==◌, ◌!=◌, if◌then◌else◌, Map, get, put, del, has, map_values, sort, map,
}
use cups.Net.{Addr, unmap, is_valid, less, addr_eq}

pub data State : Type 0 where
  unavailable associated grace reconciling : State

-- The test `s == t` on states.
abbrev pub state_eq : State → State → Bool
state_eq unavailable unavailable = true
state_eq associated associated = true
state_eq grace grace = true
state_eq reconciling reconciling = true
state_eq _ _ = false

-- A time.Duration, which may be negative.
pub data Duration : Type 0 where
  pos negsuc : ℕ → Duration

-- A nanosecond is the unit.
abbrev pub second : ℕ
second = 1_000_000_000

abbrev pub default_timeout : ℕ
default_timeout = 15 * second

abbrev pub default_grace_window : ℕ
default_grace_window = 120 * second

pub record Config : Type 0 where
  pub timeout : Duration
  pub grace_window : Duration

pub record Record : Type 0 where
  pub peer : Addr
  pub node_address : Addr
  pub node_fqdn : List ℕ
  pub recovery_time : ℕ
  pub state : State
  pub established_at : ℕ
  pub last_seen : ℕ
  pub grace_started : ℕ
  pub grace_deadline : ℕ

pub record SetupResult : Type 0 where
  pub accepted : Record
  pub recovery_changed : Bool
  pub reconcile : Bool

pub record Transition : Type 0 where
  pub peer : Addr
  pub from : State
  pub to : State

pub record Manager : Type 0 where
  pub records : Map Addr Record
  pub timeout : ℕ
  pub grace_window : ℕ

-- A zero duration takes the default, a negative one is an error.
abbrev or_default : Duration → ℕ → Option ℕ
or_default (pos zero) d = some d
or_default (pos (suc n)) d = some (suc n)
or_default (negsuc n) d = none

abbrev both : Option ℕ → Option ℕ → Option Manager
both (some t) (some g) = some (record { records = []; timeout = t; grace_window = g })
both (some t) none = none
both none _ = none

pub new : Config → Option Manager
new config =
    both (or_default config.timeout default_timeout)
      (or_default config.grace_window default_grace_window)

-- The record that a Setup stores when the peer had `previous`, or none.
setup_record : ℕ → ℕ → Addr → Addr → List ℕ → ℕ → Option Record → SetupResult
setup_record window now peer node fqdn recovery none = record {
  accepted = record {
    peer = peer;
    node_address = node;
    node_fqdn = fqdn;
    recovery_time = recovery;
    state = associated;
    established_at = now;
    last_seen = now;
    grace_started = 0;
    grace_deadline = 0;
  };
  recovery_changed = false;
  reconcile = false;
}
setup_record window now peer node fqdn recovery (some previous) =
    let changed = previous.recovery_time != recovery in
    let reconcile =
      state_eq previous.state grace
      || state_eq previous.state reconciling
      || state_eq previous.state unavailable
      || changed in
    let fresh = previous.grace_started == 0 in
    record {
      accepted = record {
        peer = peer;
        node_address = node;
        node_fqdn = fqdn;
        recovery_time = recovery;
        state = if reconcile then reconciling else associated;
        established_at = if previous.established_at == 0 then now else previous.established_at;
        last_seen = now;
        grace_started = if reconcile then (if fresh then now else previous.grace_started) else 0;
        grace_deadline =
            if reconcile then (if fresh then now + window else previous.grace_deadline) else 0;
      };
      recovery_changed = changed;
      reconcile = reconcile;
    }

pub setup : Manager → ℕ → Addr → Addr → List ℕ → ℕ → Manager × SetupResult
unfolding setup_record
setup m now peer node fqdn recovery =
    let p = unmap peer in
    let r = setup_record m.grace_window now p (unmap node) fqdn recovery (get p m.records) in
    (record m { records = put p r.accepted m.records }, r)

-- Rewrites the record of a peer, if it has one.
abbrev adjust : (Record → Record) → Addr → Option Record → Manager → Manager
adjust f p none m = m
adjust f p (some r) m = record m { records = put p (f r) m.records }

pub touch : Manager → ℕ → Addr → Manager
touch m now peer =
    let p = unmap peer in adjust (λ r. record r { last_seen = now }) p (get p m.records) m

-- What one visit of Sweep's loop does to a record.
pub sweep_record : ℕ → ℕ → ℕ → Record → Record
sweep_record timeout window now r = elim r.state [
  | associated ↦
      if ltb 0 timeout && r.last_seen != 0 && leb timeout (now - r.last_seen)
      then record r { state = grace; grace_started = now; grace_deadline = now + window }
      else r
  | grace ↦
      if r.grace_deadline != 0 && leb r.grace_deadline now
      then record r { state = unavailable; grace_started = 0; grace_deadline = 0 }
      else r
  | reconciling ↦
      if r.grace_deadline != 0 && leb r.grace_deadline now
      then record r { state = unavailable; grace_started = 0; grace_deadline = 0 }
      else r
  | unavailable ↦ r
]

-- The visits that append a transition are those that change the state.
pub transitions : ℕ → ℕ → ℕ → Map Addr Record → List Transition
unfolding sweep_record
transitions timeout window now [] = []
transitions timeout window now ((p, r) ∷ m) =
    let to = (sweep_record timeout window now r).state in
    let rest = transitions timeout window now m in
    if state_eq r.state to then rest else record { peer = p; from = r.state; to = to } ∷ rest

pub sweep : Manager → ℕ → Manager × List Transition
sweep m now = (
  record m { records = map_values (sweep_record m.timeout m.grace_window now) m.records },
  sort (λ a b. less a.peer b.peer) (transitions m.timeout m.grace_window now m.records),
)

abbrev complete_found : Manager → ℕ → Addr → Option Record → Manager × Bool
complete_found m now p none = (m, false)
complete_found m now p (some r) =
    if state_eq r.state reconciling
    then (
      record m {
        records =
            put p
              (record r {
                state = associated;
                last_seen = now;
                grace_started = 0;
                grace_deadline = 0;
              })
              m.records;
      },
      true,
    )
    else (m, false)

pub complete : Manager → ℕ → Addr → Manager × Bool
complete m now peer = let p = unmap peer in complete_found m now p (get p m.records)

pub restore_unavailable : Manager → Addr → Manager
restore_unavailable m peer =
    let p = unmap peer in
    if not (is_valid p) || has p m.records then m else record m {
      records =
          put p
            (record {
              peer = p;
              node_address = Addr.invalid;
              node_fqdn = [];
              recovery_time = 0;
              state = unavailable;
              established_at = 0;
              last_seen = 0;
              grace_started = 0;
              grace_deadline = 0;
            })
            m.records;
    }

pub release : Manager → Addr → Manager × Bool
release m peer =
    let p = unmap peer in
    if has p m.records then (record m { records = del p m.records }, true) else (m, false)

abbrev state_or : Option Record → State
state_or none = unavailable
state_or (some r) = r.state

pub state_of : Manager → Addr → State
state_of m peer = state_or (get (unmap peer) m.records)

pub can_create : Manager → Addr → Bool
unfolding state_of
can_create m peer = state_eq (state_of m peer) associated

pub can_mutate : Manager → Addr → Bool
unfolding state_of
can_mutate m peer = state_eq (state_of m peer) associated || state_eq (state_of m peer) reconciling

pub snapshot : Manager → List Record
snapshot m = sort (λ a b. less a.peer b.peer) (map (λ e. e.1) m.records)

abbrev remaining : ℕ → Option Record → ℕ
remaining now none = 0
remaining now (some r) =
    if not (state_eq r.state grace || state_eq r.state reconciling) || r.grace_deadline == 0
    then 0
    else r.grace_deadline - now

pub grace_remaining : Manager → ℕ → Addr → ℕ
grace_remaining m now peer = remaining now (get (unmap peer) m.records)

-- The calls of the services, each with the clock's reading.
pub data Call : Type 0 where
  sets_up : Addr → Addr → List ℕ → ℕ → Call
  touches completes restores releases : Addr → Call
  sweeps : Call

pub step : Manager → ℕ × Call → Manager
step m (now, sets_up peer node fqdn recovery) = (setup m now peer node fqdn recovery).0
step m (now, touches peer) = touch m now peer
step m (now, completes peer) = (complete m now peer).0
step m (now, restores peer) = restore_unavailable m peer
step m (now, releases peer) = (release m peer).0
step m (now, sweeps) = (sweep m now).0

pub run : Manager → List (ℕ × Call) → Manager
unfolding step
run m [] = m
run m (c ∷ cs) = run (step m c) cs
