-- ===== src/Rules.antt =====
-- internal/sgwu/rules/store.go: the rule sets of the SGW-U's PFCP sessions, and the indexes that
-- the packet path reads. This file holds the types. `clone` copies maps, slices and the outer
-- header, which the values of the model share without harm, so that it is the identity here.
pub mod Validate
pub mod Compile
pub mod Compiled
pub mod Validated
pub mod Store
pub mod Operations
pub mod Index
pub mod Invariant
pub mod Install
pub mod Create
pub mod Change
pub mod Delete
pub mod Lookup
pub mod Outcome
pub mod Complete
pub mod Covered
pub mod Reachable
pub mod Covering
pub mod Run
mod Tests
use cups.Base.{ℕ, Bool, Option, List, Map, DecEq, ℕ_discrete}
use cups.Net.{Addr, Addr-discrete}

-- SourceInterface, a uint8.
abbrev pub source_access : ℕ
source_access = 0

abbrev pub source_core : ℕ
source_core = 1

-- A time.Duration, in nanoseconds.
pub data Duration : Type 0 where
  pos negsuc : ℕ → Duration

pub record Fteid : Type 0 where
  pub teid : ℕ
  pub ip : Addr

pub record Pdr : Type 0 where
  pub id : ℕ
  pub precedence : ℕ
  pub source_interface : ℕ
  pub local_fteid : Fteid
  pub far_id : ℕ
  pub qer_ids : List ℕ
  pub urr_ids : List ℕ

pub record Far : Type 0 where
  pub id : ℕ
  pub apply_action : ℕ
  pub destination_interface : ℕ
  pub outer_header : Option Fteid
  pub bar_id : ℕ

pub record Qer : Type 0 where
  pub id : ℕ
  pub uplink_gate_open : Bool
  pub downlink_gate_open : Bool
  pub max_uplink_bits_per_second : ℕ
  pub max_downlink_bits_per_second : ℕ
  pub qci : ℕ
  pub arp : ℕ
  pub preemption_capable : Bool
  pub preemption_vulnerable : Bool

pub record Bar : Type 0 where
  pub id : ℕ
  pub downlink_notification_delay : Duration

pub record Urr : Type 0 where
  pub id : ℕ
  pub measure_volume : Bool
  pub measure_duration : Bool
  pub reporting_threshold : ℕ

pub record Session : Type 0 where
  pub cp_seid : ℕ
  pub up_seid : ℕ
  pub revision : ℕ
  pub pdrs : Map ℕ Pdr
  pub fars : Map ℕ Far
  pub qers : Map ℕ Qer
  pub urrs : Map ℕ Urr
  pub bars : Map ℕ Bar

-- The zero values that compilePacketRule starts from.
abbrev pub no_qer : Qer
no_qer = record {
  id = 0;
  uplink_gate_open = Bool.false;
  downlink_gate_open = Bool.false;
  max_uplink_bits_per_second = 0;
  max_downlink_bits_per_second = 0;
  qci = 0;
  arp = 0;
  preemption_capable = Bool.false;
  preemption_vulnerable = Bool.false;
}

abbrev pub no_bar : Bar
no_bar = record { id = 0; downlink_notification_delay = pos 0 }

-- A pointer to a ruleGeneration is the number of its allocation; `none` is the nil pointer.
pub record PacketRule : Type 0 where
  pub up_seid : ℕ
  pub revision : ℕ
  pub pdr : Pdr
  pub far : Far
  pub qer : Qer
  pub qers : List Qer
  pub urrs : List Urr
  pub bar : Bar
  pub generation : Option ℕ

pub record TunnelKey : Type 0 where
  pub source : ℕ
  pub teid : ℕ

pub record PdrKey : Type 0 where
  pub up_seid : ℕ
  pub pdr_id : ℕ

unfoldable pub TunnelKey-discrete : Discrete TunnelKey
TunnelKey-discrete = hlevel ℕ_discrete

instance abbrev pub tunnel_key_eq : DecEq TunnelKey
tunnel_key_eq = record { decide = TunnelKey-discrete }

unfoldable pub PdrKey-discrete : Discrete PdrKey
PdrKey-discrete = hlevel ℕ_discrete

instance abbrev pub pdr_key_eq : DecEq PdrKey
pdr_key_eq = record { decide = PdrKey-discrete }

-- What reflect.DeepEqual compares in a session.
unfoldable pub Pdr-discrete : Discrete Pdr
Pdr-discrete = hlevel (ℕ_discrete, Addr-discrete)

unfoldable pub Far-discrete : Discrete Far
Far-discrete = hlevel (ℕ_discrete, Addr-discrete)

unfoldable pub Qer-discrete : Discrete Qer
Qer-discrete = hlevel ℕ_discrete

unfoldable pub Urr-discrete : Discrete Urr
Urr-discrete = hlevel ℕ_discrete

unfoldable pub Bar-discrete : Discrete Bar
Bar-discrete = hlevel ℕ_discrete
