-- ===== src/Sgwc.antt =====
-- internal/sgwc/session/store.go: the sessions and bearers of the SGW-C, and the indexes by which
-- messages find them. This file holds the types, the checks and the keys. `clone` copies a map
-- that values of the model share without harm. Texts are bytes; APNs are ASCII, as
-- strings.ToLower and EqualFold treat other letters by tables of Unicode.
pub mod Wal
pub mod Store
pub mod Operations
pub mod Reads
pub mod Invariant
pub mod Filing
pub mod Refiling
pub mod Sound
pub mod Change
pub mod Find
pub mod Found
pub mod Teids
pub mod Frame
pub mod Run
pub mod Tests
use cups.Base.{
  ℕ, zero, suc, ◌+◌, ◌-◌, ◌≡◌, Bool, true, false, not, ◌&&◌, ◌||◌, Option, none, some, List, [],
  ◌∷◌, ◌++◌, ltb, leb, ◌==◌, ◌!=◌, if◌then◌else◌, Map, DecEq, same, get, put, del, has, length, all,
  any, map, Text, text_eq, Text-discrete, nat_eq, ℕ_discrete,
}
use cups.Net.{Addr, addr_eq, Addr-discrete}

pub data State : Type 0 where
  pending active idle deleting : State

pub data BearerState : Type 0 where
  bearer_pending bearer_active bearer_idle : BearerState

pub record Fteid : Type 0 where
  pub teid : ℕ
  pub ip : Addr

pub record RuleIds : Type 0 where
  pub uplink_pdr : ℕ
  pub downlink_pdr : ℕ
  pub uplink_far : ℕ
  pub downlink_far : ℕ
  pub qer : ℕ
  pub urr : ℕ

pub record Bearer : Type 0 where
  pub ebi : ℕ
  pub qci : ℕ
  pub arp : ℕ
  pub preemption_capable : Bool
  pub preemption_vulnerable : Bool
  pub uplink_mbr : ℕ
  pub downlink_mbr : ℕ
  pub uplink_gbr : ℕ
  pub downlink_gbr : ℕ
  pub is_default : Bool
  pub state : BearerState
  pub enb_user : Fteid
  pub sgwu_access : Fteid
  pub sgwu_core : Fteid
  pub pgw_user : Fteid
  pub rules : RuleIds

-- Times are nanoseconds, and 0 is the zero time.Time.
pub record Session : Type 0 where
  pub id : ℕ
  pub revision : ℕ
  pub subscriber_key : Text
  pub apn : Text
  pub state : State
  pub mme_control : Fteid
  pub s11_control : Fteid
  pub s5_control : Fteid
  pub pgw_control : Fteid
  pub pfcp_control_seid : ℕ
  pub pfcp_user_seid : ℕ
  pub bearers : Map ℕ Bearer
  pub created_at : ℕ
  pub updated_at : ℕ

pub Fteid-discrete : Discrete Fteid
Fteid-discrete = hlevel (ℕ_discrete, Addr-discrete)

instance abbrev pub fteid_eq : DecEq Fteid
fteid_eq = record { decide = Fteid-discrete }

pub BearerState-discrete : Discrete BearerState
BearerState-discrete = hlevel

pub Bearer-discrete : Discrete Bearer
Bearer-discrete = hlevel (ℕ_discrete, Fteid-discrete, BearerState-discrete)

-- What reflect.DeepEqual and the comparison of encodings look at. The bearers are compared in the
-- order of their list: the code compares values that are copies of one another.
pub Session-discrete : Discrete Session
Session-discrete = hlevel (ℕ_discrete, Text-discrete, Fteid-discrete, Bearer-discrete)

instance abbrev pub session_eq : DecEq Session
session_eq = record { decide = Session-discrete }

abbrev pub lower_byte : ℕ → ℕ
lower_byte b = if leb 65 b && leb b 90 then b + 32 else b

abbrev pub lower : Text → Text
lower t = map lower_byte t

-- strings.EqualFold.
abbrev pub equal_fold : Text → Text → Bool
equal_fold a b = same (lower a) (lower b)

abbrev pub owner_key : Text → Text → Text
owner_key subscriber apn = subscriber ++ 0 ∷ lower apn

pub record BearerOwner : Type 0 where
  pub subscriber : Text
  pub ebi : ℕ

pub BearerOwner-discrete : Discrete BearerOwner
BearerOwner-discrete = hlevel (ℕ_discrete, Text-discrete)

instance abbrev pub bearer_owner_eq : DecEq BearerOwner
bearer_owner_eq = record { decide = BearerOwner-discrete }

abbrev pub bearer_owner_key : Text → ℕ → BearerOwner
bearer_owner_key subscriber ebi = record { subscriber = subscriber; ebi = ebi }

-- strings.ContainsAny(apn, " \t\r\n").
abbrev pub is_space : ℕ → Bool
is_space b = b == 32 || b == 9 || b == 13 || b == 10

abbrev pub bearer_ok : ℕ × Bearer → Bool
bearer_ok (key, b) = not (key != b.ebi || ltb b.ebi 5 || ltb 15 b.ebi || b.qci == 0)

abbrev pub count_defaults : Map ℕ Bearer → ℕ
count_defaults [] = 0
count_defaults ((key, b) ∷ bs) = (if b.is_default then 1 else 0) + count_defaults bs

-- Whether validate accepts the session; its errors are one, ErrInvalidSession.
unfoldable pub validate : Session → Bool
validate c =
    not (
      length c.subscriber_key == 0
      || length c.apn == 0
      || c.s11_control.teid == 0
      || c.s5_control.teid == 0
      || c.pfcp_control_seid == 0
      || c.pfcp_user_seid == 0)
    && not (ltb 100 (length c.apn) || any is_space c.apn)
    && all bearer_ok c.bearers
    && count_defaults c.bearers == 1

-- validateWALSession of internal/sgwc/session/wal.go.
unfoldable pub validate_wal_session : Session → Bool
unfolding validate
validate_wal_session c =
    not (c.id == 0 || c.revision == 0 || c.created_at == 0 || c.updated_at == 0)
    && not (ltb c.updated_at c.created_at)
    && validate c

abbrev pub same_s11_owner : Session → Session → Bool
same_s11_owner l r =
    same l.subscriber_key r.subscriber_key
    && same l.mme_control r.mme_control
    && same l.s11_control r.s11_control

abbrev pub bearers_overlap : Session → Session → Bool
bearers_overlap l r = any (λ (b : ℕ × Bearer). has b.0 r.bearers) l.bearers
