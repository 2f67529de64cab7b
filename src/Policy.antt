-- ===== src/Policy.antt =====
-- internal/sgwu/dataplane/policy.go: the gates, the token buckets and the usage meters of the
-- SGW-U's packet path. A shard is chosen by the SEID of a key, so that the 256 maps are one map. A
-- call holds the shard's mutex and is one step; whether the rule's generation is still active at
-- the test under the mutex is an argument. Times are nanoseconds, and 0 is the zero time.Time.
pub mod Rate
pub mod Bucket
pub mod Limit
pub mod Charges
pub mod Payments
pub mod Verdict
pub mod Usage
pub mod Meter
pub mod Thresholds
mod Tests
use cups.Base.{
  ℕ, zero, suc, ◌+◌, ◌-◌, ◌*◌, ◌/◌, ◌%◌, ◌^◌, Bool, true, false, not, ◌&&◌, ◌||◌, Option, none,
  some, List, [], ◌∷◌, ltb, leb, ◌==◌, ◌!=◌, if◌then◌else◌, Map, DecEq, get, put, del, has, length,
  any, max, sort, map, nat_eq, ℕ_discrete, add64, sub64, mul64, max_uint64,
}
use cups.Rules.{Qer, Urr, PacketRule, Session, source_access, source_core}

pub data Decision : Type 0 where
  allow gate_closed rate_exceeded rule_inactive : Decision

pub record RateKey : Type 0 where
  pub up_seid : ℕ
  pub qer_id : ℕ
  pub source : ℕ

unfoldable pub RateKey-discrete : Discrete RateKey
RateKey-discrete = hlevel ℕ_discrete

instance abbrev pub rate_key_eq : DecEq RateKey
rate_key_eq = record { decide = RateKey-discrete }

pub record TokenBucket : Type 0 where
  pub rate : ℕ
  pub capacity : ℕ
  pub tokens : ℕ
  pub last : ℕ

pub record UsageKey : Type 0 where
  pub up_seid : ℕ
  pub urr_id : ℕ

unfoldable pub UsageKey-discrete : Discrete UsageKey
UsageKey-discrete = hlevel ℕ_discrete

instance abbrev pub usage_key_eq : DecEq UsageKey
usage_key_eq = record { decide = UsageKey-discrete }

pub record UsageState : Type 0 where
  pub rule : Urr
  pub uplink_packets : ℕ
  pub downlink_packets : ℕ
  pub uplink_bytes : ℕ
  pub downlink_bytes : ℕ
  pub threshold_events : ℕ
  pub next_threshold : ℕ
  pub first_packet : ℕ
  pub last_packet : ℕ

pub record PolicyEngine : Type 0 where
  pub burst : ℕ
  pub rates : Map RateKey TokenBucket
  pub usage : Map UsageKey UsageState
  pub qer_gate_drops : ℕ
  pub qer_rate_drops : ℕ
  pub urr_metered_packets : ℕ
  pub urr_metered_bytes : ℕ
  pub urr_threshold_events : ℕ
  pub urr_active_meters : ℕ

unfoldable pub new_policy_engine : ℕ → PolicyEngine
new_policy_engine burst = record {
  burst = burst;
  rates = [];
  usage = [];
  qer_gate_drops = 0;
  qer_rate_drops = 0;
  urr_metered_packets = 0;
  urr_metered_bytes = 0;
  urr_threshold_events = 0;
  urr_active_meters = 0;
}

-- time.Second.
abbrev pub second : ℕ
second = 1_000_000_000

unfoldable pub rate_for_duration : ℕ → ℕ → ℕ
rate_for_duration rate duration =
    let seconds = duration / second in
    let nanoseconds = duration % second in
    let whole = mul64 rate seconds in
    let partial =
      add64 (mul64 (rate / second) nanoseconds) (mul64 (rate % second) nanoseconds / second) in
    if rate == 0 || duration == 0
    then 0
    else if seconds != 0 && ltb (max_uint64 / seconds) rate
    then max_uint64
    else if ltb (max_uint64 - whole) partial
    then max_uint64
    else add64 whole partial

abbrev pub added_tokens : TokenBucket → ℕ → TokenBucket
added_tokens b added =
    if leb (sub64 b.capacity b.tokens) added
    then record b { tokens = b.capacity }
    else record b { tokens = add64 b.tokens added }

unfoldable pub refill : TokenBucket → ℕ → ℕ → TokenBucket
refill b now burst =
    let elapsed = now - b.last in
    if ltb now b.last
    then record b { last = now }
    else if elapsed == 0
    then b
    else if leb burst elapsed
    then record b { tokens = b.capacity; last = now }
    else record (added_tokens b (rate_for_duration b.rate elapsed)) { last = now }

abbrev pub gate_open : ℕ → Qer → Bool
gate_open source q = not (
    source == source_access && not q.uplink_gate_open
    || source == source_core && not q.downlink_gate_open)

unfoldable pub check_gates : PolicyEngine → PacketRule → ℕ → PolicyEngine × Decision
check_gates p matched source =
    if any (λ q. not (gate_open source q)) matched.qers
    then (record p { qer_gate_drops = add64 p.qer_gate_drops 1 }, gate_closed)
    else (p, allow)

abbrev pub qer_rate : Qer → ℕ → ℕ
qer_rate q source =
    if source == source_access then q.max_uplink_bits_per_second else q.max_downlink_bits_per_second

abbrev pub rate_key : ℕ → ℕ → Qer → RateKey
rate_key up_seid source q = record { up_seid = up_seid; qer_id = q.id; source = source }

-- The bucket that the check of one QER leaves.
abbrev pub bucket_for : Option TokenBucket → ℕ → ℕ → ℕ → ℕ → TokenBucket
bucket_for none rate capacity now burst = record {
  rate = rate;
  capacity = capacity;
  tokens = capacity;
  last = now;
}
bucket_for (some b) rate capacity now burst =
    if b.rate != rate || b.capacity != capacity
    then record { rate = rate; capacity = capacity; tokens = capacity; last = now }
    else refill b now burst

-- What a packet asks of the buckets.
pub record Ask : Type 0 where
  pub up_seid : ℕ
  pub source : ℕ
  pub bits : ℕ
  pub now : ℕ
  pub burst : ℕ

abbrev pub capacity_for : Ask → ℕ → ℕ
capacity_for a rate = max (rate_for_duration rate a.burst) a.bits

abbrev pub topped_up : Ask → Map RateKey TokenBucket → Qer → TokenBucket
topped_up a rates q =
    let rate = qer_rate q a.source in
    bucket_for (get (rate_key a.up_seid a.source q) rates) rate (capacity_for a rate) a.now a.burst

-- The loop that tops up and checks the buckets, with whether all have enough.
unfoldable pub check_buckets :
    Ask → List Qer → Map RateKey TokenBucket → Map RateKey TokenBucket × Bool
check_buckets a [] rates = (rates, true)
check_buckets a (q ∷ qs) rates =
    let limited = qer_rate q a.source != 0 in
    let b = topped_up a rates q in
    let next = if limited then put (rate_key a.up_seid a.source q) b rates else rates in
    let rest = check_buckets a qs next in
    if limited && ltb b.tokens a.bits then (next, false) else rest

abbrev pub no_bucket : TokenBucket
no_bucket = record { rate = 0; capacity = 0; tokens = 0; last = 0 }

abbrev pub bucket_or_zero : Option TokenBucket → TokenBucket
bucket_or_zero none = no_bucket
bucket_or_zero (some b) = b

abbrev pub charge : ℕ → TokenBucket → TokenBucket
charge bits b = record b { tokens = sub64 b.tokens bits }

-- The loop that takes the tokens.
unfoldable pub consume : Ask → List Qer → Map RateKey TokenBucket → Map RateKey TokenBucket
consume a [] rates = rates
consume a (q ∷ qs) rates =
    let key = rate_key a.up_seid a.source q in
    let charged = put key (charge a.bits (bucket_or_zero (get key rates))) rates in
    consume a qs (if qer_rate q a.source == 0 then rates else charged)

abbrev pub settle :
    PolicyEngine → Ask → List Qer → Map RateKey TokenBucket × Bool → PolicyEngine × Decision
settle p a qers (rates, false) =
    (record p { rates = rates; qer_rate_drops = add64 p.qer_rate_drops 1 }, rate_exceeded)
settle p a qers (rates, true) = (record p { rates = consume a qers rates }, allow)

abbrev pub ask_for : PolicyEngine → PacketRule → ℕ → ℕ → ℕ → Ask
ask_for p matched source payload_bytes now = record {
  up_seid = matched.up_seid;
  source = source;
  bits = mul64 payload_bytes 8;
  now = now;
  burst = p.burst;
}

-- A length that is not positive is 0.
unfoldable pub allow_rate : Bool → PolicyEngine → PacketRule → ℕ → ℕ → ℕ → PolicyEngine × Decision
allow_rate active p matched source payload_bytes now =
    let a = ask_for p matched source payload_bytes now in
    if payload_bytes == 0
    then (p, allow)
    else if not (any (λ q. qer_rate q source != 0) matched.qers)
    then (p, allow)
    else if not active
    then (p, rule_inactive)
    else settle p a matched.qers (check_buckets a matched.qers p.rates)

abbrev pub after_gates :
    PolicyEngine × Decision → Bool → PacketRule → ℕ → ℕ → ℕ → PolicyEngine × Decision
after_gates (p, allow) active matched source payload_bytes now =
    allow_rate active p matched source payload_bytes now
after_gates (p, gate_closed) active matched source payload_bytes now = (p, gate_closed)
after_gates (p, rate_exceeded) active matched source payload_bytes now = (p, rate_exceeded)
after_gates (p, rule_inactive) active matched source payload_bytes now = (p, rule_inactive)

-- authorize; the first Boolean is matched.Active() at its start.
unfoldable pub authorize :
    Bool → Bool → PolicyEngine → PacketRule → ℕ → ℕ → ℕ → PolicyEngine × Decision
authorize at_start active p matched source payload_bytes now =
    if not at_start
    then (p, rule_inactive)
    else after_gates (check_gates p matched source) active matched source payload_bytes now
