-- ===== src/Policy/Tests.antt =====
-- internal/sgwu/dataplane/policy.go at concrete rules.
use cups.Base.{
  ℕ, ◌+◌, ◌*◌, ◌/◌, ◌≡◌, ◌≤◌, refl, true, false, some, none, List, [], ◌∷◌, ◌==◌, get, put,
  ℕ_discrete, nat_eq, arith, min, max_uint64, if◌then◌else◌,
}
use cups.Net.{v4}
use cups.Rules.{Qer, Urr, PacketRule, Session, no_qer, no_bar}
use cups.Policy.{
  PolicyEngine, new_policy_engine, rate_exceeded, rate_for_duration, second, authorize, allow_rate,
  check_gates, check_buckets, consume, refill, rate_key, rate_key_eq, RateKey-discrete,
  usage_key_eq, UsageState, TokenBucket,
}
use cups.Policy.Rate.{rate_for_duration-exact}
use cups.Policy.Limit.{Packet, Limits, IsTrain, granted_bits, granted_bits-bound}
use cups.Policy.Charges.{HasBuckets, Grows}
use cups.Policy.Verdict.{IsRule, authorize-HasBuckets, refusal_charges_nothing}
use cups.Policy.Usage.{record_usage, reconcile_session, delete_session, usage_key}
use cups.Policy.Meter.{IsMetered, operations-IsMetered, delete_session-get}
use cups.Policy.Thresholds.{Meters, record_all, record_all-events}

-- 64 kbit/s towards the core, and a burst of 100 ms: 6,400 bits.
abbrev qer : Qer
qer = record no_qer {
  id = 1;
  uplink_gate_open = true;
  downlink_gate_open = true;
  max_uplink_bits_per_second = 64000;
}

abbrev urr : Urr
urr = record { id = 2; measure_volume = true; measure_duration = false; reporting_threshold = 1000 }

abbrev rule : PacketRule
rule = record {
  up_seid = 20;
  revision = 1;
  pdr = record {
    id = 1;
    precedence = 1;
    source_interface = 0;
    local_fteid = record { teid = 7; ip = v4 1 };
    far_id = 1;
    qer_ids = 1 ∷ [];
    urr_ids = 2 ∷ [];
  };
  far = record {
    id = 1;
    apply_action = 2;
    destination_interface = 1;
    outer_header = none;
    bar_id = 0;
  };
  qer = qer;
  qers = qer ∷ [];
  urrs = urr ∷ [];
  bar = no_bar;
  generation = some 0;
}

abbrev burst : ℕ
burst = 100_000_000

abbrev engine : PolicyEngine
engine = new_policy_engine burst

abbrev packet : ℕ → ℕ → Packet
packet at bytes = record { at = at; bytes = bytes }

rate_for_duration-exact_example :
    rate_for_duration 64000 burst ≡ min max_uint64 (64000 * burst / second)
rate_for_duration-exact_example = rate_for_duration-exact 64000 burst (omega arith)

budget_test : rate_for_duration 64000 burst ≡ 6400
unfolding rate_for_duration
budget_test = refl

no_buckets : HasBuckets engine.rates
unfolding new_policy_engine get
no_buckets = λ k b e. cc

rule-IsRule : IsRule rule 0
rule-IsRule = record { machine = (omega arith, tt); distinct = (tt, tt) }

authorize-HasBuckets_example : HasBuckets (authorize true true engine rule 0 700 5).0.rates
authorize-HasBuckets_example =
    authorize-HasBuckets true true engine rule 0 700 5 no_buckets rule-IsRule

abbrev after_one : PolicyEngine
after_one = (authorize true true engine rule 0 700 5).0

after_one-HasBuckets : HasBuckets after_one.rates
after_one-HasBuckets = authorize-HasBuckets true true engine rule 0 700 5 no_buckets rule-IsRule

abbrev bucket : TokenBucket
bucket = record { rate = 64000; capacity = 6400; tokens = 800; last = 5 }

bucket_test : get (rate_key 20 0 qer) after_one.rates ≡ some bucket
unfolding authorize check_gates allow_rate check_buckets consume new_policy_engine rate_for_duration
    get put RateKey-discrete ℕ_discrete
bucket_test = refl

refused_test :
    allow_rate true after_one rule 0 700 5
    ≡ ((allow_rate true after_one rule 0 700 5).0, rate_exceeded)
unfolding authorize check_gates allow_rate check_buckets consume new_policy_engine rate_for_duration
    refill get put RateKey-discrete ℕ_discrete
refused_test = refl

refusal_charges_nothing_example :
    Grows bucket (get (rate_key 20 0 qer) (allow_rate true after_one rule 0 700 5).0.rates)
refusal_charges_nothing_example =
    refusal_charges_nothing true after_one (allow_rate true after_one rule 0 700 5).0 rule 0 700 5
      (rate_key 20 0 qer) bucket after_one-HasBuckets rule-IsRule.machine refused_test bucket_test

abbrev train : List Packet
train = packet 5 700 ∷ packet 10_000_000 700 ∷ packet 100_000_005 300 ∷ []

rule-Limits : Limits rule 0 qer
rule-Limits = record { only = refl; positive = omega arith; machine = omega arith }

train-IsTrain : IsTrain (rate_for_duration 64000 engine.burst) 5 200_000_000 train
unfolding rate_for_duration new_policy_engine
train-IsTrain = ground arith

no_bucket_test : get (rate_key 20 0 qer) engine.rates ≡ none
unfolding new_policy_engine get
no_bucket_test = refl

granted_test : granted_bits engine rule 0 train ≡ 8000
unfolding granted_bits allow_rate check_buckets consume new_policy_engine rate_for_duration refill
    get put RateKey-discrete ℕ_discrete
granted_test = refl

granted_bits-bound_example :
    granted_bits engine rule 0 train * second
    ≤ rate_for_duration 64000 engine.burst * second + 64000 * 199_999_995
granted_bits-bound_example =
    granted_bits-bound engine rule 0 qer train 5 200_000_000 rule-Limits no_bucket_test
      train-IsTrain

-- Packets of two sizes above the burst's budget, in turn and at one time: each finds a bucket of
-- another capacity, replaces it by a full one, and is let through.
bypass_test :
    granted_bits engine rule 0 (packet 5 1400 ∷ packet 5 900 ∷ packet 5 1400 ∷ packet 5 900 ∷ [])
    ≡ 36800
unfolding granted_bits allow_rate check_buckets consume new_policy_engine rate_for_duration refill
    get put RateKey-discrete ℕ_discrete
bypass_test = refl

-- A rule that names one QER twice: both checks pass on the same tokens, which are taken twice.
abbrev twice : PacketRule
twice = record rule { qers = qer ∷ qer ∷ [] }

abbrev wrapped : TokenBucket
wrapped = record { rate = 64000; capacity = 6400; tokens = 18446744073709548416; last = 5 }

duplicate_qer_test :
    get (rate_key 20 0 qer) (allow_rate true engine twice 0 600 5).0.rates ≡ some wrapped
unfolding allow_rate check_buckets consume new_policy_engine rate_for_duration refill get put
    RateKey-discrete ℕ_discrete
duplicate_qer_test = refl

engine-IsMetered : IsMetered engine
unfolding new_policy_engine
engine-IsMetered = record { keyed = tt; gauge = refl }

abbrev session : Session
session = record {
  cp_seid = 10;
  up_seid = 20;
  revision = 1;
  pdrs = [];
  fars = [];
  qers = [];
  urrs = [];
  bars = [];
}

operations-IsMetered_example :
    IsMetered (record_usage true rule 0 700 5 engine)
    × IsMetered (reconcile_session session engine)
    × IsMetered (delete_session 20 engine)
unfolding new_policy_engine
operations-IsMetered_example =
    operations-IsMetered true rule 0 700 5 20 session engine engine-IsMetered (omega arith)

abbrev metered_engine : PolicyEngine
metered_engine = record_usage true rule 0 700 5 engine

metered_engine-IsMetered : IsMetered metered_engine
unfolding new_policy_engine
metered_engine-IsMetered =
    (operations-IsMetered true rule 0 700 5 20 session engine engine-IsMetered (omega arith)).0

delete_session-get_example :
    (get (rate_key 20 0 qer) (delete_session 20 metered_engine).rates
      ≡ (if 20 == 20 then none else get (rate_key 20 0 qer) metered_engine.rates))
    × (get (usage_key 20 urr) (delete_session 20 metered_engine).usage
        ≡ (if 20 == 20 then none else get (usage_key 20 urr) metered_engine.usage))
delete_session-get_example =
    delete_session-get 20 metered_engine (rate_key 20 0 qer) (usage_key 20 urr)
      metered_engine-IsMetered

rule-Meters : Meters rule urr
rule-Meters = record { only = refl; measured = refl; positive = omega arith }

no_meter_test : get (usage_key 20 urr) engine.usage ≡ none
unfolding new_policy_engine get
no_meter_test = refl

record_all-events_example :
    (r : UsageState) × (get (usage_key 20 urr) (record_all rule 0 train engine).usage ≡ some r)
    × (r.uplink_bytes + r.downlink_bytes ≡ 1700)
    × (r.threshold_events ≡ 1700 / 1000)
record_all-events_example =
    record_all-events rule 0 urr (packet 5 700)
      (packet 10_000_000 700 ∷ packet 100_000_005 300 ∷ []) engine rule-Meters no_meter_test
      (omega arith)
