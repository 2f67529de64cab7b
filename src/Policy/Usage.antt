-- ===== src/Policy/Usage.antt =====
-- internal/sgwu/dataplane/policy.go: the usage meters. A traversal of a Go map that removes or
-- rewrites entries is one pass over the list.
use cups.Base.{
  ℕ, ◌+◌, ◌-◌, ◌/◌, Bool, true, false, not, ◌&&◌, Option, none, some, List, [], ◌∷◌, ltb, leb, ◌==◌,
  ◌!=◌, if◌then◌else◌, Map, get, put, has, sort, nat_eq, add64, sub64, mul64, max_uint64, keep,
}
use cups.Rules.{Urr, PacketRule, Session, source_access}
use cups.Policy.{PolicyEngine, UsageKey, usage_key_eq, UsageState, RateKey, TokenBucket}

unfoldable pub saturating_add : ℕ → ℕ → ℕ
saturating_add left right = if ltb (max_uint64 - left) right then max_uint64 else add64 left right

unfoldable pub saturating_multiply : ℕ → ℕ → ℕ
saturating_multiply left right =
    if left != 0 && ltb (max_uint64 / left) right then max_uint64 else mul64 left right

unfoldable pub next_threshold : ℕ → ℕ → ℕ
unfolding saturating_multiply
next_threshold total threshold =
    if threshold == 0
    then 0
    else if total / threshold == max_uint64
    then max_uint64
    else saturating_multiply (total / threshold + 1) threshold

abbrev pub usage_key : ℕ → Urr → UsageKey
usage_key up_seid urr = record { up_seid = up_seid; urr_id = urr.id }

abbrev pub state_for : Urr → Option UsageState → UsageState
state_for urr (some s) = s
state_for urr none = record {
  rule = urr;
  uplink_packets = 0;
  downlink_packets = 0;
  uplink_bytes = 0;
  downlink_bytes = 0;
  threshold_events = 0;
  next_threshold = urr.reporting_threshold;
  first_packet = 0;
  last_packet = 0;
}

abbrev pub stamped : ℕ → UsageState → UsageState
stamped now s = record s {
  first_packet = if s.first_packet == 0 then now else s.first_packet;
  last_packet = now;
}

unfoldable pub counted : ℕ → ℕ → Urr → UsageState → UsageState
unfolding saturating_add
counted source bytes urr s =
    if source == source_access
    then record s {
      uplink_packets = add64 s.uplink_packets 1;
      uplink_bytes =
          if urr.measure_volume then saturating_add s.uplink_bytes bytes else s.uplink_bytes;
    }
    else record s {
      downlink_packets = add64 s.downlink_packets 1;
      downlink_bytes =
          if urr.measure_volume then saturating_add s.downlink_bytes bytes else s.downlink_bytes;
    }

unfoldable pub total_of : UsageState → ℕ
total_of s = saturating_add s.uplink_bytes s.downlink_bytes

-- How many thresholds the total has crossed.
unfoldable pub crossings : Urr → UsageState → ℕ
crossings urr s =
    let total = total_of s in
    if urr.measure_volume
      && urr.reporting_threshold != 0
      && s.next_threshold != 0
      && leb s.next_threshold total
    then add64 ((total - s.next_threshold) / urr.reporting_threshold) 1
    else 0

-- Where nothing is crossed, the sums add 0.
unfoldable pub advanced : Urr → UsageState → UsageState
advanced urr s =
    let crossed = crossings urr s in
    if crossed == 0 then s else record s {
      threshold_events = saturating_add s.threshold_events crossed;
      next_threshold =
          saturating_add s.next_threshold (saturating_multiply crossed urr.reporting_threshold);
    }

abbrev pub with_rule : Urr → UsageState → UsageState
with_rule urr s = record s { rule = urr }

abbrev pub metered_state : ℕ → ℕ → ℕ → Urr → Option UsageState → UsageState
metered_state source bytes now urr o = counted source bytes urr (stamped now (state_for urr o))

unfoldable pub metered : ℕ → ℕ → ℕ → Urr → Option UsageState → UsageState
metered source bytes now urr o = with_rule urr (advanced urr (metered_state source bytes now urr o))

abbrev pub meter_urr : ℕ → ℕ → ℕ → ℕ → Urr → PolicyEngine → PolicyEngine
meter_urr up_seid source bytes now urr p =
    let key = usage_key up_seid urr in
    let old = get key p.usage in
    record p {
      usage = put key (metered source bytes now urr old) p.usage;
      urr_active_meters =
          if has key p.usage then p.urr_active_meters else add64 p.urr_active_meters 1;
      urr_metered_packets = add64 p.urr_metered_packets 1;
      urr_metered_bytes =
          if urr.measure_volume then add64 p.urr_metered_bytes bytes else p.urr_metered_bytes;
      urr_threshold_events =
          add64 p.urr_threshold_events (crossings urr (metered_state source bytes now urr old));
    }

unfoldable pub meter_urrs : ℕ → ℕ → ℕ → ℕ → List Urr → PolicyEngine → PolicyEngine
meter_urrs up_seid source bytes now [] p = p
meter_urrs up_seid source bytes now (u ∷ us) p =
    meter_urrs up_seid source bytes now us (meter_urr up_seid source bytes now u p)

unfoldable pub record_stale_usage_totals : List Urr → ℕ → PolicyEngine → PolicyEngine
record_stale_usage_totals [] bytes p = p
record_stale_usage_totals (u ∷ us) bytes p = record_stale_usage_totals us bytes (record p {
  urr_metered_packets = add64 p.urr_metered_packets 1;
  urr_metered_bytes =
      if u.measure_volume then add64 p.urr_metered_bytes bytes else p.urr_metered_bytes;
})

-- recordUsage; the Boolean is matched.Active() under the mutex. The forwarder hands it no
-- negative length.
unfoldable pub record_usage : Bool → PacketRule → ℕ → ℕ → ℕ → PolicyEngine → PolicyEngine
record_usage true matched source bytes now p =
    meter_urrs matched.up_seid source bytes now matched.urrs p
record_usage false matched source bytes now p = record_stale_usage_totals matched.urrs bytes p

abbrev pub keeps_rate : Session → RateKey × TokenBucket → Bool
keeps_rate c (k, b) = not (k.up_seid == c.up_seid && not (has k.qer_id c.qers))

abbrev pub rethreshold : Urr → UsageState → UsageState
rethreshold urr s = record s {
  rule = urr;
  next_threshold =
      if s.rule.reporting_threshold != urr.reporting_threshold
      then next_threshold (total_of s) urr.reporting_threshold
      else s.next_threshold;
}

-- What the loop over the meters leaves of one, given the session's URR.
abbrev pub reconciled_meter : UsageKey → UsageState → Option Urr → Option UsageState
reconciled_meter k s none = none
reconciled_meter k s (some urr) = some (rethreshold urr s)

abbrev pub meter_after : Session → UsageKey → UsageState → Option UsageState
meter_after c k s =
    if k.up_seid != c.up_seid then some s else reconciled_meter k s (get k.urr_id c.urrs)

abbrev pub deleted_meter : ℕ → UsageKey → UsageState → Option UsageState
deleted_meter up_seid k s = if k.up_seid == up_seid then none else some s

-- A pass that may remove entries, with the gauge of the meters, a uint64.
abbrev pub passed :
    Option UsageState → UsageKey → Map UsageKey UsageState × ℕ → Map UsageKey UsageState × ℕ
passed none k (m, gauge) = (m, sub64 gauge 1)
passed (some s) k (m, gauge) = ((k, s) ∷ m, gauge)

unfoldable pub pass :
    (UsageKey → UsageState → Option UsageState)
    → Map UsageKey UsageState
    → ℕ
    → Map UsageKey UsageState × ℕ
pass f [] gauge = ([], gauge)
pass f ((k, s) ∷ m) gauge = passed (f k s) k (pass f m gauge)

unfoldable pub reconcile_session : Session → PolicyEngine → PolicyEngine
reconcile_session c p =
    let (usage, gauge) = pass (meter_after c) p.usage p.urr_active_meters in
    record p { rates = keep (keeps_rate c) p.rates; usage = usage; urr_active_meters = gauge }

abbrev pub of_other : ℕ → RateKey × TokenBucket → Bool
of_other up_seid (k, b) = not (k.up_seid == up_seid)

unfoldable pub delete_session : ℕ → PolicyEngine → PolicyEngine
delete_session up_seid p =
    let (usage, gauge) = pass (deleted_meter up_seid) p.usage p.urr_active_meters in
    record p { rates = keep (of_other up_seid) p.rates; usage = usage; urr_active_meters = gauge }

abbrev pub usage_less : UsageKey × UsageState → UsageKey × UsageState → Bool
usage_less (a, s) (b, t) =
    if a.up_seid == b.up_seid then ltb a.urr_id b.urr_id else ltb a.up_seid b.up_seid

-- A UsageMeasurement is the key and the state of a meter.
unfoldable pub usage_snapshot : PolicyEngine → Map UsageKey UsageState
usage_snapshot p = sort usage_less p.usage
