-- ===== src/Usage/Report.antt =====
-- internal/pfcp/usagereport/report.go: a report, its totals and its validation. Times are
-- nanoseconds, with 0 for the zero time.Time.
use Prim.Native.Nat.{bit_and}
use cups.Base.{
  ℕ, ◌+◌, ◌-◌, ◌≤◌, ◌≡◌, Bool, not, ◌&&◌, ◌||◌, ltb, ◌==◌, ◌!=◌, if◌then◌else◌, arith, max_uint64,
  min,
}

pub record Report : Type 0 where
  pub cp_seid : ℕ
  pub urr_id : ℕ
  pub sequence : ℕ
  pub trigger : ℕ
  pub uplink_packets : ℕ
  pub downlink_packets : ℕ
  pub uplink_bytes : ℕ
  pub downlink_bytes : ℕ
  pub start_time : ℕ
  pub end_time : ℕ
  pub first_packet : ℕ
  pub last_packet : ℕ

unfoldable pub saturating_add : ℕ → ℕ → ℕ
saturating_add left right = if ltb (max_uint64 - left) right then max_uint64 else left + right

-- The sum as far as 64 bits go.
pub saturating_add-min :
    (left right : ℕ) → left ≤ max_uint64 → saturating_add left right ≡ min (left + right) max_uint64
unfolding saturating_add
saturating_add-min left right h = ground arith

unfoldable pub total_packets : Report → ℕ
unfolding saturating_add
total_packets r = saturating_add r.uplink_packets r.downlink_packets

unfoldable pub total_bytes : Report → ℕ
unfolding saturating_add
total_bytes r = saturating_add r.uplink_bytes r.downlink_bytes

-- The flags of pkg/pfcp/ie.go that a report may carry: periodic, volume threshold, time threshold,
-- immediate and termination.
abbrev pub volume_threshold : ℕ
volume_threshold = 2

abbrev pub supported_triggers : ℕ
supported_triggers = 0x887

-- The error condition of pfcp.NewUsageReportTriggerIE, on a uint32.
unfoldable pub is_trigger : ℕ → Bool
is_trigger flags = flags != 0 && bit_and flags (0xffff_ffff - supported_triggers) == 0

abbrev outside : ℕ → Report → Bool
outside t r = t != 0 && (ltb t r.start_time || ltb r.end_time t)

-- Whether Report.Validate returns no error.
unfoldable pub validate : Report → Bool
unfolding is_trigger total_bytes
validate r =
    not (r.cp_seid == 0 || r.urr_id == 0)
    && is_trigger r.trigger
    && not (bit_and r.trigger volume_threshold != 0 && total_bytes r == 0)
    && not (r.start_time == 0 || r.end_time == 0 || ltb r.end_time r.start_time)
    && not (outside r.first_packet r)
    && not (outside r.last_packet r)
    && not (r.first_packet != 0 && r.last_packet != 0 && ltb r.last_packet r.first_packet)
