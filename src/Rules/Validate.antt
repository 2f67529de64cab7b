-- ===== src/Rules/Validate.antt =====
-- validate of internal/sgwu/rules/store.go. Its errors are one, ErrInvalidSession, so that the
-- order in which Go visits a map decides only the text of the error.
use cups.Base.{
  ℕ, ◌*◌, ◌/◌, ◌%◌, Bool, false, not, ◌&&◌, ◌||◌, Option, none, some, ltb, ◌==◌, ◌!=◌, has, length,
  all, nat_eq,
}
use cups.Net.{is_valid}
use cups.Rules.{Duration, pos, negsuc, Fteid, Pdr, Far, Qer, Urr, Bar, Session}

-- ApplyAction, a uint8 of flags.
abbrev pub action_drop : ℕ → Bool
action_drop a = a % 2 == 1

abbrev pub action_forward : ℕ → Bool
action_forward a = a / 2 % 2 == 1

abbrev millisecond : ℕ
millisecond = 1_000_000

abbrev delay_ok : Duration → Bool
delay_ok (pos n) = not (ltb (12_750 * millisecond) n || n % (50 * millisecond) != 0)
delay_ok (negsuc n) = false

abbrev header_ok : Option Fteid → Bool
header_ok none = false
header_ok (some h) = not (h.teid == 0 || not (is_valid h.ip))

unfoldable pub pdr_ok : Session → ℕ × Pdr → Bool
pdr_ok c (id, pdr) =
    not (id == 0 || id != pdr.id || pdr.local_fteid.teid == 0 || not (is_valid pdr.local_fteid.ip))
    && has pdr.far_id c.fars
    && all (λ q. has q c.qers) pdr.qer_ids
    && all (λ u. has u c.urrs) pdr.urr_ids

unfoldable pub far_ok : Session → ℕ × Far → Bool
far_ok c (id, far) =
    not (id == 0 || id != far.id || far.apply_action == 0)
    && not (action_drop far.apply_action && action_forward far.apply_action)
    && not (action_forward far.apply_action && not (header_ok far.outer_header))
    && (far.bar_id == 0 || has far.bar_id c.bars)

unfoldable pub qer_ok : ℕ × Qer → Bool
qer_ok (id, qer) =
    not (id == 0 || id != qer.id)
    && not ((qer.qci == 0 && qer.arp != 0) || (qer.qci != 0 && qer.arp == 0) || ltb 15 qer.arp)

unfoldable pub urr_ok : ℕ × Urr → Bool
urr_ok (id, urr) =
    not (id == 0 || id != urr.id || (not urr.measure_volume && not urr.measure_duration))

unfoldable pub bar_ok : ℕ × Bar → Bool
bar_ok (id, bar) = not (id == 0 || id != bar.id || not (delay_ok bar.downlink_notification_delay))

unfoldable pub validate : Session → Bool
unfolding pdr_ok far_ok qer_ok urr_ok bar_ok
validate c =
    not (c.cp_seid == 0 || c.up_seid == 0)
    && not (length c.pdrs == 0)
    && all (pdr_ok c) c.pdrs
    && all (far_ok c) c.fars
    && all qer_ok c.qers
    && all urr_ok c.urrs
    && all bar_ok c.bars
