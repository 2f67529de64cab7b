-- ===== src/Sgwc/Wal.antt =====
-- internal/sgwc/session/wal.go: the durable form of the SGW-C's sessions, over the control-state
-- journal. JSON stays out: a record is its own encoding, and a snapshot the session that it encodes.
pub mod Replay
pub mod Durable
pub mod Follows
pub mod Open
use cups.Base.{
  ℕ, ◌+◌, ◌%◌, ◌^◌, Bool, true, false, not, ◌&&◌, ◌||◌, Option, none, some, List, [], ◌∷◌, ◌++◌,
  ◌==◌, ◌!=◌, ltb, if◌then◌else◌, Map, get, put, del, has, same, map, sort, nat_eq, text_eq, ◌>>=◌,
  is_some,
}
use cups.Journal.{Journal, Answers, write}
use cups.Sgwc.{Session, validate_wal_session, equal_fold, session_eq, fteid_eq}

pub data WalOperation : Type 0 where
  upsert remove snapshot : WalOperation

pub record WalRecord : Type 0 where
  pub operation : WalOperation
  pub session : Session

pub record Wal : Type 0 where
  pub journal : Journal WalRecord
  pub snapshots : Map ℕ Session

unfoldable pub valid_wal_update : Session → Session → Bool
valid_wal_update previous next =
    next.id == previous.id
    && next.revision == (previous.revision + 1) % 2 ^ 64
    && same next.subscriber_key previous.subscriber_key
    && equal_fold next.apn previous.apn
    && same next.s11_control previous.s11_control
    && same next.mme_control previous.mme_control
    && next.pfcp_control_seid == previous.pfcp_control_seid
    && next.created_at == previous.created_at

abbrev pub by_id : ℕ × Session → ℕ × Session → Bool
by_id a b = ltb a.0 b.0

abbrev pub snapshot_record : ℕ × Session → WalRecord
snapshot_record (id, s) = record { operation = snapshot; session = s }

-- The records of compactLocked: the snapshots by their ids.
unfoldable pub live_records : Wal → List WalRecord
live_records w = map snapshot_record (sort by_id w.snapshots)

abbrev pub is_snapshot_of : Session → Option Session → Bool
is_snapshot_of s none = false
is_snapshot_of s (some t) = same t s

-- Commit's comparison of a transition with the journal's state. Both sessions missing is an error.
unfoldable pub transition_ok : Wal → Option Session → Option Session → Bool
transition_ok w none none = false
transition_ok w none (some next) = not (has next.id w.snapshots) && next.revision == 1
transition_ok w (some previous) none = is_snapshot_of previous (get previous.id w.snapshots)
transition_ok w (some previous) (some next) =
    is_snapshot_of previous (get next.id w.snapshots) && valid_wal_update previous next

abbrev pub record_of : Option Session → Option Session → Option WalRecord
record_of previous (some next) = some (record { operation = upsert; session = next })
record_of (some previous) none = some (record { operation = remove; session = previous })
record_of none none = none

abbrev pub apply_operation : WalOperation → Session → Map ℕ Session → Map ℕ Session
apply_operation remove s m = del s.id m
apply_operation upsert s m = put s.id s m
apply_operation snapshot s m = put s.id s m

abbrev pub apply_record : WalRecord → Map ℕ Session → Map ℕ Session
apply_record r m = apply_operation r.operation r.session m

-- The end of Commit: the snapshots follow a record that is in the journal.
abbrev pub logged : WalRecord → Wal → Journal WalRecord × Bool → Wal × Bool
logged r w (j, true) = (record { journal = j; snapshots = apply_record r w.snapshots }, true)
logged r w (j, false) = (record w { journal = j }, false)

abbrev pub commit_record :
    Answers → Option Session → Option Session → Wal → Option WalRecord → Wal × Bool
commit_record a previous next w none = (w, false)
commit_record a previous next w (some r) =
    if not (validate_wal_session r.session && transition_ok w previous next)
    then (w, false)
    else logged r w (write a (live_records w) r w.journal)

-- Commit, with whether it succeeds.
unfoldable pub commit : Answers → Option Session → Option Session → Wal → Wal × Bool
commit a previous next w = commit_record a previous next w (record_of previous next)
