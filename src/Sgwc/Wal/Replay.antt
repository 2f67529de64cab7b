-- ===== src/Sgwc/Wal/Replay.antt =====
-- OpenWAL of internal/sgwc/session/wal.go: the replay of the journal's records.
use cups.Base.{
  ℕ, Bool, true, false, not, Option, none, some, List, [], ◌∷◌, ◌!=◌, if◌then◌else◌, Map, get, put,
  del, same, nat_eq, ◌>>=◌,
}
use cups.Sgwc.{Session, validate_wal_session, session_eq}
use cups.Sgwc.Wal.{WalOperation, upsert, remove, snapshot, WalRecord, valid_wal_update}

pub record Replay : Type 0 where
  pub snapshot_phase : Bool
  pub by_id : Map ℕ Session

abbrev pub replayed : Map ℕ Session → Option Replay
replayed m = some (record { snapshot_phase = false; by_id = m })

-- One record, with the session that its id has so far; `none` is ErrCorrupt.
abbrev pub replay_operation : WalOperation → Session → Option Session → Replay → Option Replay
replay_operation snapshot s none r =
    if not r.snapshot_phase then none else some (record r { by_id = put s.id s r.by_id })
replay_operation snapshot s (some current) r = none
replay_operation upsert s none r = if s.revision != 1 then none else replayed (put s.id s r.by_id)
replay_operation upsert s (some current) r =
    if not (valid_wal_update current s) then none else replayed (put s.id s r.by_id)
replay_operation remove s none r = none
replay_operation remove s (some current) r =
    if same current s then replayed (del s.id r.by_id) else none

abbrev pub replay_record : WalRecord → Replay → Option Replay
replay_record x r =
    if validate_wal_session x.session
    then replay_operation x.operation x.session (get x.session.id r.by_id) r
    else none

unfoldable pub replay : List WalRecord → Replay → Option Replay
replay [] r = some r
replay (x ∷ xs) r = replay_record x r >>= replay xs

abbrev pub start_of_replay : Replay
start_of_replay = record { snapshot_phase = true; by_id = [] }
