-- ===== src/Sgwc/Wal/Open.antt =====
-- OpenWAL of internal/sgwc/session/wal.go: the sessions that the journal recovers, and the check
-- of their keys. The bits of a mask are a list of 16 Booleans.
use cups.Base.{
  ℕ, Bool, true, false, not, ◌&&◌, ◌||◌, Option, none, some, List, [], ◌∷◌, ◌==◌, if◌then◌else◌,
  Map, get, put, has, same, sort, map, replicate, get_or, set, length, nat_eq, Text, text_eq, ◌>>=◌,
}
use cups.Net.{addr_eq}
use cups.Sgwc.{Session, Bearer, Fteid, owner_key, fteid_eq}
use cups.Sgwc.Wal.{WalRecord, Wal, by_id}
use cups.Sgwc.Wal.Replay.{Replay, replay, start_of_replay}

pub data Seen : Type 0 where
  seen : Seen

pub record S11Owner : Type 0 where
  pub subscriber : Text
  pub mme : Fteid
  pub local : Fteid
  pub bearers : List Bool

pub record Recovered : Type 0 where
  pub owners : Map Text Seen
  pub s5 : Map ℕ Seen
  pub pfcp : Map ℕ Seen
  pub s11 : Map ℕ S11Owner

-- current.bearers, 0 for an entry that is missing.
abbrev pub mask_of : Option S11Owner → List Bool
mask_of none = replicate 16 false
mask_of (some o) = o.bearers

-- An entry that is missing has the empty subscriber.
abbrev pub owner_clash : Session → Option S11Owner → Bool
owner_clash c none = false
owner_clash c (some o) =
    not (length o.subscriber == 0)
    && (not (same o.subscriber c.subscriber_key)
        || not (same o.mme c.mme_control)
        || not (same o.local c.s11_control))

-- The loop over the bearers; `none` is ErrDuplicate.
unfoldable pub add_bits : Map ℕ Bearer → List Bool → Option (List Bool)
add_bits [] mask = some mask
add_bits ((ebi, b) ∷ bs) mask =
    let rest = add_bits bs (set mask ebi true) in if get_or mask ebi false then none else rest

abbrev pub note_session : Session → Recovered → List Bool → Recovered
note_session c r mask = record {
  owners = put (owner_key c.subscriber_key c.apn) seen r.owners;
  s5 = put c.s5_control.teid seen r.s5;
  pfcp = put c.pfcp_control_seid seen r.pfcp;
  s11 =
      put c.s11_control.teid
        (record {
          subscriber = c.subscriber_key;
          mme = c.mme_control;
          local = c.s11_control;
          bearers = mask;
        })
        r.s11;
}

abbrev pub check_session : Session → Recovered → Option Recovered
check_session c r =
    let current = get c.s11_control.teid r.s11 in
    let bits : Option (List Bool) =
      if owner_clash c current then none else add_bits c.bearers (mask_of current) in
    if has (owner_key c.subscriber_key c.apn) r.owners
      || has c.s5_control.teid r.s5
      || has c.pfcp_control_seid r.pfcp
    then none
    else bits >>= λ mask. some (note_session c r mask)

unfoldable pub check_all : List Session → Recovered → Option Recovered
check_all [] r = some r
check_all (c ∷ cs) r = check_session c r >>= check_all cs

-- validateRecoveredIndexes; `none` is an error.
abbrev pub validate_recovered_indexes : List Session → Option Recovered
validate_recovered_indexes recovered =
    check_all recovered (record { owners = []; s5 = []; pfcp = []; s11 = [] })

abbrev pub session_at : ℕ × Session → Session
session_at (id, c) = c

-- The WAL and the recovered sessions by their ids; `none` is an error.
abbrev pub open_replayed : List WalRecord → Replay → Option (Wal × List Session)
open_replayed journal r =
    let sorted = sort by_id r.by_id in
    let recovered = map session_at sorted in
    validate_recovered_indexes recovered >>= λ x. some (
      record { journal = record { records = journal; failed = false }; snapshots = sorted },
      recovered,
    )

unfoldable pub open_wal : List WalRecord → Option (Wal × List Session)
open_wal journal = replay journal start_of_replay >>= open_replayed journal
