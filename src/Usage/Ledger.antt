-- ===== src/Usage/Ledger.antt =====
-- internal/pfcp/usagereport/ledger.go: the durable sequence ledger of usage reports. The SHA-256
-- digest of a report's JSON is the parameter `digest`, where `none` is an encoding error. JSON gives
-- back the record that it was given, and the journal's records are what a reopening replays. The
-- mutex makes each method one step.
pub mod Accept
pub mod Snapshot
pub mod Recovery
pub mod Lifecycle
pub mod Atomic
mod Tests
use cups.Base.{
  ℕ, zero, suc, ◌+◌, ◌%◌, ◌^◌, Bool, true, false, not, ◌&&◌, ◌||◌, Option, none, some, List, [],
  ◌∷◌, ◌++◌, ltb, leb, same, ◌==◌, ◌!=◌, if◌then◌else◌, Map, get, put, has, length, any, map, sort,
  add64, DecEq, ℕ_discrete, nat_eq,
}
use cups.Journal.{Journal, Answers, write}
use cups.Usage.Report.{Report, saturating_add, validate}

-- Unix seconds, an int64.
pub data ℤ : Type 0 where
  pos : ℕ → ℤ
  negsuc : ℕ → ℤ

pub ℤ-discrete : Discrete ℤ
ℤ-discrete = hlevel ℕ_discrete

instance abbrev pub int_eq : DecEq ℤ
int_eq = record { decide = ℤ-discrete }

abbrev pub is_epoch : ℤ → Bool
is_epoch (pos n) = n == 0
is_epoch (negsuc n) = false

abbrev pub before : ℤ → ℤ → Bool
before (pos a) (pos b) = ltb a b
before (pos a) (negsuc b) = false
before (negsuc a) (pos b) = true
before (negsuc a) (negsuc b) = ltb b a

-- A time.Time, by its Unix second and the nanosecond in it.
pub record Time : Type 0 where
  pub unix : ℤ
  pub nanosecond : ℕ

-- IsZero: the start of the year 1.
abbrev pub is_zero : Time → Bool
is_zero t = same t.unix (negsuc 62_135_596_799) && t.nanosecond == 0

pub record LedgerKey : Type 0 where
  pub recovery_unix : ℤ
  pub cp_seid : ℕ
  pub urr_id : ℕ

pub LedgerKey-discrete : Discrete LedgerKey
LedgerKey-discrete = hlevel (ℕ_discrete, ℤ-discrete)

instance abbrev pub ledger_key_eq : DecEq LedgerKey
ledger_key_eq = record { decide = LedgerKey-discrete }

pub record Checkpoint : Type 0 where
  pub sequence : ℕ
  pub digest : ℕ

pub record LedgerTotals : Type 0 where
  pub reports_accepted : ℕ
  pub uplink_packets : ℕ
  pub downlink_packets : ℕ
  pub uplink_bytes : ℕ
  pub downlink_bytes : ℕ

-- A journal record, one constructor for each kind.
pub data LedgerRecord : Type 0 where
  accepts : ℤ → List Report → LedgerRecord
  deletes : ℕ → LedgerRecord
  snapshot_meta : LedgerTotals → LedgerRecord
  snapshot_state : LedgerKey → Checkpoint → LedgerRecord

pub record Ledger : Type 0 where
  pub journal : Option (Journal LedgerRecord)
  pub checkpoints : Map LedgerKey Checkpoint
  pub totals : LedgerTotals
  pub duplicates : ℕ
  pub gaps : ℕ
  pub conflicts : ℕ
  pub closed : Bool

pub data Failure : Type 0 where
  no_epoch closed invalid undigested gap conflict malformed journal_failed : Failure

pub data Result (A : Type 0) : Type 0 where
  ok : A → Result A
  err : Failure → Result A

infixl 5 ◌>>=◌
abbrev pub ◌>>=◌ : {A B : Type 0} → Result A → (A → Result B) → Result B
ok a >>= f = f a
err e >>= f = err e

pub record AcceptResult : Type 0 where
  pub accepted : ℕ
  pub duplicate : ℕ

-- The local variables of Accept's loop.
pub record Staged : Type 0 where
  pub staged : Map LedgerKey Checkpoint
  pub new_reports : List Report
  pub result : AcceptResult

abbrev pub zero_totals : LedgerTotals
zero_totals = record {
  reports_accepted = 0;
  uplink_packets = 0;
  downlink_packets = 0;
  uplink_bytes = 0;
  downlink_bytes = 0;
}

pub add_totals : LedgerTotals → Report → LedgerTotals
add_totals t r = record {
  reports_accepted = saturating_add t.reports_accepted 1;
  uplink_packets = saturating_add t.uplink_packets r.uplink_packets;
  downlink_packets = saturating_add t.downlink_packets r.downlink_packets;
  uplink_bytes = saturating_add t.uplink_bytes r.uplink_bytes;
  downlink_bytes = saturating_add t.downlink_bytes r.downlink_bytes;
}

pub add_all_totals : LedgerTotals → List Report → LedgerTotals
unfolding add_totals
add_all_totals t [] = t
add_all_totals t (r ∷ rs) = add_all_totals (add_totals t r) rs

abbrev pub key_of : ℤ → Report → LedgerKey
key_of recovery r = record { recovery_unix = recovery; cp_seid = r.cp_seid; urr_id = r.urr_id }

-- uint32 addition of one.
abbrev pub next32 : ℕ → ℕ
next32 n = (n + 1) % 2 ^ 32

abbrev pub first_of_both : Option Checkpoint → Option Checkpoint → Option Checkpoint
first_of_both (some c) d = some c
first_of_both none d = d

-- `for key, value := range staged { l.checkpoints[key] = value }`
pub commit : Map LedgerKey Checkpoint → Map LedgerKey Checkpoint → Map LedgerKey Checkpoint
commit [] m = m
commit ((k, c) ∷ staged) m = put k c (commit staged m)

-- The reports that a deletion's record matches.
abbrev pub of_session : ℕ → LedgerKey → Bool
of_session cp_seid k = k.cp_seid == cp_seid

abbrev pub drop_session : ℕ → Map LedgerKey Checkpoint → Map LedgerKey Checkpoint
drop_session cp_seid [] = []
drop_session cp_seid ((k, c) ∷ m) =
    if of_session cp_seid k then drop_session cp_seid m else (k, c) ∷ drop_session cp_seid m

-- The order in which a snapshot lists its keys.
abbrev pub key_less : LedgerKey → LedgerKey → Bool
key_less a b =
    if not (same a.recovery_unix b.recovery_unix)
    then before a.recovery_unix b.recovery_unix
    else if a.cp_seid != b.cp_seid
    then ltb a.cp_seid b.cp_seid
    else ltb a.urr_id b.urr_id

abbrev pub state_record : LedgerKey × Checkpoint → LedgerRecord
state_record (k, c) = snapshot_state k c

pub snapshot_records : Ledger → List LedgerRecord
snapshot_records l =
    snapshot_meta l.totals ∷ map state_record (sort (λ a b. key_less a.0 b.0) l.checkpoints)

abbrev pub wrote : Ledger → Journal LedgerRecord × Bool → Ledger × Bool
wrote l (j, done) = (record l { journal = some j }, done)

-- compactIfNeeded and Append.
abbrev pub write_to :
    Ledger → Answers → LedgerRecord → Option (Journal LedgerRecord) → Ledger × Bool
write_to l io r none = (l, true)
write_to l io r (some j) = wrote l (write io (snapshot_records l) r j)

abbrev pub write_record : Ledger → Answers → LedgerRecord → Ledger × Bool
write_record l io r = write_to l io r l.journal

abbrev pub stage : ℤ → Report → ℕ → Staged → Staged
stage recovery r d s = record {
  staged = put (key_of recovery r) (record { sequence = r.sequence; digest = d }) s.staged;
  new_reports = s.new_reports ++ (r ∷ []);
  result = record { accepted = s.result.accepted + 1; duplicate = s.result.duplicate };
}

-- The judgement on a report with digest `d`, by the checkpoint of its key.
pub judge : ℤ → Report → ℕ → Option Checkpoint → Staged → Result Staged
judge recovery r d none s = if r.sequence != 0 then err gap else ok (stage recovery r d s)
judge recovery r d (some c) s =
    if r.sequence == c.sequence
    then (if d != c.digest
        then err conflict
        else ok (record s {
          result = record { accepted = s.result.accepted; duplicate = s.result.duplicate + 1 };
        }))
    else if r.sequence != next32 c.sequence
    then err gap
    else ok (stage recovery r d s)

-- Whether replay finds a gap before a report, by the checkpoint of its key.
abbrev pub out_of_order : Report → Option Checkpoint → Bool
out_of_order r none = r.sequence != 0
out_of_order r (some c) = r.sequence != next32 c.sequence

abbrev pub no_staged : Staged
no_staged = record {
  staged = [];
  new_reports = [];
  result = record { accepted = 0; duplicate = 0 };
}

module _ (digest : Report → Option ℕ) where
  abbrev pub digest_of : Report → Result ℕ
  digest_of r = elim (digest r) [ none ↦ err undigested | some d ↦ ok d ]

  -- One round of Accept's loop.
  pub accept_report : ℤ → Map LedgerKey Checkpoint → Report → Staged → Result Staged
  unfolding judge
  accept_report recovery checkpoints r s = if not (validate r) then err invalid else (do
    let key = key_of recovery r
    let current = first_of_both (get key s.staged) (get key checkpoints)
    d ← digest_of r
    judge recovery r d current s)

  pub accept_loop : ℤ → Map LedgerKey Checkpoint → List Report → Staged → Result Staged
  unfolding accept_report
  accept_loop recovery checkpoints [] s = ok s
  accept_loop recovery checkpoints (r ∷ rs) s =
      accept_report recovery checkpoints r s >>= λ s'. accept_loop recovery checkpoints rs s'

  -- Accept, once the loop has ended.
  pub accept_staged : Ledger → Answers → ℤ → Result Staged → Ledger × Result AcceptResult
  unfolding commit add_all_totals
  accept_staged l io recovery (err gap) = (record l { gaps = add64 l.gaps 1 }, err gap)
  accept_staged l io recovery (err conflict) =
      (record l { conflicts = add64 l.conflicts 1 }, err conflict)
  accept_staged l io recovery (err e) = (l, err e)
  accept_staged l io recovery (ok s) =
      let duplicates = saturating_add l.duplicates s.result.duplicate in
      if length s.new_reports == 0
      then (record l { duplicates = duplicates }, ok s.result)
      else (let (l', done) = write_record l io (accepts recovery s.new_reports) in
          if done
          then (
            record l' {
              checkpoints = commit s.staged l.checkpoints;
              totals = add_all_totals l.totals s.new_reports;
              duplicates = duplicates;
            },
            ok s.result,
          )
          else (l', err journal_failed))

  pub accept : Ledger → Answers → Time → List Report → Ledger × Result AcceptResult
  unfolding accept_loop accept_staged
  accept l io recovery reports =
      if is_zero recovery || length reports == 0
      then (l, err no_epoch)
      else if l.closed
      then (l, err closed)
      else accept_staged l io recovery.unix
          (accept_loop recovery.unix l.checkpoints reports no_staged)

  -- One round of replay's loop over the reports of an accepting record.
  pub replay_report : ℤ → Ledger → Report → Result Ledger
  unfolding add_totals
  replay_report recovery l r = if not (validate r) then err invalid else (do
    d ← digest_of r
    let key = key_of recovery r
    if out_of_order r (get key l.checkpoints)
        then err gap
        else ok (record l {
          checkpoints = put key (record { sequence = r.sequence; digest = d }) l.checkpoints;
          totals = add_totals l.totals r;
        }))

  pub replay_reports : ℤ → Ledger → List Report → Result Ledger
  unfolding replay_report
  replay_reports recovery l [] = ok l
  replay_reports recovery l (r ∷ rs) =
      replay_report recovery l r >>= λ l'. replay_reports recovery l' rs

  pub replay : Ledger → LedgerRecord → Result Ledger
  unfolding replay_reports
  replay l (accepts recovery reports) =
      if is_epoch recovery || length reports == 0
      then err malformed
      else replay_reports recovery l reports
  replay l (deletes cp_seid) =
      if cp_seid == 0
      then err malformed
      else ok (record l { checkpoints = drop_session cp_seid l.checkpoints })
  replay l (snapshot_meta totals) =
      if length l.checkpoints != 0 || l.totals.reports_accepted != 0
      then err malformed
      else ok (record l { totals = totals })
  replay l (snapshot_state key c) =
      if is_epoch key.recovery_unix || key.cp_seid == 0 || key.urr_id == 0 || has key l.checkpoints
      then err malformed
      else ok (record l { checkpoints = put key c l.checkpoints })

  pub replay_all : Ledger → List LedgerRecord → Result Ledger
  unfolding replay
  replay_all l [] = ok l
  replay_all l (r ∷ rs) = replay l r >>= λ l'. replay_all l' rs

abbrev pub empty_ledger : Ledger
empty_ledger = record {
  journal = none;
  checkpoints = [];
  totals = zero_totals;
  duplicates = 0;
  gaps = 0;
  conflicts = 0;
  closed = false;
}

abbrev pub journaled_ledger : Ledger
journaled_ledger = record empty_ledger { journal = some (record { records = []; failed = false }) }

pub remove_session : Ledger → Answers → ℕ → Ledger × Result Bool
remove_session l io cp_seid =
    if cp_seid == 0
    then (l, ok false)
    else if l.closed
    then (l, err closed)
    else if not (any (λ e. of_session cp_seid e.0) l.checkpoints)
    then (l, ok false)
    else (let (l', done) = write_record l io (deletes cp_seid) in
        if done
        then (record l' { checkpoints = drop_session cp_seid l.checkpoints }, ok true)
        else (l', err journal_failed))

pub close : Ledger → Ledger
close l = record l { closed = true }

pub data Call : Type 0 where
  accepting : Time → List Report → Call
  removing : ℕ → Call
  closing : Call

module _ (digest : Report → Option ℕ) where
  pub step : Ledger → Answers × Call → Ledger
  step l (io, accepting recovery reports) = (accept digest l io recovery reports).0
  step l (io, removing cp_seid) = (remove_session l io cp_seid).0
  step l (io, closing) = close l

  pub run : Ledger → List (Answers × Call) → Ledger
  unfolding step
  run l [] = l
  run l (c ∷ cs) = run (step l c) cs
