-- ===== src/Usage/Ledger/Tests.antt =====
-- internal/pfcp/usagereport/ledger.go at concrete inputs.
use cups.Base.{
  ℕ, ◌≡◌, refl, some, Option, List, [], ◌∷◌, arith, get, put, false, true, ℕ_discrete, max_uint64,
  true,
}
use cups.Journal.{Journal, Answers, write, replaced, appended, doubted}
use cups.Usage.Report.{Report, validate, saturating_add, saturating_add-min}
use cups.Usage.Ledger.{
  Ledger, LedgerRecord, LedgerKey-discrete, pos, ℤ-discrete, int_eq, Time, empty_ledger, accept, ok,
  err, gap, malformed, journaled_ledger, run, close, Call, accepting, closing, replay_all, accepts,
}
use cups.Usage.Ledger.Lifecycle.{run_recovers}
use cups.Usage.Ledger.Recovery.{Recoverable}
use cups.Usage.Ledger.Atomic.{accept_refused}

abbrev first_report : Report
first_report = record {
  cp_seid = 3;
  urr_id = 1;
  sequence = 0;
  trigger = 2;
  uplink_packets = 1;
  downlink_packets = 2;
  uplink_bytes = 100;
  downlink_bytes = 200;
  start_time = 10;
  end_time = 20;
  first_packet = 0;
  last_packet = 0;
}

abbrev late_report : Report
late_report = record first_report { sequence = 2 }

abbrev digest : Report → Option ℕ
digest r = some r.sequence

abbrev no_trouble : Answers
no_trouble = record { needs_compaction = false; compaction = replaced; appending = appended }

abbrev unsynced : Answers
unsynced = record no_trouble { appending = doubted }

abbrev at_nine : Time
at_nine = record { unix = pos 9; nanosecond = 0 }

abbrev at_epoch : Time
at_epoch = record { unix = pos 0; nanosecond = 0 }

abbrev journaled : Ledger
journaled = journaled_ledger

accepted_and_repeated :
    (accept digest journaled no_trouble at_nine (first_report ∷ first_report ∷ [])).1
    ≡ ok (record { accepted = 1; duplicate = 1 })
unfolding accept get put LedgerKey-discrete ℤ-discrete ℕ_discrete write validate saturating_add
accepted_and_repeated = refl

gap_refused : (accept digest journaled no_trouble at_nine (late_report ∷ [])).1 ≡ err gap
unfolding accept get put LedgerKey-discrete ℤ-discrete ℕ_discrete write validate
gap_refused = refl

accept_refused_example :
    ((accept digest journaled no_trouble at_nine (late_report ∷ [])).0.checkpoints ≡ [])
    × ((accept digest journaled no_trouble at_nine (late_report ∷ [])).0.totals
        ≡ empty_ledger.totals)
    × ((accept digest journaled no_trouble at_nine (late_report ∷ [])).0.duplicates ≡ 0)
accept_refused_example =
    accept_refused digest journaled no_trouble at_nine (late_report ∷ []) gap gap_refused

-- A batch at the Unix epoch is accepted and journaled, and a reopening refuses its record.
epoch_test :
    ((accept digest journaled no_trouble at_epoch (first_report ∷ [])).0.journal
      ≡ some (record { records = accepts (pos 0) (first_report ∷ []) ∷ []; failed = false }))
    × (replay_all digest empty_ledger (accepts (pos 0) (first_report ∷ []) ∷ []) ≡ err malformed)
unfolding accept replay_all get put LedgerKey-discrete ℤ-discrete ℕ_discrete write validate
    saturating_add
epoch_test = (refl, refl)

-- The last call's frame is not synced, but in the file.
abbrev calls : List (Answers × Call)
calls =
    (no_trouble, accepting at_nine (first_report ∷ []))
    ∷ (unsynced, accepting at_nine (record first_report { urr_id = 2 } ∷ []))
    ∷ (no_trouble, closing)
    ∷ []

abbrev written : Journal LedgerRecord
written = record {
  records =
      accepts (pos 9) (first_report ∷ [])
      ∷ accepts (pos 9) (record first_report { urr_id = 2 } ∷ [])
      ∷ [];
  failed = true;
}

run_writes : (run digest journaled calls).journal ≡ some written
unfolding run close accept get put LedgerKey-discrete ℤ-discrete ℕ_discrete write validate
    saturating_add
run_writes = refl

run_recovers_example : Recoverable digest (run digest journaled calls) written
run_recovers_example = run_recovers digest calls written (refl, (refl, (tt, tt))) run_writes

saturating_add-min_example : saturating_add 3 max_uint64 ≡ max_uint64
saturating_add-min_example = saturating_add-min 3 max_uint64 (omega arith)
