-- ===== src/Usage/Ledger/Atomic.antt =====
-- Accept of internal/pfcp/usagereport/ledger.go as seen by its caller.
use cups.Base.{
  ℕ, ◌+◌, ◌≡◌, refl, Option, none, some, List, [], ◌∷◌, Map, length, arith, inl, inr, ◌⊎◌,
  length-append,
}
use cups.Journal.{Answers}
use cups.Usage.Report.{Report}
use cups.Usage.Ledger.{
  ℤ, Time, LedgerKey, ledger_key_eq, Checkpoint, Ledger, Result, ok, err, accept, accept_loop,
  accept_report, accept_staged, no_staged, Staged, judge, AcceptResult, Failure, gap, conflict,
}
use cups.Usage.Ledger.Accept.{bind_inverts, accept_report_ok}

module _ (digest : Report → Option ℕ) where
  accept_staged_keeps :
      (l : Ledger) (io : Answers) (recovery : ℤ) (res : Result Staged) (f : Failure)
      → (accept_staged digest l io recovery res).1 ≡ err f
      → ((accept_staged digest l io recovery res).0.checkpoints ≡ l.checkpoints)
        × ((accept_staged digest l io recovery res).0.totals ≡ l.totals)
        × ((accept_staged digest l io recovery res).0.duplicates ≡ l.duplicates)
  unfolding accept_staged
  accept_staged_keeps l io recovery (err gap) f e = (refl, refl, refl)
  accept_staged_keeps l io recovery (err conflict) f e = (refl, refl, refl)
  accept_staged_keeps l io recovery (err _) f e = (refl, refl, refl)
  accept_staged_keeps l io recovery (ok s) f e = ground arith

  -- A batch that is refused, for whatever reason, changes no checkpoint, no total and no count of
  -- duplicates.
  pub accept_refused :
      (l : Ledger) (io : Answers) (recovery : Time) (rs : List Report) (f : Failure)
      → (accept digest l io recovery rs).1 ≡ err f
      → ((accept digest l io recovery rs).0.checkpoints ≡ l.checkpoints)
        × ((accept digest l io recovery rs).0.totals ≡ l.totals)
        × ((accept digest l io recovery rs).0.duplicates ≡ l.duplicates)
  unfolding accept
  accept_refused l io recovery rs f e = ground (
    arith,
    accept_staged_keeps l io recovery.unix
        (accept_loop digest recovery.unix l.checkpoints rs no_staged) f,
  )

  judge_counts :
      (recovery : ℤ) (r : Report) (d : ℕ) (o : Option Checkpoint) (s s' : Staged)
      → judge recovery r d o s ≡ ok s'
      → (s'.result.accepted + s'.result.duplicate ≡ s.result.accepted + s.result.duplicate + 1)
        × (s'.result.accepted + length s.new_reports ≡ s.result.accepted + length s'.new_reports)
  unfolding judge
  judge_counts recovery r d none s s' e = ground (arith, length-append s.new_reports (r ∷ []))
  judge_counts recovery r d (some c) s s' e = ground (arith, length-append s.new_reports (r ∷ []))

  accept_loop_counts :
      (recovery : ℤ) (m : Map LedgerKey Checkpoint) (rs : List Report) (s s' : Staged)
      → accept_loop digest recovery m rs s ≡ ok s'
      → (s'.result.accepted + s'.result.duplicate
          ≡ s.result.accepted + s.result.duplicate + length rs)
        × (s'.result.accepted + length s.new_reports ≡ s.result.accepted + length s'.new_reports)
  unfolding accept_loop
  accept_loop_counts recovery m [] s s' e = ground arith
  accept_loop_counts recovery m (r ∷ rs) s s' e =
      let (t, er, es) =
        bind_inverts (accept_report digest recovery m r s) (λ y. accept_loop digest recovery m rs y)
          e in
      let (d, v, ed, judged) = accept_report_ok digest recovery m r s t er in
      omega
        (arith, judge_counts recovery r d _ s t judged, accept_loop_counts recovery m rs t s' es)

  -- A batch that is accepted has each of its reports counted once, as new or as a duplicate.
  pub accept_counts :
      (l : Ledger) (io : Answers) (recovery : Time) (rs : List Report) (a : AcceptResult)
      → (accept digest l io recovery rs).1 ≡ ok a
      → a.accepted + a.duplicate ≡ length rs
  unfolding accept accept_staged
  accept_counts l io recovery rs a e =
      elim (result-cases (accept_loop digest recovery.unix l.checkpoints rs no_staged)) [
        | inl (s, es) ↦
            ground (arith, accept_loop_counts recovery.unix l.checkpoints rs no_staged s es)
        | inr (f, ef) ↦ absurd (ground arith)
      ]
    where
      result-cases :
          (m : Result Staged) → ((s : Staged) × (m ≡ ok s)) ⊎ ((f : Failure) × (m ≡ err f))
      result-cases (ok s) = inl (s, refl)
      result-cases (err f) = inr (f, refl)
