-- ===== src/Usage/Ledger/Recovery.antt =====
-- The journal of internal/pfcp/usagereport/ledger.go: what a reopening recovers after one attempt to
-- write, and after Accept.
use cups.Base.{
  ℕ, ◌≡◌, refl, sym, ap, ◌∙◌, subst, Bool, true, false, ◌||◌, Option, none, some, some-injective,
  List, [], ◌∷◌, ◌++◌, ◌==◌, Map, get, length, arith, Bool-cases, if_both, inl, inr, IsKeyed,
  AllEntries, put-IsKeyed, AllEntries-put,
}
use cups.Journal.{Journal, Answers, Kept, write, write-cases, write_failed}
use cups.Usage.Report.{Report, validate}
use cups.Usage.Ledger.{
  ℤ, is_epoch, Time, wrote, is_zero, LedgerKey, ledger_key_eq, Checkpoint, Ledger, LedgerRecord,
  accepts, snapshot_records, Result, ok, err, write_record, write_to, Staged, no_staged, key_of,
  accept_report, accept_loop, accept_staged, accept, commit, first_of_both, add_all_totals, replay,
  replay_all, empty_ledger, AcceptResult, gap, conflict,
}
use cups.Usage.Ledger.Accept.{
  Alike, accept_loop-Sim, no_staged-Sim, get-commit, bind_inverts, bind_ok, judge-cases,
  accept_report_ok,
}
use cups.Usage.Ledger.Snapshot.{KeyOk, replay-snapshot_records}

module _ (digest : Report → Option ℕ) where
  pub record Recovers (l : Ledger) (log : List LedgerRecord) : Type 0 where
    pub reached : Ledger
    pub replayed : replay_all digest empty_ledger log ≡ ok reached
    pub alike : Alike l reached

  -- The journal leads to where one more record takes the ledger.
  abbrev pub OneMore : Ledger → List LedgerRecord → Type 0
  OneMore l log =
      (r : LedgerRecord) × (m : Ledger) × (x : Ledger) × Alike l m
      × (replay digest m r ≡ ok x)
      × (replay_all digest empty_ledger log ≡ ok x)

  abbrev pub Recoverable : Ledger → Journal LedgerRecord → Type 0
  Recoverable l j = Kept (Recovers l) (OneMore l) j.failed j.records

  -- A good ledger: keys once and complete, and recovered by its journal.
  pub record IsValid (l : Ledger) : Type 0 where
    pub keyed : IsKeyed l.checkpoints
    pub key_ok : AllEntries KeyOk l.checkpoints
    pub durable : (j : Journal LedgerRecord) → l.journal ≡ some j → Recoverable l j

  replay_all-append :
      (l m : Ledger) (log : List LedgerRecord) (r : LedgerRecord)
      → replay_all digest l log ≡ ok m
      → replay_all digest l (log ++ (r ∷ [])) ≡ replay digest m r
  unfolding replay_all
  replay_all-append l m [] r e = let same : l ≡ m = cc in rw same (bind_ok (replay digest m r))
  replay_all-append l m (x ∷ log) r e =
      let (l', ex, er) = bind_inverts (replay digest l x) (λ y. replay_all digest y log) e in
      rw ex (replay_all-append l' m log r er)

  snapshot-Recovers : (l : Ledger) → IsValid l → Recovers l (snapshot_records l)
  snapshot-Recovers l v =
      let (x, ex, alike) = replay-snapshot_records digest l v.keyed v.key_ok in
      record { reached = x; replayed = ex; alike = alike }

  -- Where an attempt to write a record leaves the journal: it ends with the record if the attempt
  -- succeeded, and else the ledger is recoverable as it was.
  abbrev pub Ended : Ledger → LedgerRecord → Bool → Journal LedgerRecord → Type 0
  Ended l r true j =
      (old : List LedgerRecord) × Recovers l old
      × (j ≡ record { records = old ++ (r ∷ []); failed = false })
  Ended l r false j = Recoverable l j

  pub record Written (l l' : Ledger) (done : Bool) (r : LedgerRecord) : Type 0 where
    pub rest : l' ≡ record l { journal = l'.journal }
    pub ended : (j : Journal LedgerRecord) → l'.journal ≡ some j → Ended l r done j

  wrote-Written :
      (l : Ledger) (r : LedgerRecord) (x : Journal LedgerRecord × Bool)
      → Ended l r x.1 x.0
      → Written l (wrote l x).0 (wrote l x).1 r
  wrote-Written l r (j, done) h = record {
    rest = refl;
    ended = λ k e. subst (Ended l r done) (some-injective j k e) h;
  }

  intact-Recoverable :
      (l : Ledger) (log : List LedgerRecord) (failed : Bool)
      → Recovers l log
      → Recoverable l (record { records = log; failed = failed })
  intact-Recoverable l log false k = k
  intact-Recoverable l log true k = inl k

  write-Written :
      (l : Ledger) (io : Answers) (r : LedgerRecord) (records : List LedgerRecord) (failed : Bool)
      → IsValid l
      → Recoverable l (record { records = records; failed = failed })
      → ((m : Ledger) → Alike l m → (x : Ledger) × (replay digest m r ≡ ok x))
      → Written l
          (wrote l
            (write io (snapshot_records l) r (record { records = records; failed = failed }))).0
          (wrote l
            (write io (snapshot_records l) r (record { records = records; failed = failed }))).1
          r
  write-Written l io r records true v k step =
      rw (write_failed io (snapshot_records l) records r) (wrote-Written l r (_, false) k)
  write-Written l io r records false v k step =
      write-cases (Recovers l) (λ x. Written l (wrote l x).0 (wrote l x).1 r) r
        (λ old p. wrote-Written l r (_, true) (old, p, refl))
        (λ log failed p. wrote-Written l r (_, false) (intact-Recoverable l log failed p))
        (λ old p.
          let (x, ex) = step p.reached p.alike in
          wrote-Written l r (record { records = old ++ (r ∷ []); failed = true }, false)
            (inr (
              r,
              p.reached,
              x,
              p.alike,
              ex,
              replay_all-append empty_ledger p.reached old r p.replayed ∙ ex,
            )))
        io (snapshot_records l) records (snapshot-Recovers l v) k

  pub write_to-Written :
      (l : Ledger) (io : Answers) (r : LedgerRecord) (o : Option (Journal LedgerRecord))
      → IsValid l
      → l.journal ≡ o
      → ((m : Ledger) → Alike l m → (x : Ledger) × (replay digest m r ≡ ok x))
      → Written l (write_to l io r o).0 (write_to l io r o).1 r
  write_to-Written l io r none v e step = record {
    rest = refl;
    ended = λ j q. absurd (ground arith);
  }
  write_to-Written l io r (some j) v e step =
      write-Written l io r j.records j.failed v (v.durable j e) step

  commit-IsKeyed : (staged m : Map LedgerKey Checkpoint) → IsKeyed m → IsKeyed (commit staged m)
  unfolding commit
  commit-IsKeyed [] m u = u
  commit-IsKeyed ((k, c) ∷ staged) m u =
      put-IsKeyed k c (commit staged m) (commit-IsKeyed staged m u)

  commit-KeyOk :
      (staged m : Map LedgerKey Checkpoint)
      → AllEntries KeyOk staged
      → AllEntries KeyOk m
      → AllEntries KeyOk (commit staged m)
  unfolding commit
  commit-KeyOk [] m s a = a
  commit-KeyOk ((k, c) ∷ staged) m s a =
      AllEntries-put KeyOk k c (commit staged m) (commit-KeyOk staged m s.1 a) s.0

  validate-KeyOk :
      (recovery : ℤ) (r : Report) (c : Checkpoint)
      → is_epoch recovery ≡ false
      → validate r ≡ true
      → KeyOk (key_of recovery r) c
  unfolding validate
  validate-KeyOk recovery r c h v = ground arith

  accept_report-KeyOk :
      (recovery : ℤ) (m : Map LedgerKey Checkpoint) (r : Report) (s s' : Staged)
      → is_epoch recovery ≡ false
      → AllEntries KeyOk s.staged
      → accept_report digest recovery m r s ≡ ok s'
      → AllEntries KeyOk s'.staged
  accept_report-KeyOk recovery m r s s' h a e =
      let (d, v, ed, judged) = accept_report_ok digest recovery m r s s' e in
      let current = first_of_both (get (key_of recovery r) s.staged) (get (key_of recovery r) m) in
      let c : Checkpoint = record { sequence = r.sequence; digest = d } in
      elim (judge-cases recovery r d current s s' judged) [
        | inl same ↦ rw same.0 a
        | inr (staged, o) ↦ rw staged (
            AllEntries-put KeyOk (key_of recovery r) c s.staged a (validate-KeyOk recovery r c h v))
      ]

  accept_loop-KeyOk :
      (recovery : ℤ) (m : Map LedgerKey Checkpoint) (rs : List Report) (s s' : Staged)
      → is_epoch recovery ≡ false
      → AllEntries KeyOk s.staged
      → accept_loop digest recovery m rs s ≡ ok s'
      → AllEntries KeyOk s'.staged
  unfolding accept_loop
  accept_loop-KeyOk recovery m [] s s' h a e = let same : s ≡ s' = cc in rw (sym same) a
  accept_loop-KeyOk recovery m (r ∷ rs) s s' h a e =
      let (t, er, es) =
        bind_inverts (accept_report digest recovery m r s) (λ y. accept_loop digest recovery m rs y)
          e in
      accept_loop-KeyOk recovery m rs t s' h (accept_report-KeyOk recovery m r s t h a er) es

  replay-accepts :
      (l m : Ledger) (recovery : ℤ) (rs : List Report) (s : Staged)
      → is_epoch recovery ≡ false
      → (length s.new_reports == 0) ≡ false
      → Alike l m
      → accept_loop digest recovery l.checkpoints rs no_staged ≡ ok s
      → (x : Ledger) × (replay digest m (accepts recovery s.new_reports) ≡ ok x)
        × (x.totals ≡ add_all_totals l.totals s.new_reports)
        × ((k : LedgerKey) → get k x.checkpoints ≡ get k (commit s.staged l.checkpoints))
  unfolding replay
  replay-accepts l m recovery rs s h n a e =
      let sim =
        accept_loop-Sim digest recovery l m rs no_staged s (no_staged-Sim digest recovery l m a)
          e in
      (
        sim.reached,
        ground (arith, sim.replayed),
        sim.totals,
        λ k. sim.checkpoints k ∙ sym (get-commit k s.staged l.checkpoints),
      )

  Alike-same :
      (l l' m : Ledger)
      → l'.totals ≡ l.totals
      → l'.checkpoints ≡ l.checkpoints
      → Alike l m
      → Alike l' m
  Alike-same l l' m t c a = record {
    totals = a.totals ∙ sym t;
    checkpoints = λ k. rw c (a.checkpoints k);
  }

  Recovers-alike :
      (l l' : Ledger) (log : List LedgerRecord)
      → l'.totals ≡ l.totals
      → l'.checkpoints ≡ l.checkpoints
      → Recovers l log
      → Recovers l' log
  Recovers-alike l l' log t c k = record {
    reached = k.reached;
    replayed = k.replayed;
    alike = Alike-same l l' k.reached t c k.alike;
  }

  Recoverable-alike :
      (l l' : Ledger) (log : List LedgerRecord) (failed : Bool)
      → l'.totals ≡ l.totals
      → l'.checkpoints ≡ l.checkpoints
      → Recoverable l (record { records = log; failed = failed })
      → Recoverable l' (record { records = log; failed = failed })
  Recoverable-alike l l' log false t c k = Recovers-alike l l' log t c k
  Recoverable-alike l l' log true t c (inl k) = inl (Recovers-alike l l' log t c k)
  Recoverable-alike l l' log true t c (inr (r, m, x, a, step, run)) =
      inr (r, m, x, Alike-same l l' m t c a, step, run)

  pub IsValid-alike :
      (l l' : Ledger)
      → l'.totals ≡ l.totals
      → l'.checkpoints ≡ l.checkpoints
      → l'.journal ≡ l.journal
      → IsValid l
      → IsValid l'
  IsValid-alike l l' t c j v = record {
    keyed = rw c v.keyed;
    key_ok = rw c v.key_ok;
    durable = λ k e. Recoverable-alike l l' k.records k.failed t c (v.durable k (sym j ∙ e));
  }

  -- A failed write leaves a good ledger.
  pub unwritten-IsValid :
      (l l' : Ledger) (r : LedgerRecord) → IsValid l → Written l l' false r → IsValid l'
  unwritten-IsValid l l' r v w = record {
    keyed = rw (ap (λ (x : Ledger). x.checkpoints) w.rest) v.keyed;
    key_ok = rw (ap (λ (x : Ledger). x.checkpoints) w.rest) v.key_ok;
    durable = λ k e.
        Recoverable-alike l l' k.records k.failed (ap (λ (x : Ledger). x.totals) w.rest)
          (ap (λ (x : Ledger). x.checkpoints) w.rest) (w.ended k e);
  }

  -- A record was written, and the ledger then moved to where replaying the record leads.
  pub Written-IsValid :
      (l l' after : Ledger) (r : LedgerRecord)
      → Written l l' true r
      → after.journal ≡ l'.journal
      → IsKeyed after.checkpoints
      → AllEntries KeyOk after.checkpoints
      → ((m : Ledger) → Alike l m → (x : Ledger) × (replay digest m r ≡ ok x) × Alike after x)
      → IsValid after
  Written-IsValid l l' after r w j u a step = record {
    keyed = u;
    key_ok = a;
    durable = λ k e.
        let (old, p, same) = w.ended k (sym j ∙ e) in
        let (x, ex, alike) = step p.reached p.alike in
        let after_replay : Recovers after (old ++ (r ∷ [])) = record {
          reached = x;
          replayed = replay_all-append empty_ledger p.reached old r p.replayed ∙ ex;
          alike = alike;
        } in
        subst (Recoverable after) (sym same) after_replay;
  }

  accept_staged-IsValid :
      (l : Ledger) (io : Answers) (recovery : ℤ) (rs : List Report) (res : Result Staged)
      → IsValid l
      → is_epoch recovery ≡ false
      → accept_loop digest recovery l.checkpoints rs no_staged ≡ res
      → IsValid (accept_staged digest l io recovery res).0
  unfolding accept_staged
  accept_staged-IsValid l io recovery rs (err gap) v h e = IsValid-alike l _ refl refl refl v
  accept_staged-IsValid l io recovery rs (err conflict) v h e = IsValid-alike l _ refl refl refl v
  accept_staged-IsValid l io recovery rs (err _) v h e = v
  accept_staged-IsValid l io recovery rs (ok s) v h e =
      let r = accepts recovery s.new_reports in
      let w = write_record l io r in
      elim (Bool-cases (length s.new_reports == 0)) [
        | inl n ↦ rw n (IsValid-alike l _ refl refl refl v)
        | inr n ↦
            let written =
              write_to-Written l io r l.journal v refl (λ m a.
                let (x, ex, tx, cx) = replay-accepts l m recovery rs s h n a e in (x, ex)) in
            rw n (elim (Bool-cases w.1) [
              | inr d ↦
                  rw d (unwritten-IsValid l w.0 r v (subst (λ b. Written l w.0 b r) d written))
              | inl d ↦ rw d (
                  Written-IsValid l w.0 _ r (subst (λ b. Written l w.0 b r) d written) refl
                    (commit-IsKeyed s.staged l.checkpoints v.keyed)
                    (commit-KeyOk s.staged l.checkpoints
                      (accept_loop-KeyOk recovery l.checkpoints rs no_staged s h tt e) v.key_ok)
                    (λ m a.
                      let (x, ex, tx, cx) = replay-accepts l m recovery rs s h n a e in
                      (x, ex, record { totals = tx; checkpoints = cx })))
            ])
      ]

  -- Whatever reports come and whatever the journal answers, Accept with a recovery time that is not
  -- the Unix epoch leaves a ledger that its journal recovers.
  pub accept-IsValid :
      (l : Ledger) (io : Answers) (recovery : Time) (rs : List Report)
      → IsValid l
      → is_epoch recovery.unix ≡ false
      → IsValid (accept digest l io recovery rs).0
  unfolding accept
  accept-IsValid l io recovery rs v h = elim (Bool-cases (is_zero recovery || length rs == 0)) [
    | inl t ↦ rw t v
    | inr t ↦ rw t (
        if_both (λ (p : Ledger × Result AcceptResult). IsValid p.0) l.closed v
          (accept_staged-IsValid l io recovery.unix rs _ v h refl))
  ]
