-- ===== src/Usage/Ledger/Lifecycle.antt =====
-- RemoveSession and Close of internal/pfcp/usagereport/ledger.go, and the ledger over its lifetime.
use cups.Base.{
  ℕ, ◌≡◌, refl, sym, ap, ◌∙◌, subst, Bool, not, Option, none, some, some-injective, All, false,
  List, [], ◌∷◌, ◌==◌, if◌then◌else◌, Map, get, arith, Bool-cases, if_both, inl, inr, any, IsKeyed,
  AllEntries,
}
use cups.Journal.{Journal, Answers}
use cups.Usage.Report.{Report}
use cups.Usage.Ledger.{
  is_epoch, journaled_ledger, LedgerKey, ledger_key_eq, Checkpoint, Ledger, LedgerRecord, deletes,
  Result, write_record, replay, replay_all, empty_ledger, remove_session, drop_session, of_session,
  close, Call, accepting, removing, closing, step, run,
}
use cups.Usage.Ledger.Snapshot.{KeyOk}
use cups.Usage.Ledger.Recovery.{
  IsValid, Recoverable, IsValid-alike, accept-IsValid, write_to-Written, Written, Written-IsValid,
  unwritten-IsValid,
}

get-drop_session :
    (s : ℕ) (k : LedgerKey) (m : Map LedgerKey Checkpoint)
    → get k (drop_session s m) ≡ (if of_session s k then none else get k m)
unfolding get
get-drop_session s k [] = ground arith
get-drop_session s k ((j, c) ∷ m) = ground (arith, get-drop_session s k m)

drop_session-IsKeyed :
    (s : ℕ) (m : Map LedgerKey Checkpoint) → IsKeyed m → IsKeyed (drop_session s m)
drop_session-IsKeyed s [] u = tt
drop_session-IsKeyed s ((j, c) ∷ m) u =
    ground (arith, drop_session-IsKeyed s m u.1, get-drop_session s j m)

drop_session-KeyOk :
    (s : ℕ) (m : Map LedgerKey Checkpoint)
    → AllEntries KeyOk m
    → AllEntries KeyOk (drop_session s m)
drop_session-KeyOk s [] a = tt
drop_session-KeyOk s ((j, c) ∷ m) a =
    if_both (AllEntries KeyOk) (of_session s j) (drop_session-KeyOk s m a.1)
      (a.0, drop_session-KeyOk s m a.1)

module _ (digest : Report → Option ℕ) where
  remove_session-IsValid :
      (l : Ledger) (io : Answers) (cp_seid : ℕ)
      → IsValid digest l
      → IsValid digest (remove_session l io cp_seid).0
  unfolding remove_session replay
  remove_session-IsValid l io cp_seid v =
      let r = deletes cp_seid in
      let w = write_record l io r in
      elim (Bool-cases (cp_seid == 0)) [
        | inl z ↦ rw z v
        | inr z ↦
            let written =
              write_to-Written digest l io r l.journal v refl (λ m a.
                (record m { checkpoints = drop_session cp_seid m.checkpoints }, rw z refl)) in
            rw z (
              if_both (λ (p : Ledger × Result Bool). IsValid digest p.0) l.closed v
                (if_both (λ (p : Ledger × Result Bool). IsValid digest p.0)
                  (not (any (λ e. of_session cp_seid e.0) l.checkpoints)) v
                  (elim (Bool-cases w.1) [
                    | inr d ↦ rw d (
                        unwritten-IsValid digest l w.0 r v
                          (subst (λ b. Written digest l w.0 b r) d written))
                    | inl d ↦ rw d (
                        Written-IsValid digest l w.0 _ r
                          (subst (λ b. Written digest l w.0 b r) d written) refl
                          (drop_session-IsKeyed cp_seid l.checkpoints v.keyed)
                          (drop_session-KeyOk cp_seid l.checkpoints v.key_ok)
                          (λ m a. (
                            record m { checkpoints = drop_session cp_seid m.checkpoints },
                            rw z,
                            record {
                              totals = a.totals ∙ sym (ap (λ (x : Ledger). x.totals) written.rest);
                              checkpoints = λ k. ground (
                                arith,
                                get-drop_session cp_seid k m.checkpoints,
                                get-drop_session cp_seid k l.checkpoints,
                                a.checkpoints k,
                              );
                            },
                          )))
                  ])))
      ]

  -- A call whose recovery time, if it has one, is not the Unix epoch.
  abbrev pub OffEpoch : Call → Type 0
  OffEpoch (accepting recovery reports) = is_epoch recovery.unix ≡ false
  OffEpoch (removing cp_seid) = Unit
  OffEpoch closing = Unit

  step-IsValid :
      (l : Ledger) (io : Answers) (c : Call)
      → IsValid digest l
      → OffEpoch c
      → IsValid digest (step digest l (io, c))
  unfolding step close
  step-IsValid l io (accepting recovery reports) v h =
      accept-IsValid digest l io recovery reports v h
  step-IsValid l io (removing cp_seid) v h = remove_session-IsValid l io cp_seid v
  step-IsValid l io closing v h = IsValid-alike digest l _ refl refl refl v

  run-IsValid :
      (l : Ledger) (cs : List (Answers × Call))
      → IsValid digest l
      → All (λ (c : Answers × Call). OffEpoch c.1) cs
      → IsValid digest (run digest l cs)
  unfolding run
  run-IsValid l [] v h = v
  run-IsValid l ((io, c) ∷ cs) v h =
      run-IsValid (step digest l (io, c)) cs (step-IsValid l io c v h.0) h.1

  -- A ledger that starts with an empty journal, and any calls of Accept, RemoveSession and Close
  -- whose recovery times are not the Unix epoch, the one second whose records a reopening refuses.
  -- As long as the journal has not failed, a reopening that replays its records succeeds, and finds
  -- the totals and the checkpoint of every key as they were. Once it has failed, in whichever step,
  -- the replay of what is in the file succeeds too, and finds either the same or what one more record
  -- makes of it.
  pub run_recovers :
      (cs : List (Answers × Call)) (j : Journal LedgerRecord)
      → All (λ (c : Answers × Call). OffEpoch c.1) cs
      → (run digest journaled_ledger cs).journal ≡ some j
      → Recoverable digest (run digest journaled_ledger cs) j
  unfolding replay_all get
  run_recovers cs j h e =
      let start : IsValid digest journaled_ledger = record {
        keyed = tt;
        key_ok = tt;
        durable = λ k q.
            let same = some-injective (record { records = []; failed = false }) k q in
            subst (Recoverable digest journaled_ledger) same (record {
              reached = empty_ledger;
              replayed = refl;
              alike = record { totals = refl; checkpoints = λ k. refl };
            });
      } in
      (run-IsValid journaled_ledger cs start h).durable j e
