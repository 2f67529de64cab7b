-- ===== src/Usage/Ledger/Accept.antt =====
-- Accept's loop in internal/pfcp/usagereport/ledger.go against the replay of what it accepts.
use cups.Base.{
  ℕ, ◌≡◌, refl, sym, ap, subst, ◌∙◌, true, false, Option, none, some, List, [], ◌∷◌, ◌++◌, Map, get,
  put, arith, get-put, Option-cases, Bool-cases, inl, inr, ◌⊎◌,
}
use cups.Usage.Report.{Report, validate}
use cups.Usage.Ledger.{
  ℤ, LedgerKey, ledger_key_eq, Checkpoint, LedgerTotals, Ledger, Result, ok, err, ◌>>=◌, Staged,
  add_totals, add_all_totals, key_of, first_of_both, commit, stage, judge, accept_report,
  accept_loop, out_of_order, replay_report, replay_reports, no_staged,
}

pub get-commit :
    (k : LedgerKey) (staged m : Map LedgerKey Checkpoint)
    → get k (commit staged m) ≡ first_of_both (get k staged) (get k m)
unfolding commit get
get-commit k [] m = refl
get-commit k ((j, c) ∷ staged) m =
    ground (arith, get-put j k c (commit staged m), get-commit k staged m)

-- Two ledgers that a reader cannot tell apart: the same totals and the same checkpoint of every key.
pub record Alike (l m : Ledger) : Type 0 where
  pub totals : m.totals ≡ l.totals
  pub checkpoints : (k : LedgerKey) → get k m.checkpoints ≡ get k l.checkpoints

add_all_totals-append :
    (t : LedgerTotals) (rs : List Report) (r : Report)
    → add_all_totals t (rs ++ (r ∷ [])) ≡ add_totals (add_all_totals t rs) r
unfolding add_all_totals
add_all_totals-append t [] r = refl
add_all_totals-append t (x ∷ rs) r = add_all_totals-append (add_totals t x) rs r

-- A chain that ends well has a first step that ends well.
pub bind_inverts :
    {A B : Type 0} (first : Result A) (next : A → Result B) {last : B}
    → first >>= next ≡ ok last
    → (mid : A) × (first ≡ ok mid) × (next mid ≡ ok last)
bind_inverts (ok mid) next ends = (mid, refl, ends)
bind_inverts (err failure) next ends = cc

pub bind_ok : {A : Type 0} (last : Result A) → (last >>= ok) ≡ last
bind_ok (ok a) = refl
bind_ok (err failure) = refl

-- A report that is judged good is a duplicate, or is staged and continues the sequence of its key.
pub judge-cases :
    (recovery : ℤ) (r : Report) (d : ℕ) (current : Option Checkpoint) (s s' : Staged)
    → judge recovery r d current s ≡ ok s'
    → ((s'.staged ≡ s.staged) × (s'.new_reports ≡ s.new_reports))
      ⊎ ((s' ≡ stage recovery r d s) × (out_of_order r current ≡ false))
unfolding judge
judge-cases recovery r d none s s' e = ground arith
judge-cases recovery r d (some c) s s' e = ground arith

module _ (digest : Report → Option ℕ) (recovery : ℤ) where
  pub replay_reports-append :
      (l m : Ledger) (rs : List Report) (r : Report)
      → replay_reports digest recovery l rs ≡ ok m
      → replay_reports digest recovery l (rs ++ (r ∷ [])) ≡ replay_report digest recovery m r
  unfolding replay_reports
  replay_reports-append l m [] r e =
      let same : l ≡ m = cc in rw same (bind_ok (replay_report digest recovery m r))
  replay_reports-append l m (x ∷ rs) r e =
      let (l', ex, er) =
        bind_inverts (replay_report digest recovery l x) (λ y. replay_reports digest recovery y rs)
          e in
      rw ex (replay_reports-append l' m rs r er)

  -- Replaying what the loop has taken so far, from the ledger `m`, gives what it has staged over `l`.
  pub record Sim (l m : Ledger) (s : Staged) : Type 0 where
    pub reached : Ledger
    pub replayed : replay_reports digest recovery m s.new_reports ≡ ok reached
    pub totals : reached.totals ≡ add_all_totals l.totals s.new_reports
    pub checkpoints :
        (k : LedgerKey)
        → get k reached.checkpoints ≡ first_of_both (get k s.staged) (get k l.checkpoints)

  replay_report_lem :
      (x : Ledger) (r : Report) (d : ℕ)
      → validate r ≡ true
      → digest r ≡ some d
      → out_of_order r (get (key_of recovery r) x.checkpoints) ≡ false
      → replay_report digest recovery x r
        ≡ ok (record x {
          checkpoints =
              put (key_of recovery r) (record { sequence = r.sequence; digest = d }) x.checkpoints;
          totals = add_totals x.totals r;
        })
  unfolding replay_report
  replay_report_lem x r d v e o = ground arith

  stage-Sim :
      (l m : Ledger) (s : Staged) (r : Report) (d : ℕ)
      → Sim l m s
      → validate r ≡ true
      → digest r ≡ some d
      → out_of_order r
          (first_of_both (get (key_of recovery r) s.staged) (get (key_of recovery r) l.checkpoints))
        ≡ false
      → Sim l m (stage recovery r d s)
  stage-Sim l m s r d sim v e o =
      let key = key_of recovery r in
      let c : Checkpoint = record { sequence = r.sequence; digest = d } in
      let x = sim.reached in
      record {
        reached = record x {
          checkpoints = put key c x.checkpoints;
          totals = add_totals x.totals r;
        };
        replayed =
            replay_reports-append m x s.new_reports r sim.replayed
            ∙ replay_report_lem x r d v e (rw (sim.checkpoints key) o);
        totals =
            ap (λ t. add_totals t r) sim.totals
            ∙ sym (add_all_totals-append l.totals s.new_reports r);
        checkpoints = λ k.
            ground
              (arith, get-put key k c x.checkpoints, get-put key k c s.staged, sim.checkpoints k);
      }

  -- A report that passes has been validated, has a digest and was judged by its key's checkpoint.
  pub accept_report_ok :
      (m : Map LedgerKey Checkpoint) (r : Report) (s s' : Staged)
      → accept_report digest recovery m r s ≡ ok s'
      → (d : ℕ) × (validate r ≡ true)
        × (digest r ≡ some d)
        × (judge recovery r d
              (first_of_both (get (key_of recovery r) s.staged) (get (key_of recovery r) m))
              s
            ≡ ok s')
  unfolding accept_report
  accept_report_ok m r s s' e = elim (Bool-cases (validate r)) [
    | inr v ↦ absurd (ground arith)
    | inl v ↦ elim (Option-cases (digest r)) [
      | inl n ↦ absurd (ground arith)
      | inr (d, ed) ↦ (d, v, ed, ground arith)
    ]
  ]

  pub accept_report-Sim :
      (l m : Ledger) (r : Report) (s s' : Staged)
      → Sim l m s
      → accept_report digest recovery l.checkpoints r s ≡ ok s'
      → Sim l m s'
  accept_report-Sim l m r s s' sim e =
      let (d, v, ed, judged) = accept_report_ok l.checkpoints r s s' e in
      let current =
        first_of_both (get (key_of recovery r) s.staged) (get (key_of recovery r) l.checkpoints) in
      elim (judge-cases recovery r d current s s' judged) [
        | inl same ↦ record {
          reached = sim.reached;
          replayed = rw same.1 sim.replayed;
          totals = rw same.1 sim.totals;
          checkpoints = λ k. rw same.0 (sim.checkpoints k);
        }
        | inr (staged, o) ↦ rw staged (stage-Sim l m s r d sim v ed o)
      ]

  pub accept_loop-Sim :
      (l m : Ledger) (rs : List Report) (s s' : Staged)
      → Sim l m s
      → accept_loop digest recovery l.checkpoints rs s ≡ ok s'
      → Sim l m s'
  unfolding accept_loop
  accept_loop-Sim l m [] s s' sim e = let same : s ≡ s' = cc in subst (Sim l m) same sim
  accept_loop-Sim l m (r ∷ rs) s s' sim e =
      let (t, er, es) =
        bind_inverts (accept_report digest recovery l.checkpoints r s)
          (λ y. accept_loop digest recovery l.checkpoints rs y) e in
      accept_loop-Sim l m rs t s' (accept_report-Sim l m r s t sim er) es

  pub no_staged-Sim : (l m : Ledger) → Alike l m → Sim l m no_staged
  unfolding replay_reports add_all_totals get
  no_staged-Sim l m a = record {
    reached = m;
    replayed = refl;
    totals = a.totals;
    checkpoints = a.checkpoints;
  }
