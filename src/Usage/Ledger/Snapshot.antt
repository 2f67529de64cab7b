-- ===== src/Usage/Ledger/Snapshot.antt =====
-- The snapshot of internal/pfcp/usagereport/ledger.go: replaying it gives the ledger back.
use cups.Base.{
  ℕ, ◌≡◌, refl, sym, ◌∙◌, Bool, false, Option, none, some, [], ◌∷◌, ◌<◌, Map, get, put, arith,
  get-put, Option-cases, inl, inr, map, IsKeyed, AllEntries, sort, insert,
}
use cups.Usage.Report.{Report}
use cups.Usage.Ledger.{
  is_epoch, LedgerKey, ledger_key_eq, Checkpoint, Ledger, ok, key_less, state_record,
  snapshot_records, replay, replay_all, empty_ledger,
}
use cups.Usage.Ledger.Accept.{Alike}

abbrev pub KeyOk : LedgerKey → Checkpoint → Type 0
KeyOk k c = (is_epoch k.recovery_unix ≡ false) × (0 < k.cp_seid) × (0 < k.urr_id)

-- Sorting the entries of a map keeps it a map, with the same contents.
module _ (less : LedgerKey × Checkpoint → LedgerKey × Checkpoint → Bool) where
  get-insert :
      (j : LedgerKey) (e : LedgerKey × Checkpoint) (m : Map LedgerKey Checkpoint)
      → get e.0 m ≡ none
      → get j (insert less e m) ≡ get j (e ∷ m)
  unfolding get insert
  get-insert j (k, c) [] h = refl
  get-insert j (k, c) ((i, d) ∷ m) h = ground (arith, get-insert j (k, c) m)

  insert-IsKeyed :
      (e : LedgerKey × Checkpoint) (m : Map LedgerKey Checkpoint)
      → get e.0 m ≡ none
      → IsKeyed m
      → IsKeyed (insert less e m)
  unfolding get insert
  insert-IsKeyed (k, c) [] h u = (refl, tt)
  insert-IsKeyed (k, c) ((i, d) ∷ m) h u =
      ground (arith, get-insert i (k, c) m, insert-IsKeyed (k, c) m)

  get-sort :
      (j : LedgerKey) (m : Map LedgerKey Checkpoint) → IsKeyed m → get j (sort less m) ≡ get j m
  unfolding sort get
  get-sort j [] u = refl
  get-sort j ((k, c) ∷ m) u =
      get-insert j (k, c) (sort less m) (get-sort k m u.1 ∙ u.0) ∙ ground (arith, get-sort j m u.1)

  sort-IsKeyed : (m : Map LedgerKey Checkpoint) → IsKeyed m → IsKeyed (sort less m)
  unfolding sort
  sort-IsKeyed [] u = tt
  sort-IsKeyed ((k, c) ∷ m) u =
      insert-IsKeyed (k, c) (sort less m) (get-sort k m u.1 ∙ u.0) (sort-IsKeyed m u.1)

  insert-KeyOk :
      (e : LedgerKey × Checkpoint) (m : Map LedgerKey Checkpoint)
      → KeyOk e.0 e.1
      → AllEntries KeyOk m
      → AllEntries KeyOk (insert less e m)
  unfolding insert
  insert-KeyOk (k, c) [] h a = (h, tt)
  insert-KeyOk (k, c) ((i, d) ∷ m) h a = ground (arith, insert-KeyOk (k, c) m)

  sort-KeyOk : (m : Map LedgerKey Checkpoint) → AllEntries KeyOk m → AllEntries KeyOk (sort less m)
  unfolding sort
  sort-KeyOk [] a = tt
  sort-KeyOk ((k, c) ∷ m) a = insert-KeyOk (k, c) (sort less m) a.0 (sort-KeyOk m a.1)

module _ (digest : Report → Option ℕ) where
  -- Replaying the states of a map adds its entries to the ledger, which must have none of them.
  replay_states :
      (l : Ledger) (m : Map LedgerKey Checkpoint)
      → IsKeyed m
      → AllEntries KeyOk m
      → ((k : LedgerKey) (c : Checkpoint) → get k m ≡ some c → get k l.checkpoints ≡ none)
      → (x : Ledger) × (replay_all digest l (map state_record m) ≡ ok x)
        × (x.totals ≡ l.totals)
        × ((k : LedgerKey) (c : Checkpoint) → get k m ≡ some c → get k x.checkpoints ≡ some c)
        × ((k : LedgerKey) → get k m ≡ none → get k x.checkpoints ≡ get k l.checkpoints)
  unfolding replay_all replay get
  replay_states l [] u a h = (l, refl, refl, λ k c e. cc, λ k e. refl)
  replay_states l ((k, c) ∷ m) u a h =
      let l' = record l { checkpoints = put k c l.checkpoints } in
      let fresh : get k l.checkpoints ≡ none = h k c (ground arith) in
      let (x, ex, tx, there, others) =
        replay_states l' m u.1 a.1
          (λ j d e. ground (arith, u.0, get-put k j c l.checkpoints, h j d)) in
      (
        x,
        ground (arith, ex, a.0, fresh),
        tx,
        λ j d e. ground (arith, others j, there j d, get-put k j c l.checkpoints, u.0),
        λ j e. ground (arith, others j, get-put k j c l.checkpoints),
      )

  -- Replaying a snapshot of a ledger into an empty one gives a ledger alike.
  pub replay-snapshot_records :
      (l : Ledger)
      → IsKeyed l.checkpoints
      → AllEntries KeyOk l.checkpoints
      → (x : Ledger) × (replay_all digest empty_ledger (snapshot_records l) ≡ ok x) × Alike l x
  unfolding replay_all replay snapshot_records
  replay-snapshot_records l u a =
      let start : Ledger = record empty_ledger { totals = l.totals } in
      let sorted = sort (λ a b. key_less a.0 b.0) l.checkpoints in
      let (x, ex, tx, there, others) =
        replay_states start sorted (sort-IsKeyed _ l.checkpoints u) (sort-KeyOk _ l.checkpoints a)
          (λ k c e. unfold get in refl) in
      let nothing : (k : LedgerKey) → get k start.checkpoints ≡ none = λ k. unfold get in refl in
      (
        x,
        ex,
        record {
          totals = tx;
          checkpoints = λ k. elim (Option-cases (get k sorted)) [
            | inl e ↦ others k e ∙ nothing k ∙ sym e ∙ get-sort _ k l.checkpoints u
            | inr (c, e) ↦ there k c e ∙ sym e ∙ get-sort _ k l.checkpoints u
          ];
        },
      )
