-- ===== src/Journal.antt =====
-- internal/controlstate/journal.go, as its clients see it: Append and Compact over the records that
-- a reopening would replay. The file, its frames, checksums and lock stay out; which step of a call
-- fails is an argument. A journal here has been opened and started, and is not closed.
use cups.Base.{
  Bool, true, false, not, ◌&&◌, List, [], ◌∷◌, ◌++◌, ◌≡◌, refl, if◌then◌else◌, ◌⊎◌, inl, inr,
  Bool-cases,
}

pub record Journal (R : Type 0) : Type 0 where
  pub records : List R
  pub failed : Bool

-- How Append ends. `declined` is a record of a length that is not accepted. `lost` is a failure
-- that leaves no whole frame: no capacity, or a write that stops short, whose tail a reopening cuts
-- off. `doubted` is a failure of Sync, after the frame is in the file.
pub data Appending : Type 0 where
  appended declined lost doubted : Appending

-- How Compact ends. `kept` is a failure before the rename, `half_replaced` one after it.
pub data Compaction : Type 0 where
  replaced kept half_replaced : Compaction

-- What the journal answers in one call: whether NeedsCompaction holds of a journal that has not
-- failed, and how the two steps end.
pub record Answers : Type 0 where
  pub needs_compaction : Bool
  pub compaction : Compaction
  pub appending : Appending

module _ {R : Type 0} where
  abbrev pub end_append : Appending → R → Journal R → Journal R × Bool
  end_append appended r j = (record j { records = j.records ++ r ∷ [] }, true)
  end_append declined r j = (j, false)
  end_append lost r j = (record j { failed = true }, false)
  end_append doubted r j = (record j { records = j.records ++ r ∷ []; failed = true }, false)

  -- Append, with whether it succeeds.
  abbrev pub append : Appending → R → Journal R → Journal R × Bool
  append a r j = if j.failed then (j, false) else end_append a r j

  abbrev pub end_compact : Compaction → List R → Journal R → Journal R × Bool
  end_compact replaced rs j = (record j { records = rs }, true)
  end_compact kept rs j = (j, false)
  end_compact half_replaced rs j = (record { records = rs; failed = true }, false)

  -- Compact, with whether it succeeds.
  abbrev pub compact : Compaction → List R → Journal R → Journal R × Bool
  compact c rs j = if j.failed then (j, false) else end_compact c rs j

  abbrev pub append_if : Appending → R → Journal R × Bool → Journal R × Bool
  append_if a r (j, false) = (j, false)
  append_if a r (j, true) = append a r j

  -- A client's commit: a compaction to its live records if that is wanted, then the new record.
  unfoldable pub write : Answers → List R → R → Journal R → Journal R × Bool
  write a live r j =
      append_if a.appending r
        (if a.needs_compaction && not j.failed then compact a.compaction live j else (j, true))

  -- A journal that has not failed satisfies the first, one that has failed may satisfy the second.
  abbrev pub Kept {κ} : (List R → Type κ) → (List R → Type κ) → Bool → List R → Type κ
  Kept P Q false records = P records
  Kept P Q true records = P records ⊎ Q records

  -- The ways in which a commit ends. `P` is what the client's records satisfy before it.
  module _ {κ} (P : List R → Type 0) (G : Journal R × Bool → Type κ) (r : R)
      (written : (old : List R)
        → P old
        → G (record { records = old ++ r ∷ []; failed = false }, true))
      (intact : (records : List R) (failed : Bool)
        → P records
        → G (record { records = records; failed = failed }, false))
      (doubtful : (old : List R)
        → P old
        → G (record { records = old ++ r ∷ []; failed = true }, false)) where
    end_append-cases :
        (a : Appending) (records : List R)
        → P records
        → G (end_append a r (record { records = records; failed = false }))
    end_append-cases appended records p = written records p
    end_append-cases declined records p = intact records false p
    end_append-cases lost records p = intact records true p
    end_append-cases doubted records p = doubtful records p

    end_compact-cases :
        (c : Compaction) (a : Appending) (live records : List R)
        → P live
        → P records
        → G (append_if a r (end_compact c live (record { records = records; failed = false })))
    end_compact-cases replaced a live records l p = end_append-cases a live l
    end_compact-cases kept a live records l p = intact records false p
    end_compact-cases half_replaced a live records l p = intact live true l

    pub write-cases :
        (a : Answers) (live records : List R)
        → P live
        → P records
        → G (write a live r (record { records = records; failed = false }))
    unfolding write
    write-cases a live records l p = elim (Bool-cases a.needs_compaction) [
      | inl e ↦ rw e (end_compact-cases a.compaction a.appending live records l p)
      | inr e ↦ rw e (end_append-cases a.appending records p)
    ]

  -- A journal that has failed stays as it is.
  pub write_failed :
      (a : Answers) (live records : List R) (r : R)
      → write a live r (record { records = records; failed = true })
        ≡ (record { records = records; failed = true }, false)
  unfolding write
  write_failed a live records r = elim (Bool-cases a.needs_compaction) [
    | inl e ↦ rw e refl
    | inr e ↦ rw e refl
  ]
