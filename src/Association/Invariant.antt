-- ===== src/Association/Invariant.antt =====
-- The invariant of internal/pfcp/association/manager.go.
use cups.Base.{
  ℕ, ◌+◌, ◌<◌, ◌≡◌, refl, Option, none, some, List, [], ◌∷◌, arith, get, put, IsKeyed, AllEntries,
  AllEntries-get, AllEntries-put, AllEntries-del, put-IsKeyed, del-IsKeyed, map_values-IsKeyed,
  map_values, Map, All, inl, inr, Option-cases, Bool-cases, not, ◌||◌, has,
}
use cups.Net.{Addr, unmap, is_valid, addr_eq}
use cups.Association.{
  State, state_eq, unavailable, associated, grace, reconciling, Record, Manager, setup_record,
  setup, touch, sweep_record, sweep, complete, restore_unavailable, release, Call, sets_up, touches,
  completes, restores, releases, sweeps, step, run, new, Config,
}

-- The grace times fit the state: outside a grace period both are zero, inside one the deadline is
-- one window after the start.
abbrev pub GraceTimes : ℕ → State → ℕ → ℕ → Type 0
GraceTimes window unavailable start deadline = (start ≡ 0) × (deadline ≡ 0)
GraceTimes window associated start deadline = (start ≡ 0) × (deadline ≡ 0)
GraceTimes window grace start deadline = (0 < start) × (deadline ≡ start + window)
GraceTimes window reconciling start deadline = (0 < start) × (deadline ≡ start + window)

abbrev pub RecordOk : ℕ → Addr → Record → Type 0
RecordOk window p r = (r.peer ≡ p) × GraceTimes window r.state r.grace_started r.grace_deadline

pub record IsValid (m : Manager) : Type 0 where
  pub keyed : IsKeyed m.records
  pub entries : AllEntries (RecordOk m.grace_window) m.records

setup_record-RecordOk :
    (window now : ℕ) (p node : Addr) (fqdn : List ℕ) (recovery : ℕ) (o : Option Record)
    → 0 < now
    → ((r : Record) → o ≡ some r → RecordOk window p r)
    → RecordOk window p (setup_record window now p node fqdn recovery o).accepted
unfolding setup_record
setup_record-RecordOk window now p node fqdn recovery none h k = (refl, (refl, refl))
setup_record-RecordOk window now p node fqdn recovery (some r) h k =
    let known = k r refl in ground arith

sweep_record-RecordOk :
    (timeout window now : ℕ) (p : Addr) (r : Record)
    → 0 < now
    → RecordOk window p r
    → RecordOk window p (sweep_record timeout window now r)
unfolding sweep_record
sweep_record-RecordOk timeout window now p r h k = ground arith

pub entry-RecordOk :
    (m : Manager) (p : Addr)
    → IsValid m
    → (r : Record) → get p m.records ≡ some r
    → RecordOk m.grace_window p r
entry-RecordOk m p v r e = AllEntries-get (RecordOk m.grace_window) p r m.records v.entries e

-- A write of a good record keeps the invariant.
put-IsValid :
    (m : Manager) (p : Addr) (r : Record)
    → IsValid m
    → RecordOk m.grace_window p r
    → IsValid (record m { records = put p r m.records })
put-IsValid m p r v k = record {
  keyed = put-IsKeyed p r m.records v.keyed;
  entries = AllEntries-put (RecordOk m.grace_window) p r m.records v.entries k;
}

setup-IsValid :
    (m : Manager) (now : ℕ) (peer node : Addr) (fqdn : List ℕ) (recovery : ℕ)
    → 0 < now
    → IsValid m
    → IsValid (setup m now peer node fqdn recovery).0
unfolding setup
setup-IsValid m now peer node fqdn recovery h v = put-IsValid m (unmap peer) _ v (
    setup_record-RecordOk m.grace_window now (unmap peer) (unmap node) fqdn recovery
      (get (unmap peer) m.records) h (entry-RecordOk m (unmap peer) v))

touch-IsValid : (m : Manager) (now : ℕ) (peer : Addr) → IsValid m → IsValid (touch m now peer)
unfolding touch
touch-IsValid m now peer v = elim (Option-cases (get (unmap peer) m.records)) [
  | inl e ↦ rw (e, touch) v
  | inr (r, e) ↦
      rw (e, touch) (put-IsValid m (unmap peer) _ v (entry-RecordOk m (unmap peer) v r e))
]

complete-IsValid :
    (m : Manager) (now : ℕ) (peer : Addr) → IsValid m → IsValid (complete m now peer).0
unfolding complete
complete-IsValid m now peer v = elim (Option-cases (get (unmap peer) m.records)) [
  | inl e ↦ rw (e, complete) v
  | inr (r, e) ↦
      let known = entry-RecordOk m (unmap peer) v r e in
      rw (e, complete)
        (elim (Bool-cases (state_eq r.state reconciling)) [
          | inl c ↦ rw c (put-IsValid m (unmap peer) _ v (known.0, (refl, refl)))
          | inr c ↦ rw c v
        ])
]

restore-IsValid : (m : Manager) (peer : Addr) → IsValid m → IsValid (restore_unavailable m peer)
unfolding restore_unavailable
restore-IsValid m peer v =
    elim (Bool-cases (not (is_valid (unmap peer)) || has (unmap peer) m.records)) [
      | inl c ↦ rw c v
      | inr c ↦ rw c (put-IsValid m (unmap peer) _ v (refl, (refl, refl)))
    ]

release-IsValid : (m : Manager) (peer : Addr) → IsValid m → IsValid (release m peer).0
unfolding release
release-IsValid m peer v = elim (Bool-cases (has (unmap peer) m.records)) [
  | inl c ↦ rw c (record {
    keyed = del-IsKeyed (unmap peer) m.records v.keyed;
    entries = AllEntries-del (RecordOk m.grace_window) (unmap peer) m.records v.entries;
  })
  | inr c ↦ rw c v
]

sweep-entries :
    (timeout window now : ℕ) (m : Map Addr Record)
    → 0 < now
    → AllEntries (RecordOk window) m
    → AllEntries (RecordOk window) (map_values (sweep_record timeout window now) m)
unfolding map_values
sweep-entries timeout window now [] h a = tt
sweep-entries timeout window now ((p, r) ∷ m) h a =
    (sweep_record-RecordOk timeout window now p r h a.0, sweep-entries timeout window now m h a.1)

sweep-IsValid : (m : Manager) (now : ℕ) → 0 < now → IsValid m → IsValid (sweep m now).0
unfolding sweep
sweep-IsValid m now h v = record {
  keyed = map_values-IsKeyed (sweep_record m.timeout m.grace_window now) m.records v.keyed;
  entries = sweep-entries m.timeout m.grace_window now m.records h v.entries;
}

-- Every call at a set clock keeps each peer once and its grace times consistent with its state.
pub step-IsValid :
    (m : Manager) (now : ℕ) (c : Call) → 0 < now → IsValid m → IsValid (step m (now, c))
unfolding step
step-IsValid m now (sets_up peer node fqdn recovery) h v =
    setup-IsValid m now peer node fqdn recovery h v
step-IsValid m now (touches peer) h v = touch-IsValid m now peer v
step-IsValid m now (completes peer) h v = complete-IsValid m now peer v
step-IsValid m now (restores peer) h v = restore-IsValid m peer v
step-IsValid m now (releases peer) h v = release-IsValid m peer v
step-IsValid m now sweeps h v = sweep-IsValid m now h v

run_from-IsValid :
    (m : Manager) (cs : List (ℕ × Call)) → All (λ c. 0 < c.0) cs → IsValid m → IsValid (run m cs)
unfolding run
run_from-IsValid m [] h v = v
run_from-IsValid m ((now, c) ∷ cs) h v =
    run_from-IsValid (step m (now, c)) cs h.1 (step-IsValid m now c h.0 v)

new_shape :
    (config : Config) (m : Manager)
    → new config ≡ some m
    → (m.records ≡ []) × (0 < m.grace_window) × (0 < m.timeout)
unfolding new
new_shape config m e = ground arith

pub new-IsValid : (config : Config) (m : Manager) → new config ≡ some m → IsValid m
new-IsValid config m e =
    let shape = new_shape config m e in record { keyed = rw shape.0 tt; entries = rw shape.0 tt }

-- In every manager that New makes and any calls at clocks other than 0 lead to, each peer has one
-- record, under its own address; outside a grace period both of its grace times are zero, and in one
-- the start is not zero and the deadline is the start plus the grace window.
pub run-IsValid :
    (config : Config) (m : Manager) (cs : List (ℕ × Call))
    → new config ≡ some m
    → All (λ c. 0 < c.0) cs
    → IsValid (run m cs)
run-IsValid config m cs e h = run_from-IsValid m cs h (new-IsValid config m e)
