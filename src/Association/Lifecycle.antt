-- ===== src/Association/Lifecycle.antt =====
-- The transitions of internal/pfcp/association/manager.go: which states follow which, and when.
use cups.Base.{
  ℕ, ◌+◌, ◌≤◌, ◌<◌, ◌≡◌, ◌↔◌, Option, none, some, List, [], ◌∷◌, All, ◌≢◌, ap, sym, ◌∙◌, subst, put,
  get-put_self, arith, get, get-put, get-del, get-map_values-some, get-map_values-none, ◌⊎◌, inl,
  inr, Option-cases,
}
use cups.Net.{Addr, unmap, addr_eq}
use cups.Association.{
  State, unavailable, associated, grace, reconciling, Record, Manager, setup_record, setup, touch,
  sweep_record, sweep, complete, restore_unavailable, release, Call, sets_up, touches, completes,
  restores, releases, sweeps, step, run, grace_remaining,
}
use cups.Association.Invariant.{IsValid, entry-RecordOk, step-IsValid}

abbrev state_at : Option Record → Option State
state_at none = none
state_at (some r) = some r.state

-- The state under a key, if it has a record.
abbrev pub held : Manager → Addr → Option State
held m p = state_at (get p m.records)

-- The state machine of one peer: what a call that names the peer may make of its state.
abbrev pub Next : Call → Option State → Option State → Type 0
Next (sets_up q n f r) none t = t ≡ some associated
Next (sets_up q n f r) (some associated) t = (t ≡ some associated) ⊎ (t ≡ some reconciling)
Next (sets_up q n f r) (some s) t = t ≡ some reconciling
Next (touches q) s t = t ≡ s
Next (completes q) (some reconciling) t = t ≡ some associated
Next (completes q) s t = t ≡ s
Next (restores q) none t = (t ≡ none) ⊎ (t ≡ some unavailable)
Next (restores q) (some s) t = t ≡ some s
Next (releases q) s t = t ≡ none
Next sweeps none t = t ≡ none
Next sweeps (some associated) t = (t ≡ some associated) ⊎ (t ≡ some grace)
Next sweeps (some unavailable) t = t ≡ some unavailable
Next sweeps (some grace) t = (t ≡ some grace) ⊎ (t ≡ some unavailable)
Next sweeps (some reconciling) t = (t ≡ some reconciling) ⊎ (t ≡ some unavailable)

-- The peers that a call is about.
abbrev pub Names : Call → Addr → Type 0
Names (sets_up q n f r) p = unmap q ≡ p
Names (touches q) p = unmap q ≡ p
Names (completes q) p = unmap q ≡ p
Names (restores q) p = unmap q ≡ p
Names (releases q) p = unmap q ≡ p
Names sweeps p = Unit {0}

sweep-held :
    (m : Manager) (now : ℕ) (p : Addr)
    → get p (sweep m now).0.records ≡ (elim (get p m.records) [
      | none ↦ none
      | some r ↦ some (sweep_record m.timeout m.grace_window now r)
    ])
unfolding sweep
sweep-held m now p = elim (Option-cases (get p m.records)) [
  | inl e ↦ rw e (get-map_values-none (sweep_record m.timeout m.grace_window now) p m.records e)
  | inr (r, e) ↦
      rw e (get-map_values-some (sweep_record m.timeout m.grace_window now) p r m.records e)
]

-- Each call takes the peer that it names along the state machine.
pub step-Next :
    (m : Manager) (now : ℕ) (c : Call) (p : Addr)
    → Names c p
    → Next c (held m p) (held (step m (now, c)) p)
unfolding step
step-Next m now (sets_up q n f r) p h =
    unfold setup setup_record in
    ground (
      arith,
      get-put p p (setup_record m.grace_window now p (unmap n) f r (get p m.records)).accepted
          m.records,
    )
step-Next m now (touches q) p h = unfold touch in grind (arith, get-put)
step-Next m now (completes q) p h = unfold complete in grind (arith, get-put)
step-Next m now (restores q) p h = unfold restore_unavailable in grind (arith, get-put)
step-Next m now (releases q) p h = unfold release in ground (arith, get-del p p m.records)
step-Next m now sweeps p h = unfold sweep_record in ground (arith, sweep-held m now p)

-- A call changes no record of a peer that it does not name.
pub step-frame :
    (m : Manager) (now : ℕ) (c : Call) (p : Addr)
    → ¬ Names c p
    → get p (step m (now, c)).records ≡ get p m.records
unfolding step
step-frame m now (sets_up q n f r) p h = unfold setup in grind (arith, get-put)
step-frame m now (touches q) p h = unfold touch in grind (arith, get-put)
step-frame m now (completes q) p h = unfold complete in grind (arith, get-put)
step-frame m now (restores q) p h = unfold restore_unavailable in grind (arith, get-put)
step-frame m now (releases q) p h = unfold release in grind (arith, get-del)
step-frame m now sweeps p h = absurd (h tt)

-- The manager holds the peer in a grace period that ends at the deadline.
abbrev pub InGrace : Addr → ℕ → Manager → Type 0
InGrace p deadline m =
    (r : Record) × (get p m.records ≡ some r)
    × ((r.state ≡ grace) ⊎ (r.state ≡ reconciling))
    × (r.grace_deadline ≡ deadline)

-- A call with its clock that does not end the grace period of the peer: any Setup, Touch and
-- RestoreUnavailable, Complete and Release of another peer, and Sweep before the deadline.
abbrev pub Spares : Addr → ℕ → ℕ × Call → Type 0
Spares p deadline (now, sets_up q n f r) = Unit
Spares p deadline (now, touches q) = Unit
Spares p deadline (now, restores q) = Unit
Spares p deadline (now, completes q) = unmap q ≢ p
Spares p deadline (now, releases q) = unmap q ≢ p
Spares p deadline (now, sweeps) = now < deadline

setup-InGrace :
    (m : Manager) (now : ℕ) (q n : Addr) (f : List ℕ) (rec d : ℕ)
    → IsValid m
    → InGrace (unmap q) d m
    → InGrace (unmap q) d (setup m now q n f rec).0
unfolding setup setup_record
setup-InGrace m now q n f rec d v (r, e, s, t) =
    let known = entry-RecordOk m (unmap q) v r e in
    let next = (setup_record m.grace_window now (unmap q) (unmap n) f rec (some r)).accepted in
    (
      next,
      ap
            (λ o. get (unmap q) (
              put (unmap q) (setup_record m.grace_window now (unmap q) (unmap n) f rec o).accepted
                m.records))
            e
          ∙ get-put_self (unmap q) next m.records,
      inr (ground arith),
      ground arith,
    )

touch-InGrace :
    (m : Manager) (now : ℕ) (q : Addr) (d : ℕ)
    → InGrace (unmap q) d m
    → InGrace (unmap q) d (touch m now q)
unfolding touch
touch-InGrace m now q d (r, e, s, t) =
    let next = record r { last_seen = now } in
    (next, rw e (get-put_self (unmap q) next m.records), s, t)

restore-InGrace :
    (m : Manager) (q : Addr) (d : ℕ)
    → InGrace (unmap q) d m
    → InGrace (unmap q) d (restore_unavailable m q)
unfolding restore_unavailable
restore-InGrace m q d (r, e, s, t) = (r, ground arith, s, t)

sweep-InGrace :
    (m : Manager) (now : ℕ) (p : Addr) (d : ℕ)
    → now < d
    → InGrace p d m
    → InGrace p d (sweep m now).0
unfolding sweep_record
sweep-InGrace m now p d h (r, e, s, t) = (r, ground (arith, sweep-held m now p), s, t)

-- A call that does not name the peer, or one that spares it.
either-InGrace :
    (m : Manager) (now : ℕ) (c : Call) (p q : Addr) (d : ℕ)
    → InGrace p d m
    → (q ≢ p → ¬ Names c p)
    → (InGrace q d m → InGrace q d (step m (now, c)))
    → InGrace p d (step m (now, c))
either-InGrace m now c p q d g other kept = elim (addr_eq.decide q p) [
  | yes e ↦
      subst (λ x. InGrace x d (step m (now, c))) e (kept (subst (λ x. InGrace x d m) (sym e) g))
  | no ne ↦ let (r, e, s, t) = g in (r, step-frame m now c p (other ne) ∙ e, s, t)
]

step-InGrace :
    (m : Manager) (now : ℕ) (c : Call) (p : Addr) (d : ℕ)
    → IsValid m
    → Spares p d (now, c)
    → InGrace p d m
    → InGrace p d (step m (now, c))
unfolding step
step-InGrace m now (sets_up q n f rec) p d v h g =
    either-InGrace m now (sets_up q n f rec) p (unmap q) d g (λ ne. ne)
      (setup-InGrace m now q n f rec d v)
step-InGrace m now (touches q) p d v h g =
    either-InGrace m now (touches q) p (unmap q) d g (λ ne. ne) (touch-InGrace m now q d)
step-InGrace m now (restores q) p d v h g =
    either-InGrace m now (restores q) p (unmap q) d g (λ ne. ne) (restore-InGrace m q d)
step-InGrace m now (completes q) p d v h (r, e, s, t) =
    (r, step-frame m now (completes q) p h ∙ e, s, t)
step-InGrace m now (releases q) p d v h (r, e, s, t) =
    (r, step-frame m now (releases q) p h ∙ e, s, t)
step-InGrace m now sweeps p d v h g = sweep-InGrace m now p d h g

-- A peer that a valid manager holds in a grace period: through any calls at clocks other than 0,
-- among which are any number of Setups of that peer, and no Complete or Release of it and no Sweep
-- at its deadline or later, the manager goes on holding it in a grace period with the same deadline.
pub setups_keep_deadline :
    (cs : List (ℕ × Call)) (m : Manager) (p : Addr) (deadline : ℕ)
    → IsValid m
    → All (λ c. 0 < c.0) cs
    → All (Spares p deadline) cs
    → InGrace p deadline m
    → InGrace p deadline (run m cs)
unfolding run
setups_keep_deadline [] m p d v clocks h g = g
setups_keep_deadline ((now, c) ∷ cs) m p d v clocks h g =
    setups_keep_deadline cs (step m (now, c)) p d (step-IsValid m now c clocks.0 v) clocks.1 h.1
      (step-InGrace m now c p d v h.0 g)

-- A sweep moves an associated peer into grace exactly when it was silent for the timeout.
pub sweep_lapses_iff :
    (m : Manager) (now : ℕ) (p : Addr) (r : Record)
    → 0 < m.timeout
    → get p m.records ≡ some r
    → r.state ≡ associated
    → 0 < r.last_seen
    → (held (sweep m now).0 p ≡ some grace) ↔ (r.last_seen + m.timeout ≤ now)
unfolding sweep_record
sweep_lapses_iff m now p r h e s k = ground (arith, sweep-held m now p)

-- A sweep makes a peer in its grace period unavailable exactly when the deadline, one window after
-- the start, has come.
pub sweep_expires_iff :
    (m : Manager) (now : ℕ) (p : Addr) (r : Record)
    → IsValid m
    → get p m.records ≡ some r
    → (r.state ≡ grace) ⊎ (r.state ≡ reconciling)
    → (held (sweep m now).0 p ≡ some unavailable) ↔ (r.grace_started + m.grace_window ≤ now)
unfolding sweep_record
sweep_expires_iff m now p r v e s =
    let known = entry-RecordOk m p v r e in ground (arith, sweep-held m now p)

-- The time left that is reported for a peer is positive exactly for a
-- peer in its grace period whose deadline is still to come.
pub grace_remaining_iff :
    (m : Manager) (now : ℕ) (peer : Addr)
    → IsValid m
    → (0 < grace_remaining m now peer) ↔ (
        (r : Record) × (get (unmap peer) m.records ≡ some r)
        × ((r.state ≡ grace) ⊎ (r.state ≡ reconciling))
        × (now < r.grace_deadline))
unfolding grace_remaining
grace_remaining_iff m now peer v = elim (Option-cases (get (unmap peer) m.records)) [
  | inl e ↦ (λ h. absurd (ground arith), λ h. ground arith)
  | inr (r, e) ↦
      let known = entry-RecordOk m (unmap peer) v r e in
      (λ h. (r, e, ground arith, ground arith), λ h. ground arith)
]
