-- ===== src/Sgwc/Wal/Follows.antt =====
-- internal/sgwc/session/wal.go: what Commit does to the snapshots.
use cups.Base.{
  ℕ, ◌≡◌, refl, Bool, true, false, not, ◌&&◌, Option, none, some, if◌then◌else◌, Map, put, del,
  nat_eq, if_both,
}
use cups.Journal.{Journal, Answers, write}
use cups.Sgwc.{Session, validate_wal_session}
use cups.Sgwc.Wal.{
  upsert, remove, WalRecord, Wal, live_records, logged, transition_ok, apply_record, commit_record,
  commit,
}

-- What a transition does to the sessions.
abbrev pub transition : Option Session → Option Session → Map ℕ Session → Map ℕ Session
transition previous (some next) m = put next.id next m
transition (some previous) none m = del previous.id m
transition none none m = m

abbrev pub committed : Bool → Option Session → Option Session → Map ℕ Session → Map ℕ Session
committed done p n m = if done then transition p n m else m

abbrev pub Follows : Option Session → Option Session → Wal → Wal × Bool → Type 0
Follows p n w (v, done) = v.snapshots ≡ committed done p n w.snapshots

logged-Follows :
    (p n : Option Session) (w : Wal) (r : WalRecord) (x : Journal WalRecord × Bool)
    → ((m : Map ℕ Session) → apply_record r m ≡ transition p n m)
    → Follows p n w (logged r w x)
logged-Follows p n w r (j, true) h = h w.snapshots
logged-Follows p n w r (j, false) h = refl

commit_record-Follows :
    (a : Answers) (p n : Option Session) (w : Wal) (r : WalRecord)
    → ((m : Map ℕ Session) → apply_record r m ≡ transition p n m)
    → Follows p n w (commit_record a p n w (some r))
commit_record-Follows a p n w r h =
    let x = write a (live_records w) r w.journal in
    if_both (Follows p n w) (not (validate_wal_session r.session && transition_ok w p n))
      {x = (w, false)} {y = logged r w x} refl (logged-Follows p n w r x h)

-- A Commit that succeeds makes the transition, and one that fails keeps the snapshots.
pub commit-Follows : (a : Answers) (p n : Option Session) (w : Wal) → Follows p n w (commit a p n w)
unfolding commit
commit-Follows a none none w = refl
commit-Follows a none (some n) w =
    commit_record-Follows a none (some n) w (record { operation = upsert; session = n }) (λ m. refl)
commit-Follows a (some p) none w =
    commit_record-Follows a (some p) none w (record { operation = remove; session = p }) (λ m. refl)
commit-Follows a (some p) (some n) w =
    commit_record-Follows a (some p) (some n) w (record { operation = upsert; session = n })
      (λ m. refl)
