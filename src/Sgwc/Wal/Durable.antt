-- ===== src/Sgwc/Wal/Durable.antt =====
-- internal/sgwc/session/wal.go: what the journal replays to, through every Commit.
use cups.Base.{
  ℕ, ◌≡◌, refl, ap, ◌∙◌, Bool, true, false, ◌&&◌, Option, none, some, List, [], ◌∷◌, ◌++◌, Map, get,
  put, same, nat_eq, ◌>>=◌, IsKeyed, subst, some-injective, same_self, same-true, AllEntries,
  AllEntries-put, AllEntries-del, put-IsKeyed, del-IsKeyed, get-put, get-del, get-sort,
  sort-IsKeyed, sort, map, AllEntries-sort, get-put_ne, or_else, arith, Bool-cases, Option-cases,
  inl, inr,
}
use cups.Journal.{Journal, Answers, Kept, write, write-cases, write_failed}
use cups.Sgwc.{Session, validate_wal_session, session_eq}
use cups.Sgwc.Wal.{
  WalOperation, upsert, remove, snapshot, WalRecord, valid_wal_update, Wal, by_id, live_records,
  snapshot_record, transition_ok, is_snapshot_of, apply_record, commit, apply_operation, logged,
  record_of,
}
use cups.Sgwc.Wal.Replay.{replay_operation, Replay, replay_record, replay, start_of_replay}

-- A replay that succeeds and ends with the sessions of `m`.
abbrev pub Replays : List WalRecord → Map ℕ Session → Type 0
Replays journal m =
    (r : Replay) × (replay journal start_of_replay ≡ some r) × ((i : ℕ) → get i r.by_id ≡ get i m)

abbrev pub Storable : ℕ → Session → Type 0
Storable i s = (s.id ≡ i) × (validate_wal_session s ≡ true)

-- A record that one Commit may have added.
abbrev pub OneMore : Map ℕ Session → List WalRecord → Type 0
OneMore m journal =
    (r : WalRecord) × (validate_wal_session r.session ≡ true) × Replays journal (apply_record r m)

-- What a reopening finds: the sessions of `m`, or, in a journal that has failed, those with the
-- record of one more Commit.
abbrev pub Recovers : Journal WalRecord → Map ℕ Session → Type 0
Recovers j m = Kept (λ log. Replays log m) (OneMore m) j.failed j.records

pub record IsDurable (w : Wal) : Type 0 where
  pub keyed : IsKeyed w.snapshots
  pub valid : AllEntries Storable w.snapshots
  pub recovers : Recovers w.journal w.snapshots

pub replay-append :
    (xs : List WalRecord) (x : WalRecord) (r : Replay)
    → replay (xs ++ x ∷ []) r ≡ (replay xs r >>= replay_record x)
unfolding replay
replay-append [] x r = elim (Option-cases (replay_record x r)) [
  | inl e ↦ rw e refl
  | inr (q, e) ↦ rw e refl
]
replay-append (y ∷ xs) x r = elim (Option-cases (replay_record y r)) [
  | inl e ↦ rw e refl
  | inr (q, e) ↦ rw e (replay-append xs x q)
]

replay-snapshot :
    (k : ℕ) (s : Session) (m : Map ℕ Session)
    → Storable k s
    → get k m ≡ none
    → replay_record (snapshot_record (k, s)) (record { snapshot_phase = true; by_id = m })
      ≡ some (record { snapshot_phase = true; by_id = put k s m })
replay-snapshot k s m (same, sound) fresh = rw (sound, same, fresh) refl

-- The snapshots of a map replay to it, on top of what came before.
replay_snapshots :
    (l m : Map ℕ Session)
    → IsKeyed l
    → AllEntries Storable l
    → ((i : ℕ) (s : Session) → get i l ≡ some s → get i m ≡ none)
    → (r : Replay) × (replay (map snapshot_record l) (record { snapshot_phase = true; by_id = m })
        ≡ some r)
      × ((i : ℕ) → get i r.by_id ≡ or_else (get i l) (get i m))
unfolding replay get
replay_snapshots [] m u a h = (record { snapshot_phase = true; by_id = m }, refl, λ i. refl)
replay_snapshots ((k, s) ∷ l) m u a h =
    let (r, run, read) = replay_snapshots l (put k s m) u.1 a.1 (λ i t q.
      get-put_ne k i s m (λ e. cc (ap (λ n. get n l) e, u.0, q)) ∙ h i t (ground arith)) in
    (
      r,
      rw (replay-snapshot k s m a.0 (h k s (ground arith))) run,
      λ i. ground (arith, read i, get-put k i s m),
    )

or_else-none : {A : Type 0} (o : Option A) → or_else o none ≡ o
or_else-none none = refl
or_else-none (some a) = refl

-- The records of a compaction replay to the snapshots.
live_records-Replays :
    (w : Wal)
    → IsKeyed w.snapshots
    → AllEntries Storable w.snapshots
    → Replays (live_records w) w.snapshots
unfolding live_records get
live_records-Replays w u v =
    let (r, run, read) =
      replay_snapshots (sort by_id w.snapshots) [] (sort-IsKeyed by_id w.snapshots u)
        (AllEntries-sort by_id Storable w.snapshots v) (λ i s q. refl) in
    (
      r,
      run,
      λ i. read i ∙ or_else-none (get i (sort by_id w.snapshots)) ∙ get-sort by_id i w.snapshots u,
    )

abbrev pub Taken : Wal → Replay → WalRecord → Type 0
Taken w q r =
    replay_operation r.operation r.session (get r.session.id w.snapshots) q
    ≡ some (record { snapshot_phase = false; by_id = apply_record r q.by_id })

is_snapshot_of-get : (p : Session) (o : Option Session) → is_snapshot_of p o ≡ true → o ≡ some p
is_snapshot_of-get p none h = cc
is_snapshot_of-get p (some t) h = ap some (same-true t p h)

-- A record that Commit lets through is one that the replay takes.
transition-replays :
    (w : Wal) (p n : Option Session) (r : WalRecord) (q : Replay)
    → record_of p n ≡ some r
    → transition_ok w p n ≡ true
    → Taken w q r
unfolding transition_ok
transition-replays w none none r q e t = cc
transition-replays w none (some n) r q e t =
    subst (Taken w q) (some-injective (record { operation = upsert; session = n }) r e)
      (ground arith)
transition-replays w (some p) none r q e t =
    let found = is_snapshot_of-get p (get p.id w.snapshots) t in
    subst (Taken w q) (some-injective (record { operation = remove; session = p }) r e)
      (rw (found, same_self p) refl)
transition-replays w (some p) (some n) r q e t =
    let found = is_snapshot_of-get p (get n.id w.snapshots) (ground arith) in
    let sound : valid_wal_update p n ≡ true = ground arith in
    subst (Taken w q) (some-injective (record { operation = upsert; session = n }) r e)
      (rw (found, sound) refl)

apply_operation-IsKeyed :
    (o : WalOperation) (s : Session) (m : Map ℕ Session)
    → IsKeyed m
    → IsKeyed (apply_operation o s m)
apply_operation-IsKeyed upsert s m u = put-IsKeyed s.id s m u
apply_operation-IsKeyed remove s m u = del-IsKeyed s.id m u
apply_operation-IsKeyed snapshot s m u = put-IsKeyed s.id s m u

apply_operation-AllEntries :
    (o : WalOperation) (s : Session) (m : Map ℕ Session)
    → validate_wal_session s ≡ true
    → AllEntries Storable m
    → AllEntries Storable (apply_operation o s m)
apply_operation-AllEntries upsert s m h u = AllEntries-put Storable s.id s m u (refl, h)
apply_operation-AllEntries remove s m h u = AllEntries-del Storable s.id m u
apply_operation-AllEntries snapshot s m h u = AllEntries-put Storable s.id s m u (refl, h)

pub apply_operation-get :
    (o : WalOperation) (s : Session) (m n : Map ℕ Session)
    → ((i : ℕ) → get i m ≡ get i n)
    → (i : ℕ) → get i (apply_operation o s m) ≡ get i (apply_operation o s n)
apply_operation-get upsert s m n h i = ground (arith, h i, get-put s.id i s m, get-put s.id i s n)
apply_operation-get remove s m n h i = ground (arith, h i, get-del s.id i m, get-del s.id i n)
apply_operation-get snapshot s m n h i = ground (arith, h i, get-put s.id i s m, get-put s.id i s n)

-- One more record after a journal that replays.
append-Replays :
    (w : Wal) (r : WalRecord) (log : List WalRecord)
    → validate_wal_session r.session ≡ true
    → ((q : Replay) → Taken w q r)
    → Replays log w.snapshots
    → Replays (log ++ r ∷ []) (apply_record r w.snapshots)
append-Replays w r log sound taken (q, run, read) =
    let step : replay_record r q
        ≡ some (record { snapshot_phase = false; by_id = apply_record r q.by_id }) =
      rw (sound, read r.session.id) (taken q) in
    (
      record { snapshot_phase = false; by_id = apply_record r q.by_id },
      replay-append log r start_of_replay ∙ rw run step,
      apply_operation-get r.operation r.session q.by_id w.snapshots read,
    )

record-IsDurable :
    (w : Wal) (records : List WalRecord) (failed : Bool)
    → IsDurable w
    → Recovers (record { records = records; failed = failed }) w.snapshots
    → IsDurable (record w { journal = record { records = records; failed = failed } })
record-IsDurable w records failed d k = record { keyed = d.keyed; valid = d.valid; recovers = k }

intact-Recovers :
    (m : Map ℕ Session) (records : List WalRecord) (failed : Bool)
    → Replays records m
    → Recovers (record { records = records; failed = failed }) m
intact-Recovers m records false p = p
intact-Recovers m records true p = inl p

logged-IsDurable :
    (a : Answers) (w : Wal) (r : WalRecord) (records : List WalRecord) (failed : Bool)
    → IsDurable w
    → Recovers (record { records = records; failed = failed }) w.snapshots
    → validate_wal_session r.session ≡ true
    → ((q : Replay) → Taken w q r)
    → IsDurable
        (logged r w (write a (live_records w) r (record { records = records; failed = failed }))).0
logged-IsDurable a w r records true d k sound taken =
    rw (write_failed a (live_records w) records r) (record-IsDurable w records true d k)
logged-IsDurable a w r records false d k sound taken =
    write-cases (λ log. Replays log w.snapshots) (λ x. IsDurable (logged r w x).0) r
      (λ old p. record {
        keyed = apply_operation-IsKeyed r.operation r.session w.snapshots d.keyed;
        valid = apply_operation-AllEntries r.operation r.session w.snapshots sound d.valid;
        recovers = append-Replays w r old sound taken p;
      })
      (λ log failed p. record-IsDurable w log failed d (intact-Recovers w.snapshots log failed p))
      (λ old p.
        record-IsDurable w (old ++ r ∷ []) true d
          (inr (r, sound, append-Replays w r old sound taken p)))
      a (live_records w) records (live_records-Replays w d.keyed d.valid) k

-- Whatever the two sessions are and whatever the journal answers, a Commit leaves a journal whose
-- replay succeeds, and gives the snapshots or, once the journal has failed, those with one more
-- record.
pub commit-IsDurable :
    (a : Answers) (previous next : Option Session) (w : Wal)
    → IsDurable w
    → IsDurable (commit a previous next w).0
unfolding commit
commit-IsDurable a p n w d = elim (Option-cases (record_of p n)) [
  | inl e ↦ rw e d
  | inr (r, e) ↦ elim (Bool-cases (validate_wal_session r.session && transition_ok w p n)) [
    | inr bad ↦ rw (e, bad) d
    | inl good ↦
        rw (e, good)
          (logged-IsDurable a w r w.journal.records w.journal.failed d d.recovers (ground arith)
            (λ q. transition-replays w p n r q e (ground arith)))
  ]
]
