-- ===== src/Sgwc/Run.antt =====
-- Any sequence of calls of the Store of internal/sgwc/session/store.go, over a WAL or without one.
use cups.Base.{
  ℕ, ◌+◌, ◌^◌, ◌≡◌, ◌≤◌, ◌<◌, refl, ap, subst, ◌∙◌, Option, none, some, List, [], ◌∷◌, get, nat_eq,
  length, arith, Map, some-injective, Bool, true, false, inl, inr,
}
use cups.Sgwc.{Session}
use cups.Sgwc.Wal.{Wal, WalRecord, apply_record}
use cups.Journal.{Answers}
use cups.Sgwc.Wal.Durable.{IsDurable, Replays, Recovers, apply_operation-get}
use cups.Sgwc.Store.{Store, create, new_store_with_persister, Error}
use cups.Sgwc.Operations.{update, reconcile_pfcp_user_seid, delete}
use cups.Sgwc.Sound.{IsSound, Coupled}
use cups.Sgwc.Frame.{
  CarefulDelete, create-Careful, update-Careful, reconcile-Careful, delete-Careful,
}
use cups.Sgwc.Change.{create-IsSound, update-IsSound, reconcile-IsSound, delete-IsSound}

-- A call with the time and the journal's answers.
pub data Call : Type 0 where
  creates : ℕ → Answers → Session → Call
  updates : ℕ → Answers → ℕ → ℕ → (Session → Option Session) → Call
  reconciles : ℕ → Answers → ℕ → ℕ → ℕ → Call
  deletes : Answers → ℕ → ℕ → Call

abbrev pub apply : Store → Call → Store
apply s (creates now a c) = (create now a s c).0
apply s (updates now a id expected mutate) = (update now a s id expected mutate).0
apply s (reconciles now a id expected seid) = (reconcile_pfcp_user_seid now a s id expected seid).0
apply s (deletes a id expected) = (delete a s id expected).0

unfoldable pub apply_all : Store → List Call → Store
apply_all s [] = s
apply_all s (c ∷ cs) = apply_all (apply s c) cs

delete-next :
    (s : Store) (r : Store × Option Error) → CarefulDelete s r → r.0.next_id ≤ s.next_id + 1
delete-next s (t, none) h = omega arith
delete-next s (t, some e) (h, k) = omega arith

-- A call gives out one number at most.
apply-next_id : (s : Store) (c : Call) → (apply s c).next_id ≤ s.next_id + 1
apply-next_id s (creates now a c) = (create-Careful now a s c).0
apply-next_id s (updates now a id expected mutate) = (update-Careful now a s id expected mutate).0
apply-next_id s (reconciles now a id expected seid) = (reconcile-Careful now a s id expected seid).0
apply-next_id s (deletes a id expected) =
    delete-next s (delete a s id expected) (delete-Careful a s id expected)

apply-IsSound : (s : Store) (c : Call) → IsSound s → s.next_id + 1 < 2 ^ 64 → IsSound (apply s c)
apply-IsSound s (creates now a c) v h = create-IsSound now a s c v h
apply-IsSound s (updates now a id expected mutate) v h = update-IsSound now a s id expected mutate v
apply-IsSound s (reconciles now a id expected seid) v h =
    reconcile-IsSound now a s id expected seid v
apply-IsSound s (deletes a id expected) v h = delete-IsSound a s id expected v

-- From a store in which the indexes, the sessions and the WAL agree, any calls of Create, Update,
-- ReconcilePFCPUserSEID and Delete lead to one in which they agree, whatever the clock and the
-- mutations, and whichever steps of the journal fail, while the ids stay below 2^64. A WAL whose
-- journal has failed may hold one more change in its file.
pub apply_all-IsSound :
    (s : Store) (cs : List Call)
    → IsSound s
    → s.next_id + length cs < 2 ^ 64
    → IsSound (apply_all s cs)
unfolding apply_all
apply_all-IsSound s [] v h = v
apply_all-IsSound s (c ∷ cs) v h =
    let one : s.next_id + 1 < 2 ^ 64 = omega arith in
    apply_all-IsSound (apply s c) cs (apply-IsSound s c v one) (omega (arith, apply-next_id s c))

Replays-same :
    (log : List WalRecord) (m n : Map ℕ Session)
    → ((i : ℕ) → get i m ≡ get i n)
    → Replays log m
    → Replays log n
Replays-same log m n h (r, run, read) = (r, run, λ i. read i ∙ h i)

Kept-same :
    (failed : Bool) (log : List WalRecord) (m n : Map ℕ Session)
    → ((i : ℕ) → get i m ≡ get i n)
    → Recovers (record { records = log; failed = failed }) m
    → Recovers (record { records = log; failed = failed }) n
Kept-same false log m n h k = Replays-same log m n h k
Kept-same true log m n h (inl k) = inl (Replays-same log m n h k)
Kept-same true log m n h (inr (r, v, k)) = inr (
  r,
  v,
  Replays-same log (apply_record r m) (apply_record r n)
      (apply_operation-get r.operation r.session m n h) k,
)

Coupled-Recovers :
    (o : Option Wal) (m : Map ℕ Session) (w : Wal) → Coupled o m → o ≡ some w → Recovers w.journal m
Coupled-Recovers none m w c e = cc
Coupled-Recovers (some v) m w (d, read) e =
    subst (λ (u : Wal). Recovers u.journal m) (some-injective v w e)
      (Kept-same v.journal.failed v.journal.records v.snapshots m read d.recovers)

-- From such a store, after any calls of Create, Update, ReconcilePFCPUserSEID and Delete, with a
-- WAL: as long as the journal has not failed, the replay of its records succeeds and gives exactly
-- the sessions of the store. Once it has failed, because of a frame that was not written or not
-- synced or of a compaction that was not completed, the replay of what is in the file succeeds too,
-- and gives those sessions, or those with one more record of a valid session applied.
pub apply_all-Recovers :
    (s : Store) (cs : List Call) (w : Wal)
    → IsSound s
    → s.next_id + length cs < 2 ^ 64
    → (apply_all s cs).persister ≡ some w
    → Recovers w.journal (apply_all s cs).by_id
apply_all-Recovers s cs w v h e =
    let t = apply_all s cs in
    Coupled-Recovers t.persister t.by_id w (apply_all-IsSound s cs v h).coupled e

pub new_store-IsSound :
    (n : ℕ) (w : Wal)
    → IsDurable w
    → w.snapshots ≡ []
    → IsSound (new_store_with_persister n (some w))
unfolding new_store_with_persister get
new_store-IsSound n w d e = record {
  valid = record {
    keyed = tt;
    filed = λ i x q. cc;
    s5 = record { sound = λ k i q. cc; complete = λ k i x q t. cc };
    pfcp = record { sound = λ k i q. cc; complete = λ k i x q t. cc };
    owner = record { sound = λ k i q. cc; complete = λ k i x q t. cc };
    bearer = record { sound = λ k i q. cc; complete = λ k i x q t. cc };
    s11 = λ teid i. refl;
    shared = λ i j x y p q e. cc;
    within = omega arith;
  };
  coupled = (d, λ i. ap (get i) e);
}
