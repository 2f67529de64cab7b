-- ===== src/Sgwc/Frame.antt =====
-- internal/sgwc/session/store.go: what an operation leaves alone, above all when it fails.
use cups.Base.{
  ℕ, ◌+◌, ◌≡◌, ◌≤◌, ◌==◌, refl, ap, ◌∙◌, Bool, true, false, Option, none, some, arith, if_both,
  nat_eq,
}
use cups.Sgwc.{Session}
use cups.Sgwc.Wal.{Wal, commit}
use cups.Journal.{Answers}
use cups.Sgwc.Store.{
  Store, Error, invalid_session, Result, ok, err, create, create_unless, create_error, numbered,
  filed, persist, persist_with, persisted,
}
use cups.Sgwc.Operations.{
  update, update_current, update_mutated, update_unless, update_error, revised, refiled, current_of,
  reconcile_pfcp_user_seid, reconcile_current, replaced, delete, delete_current, unfiled,
}

-- The sessions and the indexes are the same; a number, the WAL and a poisoning may have changed.
abbrev pub Unchanged : Store → Store → Type 0
Unchanged s t =
    t ≡ record s { next_id = t.next_id; persister = t.persister; is_poisoned = t.is_poisoned }

abbrev pub AfterError : {A : Type 0} → Store → Store → Result A → Type 0
AfterError s t (err e) = Unchanged s t
AfterError s t (ok x) = Unit

-- At most one number is used, and an error changes no session.
abbrev pub Careful : Store → Store × Result Session → Type 0
Careful s (t, r) = (t.next_id ≤ s.next_id + 1) × AfterError s t r

abbrev pub Persists : Store → Store × Bool → Type 0
Persists s (t, done) = (t.next_id ≡ s.next_id) × Unchanged s t

persisted-Persists : (s : Store) (r : Wal × Bool) → Persists s (persisted s r)
persisted-Persists s (w, true) = (refl, refl)
persisted-Persists s (w, false) = (refl, refl)

persist_with-Persists :
    (a : Answers) (p n : Option Session) (s : Store) (o : Option Wal)
    → Persists s (persist_with a p n s o)
persist_with-Persists a p n s none = (refl, refl)
persist_with-Persists a p n s (some w) = persisted-Persists s (commit a p n w)

persist-Persists : (a : Answers) (p n : Option Session) (s : Store) → Persists s (persist a p n s)
unfolding persist
persist-Persists a p n s = persist_with-Persists a p n s s.persister

filed-Careful :
    (s u : Store) (c : Session) (r : Store × Bool)
    → Persists u r
    → u.next_id ≤ s.next_id + 1
    → Unchanged s u
    → Careful s (filed r c)
filed-Careful s u c (t, true) (same, k) h g = (omega (arith, same, h), tt)
filed-Careful s u c (t, false) (same, k) h g = (
  omega (arith, same, h),
  k
      ∙ ap
          (λ (v : Store). record v {
            next_id = t.next_id;
            persister = t.persister;
            is_poisoned = t.is_poisoned;
          })
          g,
)

unless-Careful :
    (now : ℕ) (a : Answers) (s : Store) (c : Session) (o : Option Error)
    → Careful s (create_unless o now a s c)
unless-Careful now a s c (some e) = (omega arith, refl)
unless-Careful now a s c none =
    let d = numbered now s c in
    let u = record s { next_id = d.id } in
    filed-Careful s u d (persist a none (some d) u) (persist-Persists a none (some d) u)
      (ground arith) refl

refiled-Careful :
    (s : Store) (id : ℕ) (x y : Session) (r : Store × Bool)
    → Persists s r
    → Careful s (refiled r id x y)
refiled-Careful s id x y (t, true) (same, k) = (omega (arith, same), tt)
refiled-Careful s id x y (t, false) (same, k) = (omega (arith, same), k)

update_unless-Careful :
    (now : ℕ) (a : Answers) (s : Store) (id : ℕ) (x y : Session) (o : Option Error)
    → Careful s (update_unless o now a s id x y)
update_unless-Careful now a s id x y (some e) = (omega arith, refl)
update_unless-Careful now a s id x y none =
    let c = revised now y in
    refiled-Careful s id x c (persist a (some x) (some c) s)
      (persist-Persists a (some x) (some c) s)

update_mutated-Careful :
    (now : ℕ) (a : Answers) (s : Store) (id : ℕ) (x : Session) (o : Option Session)
    → Careful s (update_mutated now a s id x o)
update_mutated-Careful now a s id x none = (omega arith, refl)
update_mutated-Careful now a s id x (some y) =
    update_unless-Careful now a s id x y (update_error s id x y)

update_current-Careful :
    (now : ℕ) (a : Answers) (s : Store) (id : ℕ) (mutate : Session → Option Session)
    (r : Result Session)
    → Careful s (update_current now a s id mutate r)
update_current-Careful now a s id mutate (err e) = (omega arith, refl)
update_current-Careful now a s id mutate (ok x) = update_mutated-Careful now a s id x (mutate x)

replaced-Careful :
    (s : Store) (id : ℕ) (y : Session) (r : Store × Bool)
    → Persists s r
    → Careful s (replaced r id y)
replaced-Careful s id y (t, true) (same, k) = (omega (arith, same), tt)
replaced-Careful s id y (t, false) (same, k) = (omega (arith, same), k)

reconcile_current-Careful :
    (now : ℕ) (a : Answers) (s : Store) (id seid : ℕ) (r : Result Session)
    → Careful s (reconcile_current now a s id seid r)
reconcile_current-Careful now a s id seid (err e) = (omega arith, refl)
reconcile_current-Careful now a s id seid (ok x) =
    let c = revised now (record x { pfcp_user_seid = seid }) in
    let r = persist a (some x) (some c) s in
    if_both (Careful s) (x.pfcp_user_seid == seid) {x = (s, ok x)} {y = replaced r id c}
      (omega arith, tt) (replaced-Careful s id c r (persist-Persists a (some x) (some c) s))

pub create-Careful :
    (now : ℕ) (a : Answers) (s : Store) (c : Session) → Careful s (create now a s c)
unfolding create
create-Careful now a s c = unless-Careful now a s c (create_error s c)

pub update-Careful :
    (now : ℕ) (a : Answers) (s : Store) (id expected : ℕ) (mutate : Session → Option Session)
    → Careful s (update now a s id expected mutate)
unfolding update
update-Careful now a s id expected mutate =
    update_current-Careful now a s id mutate (current_of s id expected)

pub reconcile-Careful :
    (now : ℕ) (a : Answers) (s : Store) (id expected seid : ℕ)
    → Careful s (reconcile_pfcp_user_seid now a s id expected seid)
unfolding reconcile_pfcp_user_seid
reconcile-Careful now a s id expected seid =
    if_both (Careful s) (seid == 0) {x = (s, err invalid_session)}
      {y = reconcile_current now a s id seid (current_of s id expected)} (omega arith, refl)
      (reconcile_current-Careful now a s id seid (current_of s id expected))

-- Delete's outcome, with the same care.
abbrev pub CarefulDelete : Store → Store × Option Error → Type 0
CarefulDelete s (t, none) = t.next_id ≡ s.next_id
CarefulDelete s (t, some e) = (t.next_id ≡ s.next_id) × Unchanged s t

unfiled-Careful :
    (s : Store) (id : ℕ) (x : Session) (r : Store × Bool)
    → Persists s r
    → CarefulDelete s (unfiled r id x)
unfiled-Careful s id x (t, true) (same, k) = same
unfiled-Careful s id x (t, false) (same, k) = (same, k)

delete_current-Careful :
    (a : Answers) (s : Store) (id : ℕ) (r : Result Session)
    → CarefulDelete s (delete_current a s id r)
delete_current-Careful a s id (err e) = (refl, refl)
delete_current-Careful a s id (ok x) =
    unfiled-Careful s id x (persist a (some x) none s) (persist-Persists a (some x) none s)

pub delete-Careful :
    (a : Answers) (s : Store) (id expected : ℕ) → CarefulDelete s (delete a s id expected)
unfolding delete
delete-Careful a s id expected = delete_current-Careful a s id (current_of s id expected)

-- A Create, an Update, a ReconcilePFCPUserSEID or a Delete that returns an error leaves every
-- session and every index as it was, also where its commit fails; a Create uses one number at
-- most, and so do the others.
pub operations-Careful :
    (now : ℕ) (a : Answers) (s : Store) (c : Session) (id expected seid : ℕ)
    (mutate : Session → Option Session)
    → Careful s (create now a s c)
      × Careful s (update now a s id expected mutate)
      × Careful s (reconcile_pfcp_user_seid now a s id expected seid)
      × CarefulDelete s (delete a s id expected)
operations-Careful now a s c id expected seid mutate =
    let one = create-Careful now a s c in
    let two = update-Careful now a s id expected mutate in
    let three = reconcile-Careful now a s id expected seid in
    (one, two, three, delete-Careful a s id expected)
