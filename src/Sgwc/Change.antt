-- ===== src/Sgwc/Change.antt =====
-- internal/sgwc/session/store.go: Create, Update, ReconcilePFCPUserSEID and Delete keep the store
-- and its WAL in step.
use cups.Base.{
  ℕ, ◌+◌, ◌%◌, ◌^◌, ◌≡◌, ◌≢◌, ◌<◌, refl, sym, ap, ap₂, ◌∙◌, Bool, true, Option, none, some, ◌∷◌,
  ◌++◌, ◌==◌, get, put, del, nat_eq, text_eq, Text, arith, Option-cases, Bool-cases, inl, inr,
  same-true, subst, AllClear, first_error-AllClear, if_both, keep-IsIndex,
}
use cups.Sgwc.{bearer_owner_eq, Session, validate, same_s11_owner, lower, fteid_eq}
use cups.Journal.{Answers}
use cups.Sgwc.Store.{
  Store, Result, ok, create, create_error, create_tests, Result-cases, filed, file_session,
  numbered,
}
use cups.Sgwc.Operations.{
  update, update_mutated, update_error, update_tests, revised, refiled, refile, current_of,
  current_at, reconcile_pfcp_user_seid, reconcile_current, replaced, delete, unfiled, unfile,
}
use cups.Sgwc.Invariant.{
  S11Context, same_s11_owner-context, frame-IsValid, IsValid, has_s5, has_bearer,
}
use cups.Sgwc.Filing.{IsReady, file-IsValid}
use cups.Sgwc.Refiling.{IsHeir, replace-IsValid, unfile-IsValid, refile-s5, refile-bearer}
use cups.Sgwc.Sound.{IsSound, Coupled, persist_cases}

create-IsReady :
    (now : ℕ) (s : Store) (c : Session)
    → IsValid s
    → s.next_id + 1 < 2 ^ 64
    → create_error s c ≡ none
    → IsReady s (numbered now s c)
unfolding validate
create-IsReady now s c v h e =
    let (sound, (live, (owner, (bearers, (s11, (s5, (pfcp, (room, u)))))))) =
      first_error-AllClear (create_tests s c) e in
    let d = numbered now s c in
    let n : (s.next_id + 1) % 2 ^ 64 ≡ s.next_id + 1 = ground arith in
    record {
      sound = ground (arith, sound);
      fresh = elim (Option-cases (get d.id s.by_id)) [
        | inl q ↦ q
        | inr (x, q) ↦ absurd (omega (arith, (v.filed d.id x q).bounded, n))
      ];
      positive = ground (arith, n);
      owner = owner;
      bearers = bearers;
      s11 = s11;
      s5 = s5;
      pfcp = pfcp;
      room = ground (arith, room);
    }

-- Every Create, whatever its outcome.
pub create-IsSound :
    (now : ℕ) (a : Answers) (s : Store) (c : Session)
    → IsSound s
    → s.next_id + 1 < 2 ^ 64
    → IsSound (create now a s c).0
unfolding create
create-IsSound now a s c v h = elim (Option-cases (create_error s c)) [
  | inr (e, q) ↦ rw q v
  | inl q ↦
      let d = numbered now s c in
      let r = create-IsReady now s c v.valid h q in
      rw q (
        persist_cases (λ (x : Store × Bool). IsSound (filed x d).0) a none (some d)
          (record s { next_id = d.id })
          (λ w k. record {
            valid = frame-IsValid s d.id (some w) true v.valid (ground arith);
            coupled = k;
          })
          (λ o k. record {
            valid =
                frame-IsValid (record (file_session s d) { next_id = d.id }) d.id o s.is_poisoned
                  (file-IsValid s d d.id v.valid r (ground arith) (ground arith)) (ground arith);
            coupled = k;
          })
          v.coupled)
]

current_at-get :
    (expected : ℕ) (o : Option Session) (x : Session) → current_at expected o ≡ ok x → o ≡ some x
current_at-get expected none x h = cc
current_at-get expected (some y) x h = ground arith

current_of-get :
    (s : Store) (id expected : ℕ) (x : Session)
    → current_of s id expected ≡ ok x
    → get id s.by_id ≡ some x
current_of-get s id expected x h = elim (Bool-cases s.is_poisoned) [
  | inl b ↦ absurd (cc (rw b at h))
  | inr b ↦ current_at-get expected (get id s.by_id) x (rw b at h)
]

abbrev owner_of : Text → Text → Text
owner_of subscriber folded = subscriber ++ 0 ∷ folded

-- What Update's checks leave the same.
update-IsHeir :
    (now : ℕ) (s : Store) (id : ℕ) (x y : Session)
    → AllClear (update_tests s id x y)
    → IsHeir id x (revised now y)
unfolding validate
update-IsHeir now s id x y t =
    let (owner, (seids, (sound, (overlap, (foreign, (control, rest)))))) = t in
    let same_owner : same_s11_owner y x ≡ true = ground arith in
    let context = same_s11_owner-context y x same_owner in
    let subscriber = ap (λ (c : S11Context). c.subscriber) context in
    let apn = same-true (lower y.apn) (lower x.apn) (ground arith) in
    record {
      number = ground (arith, owner);
      sound = ground (arith, sound);
      context = context;
      owner = ap₂ owner_of subscriber apn;
      pfcp = ground (arith, seids);
    }

refile-IsValid :
    (now : ℕ) (s : Store) (id : ℕ) (x y : Session)
    → IsValid s
    → get id s.by_id ≡ some x
    → AllClear (update_tests s id x y)
    → IsValid (refile s id x (revised now y))
refile-IsValid now s id x y v q t =
    let (owner, (seids, (sound, (overlap, (foreign, (control, (s5, u))))))) = t in
    let next = revised now y in
    let same_owner = same-true y.subscriber_key x.subscriber_key (ground arith) in
    replace-IsValid s id x next (refile s id x next).by_s5 (refile s id x next).by_bearer v q
      (update-IsHeir now s id x y t) (refile-s5 s id x next v q s5)
      (refile-bearer s id x next v q (sym same_owner) foreign)

updated-IsSound :
    (now : ℕ) (a : Answers) (s : Store) (id : ℕ) (x : Session) (r : Option Session)
    → IsSound s
    → get id s.by_id ≡ some x
    → IsSound (update_mutated now a s id x r).0
updated-IsSound now a s id x none v q = v
updated-IsSound now a s id x (some y) v q = elim (Option-cases (update_error s id x y)) [
  | inr (e, t) ↦ rw t v
  | inl t ↦
      let next = revised now y in
      let clear = first_error-AllClear (update_tests s id x y) t in
      let at_id : y.id ≡ id =
        (update-IsHeir now s id x y clear).number ∙ (v.valid.filed id x q).number in
      rw t (
        persist_cases (λ (z : Store × Bool). IsSound (refiled z id x next).0) a (some x) (some next)
          s
          (λ w k. record {
            valid = frame-IsValid s s.next_id (some w) true v.valid (ground arith);
            coupled = k;
          })
          (λ o k. record {
            valid =
                frame-IsValid (refile s id x next) s.next_id o s.is_poisoned
                  (refile-IsValid now s id x y v.valid q clear) (ground arith);
            coupled = subst (λ n. Coupled o (put n next s.by_id)) at_id k;
          })
          v.coupled)
]

-- Every Update, whatever its mutation and its outcome.
pub update-IsSound :
    (now : ℕ) (a : Answers) (s : Store) (id expected : ℕ) (mutate : Session → Option Session)
    → IsSound s
    → IsSound (update now a s id expected mutate).0
unfolding update
update-IsSound now a s id expected mutate v = elim (Result-cases (current_of s id expected)) [
  | inl (e, q) ↦ rw q v
  | inr (x, q) ↦ rw q (updated-IsSound now a s id x (mutate x) v (current_of-get s id expected x q))
]

reconciled-IsSound :
    (now : ℕ) (a : Answers) (s : Store) (id seid : ℕ) (x : Session)
    → IsSound s
    → seid ≢ 0
    → get id s.by_id ≡ some x
    → IsSound (reconcile_current now a s id seid (ok x)).0
unfolding validate
reconciled-IsSound now a s id seid x v h q =
    let next = revised now (record x { pfcp_user_seid = seid }) in
    let f = v.valid.filed id x q in
    let heir : IsHeir id x next = record {
      number = refl;
      sound = ground (arith, f.sound);
      context = refl;
      owner = refl;
      pfcp = refl;
    } in
    let valid =
      replace-IsValid s id x next s.by_s5 s.by_bearer v.valid q heir
        (keep-IsIndex has_s5 s.by_id s.by_s5 id x next v.valid.s5 q (λ k. refl))
        (keep-IsIndex has_bearer s.by_id s.by_bearer id x next v.valid.bearer q (λ k. refl)) in
    let change =
      persist_cases (λ (z : Store × Bool). IsSound (replaced z id next).0) a (some x) (some next) s
        (λ w k. record {
          valid = frame-IsValid s s.next_id (some w) true v.valid (ground arith);
          coupled = k;
        })
        (λ o k. record {
          valid =
              frame-IsValid (record s { by_id = put id next s.by_id }) s.next_id o s.is_poisoned
                valid (ground arith);
          coupled = subst (λ n. Coupled o (put n next s.by_id)) f.number k;
        })
        v.coupled in
    if_both (λ (z : Store × Result Session). IsSound z.0) (x.pfcp_user_seid == seid) v change

-- Every ReconcilePFCPUserSEID, whatever its outcome.
pub reconcile-IsSound :
    (now : ℕ) (a : Answers) (s : Store) (id expected seid : ℕ)
    → IsSound s
    → IsSound (reconcile_pfcp_user_seid now a s id expected seid).0
unfolding reconcile_pfcp_user_seid
reconcile-IsSound now a s id expected seid v = elim (Bool-cases (seid == 0)) [
  | inl z ↦ rw z v
  | inr z ↦ elim (Result-cases (current_of s id expected)) [
    | inl (e, q) ↦ rw (z, q) v
    | inr (x, q) ↦
        rw (z, q)
          (reconciled-IsSound now a s id seid x v (λ e. ground arith)
            (current_of-get s id expected x q))
  ]
]

-- Every Delete, whatever its outcome.
pub delete-IsSound :
    (a : Answers) (s : Store) (id expected : ℕ) → IsSound s → IsSound (delete a s id expected).0
unfolding delete
delete-IsSound a s id expected v = elim (Result-cases (current_of s id expected)) [
  | inl (e, q) ↦ rw q v
  | inr (x, q) ↦
      let old = current_of-get s id expected x q in
      rw q (
        persist_cases (λ (z : Store × Bool). IsSound (unfiled z id x).0) a (some x) none s
          (λ w k. record {
            valid = frame-IsValid s s.next_id (some w) true v.valid (ground arith);
            coupled = k;
          })
          (λ o k. record {
            valid =
                frame-IsValid (unfile s id x) s.next_id o s.is_poisoned
                  (unfile-IsValid s id x v.valid old) (ground arith);
            coupled = subst (λ n. Coupled o (del n s.by_id)) (v.valid.filed id x old).number k;
          })
          v.coupled)
]
