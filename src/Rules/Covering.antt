-- ===== src/Rules/Covering.antt =====
-- Create, Update, Reconcile and Delete of internal/sgwu/rules/store.go keep every PDR of every
-- stored session reachable.
use cups.Base.{
  ℕ, ◌≡◌, refl, sym, ap, ◌∙◌, subst, true, false, ◌||◌, some, arith, leb, length, get, del-readable,
  IsKeyed, if_both, nat_eq, ◌==◌, ◌!=◌, Bool-cases, Option-cases, inl, inr,
}
use mathlib.Core.Option.{some-injective}
use cups.Rules.{Session, tunnel_key_eq}
use cups.Rules.Validate.{validate}
use cups.Rules.Validated.{up_seid_lem, validate-revision}
use cups.Rules.Store.{Store, Result, ok, err, tunnel_of, taken_by_other, conflicts, install, retire}
use cups.Rules.Operations.{
  create, update, update_mutated, reconcile, reconcile_found, delete, deep_equal, next_revision,
}
use cups.Rules.Invariant.{IsValid}
use cups.Rules.Create.{mapped, mapped-IsReady}
use cups.Rules.Change.{retired-IsReady}
use cups.Rules.Delete.{deleted}
use cups.Rules.Reachable.{
  IsCovered, IsFree, install-IsCovered, conflicts_lem, retire-IsCoveredBut, retire-IsFree,
}

-- No session has the UP-SEID 0, so that a tunnel without conflict at Create has no entry.
create-IsFree : (s : Store) (c : Session) → IsValid s → conflicts s c 0 ≡ false → IsFree s c
create-IsFree s c v clear id pdr e =
    let k = tunnel_of pdr in
    let before = conflicts_lem s c 0 id pdr clear e in
    elim (Option-cases (get k s.index.by_tunnel)) [
      | inl f ↦ rw f refl
      | inr (r, f) ↦
          let zero_owner : (r.up_seid != 0) ≡ false = sym (ap (taken_by_other 0) f) ∙ before in
          let c = (v.indexed.tunnels k r f).1 in
          let filed = v.filed r.up_seid c.session c.stored in
          absurd (up_seid_lem c.session filed.sound (filed.up_seid ∙ ground arith))
    ]

pub create-IsCovered :
    (s : Store) (c : Session) → IsValid s → IsCovered s → IsKeyed c.pdrs → IsCovered (create s c).0
unfolding create
create-IsCovered s c v cover keyed = elim (Bool-cases (validate c)) [
  | inr bad ↦ rw bad cover
  | inl sound ↦ elim (Option-cases (get c.up_seid s.by_up)) [
    | inr (x, bad) ↦ rw (sound, bad) cover
    | inl up ↦ elim (Option-cases (get c.cp_seid s.by_cp)) [
      | inr (x, bad) ↦ rw (sound, up, bad) cover
      | inl cp ↦ elim (Bool-cases (conflicts s c 0)) [
        | inl bad ↦ rw (sound, up, cp, bad) cover
        | inr clear ↦ elim (Bool-cases (leb s.limit (length s.by_up))) [
          | inl bad ↦ rw (sound, up, cp, clear, bad) cover
          | inr room ↦
              let first = record c { revision = 1 } in
              let ready =
                mapped-IsReady s first v up cp (ground arith) (validate-revision c 1 ∙ sound)
                  keyed in
              let done =
                install-IsCovered (mapped s first) first ready
                  (λ u x id pdr ne e h. cover u x id pdr e h) (create-IsFree s c v clear) in
              rw (sound, up, cp, clear, room) done
        ]
      ]
    ]
  ]
]

-- The replacement of a session by one that validate accepts and whose tunnels are free.
replaced-IsCovered :
    (s : Store) (x c : Session)
    → IsValid s
    → IsCovered s
    → get c.up_seid s.by_up ≡ some x
    → c.cp_seid ≡ x.cp_seid
    → validate c ≡ true
    → IsKeyed c.pdrs
    → conflicts s c c.up_seid ≡ false
    → IsCovered (install (retire s c.up_seid x) c)
replaced-IsCovered s x c v cover q same sound keyed clear =
    install-IsCovered (retire s c.up_seid x) c (retired-IsReady s x c v q same sound keyed)
      (retire-IsCoveredBut s c.up_seid x cover (v.filed c.up_seid x q).up_seid)
      (retire-IsFree s c.up_seid x c refl clear)

mutated-IsCovered :
    (s : Store) (up : ℕ) (x : Session) (r : Result Session)
    → IsValid s
    → IsCovered s
    → get up s.by_up ≡ some x
    → ((n : Session) → r ≡ ok n → IsKeyed n.pdrs)
    → IsCovered (update_mutated s up x r).0
mutated-IsCovered s up x (err e) v cover q maps = cover
mutated-IsCovered s up x (ok n) v cover q maps =
    elim (Bool-cases (n.cp_seid != x.cp_seid || n.up_seid != x.up_seid)) [
      | inl bad ↦ rw bad cover
      | inr same ↦ elim (Bool-cases (validate n)) [
        | inr bad ↦ rw (same, bad) cover
        | inl sound ↦ elim (Bool-cases (conflicts s n up)) [
          | inl bad ↦ rw (same, sound, bad) cover
          | inr clear ↦
              let own = (v.filed up x q).up_seid in
              let at_up : n.up_seid ≡ up = ground arith in
              let c = record n { revision = next_revision n.revision } in
              let done =
                replaced-IsCovered s x c v cover (ap (λ u. get u s.by_up) at_up ∙ q) (ground arith)
                  (validate-revision n c.revision ∙ sound) (maps n refl)
                  (ap (conflicts s n) at_up ∙ clear) in
              rw (same, sound, clear)
                (subst (λ (u : ℕ). IsCovered (install (retire s u x) c)) at_up done)
        ]
      ]
    ]

pub update-IsCovered :
    (s : Store) (up expected : ℕ) (mutate : Session → Result Session)
    → IsValid s
    → IsCovered s
    → ((x n : Session) → mutate x ≡ ok n → IsKeyed n.pdrs)
    → IsCovered (update s up expected mutate).0
unfolding update
update-IsCovered s up expected mutate v cover maps = elim (Option-cases (get up s.by_up)) [
  | inl bad ↦ rw bad cover
  | inr (x, e) ↦ elim (Bool-cases (x.revision != expected)) [
    | inl bad ↦ rw (e, bad) cover
    | inr current ↦ rw (e, current) (mutated-IsCovered s up x (mutate x) v cover e (maps x))
  ]
]

reconciled-IsCovered :
    (s : Store) (up : ℕ) (c x : Session)
    → IsValid s
    → IsCovered s
    → get up s.by_up ≡ some x
    → c.cp_seid ≡ x.cp_seid
    → IsKeyed c.pdrs
    → IsCovered (reconcile_found s up c x).0
reconciled-IsCovered s up c x v cover q same keyed =
    let n = record c { up_seid = up } in
    let next = record n { revision = next_revision x.revision } in
    elim (Bool-cases (validate n)) [
      | inr bad ↦ rw bad cover
      | inl sound ↦ elim (Bool-cases (conflicts s n up)) [
        | inl bad ↦ rw (sound, bad) cover
        | inr clear ↦
            let done =
              replaced-IsCovered s x next v cover q same (validate-revision n next.revision ∙ sound)
                keyed clear in
            rw (sound, clear)
              (if_both (λ (r : Store × Result Session). IsCovered r.0)
                (deep_equal (record n { revision = x.revision }) x) cover done)
      ]
    ]

abbrev Keeps : Store × Result Session → Type 0
Keeps r = IsCovered r.0

pub reconcile-IsCovered :
    (s : Store) (cp : ℕ) (c : Session) (r : Store × Result Session)
    → IsValid s
    → IsCovered s
    → IsKeyed c.pdrs
    → reconcile s cp c ≡ some r
    → IsCovered r.0
unfolding reconcile
reconcile-IsCovered s cp c r v cover keyed e = elim (Bool-cases (cp == 0 || c.cp_seid != cp)) [
  | inl bad ↦ subst Keeps (some-injective _ r (rw bad at e)) cover
  | inr fits ↦ elim (Option-cases (get cp s.by_cp)) [
    | inl bad ↦ subst Keeps (some-injective _ r (rw (fits, bad) at e)) cover
    | inr (up, f) ↦
        let (x, q, o) = v.owners cp up f in
        let done = reconciled-IsCovered s up c x v cover q (ground arith) keyed in
        subst Keeps (some-injective (reconcile_found s up c x) r (rw (fits, f, q) at e)) done
  ]
]

deleted-IsCovered :
    (s : Store) (up : ℕ) (x : Session)
    → IsValid s
    → IsCovered s
    → get up s.by_up ≡ some x
    → IsCovered (deleted s up x)
deleted-IsCovered s up x v cover q u y id pdr e h =
    let (there, ne) = del-readable up u y s.by_up e in
    retire-IsCoveredBut s up x cover (v.filed up x q).up_seid u y id pdr ne there h

pub delete-IsCovered :
    (s : Store) (up expected : ℕ) → IsValid s → IsCovered s → IsCovered (delete s up expected).0
unfolding delete
delete-IsCovered s up expected v cover = elim (Option-cases (get up s.by_up)) [
  | inl bad ↦ rw bad cover
  | inr (x, e) ↦ elim (Bool-cases (x.revision != expected)) [
    | inl bad ↦ rw (e, bad) cover
    | inr current ↦ rw (e, current) (deleted-IsCovered s up x v cover e)
  ]
]
