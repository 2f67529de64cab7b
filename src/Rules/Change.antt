-- ===== src/Rules/Change.antt =====
-- Update, Reconcile and Delete of internal/sgwu/rules/store.go keep the store's invariant.
use cups.Base.{
  ℕ, ◌≡◌, ◌≢◌, refl, ap, ◌∙◌, subst, Bool, true, false, ◌||◌, Option, none, some, arith, ◌==◌, ◌!=◌,
  Map, if_both, IsKeyed, get, get-put_ne, length-put_old, nat_eq, Option-cases, Bool-cases, inl,
  inr,
}
use cups.Rules.{Session, tunnel_key_eq, pdr_key_eq}
use cups.Rules.Validate.{validate}
use cups.Rules.Validated.{validate-revision}
use cups.Rules.Store.{Store, Result, ok, err, install, retire, switched_off, conflicts}
use cups.Rules.Operations.{
  update, reconcile, deep_equal, next_revision, update_mutated, reconcile_found,
}
use cups.Rules.Invariant.{IsFiled, IsValid, retire-IsIndexedBut}
use cups.Rules.Install.{IsReady, install-IsValid}

switched_off_ne :
    (active : Map ℕ Bool) (o : Option ℕ) (n : ℕ)
    → o ≢ some n
    → get n (switched_off active o) ≡ get n active
switched_off_ne active none n h = refl
switched_off_ne active (some g) n h = get-put_ne g n false active (λ e. h (ap some e))

-- Switching off the generation of one session leaves the others filed.
pub retired-IsFiled :
    (s : Store) (up u : ℕ) (x y : Session)
    → IsValid s
    → up ≢ u
    → IsFiled s u y
    → IsFiled (retire s up x) u y
retired-IsFiled s up u x y v ne f = record {
  up_seid = f.up_seid;
  cp_seid = f.cp_seid;
  sound = f.sound;
  keyed = f.keyed;
  number = f.number;
  running = f.running;
  active =
      switched_off_ne s.active (get up s.generations) f.number
        (λ e. ne (v.distinct up u f.number e f.running))
      ∙ f.active;
}

pub retired-IsReady :
    (s : Store) (x c : Session)
    → IsValid s
    → get c.up_seid s.by_up ≡ some x
    → c.cp_seid ≡ x.cp_seid
    → validate c ≡ true
    → IsKeyed c.pdrs
    → IsReady (retire s c.up_seid x) c
retired-IsReady s x c v e same sound keyed =
    let f = v.filed c.up_seid x e in
    let h = retire-IsIndexedBut s c.up_seid x v e in
    record {
      filed = λ u y ne q. retired-IsFiled s c.up_seid u x y v ne (v.filed u y q);
      mapped = ap (λ k. get k s.by_cp) same ∙ f.cp_seid;
      owner = λ k q. let (y, r, o) = v.owners k c.up_seid q in cc (r, e, o, same);
      owners = λ k u ne q. v.owners k u q;
      indexed = record { tunnels = h.tunnels; rules = h.rules };
      distinct = v.distinct;
      bounded = v.bounded;
      keyed = v.keyed;
      room = omega (arith, length-put_old c.up_seid c x s.by_up e, v.within);
      sound = sound;
      pdrs = keyed;
    }

mutated-IsValid :
    (s : Store) (up : ℕ) (x : Session) (r : Result Session)
    → IsValid s
    → get up s.by_up ≡ some x
    → ((n : Session) → r ≡ ok n → IsKeyed n.pdrs)
    → IsValid (update_mutated s up x r).0
mutated-IsValid s up x (err e) v q maps = v
mutated-IsValid s up x (ok n) v q maps =
    elim (Bool-cases (n.cp_seid != x.cp_seid || n.up_seid != x.up_seid)) [
      | inl bad ↦ rw bad v
      | inr same ↦ elim (Bool-cases (validate n)) [
        | inr bad ↦ rw (same, bad) v
        | inl sound ↦ elim (Bool-cases (conflicts s n up)) [
          | inl bad ↦ rw (same, sound, bad) v
          | inr clear ↦
              let own = (v.filed up x q).up_seid in
              let at_up : n.up_seid ≡ up = ground arith in
              let c = record n { revision = next_revision n.revision } in
              let ready =
                retired-IsReady s x c v (ap (λ u. get u s.by_up) at_up ∙ q) (ground arith)
                  (validate-revision n c.revision ∙ sound) (maps n refl) in
              let done =
                subst (λ (u : ℕ). IsValid (install (retire s u x) c)) at_up
                  (install-IsValid (retire s c.up_seid x) c ready) in
              rw (same, sound, clear) done
        ]
      ]
    ]

reconciled-IsValid :
    (s : Store) (up : ℕ) (c x : Session)
    → IsValid s
    → get up s.by_up ≡ some x
    → c.cp_seid ≡ x.cp_seid
    → IsKeyed c.pdrs
    → IsValid (reconcile_found s up c x).0
reconciled-IsValid s up c x v q same keyed =
    let n = record c { up_seid = up } in
    let next = record n { revision = next_revision x.revision } in
    elim (Bool-cases (validate n)) [
      | inr bad ↦ rw bad v
      | inl sound ↦ elim (Bool-cases (conflicts s n up)) [
        | inl bad ↦ rw (sound, bad) v
        | inr clear ↦
            let ready =
              retired-IsReady s x next v q same (validate-revision n next.revision ∙ sound) keyed in
            rw (sound, clear)
              (if_both (λ (r : Store × Result Session). IsValid r.0)
                (deep_equal (record n { revision = x.revision }) x) v
                (install-IsValid (retire s up x) next ready))
      ]
    ]

-- Every Update, whatever its outcome and whatever its mutation does, keeps the store valid.
pub update-IsValid :
    (s : Store) (up expected : ℕ) (mutate : Session → Result Session)
    → IsValid s
    → ((x n : Session) → mutate x ≡ ok n → IsKeyed n.pdrs)
    → IsValid (update s up expected mutate).0
unfolding update
update-IsValid s up expected mutate v maps = elim (Option-cases (get up s.by_up)) [
  | inl bad ↦ rw bad v
  | inr (x, e) ↦ elim (Bool-cases (x.revision != expected)) [
    | inl bad ↦ rw (e, bad) v
    | inr current ↦ rw (e, current) (mutated-IsValid s up x (mutate x) v e (maps x))
  ]
]

-- Every Reconcile, whatever its outcome, keeps the store valid, and none panics.
pub reconcile-IsValid :
    (s : Store) (cp : ℕ) (c : Session)
    → IsValid s
    → IsKeyed c.pdrs
    → (r : Store × Result Session) × (reconcile s cp c ≡ some r) × IsValid r.0
unfolding reconcile
reconcile-IsValid s cp c v keyed = elim (Bool-cases (cp == 0 || c.cp_seid != cp)) [
  | inl bad ↦ rw bad (_, refl, v)
  | inr fits ↦ elim (Option-cases (get cp s.by_cp)) [
    | inl bad ↦ rw (fits, bad) (_, refl, v)
    | inr (up, e) ↦
        let (x, q, o) = v.owners cp up e in
        rw (fits, e, q) (_, refl, reconciled-IsValid s up c x v q (ground arith) keyed)
  ]
]
