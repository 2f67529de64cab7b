-- ===== src/Rules/Delete.antt =====
-- Delete of internal/sgwu/rules/store.go keeps the store's invariant.
use cups.Base.{
  ℕ, ◌+◌, ◌%◌, ◌^◌, ◌≡◌, ◌≢◌, ap, ◌∙◌, some, arith, ◌!=◌, del-readable, get, del, get-del_ne,
  length-del_found, del-IsKeyed, nat_eq, Option-cases, Bool-cases, inl, inr,
}
use cups.Rules.{Session, PacketRule, tunnel_key_eq, pdr_key_eq}
use cups.Rules.Store.{Store, retire}
use cups.Rules.Operations.{delete}
use cups.Rules.Invariant.{IsCurrent, IsFiled, IsValid, retire-IsIndexedBut}
use cups.Rules.Change.{retired-IsFiled}

-- The store after a Delete of the session `x` at `up`.
abbrev pub deleted : Store → ℕ → Session → Store
deleted s up x =
    let u = retire (record s { by_up = del up s.by_up; by_cp = del x.cp_seid s.by_cp }) up x in
    record u { generations = del up u.generations; removed = (u.removed + 1) % 2 ^ 64 }

still-IsCurrent :
    (s : Store) (up : ℕ) (x : Session) (r : PacketRule)
    → IsCurrent s.by_up s.generations r
    → up ≢ r.up_seid
    → IsCurrent (deleted s up x).by_up (deleted s up x).generations r
still-IsCurrent s up x r h ne = record {
  session = h.session;
  stored = get-del_ne up r.up_seid s.by_up ne ∙ h.stored;
  compiled = h.compiled;
  number = h.number;
  generation = h.generation;
  running = get-del_ne up r.up_seid s.generations ne ∙ h.running;
}

still-IsFiled :
    (s : Store) (up u : ℕ) (x y : Session)
    → IsValid s
    → get up s.by_up ≡ some x
    → get u (del up s.by_up) ≡ some y
    → IsFiled (deleted s up x) u y
still-IsFiled s up u x y v q e =
    let (there, ne) = del-readable up u y s.by_up e in
    let old = v.filed u y there in
    let f = retired-IsFiled s up u x y v ne old in
    let mine = v.filed up x q in
    record {
      up_seid = f.up_seid;
      cp_seid =
          get-del_ne x.cp_seid y.cp_seid s.by_cp
            (λ z. ne (cc (mine.cp_seid, old.cp_seid, ap (λ k. get k s.by_cp) z)))
          ∙ f.cp_seid;
      sound = f.sound;
      keyed = f.keyed;
      number = f.number;
      running = get-del_ne up u s.generations ne ∙ f.running;
      active = f.active;
    }

still_owner :
    (s : Store) (up k u : ℕ) (x : Session)
    → IsValid s
    → get up s.by_up ≡ some x
    → get k (del x.cp_seid s.by_cp) ≡ some u
    → (y : Session) × (get u (del up s.by_up) ≡ some y) × (y.cp_seid ≡ k)
still_owner s up k u x v q e =
    let (there, ne) = del-readable x.cp_seid k u s.by_cp e in
    let (y, r, o) = v.owners k u there in
    (y, get-del_ne up u s.by_up (λ z. ne (cc (ap (λ w. get w s.by_up) z, q, r, o))) ∙ r, o)

pub deleted-IsValid :
    (s : Store) (up : ℕ) (x : Session)
    → IsValid s
    → get up s.by_up ≡ some x
    → IsValid (deleted s up x)
deleted-IsValid s up x v q =
    let h = retire-IsIndexedBut s up x v q in
    record {
      filed = λ u y e. still-IsFiled s up u x y v q e;
      owners = λ k u e. still_owner s up k u x v q e;
      indexed = record {
        tunnels = λ k r e. let (t, c, ne) = h.tunnels k r e in (t, still-IsCurrent s up x r c ne);
        rules = λ k r e. let (t, c, ne) = h.rules k r e in (t, still-IsCurrent s up x r c ne);
      };
      distinct = λ u w g e f.
          v.distinct u w g (del-readable up u g s.generations e).0
            (del-readable up w g s.generations f).0;
      bounded = λ u g e. v.bounded u g (del-readable up u g s.generations e).0;
      keyed = del-IsKeyed up s.by_up v.keyed;
      within = omega (arith, length-del_found up x s.by_up v.keyed q, v.within);
    }

-- Every Delete, whatever its outcome, keeps the store valid.
pub delete-IsValid : (s : Store) (up expected : ℕ) → IsValid s → IsValid (delete s up expected).0
unfolding delete
delete-IsValid s up expected v = elim (Option-cases (get up s.by_up)) [
  | inl bad ↦ rw bad v
  | inr (x, e) ↦ elim (Bool-cases (x.revision != expected)) [
    | inl bad ↦ rw (e, bad) v
    | inr current ↦ rw (e, current) (deleted-IsValid s up x v e)
  ]
]
