-- ===== src/Sgwc/Found.antt =====
-- internal/sgwc/session/store.go: what the lookups find.
use cups.Base.{
  ℕ, ◌≡◌, ◌≤◌, ◌↔◌, refl, sym, ap, ◌∙◌, Bool, true, false, ◌&&◌, Option, none, some, some-injective,
  [], ◌∷◌, ◌==◌, DecEq, Map, get, has, nat_eq, Text, text_eq, IsIndex, arith, Option-cases, inl,
  inr, same, ◌⊎◌,
}
use cups.Sgwc.{Session, bearer_owner_eq, bearer_owner_key, owner_key}
use cups.Sgwc.Store.{Store, IdSet, ids_at}
use cups.Sgwc.Find.{
  deref, find_by_s5_teid, find_by_pfcp_control_seid, find_by_owner, find_by_subscriber_and_ebi,
  find_by_s11_teid, greatest,
}
use cups.Sgwc.Invariant.{IsValid, has_s5, has_pfcp, has_owner, has_bearer, at_s11}

abbrev pub Stored : Store → Session → Type 0
Stored s x = (i : ℕ) × (get i s.by_id ≡ some x)

-- A lookup does not panic, and finds a session if and only if it is stored and passes the test.
abbrev pub Finds : Store → Option (Option Session) → Session → Bool → Type 0
Finds s r x test =
    ((o : Option Session) × (r ≡ some o)) × ((r ≡ some (some x)) ↔ (Stored s x × (test ≡ true)))

some_twice : {A : Type 0} (x y : A) → some (some x) ≡ some (some y) → x ≡ y
some_twice x y e = some-injective x y (some-injective (some x) (some y) e)

deref-Finds :
    {K : Type 0} ⦃e : DecEq K⦄ (H : Session → K → Bool) (s : Store) (idx : Map K ℕ) (k : K)
    (x : Session)
    → IsIndex H s.by_id idx
    → Finds s (deref s.by_id (get k idx)) x (H x k)
deref-Finds H s idx k x v = elim (Option-cases (get k idx)) [
  | inl q ↦ rw q ((none, refl), ((λ e. cc), (λ ((i, r), t). cc (q, v.complete k i x r t))))
  | inr (i, q) ↦
      let (y, r, t) = v.sound k i q in
      rw (q, r)
        (
          (some y, refl),
          (
            (λ e. let d = some_twice y x e in ((i, r ∙ ap some d), ap (λ z. H z k) (sym d) ∙ t)),
            (λ ((j, p), u).
                let same : j ≡ i = some-injective j i (sym (v.complete k j x p u) ∙ q) in
                ap some (sym r ∙ ap (λ n. get n s.by_id) (sym same) ∙ p)),
          ),
        )
]

-- For a valid store and any session, the lookups by S5/S8 TEID, by PFCP SEID, by owner, and by
-- subscriber and EBI return without a panic; each returns that session if and only if the store
-- has it and it carries the key.
pub lookups_by_index :
    (s : Store) (n : ℕ) (subscriber apn : Text) (ebi : ℕ) (x : Session)
    → IsValid s
    → Finds s (find_by_s5_teid s n) x (has_s5 x n)
      × Finds s (find_by_pfcp_control_seid s n) x (has_pfcp x n)
      × Finds s (find_by_owner s subscriber apn) x (has_owner x (owner_key subscriber apn))
      × Finds s
          (find_by_subscriber_and_ebi s subscriber ebi)
          x
          (same x.subscriber_key subscriber && has ebi x.bearers)
unfolding find_by_s5_teid find_by_pfcp_control_seid find_by_owner find_by_subscriber_and_ebi
lookups_by_index s n subscriber apn ebi x v = (
  deref-Finds has_s5 s s.by_s5 n x v.s5,
  deref-Finds has_pfcp s s.by_pfcp n x v.pfcp,
  deref-Finds has_owner s s.by_owner (owner_key subscriber apn) x v.owner,
  deref-Finds has_bearer s s.by_bearer (bearer_owner_key subscriber ebi) x v.bearer,
)

greatest-member : (ids : IdSet) → (greatest ids ≡ 0) ⊎ (has (greatest ids) ids ≡ true)
unfolding greatest get
greatest-member [] = inl refl
greatest-member ((id, p) ∷ ids) = ground (arith, greatest-member ids)

greatest-bound : (ids : IdSet) (i : ℕ) → has i ids ≡ true → i ≤ greatest ids
unfolding greatest get
greatest-bound [] i h = cc
greatest-bound ((id, p) ∷ ids) i h = ground (arith, greatest-bound ids i)

-- For a valid store that has a session on an S11 TEID, the lookup by that TEID returns a stored
-- session of the TEID, and its id is no less than that session's: the newest.
pub find_by_s11_teid_newest :
    (s : Store) (teid i : ℕ) (x : Session)
    → IsValid s
    → get i s.by_id ≡ some x
    → x.s11_control.teid ≡ teid
    → (y : Session) × (find_by_s11_teid s teid ≡ some (some y))
      × Stored s y
      × (y.s11_control.teid ≡ teid)
      × (x.id ≤ y.id)
unfolding find_by_s11_teid
find_by_s11_teid_newest s teid i x v q t =
    let ids = ids_at teid s.by_s11 in
    let here : has i ids ≡ true = v.s11 teid i ∙ ap (at_s11 teid) q ∙ ground arith in
    let f = v.filed i x q in
    let bound = greatest-bound ids i here in
    elim (greatest-member ids) [
      | inl z ↦ absurd (omega (arith, bound, f.positive, z))
      | inr m ↦ elim (Option-cases (get (greatest ids) s.by_id)) [
        | inl e ↦ absurd (cc (m, v.s11 teid (greatest ids), ap (at_s11 teid) e))
        | inr (y, e) ↦
            let there : at_s11 teid (some y) ≡ true =
              ap (at_s11 teid) (sym e) ∙ sym (v.s11 teid (greatest ids)) ∙ m in
            let positive : (greatest ids == 0) ≡ false = ground (arith, bound, f.positive) in
            (
              y,
              rw (positive, e) refl,
              (greatest ids, e),
              ground arith,
              omega (arith, bound, f.number, (v.filed (greatest ids) y e).number),
            )
      ]
    ]
