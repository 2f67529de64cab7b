-- ===== src/Rules/Outcome.antt =====
-- What a caller of the Store of internal/sgwu/rules/store.go can rely on after an operation:
-- errors change nothing, a success is stored, and a rule that the packet path still holds from
-- before is no longer active.
use cups.Base.{
  ℕ, ◌≡◌, refl, sym, ap, ◌∙◌, true, false, not, ◌||◌, some, has, arith, leb, ◌!=◌, get, put, length,
  get-put_ne, get-put_self, if_both, nat_eq, Option-cases, Bool-cases, inl, inr,
}
use cups.Rules.{Session, PacketRule, tunnel_key_eq, pdr_key_eq}
use cups.Rules.Validate.{validate}
use cups.Rules.Store.{Store, Error, Result, ok, err, install, retire, switched_off, conflicts}
use cups.Rules.Operations.{
  create, update, update_mutated, find_by_up_seid, lookup_packet, flag, is_active, next_revision,
}
use cups.Rules.Lookup.{lookup_packet-IsCurrent}
use cups.Rules.Invariant.{IsValid}

-- A Create that fails leaves the store as it was.
pub create_refused :
    (s : Store) (c : Session) (e : Error) → (create s c).1 ≡ err e → (create s c).0 ≡ s
unfolding create
create_refused s c e =
    let P = λ (r : Store × Result Session). r.1 ≡ err e → r.0 ≡ s in
    if_both P (not (validate c)) (λ q. refl)
      (if_both P (has c.up_seid s.by_up || has c.cp_seid s.by_cp) (λ q. refl)
        (if_both P (conflicts s c 0) (λ q. refl)
          (if_both P (leb s.limit (length s.by_up)) (λ q. refl) (λ q. cc))))

mutated_refused :
    (s : Store) (up : ℕ) (x : Session) (r : Result Session) (e : Error)
    → (update_mutated s up x r).1 ≡ err e
    → (update_mutated s up x r).0 ≡ s
mutated_refused s up x (err f) e q = refl
mutated_refused s up x (ok n) e q0 =
    let P = λ (r : Store × Result Session). r.1 ≡ err e → r.0 ≡ s in
    (if_both P (n.cp_seid != x.cp_seid || n.up_seid != x.up_seid) (λ q. refl)
        (if_both P (not (validate n)) (λ q. refl)
          (if_both P (conflicts s n up) (λ q. refl) (λ q. cc))))
      q0

-- An Update that fails, whether the session is missing, its revision is another, or the mutation
-- or its result is refused, leaves the store as it was.
pub update_refused :
    (s : Store) (up expected : ℕ) (mutate : Session → Result Session) (e : Error)
    → (update s up expected mutate).1 ≡ err e
    → (update s up expected mutate).0 ≡ s
unfolding update
update_refused s up expected mutate e q = elim (Option-cases (get up s.by_up)) [
  | inl bad ↦ rw bad refl
  | inr (x, f) ↦ elim (Bool-cases (x.revision != expected)) [
    | inl bad ↦ rw (f, bad) refl
    | inr current ↦ rw (f, current) (mutated_refused s up x (mutate x) e (rw (f, current) at q))
  ]
]

mutated_lem :
    (s : Store) (up : ℕ) (x c : Session) (r : Result Session)
    → (update_mutated s up x r).1 ≡ ok c
    → ((update_mutated s up x r).0 ≡ install (retire s up x) c) × (c.up_seid ≡ x.up_seid)
mutated_lem s up x c (err f) q = absurd cc
mutated_lem s up x c (ok n) q =
    elim (Bool-cases (n.cp_seid != x.cp_seid || n.up_seid != x.up_seid)) [
      | inl bad ↦ absurd (cc (rw bad at q))
      | inr same ↦ elim (Bool-cases (not (validate n))) [
        | inl bad ↦ absurd (cc (rw (same, bad) at q))
        | inr sound ↦ elim (Bool-cases (conflicts s n up)) [
          | inl bad ↦ absurd (cc (rw (same, sound, bad) at q))
          | inr clear ↦
              let next = record n { revision = next_revision n.revision } in
              let it : next ≡ c = cc (rw (same, sound, clear) at q) in
              (
                rw (same, sound, clear) (ap (install (retire s up x)) it),
                ap (λ (y : Session). y.up_seid) (sym it) ∙ ground arith,
              )
        ]
      ]
    ]

update_lem :
    (s : Store) (up expected : ℕ) (mutate : Session → Result Session) (c : Session)
    → (update s up expected mutate).1 ≡ ok c
    → (x : Session) × (get up s.by_up ≡ some x)
      × (x.revision ≡ expected)
      × ((update s up expected mutate).0 ≡ install (retire s up x) c)
      × (c.up_seid ≡ x.up_seid)
unfolding update
update_lem s up expected mutate c q = elim (Option-cases (get up s.by_up)) [
  | inl bad ↦ absurd (cc (rw bad at q))
  | inr (x, f) ↦ elim (Bool-cases (x.revision != expected)) [
    | inl bad ↦ absurd (cc (rw (f, bad) at q))
    | inr current ↦
        let (a, b) = mutated_lem s up x c (mutate x) (rw (f, current) at q) in
        (x, f, ground arith, rw (f, current) a, b)
  ]
]

-- An Update that succeeds had the expected revision before it, and its result is what the store
-- holds after it.
pub update-find :
    (s : Store) (up expected : ℕ) (mutate : Session → Result Session) (c : Session)
    → IsValid s
    → (update s up expected mutate).1 ≡ ok c
    → (find_by_up_seid (update s up expected mutate).0 up ≡ some c)
      × ((x : Session) × (find_by_up_seid s up ≡ some x) × (x.revision ≡ expected))
unfolding find_by_up_seid
update-find s up expected mutate c v q =
    let (x, f, r, t, same) = update_lem s up expected mutate c q in
    let here : c.up_seid ≡ up = same ∙ (v.filed up x f).up_seid in
    (
      ap (λ (z : Store). get up z.by_up) t
          ∙ ap (λ u. get u (put c.up_seid c s.by_up)) (sym here)
          ∙ get-put_self c.up_seid c s.by_up,
      (x, f, r),
    )

-- In a valid store, a rule that the packet path finds right before an Update of its session that
-- succeeds is not active after it.
pub update_retires :
    (s : Store) (up expected source teid : ℕ) (mutate : Session → Result Session) (c : Session)
    (r : PacketRule)
    → IsValid s
    → lookup_packet s source teid ≡ some r
    → r.up_seid ≡ up
    → (update s up expected mutate).1 ≡ ok c
    → is_active (update s up expected mutate).0 r.generation ≡ false
update_retires s up expected source teid mutate c r v found mine q =
    let (x, f, e, t, same) = update_lem s up expected mutate c q in
    let h = lookup_packet-IsCurrent s source teid r v found in
    let running : get up s.generations ≡ some h.number =
      ap (λ u. get u s.generations) (sym mine) ∙ h.running in
    let older = v.bounded up h.number running in
    let off = switched_off s.active (get up s.generations) in
    let kept = get-put_ne s.allocated h.number true off (λ z. omega arith) in
    let last : get h.number off ≡ some false =
      ap (λ o. get h.number (switched_off s.active o)) running
      ∙ get-put_self h.number false s.active in
    ap (λ (z : Store). is_active z r.generation) t
    ∙ ap (is_active (install (retire s up x) c)) h.generation
    ∙ ap flag (kept ∙ last)
