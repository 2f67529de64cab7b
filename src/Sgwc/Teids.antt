-- ===== src/Sgwc/Teids.antt =====
-- internal/sgwc/session/store.go: the control TEIDs that AllocateControlTEID gives out.
use cups.Base.{
  ℕ, zero, suc, ◌≡◌, ◌≢◌, ◌<◌, refl, sym, ap, ◌∙◌, Bool, true, false, not, ◌&&◌, Option, none, some,
  ◌==◌, if◌then◌else◌, get, has, nat_eq, arith, Bool-cases, Option-cases, inl, inr, has-none,
  some-injective, is_some, AllEntries, AllEntries-intro,
}
use cups.Sgwc.{Session}
use cups.Sgwc.Store.{Store, Result, ok, ids_at, ids_of}
use cups.Sgwc.Operations.{allocate_with, allocate_from, allocate_control_teid}
use cups.Sgwc.Invariant.{IsValid, at_s11}

abbrev pub is_free : Store → ℕ → Bool
is_free s teid = not (teid == 0) && (not (has teid s.by_s11) && not (has teid s.by_s5))

allocate_with-free :
    (s : Store) (c : ℕ) (rest : Result ℕ)
    → allocate_with s (some c) rest ≡ (if is_free s c then ok c else rest)
allocate_with-free s c rest = elim (Bool-cases (c == 0)) [ inl z ↦ rw z refl | inr z ↦ rw z refl ]

ok-injective : (a b : ℕ) → ok a ≡ ok b → a ≡ b
ok-injective a b e = cc

allocate_from-free :
    (s : Store) (n : ℕ) (random : ℕ → Option ℕ) (teid : ℕ)
    → allocate_from s n random ≡ ok teid
    → is_free s teid ≡ true
unfolding allocate_from
allocate_from-free s zero random teid h = cc
allocate_from-free s (suc n) random teid h = elim (Option-cases (random n)) [
  | inl e ↦ absurd (cc (rw e at h))
  | inr (c, e) ↦
      let step : (if is_free s c then ok c else allocate_from s n random) ≡ ok teid =
        sym (allocate_with-free s c (allocate_from s n random)) ∙ rw e at h in
      elim (Bool-cases (is_free s c)) [
        | inl f ↦ ap (is_free s) (sym (ok-injective c teid (rw f at step))) ∙ f
        | inr f ↦ allocate_from-free s n random teid (rw f at step)
      ]
]

-- No control TEID of the session is this one.
abbrev pub Unlike : ℕ → ℕ → Session → Type 0
Unlike teid i x = (x.s11_control.teid ≢ teid) × (x.s5_control.teid ≢ teid)

none_at :
    (s : Store) (teid i : ℕ) (x : Session)
    → IsValid s
    → get i s.by_id ≡ some x
    → get teid s.by_s11 ≡ none
    → x.s11_control.teid ≢ teid
unfolding get
none_at s teid i x v q none_s11 e =
    let there : has i (ids_at teid s.by_s11) ≡ true =
      v.s11 teid i ∙ ap (at_s11 teid) q ∙ ground arith in
    let empty : has i (ids_at teid s.by_s11) ≡ false = ap (λ o. has i (ids_of o)) none_s11 in
    cc (there, empty)

allocate-Unlike :
    (s : Store) (random : ℕ → Option ℕ) (teid : ℕ)
    → IsValid s
    → allocate_control_teid s random ≡ ok teid
    → (i : ℕ) (x : Session) → get i s.by_id ≡ some x
    → Unlike teid i x
unfolding allocate_control_teid
allocate-Unlike s random teid v h i x q =
    let free = allocate_from-free s 256 random teid h in
    let no_s11 = has-none teid s.by_s11 (ground arith) in
    let no_s5 = has-none teid s.by_s5 (ground arith) in
    (
      (λ e. none_at s teid i x v q no_s11 e),
      (λ e. cc (no_s5, v.s5.complete teid i x q (ground arith))),
    )

-- For a valid store, with sessions or without, a TEID that is allocated is not 0, and no session of
-- the store has it as its S11 or as its S5/S8 control TEID.
pub allocate_control_teid-unused :
    (s : Store) (random : ℕ → Option ℕ) (teid : ℕ)
    → IsValid s
    → allocate_control_teid s random ≡ ok teid
    → (teid ≢ 0) × AllEntries (Unlike teid) s.by_id
unfolding allocate_control_teid
allocate_control_teid-unused s random teid v h =
    let free = allocate_from-free s 256 random teid h in
    (
      (λ z. ground arith),
      AllEntries-intro (Unlike teid) s.by_id v.keyed (allocate-Unlike s random teid v h),
    )

allocate_from-total :
    (s : Store) (n k : ℕ) (random : ℕ → Option ℕ) (c : ℕ)
    → k < n
    → ((j : ℕ) → is_some (random j) ≡ true)
    → random k ≡ some c
    → is_free s c ≡ true
    → (teid : ℕ) × (allocate_from s n random ≡ ok teid)
unfolding allocate_from
allocate_from-total s zero k random c h all e f = absurd (omega arith)
allocate_from-total s (suc n) k random c h all e f = elim (Option-cases (random n)) [
  | inl g ↦ absurd (cc (all n, ap is_some g))
  | inr (d, g) ↦
      let rest = allocate_from s n random in
      elim (Bool-cases (is_free s d)) [
        | inl t ↦ (d, rw (g, allocate_with-free s d rest, t) refl)
        | inr t ↦
            let earlier : k ≢ n = λ z. cc (
              ap random z,
              e,
              g,
              f,
              t,
              ap (is_free s) (some-injective c d (sym e ∙ ap random z ∙ g)),
            ) in
            let (teid, r) = allocate_from-total s n k random c (omega (arith, earlier)) all e f in
            (teid, rw (g, allocate_with-free s d rest, t) r)
      ]
]

-- When the random source does not fail and one of the 256 candidates, numbered from the last, is
-- free, AllocateControlTEID returns a TEID.
pub allocate_control_teid-total :
    (s : Store) (k : ℕ) (random : ℕ → Option ℕ) (c : ℕ)
    → k < 256
    → ((j : ℕ) → is_some (random j) ≡ true)
    → random k ≡ some c
    → is_free s c ≡ true
    → (teid : ℕ) × (allocate_control_teid s random ≡ ok teid)
unfolding allocate_control_teid
allocate_control_teid-total s k random c h all e f = allocate_from-total s 256 k random c h all e f
