-- ===== src/Ipam/Release.antt =====
-- Release of internal/pgwc/ipam/pool.go, and the pool that New makes.
use cups.Base.{
  put, subst, get-put_ne, set-set_back, ℕ, ◌+◌, ◌-◌, ◌<◌, ◌≡◌, ◌≢◌, refl, sym, ap, true, false, not,
  ◌||◌, none, some, arith, get, del, del-IsKeyed, length-del_found, get-del, get-del_self,
  get-del_ne, get-put_self, ◌%◌, ◌^◌, length, set, Text, text_eq, nat_eq, inl, inr, if◌then◌else◌,
  Bool-cases, Option-cases, ◌==◌, ltb, if_both, length-set, get_or-set, count_set-set-false,
  get_or_defaults, ◌∙◌,
}
use cups.Net.{Addr, v4, is4, unmap}
use cups.Ipam.{Pool, Lease, Result, ok, marked, same_addr, addr_at, release, acquire, find}
use cups.Ipam.Invariant.{IsValid}
use cups.Ipam.Acquire.{acquire_below_limit}

abbrev dropped : Pool → Text → ℕ → Pool
dropped p owner o = record p {
  by_owner = del owner p.by_owner;
  owner_by = del o p.owner_by;
  bitmap = set p.bitmap o false;
  used = p.used - 1;
  cursor = if ltb o p.cursor then o else p.cursor;
}

dropped-IsValid :
    (p : Pool) (owner : Text) (o : ℕ)
    → IsValid p
    → get owner p.by_owner ≡ some o
    → IsValid (dropped p owner o)
dropped-IsValid p owner o v e =
    let h = v.owned owner o e in
    let held = v.held o owner h in
    let spans = v.spans in
    let big = v.big in
    let counted = v.counted in
    let within = v.within in
    let room = v.room in
    let inside : o < length p.bitmap = omega arith in
    let low = v.cursor_low in
    let high = v.cursor_high in
    let bit = λ (i : ℕ). get_or-set p.bitmap o i false true inside in
    let clear =
      count_set-set-false p.bitmap o (get_or_defaults p.bitmap o false true inside ∙ held.0) in
    let tally = v.tally in
    let fewer = length-del_found owner o p.by_owner v.keyed e in
    record {
      big = v.big;
      spans = omega (arith, length-set p.bitmap o false);
      gate_low = v.gate_low;
      gate_high = v.gate_high;
      network = ground (arith, bit 0, v.network);
      broadcast = ground (arith, bit (p.size - 1), v.broadcast);
      gate = ground (arith, bit p.gateway, v.gate);
      cursor_low = if_both (λ (c : ℕ). 0 < c) (ltb o p.cursor) (omega arith) low;
      cursor_high = if_both (λ (c : ℕ). c < p.size - 1) (ltb o p.cursor) (omega arith) high;
      counted = omega (arith, clear, fewer);
      keyed = del-IsKeyed owner p.by_owner v.keyed;
      tally = omega (arith, fewer);
      within = omega arith;
      room = v.room;
      owned = λ k q g.
          ground (
            arith,
            get-del owner k p.by_owner,
            get-del o q p.owner_by,
            v.owned k q,
            v.leased q k,
            h,
          );
      leased = λ q k g.
          ground (
            arith,
            get-del owner k p.by_owner,
            get-del o q p.owner_by,
            v.leased q k,
            v.owned k q,
            e,
          );
      held = λ q k g. ground (arith, get-del o q p.owner_by, v.held q k, bit q);
      taken = λ q b m. elim (nat_eq.decide o q) [
        | yes same ↦ absurd (ground (arith, bit q))
        | no other ↦
            let kept = get-del_ne o q p.owner_by other in
            elim (v.taken q b (ground (arith, bit q, m))) [
              | inl a ↦ inl a
              | inr (inl a) ↦ inr (inl a)
              | inr (inr (inl a)) ↦ inr (inr (inl a))
              | inr (inr (inr (k, l))) ↦ inr (inr (inr (k, kept ∙ l)))
            ]
      ];
    }

-- Every Release, whatever its outcome, keeps the pool valid.
pub release-IsValid :
    (p : Pool) (owner : Text) (a : Addr) → IsValid p → IsValid (release p owner a).0
unfolding release
release-IsValid p owner a v = elim (Bool-cases (length owner == 0 || not (is4 a))) [
  | inl e ↦ rw e v
  | inr c ↦ elim (Option-cases (get owner p.by_owner)) [
    | inl f ↦ rw (c, f) v
    | inr (o, h) ↦
        rw (c, h)
          (if_both (λ (r : Pool × Result Lease). IsValid r.0)
            (not (same_addr (addr_at p o) (unmap a))) v (dropped-IsValid p owner o v h))
  ]
]

released_lem :
    (p : Pool) (owner : Text) (a : Addr) (l : Lease)
    → (release p owner a).1 ≡ ok l
    → (o : ℕ) × (get owner p.by_owner ≡ some o) × ((release p owner a).0 ≡ dropped p owner o)
unfolding release
released_lem p owner a l e = elim (Bool-cases (length owner == 0 || not (is4 a))) [
  | inl b ↦ absurd (cc (rw b at e))
  | inr c ↦ elim (Option-cases (get owner p.by_owner)) [
    | inl f ↦ absurd (cc (rw (c, f) at e))
    | inr (o, h) ↦ elim (Bool-cases (not (same_addr (addr_at p o) (unmap a)))) [
      | inl wrong ↦ absurd (cc (rw (c, h, wrong) at e))
      | inr right ↦ (o, h, rw (c, h, right) refl)
    ]
  ]
]

find-dropped_self : (p : Pool) (owner : Text) (o : ℕ) → find (dropped p owner o) owner ≡ none
unfolding find
find-dropped_self p owner o = rw (find, get-del_self owner p.by_owner) refl

find-dropped_ne :
    (p : Pool) (owner other : Text) (o : ℕ)
    → owner ≢ other
    → find (dropped p owner o) other ≡ find p other
unfolding find
find-dropped_ne p owner other o h = rw (find, get-del_ne owner other p.by_owner h) refl

-- A Release that succeeds ends the owner's lease and no other.
pub release-frees :
    (p : Pool) (owner : Text) (a : Addr) (l : Lease)
    → (release p owner a).1 ≡ ok l
    → (find (release p owner a).0 owner ≡ none)
      × ((other : Text) → owner ≢ other → find (release p owner a).0 other ≡ find p other)
release-frees p owner a l e =
    let (o, h, q) = released_lem p owner a l e in
    (
      ap (λ (x : Pool). find x owner) q ∙ find-dropped_self p owner o,
      λ other ne. ap (λ (x : Pool). find x other) q ∙ find-dropped_ne p owner other o ne,
    )

matching_lem :
    (q : Pool) (owner : Text) (o : ℕ)
    → length owner ≢ 0
    → get owner q.by_owner ≡ some o
    → release q owner (addr_at q o)
      ≡ (dropped q owner o, ok (record { owner = owner; addr = addr_at q o }))
unfolding release unmap
matching_lem q owner o n h =
    let named : (length owner == 0) ≡ false = ground arith in
    let same : same_addr (addr_at q o) (addr_at q o) ≡ true = ground arith in
    rw (named, h, same) refl

-- Two pools with the same leases, addresses in use and count.
pub record SameLeases (p q : Pool) : Type 0 where
  pub owners : (k : Text) → get k q.by_owner ≡ get k p.by_owner
  pub holders : (o : ℕ) → get o q.owner_by ≡ get o p.owner_by
  pub bitmap : q.bitmap ≡ p.bitmap
  pub used : q.used ≡ p.used

unheld : (p : Pool) (o : ℕ) → IsValid p → marked p o ≡ false → get o p.owner_by ≡ none
unheld p o v clear = elim (Option-cases (get o p.owner_by)) [
  | inl e ↦ e
  | inr (k, e) ↦ absurd (cc ((v.held o k e).0, clear))
]

dropped-SameLeases :
    (p q : Pool) (owner : Text) (o : ℕ)
    → marked p o ≡ false
    → get owner p.by_owner ≡ none
    → get o p.owner_by ≡ none
    → q.by_owner ≡ put owner o p.by_owner
    → q.owner_by ≡ put o owner p.owner_by
    → q.bitmap ≡ set p.bitmap o true
    → q.used ≡ p.used + 1
    → SameLeases p (dropped q owner o)
dropped-SameLeases p q owner o clear f g owners holders bits count = record {
  owners = λ k. rw owners (elim (text_eq.decide owner k) [
    | yes e ↦
        subst (λ k. get k (del owner (put owner o p.by_owner)) ≡ get k p.by_owner) e
          (get-del_self owner (put owner o p.by_owner) ∙ sym f)
    | no ne ↦ get-del_ne owner k (put owner o p.by_owner) ne ∙ get-put_ne owner k o p.by_owner ne
  ]);
  holders = λ i. rw holders (elim (nat_eq.decide o i) [
    | yes e ↦
        subst (λ i. get i (del o (put o owner p.owner_by)) ≡ get i p.owner_by) e
          (get-del_self o (put o owner p.owner_by) ∙ sym g)
    | no ne ↦ get-del_ne o i (put o owner p.owner_by) ne ∙ get-put_ne o i owner p.owner_by ne
  ]);
  bitmap = ap (λ b. set b o false) bits ∙ set-set_back p.bitmap o clear;
  used = omega (arith, count);
}

-- In a valid pool with fewer leases than its limit, take a named owner without a lease. Acquire gives
-- it a lease, and a Release of that owner and address succeeds and leaves what there was before the
-- Acquire: the lease of every owner, the owner of every address, the bitmap and the count.
pub acquire-release :
    (p : Pool) (owner : Text)
    → IsValid p
    → length owner ≢ 0
    → get owner p.by_owner ≡ none
    → p.used < p.limit
    → (l : Lease) × ((acquire p owner).1 ≡ ok l)
      × ((release (acquire p owner).0 owner l.addr).1 ≡ ok l)
      × SameLeases p (release (acquire p owner).0 owner l.addr).0
acquire-release p owner v n f u =
    let g = acquire_below_limit p owner v n f u in
    let q = (acquire p owner).0 in
    let h = ap (get owner) g.owners ∙ get-put_self owner g.offset p.by_owner in
    let same : addr_at q g.offset ≡ addr_at p g.offset =
      ap (λ b. v4 ((b + g.offset) % 2 ^ 32)) g.start in
    let r = ap (release q owner) (sym same) ∙ matching_lem q owner g.offset n h in
    (
      record { owner = owner; addr = addr_at p g.offset },
      g.lease,
      cc (ap (λ (x : Pool × Result Lease). x.1) r, same),
      subst (SameLeases p) (sym (ap (λ (x : Pool × Result Lease). x.0) r)) (
          dropped-SameLeases p q owner g.offset g.clear f (unheld p g.offset v g.clear) g.owners
            g.holders g.bits g.count),
    )
