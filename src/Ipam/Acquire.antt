-- ===== src/Ipam/Acquire.antt =====
-- Acquire of internal/pgwc/ipam/pool.go: its loop finds a clear address below the limit.
use cups.Base.{
  ℕ, zero, suc, ◌+◌, ◌-◌, ◌<◌, ◌≡◌, ◌≢◌, refl, ap, true, false, none, some, arith, get, put,
  get-put_self, ◌∙◌, set, length, Text, text_eq, nat_eq, clear_bit, inl, inr, if◌then◌else◌,
  Bool-cases, Option-cases, ◌==◌, leb,
}
use cups.Ipam.{Pool, Lease, Result, ok, marked, advance, addr_at, scan, acquire}
use cups.Ipam.Invariant.{IsValid, grant-IsValid}

-- The rounds that take the cursor to an offset.
abbrev distance : Pool → ℕ → ℕ
distance p o = if leb p.cursor o then o - p.cursor else o + (p.size - 2) - p.cursor

abbrev pub at_cursor : Pool → ℕ → Pool
at_cursor p c = record p { cursor = c }

pub cursor-IsValid :
    (p : Pool) (c : ℕ) → IsValid p → 0 < c → c < p.size - 1 → IsValid (at_cursor p c)
cursor-IsValid p c v lo hi = record {
  big = v.big;
  spans = v.spans;
  gate_low = v.gate_low;
  gate_high = v.gate_high;
  network = v.network;
  broadcast = v.broadcast;
  gate = v.gate;
  cursor_low = lo;
  cursor_high = hi;
  counted = v.counted;
  keyed = v.keyed;
  tally = v.tally;
  within = v.within;
  room = v.room;
  owned = v.owned;
  leased = v.leased;
  held = v.held;
  taken = v.taken;
}

-- What a grant at a clear address gives.
pub record IsGrant (p : Pool) (owner : Text) (r : Pool × Result Lease) : Type 0 where
  pub offset : ℕ
  pub clear : marked p offset ≡ false
  pub inside : (0 < offset) × (offset < p.size - 1)
  pub valid : IsValid r.0
  pub lease : r.1 ≡ ok (record { owner = owner; addr = addr_at p offset })
  pub owners : r.0.by_owner ≡ put owner offset p.by_owner
  pub holders : r.0.owner_by ≡ put offset owner p.owner_by
  pub count : r.0.used ≡ p.used + 1
  pub start : r.0.base ≡ p.base
  pub bits : r.0.bitmap ≡ set p.bitmap offset true

scan-IsGrant :
    (rounds : ℕ) (p : Pool) (owner : Text) (o : ℕ)
    → IsValid p
    → get owner p.by_owner ≡ none
    → p.used < p.limit
    → marked p o ≡ false
    → 0 < o
    → o < p.size - 1
    → distance p o < rounds
    → IsGrant p owner (scan rounds p owner)
unfolding scan
scan-IsGrant zero p owner o v f l m lo hi d = absurd (omega arith)
scan-IsGrant (suc rounds) p owner o v f l m lo hi d =
    let big = v.big in
    let low = v.cursor_low in
    let high = v.cursor_high in
    let next = at_cursor p (advance p) in
    let w : IsValid next = cursor-IsValid p (advance p) v (ground arith) (ground arith) in
    elim (Bool-cases (marked p p.cursor)) [
      | inl t ↦
          let other : p.cursor ≢ o = λ e. cc in
          let g = scan-IsGrant rounds next owner o w f l m lo hi (ground arith) in
          rw t (record {
            offset = g.offset;
            clear = g.clear;
            inside = g.inside;
            valid = g.valid;
            lease = g.lease;
            owners = g.owners;
            holders = g.holders;
            count = g.count;
            start = g.start;
            bits = g.bits;
          })
      | inr c ↦ rw c (record {
        offset = p.cursor;
        clear = c;
        inside = (low, high);
        valid = grant-IsValid next owner p.cursor w f l low high c;
        lease = refl;
        owners = refl;
        holders = refl;
        count = refl;
        start = refl;
        bits = refl;
      })
    ]

-- Below the limit, Acquire gives an owner that has no lease a clear address.
pub free-IsGrant :
    (p : Pool) (owner : Text)
    → IsValid p
    → get owner p.by_owner ≡ none
    → p.used < p.limit
    → IsGrant p owner (scan p.size p owner)
free-IsGrant p owner v f l =
    let spans = v.spans in
    let counted = v.counted in
    let room = v.room in
    let big = v.big in
    let high = v.cursor_high in
    let low = v.cursor_low in
    let (o, inside, clear) = clear_bit p.bitmap (omega arith) in
    let not_first : o ≢ 0 = λ e. cc v.network in
    let not_last : o ≢ p.size - 1 = λ e. cc v.broadcast in
    scan-IsGrant p.size p owner o v f l clear (omega arith) (omega arith) (ground arith)

-- Acquire of an owner without a lease, in a pool below its limit, leases a free address of the
-- prefix that is not the network's, the broadcast's or the gateway's: it never reports exhaustion.
pub acquire_below_limit :
    (p : Pool) (owner : Text)
    → IsValid p
    → length owner ≢ 0
    → get owner p.by_owner ≡ none
    → p.used < p.limit
    → IsGrant p owner (acquire p owner)
unfolding acquire
acquire_below_limit p owner v n f l =
    let g = free-IsGrant p owner v f l in
    let named : (length owner == 0) ≡ false = ground arith in
    let less : leb p.limit p.used ≡ false = ground arith in rw (named, f, less) g

-- Every Acquire, whatever its outcome, keeps the pool valid.
pub acquire-IsValid : (p : Pool) (owner : Text) → IsValid p → IsValid (acquire p owner).0
unfolding acquire
acquire-IsValid p owner v = elim (Bool-cases (length owner == 0)) [
  | inl e ↦ rw e v
  | inr named ↦ elim (Option-cases (get owner p.by_owner)) [
    | inr (o, e) ↦ rw (named, e) v
    | inl f ↦ elim (Bool-cases (leb p.limit p.used)) [
      | inl full ↦ rw (named, f, full) v
      | inr less ↦ rw (named, f, less) (free-IsGrant p owner v f (ground arith)).valid
    ]
  ]
]

held_lem :
    (q : Pool) (owner : Text) (o : ℕ)
    → length owner ≢ 0
    → get owner q.by_owner ≡ some o
    → acquire q owner ≡ (q, ok (record { owner = owner; addr = addr_at q o }))
unfolding acquire
held_lem q owner o n e =
    let named : (length owner == 0) ≡ false = ground arith in rw (named, e) refl

unnamed_lem :
    (p : Pool) (owner : Text) (l : Lease) → (length owner == 0) ≡ true → (acquire p owner).1 ≢ ok l
unfolding acquire
unnamed_lem p owner l z e = cc (rw z at e)

refused_lem :
    (p : Pool) (owner : Text) (l : Lease)
    → (length owner == 0) ≡ false
    → get owner p.by_owner ≡ none
    → leb p.limit p.used ≡ true
    → (acquire p owner).1 ≢ ok l
unfolding acquire
refused_lem p owner l z f full e = cc (rw (z, f, full) at e)

-- An owner that asks again gets the lease it has, and the pool does not change.
pub acquire_again :
    (p : Pool) (owner : Text) (l : Lease)
    → IsValid p
    → (acquire p owner).1 ≡ ok l
    → acquire (acquire p owner).0 owner ≡ ((acquire p owner).0, ok l)
acquire_again p owner l v e = elim (Bool-cases (length owner == 0)) [
  | inl z ↦ absurd (unnamed_lem p owner l z e)
  | inr z ↦
      let named : length owner ≢ 0 = ground arith in
      elim (Option-cases (get owner p.by_owner)) [
        | inr (o, h) ↦
            let r = held_lem p owner o named h in
            cc (
              e,
              r,
              ap (λ (x : Pool × Result Lease). x.0) r,
              ap (λ (x : Pool × Result Lease). x.1) r,
            )
        | inl f ↦ elim (Bool-cases (leb p.limit p.used)) [
          | inl full ↦ absurd (refused_lem p owner l z f full e)
          | inr less ↦
              let g = acquire_below_limit p owner v named f (ground arith) in
              let q = (acquire p owner).0 in
              let h =
                held_lem q owner g.offset named
                  (ap (get owner) g.owners ∙ get-put_self owner g.offset p.by_owner) in
              cc (e, h, g.start, g.lease)
        ]
      ]
]
