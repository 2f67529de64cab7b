-- ===== src/Ipam/Invariant.antt =====
-- The invariant of internal/pgwc/ipam/pool.go: the bitmap, the two maps and the count of leases
-- tell the same story.
use cups.Base.{
  ℕ, ◌+◌, ◌-◌, ◌≤◌, ◌<◌, ◌≡◌, ◌≢◌, ◌⊎◌, true, false, none, some, arith, get, IsKeyed, put-IsKeyed,
  length-put_new, get-put, get-put_ne, ◌∙◌, length, Text, text_eq, nat_eq, count_set, length-set,
  get_or-set, count_set-set-true, inl, inr,
}
use cups.Ipam.{Pool, marked, grant}

pub record IsValid (p : Pool) : Type 0 where
  pub big : 4 ≤ p.size
  pub spans : length p.bitmap ≡ p.size
  pub gate_low : 0 < p.gateway
  pub gate_high : p.gateway < p.size - 1
  pub network : marked p 0 ≡ true
  pub broadcast : marked p (p.size - 1) ≡ true
  pub gate : marked p p.gateway ≡ true
  pub cursor_low : 0 < p.cursor
  pub cursor_high : p.cursor < p.size - 1
  pub counted : count_set p.bitmap ≡ p.used + 3
  pub keyed : IsKeyed p.by_owner
  pub tally : length p.by_owner ≡ p.used
  pub within : p.used ≤ p.limit
  pub room : p.limit + 3 ≤ p.size
  pub owned : (k : Text) (o : ℕ) → get k p.by_owner ≡ some o → get o p.owner_by ≡ some k
  pub leased : (o : ℕ) (k : Text) → get o p.owner_by ≡ some k → get k p.by_owner ≡ some o
  pub held :
      (o : ℕ) (k : Text)
      → get o p.owner_by ≡ some k
      → (marked p o ≡ true) × (0 < o) × (o < p.size - 1) × (o ≢ p.gateway)
  pub taken :
      (o : ℕ)
      → o < p.size
      → marked p o ≡ true
      → (o ≡ 0)
        ⊎ ((o ≡ p.size - 1) ⊎ ((o ≡ p.gateway) ⊎ ((k : Text) × (get o p.owner_by ≡ some k))))

-- Granting a clear address to an owner that has none keeps the pool valid.
pub grant-IsValid :
    (p : Pool) (owner : Text) (o : ℕ)
    → IsValid p
    → get owner p.by_owner ≡ none
    → p.used < p.limit
    → 0 < o
    → o < p.size - 1
    → marked p o ≡ false
    → IsValid (grant p owner o)
grant-IsValid p owner o v fresh less lo hi clear =
    let n = v.spans in
    let b = v.big in
    let inside : o < length p.bitmap = omega arith in
    let bit = λ (i : ℕ). get_or-set p.bitmap o i true true inside in
    record {
      big = v.big;
      spans = omega (arith, length-set p.bitmap o true);
      gate_low = v.gate_low;
      gate_high = v.gate_high;
      network = ground (arith, bit 0, v.network);
      broadcast = ground (arith, bit (p.size - 1), v.broadcast);
      gate = ground (arith, bit p.gateway, v.gate);
      cursor_low = v.cursor_low;
      cursor_high = v.cursor_high;
      counted = omega (arith, count_set-set-true p.bitmap o clear, v.counted);
      keyed = put-IsKeyed owner o p.by_owner v.keyed;
      tally = omega (arith, length-put_new owner o p.by_owner fresh, v.tally);
      within = omega arith;
      room = v.room;
      owned = λ k q e. ground (
        arith,
        get-put owner k o p.by_owner,
        get-put o q owner p.owner_by,
        v.owned k q,
        v.held q k,
      );
      leased = λ q k e.
          ground (arith, get-put owner k o p.by_owner, get-put o q owner p.owner_by, v.leased q k);
      held =
          λ q k e. ground (arith, get-put o q owner p.owner_by, v.held q k, bit q, v.gate, clear);
      taken = λ q h m. elim (nat_eq.decide o q) [
        | yes same ↦ inr (inr (inr (owner, ground (arith, get-put o q owner p.owner_by))))
        | no other ↦
            let kept = get-put_ne o q owner p.owner_by other in
            elim (v.taken q h (ground (arith, bit q, m))) [
              | inl a ↦ inl a
              | inr (inl a) ↦ inr (inl a)
              | inr (inr (inl a)) ↦ inr (inr (inl a))
              | inr (inr (inr (k, l))) ↦ inr (inr (inr (k, kept ∙ l)))
            ]
      ];
    }
