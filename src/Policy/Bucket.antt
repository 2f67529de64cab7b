-- ===== src/Policy/Bucket.antt =====
-- refill of internal/sgwu/dataplane/policy.go, and the bits that one limit grants over time.
use native.Mathlib.Nat.{div-mul-le_self, mul-le-mul_left, mul-le-mul_right, add-mul}
use cups.Base.{
  ℕ, ◌+◌, ◌-◌, ◌*◌, ◌/◌, ◌≡◌, ◌≤◌, refl, ap, true, false, ltb, leb, ◌==◌, if◌then◌else◌, arith,
  Bool-cases, inl, inr, min, sub64, max_uint64,
}
use cups.Policy.{second, rate_for_duration, TokenBucket, refill, added_tokens, rate_key_eq}
use cups.Policy.Rate.{rate_for_duration-exact}

pub record IsBucket (b : TokenBucket) : Type 0 where
  pub rate : b.rate ≤ max_uint64
  pub capacity : b.capacity ≤ max_uint64
  pub tokens : b.tokens ≤ b.capacity

-- Where a bucket's tokens come from: what it had, and its rate over the time that passed.
pub record Refills (b c : TokenBucket) (now : ℕ) : Type 0 where
  pub rate : c.rate ≡ b.rate
  pub capacity : c.capacity ≡ b.capacity
  pub last : c.last ≡ now
  pub kept : b.tokens ≤ c.tokens
  pub within : c.tokens ≤ c.capacity

-- The tokens after a refill, without wrap-around.
abbrev pub refilled : TokenBucket → ℕ → ℕ → ℕ
refilled b now burst =
    if leb now b.last
    then b.tokens
    else if leb burst (now - b.last)
    then b.capacity
    else min b.capacity (b.tokens + rate_for_duration b.rate (now - b.last))

added_tokens_lem :
    (b : TokenBucket) (added : ℕ)
    → IsBucket b
    → added_tokens b added ≡ record b { tokens = min b.capacity (b.tokens + added) }
added_tokens_lem b added v =
    let room : sub64 b.capacity b.tokens ≡ b.capacity - b.tokens =
      ground (arith, v.capacity, v.tokens) in
    elim (Bool-cases (leb (b.capacity - b.tokens) added)) [
      | inl h ↦ rw (room, h) (ap (λ t. record b { tokens = t }) (ground (arith, v.tokens)))
      | inr h ↦
          rw (room, h) (ap (λ t. record b { tokens = t }) (ground (arith, v.tokens, v.capacity)))
    ]

pub refill_lem :
    (b : TokenBucket) (now burst : ℕ)
    → IsBucket b
    → refill b now burst ≡ record b { tokens = refilled b now burst; last = now }
unfolding refill
refill_lem b now burst v = elim (Bool-cases (ltb now b.last)) [
  | inl h ↦ let before : leb now b.last ≡ true = ground arith in rw (h, before) refl
  | inr h ↦ elim (Bool-cases (now - b.last == 0)) [
    | inl z ↦
        let same : b.last ≡ now = ground arith in
        let before : leb now b.last ≡ true = ground arith in
        rw (h, z, before) (λ i. record b { last = same i })
    | inr z ↦
        let before : leb now b.last ≡ false = ground arith in
        elim (Bool-cases (leb burst (now - b.last))) [
          | inl g ↦ rw (h, z, before, g) refl
          | inr g ↦
              rw (h, z, before, g)
                (ap (λ (c : TokenBucket). record c { last = now })
                  (added_tokens_lem b (rate_for_duration b.rate (now - b.last)) v))
        ]
  ]
]

pub refill-Refills :
    (b : TokenBucket) (now burst : ℕ) → IsBucket b → Refills b (refill b now burst) now
refill-Refills b now burst v = rw (refill_lem b now burst v) (record {
  rate = refl;
  capacity = refl;
  last = refl;
  kept = ground (arith, v.tokens);
  within = ground (arith, v.tokens);
})

duration_credit : (rate d : ℕ) → rate ≤ max_uint64 → rate_for_duration rate d * second ≤ rate * d
duration_credit rate d h =
    let floor = div-mul-le_self (rate * d) second in
    let least =
      mul-le-mul_right {m = min max_uint64 (rate * d / second)} {n = rate * d / second} second
        (omega arith) in
    rw (rate_for_duration-exact rate d h) (omega (arith, floor, least))

-- A refill adds no more than the rate over the time that passed.
pub refilled_credit :
    (b : TokenBucket) (now burst : ℕ)
    → IsBucket b
    → b.last ≤ now
    → b.capacity ≤ rate_for_duration b.rate burst
    → refilled b now burst * second ≤ b.tokens * second + b.rate * (now - b.last)
refilled_credit b now burst v h g = elim (Bool-cases (leb now b.last)) [
  | inl z ↦ rw z (omega arith)
  | inr z ↦ elim (Bool-cases (leb burst (now - b.last))) [
    | inl full ↦
        let one = mul-le-mul_right second g in
        let two = duration_credit b.rate burst v.rate in
        let three = mul-le-mul_left {m = burst} {n = now - b.last} b.rate (ground arith) in
        rw (z, full) (omega (arith, one, two, three))
    | inr part ↦
        let added = rate_for_duration b.rate (now - b.last) in
        let one = duration_credit b.rate (now - b.last) v.rate in
        let two =
          mul-le-mul_right {m = min b.capacity (b.tokens + added)} {n = b.tokens + added} second
            (omega arith) in
        rw (z, part) (omega (arith, one, two, add-mul b.tokens added second))
  ]
]
