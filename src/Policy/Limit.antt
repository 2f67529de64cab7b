-- ===== src/Policy/Limit.antt =====
-- internal/sgwu/dataplane/policy.go: the bits that one limit grants over any run of packets.
use native.Mathlib.Nat.{mul-le-mul_left, mul-add, add-mul}
use cups.Base.{
  ℕ, ◌+◌, ◌-◌, ◌*◌, ◌≡◌, ◌≤◌, ◌<◌, refl, sym, ap, ◌∙◌, subst, true, false, ◌||◌, none, some, List,
  [], ◌∷◌, ltb, ◌==◌, ◌!=◌, get, put, arith, Bool-cases, inl, inr, max, sub64, mul64, max_uint64,
  get-put_self,
}
use cups.Rules.{PacketRule, Qer}
use cups.Policy.{
  second, rate_for_duration, TokenBucket, bucket_for, qer_rate, rate_key, rate_key_eq, PolicyEngine,
  Decision, allow, gate_closed, rate_exceeded, rule_inactive, allow_rate, check_buckets, consume,
  charge, RateKey,
}
use cups.Policy.Rate.{rate_for_duration-exact}
use cups.Policy.Bucket.{IsBucket, refilled, refill_lem, refill-Refills, refilled_credit}

-- A packet of some bytes at some time.
pub record Packet : Type 0 where
  pub at : ℕ
  pub bytes : ℕ

abbrev pub bits_of : Packet → ℕ
bits_of k = mul64 k.bytes 8

abbrev pub granted : Decision → ℕ → ℕ
granted allow bits = bits
granted gate_closed bits = 0
granted rate_exceeded bits = 0
granted rule_inactive bits = 0

abbrev pub offer : PolicyEngine → PacketRule → ℕ → Packet → PolicyEngine × Decision
offer p matched source k = allow_rate true p matched source k.bytes k.at

-- The bits that are granted to the packets of one rule, each after the one before.
unfoldable pub granted_bits : PolicyEngine → PacketRule → ℕ → List Packet → ℕ
granted_bits p matched source [] = 0
granted_bits p matched source (k ∷ ks) =
    granted (offer p matched source k).1 (bits_of k)
    + granted_bits (offer p matched source k).0 matched source ks

-- The packets come in the order of time, from `start` on and up to `end`, and none is greater
-- than what the rate gives in the burst.
abbrev pub IsTrain : ℕ → ℕ → ℕ → List Packet → Type 0
IsTrain budget start end [] = start ≤ end
IsTrain budget start end (k ∷ ks) =
    (start ≤ k.at) × (0 < k.bytes) × (bits_of k ≤ budget) × IsTrain budget k.at end ks

pub record Limits (matched : PacketRule) (source : ℕ) (q : Qer) : Type 0 where
  pub only : matched.qers ≡ q ∷ []
  pub positive : 0 < qer_rate q source
  pub machine : qer_rate q source ≤ max_uint64

-- One packet: what is left in the bucket, given the bucket after its top-up.
pub record Offered (p : PolicyEngine) (key : RateKey) (b : TokenBucket) (bits : ℕ)
    (r : PolicyEngine × Decision) : Type 0 where
  pub burst : r.0.burst ≡ p.burst
  pub left : ℕ
  pub kept : get key r.0.rates ≡ some (record b { tokens = left })
  pub paid : granted r.1 bits + left ≡ b.tokens

offer_lem :
    (p : PolicyEngine) (matched : PacketRule) (source : ℕ) (k : Packet) (q : Qer) (b : TokenBucket)
    → Limits matched source q
    → 0 < k.bytes
    → bits_of k ≤ rate_for_duration (qer_rate q source) p.burst
    → bucket_for
        (get (rate_key matched.up_seid source q) p.rates)
        (qer_rate q source)
        (rate_for_duration (qer_rate q source) p.burst)
        k.at
        p.burst
      ≡ b
    → b.tokens ≤ max_uint64
    → Offered p (rate_key matched.up_seid source q) b (bits_of k) (offer p matched source k)
unfolding allow_rate check_buckets consume
offer_lem p matched source k q b l pos small e v =
    let key = rate_key matched.up_seid source q in
    let nonempty : (k.bytes == 0) ≡ false = ground arith in
    let rated : (qer_rate q source != 0) ≡ true = ground (arith, l.positive) in
    let unlimited : (qer_rate q source == 0) ≡ false = ground (arith, l.positive) in
    let cap : max (rate_for_duration (qer_rate q source) p.burst) (bits_of k)
        ≡ rate_for_duration (qer_rate q source) p.burst =
      omega arith in
    elim (Bool-cases (ltb b.tokens (bits_of k))) [
      | inl few ↦
          rw (nonempty, l.only, rated, cap, e, few)
            (record {
              burst = refl;
              left = b.tokens;
              kept = get-put_self key b p.rates;
              paid = omega arith;
            })
      | inr enough ↦
          let topped = put key b p.rates in
          rw (nonempty, l.only, rated, cap, e, enough, unlimited, get-put_self key b p.rates)
            (record {
              burst = refl;
              left = sub64 b.tokens (bits_of k);
              kept = get-put_self key (charge (bits_of k) b) topped;
              paid = ground arith;
            })
    ]

train_end : (budget start end : ℕ) (ks : List Packet) → IsTrain budget start end ks → start ≤ end
train_end budget start end [] t = t
train_end budget start end (k ∷ ks) (h, pos, small, t) =
    omega (arith, train_end budget k.at end ks t)

-- A packet's bits and what the later packets get, out of what the bucket holds.
share :
    (g left rest tokens rate time : ℕ)
    → g + left ≡ tokens
    → rest * second ≤ left * second + rate * time
    → (g + rest) * second ≤ tokens * second + rate * time
share g left rest tokens rate time paid h =
    omega (arith, add-mul g rest second, add-mul g left second, ap (λ x. x * second) paid)

topped_bucket :
    (b : TokenBucket) (rate capacity now burst : ℕ)
    → IsBucket b
    → b.rate ≡ rate
    → b.capacity ≡ capacity
    → bucket_for (some b) rate capacity now burst
      ≡ record b { tokens = refilled b now burst; last = now }
topped_bucket b rate capacity now burst v r c =
    let kept : (b.rate != rate || b.capacity != capacity) ≡ false = ground arith in
    rw kept (refill_lem b now burst v)

run_bound :
    (p : PolicyEngine) (matched : PacketRule) (source : ℕ) (q : Qer) (ks : List Packet)
    (b : TokenBucket) (start end : ℕ)
    → Limits matched source q
    → get (rate_key matched.up_seid source q) p.rates ≡ some b
    → IsBucket b
    → b.rate ≡ qer_rate q source
    → b.capacity ≡ rate_for_duration (qer_rate q source) p.burst
    → b.last ≤ start
    → IsTrain (rate_for_duration (qer_rate q source) p.burst) start end ks
    → granted_bits p matched source ks * second
      ≤ b.tokens * second + qer_rate q source * (end - b.last)
unfolding granted_bits
run_bound p matched source q [] b start end l e v r c h t = omega arith
run_bound p matched source q (k ∷ ks) b start end l e v r c h t =
    let (after, pos, small, rest) = t in
    let rate = qer_rate q source in
    let budget = rate_for_duration rate p.burst in
    let key = rate_key matched.up_seid source q in
    let x = refilled b k.at p.burst in
    let f = refill-Refills b k.at p.burst v in
    let bound : x ≤ b.capacity = ground (arith, v.tokens) in
    let top = record b { tokens = x; last = k.at } in
    let found =
      ap (λ o. bucket_for o rate budget k.at p.burst) e
      ∙ topped_bucket b rate budget k.at p.burst v r c in
    let o =
      offer_lem p matched source k q top l pos small found (omega (arith, bound, v.capacity)) in
    let next = (offer p matched source k).0 in
    let spent = record top { tokens = o.left } in
    let sound : IsBucket spent = record {
      rate = v.rate;
      capacity = v.capacity;
      tokens = omega (arith, o.paid, bound);
    } in
    let budget_kept = ap (rate_for_duration rate) o.burst in
    let later =
      run_bound next matched source q ks spent k.at end l o.kept sound r (c ∙ sym budget_kept)
        (omega arith) (subst (λ y. IsTrain y k.at end ks) (sym budget_kept) rest) in
    let total =
      share (granted (offer p matched source k).1 (bits_of k)) o.left
        (granted_bits next matched source ks) x rate (end - k.at) o.paid later in
    let credit =
      refilled_credit b k.at p.burst v (omega arith)
        (omega (arith, c, ap (λ y. rate_for_duration y p.burst) r)) in
    let time : rate * (end - b.last) ≡ rate * (k.at - b.last) + rate * (end - k.at) =
      ap (λ y. rate * y) (omega (arith, train_end budget k.at end ks rest))
      ∙ mul-add rate (k.at - b.last) (end - k.at) in
    omega (arith, total, credit, time, ap (λ y. y * (k.at - b.last)) r)

-- Take a rule with one QER, and packets in the order of time, none greater than what the rate
-- gives in the burst, the first of which finds no bucket. Whatever is granted and whatever is
-- refused, the bits that are granted are at most the burst's and the rate over the time.
pub granted_bits-bound :
    (p : PolicyEngine) (matched : PacketRule) (source : ℕ) (q : Qer) (ks : List Packet)
    (start end : ℕ)
    → Limits matched source q
    → get (rate_key matched.up_seid source q) p.rates ≡ none
    → IsTrain (rate_for_duration (qer_rate q source) p.burst) start end ks
    → granted_bits p matched source ks * second
      ≤ rate_for_duration (qer_rate q source) p.burst * second + qer_rate q source * (end - start)
unfolding granted_bits
granted_bits-bound p matched source q [] start end l e t = omega arith
granted_bits-bound p matched source q (k ∷ ks) start end l e t =
    let (after, pos, small, rest) = t in
    let rate = qer_rate q source in
    let budget = rate_for_duration rate p.burst in
    let fresh : TokenBucket = record {
      rate = rate;
      capacity = budget;
      tokens = budget;
      last = k.at;
    } in
    let machine : budget ≤ max_uint64 =
      ground (arith, rate_for_duration-exact rate p.burst l.machine) in
    let found = ap (λ o. bucket_for o rate budget k.at p.burst) e in
    let o = offer_lem p matched source k q fresh l pos small found machine in
    let next = (offer p matched source k).0 in
    let spent = record fresh { tokens = o.left } in
    let sound : IsBucket spent = record {
      rate = l.machine;
      capacity = machine;
      tokens = omega (arith, o.paid);
    } in
    let budget_kept = ap (rate_for_duration rate) o.burst in
    let later =
      run_bound next matched source q ks spent k.at end l o.kept sound refl (sym budget_kept)
        (omega arith) (subst (λ y. IsTrain y k.at end ks) (sym budget_kept) rest) in
    let total =
      share (granted (offer p matched source k).1 (bits_of k)) o.left
        (granted_bits next matched source ks) budget rate (end - k.at) o.paid later in
    omega (arith, total, mul-le-mul_left {m = end - k.at} {n = end - start} rate (omega arith))
