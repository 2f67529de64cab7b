-- ===== src/Policy/Charges.antt =====
-- internal/sgwu/dataplane/policy.go: the buckets of any rule with any number of QERs.
use cups.Base.{
  ℕ, ◌≡◌, ◌≤◌, ◌⊎◌, refl, sym, ap, ◌∙◌, subst, Bool, false, ◌&&◌, ◌||◌, Option, none, some,
  some-injective, List, [], ◌∷◌, ltb, ◌!=◌, if◌then◌else◌, Map, get, put, arith, inl, inr,
  max_uint64, All, get-put_self, get-put_ne, put-readable, if_both,
}
use cups.Rules.{Qer}
use cups.Policy.{
  TokenBucket, refill, bucket_for, qer_rate, rate_key, rate_key_eq, RateKey, Ask, check_buckets,
  topped_up, capacity_for,
}
use cups.Policy.Rate.{rate_for_duration-exact}
use cups.Policy.Bucket.{IsBucket, refill-Refills}

abbrev pub HasBuckets : Map RateKey TokenBucket → Type 0
HasBuckets rates = (k : RateKey) (b : TokenBucket) → get k rates ≡ some b → IsBucket b

-- The limits of a QER are machine words.
abbrev pub IsMachine : ℕ → Qer → Type 0
IsMachine source q = qer_rate q source ≤ max_uint64

-- What a check may do to a bucket: leave it, top it up, or fill it.
abbrev pub Grows : TokenBucket → Option TokenBucket → Type 0
Grows b o =
    (c : TokenBucket) × (o ≡ some c)
    × (((b.tokens ≤ c.tokens) × (c.tokens ≤ c.capacity) × (c.capacity ≡ b.capacity))
        ⊎ (c.tokens ≡ c.capacity))

Grows-trans :
    (b c : TokenBucket) (o p : Option TokenBucket) → Grows b o → o ≡ some c → Grows c p → Grows b p
Grows-trans b c o p (d, e, r) f (g, h, t) =
    let same : d ≡ c = some-injective d c (sym e ∙ f) in
    let r' =
      subst
        (λ (z : TokenBucket).
          ((b.tokens ≤ z.tokens) × (z.tokens ≤ z.capacity) × (z.capacity ≡ b.capacity))
          ⊎ (z.tokens ≡ z.capacity))
        same r in
    (
      g,
      h,
      elim r' [
        | inl (x, y, z) ↦ elim t [
          | inl (u, v, w) ↦ inl (omega arith, v, w ∙ z)
          | inr full ↦ inr full
        ]
        | inr full ↦ elim t [ inl (u, v, w) ↦ inr (omega arith) | inr full ↦ inr full ]
      ],
    )

bucket_for-IsBucket :
    (o : Option TokenBucket) (rate capacity now burst : ℕ)
    → ((b : TokenBucket) → o ≡ some b → IsBucket b)
    → rate ≤ max_uint64
    → capacity ≤ max_uint64
    → IsBucket (bucket_for o rate capacity now burst)
bucket_for-IsBucket none rate capacity now burst v h g = record {
  rate = h;
  capacity = g;
  tokens = omega arith;
}
bucket_for-IsBucket (some b) rate capacity now burst v h g =
    let s = v b refl in
    let f = refill-Refills b now burst s in
    if_both IsBucket (b.rate != rate || b.capacity != capacity)
      {x = record { rate = rate; capacity = capacity; tokens = capacity; last = now }}
      {y = refill b now burst} (record { rate = h; capacity = g; tokens = omega arith })
      (record {
        rate = omega (arith, s.rate, f.rate);
        capacity = omega (arith, s.capacity, f.capacity);
        tokens = f.within;
      })

bucket_for-Grows :
    (b : TokenBucket) (rate capacity now burst : ℕ)
    → IsBucket b
    → Grows b (some (bucket_for (some b) rate capacity now burst))
bucket_for-Grows b rate capacity now burst v =
    let f = refill-Refills b now burst v in
    if_both (λ (c : TokenBucket). Grows b (some c)) (b.rate != rate || b.capacity != capacity)
      {x = record { rate = rate; capacity = capacity; tokens = capacity; last = now }}
      {y = refill b now burst} (_, refl, inr refl) (_, refl, inl (f.kept, f.within, f.capacity))

-- The buckets after the check of one QER.
abbrev pub checked : Ask → Map RateKey TokenBucket → Qer → Map RateKey TokenBucket
checked a rates q =
    if qer_rate q a.source != 0
    then put (rate_key a.up_seid a.source q) (topped_up a rates q) rates
    else rates

module _ (a : Ask) (machine : a.bits ≤ max_uint64) where
  topped_up-IsBucket :
      (rates : Map RateKey TokenBucket) (q : Qer)
      → HasBuckets rates
      → IsMachine a.source q
      → IsBucket (topped_up a rates q)
  topped_up-IsBucket rates q v h =
      let rate = qer_rate q a.source in
      let e = rate_for_duration-exact rate a.burst h in
      bucket_for-IsBucket (get (rate_key a.up_seid a.source q) rates) rate (capacity_for a rate)
        a.now a.burst (v (rate_key a.up_seid a.source q)) h (ground (arith, e))

  checked-HasBuckets :
      (rates : Map RateKey TokenBucket) (q : Qer)
      → HasBuckets rates
      → IsMachine a.source q
      → HasBuckets (checked a rates q)
  checked-HasBuckets rates q v h =
      if_both HasBuckets (qer_rate q a.source != 0)
        (λ k b.
          put-readable (λ k b. IsBucket b) (rate_key a.up_seid a.source q) (topped_up a rates q)
            rates v (topped_up-IsBucket rates q v h) k b)
        v

  -- The loop of the checks, whether or not it gets to its end.
  pub check_buckets-HasBuckets :
      (qs : List Qer) (rates : Map RateKey TokenBucket)
      → HasBuckets rates
      → All (IsMachine a.source) qs
      → HasBuckets (check_buckets a qs rates).0
  unfolding check_buckets
  check_buckets-HasBuckets [] rates v h = v
  check_buckets-HasBuckets (q ∷ qs) rates v h =
      let w = checked-HasBuckets rates q v h.0 in
      if_both (λ (r : Map RateKey TokenBucket × Bool). HasBuckets r.0)
        (qer_rate q a.source != 0 && ltb (topped_up a rates q).tokens a.bits)
        {x = (checked a rates q, false)} {y = check_buckets a qs (checked a rates q)} w
        (check_buckets-HasBuckets qs (checked a rates q) w h.1)

  checked-Grows :
      (rates : Map RateKey TokenBucket) (q : Qer) (k : RateKey) (b : TokenBucket)
      → HasBuckets rates
      → get k rates ≡ some b
      → Grows b (get k (checked a rates q))
  checked-Grows rates q k b v e =
      let key = rate_key a.up_seid a.source q in
      let rate = qer_rate q a.source in
      let stay : Grows b (get k rates) = (b, e, inl (omega arith, (v k b e).tokens, refl)) in
      let moved : Grows b (get k (put key (topped_up a rates q) rates)) =
        elim (rate_key_eq.decide key k) [
          | yes p ↦
              let here = ap (λ z. get z rates) p ∙ e in
              let top = topped_up a rates q in
              let grown : Grows b (some top) =
                subst (λ o. Grows b (some (bucket_for o rate (capacity_for a rate) a.now a.burst)))
                  (sym here)
                  (bucket_for-Grows b rate (capacity_for a rate) a.now a.burst (v k b e)) in
              subst (λ z. Grows b (get z (put key top rates))) p
                (subst (Grows b) (sym (get-put_self key top rates)) grown)
          | no n ↦ subst (Grows b) (sym (get-put_ne key k (topped_up a rates q) rates n)) stay
        ] in
      if_both (λ (r : Map RateKey TokenBucket). Grows b (get k r)) (rate != 0) moved stay

  pub check_buckets-Grows :
      (qs : List Qer) (rates : Map RateKey TokenBucket) (k : RateKey) (b : TokenBucket)
      → HasBuckets rates
      → All (IsMachine a.source) qs
      → get k rates ≡ some b
      → Grows b (get k (check_buckets a qs rates).0)
  unfolding check_buckets
  check_buckets-Grows [] rates k b v h e = (b, e, inl (omega arith, (v k b e).tokens, refl))
  check_buckets-Grows (q ∷ qs) rates k b v h e =
      let next = checked a rates q in
      let w = checked-HasBuckets rates q v h.0 in
      let (c, f, r) = checked-Grows rates q k b v e in
      if_both (λ (r : Map RateKey TokenBucket × Bool). Grows b (get k r.0))
        (qer_rate q a.source != 0 && ltb (topped_up a rates q).tokens a.bits) {x = (next, false)}
        {y = check_buckets a qs next} (c, f, r)
        (Grows-trans b c (get k next) (get k (check_buckets a qs next).0) (c, f, r) f
          (check_buckets-Grows qs next k c w h.1 f))
