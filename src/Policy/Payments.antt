-- ===== src/Policy/Payments.antt =====
-- internal/sgwu/dataplane/policy.go: the tokens are taken once every bucket has enough.
use cups.Base.{
  ◌≡◌, ◌≢◌, ◌≤◌, ◌⊎◌, refl, sym, ap, ◌∙◌, subst, Bool, true, false, ◌&&◌, some, List, [], ◌∷◌, ltb,
  ◌==◌, ◌!=◌, Map, get, put, arith, Bool-cases, inl, inr, sub64, All, get-put_self, get-put_ne,
  put-readable,
}
use cups.Rules.{Qer}
use cups.Policy.{
  TokenBucket, qer_rate, rate_key, rate_key_eq, RateKey, Ask, check_buckets, consume, charge,
  topped_up,
}
use cups.Policy.Bucket.{IsBucket}
use cups.Policy.Charges.{HasBuckets, checked}

-- No QER stands twice in a rule.
abbrev pub AreDistinct : List Qer → Type 0
AreDistinct [] = Unit
AreDistinct (q ∷ qs) = All (λ (r : Qer). r.id ≢ q.id) qs × AreDistinct qs

module _ (a : Ask) where
  abbrev pub HasCredit : Map RateKey TokenBucket → RateKey → Type 0
  HasCredit rates k = (b : TokenBucket) × (get k rates ≡ some b) × (a.bits ≤ b.tokens)

  abbrev pub Pays : Map RateKey TokenBucket → Qer → Type 0
  Pays rates q = (qer_rate q a.source ≡ 0) ⊎ HasCredit rates (rate_key a.up_seid a.source q)

  checked-HasCredit :
      (rates : Map RateKey TokenBucket) (q : Qer) (k : RateKey)
      → (qer_rate q a.source != 0 && ltb (topped_up a rates q).tokens a.bits) ≡ false
      → HasCredit rates k
      → HasCredit (checked a rates q) k
  checked-HasCredit rates q k h c = elim (Bool-cases (qer_rate q a.source != 0)) [
    | inr z ↦ rw z c
    | inl z ↦
        let key = rate_key a.up_seid a.source q in
        let top = topped_up a rates q in
        let enough : a.bits ≤ top.tokens = ground arith in
        rw z (elim (rate_key_eq.decide key k) [
          | yes p ↦ (
            top,
            ap (λ n. get n (put key top rates)) (sym p) ∙ get-put_self key top rates,
            enough,
          )
          | no n ↦ let (b, e, g) = c in (b, get-put_ne key k top rates n ∙ e, g)
        ])
  ]

  asked :
      (rates : Map RateKey TokenBucket) (q : Qer)
      → (qer_rate q a.source != 0 && ltb (topped_up a rates q).tokens a.bits) ≡ false
      → Pays (checked a rates q) q
  asked rates q h = elim (Bool-cases (qer_rate q a.source != 0)) [
    | inr z ↦ inl (ground arith)
    | inl z ↦
        let key = rate_key a.up_seid a.source q in
        let top = topped_up a rates q in inr (rw z (top, get-put_self key top rates, ground arith))
  ]

  -- Where the checks come to their end, every bucket that is asked has enough.
  pub check_buckets-Pays :
      (qs : List Qer) (rates : Map RateKey TokenBucket) (k : RateKey)
      → (check_buckets a qs rates).1 ≡ true
      → All (Pays (check_buckets a qs rates).0) qs
        × (HasCredit rates k → HasCredit (check_buckets a qs rates).0 k)
  unfolding check_buckets
  check_buckets-Pays [] rates k h = (tt, λ c. c)
  check_buckets-Pays (q ∷ qs) rates k h =
      let key = rate_key a.up_seid a.source q in
      let next = checked a rates q in
      elim (Bool-cases (qer_rate q a.source != 0 && ltb (topped_up a rates q).tokens a.bits)) [
        | inl stop ↦ absurd (cc (rw stop at h))
        | inr on ↦
            let done : (check_buckets a qs next).1 ≡ true = rw on at h in
            let later = check_buckets-Pays qs next key done in
            let other = check_buckets-Pays qs next k done in
            let whole : check_buckets a (q ∷ qs) rates ≡ check_buckets a qs next = rw on refl in
            let first : Pays (check_buckets a qs next).0 q = elim (asked rates q on) [
              | inl z ↦ inl z
              | inr c ↦ inr (later.1 c)
            ] in
            subst
              (λ (r : Map RateKey TokenBucket × Bool).
                All (Pays r.0) (q ∷ qs) × (HasCredit rates k → HasCredit r.0 k))
              (sym whole) ((first, later.0), λ c. other.1 (checked-HasCredit rates q k on c))
      ]

  Pays-frame :
      (qs : List Qer) (rates : Map RateKey TokenBucket) (q : Qer) (c : TokenBucket)
      → All (λ (r : Qer). r.id ≢ q.id) qs
      → All (Pays rates) qs
      → All (Pays (put (rate_key a.up_seid a.source q) c rates)) qs
  Pays-frame [] rates q c d h = tt
  Pays-frame (r ∷ qs) rates q c d h = (
    elim h.0 [
      | inl z ↦ inl z
      | inr (b, e, enough) ↦
          let other = λ (p : rate_key a.up_seid a.source q ≡ rate_key a.up_seid a.source r).
            d.0 (sym (ap (λ (z : RateKey). z.qer_id) p)) in
          inr (
            b,
            get-put_ne (rate_key a.up_seid a.source q) (rate_key a.up_seid a.source r) c rates other
                ∙ e,
            enough,
          )
    ],
    Pays-frame qs rates q c d.1 h.1,
  )

  -- With no QER twice, taking the tokens leaves every bucket between 0 and its capacity.
  pub consume-HasBuckets :
      (qs : List Qer) (rates : Map RateKey TokenBucket)
      → HasBuckets rates
      → All (Pays rates) qs
      → AreDistinct qs
      → HasBuckets (consume a qs rates)
  unfolding consume
  consume-HasBuckets [] rates v h d = v
  consume-HasBuckets (q ∷ qs) rates v h d = elim (Bool-cases (qer_rate q a.source == 0)) [
    | inl z ↦ rw z (consume-HasBuckets qs rates v h.1 d.1)
    | inr z ↦ elim h.0 [
      | inl none_asked ↦ absurd (ground arith)
      | inr (b, e, enough) ↦
          let key = rate_key a.up_seid a.source q in
          let s = v key b e in
          let left : sub64 b.tokens a.bits ≤ b.capacity = ground (arith, s.capacity, s.tokens) in
          let spent : IsBucket (charge a.bits b) = record {
            rate = s.rate;
            capacity = s.capacity;
            tokens = left;
          } in
          let next = put key (charge a.bits b) rates in
          let w : HasBuckets next =
            λ k c. put-readable (λ k c. IsBucket c) key (charge a.bits b) rates v spent k c in
          rw (z, e)
            (consume-HasBuckets qs next w (Pays-frame qs rates q (charge a.bits b) d.0 h.1) d.1)
    ]
  ]
