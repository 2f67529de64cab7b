-- ===== src/Policy/Verdict.antt =====
-- internal/sgwu/dataplane/policy.go: what authorize does to the buckets.
use cups.Base.{
  ℕ, ◌≡◌, ◌≤◌, refl, ap, subst, Bool, true, false, not, some, List, ◌==◌, ◌!=◌, Map, get, arith,
  Bool-cases, inl, inr, max_uint64, any, All, if_both,
}
use cups.Rules.{PacketRule, Qer}
use cups.Policy.{
  TokenBucket, qer_rate, rate_key_eq, RateKey, Ask, PolicyEngine, Decision, allow, rate_exceeded,
  rule_inactive, allow_rate, check_buckets, settle, ask_for, check_gates, authorize, gate_open,
}
use cups.Policy.Charges.{
  HasBuckets, IsMachine, Grows, check_buckets-HasBuckets, check_buckets-Grows,
}
use cups.Policy.Payments.{AreDistinct, Pays, check_buckets-Pays, consume-HasBuckets}

-- A rule as the rule store hands it out, but that it names no QER twice.
pub record IsRule (matched : PacketRule) (source : ℕ) : Type 0 where
  pub machine : All (IsMachine source) matched.qers
  pub distinct : AreDistinct matched.qers

settle-HasBuckets :
    (p : PolicyEngine) (a : Ask) (qers : List Qer) (r : Map RateKey TokenBucket × Bool)
    → HasBuckets r.0
    → (r.1 ≡ true → All (Pays a r.0) qers)
    → AreDistinct qers
    → HasBuckets (settle p a qers r).0.rates
settle-HasBuckets p a qers (rates, true) v h d = consume-HasBuckets a qers rates v (h refl) d
settle-HasBuckets p a qers (rates, false) v h d = v

allow_rate-HasBuckets :
    (active : Bool) (p : PolicyEngine) (matched : PacketRule) (source payload_bytes now : ℕ)
    → HasBuckets p.rates
    → IsRule matched source
    → HasBuckets (allow_rate active p matched source payload_bytes now).0.rates
unfolding allow_rate
allow_rate-HasBuckets active p matched source payload_bytes now v h =
    let a = ask_for p matched source payload_bytes now in
    let bits : a.bits ≤ max_uint64 = omega arith in
    let r = check_buckets a matched.qers p.rates in
    let key : RateKey = record { up_seid = 0; qer_id = 0; source = 0 } in
    let settled : HasBuckets (settle p a matched.qers r).0.rates =
      settle-HasBuckets p a matched.qers r
        (check_buckets-HasBuckets a bits matched.qers p.rates v h.machine)
        (λ t. (check_buckets-Pays a matched.qers p.rates key t).0) h.distinct in
    let P = λ (x : PolicyEngine × Decision). HasBuckets x.0.rates in
    if_both P (payload_bytes == 0) {x = (p, allow)} v (
      if_both P (not (any (λ q. qer_rate q source != 0) matched.qers)) {x = (p, allow)} v
        (if_both P (not active) {x = (p, rule_inactive)} v settled))

-- A bucket holds between 0 and its capacity, before and after any authorize for a rule that names
-- no QER twice, whatever is decided.
pub authorize-HasBuckets :
    (at_start active : Bool) (p : PolicyEngine) (matched : PacketRule)
    (source payload_bytes now : ℕ)
    → HasBuckets p.rates
    → IsRule matched source
    → HasBuckets (authorize at_start active p matched source payload_bytes now).0.rates
unfolding authorize check_gates
authorize-HasBuckets at_start active p matched source payload_bytes now v h =
    elim (Bool-cases (any (λ q. not (gate_open source q)) matched.qers)) [
      | inl shut ↦
          if_both (λ (x : PolicyEngine × Decision). HasBuckets x.0.rates) (not at_start)
            {x = (p, rule_inactive)} v (rw shut v)
      | inr pass ↦
          if_both (λ (x : PolicyEngine × Decision). HasBuckets x.0.rates) (not at_start)
            {x = (p, rule_inactive)} v
            (rw pass (allow_rate-HasBuckets active p matched source payload_bytes now v h))
    ]

abbrev decided : PolicyEngine → Decision → PolicyEngine × Decision
decided p d = (p, d)

other :
    (p t : PolicyEngine) (d : Decision) → decided p d ≡ decided t rate_exceeded → d ≡ rate_exceeded
other p t d f = ap (λ (x : PolicyEngine × Decision). x.1) f

settled_refusal :
    (p t : PolicyEngine) (a : Ask) (qers : List Qer) (r : Map RateKey TokenBucket × Bool)
    (k : RateKey) (b : TokenBucket)
    → settle p a qers r ≡ (t, rate_exceeded)
    → Grows b (get k r.0)
    → Grows b (get k t.rates)
settled_refusal p t a qers (rates, true) k b h g =
    absurd (cc (ap (λ (x : PolicyEngine × Decision). x.1) h))
settled_refusal p t a qers (rates, false) k b h g =
    subst (λ (x : PolicyEngine × Decision). Grows b (get k x.0.rates)) h g

-- A packet that a rate limit refuses is charged to no bucket: each bucket that there was has at
-- least the tokens that it had, or is full, so that one QER's refusal drains no other's bucket.
pub refusal_charges_nothing :
    (active : Bool) (p t : PolicyEngine) (matched : PacketRule) (source payload_bytes now : ℕ)
    (k : RateKey) (b : TokenBucket)
    → HasBuckets p.rates
    → All (IsMachine source) matched.qers
    → allow_rate active p matched source payload_bytes now ≡ (t, rate_exceeded)
    → get k p.rates ≡ some b
    → Grows b (get k t.rates)
unfolding allow_rate
refusal_charges_nothing active p t matched source payload_bytes now k b v h e q =
    let a = ask_for p matched source payload_bytes now in
    let bits : a.bits ≤ max_uint64 = omega arith in
    elim (Bool-cases (payload_bytes == 0)) [
      | inl z ↦
          let f : decided p allow ≡ decided t rate_exceeded = rw z at e in
          absurd (cc (other p t allow f))
      | inr z ↦ elim (Bool-cases (any (λ q. qer_rate q source != 0) matched.qers)) [
        | inr free ↦
            let f : decided p allow ≡ decided t rate_exceeded = rw (z, free) at e in
            absurd (cc (other p t allow f))
        | inl limited ↦ elim (Bool-cases active) [
          | inr stale ↦
              let f : decided p rule_inactive ≡ decided t rate_exceeded =
                rw (z, limited, stale) at e in
              absurd (cc (other p t rule_inactive f))
          | inl live ↦
              settled_refusal p t a matched.qers (check_buckets a matched.qers p.rates) k b
                (rw (z, limited, live) at e)
                (check_buckets-Grows a bits matched.qers p.rates k b v h q)
        ]
      ]
    ]
