-- ===== src/Policy/Meter.antt =====
-- internal/sgwu/dataplane/policy.go: the gauge of active meters, and what a session's removal
-- leaves.
use cups.Base.{
  ℕ, ◌+◌, ◌^◌, ◌≡◌, ◌≤◌, ◌<◌, refl, sym, ap, ◌∙◌, Bool, true, false, Option, none, some, List, [],
  ◌∷◌, ◌==◌, if◌then◌else◌, Map, get, length, arith, IsKeyed, put-IsKeyed, length-put_new,
  length-put_old, Option-cases, inl, inr, keep, ◌>>=◌, same, or_else,
}
use cups.Rules.{Urr, PacketRule, Session}
use cups.Policy.{
  PolicyEngine, UsageKey, usage_key_eq, UsageState, RateKey, TokenBucket, rate_key_eq,
}
use cups.Policy.Usage.{
  record_usage, meter_urrs, meter_urr, record_stale_usage_totals, usage_key, metered,
  reconcile_session, delete_session, pass, passed, meter_after, deleted_meter, keeps_rate, of_other,
}

-- The gauge counts the meters.
pub record IsMetered (p : PolicyEngine) : Type 0 where
  pub keyed : IsKeyed p.usage
  pub gauge : p.urr_active_meters ≡ length p.usage

passed-get :
    (o : Option UsageState) (k j : UsageKey) (r : Map UsageKey UsageState × ℕ)
    → get j (passed o k r).0 ≡ (if same k j then or_else o (get j r.0) else get j r.0)
unfolding get
passed-get none k j (m, g) = ground arith
passed-get (some s) k j (m, g) = ground arith

pass-get :
    (f : UsageKey → UsageState → Option UsageState) (m : Map UsageKey UsageState) (gauge : ℕ)
    (k : UsageKey)
    → IsKeyed m
    → get k (pass f m gauge).0 ≡ (get k m >>= f k)
unfolding pass get
pass-get f [] gauge k u = refl
pass-get f ((j, s) ∷ m) gauge k u =
    let r = pass f m gauge in
    elim (usage_key_eq.decide j k) [
      | yes p ↦
          let gone : get k r.0 ≡ none =
            pass-get f m gauge k u.1 ∙ ap (λ o. o >>= f k) (ap (λ z. get z m) (sym p) ∙ u.0) in
          ground (arith, passed-get (f j s) j k r, gone, ap (λ z. f z s) p)
      | no n ↦ ground (arith, passed-get (f j s) j k r, pass-get f m gauge k u.1)
    ]

pass_shrinks :
    (f : UsageKey → UsageState → Option UsageState) (m : Map UsageKey UsageState) (gauge : ℕ)
    → length (pass f m gauge).0 ≤ length m
unfolding pass
pass_shrinks f [] gauge = omega arith
pass_shrinks f ((j, s) ∷ m) gauge = elim (Option-cases (f j s)) [
  | inl e ↦ rw e (omega (arith, pass_shrinks f m gauge))
  | inr (t, e) ↦ rw e (omega (arith, pass_shrinks f m gauge))
]

pass-count :
    (f : UsageKey → UsageState → Option UsageState) (m : Map UsageKey UsageState) (gauge : ℕ)
    → length m ≤ gauge
    → gauge < 2 ^ 64
    → (pass f m gauge).1 + length m ≡ gauge + length (pass f m gauge).0
unfolding pass
pass-count f [] gauge h g = refl
pass-count f ((j, s) ∷ m) gauge h g =
    let one = pass-count f m gauge (omega arith) g in
    elim (Option-cases (f j s)) [
      | inl e ↦ rw e (ground (arith, one, pass_shrinks f m gauge))
      | inr (t, e) ↦ rw e (omega (arith, one))
    ]

pass-IsKeyed :
    (f : UsageKey → UsageState → Option UsageState) (m : Map UsageKey UsageState) (gauge : ℕ)
    → IsKeyed m
    → IsKeyed (pass f m gauge).0
unfolding pass get
pass-IsKeyed f [] gauge u = tt
pass-IsKeyed f ((j, s) ∷ m) gauge u =
    let w = pass-IsKeyed f m gauge u.1 in
    elim (Option-cases (f j s)) [
      | inl e ↦ rw e w
      | inr (t, e) ↦ rw e (pass-get f m gauge j u.1 ∙ ap (λ o. o >>= f j) u.0, w)
    ]

meter_urrs-IsMetered :
    (up_seid source bytes now : ℕ) (us : List Urr) (p : PolicyEngine)
    → IsMetered p
    → length p.usage + length us < 2 ^ 64
    → IsMetered (meter_urrs up_seid source bytes now us p)
unfolding meter_urrs
meter_urrs-IsMetered up_seid source bytes now [] p v h = v
meter_urrs-IsMetered up_seid source bytes now (u ∷ us) p v h =
    let key = usage_key up_seid u in
    let new = metered source bytes now u (get key p.usage) in
    elim (Option-cases (get key p.usage)) [
      | inl e ↦
          let more = length-put_new key new p.usage e in
          let next : IsMetered (meter_urr up_seid source bytes now u p) = record {
            keyed = put-IsKeyed key new p.usage v.keyed;
            gauge = rw e (ground (arith, v.gauge, more));
          } in
          meter_urrs-IsMetered up_seid source bytes now us (meter_urr up_seid source bytes now u p)
            next (omega (arith, more))
      | inr (old, e) ↦
          let same_length = length-put_old key new old p.usage e in
          let next : IsMetered (meter_urr up_seid source bytes now u p) = record {
            keyed = put-IsKeyed key new p.usage v.keyed;
            gauge = rw e (ground (arith, v.gauge, same_length));
          } in
          meter_urrs-IsMetered up_seid source bytes now us (meter_urr up_seid source bytes now u p)
            next (omega (arith, same_length))
    ]

stale_keeps_usage :
    (us : List Urr) (bytes : ℕ) (p : PolicyEngine)
    → IsMetered p
    → IsMetered (record_stale_usage_totals us bytes p)
unfolding record_stale_usage_totals
stale_keeps_usage [] bytes p v = v
stale_keeps_usage (u ∷ us) bytes p v =
    stale_keeps_usage us bytes _ (record { keyed = v.keyed; gauge = v.gauge })

pass-IsMetered :
    (f : UsageKey → UsageState → Option UsageState) (p : PolicyEngine)
    (rates : Map RateKey TokenBucket)
    → IsMetered p
    → length p.usage < 2 ^ 64
    → IsMetered (record p {
      rates = rates;
      usage = (pass f p.usage p.urr_active_meters).0;
      urr_active_meters = (pass f p.usage p.urr_active_meters).1;
    })
pass-IsMetered f p rates v h = record {
  keyed = pass-IsKeyed f p.usage p.urr_active_meters v.keyed;
  gauge = omega (
    arith,
    v.gauge,
    pass-count f p.usage p.urr_active_meters (omega (arith, v.gauge)) (omega (arith, v.gauge)),
  );
}

-- Through recordUsage, for an active rule or a stale one, reconcileSession and deleteSession, the
-- gauge of active meters stays the number of meters, while that is a uint64.
pub operations-IsMetered :
    (active : Bool) (matched : PacketRule) (source bytes now up_seid : ℕ) (c : Session)
    (p : PolicyEngine)
    → IsMetered p
    → length p.usage + length matched.urrs < 2 ^ 64
    → IsMetered (record_usage active matched source bytes now p)
      × IsMetered (reconcile_session c p)
      × IsMetered (delete_session up_seid p)
unfolding record_usage reconcile_session delete_session
operations-IsMetered true matched source bytes now up_seid c p v h = (
  meter_urrs-IsMetered matched.up_seid source bytes now matched.urrs p v h,
  pass-IsMetered (meter_after c) p (keep (keeps_rate c) p.rates) v (omega arith),
  pass-IsMetered (deleted_meter up_seid) p (keep (of_other up_seid) p.rates) v (omega arith),
)
operations-IsMetered false matched source bytes now up_seid c p v h = (
  stale_keeps_usage matched.urrs bytes p v,
  pass-IsMetered (meter_after c) p (keep (keeps_rate c) p.rates) v (omega arith),
  pass-IsMetered (deleted_meter up_seid) p (keep (of_other up_seid) p.rates) v (omega arith),
)

get-keep_other :
    (up_seid : ℕ) (m : Map RateKey TokenBucket) (k : RateKey)
    → get k (keep (of_other up_seid) m) ≡ (if k.up_seid == up_seid then none else get k m)
unfolding get
get-keep_other up_seid [] k = ground arith
get-keep_other up_seid ((j, b) ∷ m) k = elim (rate_key_eq.decide j k) [
  | yes p ↦ ground (arith, get-keep_other up_seid m k, ap (λ (z : RateKey). z.up_seid) p)
  | no n ↦ ground (arith, get-keep_other up_seid m k)
]

-- After deleteSession no bucket and no meter of the session is left, and those of every other
-- session are as before.
pub delete_session-get :
    (up_seid : ℕ) (p : PolicyEngine) (k : RateKey) (u : UsageKey)
    → IsMetered p
    → (get k (delete_session up_seid p).rates
        ≡ (if k.up_seid == up_seid then none else get k p.rates))
      × (get u (delete_session up_seid p).usage
          ≡ (if u.up_seid == up_seid then none else get u p.usage))
unfolding delete_session
delete_session-get up_seid p k u v = (
  get-keep_other up_seid p.rates k,
  pass-get (deleted_meter up_seid) p.usage p.urr_active_meters u v.keyed
      ∙ elim (Option-cases (get u p.usage)) [
        | inl e ↦ rw e (ground arith)
        | inr (s, e) ↦ rw e (ground arith)
      ],
)
