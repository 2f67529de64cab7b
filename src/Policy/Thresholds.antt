-- ===== src/Policy/Thresholds.antt =====
-- internal/sgwu/dataplane/policy.go: the threshold events of a meter are the whole thresholds in
-- the volume that it counted.
use native.Mathlib.Nat.{
  div-mul-le_self, lt-div-mul-add, div-eq_of_lt-le, add-mul, le-div_iff_mul-le, mul_comm,
  mod-eq_of_lt, mul-pos, le-mul_of_pos_right,
}
use cups.Base.{
  ℕ, ◌+◌, ◌-◌, ◌*◌, ◌/◌, ◌≡◌, ◌≤◌, ◌<◌, refl, sym, ap, ◌∙◌, subst, true, false, ◌&&◌, Option, none,
  some, List, [], ◌∷◌, ◌==◌, ◌!=◌, leb, ltb, get, arith, Bool-cases, inl, inr, add64, max_uint64,
  get-put_self,
}
use cups.Rules.{Urr, PacketRule, source_access}
use cups.Policy.{PolicyEngine, usage_key_eq, UsageState}
use cups.Policy.Limit.{Packet}
use cups.Policy.Usage.{
  saturating_add, saturating_multiply, record_usage, meter_urrs, usage_key, metered, metered_state,
  state_for, stamped, counted, total_of, crossings, advanced,
}

pub record IsExact (threshold total : ℕ) (s : UsageState) : Type 0 where
  pub volume : s.uplink_bytes + s.downlink_bytes ≡ total
  pub next : s.next_threshold ≡ (s.threshold_events + 1) * threshold
  pub reached : s.threshold_events * threshold ≤ total
  pub ahead : total < (s.threshold_events + 1) * threshold

saturating_add_lem : (a b : ℕ) → a + b ≤ max_uint64 → saturating_add a b ≡ a + b
unfolding saturating_add
saturating_add_lem a b h = ground arith

saturating_multiply_lem : (a b : ℕ) → a * b ≤ max_uint64 → saturating_multiply a b ≡ a * b
unfolding saturating_multiply
saturating_multiply_lem a b h =
    let small : (a != 0 && ltb (max_uint64 / a) b) ≡ false = elim (Bool-cases (a != 0)) [
      | inr z ↦ rw z refl
      | inl z ↦
          let fits =
            (le-div_iff_mul-le {k = a} {x = b} {y = max_uint64} (ground arith)).1
              (omega (arith, h, mul_comm a b)) in
          rw z (ground (arith, fits))
    ] in
    rw small (mod-eq_of_lt (omega (arith, h)))

counted-total :
    (source bytes : ℕ) (urr : Urr) (s : UsageState) (total : ℕ)
    → urr.measure_volume ≡ true
    → s.uplink_bytes + s.downlink_bytes ≡ total
    → total + bytes ≤ max_uint64
    → ((counted source bytes urr s).uplink_bytes + (counted source bytes urr s).downlink_bytes
        ≡ total + bytes)
      × ((counted source bytes urr s).threshold_events ≡ s.threshold_events)
      × ((counted source bytes urr s).next_threshold ≡ s.next_threshold)
unfolding counted
counted-total source bytes urr s total m v h =
    let up : s.uplink_bytes + bytes ≤ max_uint64 = omega arith in
    let down : s.downlink_bytes + bytes ≤ max_uint64 = omega arith in
    elim (Bool-cases (source == source_access)) [
      | inl z ↦ rw (z, m, saturating_add_lem s.uplink_bytes bytes up) (omega arith, refl, refl)
      | inr z ↦ rw (z, m, saturating_add_lem s.downlink_bytes bytes down) (omega arith, refl, refl)
    ]

-- The arithmetic of a crossing: `e` events, a total of `next` and more, thresholds of `t`.
crossing :
    (t e total : ℕ)
    → 0 < t
    → (e + 1) * t ≤ total
    → ((e + ((total - (e + 1) * t) / t + 1)) * t ≤ total)
      × (total < (e + ((total - (e + 1) * t) / t + 1) + 1) * t)
      × (((total - (e + 1) * t) / t + 1) * t ≤ total)
      × ((e + 1) * t + ((total - (e + 1) * t) / t + 1) * t
          ≡ (e + ((total - (e + 1) * t) / t + 1) + 1) * t)
crossing t e total pos h =
    let q = (total - (e + 1) * t) / t in
    let low = div-mul-le_self (total - (e + 1) * t) t in
    let high = lt-div-mul-add {a = total - (e + 1) * t} pos in
    let one = add-mul e 1 t in
    let two = add-mul q 1 t in
    let three = add-mul e (q + 1) t in
    let four = add-mul (e + (q + 1)) 1 t in
    (
      omega (arith, low, one, two, three),
      omega (arith, high, one, two, three, four),
      omega (arith, low, two, one),
      omega (arith, one, two, three, four),
    )

advanced-IsExact :
    (urr : Urr) (s : UsageState) (total : ℕ)
    → urr.measure_volume ≡ true
    → 0 < urr.reporting_threshold
    → s.uplink_bytes + s.downlink_bytes ≡ total
    → s.next_threshold ≡ (s.threshold_events + 1) * urr.reporting_threshold
    → s.threshold_events * urr.reporting_threshold ≤ total
    → total + urr.reporting_threshold ≤ max_uint64
    → IsExact urr.reporting_threshold total (advanced urr s)
unfolding advanced crossings total_of
advanced-IsExact urr s total m pos v n r h =
    let t = urr.reporting_threshold in
    let e = s.threshold_events in
    let sum : saturating_add s.uplink_bytes s.downlink_bytes ≡ total =
      saturating_add_lem s.uplink_bytes s.downlink_bytes (omega arith) ∙ v in
    let limited : (t != 0) ≡ true = ground arith in
    let next : 0 < (e + 1) * t = mul-pos (omega arith) pos in
    let started : (s.next_threshold != 0) ≡ true = ground (arith, next, n) in
    elim (Bool-cases (leb s.next_threshold total)) [
      | inr before ↦
          rw (sum, m, limited, started, before)
            (record { volume = v; next = n; reached = r; ahead = ground (arith, n) })
      | inl over ↦
          let past : (e + 1) * t ≤ total = ground (arith, n) in
          let (low, high, part, all) = crossing t e total pos past in
          let q = (total - (e + 1) * t) / t in
          let events = le-mul_of_pos_right (e + (q + 1)) pos in
          let c : add64 ((total - s.next_threshold) / t) 1 ≡ q + 1 =
            ap (λ x. add64 ((total - x) / t) 1) n ∙ mod-eq_of_lt (omega (arith, events, low, h)) in
          let some_crossed : (q + 1 == 0) ≡ false = ground arith in
          let k = saturating_add_lem e (q + 1) (omega (arith, events, low, h)) in
          let j = saturating_multiply_lem (q + 1) t (omega (arith, part, h)) in
          let i : saturating_add s.next_threshold ((q + 1) * t) ≡ (e + (q + 1) + 1) * t =
            ap (λ x. saturating_add x ((q + 1) * t)) n
            ∙ saturating_add_lem ((e + 1) * t) ((q + 1) * t)
                (omega (arith, all, low, h, add-mul (e + (q + 1)) 1 t))
            ∙ all in
          rw (sum, m, limited, started, over, c, some_crossed, k, j)
            (record { volume = v; next = i; reached = low; ahead = high })
    ]

-- The packets of one rule, one after the other, while the rule is active.
unfoldable pub record_all : PacketRule → ℕ → List Packet → PolicyEngine → PolicyEngine
record_all matched source [] p = p
record_all matched source (k ∷ ks) p =
    record_all matched source ks (record_usage true matched source k.bytes k.at p)

abbrev pub volume : List Packet → ℕ
volume [] = 0
volume (k ∷ ks) = k.bytes + volume ks

pub record Meters (matched : PacketRule) (urr : Urr) : Type 0 where
  pub only : matched.urrs ≡ urr ∷ []
  pub measured : urr.measure_volume ≡ true
  pub positive : 0 < urr.reporting_threshold

metered-IsExact :
    (source bytes now : ℕ) (urr : Urr) (s : UsageState) (o : Option UsageState) (total : ℕ)
    → urr.measure_volume ≡ true
    → 0 < urr.reporting_threshold
    → state_for urr o ≡ s
    → IsExact urr.reporting_threshold total s
    → total + bytes + urr.reporting_threshold ≤ max_uint64
    → IsExact urr.reporting_threshold (total + bytes) (metered source bytes now urr o)
unfolding metered
metered-IsExact source bytes now urr s o total m pos e x h =
    let t = urr.reporting_threshold in
    let c = counted source bytes urr (stamped now s) in
    let (v, same_events, same_next) =
      counted-total source bytes urr (stamped now s) total m x.volume (omega arith) in
    let events = ap (λ n. (n + 1) * t) same_events in
    let a =
      advanced-IsExact urr c (total + bytes) m pos v (same_next ∙ x.next ∙ sym events)
        (omega (arith, x.reached, ap (λ n. n * t) same_events)) h in
    let done : IsExact t (total + bytes) (advanced urr (metered_state source bytes now urr o)) =
      subst
        (λ z. IsExact t (total + bytes) (advanced urr (counted source bytes urr (stamped now z))))
        (sym e) a in
    record { volume = done.volume; next = done.next; reached = done.reached; ahead = done.ahead }

record_usage-get :
    (matched : PacketRule) (source bytes now : ℕ) (urr : Urr) (p : PolicyEngine)
    → matched.urrs ≡ urr ∷ []
    → get (usage_key matched.up_seid urr) (record_usage true matched source bytes now p).usage
      ≡ some (metered source bytes now urr (get (usage_key matched.up_seid urr) p.usage))
unfolding record_usage meter_urrs
record_usage-get matched source bytes now urr p e =
    let key = usage_key matched.up_seid urr in
    rw e (get-put_self key (metered source bytes now urr (get key p.usage)) p.usage)

record_all-IsExact :
    (matched : PacketRule) (source : ℕ) (urr : Urr) (ks : List Packet) (p : PolicyEngine)
    (s : UsageState) (total : ℕ)
    → Meters matched urr
    → get (usage_key matched.up_seid urr) p.usage ≡ some s
    → IsExact urr.reporting_threshold total s
    → total + volume ks + urr.reporting_threshold ≤ max_uint64
    → (r : UsageState) × (get (usage_key matched.up_seid urr) (record_all matched source ks p).usage
        ≡ some r)
      × IsExact urr.reporting_threshold (total + volume ks) r
unfolding record_all
record_all-IsExact matched source urr [] p s total l e x h =
    (s, e, subst (λ n. IsExact urr.reporting_threshold n s) (omega arith) x)
record_all-IsExact matched source urr (k ∷ ks) p s total l e x h =
    let next = record_usage true matched source k.bytes k.at p in
    let now = record_usage-get matched source k.bytes k.at urr p l.only in
    let old = get (usage_key matched.up_seid urr) p.usage in
    let y =
      metered-IsExact source k.bytes k.at urr s old total l.measured l.positive
        (ap (state_for urr) e) x (omega arith) in
    let (r, f, z) =
      record_all-IsExact matched source urr ks next (metered source k.bytes k.at urr old)
        (total + k.bytes) l now y (omega arith) in
    (r, f, subst (λ n. IsExact urr.reporting_threshold n r) (omega arith) z)

-- Take an active rule with one URR that measures volume by a threshold, and no meter yet. After
-- any packets, one at least, whose volume and one threshold more fit a uint64, the meter has
-- counted that volume, and its threshold events are the volume over the threshold, rounded down.
pub record_all-events :
    (matched : PacketRule) (source : ℕ) (urr : Urr) (k : Packet) (ks : List Packet)
    (p : PolicyEngine)
    → Meters matched urr
    → get (usage_key matched.up_seid urr) p.usage ≡ none
    → volume (k ∷ ks) + urr.reporting_threshold ≤ max_uint64
    → (r : UsageState) × (get
          (usage_key matched.up_seid urr)
          (record_all matched source (k ∷ ks) p).usage
        ≡ some r)
      × (r.uplink_bytes + r.downlink_bytes ≡ volume (k ∷ ks))
      × (r.threshold_events ≡ volume (k ∷ ks) / urr.reporting_threshold)
unfolding record_all
record_all-events matched source urr k ks p l e h =
    let t = urr.reporting_threshold in
    let old = get (usage_key matched.up_seid urr) p.usage in
    let fresh : IsExact t 0 (state_for urr none) = record {
      volume = refl;
      next = omega arith;
      reached = omega arith;
      ahead = omega (arith, l.positive);
    } in
    let next = record_usage true matched source k.bytes k.at p in
    let now = record_usage-get matched source k.bytes k.at urr p l.only in
    let y =
      metered-IsExact source k.bytes k.at urr (state_for urr none) old 0 l.measured l.positive
        (ap (state_for urr) e) fresh (omega arith) in
    let (r, f, z) =
      record_all-IsExact matched source urr ks next (metered source k.bytes k.at urr old)
        (0 + k.bytes) l now y (omega arith) in
    let total : 0 + k.bytes + volume ks ≡ volume (k ∷ ks) = omega arith in
    let x = subst (λ n. IsExact t n r) total z in
    (r, f, x.volume, sym (div-eq_of_lt-le t x.reached x.ahead))
