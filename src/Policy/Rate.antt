-- ===== src/Policy/Rate.antt =====
-- rateForDuration of internal/sgwu/dataplane/policy.go is exact and does not overflow.
use native.Mathlib.Nat.{
  mul_comm, mul_assoc, mul-add, add-mul, mul-add-div_right, div-add-mod', mod-lt, mul-le-mul_left,
  le-div_iff_mul-le, div-lt_iff_lt-mul, mul-le-mul, mod-eq_of_lt, div-le_of_le-mul,
}
use cups.Base.{
  ℕ, ◌+◌, ◌-◌, ◌*◌, ◌/◌, ◌%◌, ◌^◌, ◌≡◌, ◌≤◌, ◌<◌, subst, refl, sym, ap, ◌∙◌, Bool, true, false,
  ◌&&◌, ◌||◌, ltb, ◌==◌, ◌!=◌, if◌then◌else◌, arith, Bool-cases, inl, inr, min, add64, max_uint64,
}
use cups.Policy.{second, rate_for_duration}

rate_times : (rate n : ℕ) → rate * n ≡ rate / second * n * second + rate % second * n
rate_times rate n =
    let r = rate / second in
    ap (λ x. x * n) (sym (div-add-mod' rate second))
    ∙ add-mul (r * second) (rate % second) n
    ∙ ap (λ x. x + rate % second * n)
        (mul_assoc r second n ∙ ap (λ x. r * x) (mul_comm second n) ∙ sym (mul_assoc r n second))

-- The long division of rate * duration by a second.
rate_split :
    (rate duration : ℕ)
    → rate * duration / second
      ≡ rate * (duration / second)
        + (rate / second * (duration % second) + rate % second * (duration % second) / second)
rate_split rate duration =
    let s = duration / second in
    let n = duration % second in
    let r = rate / second in
    let m = rate % second in
    let one : rate * duration ≡ rate * s * second + rate * n =
      ap (λ d. rate * d) (sym (div-add-mod' duration second))
      ∙ mul-add rate (s * second) n
      ∙ ap (λ x. x + rate * n) (sym (mul_assoc rate s second)) in
    let two = rate_times rate n in
    ap (λ x. x / second) one
    ∙ mul-add-div_right (omega arith) (rate * s) (rate * n)
    ∙ ap (λ x. rate * s + x)
        (ap (λ x. x / second) two ∙ mul-add-div_right (omega arith) (r * n) (m * n))

-- The part of a second: no more than the rate.
partial_bound : (rate n : ℕ) → n < second → rate / second * n + rate % second * n / second ≤ rate
partial_bound rate n h =
    let r = rate / second in
    let m = rate % second in
    let whole : r * n * second + m * n ≤ second * rate =
      subst (λ x. x ≤ second * rate) (rate_times rate n)
        (subst (λ x. rate * n ≤ x) (mul_comm rate second) (mul-le-mul_left rate (omega arith))) in
    let split = mul-add-div_right {m = second} (omega arith) (r * n) (m * n) in
    omega (arith, split, div-le_of_le-mul second whole)

zero_product : (a b : ℕ) → (a == 0 || b == 0) ≡ true → a * b ≡ 0
zero_product a b h = elim (Bool-cases (a == 0)) [
  | inl z ↦ let e : a ≡ 0 = ground arith in ap (λ x. x * b) e ∙ omega arith
  | inr z ↦ let e : b ≡ 0 = ground arith in ap (λ x. a * x) e ∙ omega arith
]

within_bound : (rate s : ℕ) → (s != 0 && ltb (max_uint64 / s) rate) ≡ false → rate * s ≤ max_uint64
within_bound rate s h = elim (Bool-cases (s != 0)) [
  | inl z ↦ (le-div_iff_mul-le {k = s} {x = rate} {y = max_uint64} (ground arith)).0 (ground arith)
  | inr z ↦
      let e : s ≡ 0 = ground arith in
      let p : rate * s ≡ 0 = ap (λ x. rate * x) e ∙ omega arith in omega (arith, p)
]

small_product : (a b : ℕ) → a < second → b < second → a * b < 2 ^ 64
small_product a b h g =
    let bound : a * b ≤ 999_999_999 * 999_999_999 =
      mul-le-mul {n₂ = 999_999_999} {m₂ = 999_999_999} (omega arith) (omega arith) in
    omega (arith, bound)

clamp :
    (none_at_all big : Bool) (w a b total : ℕ)
    → a + b ≤ max_uint64
    → total ≡ w + (a + b)
    → (none_at_all ≡ true → total ≡ 0)
    → (big ≡ true → max_uint64 < w)
    → (big ≡ false → w ≤ max_uint64)
    → (if none_at_all
        then 0
        else if big
        then max_uint64
        else if ltb (max_uint64 - w % 2 ^ 64) (add64 (a % 2 ^ 64) b)
        then max_uint64
        else add64 (w % 2 ^ 64) (add64 (a % 2 ^ 64) b))
      ≡ min max_uint64 total
clamp true big w a b total h e z t f = omega (arith, z refl)
clamp false true w a b total h e z t f = omega (arith, t refl)
clamp false false w a b total h e z t f =
    let fits = f refl in
    let whole : w % 2 ^ 64 ≡ w = omega (arith, fits) in
    let one : a % 2 ^ 64 ≡ a = omega arith in
    let part : (a + b) % 2 ^ 64 ≡ a + b = omega arith in rw (whole, one, part) (ground arith)

-- For a rate and any duration of a time.Duration, rateForDuration is the rate times the duration
-- in seconds, rounded down, or the greatest uint64 where that is greater: no product and no sum on
-- the way overflows unnoticed.
pub rate_for_duration-exact :
    (rate duration : ℕ)
    → rate ≤ max_uint64
    → rate_for_duration rate duration ≡ min max_uint64 (rate * duration / second)
unfolding rate_for_duration
rate_for_duration-exact rate duration h =
    let s = duration / second in
    let n = duration % second in
    let small =
      small_product (rate % second) n (mod-lt rate (omega arith)) (mod-lt duration (omega arith)) in
    let product : rate % second * n % 2 ^ 64 ≡ rate % second * n = mod-eq_of_lt small in
    let bound = partial_bound rate n (mod-lt duration (omega arith)) in
    rw product (
      clamp (rate == 0 || duration == 0) (s != 0 && ltb (max_uint64 / s) rate) (rate * s)
        (rate / second * n) (rate % second * n / second) (rate * duration / second)
        (omega (arith, bound, h)) (rate_split rate duration)
        (λ z. ap (λ x. x / second) (zero_product rate duration z))
        (λ t.
          (div-lt_iff_lt-mul {k = s} {x = max_uint64} {y = rate} (ground arith)).0 (ground arith))
        (λ f. within_bound rate s f))
