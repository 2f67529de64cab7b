-- ===== src/Ipam/Reserve.antt =====
-- The first bitmap of internal/pgwc/ipam/pool.go: network, broadcast and gateway are reserved.
use cups.Base.{
  ℕ, ◌-◌, ◌≤◌, ◌<◌, ◌≡◌, refl, Bool, true, false, ◌||◌, arith, length, get_or, set, replicate,
  text_eq, nat_eq, if◌then◌else◌, ◌==◌, count_set, length-set, get_or-set, count_set-set-true,
  get_or_defaults, ◌∙◌, length-replicate, count_set_none, get_or_none,
}
use cups.Ipam.{reserve}

first_bit : (size i : ℕ) → i < size → get_or (replicate size false) i true ≡ false
first_bit size i lt =
    let n = length-replicate size false in
    get_or_defaults (replicate size false) i true false (omega arith) ∙ get_or_none size i

pub neither : (a b : Bool) → (a || b) ≡ false → (a ≡ false) × (b ≡ false)
neither false b h = (refl, h)
neither true b h = cc

-- The three reserved addresses are set in the first bitmap, and no other.
pub reserve-bits :
    (size g i : ℕ)
    → 4 ≤ size
    → 0 < g
    → g < size - 1
    → i < size
    → get_or (reserve size g) i true
      ≡ (if g == i then true else if size - 1 == i then true else if 0 == i then true else false)
unfolding reserve
reserve-bits size g i h lo hi lt =
    let b0 = replicate size false in
    let b1 = set b0 0 true in
    let b2 = set b1 (size - 1) true in
    let n0 = length-replicate size false in
    let n1 = length-set b0 0 true in
    let n2 = length-set b1 (size - 1) true in
    let e0 = get_or_defaults b0 i true false (omega arith) ∙ get_or_none size i in
    let e1 = get_or-set b0 0 i true true (omega arith) in
    let e2 = get_or-set b1 (size - 1) i true true (omega arith) in
    let e3 = get_or-set b2 g i true true (omega arith) in ground (arith, e0, e1, e2, e3)

pub count_set-reserve :
    (size g : ℕ) → 4 ≤ size → 0 < g → g < size - 1 → count_set (reserve size g) ≡ 3
unfolding reserve
count_set-reserve size g h lo hi =
    let b0 = replicate size false in
    let b1 = set b0 0 true in
    let b2 = set b1 (size - 1) true in
    let n0 = length-replicate size false in
    let n1 = length-set b0 0 true in
    let c = λ (i : ℕ) (lt : i < size). first_bit size i lt in
    let e1 = get_or-set b0 0 (size - 1) true true (omega arith) in
    let e2 = get_or-set b0 0 g true true (omega arith) in
    let e3 = get_or-set b1 (size - 1) g true true (omega arith) in
    let c1 = count_set-set-true b0 0 (c 0 (omega arith)) in
    let c2 = count_set-set-true b1 (size - 1) (ground (arith, c (size - 1))) in
    let c3 = count_set-set-true b2 g (ground (arith, c g)) in
    omega (arith, c1, c2, c3, count_set_none size)

pub length-reserve : (size g : ℕ) → length (reserve size g) ≡ size
unfolding reserve
length-reserve size g =
    let b0 = replicate size false in
    let b1 = set b0 0 true in
    let b2 = set b1 (size - 1) true in
    omega (
      arith,
      length-replicate size false,
      length-set b0 0 true,
      length-set b1 (size - 1) true,
      length-set b2 g true,
    )
