-- ===== src/Ipam/Initial.antt =====
-- The pools that NewPool and Restore of internal/pgwc/ipam/pool.go make.
use cups.Base.{
  ℕ, zero, suc, ◌+◌, ◌-◌, ◌^◌, ◌≤◌, ◌<◌, ◌≡◌, ◌≢◌, refl, subst, true, false, not, ◌||◌, ◌&&◌, some,
  List, [], ◌∷◌, arith, get, length, text_eq, nat_eq, inl, inr, if◌then◌else◌, Bool-cases,
  Option-cases, ◌==◌, ◌!=◌, ltb, leb, if_both,
}
use mathlib.Core.Option.{some-injective}
use native.Mathlib.Nat.{mod-lt}
use cups.Net.{Addr, is4, unmap}
use cups.Ipam.{
  ℤ, pos, negsuc, lease_limit, max_pool_addresses, number, contains, span, first, Pool, Lease,
  marked, grant, reserve, new, restore, restore_leases, first_clear,
}
use cups.Ipam.Acquire.{cursor-IsValid}
use cups.Ipam.Invariant.{IsValid, grant-IsValid}
use cups.Ipam.Reserve.{reserve-bits, count_set-reserve, length-reserve, neither}

abbrev emptied : Pool → Pool
emptied p = record p { bitmap = reserve p.size p.gateway; by_owner = []; owner_by = []; used = 0 }

-- A pool with no lease, its bounds in order.
start-IsValid :
    (p : Pool)
    → 4 ≤ p.size
    → 0 < p.gateway
    → p.gateway < p.size - 1
    → 0 < p.cursor
    → p.cursor < p.size - 1
    → p.limit + 3 ≤ p.size
    → IsValid (emptied p)
unfolding get
start-IsValid p b lo hi cl ch room =
    let bit = λ (i : ℕ) (lt : i < p.size). reserve-bits p.size p.gateway i b lo hi lt in
    record {
      big = b;
      spans = length-reserve p.size p.gateway;
      gate_low = lo;
      gate_high = hi;
      network = ground (arith, bit 0);
      broadcast = ground (arith, bit (p.size - 1));
      gate = ground (arith, bit p.gateway);
      cursor_low = cl;
      cursor_high = ch;
      counted = omega (arith, count_set-reserve p.size p.gateway b lo hi);
      keyed = tt;
      tally = refl;
      within = omega arith;
      room = room;
      owned = λ k o e. cc;
      leased = λ o k e. cc;
      held = λ o k e. cc;
      taken = λ o h m. ground (arith, bit o h);
    }

restore_leases-IsValid :
    (p q : Pool) (ls : List Lease)
    → IsValid p
    → p.used + length ls ≤ p.limit
    → restore_leases p ls ≡ some q
    → IsValid q × (q.used ≡ p.used + length ls) × (q.size ≡ p.size)
unfolding restore_leases
restore_leases-IsValid p q [] v u e =
    let same : p ≡ q = cc in
    subst (λ (x : Pool). IsValid x × (x.used ≡ p.used + 0) × (x.size ≡ p.size)) same
      (v, omega arith, refl)
restore_leases-IsValid p q (l ∷ ls) v u e =
    let o = number (unmap l.addr) - p.base in
    let big = v.big in
    elim (Bool-cases (length l.owner == 0 || not (contains p.bits p.base (unmap l.addr)))) [
      | inl bad ↦ absurd (cc (rw bad at e))
      | inr a ↦ elim (Bool-cases (leb p.size o || marked p o)) [
        | inl bad ↦ absurd (cc (rw (a, bad) at e))
        | inr b ↦ elim (Option-cases (get l.owner p.by_owner)) [
          | inr (k, bad) ↦ absurd (cc (rw (a, b, bad) at e))
          | inl f ↦
              let (low, clear) = neither (leb p.size o) (marked p o) b in
              let inside : o < p.size = ground arith in
              let not_first : o ≢ 0 = λ z. cc v.network in
              let not_last : o ≢ p.size - 1 = λ z. cc v.broadcast in
              let w =
                grant-IsValid p l.owner o v f (omega arith) (omega arith) (omega arith) clear in
              let r =
                restore_leases-IsValid (grant p l.owner o) q ls w (omega arith)
                  (rw (a, b, f) at e) in
              (r.0, omega (arith, r.1), r.2)
        ]
      ]
    ]

first_clear_lem : (rounds c : ℕ) (p : Pool) → c ≤ first_clear rounds c p
unfolding first_clear
first_clear_lem zero c p = omega arith
first_clear_lem (suc rounds) c p =
    let h = first_clear_lem rounds (c + 1) p in
    if_both (λ (x : ℕ). c ≤ x) (ltb c (p.size - 1) && marked p c) (omega arith) (omega arith)

four_le : (n : ℕ) → 2 ≤ n → 4 ≤ 2 ^ n
four_le zero h = absurd (omega arith)
four_le (suc zero) h = absurd (omega arith)
four_le (suc (suc zero)) h = omega arith
four_le (suc (suc (suc n))) h = omega (arith, four_le (suc (suc n)) (omega arith))

contains_lem :
    (bits start : ℕ) (a : Addr) → contains bits start a ≡ true → first bits (number a) ≡ start
contains_lem bits start a h = ground arith

offset_lt : (bits start n : ℕ) → 0 < span bits → first bits n ≡ start → n - start < span bits
offset_lt bits start n h e = omega (arith, mod-lt n {m = span bits} h)

lease_limit_lem :
    (capacity : ℕ) (m : ℤ) (limit : ℕ) → lease_limit capacity m ≡ some limit → limit ≤ capacity
lease_limit_lem capacity (pos n) limit h =
    subst (λ x. x ≤ capacity) (some-injective _ limit h) (ground arith)
lease_limit_lem capacity (negsuc n) limit h = absurd cc

-- What the tests of NewPool leave of the bounds.
bounds_lem :
    (bits start : ℕ) (g : Addr)
    → ltb 30 bits ≡ false
    → contains bits start g ≡ true
    → (4 ≤ span bits) × (number g - start < span bits)
bounds_lem bits start g h e =
    let big : 4 ≤ span bits = four_le (32 - bits) (ground arith) in
    (big, offset_lt bits start (number g) (omega arith) (contains_lem bits start g e))

-- New, when it accepts its arguments, makes a valid pool: the limit leaves the three reserved
-- addresses out, and the gateway lies inside.
pub new-IsValid :
    (prefix_addr : Addr) (bits : ℕ) (gateway : Addr) (max_leases : ℤ) (p : Pool)
    → new prefix_addr bits gateway max_leases ≡ some p
    → IsValid p
unfolding new
new-IsValid prefix_addr bits gateway max_leases p e =
    let size = span bits in
    let base = first bits (number prefix_addr) in
    let g = unmap gateway in
    let offset = number g - base in
    let tests = not (is4 prefix_addr) || ltb bits 8 || ltb 30 bits in
    let far = not (is4 gateway) || not (contains bits base g) in
    let edge = offset == 0 || offset == size - 1 in
    elim (Bool-cases tests) [
      | inl bad ↦ absurd (cc (rw bad at e))
      | inr a ↦ elim (Bool-cases far) [
        | inl bad ↦ absurd (cc (rw (a, bad) at e))
        | inr b ↦ elim (Bool-cases (ltb max_pool_addresses size)) [
          | inl bad ↦ absurd (cc (rw (a, b, bad) at e))
          | inr d ↦ elim (Bool-cases edge) [
            | inl bad ↦ absurd (cc (rw (a, b, d, bad) at e))
            | inr c ↦ elim (Option-cases (lease_limit (size - 3) max_leases)) [
              | inl bad ↦ absurd (cc (rw (a, b, d, c, bad) at e))
              | inr (limit, l) ↦
                  let (a0, a1) = neither (not (is4 prefix_addr) || ltb bits 8) (ltb 30 bits) a in
                  let (b0, b1) = neither (not (is4 gateway)) (not (contains bits base g)) b in
                  let (c0, c1) = neither (offset == 0) (offset == size - 1) c in
                  let (big, off) = bounds_lem bits base g a1 (ground arith) in
                  let below = lease_limit_lem (size - 3) max_leases limit l in
                  subst IsValid (some-injective _ p (rw (a, b, d, c, l) at e)) (
                    start-IsValid
                      (record {
                        bits = bits;
                        base = base;
                        size = size;
                        gateway = offset;
                        limit = limit;
                        used = 0;
                        cursor = 1;
                        bitmap = [];
                        by_owner = [];
                        owner_by = [];
                      })
                      big (ground arith) (ground arith) (omega arith) (omega arith) (omega arith))
            ]
          ]
        ]
      ]
    ]

cursor_high_lem : (size c n : ℕ) → n ≡ size → 4 ≤ n → (if leb (size - 1) c then 1 else c) < n - 1
cursor_high_lem size c n e b = ground arith

-- Restore, when it accepts the recovered leases, makes a valid pool from a valid one, which
-- counts exactly those leases.
pub restore_pool-IsValid :
    (p q : Pool) (leases : List Lease)
    → IsValid p
    → restore p leases ≡ some q
    → IsValid q × (q.used ≡ length leases)
unfolding restore
restore_pool-IsValid p q leases v e =
    let start = emptied p in
    let w = start-IsValid p v.big v.gate_low v.gate_high v.cursor_low v.cursor_high v.room in
    elim (Bool-cases (p.used != 0 || length p.by_owner != 0 || length p.owner_by != 0)) [
      | inl bad ↦ absurd (cc (rw bad at e))
      | inr a ↦ elim (Bool-cases (ltb p.limit (length leases))) [
        | inl bad ↦ absurd (cc (rw (a, bad) at e))
        | inr b ↦ elim (Option-cases (restore_leases start leases)) [
          | inl bad ↦ absurd (cc (rw (a, b, bad) at e))
          | inr (r, h) ↦
              let (x, n, size) = restore_leases-IsValid start r leases w (ground arith) h in
              let c = first_clear p.size 1 r in
              let low = first_clear_lem p.size 1 r in
              let same = some-injective _ q (rw (a, b, h) at e) in
              subst (λ (z : Pool). IsValid z × (z.used ≡ length leases)) same
                (
                  cursor-IsValid r _ x
                      (if_both (λ (k : ℕ). 0 < k) (leb (p.size - 1) c) (omega arith) (omega arith))
                      (cursor_high_lem p.size c r.size size (x.big)),
                  omega (arith, n),
                )
        ]
      ]
    ]
