-- ===== src/Net.antt =====
-- The addresses of net/netip that the program compares and stores. An IPv6 zone is left out: none
-- of the modelled code sets one.
use cups.Base.{
  ℕ, ◌≡◌, ◌/◌, ◌%◌, ◌^◌, refl, Bool, true, false, ◌&&◌, ◌||◌, ltb, ◌==◌, if◌then◌else◌, DecEq,
  arith, ℕ_discrete,
}

pub data Addr : Type 0 where
  invalid : Addr
  v4 v6 : ℕ → Addr

unfoldable pub Addr-discrete : Discrete Addr
Addr-discrete = hlevel ℕ_discrete

instance abbrev pub addr_eq : DecEq Addr
addr_eq = record { decide = Addr-discrete }

abbrev pub is_valid : Addr → Bool
is_valid invalid = false
is_valid (v4 n) = true
is_valid (v6 n) = true

abbrev pub is4 : Addr → Bool
is4 invalid = false
is4 (v4 n) = true
is4 (v6 n) = false

-- An IPv4 address mapped into IPv6 (::ffff:a.b.c.d) becomes the IPv4 address.
unfoldable pub unmap : Addr → Addr
unmap invalid = invalid
unmap (v4 n) = v4 n
unmap (v6 n) = if n / 2 ^ 32 == 0xffff then v4 (n % 2 ^ 32) else v6 n

-- The order of netip.Addr.Less: by length, then by value.
abbrev rank : Addr → ℕ
rank invalid = 0
rank (v4 n) = 1
rank (v6 n) = 2

abbrev value : Addr → ℕ
value invalid = 0
value (v4 n) = n
value (v6 n) = n

unfoldable pub less : Addr → Addr → Bool
less a b = ltb (rank a) (rank b) || (rank a == rank b && ltb (value a) (value b))

pub unmap-unmap : (a : Addr) → unmap (unmap a) ≡ unmap a
unfolding unmap
unmap-unmap invalid = refl
unmap-unmap (v4 n) = refl
unmap-unmap (v6 n) = ground arith
