-- ===== src/Ipam/Tests.antt =====
-- internal/pgwc/ipam/pool.go at a concrete pool, the /29 of 10.0.0.0.
use cups.Base.{
  true, false, ◌≡◌, refl, some, [], ◌∷◌, arith, get, put, length, ℕ_discrete, Text-discrete, Text,
  nat_eq, text_eq,
}
use cups.Net.{Addr, v4, unmap}
use cups.Ipam.{
  pos, Pool, Lease, ok, new, acquire, release, restore, restore_leases, first_clear, reserve, scan,
}
use cups.Ipam.Invariant.{IsValid}
use cups.Ipam.Initial.{new-IsValid, restore_pool-IsValid}
use cups.Ipam.Acquire.{IsGrant, acquire_below_limit, acquire-IsValid}
use cups.Ipam.Release.{SameLeases, acquire-release}

abbrev net : Addr
net = v4 167772160

abbrev gateway : Addr
gateway = v4 167772161

abbrev imsi : Text
imsi = 7 ∷ []

abbrev lease : Lease
lease = record { owner = imsi; addr = v4 167772162 }

abbrev pool : Pool
pool = record {
  bits = 29;
  base = 167772160;
  size = 8;
  gateway = 1;
  limit = 5;
  used = 0;
  cursor = 1;
  bitmap = reserve 8 1;
  by_owner = [];
  owner_by = [];
}

new_test : new net 29 gateway (pos 0) ≡ some pool
unfolding new unmap
new_test = refl

acquire_below_limit_example : IsGrant pool imsi (acquire pool imsi)
unfolding get
acquire_below_limit_example =
    acquire_below_limit pool imsi (new-IsValid net 29 gateway (pos 0) pool new_test) (omega arith)
      refl (omega arith)

acquire-IsValid_example : IsValid (acquire pool imsi).0
acquire-IsValid_example =
    acquire-IsValid pool imsi (new-IsValid net 29 gateway (pos 0) pool new_test)

acquire_test : (acquire pool imsi).1 ≡ ok lease
unfolding acquire scan get reserve Text-discrete
acquire_test = refl

abbrev leased : Pool
leased = record pool {
  used = 1;
  cursor = 3;
  bitmap = true ∷ true ∷ true ∷ false ∷ false ∷ false ∷ false ∷ true ∷ [];
  by_owner = (imsi, 2) ∷ [];
  owner_by = (2, imsi) ∷ [];
}

release_test : (release leased imsi (v4 167772162)).1 ≡ ok lease
unfolding release get unmap Text-discrete ℕ_discrete
release_test = refl

restore_test : restore pool (lease ∷ []) ≡ some (record leased { cursor = 3 })
unfolding restore restore_leases first_clear get put unmap reserve Text-discrete ℕ_discrete
restore_test = refl

restore_pool-IsValid_example : IsValid leased × (leased.used ≡ length (lease ∷ []))
restore_pool-IsValid_example =
    restore_pool-IsValid pool leased (lease ∷ []) (new-IsValid net 29 gateway (pos 0) pool new_test)
      restore_test

leased-IsValid : IsValid leased
leased-IsValid =
    (restore_pool-IsValid pool leased (lease ∷ [])
      (new-IsValid net 29 gateway (pos 0) pool new_test) restore_test).0

acquire-release_example :
    (l : Lease) × ((acquire pool imsi).1 ≡ ok l)
    × ((release (acquire pool imsi).0 imsi l.addr).1 ≡ ok l)
    × SameLeases pool (release (acquire pool imsi).0 imsi l.addr).0
unfolding get
acquire-release_example =
    acquire-release pool imsi (new-IsValid net 29 gateway (pos 0) pool new_test) (omega arith) refl
      (omega arith)
