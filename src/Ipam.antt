-- ===== src/Ipam.antt =====
-- internal/pgwc/ipam/pool.go: the IPv4 lease pool of the PGW-C. The mutex makes each method one
-- step. The bitmap of 64-bit words is the list of its bits; an index stays below `size`, so no
-- word is read outside of it. An address of the pool is its offset from `base`.
pub mod Invariant
pub mod Acquire
pub mod Release
pub mod Reserve
pub mod Initial
mod Tests
use cups.Base.{
  ◌>>=◌, ℕ, zero, suc, ◌+◌, ◌-◌, ◌%◌, ◌^◌, Bool, true, false, not, ◌&&◌, ◌||◌, Option, none, some,
  List, [], ◌∷◌, ltb, leb, ◌==◌, ◌!=◌, if◌then◌else◌, Map, get, put, del, has, length, get_or, set,
  replicate, Text, text_eq, nat_eq,
}
use cups.Net.{Addr, invalid, v4, v6, is4, unmap}

pub data Error : Type 0 where
  exhausted not_found conflict bad_request : Error

pub data Result (A : Type 0) : Type 0 where
  ok : A → Result A
  err : Error → Result A

pub record Lease : Type 0 where
  pub owner : Text
  pub addr : Addr

pub record Pool : Type 0 where
  pub bits : ℕ
  pub base : ℕ
  pub size : ℕ
  pub gateway : ℕ
  pub limit : ℕ
  pub used : ℕ
  pub cursor : ℕ
  pub bitmap : List Bool
  pub by_owner : Map Text ℕ
  pub owner_by : Map ℕ Text

abbrev pub number : Addr → ℕ
number invalid = 0
number (v4 n) = n
number (v6 n) = n

-- The number of addresses of a prefix, and its first one.
abbrev pub span : ℕ → ℕ
span bits = 2 ^ (32 - bits)

abbrev pub first : ℕ → ℕ → ℕ
first bits n = n - n % span bits

abbrev pub contains : ℕ → ℕ → Addr → Bool
contains bits start a = is4 a && first bits (number a) == start

-- The offsets that no lease takes: network, broadcast and gateway.
pub reserve : ℕ → ℕ → List Bool
reserve size gateway = set (set (set (replicate size false) 0 true) (size - 1) true) gateway true

-- Go's int, for the number of leases that the configuration asks for.
pub data ℤ : Type 0 where
  pos negsuc : ℕ → ℤ

abbrev pub max_pool_addresses : ℕ
max_pool_addresses = 2 ^ 24

-- The limit on leases; a negative one is refused.
abbrev pub lease_limit : ℕ → ℤ → Option ℕ
lease_limit capacity (pos n) = some (if n == 0 || ltb capacity n then capacity else n)
lease_limit capacity (negsuc n) = none

-- `prefix_addr` / `bits` is the prefix; `none` is an error.
pub new : Addr → ℕ → Addr → ℤ → Option Pool
unfolding reserve unmap
new prefix_addr bits gateway max_leases =
    let size = span bits in
    let base = first bits (number prefix_addr) in
    let offset = number (unmap gateway) - base in
    if not (is4 prefix_addr) || ltb bits 8 || ltb 30 bits
    then none
    else if not (is4 gateway) || not (contains bits base (unmap gateway))
    then none
    else if ltb max_pool_addresses size
    then none
    else if offset == 0 || offset == size - 1
    then none
    else (lease_limit (size - 3) max_leases >>= λ limit. some (record {
      bits = bits;
      base = base;
      size = size;
      gateway = offset;
      limit = limit;
      used = 0;
      cursor = 1;
      bitmap = reserve size offset;
      by_owner = [];
      owner_by = [];
    }))

abbrev pub marked : Pool → ℕ → Bool
marked p offset = get_or p.bitmap offset true

-- The address of an offset; base + offset is a uint32, which it does not leave.
abbrev pub addr_at : Pool → ℕ → Addr
addr_at p offset = v4 ((p.base + offset) % 2 ^ 32)

abbrev pub advance : Pool → ℕ
advance p = if leb (p.size - 1) (p.cursor + 1) then 1 else p.cursor + 1

abbrev pub grant : Pool → Text → ℕ → Pool
grant p owner offset = record p {
  bitmap = set p.bitmap offset true;
  by_owner = put owner offset p.by_owner;
  owner_by = put offset owner p.owner_by;
  used = p.used + 1;
}

-- Acquire's loop, with the rounds that are left.
pub scan : ℕ → Pool → Text → Pool × Result Lease
scan zero p owner = (p, err exhausted)
scan (suc rounds) p owner =
    let next = record p { cursor = advance p } in
    let more = scan rounds next owner in
    if marked p p.cursor
    then more
    else (grant next owner p.cursor, ok (record { owner = owner; addr = addr_at p p.cursor }))

abbrev acquire_found : Pool → Text → Option ℕ → Pool × Result Lease
acquire_found p owner (some offset) = (p, ok (record { owner = owner; addr = addr_at p offset }))
acquire_found p owner none = if leb p.limit p.used then (p, err exhausted) else scan p.size p owner

pub acquire : Pool → Text → Pool × Result Lease
unfolding scan
acquire p owner =
    if length owner == 0 then (p, err bad_request) else acquire_found p owner (get owner p.by_owner)

abbrev pub same_addr : Addr → Addr → Bool
same_addr (v4 a) (v4 b) = a == b
same_addr (v6 a) (v6 b) = a == b
same_addr _ _ = false

abbrev release_found : Pool → Text → Addr → Option ℕ → Pool × Result Lease
release_found p owner a none = (p, err not_found)
release_found p owner a (some offset) =
    if not (same_addr (addr_at p offset) (unmap a)) then (p, err not_found) else (
      record p {
        by_owner = del owner p.by_owner;
        owner_by = del offset p.owner_by;
        bitmap = set p.bitmap offset false;
        used = p.used - 1;
        cursor = if ltb offset p.cursor then offset else p.cursor;
      },
      ok (record { owner = owner; addr = a }),
    )

-- Release; its success carries no value, and stands here with the lease that it ends.
pub release : Pool → Text → Addr → Pool × Result Lease
release p owner a =
    if length owner == 0 || not (is4 a)
    then (p, err not_found)
    else release_found p owner a (get owner p.by_owner)

pub find : Pool → Text → Option Lease
find p owner = elim (get owner p.by_owner) [
  | none ↦ none
  | some offset ↦ some (record { owner = owner; addr = addr_at p offset })
]

-- Snapshot's loop over the offsets from `offset` on.
pub leases_from : ℕ → ℕ → Pool → List Lease
leases_from zero offset p = []
leases_from (suc rounds) offset p =
    let rest = leases_from rounds (offset + 1) p in
    elim (get offset p.owner_by) [
      | none ↦ rest
      | some owner ↦ record { owner = owner; addr = addr_at p offset } ∷ rest
    ]

pub snapshot : Pool → List Lease
unfolding leases_from
snapshot p = leases_from (p.size - 2) 1 p

-- Restore's loop over the recovered leases, on the new bitmap and maps.
pub restore_leases : Pool → List Lease → Option Pool
restore_leases p [] = some p
restore_leases p (l ∷ ls) =
    let a = unmap l.addr in
    let offset = number a - p.base in
    let rest = restore_leases (grant p l.owner offset) ls in
    if length l.owner == 0 || not (contains p.bits p.base a)
    then none
    else if leb p.size offset || marked p offset
    then none
    else if has l.owner p.by_owner
    then none
    else rest

-- `for cursor < p.size-1 && marked(cursor)`
pub first_clear : ℕ → ℕ → Pool → ℕ
first_clear zero cursor p = cursor
first_clear (suc rounds) cursor p =
    let more = first_clear rounds (cursor + 1) p in
    if ltb cursor (p.size - 1) && marked p cursor then more else cursor

-- Restore; `none` is one of its errors, which leave the pool as it was.
pub restore : Pool → List Lease → Option Pool
unfolding restore_leases first_clear reserve
restore p leases =
    if p.used != 0 || length p.by_owner != 0 || length p.owner_by != 0
    then none
    else if ltb p.limit (length leases)
    then none
    else elim (restore_leases
        (record p { bitmap = reserve p.size p.gateway; by_owner = []; owner_by = []; used = 0 })
        leases) [
          | none ↦ none
          | some q ↦
              let cursor = first_clear p.size 1 q in
              some (record q { cursor = if leb (p.size - 1) cursor then 1 else cursor })
        ]
