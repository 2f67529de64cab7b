-- ===== src/Sgwc/Find.antt =====
-- internal/sgwc/session/store.go: the lookups. An outer `none` is a panic, where the code follows
-- an index to a session that is not there.
use cups.Base.{
  ℕ, Bool, Option, none, some, List, [], ◌∷◌, ltb, ◌==◌, if◌then◌else◌, Map, get, has, length, sort,
  map, reverse, max, nat_eq, Text, text_eq, ◌>>=◌,
}
use cups.Sgwc.{Session, owner_key, bearer_owner_key, bearer_owner_eq}
use cups.Sgwc.Store.{Store, Present, IdSet, ids_at}

unfoldable pub find : Store → ℕ → Option Session
find s id = get id s.by_id

-- What the lookups by one key share: the index names a session, which is dereferenced.
abbrev pub deref : Map ℕ Session → Option ℕ → Option (Option Session)
deref by_id none = some none
deref by_id (some id) = get id by_id >>= λ x. some (some x)

unfoldable pub find_by_s5_teid : Store → ℕ → Option (Option Session)
find_by_s5_teid s teid = deref s.by_id (get teid s.by_s5)

unfoldable pub find_by_pfcp_control_seid : Store → ℕ → Option (Option Session)
find_by_pfcp_control_seid s seid = deref s.by_id (get seid s.by_pfcp)

unfoldable pub find_by_owner : Store → Text → Text → Option (Option Session)
find_by_owner s subscriber apn = deref s.by_id (get (owner_key subscriber apn) s.by_owner)

unfoldable pub find_by_subscriber_and_ebi : Store → Text → ℕ → Option (Option Session)
find_by_subscriber_and_ebi s subscriber ebi =
    deref s.by_id (get (bearer_owner_key subscriber ebi) s.by_bearer)

-- The greatest id, and 0 for none.
unfoldable pub greatest : IdSet → ℕ
greatest [] = 0
greatest ((id, p) ∷ ids) = max id (greatest ids)

abbrev pub newest_id : IdSet → Option ℕ
newest_id ids = let newest = greatest ids in if newest == 0 then none else some newest

unfoldable pub find_by_s11_teid : Store → ℕ → Option (Option Session)
find_by_s11_teid s teid = deref s.by_id (newest_id (ids_at teid s.by_s11))

abbrev pub ids_less : ℕ × Present → ℕ × Present → Bool
ids_less a b = ltb a.0 b.0

abbrev pub sorted_ids : IdSet → IdSet
sorted_ids ids = sort ids_less ids

abbrev pub with_ebi : ℕ → Session → Option (Option Session) → Option (Option Session)
with_ebi ebi x rest = if has ebi x.bearers then some (some x) else rest

-- The loop from the newest id down.
unfoldable pub first_with_ebi : Map ℕ Session → ℕ → IdSet → Option (Option Session)
first_with_ebi by_id ebi [] = some none
first_with_ebi by_id ebi ((id, p) ∷ ids) =
    let rest = first_with_ebi by_id ebi ids in get id by_id >>= λ x. with_ebi ebi x rest

unfoldable pub find_by_s11_teid_and_ebi : Store → ℕ → ℕ → Option (Option Session)
find_by_s11_teid_and_ebi s teid ebi =
    first_with_ebi s.by_id ebi (reverse (sorted_ids (ids_at teid s.by_s11)))

abbrev pub collect : Option Session → List Session → List Session
collect none rest = rest
collect (some x) rest = x ∷ rest

unfoldable pub collect_ids : Map ℕ Session → IdSet → List Session
collect_ids by_id [] = []
collect_ids by_id ((id, p) ∷ ids) = collect (get id by_id) (collect_ids by_id ids)

unfoldable pub find_all_by_s11_teid : Store → ℕ → List Session
find_all_by_s11_teid s teid = collect_ids s.by_id (sorted_ids (ids_at teid s.by_s11))

abbrev pub sessions_less : ℕ × Session → ℕ × Session → Bool
sessions_less a b = ltb a.0 b.0

abbrev pub session_of : ℕ × Session → Session
session_of (id, x) = x

-- The sessions in the order of their ids.
unfoldable pub snapshot : Store → List Session
snapshot s = map session_of (sort sessions_less s.by_id)

unfoldable pub count : Store → ℕ
count s = length s.by_id

unfoldable pub capacity : Store → ℕ
capacity s = s.limit
