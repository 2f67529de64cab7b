-- ===== src/Rules/Operations.antt =====
-- The operations of Store in internal/sgwu/rules/store.go. The mutex makes Create, Update,
-- Reconcile and Delete one step each. The packet path loads one entry of an index and then one
-- flag, in a single step here.
use cups.Base.{
  ℕ, ◌+◌, ◌%◌, ◌^◌, Bool, true, false, not, ◌&&◌, ◌||◌, Option, none, some, List, leb, ◌==◌, ◌!=◌,
  if◌then◌else◌, Map, get, put, del, has, length, all, map, ite, nat_eq,
}
use cups.Rules.{
  source_access, source_core, Pdr, Far, Qer, Session, PacketRule, tunnel_key_eq, pdr_key_eq,
  Pdr-discrete, Far-discrete, Qer-discrete, Urr-discrete, Bar-discrete,
}
use cups.Rules.Validate.{validate}
use cups.Rules.Store.{
  not_found, conflict, duplicate, capacity, invalid_session, Result, ok, err, Store, conflicts,
  install, retire,
}

unfoldable pub create : Store → Session → Store × Result Session
create s candidate =
    let c = record candidate { revision = 1 } in
    let t = record s {
      by_cp = put candidate.cp_seid candidate.up_seid s.by_cp;
      installed = (s.installed + 1) % 2 ^ 64;
    } in
    if not (validate candidate)
    then (s, err invalid_session)
    else if has candidate.up_seid s.by_up || has candidate.cp_seid s.by_cp
    then (s, err duplicate)
    else if conflicts s candidate 0
    then (s, err duplicate)
    else if leb s.limit (length s.by_up)
    then (s, err capacity)
    else (install t c, ok c)

unfoldable pub find_by_up_seid : Store → ℕ → Option Session
find_by_up_seid s seid = get seid s.by_up

-- FindByCPSEID dereferences the session that byCP names: the outer `none` is its panic.
unfoldable pub find_by_cp_seid : Store → ℕ → Option (Option Session)
find_by_cp_seid s seid = elim (get seid s.by_cp) [
  | none ↦ some none
  | some up ↦ elim (get up s.by_up) [ none ↦ none | some c ↦ some (some c) ]
]

-- The session that a mutation leaves, with the revision that follows; a uint64.
abbrev pub next_revision : ℕ → ℕ
next_revision r = (r + 1) % 2 ^ 64

abbrev pub update_mutated : Store → ℕ → Session → Result Session → Store × Result Session
update_mutated s up current (err e) = (s, err e)
update_mutated s up current (ok next) =
    let c = record next { revision = next_revision next.revision } in
    if next.cp_seid != current.cp_seid || next.up_seid != current.up_seid
    then (s, err invalid_session)
    else if not (validate next)
    then (s, err invalid_session)
    else if conflicts s next up
    then (s, err duplicate)
    else (install (retire s up current) c, ok c)

abbrev pub update_found :
    Store → ℕ → ℕ → (Session → Result Session) → Option Session → Store × Result Session
update_found s up expected mutate none = (s, err not_found)
update_found s up expected mutate (some current) =
    if current.revision != expected
    then (s, err conflict)
    else update_mutated s up current (mutate current)

-- Update with a mutation that is not nil; the mutation is the caller's.
unfoldable pub update : Store → ℕ → ℕ → (Session → Result Session) → Store × Result Session
update s up expected mutate = update_found s up expected mutate (get up s.by_up)

-- reflect.DeepEqual on maps and sessions.
module _ {V : Type 0} (eq : Discrete V) where
  abbrev pub holds : Map ℕ V → ℕ × V → Bool
  holds m (k, v) = elim (get k m) [ none ↦ false | some w ↦ ite (eq v w) true false ]

  abbrev pub same_map : Map ℕ V → Map ℕ V → Bool
  same_map m n = length m == length n && all (holds n) m

unfoldable pub deep_equal : Session → Session → Bool
deep_equal a b =
    a.cp_seid == b.cp_seid
    && a.up_seid == b.up_seid
    && a.revision == b.revision
    && same_map Pdr-discrete a.pdrs b.pdrs
    && same_map Far-discrete a.fars b.fars
    && same_map Qer-discrete a.qers b.qers
    && same_map Urr-discrete a.urrs b.urrs
    && same_map Bar-discrete a.bars b.bars

abbrev pub reconcile_found : Store → ℕ → Session → Session → Store × Result Session
reconcile_found s up candidate current =
    let c = record candidate { up_seid = up } in
    let unchanged = record c { revision = current.revision } in
    let next = record c { revision = next_revision current.revision } in
    if not (validate c)
    then (s, err invalid_session)
    else if conflicts s c up
    then (s, err duplicate)
    else if deep_equal unchanged current
    then (s, ok current)
    else (install (retire s up current) next, ok next)

-- Reconcile; `none` is the panic on a UP-SEID that has no session.
unfoldable pub reconcile : Store → ℕ → Session → Option (Store × Result Session)
unfolding deep_equal
reconcile s cp candidate =
    let found : Option (Store × Result Session) = elim (get cp s.by_cp) [
      | none ↦ some (s, err not_found)
      | some up ↦ elim (get up s.by_up) [
        | none ↦ none
        | some current ↦ some (reconcile_found s up candidate current)
      ]
    ] in
    if cp == 0 || candidate.cp_seid != cp then some (s, err invalid_session) else found

abbrev pub delete_found : Store → ℕ → ℕ → Option Session → Store × Result ℕ
delete_found s up expected none = (s, err not_found)
delete_found s up expected (some current) =
    let t = record s { by_up = del up s.by_up; by_cp = del current.cp_seid s.by_cp } in
    let u = retire t up current in
    if current.revision != expected then (s, err conflict) else (
      record u { generations = del up u.generations; removed = (u.removed + 1) % 2 ^ 64 },
      ok up,
    )

-- Delete; its success carries no value, and stands here with the UP-SEID.
unfoldable pub delete : Store → ℕ → ℕ → Store × Result ℕ
delete s up expected = delete_found s up expected (get up s.by_up)

abbrev pub flag : Option Bool → Bool
flag none = false
flag (some b) = b

-- The generation's flag; a nil pointer is not active.
abbrev pub is_active : Store → Option ℕ → Bool
is_active s none = false
is_active s (some g) = flag (get g s.active)

abbrev pub if_active : Store → Option PacketRule → Option PacketRule
if_active s none = none
if_active s (some r) = if is_active s r.generation then some r else none

unfoldable pub lookup_packet : Store → ℕ → ℕ → Option PacketRule
lookup_packet s source teid =
    if_active s (get (record { source = source; teid = teid }) s.index.by_tunnel)

unfoldable pub lookup_by_pdr : Store → ℕ → ℕ → Option PacketRule
lookup_by_pdr s up pdr_id =
    if_active s (get (record { up_seid = up; pdr_id = pdr_id }) s.index.by_pdr)

unfoldable pub lookup_session : Store → ℕ → ℕ → Option (ℕ × (Pdr × Far))
unfolding lookup_packet
lookup_session s source teid = elim (lookup_packet s source teid) [
  | none ↦ none
  | some r ↦ some (r.up_seid, (r.pdr, r.far))
]

-- Active of a rule: one without a generation counts as active.
abbrev pub rule_active : Store → PacketRule → Bool
rule_active s r = elim r.generation [ none ↦ true | some g ↦ is_active s (some g) ]

abbrev gate_open : ℕ → Qer → Bool
gate_open source qer =
    not (source == source_access && not qer.uplink_gate_open)
    && not (source == source_core && not qer.downlink_gate_open)

unfoldable pub gates_open : Store → ℕ → Pdr → Bool
unfolding lookup_packet
gates_open s source pdr = elim (lookup_packet s source pdr.local_fteid.teid) [
  | none ↦ false
  | some r ↦ r.pdr.id == pdr.id && all (gate_open source) r.qers
]

unfoldable pub snapshot : Store → List Session
snapshot s = map (λ (e : ℕ × Session). e.1) s.by_up
