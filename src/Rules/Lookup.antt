-- ===== src/Rules/Lookup.antt =====
-- What the packet path and the control plane read from the Store of
-- internal/sgwu/rules/store.go.
use cups.Base.{
  ℕ, ◌≡◌, ◌≢◌, refl, sym, ap, ◌∙◌, true, Option, none, some, arith, ◌!=◌, get, get-del_self, nat_eq,
  Option-cases, Bool-cases, inl, inr,
}
use mathlib.Core.Option.{some-injective}
use cups.Rules.{Session, PacketRule, TunnelKey, tunnel_key_eq, pdr_key_eq}
use cups.Rules.Compiled.{compile-IsCompiled}
use cups.Rules.Store.{Store, ok, tunnel_of}
use cups.Rules.Operations.{
  delete, find_by_up_seid, find_by_cp_seid, lookup_packet, if_active, flag, is_active,
}
use cups.Rules.Invariant.{IsCurrent, IsValid}
use cups.Rules.Delete.{deleted, delete-IsValid}

if_active_found :
    (s : Store) (o : Option PacketRule) (r : PacketRule) → if_active s o ≡ some r → o ≡ some r
if_active_found s none r e = cc
if_active_found s (some q) r e = elim (Bool-cases (is_active s q.generation)) [
  | inl on ↦ rw on at e
  | inr off ↦ absurd (cc (rw off at e))
]

pub lookup_packet-IsCurrent :
    (s : Store) (source teid : ℕ) (r : PacketRule)
    → IsValid s
    → lookup_packet s source teid ≡ some r
    → IsCurrent s.by_up s.generations r
unfolding lookup_packet
lookup_packet-IsCurrent s source teid r v e =
    let key : TunnelKey = record { source = source; teid = teid } in
    (v.indexed.tunnels key r (if_active_found s (get key s.index.by_tunnel) r e)).1

-- A packet that arrives on a tunnel and matches does so under a session that is stored now, at
-- its present revision, by one of its present PDRs with that tunnel, and under the FAR that this
-- PDR refers to.
pub lookup_packet_current :
    (s : Store) (source teid : ℕ) (r : PacketRule)
    → IsValid s
    → lookup_packet s source teid ≡ some r
    → (c : Session) × (find_by_up_seid s r.up_seid ≡ some c)
      × (r.revision ≡ c.revision)
      × (get r.pdr.id c.pdrs ≡ some r.pdr)
      × (tunnel_of r.pdr ≡ record { source = source; teid = teid })
      × (get r.pdr.far_id c.fars ≡ some r.far)
unfolding lookup_packet find_by_up_seid
lookup_packet_current s source teid r v e =
    let key : TunnelKey = record { source = source; teid = teid } in
    let found = if_active_found s (get key s.index.by_tunnel) r e in
    let (t, c) = v.indexed.tunnels key r found in
    let k = compile-IsCompiled c.session r.pdr.id (record r { generation = none }) c.compiled in
    (c.session, c.stored, k.revision, k.pdr, t, k.far)

current_active :
    (s : Store) (r : PacketRule)
    → IsValid s
    → IsCurrent s.by_up s.generations r
    → is_active s r.generation ≡ true
current_active s r v c =
    let f = v.filed r.up_seid c.session c.stored in
    let same : f.number ≡ c.number = some-injective f.number c.number (sym f.running ∙ c.running) in
    let on : get c.number s.active ≡ some true = ap (λ g. get g s.active) (sym same) ∙ f.active in
    ap (is_active s) c.generation ∙ ap flag on

-- In a valid store every rule of the indexes is active: the packet path drops no packet because
-- of a flag, once the operation that changed the session is over.
pub lookup_packet_active :
    (s : Store) (source teid : ℕ)
    → IsValid s
    → lookup_packet s source teid ≡ get (record { source = source; teid = teid }) s.index.by_tunnel
unfolding lookup_packet
lookup_packet_active s source teid v =
    let key : TunnelKey = record { source = source; teid = teid } in
    elim (Option-cases (get key s.index.by_tunnel)) [
      | inl e ↦ rw e refl
      | inr (r, e) ↦ let on = current_active s r v (v.indexed.tunnels key r e).1 in rw (e, on) refl
    ]

-- The control plane's SEID and the user plane's name the same session, and FindByCPSEID does not
-- panic.
pub find_by_cp_seid_agrees :
    (s : Store) (up : ℕ) (c : Session)
    → IsValid s
    → find_by_up_seid s up ≡ some c
    → find_by_cp_seid s c.cp_seid ≡ some (some c)
unfolding find_by_up_seid find_by_cp_seid
find_by_cp_seid_agrees s up c v e =
    let f = v.filed up c e in rw (find_by_cp_seid, f.cp_seid, e) refl

delete_lem :
    (s : Store) (up expected : ℕ)
    → (delete s up expected).1 ≡ ok up
    → (x : Session) × (get up s.by_up ≡ some x)
      × (x.revision ≡ expected)
      × ((delete s up expected).0 ≡ deleted s up x)
unfolding delete
delete_lem s up expected e = elim (Option-cases (get up s.by_up)) [
  | inl bad ↦ absurd (cc (rw bad at e))
  | inr (x, q) ↦ elim (Bool-cases (x.revision != expected)) [
    | inl bad ↦ absurd (cc (rw (q, bad) at e))
    | inr current ↦ (x, q, ground arith, rw (q, current) refl)
  ]
]

-- After a Delete that succeeds the session is not found, and its revision was the expected one.
pub delete-find :
    (s : Store) (up expected : ℕ)
    → (delete s up expected).1 ≡ ok up
    → (find_by_up_seid (delete s up expected).0 up ≡ none)
      × ((x : Session) × (find_by_up_seid s up ≡ some x) × (x.revision ≡ expected))
unfolding find_by_up_seid
delete-find s up expected e =
    let (x, q, r, d) = delete_lem s up expected e in
    (ap (λ (t : Store). get up t.by_up) d ∙ get-del_self up s.by_up, (x, q, r))

-- After a Delete that succeeds no packet matches under the session that is gone.
pub delete_unreachable :
    (s : Store) (up expected source teid : ℕ) (r : PacketRule)
    → IsValid s
    → (delete s up expected).1 ≡ ok up
    → lookup_packet (delete s up expected).0 source teid ≡ some r
    → r.up_seid ≢ up
delete_unreachable s up expected source teid r v e found same =
    let t = (delete s up expected).0 in
    let (c, stored, _, _, _, _) =
      lookup_packet_current t source teid r (delete-IsValid s up expected v) found in
    let gone = (delete-find s up expected e).0 in cc (ap (find_by_up_seid t) same, stored, gone)
