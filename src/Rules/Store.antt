-- ===== src/Rules/Store.antt =====
-- Store of internal/sgwu/rules/store.go: its state, and how its indexes change.
use cups.Base.{
  ℕ, ◌+◌, Bool, true, false, Option, none, some, List, [], ◌∷◌, ltb, ◌==◌, ◌!=◌, if◌then◌else◌, Map,
  get, put, del, any, nat_eq,
}
use cups.Rules.{Pdr, Session, PacketRule, TunnelKey, PdrKey, tunnel_key_eq, pdr_key_eq}
use cups.Rules.Compile.{compile_packet_rule}

-- `refused` is the error of a caller's mutation.
pub data Error : Type 0 where
  not_found conflict duplicate capacity invalid_session refused : Error

pub data Result (A : Type 0) : Type 0 where
  ok : A → Result A
  err : Error → Result A

-- The two indexes of the packet path, byTunnel and byPDR.
pub record Index : Type 0 where
  pub by_tunnel : Map TunnelKey PacketRule
  pub by_pdr : Map PdrKey PacketRule

-- `generations` points each session at its current generation, `active` is the flag of every
-- generation, and `allocated` of them were made.
pub record Store : Type 0 where
  pub by_up : Map ℕ Session
  pub by_cp : Map ℕ ℕ
  pub index : Index
  pub generations : Map ℕ ℕ
  pub active : Map ℕ Bool
  pub allocated : ℕ
  pub limit : ℕ
  pub installed : ℕ
  pub removed : ℕ

abbrev pub default_max_sessions : ℕ
default_max_sessions = 1_000_000

-- NewStoreWithLimit; a negative number of sessions counts as 0.
unfoldable pub new_store_with_limit : ℕ → Store
new_store_with_limit max_sessions = record {
  by_up = [];
  by_cp = [];
  index = record { by_tunnel = []; by_pdr = [] };
  generations = [];
  active = [];
  allocated = 0;
  limit = if max_sessions == 0 then default_max_sessions else max_sessions;
  installed = 0;
  removed = 0;
}

abbrev pub tunnel_of : Pdr → TunnelKey
tunnel_of pdr = record { source = pdr.source_interface; teid = pdr.local_fteid.teid }

-- An entry of the index that belongs to another session than `up`.
abbrev pub taken_by_other : ℕ → Option PacketRule → Bool
taken_by_other up none = false
taken_by_other up (some r) = r.up_seid != up

-- checkTunnelConflicts; true is its error.
abbrev pub conflicts : Store → Session → ℕ → Bool
conflicts s c up =
    any (λ (e : ℕ × Pdr). taken_by_other up (get (tunnel_of e.1) s.index.by_tunnel)) c.pdrs

-- An entry gives way to a PDR that comes before it: one with a lower precedence value.
abbrev pub yields : Pdr → Option PacketRule → Bool
yields pdr none = true
yields pdr (some r) = ltb pdr.precedence r.pdr.precedence

abbrev pub pdr_key : ℕ → Pdr → PdrKey
pdr_key up pdr = record { up_seid = up; pdr_id = pdr.id }

abbrev pub index_pdr : Index → ℕ → ℕ → Pdr → Option PacketRule → Index
index_pdr i up generation pdr none = i
index_pdr i up generation pdr (some matched) =
    let r = record matched { generation = some generation } in
    let key = tunnel_of pdr in
    record {
      by_pdr = put (pdr_key up pdr) r i.by_pdr;
      by_tunnel = if yields pdr (get key i.by_tunnel) then put key r i.by_tunnel else i.by_tunnel;
    }

-- indexSession's loop over the PDRs.
unfoldable pub index_pdrs : List (ℕ × Pdr) → Index → Session → ℕ → Index
index_pdrs [] i c generation = i
index_pdrs ((id, pdr) ∷ rest) i c generation =
    index_pdrs rest (index_pdr i c.up_seid generation pdr (compile_packet_rule c pdr.id)) c
      generation

abbrev pub owned_by : ℕ → Option PacketRule → Bool
owned_by up none = false
owned_by up (some r) = r.up_seid == up

abbrev pub unindex_pdr : Index → ℕ → Pdr → Index
unindex_pdr i up pdr =
    let key = tunnel_of pdr in
    record {
      by_pdr = del (pdr_key up pdr) i.by_pdr;
      by_tunnel = if owned_by up (get key i.by_tunnel) then del key i.by_tunnel else i.by_tunnel;
    }

-- unindexSession's loop over the PDRs.
unfoldable pub unindex_pdrs : List (ℕ × Pdr) → Index → ℕ → Index
unindex_pdrs [] i up = i
unindex_pdrs ((id, pdr) ∷ rest) i up = unindex_pdrs rest (unindex_pdr i up pdr) up

-- The last steps of Create, Update and Reconcile: the session is stored and indexed under a new
-- generation, which is then switched on.
abbrev pub install : Store → Session → Store
install s c = record s {
  by_up = put c.up_seid c s.by_up;
  index = index_pdrs c.pdrs s.index c s.allocated;
  generations = put c.up_seid s.allocated s.generations;
  active = put s.allocated true s.active;
  allocated = s.allocated + 1;
}

-- The flags after the session's generation is switched off.
abbrev pub switched_off : Map ℕ Bool → Option ℕ → Map ℕ Bool
switched_off active none = active
switched_off active (some g) = put g false active

-- The first steps of Update, Reconcile and Delete: the generation of the session at `up` is
-- switched off and its rules leave the indexes.
abbrev pub retire : Store → ℕ → Session → Store
retire s up current = record s {
  active = switched_off s.active (get up s.generations);
  index = unindex_pdrs current.pdrs s.index current.up_seid;
}
