-- ===== src/Rules/Invariant.antt =====
-- The invariant of Store in internal/sgwu/rules/store.go, and the two changes that its
-- operations are made of: a session's rules leave the indexes, and a session is installed.
use cups.Base.{
  ℕ, ◌≡◌, ◌≢◌, ◌≤◌, ◌<◌, sym, ap, ◌∙◌, true, none, some, Map, IsKeyed, get, AllEntries-get, length,
  nat_eq,
}
use mathlib.Core.Option.{some-injective}
use cups.Rules.{Session, PacketRule, TunnelKey, PdrKey, tunnel_key_eq, pdr_key_eq}
use cups.Rules.Validate.{validate}
use cups.Rules.Compile.{compile_packet_rule}
use cups.Rules.Compiled.{compile-IsCompiled}
use cups.Rules.Store.{Index, Store, tunnel_of, pdr_key, unindex_pdrs}
use cups.Rules.Index.{Entries, unindex_pdrs-Entries}

-- A rule that is what its session, as it stands now, compiles to, under the session's generation.
pub record IsCurrent (ups : Map ℕ Session) (gens : Map ℕ ℕ) (r : PacketRule) : Type 0 where
  pub session : Session
  pub stored : get r.up_seid ups ≡ some session
  pub compiled : compile_packet_rule session r.pdr.id ≡ some (record r { generation = none })
  pub number : ℕ
  pub generation : r.generation ≡ some number
  pub running : get r.up_seid gens ≡ some number

-- A session and what the other maps say of it.
pub record IsFiled (s : Store) (u : ℕ) (x : Session) : Type 0 where
  pub up_seid : x.up_seid ≡ u
  pub cp_seid : get x.cp_seid s.by_cp ≡ some u
  pub sound : validate x ≡ true
  pub keyed : IsKeyed x.pdrs
  pub number : ℕ
  pub running : get u s.generations ≡ some number
  pub active : get number s.active ≡ some true

-- A current rule at the key of its PDR.
abbrev pub IsTunnelRule : Store → TunnelKey → PacketRule → Type 0
IsTunnelRule s k r = (tunnel_of r.pdr ≡ k) × IsCurrent s.by_up s.generations r

abbrev pub IsPdrRule : Store → PdrKey → PacketRule → Type 0
IsPdrRule s k r = (pdr_key r.up_seid r.pdr ≡ k) × IsCurrent s.by_up s.generations r

-- The indexes hold current rules only, at their keys.
abbrev pub IsIndexed : Store → Index → Type 0
IsIndexed s i = Entries (IsTunnelRule s) (IsPdrRule s) i

pub record IsValid (s : Store) : Type 0 where
  pub filed : (u : ℕ) (x : Session) → get u s.by_up ≡ some x → IsFiled s u x
  pub owners :
      (k u : ℕ)
      → get k s.by_cp ≡ some u
      → (x : Session) × (get u s.by_up ≡ some x) × (x.cp_seid ≡ k)
  pub indexed : IsIndexed s s.index
  pub distinct : (u w g : ℕ) → get u s.generations ≡ some g → get w s.generations ≡ some g → u ≡ w
  pub bounded : (u g : ℕ) → get u s.generations ≡ some g → g < s.allocated
  pub keyed : IsKeyed s.by_up
  pub within : length s.by_up ≤ s.limit

-- The indexes hold current rules only, and none of the session at `up`.
abbrev pub IsIndexedBut : ℕ → Store → Index → Type 0
IsIndexedBut up s i =
    Entries (λ k r. (tunnel_of r.pdr ≡ k) × IsCurrent s.by_up s.generations r × (up ≢ r.up_seid))
      (λ k r. (pdr_key r.up_seid r.pdr ≡ k) × IsCurrent s.by_up s.generations r × (up ≢ r.up_seid))
      i

-- A rule of the session at `up` is compiled from that session.
current_match :
    (s : Store) (up : ℕ) (x : Session) (r : PacketRule)
    → get up s.by_up ≡ some x
    → IsCurrent s.by_up s.generations r
    → up ≡ r.up_seid
    → get r.pdr.id x.pdrs ≡ some r.pdr
current_match s up x r e c same =
    let t : c.session ≡ x =
      some-injective _ x (sym c.stored ∙ ap (λ u. get u s.by_up) (sym same) ∙ e) in
    ap (λ (y : Session). get r.pdr.id y.pdrs) (sym t)
    ∙ (compile-IsCompiled c.session r.pdr.id _ c.compiled).pdr

-- Once a session's rules are out, the indexes hold current rules of other sessions only.
pub retire-IsIndexedBut :
    (s : Store) (up : ℕ) (x : Session)
    → IsValid s
    → get up s.by_up ≡ some x
    → IsIndexedBut up s (unindex_pdrs x.pdrs s.index x.up_seid)
retire-IsIndexedBut s up x v e =
    let h = unindex_pdrs-Entries x.pdrs s.index x.up_seid in
    let at_up = (v.filed up x e).up_seid in
    record {
      tunnels = λ k r q.
          let (a, b) = h.tunnels k r q in
          let (t, c) = v.indexed.tunnels k r a in
          (
            t,
            c,
            λ same.
                AllEntries-get (λ id pdr. tunnel_of pdr ≢ k) r.pdr.id r.pdr x.pdrs
                  (b (sym same ∙ sym at_up)) (current_match s up x r e c same) t,
          );
      rules = λ k r q.
          let (a, b) = h.rules k r q in
          let (t, c) = v.indexed.rules k r a in
          (
            t,
            c,
            λ same.
                AllEntries-get (λ id pdr. pdr_key x.up_seid pdr ≢ k) r.pdr.id r.pdr x.pdrs b
                  (current_match s up x r e c same) (ap (λ u. pdr_key u r.pdr) (at_up ∙ same) ∙ t),
          );
    }
