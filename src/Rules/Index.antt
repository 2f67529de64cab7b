-- ===== src/Rules/Index.antt =====
-- What the indexes of internal/sgwu/rules/store.go hold after a session enters or leaves them.
use cups.Base.{
  ℕ, ◌≡◌, ◌≢◌, sym, ap, true, false, some, List, [], ◌∷◌, arith, get, nat_eq, Map, put-readable,
  del-readable, if_both, ◌∙◌, AllEntries, Bool-cases, Option-cases, inl, inr, ◌==◌,
}
use cups.Rules.{Pdr, Session, PacketRule, TunnelKey, PdrKey, tunnel_key_eq, pdr_key_eq}
use cups.Rules.Compile.{compile_packet_rule}
use cups.Rules.Store.{
  Index, tunnel_of, pdr_key, yields, owned_by, index_pdr, index_pdrs, unindex_pdr, unindex_pdrs,
}

-- Every entry of the indexes has a property.
pub record Entries (T : TunnelKey → PacketRule → Type 0) (D : PdrKey → PacketRule → Type 0)
    (i : Index) : Type 0 where
  pub tunnels : (k : TunnelKey) (r : PacketRule) → get k i.by_tunnel ≡ some r → T k r
  pub rules : (k : PdrKey) (r : PacketRule) → get k i.by_pdr ≡ some r → D k r

module _ (T : TunnelKey → PacketRule → Type 0) (D : PdrKey → PacketRule → Type 0) where
  -- The rules that a list of PDRs gives have the property at their keys.
  abbrev pub IsFit : Session → ℕ → ℕ → Pdr → Type 0
  IsFit c g id pdr =
      (m : PacketRule)
      → compile_packet_rule c pdr.id ≡ some m
      → T (tunnel_of pdr) (record m { generation = some g })
        × D (pdr_key c.up_seid pdr) (record m { generation = some g })

  index_pdr-Entries :
      (i : Index) (c : Session) (g id : ℕ) (pdr : Pdr)
      → Entries T D i
      → IsFit c g id pdr
      → Entries T D (index_pdr i c.up_seid g pdr (compile_packet_rule c pdr.id))
  index_pdr-Entries i c g id pdr h fit = elim (Option-cases (compile_packet_rule c pdr.id)) [
    | inl e ↦ rw e h
    | inr (m, e) ↦ rw e (record {
      tunnels =
          if_both
            (λ (x : Map TunnelKey PacketRule).
              (k : TunnelKey) (r : PacketRule) → get k x ≡ some r → T k r)
            (yields pdr (get (tunnel_of pdr) i.by_tunnel))
            (put-readable T (tunnel_of pdr) (record m { generation = some g }) i.by_tunnel h.tunnels
              (fit m e).0)
            h.tunnels;
      rules =
          put-readable D (pdr_key c.up_seid pdr) (record m { generation = some g }) i.by_pdr h.rules
            (fit m e).1;
    })
  ]

  pub index_pdrs-Entries :
      (es : List (ℕ × Pdr)) (i : Index) (c : Session) (g : ℕ)
      → Entries T D i
      → AllEntries (IsFit c g) es
      → Entries T D (index_pdrs es i c g)
  unfolding index_pdrs
  index_pdrs-Entries [] i c g h fit = h
  index_pdrs-Entries ((id, pdr) ∷ rest) i c g h fit =
      index_pdrs-Entries rest _ c g (index_pdr-Entries i c g id pdr h fit.0) fit.1

not_owned :
    (i : Index) (up : ℕ) (pdr : Pdr) (k : TunnelKey) (r : PacketRule)
    → get k i.by_tunnel ≡ some r
    → owned_by up (get (tunnel_of pdr) i.by_tunnel) ≡ false
    → r.up_seid ≡ up
    → tunnel_of pdr ≢ k
not_owned i up pdr k r q e same at_key =
    let found = ap (λ x. get x i.by_tunnel) at_key ∙ q in
    let owned : (r.up_seid == up) ≡ true = ground arith in
    cc (sym (ap (owned_by up) found) ∙ e, owned)

untunnel :
    (i : Index) (up : ℕ) (pdr : Pdr) (k : TunnelKey) (r : PacketRule)
    → get k (unindex_pdr i up pdr).by_tunnel ≡ some r
    → (get k i.by_tunnel ≡ some r) × (r.up_seid ≡ up → tunnel_of pdr ≢ k)
untunnel i up pdr k r q = elim (Bool-cases (owned_by up (get (tunnel_of pdr) i.by_tunnel))) [
  | inl e ↦ let (x, y) = del-readable (tunnel_of pdr) k r i.by_tunnel (rw e at q) in (x, λ same. y)
  | inr e ↦ (rw e at q, λ same at_key. not_owned i up pdr k r (rw e at q) e same at_key)
]

-- What unindexing leaves was there before, and is of no PDR that left.
pub unindex_pdrs-Entries :
    (es : List (ℕ × Pdr)) (i : Index) (up : ℕ)
    → Entries
        (λ k r.
          (get k i.by_tunnel ≡ some r)
          × (r.up_seid ≡ up → AllEntries (λ id pdr. tunnel_of pdr ≢ k) es))
        (λ k r. (get k i.by_pdr ≡ some r) × AllEntries (λ id pdr. pdr_key up pdr ≢ k) es)
        (unindex_pdrs es i up)
unfolding unindex_pdrs
unindex_pdrs-Entries [] i up = record { tunnels = λ k r q. (q, λ e. tt); rules = λ k r q. (q, tt) }
unindex_pdrs-Entries ((id, pdr) ∷ rest) i up =
    let h = unindex_pdrs-Entries rest (unindex_pdr i up pdr) up in
    record {
      tunnels = λ k r q.
          let (a, b) = h.tunnels k r q in
          let (x, y) = untunnel i up pdr k r a in (x, λ e. (y e, b e));
      rules = λ k r q.
          let (a, b) = h.rules k r q in
          let (x, y) = del-readable (pdr_key up pdr) k r i.by_pdr a in (x, (y, b));
    }
