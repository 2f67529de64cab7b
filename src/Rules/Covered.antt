-- ===== src/Rules/Covered.antt =====
-- Every PDR of a stored session of internal/sgwu/rules/store.go is found by its tunnel, unless a
-- PDR of the same session on that tunnel comes before it.
use cups.Base.{
  ℕ, ◌≡◌, ◌≢◌, ◌≤◌, refl, sym, ap, ◌∙◌, subst, true, false, Option, none, some, List, [], ◌∷◌,
  arith, ltb, get, put, get-put_self, get-put_ne, get-del_ne, Map, AllEntries, if_both, nat_eq,
  ◌==◌, ◌!=◌, Bool-cases, Option-cases, inl, inr,
}
use cups.Rules.{Pdr, Session, PacketRule, TunnelKey, tunnel_key_eq, pdr_key_eq}
use cups.Rules.Compile.{compile_packet_rule}
use cups.Rules.Store.{
  Index, tunnel_of, yields, owned_by, taken_by_other, index_pdr, index_pdrs, unindex_pdr,
  unindex_pdrs,
}

-- The entry at a tunnel is a rule of the session at `up` whose PDR comes no later.
abbrev pub IsFound : Index → ℕ → TunnelKey → ℕ → Type 0
IsFound i up k precedence =
    (r : PacketRule) × (get k i.by_tunnel ≡ some r)
    × (r.up_seid ≡ up)
    × (r.pdr.precedence ≤ precedence)

-- Indexing a PDR of the session keeps what is found of it.
index_pdr-IsFound :
    (i : Index) (up g : ℕ) (pdr : Pdr) (m : PacketRule) (k : TunnelKey) (n : ℕ)
    → m.up_seid ≡ up
    → m.pdr ≡ pdr
    → IsFound i up k n
    → IsFound (index_pdr i up g pdr (some m)) up k n
index_pdr-IsFound i up g pdr m k n own same (r, e, u, p) =
    let key = tunnel_of pdr in
    let new = record m { generation = some g } in
    elim (Bool-cases (yields pdr (get key i.by_tunnel))) [
      | inr stays ↦ rw stays (r, e, u, p)
      | inl goes ↦ elim (tunnel_key_eq.decide key k) [
        | no other ↦ rw goes (r, get-put_ne key k new i.by_tunnel other ∙ e, u, p)
        | yes at_key ↦
            let held : get key i.by_tunnel ≡ some r = ap (λ x. get x i.by_tunnel) at_key ∙ e in
            let before : ltb pdr.precedence r.pdr.precedence ≡ true =
              sym (ap (yields pdr) held) ∙ goes in
            let rank : m.pdr.precedence ≡ pdr.precedence = ap (λ (x : Pdr). x.precedence) same in
            rw goes (
              new,
              ap (λ x. get x (put key new i.by_tunnel)) (sym at_key)
                  ∙ get-put_self key new i.by_tunnel,
              own,
              ground arith,
            )
      ]
    ]

index_pdr_lem :
    (i : Index) (up g : ℕ) (pdr : Pdr) (m : PacketRule)
    → m.up_seid ≡ up
    → m.pdr ≡ pdr
    → taken_by_other up (get (tunnel_of pdr) i.by_tunnel) ≡ false
    → IsFound (index_pdr i up g pdr (some m)) up (tunnel_of pdr) pdr.precedence
index_pdr_lem i up g pdr m own same free =
    let key = tunnel_of pdr in
    let new = record m { generation = some g } in
    let rank : m.pdr.precedence ≡ pdr.precedence = ap (λ (x : Pdr). x.precedence) same in
    elim (Bool-cases (yields pdr (get key i.by_tunnel))) [
      | inl goes ↦ rw goes (new, get-put_self key new i.by_tunnel, own, omega arith)
      | inr stays ↦ elim (Option-cases (get key i.by_tunnel)) [
        | inl none_there ↦ absurd (cc (rw none_there at stays))
        | inr (r, e) ↦
            let mine : (r.up_seid != up) ≡ false = rw e at free in
            let later : ltb pdr.precedence r.pdr.precedence ≡ false = rw e at stays in
            rw stays (r, e, ground arith, ground arith)
      ]
    ]

-- A tunnel that is free for the session stays so.
index_pdr_free :
    (i : Index) (up g : ℕ) (pdr : Pdr) (m : PacketRule) (k : TunnelKey)
    → m.up_seid ≡ up
    → taken_by_other up (get k i.by_tunnel) ≡ false
    → taken_by_other up (get k (index_pdr i up g pdr (some m)).by_tunnel) ≡ false
index_pdr_free i up g pdr m k own free =
    let key = tunnel_of pdr in
    let new = record m { generation = some g } in
    elim (Bool-cases (yields pdr (get key i.by_tunnel))) [
      | inr stays ↦ rw stays free
      | inl goes ↦ elim (tunnel_key_eq.decide key k) [
        | no other ↦
            rw goes (ap (taken_by_other up) (get-put_ne key k new i.by_tunnel other) ∙ free)
        | yes at_key ↦
            let mine : (m.up_seid != up) ≡ false = ground arith in
            rw goes (
              ap (taken_by_other up) (
                ap (λ x. get x (put key new i.by_tunnel)) (sym at_key)
                ∙ get-put_self key new i.by_tunnel)
              ∙ mine)
      ]
    ]

-- What a PDR of a list needs: it compiles to a rule of its own, on a tunnel that no other session
-- has.
abbrev pub IsReachable : Index → Session → ℕ → Pdr → Type 0
IsReachable i c id pdr =
    (m : PacketRule) × (compile_packet_rule c pdr.id ≡ some m)
    × (m.up_seid ≡ c.up_seid)
    × (m.pdr ≡ pdr)
    × (taken_by_other c.up_seid (get (tunnel_of pdr) i.by_tunnel) ≡ false)

step-IsReachable :
    (es : List (ℕ × Pdr)) (i : Index) (c : Session) (g : ℕ) (pdr : Pdr) (m : PacketRule)
    → m.up_seid ≡ c.up_seid
    → AllEntries (IsReachable i c) es
    → AllEntries (IsReachable (index_pdr i c.up_seid g pdr (some m)) c) es
step-IsReachable [] i c g pdr m own h = tt
step-IsReachable ((id, p) ∷ rest) i c g pdr m own ((n, e, u, s, f), h) = (
  (n, e, u, s, index_pdr_free i c.up_seid g pdr m (tunnel_of p) own f),
  step-IsReachable rest i c g pdr m own h,
)

index_pdrs-IsFound :
    (es : List (ℕ × Pdr)) (i : Index) (c : Session) (g : ℕ) (k : TunnelKey) (n : ℕ)
    → AllEntries (IsReachable i c) es
    → IsFound i c.up_seid k n
    → IsFound (index_pdrs es i c g) c.up_seid k n
unfolding index_pdrs
index_pdrs-IsFound [] i c g k n h f = f
index_pdrs-IsFound ((id, pdr) ∷ rest) i c g k n ((m, e, u, s, free), h) f =
    subst
      (λ (o : Option PacketRule).
        IsFound (index_pdrs rest (index_pdr i c.up_seid g pdr o) c g) c.up_seid k n)
      (sym e)
      (index_pdrs-IsFound rest (index_pdr i c.up_seid g pdr (some m)) c g k n
        (step-IsReachable rest i c g pdr m u h) (index_pdr-IsFound i c.up_seid g pdr m k n u s f))

-- After indexing, every PDR of the list is found.
pub index_pdrs_all :
    (es : List (ℕ × Pdr)) (i : Index) (c : Session) (g : ℕ)
    → AllEntries (IsReachable i c) es
    → AllEntries
        (λ id pdr. IsFound (index_pdrs es i c g) c.up_seid (tunnel_of pdr) pdr.precedence)
        es
unfolding index_pdrs
index_pdrs_all [] i c g h = tt
index_pdrs_all ((id, pdr) ∷ rest) i c g ((m, e, u, s, free), h) =
    let next = index_pdr i c.up_seid g pdr (some m) in
    let later = step-IsReachable rest i c g pdr m u h in
    subst
      (λ (o : Option PacketRule).
        IsFound (index_pdrs rest (index_pdr i c.up_seid g pdr o) c g) c.up_seid (tunnel_of pdr)
          pdr.precedence
        × AllEntries
            (λ id p.
              IsFound (index_pdrs rest (index_pdr i c.up_seid g pdr o) c g) c.up_seid (tunnel_of p)
                p.precedence)
            rest)
      (sym e)
      (
        index_pdrs-IsFound rest next c g (tunnel_of pdr) pdr.precedence later
            (index_pdr_lem i c.up_seid g pdr m u s free),
        index_pdrs_all rest next c g later,
      )

index_pdr_other :
    (i : Index) (up g : ℕ) (pdr : Pdr) (o : Option PacketRule) (k : TunnelKey)
    → tunnel_of pdr ≢ k
    → get k (index_pdr i up g pdr o).by_tunnel ≡ get k i.by_tunnel
index_pdr_other i up g pdr none k h = refl
index_pdr_other i up g pdr (some m) k h =
    let new = record m { generation = some g } in
    if_both (λ (x : Map TunnelKey PacketRule). get k x ≡ get k i.by_tunnel)
      (yields pdr (get (tunnel_of pdr) i.by_tunnel))
      (get-put_ne (tunnel_of pdr) k new i.by_tunnel h) refl

-- A tunnel that no PDR of the list has keeps its entry.
pub index_pdrs_other :
    (es : List (ℕ × Pdr)) (i : Index) (c : Session) (g : ℕ) (k : TunnelKey)
    → AllEntries (λ id pdr. tunnel_of pdr ≢ k) es
    → get k (index_pdrs es i c g).by_tunnel ≡ get k i.by_tunnel
unfolding index_pdrs
index_pdrs_other [] i c g k h = refl
index_pdrs_other ((id, pdr) ∷ rest) i c g k h =
    index_pdrs_other rest (index_pdr i c.up_seid g pdr (compile_packet_rule c pdr.id)) c g k h.1
    ∙ index_pdr_other i c.up_seid g pdr (compile_packet_rule c pdr.id) k h.0

unindex_pdr_other :
    (i : Index) (up : ℕ) (pdr : Pdr) (k : TunnelKey) (r : PacketRule)
    → r.up_seid ≢ up
    → get k i.by_tunnel ≡ some r
    → get k (unindex_pdr i up pdr).by_tunnel ≡ some r
unindex_pdr_other i up pdr k r h e =
    elim (Bool-cases (owned_by up (get (tunnel_of pdr) i.by_tunnel))) [
      | inr kept ↦ rw kept e
      | inl owned ↦ elim (tunnel_key_eq.decide (tunnel_of pdr) k) [
        | no other ↦ rw owned (get-del_ne (tunnel_of pdr) k i.by_tunnel other ∙ e)
        | yes at_key ↦
            let held : get (tunnel_of pdr) i.by_tunnel ≡ some r =
              ap (λ x. get x i.by_tunnel) at_key ∙ e in
            let mine : (r.up_seid == up) ≡ true = sym (ap (owned_by up) held) ∙ owned in
            absurd (ground arith)
      ]
    ]

-- Unindexing keeps the entries of other sessions.
pub unindex_pdrs_other :
    (es : List (ℕ × Pdr)) (i : Index) (up : ℕ) (k : TunnelKey) (r : PacketRule)
    → r.up_seid ≢ up
    → get k i.by_tunnel ≡ some r
    → get k (unindex_pdrs es i up).by_tunnel ≡ some r
unfolding unindex_pdrs
unindex_pdrs_other [] i up k r h e = e
unindex_pdrs_other ((id, pdr) ∷ rest) i up k r h e =
    unindex_pdrs_other rest (unindex_pdr i up pdr) up k r h (unindex_pdr_other i up pdr k r h e)
