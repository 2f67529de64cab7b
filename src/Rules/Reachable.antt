-- ===== src/Rules/Reachable.antt =====
-- The packet path of internal/sgwu/rules/store.go misses no PDR: every operation keeps each PDR of
-- each stored session reachable by its tunnel.
use cups.Base.{
  ℕ, ◌≡◌, ◌≢◌, refl, sym, ap, ◌∙◌, subst, true, false, some, arith, get, get-put_self, get-put_ne,
  any-get, AllEntries-get, AllEntries-intro, nat_eq, ◌!=◌, Option-cases, inl, inr,
}
use mathlib.Core.Option.{some-injective}
use cups.Rules.{Pdr, Session, PacketRule, TunnelKey, tunnel_key_eq, pdr_key_eq}
use cups.Rules.Validate.{validate}
use cups.Rules.Validated.{pdr_lem}
use cups.Rules.Compiled.{compile-IsCompiled}
use cups.Rules.Complete.{compile_total}
use cups.Rules.Store.{Store, tunnel_of, taken_by_other, conflicts, install, retire}
use cups.Rules.Index.{unindex_pdrs-Entries}
use cups.Rules.Install.{IsReady}
use cups.Rules.Covered.{IsFound, IsReachable, index_pdrs_all, index_pdrs_other, unindex_pdrs_other}

-- Each PDR of each stored session is found by its tunnel, or one of that session with the same
-- tunnel that comes no later.
abbrev pub IsCovered : Store → Type 0
IsCovered s =
    (u : ℕ) (x : Session) (id : ℕ) (pdr : Pdr)
    → get u s.by_up ≡ some x
    → get id x.pdrs ≡ some pdr
    → IsFound s.index u (tunnel_of pdr) pdr.precedence

-- The tunnels of the session are free of other sessions.
abbrev pub IsFree : Store → Session → Type 0
IsFree s c =
    (id : ℕ) (pdr : Pdr)
    → get id c.pdrs ≡ some pdr
    → taken_by_other c.up_seid (get (tunnel_of pdr) s.index.by_tunnel) ≡ false

-- The other sessions are covered.
abbrev pub IsCoveredBut : ℕ → Store → Type 0
IsCoveredBut up s =
    (u : ℕ) (x : Session) (id : ℕ) (pdr : Pdr)
    → up ≢ u
    → get u s.by_up ≡ some x
    → get id x.pdrs ≡ some pdr
    → IsFound s.index u (tunnel_of pdr) pdr.precedence

reachable_lem :
    (s : Store) (c : Session) (id : ℕ) (pdr : Pdr)
    → validate c ≡ true
    → IsFree s c
    → get id c.pdrs ≡ some pdr
    → IsReachable s.index c id pdr
reachable_lem s c id pdr sound free e =
    let (m, q) = compile_total c id pdr sound e in
    let f = compile-IsCompiled c pdr.id m q in
    let own = (pdr_lem c id pdr sound e).0 in
    (
      m,
      q,
      f.up_seid,
      some-injective m.pdr pdr (sym f.pdr ∙ ap (λ i. get i c.pdrs) (sym own) ∙ e),
      free id pdr e,
    )

-- A tunnel of another session is not one of a session whose tunnels are free.
apart_lem :
    (s : Store) (c : Session) (u id : ℕ) (q : Pdr) (k : TunnelKey) (r : PacketRule)
    → IsFree s c
    → c.up_seid ≢ u
    → get k s.index.by_tunnel ≡ some r
    → r.up_seid ≡ u
    → get id c.pdrs ≡ some q
    → tunnel_of q ≢ k
apart_lem s c u id q k r free ne e own h same =
    let held : get (tunnel_of q) s.index.by_tunnel ≡ some r =
      ap (λ x. get x s.index.by_tunnel) same ∙ e in
    let mine : (r.up_seid != c.up_seid) ≡ false =
      sym (ap (taken_by_other c.up_seid) held) ∙ free id q h in
    ground arith

pub install-IsCovered :
    (s : Store) (c : Session)
    → IsReady s c
    → IsCoveredBut c.up_seid s
    → IsFree s c
    → IsCovered (install s c)
install-IsCovered s c ready others free u x id pdr e h = elim (nat_eq.decide c.up_seid u) [
  | yes same ↦
      let here : c ≡ x =
        some-injective c x
          (sym (get-put_self c.up_seid c s.by_up) ∙ ap (λ v. get v (install s c).by_up) same ∙ e) in
      let mine : get id c.pdrs ≡ some pdr = ap (λ (y : Session). get id y.pdrs) here ∙ h in
      let reach =
        AllEntries-intro (IsReachable s.index c) c.pdrs ready.pdrs
          (λ i p q. reachable_lem s c i p ready.sound free q) in
      let all = index_pdrs_all c.pdrs s.index c s.allocated reach in
      subst (λ (v : ℕ). IsFound (install s c).index v (tunnel_of pdr) pdr.precedence) same
        (AllEntries-get (λ i p. IsFound (install s c).index c.up_seid (tunnel_of p) p.precedence) id
          pdr c.pdrs all mine)
  | no other ↦
      let (r, found, own, p) =
        others u x id pdr other (sym (get-put_ne c.up_seid u c s.by_up other) ∙ e) h in
      let k = tunnel_of pdr in
      let apart =
        AllEntries-intro (λ i q. tunnel_of q ≢ k) c.pdrs ready.pdrs
          (λ i q g. apart_lem s c u i q k r free other found own g) in
      (r, index_pdrs_other c.pdrs s.index c s.allocated k apart ∙ found, own, p)
]

pub conflicts_lem :
    (s : Store) (c : Session) (up id : ℕ) (pdr : Pdr)
    → conflicts s c up ≡ false
    → get id c.pdrs ≡ some pdr
    → taken_by_other up (get (tunnel_of pdr) s.index.by_tunnel) ≡ false
conflicts_lem s c up id pdr h e =
    any-get (λ (p : ℕ × Pdr). taken_by_other up (get (tunnel_of p.1) s.index.by_tunnel)) id pdr
      c.pdrs h e

-- Taking the rules of a session out leaves the others covered.
pub retire-IsCoveredBut :
    (s : Store) (up : ℕ) (x : Session)
    → IsCovered s
    → x.up_seid ≡ up
    → IsCoveredBut up (retire s up x)
retire-IsCoveredBut s up x cover own u y id pdr ne e h =
    let (r, found, mine, p) = cover u y id pdr e h in
    (
      r,
      unindex_pdrs_other x.pdrs s.index x.up_seid (tunnel_of pdr) r (λ z. ne (cc (z, mine, own)))
          found,
      mine,
      p,
    )

-- Tunnels that are free before stay free when a session's rules are taken out.
pub retire-IsFree :
    (s : Store) (up : ℕ) (x c : Session)
    → c.up_seid ≡ up
    → conflicts s c up ≡ false
    → IsFree (retire s up x) c
retire-IsFree s up x c own clear id pdr e =
    let k = tunnel_of pdr in
    let before = conflicts_lem s c up id pdr clear e in
    elim (Option-cases (get k (retire s up x).index.by_tunnel)) [
      | inl f ↦ rw f refl
      | inr (r, f) ↦
          let was = ((unindex_pdrs-Entries x.pdrs s.index x.up_seid).tunnels k r f).0 in
          let same : (r.up_seid != up) ≡ false = sym (ap (taken_by_other up) was) ∙ before in
          ap (taken_by_other c.up_seid) f ∙ ap (λ v. r.up_seid != v) own ∙ same
    ]
