-- ===== src/Rules/Complete.antt =====
-- compilePacketRule of internal/sgwu/rules/store.go succeeds for every PDR of a session that
-- validate accepts.
use cups.Base.{
  ℕ, ◌≡◌, refl, sym, ap, ◌∙◌, true, ◌||◌, some, List, [], ◌∷◌, ◌++◌, arith, get, has, all, all-get,
  nat_eq, ◌==◌, Bool-cases, Option-cases, inl, inr,
}
use cups.Rules.{Pdr, Far, Session, PacketRule}
use cups.Rules.Validate.{far_ok, validate}
use cups.Rules.Validated.{pdr_lem}
use cups.Rules.Compile.{add_qers, add_urrs, add_bar, bare, chosen, compile_packet_rule}
use cups.Rules.Compiled.{add_qers-IsSameMatch, add_urrs-IsSameMatch}

qers_total :
    (c : Session) (ids : List ℕ) (r : PacketRule)
    → all (λ q. has q c.qers) ids ≡ true
    → (q : PacketRule) × (add_qers c ids r ≡ some q)
unfolding add_qers
qers_total c [] r h = (r, refl)
qers_total c (id ∷ ids) r h = elim (Option-cases (get id c.qers)) [
  | inl f ↦ absurd (cc (rw f at h))
  | inr (qer, f) ↦
      let (q, e) =
        qers_total c ids (record r { qers = r.qers ++ qer ∷ []; qer = chosen r.qer qer })
          (ground arith) in
      (q, rw f e)
]

urrs_total :
    (c : Session) (ids : List ℕ) (r : PacketRule)
    → all (λ u. has u c.urrs) ids ≡ true
    → (q : PacketRule) × (add_urrs c ids r ≡ some q)
unfolding add_urrs
urrs_total c [] r h = (r, refl)
urrs_total c (id ∷ ids) r h = elim (Option-cases (get id c.urrs)) [
  | inl f ↦ absurd (cc (rw f at h))
  | inr (urr, f) ↦
      let (q, e) = urrs_total c ids (record r { urrs = r.urrs ++ urr ∷ [] }) (ground arith) in
      (q, rw f e)
]

far_lem :
    (c : Session) (id : ℕ) (far : Far)
    → validate c ≡ true
    → get id c.fars ≡ some far
    → (far.bar_id == 0 || has far.bar_id c.bars) ≡ true
unfolding validate far_ok
far_lem c id far h e =
    let ok : far_ok c (id, far) ≡ true = all-get (far_ok c) id far c.fars (ground arith) e in
    ground arith

bar_total :
    (c : Session) (r : PacketRule)
    → (r.far.bar_id == 0 || has r.far.bar_id c.bars) ≡ true
    → (q : PacketRule) × (add_bar c r ≡ some q)
unfolding add_bar
bar_total c r h = elim (Bool-cases (r.far.bar_id == 0)) [
  | inl z ↦ (r, rw z refl)
  | inr z ↦ elim (Option-cases (get r.far.bar_id c.bars)) [
    | inl f ↦ absurd (cc (rw (z, f) at h))
    | inr (bar, f) ↦ (record r { bar = bar }, rw (z, f) refl)
  ]
]

-- A PDR of an accepted session compiles to a rule.
pub compile_total :
    (c : Session) (id : ℕ) (pdr : Pdr)
    → validate c ≡ true
    → get id c.pdrs ≡ some pdr
    → (m : PacketRule) × (compile_packet_rule c pdr.id ≡ some m)
unfolding compile_packet_rule
compile_total c id pdr v e =
    let (own, tunnel, far_there, qers, urrs) = pdr_lem c id pdr v e in
    let here : get pdr.id c.pdrs ≡ some pdr = ap (λ i. get i c.pdrs) (sym own) ∙ e in
    elim (Option-cases (get pdr.far_id c.fars)) [
      | inl f ↦ absurd (cc (rw f at far_there))
      | inr (far, f) ↦
          let base = bare c pdr far in
          let (a, x) = qers_total c pdr.qer_ids base qers in
          let (b, y) = urrs_total c pdr.urr_ids a urrs in
          let same : b.far ≡ far =
            (add_urrs-IsSameMatch c pdr.urr_ids a b y).far
            ∙ (add_qers-IsSameMatch c pdr.qer_ids base a x).far in
          let bar : (b.far.bar_id == 0 || has b.far.bar_id c.bars) ≡ true =
            ap (λ (g : Far). g.bar_id == 0 || has g.bar_id c.bars) same
            ∙ far_lem c pdr.far_id far v f in
          let (q, z) = bar_total c b bar in (q, rw (here, f, x, y) z)
    ]
