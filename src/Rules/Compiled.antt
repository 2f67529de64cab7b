-- ===== src/Rules/Compiled.antt =====
-- What compilePacketRule of internal/sgwu/rules/store.go puts into a rule.
use cups.Base.{
  ℕ, ◌≡◌, refl, sym, ap, ◌∙◌, subst, none, some, List, [], ◌∷◌, ◌++◌, get, Bool-cases, Option-cases,
  inl, inr, ◌==◌, nat_eq,
}
use mathlib.Core.Option.{some-injective}
use cups.Rules.{Pdr, Session, PacketRule}
use cups.Rules.Compile.{add_qers, add_urrs, add_bar, bare, chosen, compile_packet_rule}

-- Two rules that differ in QERs, URRs and the BAR at most.
pub record IsSameMatch (a b : PacketRule) : Type 0 where
  pub up_seid : a.up_seid ≡ b.up_seid
  pub revision : a.revision ≡ b.revision
  pub pdr : a.pdr ≡ b.pdr
  pub far : a.far ≡ b.far
  pub generation : a.generation ≡ b.generation

same_refl : (a : PacketRule) → IsSameMatch a a
same_refl a = record { up_seid = refl; revision = refl; pdr = refl; far = refl; generation = refl }

same_trans : (a b c : PacketRule) → IsSameMatch a b → IsSameMatch b c → IsSameMatch a c
same_trans a b c x y = record {
  up_seid = x.up_seid ∙ y.up_seid;
  revision = x.revision ∙ y.revision;
  pdr = x.pdr ∙ y.pdr;
  far = x.far ∙ y.far;
  generation = x.generation ∙ y.generation;
}

pub add_qers-IsSameMatch :
    (c : Session) (ids : List ℕ) (r q : PacketRule) → add_qers c ids r ≡ some q → IsSameMatch q r
unfolding add_qers
add_qers-IsSameMatch c [] r q e =
    subst (λ (x : PacketRule). IsSameMatch x r) (some-injective r q e) (same_refl r)
add_qers-IsSameMatch c (id ∷ ids) r q e = elim (Option-cases (get id c.qers)) [
  | inl f ↦ absurd (cc (rw f at e))
  | inr (qer, f) ↦
      let h =
        add_qers-IsSameMatch c ids (record r { qers = r.qers ++ qer ∷ []; qer = chosen r.qer qer })
          q (rw f at e) in
      record {
        up_seid = h.up_seid;
        revision = h.revision;
        pdr = h.pdr;
        far = h.far;
        generation = h.generation;
      }
]

pub add_urrs-IsSameMatch :
    (c : Session) (ids : List ℕ) (r q : PacketRule) → add_urrs c ids r ≡ some q → IsSameMatch q r
unfolding add_urrs
add_urrs-IsSameMatch c [] r q e =
    subst (λ (x : PacketRule). IsSameMatch x r) (some-injective r q e) (same_refl r)
add_urrs-IsSameMatch c (id ∷ ids) r q e = elim (Option-cases (get id c.urrs)) [
  | inl f ↦ absurd (cc (rw f at e))
  | inr (urr, f) ↦
      let h = add_urrs-IsSameMatch c ids (record r { urrs = r.urrs ++ urr ∷ [] }) q (rw f at e) in
      record {
        up_seid = h.up_seid;
        revision = h.revision;
        pdr = h.pdr;
        far = h.far;
        generation = h.generation;
      }
]

add_bar-IsSameMatch : (c : Session) (r q : PacketRule) → add_bar c r ≡ some q → IsSameMatch q r
unfolding add_bar
add_bar-IsSameMatch c r q e = elim (Bool-cases (r.far.bar_id == 0)) [
  | inl z ↦
      let same = some-injective r q (rw z at e) in
      subst (λ (x : PacketRule). IsSameMatch x r) same (same_refl r)
  | inr z ↦ elim (Option-cases (get r.far.bar_id c.bars)) [
    | inl f ↦ absurd (cc (rw (z, f) at e))
    | inr (bar, f) ↦
        let same = some-injective (record r { bar = bar }) q (rw (z, f) at e) in
        subst (λ (x : PacketRule). IsSameMatch x r) same
          (record { up_seid = refl; revision = refl; pdr = refl; far = refl; generation = refl })
  ]
]

-- A rule compiled for a PDR of a session carries the session's identity and revision, that PDR,
-- the FAR it refers to, and no generation yet.
pub record IsCompiled (c : Session) (id : ℕ) (r : PacketRule) : Type 0 where
  pub up_seid : r.up_seid ≡ c.up_seid
  pub revision : r.revision ≡ c.revision
  pub pdr : get id c.pdrs ≡ some r.pdr
  pub far : get r.pdr.far_id c.fars ≡ some r.far
  pub generation : r.generation ≡ none

pub compile-IsCompiled :
    (c : Session) (id : ℕ) (r : PacketRule) → compile_packet_rule c id ≡ some r → IsCompiled c id r
unfolding compile_packet_rule
compile-IsCompiled c id r e = elim (Option-cases (get id c.pdrs)) [
  | inl f ↦ absurd (cc (rw f at e))
  | inr (pdr, f) ↦ elim (Option-cases (get pdr.far_id c.fars)) [
    | inl g ↦ absurd (cc (rw (f, g) at e))
    | inr (far, g) ↦
        let base = bare c pdr far in
        elim (Option-cases (add_qers c pdr.qer_ids base)) [
          | inl h ↦ absurd (cc (rw (f, g, h) at e))
          | inr (a, h) ↦ elim (Option-cases (add_urrs c pdr.urr_ids a)) [
            | inl i ↦ absurd (cc (rw (f, g, h, i) at e))
            | inr (b, i) ↦
                let y =
                  same_trans b a base (add_urrs-IsSameMatch c pdr.urr_ids a b i)
                    (add_qers-IsSameMatch c pdr.qer_ids base a h) in
                let z = same_trans r b base (add_bar-IsSameMatch c b r (rw (f, g, h, i) at e)) y in
                record {
                  up_seid = z.up_seid;
                  revision = z.revision;
                  pdr = f ∙ ap some (sym z.pdr);
                  far = ap (λ (p : Pdr). get p.far_id c.fars) z.pdr ∙ g ∙ ap some (sym z.far);
                  generation = z.generation;
                }
          ]
        ]
  ]
]
