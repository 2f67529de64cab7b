-- ===== src/Rules/Install.antt =====
-- Installing a session in the Store of internal/sgwu/rules/store.go keeps its invariant.
use cups.Base.{
  ℕ, ◌+◌, ◌≡◌, ◌≢◌, ◌≤◌, ◌<◌, refl, sym, ap, ◌∙◌, subst₂, true, none, some, arith, IsKeyed,
  AllEntries-intro, get, put, get-put, get-put_self, get-put_ne, put-IsKeyed, length, nat_eq,
}
use mathlib.Core.Option.{some-injective}
use cups.Rules.{Pdr, Session, PacketRule, tunnel_key_eq, pdr_key_eq}
use cups.Rules.Validate.{validate}
use cups.Rules.Validated.{pdr_lem}
use cups.Rules.Compile.{compile_packet_rule}
use cups.Rules.Compiled.{compile-IsCompiled}
use cups.Rules.Store.{Store, tunnel_of, pdr_key, install}
use cups.Rules.Index.{IsFit, index_pdrs-Entries}
use cups.Rules.Invariant.{
  IsCurrent, IsFiled, IsTunnelRule, IsPdrRule, IsIndexed, IsIndexedBut, IsValid,
}

-- What a store needs for a session to be installed in it.
pub record IsReady (s : Store) (c : Session) : Type 0 where
  pub filed : (u : ℕ) (x : Session) → c.up_seid ≢ u → get u s.by_up ≡ some x → IsFiled s u x
  pub mapped : get c.cp_seid s.by_cp ≡ some c.up_seid
  pub owner : (k : ℕ) → get k s.by_cp ≡ some c.up_seid → c.cp_seid ≡ k
  pub owners :
      (k u : ℕ)
      → c.up_seid ≢ u
      → get k s.by_cp ≡ some u
      → (x : Session) × (get u s.by_up ≡ some x) × (x.cp_seid ≡ k)
  pub indexed : IsIndexedBut c.up_seid s s.index
  pub distinct : (u w g : ℕ) → get u s.generations ≡ some g → get w s.generations ≡ some g → u ≡ w
  pub bounded : (u g : ℕ) → get u s.generations ≡ some g → g < s.allocated
  pub keyed : IsKeyed s.by_up
  pub room : length (put c.up_seid c s.by_up) ≤ s.limit
  pub sound : validate c ≡ true
  pub pdrs : IsKeyed c.pdrs

kept :
    (s : Store) (c : Session) (r : PacketRule)
    → IsCurrent s.by_up s.generations r
    → c.up_seid ≢ r.up_seid
    → IsCurrent (install s c).by_up (install s c).generations r
kept s c r h ne = record {
  session = h.session;
  stored = get-put_ne c.up_seid r.up_seid c s.by_up ne ∙ h.stored;
  compiled = h.compiled;
  number = h.number;
  generation = h.generation;
  running = get-put_ne c.up_seid r.up_seid s.allocated s.generations ne ∙ h.running;
}

compiled_fits :
    (s : Store) (c : Session) (id : ℕ) (pdr : Pdr)
    → validate c ≡ true
    → get id c.pdrs ≡ some pdr
    → IsFit (IsTunnelRule (install s c)) (IsPdrRule (install s c)) c s.allocated id pdr
compiled_fits s c id pdr sound e m q =
    let r = record m { generation = some s.allocated } in
    let f = compile-IsCompiled c pdr.id m q in
    let own = (pdr_lem c id pdr sound e).0 in
    let same : m.pdr ≡ pdr =
      some-injective m.pdr pdr (sym f.pdr ∙ ap (λ i. get i c.pdrs) (sym own) ∙ e) in
    let bare : m ≡ record m { generation = none } =
      ap (λ g. record m { generation = g }) f.generation in
    let current : IsCurrent (install s c).by_up (install s c).generations r = record {
      session = c;
      stored = ap (λ u. get u (install s c).by_up) f.up_seid ∙ get-put_self c.up_seid c s.by_up;
      compiled = ap (λ (p : Pdr). compile_packet_rule c p.id) same ∙ q ∙ ap some bare;
      number = s.allocated;
      generation = refl;
      running =
          ap (λ u. get u (install s c).generations) f.up_seid
          ∙ get-put_self c.up_seid s.allocated s.generations;
    } in
    (
      (ap tunnel_of same, current),
      (ap (λ u. pdr_key u m.pdr) f.up_seid ∙ ap (pdr_key c.up_seid) same, current),
    )

pub install-IsIndexed :
    (s : Store) (c : Session) → IsReady s c → IsIndexed (install s c) (install s c).index
install-IsIndexed s c h =
    index_pdrs-Entries (IsTunnelRule (install s c)) (IsPdrRule (install s c)) c.pdrs s.index c
      s.allocated
      (record {
        tunnels = λ k r q. let (t, a, ne) = h.indexed.tunnels k r q in (t, kept s c r a ne);
        rules = λ k r q. let (t, a, ne) = h.indexed.rules k r q in (t, kept s c r a ne);
      })
      (AllEntries-intro (IsFit (IsTunnelRule (install s c)) (IsPdrRule (install s c)) c s.allocated)
        c.pdrs h.pdrs (λ id pdr e. compiled_fits s c id pdr h.sound e))

install-IsFiled :
    (s : Store) (c : Session) (u : ℕ) (x : Session)
    → IsReady s c
    → get u (install s c).by_up ≡ some x
    → IsFiled (install s c) u x
install-IsFiled s c u x h e = elim (nat_eq.decide c.up_seid u) [
  | yes same ↦
      let here : c ≡ x =
        some-injective c x
          (sym (get-put_self c.up_seid c s.by_up) ∙ ap (λ v. get v (install s c).by_up) same ∙ e) in
      subst₂ (λ v y. IsFiled (install s c) v y) same here
        (record {
          up_seid = refl;
          cp_seid = h.mapped;
          sound = h.sound;
          keyed = h.pdrs;
          number = s.allocated;
          running = get-put_self c.up_seid s.allocated s.generations;
          active = get-put_self s.allocated true s.active;
        })
  | no other ↦
      let f = h.filed u x other (sym (get-put_ne c.up_seid u c s.by_up other) ∙ e) in
      let older = h.bounded u f.number f.running in
      record {
        up_seid = f.up_seid;
        cp_seid = f.cp_seid;
        sound = f.sound;
        keyed = f.keyed;
        number = f.number;
        running = get-put_ne c.up_seid u s.allocated s.generations other ∙ f.running;
        active = get-put_ne s.allocated f.number true s.active (λ z. omega arith) ∙ f.active;
      }
]

install_owners :
    (s : Store) (c : Session) (k u : ℕ)
    → IsReady s c
    → get k s.by_cp ≡ some u
    → (x : Session) × (get u (install s c).by_up ≡ some x) × (x.cp_seid ≡ k)
install_owners s c k u h e = elim (nat_eq.decide c.up_seid u) [
  | yes same ↦ (
    c,
    ap (λ v. get v (install s c).by_up) (sym same) ∙ get-put_self c.up_seid c s.by_up,
    h.owner k (e ∙ ap some (sym same)),
  )
  | no other ↦
      let (x, q, o) = h.owners k u other e in (x, get-put_ne c.up_seid u c s.by_up other ∙ q, o)
]

install_distinct :
    (s : Store) (c : Session) (u w g : ℕ)
    → IsReady s c
    → get u (install s c).generations ≡ some g
    → get w (install s c).generations ≡ some g
    → u ≡ w
install_distinct s c u w g h e f = ground (
  arith,
  get-put c.up_seid u s.allocated s.generations,
  get-put c.up_seid w s.allocated s.generations,
  h.distinct u w g,
  h.bounded u g,
  h.bounded w g,
)

install_bounded :
    (s : Store) (c : Session) (u g : ℕ)
    → IsReady s c
    → get u (install s c).generations ≡ some g
    → g < s.allocated + 1
install_bounded s c u g h e =
    ground (arith, get-put c.up_seid u s.allocated s.generations, h.bounded u g)

pub install-IsValid : (s : Store) (c : Session) → IsReady s c → IsValid (install s c)
install-IsValid s c h = record {
  filed = λ u x e. install-IsFiled s c u x h e;
  owners = λ k u e. install_owners s c k u h e;
  indexed = install-IsIndexed s c h;
  distinct = λ u w g e f. install_distinct s c u w g h e f;
  bounded = λ u g e. install_bounded s c u g h e;
  keyed = put-IsKeyed c.up_seid c s.by_up h.keyed;
  within = h.room;
}
