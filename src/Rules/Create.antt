-- ===== src/Rules/Create.antt =====
-- Create of internal/sgwu/rules/store.go keeps the store's invariant.
use cups.Base.{
  ℕ, ◌+◌, ◌%◌, ◌^◌, ◌≡◌, ◌<◌, sym, ap, ◌∙◌, true, none, arith, leb, IsKeyed, get, put, get-put,
  get-put_self, get-put_ne, length, length-put_new, nat_eq, Option-cases, Bool-cases, inl, inr,
}
use cups.Rules.{Session, tunnel_key_eq, pdr_key_eq}
use cups.Rules.Validate.{validate}
use cups.Rules.Validated.{validate-revision}
use cups.Rules.Store.{Store, conflicts, new_store_with_limit}
use cups.Rules.Operations.{create}
use cups.Rules.Invariant.{IsIndexedBut, IsValid}
use cups.Rules.Install.{IsReady, install-IsValid}

-- A free UP-SEID has no rule in the indexes.
free-IsIndexedBut :
    (s : Store) (up : ℕ) → IsValid s → get up s.by_up ≡ none → IsIndexedBut up s s.index
free-IsIndexedBut s up v free = record {
  tunnels = λ k r q.
      let (t, c) = v.indexed.tunnels k r q in
      (t, c, λ same. cc (ap (λ u. get u s.by_up) same, free, c.stored));
  rules = λ k r q.
      let (t, c) = v.indexed.rules k r q in
      (t, c, λ same. cc (ap (λ u. get u s.by_up) same, free, c.stored));
}

abbrev pub mapped : Store → Session → Store
mapped s c = record s {
  by_cp = put c.cp_seid c.up_seid s.by_cp;
  installed = (s.installed + 1) % 2 ^ 64;
}

pub mapped-IsReady :
    (s : Store) (c : Session)
    → IsValid s
    → get c.up_seid s.by_up ≡ none
    → get c.cp_seid s.by_cp ≡ none
    → length s.by_up < s.limit
    → validate c ≡ true
    → IsKeyed c.pdrs
    → IsReady (mapped s c) c
mapped-IsReady s c v new_up new_cp room sound keyed = record {
  filed = λ u x ne e.
      let f = v.filed u x e in
      record {
        up_seid = f.up_seid;
        cp_seid =
            get-put_ne c.cp_seid x.cp_seid c.up_seid s.by_cp
              (λ z. cc (ap (λ k. get k s.by_cp) z, new_cp, f.cp_seid))
            ∙ f.cp_seid;
        sound = f.sound;
        keyed = f.keyed;
        number = f.number;
        running = f.running;
        active = f.active;
      };
  mapped = get-put_self c.cp_seid c.up_seid s.by_cp;
  owner = λ k e. elim (nat_eq.decide c.cp_seid k) [
    | yes same ↦ same
    | no other ↦
        let (x, q, o) =
          v.owners k c.up_seid (sym (get-put_ne c.cp_seid k c.up_seid s.by_cp other) ∙ e) in
        absurd (cc (q, new_up))
  ];
  owners = λ k u ne e. v.owners k u (ground (arith, get-put c.cp_seid k c.up_seid s.by_cp));
  indexed =
      let h = free-IsIndexedBut s c.up_seid v new_up in
      record { tunnels = h.tunnels; rules = h.rules };
  distinct = v.distinct;
  bounded = v.bounded;
  keyed = v.keyed;
  room = omega (arith, length-put_new c.up_seid c s.by_up new_up);
  sound = sound;
  pdrs = keyed;
}

-- Every Create, whatever its outcome, keeps the store valid.
pub create-IsValid : (s : Store) (c : Session) → IsValid s → IsKeyed c.pdrs → IsValid (create s c).0
unfolding create
create-IsValid s c v keyed = elim (Bool-cases (validate c)) [
  | inr bad ↦ rw bad v
  | inl sound ↦ elim (Option-cases (get c.up_seid s.by_up)) [
    | inr (x, bad) ↦ rw (sound, bad) v
    | inl up ↦ elim (Option-cases (get c.cp_seid s.by_cp)) [
      | inr (x, bad) ↦ rw (sound, up, bad) v
      | inl cp ↦ elim (Bool-cases (conflicts s c 0)) [
        | inl bad ↦ rw (sound, up, cp, bad) v
        | inr clear ↦ elim (Bool-cases (leb s.limit (length s.by_up))) [
          | inl bad ↦ rw (sound, up, cp, clear, bad) v
          | inr room ↦
              let first = record c { revision = 1 } in
              let ready =
                mapped-IsReady s first v up cp (ground arith) (validate-revision c 1 ∙ sound)
                  keyed in
              rw (sound, up, cp, clear, room) (install-IsValid (mapped s first) first ready)
        ]
      ]
    ]
  ]
]

-- The store that NewStoreWithLimit makes is valid.
pub new_store-IsValid : (n : ℕ) → IsValid (new_store_with_limit n)
unfolding new_store_with_limit get
new_store-IsValid n = record {
  filed = λ u x e. absurd cc;
  owners = λ k u e. absurd cc;
  indexed = record { tunnels = λ k r e. absurd cc; rules = λ k r e. absurd cc };
  distinct = λ u w g e f. absurd cc;
  bounded = λ u g e. absurd cc;
  keyed = tt;
  within = omega arith;
}
