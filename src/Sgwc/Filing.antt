-- ===== src/Sgwc/Filing.antt =====
-- internal/sgwc/session/store.go: the end of Create and of a round of Restore. A session that
-- passes the checks is filed, and the store stays valid.
use cups.Base.{
  ℕ, ◌≡◌, ◌≤◌, ◌<◌, refl, sym, ap, ◌∙◌, true, false, none, some, get, put, has, same, length,
  add-IsIndex, get-put, get-put_if, put-IsKeyed, length-put_new, arith, text_eq, nat_eq, same-true,
  inl, inr, Option-cases, is_some, put_cases, has-none, any-get, ◌<◌, put-readable, subst,
}
use cups.Sgwc.{
  Session, Bearer, BearerOwner, bearer_owner_eq, bearer_owner_key, owner_key, validate, fteid_eq,
}
use cups.Sgwc.Reads.{own_bearers-get, add_id-has}
use cups.Sgwc.Store.{
  Store, Present, ids_at, s11_taken, s11_clash, bearer_taken, own_bearers, file_session,
}
use cups.Sgwc.Invariant.{
  has_bearer-key, ==→≡, IsValid, IsFiled, has_owner, has_s5, has_pfcp, has_bearer, at_s11,
  s11_context, same_s11_owner-context,
}

-- What the checks of Create and Restore establish.
pub record IsReady (s : Store) (c : Session) : Type 0 where
  pub sound : validate c ≡ true
  pub fresh : get c.id s.by_id ≡ none
  pub positive : 0 < c.id
  pub owner : has (owner_key c.subscriber_key c.apn) s.by_owner ≡ false
  pub bearers : bearer_taken s c ≡ false
  pub s11 : s11_taken s.by_id (ids_at c.s11_control.teid s.by_s11) c ≡ false
  pub s5 : has c.s5_control.teid s.by_s5 ≡ false
  pub pfcp : has c.pfcp_control_seid s.by_pfcp ≡ false
  pub room : length s.by_id < s.limit

bearers_free :
    (s : Store) (c : Session) (k : BearerOwner)
    → IsReady s c
    → has_bearer c k ≡ true
    → get k s.by_bearer ≡ none
bearers_free s c k r h =
    let (b, e, key) = has_bearer-key c k h in
    subst (λ z. get z s.by_bearer ≡ none) key
      (has-none (bearer_owner_key c.subscriber_key k.ebi) s.by_bearer (
        any-get (λ (b : ℕ × Bearer). has (bearer_owner_key c.subscriber_key b.0) s.by_bearer) k.ebi
          b c.bearers r.bearers e))

-- A session on the S11 TEID shares the context of the one that is filed.
siblings :
    (s : Store) (c : Session) (j : ℕ) (y : Session)
    → IsValid s
    → IsReady s c
    → get j s.by_id ≡ some y
    → y.s11_control.teid ≡ c.s11_control.teid
    → s11_context y ≡ s11_context c
siblings s c j y v r q same =
    let member : has j (ids_at c.s11_control.teid s.by_s11) ≡ true =
      v.s11 c.s11_control.teid j ∙ ap (at_s11 c.s11_control.teid) q ∙ ground arith in
    elim (Option-cases (get j (ids_at c.s11_control.teid s.by_s11))) [
      | inl e ↦ absurd (cc (ap is_some e, member))
      | inr (b, e) ↦
          let clear =
            any-get (λ (e : ℕ × Present). s11_clash c (get e.0 s.by_id)) j b
              (ids_at c.s11_control.teid s.by_s11) r.s11 e in
          let known : s11_clash c (some y) ≡ false = ap (s11_clash c) (sym q) ∙ clear in
          same_s11_owner-context y c (ground arith)
    ]

file-shared :
    (s : Store) (c : Session) (i j : ℕ) (x y : Session)
    → IsValid s
    → IsReady s c
    → get i (put c.id c s.by_id) ≡ some x
    → get j (put c.id c s.by_id) ≡ some y
    → x.s11_control.teid ≡ y.s11_control.teid
    → s11_context x ≡ s11_context y
file-shared s c i j x y v r p q e =
    let local : (k : ℕ) (z : Session)
        → get k s.by_id ≡ some z
        → z.s11_control.teid ≡ c.s11_control.teid
        → s11_context z ≡ s11_context c =
      λ k z. siblings s c k z v r in
    elim (put_cases c.id i c x s.by_id p) [
      | inl (a, b) ↦ elim (put_cases c.id j c y s.by_id q) [
        | inl (f, g) ↦ ap s11_context (sym b ∙ g)
        | inr f ↦
            ap s11_context (sym b)
            ∙ sym (local j y f (sym e ∙ ap (λ (z : Session). z.s11_control.teid) (sym b)))
      ]
      | inr a ↦ elim (put_cases c.id j c y s.by_id q) [
        | inl (f, g) ↦
            local i x a (e ∙ ap (λ (z : Session). z.s11_control.teid) (sym g)) ∙ ap s11_context g
        | inr f ↦ v.shared i j x y a f e
      ]
    ]

pub file-IsValid :
    (s : Store) (c : Session) (n : ℕ)
    → IsValid s
    → IsReady s c
    → s.next_id ≤ n
    → c.id ≤ n
    → IsValid (record (file_session s c) { next_id = n })
file-IsValid s c n v r h g = record {
  keyed = put-IsKeyed c.id c s.by_id v.keyed;
  filed = λ i x q.
      put-readable (λ i x. IsFiled n i x) c.id c s.by_id
        (λ i x q.
          let f = v.filed i x q in
          record {
            number = f.number;
            sound = f.sound;
            positive = f.positive;
            bounded = omega (arith, f.bounded);
          })
        (record { number = refl; sound = r.sound; positive = r.positive; bounded = g }) i x q;
  s5 =
      add-IsIndex has_s5 s.by_id s.by_s5 (put c.s5_control.teid c.id s.by_s5) c.id c v.s5 r.fresh
        (λ k. ground (arith, get-put c.s5_control.teid k c.id s.by_s5))
        (λ k t.
          has-none k s.by_s5 (ap (λ z. has z s.by_s5) (sym (==→≡ c.s5_control.teid k t)) ∙ r.s5));
  pfcp =
      add-IsIndex has_pfcp s.by_id s.by_pfcp (put c.pfcp_control_seid c.id s.by_pfcp) c.id c v.pfcp
        r.fresh (λ k. ground (arith, get-put c.pfcp_control_seid k c.id s.by_pfcp))
        (λ k t.
          has-none k s.by_pfcp
            (ap (λ z. has z s.by_pfcp) (sym (==→≡ c.pfcp_control_seid k t)) ∙ r.pfcp));
  owner =
      add-IsIndex has_owner s.by_id s.by_owner
        (put (owner_key c.subscriber_key c.apn) c.id s.by_owner) c.id c v.owner r.fresh
        (λ k. get-put_if (owner_key c.subscriber_key c.apn) k c.id s.by_owner)
        (λ k t. has-none k s.by_owner (
          ap (λ z. has z s.by_owner) (sym (same-true (owner_key c.subscriber_key c.apn) k t))
          ∙ r.owner));
  bearer =
      add-IsIndex has_bearer s.by_id s.by_bearer
        (own_bearers c.subscriber_key c.id c.bearers s.by_bearer) c.id c v.bearer r.fresh
        (own_bearers-get c.subscriber_key c.id c.bearers s.by_bearer)
        (λ k t. bearers_free s c k r t);
  s11 = λ t i. ground (
    arith,
    add_id-has c.s11_control.teid t c.id i s.by_s11,
    v.s11 t i,
    r.fresh,
    get-put c.id i c s.by_id,
  );
  shared = λ i j x y p q e. file-shared s c i j x y v r p q e;
  within = omega (arith, length-put_new c.id c s.by_id r.fresh, r.room);
}
