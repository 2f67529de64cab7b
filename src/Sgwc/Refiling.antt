-- ===== src/Sgwc/Refiling.antt =====
-- internal/sgwc/session/store.go: the end of Update, ReconcilePFCPUserSEID and Delete. A session
-- is replaced or removed, and the store stays valid.
use cups.Base.{
  ℕ, ◌≡◌, refl, sym, ap, ◌∙◌, true, false, ◌&&◌, some, [], ◌==◌, ◌!=◌, Map, get, put, del, has,
  same, IsIndex, replace-IsIndex, remove-IsIndex, keep-IsIndex, put_cases, has-none, get-put,
  get-del, get-del_if, put-IsKeyed, del-IsKeyed, length-put_old, length-del_found, arith, text_eq,
  nat_eq, inl, inr, Bool-cases, any-get, put-readable, del-readable,
}
use cups.Sgwc.{
  Session, Bearer, BearerOwner, bearer_owner_eq, bearer_owner_key, owner_key, validate, fteid_eq,
}
use cups.Sgwc.Reads.{own_bearers-get, disown_bearers-get, disown_all-get, remove_id-has}
use cups.Sgwc.Store.{Store, own_bearers, disown_bearers}
use cups.Sgwc.Operations.{refile, unfile, bearer_foreign, is_other}
use cups.Sgwc.Invariant.{
  has_bearer-key, ==→≡, S11Context, IsValid, IsFiled, has_owner, has_s5, has_pfcp, has_bearer,
  s11_context,
}

-- What a session keeps when another takes its place.
pub record IsHeir (id : ℕ) (x y : Session) : Type 0 where
  pub number : y.id ≡ x.id
  pub sound : validate y ≡ true
  pub context : s11_context y ≡ s11_context x
  pub owner : owner_key y.subscriber_key y.apn ≡ owner_key x.subscriber_key x.apn
  pub pfcp : y.pfcp_control_seid ≡ x.pfcp_control_seid

replace-shared :
    (s : Store) (id i j : ℕ) (x y z w : Session)
    → IsValid s
    → get id s.by_id ≡ some x
    → s11_context y ≡ s11_context x
    → get i (put id y s.by_id) ≡ some z
    → get j (put id y s.by_id) ≡ some w
    → z.s11_control.teid ≡ w.s11_control.teid
    → s11_context z ≡ s11_context w
replace-shared s id i j x y z w v old same p q e =
    let before : (k : ℕ) (u : Session)
        → get k (put id y s.by_id) ≡ some u
        → (t : Session) × (get k s.by_id ≡ some t) × (s11_context u ≡ s11_context t) =
      λ k u r. elim (put_cases id k y u s.by_id r) [
        | inl (a, b) ↦ (x, ap (λ n. get n s.by_id) (sym a) ∙ old, ap s11_context (sym b) ∙ same)
        | inr a ↦ (u, a, refl)
      ] in
    let (t, a, b) = before i z p in
    let (u, c, d) = before j w q in
    let teid = λ (g : S11Context). g.local.teid in
    b ∙ v.shared i j t u a c (ap teid (sym b) ∙ e ∙ ap teid d) ∙ sym d

pub replace-IsValid :
    (s : Store) (id : ℕ) (x y : Session) (by_s5 : Map ℕ ℕ) (by_bearer : Map BearerOwner ℕ)
    → IsValid s
    → get id s.by_id ≡ some x
    → IsHeir id x y
    → IsIndex has_s5 (put id y s.by_id) by_s5
    → IsIndex has_bearer (put id y s.by_id) by_bearer
    → IsValid (record s { by_id = put id y s.by_id; by_s5 = by_s5; by_bearer = by_bearer })
replace-IsValid s id x y by_s5 by_bearer v old h s5 bearer = record {
  keyed = put-IsKeyed id y s.by_id v.keyed;
  filed = λ i z q.
      let f = v.filed id x old in
      put-readable (λ i z. IsFiled s.next_id i z) id y s.by_id v.filed
        (record {
          number = h.number ∙ f.number;
          sound = h.sound;
          positive = f.positive;
          bounded = f.bounded;
        })
        i z q;
  s5 = s5;
  bearer = bearer;
  pfcp = keep-IsIndex has_pfcp s.by_id s.by_pfcp id x y v.pfcp old (λ k. ap (λ z. z == k) h.pfcp);
  owner =
      keep-IsIndex has_owner s.by_id s.by_owner id x y v.owner old
        (λ k. ap (λ z. same z k) h.owner);
  s11 = λ t i. ground (
    arith,
    v.s11 t i,
    get-put id i y s.by_id,
    old,
    ap (λ (g : S11Context). g.local.teid) h.context,
  );
  shared = λ i j z w. replace-shared s id i j x y z w v old h.context;
  within = omega (arith, length-put_old id y x s.by_id old, v.within);
}

pub unfile-IsValid :
    (s : Store) (id : ℕ) (x : Session)
    → IsValid s
    → get id s.by_id ≡ some x
    → IsValid (unfile s id x)
unfile-IsValid s id x v old = record {
  keyed = del-IsKeyed id s.by_id v.keyed;
  filed = λ i y q. v.filed i y (del-readable id i y s.by_id q).0;
  s5 =
      remove-IsIndex has_s5 s.by_id s.by_s5 (del x.s5_control.teid s.by_s5) id x v.s5 old
        (λ k. ground (arith, get-del x.s5_control.teid k s.by_s5));
  pfcp =
      remove-IsIndex has_pfcp s.by_id s.by_pfcp (del x.pfcp_control_seid s.by_pfcp) id x v.pfcp old
        (λ k. ground (arith, get-del x.pfcp_control_seid k s.by_pfcp));
  owner =
      remove-IsIndex has_owner s.by_id s.by_owner
        (del (owner_key x.subscriber_key x.apn) s.by_owner) id x v.owner old
        (λ k. get-del_if (owner_key x.subscriber_key x.apn) k s.by_owner);
  bearer =
      remove-IsIndex has_bearer s.by_id s.by_bearer
        (disown_bearers x.subscriber_key [] x.bearers s.by_bearer) id x v.bearer old
        (disown_all-get x.subscriber_key x.bearers s.by_bearer);
  s11 = λ t i. ground (
    arith,
    remove_id-has x.s11_control.teid t id i s.by_s11,
    v.s11 t i,
    get-del id i s.by_id,
    old,
  );
  shared = λ i j y z p q.
      v.shared i j y z (del-readable id i y s.by_id p).0 (del-readable id j z s.by_id q).0;
  within = omega (arith, length-del_found id x s.by_id v.keyed old, v.within);
}

pub refile-s5 :
    (s : Store) (id : ℕ) (x y : Session)
    → IsValid s
    → get id s.by_id ≡ some x
    → (y.s5_control.teid != x.s5_control.teid && has y.s5_control.teid s.by_s5) ≡ false
    → IsIndex has_s5 (put id y s.by_id) (refile s id x y).by_s5
refile-s5 s id x y v old free = elim (Bool-cases (y.s5_control.teid != x.s5_control.teid)) [
  | inr kept ↦ rw kept (
      keep-IsIndex has_s5 s.by_id s.by_s5 id x y v.s5 old
        (λ k. ap (λ z. z == k) (let e : y.s5_control.teid ≡ x.s5_control.teid = ground arith in e)))
  | inl moved ↦
      let clear = has-none y.s5_control.teid s.by_s5 (ground arith) in
      rw moved (
        replace-IsIndex has_s5 s.by_id s.by_s5
          (put y.s5_control.teid id (del x.s5_control.teid s.by_s5)) id x y v.s5 old
          (λ k. ground (
            arith,
            get-put y.s5_control.teid k id (del x.s5_control.teid s.by_s5),
            get-del x.s5_control.teid k s.by_s5,
          ))
          (λ k j h q. absurd (cc (ap (λ z. get z s.by_s5) (==→≡ y.s5_control.teid k h), clear, q))))
]

pub refile-bearer :
    (s : Store) (id : ℕ) (x y : Session)
    → IsValid s
    → get id s.by_id ≡ some x
    → x.subscriber_key ≡ y.subscriber_key
    → bearer_foreign s id y ≡ false
    → IsIndex has_bearer (put id y s.by_id) (refile s id x y).by_bearer
refile-bearer s id x y v old owner free =
    let kept = disown_bearers x.subscriber_key y.bearers x.bearers s.by_bearer in
    replace-IsIndex has_bearer s.by_id s.by_bearer (own_bearers y.subscriber_key id y.bearers kept)
      id x y v.bearer old
      (λ k. elim (Bool-cases (has_bearer y k)) [
        | inl g ↦ ground (arith, own_bearers-get y.subscriber_key id y.bearers kept k)
        | inr g ↦ ground (
          arith,
          own_bearers-get y.subscriber_key id y.bearers kept k,
          disown_bearers-get x.subscriber_key y.bearers x.bearers s.by_bearer k,
          ap (λ z. same z k.subscriber) owner,
        )
      ])
      (λ k j h q.
        let (b, e, key) = has_bearer-key y k h in
        let own =
          any-get
            (λ (b : ℕ × Bearer).
              is_other id (get (bearer_owner_key y.subscriber_key b.0) s.by_bearer))
            k.ebi b y.bearers free e in
        let there : get (bearer_owner_key y.subscriber_key k.ebi) s.by_bearer ≡ some j =
          ap (λ z. get z s.by_bearer) key ∙ q in
        ground arith)
