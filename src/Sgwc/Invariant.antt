-- ===== src/Sgwc/Invariant.antt =====
-- internal/sgwc/session/store.go: what holds of the store between two operations.
use cups.Base.{
  ℕ, ◌≡◌, ◌≤◌, ◌<◌, Bool, true, false, Option, none, some, ◌==◌, get, has, same, length, IsKeyed,
  IsIndex, arith, Text, text_eq, nat_eq, same-true, Option-cases, inl, inr,
}
use cups.Net.{addr_eq}
use cups.Sgwc.{
  Session, Fteid, Bearer, BearerOwner, bearer_owner_eq, bearer_owner_key, owner_key, validate,
  same_s11_owner, fteid_eq,
}
use cups.Sgwc.Wal.{Wal}
use cups.Sgwc.Reads.{names_bearer}
use cups.Sgwc.Store.{Store, ids_at}

-- The keys under which a session stands in the indexes.
abbrev pub has_owner : Session → Text → Bool
has_owner x k = same (owner_key x.subscriber_key x.apn) k

abbrev pub has_s5 : Session → ℕ → Bool
has_s5 x teid = x.s5_control.teid == teid

abbrev pub has_pfcp : Session → ℕ → Bool
has_pfcp x seid = x.pfcp_control_seid == seid

abbrev pub has_bearer : Session → BearerOwner → Bool
has_bearer x k = names_bearer x.subscriber_key x.bearers k

abbrev pub at_s11 : ℕ → Option Session → Bool
at_s11 teid none = false
at_s11 teid (some x) = x.s11_control.teid == teid

pub record S11Context : Type 0 where
  pub subscriber : Text
  pub mme : Fteid
  pub local : Fteid

abbrev pub s11_context : Session → S11Context
s11_context x = record { subscriber = x.subscriber_key; mme = x.mme_control; local = x.s11_control }

pub record IsFiled (n i : ℕ) (x : Session) : Type 0 where
  pub number : x.id ≡ i
  pub sound : validate x ≡ true
  pub positive : 0 < i
  pub bounded : i ≤ n

pub record IsValid (s : Store) : Type 0 where
  pub keyed : IsKeyed s.by_id
  pub filed : (i : ℕ) (x : Session) → get i s.by_id ≡ some x → IsFiled s.next_id i x
  pub s5 : IsIndex has_s5 s.by_id s.by_s5
  pub pfcp : IsIndex has_pfcp s.by_id s.by_pfcp
  pub owner : IsIndex has_owner s.by_id s.by_owner
  pub bearer : IsIndex has_bearer s.by_id s.by_bearer
  pub s11 : (teid i : ℕ) → has i (ids_at teid s.by_s11) ≡ at_s11 teid (get i s.by_id)
  pub shared :
      (i j : ℕ) (x y : Session)
      → get i s.by_id ≡ some x
      → get j s.by_id ≡ some y
      → x.s11_control.teid ≡ y.s11_control.teid
      → s11_context x ≡ s11_context y
  pub within : length s.by_id ≤ s.limit

pub same_s11_owner-context :
    (x y : Session) → same_s11_owner x y ≡ true → s11_context x ≡ s11_context y
same_s11_owner-context x y h =
    let p = same-true x.subscriber_key y.subscriber_key (ground arith) in
    let q = same-true x.mme_control y.mme_control (ground arith) in
    let r = same-true x.s11_control y.s11_control (ground arith) in
    λ i. record { subscriber = p i; mme = q i; local = r i }

-- A key that a session has names one of its bearers.
pub has_bearer-key :
    (x : Session) (k : BearerOwner)
    → has_bearer x k ≡ true
    → (b : Bearer) × (get k.ebi x.bearers ≡ some b) × (bearer_owner_key x.subscriber_key k.ebi ≡ k)
has_bearer-key x k h =
    let p = same-true x.subscriber_key k.subscriber (ground arith) in
    let key : bearer_owner_key x.subscriber_key k.ebi ≡ k =
      λ i. record { subscriber = p i; ebi = k.ebi } in
    elim (Option-cases (get k.ebi x.bearers)) [
      | inl e ↦ absurd (ground arith)
      | inr (b, e) ↦ (b, e, key)
    ]

pub ==→≡ : (a b : ℕ) → (a == b) ≡ true → a ≡ b
==→≡ a b h = ground arith

-- The persister, a poisoning and numbers that are given up do not bear on validity.
pub frame-IsValid :
    (s : Store) (n : ℕ) (w : Option Wal) (b : Bool)
    → IsValid s
    → s.next_id ≤ n
    → IsValid (record s { next_id = n; persister = w; is_poisoned = b })
frame-IsValid s n w b v h = record {
  keyed = v.keyed;
  filed = λ i x q.
      let f = v.filed i x q in
      record {
        number = f.number;
        sound = f.sound;
        positive = f.positive;
        bounded = omega (arith, f.bounded, h);
      };
  s5 = v.s5;
  pfcp = v.pfcp;
  owner = v.owner;
  bearer = v.bearer;
  s11 = v.s11;
  shared = v.shared;
  within = v.within;
}
