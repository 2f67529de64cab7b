-- ===== src/Rules/Run.antt =====
-- Any sequence of calls of the Store of internal/sgwu/rules/store.go, from the new store on.
use cups.Base.{
  ℕ, ◌≡◌, ◌≤◌, refl, sym, ap, subst, ◌∙◌, Option, some, List, [], ◌∷◌, All, IsKeyed, get, nat_eq,
  ◌>>=◌,
}
use mathlib.Core.Option.{some-injective}
use cups.Rules.{Pdr, Session, PacketRule, tunnel_key_eq}
use cups.Rules.Store.{Store, Result, ok, new_store_with_limit}
use cups.Rules.Operations.{create, update, reconcile, delete, find_by_up_seid, lookup_packet}
use cups.Rules.Invariant.{IsValid}
use cups.Rules.Create.{create-IsValid, new_store-IsValid}
use cups.Rules.Change.{update-IsValid, reconcile-IsValid}
use cups.Rules.Delete.{delete-IsValid}
use cups.Rules.Lookup.{lookup_packet_active}
use cups.Rules.Reachable.{IsCovered}
use cups.Rules.Covering.{create-IsCovered, update-IsCovered, reconcile-IsCovered, delete-IsCovered}

pub data Call : Type 0 where
  creates : Session → Call
  updates : ℕ → ℕ → (Session → Result Session) → Call
  reconciles : ℕ → Session → Call
  deletes : ℕ → ℕ → Call

-- The PDRs of a call's session are a Go map, each key once.
abbrev pub IsMap : Call → Type 0
IsMap (creates c) = IsKeyed c.pdrs
IsMap (updates up expected mutate) = (x n : Session) → mutate x ≡ ok n → IsKeyed n.pdrs
IsMap (reconciles cp c) = IsKeyed c.pdrs
IsMap (deletes up expected) = Unit {0}

abbrev pub apply : Store → Call → Option Store
apply s (creates c) = some (create s c).0
apply s (updates up expected mutate) = some (update s up expected mutate).0
apply s (reconciles cp c) = reconcile s cp c >>= λ r. some r.0
apply s (deletes up expected) = some (delete s up expected).0

-- The store after the calls; `none` is a panic.
unfoldable pub apply_all : Store → List Call → Option Store
apply_all s [] = some s
apply_all s (c ∷ cs) = apply s c >>= λ t. apply_all t cs

apply_lem :
    (s : Store) (c : Call)
    → IsValid s
    → IsCovered s
    → IsMap c
    → (t : Store) × (apply s c ≡ some t) × IsValid t × IsCovered t
apply_lem s (creates c) v cover keyed =
    (_, refl, create-IsValid s c v keyed, create-IsCovered s c v cover keyed)
apply_lem s (updates up expected mutate) v cover keyed = (
  _,
  refl,
  update-IsValid s up expected mutate v keyed,
  update-IsCovered s up expected mutate v cover keyed,
)
apply_lem s (reconciles cp c) v cover keyed =
    let (r, e, w) = reconcile-IsValid s cp c v keyed in
    (
      r.0,
      ap (λ (o : Option (Store × Result Session)). o >>= λ x. some x.0) e,
      w,
      reconcile-IsCovered s cp c r v cover keyed e,
    )
apply_lem s (deletes up expected) v cover keyed =
    (_, refl, delete-IsValid s up expected v, delete-IsCovered s up expected v cover)

apply_all_lem :
    (s : Store) (cs : List Call)
    → IsValid s
    → IsCovered s
    → All IsMap cs
    → (t : Store) × (apply_all s cs ≡ some t) × IsValid t × IsCovered t
unfolding apply_all
apply_all_lem s [] v cover maps = (s, refl, v, cover)
apply_all_lem s (c ∷ cs) v cover maps =
    let (m, e, w, d) = apply_lem s c v cover maps.0 in
    let (t, f, x, y) = apply_all_lem m cs w d maps.1 in
    (t, ap (λ (o : Option Store). o >>= λ t. apply_all t cs) e ∙ f, x, y)

new_store-IsCovered : (n : ℕ) → IsCovered (new_store_with_limit n)
unfolding new_store_with_limit get
new_store-IsCovered n u x id pdr e h = absurd cc

-- From the new store on, no sequence of Creates, Updates, Reconciles and Deletes panics, and each
-- leaves a valid store: its maps agree, its sessions are sound and within the limit, and its
-- indexes hold rules of the sessions as they are, under their current generations.
pub apply_all-IsValid :
    (n : ℕ) (cs : List Call)
    → All IsMap cs
    → (t : Store) × (apply_all (new_store_with_limit n) cs ≡ some t) × IsValid t
apply_all-IsValid n cs maps =
    let (t, e, v, c) =
      apply_all_lem (new_store_with_limit n) cs (new_store-IsValid n) (new_store-IsCovered n)
        maps in
    (t, e, v)

-- After any sequence of calls, a packet that arrives on the tunnel of a PDR of a stored session
-- matches: under that session, and by a PDR of the same or a lower precedence value.
pub apply_all-lookup_packet :
    (n : ℕ) (cs : List Call) (t : Store) (u : ℕ) (x : Session) (id : ℕ) (pdr : Pdr)
    → All IsMap cs
    → apply_all (new_store_with_limit n) cs ≡ some t
    → find_by_up_seid t u ≡ some x
    → get id x.pdrs ≡ some pdr
    → (r : PacketRule) × (lookup_packet t pdr.source_interface pdr.local_fteid.teid ≡ some r)
      × (r.up_seid ≡ u)
      × (r.pdr.precedence ≤ pdr.precedence)
unfolding find_by_up_seid
apply_all-lookup_packet n cs t u x id pdr maps e f g =
    let (s, h, v, c) =
      apply_all_lem (new_store_with_limit n) cs (new_store-IsValid n) (new_store-IsCovered n)
        maps in
    let same : s ≡ t = some-injective s t (sym h ∙ e) in
    let valid = subst IsValid same v in
    let cover = subst IsCovered same c in
    let (r, found, own, p) = cover u x id pdr f g in
    (r, lookup_packet_active t pdr.source_interface pdr.local_fteid.teid valid ∙ found, own, p)
