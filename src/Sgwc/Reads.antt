-- ===== src/Sgwc/Reads.antt =====
-- internal/sgwc/session/store.go: what the loops over the bearers and the sets of ids leave to read.
use cups.Base.{
  ℕ, ◌≡◌, refl, sym, ap, ◌∙◌, Bool, true, false, not, ◌&&◌, none, some, [], ◌∷◌, ◌==◌,
  if◌then◌else◌, Map, get, put, del, has, same, nat_eq, get-put, get-del, get-put_if, get-del_if,
  ap₂, Text, text_eq, arith, Bool-cases, inl, inr, same_self, same-true,
}
use cups.Sgwc.{Bearer, BearerOwner, bearer_owner_key, bearer_owner_eq}
use cups.Sgwc.Store.{
  own_bearers, disown_bearers, present, IdSet, ids_at, add_id, remove_id, is_empty,
}

-- The bearers' keys of one subscriber.
abbrev pub names_bearer : Text → Map ℕ Bearer → BearerOwner → Bool
names_bearer subscriber bs k = same subscriber k.subscriber && has k.ebi bs

same_key :
    (sub : Text) (ebi : ℕ) (k : BearerOwner)
    → same (bearer_owner_key sub ebi) k ≡ same sub k.subscriber && ebi == k.ebi
same_key sub ebi k = elim (Bool-cases (same sub k.subscriber && ebi == k.ebi)) [
  | inl h ↦
      let p : sub ≡ k.subscriber = same-true sub k.subscriber (ground arith) in
      let q : ebi ≡ k.ebi = ground arith in
      ap₂ (λ a b. same (bearer_owner_key a b) k) p q ∙ same_self k ∙ sym h
  | inr h ↦ elim (Bool-cases (same (bearer_owner_key sub ebi) k)) [
    | inr g ↦ g ∙ sym h
    | inl g ↦
        let p = same-true (bearer_owner_key sub ebi) k g in
        let q : same sub k.subscriber ≡ true =
          ap (λ x. same x k.subscriber) (ap (λ (x : BearerOwner). x.subscriber) p)
          ∙ same_self k.subscriber in
        let r : ebi ≡ k.ebi = ap (λ (x : BearerOwner). x.ebi) p in absurd (ground arith)
  ]
]

pub own_bearers-get :
    (sub : Text) (id : ℕ) (bs : Map ℕ Bearer) (m : Map BearerOwner ℕ) (k : BearerOwner)
    → get k (own_bearers sub id bs m) ≡ (if names_bearer sub bs k then some id else get k m)
unfolding own_bearers get
own_bearers-get sub id [] m k = ground arith
own_bearers-get sub id ((ebi, b) ∷ bs) m k = ground (
  arith,
  own_bearers-get sub id bs (put (bearer_owner_key sub ebi) id m) k,
  get-put_if (bearer_owner_key sub ebi) k id m,
  same_key sub ebi k,
)

pub disown_bearers-get :
    (sub : Text) (next bs : Map ℕ Bearer) (m : Map BearerOwner ℕ) (k : BearerOwner)
    → get k (disown_bearers sub next bs m)
      ≡ (if names_bearer sub bs k && not (has k.ebi next) then none else get k m)
unfolding disown_bearers get
disown_bearers-get sub next [] m k = ground arith
disown_bearers-get sub next ((ebi, b) ∷ bs) m k = elim (Bool-cases (has ebi next)) [
  | inl h ↦ rw h (ground (arith, disown_bearers-get sub next bs m k))
  | inr h ↦ rw h (
      ground (
        arith,
        disown_bearers-get sub next bs (del (bearer_owner_key sub ebi) m) k,
        get-del_if (bearer_owner_key sub ebi) k m,
        same_key sub ebi k,
      ))
]

pub add_id-has :
    (t u i j : ℕ) (m : Map ℕ IdSet)
    → has j (ids_at u (add_id t i m)) ≡ (if t == u && i == j then true else has j (ids_at u m))
add_id-has t u i j m =
    ground (arith, get-put t u (put i present (ids_at t m)) m, get-put i j present (ids_at t m))

is_empty-has : (ids : IdSet) (j : ℕ) → is_empty ids ≡ true → has j ids ≡ false
unfolding get
is_empty-has [] j h = refl
is_empty-has (x ∷ ids) j h = cc

pub remove_id-has :
    (t u i j : ℕ) (m : Map ℕ IdSet)
    → has j (ids_at u (remove_id t i m)) ≡ (if t == u && i == j then false else has j (ids_at u m))
remove_id-has t u i j m = ground (
  arith,
  is_empty-has (del i (ids_at t m)) j,
  get-del i j (ids_at t m),
  get-del t u m,
  get-put t u (del i (ids_at t m)) m,
)

-- Delete gives up every bearer.
pub disown_all-get :
    (sub : Text) (bs : Map ℕ Bearer) (m : Map BearerOwner ℕ) (k : BearerOwner)
    → get k (disown_bearers sub [] bs m) ≡ (if names_bearer sub bs k then none else get k m)
unfolding get
disown_all-get sub bs m k = ground (arith, disown_bearers-get sub [] bs m k)
