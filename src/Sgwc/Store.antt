-- ===== src/Sgwc/Store.antt =====
-- internal/sgwc/session/store.go: Store, its constructor, the commit of a transition, and Create.
-- Each operation takes the mutex, so each is one step. The clock's reading and what the journal
-- answers are arguments. The persister is a WAL or none.
use cups.Base.{
  ℕ, ◌+◌, ◌%◌, ◌^◌, ◌≡◌, refl, ◌⊎◌, inl, inr, Bool, true, false, not, ◌||◌, Option, none, some,
  List, [], ◌∷◌, leb, ◌==◌, if◌then◌else◌, Map, get, put, del, has, length, any, first_error,
  nat_eq, Text, text_eq,
}
use cups.Sgwc.{
  Session, Bearer, BearerOwner, bearer_owner_key, owner_key, validate, same_s11_owner,
  bearers_overlap, fteid_eq, bearer_owner_eq,
}
use cups.Sgwc.Wal.{Wal, commit}
use cups.Journal.{Answers}

pub data Error : Type 0 where
  not_found conflict duplicate capacity invalid_session persistence poisoned : Error
  mutation_failed random_failed teid_space_exhausted : Error

pub data Result {ℓ} (A : Type ℓ) : Type ℓ where
  ok : A → Result A
  err : Error → Result A

pub Result-cases {ℓ} :
    {A : Type ℓ} (r : Result A) → ((e : Error) × (r ≡ err e)) ⊎ ((a : A) × (r ≡ ok a))
Result-cases (err e) = inl (e, refl)
Result-cases (ok a) = inr (a, refl)

-- The value of a set, struct{}.
pub data Present : Type 0 where
  present : Present

abbrev pub IdSet : Type 0
IdSet = Map ℕ Present

pub record Store : Type 0 where
  pub by_id : Map ℕ Session
  pub by_s11 : Map ℕ IdSet
  pub by_s5 : Map ℕ ℕ
  pub by_pfcp : Map ℕ ℕ
  pub by_owner : Map Text ℕ
  pub by_bearer : Map BearerOwner ℕ
  pub next_id : ℕ
  pub limit : ℕ
  pub persister : Option Wal
  pub is_poisoned : Bool

abbrev pub default_max_sessions : ℕ
default_max_sessions = 1000000

-- NewStoreWithPersister; a limit that is not positive is 0 here.
unfoldable pub new_store_with_persister : ℕ → Option Wal → Store
new_store_with_persister max_sessions persister = record {
  by_id = [];
  by_s11 = [];
  by_s5 = [];
  by_pfcp = [];
  by_owner = [];
  by_bearer = [];
  next_id = 0;
  limit = if max_sessions == 0 then default_max_sessions else max_sessions;
  persister = persister;
  is_poisoned = false;
}

-- A set that a map does not have is empty.
abbrev pub ids_of : Option IdSet → IdSet
ids_of none = []
ids_of (some ids) = ids

abbrev pub ids_at : ℕ → Map ℕ IdSet → IdSet
ids_at teid by_s11 = ids_of (get teid by_s11)

abbrev pub add_id : ℕ → ℕ → Map ℕ IdSet → Map ℕ IdSet
add_id teid id by_s11 = put teid (put id present (ids_at teid by_s11)) by_s11

abbrev pub is_empty : {A : Type 0} → List A → Bool
is_empty [] = true
is_empty (x ∷ xs) = false

abbrev pub remove_id : ℕ → ℕ → Map ℕ IdSet → Map ℕ IdSet
remove_id teid id by_s11 =
    let ids = del id (ids_at teid by_s11) in
    if is_empty ids then del teid by_s11 else put teid ids by_s11

-- The loop that names the session as the owner of its bearers.
unfoldable pub own_bearers : Text → ℕ → Map ℕ Bearer → Map BearerOwner ℕ → Map BearerOwner ℕ
own_bearers subscriber id [] m = m
own_bearers subscriber id ((ebi, b) ∷ bs) m =
    own_bearers subscriber id bs (put (bearer_owner_key subscriber ebi) id m)

-- The loop that gives up the bearers that the next session does not have.
unfoldable pub disown_bearers :
    Text → Map ℕ Bearer → Map ℕ Bearer → Map BearerOwner ℕ → Map BearerOwner ℕ
disown_bearers subscriber next [] m = m
disown_bearers subscriber next ((ebi, b) ∷ bs) m =
    disown_bearers subscriber next bs
      (if has ebi next then m else del (bearer_owner_key subscriber ebi) m)

abbrev pub persisted : Store → Wal × Bool → Store × Bool
persisted s (w, true) = (record s { persister = some w }, true)
persisted s (w, false) = (record s { persister = some w; is_poisoned = true }, false)

abbrev pub persist_with :
    Answers → Option Session → Option Session → Store → Option Wal → Store × Bool
persist_with a previous next s none = (s, true)
persist_with a previous next s (some w) = persisted s (commit a previous next w)

-- persist, with whether it succeeds.
unfoldable pub persist : Answers → Option Session → Option Session → Store → Store × Bool
persist a previous next s = persist_with a previous next s s.persister

abbrev pub bearer_taken : Store → Session → Bool
bearer_taken s c =
    any (λ (b : ℕ × Bearer). has (bearer_owner_key c.subscriber_key b.0) s.by_bearer) c.bearers

-- A stale id is a nil pointer of the code; it counts as a clash here, and no valid store has one.
abbrev pub s11_clash : Session → Option Session → Bool
s11_clash c none = true
s11_clash c (some existing) = not (same_s11_owner existing c) || bearers_overlap existing c

abbrev pub s11_taken : Map ℕ Session → IdSet → Session → Bool
s11_taken by_id ids c = any (λ (e : ℕ × Present). s11_clash c (get e.0 by_id)) ids

-- Create's checks, in the order of its early returns.
abbrev pub create_tests : Store → Session → List (Bool × Error)
create_tests s c =
    ((not (validate c), invalid_session)
      ∷ (s.is_poisoned, poisoned)
      ∷ (has (owner_key c.subscriber_key c.apn) s.by_owner, duplicate)
      ∷ (bearer_taken s c, duplicate)
      ∷ (s11_taken s.by_id (ids_at c.s11_control.teid s.by_s11) c, duplicate)
      ∷ (has c.s5_control.teid s.by_s5, duplicate)
      ∷ (has c.pfcp_control_seid s.by_pfcp, duplicate)
      ∷ (leb s.limit (length s.by_id), capacity)
      ∷ [])

abbrev pub create_error : Store → Session → Option Error
create_error s c = first_error (create_tests s c)

-- The session under its number, and all that names it.
abbrev pub file_session : Store → Session → Store
file_session s c = record s {
  by_id = put c.id c s.by_id;
  by_s11 = add_id c.s11_control.teid c.id s.by_s11;
  by_s5 = put c.s5_control.teid c.id s.by_s5;
  by_pfcp = put c.pfcp_control_seid c.id s.by_pfcp;
  by_owner = put (owner_key c.subscriber_key c.apn) c.id s.by_owner;
  by_bearer = own_bearers c.subscriber_key c.id c.bearers s.by_bearer;
}

abbrev pub filed : Store × Bool → Session → Store × Result Session
filed (s, false) c = (s, err persistence)
filed (s, true) c = (file_session s c, ok c)

abbrev pub numbered : ℕ → Store → Session → Session
numbered now s c = record c {
  id = (s.next_id + 1) % 2 ^ 64;
  revision = 1;
  created_at = now;
  updated_at = now;
}

abbrev pub create_unless : Option Error → ℕ → Answers → Store → Session → Store × Result Session
create_unless (some e) now a s c = (s, err e)
create_unless none now a s c =
    let d = numbered now s c in filed (persist a none (some d) (record s { next_id = d.id })) d

unfoldable pub create : ℕ → Answers → Store → Session → Store × Result Session
create now a s c = create_unless (create_error s c) now a s c
