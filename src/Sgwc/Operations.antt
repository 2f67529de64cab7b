-- ===== src/Sgwc/Operations.antt =====
-- internal/sgwc/session/store.go: Update, ReconcilePFCPUserSEID, Delete, Restore and
-- AllocateControlTEID.
use cups.Base.{
  ℕ, zero, suc, ◌+◌, ◌%◌, ◌^◌, Bool, true, false, not, ◌&&◌, ◌||◌, Option, none, some, List, [],
  ◌∷◌, ltb, ◌==◌, ◌!=◌, if◌then◌else◌, get, put, del, has, same, length, any, first_error, nat_eq,
  text_eq, max,
}
use cups.Sgwc.{
  Session, Bearer, bearer_owner_key, owner_key, validate, validate_wal_session, bearers_overlap,
  equal_fold, fteid_eq, bearer_owner_eq,
}
use cups.Journal.{Answers}
use cups.Sgwc.Store.{
  Error, not_found, conflict, duplicate, capacity, invalid_session, persistence, poisoned,
  mutation_failed, random_failed, teid_space_exhausted, Result, ok, err, Present, Store, ids_at,
  remove_id, own_bearers, disown_bearers, persist, bearer_taken, s11_taken, file_session,
}

abbrev pub current_at : ℕ → Option Session → Result Session
current_at expected none = err not_found
current_at expected (some current) =
    if current.revision != expected then err conflict else ok current

-- What the operations on one session start with.
abbrev pub current_of : Store → ℕ → ℕ → Result Session
current_of s id expected =
    if s.is_poisoned then err poisoned else current_at expected (get id s.by_id)

abbrev pub overlaps : Session → Option Session → Bool
overlaps next none = false
overlaps next (some sibling) = bearers_overlap sibling next

abbrev pub sibling_overlap : Store → ℕ → Session → Bool
sibling_overlap s id next =
    any (λ (e : ℕ × Present). e.0 != id && overlaps next (get e.0 s.by_id))
      (ids_at next.s11_control.teid s.by_s11)

abbrev pub is_other : ℕ → Option ℕ → Bool
is_other id none = false
is_other id (some owner) = owner != id

abbrev pub bearer_foreign : Store → ℕ → Session → Bool
bearer_foreign s id next =
    any
      (λ (b : ℕ × Bearer). is_other id (get (bearer_owner_key next.subscriber_key b.0) s.by_bearer))
      next.bearers

-- Update's checks of the mutated session, in the order of its early returns.
abbrev pub update_tests : Store → ℕ → Session → Session → List (Bool × Error)
update_tests s id current next =
    ((
      next.id != current.id
          || not (same next.subscriber_key current.subscriber_key)
          || not (equal_fold next.apn current.apn),
      invalid_session,
    )
      ∷ (
        next.pfcp_control_seid != current.pfcp_control_seid
            || next.pfcp_user_seid != current.pfcp_user_seid,
        invalid_session,
      )
      ∷ (not (validate next), invalid_session)
      ∷ (sibling_overlap s id next, duplicate)
      ∷ (bearer_foreign s id next, duplicate)
      ∷ (
        not (same next.s11_control current.s11_control)
            || not (same next.mme_control current.mme_control),
        invalid_session,
      )
      ∷ (
        next.s5_control.teid != current.s5_control.teid && has next.s5_control.teid s.by_s5,
        duplicate,
      )
      ∷ [])

abbrev pub update_error : Store → ℕ → Session → Session → Option Error
update_error s id current next = first_error (update_tests s id current next)

-- The revision that follows, a uint64, and the time of the change.
abbrev pub revised : ℕ → Session → Session
revised now c = record c { revision = (c.revision + 1) % 2 ^ 64; updated_at = now }

abbrev pub refile : Store → ℕ → Session → Session → Store
refile s id current next =
    let by_s5 =
      if next.s5_control.teid != current.s5_control.teid
      then put next.s5_control.teid id (del current.s5_control.teid s.by_s5)
      else s.by_s5 in
    let kept = disown_bearers current.subscriber_key next.bearers current.bearers s.by_bearer in
    record s {
      by_id = put id next s.by_id;
      by_s5 = by_s5;
      by_bearer = own_bearers next.subscriber_key id next.bearers kept;
    }

abbrev pub refiled : Store × Bool → ℕ → Session → Session → Store × Result Session
refiled (s, false) id current next = (s, err persistence)
refiled (s, true) id current next = (refile s id current next, ok next)

abbrev pub update_unless :
    Option Error → ℕ → Answers → Store → ℕ → Session → Session → Store × Result Session
update_unless (some e) now a s id current next = (s, err e)
update_unless none now a s id current next =
    let c = revised now next in refiled (persist a (some current) (some c) s) id current c

abbrev pub update_mutated :
    ℕ → Answers → Store → ℕ → Session → Option Session → Store × Result Session
update_mutated now a s id current none = (s, err mutation_failed)
update_mutated now a s id current (some next) =
    update_unless (update_error s id current next) now a s id current next

abbrev pub update_current :
    ℕ → Answers → Store → ℕ → (Session → Option Session) → Result Session → Store × Result Session
update_current now a s id mutate (err e) = (s, err e)
update_current now a s id mutate (ok current) = update_mutated now a s id current (mutate current)

-- Update with a mutation that is not nil; the mutation is the caller's, `none` its error.
unfoldable pub update :
    ℕ → Answers → Store → ℕ → ℕ → (Session → Option Session) → Store × Result Session
update now a s id expected mutate = update_current now a s id mutate (current_of s id expected)

abbrev pub replaced : Store × Bool → ℕ → Session → Store × Result Session
replaced (s, false) id next = (s, err persistence)
replaced (s, true) id next = (record s { by_id = put id next s.by_id }, ok next)

abbrev pub reconcile_current : ℕ → Answers → Store → ℕ → ℕ → Result Session → Store × Result Session
reconcile_current now a s id up_seid (err e) = (s, err e)
reconcile_current now a s id up_seid (ok current) =
    let next = revised now (record current { pfcp_user_seid = up_seid }) in
    if current.pfcp_user_seid == up_seid
    then (s, ok current)
    else replaced (persist a (some current) (some next) s) id next

unfoldable pub reconcile_pfcp_user_seid : ℕ → Answers → Store → ℕ → ℕ → ℕ → Store × Result Session
reconcile_pfcp_user_seid now a s id expected up_seid =
    if up_seid == 0
    then (s, err invalid_session)
    else reconcile_current now a s id up_seid (current_of s id expected)

-- The loop of Delete over the bearers.
abbrev pub unfile : Store → ℕ → Session → Store
unfile s id current = record s {
  by_id = del id s.by_id;
  by_s11 = remove_id current.s11_control.teid id s.by_s11;
  by_s5 = del current.s5_control.teid s.by_s5;
  by_pfcp = del current.pfcp_control_seid s.by_pfcp;
  by_owner = del (owner_key current.subscriber_key current.apn) s.by_owner;
  by_bearer = disown_bearers current.subscriber_key [] current.bearers s.by_bearer;
}

abbrev pub unfiled : Store × Bool → ℕ → Session → Store × Option Error
unfiled (s, false) id current = (s, some persistence)
unfiled (s, true) id current = (unfile s id current, none)

abbrev pub delete_current : Answers → Store → ℕ → Result Session → Store × Option Error
delete_current a s id (err e) = (s, some e)
delete_current a s id (ok current) = unfiled (persist a (some current) none s) id current

-- Delete, with its error.
unfoldable pub delete : Answers → Store → ℕ → ℕ → Store × Option Error
delete a s id expected = delete_current a s id (current_of s id expected)

-- One round of Restore's loop. The maps that it fills are local until the end.
abbrev pub restore_tests : Store → Session → List (Bool × Error)
restore_tests s c =
    ((not (validate_wal_session c), invalid_session)
      ∷ (has c.id s.by_id, duplicate)
      ∷ (has (owner_key c.subscriber_key c.apn) s.by_owner, duplicate)
      ∷ (bearer_taken s c, duplicate)
      ∷ (has c.s5_control.teid s.by_s5, duplicate)
      ∷ (has c.pfcp_control_seid s.by_pfcp, duplicate)
      ∷ (s11_taken s.by_id (ids_at c.s11_control.teid s.by_s11) c, duplicate)
      ∷ [])

abbrev pub restore_error : Store → Session → Option Error
restore_error s c = first_error (restore_tests s c)

abbrev pub restored : Store → Session → Store
restored s c = record (file_session s c) { next_id = max s.next_id c.id }

abbrev pub restore_unless : Option Error → Store → (Store → Result Store) → Result Store
restore_unless (some e) s rest = err e
restore_unless none s rest = rest s

unfoldable pub restore_all : List Session → Store → Result Store
restore_all [] s = ok s
restore_all (c ∷ cs) s = restore_unless (restore_error s c) (restored s c) (restore_all cs)

abbrev pub emptied : Store → Store
emptied s = record s {
  by_id = [];
  by_s11 = [];
  by_s5 = [];
  by_pfcp = [];
  by_owner = [];
  by_bearer = [];
  next_id = 0;
}

abbrev pub adopted : Store → Result Store → Store × Option Error
adopted s (err e) = (s, some e)
adopted s (ok t) = (t, none)

-- Restore, with its error.
unfoldable pub restore : Store → List Session → Store × Option Error
restore s recovered =
    let loaded = adopted s (restore_all recovered (emptied s)) in
    if s.is_poisoned
    then (s, some poisoned)
    else if length s.by_id != 0
    then (s, some conflict)
    else if ltb s.limit (length recovered)
    then (s, some capacity)
    else loaded

abbrev pub allocate_with : Store → Option ℕ → Result ℕ → Result ℕ
allocate_with s none rest = err random_failed
allocate_with s (some candidate) rest =
    if candidate == 0
    then rest
    else if not (has candidate s.by_s11) && not (has candidate s.by_s5)
    then ok candidate
    else rest

-- The attempts that are left, and what rand.Read gives at each, `none` being its error.
unfoldable pub allocate_from : Store → ℕ → (ℕ → Option ℕ) → Result ℕ
allocate_from s zero random = err teid_space_exhausted
allocate_from s (suc n) random = allocate_with s (random n) (allocate_from s n random)

unfoldable pub allocate_control_teid : Store → (ℕ → Option ℕ) → Result ℕ
allocate_control_teid s random = allocate_from s 256 random
