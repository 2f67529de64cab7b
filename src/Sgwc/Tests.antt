-- ===== src/Sgwc/Tests.antt =====
-- internal/sgwc/session/store.go and wal.go at concrete sessions.
use cups.Base.{
  ℕ, ◌≡◌, ◌≢◌, ◌≤◌, refl, true, false, Option, some, none, List, [], ◌∷◌, get, put, ℕ_discrete,
  nat_eq, text_eq, Text-discrete, same, has, ◌&&◌, arith, AllEntries,
}
use cups.Net.{v4, invalid, Addr-discrete}
use cups.Sgwc.{
  Session, Bearer, Fteid, active, bearer_active, validate, validate_wal_session, owner_key,
  BearerOwner-discrete, Fteid-discrete, Session-discrete, Bearer-discrete, BearerState-discrete,
  bearer_owner_eq, fteid_eq, session_eq,
}
use cups.Sgwc.Wal.{Wal, commit, transition_ok, valid_wal_update, live_records, upsert}
use cups.Journal.{Answers, write, replaced, appended, lost, doubted}
use cups.Sgwc.Wal.Durable.{IsDurable, Recovers, commit-IsDurable}
use cups.Sgwc.Wal.Replay.{replay}
use cups.Sgwc.Store.{
  Store, create, new_store_with_persister, ok, err, persist, own_bearers, duplicate, persistence,
  poisoned,
}
use cups.Sgwc.Operations.{
  update, reconcile_pfcp_user_seid, delete, allocate_control_teid, allocate_from,
}
use cups.Sgwc.Find.{
  find_by_s5_teid, find_by_pfcp_control_seid, find_by_owner, find_by_subscriber_and_ebi,
  find_by_s11_teid,
}
use cups.Sgwc.Invariant.{has_s5, has_pfcp, has_owner}
use cups.Sgwc.Sound.{IsSound}
use cups.Sgwc.Frame.{Careful, CarefulDelete, operations-Careful}
use cups.Sgwc.Found.{Finds, Stored, lookups_by_index, find_by_s11_teid_newest}
use cups.Sgwc.Teids.{Unlike, allocate_control_teid-unused, allocate_control_teid-total, is_free}
use cups.Sgwc.Run.{
  Call, creates, updates, reconciles, deletes, apply_all, apply_all-IsSound, apply_all-Recovers,
  new_store-IsSound,
}

abbrev no_fteid : Fteid
no_fteid = record { teid = 0; ip = invalid }

abbrev bearer : Bearer
bearer = record {
  ebi = 5;
  qci = 9;
  arp = 1;
  preemption_capable = false;
  preemption_vulnerable = false;
  uplink_mbr = 0;
  downlink_mbr = 0;
  uplink_gbr = 0;
  downlink_gbr = 0;
  is_default = true;
  state = bearer_active;
  enb_user = no_fteid;
  sgwu_access = no_fteid;
  sgwu_core = no_fteid;
  pgw_user = no_fteid;
  rules = record {
    uplink_pdr = 1;
    downlink_pdr = 2;
    uplink_far = 3;
    downlink_far = 4;
    qer = 5;
    urr = 6;
  };
}

-- A session as a gateway hands it to Create: subscriber "a", APN "Ab".
abbrev candidate : Session
candidate = record {
  id = 0;
  revision = 0;
  subscriber_key = 97 ∷ [];
  apn = 65 ∷ 98 ∷ [];
  state = active;
  mme_control = record { teid = 7; ip = v4 1 };
  s11_control = record { teid = 8; ip = v4 2 };
  s5_control = record { teid = 9; ip = v4 2 };
  pgw_control = record { teid = 10; ip = v4 3 };
  pfcp_control_seid = 11;
  pfcp_user_seid = 12;
  bearers = (5, bearer) ∷ [];
  created_at = 0;
  updated_at = 0;
}

abbrev stored : Session
stored = record candidate { id = 1; revision = 1; created_at = 100; updated_at = 100 }

abbrev works : Answers
works = record { needs_compaction = false; compaction = replaced; appending = appended }

abbrev compacts_first : Answers
compacts_first = record { needs_compaction = true; compaction = replaced; appending = appended }

abbrev fails : Answers
fails = record { needs_compaction = false; compaction = replaced; appending = lost }

abbrev doubts : Answers
doubts = record { needs_compaction = false; compaction = replaced; appending = doubted }

abbrev empty_wal : Wal
empty_wal = record { journal = record { records = []; failed = false }; snapshots = [] }

abbrev empty : Store
empty = new_store_with_persister 3 (some empty_wal)

abbrev store : Store
store = (create 100 works empty candidate).0

create_test : (create 100 works empty candidate).1 ≡ ok stored
unfolding create new_store_with_persister validate validate_wal_session persist commit write
    transition_ok get ℕ_discrete Text-discrete
create_test = refl

create_again_test : (create 100 works store candidate).1 ≡ err duplicate
unfolding create new_store_with_persister validate validate_wal_session persist commit write
    transition_ok get put ℕ_discrete Text-discrete
create_again_test = refl

failed_test : (create 100 fails empty candidate).1 ≡ err persistence
unfolding create new_store_with_persister validate validate_wal_session persist commit write
    transition_ok get ℕ_discrete Text-discrete
failed_test = refl

-- The frame that was not synced is in the file, and the store does not have its session.
unsynced_test :
    (create 100 doubts empty candidate).0.persister
    ≡ some (record {
      journal = record {
        records = record { operation = upsert; session = stored } ∷ [];
        failed = true;
      };
      snapshots = [];
    })
unfolding create new_store_with_persister validate validate_wal_session persist commit write
    transition_ok get ℕ_discrete Text-discrete
unsynced_test = refl

poisoned_test : (create 100 works (create 100 fails empty candidate).0 candidate).1 ≡ err poisoned
unfolding create new_store_with_persister validate validate_wal_session persist commit write
    transition_ok get ℕ_discrete Text-discrete
poisoned_test = refl

empty_wal-IsDurable : IsDurable empty_wal
unfolding replay
empty_wal-IsDurable = record {
  keyed = tt;
  valid = tt;
  recovers = (record { snapshot_phase = true; by_id = [] }, refl, λ i. refl);
}

empty-IsSound : IsSound empty
empty-IsSound = new_store-IsSound 3 empty_wal empty_wal-IsDurable refl

first_id_test : empty.next_id ≡ 0
unfolding new_store_with_persister
first_id_test = refl

store-IsSound : IsSound store
unfolding apply_all
store-IsSound =
    apply_all-IsSound empty (creates 100 works candidate ∷ []) empty-IsSound
      (omega (arith, first_id_test))

abbrev with_tower : Session → Option Session
with_tower x = some (record x { pgw_control = record { teid = 20; ip = v4 3 } })

abbrev moved : Session
moved = record stored {
  pgw_control = record { teid = 20; ip = v4 3 };
  revision = 2;
  updated_at = 200;
}

update_test : (update 200 compacts_first store 1 1 with_tower).1 ≡ ok moved
unfolding update create new_store_with_persister validate validate_wal_session persist commit write
    transition_ok valid_wal_update live_records get put ℕ_discrete Text-discrete Session-discrete
    Fteid-discrete own_bearers BearerOwner-discrete Addr-discrete Bearer-discrete
    BearerState-discrete
update_test = refl

abbrev calls : List Call
calls =
    creates 100 works candidate
    ∷ updates 200 compacts_first 1 1 with_tower
    ∷ reconciles 300 works 1 2 13
    ∷ deletes doubts 1 3
    ∷ []

apply_all-IsSound_example : IsSound (apply_all empty calls)
apply_all-IsSound_example =
    apply_all-IsSound empty calls empty-IsSound (omega (arith, first_id_test))

abbrev wal : Wal
wal = (commit works none (some stored) empty_wal).0

persister_test : (apply_all empty (creates 100 works candidate ∷ [])).persister ≡ some wal
unfolding apply_all create new_store_with_persister validate validate_wal_session persist commit
    write transition_ok get ℕ_discrete Text-discrete
persister_test = refl

apply_all-Recovers_example :
    Recovers wal.journal (apply_all empty (creates 100 works candidate ∷ [])).by_id
apply_all-Recovers_example =
    apply_all-Recovers empty (creates 100 works candidate ∷ []) wal empty-IsSound
      (omega (arith, first_id_test)) persister_test

commit-IsDurable_example : IsDurable (commit works none (some stored) empty_wal).0
commit-IsDurable_example = commit-IsDurable works none (some stored) empty_wal empty_wal-IsDurable

lookups_by_index_example :
    Finds store (find_by_s5_teid store 9) stored (has_s5 stored 9)
    × Finds store (find_by_pfcp_control_seid store 9) stored (has_pfcp stored 9)
    × Finds store
        (find_by_owner store (97 ∷ []) (97 ∷ []))
        stored
        (has_owner stored (owner_key (97 ∷ []) (97 ∷ [])))
    × Finds store
        (find_by_subscriber_and_ebi store (97 ∷ []) 5)
        stored
        (same stored.subscriber_key (97 ∷ []) && has 5 stored.bearers)
lookups_by_index_example = lookups_by_index store 9 (97 ∷ []) (97 ∷ []) 5 stored store-IsSound.valid

stored_test : get 1 store.by_id ≡ some stored
unfolding create new_store_with_persister validate validate_wal_session persist commit write
    transition_ok get put ℕ_discrete Text-discrete
stored_test = refl

find_by_s11_teid_newest_example :
    (y : Session) × (find_by_s11_teid store 8 ≡ some (some y))
    × Stored store y
    × (y.s11_control.teid ≡ 8)
    × (1 ≤ y.id)
find_by_s11_teid_newest_example =
    find_by_s11_teid_newest store 8 1 stored store-IsSound.valid stored_test refl

operations-Careful_example :
    Careful store (create 200 fails store candidate)
    × Careful store (update 200 fails store 1 1 with_tower)
    × Careful store (reconcile_pfcp_user_seid 200 fails store 1 1 13)
    × CarefulDelete store (delete fails store 1 1)
operations-Careful_example = operations-Careful 200 fails store candidate 1 1 13 with_tower

abbrev allocated : ℕ
allocated = 255

abbrev random : ℕ → Option ℕ
random n = some n

random_test : allocate_control_teid store random ≡ ok 255
unfolding allocate_control_teid allocate_from create new_store_with_persister validate
    validate_wal_session persist commit write transition_ok get put ℕ_discrete Text-discrete
random_test = refl

allocate_control_teid-unused_example : (allocated ≢ 0) × AllEntries (Unlike 255) store.by_id
allocate_control_teid-unused_example =
    allocate_control_teid-unused store random 255 store-IsSound.valid random_test

free_test : is_free store 100 ≡ true
unfolding create new_store_with_persister validate validate_wal_session persist commit write
    transition_ok get put ℕ_discrete Text-discrete
free_test = refl

allocate_control_teid-total_example : (teid : ℕ) × (allocate_control_teid store random ≡ ok teid)
allocate_control_teid-total_example =
    allocate_control_teid-total store 100 random 100 (omega arith) (λ j. refl) refl free_test
