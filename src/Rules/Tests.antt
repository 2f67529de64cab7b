-- ===== src/Rules/Tests.antt =====
-- internal/sgwu/rules/store.go at a concrete store with one session.
use cups.Base.{
  List, All, ◌≤◌, subst, ◌≡◌, ◌≢◌, refl, false, some, [], ◌∷◌, get, put, del, ℕ_discrete, nat_eq,
  IsKeyed,
}
use cups.Net.{v4}
use cups.Rules.{
  Pdr, Far, Session, PacketRule, TunnelKey, tunnel_key_eq, pdr_key_eq, TunnelKey-discrete,
  PdrKey-discrete,
}
use cups.Rules.Validate.{validate, pdr_ok, far_ok, qer_ok, urr_ok, bar_ok}
use cups.Rules.Compile.{compile_packet_rule, add_qers, add_urrs, add_bar, bare}
use cups.Rules.Store.{
  Store, duplicate, conflict, Result, ok, err, tunnel_of, new_store_with_limit, index_pdrs,
  unindex_pdrs,
}
use cups.Rules.Operations.{create, update, delete, find_by_up_seid, lookup_packet, is_active}
use cups.Rules.Run.{
  Call, creates, updates, deletes, IsMap, apply_all, apply_all-IsValid, apply_all-lookup_packet,
}
use cups.Rules.Invariant.{IsValid}
use cups.Rules.Create.{create-IsValid, new_store-IsValid}
use cups.Rules.Lookup.{lookup_packet_current, delete_unreachable}
use cups.Rules.Outcome.{update_retires}

abbrev pdr : Pdr
pdr = record {
  id = 1;
  precedence = 100;
  source_interface = 0;
  local_fteid = record { teid = 77; ip = v4 9 };
  far_id = 3;
  qer_ids = [];
  urr_ids = [];
}

abbrev far : Far
far = record {
  id = 3;
  apply_action = 2;
  destination_interface = 1;
  outer_header = some (record { teid = 55; ip = v4 8 });
  bar_id = 0;
}

abbrev session : Session
session = record {
  cp_seid = 10;
  up_seid = 20;
  revision = 0;
  pdrs = (1, pdr) ∷ [];
  fars = (3, far) ∷ [];
  qers = [];
  urrs = [];
  bars = [];
}

abbrev first : Session
first = record session { revision = 1 }

abbrev second : Session
second = record session { revision = 2 }

abbrev empty : Store
empty = new_store_with_limit 5

abbrev store : Store
store = (create empty session).0

abbrev rule : PacketRule
rule = record (bare first pdr far) { generation = some 0 }

abbrev keep_session : Session → Result Session
keep_session x = ok (record x { pdrs = (1, pdr) ∷ [] })

session-IsKeyed : IsKeyed session.pdrs
unfolding get
session-IsKeyed = (refl, tt)

create_test : (create empty session).1 ≡ ok first
unfolding new_store_with_limit create validate pdr_ok far_ok qer_ok urr_ok bar_ok get ℕ_discrete
create_test = refl

store-IsValid : IsValid store
store-IsValid = create-IsValid empty session (new_store-IsValid 5) session-IsKeyed

lookup_test : lookup_packet store 0 77 ≡ some rule
unfolding lookup_packet new_store_with_limit create validate pdr_ok far_ok qer_ok urr_ok bar_ok get
    put index_pdrs compile_packet_rule add_qers add_urrs add_bar ℕ_discrete TunnelKey-discrete
    PdrKey-discrete
lookup_test = refl

find_test : find_by_up_seid store 20 ≡ some first
unfolding find_by_up_seid new_store_with_limit create validate pdr_ok far_ok qer_ok urr_ok bar_ok
    get put ℕ_discrete
find_test = refl

update_test : (update store 20 1 keep_session).1 ≡ ok second
unfolding update new_store_with_limit create validate pdr_ok far_ok qer_ok urr_ok bar_ok get put
    index_pdrs compile_packet_rule add_qers add_urrs add_bar ℕ_discrete TunnelKey-discrete
    PdrKey-discrete
update_test = refl

delete_test : (delete store 20 1).1 ≡ ok 20
unfolding delete new_store_with_limit create validate pdr_ok far_ok qer_ok urr_ok bar_ok get put
    ℕ_discrete
delete_test = refl

abbrev tunnel : TunnelKey
tunnel = record { source = 0; teid = 77 }

abbrev other_pdr : Pdr
other_pdr = record pdr { local_fteid = record { teid = 78; ip = v4 9 } }

abbrev other : Session
other = record session { cp_seid = 11; up_seid = 21; pdrs = (1, other_pdr) ∷ [] }

abbrev other_rule : PacketRule
other_rule = record (bare (record other { revision = 1 }) other_pdr far) { generation = some 1 }

abbrev both_store : Store
both_store = (create store other).0

other-IsKeyed : IsKeyed other.pdrs
unfolding get
other-IsKeyed = (refl, tt)

both-IsValid : IsValid both_store
both-IsValid = create-IsValid store other store-IsValid other-IsKeyed

keep_session-IsKeyed : (x n : Session) → keep_session x ≡ ok n → IsKeyed n.pdrs
unfolding get
keep_session-IsKeyed x n e =
    let same : record x { pdrs = (1, pdr) ∷ [] } ≡ n = cc in
    subst (λ (y : Session). IsKeyed y.pdrs) same (refl, tt)

create_again_test : (create store session).1 ≡ err duplicate
unfolding new_store_with_limit create validate pdr_ok far_ok qer_ok urr_ok bar_ok get put index_pdrs
    compile_packet_rule add_qers add_urrs add_bar ℕ_discrete TunnelKey-discrete PdrKey-discrete
create_again_test = refl

update_conflict_test : (update store 20 9 keep_session).1 ≡ err conflict
unfolding update new_store_with_limit create validate pdr_ok far_ok qer_ok urr_ok bar_ok get put
    index_pdrs compile_packet_rule add_qers add_urrs add_bar ℕ_discrete TunnelKey-discrete
    PdrKey-discrete
update_conflict_test = refl

both_delete_test : (delete both_store 20 1).1 ≡ ok 20
unfolding delete del unindex_pdrs new_store_with_limit create validate pdr_ok far_ok qer_ok urr_ok
    bar_ok get put index_pdrs compile_packet_rule add_qers add_urrs add_bar ℕ_discrete
    TunnelKey-discrete PdrKey-discrete
both_delete_test = refl

after_delete_test : lookup_packet (delete both_store 20 1).0 0 78 ≡ some other_rule
unfolding lookup_packet delete new_store_with_limit create validate pdr_ok far_ok qer_ok urr_ok
    bar_ok get put del index_pdrs unindex_pdrs compile_packet_rule add_qers add_urrs add_bar
    ℕ_discrete TunnelKey-discrete PdrKey-discrete
after_delete_test = refl

lookup_packet_current_example :
    (c : Session) × (find_by_up_seid store 20 ≡ some c)
    × (1 ≡ c.revision)
    × (get 1 c.pdrs ≡ some pdr)
    × (tunnel_of pdr ≡ record { source = 0; teid = 77 })
    × (get 3 c.fars ≡ some far)
lookup_packet_current_example = lookup_packet_current store 0 77 rule store-IsValid lookup_test

delete_unreachable_example : other.up_seid ≢ session.up_seid
delete_unreachable_example =
    delete_unreachable both_store 20 1 0 78 other_rule both-IsValid both_delete_test
      after_delete_test

update_retires_example : is_active (update store 20 1 keep_session).0 (some 0) ≡ false
update_retires_example =
    update_retires store 20 1 0 77 keep_session second rule store-IsValid lookup_test refl
      update_test

abbrev calls : List Call
calls = creates session ∷ updates 20 1 keep_session ∷ creates other ∷ deletes 21 1 ∷ []

calls-IsMap : All IsMap calls
calls-IsMap = (session-IsKeyed, (keep_session-IsKeyed, (other-IsKeyed, (tt, tt))))

apply_all-IsValid_example : (t : Store) × (apply_all empty calls ≡ some t) × IsValid t
apply_all-IsValid_example = apply_all-IsValid 5 calls calls-IsMap

one-IsMap : All IsMap (creates session ∷ [])
one-IsMap = (session-IsKeyed, tt)

apply_test : apply_all empty (creates session ∷ []) ≡ some store
unfolding apply_all
apply_test = refl

get_test : get 1 first.pdrs ≡ some pdr
unfolding get ℕ_discrete
get_test = refl

apply_all-lookup_packet_example :
    (r : PacketRule) × (lookup_packet store 0 77 ≡ some r)
    × (r.up_seid ≡ 20)
    × (r.pdr.precedence ≤ 100)
apply_all-lookup_packet_example =
    apply_all-lookup_packet 5 (creates session ∷ []) store 20 first 1 pdr one-IsMap apply_test
      find_test get_test
