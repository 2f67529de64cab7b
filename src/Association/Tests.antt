-- ===== src/Association/Tests.antt =====
-- internal/pfcp/association/manager.go at concrete inputs.
use cups.Base.{
  ℕ, List, All, ◌+◌, ◌≤◌, ◌≡◌, ◌↔◌, refl, inl, some, [], ◌∷◌, arith, get, put, ℕ_discrete, nat_eq,
}
use cups.Net.{Addr, v4, unmap, addr_eq, Addr-discrete}
use cups.Association.{
  Call, Config, new, pos, unavailable, associated, grace, reconciling, Record, Manager, sets_up,
  completes, sweeps, step, run, setup, sweep, state_of,
}
use cups.Association.Invariant.{IsValid, run-IsValid, step-IsValid}
use cups.Association.Lifecycle.{
  Next, held, step-Next, setups_keep_deadline, InGrace, Spares, sweep_lapses_iff, sweep_expires_iff,
}

abbrev peer : Addr
peer = v4 1

abbrev other : Addr
other = v4 2

abbrev in_grace : Record
in_grace = record {
  peer = peer;
  node_address = peer;
  node_fqdn = [];
  recovery_time = 7;
  state = grace;
  established_at = 3;
  last_seen = 20;
  grace_started = 40;
  grace_deadline = 160;
}

abbrev active : Record
active = record {
  peer = other;
  node_address = other;
  node_fqdn = [];
  recovery_time = 7;
  state = associated;
  established_at = 3;
  last_seen = 90;
  grace_started = 0;
  grace_deadline = 0;
}

abbrev two_peers : Manager
two_peers = record {
  records = (peer, in_grace) ∷ (other, active) ∷ [];
  timeout = 15;
  grace_window = 120;
}

two_peers-IsValid : IsValid two_peers
unfolding get Addr-discrete ℕ_discrete
two_peers-IsValid = record {
  keyed = (refl, (refl, tt));
  entries = ((refl, (omega arith, omega arith)), ((refl, (omega arith, omega arith)), tt));
}

reconnects : state_of (setup two_peers 100 peer peer [] 8).0 peer ≡ reconciling
unfolding setup state_of unmap get put Addr-discrete ℕ_discrete
reconnects = refl

step-IsValid_example : IsValid (step two_peers (100, sets_up peer peer [] 8))
step-IsValid_example =
    step-IsValid two_peers 100 (sets_up peer peer [] 8) (omega arith) two_peers-IsValid

abbrev config : Config
config = record { timeout = pos 15; grace_window = pos 120 }

abbrev no_peers : Manager
no_peers = record { records = []; timeout = 15; grace_window = 120 }

new_test : new config ≡ some no_peers
unfolding new
new_test = refl

abbrev calls : List (ℕ × Call)
calls =
    (100, sets_up peer peer [] 8)
    ∷ (130, sweeps)
    ∷ (140, sets_up peer peer [] 9)
    ∷ (150, completes peer)
    ∷ []

run-IsValid_example : IsValid (run no_peers calls)
run-IsValid_example = run-IsValid config no_peers calls new_test (omega arith)

step-Next_example :
    Next
      (sets_up peer peer [] 8)
      (held two_peers peer)
      (held (step two_peers (100, sets_up peer peer [] 8)) peer)
unfolding unmap get Addr-discrete ℕ_discrete
step-Next_example = step-Next two_peers 100 (sets_up peer peer [] 8) peer refl

abbrev reconnections : List (ℕ × Call)
reconnections =
    (100, sets_up peer peer [] 8)
    ∷ (110, completes other)
    ∷ (140, sets_up peer peer [] 9)
    ∷ (159, sweeps)
    ∷ []

reconnections-Spares : All (Spares peer 160) reconnections
unfolding unmap
reconnections-Spares = (tt, ((λ e. cc e), (tt, (omega arith, tt))))

setups_keep_deadline_example : InGrace peer 160 (run two_peers reconnections)
unfolding get Addr-discrete ℕ_discrete
setups_keep_deadline_example =
    setups_keep_deadline reconnections two_peers peer 160 two_peers-IsValid (omega arith)
      reconnections-Spares (in_grace, refl, inl refl, refl)

sweep_lapses_iff_example : (held (sweep two_peers 105).0 other ≡ some grace) ↔ (90 + 15 ≤ 105)
unfolding get Addr-discrete ℕ_discrete
sweep_lapses_iff_example =
    sweep_lapses_iff two_peers 105 other active (omega arith) refl refl (omega arith)

sweep_expires_iff_example :
    (held (sweep two_peers 160).0 peer ≡ some unavailable) ↔ (40 + 120 ≤ 160)
unfolding get Addr-discrete ℕ_discrete
sweep_expires_iff_example =
    sweep_expires_iff two_peers 160 peer in_grace two_peers-IsValid refl (inl refl)
