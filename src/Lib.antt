-- ===== src/Lib.antt =====
-- Lodestar CUPS: the control and user planes of an SGW and a PGW, and what keeps them correct.
--
-- The program. A gateway is split in a control plane (SGW-C, PGW-C), which speaks GTPv2-C with its
-- neighbours and PFCP with its user plane, and a user plane (SGW-U, PGW-U), which forwards GTP-U
-- packets by the rules that PFCP installed. The control plane follows each PFCP peer through an
-- association with a grace period (internal/pfcp/association). The PGW-C leases an IPv4 address
-- to a session (internal/pgwc/ipam). The SGW-C keeps its sessions and bearers in a store with an
-- index for each key that a message may carry, and commits every change to a journal first
-- (internal/sgwc/session). The SGW-U keeps the rules of a session and the indexes that
-- its packet path reads (internal/sgwu/rules), and buffers the packets of idle bearers until the
-- control plane has them drained; its policy engine holds each bearer to its gates and
-- rates and meters its volume (internal/sgwu/dataplane). The user plane reports the volumes it
-- counted; the control plane checks and totals the reports, each exactly once, in a ledger over a
-- journal (internal/pfcp/usagereport). Where there are several user-plane nodes, a selector places
-- each session on one of them and keeps it there (internal/userplane).
--
-- The files. Each component has one file of definitions, or one per group of functions, with the
-- proofs in the modules below it, and a module Tests with runs at concrete inputs.
--
--   Base         shared names: lists, Go maps as association lists with decidable keys, sums over
--                a map, sorting, bitmaps, 64-bit words, chains of steps that may fail
--   Net          the addresses of net/netip: v4, v6 and the zero Addr; Unmap and Less
--   Association  internal/pfcp/association/manager.go. Manager is the map of records; setup,
--                touch, sweep, complete, restore_unavailable, release, state_of, can_create,
--                can_mutate, snapshot and grace_remaining are its methods. Invariant has the times
--                of a record; Lifecycle the state machine of one peer
--   Buffer       internal/sgwu/dataplane/buffer.go. PacketBuffer is packetBuffer; enqueue, drain,
--                restore, expire, purge_session and counters are its methods. Invariant states
--                that a pool's counters are the sums over its queues; Enqueue, Restore, Sweep and
--                Initial that each operation keeps this; Order how pools depend on each other
--   Usage.Report internal/pfcp/usagereport/report.go: Report, its validation, saturating sums
--   Journal      internal/controlstate/journal.go as its clients see it: append and compact over the
--                records that a reopening would replay, with the mark of a failure; write is what
--                Commit of the WAL and write_to of the ledger do with them
--   Usage.Ledger internal/pfcp/usagereport/ledger.go, over the journal: accept, remove_session,
--                close, replay_all (OpenLedger) and write_to (compactIfNeeded, Append). Accept, Snapshot, Recovery and
--                Lifecycle lead from one batch to any run of calls; Atomic is about one batch
--   Ipam         internal/pgwc/ipam/pool.go. Pool is Pool, with the words of the bitmap as the list
--                of their bits; new, acquire, release, find, snapshot and restore. Invariant states
--                that bitmap, maps and count agree; Acquire, Release, Reserve and Initial have
--                the proofs for the methods
--   Rules        internal/sgwu/rules/store.go. Validate, Compile, Store and Operations hold the
--                code: validate, compilePacketRule, the store with its indexes byTunnel and byPDR
--                (one record, Index), and Create, Update, Reconcile, Delete and the lookups. Index,
--                Compiled, Validated, Invariant, Install, Create, Change, Delete, Lookup,
--                Outcome, Complete, Covered, Reachable and Covering hold the proofs for one call,
--                Run those for any sequence of calls
--   Sgwc         internal/sgwc/session/store.go and wal.go. Store and Operations hold the store with
--                its six indexes and Create, Update, ReconcilePFCPUserSEID, Delete, Restore and
--                AllocateControlTEID; Find the lookups; Wal, Wal.Replay and Wal.Open the WAL over
--                the journal. Invariant, Reads, Filing, Refiling,
--                Sound, Change, Frame, Found, Teids and Run hold the proofs, Wal.Durable and
--                Wal.Follows those about Commit
--   Policy       internal/sgwu/dataplane/policy.go. Policy holds the gates and the token buckets
--                (authorize, allow_rate, refill, rate_for_duration), Usage the meters (record_usage,
--                reconcile_session, delete_session). Rate is about rateForDuration; Bucket and
--                Limit about one limit over time; Charges, Payments and Verdict about a rule with
--                any QERs; Meter and Thresholds about the meters
--   Selector     internal/userplane/selector.go, over a score for rendezvousScore: new, assign,
--                restore, release, set_state, set_capacity, remove_node and snapshot. Invariant and
--                Steps are about usage and assignments through any calls; Placement, Assign and
--                Order about the node that Assign chooses, Sticky about how long an assignment stays
--   Gtpu         pkg/gtpu/header.go: parse, marshal and marshal_to over lists of bytes. A byte that
--                marshalPlanned does not write keeps the value that the buffer had. Extensions,
--                Fields and RoundTrip lead from one extension header to the packet; Buffer is
--                about MarshalTo
--
-- State and errors. A mutex makes a method one step, so a method is a function from the state to
-- the new state and its result; an error is a value of a result type, or `none` of a
-- constructor or Restore whose errors a caller does not tell apart. Elsewhere `none` is a panic,
-- where the code dereferences a pointer or a map entry that may be missing. The clock's reading is an
-- argument, and so is how the journal's steps end (Answers): an append is refused for its length,
-- fails before its frame is whole in the file or in Sync after it is, a compaction fails before or
-- after the rename. A journal that failed in a write takes no more records. A mutation passed to
-- Update is an argument too. A pointer to a rule generation is the number of its allocation, and its
-- atomic flag an entry of a map, so that a rule that the packet path loaded earlier can be asked for
-- its flag later. A lookup is one step, although the code loads the index and then the flag. Copies
-- (clone) are the identity.
--
-- Bounds. Identifiers, sequence numbers and counters are native numbers with their wrap-around or
-- saturation written out (% 2 ^ 32, % 2 ^ 64, saturating_add). Times and durations are nanoseconds,
-- as numbers where the code makes them non-negative; the recovery time of a batch of reports is an
-- integer second with its nanoseconds. The loop of Acquire runs for as many rounds
-- as the pool has addresses, as in the code, and this is shown to be enough below the limit. The
-- loop of Restore that looks for a clear address and the one of Snapshot have as many rounds as
-- the pool has addresses, which is the range that they walk. Parse's loop over the extension
-- headers has as many rounds as the frame has bytes, of which a round takes four at least. All
-- other loops are structural.
--
-- Maps. Go visits a map in no fixed order. The model visits the entries in the order of the list,
-- and the theorems hold for every list whose keys are distinct, hence for every order.
--
-- Not modelled: sockets, files and their framing, goroutines and channels, netlink and eBPF, HTTP,
-- configuration and telemetry; the wire formats of pkg/gtpv2 and pkg/pfcp, the session store
-- of the PGW-C, the journal's frames and the PGW-U, which are not in this library yet.
pub mod Base
pub mod Net
pub mod Association
pub mod Buffer
pub mod Usage
pub mod Ipam
pub mod Rules
pub mod Gtpu
pub mod Journal
pub mod Sgwc
pub mod Policy
pub mod Selector
