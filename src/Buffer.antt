-- ===== src/Buffer.antt =====
-- internal/sgwu/dataplane/buffer.go: the idle downlink buffer, one bounded pool for each QCI. The
-- mutex makes each method one step. The pointers to pool states are the entries of `classes`;
-- `none` is a nil dereference, which the theorems exclude. Sizes and limits are Go ints, where a
-- limit that is not positive is refused and stands here as 0; counters wrap at 2 ^ 64.
pub mod Invariant
pub mod Enqueue
pub mod Restore
pub mod Sweep
pub mod Order
pub mod Initial
mod Tests
use cups.Base.{
  ℕ, zero, suc, ◌+◌, ◌-◌, min, Bool, true, false, not, ◌&&◌, ◌||◌, Option, none, some, List, [],
  ◌∷◌, ◌++◌, ltb, leb, ◌==◌, ◌!=◌, if◌then◌else◌, Map, get, put, del, has, length, take, drop, keep,
  map, foldl, sort, ◌>>=◌, add64, sub64, DecEq, nat_eq, ℕ_discrete,
}

pub record BufferClassConfig : Type 0 where
  pub qci : ℕ
  pub max_packets : ℕ
  pub max_bytes : ℕ
  pub max_packets_per_bearer : ℕ
  pub hold_time : ℕ

pub record BufferKey : Type 0 where
  pub up_seid : ℕ
  pub pdr_id : ℕ

pub BufferKey-discrete : Discrete BufferKey
BufferKey-discrete = hlevel ℕ_discrete

instance abbrev pub buffer_key_eq : DecEq BufferKey
buffer_key_eq = record { decide = BufferKey-discrete }

pub record BufferedFrame : Type 0 where
  pub wire : List ℕ
  pub payload_bytes : ℕ
  pub enqueued : ℕ

pub record DrainedBuffer : Type 0 where
  pub pool : ℕ
  pub frames : List BufferedFrame

pub record BearerBuffer : Type 0 where
  pub pool : ℕ
  pub frames : List BufferedFrame
  pub bytes : ℕ

pub record ClassState : Type 0 where
  pub config : BufferClassConfig
  pub current_packets : ℕ
  pub current_bytes : ℕ
  pub enqueued : ℕ
  pub flushed : ℕ
  pub expired : ℕ
  pub overflow_drops : ℕ
  pub purged : ℕ

pub record PacketBuffer : Type 0 where
  pub classes : Map ℕ ClassState
  pub queues : Map BufferKey BearerBuffer

abbrev pub config_ok : BufferClassConfig → Bool
config_ok c =
    ltb 0 c.max_packets
    && ltb 0 c.max_bytes
    && ltb 0 c.max_packets_per_bearer
    && leb c.max_packets_per_bearer c.max_packets
    && ltb 0 c.hold_time

abbrev pub fresh_class : BufferClassConfig → ClassState
fresh_class c = record {
  config = c;
  current_packets = 0;
  current_bytes = 0;
  enqueued = 0;
  flushed = 0;
  expired = 0;
  overflow_drops = 0;
  purged = 0;
}

pub add_classes : List BufferClassConfig → Map ℕ ClassState → Option (Map ℕ ClassState)
add_classes [] m = some m
add_classes (c ∷ cs) m =
    let rest = add_classes cs (put c.qci (fresh_class c) m) in
    if has c.qci m || not (config_ok c) then none else rest

-- Here `none` is the error that newPacketBuffer returns.
pub new_packet_buffer : List BufferClassConfig → Option PacketBuffer
unfolding add_classes
new_packet_buffer [] = none
new_packet_buffer (c ∷ cs) = do
  classes ← add_classes (c ∷ cs) []
  if has 0 classes then some (record { classes = classes; queues = [] }) else none

-- A write through the pointer to a pool's state.
pub update_class : ℕ → (ClassState → ClassState) → PacketBuffer → Option PacketBuffer
update_class pool f b = do
  c ← get pool b.classes
  some (record b { classes = put pool (f c) b.classes })

-- The pool that serves a QCI.
abbrev pub pool_id : PacketBuffer → ℕ → ℕ
pool_id b qci = if has qci b.classes then qci else 0

pub purge_queue : BufferKey → BearerBuffer → Bool → PacketBuffer → Option PacketBuffer
unfolding update_class
purge_queue key queue explicit b =
    let count = length queue.frames in
    update_class queue.pool
      (λ c. record c {
        current_packets = sub64 c.current_packets count;
        current_bytes = sub64 c.current_bytes queue.bytes;
        purged = if explicit then add64 c.purged count else c.purged;
        overflow_drops = if explicit then c.overflow_drops else add64 c.overflow_drops count;
      })
      (record b { queues = del key b.queues })

-- Drops the bearer's queue if it stands in another pool.
abbrev pub evict : PacketBuffer → BufferKey → ℕ → Option BearerBuffer → Option PacketBuffer
evict b key pool none = some b
evict b key pool (some q) = if q.pool == pool then some b else purge_queue key q false b

abbrev pub queue_or_new : ℕ → Option BearerBuffer → BearerBuffer
queue_or_new pool none = record { pool = pool; frames = []; bytes = 0 }
queue_or_new pool (some q) = q

-- `packet_bytes > max_bytes - current_bytes`, between signed integers.
abbrev pub is_full : ClassState → BearerBuffer → ℕ → Bool
is_full c q packet_bytes =
    leb c.config.max_packets_per_bearer (length q.frames)
    || leb c.config.max_packets c.current_packets
    || ltb c.config.max_bytes (packet_bytes + c.current_bytes)

abbrev pub append_frame : BearerBuffer → BufferedFrame → BearerBuffer
append_frame q f = record q { frames = q.frames ++ (f ∷ []); bytes = q.bytes + length f.wire }

-- The step of enqueue after the eviction: the bearer's queue `q` stands in `pool`, of state `c`.
pub admit :
    PacketBuffer → BufferKey → ℕ → ClassState → BearerBuffer → BufferedFrame → PacketBuffer × Bool
admit b key pool c q f =
    if is_full c q (length f.wire)
    then (
      record {
        classes = put pool (record c { overflow_drops = add64 c.overflow_drops 1 }) b.classes;
        queues = put key q b.queues;
      },
      false,
    )
    else (
      record {
        classes =
            put pool
              (record c {
                current_packets = add64 c.current_packets 1;
                current_bytes = add64 c.current_bytes (length f.wire);
                enqueued = add64 c.enqueued 1;
              })
              b.classes;
        queues = put key (append_frame q f) b.queues;
      },
      true,
    )

pub enqueue : PacketBuffer → BufferKey → ℕ → List ℕ → ℕ → ℕ → Option (PacketBuffer × Bool)
unfolding purge_queue admit
enqueue b key qci packet payload_bytes now = do
  let pool = pool_id b qci
  b' ← evict b key pool (get key b.queues)
  c ← get pool b'.classes
  some (
      admit b' key pool c (queue_or_new pool (get key b'.queues))
        (record { wire = packet; payload_bytes = payload_bytes; enqueued = now }))

abbrev pub drain_found :
    PacketBuffer → BufferKey → Option BearerBuffer → Option (PacketBuffer × DrainedBuffer)
drain_found b key none = some (b, record { pool = 0; frames = [] })
drain_found b key (some q) = do
  b' ←
      update_class q.pool
        (λ c. record c {
          current_packets = sub64 c.current_packets (length q.frames);
          current_bytes = sub64 c.current_bytes q.bytes;
          flushed = add64 c.flushed (length q.frames);
        })
        (record b { queues = del key b.queues })
  some (b', record { pool = q.pool; frames = q.frames })

pub drain : PacketBuffer → BufferKey → Option (PacketBuffer × DrainedBuffer)
unfolding update_class
drain b key = drain_found b key (get key b.queues)

pub frames_bytes : List BufferedFrame → ℕ
frames_bytes [] = 0
frames_bytes (f ∷ fs) = length f.wire + frames_bytes fs

-- How many candidates restore takes: `packets` is the number of places left, `room` the test
-- `frame_bytes > available_bytes - accepted_bytes` between signed integers.
pub accept : ℕ → ℕ → ℕ → List BufferedFrame → ℕ
accept packets limit used [] = 0
accept zero limit used (f ∷ fs) = 0
accept (suc packets) limit used (f ∷ fs) =
    let more = accept packets limit (used + length f.wire) fs in
    if ltb limit (length f.wire + used) then 0 else suc more

-- Takes back the flushes of the drained frames, if the drained pool is known.
abbrev pub unflush : ℕ → ℕ → PacketBuffer → Option ClassState → PacketBuffer
unflush pool count b none = b
unflush pool count b (some c) = record b {
  classes =
      put pool (record c { flushed = if leb count c.flushed then c.flushed - count else 0 })
        b.classes;
}

-- Takes the bearer's queue out of its pool.
pub detach : PacketBuffer → BufferKey → Option BearerBuffer → Option PacketBuffer
unfolding update_class
detach b key none = some b
detach b key (some q) =
    update_class q.pool
      (λ c. record c {
        current_packets = sub64 c.current_packets (length q.frames);
        current_bytes = sub64 c.current_bytes q.bytes;
      })
      (record b { queues = del key b.queues })

abbrev pub frames_of : Option BearerBuffer → List BufferedFrame
frames_of none = []
frames_of (some q) = q.frames

-- The step of restore once the bearer has no queue: keeps the candidates that fit into the pool.
pub readmit : PacketBuffer → BufferKey → ℕ → ClassState → List BufferedFrame → PacketBuffer
unfolding accept frames_bytes
readmit b key pool c candidates =
    let places = min (c.config.max_packets - c.current_packets) c.config.max_packets_per_bearer in
    let count = accept places c.config.max_bytes c.current_bytes candidates in
    let kept = take count candidates in
    let bytes = frames_bytes kept in
    let drops = add64 c.overflow_drops (length candidates - count) in
    if ltb 0 count
    then record {
      classes =
          put pool
            (record c {
              current_packets = add64 c.current_packets count;
              current_bytes = add64 c.current_bytes bytes;
              overflow_drops = drops;
            })
            b.classes;
      queues = put key (record { pool = pool; frames = kept; bytes = bytes }) b.queues;
    }
    else record b { classes = put pool (record c { overflow_drops = drops }) b.classes }

pub restore : PacketBuffer → BufferKey → ℕ → ℕ → List BufferedFrame → Option PacketBuffer
unfolding detach readmit
restore b key drained_pool qci [] = some b
restore b key drained_pool qci (f ∷ fs) = do
  let b₁ = unflush drained_pool (length (f ∷ fs)) b (get drained_pool b.classes)
  let pool = pool_id b₁ qci
  let existing = get key b₁.queues
  b₂ ← detach b₁ key existing
  c ← get pool b₂.classes
  some (readmit b₂ key pool c ((f ∷ fs) ++ frames_of existing))

pub keys : PacketBuffer → ℕ → List BufferKey
keys b up_seid = keep (λ k. k.up_seid == up_seid) (map (λ e. e.0) b.queues)

-- The length of the prefix of frames that were held for long enough.
pub stale : ℕ → ℕ → List BufferedFrame → ℕ
stale hold now [] = 0
stale hold now (f ∷ fs) =
    let more = stale hold now fs in if leb (f.enqueued + hold) now then suc more else 0

-- One visit of expire's loop, at a queue with the pool's state `c`.
pub expire_queue : ℕ → PacketBuffer → BufferKey → BearerBuffer → ClassState → PacketBuffer × ℕ
unfolding stale frames_bytes
expire_queue now b key q c =
    let cut = stale c.config.hold_time now q.frames in
    let bytes = frames_bytes (take cut q.frames) in
    let rest = drop cut q.frames in
    if cut == 0 then (b, 0) else (
      record {
        classes =
            put q.pool
              (record c {
                current_packets = sub64 c.current_packets cut;
                current_bytes = sub64 c.current_bytes bytes;
                expired = add64 c.expired cut;
              })
              b.classes;
        queues =
            if length rest == 0
            then del key b.queues
            else put key (record q { frames = rest; bytes = q.bytes - bytes }) b.queues;
      },
      cut,
    )

-- The loop over the queues that expire found; a visit changes no other queue.
pub expire_all : ℕ → List (BufferKey × BearerBuffer) → PacketBuffer → ℕ → Option (PacketBuffer × ℕ)
unfolding expire_queue
expire_all now [] b total = some (b, total)
expire_all now ((key, q) ∷ qs) b total = do
  c ← get q.pool b.classes
  let (b', cut) = expire_queue now b key q c
  expire_all now qs b' (add64 total cut)

pub expire : PacketBuffer → ℕ → Option (PacketBuffer × ℕ)
unfolding expire_all
expire b now = expire_all now b.queues b 0

pub purge_all : ℕ → List (BufferKey × BearerBuffer) → PacketBuffer → ℕ → Option (PacketBuffer × ℕ)
unfolding purge_queue
purge_all up_seid [] b total = some (b, total)
purge_all up_seid ((key, q) ∷ qs) b total =
    let skip = purge_all up_seid qs b total in
    let hit =
      purge_queue key q true b >>= λ b'. purge_all up_seid qs b' (add64 total (length q.frames)) in
    if key.up_seid == up_seid then hit else skip

pub purge_session : PacketBuffer → ℕ → Option (PacketBuffer × ℕ)
unfolding purge_all
purge_session b up_seid = purge_all up_seid b.queues b 0

pub record Counters : Type 0 where
  pub qci : ℕ
  pub current_packets : ℕ
  pub current_bytes : ℕ
  pub enqueued : ℕ
  pub flushed : ℕ
  pub expired : ℕ
  pub overflow_drops : ℕ
  pub purged : ℕ

abbrev class_counters : ClassState → Counters
class_counters c = record {
  qci = c.config.qci;
  current_packets = c.current_packets;
  current_bytes = c.current_bytes;
  enqueued = c.enqueued;
  flushed = c.flushed;
  expired = c.expired;
  overflow_drops = c.overflow_drops;
  purged = c.purged;
}

abbrev add_counters : Counters → Counters → Counters
add_counters t c = record {
  qci = t.qci;
  current_packets = add64 t.current_packets c.current_packets;
  current_bytes = add64 t.current_bytes c.current_bytes;
  enqueued = add64 t.enqueued c.enqueued;
  flushed = add64 t.flushed c.flushed;
  expired = add64 t.expired c.expired;
  overflow_drops = add64 t.overflow_drops c.overflow_drops;
  purged = add64 t.purged c.purged;
}

-- The totals, and the classes by QCI. The totals carry no QCI: it stands here as 0.
pub counters : PacketBuffer → Counters × List Counters
counters b =
    let cs = map (λ e. class_counters e.1) b.classes in
    (
      foldl add_counters
          (record {
            qci = 0;
            current_packets = 0;
            current_bytes = 0;
            enqueued = 0;
            flushed = 0;
            expired = 0;
            overflow_drops = 0;
            purged = 0;
          })
          cs,
      sort (λ x y. ltb x.qci y.qci) cs,
    )
