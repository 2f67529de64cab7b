-- ===== src/Buffer/Enqueue.antt =====
-- purgeQueueLocked, drain and enqueue of internal/sgwu/dataplane/buffer.go.
use cups.Base.{
  ℕ, ◌+◌, ◌≤◌, ◌≡◌, refl, subst, Bool, true, false, none, some, List, [], ◌∷◌, ◌++◌, arith, get,
  put, del, has, get-put, get-del_self, put-IsKeyed, Map, total-put_new, total-put_old, length,
  length-append, if◌then◌else◌, ◌==◌, Option-cases, Bool-cases, inl, inr, nat_eq, decide_key, sub64,
  add64,
}
use cups.Buffer.{
  BufferKey, BufferedFrame, BearerBuffer, ClassState, PacketBuffer, frames_bytes, buffer_key_eq,
  is_full, append_frame, admit, update_class, purge_queue, drain, evict, queue_or_new, enqueue,
  DrainedBuffer, pool_id,
}
use cups.Buffer.Invariant.{
  IsValid, QueueOk, packets_in, bytes_in, packets_of, bytes_of, move-IsValid, leave-IsValid,
  has-put,
}

pub class_at :
    (b : PacketBuffer) (pool : ℕ)
    → has pool b.classes ≡ true
    → (c : ClassState) × (get pool b.classes ≡ some c)
class_at b pool h = elim (Option-cases (get pool b.classes)) [
  | inl e ↦ absurd (ground arith)
  | inr r ↦ r
]

-- Purging a bearer's queue succeeds, takes that queue away and no other, and keeps the invariant.
pub purge_queue-IsValid :
    (b : PacketBuffer) (key : BufferKey) (q : BearerBuffer) (explicit : Bool)
    → IsValid b
    → get key b.queues ≡ some q
    → (b' : PacketBuffer) × (purge_queue key q explicit b ≡ some b')
      × IsValid b'
      × (b'.queues ≡ del key b.queues)
      × ((j : ℕ) → has j b.classes ≡ true → has j b'.classes ≡ true)
unfolding purge_queue update_class
purge_queue-IsValid b key q explicit v e =
    let (c, ec) = class_at b q.pool (v.queue_ok key q e).pooled in
    let c' = record c {
      current_packets = sub64 c.current_packets (length q.frames);
      current_bytes = sub64 c.current_bytes q.bytes;
      purged = if explicit then add64 c.purged (length q.frames) else c.purged;
      overflow_drops =
          if explicit then c.overflow_drops else add64 c.overflow_drops (length q.frames);
    } in
    (
      record { classes = put q.pool c' b.classes; queues = del key b.queues },
      rw (ec, purge_queue, update_class),
      leave-IsValid b key q c c' v e ec (refl, refl, refl),
      refl,
      λ j h. has-put j q.pool c' b.classes h,
    )

-- Draining always succeeds: it hands out the bearer's frames in order and leaves the bearer
-- without a queue, in a valid buffer.
pub drain-IsValid :
    (b : PacketBuffer) (key : BufferKey)
    → IsValid b
    → (b' : PacketBuffer) × (d : DrainedBuffer) × (drain b key ≡ some (b', d))
      × IsValid b'
      × (get key b'.queues ≡ none)
      × (d.frames ≡ (queue_or_new 0 (get key b.queues)).frames)
unfolding drain update_class
drain-IsValid b key v = elim (Option-cases (get key b.queues)) [
  | inl e ↦ (b, record { pool = 0; frames = [] }, rw (e, drain), v, e, rw e)
  | inr (q, e) ↦
      let (c, ec) = class_at b q.pool (v.queue_ok key q e).pooled in
      let c' = record c {
        current_packets = sub64 c.current_packets (length q.frames);
        current_bytes = sub64 c.current_bytes q.bytes;
        flushed = add64 c.flushed (length q.frames);
      } in
      (
        record { classes = put q.pool c' b.classes; queues = del key b.queues },
        record { pool = q.pool; frames = q.frames },
        rw (e, drain) (rw ec),
        leave-IsValid b key q c c' v e ec (refl, refl, refl),
        get-del_self key b.queues,
        rw e,
      )
]

-- What writing a bearer's queue does to the load of every pool.
pub packets_in-put :
    (j pool : ℕ) (key : BufferKey) (q : BearerBuffer) (qs : Map BufferKey BearerBuffer)
    → packets_in j (put key q qs) + packets_of j (queue_or_new pool (get key qs))
      ≡ packets_in j qs + packets_of j q
packets_in-put j pool key q qs = elim (Option-cases (get key qs)) [
  | inl e ↦ rw e (ground (arith, total-put_new (packets_of j) key q qs e))
  | inr (r, e) ↦ rw e (total-put_old (packets_of j) key q r qs e)
]

pub bytes_in-put :
    (j pool : ℕ) (key : BufferKey) (q : BearerBuffer) (qs : Map BufferKey BearerBuffer)
    → bytes_in j (put key q qs) + bytes_of j (queue_or_new pool (get key qs))
      ≡ bytes_in j qs + bytes_of j q
unfolding frames_bytes
bytes_in-put j pool key q qs = elim (Option-cases (get key qs)) [
  | inl e ↦ rw e (ground (arith, total-put_new (bytes_of j) key q qs e))
  | inr (r, e) ↦ rw e (total-put_old (bytes_of j) key q r qs e)
]

frames_bytes-append :
    (fs : List BufferedFrame) (f : BufferedFrame)
    → frames_bytes (fs ++ (f ∷ [])) ≡ frames_bytes fs + length f.wire
unfolding frames_bytes
frames_bytes-append [] f = omega arith
frames_bytes-append (g ∷ fs) f = omega (arith, frames_bytes-append fs f)

-- The bearer's queue as enqueue finds it once it has evicted: in `pool`, and counted.
abbrev pub Ready : PacketBuffer → BufferKey → ℕ → Type 0
Ready b key pool =
    let q = queue_or_new pool (get key b.queues) in
    (q.pool ≡ pool) × (q.bytes ≡ frames_bytes q.frames)

-- Writing a queue that stays in `pool`, with the pool's counters moved by the same amounts.
pub write-IsValid :
    (b : PacketBuffer) (key : BufferKey) (pool : ℕ) (c c' : ClassState) (q : BearerBuffer)
    → IsValid b
    → get pool b.classes ≡ some c
    → Ready b key pool
    → q.pool ≡ pool
    → q.bytes ≡ frames_bytes q.frames
    → c'.config ≡ c.config
    → c'.current_packets + length (queue_or_new pool (get key b.queues)).frames
      ≡ c.current_packets + length q.frames
    → c'.current_bytes + frames_bytes (queue_or_new pool (get key b.queues)).frames
      ≡ c.current_bytes + frames_bytes q.frames
    → c'.current_packets ≤ c.config.max_packets
    → c'.current_bytes ≤ c.config.max_bytes
    → IsValid (record { classes = put pool c' b.classes; queues = put key q b.queues })
write-IsValid b key pool c c' q v ec ready inside counted same hp hb lp lb =
    move-IsValid b pool c' (put key q b.queues) v (put-IsKeyed key q b.queues v.keyed)
      (λ j h. (
        ground (arith, packets_in-put j pool key q b.queues),
        ground (arith, bytes_in-put j pool key q b.queues),
      ))
      (let ok = v.class_ok pool c ec in
        ground
          (arith, packets_in-put pool pool key q b.queues, bytes_in-put pool pool key q b.queues))
      (λ k r h. elim (decide_key key k) [
        | yes p ↦
            let s : q ≡ r = ground (arith, get-put key k q b.queues) in
            subst (QueueOk b.classes) s (record { counted = counted; pooled = rw inside (rw ec) })
        | no p ↦ v.queue_ok k r (ground (arith, get-put key k q b.queues))
      ])

admit-IsValid :
    (b : PacketBuffer) (key : BufferKey) (pool : ℕ) (c : ClassState) (f : BufferedFrame)
    → IsValid b
    → get pool b.classes ≡ some c
    → Ready b key pool
    → IsValid (admit b key pool c (queue_or_new pool (get key b.queues)) f).0
unfolding admit
admit-IsValid b key pool c f v ec ready =
    let q = queue_or_new pool (get key b.queues) in
    let ok = v.class_ok pool c ec in
    elim (Bool-cases (is_full c q (length f.wire))) [
      | inl e ↦ rw e (
          write-IsValid b key pool c _ q v ec ready ready.0 ready.1 refl refl refl (omega arith)
            (omega arith))
      | inr e ↦ rw e (
          write-IsValid b key pool c _ (append_frame q f) v ec ready ready.0
            (omega (arith, frames_bytes-append q.frames f)) refl
            (ground (arith, length-append q.frames (f ∷ [])))
            (ground (arith, frames_bytes-append q.frames f)) (ground arith) (ground arith))
    ]

pub has-pool_id : (b : PacketBuffer) (qci : ℕ) → IsValid b → has (pool_id b qci) b.classes ≡ true
has-pool_id b qci v =
    let d = v.default in elim (Bool-cases (has qci b.classes)) [ inl e ↦ rw e e | inr e ↦ rw e d ]

evict-IsValid :
    (b : PacketBuffer) (key : BufferKey) (pool : ℕ)
    → IsValid b
    → has pool b.classes ≡ true
    → (b' : PacketBuffer) × (evict b key pool (get key b.queues) ≡ some b')
      × IsValid b'
      × Ready b' key pool
      × (has pool b'.classes ≡ true)
unfolding frames_bytes
evict-IsValid b key pool v h = elim (Option-cases (get key b.queues)) [
  | inl e ↦ (b, rw e, v, rw e (refl, refl), h)
  | inr (q, e) ↦ elim (Bool-cases (q.pool == pool)) [
    | inl p ↦ (b, rw (e, p), v, rw e (ground arith, (v.queue_ok key q e).counted), h)
    | inr p ↦
        let (b', eb, v', shape, keeps) = purge_queue-IsValid b key q false v e in
        (b', rw (e, p) eb, v', rw (shape, get-del_self key b.queues) (refl, refl), keeps pool h)
  ]
]

-- Enqueueing a packet always succeeds in a valid buffer, and keeps every pool within its limits.
pub enqueue-IsValid :
    (b : PacketBuffer) (key : BufferKey) (qci : ℕ) (packet : List ℕ) (payload_bytes now : ℕ)
    → IsValid b
    → (b' : PacketBuffer) × (admitted : Bool) × (enqueue b key qci packet payload_bytes now
        ≡ some (b', admitted))
      × IsValid b'
unfolding enqueue
enqueue-IsValid b key qci packet payload_bytes now v =
    let pool = pool_id b qci in
    let (b', eb, v', ready, hp) = evict-IsValid b key pool v (has-pool_id b qci v) in
    let (c, ec) = class_at b' pool hp in
    let f : BufferedFrame = record {
      wire = packet;
      payload_bytes = payload_bytes;
      enqueued = now;
    } in
    let r = admit b' key pool c (queue_or_new pool (get key b'.queues)) f in
    (r.0, r.1, rw (eb, enqueue) (rw ec), admit-IsValid b' key pool c f v' ec ready)
