-- ===== src/Buffer/Order.antt =====
-- What enqueue of internal/sgwu/dataplane/buffer.go admits, and in which order drain hands it out.
use cups.Base.{
  ℕ, ◌+◌, ◌≤◌, ◌≡◌, ◌↔◌, Bool, true, ap, some, List, [], ◌∷◌, ◌++◌, arith, get, get-put_self,
  length, if◌then◌else◌, nat_eq, not,
}
use cups.Buffer.{
  BufferKey, BufferedFrame, BearerBuffer, ClassState, PacketBuffer, buffer_key_eq, admit, enqueue,
  evict, append_frame, is_full, pool_id, queue_or_new,
}

evict_same :
    (b : PacketBuffer) (key : BufferKey) (pool : ℕ)
    → (queue_or_new pool (get key b.queues)).pool ≡ pool
    → evict b key pool (get key b.queues) ≡ some b
evict_same b key pool same = ground arith

admit_result :
    (b : PacketBuffer) (key : BufferKey) (pool : ℕ) (c : ClassState) (q : BearerBuffer)
    (f : BufferedFrame)
    → ((admit b key pool c q f).1 ≡ not (is_full c q (length f.wire)))
      × (get key (admit b key pool c q f).0.queues
          ≡ some (if is_full c q (length f.wire) then q else append_frame q f))
unfolding admit
admit_result b key pool c q f =
    ground (arith, get-put_self key q b.queues, get-put_self key (append_frame q f) b.queues)

-- A packet of a length fits the limits of the pool and of the bearer: one frame more for the bearer
-- and for the pool, and the bytes.
abbrev pub HasRoom : ClassState → BearerBuffer → ℕ → Type 0
HasRoom c q bytes =
    (length q.frames + 1 ≤ c.config.max_packets_per_bearer)
    × (c.current_packets + 1 ≤ c.config.max_packets)
    × (c.current_bytes + bytes ≤ c.config.max_bytes)

full_iff :
    (c : ClassState) (q : BearerBuffer) (bytes : ℕ)
    → (not (is_full c q bytes) ≡ true) ↔ HasRoom c q bytes
full_iff c q bytes = ((λ h. (ground arith, ground arith, ground arith)), λ h. ground arith)

-- A bearer that is not buffered in another pool: enqueue does not panic, and whether it admits the
-- packet depends on nothing but the bearer's own queue and its own pool, whatever the other pools
-- hold. It admits the packet exactly when the three limits have room for it; the packet then stands
-- behind the bearer's frames, which are otherwise as they were.
pub enqueue_own_pool :
    (b : PacketBuffer) (key : BufferKey) (qci : ℕ) (packet : List ℕ) (payload_bytes now : ℕ)
    (c : ClassState)
    → get (pool_id b qci) b.classes ≡ some c
    → (queue_or_new (pool_id b qci) (get key b.queues)).pool ≡ pool_id b qci
    → (b' : PacketBuffer) × (admitted : Bool) × (enqueue b key qci packet payload_bytes now
        ≡ some (b', admitted))
      × ((admitted ≡ true)
          ↔ HasRoom c (queue_or_new (pool_id b qci) (get key b.queues)) (length packet))
      × ((queue_or_new (pool_id b qci) (get key b'.queues)).frames ≡ (
          if admitted
          then (queue_or_new (pool_id b qci) (get key b.queues)).frames
            ++ (record { wire = packet; payload_bytes = payload_bytes; enqueued = now } ∷ [])
          else (queue_or_new (pool_id b qci) (get key b.queues)).frames))
unfolding enqueue
enqueue_own_pool b key qci packet payload_bytes now c ec same =
    let pool = pool_id b qci in
    let q = queue_or_new pool (get key b.queues) in
    let f : BufferedFrame = record {
      wire = packet;
      payload_bytes = payload_bytes;
      enqueued = now;
    } in
    (
      (admit b key pool c q f).0,
      not (is_full c q (length packet)),
      rw (evict_same b key pool same, enqueue)
          (rw ec (
            ap some (ap (λ a. ((admit b key pool c q f).0, a)) (admit_result b key pool c q f).0))),
      full_iff c q (length packet),
      rw (admit_result b key pool c q f).1 (ground arith),
    )
