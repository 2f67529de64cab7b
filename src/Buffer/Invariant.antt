-- ===== src/Buffer/Invariant.antt =====
-- The invariant of internal/sgwu/dataplane/buffer.go: the counters of a pool are the frames and
-- the bytes that its queues hold, and stay within the pool's limits.
use cups.Base.{
  ℕ, ◌≤◌, ◌<◌, ◌^◌, ◌≡◌, ◌≢◌, refl, sym, subst₂, true, some, arith, get, put, del, has, get-put,
  get-del, IsKeyed, del-IsKeyed, Map, total, total-del, length, if◌then◌else◌, ◌==◌, nat_eq,
  decide_key, sub64,
}
use cups.Buffer.{BufferKey, BearerBuffer, ClassState, PacketBuffer, frames_bytes, buffer_key_eq}

-- What a queue adds to the load of a pool.
abbrev pub packets_of : ℕ → BearerBuffer → ℕ
packets_of pool q = if q.pool == pool then length q.frames else 0

abbrev pub bytes_of : ℕ → BearerBuffer → ℕ
bytes_of pool q = if q.pool == pool then frames_bytes q.frames else 0

-- The frames and the bytes that stand in a pool.
abbrev pub packets_in : ℕ → Map BufferKey BearerBuffer → ℕ
packets_in pool = total (packets_of pool)

abbrev pub bytes_in : ℕ → Map BufferKey BearerBuffer → ℕ
bytes_in pool = total (bytes_of pool)

pub record ClassOk (pool : ℕ) (c : ClassState) (qs : Map BufferKey BearerBuffer) : Type 0 where
  pub packets : c.current_packets ≡ packets_in pool qs
  pub bytes : c.current_bytes ≡ bytes_in pool qs
  pub packets_bound : packets_in pool qs ≤ c.config.max_packets
  pub bytes_bound : bytes_in pool qs ≤ c.config.max_bytes
  pub packets_int : c.config.max_packets < 2 ^ 63
  pub bytes_int : c.config.max_bytes < 2 ^ 63

pub record QueueOk (cs : Map ℕ ClassState) (q : BearerBuffer) : Type 0 where
  pub counted : q.bytes ≡ frames_bytes q.frames
  pub pooled : has q.pool cs ≡ true

pub record IsValid (b : PacketBuffer) : Type 0 where
  pub keyed : IsKeyed b.queues
  pub default : has 0 b.classes ≡ true
  pub class_ok : (j : ℕ) (c : ClassState) → get j b.classes ≡ some c → ClassOk j c b.queues
  pub queue_ok : (k : BufferKey) (q : BearerBuffer) → get k b.queues ≡ some q → QueueOk b.classes q

-- The pools but one hold the same in both sets of queues.
abbrev pub SameElsewhere : ℕ → Map BufferKey BearerBuffer → Map BufferKey BearerBuffer → Type 0
SameElsewhere pool qs qs' =
    (j : ℕ) → j ≢ pool → (packets_in j qs' ≡ packets_in j qs) × (bytes_in j qs' ≡ bytes_in j qs)

pub has-put :
    (j k : ℕ) (c : ClassState) (cs : Map ℕ ClassState) → has j cs ≡ true → has j (put k c cs) ≡ true
has-put j k c cs h = ground (arith, get-put k j c cs)

elsewhere :
    (j : ℕ) (d : ClassState) (qs qs' : Map BufferKey BearerBuffer)
    → ClassOk j d qs
    → (packets_in j qs' ≡ packets_in j qs) × (bytes_in j qs' ≡ bytes_in j qs)
    → ClassOk j d qs'
elsewhere j d qs qs' ok same = omega arith

-- A step that rewrites the state of one pool and the queues in it.
pub move-IsValid :
    (b : PacketBuffer) (pool : ℕ) (c : ClassState) (qs : Map BufferKey BearerBuffer)
    → IsValid b
    → IsKeyed qs
    → SameElsewhere pool b.queues qs
    → ClassOk pool c qs
    → ((k : BufferKey) (q : BearerBuffer) → get k qs ≡ some q → QueueOk b.classes q)
    → IsValid (record { classes = put pool c b.classes; queues = qs })
move-IsValid b pool c qs v u same ok oks = record {
  keyed = u;
  default = has-put 0 pool c b.classes v.default;
  class_ok = λ j d e. elim (decide_key pool j) [
    | yes p ↦
        let q : c ≡ d = ground (arith, get-put pool j c b.classes) in
        subst₂ (λ i x. ClassOk i x qs) p q ok
    | no p ↦
        let old : get j b.classes ≡ some d = ground (arith, get-put pool j c b.classes) in
        elsewhere j d b.queues qs (v.class_ok j d old) (same j (λ r. p (sym r)))
  ];
  queue_ok = λ k q e. record {
    counted = (oks k q e).counted;
    pooled = has-put q.pool pool c b.classes (oks k q e).pooled;
  };
}

-- Writing the state of a pool with its load left alone.
pub count-IsValid :
    (b : PacketBuffer) (pool : ℕ) (c c' : ClassState)
    → IsValid b
    → get pool b.classes ≡ some c
    → (c'.config ≡ c.config)
      × (c'.current_packets ≡ c.current_packets)
      × (c'.current_bytes ≡ c.current_bytes)
    → IsValid (record b { classes = put pool c' b.classes })
count-IsValid b pool c c' v e same =
    move-IsValid b pool c' b.queues v v.keyed (λ j h. (refl, refl))
      (let ok = v.class_ok pool c e in ground arith) v.queue_ok

-- The queue of a bearer leaves its pool: the step that purging, draining and restoring share.
abbrev pub Leaves : BearerBuffer → ClassState → ClassState → Type 0
Leaves q c c' =
    (c'.config ≡ c.config)
    × (c'.current_packets ≡ sub64 c.current_packets (length q.frames))
    × (c'.current_bytes ≡ sub64 c.current_bytes q.bytes)

pub leave-IsValid :
    (b : PacketBuffer) (key : BufferKey) (q : BearerBuffer) (c c' : ClassState)
    → IsValid b
    → get key b.queues ≡ some q
    → get q.pool b.classes ≡ some c
    → Leaves q c c'
    → IsValid (record { classes = put q.pool c' b.classes; queues = del key b.queues })
leave-IsValid b key q c c' v e ec l =
    move-IsValid b q.pool c' (del key b.queues) v (del-IsKeyed key b.queues v.keyed)
      (λ j h. (
        ground (arith, total-del (packets_of j) key q b.queues v.keyed e),
        ground (arith, total-del (bytes_of j) key q b.queues v.keyed e),
      ))
      (let ok = v.class_ok q.pool c ec in
        let qok = v.queue_ok key q e in
        ground (
          arith,
          total-del (packets_of q.pool) key q b.queues v.keyed e,
          total-del (bytes_of q.pool) key q b.queues v.keyed e,
        ))
      (λ k r h. v.queue_ok k r (ground (arith, get-del key k b.queues)))
