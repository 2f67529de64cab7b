-- ===== src/Buffer/Tests.antt =====
-- internal/sgwu/dataplane/buffer.go at concrete inputs.
use cups.Base.{
  ◌↔◌, true, if◌then◌else◌, ℕ, ◌≡◌, refl, some, List, [], ◌∷◌, arith, get, put, Bool, true, false,
  ℕ_discrete, nat_eq, ◌>>=◌,
}
use cups.Buffer.{
  BufferKey, BufferedFrame, PacketBuffer, BufferClassConfig, buffer_key_eq, BufferKey-discrete,
  new_packet_buffer, fresh_class, enqueue, restore, queue_or_new,
}
use cups.Buffer.Invariant.{IsValid}
use cups.Buffer.Enqueue.{enqueue-IsValid}
use cups.Buffer.Restore.{restore-IsValid}
use cups.Buffer.Order.{HasRoom, enqueue_own_pool}
use cups.Buffer.Initial.{new_packet_buffer-IsValid}

abbrev bulk : BufferClassConfig
bulk = record {
  qci = 0;
  max_packets = 2;
  max_bytes = 10;
  max_packets_per_bearer = 2;
  hold_time = 5;
}

abbrev ims : BufferClassConfig
ims = record {
  qci = 5;
  max_packets = 4;
  max_bytes = 100;
  max_packets_per_bearer = 2;
  hold_time = 50;
}

abbrev fresh : PacketBuffer
fresh = record { classes = (0, fresh_class bulk) ∷ (5, fresh_class ims) ∷ []; queues = [] }

fresh_lem : new_packet_buffer (bulk ∷ ims ∷ []) ≡ some fresh
unfolding new_packet_buffer get put ℕ_discrete
fresh_lem = refl

fresh-IsValid : IsValid fresh
unfolding new_packet_buffer get put ℕ_discrete
fresh-IsValid = new_packet_buffer-IsValid (bulk ∷ ims ∷ []) fresh (omega arith) fresh_lem

abbrev bearer : BufferKey
bearer = record { up_seid = 1; pdr_id = 2 }

abbrev packet : List ℕ
packet = 1 ∷ 2 ∷ 3 ∷ []

-- A third packet of the bulk class is dropped.
third_dropped :
    (enqueue fresh bearer 9 packet 3 0 >>= λ r.
    enqueue r.0 bearer 9 packet 3 1 >>= λ s. enqueue s.0 bearer 9 packet 3 2 >>= λ t. some t.1)
    ≡ some false
unfolding enqueue get put ℕ_discrete BufferKey-discrete
third_dropped = refl

enqueue-IsValid_example :
    (b' : PacketBuffer) × (a : Bool) × (enqueue fresh bearer 5 packet 3 7 ≡ some (b', a))
    × IsValid b'
enqueue-IsValid_example = enqueue-IsValid fresh bearer 5 packet 3 7 fresh-IsValid

abbrev frame : BufferedFrame
frame = record { wire = packet; payload_bytes = 3; enqueued = 7 }

restore-IsValid_example :
    (b' : PacketBuffer) × (restore fresh bearer 0 5 (frame ∷ frame ∷ frame ∷ []) ≡ some b')
    × IsValid b'
restore-IsValid_example =
    restore-IsValid fresh bearer 0 5 (frame ∷ frame ∷ frame ∷ []) fresh-IsValid

enqueue_own_pool_example :
    (b' : PacketBuffer) × (admitted : Bool) × (enqueue fresh bearer 5 packet 3 7
      ≡ some (b', admitted))
    × ((admitted ≡ true)
        ↔ HasRoom (fresh_class ims) (record { pool = 5; frames = []; bytes = 0 }) 3)
    × ((queue_or_new 5 (get bearer b'.queues)).frames ≡ (if admitted then frame ∷ [] else []))
unfolding get ℕ_discrete
enqueue_own_pool_example = enqueue_own_pool fresh bearer 5 packet 3 7 (fresh_class ims) refl refl
