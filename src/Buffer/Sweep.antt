-- ===== src/Buffer/Sweep.antt =====
-- expire and purgeSession of internal/sgwu/dataplane/buffer.go.
use cups.Base.{
  ℕ, zero, suc, ◌+◌, ◌-◌, ◌≤◌, ◌≡◌, ◌≢◌, refl, ap, true, none, some, List, [], ◌∷◌, arith, get, has,
  get-put, get-del, total-del, IsKeyed, length, if◌then◌else◌, ◌==◌, ◌&&◌, Bool-cases, inl, inr,
  nat_eq, decide_key, add64, take, drop, length-drop,
}
use cups.Buffer.{
  BufferKey, BufferedFrame, BearerBuffer, ClassState, PacketBuffer, frames_bytes, buffer_key_eq,
  stale, expire_queue, expire_all, expire, purge_all, purge_session,
}
use cups.Buffer.Invariant.{IsValid, packets_of, bytes_of, leave-IsValid}
use cups.Buffer.Enqueue.{write-IsValid, class_at, purge_queue-IsValid}

-- The queues that a loop has still to visit are as they were when it began.
abbrev Present : List (BufferKey × BearerBuffer) → PacketBuffer → Type 0
Present qs b = (k : BufferKey) (q : BearerBuffer) → get k qs ≡ some q → get k b.queues ≡ some q

Present-tail :
    (key : BufferKey) (q : BearerBuffer) (qs : List (BufferKey × BearerBuffer))
    (b b' : PacketBuffer)
    → IsKeyed ((key, q) ∷ qs)
    → Present ((key, q) ∷ qs) b
    → ((k : BufferKey) → key ≢ k → get k b'.queues ≡ get k b.queues)
    → Present qs b'
unfolding get
Present-tail key q qs b b' u p same k r e = elim (decide_key key k) [
  | yes h ↦ absurd (ground (arith, u.0))
  | no h ↦ let old = same k h in let now = p k r (ground arith) in cc
]

Present-head :
    (key : BufferKey) (q : BearerBuffer) (qs : List (BufferKey × BearerBuffer)) (b : PacketBuffer)
    → Present ((key, q) ∷ qs) b
    → get key b.queues ≡ some q
unfolding get
Present-head key q qs b p = p key q (ground arith)

purge_all-IsValid :
    (up_seid : ℕ) (qs : List (BufferKey × BearerBuffer)) (b : PacketBuffer) (n : ℕ)
    → IsKeyed qs
    → Present qs b
    → IsValid b
    → (b' : PacketBuffer) × (n' : ℕ) × (purge_all up_seid qs b n ≡ some (b', n'))
      × IsValid b'
      × ((k : BufferKey)
          → get k b'.queues ≡ (if k.up_seid == up_seid && has k qs then none else get k b.queues))
unfolding purge_all get
purge_all-IsValid up_seid [] b n u p v = (b, n, refl, v, λ k. ground arith)
purge_all-IsValid up_seid ((key, q) ∷ qs) b n u p v = elim (Bool-cases (key.up_seid == up_seid)) [
  | inl t ↦
      let (b₁, eb, v₁, shape, keeps) =
        purge_queue-IsValid b key q true v (Present-head key q qs b p) in
      let (b', n', er, v', out) =
        purge_all-IsValid up_seid qs b₁ (add64 n (length q.frames)) u.1
          (Present-tail key q qs b b₁ u p
            (λ k h. rw shape (ground (arith, get-del key k b.queues))))
          v₁ in
      (
        b',
        n',
        rw (t, eb) er,
        v',
        λ k. ground (arith, out k, get-del key k b.queues, ap (get k) shape),
      )
  | inr t ↦
      let (b', n', er, v', out) =
        purge_all-IsValid up_seid qs b n u.1 (Present-tail key q qs b b u p (λ k h. refl)) v in
      (b', n', rw t er, v', λ k. ground (arith, out k))
]

-- Purging a session always succeeds in a valid buffer: it takes away every queue of the session
-- and no other, and keeps the invariant.
pub purge_session-IsValid :
    (b : PacketBuffer) (up_seid : ℕ)
    → IsValid b
    → (b' : PacketBuffer) × (n : ℕ) × (purge_session b up_seid ≡ some (b', n))
      × IsValid b'
      × ((k : BufferKey)
          → get k b'.queues ≡ (if k.up_seid == up_seid then none else get k b.queues))
unfolding purge_session
purge_session-IsValid b up_seid v =
    let (b', n, e, v', out) = purge_all-IsValid up_seid b.queues b 0 v.keyed (λ k q h. h) v in
    (b', n, e, v', λ k. ground (arith, out k))

stale-le : (hold now : ℕ) (fs : List BufferedFrame) → stale hold now fs ≤ length fs
unfolding stale
stale-le hold now [] = omega arith
stale-le hold now (f ∷ fs) = ground (arith, stale-le hold now fs)

frames_bytes-take-drop :
    (n : ℕ) (fs : List BufferedFrame)
    → frames_bytes (take n fs) + frames_bytes (drop n fs) ≡ frames_bytes fs
unfolding frames_bytes
frames_bytes-take-drop zero fs = omega arith
frames_bytes-take-drop (suc n) [] = omega arith
frames_bytes-take-drop (suc n) (f ∷ fs) = omega (arith, frames_bytes-take-drop n fs)

frames_bytes_none : (fs : List BufferedFrame) → length fs ≡ 0 → frames_bytes fs ≡ 0
unfolding frames_bytes
frames_bytes_none [] h = refl
frames_bytes_none (f ∷ fs) h = absurd (omega arith)

expire_queue-IsValid :
    (now : ℕ) (b : PacketBuffer) (key : BufferKey) (q : BearerBuffer) (c : ClassState)
    → IsValid b
    → get key b.queues ≡ some q
    → get q.pool b.classes ≡ some c
    → IsValid (expire_queue now b key q c).0
unfolding expire_queue
expire_queue-IsValid now b key q c v e ec =
    let cut = stale c.config.hold_time now q.frames in
    let rest = drop cut q.frames in
    let ok = v.class_ok q.pool c ec in
    let counted = (v.queue_ok key q e).counted in
    let parts = frames_bytes-take-drop cut q.frames in
    let size = length-drop cut q.frames in
    let le = stale-le c.config.hold_time now q.frames in
    let here = total-del (packets_of q.pool) key q b.queues v.keyed e in
    let held = total-del (bytes_of q.pool) key q b.queues v.keyed e in
    elim (Bool-cases (cut == 0)) [
      | inl t ↦ rw t v
      | inr t ↦ rw t (elim (Bool-cases (length rest == 0)) [
        | inl r ↦ rw r (
            leave-IsValid b key q c _ v e ec
              (refl, ground arith, ground (arith, frames_bytes_none rest)))
        | inr r ↦ rw r (
            write-IsValid b key q.pool c _ _ v ec (rw e (refl, counted)) refl (ground arith) refl
              (rw e (ground arith)) (rw e (ground arith)) (ground arith) (ground arith))
      ])
    ]

expire_queue-frame :
    (now : ℕ) (b : PacketBuffer) (key k : BufferKey) (q : BearerBuffer) (c : ClassState)
    → key ≢ k
    → get k (expire_queue now b key q c).0.queues ≡ get k b.queues
unfolding expire_queue
expire_queue-frame now b key k q c h =
    let rest = drop (stale c.config.hold_time now q.frames) q.frames in
    let q' : BearerBuffer = record q {
      frames = rest;
      bytes = q.bytes - frames_bytes (take (stale c.config.hold_time now q.frames) q.frames);
    } in
    ground (arith, get-del key k b.queues, get-put key k q' b.queues)

expire_all-IsValid :
    (now : ℕ) (qs : List (BufferKey × BearerBuffer)) (b : PacketBuffer) (n : ℕ)
    → IsKeyed qs
    → Present qs b
    → IsValid b
    → (b' : PacketBuffer) × (n' : ℕ) × (expire_all now qs b n ≡ some (b', n')) × IsValid b'
unfolding expire_all
expire_all-IsValid now [] b n u p v = (b, n, refl, v)
expire_all-IsValid now ((key, q) ∷ qs) b n u p v =
    let e = Present-head key q qs b p in
    let (c, ec) = class_at b q.pool (v.queue_ok key q e).pooled in
    let r = expire_queue now b key q c in
    let (b', n', er, v') =
      expire_all-IsValid now qs r.0 (add64 n r.1) u.1
        (Present-tail key q qs b r.0 u p (λ k h. expire_queue-frame now b key k q c h))
        (expire_queue-IsValid now b key q c v e ec) in
    (b', n', rw ec er, v')

-- Expiring frames always succeeds in a valid buffer, and keeps the invariant.
pub expire-IsValid :
    (b : PacketBuffer) (now : ℕ)
    → IsValid b
    → (b' : PacketBuffer) × (n : ℕ) × (expire b now ≡ some (b', n)) × IsValid b'
unfolding expire
expire-IsValid b now v = expire_all-IsValid now b.queues b 0 v.keyed (λ k q h. h) v
