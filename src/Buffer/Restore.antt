-- ===== src/Buffer/Restore.antt =====
-- restore of internal/sgwu/dataplane/buffer.go.
use cups.Base.{
  ℕ, zero, suc, min, ◌+◌, ◌-◌, ◌≤◌, ◌≡◌, refl, true, none, some, List, [], ◌∷◌, ◌++◌, arith, get,
  put, del, has, get-del_self, length, Option-cases, Bool-cases, inl, inr, nat_eq, sub64, take, ltb,
  length-take,
}
use cups.Buffer.{
  BufferKey, BufferedFrame, ClassState, PacketBuffer, frames_bytes, buffer_key_eq, restore, accept,
  detach, readmit, unflush, update_class, frames_of, pool_id,
}
use cups.Buffer.Invariant.{IsValid, count-IsValid, leave-IsValid, has-put}
use cups.Buffer.Enqueue.{write-IsValid, class_at, has-pool_id}

-- The candidates taken are within the places left and the bytes left.
pub accept_bounds :
    (places limit used : ℕ) (fs : List BufferedFrame)
    → used ≤ limit
    → (accept places limit used fs ≤ places)
      × (accept places limit used fs ≤ length fs)
      × (used + frames_bytes (take (accept places limit used fs) fs) ≤ limit)
unfolding accept frames_bytes
accept_bounds places limit used [] h = omega arith
accept_bounds zero limit used (f ∷ fs) h = omega arith
accept_bounds (suc places) limit used (f ∷ fs) h =
    ground (arith, accept_bounds places limit (used + length f.wire) fs)

readmit-IsValid :
    (b : PacketBuffer) (key : BufferKey) (pool : ℕ) (c : ClassState) (fs : List BufferedFrame)
    → IsValid b
    → get pool b.classes ≡ some c
    → get key b.queues ≡ none
    → IsValid (readmit b key pool c fs)
unfolding readmit
readmit-IsValid b key pool c fs v ec e =
    let ok = v.class_ok pool c ec in
    let places = min (c.config.max_packets - c.current_packets) c.config.max_packets_per_bearer in
    let n = accept places c.config.max_bytes c.current_bytes fs in
    let bounds = accept_bounds places c.config.max_bytes c.current_bytes fs (omega arith) in
    let size = length-take n fs in
    elim (Bool-cases (ltb 0 n)) [
      | inl t ↦ rw t (
          write-IsValid b key pool c _ _ v ec (rw e (refl, unfold frames_bytes in refl)) refl refl
            refl (rw e (ground arith)) (rw e (unfold frames_bytes in ground arith)) (ground arith)
            (ground arith))
      | inr t ↦ rw t (count-IsValid b pool c _ v ec (refl, refl, refl))
    ]

detach-IsValid :
    (b : PacketBuffer) (key : BufferKey)
    → IsValid b
    → (b' : PacketBuffer) × (detach b key (get key b.queues) ≡ some b')
      × IsValid b'
      × (get key b'.queues ≡ none)
      × ((j : ℕ) → has j b.classes ≡ true → has j b'.classes ≡ true)
unfolding detach update_class
detach-IsValid b key v = elim (Option-cases (get key b.queues)) [
  | inl e ↦ (b, rw (e, detach), v, e, λ j h. h)
  | inr (q, e) ↦
      let (c, ec) = class_at b q.pool (v.queue_ok key q e).pooled in
      let c' = record c {
        current_packets = sub64 c.current_packets (length q.frames);
        current_bytes = sub64 c.current_bytes q.bytes;
      } in
      (
        record { classes = put q.pool c' b.classes; queues = del key b.queues },
        rw (e, detach) (rw ec),
        leave-IsValid b key q c c' v e ec (refl, refl, refl),
        get-del_self key b.queues,
        λ j h. has-put j q.pool c' b.classes h,
      )
]

unflush-IsValid :
    (b : PacketBuffer) (pool count : ℕ)
    → IsValid b
    → IsValid (unflush pool count b (get pool b.classes))
unflush-IsValid b pool count v = elim (Option-cases (get pool b.classes)) [
  | inl e ↦ rw e v
  | inr (c, e) ↦ rw e (count-IsValid b pool c _ v e (refl, refl, refl))
]

-- Restoring drained frames always succeeds in a valid buffer, and keeps every pool within its
-- limits.
pub restore-IsValid :
    (b : PacketBuffer) (key : BufferKey) (drained qci : ℕ) (fs : List BufferedFrame)
    → IsValid b
    → (b' : PacketBuffer) × (restore b key drained qci fs ≡ some b') × IsValid b'
unfolding restore
restore-IsValid b key drained qci [] v = (b, refl, v)
restore-IsValid b key drained qci (f ∷ fs) v =
    let b₁ = unflush drained (length (f ∷ fs)) b (get drained b.classes) in
    let v₁ = unflush-IsValid b drained (length (f ∷ fs)) v in
    let (b₂, eb, v₂, none₂, keeps) = detach-IsValid b₁ key v₁ in
    let (c, ec) = class_at b₂ (pool_id b₁ qci) (keeps _ (has-pool_id b₁ qci v₁)) in
    (
      readmit b₂ key (pool_id b₁ qci) c ((f ∷ fs) ++ frames_of (get key b₁.queues)),
      rw eb (rw ec),
      readmit-IsValid b₂ key (pool_id b₁ qci) c ((f ∷ fs) ++ frames_of (get key b₁.queues)) v₂ ec
          none₂,
    )
