-- ===== src/Buffer/Initial.antt =====
-- newPacketBuffer of internal/sgwu/dataplane/buffer.go.
use cups.Base.{
  ℕ, subst, ◌<◌, ◌^◌, ◌≡◌, true, some, List, [], ◌∷◌, arith, get, put, has, get-put, Map, total,
  Option-cases, Bool-cases, inl, inr, nat_eq, All, not, ◌||◌,
}
use cups.Buffer.{
  ClassState, PacketBuffer, BufferClassConfig, buffer_key_eq, config_ok, fresh_class,
  new_packet_buffer, add_classes,
}
use cups.Buffer.Invariant.{IsValid, ClassOk}

-- The limits of a class are Go ints.
abbrev pub IsInt : BufferClassConfig → Type 0
IsInt c = (c.max_packets < 2 ^ 63) × (c.max_bytes < 2 ^ 63)

abbrev Fresh : Map ℕ ClassState → Type 0
Fresh m = (j : ℕ) (c : ClassState) → get j m ≡ some c → ClassOk j c []

fresh_class-ClassOk : (j : ℕ) (c : BufferClassConfig) → IsInt c → ClassOk j (fresh_class c) []
unfolding total
fresh_class-ClassOk j c h = omega arith

put-Fresh :
    (c : BufferClassConfig) (m : Map ℕ ClassState)
    → IsInt c
    → Fresh m
    → Fresh (put c.qci (fresh_class c) m)
put-Fresh c m h f j d e = elim (nat_eq.decide c.qci j) [
  | yes p ↦
      subst (λ x. ClassOk j x []) (ground (arith, get-put c.qci j (fresh_class c) m))
        (fresh_class-ClassOk j c h)
  | no p ↦ f j d (ground (arith, get-put c.qci j (fresh_class c) m))
]

add_classes-Fresh :
    (cs : List BufferClassConfig) (m m' : Map ℕ ClassState)
    → All IsInt cs
    → Fresh m
    → add_classes cs m ≡ some m'
    → Fresh m'
unfolding add_classes
add_classes-Fresh [] m m' h f e = subst Fresh (cc) f
add_classes-Fresh (c ∷ cs) m m' h f e = elim (Bool-cases (has c.qci m || not (config_ok c))) [
  | inl t ↦ absurd (ground arith)
  | inr t ↦
      add_classes-Fresh cs (put c.qci (fresh_class c) m) m' h.1 (put-Fresh c m h.0 f) (ground arith)
]

-- A buffer that newPacketBuffer makes from limits within Go's ints is valid.
pub new_packet_buffer-IsValid :
    (cs : List BufferClassConfig) (b : PacketBuffer)
    → All IsInt cs
    → new_packet_buffer cs ≡ some b
    → IsValid b
unfolding new_packet_buffer get
new_packet_buffer-IsValid [] b h e = cc
new_packet_buffer-IsValid (c ∷ cs) b h e = elim (Option-cases (add_classes (c ∷ cs) [])) [
  | inl n ↦ absurd (ground arith)
  | inr (m, s) ↦
      let shape : (b.classes ≡ m) × (b.queues ≡ []) × (has 0 m ≡ true) = ground arith in
      let fresh = add_classes-Fresh (c ∷ cs) [] m h (λ j d x. cc) s in
      record {
        keyed = rw shape.1 tt;
        default = rw shape.0 shape.2;
        class_ok = λ j d x. rw shape.1 (fresh j d (rw shape.0 at x));
        queue_ok = λ k q x. absurd (ground arith);
      }
]
