-- ===== src/Gtpu/Buffer.antt =====
-- MarshalTo of pkg/gtpu/header.go, which writes into the caller's buffer.
use cups.Base.{
  ℕ, ◌+◌, ◌-◌, ◌≡◌, ◌≤◌, ◌<◌, ◌^◌, ◌==◌, refl, ap, ◌∙◌, true, false, List, [], ◌∷◌, ◌++◌, ltb, ◌!=◌,
  length, take, drop, replicate, arith, any, if◌then◌else◌,
}
use cups.Gtpu.{
  Extension, Header, ok, extension_bad, extension_bytes, extension_length, is_empty, optional,
  completed, total_length, marshal_plan, marshal_planned, marshal, marshal_to,
}

none_written :
    (es : List Extension) (offset : ℕ) (old : List ℕ)
    → is_empty es ≡ true
    → extension_bytes es offset old ≡ []
unfolding extension_bytes
none_written [] offset old h = refl
none_written (e ∷ es) offset old h = cc

planned_same :
    (h : Header) (total : ℕ) (old new payload : List ℕ)
    → optional h ≡ false
    → is_empty h.extension_headers ≡ true
    → marshal_planned h total old payload ≡ marshal_planned h total new payload
unfolding marshal_planned
planned_same h total old new payload o e =
    rw (o, none_written h.extension_headers 8 old e, none_written h.extension_headers 8 new e) refl

plain_empty : (h : Header) → optional (completed h) ≡ false → is_empty h.extension_headers ≡ true
plain_empty h o = ground arith

no_length : (es : List Extension) → is_empty es ≡ true → extension_length es ≡ 0
no_length [] h = refl
no_length (e ∷ es) h = cc

nothing_bad : (es : List Extension) → is_empty es ≡ true → any extension_bad es ≡ false
nothing_bad [] h = refl
nothing_bad (e ∷ es) h = cc

total_plain :
    (h : Header) (n : ℕ) → optional (completed h) ≡ false → total_length (completed h) n ≡ 8 + n
total_plain h n o =
    let none = no_length h.extension_headers (plain_empty h o) in ground (arith, none)

-- Without optional fields, MarshalTo puts at the front of the caller's buffer the packet that
-- Marshal makes, whatever the buffer held, and leaves the rest of a buffer that is long enough.
pub marshal_to-marshal :
    (destination payload : List ℕ) (h : Header)
    → optional (completed h) ≡ false
    → h.version ≤ 1
    → 8 + length payload ≤ length destination
    → length payload < 2 ^ 16
    → (packet : List ℕ) × (marshal h payload ≡ ok packet)
      × (marshal_to destination h payload ≡ ok (packet ++ drop (8 + length payload) destination))
unfolding marshal marshal_to marshal_plan
marshal_to-marshal destination payload h o v long fits =
    let e = plain_empty h o in
    let t = total_plain h (length payload) o in
    let total = total_length (completed h) (length payload) in
    let a : ((if h.version == 0 then 1 else h.version) != 1) ≡ false = ground arith in
    let b = nothing_bad h.extension_headers e in
    let c : ltb 65535 (total - 8) ≡ false = ground arith in
    let d : ltb (length destination) total ≡ false = ground arith in
    let same =
      planned_same (completed h) total (take total destination) (replicate total 0) payload o e in
    (
      marshal_planned (completed h) total (replicate total 0) payload,
      rw (a, b, c) refl,
      rw (a, b, c, d)
          (ap (λ p. ok (p ++ drop total destination)) same
            ∙ ap
                (λ n. ok (
                  marshal_planned (completed h) total (replicate total 0) payload
                  ++ drop n destination))
                t),
    )
