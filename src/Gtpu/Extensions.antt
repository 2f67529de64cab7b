-- ===== src/Gtpu/Extensions.antt =====
-- The extension headers of pkg/gtpu/header.go, written and read back.
use cups.Base.{
  ℕ, zero, suc, ◌+◌, ◌-◌, ◌*◌, ◌/◌, ◌%◌, ◌≡◌, ◌≢◌, ◌≤◌, refl, ap, ◌∙◌, false, ◌||◌, List, [], ◌∷◌,
  ◌++◌, ltb, ◌==◌, length, take, drop, replicate, arith, length-append, take-append_self, any,
}
use mathlib.Core.List.{append_assoc}
use cups.Gtpu.{
  Extension, ok, byte, prepend, parse_extensions, extension_bad, extension_bytes, next_kind,
}

byte-append : (xs zs : List ℕ) (y : ℕ) → byte (xs ++ y ∷ zs) (length xs) ≡ y
byte-append [] zs y = refl
byte-append (x ∷ xs) zs y = byte-append xs zs y

drop-append_suc : (xs zs : List ℕ) (y : ℕ) → drop (suc (length xs)) (xs ++ y ∷ zs) ≡ zs
drop-append_suc [] zs y = refl
drop-append_suc (x ∷ xs) zs y = drop-append_suc xs zs y

pub byte-replicate : (n i : ℕ) → byte (replicate n 0) i ≡ 0
byte-replicate zero i = refl
byte-replicate (suc n) zero = refl
byte-replicate (suc n) (suc i) = byte-replicate n i

parse_step :
    (fuel next size : ℕ) (rest : List ℕ)
    → next ≢ 0
    → byte rest 0 * 4 ≡ size
    → 2 ≤ size
    → size ≤ length rest
    → parse_extensions (suc fuel) next rest
      ≡ prepend
          (record { kind = next; content = take (size - 2) (drop 1 rest) })
          (parse_extensions fuel (byte rest (size - 1)) (drop size rest))
unfolding parse_extensions
parse_step fuel next size rest n e two fits =
    let a : (next == 0) ≡ false = ground arith in
    let b : (length rest == 0) ≡ false = ground arith in
    let c : (byte rest 0 == 0) ≡ false = ground arith in
    let d : (ltb (length rest) size || ltb size 2) ≡ false = ground arith in rw (a, b, c, e, d) refl

extension_size :
    (e : Extension)
    → extension_bad e ≡ false
    → (length e.content + 2) / 4 % 256 * 4 ≡ length e.content + 2
extension_size e h = ground arith

-- One extension header at the front of the rest is read, and the rest goes on behind it.
parse_one :
    (e : Extension) (fuel k : ℕ) (behind : List ℕ)
    → extension_bad e ≡ false
    → parse_extensions
        (suc fuel)
        e.kind
        ((length e.content + 2) / 4 % 256 ∷ (e.content ++ k ∷ behind))
      ≡ prepend e (parse_extensions fuel k behind)
parse_one e fuel k behind h =
    let l = length e.content in
    let u = (l + 2) / 4 % 256 in
    let rest : List ℕ = u ∷ (e.content ++ k ∷ behind) in
    let size : u * 4 ≡ l + 2 = extension_size e h in
    let long = length-append e.content (k ∷ behind) in
    let step =
      parse_step fuel e.kind (suc (suc l)) rest (ground arith) (omega arith) (omega arith)
        (omega arith) in
    let two : suc (suc l) - 2 ≡ l = omega arith in
    let one : suc (suc l) - 1 ≡ suc l = omega arith in
    let inner : take (suc (suc l) - 2) (drop 1 rest) ≡ e.content =
      ap (λ i. take i (drop 1 rest)) two ∙ take-append_self e.content (k ∷ behind) in
    let after : byte rest (suc (suc l) - 1) ≡ k =
      ap (byte rest) one ∙ byte-append e.content behind k in
    let left : drop (suc (suc l)) rest ≡ behind = drop-append_suc e.content behind k in
    step
    ∙ ap
        (λ c.
          prepend (record { kind = e.kind; content = c })
            (parse_extensions fuel (byte rest (suc (suc l) - 1)) (drop (suc (suc l)) rest)))
        inner
    ∙ ap (λ x. prepend e (parse_extensions fuel x (drop (suc (suc l)) rest))) after
    ∙ ap (λ r. prepend e (parse_extensions fuel k r)) left

-- What the extension headers were written as is read back, with the payload behind them.
pub parse_extensions_lem :
    (es : List Extension) (fuel offset n : ℕ) (payload : List ℕ)
    → any extension_bad es ≡ false
    → length es ≤ fuel
    → parse_extensions fuel (next_kind es 0) (extension_bytes es offset (replicate n 0) ++ payload)
      ≡ ok (es, payload)
unfolding parse_extensions extension_bytes
parse_extensions_lem [] zero offset n payload h f = refl
parse_extensions_lem [] (suc fuel) offset n payload h f = refl
parse_extensions_lem (e ∷ es) zero offset n payload h f = absurd (omega arith)
parse_extensions_lem (e ∷ es) (suc fuel) offset n payload h f =
    let l = length e.content in
    let old = byte (replicate n 0) (offset + (l + 2) - 1) in
    let bytes = extension_bytes es (offset + (l + 2)) (replicate n 0) in
    let shape = append_assoc e.content (next_kind es old ∷ bytes) payload in
    let last = byte-replicate n (offset + (l + 2) - 1) in
    let ih =
      parse_extensions_lem es fuel (offset + (l + 2)) n payload (ground arith) (omega arith) in
    let one = parse_one e fuel (next_kind es 0) (bytes ++ payload) (ground arith) in
    ap (λ (r : List ℕ). parse_extensions (suc fuel) e.kind ((l + 2) / 4 % 256 ∷ r)) shape
    ∙ ap
        (λ b.
          parse_extensions (suc fuel) e.kind
            ((l + 2) / 4 % 256 ∷ (e.content ++ next_kind es b ∷ (bytes ++ payload))))
        last
    ∙ one
    ∙ ap (prepend e) ih
