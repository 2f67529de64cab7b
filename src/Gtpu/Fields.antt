-- ===== src/Gtpu/Fields.antt =====
-- The fields of the header of pkg/gtpu/header.go: flags, lengths and numbers in bytes.
use cups.Base.{
  ℕ, ◌+◌, ◌-◌, ◌*◌, ◌/◌, ◌%◌, ◌^◌, ◌≡◌, ◌≤◌, ◌<◌, refl, ap, ◌∙◌, Bool, true, false, not, List, [],
  ◌∷◌, ltb, ◌!=◌, if◌then◌else◌, length, take, arith, length-append,
}
use cups.Gtpu.{
  Extension, Header, Result, byte, bit, weight, uint16_at, extension_bytes, next_kind,
  extension_length, fixed_header, parse_rest, parse,
}

take_length : (xs : List ℕ) → take (length xs) xs ≡ xs
take_length [] = refl
take_length (x ∷ xs) = ap (◌∷◌ x) (take_length xs)

take_all : (xs : List ℕ) (n : ℕ) → n ≡ length xs → take n xs ≡ xs
take_all xs n e = ap (λ i. take i xs) e ∙ take_length xs

skip : (b : Bool) (x y : Result (Header × List ℕ)) → b ≡ false → (if b then x else y) ≡ y
skip false x y h = refl
skip true x y h = cc

-- Parse on a packet that is as long as its header says.
pub parse_lem :
    (p : List ℕ) (h : Header)
    → fixed_header p ≡ h
    → h.version ≡ 1
    → h.protocol_type ≡ true
    → 8 ≤ length p
    → h.frame_length ≡ length p
    → parse p ≡ parse_rest h p
unfolding parse
parse_lem p h q v t long frame =
    let version : byte p 0 / 32 ≡ 1 = ap (λ (x : Header). x.version) q ∙ v in
    let kind : bit (byte p 0) 16 ≡ true = ap (λ (x : Header). x.protocol_type) q ∙ t in
    let size : 8 + uint16_at p 2 ≡ length p = ap (λ (x : Header). x.frame_length) q ∙ frame in
    let a : ltb (length p) 8 ≡ false = ground arith in
    let b : (byte p 0 / 32 != 1) ≡ false = ground arith in
    let d : ltb (length p) (8 + uint16_at p 2) ≡ false = ground arith in
    let c : not (bit (byte p 0) 16) ≡ false = ap not kind in
    skip _ _ _ a
    ∙ skip _ _ _ b
    ∙ skip _ _ _ c
    ∙ skip _ _ _ d
    ∙ (ap (parse_rest (fixed_header p)) (take_all p (8 + uint16_at p 2) size)
        ∙ ap (λ x. parse_rest x p) q)

pub flags_lem :
    (e s n : Bool)
    → let b = 48 + weight e 4 + weight s 2 + weight n 1 in
      (b / 32 ≡ 1) × (bit b 16 ≡ true) × (bit b 4 ≡ e) × (bit b 2 ≡ s) × (bit b 1 ≡ n)
flags_lem true true true = (refl, refl, refl, refl, refl)
flags_lem true true false = (refl, refl, refl, refl, refl)
flags_lem true false true = (refl, refl, refl, refl, refl)
flags_lem true false false = (refl, refl, refl, refl, refl)
flags_lem false true true = (refl, refl, refl, refl, refl)
flags_lem false true false = (refl, refl, refl, refl, refl)
flags_lem false false true = (refl, refl, refl, refl, refl)
flags_lem false false false = (refl, refl, refl, refl, refl)

pub uint16_lem : (n : ℕ) → n < 2 ^ 16 → n / 256 % 256 * 256 + n % 256 ≡ n
uint16_lem n h = omega arith

pub uint32_lem :
    (n : ℕ)
    → n < 2 ^ 32
    → (n / 65536 / 256 % 256 * 256 + n / 65536 % 256) * 65536 + (n / 256 % 256 * 256 + n % 256) ≡ n
uint32_lem n h = omega arith

pub length-extension_bytes :
    (es : List Extension) (offset : ℕ) (old : List ℕ)
    → length (extension_bytes es offset old) ≡ extension_length es
unfolding extension_bytes
length-extension_bytes [] offset old = refl
length-extension_bytes (e ∷ es) offset old =
    let size = length e.content + 2 in
    let k = next_kind es (byte old (offset + size - 1)) in
    let behind = extension_bytes es (offset + size) old in
    omega
      (arith, length-append e.content (k ∷ behind), length-extension_bytes es (offset + size) old)
