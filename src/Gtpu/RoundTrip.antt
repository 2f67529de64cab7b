-- ===== src/Gtpu/RoundTrip.antt =====
-- Marshal and Parse of pkg/gtpu/header.go undo each other.
use cups.Base.{
  ℕ, suc, ◌+◌, ◌-◌, ◌^◌, ◌≡◌, ◌≤◌, ◌<◌, refl, sym, ap, ◌∙◌, subst, Bool, true, false, not, ◌||◌,
  List, [], ◌∷◌, ◌++◌, ltb, ◌==◌, ◌!=◌, if◌then◌else◌, length, replicate, arith, length-append, any,
}
use cups.Gtpu.{
  Extension, Header, ok, byte, bytes16, parse_extensions, extension_bad, extension_bytes, next_kind,
  extension_length, is_empty, optional_bytes, total_length, completed, fixed_header, parse_rest,
  with_extensions, parse, marshal_plan, marshal_planned, marshal,
}
use cups.Gtpu.Extensions.{byte-replicate, parse_extensions_lem}
use cups.Gtpu.Fields.{parse_lem, flags_lem, uint16_lem, uint32_lem, length-extension_bytes}

-- The header that a packet with these fields is parsed to.
abbrev parsed : Bool → Bool → ℕ → ℕ → ℕ → ℕ → List Extension → ℕ → Header
parsed s n mt teid seq np es total = record {
  version = 1;
  protocol_type = true;
  extension = not (is_empty es);
  sequence = s;
  npdu = n;
  message_type = mt;
  length = total - 8;
  teid = teid;
  sequence_number = seq;
  npdu_number = np;
  extension_headers = es;
  frame_length = 8 + (total - 8);
}

fixed_lem :
    (s n : Bool) (mt teid seq np total : ℕ) (es : List Extension) (payload : List ℕ)
    → teid < 2 ^ 32
    → total - 8 < 2 ^ 16
    → fixed_header
        (marshal_planned (parsed s n mt teid seq np es total) total (replicate total 0) payload)
      ≡ record (parsed s n mt teid 0 0 es total) { extension_headers = [] }
unfolding marshal_planned
fixed_lem s n mt teid seq np total es payload t l =
    let (v, p, e, q, d) = flags_lem (not (is_empty es)) s n in
    cc (v, p, e, q, d, uint16_lem (total - 8) l, uint32_lem teid t)

length-optional :
    (o : Bool) (bs : List ℕ)
    → length bs ≡ 4
    → length (if o then bs else []) + 8 ≡ (if o then 12 else 8)
length-optional true bs h = omega arith
length-optional false bs h = refl

count_le : (es : List Extension) → length es ≤ extension_length es
count_le [] = omega arith
count_le (e ∷ es) = omega (arith, count_le es)

length_parts :
    (xs ys zs : List ℕ) (a b : ℕ)
    → length xs + 8 ≡ a
    → length ys ≡ b
    → suc (suc (suc (suc (suc (suc (suc (suc (length (xs ++ ys ++ zs))))))))) ≡ a + b + length zs
length_parts xs ys zs a b h g = omega (arith, length-append (xs ++ ys) zs, length-append xs ys)

length_lem :
    (s n : Bool) (mt teid seq np total : ℕ) (es : List Extension) (payload : List ℕ)
    → total ≡ total_length (parsed s n mt teid seq np es total) (length payload)
    → length
        (marshal_planned (parsed s n mt teid seq np es total) total (replicate total 0) payload)
      ≡ total
unfolding marshal_planned
length_lem s n mt teid seq np total es payload t =
    let o = not (is_empty es) || s || n in
    let old = replicate total 0 in
    let part = length-extension_bytes es (if o then 12 else 8) old in
    let opt = length-optional o (bytes16 seq ++ np ∷ next_kind es (byte old 11) ∷ []) refl in
    length_parts (optional_bytes (parsed s n mt teid seq np es total) old)
      (extension_bytes es (if o then 12 else 8) old) payload _ _ opt part
    ∙ sym t

plain_lem :
    (s n : Bool) (mt teid seq np total : ℕ) (payload : List ℕ)
    → seq < 2 ^ 16
    → total ≡ total_length (parsed s n mt teid seq np [] total) (length payload)
    → (s || n) ≡ true
    → parse_rest
        (record (parsed s n mt teid 0 0 [] total) { extension_headers = [] })
        (marshal_planned (parsed s n mt teid seq np [] total) total (replicate total 0) payload)
      ≡ ok (
        (if s || n then parsed s n mt teid seq np [] total else parsed s n mt teid 0 0 [] total),
        payload,
      )
unfolding marshal_planned extension_bytes parse_extensions
plain_lem s n mt teid seq np total payload b t o =
    let a : ltb (8 + (total - 8)) 12 ≡ false = ground arith in
    let z = byte-replicate total 11 in rw (o, a, z, uint16_lem seq b) refl

rest_lem :
    (s n : Bool) (mt teid seq np total : ℕ) (es : List Extension) (payload : List ℕ)
    → any extension_bad es ≡ false
    → seq < 2 ^ 16
    → total ≡ total_length (parsed s n mt teid seq np es total) (length payload)
    → parse_rest
        (record (parsed s n mt teid 0 0 es total) { extension_headers = [] })
        (marshal_planned (parsed s n mt teid seq np es total) total (replicate total 0) payload)
      ≡ ok (
        (if not (is_empty es) || s || n
            then parsed s n mt teid seq np es total
            else parsed s n mt teid 0 0 es total),
        payload,
      )
unfolding marshal_planned extension_bytes
rest_lem false false mt teid seq np total [] payload h b t = refl
rest_lem false true mt teid seq np total [] payload h b t =
    plain_lem false true mt teid seq np total payload b t refl
rest_lem true n mt teid seq np total [] payload h b t =
    plain_lem true n mt teid seq np total payload b t refl
rest_lem s n mt teid seq np total (e ∷ es) payload h b t =
    let p =
      marshal_planned (parsed s n mt teid seq np (e ∷ es) total) total (replicate total 0)
        payload in
    let a : ltb (8 + (total - 8)) 12 ≡ false = ground arith in
    let k : (e.kind == 0) ≡ false = ground arith in
    let long = length_lem s n mt teid seq np total (e ∷ es) payload t in
    let back =
      parse_extensions_lem (e ∷ es) (length p) 12 total payload h
        (omega (arith, long, count_le es)) in
    let full = record (parsed s n mt teid seq np (e ∷ es) total) { extension_headers = [] } in
    rw (a, k, uint16_lem seq b) (ap (with_extensions full) back)

-- A header that Marshal can write with this payload: the version is 1 or left out, the numbers
-- fit their fields, the extension headers are sound, the E flag is set only if there is one, and
-- the packet is not too long.
pub record IsWritable (h : Header) (payload : List ℕ) : Type 0 where
  pub version : h.version ≤ 1
  pub teid : h.teid < 2 ^ 32
  pub sequence_number : h.sequence_number < 2 ^ 16
  pub extensions : any extension_bad h.extension_headers ≡ false
  pub flag :
      (not (is_empty h.extension_headers) || h.extension) ≡ not (is_empty h.extension_headers)
  pub fits : total_length (completed h) (length payload) < 8 + 2 ^ 16

-- The header that Parse returns for a packet that Marshal wrote: completed, with the lengths, and
-- without the optional numbers if no flag asks for them.
abbrev pub wire_header : Header → ℕ → Header
wire_header h total =
    let o = not (is_empty h.extension_headers) || h.sequence || h.npdu in
    if o
    then parsed h.sequence h.npdu h.message_type h.teid h.sequence_number h.npdu_number
        h.extension_headers total
    else parsed h.sequence h.npdu h.message_type h.teid 0 0 h.extension_headers total

planned_lem :
    (s n : Bool) (mt teid seq np total : ℕ) (es : List Extension) (payload : List ℕ)
    → any extension_bad es ≡ false
    → teid < 2 ^ 32
    → seq < 2 ^ 16
    → total - 8 < 2 ^ 16
    → total ≡ total_length (parsed s n mt teid seq np es total) (length payload)
    → parse (marshal_planned (parsed s n mt teid seq np es total) total (replicate total 0) payload)
      ≡ ok (
        (if not (is_empty es) || s || n
            then parsed s n mt teid seq np es total
            else parsed s n mt teid 0 0 es total),
        payload,
      )
planned_lem s n mt teid seq np total es payload h t q l e =
    let p =
      marshal_planned (parsed s n mt teid seq np es total) total (replicate total 0) payload in
    let long = length_lem s n mt teid seq np total es payload e in
    let low : 8 ≤ (if not (is_empty es) || s || n then 12 else 8) = ground arith in
    parse_lem p _ (fixed_lem s n mt teid seq np total es payload t l) refl refl (omega arith)
      (omega arith)
    ∙ rest_lem s n mt teid seq np total es payload h q e

abbrev flagged : Header → Bool → Header
flagged h x = record (completed h) { extension = x }

abbrev written : Header → List ℕ → Bool → List ℕ
written h payload x =
    let total = total_length (flagged h x) (length payload) in
    marshal_planned (flagged h x) total (replicate total 0) payload

marshal_lem :
    (h : Header) (payload : List ℕ)
    → IsWritable h payload
    → marshal h payload ≡ ok (written h payload (not (is_empty h.extension_headers)))
unfolding marshal marshal_plan
marshal_lem h payload w =
    let a : ((if h.version == 0 then 1 else h.version) != 1) ≡ false = ground (arith, w.version) in
    let b = w.extensions in
    let c : ltb 65535 (total_length (completed h) (length payload) - 8) ≡ false =
      ground (arith, w.fits) in
    rw (a, b, c) (ap (λ x. ok (written h payload x)) w.flag)

-- Marshal writes every such header and payload, and Parse reads both back from the packet: the
-- payload as it was, and the header with its lengths filled in, and with the sequence and N-PDU
-- numbers if a flag asks for the optional fields.
pub marshal-parse :
    (h : Header) (payload : List ℕ)
    → IsWritable h payload
    → (packet : List ℕ) × (marshal h payload ≡ ok packet)
      × (parse packet ≡ ok (wire_header h (length packet), payload))
unfolding marshal_planned
marshal-parse h payload w =
    let es = h.extension_headers in
    let e = not (is_empty es) in
    let total = total_length (flagged h e) (length payload) in
    let shorter : total < 8 + 2 ^ 16 =
      subst (λ x. total_length (flagged h x) (length payload) < 8 + 2 ^ 16) w.flag w.fits in
    let back =
      planned_lem h.sequence h.npdu h.message_type h.teid h.sequence_number h.npdu_number total es
        payload w.extensions w.teid w.sequence_number (omega arith) refl in
    let long =
      length_lem h.sequence h.npdu h.message_type h.teid h.sequence_number h.npdu_number total es
        payload refl in
    (
      written h payload e,
      marshal_lem h payload w,
      back ∙ ap (λ n. ok (wire_header h n, payload)) (sym long),
    )
