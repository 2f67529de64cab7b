-- ===== src/Gtpu.antt =====
-- pkg/gtpu/header.go: the GTP-U header, parsed from and written to bytes. A packet is the list of
-- its bytes. The header that Parse returns beside an error is left out; no caller reads it.
pub mod Extensions
pub mod Fields
pub mod RoundTrip
pub mod Buffer
mod Tests
use cups.Base.{
  ℕ, zero, suc, ◌+◌, ◌-◌, ◌*◌, ◌/◌, ◌%◌, ◌^◌, Bool, true, false, not, ◌&&◌, ◌||◌, List, [], ◌∷◌,
  ◌++◌, ltb, leb, ◌==◌, ◌!=◌, if◌then◌else◌, length, get_or, take, drop, replicate, any,
}

pub data Error : Type 0 where
  too_short unsupported_version invalid_length invalid_header invalid_extension buffer_too_small :
      Error

pub data Result (A : Type 0) : Type 0 where
  ok : A → Result A
  err : Error → Result A

pub record Extension : Type 0 where
  pub kind : ℕ
  pub content : List ℕ

pub record Header : Type 0 where
  pub version : ℕ
  pub protocol_type : Bool
  pub extension : Bool
  pub sequence : Bool
  pub npdu : Bool
  pub message_type : ℕ
  pub length : ℕ
  pub teid : ℕ
  pub sequence_number : ℕ
  pub npdu_number : ℕ
  pub extension_headers : List Extension
  pub frame_length : ℕ

abbrev pub header_version : ℕ
header_version = 1

-- The byte at an index.
abbrev pub byte : List ℕ → ℕ → ℕ
byte packet i = get_or packet i 0

abbrev pub bit : ℕ → ℕ → Bool
bit b weight = b / weight % 2 == 1

abbrev pub uint16_at : List ℕ → ℕ → ℕ
uint16_at p i = byte p i * 256 + byte p (i + 1)

abbrev pub uint32_at : List ℕ → ℕ → ℕ
uint32_at p i = uint16_at p i * 65536 + uint16_at p (i + 2)

abbrev pub prepend : Extension → Result (List Extension × List ℕ) → Result (List Extension × List ℕ)
prepend e (err x) = err x
prepend e (ok (es, payload)) = ok (e ∷ es, payload)

-- Parse's loop over the extension headers, on the rest of the frame from `offset` on.
unfoldable pub parse_extensions : ℕ → ℕ → List ℕ → Result (List Extension × List ℕ)
parse_extensions zero next rest = if next == 0 then ok ([], rest) else err too_short
parse_extensions (suc fuel) next rest =
    let size = byte rest 0 * 4 in
    let e : Extension = record { kind = next; content = take (size - 2) (drop 1 rest) } in
    let more = parse_extensions fuel (byte rest (size - 1)) (drop size rest) in
    if next == 0
    then ok ([], rest)
    else if length rest == 0
    then err too_short
    else if byte rest 0 == 0
    then err invalid_extension
    else if ltb (length rest) size || ltb size 2
    then err invalid_extension
    else prepend e more

abbrev pub with_extensions : Header → Result (List Extension × List ℕ) → Result (Header × List ℕ)
with_extensions h (err x) = err x
with_extensions h (ok (es, payload)) = ok (record h { extension_headers = es }, payload)

-- The fixed part of the header.
abbrev pub fixed_header : List ℕ → Header
fixed_header p = record {
  version = byte p 0 / 32;
  protocol_type = bit (byte p 0) 16;
  extension = bit (byte p 0) 4;
  sequence = bit (byte p 0) 2;
  npdu = bit (byte p 0) 1;
  message_type = byte p 1;
  length = uint16_at p 2;
  teid = uint32_at p 4;
  sequence_number = 0;
  npdu_number = 0;
  extension_headers = [];
  frame_length = 8 + uint16_at p 2;
}

abbrev pub optional : Header → Bool
optional h = h.extension || h.sequence || h.npdu

-- Parse from the optional fields on. A round of its loop takes four bytes at least, so that the
-- frame's length bounds the rounds.
abbrev pub parse_rest : Header → List ℕ → Result (Header × List ℕ)
parse_rest h frame =
    let full = record h { sequence_number = uint16_at frame 8; npdu_number = byte frame 10 } in
    let plain : Result (Header × List ℕ) =
      if h.extension then err invalid_extension else ok (h, drop 8 frame) in
    if optional h
    then if ltb h.frame_length 12
      then err too_short
      else if h.extension && byte frame 11 == 0
      then err invalid_extension
      else if not h.extension && byte frame 11 != 0
      then err invalid_extension
      else with_extensions full (parse_extensions (length frame) (byte frame 11) (drop 12 frame))
    else plain

unfoldable pub parse : List ℕ → Result (Header × List ℕ)
unfolding parse_extensions
parse packet =
    let h = fixed_header packet in
    if ltb (length packet) 8
    then err too_short
    else if h.version != header_version
    then err unsupported_version
    else if not h.protocol_type
    then err invalid_header
    else if ltb (length packet) h.frame_length
    then err invalid_length
    else parse_rest h (take h.frame_length packet)

abbrev pub extension_bad : Extension → Bool
extension_bad e =
    e.kind == 0 || (length e.content + 2) % 4 != 0 || ltb 255 ((length e.content + 2) / 4)

abbrev pub extension_length : List Extension → ℕ
extension_length [] = 0
extension_length (e ∷ es) = length e.content + 2 + extension_length es

abbrev pub is_empty : List Extension → Bool
is_empty [] = true
is_empty (e ∷ es) = false

abbrev pub completed : Header → Header
completed h = record h {
  version = if h.version == 0 then header_version else h.version;
  protocol_type = true;
  extension = not (is_empty h.extension_headers) || h.extension;
}

abbrev pub total_length : Header → ℕ → ℕ
total_length h payload_length =
    (if optional h then 12 else 8) + extension_length h.extension_headers + payload_length

-- marshalPlan: the completed header and the length of the packet.
unfoldable pub marshal_plan : Header → ℕ → Result (Header × ℕ)
marshal_plan header payload_length =
    let h = completed header in
    let total = total_length h payload_length in
    if h.version != header_version
    then err unsupported_version
    else if any extension_bad h.extension_headers
    then err invalid_extension
    else if ltb 65535 (total - 8)
    then err invalid_length
    else ok (h, total)

abbrev pub bytes16 : ℕ → List ℕ
bytes16 n = n / 256 % 256 ∷ n % 256 ∷ []

abbrev pub weight : Bool → ℕ → ℕ
weight b w = if b then w else 0

-- The type of the next extension header; at the last one the byte is not written.
abbrev pub next_kind : List Extension → ℕ → ℕ
next_kind [] old = old
next_kind (e ∷ es) old = e.kind

unfoldable pub extension_bytes : List Extension → ℕ → List ℕ → List ℕ
extension_bytes [] offset old = []
extension_bytes (e ∷ es) offset old =
    let size = length e.content + 2 in
    size / 4 % 256 ∷ e.content
    ++ next_kind es (byte old (offset + size - 1)) ∷ extension_bytes es (offset + size) old

abbrev pub optional_bytes : Header → List ℕ → List ℕ
optional_bytes h old =
    if optional h
    then bytes16 h.sequence_number
      ++ h.npdu_number ∷ next_kind h.extension_headers (byte old 11) ∷ []
    else []

-- marshalPlanned on the packet `old`: the bytes that the packet has afterwards, in order. A byte
-- that the code does not write keeps its value in `old`.
unfoldable pub marshal_planned : Header → ℕ → List ℕ → List ℕ → List ℕ
unfolding extension_bytes
marshal_planned h total old payload =
    let offset = if optional h then 12 else 8 in
    (32 * header_version + 16 + weight h.extension 4 + weight h.sequence 2 + weight h.npdu 1)
      ∷ h.message_type
      ∷ bytes16 (total - 8)
    ++ bytes16 (h.teid / 65536)
    ++ bytes16 h.teid
    ++ optional_bytes h old
    ++ extension_bytes h.extension_headers offset old
    ++ payload

abbrev marshal_new : List ℕ → Result (Header × ℕ) → Result (List ℕ)
marshal_new payload (err e) = err e
marshal_new payload (ok (h, total)) = ok (marshal_planned h total (replicate total 0) payload)

-- Marshal: a new packet has zero bytes.
unfoldable pub marshal : Header → List ℕ → Result (List ℕ)
unfolding marshal_plan marshal_planned
marshal header payload = marshal_new payload (marshal_plan header (length payload))

abbrev marshal_into : List ℕ → List ℕ → Result (Header × ℕ) → Result (List ℕ)
marshal_into destination payload (err e) = err e
marshal_into destination payload (ok (h, total)) =
    if ltb (length destination) total
    then err buffer_too_small
    else ok (marshal_planned h total (take total destination) payload ++ drop total destination)

-- MarshalTo: the caller's buffer after it. The number of bytes is the plan's total.
unfoldable pub marshal_to : List ℕ → Header → List ℕ → Result (List ℕ)
unfolding marshal_plan marshal_planned
marshal_to destination header payload =
    marshal_into destination payload (marshal_plan header (length payload))
