-- ===== src/Gtpu/Tests.antt =====
-- pkg/gtpu/header.go at concrete packets.
use cups.Base.{ℕ, ◌+◌, ◌≡◌, refl, true, false, List, [], ◌∷◌, ◌++◌, arith, length, drop}
use cups.Gtpu.{
  Header, ok, err, invalid_extension, parse, parse_extensions, marshal, marshal_to, marshal_plan,
  marshal_planned, extension_bytes,
}
use cups.Gtpu.RoundTrip.{IsWritable, wire_header, marshal-parse}
use cups.Gtpu.Buffer.{marshal_to-marshal}

abbrev extended : Header
extended = record {
  version = 0;
  protocol_type = false;
  extension = false;
  sequence = true;
  npdu = false;
  message_type = 255;
  length = 0;
  teid = 305419896;
  sequence_number = 4660;
  npdu_number = 0;
  extension_headers = record { kind = 133; content = 1 ∷ 9 ∷ [] } ∷ [];
  frame_length = 0;
}

abbrev plain : Header
plain = record extended { version = 1; sequence = false; extension_headers = [] }

abbrev numbered : Header
numbered = record extended { extension_headers = [] }

abbrev user_data : List ℕ
user_data = 69 ∷ 0 ∷ 7 ∷ []

marshal_test :
    marshal extended user_data
    ≡ ok (
        54 ∷ 255 ∷ 0 ∷ 11 ∷ 18 ∷ 52 ∷ 86 ∷ 120 ∷ 18 ∷ 52 ∷ 0 ∷ 133 ∷ 1 ∷ 1 ∷ 9 ∷ 0 ∷ 69 ∷ 0 ∷ 7
        ∷ [])
unfolding marshal marshal_plan marshal_planned extension_bytes
marshal_test = refl

extended-IsWritable : IsWritable extended user_data
extended-IsWritable = record {
  version = omega arith;
  teid = omega arith;
  sequence_number = omega arith;
  extensions = refl;
  flag = refl;
  fits = omega arith;
}

marshal-parse_example :
    (packet : List ℕ) × (marshal extended user_data ≡ ok packet)
    × (parse packet ≡ ok (wire_header extended (length packet), user_data))
marshal-parse_example = marshal-parse extended user_data extended-IsWritable

abbrev used_buffer : List ℕ
used_buffer = 7 ∷ 7 ∷ 7 ∷ 7 ∷ 7 ∷ 7 ∷ 7 ∷ 7 ∷ 7 ∷ 7 ∷ 7 ∷ 7 ∷ []

marshal_to-marshal_example :
    (packet : List ℕ) × (marshal plain user_data ≡ ok packet)
    × (marshal_to used_buffer plain user_data
        ≡ ok (packet ++ drop (8 + length user_data) used_buffer))
marshal_to-marshal_example =
    marshal_to-marshal used_buffer user_data plain refl (omega arith) (omega arith) (omega arith)

-- In a buffer that held other bytes, MarshalTo leaves the type of the next extension header as it
-- was, and the packet is not one that Parse takes.
used_buffer_test :
    marshal_to used_buffer numbered []
    ≡ ok (50 ∷ 255 ∷ 0 ∷ 4 ∷ 18 ∷ 52 ∷ 86 ∷ 120 ∷ 18 ∷ 52 ∷ 0 ∷ 7 ∷ [])
unfolding marshal_to marshal_plan marshal_planned extension_bytes
used_buffer_test = refl

used_buffer_parse_test :
    parse (50 ∷ 255 ∷ 0 ∷ 4 ∷ 18 ∷ 52 ∷ 86 ∷ 120 ∷ 18 ∷ 52 ∷ 0 ∷ 7 ∷ []) ≡ err invalid_extension
unfolding parse parse_extensions
used_buffer_parse_test = refl
