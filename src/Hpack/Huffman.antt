-- ===== src/Hpack/Huffman.antt =====
-- The Huffman decoder and encoder of src/http/hpack_huffman.c. A decoding tree and an encoding
-- table are generated by the build, and are arguments here; `malloc` and `realloc` do not fail.
pub mod Ends
pub mod Decode
pub mod Encode
use my_simple_c_http_server.Prelude.{
  ℕ, zero, suc, ◌+◌, ◌-◌, ◌*◌, ◌/◌, ◌%◌, ◌^◌, Bool, true, false, not, ◌&&◌, List, [], ◌∷◌, ◌++◌,
  map, bit_and, bit_or, ltb, leb, ◌==◌, if◌then◌else◌, Bytes, u64, length, get_or, Outcome, ok,
  error, fault, ◌>>=◌,
}
use my_simple_c_http_server.Hpack.Types.{
  Tstr, tstr_len, tstr_cstr, HuffmanNode, node, end, invalid, HuffmanEncodeEntry,
}

pub data HuffmanError : Type 0 where
  empty_input invalid_node result_memory_overflow : HuffmanError
  more_than_one_byte_left eight_bits_left not_eos : HuffmanError
  max_size_zero not_enough_size size_not_exact : HuffmanError

pub record BitPos : Type 0 where
  pub pos : ℕ
  pub bits_pos : ℕ

pub bit_pos_inc : BitPos → BitPos
bit_pos_inc p =
    if leb 8 (p.bits_pos + 1)
    then record { pos = p.pos + 1; bits_pos = 0 }
    else record p { bits_pos = p.bits_pos + 1 }

abbrev pub start_pos : BitPos
start_pos = record { pos = 0; bits_pos = 0 }

-- `bit_pos_mask`, and the bits of a byte in the order in which it selects them.
abbrev pub bit_pos_mask : List ℕ
bit_pos_mask = 0x80 ∷ 0x40 ∷ 0x20 ∷ 0x10 ∷ 0x08 ∷ 0x04 ∷ 0x02 ∷ 0x01 ∷ []

unfoldable pub byte_bits : ℕ → List Bool
byte_bits b = map (λ mask. not (bit_and b mask == 0)) bit_pos_mask

-- The bits that `current_pos` runs through.
unfoldable pub bits_of : Bytes → List Bool
bits_of [] = []
bits_of (b ∷ bytes) = byte_bits b ++ bits_of bytes

-- `MIN_HPACK_BITS_PER_CHAR`, and the size of the result buffer.
abbrev pub min_hpack_bits_per_char : ℕ
min_hpack_bits_per_char = 5

abbrev pub memory_size : ℕ → ℕ
memory_size size = u64 (u64 (size * 8) + (min_hpack_bits_per_char - 1)) / min_hpack_bits_per_char

-- What the loop over the bits leaves: whether `current_node == tree->root`, `last_pos`, and the
-- values decoded.
pub record Walked : Type 0 where
  pub at_root : Bool
  pub last_pos : BitPos
  pub values : Bytes

-- The child that a bit selects; a current node that is no inner node is taken for one,
-- which is undefined.
abbrev pub next_node : Bool → HuffmanNode → HuffmanNode → HuffmanNode
next_node true bit_0 bit_1 = bit_1
next_node false bit_0 bit_1 = bit_0

pub decode_walk :
    HuffmanNode
    → ℕ
    → HuffmanNode
    → Bool
    → BitPos
    → BitPos
    → Bytes
    → List Bool
    → Outcome HuffmanError Walked
decode_walk root memory current at_root current_pos last_pos values [] =
    ok (record { at_root = at_root; last_pos = last_pos; values = values })
decode_walk root memory (end _) at_root current_pos last_pos values (bit ∷ bits) = fault
decode_walk root memory invalid at_root current_pos last_pos values (bit ∷ bits) = fault
decode_walk root memory (node bit_0 bit_1) at_root current_pos last_pos values (bit ∷ bits) =
    let after = bit_pos_inc current_pos in
    elim (next_node bit bit_0 bit_1) [
      | invalid ↦ error invalid_node
      | end value ↦
          let more = decode_walk root memory root true after after (values ++ value ∷ []) bits in
          if leb memory (length values + 1) then error result_memory_overflow else more
      | node a b ↦ decode_walk root memory (node a b) false after last_pos values bits
    ]

-- `EOS_BYTE`
abbrev pub eos_byte : ℕ
eos_byte = 0xFF

-- The tests on the bits behind the last value.
pub check_rest : Bytes → Walked → Outcome HuffmanError Bytes
check_rest bytes walked =
    let size = length bytes in
    let bytes_not_decoded = (size + 2 ^ 64 - walked.last_pos.pos) % 2 ^ 64 in
    let bits_not_decoded = 8 - walked.last_pos.bits_pos in
    let bits_mask = (2 ^ bits_not_decoded - 1) % 256 in
    if walked.at_root
    then ok walked.values
    else if leb walked.last_pos.pos size
    then ok walked.values
    else if ltb 1 bytes_not_decoded
    then error more_than_one_byte_left
    else if leb 8 bits_not_decoded
    then error eight_bits_left
    else if not
        (bit_and (get_or bytes walked.last_pos.pos 0) bits_mask == bit_and eos_byte bits_mask)
    then error not_eos
    else ok walked.values

pub decode_bytes_huffman : HuffmanNode → Bytes → Outcome HuffmanError Bytes
decode_bytes_huffman tree [] = error empty_input
decode_bytes_huffman tree (b ∷ bytes) =
    decode_walk tree (memory_size (length (b ∷ bytes))) tree true start_pos start_pos []
      (bits_of (b ∷ bytes))
    >>= λ walked. check_rest (b ∷ bytes) walked

-- The bits of all codes of a string.
unfoldable pub code_bits : (ℕ → HuffmanEncodeEntry) → Bytes → ℕ
code_bits encode_map [] = 0
code_bits encode_map (c ∷ str) = (encode_map c).bit_size + code_bits encode_map str

pub hpack_huffman_get_encoded_size : (ℕ → HuffmanEncodeEntry) → Tstr → ℕ
hpack_huffman_get_encoded_size encode_map str =
    u64 (u64 (code_bits encode_map (tstr_cstr str)) + 7) / 8

-- The output of the encoder: the bytes before `current_pos.pos`, the byte at it, and
-- `current_pos.bits_pos`. `room` is how many bytes may be written at `data`.
pub record Written : Type 0 where
  pub done : Bytes
  pub byte : ℕ
  pub bits_pos : ℕ

-- One bit. The byte is set to 0 before the size is tested.
pub encode_bit : ℕ → ℕ → ℕ → Written → Outcome HuffmanError Written
encode_bit room max_size bit out =
    let pos = length out.done in
    let cleared = if out.bits_pos == 0 then 0 else out.byte in
    let byte = bit_or cleared (bit * 2 ^ (7 - out.bits_pos) % 256) in
    if out.bits_pos == 0 && leb room pos
    then fault
    else if leb max_size pos
    then error not_enough_size
    else if leb 8 (out.bits_pos + 1)
    then ok (record { done = out.done ++ byte ∷ []; byte = 0; bits_pos = 0 })
    else ok (record out { byte = byte; bits_pos = out.bits_pos + 1 })

-- The inner loop, over the bits of one code that are left.
pub encode_char : ℕ → ℕ → ℕ → ℕ → Written → Outcome HuffmanError Written
encode_char room max_size zero value out = ok out
encode_char room max_size (suc left) value out =
    encode_bit room max_size (bit_and value 0x01) out >>= λ out'.
    encode_char room max_size left (value / 2) out'

pub encode_chars : (ℕ → HuffmanEncodeEntry) → ℕ → ℕ → Bytes → Written → Outcome HuffmanError Written
encode_chars encode_map room max_size [] out = ok out
encode_chars encode_map room max_size (c ∷ str) out =
    encode_char room max_size (encode_map c).bit_size (encode_map c).value out >>= λ out'.
    encode_chars encode_map room max_size str out'

-- The last byte is filled up with ones.
pub encode_end : Written → Bytes
encode_end out =
    if ltb 0 out.bits_pos
    then out.done ++ bit_or out.byte (2 ^ (8 - out.bits_pos) - 1) ∷ []
    else out.done

-- `hpack_huffman_encode_value_fixed_size`: the bytes that are written.
pub hpack_huffman_encode_value_fixed_size :
    (ℕ → HuffmanEncodeEntry) → ℕ → ℕ → Tstr → Outcome HuffmanError Bytes
hpack_huffman_encode_value_fixed_size encode_map room max_size str =
    if tstr_len str == 0
    then ok []
    else if max_size == 0
    then error max_size_zero
    else encode_chars encode_map room max_size (tstr_cstr str)
        (record { done = []; byte = 0; bits_pos = 0 })
      >>= λ out. ok (encode_end out)

-- `hpack_huffman_encode_value`: into a buffer of the calculated size.
pub hpack_huffman_encode_value : (ℕ → HuffmanEncodeEntry) → Tstr → Outcome HuffmanError Bytes
hpack_huffman_encode_value encode_map str =
    let size = hpack_huffman_get_encoded_size encode_map str in
    if size == 0
    then ok []
    else hpack_huffman_encode_value_fixed_size encode_map size size str >>= λ bytes.
        if length bytes == size then ok bytes else error size_not_exact
