-- ===== src/Hpack/Huffman/Ends.antt =====
-- decode_bytes_huffman_impl of src/http/hpack_huffman.c on any input.
use my_simple_c_http_server.Prelude.{
  ℕ, ◌+◌, ◌*◌, ◌≤◌, ◌<◌, ◌≡◌, refl, Bool, true, false, List, [], ◌∷◌, ◌++◌, length, leb,
  if◌then◌else◌, Bytes, arith, Bool-cases, inl, inr, le→leb, Outcome, ok, error, Ensures,
  Ensures-bind,
}
use my_simple_c_http_server.Hpack.Types.{HuffmanNode, node, end, invalid}
use my_simple_c_http_server.Hpack.Huffman.{
  HuffmanError, BitPos, bit_pos_inc, start_pos, byte_bits, bits_of, memory_size, Walked,
  decode_walk, check_rest, decode_bytes_huffman, invalid_node, result_memory_overflow, empty_input,
}

-- How many bits lie before a position.
abbrev bit_index : BitPos → ℕ
bit_index p = p.pos * 8 + p.bits_pos

steps :
    (p : BitPos)
    → p.bits_pos < 8
    → (bit_index (bit_pos_inc p) ≡ bit_index p + 1) × ((bit_pos_inc p).bits_pos < 8)
unfolding bit_pos_inc
steps p h = ground arith

-- What is left holds no more bits than were there, and the last position is one of them.
abbrev pub WalkEnds : ℕ → Walked → Type 0
WalkEnds n w = bit_index w.last_pos ≤ n

-- The errors that the decoder can return.
abbrev pub IsDecodeError : HuffmanError → Type 0
IsDecodeError empty_input = Unit
IsDecodeError invalid_node = Unit
IsDecodeError result_memory_overflow = Unit
IsDecodeError _ = ⊥

walk_end :
    (memory : ℕ) (values : Bytes) (v : ℕ) (more : Outcome HuffmanError Walked) (n : ℕ)
    → Ensures IsDecodeError (WalkEnds n) more
    → Ensures IsDecodeError
        (WalkEnds n)
        (if leb memory (length values + 1) then error result_memory_overflow else more)
walk_end memory values v more n h = elim (Bool-cases (leb memory (length values + 1))) [
  | inl full ↦ rw full tt
  | inr space ↦ rw space h
]

decode_walk-Ensures :
    (bits : List Bool) (root : HuffmanNode) (memory : ℕ) (current : HuffmanNode) (at_root : Bool)
    (current_pos last_pos : BitPos) (values : Bytes) (n : ℕ)
    → current_pos.bits_pos < 8
    → bit_index last_pos ≤ bit_index current_pos
    → bit_index current_pos + length bits ≤ n
    → Ensures IsDecodeError
        (WalkEnds n)
        (decode_walk root memory current at_root current_pos last_pos values bits)
unfolding decode_walk
decode_walk-Ensures [] root memory current at_root current_pos last_pos values n hb hl hn =
    omega arith
decode_walk-Ensures (bit ∷ bits) root memory (end v) at_root current_pos last_pos values n hb hl
      hn =
    tt
decode_walk-Ensures (bit ∷ bits) root memory invalid at_root current_pos last_pos values n hb hl
      hn =
    tt
decode_walk-Ensures (true ∷ bits) root memory (node l invalid) at_root current_pos last_pos values n
      hb hl hn =
    tt
decode_walk-Ensures (true ∷ bits) root memory (node l (end v)) at_root current_pos last_pos values n
      hb hl hn =
    walk_end memory values v _ n (
      decode_walk-Ensures bits root memory root true (bit_pos_inc current_pos)
        (bit_pos_inc current_pos) (values ++ v ∷ []) n (steps current_pos hb).1 (omega arith)
        (omega (arith, steps current_pos hb)))
decode_walk-Ensures (true ∷ bits) root memory (node l (node a b)) at_root current_pos last_pos
      values n hb hl hn =
    decode_walk-Ensures bits root memory (node a b) false (bit_pos_inc current_pos) last_pos values
      n (steps current_pos hb).1 (omega (arith, steps current_pos hb))
      (omega (arith, steps current_pos hb))
decode_walk-Ensures (false ∷ bits) root memory (node invalid r) at_root current_pos last_pos values
      n hb hl hn =
    tt
decode_walk-Ensures (false ∷ bits) root memory (node (end v) r) at_root current_pos last_pos values
      n hb hl hn =
    walk_end memory values v _ n (
      decode_walk-Ensures bits root memory root true (bit_pos_inc current_pos)
        (bit_pos_inc current_pos) (values ++ v ∷ []) n (steps current_pos hb).1 (omega arith)
        (omega (arith, steps current_pos hb)))
decode_walk-Ensures (false ∷ bits) root memory (node (node a b) r) at_root current_pos last_pos
      values n hb hl hn =
    decode_walk-Ensures bits root memory (node a b) false (bit_pos_inc current_pos) last_pos values
      n (steps current_pos hb).1 (omega (arith, steps current_pos hb))
      (omega (arith, steps current_pos hb))

length-bits_of : (bytes : Bytes) → length (bits_of bytes) ≡ 8 * length bytes
unfolding bits_of byte_bits
length-bits_of [] = refl
length-bits_of (b ∷ bytes) = omega (arith, length-bits_of bytes)

-- The tests behind the walk let every rest pass: `last_pos.pos` is never above the size.
pub check_rest_passes :
    (bytes : Bytes) (w : Walked) → WalkEnds (8 * length bytes) w → check_rest bytes w ≡ ok w.values
unfolding check_rest
check_rest_passes bytes w h = elim (Bool-cases w.at_root) [
  | inl root ↦ rw root
  | inr inner ↦ rw (inner, le→leb w.last_pos.pos (length bytes) (omega arith))
]

pub whole_walk-Ensures :
    (tree : HuffmanNode) (memory : ℕ) (bytes : Bytes)
    → Ensures IsDecodeError
        (WalkEnds (8 * length bytes))
        (decode_walk tree memory tree true start_pos start_pos [] (bits_of bytes))
whole_walk-Ensures tree memory bytes =
    decode_walk-Ensures (bits_of bytes) tree memory tree true start_pos start_pos []
      (8 * length bytes) (omega arith) (omega arith) (omega (arith, length-bits_of bytes))

-- On every input and every tree the decoder returns, or takes a node that is no inner one for one; its
-- only errors are the empty input, a node that no code reaches and a result that is too long, so the
-- three errors on the padding behind the last value are never returned.
pub decode_bytes_huffman-Ensures :
    (tree : HuffmanNode) (bytes : Bytes)
    → Ensures IsDecodeError (λ _. Unit) (decode_bytes_huffman tree bytes)
unfolding decode_bytes_huffman
decode_bytes_huffman-Ensures tree [] = tt
decode_bytes_huffman-Ensures tree (b ∷ bytes) =
    Ensures-bind IsDecodeError (WalkEnds (8 * length (b ∷ bytes))) (λ _. Unit)
      (decode_walk tree (memory_size (length (b ∷ bytes))) tree true start_pos start_pos []
        (bits_of (b ∷ bytes)))
      (check_rest (b ∷ bytes)) (whole_walk-Ensures tree _ (b ∷ bytes))
      (λ w h. rw (check_rest_passes (b ∷ bytes) w h) tt)
