-- ===== src/Hpack/Tests/Codes.antt =====
-- The Huffman decoder on a code with one symbol of five bits.
use my_simple_c_http_server.Prelude.{
  ℕ, zero, suc, ◌≤◌, ◌<◌, some, arith, replicate, ◌≡◌, refl, Bool, true, false, List, [], ◌∷◌, ◌++◌,
  Bytes, ◌-◌, length, leb, ltb, if◌then◌else◌, ok, error,
}
use my_simple_c_http_server.Hpack.Types.{HuffmanNode, node, end, invalid, HuffmanEncodeEntry}
use my_simple_c_http_server.Hpack.Huffman.{
  result_memory_overflow, byte_bits, bits_of, memory_size, decode_bytes_huffman, code_bits,
  hpack_huffman_encode_value,
}
use my_simple_c_http_server.Hpack.Huffman.Encode.{code_of}
use my_simple_c_http_server.Hpack.Huffman.Encode.Strings.{code_in, decode-encode_value}
use my_simple_c_http_server.Hpack.Huffman.Decode.{
  Stays, AreCoded, codes_of, decode_bytes_huffman-codes_of,
}

-- Ones lead to inner nodes, as the bits that fill up a byte.
abbrev ones : HuffmanNode
ones = node invalid (node invalid (node invalid invalid))

abbrev zeros : HuffmanNode
zeros = node (node (node (node (end b'z') invalid) invalid) invalid) invalid

abbrev code : List Bool
code = false ∷ false ∷ false ∷ false ∷ false ∷ []

abbrev padding : List Bool
padding = true ∷ true ∷ true ∷ []

abbrev one : Bytes
one = b'z' ∷ []

abbrev input : Bytes
input = 0x07 ∷ []

one_packed : bits_of input ≡ codes_of (λ _. code) one ++ padding
unfolding bits_of byte_bits
one_packed = refl

decode_bytes_huffman-codes_of_example : decode_bytes_huffman (node zeros ones) input ≡ (
    if leb (length one) (memory_size (length input) - 1)
    then ok one
    else error result_memory_overflow)
decode_bytes_huffman-codes_of_example =
    decode_bytes_huffman-codes_of zeros ones (λ _. code) padding tt 0x07 [] one (refl, tt)
      one_packed

-- Eight of these symbols in five bytes.
abbrev eight : Bytes
eight = b'z' ∷ b'z' ∷ b'z' ∷ b'z' ∷ b'z' ∷ b'z' ∷ b'z' ∷ b'z' ∷ []

eight_packed : bits_of (0 ∷ 0 ∷ 0 ∷ 0 ∷ 0 ∷ []) ≡ codes_of (λ _. code) eight ++ []
unfolding bits_of byte_bits
eight_packed = refl

eight_refused :
    decode_bytes_huffman (node zeros ones) (0 ∷ 0 ∷ 0 ∷ 0 ∷ 0 ∷ []) ≡ error result_memory_overflow
eight_refused =
    decode_bytes_huffman-codes_of zeros ones (λ _. code) [] tt 0 (0 ∷ 0 ∷ 0 ∷ 0 ∷ []) eight
      (refl, (refl, (refl, (refl, (refl, (refl, (refl, (refl, tt)))))))) eight_packed

-- A tree in which eight ones stay in inner nodes.
abbrev ones_tree : ℕ → HuffmanNode
ones_tree zero = node invalid invalid
ones_tree (suc n) = node invalid (ones_tree n)

ones_tree-Stays : (n k : ℕ) → k ≤ n → Stays (ones_tree n) (replicate k true)
ones_tree-Stays zero zero h = tt
ones_tree-Stays (suc n) zero h = tt
ones_tree-Stays zero (suc k) h = absurd (omega arith)
ones_tree-Stays (suc n) (suc k) h = ones_tree-Stays n k (omega arith)

root-Stays : (k : ℕ) → k < 8 → Stays (node zeros (ones_tree 7)) (replicate k true)
root-Stays zero h = tt
root-Stays (suc k) h = ones_tree-Stays 7 k (omega arith)

-- The code of every byte is that of `z`.
abbrev encode_map : ℕ → HuffmanEncodeEntry
encode_map c = record { value = 0; bit_size = 5 }

one_coded : AreCoded (node zeros (ones_tree 7)) (code_in encode_map) one
unfolding code_of
one_coded = (refl, tt)

one_bits : code_bits encode_map one ≡ 5
unfolding code_bits
one_bits = refl

decode-encode_value_example :
    (bytes : Bytes) × (hpack_huffman_encode_value encode_map (some one) ≡ ok bytes)
    × (decode_bytes_huffman (node zeros (ones_tree 7)) bytes ≡ (
        if ltb (length one) (memory_size (length bytes))
        then ok one
        else error result_memory_overflow))
decode-encode_value_example =
    decode-encode_value encode_map b'z' [] (omega (arith, one_bits)) (omega (arith, one_bits)) zeros
      (ones_tree 7) one_coded root-Stays
