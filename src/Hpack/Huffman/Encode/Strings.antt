-- ===== src/Hpack/Huffman/Encode/Strings.antt =====
-- hpack_huffman_encode_value of src/http/hpack_huffman.c on a whole string.
use my_simple_c_http_server.Prelude.{
  ℕ, zero, suc, ◌+◌, ◌-◌, ◌*◌, ◌/◌, ◌^◌, ◌≤◌, ◌<◌, ◌≡◌, refl, sym, ap, ◌∙◌, Bool, true, false, List,
  [], ◌∷◌, ◌++◌, append_assoc, append-nil, replicate, some, bit_or, leb, ltb, ◌==◌, ==_iff,
  if◌then◌else◌, arith, tests, Bool-cases, inl, inr, Bytes, length, length-append, ok, error,
}
use my_simple_c_http_server.Hpack.Types.{tstr_len, HuffmanEncodeEntry, HuffmanNode, node}
use my_simple_c_http_server.Hpack.Huffman.{
  Written, bits_of, encode_chars, encode_end, code_bits, hpack_huffman_get_encoded_size,
  hpack_huffman_encode_value_fixed_size, hpack_huffman_encode_value, memory_size,
  decode_bytes_huffman, result_memory_overflow,
}
use my_simple_c_http_server.Hpack.Huffman.Decode.{
  codes_of, Stays, AreCoded, decode_bytes_huffman-codes_of,
}
use my_simple_c_http_server.Hpack.Huffman.Encode.{
  Holds, Adds, count_of, held, bits_held, code_of, encode_char-Adds, end_bits, bits_of_last,
}

-- The two tests of the room for a string that is not empty.
below_memory : (n memory : ℕ) → leb (suc n) (memory - 1) ≡ ltb (suc n) memory
below_memory n memory = ground arith

module _ (encode_map : ℕ → HuffmanEncodeEntry) where
  abbrev pub code_in : ℕ → List Bool
  code_in c = code_of (encode_map c).bit_size (encode_map c).value

  module _ (size : ℕ) where
    encode_chars-Adds :
        (str : Bytes) (out : Written) (bits : List Bool)
        → Holds out bits
        → count_of out + code_bits encode_map str ≤ 8 * size
        → Adds size
            (encode_chars encode_map size size str out)
            (count_of out + code_bits encode_map str)
            (bits ++ codes_of code_in str)
    unfolding encode_chars code_bits
    encode_chars-Adds [] out bits h space = (out, refl, rw (append-nil bits) h, omega arith)
    encode_chars-Adds (c ∷ str) out bits h space =
        let (out', steps, h', count) =
          encode_char-Adds size (encode_map c).bit_size (encode_map c).value out bits h
            (omega arith) in
        let (out'', rest, h'', count') =
          encode_chars-Adds str out' (bits ++ code_in c) h' (omega (arith, count)) in
        (
          out'',
          rw steps rest,
          rw (append_assoc bits (code_in c) (codes_of code_in str)) at h'',
          omega (arith, count, count'),
        )

    open_bits :
        (out : Written) (bits : List Bool)
        → Holds out bits
        → ltb 0 out.bits_pos ≡ true
        → bits_of (encode_end out) ≡ bits ++ replicate (8 - out.bits_pos) true
    unfolding encode_end
    open_bits out bits h open_byte =
        rw (open_byte, h.is_byte)
          (bits_of_last out.done (bit_or (held out.bits_pos h.number) (2 ^ (8 - out.bits_pos) - 1))
            ∙ ap (λ l. bits_of out.done ++ l) (end_bits out.bits_pos h.number h.low h.fits)
            ∙ sym (
                append_assoc (bits_of out.done) (bits_held out.bits_pos h.number)
                  (replicate (8 - out.bits_pos) true))
            ∙ ap (λ l. l ++ replicate (8 - out.bits_pos) true) (sym h.holds))

    whole_bits :
        (out : Written) (bits : List Bool)
        → Holds out bits
        → ltb 0 out.bits_pos ≡ false
        → bits_of (encode_end out) ≡ bits ++ []
    unfolding encode_end
    whole_bits out bits h whole = rw whole (
        sym (
          append-nil bits
          ∙ h.holds
          ∙ ap (λ pos. bits_of out.done ++ bits_held pos h.number) {x = out.bits_pos} {y = 0}
              (omega tests)
          ∙ append-nil (bits_of out.done)))

    -- The bytes at the end, and how many they are.
    end_of :
        (out : Written) (bits : List Bool)
        → Holds out bits
        → (ones : ℕ) × (ones < 8)
          × (bits_of (encode_end out) ≡ bits ++ replicate ones true)
          × (length (encode_end out) * 8 ≡ count_of out + ones)
    unfolding encode_end
    end_of out bits h = elim (Bool-cases (ltb 0 out.bits_pos)) [
      | inl open_byte ↦ (
        8 - out.bits_pos,
        omega tests,
        open_bits out bits h open_byte,
        rw open_byte (
            omega (
              arith,
              length-append out.done (bit_or out.byte (2 ^ (8 - out.bits_pos) - 1) ∷ []),
              h.low,
            )),
      )
      | inr whole ↦ (0, omega arith, whole_bits out bits h whole, rw whole (omega tests))
    ]

  start_Holds : Holds (record { done = []; byte = 0; bits_pos = 0 }) []
  unfolding bits_of
  start_Holds = record {
    number = 0;
    low = omega arith;
    fits = omega arith;
    is_byte = refl;
    holds = refl;
  }

  length-code_of : (left value : ℕ) → length (code_of left value) ≡ left
  unfolding code_of
  length-code_of zero value = refl
  length-code_of (suc left) value = ap suc (length-code_of left (value / 2))

  length-codes_of : (str : Bytes) → length (codes_of code_in str) ≡ code_bits encode_map str
  unfolding code_bits
  length-codes_of [] = refl
  length-codes_of (c ∷ str) = omega (
    arith,
    length-append (code_in c) (codes_of code_in str),
    length-code_of (encode_map c).bit_size (encode_map c).value,
    length-codes_of str,
  )

  module _ (c : ℕ) (str : Bytes) (some_bits : 0 < code_bits encode_map (c ∷ str))
      (few_bits : code_bits encode_map (c ∷ str) < 2 ^ 63) where
    size_of : ℕ
    size_of = hpack_huffman_get_encoded_size encode_map (some (c ∷ str))

    size_value : size_of ≡ (code_bits encode_map (c ∷ str) + 7) / 8
    unfolding hpack_huffman_get_encoded_size size_of
    size_value = omega arith

    size_nonzero : (size_of == 0) ≡ false
    size_nonzero = ground (arith, size_value)

    not_empty : (tstr_len (some (c ∷ str)) == 0) ≡ false
    not_empty = ground arith

    fixed_runs :
        (size : ℕ) (out : Written)
        → (size == 0) ≡ false
        → encode_chars encode_map size size (c ∷ str) (record { done = []; byte = 0; bits_pos = 0 })
          ≡ ok out
        → hpack_huffman_encode_value_fixed_size encode_map size size (some (c ∷ str))
          ≡ ok (encode_end out)
    unfolding hpack_huffman_encode_value_fixed_size
    fixed_runs size out nonzero runs = rw (nonzero, runs, not_empty)

    encode_runs :
        (out : Written)
        → encode_chars encode_map size_of size_of
            (c ∷ str)
            (record { done = []; byte = 0; bits_pos = 0 })
          ≡ ok out
        → (length (encode_end out) == size_of) ≡ true
        → hpack_huffman_encode_value encode_map (some (c ∷ str)) ≡ ok (encode_end out)
    unfolding hpack_huffman_encode_value size_of
    encode_runs out runs exact = rw (size_nonzero, fixed_runs size_of out size_nonzero runs, exact)

    -- The bytes are the codes of the string, filled up with fewer than eight ones.
    encode_value-codes_of :
        (bytes : Bytes) × (ones : ℕ) × (hpack_huffman_encode_value encode_map (some (c ∷ str))
          ≡ ok bytes)
        × (ones < 8)
        × (bits_of bytes ≡ codes_of code_in (c ∷ str) ++ replicate ones true)
    encode_value-codes_of =
        let (out, runs, h, count) =
          encode_chars-Adds size_of (c ∷ str) _ [] start_Holds (omega (arith, size_value)) in
        let (ones, few, packed, exact) = end_of size_of out (codes_of code_in (c ∷ str)) h in
        (
          encode_end out,
          ones,
          encode_runs out runs (
              (==_iff (length (encode_end out)) size_of).1
                (omega (arith, size_value, count, exact))),
          few,
          packed,
        )

    -- With the tree of the same codes, in which fewer than eight ones stay in inner nodes, the encoder
    -- succeeds on a string whose codes have between 1 and 2 ^ 63 - 1 bits, and the decoder reads the
    -- string back, unless it has as many bytes as the decoder's result buffer or more.
    pub decode-encode_value :
        (l r : HuffmanNode)
        → AreCoded (node l r) code_in (c ∷ str)
        → ((ones : ℕ) → ones < 8 → Stays (node l r) (replicate ones true))
        → (bytes : Bytes) × (hpack_huffman_encode_value encode_map (some (c ∷ str)) ≡ ok bytes)
          × (decode_bytes_huffman (node l r) bytes ≡ (
              if ltb (length (c ∷ str)) (memory_size (length bytes))
              then ok (c ∷ str)
              else error result_memory_overflow))
    decode-encode_value l r coded stays =
        let (bytes, ones, runs, few, packed) = encode_value-codes_of in
        (bytes, runs, decodes bytes ones few packed)
      where
        decodes :
            (bytes : Bytes) (ones : ℕ)
            → ones < 8
            → bits_of bytes ≡ codes_of code_in (c ∷ str) ++ replicate ones true
            → decode_bytes_huffman (node l r) bytes ≡ (
                if ltb (length (c ∷ str)) (memory_size (length bytes))
                then ok (c ∷ str)
                else error result_memory_overflow)
        decodes [] ones few packed = absurd (
            unfold bits_of in
            omega (
              arith,
              ap length packed,
              length-append (codes_of code_in (c ∷ str)) (replicate ones true),
              length-codes_of (c ∷ str),
            ))
        decodes (b ∷ bytes) ones few packed =
            decode_bytes_huffman-codes_of l r code_in (replicate ones true) (stays ones few) b bytes
              (c ∷ str) coded packed
            ∙ rw (below_memory (length str) (memory_size (length (b ∷ bytes)))) refl
