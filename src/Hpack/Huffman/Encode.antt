-- ===== src/Hpack/Huffman/Encode.antt =====
-- hpack_huffman_encode_value of src/http/hpack_huffman.c, by the bits that it writes.
pub mod Strings
use my_simple_c_http_server.Prelude.{
  ℕ, zero, suc, ◌+◌, ◌-◌, ◌*◌, ◌/◌, ◌%◌, ◌^◌, ◌≤◌, ◌<◌, ◌≡◌, refl, sym, ap, ◌∙◌, Bool, true, false,
  ◌&&◌, List, [], ◌∷◌, ◌++◌, append_assoc, append-nil, replicate, bit_and, bit_or, leb, ltb, ◌==◌,
  ==_iff, leb-false, le→leb, lt→ltb, ltb-false, if◌then◌else◌, arith, tests, Bool-cases, inl, inr,
  Bytes, take, length, length-append, Outcome, ok, error, ◌>>=◌,
}
use native.Mathlib.Nat.{pow-suc}
use my_simple_c_http_server.Prelude.Bits.{tabled, tabled_lem, and_le}
use my_simple_c_http_server.Hpack.Types.{HuffmanEncodeEntry}
use my_simple_c_http_server.Hpack.Huffman.Decode.{codes_of}
use my_simple_c_http_server.Hpack.Huffman.{
  HuffmanError, byte_bits, bits_of, Written, encode_bit, encode_char, encode_chars, encode_end,
  code_bits,
}

same_bits : List Bool → List Bool → Bool
same_bits [] [] = true
same_bits (true ∷ xs) (true ∷ ys) = same_bits xs ys
same_bits (false ∷ xs) (false ∷ ys) = same_bits xs ys
same_bits _ _ = false

same_bits_lem : (xs ys : List Bool) → same_bits xs ys ≡ true → xs ≡ ys
unfolding same_bits
same_bits_lem [] [] h = refl
same_bits_lem (true ∷ xs) (true ∷ ys) h = ap (λ l. true ∷ l) (same_bits_lem xs ys h)
same_bits_lem (false ∷ xs) (false ∷ ys) h = ap (λ l. false ∷ l) (same_bits_lem xs ys h)
same_bits_lem [] (y ∷ ys) h = cc
same_bits_lem (true ∷ xs) [] h = cc
same_bits_lem (false ∷ xs) [] h = cc
same_bits_lem (true ∷ xs) (false ∷ ys) h = cc
same_bits_lem (false ∷ xs) (true ∷ ys) h = cc

-- A byte whose upper `pos` bits are written, from the number `q` that they make.
abbrev held : ℕ → ℕ → ℕ
held pos q = q * 2 ^ (8 - pos)

abbrev bits_held : ℕ → ℕ → List Bool
bits_held pos q = take pos (byte_bits (held pos q))

-- What one more bit makes of the byte, and what the ones at the end make of it.
abbrev bit_test : ℕ → ℕ → ℕ → Bool
bit_test pos q bit =
    (bit_or (held pos q) (bit * 2 ^ (7 - pos) % 256) == held (pos + 1) (q * 2 + bit))
    && same_bits (bits_held (pos + 1) (q * 2 + bit)) (bits_held pos q ++ (bit == 1) ∷ [])

bit_table : tabled (λ pos. tabled (λ q. tabled (λ bit. bit_test pos q bit) 2) (2 ^ pos)) 8 ≡ true
unfolding tabled same_bits byte_bits
bit_table = refl

abbrev end_test : ℕ → ℕ → Bool
end_test pos q =
    same_bits (byte_bits (bit_or (held pos q) (2 ^ (8 - pos) - 1)))
      (bits_held pos q ++ replicate (8 - pos) true)

end_table : tabled (λ pos. tabled (λ q. end_test pos q) (2 ^ pos)) 8 ≡ true
unfolding tabled same_bits byte_bits
end_table = refl

and_left : (x y : Bool) → (x && y) ≡ true → x ≡ true
and_left true y h = refl
and_left false y h = cc

and_right : (x y : Bool) → (x && y) ≡ true → y ≡ true
and_right true y h = h
and_right false y h = cc

module _ (pos q : ℕ) (hp : pos < 8) (hq : q < 2 ^ pos) where
  module _ (bit : ℕ) (hb : bit < 2) where
    bit_passes : bit_test pos q bit ≡ true
    bit_passes =
        tabled_lem (λ b. bit_test pos q b) 2 bit
          (tabled_lem (λ r. tabled (λ b. bit_test pos r b) 2) (2 ^ pos) q
            (tabled_lem (λ p. tabled (λ r. tabled (λ b. bit_test p r b) 2) (2 ^ p)) 8 pos bit_table
              hp)
            hq)
          hb

    next_byte : bit_or (held pos q) (bit * 2 ^ (7 - pos) % 256) ≡ held (pos + 1) (q * 2 + bit)
    next_byte = (==_iff _ _).0 (and_left _ _ bit_passes)

    next_bits : bits_held (pos + 1) (q * 2 + bit) ≡ bits_held pos q ++ (bit == 1) ∷ []
    next_bits = same_bits_lem _ _ (and_right _ _ bit_passes)

  end_bits :
      byte_bits (bit_or (held pos q) (2 ^ (8 - pos) - 1))
      ≡ bits_held pos q ++ replicate (8 - pos) true
  end_bits = same_bits_lem _ _ (
      tabled_lem (λ r. end_test pos r) (2 ^ pos) q
        (tabled_lem (λ p. tabled (λ r. end_test p r) (2 ^ p)) 8 pos end_table hp) hq)

bits_of-append : (xs ys : Bytes) → bits_of (xs ++ ys) ≡ bits_of xs ++ bits_of ys
unfolding bits_of
bits_of-append [] ys = refl
bits_of-append (x ∷ xs) ys =
    ap (λ l. byte_bits x ++ l) (bits_of-append xs ys)
    ∙ sym (append_assoc (byte_bits x) (bits_of xs) (bits_of ys))

bits_of_last : (done : Bytes) (x : ℕ) → bits_of (done ++ x ∷ []) ≡ bits_of done ++ byte_bits x
unfolding bits_of
bits_of_last done x =
    bits_of-append done (x ∷ []) ∙ ap (λ l. bits_of done ++ l) (append-nil (byte_bits x))

whole_byte :
    (pos : ℕ) (done : Bytes) (x : ℕ)
    → pos ≡ 8
    → bits_of done ++ take pos (byte_bits x) ≡ bits_of (done ++ x ∷ []) ++ []
unfolding byte_bits
whole_byte pos done x e = rw e (sym (append-nil (bits_of (done ++ x ∷ [])) ∙ bits_of_last done x))

held_start : (pos q : ℕ) → (pos == 0) ≡ true → q < 2 ^ pos → held pos q ≡ 0
held_start zero q e h = omega arith
held_start (suc pos) q e h = ground arith

and_false : (x : Bool) → (x && false) ≡ false
and_false true = refl
and_false false = refl

-- The output holds these bits.
record Holds (out : Written) (bits : List Bool) : Type 0 where
  pub number : ℕ
  pub low : out.bits_pos < 8
  pub fits : number < 2 ^ out.bits_pos
  pub is_byte : out.byte ≡ held out.bits_pos number
  pub holds : bits ≡ bits_of out.done ++ bits_held out.bits_pos number

abbrev count_of : Written → ℕ
count_of out = 8 * length out.done + out.bits_pos

next_fits : (pos n bit : ℕ) → n < 2 ^ pos → bit < 2 → n * 2 + bit < 2 ^ (pos + 1)
next_fits pos n bit hn hb = rw next (omega (arith, pow-suc 2 pos))
  where
    next : pos + 1 ≡ suc pos
    next = omega arith

-- The bits of a code.
unfoldable pub code_of : ℕ → ℕ → List Bool
code_of zero value = []
code_of (suc left) value = (bit_and value 0x01 == 1) ∷ code_of left (value / 2)

low_bit : (value : ℕ) → bit_and value 0x01 < 2
low_bit value = omega (arith, and_le value 1)

module _ (size : ℕ) where
  -- What a step makes of the output.
  abbrev Adds : Outcome HuffmanError Written → ℕ → List Bool → Type 0
  Adds step count bits = (out : Written) × (step ≡ ok out) × Holds out bits × (count_of out ≡ count)

  cleared :
      (out : Written) (bits : List Bool)
      → Holds out bits
      → (if out.bits_pos == 0 then 0 else out.byte) ≡ out.byte
  cleared out bits h = elim (Bool-cases (out.bits_pos == 0)) [
    | inl first ↦ rw first (sym (h.is_byte ∙ held_start out.bits_pos h.number first h.fits))
    | inr other ↦ rw other
  ]

  module _ (bit : ℕ) (hb : bit < 2) (out : Written) (bits : List Bool) (h : Holds out bits)
      (space : length out.done < size) where
    new_byte :
        bit_or (if out.bits_pos == 0 then 0 else out.byte) (bit * 2 ^ (7 - out.bits_pos) % 256)
        ≡ held (out.bits_pos + 1) (h.number * 2 + bit)
    new_byte =
        rw (cleared out bits h, h.is_byte) (next_byte out.bits_pos h.number h.low h.fits bit hb)

    -- The output behind the bit, where it fills the byte and where it does not.
    full_out : Written
    full_out = record {
      done = out.done ++ held (out.bits_pos + 1) (h.number * 2 + bit) ∷ [];
      byte = 0;
      bits_pos = 0;
    }

    part_out : Written
    part_out = record out {
      byte = held (out.bits_pos + 1) (h.number * 2 + bit);
      bits_pos = out.bits_pos + 1;
    }

    encode_full : leb 8 (out.bits_pos + 1) ≡ true → encode_bit size size bit out ≡ ok full_out
    unfolding encode_bit full_out
    encode_full full =
        rw (leb-false size (length out.done) space, and_false (out.bits_pos == 0), new_byte, full)

    encode_part : leb 8 (out.bits_pos + 1) ≡ false → encode_bit size size bit out ≡ ok part_out
    unfolding encode_bit part_out
    encode_part part =
        rw (leb-false size (length out.done) space, and_false (out.bits_pos == 0), new_byte, part)

    new_bits :
        bits ++ (bit == 1) ∷ []
        ≡ bits_of out.done ++ bits_held (out.bits_pos + 1) (h.number * 2 + bit)
    new_bits =
        ap (λ l. l ++ (bit == 1) ∷ []) h.holds
        ∙ append_assoc (bits_of out.done) (bits_held out.bits_pos h.number) ((bit == 1) ∷ [])
        ∙ ap (λ l. bits_of out.done ++ l)
            (sym (next_bits out.bits_pos h.number h.low h.fits bit hb))

    part_Holds : leb 8 (out.bits_pos + 1) ≡ false → Holds part_out (bits ++ (bit == 1) ∷ [])
    unfolding part_out
    part_Holds part = record {
      number = h.number * 2 + bit;
      low = omega tests;
      fits = next_fits out.bits_pos h.number bit h.fits hb;
      is_byte = refl;
      holds = new_bits;
    }

    full_Holds : leb 8 (out.bits_pos + 1) ≡ true → Holds full_out (bits ++ (bit == 1) ∷ [])
    unfolding full_out
    full_Holds full = record {
      number = 0;
      low = omega arith;
      fits = omega arith;
      is_byte = refl;
      holds =
          new_bits
          ∙ whole_byte (out.bits_pos + 1) out.done (held (out.bits_pos + 1) (h.number * 2 + bit))
              (omega tests);
    }

    encode_bit-Adds :
        Adds (encode_bit size size bit out) (count_of out + 1) (bits ++ (bit == 1) ∷ [])
    encode_bit-Adds = elim (Bool-cases (leb 8 (out.bits_pos + 1))) [
      | inl full ↦ (
        full_out,
        encode_full full,
        full_Holds full,
        unfold full_out in
            omega
              (tests, length-append out.done (held (out.bits_pos + 1) (h.number * 2 + bit) ∷ [])),
      )
      | inr part ↦ (part_out, encode_part part, part_Holds part, unfold part_out in omega arith)
    ]

  -- A code, by its value and its size: the first bit is the lowest.
  encode_char-Adds :
      (left value : ℕ) (out : Written) (bits : List Bool)
      → Holds out bits
      → count_of out + left ≤ 8 * size
      → Adds
          (encode_char size size left value out)
          (count_of out + left)
          (bits ++ code_of left value)
  unfolding encode_char code_of
  encode_char-Adds zero value out bits h space = (out, refl, rw (append-nil bits) h, omega arith)
  encode_char-Adds (suc left) value out bits h space =
      let (out', steps, h', count) =
        encode_bit-Adds (bit_and value 0x01) (low_bit value) out bits h (omega (arith, h.low)) in
      let (out'', rest, h'', count') =
        encode_char-Adds left (value / 2) out' (bits ++ (bit_and value 0x01 == 1) ∷ []) h'
          (omega (arith, count)) in
      (
        out'',
        rw steps rest,
        rw (append_assoc bits ((bit_and value 0x01 == 1) ∷ []) (code_of left (value / 2))) at h'',
        omega (arith, count, count'),
      )
