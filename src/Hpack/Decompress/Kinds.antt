-- ===== src/Hpack/Decompress/Kinds.antt =====
-- The parser that the first byte of a field selects in http2_hpack_decompress_data of
-- src/http/hpack.c.
use my_simple_c_http_server.Prelude.{
  ℕ, ◌≤◌, ◌<◌, ◌≡◌, true, false, not, ◌∷◌, bit_and, ◌==◌, arith, Bytes, map_ok,
}
use my_simple_c_http_server.Prelude.Bits.{top_bit, top_two_bits, top_three_bits, top_four_bits}
use my_simple_c_http_server.Hpack.Types.{External}
use my_simple_c_http_server.Hpack.Decompress.{
  Decoder, in_indexed, in_incremental, in_never_indexed, decode_field, failing, push, push_in,
  parse_hpack_indexed_header_field, parse_hpack_literal_header_field_with_incremental_indexing,
  parse_hpack_literal_header_field_never_indexed,
}

indexed_bits : (b : ℕ) → b < 256 → 128 ≤ b → not (bit_and b 0x80 == 0) ≡ true
indexed_bits b h l = ground (arith, top_bit b)

low_bits : (b : ℕ) → b < 128 → not (bit_and b 0x80 == 0) ≡ false
low_bits b h = ground (arith, top_bit b)

incremental_bits : (b : ℕ) → b < 128 → 64 ≤ b → (bit_and b 0xC0 == 0x40) ≡ true
incremental_bits b h l = ground (arith, top_two_bits b)

not_incremental_bits : (b : ℕ) → b < 64 → (bit_and b 0xC0 == 0x40) ≡ false
not_incremental_bits b h = ground (arith, top_two_bits b)

not_update_bits : (b : ℕ) → b < 32 → (bit_and b 0xE0 == 0x20) ≡ false
not_update_bits b h = ground (arith, top_three_bits b)

never_bits : (b : ℕ) → b < 32 → 16 ≤ b → (bit_and b 0xF0 == 0x10) ≡ true
never_bits b h l = ground (arith, top_four_bits b)

module _ (g : External) (d : Decoder) (b : ℕ) (bytes : Bytes) where
  pub decode_indexed :
      128 ≤ b
      → b < 256
      → decode_field g d b bytes
        ≡ map_ok
            (push g d)
            (failing g in_indexed d (parse_hpack_indexed_header_field g d.state (b ∷ bytes)))
  unfolding decode_field
  decode_indexed l h = rw (indexed_bits b h l)

  pub decode_incremental :
      64 ≤ b
      → b < 128
      → decode_field g d b bytes
        ≡ map_ok (push_in g d) (
            failing g in_incremental d
              (parse_hpack_literal_header_field_with_incremental_indexing g d.state (b ∷ bytes)))
  unfolding decode_field
  decode_incremental l h = rw (low_bits b h, incremental_bits b h l)

  pub decode_never :
      16 ≤ b
      → b < 32
      → decode_field g d b bytes
        ≡ map_ok (push g d) (
            failing g in_never_indexed d
              (parse_hpack_literal_header_field_never_indexed g d.state (b ∷ bytes)))
  unfolding decode_field
  decode_never l h = rw (
    low_bits b (omega arith),
    not_incremental_bits b (omega arith),
    not_update_bits b h,
    never_bits b h l,
  )
