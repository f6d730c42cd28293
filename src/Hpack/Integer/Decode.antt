-- ===== src/Hpack/Integer/Decode.antt =====
-- decode_hpack_variable_integer on any input, well formed or not.
use my_simple_c_http_server.Prelude.{
  ℕ, ◌+◌, ◌*◌, ◌%◌, ◌^◌, ◌≤◌, ◌<◌, ◌≡◌, [], ◌∷◌, bit_and, arith, Bytes, length, ok, stuck, Ensures,
  Ensures-of, ◌≢◌,
}
use my_simple_c_http_server.Prelude.Bits.{and_le}
use my_simple_c_http_server.Hpack.Integer.{decode_loop, decode_hpack_variable_integer, mask_of}

-- After `j` bytes the shift is 7 * j, and a sixth byte is never added.
decode_loop_takes :
    (bytes : Bytes) (acc amount j v : ℕ) (rest : Bytes)
    → amount ≡ 7 * j
    → j ≤ 5
    → acc < 256 + j * 2 ^ 31
    → decode_loop bytes acc amount ≡ ok (v, rest)
    → (length rest < length bytes) × (length bytes + j ≤ length rest + 5) × (v < 2 ^ 34)
unfolding decode_loop
decode_loop_takes [] acc amount j v rest ha hj hacc e = cc
decode_loop_takes (b ∷ bytes) acc amount j v rest ha hj hacc e =
    let shifted : ℕ = bit_and b 0x7f * 2 ^ amount in
    ground (
      arith,
      decode_loop_takes bytes ((acc + shifted) % 2 ^ 64) ((amount + 7) % 256) (j + 1) v rest,
    )

-- A successful decoding takes one to six bytes, and the number is below 2 ^ 34.
pub decode_takes :
    (p : ℕ) (bytes : Bytes) (v : ℕ) (rest : Bytes)
    → p ≤ 8
    → decode_hpack_variable_integer p bytes ≡ ok (v, rest)
    → (length rest < length bytes) × (length bytes ≤ length rest + 6) × (v < 2 ^ 34)
unfolding decode_hpack_variable_integer
decode_takes p [] v rest hp e = cc
decode_takes p (b ∷ bytes) v rest hp e =
    ground (arith, decode_loop_takes bytes (bit_and b (mask_of p)) 0 0 v rest, and_le b (mask_of p))

decode_loop-ne-stuck : (bytes : Bytes) (acc amount : ℕ) → decode_loop bytes acc amount ≢ stuck
unfolding decode_loop
decode_loop-ne-stuck [] acc amount e = cc
decode_loop-ne-stuck (b ∷ bytes) acc amount e =
    let shifted : ℕ = bit_and b 0x7f * 2 ^ amount in
    ground (arith, decode_loop-ne-stuck bytes ((acc + shifted) % 2 ^ 64) ((amount + 7) % 256))

decode-ne-stuck : (p : ℕ) (bytes : Bytes) → decode_hpack_variable_integer p bytes ≢ stuck
unfolding decode_hpack_variable_integer
decode-ne-stuck p [] e = cc
decode-ne-stuck p (b ∷ bytes) e =
    ground (arith, decode_loop-ne-stuck bytes (bit_and b (mask_of p)) 0)

pub decode-Ensures :
    (p : ℕ) (bytes : Bytes)
    → p ≤ 8
    → Ensures
        (λ _. Unit {0})
        (λ (v, rest). (length rest < length bytes) × (v < 2 ^ 34))
        (decode_hpack_variable_integer p bytes)
decode-Ensures p bytes hp =
    Ensures-of _ _ (decode-ne-stuck p bytes)
      λ (v, rest) e. let (less, _, small) = decode_takes p bytes v rest hp e in (less, small)
