-- ===== src/Hpack/Compress/Literal.antt =====
-- What the encoder of src/http/hpack.c writes for a literal field without Huffman coding.
use my_simple_c_http_server.Prelude.{
  ℕ, ◌+◌, ◌^◌, ◌≤◌, ◌<◌, ◌≡◌, refl, ◌∙◌, ap, Bool, true, false, [], ◌∷◌, ◌++◌, append_assoc, some,
  ltb-false, arith, Bytes, length, length-append, ok,
}
use my_simple_c_http_server.Hpack.Types.{External}
use my_simple_c_http_server.Hpack.Integer.{max_hpack_variable_integer_size}
use my_simple_c_http_server.Hpack.Integer.Encoding.{
  IsFlag, encoding, encode-encoding, length-encoding_small,
}
use my_simple_c_http_server.Hpack.Compress.{
  write, write_encoded, write_integer, write_plain, finish, variant1_size, variant2_size,
  variant1_no_huffman, variant2_no_huffman,
}

-- A string as RFC 7541, 5.2 has it, without Huffman coding.
abbrev pub string_literal : Bytes → Bytes
string_literal s = encoding 0x00 (length s) 7 ++ s

pub IsFlag-7 : IsFlag 7 0x00
IsFlag-7 = record { narrow = omega arith; above = omega arith; clear = refl }

write_ok :
    (max : ℕ) (chunk out : Bytes)
    → length out + length chunk ≤ max
    → write max chunk out ≡ ok (out ++ chunk)
unfolding write
write_ok max chunk out h = rw (ltb-false max (length out + length chunk) h)

module _ (max : ℕ) (out : Bytes) where
  write_encoded_ok :
      (tested : Bool) (bytes : Bytes)
      → length bytes ≤ 6
      → length out + 6 ≤ max
      → write_encoded max tested out (some bytes) ≡ ok (out ++ bytes)
  unfolding write_encoded
  write_encoded_ok false bytes short room = rw (write_ok max bytes out (omega arith))
  write_encoded_ok true bytes short room = rw (
    write_ok max bytes out (omega arith),
    ltb-false max_hpack_variable_integer_size (length bytes) (omega arith),
  )

  pub write_integer_ok :
      {p flag : ℕ} (f : IsFlag p flag) (tested : Bool) (v : ℕ)
      → v < 2 ^ 31
      → length out + 6 ≤ max
      → write_integer max tested flag p v out ≡ ok (out ++ encoding flag v p)
  unfolding write_integer
  write_integer_ok {p} {flag} f tested v h room =
      ap (write_encoded max tested out) (encode-encoding f v (omega arith))
      ∙ write_encoded_ok tested (encoding flag v p) (length-encoding_small f v h) room

  write_plain_ok :
      (s : Bytes)
      → length s < 2 ^ 31
      → length out + 6 + length s ≤ max
      → write_plain max (some s) out ≡ ok (out ++ string_literal s)
  unfolding write_plain
  write_plain_ok s h room = rw (write_integer_ok IsFlag-7 true (length s) h (omega arith)) (
      write_ok max s (out ++ encoding 0 (length s) 7) (
        omega (
          arith,
          length-append out (encoding 0 (length s) 7),
          length-encoding_small IsFlag-7 (length s) h,
        ))
      ∙ ap ok (append_assoc out (encoding 0 (length s) 7) s))

variant1_size_ok : (n : ℕ) → n < 2 ^ 33 → variant1_size n ≡ 21 + n
variant1_size_ok n h = omega arith

variant2_size_ok : (k v : ℕ) → k + v < 2 ^ 33 → variant2_size k v ≡ 21 + k + v
variant2_size_ok k v h = omega arith

pub finish_ok : (max : ℕ) (out : Bytes) → length out ≤ max → finish max out ≡ ok out
finish_ok max out h = rw (ltb-false max (length out) h)

length-string_literal : (s : Bytes) → length s < 2 ^ 31 → length (string_literal s) ≤ 6 + length s
length-string_literal s h =
    omega (
      arith,
      length-append (encoding 0 (length s) 7) s,
      length-encoding_small IsFlag-7 (length s) h,
    )

-- Two buffers of the literal field: with the index of a key, and with the key.
module _ (ext : External) {p flag : ℕ} (f : IsFlag p flag) (v : Bytes)
    (hv : length v < 2 ^ 31) where
  pub variant1_no_huffman_ok :
      (idx : ℕ)
      → idx < 2 ^ 31
      → variant1_no_huffman ext flag p idx (some v) ≡ ok (encoding flag idx p ++ string_literal v)
  unfolding variant1_no_huffman
  variant1_no_huffman_ok idx hi =
      rw
        (
          variant1_size_ok (length v) (omega arith),
          write_integer_ok (21 + length v) [] f true idx hi (omega arith),
          write_plain_ok (21 + length v) (encoding flag idx p) v hv
              (omega (arith, length-encoding_small f idx hi)),
        )
        (finish_ok (21 + length v) _ (
          omega (
            arith,
            length-append (encoding flag idx p) (string_literal v),
            length-encoding_small f idx hi,
            length-string_literal v hv,
          )))

  pub variant2_no_huffman_ok :
      (k : Bytes)
      → length k < 2 ^ 31
      → variant2_no_huffman ext flag (record { key = some k; value = some v })
        ≡ ok (flag ∷ (string_literal k ++ string_literal v))
  unfolding variant2_no_huffman
  variant2_no_huffman_ok k hk =
      rw
        (
          variant2_size_ok (length k) (length v) (omega arith),
          write_ok (21 + length k + length v) (flag ∷ []) [] (omega arith),
          write_plain_ok (21 + length k + length v) (flag ∷ []) k hk (omega arith),
          write_plain_ok (21 + length k + length v) (flag ∷ string_literal k) v hv
              (omega (arith, length-string_literal k hk)),
        )
        (finish_ok (21 + length k + length v) _ (
          omega (
            arith,
            length-append (string_literal k) (string_literal v),
            length-string_literal k hk,
            length-string_literal v hv,
          )))
