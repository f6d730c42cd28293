-- ===== src/Serialization.antt =====
-- src/generic/serialize.c on hosts of both byte orders. A pointer is the list of the bytes behind it;
-- the macros that swap bytes are those of byteswap.h and arpa/inet.h.
pub mod Laws
mod Tests
use my_simple_c_http_server.Prelude.{
  ℕ, ◌+◌, ◌*◌, ◌/◌, ◌%◌, ◌^◌, [], ◌∷◌, Bytes, Outcome, ok, fault, map_ok,
}

-- `BYTE_ORDER`
pub data ByteOrder : Type 0 where
  little_endian big_endian : ByteOrder

-- `__builtin_bswap16`, `__builtin_bswap32` and `__builtin_bswap64`
pub bswap_16 : ℕ → ℕ
bswap_16 v = v % 256 * 256 + v / 256 % 256

pub bswap_32 : ℕ → ℕ
bswap_32 v =
    v % 256 * 2 ^ 24 + v / 2 ^ 8 % 256 * 2 ^ 16 + v / 2 ^ 16 % 256 * 2 ^ 8 + v / 2 ^ 24 % 256

unfoldable pub bswap_64 : ℕ → ℕ
unfolding bswap_32
bswap_64 v = bswap_32 (v % 2 ^ 32) * 2 ^ 32 + bswap_32 (v / 2 ^ 32 % 2 ^ 32)

-- `LE_TO_HOST_16`, `HOST_TO_LE_16`
abbrev pub le_to_host_16 : ByteOrder → ℕ → ℕ
le_to_host_16 little_endian v = v
le_to_host_16 big_endian v = bswap_16 v

-- `BE_TO_HOST_16`, `HOST_TO_BE_16`, `htons` and `ntohs`
abbrev pub be_to_host_16 : ByteOrder → ℕ → ℕ
be_to_host_16 little_endian v = bswap_16 v
be_to_host_16 big_endian v = v

abbrev pub le_to_host_32 : ByteOrder → ℕ → ℕ
le_to_host_32 little_endian v = v
le_to_host_32 big_endian v = bswap_32 v

abbrev pub be_to_host_32 : ByteOrder → ℕ → ℕ
be_to_host_32 little_endian v = bswap_32 v
be_to_host_32 big_endian v = v

abbrev pub be_to_host_64 : ByteOrder → ℕ → ℕ
be_to_host_64 little_endian v = bswap_64 v
be_to_host_64 big_endian v = v

-- Two, four or eight bytes of memory as the number that the host reads there.
pub of_bytes_16 : ByteOrder → ℕ → ℕ → ℕ
of_bytes_16 little_endian a b = a + b * 256
of_bytes_16 big_endian a b = a * 256 + b

pub of_bytes_32 : ByteOrder → ℕ → ℕ → ℕ → ℕ → ℕ
of_bytes_32 little_endian a b c d = a + b * 2 ^ 8 + c * 2 ^ 16 + d * 2 ^ 24
of_bytes_32 big_endian a b c d = a * 2 ^ 24 + b * 2 ^ 16 + c * 2 ^ 8 + d

pub of_bytes_64 : ByteOrder → ℕ → ℕ → ℕ
of_bytes_64 little_endian first second = first + second * 2 ^ 32
of_bytes_64 big_endian first second = first * 2 ^ 32 + second

-- `memcpy` out of a buffer.
module _ {E : Type 0} where
  unfoldable pub deserialize_u16_host_to_host : ByteOrder → Bytes → Outcome E ℕ
  unfolding of_bytes_16
  deserialize_u16_host_to_host o (a ∷ b ∷ _) = ok (of_bytes_16 o a b)
  deserialize_u16_host_to_host o _ = fault

  unfoldable pub deserialize_u32_host_to_host : ByteOrder → Bytes → Outcome E ℕ
  unfolding of_bytes_32
  deserialize_u32_host_to_host o (a ∷ b ∷ c ∷ d ∷ _) = ok (of_bytes_32 o a b c d)
  deserialize_u32_host_to_host o _ = fault

  unfoldable pub deserialize_u64_host_to_host : ByteOrder → Bytes → Outcome E ℕ
  unfolding of_bytes_32 of_bytes_64
  deserialize_u64_host_to_host o (a ∷ b ∷ c ∷ d ∷ e ∷ f ∷ g ∷ h ∷ _) =
      ok (of_bytes_64 o (of_bytes_32 o a b c d) (of_bytes_32 o e f g h))
  deserialize_u64_host_to_host o _ = fault

  unfoldable pub deserialize_u16_le_to_host : ByteOrder → Bytes → Outcome E ℕ
  unfolding deserialize_u16_host_to_host bswap_16
  deserialize_u16_le_to_host o bytes =
      map_ok (le_to_host_16 o) (deserialize_u16_host_to_host o bytes)

  unfoldable pub deserialize_u32_le_to_host : ByteOrder → Bytes → Outcome E ℕ
  unfolding deserialize_u32_host_to_host bswap_32
  deserialize_u32_le_to_host o bytes =
      map_ok (le_to_host_32 o) (deserialize_u32_host_to_host o bytes)

  unfoldable pub deserialize_u16_be_to_host : ByteOrder → Bytes → Outcome E ℕ
  unfolding deserialize_u16_host_to_host bswap_16
  deserialize_u16_be_to_host o bytes =
      map_ok (be_to_host_16 o) (deserialize_u16_host_to_host o bytes)

  unfoldable pub deserialize_u32_be_to_host : ByteOrder → Bytes → Outcome E ℕ
  unfolding deserialize_u32_host_to_host bswap_32
  deserialize_u32_be_to_host o bytes =
      map_ok (be_to_host_32 o) (deserialize_u32_host_to_host o bytes)

  unfoldable pub deserialize_u64_be_to_host : ByteOrder → Bytes → Outcome E ℕ
  unfolding deserialize_u64_host_to_host bswap_64
  deserialize_u64_be_to_host o bytes =
      map_ok (be_to_host_64 o) (deserialize_u64_host_to_host o bytes)

  -- A number in network order: `htons` and `htonl` of the host's number.
  unfoldable pub deserialize_u16_le_to_no : ByteOrder → Bytes → Outcome E ℕ
  unfolding deserialize_u16_host_to_host bswap_16
  deserialize_u16_le_to_no o bytes =
      map_ok (λ raw_value. be_to_host_16 o (le_to_host_16 o raw_value))
        (deserialize_u16_host_to_host o bytes)

  unfoldable pub deserialize_u32_le_to_no : ByteOrder → Bytes → Outcome E ℕ
  unfolding deserialize_u32_host_to_host bswap_32
  deserialize_u32_le_to_no o bytes =
      map_ok (λ raw_value. be_to_host_32 o (le_to_host_32 o raw_value))
        (deserialize_u32_host_to_host o bytes)

-- `memcpy` into a result.
unfoldable pub serialize_u16_host_to_host : ByteOrder → ℕ → Bytes
serialize_u16_host_to_host little_endian v = v % 256 ∷ v / 2 ^ 8 % 256 ∷ []
serialize_u16_host_to_host big_endian v = v / 2 ^ 8 % 256 ∷ v % 256 ∷ []

unfoldable pub serialize_u32_host_to_host : ByteOrder → ℕ → Bytes
serialize_u32_host_to_host little_endian v =
    v % 256 ∷ v / 2 ^ 8 % 256 ∷ v / 2 ^ 16 % 256 ∷ v / 2 ^ 24 % 256 ∷ []
serialize_u32_host_to_host big_endian v =
    v / 2 ^ 24 % 256 ∷ v / 2 ^ 16 % 256 ∷ v / 2 ^ 8 % 256 ∷ v % 256 ∷ []

unfoldable pub serialize_u64_host_to_host : ByteOrder → ℕ → Bytes
serialize_u64_host_to_host little_endian v =
    v % 256
    ∷ v / 2 ^ 8 % 256
    ∷ v / 2 ^ 16 % 256
    ∷ v / 2 ^ 24 % 256
    ∷ v / 2 ^ 32 % 256
    ∷ v / 2 ^ 40 % 256
    ∷ v / 2 ^ 48 % 256
    ∷ v / 2 ^ 56 % 256
    ∷ []
serialize_u64_host_to_host big_endian v =
    v / 2 ^ 56 % 256
    ∷ v / 2 ^ 48 % 256
    ∷ v / 2 ^ 40 % 256
    ∷ v / 2 ^ 32 % 256
    ∷ v / 2 ^ 24 % 256
    ∷ v / 2 ^ 16 % 256
    ∷ v / 2 ^ 8 % 256
    ∷ v % 256
    ∷ []

unfoldable pub serialize_u16_no_to_host : ByteOrder → ℕ → Bytes
unfolding serialize_u16_host_to_host bswap_16
serialize_u16_no_to_host o v = serialize_u16_host_to_host o (be_to_host_16 o v)

unfoldable pub serialize_u16_host_to_be : ByteOrder → ℕ → Bytes
unfolding serialize_u16_host_to_host bswap_16
serialize_u16_host_to_be o v = serialize_u16_host_to_host o (be_to_host_16 o v)

unfoldable pub serialize_u32_no_to_host : ByteOrder → ℕ → Bytes
unfolding serialize_u32_host_to_host bswap_32
serialize_u32_no_to_host o v = serialize_u32_host_to_host o (be_to_host_32 o v)

unfoldable pub serialize_u32_host_to_be : ByteOrder → ℕ → Bytes
unfolding serialize_u32_host_to_host bswap_32
serialize_u32_host_to_be o v = serialize_u32_host_to_host o (be_to_host_32 o v)

unfoldable pub serialize_u64_host_to_be : ByteOrder → ℕ → Bytes
unfolding serialize_u64_host_to_host bswap_64
serialize_u64_host_to_be o v = serialize_u64_host_to_host o (be_to_host_64 o v)
