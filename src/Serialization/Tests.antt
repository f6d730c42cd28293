-- ===== src/Serialization/Tests.antt =====
-- Runs of the serializers of src/generic/serialize.c.
use my_simple_c_http_server.Prelude.{◌+◌, ◌*◌, ◌^◌, ◌≡◌, refl, [], ◌∷◌, ◌++◌, ok, arith}
use my_simple_c_http_server.Serialization.{
  little_endian, big_endian, deserialize_u16_be_to_host, deserialize_u32_be_to_host,
  deserialize_u64_be_to_host, serialize_u16_host_to_be, serialize_u32_host_to_be,
  serialize_u64_host_to_be, deserialize_u32_le_to_no,
}
use my_simple_c_http_server.Serialization.Laws.{be_32, deserialize-be, deserialize-serialize}

deserialize-be_example :
    (deserialize_u16_be_to_host {E = Unit} little_endian (1 ∷ 2 ∷ []) ≡ ok 258)
    × (deserialize_u32_be_to_host {E = Unit} little_endian (1 ∷ 2 ∷ 3 ∷ 4 ∷ [])
        ≡ ok (be_32 1 2 3 4))
    × (deserialize_u64_be_to_host {E = Unit} little_endian (1 ∷ 2 ∷ 3 ∷ 4 ∷ 5 ∷ 6 ∷ 7 ∷ 8 ∷ [])
        ≡ ok (be_32 1 2 3 4 * 2 ^ 32 + be_32 5 6 7 8))
deserialize-be_example =
    deserialize-be little_endian 1 2 3 4 5 6 7 8 [] (omega arith) (omega arith) (omega arith)
      (omega arith) (omega arith) (omega arith) (omega arith) (omega arith)

deserialize-serialize_example :
    (deserialize_u16_be_to_host {E = Unit} big_endian
        (serialize_u16_host_to_be little_endian 443 ++ [])
      ≡ ok 443)
    × (deserialize_u32_be_to_host {E = Unit} big_endian
          (serialize_u32_host_to_be little_endian 65535 ++ [])
        ≡ ok 65535)
    × (deserialize_u64_be_to_host {E = Unit} big_endian
          (serialize_u64_host_to_be little_endian 0x0102_0304_0506_0708 ++ [])
        ≡ ok 0x0102_0304_0506_0708)
deserialize-serialize_example =
    deserialize-serialize little_endian big_endian 443 65535 0x0102_0304_0506_0708 [] (omega arith)
      (omega arith) (omega arith)

network_order :
    deserialize_u32_le_to_no {E = Unit} little_endian (1 ∷ 2 ∷ 3 ∷ 4 ∷ []) ≡ ok 0x0102_0304
unfolding deserialize_u32_le_to_no
network_order = refl
