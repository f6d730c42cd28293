-- ===== src/Serialization/Laws.antt =====
-- The byte orders of src/generic/serialize.c.
use my_simple_c_http_server.Prelude.{
  ℕ, ◌+◌, ◌*◌, ◌/◌, ◌%◌, ◌^◌, ◌<◌, ◌≡◌, refl, [], ◌∷◌, ◌++◌, Bytes, ok, arith, ap,
}
use my_simple_c_http_server.Serialization.{
  ByteOrder, little_endian, big_endian, bswap_16, bswap_32, bswap_64, deserialize_u16_be_to_host,
  deserialize_u32_be_to_host, deserialize_u64_be_to_host, serialize_u16_host_to_be,
  serialize_u32_host_to_be, serialize_u64_host_to_be, serialize_u64_host_to_host,
}

-- The number with these bytes, the highest first.
abbrev pub be_16 : ℕ → ℕ → ℕ
be_16 a b = a * 256 + b

abbrev pub be_32 : ℕ → ℕ → ℕ → ℕ → ℕ
be_32 a b c d = a * 2 ^ 24 + b * 2 ^ 16 + c * 2 ^ 8 + d

pub bswap_32_bytes :
    (a b c d : ℕ)
    → a < 256
    → b < 256
    → c < 256
    → d < 256
    → bswap_32 (a + b * 2 ^ 8 + c * 2 ^ 16 + d * 2 ^ 24) ≡ be_32 a b c d
unfolding bswap_32
bswap_32_bytes a b c d ha hb hc hd = omega arith

bswap_64_halves :
    (first second a b c d e f g h : ℕ)
    → first ≡ a + b * 2 ^ 8 + c * 2 ^ 16 + d * 2 ^ 24
    → second ≡ e + f * 2 ^ 8 + g * 2 ^ 16 + h * 2 ^ 24
    → a < 256
    → b < 256
    → c < 256
    → d < 256
    → e < 256
    → f < 256
    → g < 256
    → h < 256
    → bswap_64 (first + second * 2 ^ 32) ≡ be_32 a b c d * 2 ^ 32 + be_32 e f g h
unfolding bswap_64
bswap_64_halves first second a b c d e f g h p q ha hb hc hd he hf hg hh =
    let low : (first + second * 2 ^ 32) % 2 ^ 32 ≡ first = omega arith in
    let high : (first + second * 2 ^ 32) / 2 ^ 32 % 2 ^ 32 ≡ second = omega arith in
    rw (low, high, p, q, bswap_32_bytes a b c d ha hb hc hd, bswap_32_bytes e f g h he hf hg hh)
      refl

module _ {E : Type 0} where
  pub deserialize_u16_be :
      (o : ByteOrder) (a b : ℕ) (rest : Bytes)
      → a < 256
      → b < 256
      → deserialize_u16_be_to_host {E = E} o (a ∷ b ∷ rest) ≡ ok (be_16 a b)
  unfolding deserialize_u16_be_to_host
  deserialize_u16_be little_endian a b rest ha hb = ap ok (omega arith)
  deserialize_u16_be big_endian a b rest ha hb = refl

  pub deserialize_u32_be :
      (o : ByteOrder) (a b c d : ℕ) (rest : Bytes)
      → a < 256
      → b < 256
      → c < 256
      → d < 256
      → deserialize_u32_be_to_host {E = E} o (a ∷ b ∷ c ∷ d ∷ rest) ≡ ok (be_32 a b c d)
  unfolding deserialize_u32_be_to_host
  deserialize_u32_be little_endian a b c d rest ha hb hc hd =
      ap ok (bswap_32_bytes a b c d ha hb hc hd)
  deserialize_u32_be big_endian a b c d rest ha hb hc hd = refl

  pub deserialize_u64_be :
      (o : ByteOrder) (a b c d e f g h : ℕ) (rest : Bytes)
      → a < 256
      → b < 256
      → c < 256
      → d < 256
      → e < 256
      → f < 256
      → g < 256
      → h < 256
      → deserialize_u64_be_to_host {E = E} o (a ∷ b ∷ c ∷ d ∷ e ∷ f ∷ g ∷ h ∷ rest)
        ≡ ok (be_32 a b c d * 2 ^ 32 + be_32 e f g h)
  unfolding deserialize_u64_be_to_host
  deserialize_u64_be little_endian a b c d e f g h rest ha hb hc hd he hf hg hh =
      ap ok (bswap_64_halves _ _ a b c d e f g h refl refl ha hb hc hd he hf hg hh)
  deserialize_u64_be big_endian a b c d e f g h rest ha hb hc hd he hf hg hh = refl

four :
    {a b c d a' b' c' d' : ℕ}
    → a ≡ a'
    → b ≡ b'
    → c ≡ c'
    → d ≡ d'
    → ◌≡◌ {A = Bytes} (a ∷ b ∷ c ∷ d ∷ []) (a' ∷ b' ∷ c' ∷ d' ∷ [])
four p q r s = cc

pub serialize_u16_be :
    (o : ByteOrder) (v : ℕ) → v < 2 ^ 16 → serialize_u16_host_to_be o v ≡ v / 2 ^ 8 ∷ v % 256 ∷ []
unfolding serialize_u16_host_to_be
serialize_u16_be little_endian v h =
    let p : bswap_16 v % 256 ≡ v / 2 ^ 8 = omega arith in
    let q : bswap_16 v / 2 ^ 8 % 256 ≡ v % 256 = omega arith in cc
serialize_u16_be big_endian v h = let p : v / 2 ^ 8 % 256 ≡ v / 2 ^ 8 = omega arith in cc

-- The bytes of a number, the highest first.
abbrev pub bytes_32 : ℕ → Bytes
bytes_32 v = v / 2 ^ 24 % 256 ∷ v / 2 ^ 16 % 256 ∷ v / 2 ^ 8 % 256 ∷ v % 256 ∷ []

pub serialize_u32_be : (o : ByteOrder) (v : ℕ) → serialize_u32_host_to_be o v ≡ bytes_32 v
unfolding serialize_u32_host_to_be
serialize_u32_be little_endian v = four (omega arith) (omega arith) (omega arith) (omega arith)
serialize_u32_be big_endian v = refl

bswap_32_parts :
    (n : ℕ)
    → n < 2 ^ 32
    → (bswap_32 n % 256 ≡ n / 2 ^ 24)
      × (bswap_32 n / 2 ^ 8 % 256 ≡ n / 2 ^ 16 % 256)
      × (bswap_32 n / 2 ^ 16 % 256 ≡ n / 2 ^ 8 % 256)
      × (bswap_32 n / 2 ^ 24 ≡ n % 256)
unfolding bswap_32
bswap_32_parts n h = (omega arith, omega arith, omega arith, omega arith)

eight :
    {a b c d e f g h a' b' c' d' e' f' g' h' : ℕ}
    → a ≡ a'
    → b ≡ b'
    → c ≡ c'
    → d ≡ d'
    → e ≡ e'
    → f ≡ f'
    → g ≡ g'
    → h ≡ h'
    → ◌≡◌ {A = Bytes}
        (a ∷ b ∷ c ∷ d ∷ e ∷ f ∷ g ∷ h ∷ [])
        (a' ∷ b' ∷ c' ∷ d' ∷ e' ∷ f' ∷ g' ∷ h' ∷ [])
eight p q r s t u v w = cc

swapped_bytes :
    (x y n m : ℕ)
    → (y % 256 ≡ n / 2 ^ 24)
      × (y / 2 ^ 8 % 256 ≡ n / 2 ^ 16 % 256)
      × (y / 2 ^ 16 % 256 ≡ n / 2 ^ 8 % 256)
      × (y / 2 ^ 24 ≡ n % 256)
    → (x % 256 ≡ m / 2 ^ 24)
      × (x / 2 ^ 8 % 256 ≡ m / 2 ^ 16 % 256)
      × (x / 2 ^ 16 % 256 ≡ m / 2 ^ 8 % 256)
      × (x / 2 ^ 24 ≡ m % 256)
    → n < 2 ^ 32
    → m < 2 ^ 32
    → serialize_u64_host_to_host little_endian (x * 2 ^ 32 + y) ≡ bytes_32 n ++ bytes_32 m
unfolding serialize_u64_host_to_host
swapped_bytes x y n m (a, b, c, d) (e, f, g, h) hn hm =
    eight (omega arith) (omega arith) (omega arith) (omega arith) (omega arith) (omega arith)
      (omega arith) (omega arith)

pub serialize_u64_be :
    (o : ByteOrder) (v : ℕ)
    → v < 2 ^ 64
    → serialize_u64_host_to_be o v ≡ bytes_32 (v / 2 ^ 32 % 2 ^ 32) ++ bytes_32 (v % 2 ^ 32)
unfolding serialize_u64_host_to_be bswap_64
serialize_u64_be little_endian v h =
    swapped_bytes (bswap_32 (v % 2 ^ 32)) (bswap_32 (v / 2 ^ 32 % 2 ^ 32)) (v / 2 ^ 32 % 2 ^ 32)
      (v % 2 ^ 32) (bswap_32_parts (v / 2 ^ 32 % 2 ^ 32) (omega arith))
      (bswap_32_parts (v % 2 ^ 32) (omega arith)) (omega arith) (omega arith)
serialize_u64_be big_endian v h =
    eight (omega arith) (omega arith) (omega arith) (omega arith) (omega arith) (omega arith)
      (omega arith) (omega arith)

module _ {E : Type 0} where
  -- Reading a number in network order gives the number with these bytes, the highest first, on a
  -- host of either byte order.
  pub deserialize-be :
      (o : ByteOrder) (a b c d e f g h : ℕ) (rest : Bytes)
      → a < 256
      → b < 256
      → c < 256
      → d < 256
      → e < 256
      → f < 256
      → g < 256
      → h < 256
      → (deserialize_u16_be_to_host {E = E} o (a ∷ b ∷ rest) ≡ ok (a * 256 + b))
        × (deserialize_u32_be_to_host {E = E} o (a ∷ b ∷ c ∷ d ∷ rest) ≡ ok (be_32 a b c d))
        × (deserialize_u64_be_to_host {E = E} o (a ∷ b ∷ c ∷ d ∷ e ∷ f ∷ g ∷ h ∷ rest)
            ≡ ok (be_32 a b c d * 2 ^ 32 + be_32 e f g h))
  deserialize-be o a b c d e f g h rest ha hb hc hd he hf hg hh = (
    deserialize_u16_be o a b rest ha hb,
    deserialize_u32_be o a b c d rest ha hb hc hd,
    deserialize_u64_be o a b c d e f g h rest ha hb hc hd he hf hg hh,
  )

  -- What one host writes in network order, another host of any byte order reads back, whatever
  -- follows it: numbers of 16, 32 and 64 bits.
  pub deserialize-serialize :
      (from to : ByteOrder) (u v w : ℕ) (rest : Bytes)
      → u < 2 ^ 16
      → v < 2 ^ 32
      → w < 2 ^ 64
      → (deserialize_u16_be_to_host {E = E} to (serialize_u16_host_to_be from u ++ rest) ≡ ok u)
        × (deserialize_u32_be_to_host {E = E} to (serialize_u32_host_to_be from v ++ rest) ≡ ok v)
        × (deserialize_u64_be_to_host {E = E} to (serialize_u64_host_to_be from w ++ rest) ≡ ok w)
  deserialize-serialize from to u v w rest hu hv hw = (
    rw
        (
          serialize_u16_be from u hu,
          deserialize_u16_be {E = E} to (u / 2 ^ 8) (u % 256) rest (omega arith) (omega arith),
        )
        (ap ok (omega arith)),
    read_32,
    read_64,
  )
    where
      read_32 :
          deserialize_u32_be_to_host {E = E} to (serialize_u32_host_to_be from v ++ rest) ≡ ok v
      read_32 =
          rw
            (
              serialize_u32_be from v,
              deserialize_u32_be {E = E} to (v / 2 ^ 24 % 256) (v / 2 ^ 16 % 256) (v / 2 ^ 8 % 256)
                  (v % 256) rest (omega arith) (omega arith) (omega arith) (omega arith),
            )
            (ap ok (omega arith))

      read_64 :
          deserialize_u64_be_to_host {E = E} to (serialize_u64_host_to_be from w ++ rest) ≡ ok w
      read_64 =
          let h : ℕ = w / 2 ^ 32 % 2 ^ 32 in
          let l : ℕ = w % 2 ^ 32 in
          rw
            (
              serialize_u64_be from w hw,
              deserialize_u64_be {E = E} to (h / 2 ^ 24 % 256) (h / 2 ^ 16 % 256) (h / 2 ^ 8 % 256)
                  (h % 256) (l / 2 ^ 24 % 256) (l / 2 ^ 16 % 256) (l / 2 ^ 8 % 256) (l % 256) rest
                  (omega arith) (omega arith) (omega arith) (omega arith) (omega arith)
                  (omega arith) (omega arith) (omega arith),
            )
            (ap ok (omega arith))
