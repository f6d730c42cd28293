-- ===== src/Hpack/Huffman/Decode.antt =====
-- decode_bytes_huffman_impl of src/http/hpack_huffman.c on the codes of a string.
use my_simple_c_http_server.Prelude.{
  ℕ, ◌+◌, ◌-◌, ◌*◌, ◌≤◌, ◌<◌, ◌≡◌, refl, sym, ap, ◌∙◌, Bool, true, false, List, [], ◌∷◌, ◌++◌,
  append_assoc, append-nil, leb, leb-false, if◌then◌else◌, arith, tests, Bool-cases, inl, inr,
  Bytes, length, length-append, Outcome, ok, error, Ensures_ok,
}
use my_simple_c_http_server.Hpack.Types.{HuffmanNode, node, end, invalid}
use my_simple_c_http_server.Hpack.Huffman.{
  HuffmanError, result_memory_overflow, BitPos, bit_pos_inc, start_pos, bits_of, memory_size,
  Walked, next_node, decode_walk, decode_bytes_huffman,
}
use my_simple_c_http_server.Hpack.Huffman.Ends.{
  IsDecodeError, WalkEnds, whole_walk-Ensures, check_rest_passes,
}

-- From a node the bits lead to the leaf of a byte, over inner nodes.
abbrev pub Leads : HuffmanNode → List Bool → ℕ → Type 0
Leads (end v) [] c = v ≡ c
Leads (node a b) (bit ∷ bits) c = Leads (next_node bit a b) bits c
Leads _ _ c = ⊥

-- From a node the bits stay in inner nodes.
abbrev pub Stays : HuffmanNode → List Bool → Type 0
Stays (node a b) [] = Unit
Stays (node a b) (bit ∷ bits) = Stays (next_node bit a b) bits
Stays _ _ = ⊥

-- The codes of a string one behind another.
abbrev pub codes_of : (ℕ → List Bool) → Bytes → List Bool
codes_of code [] = []
codes_of code (c ∷ str) = code c ++ codes_of code str

-- The code of each byte of the string leads to that byte.
abbrev pub AreCoded : HuffmanNode → (ℕ → List Bool) → Bytes → Type 0
AreCoded tree code [] = Unit
AreCoded tree code (c ∷ str) = Leads tree (code c) c × AreCoded tree code str

module _ (root : HuffmanNode) (memory : ℕ) where
  -- What follows a code: the byte is one of the values, if there is space.
  abbrev stored : BitPos → Bytes → ℕ → List Bool → Outcome HuffmanError Walked
  stored p values c rest =
      if leb memory (length values + 1)
      then error result_memory_overflow
      else decode_walk root memory root true p p (values ++ c ∷ []) rest

  -- One round, to a leaf and to an inner node.
  module _ (a b : HuffmanNode) (at_root : Bool) (p last : BitPos) (values : Bytes)
      (rest : List Bool) where
    step_leaf :
        (bit : Bool) (v : ℕ)
        → next_node bit a b ≡ end v
        → decode_walk root memory (node a b) at_root p last values (bit ∷ rest)
          ≡ stored (bit_pos_inc p) values v rest
    unfolding decode_walk
    step_leaf true v e = rw e
    step_leaf false v e = rw e

    step_node :
        (bit : Bool) (x y : HuffmanNode)
        → next_node bit a b ≡ node x y
        → decode_walk root memory (node a b) at_root p last values (bit ∷ rest)
          ≡ decode_walk root memory (node x y) false (bit_pos_inc p) last values rest
    unfolding decode_walk
    step_node true x y e = rw e
    step_node false x y e = rw e

  abbrev Stores : Outcome HuffmanError Walked → Bytes → ℕ → List Bool → Type 0
  Stores walk values c rest = (p : BitPos) × (walk ≡ stored p values c rest)

  walk_next :
      (bits : List Bool) (bit : Bool) (a b n : HuffmanNode) (c : ℕ) (at_root : Bool)
      (p last : BitPos) (values : Bytes) (rest : List Bool)
      → next_node bit a b ≡ n
      → Leads n bits c
      → Stores
          (decode_walk root memory (node a b) at_root p last values (bit ∷ (bits ++ rest)))
          values
          c
          rest
  walk_next [] bit a b (end v) c at_root p last values rest e h = (
    bit_pos_inc p,
    step_leaf a b at_root p last values rest bit v e
        ∙ ap (λ w. stored (bit_pos_inc p) values w rest) h,
  )
  walk_next [] bit a b (node x y) c at_root p last values rest e h = absurd h
  walk_next [] bit a b invalid c at_root p last values rest e h = absurd h
  walk_next (bit' ∷ bits) bit a b (end v) c at_root p last values rest e h = absurd h
  walk_next (bit' ∷ bits) bit a b invalid c at_root p last values rest e h = absurd h
  walk_next (bit' ∷ bits) bit a b (node x y) c at_root p last values rest e h =
      let (q, walks) =
        walk_next bits bit' x y (next_node bit' x y) c false (bit_pos_inc p) last values rest refl
          h in
      (q, step_node a b at_root p last values (bit' ∷ (bits ++ rest)) bit x y e ∙ walks)

  walk_code :
      (bits : List Bool) (a b : HuffmanNode) (c : ℕ) (at_root : Bool) (p last : BitPos)
      (values : Bytes) (rest : List Bool)
      → Leads (node a b) bits c
      → Stores
          (decode_walk root memory (node a b) at_root p last values (bits ++ rest))
          values
          c
          rest
  walk_code [] a b c at_root p last values rest h = absurd h
  walk_code (bit ∷ bits) a b c at_root p last values rest h =
      walk_next bits bit a b (next_node bit a b) c at_root p last values rest refl h

  -- What the walk ends with has these values.
  abbrev EndsWith : Outcome HuffmanError Walked → Bytes → Type 0
  EndsWith walk values = (w : Walked) × (walk ≡ ok w) × (w.values ≡ values)

  walk_padding :
      (bits : List Bool) (n : HuffmanNode) (at_root : Bool) (p last : BitPos) (values : Bytes)
      → Stays n bits
      → EndsWith (decode_walk root memory n at_root p last values bits) values
  unfolding decode_walk
  walk_padding [] (node a b) at_root p last values h = (_, refl, refl)
  walk_padding [] (end v) at_root p last values h = absurd h
  walk_padding [] invalid at_root p last values h = absurd h
  walk_padding (bit ∷ bits) (end v) at_root p last values h = absurd h
  walk_padding (bit ∷ bits) invalid at_root p last values h = absurd h
  walk_padding (true ∷ bits) (node a (node x y)) at_root p last values h =
      walk_padding bits (node x y) false (bit_pos_inc p) last values h
  walk_padding (true ∷ bits) (node a (end v)) at_root p last values h = absurd h
  walk_padding (true ∷ bits) (node a invalid) at_root p last values h = absurd h
  walk_padding (false ∷ bits) (node (node x y) b) at_root p last values h =
      walk_padding bits (node x y) false (bit_pos_inc p) last values h
  walk_padding (false ∷ bits) (node (end v) b) at_root p last values h = absurd h
  walk_padding (false ∷ bits) (node invalid b) at_root p last values h = absurd h

module _ (l r : HuffmanNode) (memory : ℕ) (code : ℕ → List Bool) (padding : List Bool)
    (stays : Stays (node l r) padding) where
  -- The walk from the root, through the codes of a string and the padding.
  abbrev walk_of : Bool → BitPos → BitPos → Bytes → Bytes → Outcome HuffmanError Walked
  walk_of at_root p last values str =
      decode_walk (node l r) memory (node l r) at_root p last values (codes_of code str ++ padding)

  next_code :
      (c : ℕ) (str values : Bytes) (at_root : Bool) (p last : BitPos)
      → Leads (node l r) (code c) c
      → (q : BitPos) × (walk_of at_root p last values (c ∷ str) ≡ (
          if leb memory (length values + 1)
          then error result_memory_overflow
          else walk_of true q q (values ++ c ∷ []) str))
  next_code c str values at_root p last h =
      let (q, walks) =
        walk_code (node l r) memory (code c) l r c at_root p last values
          (codes_of code str ++ padding) h in
      (
        q,
        ap (decode_walk (node l r) memory (node l r) at_root p last values)
              (append_assoc (code c) (codes_of code str) padding)
            ∙ walks,
      )

  walk_string :
      (str values : Bytes) (at_root : Bool) (p last : BitPos)
      → AreCoded (node l r) code str
      → length values + length str ≤ memory - 1
      → EndsWith (node l r) memory (walk_of at_root p last values str) (values ++ str)
  walk_string [] values at_root p last coded h =
      let (w, walks, holds) =
        walk_padding (node l r) memory padding (node l r) at_root p last values stays in
      (w, walks, holds ∙ sym (append-nil values))
  walk_string (c ∷ str) values at_root p last (leads, coded) h =
      let (q, walks) = next_code c str values at_root p last leads in
      let (w, ends, holds) =
        walk_string str (values ++ c ∷ []) true q q coded
          (omega (arith, length-append values (c ∷ []))) in
      (
        w,
        walks ∙ rw (leb-false memory (length values + 1) (omega arith)) ends,
        holds ∙ append_assoc values (c ∷ []) str,
      )

  walk_overflow :
      (str values : Bytes) (at_root : Bool) (p last : BitPos)
      → AreCoded (node l r) code str
      → length values ≤ memory - 1
      → memory - 1 < length values + length str
      → walk_of at_root p last values str ≡ error result_memory_overflow
  walk_overflow [] values at_root p last coded few h = absurd (omega arith)
  walk_overflow (c ∷ str) values at_root p last (leads, coded) few h =
      let (q, walks) = next_code c str values at_root p last leads in
      walks ∙ elim (Bool-cases (leb memory (length values + 1))) [
        | inl full ↦ rw full
        | inr space ↦ rw space (
            walk_overflow str (values ++ c ∷ []) true q q coded
              (omega (tests, length-append values (c ∷ [])))
              (omega (arith, length-append values (c ∷ []))))
      ]

module _ (l r : HuffmanNode) (code : ℕ → List Bool) (padding : List Bool)
    (stays : Stays (node l r) padding) (b : ℕ) (bytes str : Bytes)
    (coded : AreCoded (node l r) code str)
    (packed : bits_of (b ∷ bytes) ≡ codes_of code str ++ padding) where
  abbrev memory : ℕ
  memory = memory_size (length (b ∷ bytes))

  walk : Outcome HuffmanError Walked
  walk = decode_walk (node l r) memory (node l r) true start_pos start_pos [] (bits_of (b ∷ bytes))

  walk_packed : walk ≡ walk_of l r memory code padding stays true start_pos start_pos [] str
  unfolding walk
  walk_packed = ap (decode_walk (node l r) memory (node l r) true start_pos start_pos []) packed

  decode_walked :
      (w : Walked) → walk ≡ ok w → decode_bytes_huffman (node l r) (b ∷ bytes) ≡ ok w.values
  unfolding decode_bytes_huffman walk
  decode_walked w e = rw e (
      check_rest_passes (b ∷ bytes) w (
        Ensures_ok IsDecodeError (WalkEnds (8 * length (b ∷ bytes))) walk w
          (whole_walk-Ensures (node l r) memory (b ∷ bytes)) e))

  decode_refused :
      walk ≡ error result_memory_overflow
      → decode_bytes_huffman (node l r) (b ∷ bytes) ≡ error result_memory_overflow
  unfolding decode_bytes_huffman walk
  decode_refused e = rw e

  -- An input whose bits are the codes of a string and a padding that stays in inner nodes is decoded to
  -- the string, if that is shorter than the result buffer, which has one byte for each five bits, or
  -- empty. Another string that would fill the buffer is refused.
  pub decode_bytes_huffman-codes_of :
      decode_bytes_huffman (node l r) (b ∷ bytes)
      ≡ (if leb (length str) (memory - 1) then ok str else error result_memory_overflow)
  decode_bytes_huffman-codes_of = elim (Bool-cases (leb (length str) (memory - 1))) [
    | inl space ↦ rw space (
        let (w, walks, holds) =
          walk_string l r memory code padding stays str [] true start_pos start_pos coded
            (omega tests) in
        decode_walked w (walk_packed ∙ walks) ∙ ap ok holds)
    | inr full ↦ rw full (
        decode_refused (
          walk_packed
          ∙ walk_overflow l r memory code padding stays str [] true start_pos start_pos coded
              (omega arith) (omega tests)))
  ]
