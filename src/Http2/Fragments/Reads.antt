-- ===== src/Http2/Fragments/Reads.antt =====
-- The frames that src/http/v2.c cuts a buffer into, as a parser reads them.
use my_simple_c_http_server.Prelude.{
  take-drop_append, ℕ, zero, suc, ◌+◌, ◌-◌, ◌^◌, ◌≤◌, ◌<◌, ◌≡◌, refl, sym, ◌∙◌, ap, inl, inr, Bool,
  true, false, List, [], ◌∷◌, ◌++◌, append_assoc, ltb, leb, Bytes, length, length-drop, length-take,
  take, drop, u64, le→leb, ltb→lt, leb→le, ltb_false→le, Bool-cases, arith, tests, ok, ◌>>=◌,
}
use my_simple_c_http_server.Http2.Types.{Http2Frame}
use my_simple_c_http_server.Http2.Context.{Http2Context}
use my_simple_c_http_server.Http2.Send.{Sent}
use my_simple_c_http_server.Http2.Parse.{parse_http2_frame}
use my_simple_c_http_server.Http2.Parse.Reads.{drop-drop}
use my_simple_c_http_server.Http2.RoundTrip.Sends.{http2_send_frame, IsSendable, parse-send}
use my_simple_c_http_server.Http2.Fragments.{block_size, send_blocks}

-- A parser reads these frames, one after the other.
pub data Reads (context : Http2Context) (rest : Bytes) : Bytes → List Http2Frame → Type 0 where
  nothing : Reads context rest rest []
  one_more :
      (bytes later : Bytes) (frame : Http2Frame) (frames : List Http2Frame)
      → parse_http2_frame context bytes ≡ ok (frame, later)
      → Reads context rest later frames
      → Reads context rest bytes (frame ∷ frames)

abbrev pub concat : List Bytes → Bytes
concat [] = []
concat (block ∷ blocks) = block ++ concat blocks

-- The frames of the blocks, the first of which stands at an offset.
abbrev pub frames_of : (ℕ → Bytes → Bool → Http2Frame) → ℕ → List Bytes → List Http2Frame
frames_of frame offset [] = []
frames_of frame offset (block ∷ []) = frame offset block true ∷ []
frames_of frame offset (block ∷ next ∷ blocks) =
    frame offset block false ∷ frames_of frame (offset + length block) (next ∷ blocks)

pub drop-all {ℓ} : {A : Type ℓ} (n : ℕ) (l : List A) → length l ≤ n → drop n l ≡ []
drop-all zero [] h = refl
drop-all zero (x ∷ l) h = absurd (omega arith)
drop-all (suc n) [] h = refl
drop-all (suc n) (x ∷ l) h = drop-all n l (omega arith)

module _ (context : Http2Context) (frame : ℕ → Bytes → Bool → Http2Frame)
    (send : ℕ → Bytes → Bool → Sent)
    (sends : (o : ℕ) (b : Bytes) (e : Bool) → send o b e ≡ http2_send_frame (frame o b e)) (max : ℕ)
    (positive : 0 < max) (max_32 : max < 2 ^ 32)
    (sendable : (o : ℕ) (b : Bytes) (e : Bool) → length b ≤ max → IsSendable context (frame o b e))
    (buffer : Bytes) (short : length buffer < 2 ^ 63) (rest : Bytes) where
  -- What the loop sends from an offset on.
  unfoldable pub Sends : ℕ → Sent → Type 0
  Sends offset m =
      (sent : Bytes) × (m ≡ ok sent)
      × ((blocks : List Bytes) × Reads context rest (sent ++ rest) (frames_of frame offset blocks)
          × (concat blocks ≡ drop offset buffer)
          × (length buffer ≤ offset → blocks ≡ []))

  -- The frames of a block and of the blocks behind it.
  with_block :
      (offset n : ℕ) (block : Bytes) (bytes later : Bytes) (b : Bool)
      → length block ≡ n
      → leb (length buffer) (offset + n) ≡ b
      → parse_http2_frame context bytes ≡ ok (frame offset block b, later)
      → (blocks : List Bytes) → Reads context rest later (frames_of frame (offset + n) blocks)
      → concat blocks ≡ drop (offset + n) buffer
      → (length buffer ≤ offset + n → blocks ≡ [])
      → Reads context rest bytes (frames_of frame offset (block ∷ blocks))
  with_block offset n block bytes later b size last parses [] reads all none =
      let left : length buffer - (offset + n) ≡ 0 =
        sym (ap length all ∙ length-drop (offset + n) buffer) in
      let is : true ≡ b = sym (le→leb _ _ (omega arith)) ∙ last in
      rw is (one_more bytes later _ _ parses reads)
  with_block offset n block bytes later false size last parses (c ∷ cs) reads all none =
      rw size (one_more bytes later _ _ parses reads)
  with_block offset n block bytes later true size last parses (c ∷ cs) reads all none =
      let empty : c ∷ cs ≡ [] = none (leb→le _ _ last) in cc

  block_size_lem :
      (offset : ℕ)
      → offset < length buffer
      → (0 < block_size offset max buffer)
        × (block_size offset max buffer ≤ max)
        × (offset + block_size offset max buffer ≤ length buffer)
  block_size_lem offset less = elim (Bool-cases (leb (length buffer) (u64 (offset + max)))) [
    | inl e ↦ rw e (omega arith, omega tests, omega arith)
    | inr e ↦ rw e (positive, omega arith, omega tests)
  ]

  nothing_left : (offset : ℕ) → length buffer ≤ offset → Sends offset (ok [])
  unfolding Sends
  nothing_left offset done = ([], refl, ([], nothing, sym (drop-all offset buffer done), λ _. refl))

  one_block :
      (offset n : ℕ) (m : Sent)
      → 0 < n
      → n ≤ max
      → offset + n ≤ length buffer
      → Sends (offset + n) m
      → Sends offset (
          send offset (take n (drop offset buffer)) (leb (length buffer) (offset + n)) >>= λ sent.
          m >>= λ sent'. ok (sent ++ sent'))
  unfolding Sends
  one_block offset n m some small within (sent', runs, (blocks, reads, all, none)) =
      let block : Bytes = take n (drop offset buffer) in
      let last : Bool = leb (length buffer) (offset + n) in
      let size : length block ≡ n =
        omega (arith, length-take n (drop offset buffer), length-drop offset buffer) in
      let (s, sent, parses) =
        parse-send context (sent' ++ rest) (frame offset block last)
          (sendable offset block last (omega arith)) in
      let whole : concat (block ∷ blocks) ≡ drop offset buffer =
        ap (λ l. block ++ l) (all ∙ sym (drop-drop offset n (offset + n) buffer refl))
        ∙ take-drop_append n (drop offset buffer) in
      rw (sends offset block last, sent, runs)
        (
          s ++ sent',
          refl,
          (
            block ∷ blocks,
            rw (append_assoc s sent' rest) (
                with_block offset n block (s ++ (sent' ++ rest)) (sent' ++ rest) last size refl
                  parses blocks reads all none),
            whole,
            λ past. absurd (omega arith),
          ),
        )

  pub send_blocks-Sends :
      (fuel offset : ℕ)
      → length buffer - offset < fuel
      → offset ≤ length buffer
      → Sends offset (send_blocks send max fuel buffer offset)
  unfolding send_blocks
  send_blocks-Sends zero offset enough within = absurd (omega arith)
  send_blocks-Sends (suc fuel) offset enough within =
      elim (Bool-cases (ltb offset (length buffer))) [
        | inl more ↦
            let n : ℕ = block_size offset max buffer in
            let (some, small, inside) = block_size_lem offset (ltb→lt _ _ more) in
            rw (send_blocks, more)
              (one_block offset n _ some small inside
                (send_blocks-Sends fuel (offset + n) (omega arith) inside))
        | inr done ↦ rw (send_blocks, done) (nothing_left offset (ltb_false→le _ _ done))
      ]
