-- ===== src/Http2/Parse/Reads.antt =====
-- The reads that the frame parsers of src/http/v2.c share, and their errors.
use my_simple_c_http_server.Prelude.{
  ℕ, zero, suc, ◌+◌, ◌-◌, ◌^◌, ◌≤◌, ◌<◌, ◌≡◌, refl, ◌∙◌, ap, inl, inr, true, not, List, [], ◌∷◌,
  ltb, leb, ◌==◌, Bytes, String, text_bytes, length, get_or, take, drop, length-drop, arith, tests,
  ==_iff, Bool-cases, leb→le, ok, Ends, Ends-bind, Ends-if,
}
use my_simple_c_http_server.Serialization.{deserialize_u16_be_to_host, deserialize_u32_be_to_host}
use my_simple_c_http_server.Http2.Types.{flag_padded}
use my_simple_c_http_server.Http2.Context.{Http2Context}
use my_simple_c_http_server.Http2.Send.{host, http2_send_connection_error}
use my_simple_c_http_server.Http2.Send.Written.{goaway_sent}
use my_simple_c_http_server.Http2.Parse.Common.{
  FrameError, read_amount, connection_error, read_or, has_flag, read_padding_length, read_padding,
  all_zero, deserialize_identifier, get_http2_priority_info_from_raw_data,
}

-- The error was sent to the peer, with its text.
abbrev pub IsRefusal : Http2Context → FrameError → Type 0
IsRefusal context e =
    (error_code : ℕ) × (http2_send_connection_error context.last_stream_id error_code e.message
      ≡ ok e.sent)

-- A text that fits in a GOAWAY frame.
abbrev pub IsShort : String → Type 0
IsShort message = ltb (length (text_bytes message)) 256 ≡ true

pub drop-drop {ℓ} : {A : Type ℓ} (n m k : ℕ) (l : List A) → n + m ≡ k → drop m (drop n l) ≡ drop k l
drop-drop zero m k l h = let e : m ≡ k = omega arith in rw e refl
drop-drop (suc n) m zero l h = absurd (omega arith)
drop-drop (suc n) zero (suc k) [] h = refl
drop-drop (suc n) (suc m) (suc k) [] h = refl
drop-drop (suc n) m (suc k) (x ∷ l) h = drop-drop n m k l (omega arith)

-- What is left of the reader behind `n` bytes.
pub record Skipped (n : ℕ) (reader rest : Bytes) : Type 0 where
  pub left : rest ≡ drop n reader
  pub enough : n ≤ length reader

pub Skipped-Skipped :
    {n m k : ℕ} {r r' r'' : Bytes} → Skipped n r r' → Skipped m r' r'' → n + m ≡ k → Skipped k r r''
Skipped-Skipped {n} {m} {k} {r} {r'} {r''} p q sum =
    let size : length r' ≡ length r - n = ap length p.left ∙ length-drop n r in
    record {
      left = q.left ∙ ap (drop m) p.left ∙ drop-drop n m k r sum;
      enough = omega (arith, p.enough, q.enough);
    }

pub skip_none : (r : Bytes) → Skipped 0 r r
skip_none r = record { left = refl; enough = omega arith }

-- What a read of `amount` bytes gives.
abbrev pub Took : ℕ → Bytes → Bytes × Bytes → Type 0
Took amount reader (bytes, rest) = (bytes ≡ take amount reader) × Skipped amount reader rest

-- The padding length `p` and the payload length `l` share out the length of the frame.
abbrev pub Shared : ℕ → Bytes → (ℕ × ℕ) × Bytes → Type 0
Shared n reader ((p, l), rest) = (k : ℕ) × (k + l + p ≡ n) × Skipped k reader rest

module _ (context : Http2Context) where
  pub connection_error-Ends :
      {A : Type 0} (P : A → Type 0) (error_code : ℕ) (message : String)
      → IsShort message
      → Ends (IsRefusal context) P (connection_error context error_code message)
  unfolding connection_error http2_send_connection_error
  connection_error-Ends P error_code message short =
      let e = goaway_sent context.last_stream_id error_code (text_bytes message) (omega tests) in
      rw (connection_error, http2_send_connection_error, e) (error_code, e)

  pub read_or-Ends :
      (amount : ℕ) (message : String) (reader : Bytes)
      → IsShort message
      → Ends (IsRefusal context) (Took amount reader) (read_or context amount message reader)
  unfolding read_or read_amount
  read_or-Ends amount message reader short = elim (Bool-cases (leb amount (length reader))) [
    | inl e ↦ rw (read_or, read_amount, e) (refl, record { left = refl; enough = leb→le _ _ e })
    | inr e ↦ rw (read_or, read_amount, e) (connection_error-Ends _ _ message short)
  ]

  pub read_padding_length-Ends :
      (flags n : ℕ) (reader : Bytes)
      → Ends (IsRefusal context) (Shared n reader) (read_padding_length context flags n reader)
  unfolding read_padding_length
  read_padding_length-Ends flags n reader =
      Ends-if (IsRefusal context) (Shared n reader) (not (has_flag flags flag_padded)) _ _
        (λ _. (0, omega arith, skip_none reader))
        λ _.
          Ends-if (IsRefusal context) (Shared n reader) (ltb n 1) _ _
            (λ _. connection_error-Ends _ _ _ refl)
            λ positive.
              Ends-bind (IsRefusal context) (Took 1 reader) (Shared n reader) _ _
                (read_or-Ends 1 "Failed to read enough data for the frame header" reader refl)
                λ (padding, rest) (same, taken).
                  Ends-if (IsRefusal context) (Shared n reader) (leb (n - 1) (get_or padding 0 0)) _
                    _ (λ _. connection_error-Ends _ _ _ refl) λ fits. (1, omega tests, taken)

  pub read_padding-Ends :
      (p : ℕ) (reader : Bytes)
      → Ends (IsRefusal context) (Skipped p reader) (read_padding context p reader)
  unfolding read_padding
  read_padding-Ends p reader =
      Ends-if (IsRefusal context) (Skipped p reader) (p == 0) _ _
        (λ none_left. let e : p ≡ 0 = (==_iff p 0).0 none_left in rw e (skip_none reader))
        λ _.
          Ends-bind (IsRefusal context) (Took p reader) (Skipped p reader) _ _
            (read_or-Ends p "Failed to read enough data for the padding data" reader refl)
            λ (padding, rest) (same, taken).
              Ends-if (IsRefusal context) (Skipped p reader) (all_zero padding) _ _ (λ _. taken)
                λ _. connection_error-Ends _ _ _ refl

module _ (Q : FrameError → Type 0) where
  pub deserialize_u16-Ends :
      (a b : ℕ) (rest : Bytes)
      → Ends Q (λ v. Unit {0}) (deserialize_u16_be_to_host host (a ∷ b ∷ rest))
  unfolding deserialize_u16_be_to_host
  deserialize_u16-Ends a b rest = tt

  pub deserialize_u32-Ends :
      (bytes : Bytes)
      → 4 ≤ length bytes
      → Ends Q (λ v. v < 2 ^ 32) (deserialize_u32_be_to_host host bytes)
  unfolding deserialize_u32_be_to_host
  deserialize_u32-Ends (a ∷ b ∷ c ∷ d ∷ rest) h = omega arith
  deserialize_u32-Ends (a ∷ b ∷ c ∷ []) h = omega arith
  deserialize_u32-Ends (a ∷ b ∷ []) h = omega arith
  deserialize_u32-Ends (a ∷ []) h = omega arith
  deserialize_u32-Ends [] h = omega arith

  pub deserialize_identifier-Ends :
      (bytes : Bytes) → 4 ≤ length bytes → Ends Q (λ v. v < 2 ^ 31) (deserialize_identifier bytes)
  unfolding deserialize_identifier
  deserialize_identifier-Ends bytes h =
      Ends-bind Q (λ v. v < 2 ^ 32) _ _ _ (deserialize_u32-Ends bytes h) λ v small. omega arith

  pub priority_info-Ends :
      (bytes : Bytes)
      → 5 ≤ length bytes
      → Ends Q
          (λ priority. priority.dependency_identifier < 2 ^ 31)
          (get_http2_priority_info_from_raw_data bytes)
  unfolding get_http2_priority_info_from_raw_data
  priority_info-Ends (a ∷ b ∷ c ∷ d ∷ e ∷ rest) h =
      Ends-bind Q (λ v. v < 2 ^ 32) _ _ _
        (deserialize_u32-Ends (a ∷ b ∷ c ∷ d ∷ e ∷ rest) (omega arith)) λ v small. omega arith
  priority_info-Ends (a ∷ b ∷ c ∷ d ∷ []) h = absurd (omega arith)
  priority_info-Ends (a ∷ b ∷ c ∷ []) h = absurd (omega arith)
  priority_info-Ends (a ∷ b ∷ []) h = absurd (omega arith)
  priority_info-Ends (a ∷ []) h = absurd (omega arith)
  priority_info-Ends [] h = absurd (omega arith)
