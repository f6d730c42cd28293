-- ===== src/Http2/Send/Settings.antt =====
-- http2_send_settings_frame of src/http/v2.c, whose buffer has one byte for each entry.
use my_simple_c_http_server.Prelude.{
  ℕ, suc, ◌+◌, ◌%◌, ◌^◌, ◌≤◌, ◌<◌, ◌≡◌, refl, ◌∙◌, ◌⊎◌, inl, inr, false, List, [], ◌∷◌, ◌++◌, ltb,
  Bool-cases, Bytes, length, length-set, length-replicate, set, replicate, arith, tests, ok, fault,
}
use my_simple_c_http_server.Serialization.{serialize_u16_host_to_be, serialize_u32_host_to_be}
use my_simple_c_http_server.Http2.Types.{Http2SettingSingleValue}
use my_simple_c_http_server.Http2.Send.{
  host, Sent, write_bytes, write_entries, http2_send_settings_frame,
}

-- A write out of bounds, or one that keeps the size of the buffer.
abbrev WrittenAt : ℕ → Bytes → Bytes → Sent → Type 0
WrittenAt i bytes buffer m =
    (m ≡ fault)
    ⊎ ((after : Bytes) × (m ≡ ok after)
        × (length after ≡ length buffer)
        × (i + length bytes ≤ length buffer))

write_bytes-WrittenAt :
    (i : ℕ) (bytes buffer : Bytes)
    → i ≤ length buffer
    → WrittenAt i bytes buffer (write_bytes i bytes buffer)
unfolding write_bytes
write_bytes-WrittenAt i [] buffer h = inr (buffer, refl, refl, omega arith)
write_bytes-WrittenAt i (byte ∷ bytes) buffer h = elim (Bool-cases (ltb i (length buffer))) [
  | inl e ↦
      rw (write_bytes, e)
        (elim (write_bytes-WrittenAt (i + 1) bytes (set buffer i byte)
          (omega (arith, length-set buffer i byte, tests))) [
            | inl f ↦ inl f
            | inr (after, runs, size, fits) ↦ inr (
              after,
              runs,
              size ∙ length-set buffer i byte,
              omega (arith, length-set buffer i byte),
            )
          ])
  | inr e ↦ rw (write_bytes, e) (inl refl)
]

six_bytes :
    (entry : Http2SettingSingleValue)
    → length (
        serialize_u16_host_to_be host entry.identifier ++ serialize_u32_host_to_be host entry.value)
      ≡ 6
unfolding serialize_u16_host_to_be serialize_u32_host_to_be
six_bytes entry = refl

abbrev entry_bytes : Http2SettingSingleValue → Bytes
entry_bytes entry =
    serialize_u16_host_to_be host entry.identifier ++ serialize_u32_host_to_be host entry.value

-- The writes from an entry on, in a buffer with one byte for each of the entries left.
write_entries_faults :
    (entries : List Http2SettingSingleValue) (entry : Http2SettingSingleValue) (i : ℕ)
    (buffer : Bytes)
    → length buffer ≡ i + suc (length entries)
    → write_entries i (entry ∷ entries) buffer ≡ fault
unfolding write_entries
write_entries_faults [] entry i buffer size =
    elim (write_bytes-WrittenAt i (entry_bytes entry) buffer (omega arith)) [
      | inl f ↦ rw f refl
      | inr (after, runs, same, fits) ↦ absurd (omega (arith, six_bytes entry))
    ]
write_entries_faults (e ∷ es) entry i buffer size =
    elim (write_bytes-WrittenAt i (entry_bytes entry) buffer (omega arith)) [
      | inl f ↦ rw f refl
      | inr (after, runs, same, fits) ↦
          rw runs (write_entries_faults es e (i + 1) after (omega arith))
    ]

-- A SETTINGS frame that is no acknowledgement and has settings in it, fewer than 2 ^ 32, is never
-- sent: the settings are written past the end of the buffer, which has one byte for each of them.
pub http2_send_settings_frame_faults :
    (entry : Http2SettingSingleValue) (entries : List Http2SettingSingleValue)
    → length entries + 1 < 2 ^ 32
    → http2_send_settings_frame (record { ack = false; entries = entry ∷ entries }) ≡ fault
unfolding http2_send_settings_frame
http2_send_settings_frame_faults entry entries short =
    let small : suc (length entries) % 2 ^ 32 ≡ suc (length entries) = omega arith in
    rw
      (
        http2_send_settings_frame,
        small,
        write_entries_faults entries entry 0 (replicate (suc (length entries)) 0)
            (omega (arith, length-replicate {A = ℕ} (suc (length entries)) 0)),
      )
      refl
