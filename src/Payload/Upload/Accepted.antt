-- ===== src/Payload/Upload/Accepted.antt =====
-- What the decoder of the upload payload accepts, on any byte string.
use lepg.Base.{
  ℕ, zero, suc, ◌+◌, ◌%◌, ◌^◌, ◌<◌, ◌≤◌, ◌≡◌, refl, ap, sym, ◌∙◌, arith, List, [], ◌∷◌, ◌++◌,
  append_assoc, append-nil,
}
use lepg.Base.{Bytes, IsBytes, All, length, drop, le→not_ltb}
use lepg.Errors.{ok, after_ok, ok-injective}
use lepg.Wire.{at, put_uint16, put_uint32, put_uint64, uint16_at, uint32_at, uint64_at, slice}
use lepg.Wire.Laws.{byte_at, drop-at}
use lepg.Wire.Words.{put_uint16-drop, put_uint64-drop, uint64_at-lt, put_uint32-drop, uint32_at-lt}
use lepg.Wire.Rest.{slice-drop, length-slice}
use lepg.Reading.{Reading}
use lepg.Payload.Upload.{
  UploadPayload, tlv_string, read_tlv_string, read_id, read_quality, read_timestamp, read_reading,
  read_readings, encode_reading, encode_readings, check_strings, check_readings, string_fields,
  encode, decode,
}
use lepg.Payload.Upload.Laws.{IsShort, IsReading, encode_reading-append}
use mathlib.Core.Path.{subst}

-- A decoder that went from `off` to `off'` took just these bytes.
abbrev Took : Bytes → ℕ → ℕ → Bytes → Type 0
Took input off off' piece = (off' ≤ length input) × (drop off input ≡ piece ++ drop off' input)

string_facts :
    (input : Bytes) (off : ℕ) (s : Bytes) (off' : ℕ)
    → read_tlv_string input off ≡ ok (s, off')
    → (off + 2 + uint16_at input off ≤ length input)
      × (off' ≡ off + 2 + uint16_at input off)
      × (s ≡ slice input (off + 2) (off + 2 + uint16_at input off))
unfolding read_tlv_string
string_facts input off s off' e = ground arith

id_facts :
    (input : Bytes) (off v off' : ℕ)
    → read_id input off ≡ ok (v, off')
    → (off + 8 ≤ length input) × (off' ≡ off + 8) × (v ≡ uint64_at input off)
unfolding read_id
id_facts input off v off' e = ground arith

timestamp_facts :
    (input : Bytes) (off v off' : ℕ)
    → read_timestamp input off ≡ ok (v, off')
    → (off + 8 ≤ length input) × (off' ≡ off + 8) × (v ≡ uint64_at input off)
unfolding read_timestamp
timestamp_facts input off v off' e = ground arith

quality_facts :
    (input : Bytes) (off v off' : ℕ)
    → read_quality input off ≡ ok (v, off')
    → (off + 1 ≤ length input) × (off' ≡ off + 1) × (v ≡ at input off)
unfolding read_quality
quality_facts input off v off' e = ground arith

module _ (input : Bytes) (h : IsBytes input) where
  Took-string :
      (off : ℕ) (s : Bytes) (off' : ℕ)
      → read_tlv_string input off ≡ ok (s, off')
      → (length s < 65536) × Took input off off' (tlv_string s)
  unfolding tlv_string
  Took-string off s off' e =
      let n : ℕ = uint16_at input off in
      let (room, end, text) = string_facts input off s off' e in
      let len : length s ≡ n = ap length text ∙ length-slice input (off + 2) n room in
      let small : n < 65536 = omega (arith, byte_at input off h, byte_at input (off + 1) h) in
      let wrapped : length s % 65536 ≡ n = omega arith in
      (
        omega arith,
        (
          omega arith,
          put_uint16-drop input h off (omega arith)
              ∙ ap (◌++◌ (put_uint16 n)) (sym (slice-drop input (off + 2) n))
              ∙ rw (wrapped, end, text),
        ),
      )

  Took-id :
      (off v off' : ℕ)
      → read_id input off ≡ ok (v, off')
      → (v < 2 ^ 64) × Took input off off' (put_uint64 v)
  Took-id off v off' e =
      let (room, end, value) = id_facts input off v off' e in
      (
        rw value (uint64_at-lt input h off),
        (omega arith, rw (end, value) (put_uint64-drop input h off room)),
      )

  Took-timestamp :
      (off v off' : ℕ)
      → read_timestamp input off ≡ ok (v, off')
      → (v < 2 ^ 64) × Took input off off' (put_uint64 v)
  Took-timestamp off v off' e =
      let (room, end, value) = timestamp_facts input off v off' e in
      (
        rw value (uint64_at-lt input h off),
        (omega arith, rw (end, value) (put_uint64-drop input h off room)),
      )

  Took-quality :
      (off v off' : ℕ)
      → read_quality input off ≡ ok (v, off')
      → (v < 256) × Took input off off' ((v % 256) ∷ [])
  Took-quality off v off' e =
      let (room, end, value) = quality_facts input off v off' e in
      let small = byte_at input off h in
      let byte : v % 256 ≡ at input off = omega arith in
      (omega arith, (omega arith, rw (end, byte) (drop-at off input (omega arith))))

  -- One round of the loop.
  Took-reading :
      (off : ℕ) (r : Reading) (off' : ℕ)
      → read_reading input off ≡ ok (r, off')
      → IsReading r × IsShort r × Took input off off' (encode_reading r)
  unfolding read_reading
  Took-reading off r off' e = after_ok (read_id input off) _ e λ (id, o0) e0 k0.
      after_ok (read_tlv_string input o0) _ k0 λ (device, o1) e1 k1.
        after_ok (read_tlv_string input o1) _ k1 λ (device_name, o2) e2 k2.
          after_ok (read_tlv_string input o2) _ k2 λ (point, o3) e3 k3.
            after_ok (read_tlv_string input o3) _ k3 λ (point_name, o4) e4 k4.
              after_ok (read_tlv_string input o4) _ k4 λ (data_type, o5) e5 k5.
                after_ok (read_tlv_string input o5) _ k5 λ (value, o6) e6 k6.
                  after_ok (read_quality input o6) _ k6 λ (quality, o7) e7 k7.
                    after_ok (read_tlv_string input o7) _ k7 λ (unit, o8) e8 k8.
                      after_ok (read_timestamp input o8) _ k8 λ (timestamp, o9) e9 k9.
                        let (b0, (_, d0)) = Took-id off id o0 e0 in
                        let (s1, (_, d1)) = Took-string o0 device o1 e1 in
                        let (s2, (_, d2)) = Took-string o1 device_name o2 e2 in
                        let (s3, (_, d3)) = Took-string o2 point o3 e3 in
                        let (s4, (_, d4)) = Took-string o3 point_name o4 e4 in
                        let (s5, (_, d5)) = Took-string o4 data_type o5 e5 in
                        let (s6, (_, d6)) = Took-string o5 value o6 e6 in
                        let (b7, (_, d7)) = Took-quality o6 quality o7 e7 in
                        let (s8, (_, d8)) = Took-string o7 unit o8 e8 in
                        let (b9, (end, d9)) = Took-timestamp o8 timestamp o9 e9 in
                        let from_quality =
                          d7 ∙ ap (◌∷◌ (quality % 256)) (d8 ∙ ap (◌++◌ (tlv_string unit)) d9) in
                        let from_point_name =
                          d4
                          ∙ ap (◌++◌ (tlv_string point_name)) (
                              d5
                              ∙ ap (◌++◌ (tlv_string data_type))
                                  (d6 ∙ ap (◌++◌ (tlv_string value)) from_quality)) in
                        let from_device =
                          d1
                          ∙ ap (◌++◌ (tlv_string device)) (
                              d2
                              ∙ ap (◌++◌ (tlv_string device_name))
                                  (d3 ∙ ap (◌++◌ (tlv_string point)) from_point_name)) in
                        subst
                          (λ (p : Reading × ℕ).
                            IsReading p.0 × IsShort p.0 × Took input off p.1 (encode_reading p.0))
                          (ok-injective _ (r, off') k9)
                          (
                            record { id = b0; quality = b7; timestamp = b9 },
                            record {
                              device = s1;
                              device_name = s2;
                              point = s3;
                              point_name = s4;
                              data_type = s5;
                              value = s6;
                              unit = s8;
                            },
                            (
                              end,
                              d0
                                  ∙ ap (◌++◌ (put_uint64 id)) from_device
                                  ∙ sym (encode_reading-append _ (drop o9 input)),
                            ),
                          )

  took_readings :
      (n off : ℕ) (acc rs : List Reading)
      → off ≤ length input
      → read_readings n input off acc ≡ ok rs
      → (new : List Reading) × (rest : Bytes) × (rs ≡ acc ++ new)
        × (length new ≡ n)
        × All IsReading new
        × All IsShort new
        × (drop off input ≡ encode_readings new ++ rest)
  unfolding read_readings encode_readings
  took_readings zero off acc rs inside e =
      ([], drop off input, sym (ok-injective _ rs e) ∙ sym (append-nil acc), refl, tt, tt, refl)
  took_readings (suc n) off acc rs inside e =
      after_ok (read_reading input off) _ e λ (r, off') first others.
        let (w, s, (inside', took)) = Took-reading off r off' first in
        let (new, rest, all, count, ws, ss, behind) =
          took_readings n off' (acc ++ (r ∷ [])) rs inside' others in
        (
          r ∷ new,
          rest,
          all ∙ append_assoc acc (r ∷ []) new,
          ap suc count,
          (w, ws),
          (s, ss),
          took
              ∙ ap (◌++◌ (encode_reading r)) behind
              ∙ sym (append_assoc (encode_reading r) (encode_readings new) rest),
        )

check_strings_short : (ss : List Bytes) → All (λ s. length s < 65536) ss → check_strings ss ≡ ok tt
unfolding check_strings
check_strings_short [] h = refl
check_strings_short (s ∷ ss) (hs, h) =
    rw (le→not_ltb 65535 (length s) (omega arith)) (check_strings_short ss h)

check_readings_short : (rs : List Reading) → All IsShort rs → check_readings rs ≡ ok tt
unfolding check_readings
check_readings_short [] h = refl
check_readings_short (r ∷ rs) (hr, h) =
    rw (check_strings_short (string_fields r) (omega arith)) (check_readings_short rs h)

payload_facts :
    (input : Bytes) (p : UploadPayload)
    → decode input ≡ ok p
    → (4 ≤ length input) × (read_readings (uint32_at input 0) input 4 [] ≡ ok p.readings)
unfolding decode
payload_facts input p e = ground arith

-- `Decode` accepts a byte string only if it begins with the very encoding of the payload that it
-- returns, whose ids, qualities and timestamps fit their widths.
pub decode-eq-ok_upload :
    (input : Bytes) (p : UploadPayload)
    → IsBytes input
    → decode input ≡ ok p
    → (bs : Bytes) × (rest : Bytes) × (encode p ≡ ok bs)
      × (input ≡ bs ++ rest)
      × All IsReading p.readings
unfolding encode
decode-eq-ok_upload input p h e =
    let (room, loop) = payload_facts input p e in
    let (new, rest, same, count, ws, ss, behind) =
      took_readings input h (uint32_at input 0) 4 [] p.readings room loop in
    let n : ℕ = length p.readings in
    let wire_count : n % 2 ^ 32 ≡ uint32_at input 0 =
      omega (arith, ap length same, count, uint32_at-lt input h 0) in
    (
      put_uint32 (n % 2 ^ 32) ++ encode_readings p.readings,
      rest,
      rw (check_readings_short p.readings (rw same ss)),
      put_uint32-drop input h 0 room ∙ λ i.
          put_uint32 (sym wire_count i)
          ++ (behind ∙ ap (λ (t : List Reading). encode_readings t ++ rest) (sym same)) i,
      rw same ws,
    )
