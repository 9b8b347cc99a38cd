-- ===== src/Msg/Silent.antt =====
-- When a read of a frame waits for ever on a connection without a read deadline.
use lepg.Base.{
  ℕ, ◌+◌, ◌≡◌, refl, true, Bool-cases, inl, inr, [], ◌∷◌, ◌++◌, none, Bytes, length, take, ltb,
  ◌==◌,
}
use lepg.Errors.{Result, ok, err}
use lepg.Wire.{uint16_at}
use lepg.Crc.{cal_checksum}
use lepg.Conn.{
  Conn, OnConn, Ending, closed, silent, is_timeout, without_deadline, short_read, read_full,
  continue,
}
use lepg.Msg.{magic_number, check_frame, decode_body, decode_frame}

-- A read that keeps the ending of the stream, and times out only where the peer is silent.
abbrev IsFair : {A : Type 0} → Ending → Result A × Conn → Type 0
IsFair g (ok a, c) = c.ending ≡ g
IsFair g (err e, c) = is_timeout e ≡ true → g ≡ silent

short_read-IsFair : (g : Ending) (bs : Bytes) → is_timeout (short_read g bs) ≡ true → g ≡ silent
unfolding short_read
short_read-IsFair closed [] e = cc
short_read-IsFair closed (x ∷ xs) e = cc
short_read-IsFair silent bs e = refl

read_full-IsFair : (n : ℕ) (c : Conn) → IsFair c.ending (read_full n c)
unfolding read_full
read_full-IsFair n c = elim (Bool-cases (ltb (length c.incoming) n)) [
  | inl short ↦ rw short (short_read-IsFair c.ending c.incoming)
  | inr long ↦ rw long refl
]

continue-IsFair :
    {A B : Type 0} (g : Ending) (r : Result A × Conn) (f : A → OnConn B)
    → IsFair g r
    → ((a : A) (c : Conn) → c.ending ≡ g → IsFair g (f a c))
    → IsFair g (continue r f)
continue-IsFair g (ok a, c) f h next = next a c h
continue-IsFair g (err e, c) f h next = h

check_frame-IsFair :
    (g : Ending) (header_buf rest_buf : Bytes) (c : Conn)
    → c.ending ≡ g
    → IsFair g (check_frame header_buf rest_buf c)
unfolding check_frame
check_frame-IsFair g header_buf rest_buf c h =
    let n = uint16_at header_buf 7 in
    elim (Bool-cases (cal_checksum (header_buf ++ take n rest_buf) == uint16_at rest_buf n)) [
      | inl good ↦ rw good h
      | inr bad ↦ rw bad (λ e. cc)
    ]

decode_body-IsFair :
    (g : Ending) (header_buf : Bytes) (c : Conn)
    → c.ending ≡ g
    → IsFair g (decode_body header_buf c)
unfolding decode_body
decode_body-IsFair g header_buf c h =
    continue-IsFair g (read_full (uint16_at header_buf 7 + 2) c) (check_frame header_buf)
      (rw (← h) (read_full-IsFair (uint16_at header_buf 7 + 2) c))
      (λ rest_buf d same. check_frame-IsFair g header_buf rest_buf d same)

decode_frame-IsFair : (c : Conn) → IsFair c.ending (decode_frame c)
unfolding decode_frame
decode_frame-IsFair c =
    continue-IsFair c.ending (read_full 13 c) _ (read_full-IsFair 13 c) (λ header_buf d same.
      elim (Bool-cases (uint16_at header_buf 0 == magic_number)) [
        | inl good ↦ rw good (decode_body-IsFair c.ending header_buf d same)
        | inr bad ↦ rw bad (λ e. cc)
      ])

without_deadline-IsFair :
    {A : Type 0} (g : Ending) (r : Result A × Conn)
    → IsFair g r
    → without_deadline r ≡ none
    → g ≡ silent
unfolding without_deadline
without_deadline-IsFair g (ok a, c) h e = absurd cc
without_deadline-IsFair g (err x, c) h e = elim (Bool-cases (is_timeout x)) [
  | inl waits ↦ h waits
  | inr other ↦ absurd (cc (rw other at e))
]

-- Without a read deadline a read of a frame waits for ever only where the peer stays silent.
pub decode_frame-silent : (c : Conn) → without_deadline (decode_frame c) ≡ none → c.ending ≡ silent
decode_frame-silent c e =
    without_deadline-IsFair c.ending (decode_frame c) (decode_frame-IsFair c) e
