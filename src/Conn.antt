-- ===== src/Conn.antt =====
-- What the source uses of net.Conn and io.ReadFull: the bytes that arrive, how the stream ends,
-- what has been written, and whether the next writes succeed.
pub mod Laws
use lepg.Base.{
  ℕ, Bool, true, false, Option, none, some, List, [], ◌∷◌, ◌++◌, Bytes, length, take, drop, ltb,
  if◌then◌else◌,
}
use lepg.Errors.{Error, Result, ok, err, eof, unexpected_eof, timeout, write_failed}

-- The peer closed the connection, or stays silent: until the read deadline, or for ever where the code
-- has set none (`without_deadline`).
pub data Ending : Type 0 where
  closed silent : Ending

pub record Conn : Type 0 where
  pub incoming : Bytes
  pub ending : Ending
  pub sent : List Bytes
  -- the results of the writes to come; a write that the list does not name succeeds
  pub write_results : List Bool

-- The error of `io.ReadFull` when the bytes run out, after some bytes or after none.
unfoldable pub short_read : Ending → Bytes → Error
short_read closed [] = eof
short_read closed (x ∷ xs) = unexpected_eof
short_read silent xs = timeout

-- A computation that reads and writes a connection.
abbrev pub OnConn : Type 0 → Type 0
OnConn A = Conn → Result A × Conn

abbrev pub pure : {A : Type 0} → A → OnConn A
pure a c = (ok a, c)

abbrev pub fail : {A : Type 0} → Error → OnConn A
fail e c = (err e, c)

abbrev pub continue : {A B : Type 0} → Result A × Conn → (A → OnConn B) → Result B × Conn
continue (ok a, c) f = f a c
continue (err e, c) f = (err e, c)

infixl 5 ◌>>=◌
abbrev pub ◌>>=◌ : {A B : Type 0} → OnConn A → (A → OnConn B) → OnConn B
◌>>=◌ m f c = continue (m c) f

-- `io.ReadFull(conn, buf)` with `len(buf) = n`
unfoldable pub read_full : ℕ → OnConn Bytes
unfolding short_read
read_full n c =
    if ltb (length c.incoming) n
    then (err (short_read c.ending c.incoming), record c { incoming = [] })
    else (ok (take n c.incoming), record c { incoming = drop n c.incoming })

abbrev pub is_timeout : Error → Bool
is_timeout timeout = true
is_timeout _ = false

-- A read on a connection that has no read deadline: where it would time out it never returns, `none`.
unfoldable pub without_deadline : {A : Type 0} → Result A × Conn → Option (Result A × Conn)
without_deadline (ok a, c) = some (ok a, c)
without_deadline (err e, c) = if is_timeout e then none else some (err e, c)

abbrev pub write_with : List Bool → Bytes → OnConn (Unit {0})
write_with [] bs c = (ok tt, record c { sent = c.sent ++ (bs ∷ []) })
write_with (true ∷ rest) bs c =
    (ok tt, record c { sent = c.sent ++ (bs ∷ []); write_results = rest })
write_with (false ∷ rest) bs c = (err write_failed, record c { write_results = rest })

-- `conn.Write(bs)`
unfoldable pub write : Bytes → OnConn (Unit {0})
write bs c = write_with c.write_results bs c
