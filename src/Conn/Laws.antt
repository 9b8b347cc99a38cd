-- ===== src/Conn/Laws.antt =====
-- `io.ReadFull` on a stream that begins with known bytes, and on one that is too short.
use lepg.Base.{ℕ, ◌<◌, ◌≡◌, refl, arith, [], ◌++◌, Bytes, length}
use lepg.Base.{
  take_front, drop_front, take-append-drop, length-take, length-append, le→not_ltb, lt→ltb,
}
use lepg.Errors.{Result, ok, err}
use lepg.Conn.{Conn, OnConn, continue, read_full, short_read}

pub read_full_front :
    (n : ℕ) (xs ys : Bytes) (c : Conn)
    → n ≡ length xs
    → c.incoming ≡ xs ++ ys
    → read_full n c ≡ (ok xs, record c { incoming = ys })
unfolding read_full
read_full_front n xs ys c e e' = rw (
  e',
  le→not_ltb (length (xs ++ ys)) n (omega (arith, length-append xs ys)),
  take_front n xs ys e,
  drop_front n xs ys e,
)

pub read_full_short :
    (n : ℕ) (c : Conn)
    → length c.incoming < n
    → read_full n c ≡ (err (short_read c.ending c.incoming), record c { incoming = [] })
unfolding read_full
read_full_short n c h = rw (lt→ltb (length c.incoming) n h)

-- What a successful read took was in front of what is left.
pub read_full-eq-ok :
    (n : ℕ) (c d : Conn) (xs : Bytes)
    → read_full n c ≡ (ok xs, d)
    → (c.incoming ≡ xs ++ d.incoming) × (length xs ≡ n) × (d ≡ record c { incoming = d.incoming })
unfolding read_full
read_full-eq-ok n c d xs e = ground (arith, take-append-drop n c.incoming, length-take n c.incoming)

-- Inversion of a successful sequence.
pub continue-eq-ok :
    {A B : Type 0} (r : Result A × Conn) (f : A → OnConn B) {b : B} {d : Conn}
    → continue r f ≡ (ok b, d)
    → (a : A) × (c : Conn) × (r ≡ (ok a, c)) × (f a c ≡ (ok b, d))
continue-eq-ok (ok a, c) f e = (a, c, refl, e)
continue-eq-ok (err x, c) f e = absurd (cc)
