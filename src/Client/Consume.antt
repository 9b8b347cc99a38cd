-- ===== src/Client/Consume.antt =====
-- internal/client/client.go: `consumeAndWrite`, which gathers readings and saves them in batches, with
-- `SaveReadings` of internal/client/cache. The ids are those that the table gives, one after another.
pub mod Laws
use lepg.Base.{ℕ, ◌+◌, Bool, true, false, List, [], ◌∷◌, ◌++◌, length, leb, if◌then◌else◌}
use lepg.Reading.{Reading}
use lepg.Client.Store.{CachedReading, not_sent}

-- What the `select` gets: a reading, the end of the channel, the ticker, the end of the program.
pub data Event : Type 0 where
  arrives : Reading → Event
  channel_closed tick ctx_done : Event

-- The buffer, the table, the next id, and the results of the saves to come (a save that the list does
-- not name succeeds); whether the function has returned.
pub record Consumer : Type 0 where
  pub buffer : List Reading
  pub rows : List CachedReading
  pub next_id : ℕ
  pub save_results : List Bool
  pub returned : Bool

-- The rows of a batch.
unfoldable pub new_rows : ℕ → List Reading → List CachedReading
new_rows id [] = []
new_rows id (r ∷ readings) =
    record { reading = record r { id = id }; status = not_sent } ∷ new_rows (id + 1) readings

-- `SaveReadings` of the buffer succeeded: `buffer = buffer[:0]`
abbrev pub saved : Consumer → Consumer
saved c = record c {
  buffer = [];
  rows = c.rows ++ new_rows c.next_id c.buffer;
  next_id = c.next_id + length c.buffer;
}

abbrev save_with : List Bool → Consumer → Consumer
save_with [] c = saved c
save_with (true ∷ more) c = saved (record c { save_results = more })
save_with (false ∷ more) c = record c { save_results = more }

-- `flush`
abbrev flush_buffer : List Reading → Consumer → Consumer
flush_buffer [] c = c
flush_buffer (r ∷ readings) c = save_with c.save_results c

unfoldable pub flush : Consumer → Consumer
unfolding new_rows
flush c = flush_buffer c.buffer c

-- One round of the loop.
abbrev receive : ℕ → Reading → Consumer → Consumer
receive batch_size r c =
    let c' : Consumer = record c { buffer = c.buffer ++ r ∷ [] } in
    if leb batch_size (length c'.buffer) then flush c' else c'

unfoldable pub on_event : ℕ → Event → Consumer → Consumer
unfolding flush
on_event batch_size (arrives r) c = receive batch_size r c
on_event batch_size tick c = flush c
on_event batch_size channel_closed c = record (flush c) { returned = true }
on_event batch_size ctx_done c = record (flush c) { returned = true }

-- `consumeAndWrite` on the events to come
unfoldable pub consume_and_write : ℕ → List Event → Consumer → Consumer
consume_and_write batch_size [] c = c
consume_and_write batch_size (e ∷ events) c =
    let rest = consume_and_write batch_size events (on_event batch_size e c) in
    if c.returned then c else rest
