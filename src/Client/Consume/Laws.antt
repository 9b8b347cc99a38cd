-- ===== src/Client/Consume/Laws.antt =====
-- No reading that was taken from the channel is lost or doubled before the function returns.
use lepg.Base.{
  ℕ, ◌+◌, ◌≡◌, Bool, true, false, List, [], ◌∷◌, ◌++◌, map, length, leb, refl, sym, ap, ◌∙◌,
  if◌then◌else◌, append-nil, append_assoc, Bool-cases, inl, inr,
}
use lepg.Reading.{Reading}
use lepg.Client.Consume.{
  Event, arrives, channel_closed, tick, ctx_done, Consumer, new_rows, saved, save_with,
  flush_buffer, flush, receive, on_event, consume_and_write,
}

-- A reading without the id of its row.
abbrev pub content : Reading → Reading
content r = record r { id = 0 }

-- What the table and the buffer hold, in order.
abbrev pub held : Consumer → List Reading
held c = map (λ r. content r.reading) c.rows ++ map content c.buffer

-- The readings that the function takes from the channel, up to the event that ends it.
abbrev pub taken : List Event → List Reading
taken [] = []
taken (arrives r ∷ events) = content r ∷ taken events
taken (tick ∷ events) = taken events
taken (channel_closed ∷ events) = []
taken (ctx_done ∷ events) = []

map-append : {A B : Type 0} (f : A → B) (xs ys : List A) → map f (xs ++ ys) ≡ map f xs ++ map f ys
map-append f [] ys = refl
map-append f (x ∷ xs) ys = ap (◌∷◌ (f x)) (map-append f xs ys)

content-new_rows :
    (id : ℕ) (readings : List Reading)
    → map (λ r. content r.reading) (new_rows id readings) ≡ map content readings
unfolding new_rows
content-new_rows id [] = refl
content-new_rows id (r ∷ readings) = ap (◌∷◌ (content r)) (content-new_rows (id + 1) readings)

saved_held : (c : Consumer) → held (saved c) ≡ held c
saved_held c =
    append-nil (map (λ r. content r.reading) (c.rows ++ new_rows c.next_id c.buffer))
    ∙ map-append (λ r. content r.reading) c.rows (new_rows c.next_id c.buffer)
    ∙ ap (◌++◌ (map (λ r. content r.reading) c.rows)) (content-new_rows c.next_id c.buffer)

held-save_with : (results : List Bool) (c : Consumer) → held (save_with results c) ≡ held c
held-save_with [] c = saved_held c
held-save_with (true ∷ more) c = saved_held (record c { save_results = more })
held-save_with (false ∷ more) c = refl

held-flush_buffer : (buffer : List Reading) (c : Consumer) → held (flush_buffer buffer c) ≡ held c
held-flush_buffer [] c = refl
held-flush_buffer (r ∷ readings) c = held-save_with c.save_results c

held-flush : (c : Consumer) → held (flush c) ≡ held c
unfolding flush
held-flush c = held-flush_buffer c.buffer c

added_held :
    (r : Reading) (c : Consumer)
    → held (record c { buffer = c.buffer ++ r ∷ [] }) ≡ held c ++ content r ∷ []
added_held r c =
    ap (◌++◌ (map (λ x. content x.reading) c.rows)) (map-append content c.buffer (r ∷ []))
    ∙ sym
        (append_assoc (map (λ x. content x.reading) c.rows) (map content c.buffer) (content r ∷ []))

held-receive :
    (batch_size : ℕ) (r : Reading) (c : Consumer)
    → held (receive batch_size r c) ≡ held c ++ content r ∷ []
held-receive batch_size r c =
    let c' : Consumer = record c { buffer = c.buffer ++ r ∷ [] } in
    elim (Bool-cases (leb batch_size (length c'.buffer))) [
      | inl full ↦ rw full (held-flush c' ∙ added_held r c)
      | inr room ↦ rw room (added_held r c)
    ]

save_with_running :
    (results : List Bool) (c : Consumer) → (save_with results c).returned ≡ c.returned
save_with_running [] c = refl
save_with_running (true ∷ more) c = refl
save_with_running (false ∷ more) c = refl

flush_running : (c : Consumer) → (flush c).returned ≡ c.returned
unfolding flush
flush_running c = go c.buffer
  where
    go : (buffer : List Reading) → (flush_buffer buffer c).returned ≡ c.returned
    go [] = refl
    go (r ∷ readings) = save_with_running c.save_results c

receive_running :
    (batch_size : ℕ) (r : Reading) (c : Consumer) → (receive batch_size r c).returned ≡ c.returned
receive_running batch_size r c =
    let c' : Consumer = record c { buffer = c.buffer ++ r ∷ [] } in
    elim (Bool-cases (leb batch_size (length c'.buffer))) [
      | inl full ↦ rw full (flush_running c')
      | inr room ↦ rw room refl
    ]

returned_stays :
    (batch_size : ℕ) (events : List Event) (c : Consumer)
    → c.returned ≡ true
    → consume_and_write batch_size events c ≡ c
unfolding consume_and_write
returned_stays batch_size [] c h = refl
returned_stays batch_size (e ∷ events) c h = rw h refl

consume_step :
    (batch_size : ℕ) (e : Event) (events : List Event) (c : Consumer)
    → c.returned ≡ false
    → consume_and_write batch_size (e ∷ events) c
      ≡ consume_and_write batch_size events (on_event batch_size e c)
unfolding consume_and_write
consume_step batch_size e events c h =
    ap
      (λ (b : Bool). if b then c else consume_and_write batch_size events (on_event batch_size e c))
      h

-- Whatever saves fail: the table and the buffer together hold, in order, what they held and every
-- reading that was taken from the channel, each once.
pub held-consume_and_write :
    (batch_size : ℕ) (events : List Event) (c : Consumer)
    → c.returned ≡ false
    → held (consume_and_write batch_size events c) ≡ held c ++ taken events
unfolding on_event
held-consume_and_write batch_size [] c h = unfold consume_and_write in sym (append-nil (held c))
held-consume_and_write batch_size (arrives r ∷ events) c h =
    ap held (consume_step batch_size (arrives r) events c h)
    ∙ held-consume_and_write batch_size events (receive batch_size r c)
        (receive_running batch_size r c ∙ h)
    ∙ ap (λ (rs : List Reading). rs ++ taken events) (held-receive batch_size r c)
    ∙ append_assoc (held c) (content r ∷ []) (taken events)
held-consume_and_write batch_size (tick ∷ events) c h =
    ap held (consume_step batch_size tick events c h)
    ∙ held-consume_and_write batch_size events (flush c) (flush_running c ∙ h)
    ∙ ap (λ (rs : List Reading). rs ++ taken events) (held-flush c)
held-consume_and_write batch_size (channel_closed ∷ events) c h =
    ap held (consume_step batch_size channel_closed events c h)
    ∙ ap held (returned_stays batch_size events (record (flush c) { returned = true }) refl)
    ∙ held-flush c
    ∙ sym (append-nil (held c))
held-consume_and_write batch_size (ctx_done ∷ events) c h =
    ap held (consume_step batch_size ctx_done events c h)
    ∙ ap held (returned_stays batch_size events (record (flush c) { returned = true }) refl)
    ∙ held-flush c
    ∙ sym (append-nil (held c))

save_all : (c : Consumer) → c.save_results ≡ [] → save_with c.save_results c ≡ saved c
save_all c e = ap (λ (results : List Bool). save_with results c) e

flush_empties : (c : Consumer) → c.save_results ≡ [] → (flush c).buffer ≡ []
unfolding flush
flush_empties c e = go c.buffer refl
  where
    go : (buffer : List Reading) → c.buffer ≡ buffer → (flush_buffer buffer c).buffer ≡ []
    go [] same = same
    go (r ∷ readings) same = ap (λ (d : Consumer). d.buffer) (save_all c e)

flush_results : (c : Consumer) → c.save_results ≡ [] → (flush c).save_results ≡ []
unfolding flush
flush_results c e = go c.buffer
  where
    go : (buffer : List Reading) → (flush_buffer buffer c).save_results ≡ []
    go [] = e
    go (r ∷ readings) = ap (λ (d : Consumer). d.save_results) (save_all c e) ∙ e

-- The events end with the end of the channel or of the program.
abbrev pub ends : List Event → Bool
ends [] = false
ends (arrives r ∷ events) = ends events
ends (tick ∷ events) = ends events
ends (channel_closed ∷ events) = true
ends (ctx_done ∷ events) = true

receive_results :
    (batch_size : ℕ) (r : Reading) (c : Consumer)
    → c.save_results ≡ []
    → (receive batch_size r c).save_results ≡ []
receive_results batch_size r c e =
    let c' : Consumer = record c { buffer = c.buffer ++ r ∷ [] } in
    elim (Bool-cases (leb batch_size (length c'.buffer))) [
      | inl full ↦ rw full (flush_results c' e)
      | inr room ↦ rw room e
    ]

last_flush :
    (batch_size : ℕ) (events : List Event) (c : Consumer)
    → c.returned ≡ false
    → c.save_results ≡ []
    → ends events ≡ true
    → (consume_and_write batch_size events c).buffer ≡ []
unfolding on_event
last_flush batch_size [] c h e last = cc
last_flush batch_size (arrives r ∷ events) c h e last =
    ap (λ (d : Consumer). d.buffer) (consume_step batch_size (arrives r) events c h)
    ∙ last_flush batch_size events (receive batch_size r c) (receive_running batch_size r c ∙ h)
        (receive_results batch_size r c e) last
last_flush batch_size (tick ∷ events) c h e last =
    ap (λ (d : Consumer). d.buffer) (consume_step batch_size tick events c h)
    ∙ last_flush batch_size events (flush c) (flush_running c ∙ h) (flush_results c e) last
last_flush batch_size (channel_closed ∷ events) c h e last =
    ap (λ (d : Consumer). d.buffer) (consume_step batch_size channel_closed events c h)
    ∙ ap (λ (d : Consumer). d.buffer)
        (returned_stays batch_size events (record (flush c) { returned = true }) refl)
    ∙ flush_empties c e
last_flush batch_size (ctx_done ∷ events) c h e last =
    ap (λ (d : Consumer). d.buffer) (consume_step batch_size ctx_done events c h)
    ∙ ap (λ (d : Consumer). d.buffer)
        (returned_stays batch_size events (record (flush c) { returned = true }) refl)
    ∙ flush_empties c e

-- Where no save fails, every reading that was taken from the channel is in the table, behind what the
-- table and the buffer held, in order and once, when the function has returned.
pub consume_and_write_saves :
    (batch_size : ℕ) (events : List Event) (c : Consumer)
    → c.returned ≡ false
    → c.save_results ≡ []
    → ends events ≡ true
    → map (λ r. content r.reading) (consume_and_write batch_size events c).rows
      ≡ held c ++ taken events
consume_and_write_saves batch_size events c h e last =
    let out : Consumer = consume_and_write batch_size events c in
    sym (append-nil (map (λ r. content r.reading) out.rows))
    ∙ ap (λ (b : List Reading). map (λ r. content r.reading) out.rows ++ map content b)
        (sym (last_flush batch_size events c h e last))
    ∙ held-consume_and_write batch_size events c h
