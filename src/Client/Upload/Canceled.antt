-- ===== src/Client/Upload/Canceled.antt =====
-- What becomes of a batch that waits for its acknowledgement when the program ends.
use lepg.Base.{
  ℕ, suc, ◌≡◌, refl, ap, sym, ◌∙◌, Bool, true, false, Bool-cases, inl, inr, List, [], ◌∷◌, ◌++◌,
  All, All-take, All-append, some, subst, le→not_ltb, ◌==◌, ==_iff,
}
use lepg.Errors.{Result, ok, err}
use lepg.MsgType
use lepg.Code
use lepg.Conn.{Conn, write}
use lepg.Msg as Frame
use lepg.Msg.{Msg}
use lepg.Packet.{MsgFactory, new_msg}
use lepg.Client.Store.{
  UploadStatus, not_sent, sending, sent, failed, CachedReading, id_in, update_readings_status,
  is_pending, pending_readings, load_pending_readings,
}
use lepg.Client.Upload.{
  Event, acked, ack_timeout, ctx_done, Uploader, Outcome, ids_of, update_with, update_status,
  take_event, after_event, after_write, after_mark, send_upload, upload_readings,
}
use lepg.Client.Upload.Laws.{
  batch, build-cases, payload_len-le, settled, first_event, upload_readings-rows,
}

-- Every row of the ids is Sending.
abbrev pub AllSending : List ℕ → List CachedReading → Type 0
AllSending ids = All (λ x. id_in x.reading.id ids ≡ true → x.status ≡ sending)

-- None of the readings is of the ids.
abbrev pub NoneOf : List ℕ → List CachedReading → Type 0
NoneOf ids = All (λ x. id_in x.reading.id ids ≡ false)

-- No id is in both.
abbrev Apart : List ℕ → List ℕ → Type 0
Apart ids others = (n : ℕ) → id_in n ids ≡ true → id_in n others ≡ false

update-AllSending :
    (ids : List ℕ) (rows : List CachedReading)
    → AllSending ids (update_readings_status ids sending rows)
unfolding update_readings_status
update-AllSending ids [] = tt
update-AllSending ids (r ∷ rows) = elim (Bool-cases (id_in r.reading.id ids)) [
  | inl of_ids ↦ (rw of_ids (λ h. refl), update-AllSending ids rows)
  | inr other ↦ (rw other (λ h. cc), update-AllSending ids rows)
]

pending-NoneOf :
    (ids : List ℕ) (rows : List CachedReading)
    → AllSending ids rows
    → NoneOf ids (pending_readings rows)
unfolding pending_readings
pending-NoneOf ids [] h = tt
pending-NoneOf ids (r ∷ rows) (hr, h) = elim (Bool-cases (is_pending r.status)) [
  | inr done ↦ rw done (pending-NoneOf ids rows h)
  | inl pending ↦ elim (Bool-cases (id_in r.reading.id ids)) [
    | inl of_ids ↦ absurd (cc (ap is_pending (hr of_ids), pending))
    | inr other ↦ rw pending (other, pending-NoneOf ids rows h)
  ]
]

-- `LoadPendingReadings` passes over rows that are Sending.
load-NoneOf :
    (ids : List ℕ) (limit : ℕ) (rows : List CachedReading)
    → AllSending ids rows
    → NoneOf ids (load_pending_readings limit rows)
unfolding load_pending_readings
load-NoneOf ids limit rows h =
    All-take (λ x. id_in x.reading.id ids ≡ false) limit (pending_readings rows)
      (pending-NoneOf ids rows h)

NoneOf-Apart :
    (ids : List ℕ) (rows : List CachedReading) → NoneOf ids rows → Apart ids (ids_of rows)
NoneOf-Apart ids [] h n e = refl
NoneOf-Apart ids (r ∷ rows) (hr, h) n e = elim (Bool-cases (r.reading.id == n)) [
  | inl same ↦
      let is_n : r.reading.id ≡ n = (==_iff r.reading.id n).0 same in
      absurd (cc (ap (λ (k : ℕ). id_in k ids) is_n, hr, e))
  | inr other ↦ rw other (NoneOf-Apart ids rows h n e)
]

-- Other ids may get any status.
Apart-AllSending :
    (ids others : List ℕ) (s : UploadStatus) (rows : List CachedReading)
    → Apart ids others
    → AllSending ids rows
    → AllSending ids (update_readings_status others s rows)
unfolding update_readings_status
Apart-AllSending ids others s [] apart h = tt
Apart-AllSending ids others s (r ∷ rows) apart (hr, h) =
    let rest = Apart-AllSending ids others s rows apart h in
    elim (Bool-cases (id_in r.reading.id others)) [
      | inr other ↦ (rw other hr, rest)
      | inl touched ↦
          (rw touched (λ of_ids. absurd (cc (apart r.reading.id of_ids, touched))), rest)
    ]

-- An upload of other readings, whatever it meets, leaves the rows of the ids Sending.
module _ (ids others : List ℕ) (apart : Apart ids others) where
  update_with-AllSending :
      (results : List Bool) (s : UploadStatus) (u : Uploader)
      → AllSending ids u.rows
      → AllSending ids (update_with results others s u).1.rows
  update_with-AllSending [] s u h = Apart-AllSending ids others s u.rows apart h
  update_with-AllSending (true ∷ more) s u h = Apart-AllSending ids others s u.rows apart h
  update_with-AllSending (false ∷ more) s u h = h

  event-AllSending :
      (e : Event) (u : Uploader)
      → AllSending ids u.rows
      → AllSending ids (after_event others (e, u)).1.rows
  event-AllSending (acked p) u h = elim (Bool-cases (p.code == Code.success)) [
    | inl success ↦ rw success (update_with-AllSending u.update_results sent u h)
    | inr other ↦ rw other (update_with-AllSending u.update_results not_sent u h)
  ]
  event-AllSending ack_timeout u h = update_with-AllSending u.update_results not_sent u h
  event-AllSending ctx_done u h = h

  taken-AllSending :
      (events : List Event) (u : Uploader)
      → AllSending ids u.rows
      → AllSending ids (after_event others (take_event events u)).1.rows
  taken-AllSending [] u h = event-AllSending ack_timeout u h
  taken-AllSending (e ∷ events) u h = event-AllSending e (record u { events = events }) h

  write-AllSending :
      (u : Uploader) (r : Result (Unit {0}) × Conn)
      → AllSending ids u.rows
      → AllSending ids (after_write others u r).1.rows
  write-AllSending u (err e, c) h =
      update_with-AllSending u.update_results failed (record u { conn = c }) h
  write-AllSending u (ok _, c) h = taken-AllSending u.events (record u { conn = c }) h

  mark-AllSending :
      (m : Msg) (r : Bool × Uploader)
      → AllSending ids r.1.rows
      → AllSending ids (after_mark others m r).1.rows
  mark-AllSending m (false, u) h = h
  mark-AllSending m (true, u) h = write-AllSending u (write (Frame.encode m).0 u.conn) h

  send_upload-AllSending :
      (m : Msg) (u : Uploader)
      → AllSending ids u.rows
      → AllSending ids (send_upload others m u).1.rows
  unfolding send_upload
  send_upload-AllSending m u h =
      mark-AllSending m (update_status others sending u)
        (update_with-AllSending u.update_results sending u h)

outcome_of : (x y : Outcome) → some x ≡ some y → x ≡ y
outcome_of x y e = cc

upload_readings-AllSending :
    (ids : List ℕ) (now : ℕ) (readings : List CachedReading) (u : Uploader) (out : Outcome)
    → NoneOf ids readings
    → AllSending ids u.rows
    → upload_readings 1 65535 now readings u ≡ some out
    → AllSending ids out.1.rows
unfolding upload_readings
upload_readings-AllSending ids now [] u out none_of h e = rw (← outcome_of (ok tt, u) out e) h
upload_readings-AllSending ids now (r ∷ rs) u out none_of h e =
    let others : List ℕ = ids_of (r ∷ rs) in
    let apart = NoneOf-Apart ids (r ∷ rs) none_of in
    elim (build-cases (new_msg u.factory now MsgType.upload (batch (r ∷ rs)))) [
      | inl (x, f, built) ↦
          let u' : Uploader = record u { factory = f } in
          let same = outcome_of (err x, (update_status others failed u').1) out (rw built at e) in
          rw (← same) (update_with-AllSending ids others apart u.update_results failed u' h)
      | inr (m, f, built) ↦
          let whole =
            le→not_ltb 65535 m.payload_len
              (payload_len-le u.factory f now MsgType.upload (batch (r ∷ rs)) m built) in
          let u' : Uploader = record u { factory = f } in
          let same = outcome_of (send_upload others m u') out (rw (built, whole) at e) in
          rw (← same) (send_upload-AllSending ids others apart m u' h)
    ]

-- What the client goes on to do, after a restart too: it loads what is pending and uploads it, saves
-- new readings, under other ids than these, and begins sessions, which leave the table alone.
pub data Later (ids : List ℕ) (u : Uploader) : Uploader → Type 0 where
  at_once : Later ids u u
  uploads :
      {v : Uploader} (now limit : ℕ) (out : Outcome)
      → Later ids u v
      → upload_readings 1 65535 now (load_pending_readings limit v.rows) v ≡ some out
      → Later ids u out.1
  saves :
      {v : Uploader} (rows : List CachedReading)
      → Later ids u v
      → NoneOf ids rows
      → Later ids u (record v { rows = v.rows ++ rows })
  begins : {v : Uploader} (w : Uploader) → Later ids u v → w.rows ≡ v.rows → Later ids u w

NoneOf-AllSending :
    (ids : List ℕ) (rows : List CachedReading) → NoneOf ids rows → AllSending ids rows
NoneOf-AllSending ids [] h = tt
NoneOf-AllSending ids (r ∷ rows) (hr, h) =
    ((λ of_ids. absurd (cc (hr, of_ids))), NoneOf-AllSending ids rows h)

Later-AllSending :
    {ids : List ℕ} {u v : Uploader} → Later ids u v → AllSending ids u.rows → AllSending ids v.rows
Later-AllSending at_once h = h
Later-AllSending {ids} (uploads {v} now limit out before e) h =
    let sending_still = Later-AllSending before h in
    upload_readings-AllSending ids now (load_pending_readings limit v.rows) v out
      (load-NoneOf ids limit v.rows sending_still) sending_still e
Later-AllSending {ids} (saves {v} rows before fresh) h =
    All-append (λ x. id_in x.reading.id ids ≡ true → x.status ≡ sending) v.rows rows
      (Later-AllSending before h) (NoneOf-AllSending ids rows fresh)
Later-AllSending {ids} (begins w before same) h =
    subst (AllSending ids) (sym same) (Later-AllSending before h)

-- Where the program ends while a batch waits for its acknowledgement, with the database and the
-- connection taking what they are given, the readings of the batch are Sending, and the other rows as
-- they were. They stay Sending, and no load returns one of them, whatever the client does later:
-- uploads of what it loads, with any outcome, saves of readings under other ids, and new sessions.
pub canceled_never_loaded :
    (fuel now : ℕ) (r : CachedReading) (rs : List CachedReading) (u : Uploader) (m : Msg)
    (f : MsgFactory) (events : List Event)
    → new_msg u.factory now MsgType.upload (batch (r ∷ rs)) ≡ (ok m, f)
    → u.update_results ≡ []
    → u.conn.write_results ≡ []
    → u.events ≡ ctx_done ∷ events
    → let ids = ids_of (r ∷ rs) in
      (result : Result (Unit {0})) × (u' : Uploader) × (upload_readings
          (suc fuel)
          65535
          now
          (r ∷ rs)
          u
        ≡ some (result, u'))
      × (u'.rows ≡ update_readings_status ids sending u.rows)
      × ((v : Uploader) (limit : ℕ)
          → Later ids u' v
          → AllSending ids v.rows × NoneOf ids (load_pending_readings limit v.rows))
canceled_never_loaded fuel now r rs u m f events e good writes ends =
    let ids : List ℕ = ids_of (r ∷ rs) in
    let (result, u', returns, rows) = upload_readings-rows fuel now r rs u m f e good writes in
    let stuck : u'.rows ≡ update_readings_status ids sending u.rows =
      rows ∙ ap (λ es. update_readings_status ids (settled (first_event es)) u.rows) ends in
    let first : AllSending ids u'.rows =
      subst (AllSending ids) (sym stuck) (update-AllSending ids u.rows) in
    (
      result,
      u',
      returns,
      stuck,
      λ v limit later. let h = Later-AllSending later first in (h, load-NoneOf ids limit v.rows h),
    )
