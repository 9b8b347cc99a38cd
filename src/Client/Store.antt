-- ===== src/Client/Store.antt =====
-- internal/client/cache: the readings that wait for their upload (reading.go, store.go, sqlite.go).
-- The table of the database is a list in the order of the ids.
pub mod Laws
use lepg.Base.{ℕ, Bool, true, false, List, [], ◌∷◌, take, ◌==◌, if◌then◌else◌}
use lepg.Reading.{Reading}

pub data UploadStatus : Type 0 where
  not_sent sending sent failed : UploadStatus

pub record CachedReading : Type 0 where
  pub reading : Reading
  pub status : UploadStatus

-- `id IN (ids)`
abbrev pub id_in : ℕ → List ℕ → Bool
id_in id [] = false
id_in id (x ∷ ids) = if x == id then true else id_in id ids

abbrev pub with_status : Bool → UploadStatus → CachedReading → CachedReading
with_status true status r = record r { status = status }
with_status false status r = r

-- `UpdateReadingsStatus`, where the database does what it is asked for
unfoldable pub update_readings_status :
    List ℕ → UploadStatus → List CachedReading → List CachedReading
update_readings_status ids status [] = []
update_readings_status ids status (r ∷ rows) =
    with_status (id_in r.reading.id ids) status r ∷ update_readings_status ids status rows

-- `status IN (UploadNotSent, UploadFailed)`
abbrev pub is_pending : UploadStatus → Bool
is_pending not_sent = true
is_pending sending = false
is_pending sent = false
is_pending failed = true

unfoldable pub pending_readings : List CachedReading → List CachedReading
pending_readings [] = []
pending_readings (r ∷ rows) =
    if is_pending r.status then r ∷ pending_readings rows else pending_readings rows

-- `LoadPendingReadings`
unfoldable pub load_pending_readings : ℕ → List CachedReading → List CachedReading
load_pending_readings limit rows = take limit (pending_readings rows)
