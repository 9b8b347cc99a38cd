-- ===== src/Client/Store/Laws.antt =====
-- Statuses that replace each other.
use lepg.Base.{ℕ, ◌≡◌, refl, Bool-cases, inl, inr, List, [], ◌∷◌}
use lepg.Client.Store.{UploadStatus, CachedReading, id_in, update_readings_status}

-- The later status counts.
pub update_readings_status-twice :
    (ids : List ℕ) (a b : UploadStatus) (rows : List CachedReading)
    → update_readings_status ids a (update_readings_status ids b rows)
      ≡ update_readings_status ids a rows
unfolding update_readings_status
update_readings_status-twice ids a b [] = refl
update_readings_status-twice ids a b (r ∷ rows) =
    let rest = update_readings_status-twice ids a b rows in
    elim (Bool-cases (id_in r.reading.id ids)) [
      | inl found ↦ rw (found, found, rest)
      | inr other ↦ rw (other, other, rest)
    ]
