-- ===== src/Reading.antt =====
-- internal/model/reading.go: a reading of a data point.
use lepg.Base.{ℕ, Bytes}

-- `id` and `timestamp` are int64 in the source and travel as uint64: here they are the 64-bit
-- pattern. `data_type` is a string type.
pub record Reading : Type 0 where
  pub id : ℕ
  pub device : Bytes
  pub device_name : Bytes
  pub point : Bytes
  pub point_name : Bytes
  pub data_type : Bytes
  pub value : Bytes
  pub quality : ℕ
  pub unit : Bytes
  pub timestamp : ℕ
