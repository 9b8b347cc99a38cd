-- ===== src/Server/Connections.antt =====
-- internal/server/cache/connections: the connections that are open, by the serial number of the
-- gateway (connections.go, memory.go). The times come from the clock, as an argument.
pub mod Laws
use lepg.Base.{ℕ, List, [], ◌∷◌, map, Option, none, some, Bytes, StringMap, find, delete, put}
use lepg.Timestamp.{from_unix_milli}

pub record Connection : Type 0 where
  pub device_hash : Bytes
  pub connection_id : Bytes
  pub server_node : Bytes
  pub client_ip : Bytes
  pub connected_at : ℕ
  pub last_heartbeat : ℕ
  pub node_addr : Bytes

-- `MemoryConnectionManager`
abbrev pub Connections : Type 0
Connections = StringMap Connection

abbrev pub new_memory_connection_manager : Connections
new_memory_connection_manager = []

unfoldable pub register_connection : Connection → Connections → Connections
register_connection conn m = put conn.device_hash conn m

-- The answer of `UpdateHeartbeat`: whether it found the connection.
pub data Updated : Type 0 where
  updated not_found : Updated

abbrev pub beat : Connections → ℕ → Bytes → Option Connection → Updated × Connections
beat m now device_hash none = (not_found, m)
beat m now device_hash (some conn) =
    (updated, put device_hash (record conn { last_heartbeat = from_unix_milli now }) m)

unfoldable pub update_heartbeat : ℕ → Bytes → Connections → Updated × Connections
update_heartbeat now device_hash m = beat m now device_hash (find device_hash m)

unfoldable pub get_connection : Bytes → Connections → Option Connection
get_connection device_hash m = find device_hash m

unfoldable pub remove_connection : Bytes → Connections → Connections
remove_connection device_hash m = delete device_hash m

-- in any order
unfoldable pub list_connections : Connections → List Connection
list_connections m = map (λ e. e.1) m
