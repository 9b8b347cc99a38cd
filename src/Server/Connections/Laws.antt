-- ===== src/Server/Connections/Laws.antt =====
-- The connections behind each operation.
use lepg.Base.{◌≡◌, none, some, Bytes, bytes_eq, find-put, find-delete, if◌then◌else◌}
use lepg.Server.Connections.{
  Connection, Connections, register_connection, get_connection, remove_connection,
}

-- A registration and a removal change the entry of their own serial number and no other.
pub get_connection-changes :
    (conn : Connection) (sn k : Bytes) (m : Connections)
    → (get_connection k (register_connection conn m)
        ≡ (if bytes_eq conn.device_hash k then some conn else get_connection k m))
      × (get_connection k (remove_connection sn m)
          ≡ (if bytes_eq sn k then none else get_connection k m))
unfolding get_connection register_connection remove_connection
get_connection-changes conn sn k m = (find-put conn.device_hash k conn m, find-delete sn k m)
