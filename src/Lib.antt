-- ===== src/Lib.antt =====
-- LEPG, a lightweight edge gateway written in Go: a client on the gateway collects readings from
-- devices and uploads them over TCP to a server, which stores them and hands them on. This library
-- models the configuration, the collection of readings over Modbus and MQTT, their buffering and
-- upload, the protocol between client and server, and the server's session.
--
-- Parts, from the bottom up:
--   Base        tests on numbers, lists, byte strings, Go's maps with string keys, bits; Base.Int the
--               integers, Base.Strings prefixes
--   Float       what the code uses of float64, as a record of operations
--   Crc         internal/utils/checksum.go: the table made by `init`, `CalChecksum`
--   Timestamp   internal/utils/timestamp.go
--   Errors      the errors as values, and Go's pair of a value and an error as a sum
--   Wire, Conn  what the code uses of encoding/binary, of byte slices, net.Conn and io.ReadFull
--   Msg         internal/msg/msg.go: `Msg.Encode` and `DecodeFrame`; MsgType and Code its constants
--   Reading     internal/model/reading.go: the record of a reading
--   Model       internal/model: Modbus the types, tests and byte orders of modbus.go, Value the data
--               types, hashes and texts of reading.go
--   Payload     internal/msg/payload.go: Handshake, Ack, Upload, Notify, with `encode` and `decode`
--   Packet      internal/msg: the payloads as one type, `MsgFactory.NewMsg`, the registry, `ParseMsg`
--   Config      Point, Device, Mqtt, Names and Client are internal/client/config.go; Server is
--               internal/server/config.go; Populate is `populateField` and the chain of providers of
--               internal/config; ValidationError is the errors of a validation
--   Modbus      internal/client: Point is modbus.go, Write and Runtime modbus_runtime.go
--   Broker      internal/client/mqtt.go: Source and Text the parsing of sources and texts, Extract the
--               values and Timestamps the times in a payload, Routes the routes and readings
--   Output      internal/output: the validation of outputs; Format the values of formatter_tb.go; Sinks
--               `NewSinker` and the loop over the outputs in cmd/server/main.go
--   Server      internal/server/server.go: Dedup is `dedupCache`, Grouping the two grouping
--               functions, World the state and `sendAck`, Auth `authenticateClient`, Upload
--               `handleUpload` and `handleHeartbeat`, Session `HandleConnection`; Connections is
--               internal/server/cache/connections/memory.go
--   Client      internal/client/client.go: Consume is `consumeAndWrite`, Dial `dialWithRetry`, Router
--               `msgRouter`, Handshake `performHandshake`, Upload `uploadReadings`, Session
--               `runSession`; Store is the table of internal/client/cache/sqlite.go
--   Tests       the theorems at concrete inputs, and runs of the code
--
-- The Modbus runtime and the MQTT broker make readings from what devices answer and publish; Consume
-- gathers them and saves them as rows of the table, from which a session of the client loads batches.
-- The client builds a message with `Packet.new_msg` and writes `Msg.encode` of it; the server reads
-- it with `Msg.decode_frame`, finds the decoder with `Packet.parse_msg`, and answers with
-- `Server.World.send_ack`. A handler is a function from a `World` to a `World`: the connection, the
-- factory, the cache of uploads, the registered connections, and what the store, the publisher and
-- the output router were given. Devices, points and topics are those of the configuration.
--
-- Conventions. Numbers are natural numbers; a machine integer keeps its wrap-around as `% 2 ^ w`, and
-- the int64 fields of a reading are their 64-bit patterns; an int of the configuration is an integer.
-- A byte string is a list of numbers, and `IsBytes` says that they are bytes; a Go string is its
-- bytes. A function that returns an error returns a `Result`, an option or a sum of its own. A
-- connection delivers a list of bytes and then ends or stays silent: until the read deadline, or for
-- ever in the two handshakes, which have none (`Conn.without_deadline`). Lists of Booleans say which
-- writes, saves and updates to come succeed. The present time is an argument. The locks of the code
-- make each operation on shared state one step; so are a poll of a Modbus device, a turn of its write
-- loop, and a call of `Write` up to its channel, which run in every order. What a `select` gets is a
-- list of events.
--
-- Parameters: float64 and its conversions (`Float`), the texts of strconv, the trees of
-- encoding/json, the parsing of times, the printing of ints, SHA-256, the answers of a Modbus device,
-- what viper reads and decodes, and the JSON text of an upload (`serializeReadings`). A theorem that
-- relies on their behaviour says so in a hypothesis.
--
-- Fuel. `Server.Session.message_loop` and `Client.Router.read_loop` run on fuel: a frame takes at least
-- 15 bytes, so fuel above the number of bytes on the stream is enough. `Client.Upload.upload_readings`
-- runs on fuel for the halving of a batch, and one step is enough. `trim_space` drops at most as many
-- characters at an end as the text has.
--
-- Not modelled: sockets, the accept loop and several connections at once; the loop that dials again
-- after a session, and the wiring of the goroutines; a full channel of the router; the timers of the
-- Modbus polling; the walk over the fields of a struct, which reflection does, and the providers
-- themselves; the router of the output and the sending of its sinks; the database, Redis, MQTT and
-- HTTP libraries; printing, logging, and the commands but for the making of the sinks.
pub mod Base
pub mod Crc
pub mod Errors
pub mod Wire
pub mod Conn
pub mod MsgType
pub mod Code
pub mod Msg
pub mod Reading
pub mod Payload
pub mod Timestamp
pub mod Packet
pub mod Server
pub mod Client
pub mod Float
pub mod Model
pub mod Config
pub mod Modbus
pub mod Broker
pub mod Output
pub mod Tests
