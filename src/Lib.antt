-- ===== src/Lib.antt =====
-- AirLink, the firmware of a MAVLink radio: the parts that decide what bytes go where.
--
-- Bytes of a flight controller or a ground station reach the router
-- (components/airlink_router/airlink_router.c) through an endpoint. In MAVLink mode it feeds them
-- to the endpoint's parser (airlink_mavlink.c beside it) and forwards whole frames, in transparent
-- mode it cuts them into pieces that the endpoints' queues take; in both it observes heartbeats of
-- the vehicle's side for the armed latch. The matcher of components/airlink_core/airlink_stream.c
-- looks for an escape pattern in a byte stream that it passes on. Nodes of a mesh exchange packets
-- that components/airlink_mesh/airlink_mesh_codec.c encrypts and, behind its replay window,
-- decodes. MAVLink over the CAN bus passes the queues of components/airlink_can/airlink_can.c. A
-- new firmware arrives in pieces at components/airlink_ota/airlink_ota.c, is checked and
-- confirmed. The mesh's configuration and the nodes it lets in are kept in two slots each of the
-- flash.
--
-- Files:
-- Base: the numbers, lists and Boolean tests that all parts use.
-- Stream: airlink_stream.c, with `feed` for airlink_escape_feed, `suffix_prefix`, `chunk_size`.
-- Mavlink: airlink_mavlink.c, with `parse_byte`; Mavlink/Table holds CRC_EXTRAS and crc_extra_for.
-- Crc: airlink_crc32.
-- Router/State, Slots, Forward, Observe, Ingest: airlink_router.c, its static variables as the
-- record `Router` and each function as one that gives the state after it.
-- Can/Tunnel: components/airlink_can/airlink_can.c and airlink_dronecan.c, with `can_router_send`,
-- `dequeue` for dequeue_tunnel_packet, and `tunnel_round` for the tunnel's part of a round of
-- can_task.
-- Mesh/Replay, Wire, Codec: airlink_mesh_codec.c, with `replay_accept`, `encode` and `decode_ex`.
-- Ota/Marker, Stream, Upload, Confirm: components/airlink_ota/airlink_ota.c, with `stream_begin`
-- for airlink_ota_stream_begin_versioned and so on; `http_upload`, and `confirmation_round` for a
-- round of rollback_confirmation_task.
-- MeshNode/AirOta: components/airlink_mesh/airlink_mesh.c, the packets of an update at an air
-- node, with `process_begin`, `process_chunk` and `process_commit` on top of the stream of
-- Ota/Stream.
-- Config/Validate: components/airlink_config/airlink_config.c, with `config_validate`,
-- `migrate_v1`.
-- Config/Strings, Defaults, Store, Device: the rest of that file, with `read_slot`,
-- `write_record`, `read_identity`, `config_init` and one function for each other call that changes
-- the state.
-- Config/Provision: airlink_provision.c beside it, with `record_valid`.
-- MeshConfig/Nvs, Validate, Slots, Approvals: components/airlink_mesh/airlink_mesh_config.c, with
-- `validate`, `config_save`, `config_stage`, `commit_staged`, `approval_add`, `approval_remove`.
--
-- The state of a C object is a record, an array a list of its length, a pointer into an array an
-- index. Numbers of a machine width are natural numbers with the wrap-around written where the
-- code can wrap; saturating counters are written as in the code. Callbacks (`emit`, an endpoint's
-- `send`) are parameters that answer by the calls made so far; the clock is a function of the
-- number of readings; HKDF and AES-GCM of the PSA library are the record `Crypto`, with the facts
-- that the code relies on. A queue of FreeRTOS is the record `Queue`, each with its own
-- depth. The flash is the record `Nvs`, whose operations may fail at any call, and of which a restart
-- keeps for sure only what was committed; a record's checksum, which reads its bytes as the
-- compiler lays them out, is a function of its fields. An update records the calls it makes of
-- ESP-IDF and PSA, and what they answer is a function of those before, the record `Esp`. A mutex
-- makes a call one step.
--
-- The loop of transparent mode takes as fuel the number of bytes, of which each round takes one or
-- more; the binary search takes the table's length, which bounds the distance of its ends.
--
-- The loop of the upload takes six rounds for each byte and six more: no more than five timeouts
-- come in a row.
--
-- Not modelled: of airlink_mesh.c the node table, the configuration transactions and the root's side
-- of an update; of airlink_can.c the bus driver and the node table; airlink_wifi.c, airlink_usb.c,
-- airlink_uart.c, airlink_web.c, the factory test over BLE, the LED and the board, which are drivers,
-- sockets and tasks around ESP-IDF; the JSON of the mesh configuration; logging, the generated DSDL code and
-- the vendored libcanard. Checks of pointers for NULL are left out.
pub mod Base
pub mod Can
pub mod Config
pub mod Crc
pub mod Mavlink
pub mod Mesh
pub mod MeshConfig
pub mod MeshNode
pub mod Ota
pub mod Router
pub mod Stream
