-- ===== src/Lib.antt =====
-- HiRodrop: a verification library for a desktop program that sends and receives files by Quick Share.
--
-- A peer is found by mDNS (src/quick_share.rs advertises, src/quick_share_discovery.rs browses,
-- src/quick_share_qr.rs recognises the phone that scanned a QR code). The two sides then exchange frames
-- over TCP (src/quick_share_transport.rs) whose contents are protobuf messages
-- (src/quick_share_wire.rs). A UKEY2 handshake gives both of them session keys and a PIN, and every
-- later frame is encrypted and numbered (src/quick_share_crypto.rs). Over this channel the
-- sender (src/quick_share_sender.rs) introduces its files and sends them in chunks, and the receiver
-- (src/quick_share_receiver.rs) puts messages and files together and saves them.
--
-- Files and code:
-- - Prelude: shared types and lemmas. Int has `i32` and `i64` values as integers over the native numbers,
--   Results has `Result` with `?` as bind, Exec has functions on `&mut` state that may fail, Map has
--   `HashMap<i64, V>`, Utf8 has text as a list of scalar values with its encoding.
-- - Wire: the messages of src/quick_share_wire.rs, a record for each struct and a data type for each
--   enumeration, whose `Enumeration` instance holds the numbers. Wire.Codec is what the models ask of prost.
-- - Transport: `read_frame` and `write_frame` on a stream. Frames is about one frame, Sequences about many.
-- - Crypto: Handshake (`Ukey2Initiator`, `Ukey2Responder`), PublicKeys, Keys (`derive_session_keys`), Pin
--   (`pin_code`), Envelope and Channel (`SecureChannel`).
-- - Discovery: EndpointId and Advertisement (src/quick_share.rs), Visible (the browser's decoder), QrRecords
--   and Qr (`endpoint_if_token_matches`), QrSession (`QuickShareQrSession`), Service (`socket_addresses`)
--   and Browser (`device_from_service`, `poll`).
-- - Storage: the file names that the receiver accepts (Names), paths (FilePath), the calls of std::fs (Disk),
--   `safe_parent_directory` (Parents) and `unique_destination` (Destination).
-- - Session: what both sides do with an encrypted channel over a stream, for either type of errors
--   (`send_encrypted_offline`, `read_encrypted_offline`, keep-alives), and the loop that reads frames.
-- - Receiver: Requests (`parse_connection_request`), Assembler (`BytesAssembler`), Session
--   (`read_next_sharing_frame` and the messages that it sends), Offer (`transfer_offer`), Pending
--   (`PendingTransfer`: Prepare is `prepare`, Chunk the chunks of its files, Texts `receive_text` and
--   `cleanup_parts`), Transfer (`receive_all`), and Introduction and Connection (`receive_connection`).
-- - Sender: Connection (the connection request), Selection (`collect_selected_path`), Preparation
--   (`prepare_files`), Files (the chunks of an outgoing file), Assembler (the sender's own
--   `BytesAssembler`), Session (its messages), Sending (the loop over the files, with
--   `acknowledge_pending_peer_frames`), Closing (`finalize_transfer`), Delivery
--   (`send_prepared_files`) and Entry (`send_files_via_qr_cancelable`, `send_files_to_device`).
-- - Samples and Tests: concrete stand-ins for the crates, and each result at a concrete input; Tests.Connection
--   has a whole connection, with what the sender's functions write as the receiver's input.
--
-- Names: a Rust item keeps its name. A method named alike on two types has the type's role behind it, as in
-- `complete_initiator` and `complete_responder`. Mutable state is passed on explicitly, and comes back
-- beside an error too, since what was done before a failure stays done.
--
-- Parameters: prost, sha2, hkdf, hmac, aes with cbc, p256, base64 and aes-gcm are records of functions with
-- those crates' promises (Crypto.Primitives, Wire.Codec, Discovery.External, Discovery.QrSession). A session
-- draws its random bytes and numbers from a source that is read draw by draw (Session.Random); elsewhere
-- random bytes, IVs and secret keys are arguments. The disk is a map from paths to nodes with the paths
-- whose metadata cannot be read and a list of the faults that the next calls meet, each with how much a
-- failing write has written; what a link leads to is not on the map. The stream is what the peer has sent,
-- with the error that ends it. The user's consent is a list of rounds without an answer and then a decision.
-- What the socket answers to a look at it, what reading a file returns, what `create_dir_all` does for the
-- download directory, what `symlink_metadata` says, and the events of mdns-sd are arguments as well.
--
-- Bounds and fuel: lengths that Rust holds in a `usize` are plain numbers, since memory bounds them; sums that
-- the code checks (`checked_add` of `i32` and `u64`, `saturating_add`, `as i64`) are written out. The record
-- loops of Discovery.QrRecords have the length of their input as fuel, which is enough because each
-- step drops at least two bytes. `decimal` has fuel for the twenty digits of a `u64`, and the search of
-- `unique_destination` has the 2 ^ 32 - 2 steps of its loop. A loop over the frames of a channel
-- (`read_next_sharing_frame`, `receive_all`, `finalize_transfer`) has one round more than there are bytes to
-- read, which is enough because a round that goes on has read at least four of them. The search for a
-- new id has the number of its draws as fuel, and says so when it runs out; the wait for the phone is
-- given its rounds. All other loops are structural.
--
-- Not modelled: mdns-sd's daemon, the listener of the receiver and the timeouts of sockets (I/O of std),
-- the settings, and the desktop window.
pub mod Prelude
pub mod Wire
pub mod Transport
pub mod Crypto
pub mod Discovery
pub mod Storage
pub mod Receiver
pub mod Session
pub mod Sender
pub mod Samples
pub mod Tests
