-- ===== src/Receiver/Assembler.antt =====
-- `BytesAssembler` of src/quick_share_receiver.rs: the buffers of the byte payloads under way, by
-- payload id; and the two data transfers by which `send_sharing_frame` sends one message.
pub mod Bounded
pub mod Reassembly
use hi_rodrop.Prelude.{
  ℕ, suc, ◌+◌, ◌%◌, Bool, true, false, not, ◌||◌, Option, none, some, List, [], ◌∷◌, ◌++◌, length,
  ltb, ◌==◌, if◌then◌else◌, Result, ok, err, ok_or, unwrap_or,
}
use hi_rodrop.Prelude.Int.{ℤ, pos, negsuc, pos_part, neg_part, is_value}
use hi_rodrop.Prelude.Bytes.{Bytes}
use hi_rodrop.Prelude.Exec.{Exec, lift, ◌>>=◌}
use hi_rodrop.Prelude.Map.{Map, lookup, insert, remove}
use hi_rodrop.Wire.Enumeration.{as_i32}
use hi_rodrop.Wire.{
  PayloadTransferFrame, PayloadHeader, PayloadChunk, PayloadType, PayloadPacketType,
  payload_type_enumeration, payload_packet_type_enumeration,
}
use hi_rodrop.Transport.{max_wire_frame_bytes}
use hi_rodrop.Receiver.Errors.{ReceiveError}

pub record BytesAssembler : Type 0 where
  pub buffers : Map Bytes

abbrev pub new_assembler : BytesAssembler
new_assembler = record { buffers = [] }

abbrev pub last_chunk : ℤ
last_chunk = pos 1

-- `flags & LAST_CHUNK != 0`: the lowest bit, in two's complement
abbrev pub is_last : ℤ → Bool
is_last (pos n) = n % 2 == 1
is_last (negsuc n) = n % 2 == 0

abbrev pub Pushed : Type 0
Pushed = Result ReceiveError (Option (ℤ × Bytes)) × BytesAssembler

-- The last chunk takes the buffer out.
unfoldable pub complete : ℤ → ℕ → Bytes → Map Bytes → Pushed
complete id total buffer m = (
  if length buffer == total
      then ok (some (id, buffer))
      else err (ReceiveError.protocol "incomplete byte payload"),
  record { buffers = remove id m },
)

unfoldable pub finish : ℤ → ℕ → ℤ → Bytes → Map Bytes → Pushed
finish id total flags buffer m =
    if is_last flags
    then complete id total buffer m
    else (ok none, record { buffers = insert id buffer m })

-- `extend_from_slice`, after the test that the declared size is not exceeded
unfoldable pub extend : ℤ → ℕ → PayloadChunk → Bytes → Map Bytes → Pushed
extend id total chunk buffer m = elim chunk.body [
  | none ↦ finish id total (unwrap_or chunk.flags (pos 0)) buffer m
  | some body ↦
      if ltb total (length buffer + length body)
      then (
        err (ReceiveError.protocol "byte payload exceeds declared size"),
        record { buffers = insert id buffer m },
      )
      else finish id total (unwrap_or chunk.flags (pos 0)) (buffer ++ body) m
]

-- `entry(id).or_default()`
abbrev pub buffer_of : ℤ → Map Bytes → Bytes
buffer_of id m = unwrap_or (lookup id m) []

unfoldable pub push_chunk :
    ℤ → ℕ → PayloadChunk → Exec BytesAssembler ReceiveError (Option (ℤ × Bytes))
push_chunk id total chunk s =
    let buffer = buffer_of id s.buffers in
    if is_value chunk.offset (pos (length buffer))
    then extend id total chunk buffer s.buffers
    else (
      err (ReceiveError.protocol "unexpected byte-payload offset"),
      record { buffers = remove id s.buffers },
    )

-- `total < 0 || total as usize > MAX_WIRE_FRAME_BYTES`
abbrev pub is_too_large : ℤ → Bool
is_too_large total = ltb 0 (neg_part total) || ltb max_wire_frame_bytes (pos_part total)

-- What `push` reads of a transfer before it looks at a buffer.
unfoldable pub read_transfer : PayloadTransferFrame → Result ReceiveError (ℤ × ℕ × PayloadChunk)
read_transfer transfer = elim transfer.payload_header [
  | none ↦ err (ReceiveError.protocol "missing payload header")
  | some header ↦ elim transfer.payload_chunk [
    | none ↦ err (ReceiveError.protocol "missing payload chunk")
    | some chunk ↦ elim header.id [
      | none ↦ err (ReceiveError.protocol "missing payload ID")
      | some id ↦ elim header.total_size [
        | none ↦ err (ReceiveError.protocol "missing payload size")
        | some total ↦
            if is_too_large total
            then err (ReceiveError.protocol "byte payload is too large")
            else ok (id, pos_part total, chunk)
      ]
    ]
  ]
]

unfoldable pub push : PayloadTransferFrame → Exec BytesAssembler ReceiveError (Option (ℤ × Bytes))
push transfer = do x ← lift (read_transfer transfer); push_chunk x.0 x.1 x.2

abbrev pub data_transfer : ℤ → ℤ → PayloadChunk → PayloadTransferFrame
data_transfer payload_id total chunk = record {
  packet_type = some (as_i32 PayloadPacketType.data_packet);
  payload_header = some (record {
    id = some payload_id;
    payload_type = some (as_i32 PayloadType.bytes);
    total_size = some total;
    is_sensitive = some false;
    file_name = none;
    parent_folder = none;
    last_modified_timestamp_millis = none;
  });
  payload_chunk = some chunk;
}

abbrev pub body_chunk : ℤ → ℤ → Option Bytes → PayloadChunk
body_chunk flags offset body = record {
  flags = some flags;
  offset = some offset;
  body = body;
  index = none;
}

-- The transfers of one message: its body, then an empty last chunk.
abbrev pub sharing_transfers : ℤ → Bytes → List PayloadTransferFrame
sharing_transfers payload_id body =
    let total = pos (length body) in
    data_transfer payload_id total (body_chunk (pos 0) (pos 0) (some body))
    ∷ data_transfer payload_id total (body_chunk last_chunk total none)
    ∷ []
