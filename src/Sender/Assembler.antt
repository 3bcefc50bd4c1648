-- ===== src/Sender/Assembler.antt =====
-- `BytesAssembler` of src/quick_share_sender.rs. It hands out the bytes alone, and takes a body without a
-- test of the declared size.
pub mod Growth
use hi_rodrop.Prelude.{
  ℕ, ◌||◌, Option, none, some, List, [], ◌∷◌, ◌++◌, length, ltb, ◌==◌, if◌then◌else◌, Result, ok,
  err, unwrap_or,
}
use hi_rodrop.Prelude.Int.{ℤ, pos, pos_part, is_value}
use hi_rodrop.Prelude.Bytes.{Bytes}
use hi_rodrop.Prelude.Exec.{Exec, lift, ◌>>=◌}
use hi_rodrop.Prelude.Map.{Map, insert, remove}
use hi_rodrop.Wire.{PayloadTransferFrame, PayloadChunk}
use hi_rodrop.Receiver.Assembler.{is_last, buffer_of, is_too_large}
use hi_rodrop.Sender.Errors.{SendError}

pub record BytesAssembler : Type 0 where
  pub buffers : Map Bytes

abbrev pub new_assembler : BytesAssembler
new_assembler = record { buffers = [] }

abbrev pub Pushed : Type 0
Pushed = Result SendError (Option Bytes) × BytesAssembler

unfoldable pub complete : ℤ → ℕ → Bytes → Map Bytes → Pushed
complete id total buffer m = (
  if length buffer == total
      then ok (some buffer)
      else err (SendError.protocol "incomplete byte payload"),
  record { buffers = remove id m },
)

unfoldable pub finish : ℤ → ℕ → ℤ → Bytes → Map Bytes → Pushed
finish id total flags buffer m =
    if is_last flags
    then complete id total buffer m
    else (ok none, record { buffers = insert id buffer m })

unfoldable pub push_chunk : ℤ → ℕ → PayloadChunk → Exec BytesAssembler SendError (Option Bytes)
push_chunk id total chunk s =
    let buffer = buffer_of id s.buffers in
    if is_value chunk.offset (pos (length buffer))
    then finish id total (unwrap_or chunk.flags (pos 0)) (buffer ++ unwrap_or chunk.body [])
        s.buffers
    else (
      err (SendError.protocol "unexpected byte payload offset"),
      record { buffers = remove id s.buffers },
    )

unfoldable pub read_transfer : PayloadTransferFrame → Result SendError (ℤ × ℕ × PayloadChunk)
read_transfer transfer = elim transfer.payload_header [
  | none ↦ err (SendError.protocol "missing payload header")
  | some header ↦ elim transfer.payload_chunk [
    | none ↦ err (SendError.protocol "missing payload chunk")
    | some chunk ↦ elim header.id [
      | none ↦ err (SendError.protocol "missing payload ID")
      | some id ↦ elim header.total_size [
        | none ↦ err (SendError.protocol "missing payload size")
        | some total ↦
            if is_too_large total
            then err (SendError.protocol "byte payload is too large")
            else ok (id, pos_part total, chunk)
      ]
    ]
  ]
]

unfoldable pub push : PayloadTransferFrame → Exec BytesAssembler SendError (Option Bytes)
push transfer = do x ← lift (read_transfer transfer); push_chunk x.0 x.1 x.2
