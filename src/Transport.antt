-- ===== src/Transport.antt =====
-- src/quick_share_transport.rs: frames of a TCP stream, each behind its length as four big-endian
-- bytes. The stream stands for the `TcpStream` of std: the bytes that the peer has sent and that are
-- not read, how the wait for more of them ends, the bytes written, and what a write meets.
pub mod Frames
pub mod Sequences
use hi_rodrop.Prelude.{
  ℕ, ◌*◌, Bool, true, false, Option, none, some, List, [], ◌∷◌, ◌++◌, ◌||◌, ltb, leb, ◌==◌,
  if◌then◌else◌, Result, ok, err, length, take, drop,
}
use hi_rodrop.Prelude.Bytes.{Bytes, to_be_bytes, from_be_bytes}
use hi_rodrop.Prelude.Exec.{Exec, pure, raise, ◌>>=◌, ◌>>◌}

abbrev pub max_wire_frame_bytes : ℕ
max_wire_frame_bytes = 5 * 1024 * 1024

-- The variants of `std::io::ErrorKind` that the program names, and the rest.
pub data ErrorKind : Type 0 where
  unexpected_eof connection_reset connection_aborted broken_pipe : ErrorKind
  would_block timed_out interrupted not_found other : ErrorKind

pub data FrameIoError : Type 0 where
  io : ErrorKind → FrameIoError
  invalid_length : ℕ → FrameIoError

abbrev pub kind_is_disconnect : ErrorKind → Bool
kind_is_disconnect ErrorKind.unexpected_eof = true
kind_is_disconnect ErrorKind.connection_reset = true
kind_is_disconnect ErrorKind.connection_aborted = true
kind_is_disconnect ErrorKind.broken_pipe = true
kind_is_disconnect _ = false

unfoldable pub is_peer_disconnect : FrameIoError → Bool
is_peer_disconnect (FrameIoError.io kind) = kind_is_disconnect kind
is_peer_disconnect (FrameIoError.invalid_length n) = false

pub record Stream : Type 0 where
  pub input : Bytes
  pub ending : ErrorKind
  pub output : Bytes
  pub write_fault : Option ErrorKind

-- `Read::read_exact`: all the bytes asked for, or the error that ends the wait.
unfoldable pub read_exact : ℕ → Exec Stream FrameIoError Bytes
read_exact n s =
    if leb n (length s.input)
    then (ok (take n s.input), record s { input = drop n s.input })
    else (err (FrameIoError.io s.ending), record s { input = [] })

-- `Write::write_all`, and `flush` behind it
unfoldable pub write_all : Bytes → Exec Stream FrameIoError (Unit {0})
write_all bytes s = elim s.write_fault [
  | none ↦ (ok tt, record s { output = s.output ++ bytes })
  | some kind ↦ (err (FrameIoError.io kind), s)
]

abbrev pub prefix_length : Bytes → ℕ
prefix_length (a ∷ b ∷ c ∷ d ∷ _) = from_be_bytes a b c d
prefix_length _ = 0

unfoldable pub read_frame : Exec Stream FrameIoError Bytes
unfolding read_exact
read_frame = do
  prefix ← read_exact 4
  let length' = prefix_length prefix
  if length' == 0 || ltb max_wire_frame_bytes length'
      then raise (FrameIoError.invalid_length length')
      else read_exact length'

unfoldable pub write_frame : Bytes → Exec Stream FrameIoError (Unit {0})
unfolding write_all
write_frame frame =
    if length frame == 0 || ltb max_wire_frame_bytes (length frame)
    then raise (FrameIoError.invalid_length (length frame))
    else (do write_all (to_be_bytes (length frame)); write_all frame)
