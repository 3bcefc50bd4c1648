-- ===== src/Tests/Transport.antt =====
-- The properties of the framing at concrete frames.
use hi_rodrop.Prelude.{◌≡◌, refl, none, List, [], ◌∷◌, ◌++◌, ok, arith, take}
use hi_rodrop.Prelude.Bytes.{Bytes}
use hi_rodrop.Transport.{Stream, ErrorKind, prefix_length}
use hi_rodrop.Transport.Frames.{framed, IsFrame, read_frame-framed, read_frame_sound}
use hi_rodrop.Transport.Sequences.{write_frames, read_frames, read_frames-write_frames}

abbrev with_input : Bytes → Stream
with_input input = record {
  input = input;
  ending = ErrorKind.unexpected_eof;
  output = [];
  write_fault = none;
}

abbrev two_frames : List Bytes
two_frames = (7 ∷ 8 ∷ []) ∷ (9 ∷ []) ∷ []

abbrev received : Stream
received = with_input ((write_frames two_frames (with_input [])).1.output ++ (1 ∷ []))

read_frames-write_frames_example :
    ((write_frames two_frames (with_input [])).0 ≡ ok tt)
    × (read_frames 2 received ≡ (ok two_frames, record received { input = 1 ∷ [] }))
read_frames-write_frames_example =
    read_frames-write_frames two_frames (1 ∷ []) (with_input []) received
      ((omega arith, omega arith), ((omega arith, omega arith), tt)) refl refl refl

abbrev one_frame : Stream
one_frame = with_input (framed (7 ∷ 8 ∷ []) ++ (1 ∷ []))

read_frame_sound_example :
    IsFrame (7 ∷ 8 ∷ [])
    × (prefix_length one_frame.input ≡ 2)
    × (one_frame.input ≡ take 4 one_frame.input ++ (7 ∷ 8 ∷ 1 ∷ []))
    × (one_frame.output ≡ [])
read_frame_sound_example =
    read_frame_sound one_frame (with_input (1 ∷ [])) (7 ∷ 8 ∷ [])
      (read_frame-framed (7 ∷ 8 ∷ []) (1 ∷ []) one_frame (omega arith, omega arith) refl)
