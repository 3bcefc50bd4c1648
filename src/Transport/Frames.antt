-- ===== src/Transport/Frames.antt =====
-- One frame of src/quick_share_transport.rs, written and read.
use hi_rodrop.Prelude.{
  ℕ, zero, suc, ◌≤◌, ◌<◌, ◌≡◌, ◌⊎◌, refl, none, List, [], ◌∷◌, ◌++◌, arith, ok, err, length, take,
  drop, length-append, take-append, drop-append, length-take,
}
use mathlib.Core.List.{append_assoc}
use hi_rodrop.Prelude.Bytes.{Bytes, to_be_bytes, from_be_bytes, from_be_bytes-to_be_bytes}
use hi_rodrop.Transport.{
  max_wire_frame_bytes, FrameIoError, Stream, read_exact, read_frame, write_frame, prefix_length,
}

-- What `write_frame` puts on the wire.
abbrev pub framed : Bytes → Bytes
framed frame = to_be_bytes (length frame) ++ frame

abbrev pub IsFrame : Bytes → Type 0
IsFrame frame = (0 < length frame) × (length frame ≤ max_wire_frame_bytes)

pub write_frame-framed :
    (frame : Bytes) (s : Stream)
    → IsFrame frame
    → s.write_fault ≡ none
    → write_frame frame s ≡ (ok tt, record s { output = s.output ++ framed frame })
unfolding write_frame
write_frame-framed frame s h e =
    ground (arith, append_assoc s.output (to_be_bytes (length frame)) frame)

pub read_exact-append :
    (front rest : Bytes) (s : Stream)
    → s.input ≡ front ++ rest
    → read_exact (length front) s ≡ (ok front, record s { input = rest })
unfolding read_exact
read_exact-append front rest s e =
    rw e (ground (arith, length-append front rest, take-append front rest, drop-append front rest))

-- A frame that was written is the frame that is read, and what follows it on the wire is left.
pub read_frame-framed :
    (frame rest : Bytes) (s : Stream)
    → IsFrame frame
    → s.input ≡ framed frame ++ rest
    → read_frame s ≡ (ok frame, record s { input = rest })
unfolding read_frame
read_frame-framed frame rest s h e = ground (
  arith,
  read_exact-append (to_be_bytes (length frame)) (frame ++ rest) s,
  read_exact-append frame rest (record s { input = frame ++ rest }),
  from_be_bytes-to_be_bytes (length frame),
)

take-append-drop {ℓ} : {A : Type ℓ} (n : ℕ) (xs : List A) → take n xs ++ drop n xs ≡ xs
take-append-drop zero xs = refl
take-append-drop (suc n) [] = refl
take-append-drop (suc n) (x ∷ xs) = rw (take-append-drop n xs)

read_exact_sound :
    (n : ℕ) (s t : Stream) (front : Bytes)
    → read_exact n s ≡ (ok front, t)
    → (n ≤ length s.input) × (front ≡ take n s.input) × (t ≡ record s { input = drop n s.input })
unfolding read_exact
read_exact_sound n s t front e = ground arith

prefix_length-take : (xs : Bytes) → prefix_length (take 4 xs) ≡ prefix_length xs
prefix_length-take (a ∷ b ∷ c ∷ d ∷ xs) = refl
prefix_length-take (a ∷ b ∷ c ∷ []) = refl
prefix_length-take (a ∷ b ∷ []) = refl
prefix_length-take (a ∷ []) = refl
prefix_length-take [] = refl

-- Whatever the peer sends, a frame that is read has 1 byte to 5 MiB and stands on the wire behind
-- four bytes that say its length; what follows it on the wire is left and the output is kept.
pub read_frame_sound :
    (s t : Stream) (frame : Bytes)
    → read_frame s ≡ (ok frame, t)
    → IsFrame frame
      × (prefix_length s.input ≡ length frame)
      × (s.input ≡ take 4 s.input ++ (frame ++ t.input))
      × (t.output ≡ s.output)
unfolding read_frame
read_frame_sound s t frame e =
    let body = drop 4 s.input in
    ground (
      arith,
      prefix_length-take s.input,
      read_exact_sound (prefix_length (take 4 s.input)) (record s { input = body }) t frame,
      length-take (prefix_length s.input) body,
      take-append-drop 4 s.input,
      take-append-drop (prefix_length s.input) body,
    )

-- A length of 0 or above 5 MiB is refused when four bytes have been read, and none of the body.
pub read_frame_invalid :
    (a b c d : ℕ) (body : Bytes) (s : Stream)
    → s.input ≡ a ∷ b ∷ c ∷ d ∷ body
    → ((from_be_bytes a b c d ≡ 0) ⊎ (max_wire_frame_bytes < from_be_bytes a b c d))
    → read_frame s
      ≡ (err (FrameIoError.invalid_length (from_be_bytes a b c d)), record s { input = body })
unfolding read_frame
read_frame_invalid a b c d body s e h =
    ground (arith, read_exact-append (a ∷ b ∷ c ∷ d ∷ []) body s)
