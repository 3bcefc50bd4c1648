-- ===== src/Transport/Sequences.antt =====
-- Whole conversations in one direction: frames written one after the other, and read back.
use hi_rodrop.Prelude.{
  ℕ, zero, suc, ◌≡◌, refl, ap, ◌∙◌, none, List, [], ◌∷◌, ◌++◌, Result, ok, length, All,
}
use mathlib.Core.List.{append_assoc, append-nil}
use hi_rodrop.Prelude.Bytes.{Bytes}
use hi_rodrop.Prelude.Exec.{Exec, pure, ◌>>=◌, ◌>>◌, bind_ok}
use hi_rodrop.Transport.{FrameIoError, Stream, read_frame, write_frame}
use hi_rodrop.Transport.Frames.{framed, IsFrame, write_frame-framed, read_frame-framed}

pub write_frames : List Bytes → Exec Stream FrameIoError (Unit {0})
write_frames [] = pure tt
write_frames (f ∷ fs) = write_frame f >> write_frames fs

pub read_frames : ℕ → Exec Stream FrameIoError (List Bytes)
read_frames zero = pure []
read_frames (suc n) = do f ← read_frame; fs ← read_frames n; pure (f ∷ fs)

abbrev pub wire : List Bytes → Bytes
wire [] = []
wire (f ∷ fs) = framed f ++ wire fs

write_frames-wire :
    (fs : List Bytes) (s : Stream)
    → All IsFrame fs
    → s.write_fault ≡ none
    → write_frames fs s ≡ (ok tt, record s { output = s.output ++ wire fs })
unfolding write_frames
write_frames-wire [] s h e = rw append-nil
write_frames-wire (f ∷ fs) s h e =
    let t : Stream = record s { output = s.output ++ framed f } in
    bind_ok (write_frame f) (λ _. write_frames fs) s t tt (write_frame-framed f s h.0 e)
    ∙ write_frames-wire fs t h.1 e
    ∙ rw (append_assoc s.output (framed f) (wire fs))

read_frames-wire :
    (fs : List Bytes) (rest : Bytes) (s : Stream)
    → All IsFrame fs
    → s.input ≡ wire fs ++ rest
    → read_frames (length fs) s ≡ (ok fs, record s { input = rest })
unfolding read_frames
read_frames-wire [] rest s h e = rw (← e)
read_frames-wire (f ∷ fs) rest s h e =
    let t : Stream = record s { input = wire fs ++ rest } in
    bind_ok read_frame _ s t f
      (read_frame-framed f (wire fs ++ rest) s h.0 (e ∙ append_assoc (framed f) (wire fs) rest))
    ∙ bind_ok (read_frames (length fs)) (λ r. pure (f ∷ r)) t (record s { input = rest }) fs
        (read_frames-wire fs rest t h.1 refl)

-- Frames that one side writes in order, each within the size limit, are read by the other side as
-- the same frames in the same order, and the reader stops exactly behind the last of them.
pub read_frames-write_frames :
    (fs : List Bytes) (rest : Bytes) (sender receiver : Stream)
    → All IsFrame fs
    → sender.output ≡ []
    → sender.write_fault ≡ none
    → receiver.input ≡ (write_frames fs sender).1.output ++ rest
    → ((write_frames fs sender).0 ≡ ok tt)
      × (read_frames (length fs) receiver ≡ (ok fs, record receiver { input = rest }))
read_frames-write_frames fs rest sender receiver h o e i =
    let w = write_frames-wire fs sender h e in
    (
      ap (λ (p : Result FrameIoError (Unit {0}) × Stream). p.0) w,
      read_frames-wire fs rest receiver h
          (i ∙ ap (λ (p : Result FrameIoError (Unit {0}) × Stream). p.1.output ++ rest) w ∙ rw o),
    )
