-- ===== src/Receiver/Assembler/Bounded.antt =====
-- What `BytesAssembler` of src/quick_share_receiver.rs holds and hands out.
use hi_rodrop.Prelude.{
  ℕ, ◌≤◌, ◌+◌, ◌≡◌, refl, inl, inr, some, none, arith, length, ltb, ◌++◌, unwrap_or, ok, Bool-cases,
  Option-cases, Result-cases, length-append, ◌∙◌,
}
use hi_rodrop.Prelude.Int.{ℤ, pos, is_value, ==ℤ_refl}
use hi_rodrop.Prelude.Bytes.{Bytes}
use hi_rodrop.Prelude.Map.{
  Map, lookup, AllValues, AllValues-insert, AllValues-remove, AllValues-lookup, lookup-remove,
}
use hi_rodrop.Wire.{PayloadTransferFrame, PayloadChunk}
use hi_rodrop.Transport.{max_wire_frame_bytes}
use hi_rodrop.Receiver.Assembler.{
  BytesAssembler, buffer_of, complete, finish, extend, push_chunk, read_transfer, push, is_last,
}

abbrev Fits : Bytes → Type 0
Fits b = length b ≤ max_wire_frame_bytes

-- Every buffer under way fits into one wire frame.
abbrev pub IsBounded : BytesAssembler → Type 0
IsBounded s = AllValues Fits s.buffers

finish-IsBounded :
    (id : ℤ) (total : ℕ) (flags : ℤ) (buffer : Bytes) (m : Map Bytes)
    → Fits buffer
    → AllValues Fits m
    → IsBounded (finish id total flags buffer m).1
unfolding finish complete
finish-IsBounded id total flags buffer m b h = elim (Bool-cases (is_last flags)) [
  | inl e ↦ rw e (AllValues-remove Fits id m h)
  | inr e ↦ rw e (AllValues-insert Fits id buffer m b h)
]

extend-IsBounded :
    (id : ℤ) (total : ℕ) (chunk : PayloadChunk) (buffer : Bytes) (m : Map Bytes)
    → total ≤ max_wire_frame_bytes
    → Fits buffer
    → AllValues Fits m
    → IsBounded (extend id total chunk buffer m).1
unfolding extend
extend-IsBounded id total chunk buffer m t b h = elim (Option-cases chunk.body) [
  | inl e ↦ rw e (finish-IsBounded id total (unwrap_or chunk.flags (pos 0)) buffer m b h)
  | inr (body, e) ↦ elim (Bool-cases (ltb total (length buffer + length body))) [
    | inl l ↦ rw (e, l) (AllValues-insert Fits id buffer m b h)
    | inr l ↦
        rw (e, l)
          (finish-IsBounded id total (unwrap_or chunk.flags (pos 0)) (buffer ++ body) m
            (ground (arith, length-append buffer body)) h)
  ]
]

buffer_of-Fits : (id : ℤ) (m : Map Bytes) → AllValues Fits m → Fits (buffer_of id m)
buffer_of-Fits id m h = elim (Option-cases (lookup id m)) [
  | inl e ↦ rw e (omega arith)
  | inr (b, e) ↦ rw e (AllValues-lookup Fits id b m e h)
]

push_chunk-IsBounded :
    (id : ℤ) (total : ℕ) (chunk : PayloadChunk) (s : BytesAssembler)
    → total ≤ max_wire_frame_bytes
    → IsBounded s
    → IsBounded (push_chunk id total chunk s).1
unfolding push_chunk
push_chunk-IsBounded id total chunk s t h =
    elim (Bool-cases (is_value chunk.offset (pos (length (buffer_of id s.buffers))))) [
      | inl e ↦ rw e (
          extend-IsBounded id total chunk (buffer_of id s.buffers) s.buffers t
            (buffer_of-Fits id s.buffers h) h)
      | inr e ↦ rw e (AllValues-remove Fits id s.buffers h)
    ]

read_transfer-total :
    (transfer : PayloadTransferFrame) (id : ℤ) (total : ℕ) (chunk : PayloadChunk)
    → read_transfer transfer ≡ ok (id, total, chunk)
    → total ≤ max_wire_frame_bytes
unfolding read_transfer
read_transfer-total transfer id total chunk h = ground arith

-- No transfer, valid or not, makes a buffer grow beyond one wire frame: `push` keeps the bound on
-- every branch.
pub push-IsBounded :
    (transfer : PayloadTransferFrame) (s : BytesAssembler)
    → IsBounded s
    → IsBounded (push transfer s).1
unfolding push
push-IsBounded transfer s h = elim (Result-cases (read_transfer transfer)) [
  | inl ((id, total, chunk), e) ↦
      rw e (push_chunk-IsBounded id total chunk s (read_transfer-total transfer id total chunk e) h)
  | inr (x, e) ↦ rw e h
]

complete-value :
    (id : ℤ) (total : ℕ) (buffer : Bytes) (m : Map Bytes) (j : ℤ) (bytes : Bytes)
    (t : BytesAssembler)
    → complete id total buffer m ≡ (ok (some (j, bytes)), t)
    → (j ≡ id) × (length bytes ≡ total) × (lookup j t.buffers ≡ none)
unfolding complete
complete-value id total buffer m j bytes t h = ground (arith, lookup-remove id id m, ==ℤ_refl id)

finish-value :
    (id : ℤ) (total : ℕ) (flags : ℤ) (buffer : Bytes) (m : Map Bytes) (j : ℤ) (bytes : Bytes)
    (t : BytesAssembler)
    → finish id total flags buffer m ≡ (ok (some (j, bytes)), t)
    → (j ≡ id) × (length bytes ≡ total) × (lookup j t.buffers ≡ none)
unfolding finish
finish-value id total flags buffer m j bytes t h = elim (Bool-cases (is_last flags)) [
  | inl e ↦ complete-value id total buffer m j bytes t (rw e at h)
  | inr e ↦ ground arith
]

extend-value :
    (id : ℤ) (total : ℕ) (chunk : PayloadChunk) (buffer : Bytes) (m : Map Bytes) (j : ℤ)
    (bytes : Bytes) (t : BytesAssembler)
    → extend id total chunk buffer m ≡ (ok (some (j, bytes)), t)
    → (j ≡ id) × (length bytes ≡ total) × (lookup j t.buffers ≡ none)
unfolding extend
extend-value id total chunk buffer m j bytes t h = elim (Option-cases chunk.body) [
  | inl e ↦ finish-value id total (unwrap_or chunk.flags (pos 0)) buffer m j bytes t (rw e at h)
  | inr (body, e) ↦ elim (Bool-cases (ltb total (length buffer + length body))) [
    | inl l ↦ ground arith
    | inr l ↦
        finish-value id total (unwrap_or chunk.flags (pos 0)) (buffer ++ body) m j bytes t
          (rw (e, l) at h)
  ]
]

push_chunk-value :
    (id : ℤ) (total : ℕ) (chunk : PayloadChunk) (s : BytesAssembler) (j : ℤ) (bytes : Bytes)
    (t : BytesAssembler)
    → push_chunk id total chunk s ≡ (ok (some (j, bytes)), t)
    → (j ≡ id) × (length bytes ≡ total) × (lookup j t.buffers ≡ none)
unfolding push_chunk
push_chunk-value id total chunk s j bytes t h =
    elim (Bool-cases (is_value chunk.offset (pos (length (buffer_of id s.buffers))))) [
      | inl e ↦ extend-value id total chunk (buffer_of id s.buffers) s.buffers j bytes t (rw e at h)
      | inr e ↦ ground arith
    ]

-- A message that `push` hands out has the length and the id that its last transfer declares, at most
-- one wire frame of bytes, and its buffer is gone.
pub push-value :
    (transfer : PayloadTransferFrame) (s t : BytesAssembler) (j : ℤ) (bytes : Bytes)
    → push transfer s ≡ (ok (some (j, bytes)), t)
    → (chunk : PayloadChunk) × (read_transfer transfer ≡ ok (j, length bytes, chunk))
      × (length bytes ≤ max_wire_frame_bytes)
      × (lookup j t.buffers ≡ none)
unfolding push
push-value transfer s t j bytes h = elim (Result-cases (read_transfer transfer)) [
  | inl ((id, total, chunk), e) ↦
      let v : (j ≡ id) × (length bytes ≡ total) × (lookup j t.buffers ≡ none) =
        push_chunk-value id total chunk s j bytes t (rw e at h) in
      (chunk, e ∙ rw (v.0, v.1) refl, rw v.1 (read_transfer-total transfer id total chunk e), v.2)
  | inr (x, e) ↦ absurd (ground (arith, rw e at h))
]
