-- ===== src/Sender/Assembler/Growth.antt =====
-- What `BytesAssembler` of src/quick_share_sender.rs keeps of a payload that does not end.
use hi_rodrop.Prelude.{
  ℕ, ◌≤◌, ◌+◌, ◌≡◌, refl, sym, ◌∙◌, none, some, Option, List, [], ◌∷◌, ◌++◌, ok, arith, length,
  length-append, le→ltb, ==_iff, Result,
}
use mathlib.Core.Path.{subst}
use mathlib.Core.List.{append_assoc, append-nil}
use hi_rodrop.Prelude.Int.{ℤ, pos, ==ℤ_refl}
use hi_rodrop.Prelude.Bytes.{Bytes}
use hi_rodrop.Prelude.Exec.{Exec, pure, ◌>>=◌}
use hi_rodrop.Prelude.Map.{Map, lookup, insert, lookup-insert}
use hi_rodrop.Wire.{PayloadTransferFrame}
use hi_rodrop.Transport.{max_wire_frame_bytes}
use hi_rodrop.Receiver.Assembler.{buffer_of, data_transfer, body_chunk}
use hi_rodrop.Receiver.Assembler.Reassembly.{concat}
use hi_rodrop.Sender.Errors.{SendError}
use hi_rodrop.Sender.Assembler.{BytesAssembler, finish, push_chunk, read_transfer, push}

-- Chunks in order of which none is the last.
unfoldable pub open_transfers : ℤ → ℕ → ℕ → List Bytes → List PayloadTransferFrame
open_transfers id total offset [] = []
open_transfers id total offset (body ∷ bodies) =
    data_transfer id (pos total) (body_chunk (pos 0) (pos offset) (some body))
    ∷ open_transfers id total (offset + length body) bodies

unfoldable pub push_all : List PayloadTransferFrame → Exec BytesAssembler SendError (Option Bytes)
push_all [] = pure none
push_all (t ∷ ts) = push t >>= λ o. elim o [ none ↦ push_all ts | some v ↦ pure (some v) ]

push-grows :
    (id : ℤ) (total : ℕ) (done body : Bytes) (s : BytesAssembler)
    → buffer_of id s.buffers ≡ done
    → total ≤ max_wire_frame_bytes
    → push (data_transfer id (pos total) (body_chunk (pos 0) (pos (length done)) (some body))) s
      ≡ (ok none, record { buffers = insert id (done ++ body) s.buffers })
unfolding push read_transfer push_chunk finish
push-grows id total done body s e m =
    rw (le→ltb max_wire_frame_bytes total m, e, (==_iff (length done) (length done)).1 refl) refl

push_all-none :
    (t : PayloadTransferFrame) (ts : List PayloadTransferFrame) (s u : BytesAssembler)
    → push t s ≡ (ok none, u)
    → push_all (t ∷ ts) s ≡ push_all ts u
unfolding push_all
push_all-none t ts s u e = rw e refl

lookup-inserted : (id : ℤ) (b : Bytes) (m : Map Bytes) → lookup id (insert id b m) ≡ some b
lookup-inserted id b m = rw (lookup-insert id id b m, ==ℤ_refl id) refl

grow :
    (id : ℤ) (bodies : List Bytes) (total offset : ℕ) (done message : Bytes) (s : BytesAssembler)
    → lookup id s.buffers ≡ some done
    → offset ≡ length done
    → message ≡ done ++ concat bodies
    → total ≤ max_wire_frame_bytes
    → ((push_all (open_transfers id total offset bodies) s).0 ≡ ok none)
      × (lookup id (push_all (open_transfers id total offset bodies) s).1.buffers ≡ some message)
unfolding push_all open_transfers
grow id [] total offset done message s e o w m = (refl, e ∙ rw (w, append-nil done) refl)
grow id (body ∷ bodies) total offset done message s e o w m =
    let u : BytesAssembler = record { buffers = insert id (done ++ body) s.buffers } in
    let first : push (data_transfer id (pos total) (body_chunk (pos 0) (pos offset) (some body))) s
        ≡ (ok none, u) =
      rw o (push-grows id total done body s (rw e refl) m) in
    let rest : ((push_all (open_transfers id total (offset + length body) bodies) u).0 ≡ ok none)
        × (lookup id (push_all (open_transfers id total (offset + length body) bodies) u).1.buffers
            ≡ some message) =
      grow id bodies total (offset + length body) (done ++ body) message u
        (lookup-inserted id (done ++ body) s.buffers) (omega (arith, o, length-append done body))
        (w ∙ sym (append_assoc done body (concat bodies))) m in
    subst
      (λ (r : Result SendError (Option Bytes) × BytesAssembler).
        (r.0 ≡ ok none) × (lookup id r.1.buffers ≡ some message))
      (sym (push_all-none _ (open_transfers id total (offset + length body) bodies) s u first)) rest

-- The buffer of a payload grows without bound: when nothing was buffered under its id, and whatever
-- size of at most one wire frame the transfers declare, every sequence of chunks in order without a
-- last one is taken, and all their bytes are kept, even more than declared.
pub push_all-open_transfers :
    (id : ℤ) (total : ℕ) (body : Bytes) (bodies : List Bytes) (s : BytesAssembler)
    → lookup id s.buffers ≡ none
    → total ≤ max_wire_frame_bytes
    → ((push_all (open_transfers id total 0 (body ∷ bodies)) s).0 ≡ ok none)
      × (lookup id (push_all (open_transfers id total 0 (body ∷ bodies)) s).1.buffers
          ≡ some (concat (body ∷ bodies)))
unfolding open_transfers
push_all-open_transfers id total body bodies s e m =
    let u : BytesAssembler = record { buffers = insert id body s.buffers } in
    let first : push (data_transfer id (pos total) (body_chunk (pos 0) (pos 0) (some body))) s
        ≡ (ok none, u) =
      push-grows id total [] body s (rw e refl) m in
    subst
      (λ (r : Result SendError (Option Bytes) × BytesAssembler).
        (r.0 ≡ ok none) × (lookup id r.1.buffers ≡ some (body ++ concat bodies)))
      (sym (push_all-none _ (open_transfers id total (0 + length body) bodies) s u first))
      (grow id bodies total (0 + length body) body (body ++ concat bodies) u
        (lookup-inserted id body s.buffers) (omega arith) refl m)
