-- ===== src/Receiver/Assembler/Reassembly.antt =====
-- A message sent in pieces comes out of `BytesAssembler` of src/quick_share_receiver.rs whole.
use hi_rodrop.Prelude.{
  ℕ, ◌≤◌, ◌+◌, ◌≡◌, refl, ◌∙◌, some, none, arith, length, ◌++◌, [], ◌∷◌, List, Option, ok,
  length-append, if◌then◌else◌, le→ltb, ==_iff, Result, sym, ap,
}
use mathlib.Core.Path.{subst}
use mathlib.Core.List.{append_assoc, append-nil}
use hi_rodrop.Prelude.Int.{ℤ, pos, ◌==ℤ◌, ==ℤ_refl}
use hi_rodrop.Prelude.Bytes.{Bytes}
use hi_rodrop.Prelude.Exec.{Exec, pure, ◌>>=◌}
use hi_rodrop.Prelude.Map.{Map, lookup, insert, remove, lookup-insert, lookup-remove}
use hi_rodrop.Wire.{PayloadTransferFrame}
use hi_rodrop.Transport.{max_wire_frame_bytes}
use hi_rodrop.Receiver.Errors.{ReceiveError}
use hi_rodrop.Receiver.Assembler.{
  BytesAssembler, buffer_of, complete, finish, extend, push_chunk, read_transfer, push,
  data_transfer, body_chunk, last_chunk, sharing_transfers,
}

-- Any cut of a message into bodies, with an empty last chunk.
unfoldable pub chunk_transfers : ℤ → ℕ → ℕ → List Bytes → List PayloadTransferFrame
chunk_transfers id total offset [] =
    data_transfer id (pos total) (body_chunk last_chunk (pos offset) none) ∷ []
chunk_transfers id total offset (body ∷ bodies) =
    data_transfer id (pos total) (body_chunk (pos 0) (pos offset) (some body))
    ∷ chunk_transfers id total (offset + length body) bodies

abbrev pub concat : List Bytes → Bytes
concat [] = []
concat (b ∷ bs) = b ++ concat bs

-- The first message that is whole ends it, as in `read_next_sharing_frame`.
unfoldable pub push_all :
    List PayloadTransferFrame → Exec BytesAssembler ReceiveError (Option (ℤ × Bytes))
push_all [] = pure none
push_all (t ∷ ts) = push t >>= λ o. elim o [ none ↦ push_all ts | some v ↦ pure (some v) ]

pub push-extends :
    (id : ℤ) (total : ℕ) (done body : Bytes) (s : BytesAssembler)
    → buffer_of id s.buffers ≡ done
    → length done + length body ≤ total
    → total ≤ max_wire_frame_bytes
    → push (data_transfer id (pos total) (body_chunk (pos 0) (pos (length done)) (some body))) s
      ≡ (ok none, record { buffers = insert id (done ++ body) s.buffers })
unfolding push read_transfer push_chunk extend finish
push-extends id total done body s e h m =
    rw
      (
        le→ltb max_wire_frame_bytes total m,
        e,
        (==_iff (length done) (length done)).1 refl,
        le→ltb total (length done + length body) h,
      )
      refl

push-completes :
    (id : ℤ) (done : Bytes) (s : BytesAssembler)
    → buffer_of id s.buffers ≡ done
    → length done ≤ max_wire_frame_bytes
    → push (data_transfer id (pos (length done)) (body_chunk last_chunk (pos (length done)) none)) s
      ≡ (ok (some (id, done)), record { buffers = remove id s.buffers })
unfolding push read_transfer push_chunk extend finish complete
push-completes id done s e m =
    rw (le→ltb max_wire_frame_bytes (length done) m, e, (==_iff (length done) (length done)).1 refl)
      refl

-- The sender's last chunk has an empty body.
pub push-completes_empty :
    (id : ℤ) (done : Bytes) (s : BytesAssembler)
    → buffer_of id s.buffers ≡ done
    → length done ≤ max_wire_frame_bytes
    → push
        (data_transfer id (pos (length done)) (body_chunk last_chunk (pos (length done)) (some [])))
        s
      ≡ (ok (some (id, done)), record { buffers = remove id s.buffers })
unfolding push read_transfer push_chunk extend finish complete
push-completes_empty id done s e m =
    rw
      (
        le→ltb max_wire_frame_bytes (length done) m,
        e,
        (==_iff (length done) (length done)).1 refl,
        le→ltb (length done) (length done + 0) (omega arith),
        append-nil done,
        (==_iff (length done) (length done)).1 refl,
      )
      refl

-- The message is handed out, and no other buffer has changed.
abbrev IsHandedOut :
    ℤ → Bytes → BytesAssembler → Result ReceiveError (Option (ℤ × Bytes)) × BytesAssembler → Type 0
IsHandedOut id message s r =
    (r.0 ≡ ok (some (id, message)))
    × ((j : ℤ) → lookup j r.1.buffers ≡ (if id ==ℤ j then none else lookup j s.buffers))

lookup-reinserted :
    (id j : ℤ) (b : Bytes) (m : Map Bytes) (o : Option Bytes)
    → o ≡ (if id ==ℤ j then none else lookup j (insert id b m))
    → o ≡ (if id ==ℤ j then none else lookup j m)
lookup-reinserted id j b m o h = ground (arith, lookup-insert id j b m)

pub buffer_of-insert : (id : ℤ) (b : Bytes) (m : Map Bytes) → buffer_of id (insert id b m) ≡ b
buffer_of-insert id b m = rw (lookup-insert id id b m, ==ℤ_refl id) refl

push_all-none :
    (t : PayloadTransferFrame) (ts : List PayloadTransferFrame) (s u : BytesAssembler)
    → push t s ≡ (ok none, u)
    → push_all (t ∷ ts) s ≡ push_all ts u
unfolding push_all
push_all-none t ts s u e = rw e refl

fits_rest :
    (done body rest message : Bytes) (total : ℕ)
    → message ≡ done ++ (body ++ rest)
    → total ≡ length message
    → length done + length body ≤ total
fits_rest done body rest message total w t =
    omega (arith, t, ap length w, length-append done (body ++ rest), length-append body rest)

reassemble :
    (id : ℤ) (bodies : List Bytes) (total offset : ℕ) (done message : Bytes) (s : BytesAssembler)
    → buffer_of id s.buffers ≡ done
    → offset ≡ length done
    → message ≡ done ++ concat bodies
    → total ≡ length message
    → total ≤ max_wire_frame_bytes
    → IsHandedOut id message s (push_all (chunk_transfers id total offset bodies) s)
unfolding push_all chunk_transfers
reassemble id [] total offset done message s e o w t m =
    let whole : message ≡ done = w ∙ append-nil done in
    rw (t, o, whole, push-completes id done s e (rw (sym whole, sym t) m))
      (refl, λ j. lookup-remove id j s.buffers)
reassemble id (body ∷ bodies) total offset done message s e o w t m =
    let u : BytesAssembler = record { buffers = insert id (done ++ body) s.buffers } in
    let first : push (data_transfer id (pos total) (body_chunk (pos 0) (pos offset) (some body))) s
        ≡ (ok none, u) =
      rw o (
        push-extends id total done body s e (fits_rest done body (concat bodies) message total w t)
          m) in
    let rest : IsHandedOut id message u
        (push_all (chunk_transfers id total (offset + length body) bodies) u) =
      reassemble id bodies total (offset + length body) (done ++ body) message u
        (buffer_of-insert id (done ++ body) s.buffers) (omega (arith, o, length-append done body))
        (w ∙ sym (append_assoc done body (concat bodies))) t m in
    subst (IsHandedOut id message s)
      (sym (push_all-none _ (chunk_transfers id total (offset + length body) bodies) s u first))
      (rest.0, λ j. lookup-reinserted id j (done ++ body) s.buffers _ (rest.1 j))

-- A message of at most one wire frame, cut into any pieces and sent in order with an empty last chunk,
-- comes out whole and under its id when nothing was buffered under that id; its buffer is then
-- gone and the buffers of all other payloads are as before.
pub push_all-chunk_transfers :
    (id j : ℤ) (bodies : List Bytes) (s : BytesAssembler)
    → lookup id s.buffers ≡ none
    → length (concat bodies) ≤ max_wire_frame_bytes
    → ((push_all (chunk_transfers id (length (concat bodies)) 0 bodies) s).0
        ≡ ok (some (id, concat bodies)))
      × (lookup j (push_all (chunk_transfers id (length (concat bodies)) 0 bodies) s).1.buffers
          ≡ (if id ==ℤ j then none else lookup j s.buffers))
push_all-chunk_transfers id j bodies s e m =
    let r : IsHandedOut id (concat bodies) s
        (push_all (chunk_transfers id (length (concat bodies)) 0 bodies) s) =
      reassemble id bodies (length (concat bodies)) 0 [] (concat bodies) s (rw e refl) refl refl
        refl m in
    (r.0, r.1 j)

sharing_transfers_one :
    (id : ℤ) (body : Bytes)
    → chunk_transfers id (length body) 0 (body ∷ []) ≡ sharing_transfers id body
unfolding chunk_transfers
sharing_transfers_one id body =
    let plain : 0 + length body ≡ length body = omega arith in rw plain refl

-- What `send_sharing_frame` sends for a body of at most one wire frame, the receiver's assembler
-- hands out as that body, when nothing was buffered under its id.
pub push_all-sharing_transfers :
    (payload_id : ℤ) (body : Bytes) (s : BytesAssembler)
    → lookup payload_id s.buffers ≡ none
    → length body ≤ max_wire_frame_bytes
    → (push_all (sharing_transfers payload_id body) s).0 ≡ ok (some (payload_id, body))
push_all-sharing_transfers payload_id body s e m =
    subst (λ ts. (push_all ts s).0 ≡ ok (some (payload_id, body)))
      (sharing_transfers_one payload_id body)
      (reassemble payload_id (body ∷ []) (length body) 0 [] body s (rw e refl) refl
        (sym (append-nil body)) refl m).0
