-- ===== src/Tests/Sender.antt =====
-- The growth of the sender's buffers at a concrete payload.
use hi_rodrop.Prelude.{◌≡◌, refl, none, some, List, [], ◌∷◌, ok, arith}
use hi_rodrop.Prelude.Int.{pos}
use hi_rodrop.Prelude.Bytes.{Bytes}
use hi_rodrop.Prelude.Map.{lookup}
use hi_rodrop.Sender.Assembler.{BytesAssembler}
use hi_rodrop.Sender.Assembler.Growth.{open_transfers, push_all, push_all-open_transfers}

abbrev empty : BytesAssembler
empty = record { buffers = [] }

abbrev pieces : List Bytes
pieces = (2 ∷ []) ∷ (3 ∷ 4 ∷ []) ∷ []

-- Four bytes are kept of a payload that declares one.
push_all-open_transfers_example :
    ((push_all (open_transfers (pos 5) 1 0 ((1 ∷ []) ∷ pieces)) empty).0 ≡ ok none)
    × (lookup (pos 5) (push_all (open_transfers (pos 5) 1 0 ((1 ∷ []) ∷ pieces)) empty).1.buffers
        ≡ some (1 ∷ 2 ∷ 3 ∷ 4 ∷ []))
unfolding lookup
push_all-open_transfers_example =
    push_all-open_transfers (pos 5) 1 (1 ∷ []) pieces empty refl (omega arith)
