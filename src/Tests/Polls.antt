-- ===== src/Tests/Polls.antt =====
-- The polling methods of `Endpoint` at concrete inputs.
use know_your_memory.Common.{ℕ, ◌≡◌, refl, some, List, [], ◌∷◌, arith}
use know_your_memory.Error.{Piece, value, text}
use know_your_memory.Endpoint.Completions.{
  Completion, Poll, failed, batch, RecvState, poll_recv_cq, poll_recv_cq_once, poll_send_cq,
  returns,
}
use know_your_memory.Endpoint.Completions
use know_your_memory.Endpoint.Delivery
use know_your_memory.Endpoint.Delivery.{IsValid, Pops, events}

abbrev name : ℕ → List Piece
name n = text "status" ∷ []

abbrev done : ℕ → Completion
done n = record { wr_id = n; wc_error = 0; byte_len = 4; imm_data = 0; qp_num = 9 }

-- One of two polled completions is taken.
abbrev halfway : RecvState
halfway = record { current_rcv_wc = 1; polled_rcv_wc = 2; recv_wcs = done 0 ∷ done 1 ∷ [] }

halfway-IsValid : IsValid halfway
halfway-IsValid = record { taken = omega arith; inside = omega arith }

poll_recv_cq-Pops_example :
    Pops name
      (events halfway (batch (done 2 ∷ []) ∷ failed ∷ []))
      (poll_recv_cq name halfway (batch (done 2 ∷ []) ∷ failed ∷ []))
poll_recv_cq-Pops_example =
    Delivery.poll_recv_cq-Pops name halfway (batch (done 2 ∷ []) ∷ failed ∷ []) halfway-IsValid

-- All are taken.
abbrev drained : RecvState
drained = record halfway { current_rcv_wc = 2 }

poll_runs :
    poll_recv_cq name drained (batch [] ∷ batch (done 2 ∷ []) ∷ [])
    ≡ some (
      value (done 2),
      record { current_rcv_wc = 1; polled_rcv_wc = 1; recv_wcs = done 2 ∷ done 1 ∷ [] },
      [],
    )
unfolding poll_recv_cq Completions.take_next
poll_runs = refl

poll_send_runs :
    poll_send_cq name (batch [] ∷ batch (done 3 ∷ []) ∷ []) ≡ returns (value (done 3)) []
unfolding poll_send_cq
poll_send_runs = refl
