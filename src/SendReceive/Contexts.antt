-- ===== src/SendReceive/Contexts.antt =====
-- tests/send_recv/send_receive.cpp: the contexts of the regions of `SendReceiveListener`.
use native.Mathlib.Nat.{mod-eq_of_lt}
use know_your_memory.Common.{ℕ, ◌/◌, ◌≡◌, ◌<◌, refl, ap, Option, none, some, List, arith}
use know_your_memory.Common.Words.{to_u32, two32}
use know_your_memory.Endpoint.Completions.{Completion}
use know_your_memory.Error.{Status}
use know_your_memory.Queue.{ReceiveQueue, Entry, Answer, Given, post_mr, get_mr}
use know_your_memory.Queue.Shared.{post_shared}
use know_your_memory.Write.{ReceiveRegion}
use know_your_memory.SendReceive.{Listener, listener_region, listener_free, received, pack}

-- The queue of a completion: the shared one, or that of its queue pair.
abbrev pub queue_of : Listener → ℕ → Option ReceiveQueue
queue_of l qp_num = elim l.srq [ some q ↦ some q | none ↦ l.rqs qp_num ]

-- The `PostMR` of a listener's queues: that of the shared queue if there is one.
abbrev pub own_post_mr :
    (List Entry → Answer)
    → (List Entry → Answer)
    → Listener
    → ReceiveQueue
    → ℕ
    → Status × ReceiveQueue × Given
own_post_mr post post_srq l q id = elim l.srq [
  | some s ↦ post_shared post_srq q id
  | none ↦ post_mr post q id
]

-- A region that a listener received from a completion lies in the buffer that the completion
-- names, in the queue of its queue pair or the shared one, and freeing it hands this buffer back
-- to that queue, by the queue's own `PostMR`. Both numbers have 32 bits.
pub listener_free-listener_region :
    (post post_srq : List Entry → Answer) (l : Listener) (wc : Completion) (q : ReceiveQueue)
    → wc.wr_id < two32
    → wc.qp_num < two32
    → queue_of l wc.qp_num ≡ some q
    → (reg : ReceiveRegion) × (listener_region l wc ≡ some reg)
      × (reg.addr ≡ (get_mr q wc.wr_id).addr)
      × (reg.length ≡ wc.byte_len)
      × (listener_free post post_srq l reg ≡ some (own_post_mr post post_srq l q wc.wr_id))
unfolding listener_region listener_free
listener_free-listener_region post post_srq l wc q small qp found = go l.srq refl found
  where
    low : to_u32 wc.wr_id ≡ wc.wr_id
    low = mod-eq_of_lt small

    high : to_u32 (pack wc.qp_num wc.wr_id / two32) ≡ wc.qp_num
    high = omega arith

    id : to_u32 (pack wc.qp_num wc.wr_id) ≡ wc.wr_id
    id = omega arith

    Goal : Type 0
    Goal =
        (reg : ReceiveRegion) × (listener_region l wc ≡ some reg)
        × (reg.addr ≡ (get_mr q wc.wr_id).addr)
        × (reg.length ≡ wc.byte_len)
        × (listener_free post post_srq l reg ≡ some (own_post_mr post post_srq l q wc.wr_id))

    go :
        (o : Option ReceiveQueue)
        → l.srq ≡ o
        → (elim o [ some p ↦ some p | none ↦ l.rqs wc.qp_num ]) ≡ some q
        → Goal
    go (some p) e f =
        let same : p ≡ q = cc in
        (
          received q wc.wr_id wc,
          rw (e, same) refl,
          ap (λ n. (get_mr q n).addr) low,
          refl,
          rw (e, low, same) refl,
        )
    go none e f = (
      received q (pack wc.qp_num wc.wr_id) wc,
      rw (e, f) refl,
      ap (λ n. (get_mr q n).addr) low,
      refl,
      rw (listener_free, e, high, f, id) refl,
    )
