-- ===== src/Ack/Heads.antt =====
-- Which head the sender learns.
use know_your_memory.Common.{
  ℕ, ◌≡◌, ◌≢◌, refl, sym, ap, ◌∙◌, ◌==◌, some, List, [], ◌∷◌, ◌++◌, map, arith, true, ==_ne,
  Bool-cases, inl, inr, ◌-◌,
}
use know_your_memory.Common.Words.{to_u32, join32-split}
use know_your_memory.Error.{Status, StatusOr, value, status, is_ok}
use know_your_memory.Endpoint.Requests.{SendRequest, post_send_raw}
use know_your_memory.Endpoint.Completions.{Completion}
use know_your_memory.Queue.{
  ReceiveQueue, Answer, Entry, get_mr, post_mr, post_recv_raw, context_to_addr,
}
use know_your_memory.Write.Memory.{Memory, load32}
use know_your_memory.Ack.{
  Round, ReadAckReceiver, offset_in, get_more, get, get_context, get_read_ack_receiver, await_read,
  read_get, head_request,
}

-- The verb has posted a batch.
abbrev pub accepted : Answer
accepted = record { ret = 0; bad = 0 }

abbrev pub polled : Memory → Completion → Round
polled m wc = record { completion = value wc; memory = m; answer = accepted }

abbrev pub nothing : Memory → Status → Round
nothing m s = record { completion = status s; memory = m; answer = accepted }

-- Handing a buffer back changes neither the status, if the verb succeeds, nor where the buffers lie.
post_mr-fine : (q : ReceiveQueue) (id : ℕ) → is_ok (post_mr (λ b. accepted) q id).0 ≡ true
unfolding post_mr post_recv_raw
post_mr-fine q id = ground arith

get_mr-post_mr :
    (post : List Entry → Answer) (q : ReceiveQueue) (id i : ℕ)
    → get_mr (post_mr post q id).1 i ≡ get_mr q i
unfolding post_mr get_mr context_to_addr
get_mr-post_mr post q id i = elim (Bool-cases (q.current_rcv_mr - 1 == 0)) [
  | inl t ↦ rw t refl
  | inr f ↦ rw f refl
]

get_more-stale :
    (m : Memory) (first : Completion) (q : ReceiveQueue) (wcs : List Completion) (s : Status)
    (offset : ℕ)
    → offset ≡ offset_in q m first
    → (q' : ReceiveQueue) × (get_more first offset q (map (polled m) wcs ++ nothing m s ∷ [])
        ≡ some (value offset, q'))
unfolding get_more
get_more-stale m first q [] s offset e = (q, refl)
get_more-stale m first q (wc ∷ wcs) s offset e =
    let fine = post_mr-fine q (to_u32 first.wr_id) in
    let (q', got) =
      get_more-stale m first (post_mr (λ b. accepted) q (to_u32 first.wr_id)).1 wcs s
        (offset_in q m first)
        (ap (λ r. load32 m r.addr)
          (sym (get_mr-post_mr (λ b. accepted) q (to_u32 first.wr_id) (to_u32 first.wr_id)))) in
    (q', rw fine (got ∙ ap (λ x. some (value x, q')) (sym e)))

-- `Get` answers with the head in the first message, however many more messages its loop polls
-- before a poll finds none, as long as the memory stays as it is and every buffer is handed back
-- without an error.
pub get-stale :
    (m : Memory) (q : ReceiveQueue) (first : Completion) (wcs : List Completion) (s : Status)
    → (q' : ReceiveQueue) × (get q (polled m first) (map (polled m) wcs ++ nothing m s ∷ [])
        ≡ some (value (offset_in q m first), q'))
unfolding get
get-stale m q first wcs s =
    let fine = post_mr-fine q (to_u32 first.wr_id) in
    let (q', got) =
      get_more-stale m first (post_mr (λ b. accepted) q (to_u32 first.wr_id)).1 wcs s
        (offset_in q m first)
        (ap (λ r. load32 m r.addr)
          (sym (get_mr-post_mr (λ b. accepted) q (to_u32 first.wr_id) (to_u32 first.wr_id)))) in
    (q', rw fine got)

-- Completions of other requests.
abbrev pub Others : List Completion → Type 0
Others [] = Unit
Others (wc ∷ wcs) = (to_u32 wc.wr_id ≢ 0) × Others wcs

await_read_lem :
    (r : ReadAckReceiver) (m : Memory) (before : List Completion) (wc : Completion)
    (cs : List (StatusOr Completion))
    → Others before
    → to_u32 wc.wr_id ≡ 0
    → await_read r m (map value before ++ value wc ∷ cs) ≡ some (value (load32 m r.mr_addr), cs)
unfolding await_read
await_read_lem r m [] wc cs o z = rw z refl
await_read_lem r m (x ∷ before) wc cs (ne, o) z =
    rw (==_ne (to_u32 x.wr_id) 0 ne) (await_read_lem r m before wc cs o z)

-- The read of a receiver that is set up from an acknowledger's context goes to the cell that the
-- acknowledger keeps the head in, under its key; if it is posted, then once it has completed,
-- whatever completed before it without an error, `Get` answers with what it brought.
pub read_get-get_context :
    (post : SendRequest → ℕ) (addr lkey mr_addr mr_lkey : ℕ) (m : Memory) (before : List Completion)
    (wc : Completion) (cs : List (StatusOr Completion))
    → post (head_request (get_read_ack_receiver mr_addr mr_lkey (get_context addr lkey))) ≡ 0
    → Others before
    → to_u32 wc.wr_id ≡ 0
    → let r = get_read_ack_receiver mr_addr mr_lkey (get_context addr lkey) in
      ((head_request r).remote_addr ≡ some addr)
      × ((head_request r).rkey ≡ some lkey)
      × (read_get post r m (map value before ++ value wc ∷ cs)
          ≡ some (value (load32 m mr_addr), cs))
unfolding get_context get_read_ack_receiver read_get post_send_raw
read_get-get_context post addr lkey mr_addr mr_lkey m before wc cs fine o z = (
  ap some (join32-split addr),
  refl,
  rw fine (
      await_read_lem (get_read_ack_receiver mr_addr mr_lkey (get_context addr lkey)) m before wc cs
        o z),
)
