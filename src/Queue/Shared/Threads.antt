-- ===== src/Queue/Shared/Threads.antt =====
-- src/shared_receive_queue.cpp: the threads of the connections, which hand buffers back through their
-- queues, the thread of `Run`, which posts them again, and the device, which fills them.
use know_your_memory.Common.{
  arith, ℕ, ◌≡◌, refl, sym, ap, ◌∙◌, ◌+◌, ◌==◌, if◌then◌else◌, some, List, [], ◌∷◌, ◌++◌, inl, inr,
  ◌⊎◌, ◌≤◌, Bool, true, false, Bool-cases, length,
}
use know_your_memory.Error.{Status, is_ok, success, failure, rate_limit, text}
use know_your_memory.Queue.{ReceiveQueue, Entry, Answer, Given}
use know_your_memory.Queue.Batch.{IsValid, pending}
use know_your_memory.Queue.History.{count, count-append}
use know_your_memory.Queue.Shared.Posting.{Moved, post_shared-Moved}
use know_your_memory.Queue.Shared.{Spsc, post_shared, stub_post_mr, stub_post_mr_lem}

-- The shared queue, the buffers that are posted, those that the verb has refused, the connections'
-- queues, the buffers that hold a message that some connection has received and not handed back, and
-- whether `Run` has not ended with an error.
pub record System (Q : Type 0) : Type 0 where
  pub queue : ReceiveQueue
  pub posted : List Entry
  pub refused : List Entry
  pub queues : List Q
  pub held : List ℕ
  pub running : Bool

-- The entries of a buffer.
abbrev pub of : ℕ → Entry → Bool
of v e = e.wr_id == v

-- How often a buffer stands in a list.
abbrev pub times : ℕ → List ℕ → ℕ
times v [] = 0
times v (x ∷ xs) = (if x == v then 1 else 0) + times v xs

module _ {Q : Type 0} (spsc : Spsc Q) where
  -- What the connections' queues hold.
  abbrev pub under_way : List Q → List ℕ
  under_way [] = []
  under_way (q ∷ qs) = spsc.contents q ++ under_way qs

  -- One step of one of the threads, or of the device.
  pub data Step : System Q → System Q → Type 0 where
    deliver :
        (s : System Q) (xs ys : List Entry) (e : Entry)
        → s.posted ≡ xs ++ e ∷ ys
        → Step s (record s { posted = xs ++ ys; held = e.wr_id ∷ s.held })
    hand_back :
        (s : System Q) (xs ys : List ℕ) (x : ℕ) (qs qs' : List Q) (q : Q)
        → s.held ≡ xs ++ x ∷ ys
        → s.queues ≡ qs ++ q ∷ qs'
        → (stub_post_mr spsc q x).0 ≡ success
        → Step s (record s { held = xs ++ ys; queues = qs ++ (stub_post_mr spsc q x).1 ∷ qs' })
    repost :
        (s : System Q) (post : List Entry → Answer) (qs qs' : List Q) (q q' : Q) (x : ℕ)
        → s.running ≡ true
        → s.queues ≡ qs ++ q ∷ qs'
        → spsc.try_dequeue q ≡ some (x, q')
        → Step s (record s {
          queue = (post_shared post s.queue x).1;
          posted = s.posted ++ (post_shared post s.queue x).2.posted;
          refused = s.refused ++ (post_shared post s.queue x).2.refused;
          queues = qs ++ q' ∷ qs';
          running = is_ok (post_shared post s.queue x).0;
        })

  -- Any number of steps, in any order of the threads.
  pub data Reach : System Q → System Q → Type 0 where
    here : (s : System Q) → Reach s s
    after : (s t u : System Q) → Step s t → Reach t u → Reach s u

  -- How often a buffer waits for its batch, is posted, was refused, is under way or is held.
  abbrev pub everywhere : ℕ → System Q → ℕ
  everywhere v s =
      count (of v) (pending s.queue)
      + count (of v) s.posted
      + count (of v) s.refused
      + times v (under_way s.queues)
      + times v s.held

  times-append : (v : ℕ) (xs ys : List ℕ) → times v (xs ++ ys) ≡ times v xs + times v ys
  times-append v [] ys = omega arith
  times-append v (x ∷ xs) ys = omega (arith, times-append v xs ys)

  -- A queue in the row of queues.
  under_way-middle :
      (v : ℕ) (qs qs' : List Q) (q : Q)
      → times v (under_way (qs ++ q ∷ qs'))
        ≡ times v (spsc.contents q) + times v (under_way (qs ++ qs'))
  under_way-middle v [] qs' q = times-append v (spsc.contents q) (under_way qs')
  under_way-middle v (p ∷ qs) qs' q = omega (
    arith,
    times-append v (spsc.contents p) (under_way (qs ++ q ∷ qs')),
    times-append v (spsc.contents p) (under_way (qs ++ qs')),
    under_way-middle v qs qs' q,
  )

  -- What is posted again was the oldest of its queue.
  times-try_dequeue :
      (v : ℕ) (q q' : Q) (x : ℕ)
      → spsc.try_dequeue q ≡ some (x, q')
      → times v (spsc.contents q) ≡ (if x == v then 1 else 0) + times v (spsc.contents q')
  times-try_dequeue v q q' x d = ap (times v) (spsc.contents-try_dequeue q q' x d)

  -- What is handed back is in its queue.
  times-stub_post_mr :
      (v : ℕ) (q : Q) (x : ℕ)
      → (stub_post_mr spsc q x).0 ≡ success
      → times v (spsc.contents (stub_post_mr spsc q x).1)
        ≡ (if x == v then 1 else 0) + times v (spsc.contents q)
  times-stub_post_mr v q x ok = elim (stub_post_mr_lem spsc q x) [
    | inl (good, kept) ↦
        ap (times v) kept ∙ omega (arith, times-append v (spsc.contents q) (x ∷ []))
    | inr (refused, same) ↦ absurd (apart (sym ok ∙ refused))
  ]
    where
      apart : success ≡ failure rate_limit (text "inter process queue overrun" ∷ []) → ⊥
      apart e = ground arith

  -- While `Run` works nothing is refused, and when it has ended with an error at most one batch.
  abbrev pub Loss : System Q → Type 0
  Loss s =
      ((s.running ≡ true) × (s.refused ≡ []))
      ⊎ ((s.running ≡ false) × (length s.refused ≤ s.queue.max_rcv_mr))

  repost-Loss :
      (s : System Q) (r : Status × ReceiveQueue × Given) (x : ℕ) (qs : List Q)
      → s.running ≡ true
      → Loss s
      → Moved s.queue x r
      → Loss (record s {
        queue = r.1;
        posted = s.posted ++ r.2.posted;
        refused = s.refused ++ r.2.refused;
        queues = qs;
        running = is_ok r.0;
      })
  repost-Loss s (stat, q', g) x qs on (inr (off, _)) m = absurd (ground (arith, on, off))
  repost-Loss s (stat, q', g) x qs on (inl (_, none_before)) m = elim (Bool-cases (is_ok stat)) [
    | inl t ↦ inl (
      t,
      ap (λ l. l ++ g.refused) none_before
          ∙ elim m.1 [ inl e ↦ e | inr f ↦ absurd (ground (arith, t, f)) ],
    )
    | inr f ↦ inr (f, omega (arith, m.2, m.3, ap (λ l. length (l ++ g.refused)) none_before))
  ]

  step-everywhere :
      (v : ℕ) (s t : System Q)
      → Step s t
      → IsValid s.queue
      → Loss s
      → (everywhere v t ≡ everywhere v s) × Loss t × IsValid t.queue
  step-everywhere v s t (deliver _ xs ys e p) valid loss = (
    omega (arith, count-append (of v) xs (e ∷ ys), count-append (of v) xs ys, ap (count (of v)) p),
    loss,
    valid,
  )
  step-everywhere v s t (hand_back _ xs ys x qs qs' q h w ok) valid loss = (
    omega (
      arith,
      ap (times v) h,
      times-append v xs (x ∷ ys),
      times-append v xs ys,
      ap (λ l. times v (under_way l)) w,
      under_way-middle v qs qs' q,
      under_way-middle v qs qs' (stub_post_mr spsc q x).1,
      times-stub_post_mr v q x ok,
    ),
    loss,
    valid,
  )
  step-everywhere v s t (repost _ post qs qs' q q' x on w d) valid loss =
      let m = post_shared-Moved post s.queue x valid in
      let (stat, queue', g) = post_shared post s.queue x in
      (
        omega (
          arith,
          m.0 (of v),
          count-append (of v) s.posted g.posted,
          count-append (of v) s.refused g.refused,
          ap (λ l. times v (under_way l)) w,
          under_way-middle v qs qs' q,
          under_way-middle v qs qs' q',
          times-try_dequeue v q q' x d,
        ),
        repost-Loss s (stat, queue', g) x (qs ++ q' ∷ qs') on loss m,
        m.5,
      )

  -- In whatever order the threads of the connections hand buffers back, the thread of `Run` posts
  -- them again, with any answers of the verb, and the device fills them: from a valid queue on, with
  -- nothing refused so far, every buffer stays in as many places as it was, waiting for its batch,
  -- posted, refused, under way to `Run` or held by a connection. Nothing is refused before `Run`
  -- ends with an error, and then no more than one batch; the queue stays valid.
  pub everywhere-Reach :
      (v : ℕ) (s t : System Q)
      → Reach s t
      → IsValid s.queue
      → Loss s
      → (everywhere v t ≡ everywhere v s) × Loss t × IsValid t.queue
  everywhere-Reach v s t (here _) valid loss = (refl, loss, valid)
  everywhere-Reach v s t (after _ u _ step rest) valid loss =
      let (same, loss', still) = step-everywhere v s u step valid loss in
      let (same', loss'', still') = everywhere-Reach v u t rest still loss' in
      (same' ∙ same, loss'', still')
