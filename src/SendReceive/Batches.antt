-- ===== src/SendReceive/Batches.antt =====
-- A batch completes by one completion, and `Wait` finds it.
use know_your_memory.Common.{ℕ, ◌≡◌, ◌<◌, refl, true, if◌then◌else◌, ltb, List, [], ◌∷◌, arith}
use know_your_memory.Error.{StatusOr, value, status}
use know_your_memory.Endpoint.Requests.{SendRequest}
use know_your_memory.Endpoint.Completions.{Completion}
use know_your_memory.Write.Sender.{wait}
use know_your_memory.SendReceive.{wait_last}

-- The completions that a chain causes, if it is carried out: the ids of its signaled requests.
abbrev pub completions : List SendRequest → List ℕ
completions [] = []
completions (wr ∷ wrs) = if wr.signaled then wr.wr_id ∷ completions wrs else completions wrs

-- Each completion has a higher id than those before it.
abbrev pub Ascending : ℕ → List (StatusOr Completion) → Type 0
Ascending ackd [] = Unit
Ascending ackd (value wc ∷ cs) = (ackd < wc.wr_id) × Ascending wc.wr_id cs
Ascending ackd (status s ∷ cs) = Ascending ackd cs

-- As long as completions arrive in the order of their ids, `Wait` of `SendReceiveConnection`, which
-- keeps the id of the last completion, does what that of `WriteSender` does, which keeps the highest.
pub wait_last-wait :
    (ackd id : ℕ) (cs : List (StatusOr Completion))
    → Ascending ackd cs
    → wait_last ackd id cs ≡ wait ackd id cs
unfolding wait_last wait
wait_last-wait ackd id [] up = refl
wait_last-wait ackd id (value wc ∷ cs) (lt, up) =
    let t : ltb ackd wc.wr_id ≡ true = ground arith in rw (t, wait_last-wait wc.wr_id id cs up) refl
wait_last-wait ackd id (status s ∷ cs) up = refl
