-- ===== src/Queue/Setup.antt =====
-- `GetReceiveQueue`: which buffers it posts, and that the buffers do not overlap.
use native.Mathlib.Nat.{add-zero}
use know_your_memory.Common.{
  ℕ, zero, suc, ◌+◌, ◌*◌, ◌≤◌, ◌<◌, ◌≡◌, refl, sym, ap, ◌∙◌, true, false, Bool, some, List, [],
  arith, length, get_elem?, drop-length,
}
use know_your_memory.Common.Words.{add64, mul64, two64}
use know_your_memory.Error.{Status, code_ok, value}
use know_your_memory.Queue.{
  ReceiveQueue, Posted, get_mr, context_to_addr, post_all, get_receive_queue, fresh_entries,
  batch_size,
}
use know_your_memory.Queue.Batch.{IsValid, pending}

-- The buffer with the number `i`.
abbrev pub slot : ℕ → ℕ → ℕ → ℕ → Posted
slot mr_addr lkey size i = record {
  wr_id = i;
  lkey = lkey;
  addr = add64 mr_addr (mul64 i size);
  size = size;
}

post_all-get :
    (post : Posted → Status) (a lkey size n i k : ℕ)
    → code_ok (post_all post a lkey size n i).0.code ≡ true
    → k < n
    → get_elem? (post_all post a lkey size n i).1 k ≡ some (slot a lkey size (i + k))
unfolding post_all
post_all-get post a lkey size zero i k e h = elim h [ ]
post_all-get post a lkey size (suc n) i zero e h = rw (add-zero i) (ground arith)
post_all-get post a lkey size (suc n) i (suc k) e h =
    let next : i + suc k ≡ i + 1 + k = omega arith in
    rw next (ground (arith, post_all-get post a lkey size n (i + 1) k))

post_all-length :
    (post : Posted → Status) (a lkey size n i : ℕ)
    → code_ok (post_all post a lkey size n i).0.code ≡ true
    → length (post_all post a lkey size n i).1 ≡ n
unfolding post_all
post_all-length post a lkey size zero i e = refl
post_all-length post a lkey size (suc n) i e =
    ground (arith, post_all-length post a lkey size n (i + 1))

length-fresh_entries : (n i : ℕ) → length (fresh_entries n i) ≡ n
unfolding fresh_entries
length-fresh_entries zero i = refl
length-fresh_entries (suc n) i = ap suc (length-fresh_entries n (i + 1))

get_receive_queue-eq :
    (post : Posted → Status) (a lkey size n : ℕ) (q : ReceiveQueue) (posted : List Posted)
    (back : Bool)
    → get_receive_queue post a lkey size n ≡ (value q, posted, back)
    → (code_ok (post_all post a lkey size n 0).0.code ≡ true)
      × (posted ≡ (post_all post a lkey size n 0).1)
      × (back ≡ false)
      × (q ≡ record {
        mr_addr = a;
        lkey = lkey;
        transfer_size = size;
        current_rcv_mr = batch_size;
        max_rcv_mr = batch_size;
        entries = fresh_entries batch_size 0;
      })
unfolding get_receive_queue
get_receive_queue-eq post a lkey size n q posted back e = ground arith

-- A queue that is set up has posted each of its buffers once, under its own number, at the address
-- and with the length that `GetMR` gives for that number; its batch is empty; the region is kept.
pub get_receive_queue-posts :
    (post : Posted → Status) (a lkey size n : ℕ) (q : ReceiveQueue) (posted : List Posted)
    (back : Bool)
    → get_receive_queue post a lkey size n ≡ (value q, posted, back)
    → (length posted ≡ n)
      × (back ≡ false)
      × IsValid q
      × (pending q ≡ [])
      × ((k : ℕ)
          → k < n
          → get_elem? posted k
            ≡ some (record {
              wr_id = k;
              lkey = lkey;
              addr = (get_mr q k).addr;
              size = (get_mr q k).length;
            }))
unfolding get_mr
get_receive_queue-posts post a lkey size n q posted back e =
    let (fine, same, kept, is) = get_receive_queue-eq post a lkey size n q posted back e in
    rw (same, is)
      (
        post_all-length post a lkey size n 0 fine,
        kept,
        record {
          some_left = omega arith;
          in_batch = omega arith;
          whole = length-fresh_entries 64 0;
        },
        drop-length (fresh_entries batch_size 0) 64 (sym (length-fresh_entries 64 0)),
        λ k h.
            let z : 0 + k ≡ k = omega arith in
            post_all-get post a lkey size n 0 k fine h ∙ ap (λ m. some (slot a lkey size m)) z,
      )

mul_mono : (a b s : ℕ) → a ≤ b → a * s ≤ b * s
mul_mono a b s h = grind arith

-- The buffers of a queue whose region ends below the end of the address space lie one behind the
-- other inside it.
pub get_mr-apart :
    (q : ReceiveQueue) (n i j : ℕ)
    → q.mr_addr + n * q.transfer_size < two64
    → i < j
    → j < n
    → ((get_mr q i).addr + q.transfer_size ≤ (get_mr q j).addr)
      × ((get_mr q j).addr + q.transfer_size ≤ q.mr_addr + n * q.transfer_size)
unfolding get_mr context_to_addr
get_mr-apart q n i j fits lt below =
    omega (arith, mul_mono (i + 1) j q.transfer_size lt', mul_mono (j + 1) n q.transfer_size below')
  where
    lt' : i + 1 ≤ j
    lt' = omega arith

    below' : j + 1 ≤ n
    below' = omega arith
