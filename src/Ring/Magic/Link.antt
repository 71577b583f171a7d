-- ===== src/Ring/Magic/Link.antt =====
-- A sender and a receiver of one magic ring: every interleaving of writes, reads, frees in any
-- order, and heads that travel back with a delay.
pub mod Trace
pub mod Flow
pub mod Keeps
pub mod Safety
use know_your_memory.Common.{ℕ, ◌<◌, ◌≡◌, ◌≢◌, ◌⊎◌, false, some, List, [], ◌∷◌, ◌++◌}
use know_your_memory.Error.{value}
use know_your_memory.Ring.Types.{Buffer, RemoteBuffer}
use know_your_memory.Ring.Magic.{new_ring, new_remote, get_context, read, free, write, update_head}

-- A message on its way: the address it was written to, and its length.
pub record Message : Type 0 where
  pub at : ℕ
  pub len : ℕ

-- `acks`: the heads that the receiver has posted and the sender has not taken yet, oldest first.
pub record Link : Type 0 where
  pub remote : RemoteBuffer
  pub local : Buffer
  pub wire : List Message
  pub acks : List ℕ

abbrev pub message : ℕ → ℕ → Message
message at len = record { at = at; len = len }

-- The receiver reads as many bytes as the message is long. A head is taken unless the ring is
-- full and the head is the old one.
pub data Step : Link → Link → Type 0 where
  send :
      (k : Link) (len a : ℕ) (r : RemoteBuffer)
      → 0 < len
      → write k.remote len ≡ (value a, r)
      → Step k (record k { remote = r; wire = k.wire ++ message a len ∷ [] })
  receive :
      (k : Link) (m : Message) (rest : List Message)
      → k.wire ≡ m ∷ rest
      → Step k (record k { local = (read k.local m.len).1; wire = rest })
  release :
      (k : Link) (at h : ℕ) (b : Buffer)
      → free k.local at ≡ some (h, b)
      → Step k (record k { local = b })
  post : (k : Link) → Step k (record k { acks = k.acks ++ k.local.head ∷ [] })
  take :
      (k : Link) (h : ℕ) (rest : List ℕ)
      → k.acks ≡ h ∷ rest
      → (k.remote.full ≡ false) ⊎ (h ≢ k.remote.head)
      → Step k (record k { remote = update_head k.remote h; acks = rest })

pub data Reach (k : Link) : Link → Type 0 where
  here : Reach k k
  next : {l m : Link} → Reach k l → Step l m → Reach k m

-- Both ends as they are set up for a memory region of `2 * size` bytes.
unfoldable pub init : ℕ → ℕ → ℕ → Link
unfolding new_ring new_remote get_context
init mr_addr mr_length mr_lkey =
    let b = new_ring mr_addr mr_length mr_lkey in
    record { remote = new_remote (get_context b); local = b; wire = []; acks = [] }
