-- ===== src/Ring/Magic/Setup.antt =====
-- The context that a receiver sends and the remote buffer that a sender builds from it.
use know_your_memory.Common.{◌^◌, ◌<◌, ◌≡◌, refl, false, arith}
use know_your_memory.Common.Words.{two32, join32-split}
use know_your_memory.Ring.Types.{Buffer}
use know_your_memory.Ring.Magic.{new_remote, get_context}

-- The sender ends up with the receiver's address, key and length, and with an empty ring; the four
-- cells that carry them fit 32 bits each.
pub new_remote-get_context :
    (b : Buffer)
    → b.addr < 2 ^ 64
    → b.lkey < two32
    → b.length < two32
    → let ctx = get_context b in
      let r = new_remote ctx in
      (r.addr ≡ b.addr)
      × (r.key ≡ b.lkey)
      × (r.length ≡ b.length)
      × (r.head ≡ r.tail)
      × (r.full ≡ false)
      × (ctx.data0 < two32)
      × (ctx.data1 < two32)
      × (ctx.data2 < two32)
      × (ctx.data3 < two32)
unfolding new_remote get_context
new_remote-get_context b ha hk hl =
    (join32-split b.addr, refl, refl, refl, refl, omega arith, omega arith, hk, hl)
