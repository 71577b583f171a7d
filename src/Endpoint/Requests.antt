-- ===== src/Endpoint/Requests.antt =====
-- src/endpoint.cpp: the work requests that the `Post*` methods build. `post` stands for
-- `ibv_post_send`: it takes the request and returns the verb's result.
use know_your_memory.Common.{ℕ, ◌==◌, if◌then◌else◌, Bool, true, false, Option, none, some, [], ◌∷◌}
use know_your_memory.Common.Words.{to_u32}
use know_your_memory.Error.{Status, failure, success, internal, text, number}

pub data Opcode : Type 0 where
  send send_with_imm rdma_read rdma_write rdma_write_with_imm fetch_and_add : Opcode

-- `ibv_send_wr` with its one `ibv_sge`. `none` is a field that the code leaves uninitialised.
pub record SendRequest : Type 0 where
  pub wr_id : ℕ
  pub addr : ℕ
  pub length : ℕ
  pub lkey : Option ℕ
  pub opcode : Opcode
  pub signaled : Bool
  pub inlined : Bool
  pub remote_addr : Option ℕ
  pub rkey : Option ℕ
  pub imm_data : Option ℕ
  pub compare_add : Option ℕ

-- `Endpoint::PostSendRaw`
unfoldable pub post_send_raw : (SendRequest → ℕ) → SendRequest → Status
post_send_raw post wr =
    if post wr == 0
    then success
    else failure internal (text "error  " ∷ number (post wr) ∷ text " sending" ∷ [])

-- `Endpoint::PostSend` with its flag; the length of an `ibv_sge` has 32 bits.
abbrev pub send_request : ℕ → ℕ → ℕ → ℕ → Bool → SendRequest
send_request ctx lkey addr size signaled = record {
  wr_id = ctx;
  addr = addr;
  length = to_u32 size;
  lkey = some lkey;
  opcode = send;
  signaled = signaled;
  inlined = false;
  remote_addr = none;
  rkey = none;
  imm_data = none;
  compare_add = none;
}

-- `Endpoint::PostInline`
abbrev pub inline_request : ℕ → ℕ → ℕ → SendRequest
inline_request ctx addr size = record (send_request ctx 0 addr size true) {
  lkey = none;
  inlined = true;
}

-- `Endpoint::PostImmidate`; `imm_addr` is the address of the argument `imm`.
abbrev pub immediate_request : ℕ → ℕ → ℕ → SendRequest
immediate_request ctx imm imm_addr = record (inline_request ctx imm_addr 0) {
  opcode = send_with_imm;
  imm_data = some imm;
}

-- `Endpoint::PostRead`
abbrev pub read_request : ℕ → ℕ → ℕ → ℕ → ℕ → ℕ → SendRequest
read_request ctx lkey addr size remote_addr rkey = record (send_request ctx lkey addr size true) {
  opcode = rdma_read;
  remote_addr = some remote_addr;
  rkey = some rkey;
}

-- `Endpoint::PostWrite`
abbrev pub write_request : ℕ → ℕ → ℕ → ℕ → ℕ → ℕ → SendRequest
write_request ctx lkey addr size remote_addr rkey = record (send_request ctx lkey addr size true) {
  opcode = rdma_write;
  remote_addr = some remote_addr;
  rkey = some rkey;
}

-- `Endpoint::PostWriteWithImmidate`
abbrev pub write_with_immediate_request : ℕ → ℕ → ℕ → ℕ → ℕ → ℕ → ℕ → SendRequest
write_with_immediate_request ctx lkey addr size remote_addr rkey imm =
    record (write_request ctx lkey addr size remote_addr rkey) {
      opcode = rdma_write_with_imm;
      imm_data = some imm;
    }

-- `Endpoint::PostWriteInline`
abbrev pub write_inline_request : ℕ → ℕ → ℕ → ℕ → ℕ → SendRequest
write_inline_request ctx addr size remote_addr rkey =
    record (write_request ctx 0 addr size remote_addr rkey) { inlined = true }

-- `Endpoint::PostFetchAndAdd`
abbrev pub fetch_and_add_request : ℕ → ℕ → ℕ → ℕ → ℕ → ℕ → SendRequest
fetch_and_add_request ctx add lkey addr remote_addr rkey =
    record (send_request ctx lkey addr 8 true) {
      opcode = fetch_and_add;
      remote_addr = some remote_addr;
      rkey = some rkey;
      compare_add = some add;
    }

-- `Endpoint::PostRecv`: the request goes to the shared receive queue, if there is one. The two
-- functions stand for `ibv_post_srq_recv` and `ibv_post_recv`.
pub record RecvRequest : Type 0 where
  pub wr_id : ℕ
  pub addr : ℕ
  pub length : ℕ
  pub lkey : ℕ

unfoldable pub post_recv :
    (ℕ → RecvRequest → ℕ) → (RecvRequest → ℕ) → Option ℕ → ℕ → ℕ → ℕ → ℕ → Status
post_recv srq_recv qp_recv srq ctx lkey addr size =
    let wr : RecvRequest = record { wr_id = ctx; addr = addr; length = to_u32 size; lkey = lkey } in
    let ret : ℕ = elim srq [ none ↦ qp_recv wr | some s ↦ srq_recv s wr ] in
    if ret == 0 then success else failure internal (text "error posting receive buffer" ∷ [])
