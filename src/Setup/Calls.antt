-- ===== src/Setup/Calls.antt =====
-- src/endpoint.cpp: the structures that are handed to the verbs (`ibv_*`) and to the connection
-- manager (`rdma_*`), the calls of them, and what is read of them. A pointer is a number, 0 if null.
use know_your_memory.Common.{ℕ, Bool, Option, List}
use know_your_memory.Common.Ints.{ℤ}

-- A string of C++: the codes of its characters.
abbrev pub Chars : Type 0
Chars = List ℕ

-- `ibv_qp_cap`
pub record Cap : Type 0 where
  pub max_send_wr : ℕ
  pub max_recv_wr : ℕ
  pub max_send_sge : ℕ
  pub max_recv_sge : ℕ
  pub max_inline_data : ℕ

-- `ibv_qp_init_attr`
pub record QpInitAttr : Type 0 where
  pub send_cq : ℕ
  pub recv_cq : ℕ
  pub srq : ℕ
  pub cap : Cap
  pub qp_type : ℕ

-- `Options`. The private data are the pointer and its length.
pub record Options : Type 0 where
  pub pd : ℕ
  pub qp_attr : QpInitAttr
  pub use_srq : Bool
  pub private_data : ℕ
  pub private_data_len : ℕ
  pub src : Option Chars
  pub responder_resources : ℕ
  pub initiator_depth : ℕ
  pub flow_control : ℕ
  pub retry_count : ℕ
  pub rnr_retry_count : ℕ
  pub native_qp : Bool
  pub inline_recv : ℕ

-- `rdma_conn_param`. `qp_num` is set for native queue pairs only.
pub record ConnParam : Type 0 where
  pub responder_resources : ℕ
  pub initiator_depth : ℕ
  pub retry_count : ℕ
  pub rnr_retry_count : ℕ
  pub private_data : ℕ
  pub private_data_len : ℕ
  pub flow_control : ℕ
  pub qp_num : Option ℕ

-- `rdma_addrinfo`, as the hints: whether RAI_PASSIVE is set, and the source address with its
-- length, if there is one. The port space is always RDMA_PS_TCP.
pub record Hints : Type 0 where
  pub passive : Bool
  pub source : Option (ℕ × ℕ)

-- `rdma_addrinfo`, as a result: its own address and the fields that are read.
pub record AddrInfo : Type 0 where
  pub handle : ℕ
  pub ai_src_addr : ℕ
  pub ai_src_len : ℕ
  pub ai_dst_addr : ℕ

-- `rdma_cm_id`
pub record CmId : Type 0 where
  pub verbs : ℕ
  pub pd : ℕ
  pub qp : ℕ
  pub srq : ℕ
  pub send_cq : ℕ
  pub recv_cq : ℕ
  pub channel : ℕ

-- `ibv_qp_state`, the states that the code asks for.
pub data QpState : Type 0 where
  init rtr rts : QpState

-- `rdma_cm_event_type`, the kinds that the code tests for.
pub data CmEvent : Type 0 where
  addr_resolved route_resolved connect_response established other : CmEvent

-- The calls, with the arguments that matter.
pub data Call : Type 0 where
  get_addr_info : Option Chars → Option ℕ → Hints → Call
  free_addr_info : ℕ → Call
  create_event_channel create_id resolve_route : Call
  resolve_addr : ℕ → Call
  get_cm_event ack_cm_event : Call
  create_ep : ℕ → ℕ → Call
  listen : ℕ → Call
  get_request : Call
  create_srq : ℕ → ℕ → ℕ → Call
  create_qp : ℕ → QpInitAttr → Call
  cm_create_qp : ℕ → QpInitAttr → Call
  init_qp_attr : QpState → Call
  modify_qp : ℕ → QpState → Call
  accept connect : ConnParam → Call
  establish disconnect destroy_ep destroy_id : Call
  free_private_data free_recv_wcs : Call

-- A call with its answer: the result, or the pointer.
pub record Event : Type 0 where
  pub call : Call
  pub answer : ℤ

-- What the libraries answer, given the calls so far, the last one first: what a call returns, where
-- it is a pointer, and then what may be read. `new_id` is the id that `rdma_get_request`,
-- `rdma_create_ep` or `rdma_create_id` made, `cm_qp` the queue pair that `rdma_create_qp` put into
-- its id, and `info` the private data of the event of the id.
pub record Rdma : Type 0 where
  pub ret : List Event → Call → ℤ
  pub pointer : List Event → Call → ℕ
  pub errno : List Event → ℕ
  pub addr_info : List Event → AddrInfo
  pub new_id : List Event → CmId
  pub cm_qp : List Event → ℕ
  pub qp_num : ℕ → ℕ
  pub info : List Event → List ℕ
  pub event : List Event → CmEvent
  pub event_is_own : List Event → Bool
