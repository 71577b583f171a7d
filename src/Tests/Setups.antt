-- ===== src/Tests/Setups.antt =====
-- The setup of endpoints at concrete answers of the verbs and the connection manager.
use know_your_memory.Common.{◌+◌, ◌≡◌, refl, true, false, none, some, [], ◌∷◌, length}
use know_your_memory.Common.Ints.{ℤ, pos, negsuc}
use know_your_memory.Error.{failure, internal, text, number}
use know_your_memory.Setup.Calls.{Rdma, Call, Options, CmId, established, listen, modify_qp, rtr}
use know_your_memory.Setup.Effects.{perform, perform_, obtain, World, Post, returns, fails}
use know_your_memory.Setup.Accept.{accept_connection}
use know_your_memory.Setup.Connect.{connect_endpoint}
use know_your_memory.Setup.Create.{create, dial}
use know_your_memory.Setup.Walk.{begin, nothing, IsLegal}
use know_your_memory.Setup.Walk.Acceptance.{Accepted, accept_connection-Walk}
use know_your_memory.Setup.Walk.Connection.{Connected, connect_endpoint-Walk}
use know_your_memory.Setup.Addresses.{Keeps, owed}
use know_your_memory.Setup.Addresses.Balance.{MayLeak, create-Keeps}
use know_your_memory.Setup.Dialing.{dial-Walk}

abbrev an_id : CmId
an_id = record { verbs = 1; pd = 2; qp = 0; srq = 0; send_cq = 0; recv_cq = 0; channel = 0 }

-- Everything succeeds; a pointer is 100 and the number of the calls before it.
abbrev good : Rdma
good = record {
  ret = λ es c. pos 0;
  pointer = λ es c. 100 + length es;
  errno = λ es. 0;
  addr_info =
      λ es. record { handle = 50 + length es; ai_src_addr = 60; ai_src_len = 16; ai_dst_addr = 61 };
  new_id = λ es. an_id;
  cm_qp = λ es. 200;
  qp_num = λ q. q + 1000;
  info = λ es. 7 ∷ 8 ∷ 9 ∷ [];
  event = λ es. established;
  event_is_own = λ es. true;
}

-- The queue pair cannot be moved to RTR, and nothing can listen.
abbrev failing : Call → ℤ
failing (modify_qp q rtr) = negsuc 0
failing (listen n) = negsuc 0
failing _ = pos 0

abbrev bad : Rdma
bad = record good { ret = λ es c. failing c }

abbrev native_options : Options
native_options = record {
  pd = 2;
  qp_attr = record {
    send_cq = 11;
    recv_cq = 12;
    srq = 0;
    cap = record {
      max_send_wr = 8;
      max_recv_wr = 8;
      max_send_sge = 1;
      max_recv_sge = 1;
      max_inline_data = 0;
    };
    qp_type = 2;
  };
  use_srq = true;
  private_data = 0;
  private_data_len = 0;
  src = some (49 ∷ []);
  responder_resources = 1;
  initiator_depth = 1;
  flow_control = 0;
  retry_count = 3;
  rnr_retry_count = 3;
  native_qp = true;
  inline_recv = 0;
}

abbrev start : World
start = record {
  calls = [];
  id = an_id;
  ep = record {
    private_data = none;
    private_data_len = 0;
    qp = none;
    recv = record { current_rcv_wc = 0; polled_rcv_wc = 0; recv_wcs = [] };
  };
}

-- A native queue pair is accepted: it is the fourth call's pointer.
accepts : (accept_connection good 2 native_options start).1.id.qp ≡ 102
unfolding accept_connection perform obtain
accepts = refl

-- A queue pair that cannot be moved is not.
refuses_to_accept :
    (accept_connection bad 2 native_options start).0
    ≡ fails (
        failure internal (
          text "accept: error "
          ∷ text "-"
          ∷ number 1
          ∷ text " setting attr qp to "
          ∷ text "RTR"
          ∷ []))
unfolding accept_connection perform obtain
refuses_to_accept = refl

-- With inline receives there is no queue pair.
refuses_inline :
    (accept_connection good 2 (record native_options { inline_recv = 64 }) start).0
    ≡ fails (failure internal (text "accept: error " ∷ text "0" ∷ text " creating native qp" ∷ []))
unfolding accept_connection perform obtain
refuses_inline = refl

connects : (dial good false (49 ∷ []) 4711 native_options start).0 ≡ returns tt
unfolding dial perform obtain perform_
connects = refl

accept_connection-Walk_example :
    Post
      (λ _ w'. Accepted good native_options (7 ∷ 8 ∷ 9 ∷ []) w')
      (IsLegal good)
      (accept_connection good 2 native_options start)
accept_connection-Walk_example = accept_connection-Walk good 2 native_options start begin

connect_endpoint-Walk_example :
    Post
      (λ _ w'. Connected good native_options w')
      (IsLegal good)
      (connect_endpoint good true native_options start)
connect_endpoint-Walk_example = connect_endpoint-Walk good true native_options start begin

dial-Walk_example :
    Post
      (λ _ w'. Connected good native_options w')
      (IsLegal good)
      (dial good false (49 ∷ []) 4711 native_options start)
dial-Walk_example = dial-Walk good false (49 ∷ []) 4711 native_options start begin

nothing_held : owed good [] ≡ []
unfolding owed
nothing_held = refl

create-Keeps_example :
    Post
      (λ _. Keeps good nothing [])
      (MayLeak good nothing [])
      (create good false (49 ∷ []) 4711 native_options start)
create-Keeps_example =
    create-Keeps good false (49 ∷ []) 4711 native_options nothing [] start (begin, nothing_held)
