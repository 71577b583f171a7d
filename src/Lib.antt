-- ===== src/Lib.antt =====
-- Verification library for KnowYourMemory, a library of message channels over RDMA.
--
-- The program. A receiver owns a ring of bytes (src/ring_buffer); the sender keeps a remote view of it,
-- asks that view where the next message goes, and writes the message there with an RDMA write that an
-- endpoint posts (src/endpoint.cpp). The receiver reads messages off the ring and frees them in any
-- order; the head of its ring travels back to the sender (tests/write/acknowledge.cpp). Messages by
-- send and receive go through queues of buffers instead (src/receive_queue.cpp,
-- src/shared_receive_queue.cpp, tests/send_recv). Endpoints are made, connected and accepted by
-- src/endpoint.cpp over the connection manager; src/bench measures any connection through the
-- interfaces of src/conn.hpp; src/async_events.cpp watches the device, and src/mm allocates buffers.
--
-- The files.
--   Common        names of the libraries, lists, tests on numbers, machine words (Words) and
--                 positions on a ring (Modular).
--   Error         src/error.hpp: Status, StatusOr, Status::Wrap.
--   Ring          src/ring_buffer. Types holds the state of the receiver's and the sender's classes
--                 and the body that the three Free methods share; Log is the specification of a
--                 receiver's ring, a log of regions with their marks. Magic (ring_buffer.cpp:
--                 MagicRingBuffer, MagicRemoteBuffer), Reverse (reverse_buffer.cpp) and Basic
--                 (ring_buffer.cpp: BasicRingBuffer, BasicRemoteBuffer) have one function for each
--                 method. Magic.Link is a step relation of a sender and a receiver of one ring.
--                 Mapping is magic_buffer.cpp, as a program over system calls, and Creation how the
--                 rings take that memory and give it back (NewMagicRingBuffer,
--                 NewReverseRingBuffer, Close).
--   Endpoint      src/endpoint.cpp. Requests: the work requests that the Post methods build.
--                 Completions: PollRecvCq, PollRecvCqOnce, PollSendCq, PollSendCqOnce. Delivery:
--                 what they deliver.
--   Queue         src/receive_queue.cpp: ReceiveQueue and GetReceiveQueue; Batch and History are about
--                 PostMR. Shared: src/shared_receive_queue.cpp, over the vendored queue as a record
--                 with its law; Shared.Posting is PostMR, Shared.Fetching and Shared.Rounds a round of
--                 Run, Shared.Threads a step relation of the threads and the device. SharedSetup:
--                 GetSharedReceiveQueue and the methods beside PostMR and Run.
--   Write         tests/write/write.cpp. RemoteRing and LocalRing are the abstract classes of
--                 ring_buffer.hpp, which Rings fills by the rings of src/ring_buffer. Memory is bytes
--                 by address. Sender is WriteSender, Receiver is WriteReceiver, Offset is
--                 WriteOffsetSender and WriteOffsetReceiver, Space is get_write_addr_or_die. Reverse is
--                 tests/write/reverse.cpp: WriteReverseSender and WriteReverseReceiver.
--   Ack           tests/write/acknowledge.cpp: both acknowledgers and their receivers.
--   SendReceive   tests/send_recv/send_receive.cpp: connections, batches, and the listener.
--   Effects       runs that change a state and end with a result, with a status or with the program:
--                 the monad of the next two, and what may be said of a run.
--   Setup         src/endpoint.cpp, the other half. Calls: options, ids and the calls of the verbs and
--                 of the connection manager. Accept: Listener::Accept, constructors, Close. Connect:
--                 Endpoint::Connect. Create: get_rdma_addr, Create, Dial, Listen. Walk is the life of
--                 a queue pair as a step relation on the calls (Server and Acceptance for Accept,
--                 Client and Connection for Connect); Addresses counts address infos.
--   Bench         src/bench/bench.cpp over the interfaces of src/conn.hpp as records. Warmup, Latency,
--                 Bandwidth and Receiving have one function for each function and for each loop;
--                 Latency.Fifo joins a sender and a receiver, Bandwidth.Window compares the arrays of
--                 the sending loops with a queue, Bandwidth.Pace notes the times of the sends for
--                 Limit.
--   Async         src/async_events.cpp: RunAsyncEventHandler, LogAsyncEvent, TrailAsyncEvents.
--   Allocator     src/mm/dumb_allocator.cpp: DumbAllocator.
--   Tests         the definitions and the theorems at concrete inputs.
--
-- How code becomes definitions. A method is a function from the object's state and its arguments to its
-- result and the new state. `uint32_t` and `uint64_t` are natural numbers with their wrap-around written
-- out (Common.Words). `none` stands for what the code leaves undefined, such as the front of an empty
-- list, or for a loop that has used up what its environment gave it. The environment is an argument: the
-- results of verbs and system calls, the completions and answers that a polling loop sees, the memory in
-- each round of a loop. Loops recurse on these lists, so there is no fuel; what a loop needs to end is
-- said in the theorem. `SharedReceiveQueue::Run` takes the number of its rounds. The busy loop of the
-- benchmarks gets as many readings of the clock as the clock says that it needs
-- (Bench.Clock.patience), which are enough (Bench.busy_until_ends). In Setup what a verb answers may
-- depend on all calls before it; a pointer is a number, and a null pointer that is used, an `assert`
-- that fails and a division by zero end the run. WITH_MANUAL_RDMACM is an argument.
--
-- What is assumed. Rings have a length between 1 and 2^31 and lie below the end of the address space
-- (Ring.Magic.Remote.IsValid), so sums of offsets do not wrap. Checksums are a parameter; where it
-- matters they have 32 bits, and the checksum of no bytes is 0, as documented for CRC-32. The vendored
-- queue gives out what was put in, in order. A verb that refuses a chain of receive requests posts those
-- in front of `*bad_wr`, as documented. In Write the memory is a snapshot for each round of a loop.
--
-- What is not modelled. The WriteImm classes and the batches of WriteSender in
-- tests/write/write.cpp, the Close methods and the Dial and Listen functions of the protocols under
-- tests, which only pass on what their parts return, the benchmark programs, and the protocols of
-- tests/read, tests/buffered_read, tests/direct_write and tests/write_atomic. In src/bench, `set_core_affinity` is one system call; the rates are
-- computed in floating point, of which Bench knows nothing but the integers that go in. Texts that
-- are only printed are left out, but for the lines of LogAsyncEvent, as is what happens after a
-- failed allocation that the code does not look at. Fields that the code leaves uninitialised and
-- hands to a verb, as some of `rdma_conn_param`, are not in the models of the structures.
pub mod Common
pub mod Error
pub mod Ring
pub mod Queue
pub mod Endpoint
pub mod Write
pub mod Ack
pub mod SendReceive
pub mod Effects
pub mod Async
pub mod Allocator
pub mod Bench
pub mod Setup
mod Tests
