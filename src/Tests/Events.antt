-- ===== src/Tests/Events.antt =====
-- Asynchronous events, the allocator, the creation of rings, and the shared queue.
use know_your_memory.Common.{
  ℕ, ◌+◌, ◌≡◌, refl, inl, false, Option, none, some, List, [], ◌∷◌, ◌++◌, map, arith, if◌then◌else◌,
  ◌==◌,
}
use know_your_memory.Error.{Status, success, failure, unknown, text}
use know_your_memory.Async.{
  AsyncEvent, EventType, qp_fatal, port_active, Handler, log_line, run_async_event_handler,
  run_async_event_handler-Ended, Ended, trail_async_events, trail_async_events_lem, until_failure,
}
use know_your_memory.Allocator
use know_your_memory.Ring.Types.{Buffer}
use know_your_memory.Ring.Mapping.{
  Answers, Documented, mappings, get_magic_buffer, free_magic_buffer,
}
use know_your_memory.Ring.Magic.{new_ring}
use know_your_memory.Ring.Creation.{
  Made, new_magic_ring_buffer, new_magic_ring_buffer-Made, close_ring,
  close_ring-new_magic_ring_buffer,
}
use know_your_memory.Queue.{Posted, get_receive_queue}
use know_your_memory.Queue.SharedSetup.{
  SetUpAlike, as_status, get_shared_receive_queue, get_shared_receive_queue-get_receive_queue,
}

abbrev broken : AsyncEvent
broken = record { event_type = qp_fatal; element = 5 }

abbrev link_up : AsyncEvent
link_up = record { event_type = port_active; element = 1 }

-- A handler that counts events, and refuses those of queue pairs.
abbrev accepts_ports : EventType → Status
accepts_ports qp_fatal = failure unknown (text "queue pair" ∷ [])
accepts_ports _ = success

abbrev counting : Handler ℕ
counting e n = (accepts_ports e.event_type, n + 1)

abbrev answers : List (Option AsyncEvent)
answers = some link_up ∷ some broken ∷ some link_up ∷ none ∷ []

run_async_event_handler-Ended_example :
    Ended counting 0 answers (run_async_event_handler counting 0 answers)
run_async_event_handler-Ended_example = run_async_event_handler-Ended counting 0 answers

trail_async_events_lem_example :
    let p = trail_async_events "mlx5_0" [] answers in
    (p.state ≡ [] ++ map (log_line "mlx5_0") (until_failure answers))
    × (p.acked ≡ until_failure answers)
trail_async_events_lem_example = trail_async_events_lem "mlx5_0" [] answers

abbrev a_heap : Allocator.Heap
a_heap = record { buffers = 100 ∷ []; regions = 7 ∷ [] }

free-alloc_example :
    let (stat, h') =
      Allocator.free 0
        (record { context = 8; addr = 200; length = 16; lkey = 3 })
        (Allocator.alloc 200 8 3 16 a_heap).1 in
    if 0 == 0
    then (stat ≡ success) × (h' ≡ a_heap)
    else (stat.code ≡ unknown) × (h' ≡ (Allocator.alloc 200 8 3 16 a_heap).1)
unfolding Allocator.alloc
free-alloc_example = Allocator.free-alloc 200 8 3 16 0 a_heap _ refl

abbrev os : Answers
os = record {
  reserved = 4096;
  segment = some 5;
  first = 4096;
  second = 8192;
  rm_failed = false;
  errno = 0;
}

os-Documented : Documented os 4096
os-Documented = record { first_as_asked = inl refl; second_as_asked = inl refl }

new_magic_ring_buffer-Made_example : Made 4096 (new_magic_ring_buffer os (some 9) 0 0 0 4096)
new_magic_ring_buffer-Made_example =
    new_magic_ring_buffer-Made os (some 9) 0 4096 os-Documented (omega arith) (omega arith)
      (omega arith)

abbrev a_ring : Buffer
a_ring = record { addr = 4096; lkey = 9; head = 0; outstanding = []; read_ptr = 0; length = 4096 }

close_ring-new_magic_ring_buffer_example :
    mappings [] ((new_magic_ring_buffer os (some 9) 0 0 0 4096).1 ++ (close_ring 0 0 0 0 a_ring).1)
    ≡ []
unfolding new_magic_ring_buffer close_ring free_magic_buffer get_magic_buffer new_ring
close_ring-new_magic_ring_buffer_example =
    close_ring-new_magic_ring_buffer os (some 9) 0 4096 os-Documented (omega arith) (omega arith)
      (omega arith) a_ring 0 0 0 refl refl

-- The third buffer cannot be posted.
abbrev posts : Posted → ℕ
posts b = if b.wr_id == 2 then 12 else 0

get_shared_receive_queue-get_receive_queue_example :
    SetUpAlike {Q = List ℕ}
      (get_shared_receive_queue 77 0 posts 4096 3 128 4)
      (get_receive_queue (as_status posts) 4096 3 128 4)
get_shared_receive_queue-get_receive_queue_example =
    get_shared_receive_queue-get_receive_queue (List ℕ) 77 0 posts 4096 3 128 4 refl
