-- ===== src/Connection/Tests.antt =====
-- Runs of a connection at concrete inputs.
use system_abstractions.Base.{
  length, ◌⊎◌, ◌≤◌, ◌≡◌, refl, true, false, List, [], ◌∷◌, Option, none, some, arith, ◌+◌, ◌&&◌,
  if◌then◌else◌,
}
use system_abstractions.DataQueue
use system_abstractions.DataQueue.{
  dequeue, peek, remove, enqueue, dequeue_impl, start, dequeue_loop, round_at, round, take_whole,
  take_part, is_whole, bytes_to_consume, get_bytes_queued,
}
use system_abstractions.Connection.State.{
  calls_recv, calls_close, calls_shutdown, sends, broken, message_received, signal_set,
  signal_clear, closed_connection, closed_gracefully, closing_connection, already_processing,
  reports, finished, selecting, sending, at_top, Connection, new,
  make_connection_from_existing_socket, joinable, is_connected,
}
use system_abstractions.Connection.Calls.{
  ConnectAnswers, close_immediately, close_stop, close_open, close_locked, close, close_by_client,
  send_message, connect, start_processor, process,
}
use system_abstractions.Connection.Processor.{
  bytes, end_of_stream, would_block, Sent, taken, loop_head, select_returns, close_and_leave,
  after_recv, receive, finish_close, send_shutdown, settle, drop_sent, after_send, send_bytes,
  send_part, delegate_returns,
}
use system_abstractions.Connection.System.{
  Action, heads, selects, receives, sends_part, returns, enqueues, closes, step, run, sent_bytes,
  mutex_free, is_at_top, is_selecting, is_receiving, is_sending, is_in_delegate, recv_can, send_can,
  select_can,
}
use system_abstractions.Connection.System.Stream.{Streams, run-Streams}
use system_abstractions.Connection.System.Notices.{Told, run-Told, closes_in, lost_in, one_if}
use system_abstractions.Connection.System.Shutdown.{shuts_down_after_all}
use system_abstractions.Connection.System.Stopping.{CanGo, stopped_thread_goes_to_its_end}
use system_abstractions.Connection.System.Outcomes.{
  accepted, accepted-Streams, accepted-Told, connects, is_open, connect_lem,
}

abbrev server : Connection
server = accepted 7 1 80 2 5000

-- Two messages, of which the first is sent in two parts; the peer ends its stream, and the
-- connection is closed gracefully.
abbrev talk : List Action
talk =
    heads
    ∷ enqueues (1 ∷ 2 ∷ [])
    ∷ selects true
    ∷ receives (bytes (9 ∷ []))
    ∷ enqueues (3 ∷ [])
    ∷ returns
    ∷ sends_part (taken 1)
    ∷ heads
    ∷ receives would_block
    ∷ sends_part Sent.would_block
    ∷ heads
    ∷ closes true
    ∷ selects true
    ∷ receives end_of_stream
    ∷ returns
    ∷ sends_part (taken 2)
    ∷ returns
    ∷ heads
    ∷ []

abbrev or_new : Option Connection → Connection
or_new none = new
or_new (some c) = c

abbrev after_talk : Connection
after_talk = record server {
  sock = none;
  place = finished;
  peer_closed = true;
  closing = true;
  shutdown_sent = true;
  signals = 1;
  trace =
      broken false
      ∷ reports 1 closed_connection
      ∷ calls_close (some 7)
      ∷ calls_shutdown (some 7)
      ∷ sends (some 7) (2 ∷ 3 ∷ [])
      ∷ broken true
      ∷ reports 1 closed_gracefully
      ∷ calls_recv (some 7)
      ∷ signal_clear
      ∷ signal_set
      ∷ reports 1 closing_connection
      ∷ calls_recv (some 7)
      ∷ sends (some 7) (1 ∷ [])
      ∷ signal_set
      ∷ message_received (9 ∷ [])
      ∷ calls_recv (some 7)
      ∷ signal_clear
      ∷ signal_set
      ∷ signal_clear
      ∷ [];
}

run-talk : run server talk ≡ some after_talk
unfolding run step process make_connection_from_existing_socket new joinable is_connected mutex_free
    is_at_top is_selecting is_receiving is_sending is_in_delegate recv_can send_can select_can
    start_processor close_by_client close close_stop close_locked close_open close_immediately
    send_message loop_head select_returns receive after_recv close_and_leave finish_close
    send_shutdown settle drop_sent after_send send_bytes send_part delegate_returns DataQueue.new
    enqueue dequeue peek remove dequeue_impl start dequeue_loop round_at round take_whole take_part
    is_whole bytes_to_consume get_bytes_queued
run-talk = refl

run-Streams_example : Streams (1 ∷ 2 ∷ 3 ∷ []) after_talk
run-Streams_example = run-Streams talk (accepted-Streams 7 1 80 2 5000) (omega arith) run-talk

run-Told_example : Told after_talk
run-Told_example =
    run-Told talk (accepted-Streams 7 1 80 2 5000) (accepted-Told 7 1 80 2 5000) (omega arith)
      run-talk

-- A connection whose thread waits.
abbrev waiting : Connection
waiting = record new { sock = some 7; place = selecting; has_broken_delegate = true }

-- A connection whose thread has ended, with a new socket.
abbrev over : Connection
over = record new { sock = some 7; place = finished }

abbrev over_again : Connection
over_again = record over {
  has_message_delegate = true;
  has_broken_delegate = true;
  output_queue = record { elements = record { buf = 1 ∷ []; consumed = 0 } ∷ []; total_bytes = 1 };
  trace = signal_set ∷ reports 5 already_processing ∷ [];
}

abbrev answers : ConnectAnswers
answers = record { socket = some 8; bind_succeeds = true; connect_succeeds = false; bound = none }

connect_lem_example :
    let (c', done) = connect waiting 3 90 answers in
    (done ≡ connects answers)
    × (c'.sock ≡ (if connects answers then answers.socket else none))
    × (lost_in c'.trace
        ≡ one_if (is_open waiting.sock && waiting.has_broken_delegate) + lost_in waiting.trace)
    × (closes_in c'.trace
        ≡ one_if (is_open waiting.sock)
          + (one_if (is_open answers.socket && (if connects answers then false else true))
              + closes_in waiting.trace))
    × (c'.peer_address ≡ 3)
    × (c'.peer_port ≡ 90)
connect_lem_example = connect_lem waiting 3 90 answers

-- A byte is given, and the connection is closed gracefully before it is sent.
abbrev draining : Connection
draining = record server {
  closing = true;
  output_queue = record { elements = record { buf = 5 ∷ []; consumed = 0 } ∷ []; total_bytes = 1 };
  place = sending;
  signals = 1;
  trace =
      calls_recv (some 7)
      ∷ signal_clear
      ∷ signal_set
      ∷ reports 1 closing_connection
      ∷ signal_set
      ∷ signal_clear
      ∷ [];
}

abbrev shut : Connection
shut = record draining {
  shutdown_sent = true;
  output_queue = record { elements = []; total_bytes = 0 };
  place = at_top;
  trace = calls_shutdown (some 7) ∷ sends (some 7) (5 ∷ []) ∷ draining.trace;
}

abbrev before_shut : List Action
before_shut = heads ∷ enqueues (5 ∷ []) ∷ closes true ∷ selects true ∷ receives would_block ∷ []

run-draining : run server before_shut ≡ some draining
unfolding run step process make_connection_from_existing_socket new joinable is_connected mutex_free
    is_at_top is_selecting is_receiving is_sending is_in_delegate recv_can send_can select_can
    start_processor close_by_client close close_stop close_locked close_open close_immediately
    send_message loop_head select_returns receive after_recv close_and_leave finish_close
    send_shutdown settle drop_sent after_send send_bytes send_part delegate_returns DataQueue.new
    enqueue dequeue peek remove dequeue_impl start dequeue_loop round_at round take_whole take_part
    is_whole bytes_to_consume get_bytes_queued
run-draining = refl

step-shut : step draining (sends_part (taken 1)) ≡ some shut
unfolding run step process make_connection_from_existing_socket new joinable is_connected mutex_free
    is_at_top is_selecting is_receiving is_sending is_in_delegate recv_can send_can select_can
    start_processor close_by_client close close_stop close_locked close_open close_immediately
    send_message loop_head select_returns receive after_recv close_and_leave finish_close
    send_shutdown settle drop_sent after_send send_bytes send_part delegate_returns DataQueue.new
    enqueue dequeue peek remove dequeue_impl start dequeue_loop round_at round take_whole take_part
    is_whole bytes_to_consume get_bytes_queued
step-shut = refl

shuts_down_after_all_example : (sent_bytes shut.trace ≡ 5 ∷ []) × (shut.closing ≡ true)
shuts_down_after_all_example =
    shuts_down_after_all before_shut (sends_part (taken 1)) (accepted-Streams 7 1 80 2 5000)
      (omega arith) run-draining step-shut (λ e. one_more e)
  where
    one_more : 1 + 0 ≡ 0 → ⊥
    one_more e = absurd (omega arith)

-- The thread waits in `select` when `Close` asks it to stop, and goes to its end.
abbrev waiting_server : Connection
waiting_server = record server { place = selecting }

run-waiting : run server (heads ∷ []) ≡ some waiting_server
unfolding run step process make_connection_from_existing_socket new joinable is_connected mutex_free
    is_at_top is_selecting is_receiving is_sending is_in_delegate recv_can send_can select_can
    start_processor close_by_client close close_stop close_locked close_open close_immediately
    send_message loop_head select_returns receive after_recv close_and_leave finish_close
    send_shutdown settle drop_sent after_send send_bytes send_part delegate_returns DataQueue.new
    enqueue dequeue peek remove dequeue_impl start dequeue_loop round_at round take_whole take_part
    is_whole bytes_to_consume get_bytes_queued
run-waiting = refl

abbrev last_steps : List Action
last_steps = selects true ∷ receives would_block ∷ sends_part Sent.would_block ∷ heads ∷ []

abbrev stopped : Connection
stopped = record server {
  processor_stop = true;
  place = finished;
  trace = calls_recv (some 7) ∷ signal_clear ∷ signal_set ∷ signal_clear ∷ [];
}

stopped_thread_goes_to_its_end_example :
    (length last_steps ≤ 6) × ((stopped.place ≡ finished) ⊎ CanGo stopped)
unfolding run step process make_connection_from_existing_socket new joinable is_connected mutex_free
    is_at_top is_selecting is_receiving is_sending is_in_delegate recv_can send_can select_can
    start_processor close_by_client close close_stop close_locked close_open close_immediately
    send_message loop_head select_returns receive after_recv close_and_leave finish_close
    send_shutdown settle drop_sent after_send send_bytes send_part delegate_returns DataQueue.new
    enqueue dequeue peek remove dequeue_impl start dequeue_loop round_at round take_whole take_part
    is_whole bytes_to_consume get_bytes_queued
stopped_thread_goes_to_its_end_example =
    stopped_thread_goes_to_its_end waiting_server last_steps {c' = stopped}
      (run-Streams (heads ∷ []) (accepted-Streams 7 1 80 2 5000) (omega arith) run-waiting)
      (run-Told (heads ∷ []) (accepted-Streams 7 1 80 2 5000) (accepted-Told 7 1 80 2 5000)
        (omega arith) run-waiting)
      refl refl refl
