-- ===== src/Connection/Windows/Tests.antt =====
-- A run of a connection on Windows.
use system_abstractions.Connection.Windows
use system_abstractions.Connection.Windows.Stream.{run_in_order}
use system_abstractions.Connection.Windows.Notices.{run_tells_once}
use system_abstractions.Connection.Windows.Stopping.{CanGo, stopped_processor_ends}
use system_abstractions.Base.{
  length, ◌⊎◌, ◌≤◌, ◌≡◌, refl, true, false, List, [], ◌∷◌, none, some, arith,
}
use system_abstractions.DataQueue
use system_abstractions.DataQueue.{
  dequeue, peek, remove, enqueue, dequeue_impl, start, dequeue_loop, round_at, round, take_whole,
  take_part, is_whole, bytes_to_consume, get_bytes_queued,
}
use system_abstractions.Connection.State.{
  calls_recv, calls_close, calls_shutdown, sends, broken, message_received, signal_set,
  signal_clear, closed_connection, closed_gracefully, closing_connection, reports, finished,
  selecting, Connection, new, make_connection_from_existing_socket, joinable, is_connected,
}
use system_abstractions.Connection.Calls.{
  close_immediately, close_stop, close_open, close_locked, close, close_by_client, send_message,
  start_processor, process,
}
use system_abstractions.Connection.Processor.{
  bytes, end_of_stream, would_block, Sent, taken, loop_head, close_and_leave, finish_close,
  send_shutdown, settle, drop_sent, after_send, send_bytes, send_part, delegate_returns,
}
use system_abstractions.Connection.System.{
  Action, heads, selects, receives, sends_part, returns, enqueues, closes, mutex_free, is_at_top,
  is_selecting, is_receiving, is_sending, is_in_delegate, recv_can, send_can, select_can,
}
use system_abstractions.Connection.System.Stream.{Streams}
use system_abstractions.Connection.System.Notices.{Told}
use system_abstractions.Connection.System.Outcomes.{accepted, accepted-Streams, accepted-Told}

abbrev server : Connection
server = accepted 7 1 80 2 5000

-- Two messages, of which the first is sent in two parts; the peer ends its stream, and the
-- connection is closed gracefully.
abbrev talk : List Action
talk =
    heads
    ∷ enqueues (1 ∷ 2 ∷ [])
    ∷ selects true
    ∷ receives (bytes (9 ∷ []))
    ∷ enqueues (3 ∷ [])
    ∷ returns
    ∷ sends_part (taken 1)
    ∷ heads
    ∷ receives would_block
    ∷ sends_part Sent.would_block
    ∷ heads
    ∷ closes true
    ∷ selects true
    ∷ receives end_of_stream
    ∷ returns
    ∷ sends_part (taken 2)
    ∷ returns
    ∷ heads
    ∷ []

abbrev after_talk : Connection
after_talk = record server {
  sock = none;
  place = finished;
  peer_closed = true;
  closing = true;
  shutdown_sent = true;
  trace =
      broken false
      ∷ reports 1 closed_connection
      ∷ calls_close (some 7)
      ∷ calls_shutdown (some 7)
      ∷ sends (some 7) (2 ∷ 3 ∷ [])
      ∷ broken true
      ∷ reports 1 closed_gracefully
      ∷ calls_recv (some 7)
      ∷ signal_set
      ∷ reports 1 closing_connection
      ∷ calls_recv (some 7)
      ∷ sends (some 7) (1 ∷ [])
      ∷ signal_set
      ∷ message_received (9 ∷ [])
      ∷ calls_recv (some 7)
      ∷ signal_set
      ∷ signal_clear
      ∷ [];
}

run-talk : Windows.run server talk ≡ some after_talk
unfolding Windows.step Windows.run Windows.receive Windows.after_recv Windows.wait_returns process
    make_connection_from_existing_socket new joinable is_connected mutex_free is_at_top is_selecting
    is_receiving is_sending is_in_delegate recv_can send_can select_can start_processor
    close_by_client close close_stop close_locked close_open close_immediately send_message
    loop_head close_and_leave finish_close send_shutdown settle drop_sent after_send send_bytes
    send_part delegate_returns DataQueue.new enqueue dequeue peek remove dequeue_impl start
    dequeue_loop round_at round take_whole take_part is_whole bytes_to_consume get_bytes_queued
run-talk = refl

run_in_order_example : Streams (1 ∷ 2 ∷ 3 ∷ []) after_talk
run_in_order_example = run_in_order talk (accepted-Streams 7 1 80 2 5000) (omega arith) run-talk

run_tells_once_example : Told after_talk
run_tells_once_example =
    run_tells_once talk (accepted-Streams 7 1 80 2 5000) (accepted-Told 7 1 80 2 5000) (omega arith)
      run-talk

-- The thread waits in `select` when `Close` asks it to stop, and goes to its end.
abbrev waiting_server : Connection
waiting_server = record server { place = selecting }

run-waiting : Windows.run server (heads ∷ []) ≡ some waiting_server
unfolding Windows.step Windows.run Windows.receive Windows.after_recv Windows.wait_returns process
    make_connection_from_existing_socket new joinable is_connected mutex_free is_at_top is_selecting
    is_receiving is_sending is_in_delegate recv_can send_can select_can start_processor
    close_by_client close close_stop close_locked close_open close_immediately send_message
    loop_head close_and_leave finish_close send_shutdown settle drop_sent after_send send_bytes
    send_part delegate_returns DataQueue.new enqueue dequeue peek remove dequeue_impl start
    dequeue_loop round_at round take_whole take_part is_whole bytes_to_consume get_bytes_queued
run-waiting = refl

abbrev last_steps : List Action
last_steps = selects true ∷ receives would_block ∷ sends_part Sent.would_block ∷ heads ∷ []

abbrev stopped : Connection
stopped = record server {
  processor_stop = true;
  place = finished;
  trace = calls_recv (some 7) ∷ signal_set ∷ signal_clear ∷ [];
}

stopped_processor_ends_example :
    (length last_steps ≤ 6) × ((stopped.place ≡ finished) ⊎ CanGo stopped)
unfolding Windows.step Windows.run Windows.receive Windows.after_recv Windows.wait_returns process
    make_connection_from_existing_socket new joinable is_connected mutex_free is_at_top is_selecting
    is_receiving is_sending is_in_delegate recv_can send_can select_can start_processor
    close_by_client close close_stop close_locked close_open close_immediately send_message
    loop_head close_and_leave finish_close send_shutdown settle drop_sent after_send send_bytes
    send_part delegate_returns DataQueue.new enqueue dequeue peek remove dequeue_impl start
    dequeue_loop round_at round take_whole take_part is_whole bytes_to_consume get_bytes_queued
stopped_processor_ends_example =
    stopped_processor_ends waiting_server last_steps {c' = stopped}
      (run_in_order (heads ∷ []) (accepted-Streams 7 1 80 2 5000) (omega arith) run-waiting)
      (run_tells_once (heads ∷ []) (accepted-Streams 7 1 80 2 5000) (accepted-Told 7 1 80 2 5000)
        (omega arith) run-waiting)
      refl refl refl
