-- ===== src/Endpoint/Windows/Tests.antt =====
-- Runs of an endpoint on Windows at concrete inputs.
use system_abstractions.Base.{
  ◌+◌, ◌≡◌, refl, true, false, ◌&&◌, List, [], ◌∷◌, none, some, if◌then◌else◌,
}
use system_abstractions.Endpoint.State.{
  datagram, Packet, send_truncated, calls_recvfrom, sends, calls_close, signal_set, reports,
  closing, packet_received, not_started, at_top, finished, Endpoint, new, joinable, send_packet,
  close_stop, close_socket,
}
use system_abstractions.Endpoint.Processor.{
  Accepted, Arrived, arrived, Sent, taken, loop_head, receive_by_mode, after_accept, after_recvfrom,
  pop_sent, after_sendto, send_part, delegate_returns, is_empty,
}
use system_abstractions.Endpoint.System.{
  Action, heads, selects, receives, returns, sends_packet, enqueues, stops, joins, can_lock,
  is_at_top, is_selecting, is_receiving, is_sending,
}
use system_abstractions.Endpoint.System.Packets.{Delivers}
use system_abstractions.Endpoint.System.Sockets.{Owns, is_open, closes_in}
use system_abstractions.Endpoint.System.Opening.{one_if, sets_up}
use system_abstractions.Endpoint.Windows.{
  Events, WindowsAnswers, with_adapters, open_socket, wait_returns, receive, join_and_close, step,
  run,
}
use system_abstractions.Endpoint.Windows.Packets.{run-Delivers_in_order}
use system_abstractions.Endpoint.Windows.Sockets.{run-Owns_its_socket}
use system_abstractions.Endpoint.Windows.Opening.{begins, open_socket_lem}

abbrev ping : Packet
ping = record { address = 9; port = 53; body = 1 ∷ 2 ∷ [] }

abbrev pong : Packet
pong = record { address = 9; port = 54; body = 3 ∷ [] }

-- A datagram endpoint whose thread has just begun.
abbrev server : Endpoint
server = record new { sock = some 4; port = 80; place = at_top }

-- One packet comes, the delegate answers it, and another packet waits while the thread stops.
abbrev script : List Action
script =
    heads
    ∷ selects false false
    ∷ receives Accepted.would_block (arrived 9 53 (7 ∷ []))
    ∷ enqueues ping
    ∷ returns
    ∷ sends_packet (taken 1)
    ∷ heads
    ∷ enqueues pong
    ∷ stops
    ∷ selects false false
    ∷ receives Accepted.would_block Arrived.would_block
    ∷ sends_packet Sent.would_block
    ∷ heads
    ∷ []

abbrev after_script : Endpoint
after_script = record server {
  processor_stop = true;
  output_queue = pong ∷ [];
  place = finished;
  trace =
      calls_recvfrom (some 4)
      ∷ signal_set
      ∷ signal_set
      ∷ reports 10 send_truncated
      ∷ sends (some 4) ping 1
      ∷ signal_set
      ∷ packet_received 9 53 (7 ∷ [])
      ∷ calls_recvfrom (some 4)
      ∷ [];
}

run-script : run server script ≡ some after_script
unfolding run step new is_at_top is_selecting is_receiving is_sending can_lock loop_head
    wait_returns receive receive_by_mode after_accept after_recvfrom pop_sent after_sendto send_part
    delegate_returns is_empty send_packet close_stop joinable
run-script = refl

run-Delivers_in_order_example : Delivers (ping ∷ pong ∷ []) after_script
unfolding new
run-Delivers_in_order_example = run-Delivers_in_order script refl (record { all = refl }) run-script

abbrev closed : Endpoint
closed = record after_script {
  sock = none;
  output_queue = [];
  place = not_started;
  trace = calls_close (some 4) ∷ reports 0 closing ∷ after_script.trace;
}

-- The packet that waits is thrown away.
run-closed : run after_script (joins ∷ []) ≡ some closed
unfolding run step new join_and_close close_socket
run-closed = refl

run-Owns_its_socket_example : Owns 0 closed
unfolding new is_open
run-Owns_its_socket_example =
    run-Owns_its_socket (joins ∷ [])
      (record { has_socket = λ r. refl; closed_once = refl; sound = refl }) run-closed

-- A datagram endpoint on a port that the system chooses, with an event that cannot be made.
abbrev answers : WindowsAnswers
answers = record {
  posix = record {
    socket = some 5;
    interface_set = true;
    reuse_set = true;
    bind_succeeds = true;
    interfaces = none;
    membership_added = λ a. true;
    bound_port = some 5000;
    signal_works = true;
    listen_succeeds = true;
  };
  adapters = some ((true, 1 ∷ []) ∷ []);
  state_change = some 8;
  socket = none;
  selected = true;
}

abbrev no_events : Events
no_events = record { state_change = none; socket = none }

open_socket_lem_example :
    let done =
      is_open answers.posix.socket
      && (sets_up datagram (with_adapters answers) && begins datagram answers no_events) in
    ((open_socket answers no_events new).2 ≡ done)
    × ((open_socket answers no_events new).1.sock ≡ (if done then answers.posix.socket else none))
    × ((open_socket answers no_events new).1.place ≡ (if done then at_top else not_started))
    × (closes_in (open_socket answers no_events new).1.trace
        ≡ one_if (is_open answers.posix.socket && (if done then false else true))
          + closes_in new.trace)
unfolding new
open_socket_lem_example = open_socket_lem answers no_events new
