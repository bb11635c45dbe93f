-- ===== src/Endpoint/Tests.antt =====
-- Runs of an endpoint at concrete inputs.
use system_abstractions.Base.{
  ◌+◌, ◌≡◌, refl, true, false, ◌&&◌, ◌==◌, List, [], ◌∷◌, none, some, arith, if◌then◌else◌,
}
use system_abstractions.Endpoint.State.{
  multicast_receive, Packet, send_truncated, calls_recvfrom, sends, calls_close, signal_set,
  signal_clear, reports, closing, packet_received, not_started, at_top, selecting, finished,
  Endpoint, new, joinable, send_packet, close_stop, join, close_socket,
}
use system_abstractions.Endpoint.Open.{
  OpenAnswers, open_endpoint, addresses_of, get_interface_addresses,
}
use system_abstractions.Endpoint.Processor.{
  Accepted, Arrived, arrived, Sent, taken, loop_head, select_returns, receive, receive_by_mode,
  after_accept, after_recvfrom, pop_sent, after_sendto, send_part, delegate_returns, is_empty,
}
use system_abstractions.Endpoint.System.{
  Action, heads, selects, receives, returns, sends_packet, enqueues, stops, joins, step, run,
  can_lock, then_close, is_at_top, is_selecting, is_receiving, is_sending,
}
use system_abstractions.Endpoint.System.Packets.{Delivers, run-Delivers}
use system_abstractions.Endpoint.System.Sockets.{Owns, run-Owns, is_running, is_open, closes_in}
use system_abstractions.Endpoint.System.Opening.{one_if, sets_up, starts, open_lem}
use system_abstractions.Endpoint.System.Stopping.{Answers, thread_steps, stopped_thread_ends}

abbrev ping : Packet
ping = record { address = 9; port = 53; body = 1 ∷ 2 ∷ [] }

abbrev pong : Packet
pong = record { address = 9; port = 54; body = 3 ∷ [] }

-- A datagram endpoint whose thread has just begun.
abbrev server : Endpoint
server = record new { sock = some 4; port = 80; place = at_top }

-- One packet comes, the delegate answers it, another packet waits, and the endpoint is closed.
abbrev script : List Action
script =
    heads
    ∷ selects false true
    ∷ receives Accepted.would_block (arrived 9 53 (7 ∷ []))
    ∷ enqueues ping
    ∷ returns
    ∷ sends_packet (taken 1)
    ∷ heads
    ∷ selects false false
    ∷ receives Accepted.would_block Arrived.would_block
    ∷ sends_packet Sent.would_block
    ∷ heads
    ∷ enqueues pong
    ∷ stops
    ∷ selects true false
    ∷ receives Accepted.would_block Arrived.would_block
    ∷ sends_packet Sent.would_block
    ∷ heads
    ∷ joins
    ∷ []

abbrev after_script : Endpoint
after_script = record server {
  sock = none;
  processor_stop = true;
  output_queue = pong ∷ [];
  place = not_started;
  trace =
      calls_close (some 4)
      ∷ reports 0 closing
      ∷ signal_clear
      ∷ signal_set
      ∷ signal_set
      ∷ reports 10 send_truncated
      ∷ sends (some 4) ping 1
      ∷ signal_set
      ∷ packet_received 9 53 (7 ∷ [])
      ∷ calls_recvfrom (some 4)
      ∷ [];
}

run-script : run server script ≡ some after_script
unfolding run step new is_at_top is_selecting is_receiving is_sending can_lock loop_head
    select_returns receive receive_by_mode after_accept after_recvfrom pop_sent after_sendto
    send_part delegate_returns is_empty send_packet close_stop joinable join close_socket
run-script = refl

run-Delivers_example : Delivers (ping ∷ pong ∷ []) after_script
unfolding new
run-Delivers_example = run-Delivers script (record { all = refl }) run-script

run-Owns_example : Owns 0 after_script
unfolding new is_open
run-Owns_example =
    run-Owns script (record { has_socket = λ r. refl; closed_once = refl; sound = refl }) run-script

-- A multicast receiver that cannot join the group on the second of its two interfaces.
abbrev answers : OpenAnswers
answers = record {
  socket = some 5;
  interface_set = true;
  reuse_set = true;
  bind_succeeds = true;
  interfaces = some (
      record { is_up = true; interface_address = some (true, 1) }
      ∷ record { is_up = false; interface_address = some (true, 2) }
      ∷ record { is_up = true; interface_address = some (true, 3) }
      ∷ []);
  membership_added = λ a. if a == 3 then false else true;
  bound_port = none;
  signal_works = true;
  listen_succeeds = true;
}

open_lem_example :
    let done =
      is_open answers.socket
      && (sets_up multicast_receive answers && starts multicast_receive answers) in
    (e' : Endpoint) × (open_endpoint after_script multicast_receive 0 7 80 answers
      ≡ some (e', done))
    × (e'.sock ≡ (if sets_up multicast_receive answers then answers.socket else none))
    × (e'.place ≡ (if done then at_top else not_started))
    × (closes_in e'.trace
        ≡ one_if
            (is_open answers.socket && (if sets_up multicast_receive answers then false else true))
          + (one_if (is_open after_script.sock) + closes_in after_script.trace))
unfolding is_running
open_lem_example = open_lem after_script multicast_receive 0 7 80 answers refl

refused : sets_up multicast_receive answers ≡ false
unfolding get_interface_addresses addresses_of
refused = refl

abbrev nothing_comes : Answers
nothing_comes = record {
  signalled = true;
  readable = false;
  from_accept = Accepted.would_block;
  from_recvfrom = Arrived.would_block;
  from_sendto = taken 2;
}

abbrev five : List Answers
five = nothing_comes ∷ nothing_comes ∷ nothing_comes ∷ nothing_comes ∷ nothing_comes ∷ []

abbrev busy : Endpoint
busy = record server { place = selecting; output_queue = ping ∷ pong ∷ [] }

stopped_thread_ends_example :
    let last = thread_steps (close_stop busy) five in
    (last.place ≡ finished)
    × ((e' : Endpoint) × (then_close (join last) ≡ some e')
        × (e'.sock ≡ none)
        × (e'.place ≡ not_started))
unfolding joinable
stopped_thread_ends_example = stopped_thread_ends busy five refl (omega arith)
