-- ===== src/Connection/Processor.antt =====
-- The thread of a connection: `Impl::Processor` of src/Posix/NetworkConnectionPosix.cpp, cut where
-- it gives up the mutex or calls the operating system.
use system_abstractions.Base.{
  ℕ, min, Bool, true, false, ◌&&◌, none, some, ltb, ◌==◌, if◌then◌else◌, take,
}
use system_abstractions.DataQueue
use system_abstractions.DataQueue.{Buffer, DataQueue}
use system_abstractions.Connection.State.{
  closed_abruptly, closed_gracefully, calls_recv, calls_shutdown, sends, clear_signal, reports,
  message_received, broken, Place, at_top, selecting, receiving, sending, in_message, in_broken_eof,
  in_broken_last, in_broken_close, finished, crashed, Connection, note,
}
use system_abstractions.Connection.Calls.{close, close_immediately, immediate_do_not_stop_processor}

abbrev pub maximum_read_size : ℕ
maximum_read_size = 65536

abbrev pub maximum_write_size : ℕ
maximum_write_size = 65536

-- What `recv` answers: some bytes, the end of the stream, EWOULDBLOCK, or another error.
pub data Received : Type 0 where
  bytes : Buffer → Received
  end_of_stream would_block failed : Received

-- What `send` answers: a number of bytes taken, EWOULDBLOCK, or another error.
pub data Sent : Type 0 where
  taken : ℕ → Sent
  would_block failed : Sent

abbrev pub go : Place → Connection → Connection
go p c = record c { place = p }

-- The head of the loop.
unfoldable pub loop_head : Connection → Connection
loop_head c = if c.processor_stop then go finished c else elim c.sock [
  | none ↦ go finished c
  | some s ↦ if c.wait then go selecting c else go receiving c
]

-- Behind `select`, with the mutex taken again: whether the signal was among what was ready.
unfoldable pub select_returns : Connection → Bool → Connection
select_returns c signalled = if signalled then clear_signal (go receiving c) else go receiving c

-- `if (Close(ImmediateDoNotStopProcessor)) { brokenDelegate(false); } break;`, behind its report.
abbrev pub told_or_done : Connection × Bool → Connection
told_or_done (c, tell) = if tell then note (broken false) (go in_broken_last c) else go finished c

unfoldable pub close_and_leave : Connection → Connection
unfolding close
close_and_leave c = told_or_done (close c immediate_do_not_stop_processor)

unfoldable pub after_recv : Connection → Received → Connection
unfolding close_and_leave
after_recv c (bytes b) =
    if c.has_message_delegate
    then note (message_received b) (record c { wait = false; place = in_message })
    else record c { wait = false; place = crashed }
after_recv c end_of_stream =
    let told = note (reports 1 closed_gracefully) (record c { peer_closed = true }) in
    if c.has_broken_delegate then note (broken true) (go in_broken_eof told) else go crashed told
after_recv c would_block = go sending c
after_recv c failed = close_and_leave (note (reports 1 closed_abruptly) c)

-- The receiving part of the loop's body. After a graceful close by the peer it makes no call.
unfoldable pub receive : Connection → Received → Connection
unfolding after_recv
receive c answer =
    if c.peer_closed
    then record c { wait = true; place = sending }
    else after_recv (note (calls_recv c.sock) (record c { wait = true })) answer

-- The end of the loop's body: a graceful close goes on once everything is sent.
unfoldable pub finish_close : Connection → Connection
unfolding close_immediately
finish_close c =
    if c.peer_closed
    then if c.has_broken_delegate
      then note (broken false) (go in_broken_close (close_immediately c))
      else go at_top (close_immediately c)
    else go at_top c

unfoldable pub send_shutdown : Connection → Connection
send_shutdown c =
    if c.shutdown_sent then c else note (calls_shutdown c.sock) (record c { shutdown_sent = true })

unfoldable pub settle : Connection → Connection
unfolding finish_close send_shutdown
settle c =
    if DataQueue.get_bytes_queued c.output_queue == 0 && c.closing
    then finish_close (send_shutdown c)
    else go at_top c

abbrev pub write_size : Connection → ℕ
write_size c = min (DataQueue.get_bytes_queued c.output_queue) maximum_write_size

-- `n` bytes were taken of the `Peek`ed buffer `b`: they are dropped from the queue.
unfoldable pub drop_sent : Connection → Buffer → ℕ → Connection
drop_sent c b n = elim (DataQueue.remove c.output_queue n) [
  | none ↦ go crashed c
  | some q ↦ settle (
      note (sends c.sock (take n b)) (record c {
        output_queue = q;
        wait =
            if (n == write_size c) && ltb 0 (DataQueue.get_bytes_queued q) then false else c.wait;
      }))
]

unfoldable pub after_send : Connection → Buffer → Sent → Connection
after_send c b would_block = settle c
after_send c b failed = close_and_leave (note (reports 1 closed_abruptly) c)
after_send c b (taken n) = if ltb 0 n then drop_sent c b n else close_and_leave c

unfoldable pub send_bytes : Connection → Sent → Connection
send_bytes c answer = elim (DataQueue.peek c.output_queue (write_size c)) [
  | none ↦ go crashed c
  | some (b, q) ↦ after_send (record c { output_queue = q }) b answer
]

-- The sending part of the loop's body.
unfoldable pub send_part : Connection → Sent → Connection
send_part c answer = elim c.sock [
  | none ↦ go finished c
  | some s ↦
      if ltb 0 (DataQueue.get_bytes_queued c.output_queue) then send_bytes c answer else settle c
]

-- A delegate returns, and the mutex is taken again.
unfoldable pub delegate_returns : Connection → Connection
delegate_returns c = elim c.place [
  | in_message ↦ go sending c
  | in_broken_eof ↦ go sending c
  | in_broken_last ↦ go finished c
  | in_broken_close ↦ go at_top c
  | _ ↦ c
]
