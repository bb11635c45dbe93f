-- ===== src/Connection/State.antt =====
-- The state of a connection: `NetworkConnection::Impl` of src/NetworkConnectionImpl.hpp and
-- `NetworkConnection::Platform` of src/Posix/NetworkConnectionPosix.hpp.
use system_abstractions.Base.{ℕ, suc, ◌-◌, Bool, true, false, List, [], ◌∷◌, Option, none, some}
use system_abstractions.DataQueue
use system_abstractions.DataQueue.{Buffer, DataQueue}

-- The diagnostic messages, without the operating system's text for an error.
pub data Message : Type 0 where
  create_socket_failed bind_failed connect_failed signal_failed : Message
  not_connected already_processing : Message
  closed_abruptly closed_gracefully closing_connection closed_connection : Message

-- What the code does to the outside. `none` for a socket is -1.
pub data Effect : Type 0 where
  calls_recv : Option ℕ → Effect
  calls_close : Option ℕ → Effect
  calls_shutdown : Option ℕ → Effect
  -- the bytes of a `send` that the operating system took
  sends : Option ℕ → Buffer → Effect
  signal_set signal_clear : Effect
  reports : ℕ → Message → Effect
  message_received : Buffer → Effect
  broken : Bool → Effect

-- Where the thread of `Processor` stands. It holds the mutex at `at_top`, `receiving` and `sending`;
-- at the others it waits in `select` or in a delegate, or is not there.
pub data Place : Type 0 where
  not_started : Place
  at_top selecting receiving sending : Place
  in_message in_broken_eof in_broken_last in_broken_close : Place
  finished : Place
  -- a delegate that is not set was called, or the queue was read past its end
  crashed : Place

pub record Connection : Type 0 where
  pub sock : Option ℕ
  pub peer_closed : Bool
  pub closing : Bool
  pub shutdown_sent : Bool
  pub processor_stop : Bool
  pub output_queue : DataQueue
  -- `messageReceivedDelegate != nullptr` and `brokenDelegate != nullptr`
  pub has_message_delegate : Bool
  pub has_broken_delegate : Bool
  pub peer_address : ℕ
  pub peer_port : ℕ
  pub bound_address : ℕ
  pub bound_port : ℕ
  -- the thread, and its variable `wait`
  pub place : Place
  pub wait : Bool
  -- how often the thread's signal was set and not cleared
  pub signals : ℕ
  -- the newest effect first
  pub trace : List Effect

unfoldable pub new : Connection
new = record {
  sock = none;
  peer_closed = false;
  closing = false;
  shutdown_sent = false;
  processor_stop = false;
  output_queue = DataQueue.new;
  has_message_delegate = false;
  has_broken_delegate = false;
  peer_address = 0;
  peer_port = 0;
  bound_address = 0;
  bound_port = 0;
  place = not_started;
  wait = true;
  signals = 0;
  trace = [];
}

-- `MakeConnectionFromExistingSocket`
unfoldable pub make_connection_from_existing_socket : ℕ → ℕ → ℕ → ℕ → ℕ → Connection
unfolding new
make_connection_from_existing_socket sock bound_address bound_port peer_address peer_port =
    record new {
      sock = some sock;
      bound_address = bound_address;
      bound_port = bound_port;
      peer_address = peer_address;
      peer_port = peer_port;
    }

abbrev pub note : Effect → Connection → Connection
note e c = record c { trace = e ∷ c.trace }

-- `Set` and `Clear` of `processorStateChangeSignal`
abbrev pub set_signal : Connection → Connection
set_signal c = note signal_set (record c { signals = suc c.signals })

abbrev pub clear_signal : Connection → Connection
clear_signal c = note signal_clear (record c { signals = c.signals - 1 })

-- `processor.joinable()`: the thread was started and never joined.
unfoldable pub joinable : Place → Bool
joinable not_started = false
joinable _ = true

unfoldable pub is_connected : Connection → Bool
is_connected c = elim c.sock [ none ↦ false | some s ↦ true ]
