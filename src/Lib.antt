-- ===== src/Lib.antt =====
-- SystemAbstractions: the parts of the C++ library that have logic of their own above the
-- operating system, for POSIX, and connections, endpoints, files
-- and child processes for Windows too.
--
-- How the parts interact. A NetworkConnection keeps the bytes to be sent in a DataQueue, reports by a
-- DiagnosticsSender, and has a thread of its own beside its clients. A DiagnosticsContext
-- puts a context on a DiagnosticsSender, and a DiagnosticsStreamReporter is a subscriber of one. A
-- StringFile is a file kept in memory. A NetworkEndpoint has a thread that accepts clients, for which
-- it makes NetworkConnection objects, or exchanges packets; the threads are woken by a PipeSignal.
-- A Subprocess starts a child, in which another Subprocess tells the first one over a pipe that it
-- ends, and closes the descriptors that File lists. A DirectoryMonitor has a thread that a PipeSignal
-- stops, and a Service one that waits for SIGTERM.
--
-- Which file models which part (paths from the root of the repository):
-- - Base: lists, Booleans and `size_t` arithmetic that the parts share.
-- - DataQueue: src/DataQueue.cpp. Buffers are lists of bytes, `Impl::Dequeue` is `dequeue_impl`, and
--   `Drop` is `remove`. DataQueue/Loop follows the loop, DataQueue/Refine and
--   DataQueue/Run compare the queue with a sequence of bytes.
-- - StringFile: src/StringFile.cpp. `value` and `position` are as in the source; the memory behind a
--   pointer is a list and an access out of range is `none`. `Peek`, `Read` and `Write` of a pointer
--   are `peek_raw`, `read_raw` and `write_raw`.
-- - Diagnostics/Sender: src/DiagnosticsSender.cpp. A delegate is a number, a text a list of bytes,
--   and a message is sent by the list of the calls of delegates that it makes.
--   Diagnostics/Context: src/DiagnosticsContext.cpp. Diagnostics/Reporter:
--   src/DiagnosticsStreamReporter.cpp.
-- - File: src/File.cpp and src/Posix/FilePosix.cpp, over the calls of the operating system as a
--   parameter: File.antt has the record and `CreatePath`, File/Handle the methods that use the handle,
--   File/Copying `Copy`. File/Tree: `ListDirectory`, `DeleteDirectory` and `CopyDirectory`, over what
--   the operating system answers about a directory, as a tree; an operation is the list of its calls.
--   File/Windows: src/Win32/FileWin32.cpp in the same manner, with `CreatePath` shared.
-- - PipeSignal: src/Posix/PipeSignal.cpp, over the calls of the operating system as a parameter.
-- - Endpoint: src/NetworkEndpoint.cpp and src/Posix/NetworkEndpointPosix.cpp, in the same manner as
--   Connection: Endpoint/State has the members and `Close`, Endpoint/Open has `Open`,
--   Endpoint/Processor the loop of the thread, and Endpoint/System lets the thread and its clients
--   follow one another.
-- - Subprocess/Posix: src/Posix/SubprocessPosix.cpp. An operation gets the answers of the operating
--   system and gives a list of effects; Subprocess/Posix/System lets the calls and the worker thread
--   follow one another, Subprocess/Posix/Family adds the child and the pipe, and
--   Subprocess/Posix/Detached has `StartDetached`. Subprocess/Linux: src/Linux/SubprocessLinux.cpp.
--   Subprocess/Windows and Subprocess/CommandLine: src/Win32/SubprocessWin32.cpp, where
--   Subprocess/CommandLine/Arguments has the documented rules by which a program reads its command
--   line. Subprocess/Decimal: the numbers that are printed and scanned.
-- - Monitor: src/Linux/DirectoryMonitorLinux.cpp. Monitor/Windows: src/Win32/DirectoryMonitorWin32.cpp. Service: src/Linux/ServiceLinux.cpp. Clipboard:
--   src/Linux/ClipboardLinux.cpp. Library: src/Posix/DynamicLibraryPosix.cpp.
-- - Connection: src/NetworkConnection.cpp and src/Posix/NetworkConnectionPosix.cpp. Connection/State
--   has the members, with the newest effect first in `trace`; Connection/Calls has the methods that a
--   client calls, Connection/Processor the loop of the thread, cut at the places where it gives up the
--   mutex or calls the operating system. Connection/System lets the thread, its clients and the
--   operating system follow one another in any order that the mutex allows; `signals` counts how often the
--   thread's signal was set and not cleared, as its pipe does. Connection/Windows:
--   src/Win32/NetworkConnectionWin32.cpp, with its own receiving part, `Process` and events, and the
--   other definitions of Connection. Endpoint/Windows: src/Win32/NetworkEndpointWin32.cpp likewise.
--
-- Bounds and fuel. The loop of `OpenReadWrite` has two rounds on Windows, and that of `GetDirectoryRoots`
-- one for each character of the buffer. A `size_t` has 64 bits, a subscription token 32, and their arithmetic wraps around.
-- The loop of `Impl::Dequeue` has a round of fuel for each element and one for the test that ends it,
-- which is enough for a valid queue. `CreatePath` has fuel for each character of its path, since every
-- call of itself is on a shorter path, and `Copy` takes the fuel of its loop as an argument. The loops on
-- `readlink` and `EnumProcesses` have fuel for each doubling of their buffers, which is enough once the
-- buffer is longer than the answer. A level prints with at most 20 digits.
--
-- Not modelled. What the operating system answers to `socket`, `bind`, `connect`, `getsockname`,
-- `recv`, `send`, `accept`, `recvfrom`, `sendto` and `listen` is an argument; socket options, the texts of errors and the time are left out, as
-- are the destructors of connections and endpoints, host names, and a `Connect` while the thread of the connection
-- still runs. In a connection `select` and `WaitForMultipleObjects` return once the thread's signal is set or the
-- socket is ready, which is the peer's choice, and are not interrupted. `vsprintf` of StringExtensions is a parameter. Calls that the
-- code only passes on are left out: the tests and times of files, the working and home directories, and
-- the killing of processes on POSIX. A child's arguments and names have no zero in them where a theorem says so.
-- Of Windows connections, endpoints, files, DirectoryMonitor and Subprocess are modelled; its other variants, and those of
-- macOS, are not.
pub mod Base
pub mod DataQueue
pub mod StringFile
pub mod Diagnostics
pub mod Connection
pub mod Endpoint
pub mod PipeSignal
pub mod File
pub mod Subprocess
pub mod Monitor
pub mod Service
pub mod Clipboard
pub mod Library
