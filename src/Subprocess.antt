-- ===== src/Subprocess.antt =====
-- src/Win32/SubprocessWin32.cpp, src/Posix/SubprocessPosix.cpp and src/Linux/SubprocessLinux.cpp:
-- child processes.
pub mod CommandLine
pub mod Decimal
pub mod Posix
pub mod Linux
pub mod Windows
mod Tests
