-- ===== src/Base/Word.antt =====
-- Unsigned arithmetic of C++: `size_t` and `uint64_t` (64 bits) and `unsigned int` (32 bits).
use Prim.Native.Nat.{ℕ, ◌+◌, ◌-◌, ◌%◌, ◌^◌}

abbrev pub size_mod : ℕ
size_mod = 2 ^ 64

-- std::numeric_limits< size_t >::max()
abbrev pub size_max : ℕ
size_max = 2 ^ 64 - 1

abbrev pub add_size : ℕ → ℕ → ℕ
add_size a b = (a + b) % 2 ^ 64

abbrev pub sub_size : ℕ → ℕ → ℕ
sub_size a b = (a + 2 ^ 64 - b) % 2 ^ 64

abbrev pub add_uint : ℕ → ℕ → ℕ
add_uint a b = (a + b) % 2 ^ 32
