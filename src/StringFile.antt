-- ===== src/StringFile.antt =====
-- src/StringFile.cpp: a file whose contents are kept in memory.
pub mod Copy
pub mod Bytes
pub mod Access
pub mod Write
pub mod RoundTrip
mod Tests
use system_abstractions.Base.{
  ℕ, zero, suc, ◌+◌, ◌-◌, min, max, Bool, true, false, List, [], ◌++◌, Option, none, some, length,
  get_elem?, set, take, drop, replicate, ltb, ◌==◌, if◌then◌else◌, add_size,
}

-- `StringFile::Impl`
pub record StringFile : Type 0 where
  pub value : List ℕ
  pub position : ℕ

-- `StringFile(initialValue)`, for a string or a vector of bytes.
unfoldable pub new : List ℕ → StringFile
new initial_value = record { value = initial_value; position = 0 }

-- The copy constructor, the copy assignment and `Clone`: a file of its own with the same state.
unfoldable pub clone : StringFile → StringFile
clone f = record { value = f.value; position = f.position }

-- The conversions to a string and to a vector of bytes.
unfoldable pub to_bytes : StringFile → List ℕ
to_bytes f = f.value

-- `operator=` for a string or a vector of bytes.
unfoldable pub assign : StringFile → List ℕ → StringFile
assign f b = record f { value = b; position = 0 }

unfoldable pub remove : StringFile → ℕ → StringFile
remove f num_bytes = record f {
  value = drop (min num_bytes (length f.value)) f.value;
  position = max num_bytes f.position - num_bytes;
}

unfoldable pub get_size : StringFile → ℕ
get_size f = length f.value

-- std::deque::resize: the new bytes are zero.
unfoldable pub resize : List ℕ → ℕ → List ℕ
resize v n = take n v ++ replicate (n - length v) 0

unfoldable pub set_size : StringFile → ℕ → StringFile × Bool
set_size f size = (record f { value = resize f.value size }, true)

unfoldable pub get_position : StringFile → ℕ
get_position f = f.position

unfoldable pub set_position : StringFile → ℕ → StringFile
set_position f position = record f { position = position }

-- `for (i = 0; i < amount; ++i) dst[dst_at + i] = src[src_at + i]`, with `rounds` still to go.
-- `none`: an access out of range.
unfoldable pub copy_bytes : ℕ → ℕ → List ℕ → ℕ → List ℕ → ℕ → Option (List ℕ)
copy_bytes zero i src src_at dst dst_at = some dst
copy_bytes (suc rounds) i src src_at dst dst_at = elim (get_elem? src (add_size src_at i)) [
  | none ↦ none
  | some x ↦ elim (ltb (add_size dst_at i) (length dst)) [
    | false ↦ none
    | true ↦ copy_bytes rounds (i + 1) src src_at (set dst (add_size dst_at i) x) dst_at
  ]
]

-- `amountCopied` of `Peek` and `Read`
abbrev pub amount_copied : StringFile → ℕ → ℕ
amount_copied f num_bytes = min num_bytes (length f.value - min (length f.value) f.position)

-- `Peek(void*, size_t)`: the memory at the pointer after the call, and the result.
unfoldable pub peek_raw : StringFile → List ℕ → ℕ → Option (List ℕ × ℕ)
peek_raw f memory num_bytes =
    elim (copy_bytes (amount_copied f num_bytes) 0 f.value f.position memory 0) [
      | none ↦ none
      | some memory' ↦ some (memory', amount_copied f num_bytes)
    ]

-- `Read(void*, size_t)`
unfoldable pub read_raw : StringFile → List ℕ → ℕ → Option (List ℕ × ℕ × StringFile)
read_raw f memory num_bytes =
    elim (copy_bytes (amount_copied f num_bytes) 0 f.value f.position memory 0) [
      | none ↦ none
      | some memory' ↦ some (
        memory',
        amount_copied f num_bytes,
        record f { position = add_size f.position (amount_copied f num_bytes) },
      )
    ]

-- The amount that a zero stands for in the overloads that take a buffer.
abbrev pub or_size : ℕ → List ℕ → ℕ
or_size num_bytes buffer = if num_bytes == 0 then length buffer else num_bytes

-- `Peek(Buffer&, size_t, size_t)`. The pointer `&buffer[offset]` leads to what follows `offset`.
unfoldable pub peek : StringFile → List ℕ → ℕ → ℕ → Option (List ℕ × ℕ)
peek f buffer num_bytes offset =
    if or_size num_bytes buffer == 0
    then some (buffer, 0)
    else elim (peek_raw f (drop offset buffer) (or_size num_bytes buffer)) [
      | none ↦ none
      | some (memory, n) ↦ some (take offset buffer ++ memory, n)
    ]

-- `Read(Buffer&, size_t, size_t)`
unfoldable pub read : StringFile → List ℕ → ℕ → ℕ → Option (List ℕ × ℕ × StringFile)
read f buffer num_bytes offset =
    if or_size num_bytes buffer == 0
    then some (buffer, 0, f)
    else elim (read_raw f (drop offset buffer) (or_size num_bytes buffer)) [
      | none ↦ none
      | some (memory, n, f') ↦ some (take offset buffer ++ memory, n, f')
    ]

-- The resize before a write of `n` bytes.
unfoldable pub grow : StringFile → ℕ → List ℕ
unfolding resize
grow f n =
    if ltb (length f.value) (add_size f.position n)
    then resize f.value (add_size f.position n)
    else f.value

-- The write proper, of `n` bytes of the memory `src` from `offset` on.
unfoldable pub write_from : StringFile → List ℕ → ℕ → ℕ → Option (ℕ × StringFile)
write_from f src n offset = elim (copy_bytes n 0 src offset (grow f n) f.position) [
  | none ↦ none
  | some v ↦ some (n, record { value = v; position = add_size f.position n })
]

-- `Write(const Buffer&, size_t, size_t)`
unfoldable pub write : StringFile → List ℕ → ℕ → ℕ → Option (ℕ × StringFile)
write f buffer num_bytes offset =
    if or_size num_bytes buffer == 0
    then some (0, f)
    else write_from f buffer (or_size num_bytes buffer) offset

-- `Write(const void*, size_t)`
unfoldable pub write_raw : StringFile → List ℕ → ℕ → Option (ℕ × StringFile)
write_raw f memory num_bytes =
    if num_bytes == 0 then some (0, f) else write_from f memory num_bytes 0
