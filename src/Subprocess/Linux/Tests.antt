-- ===== src/Subprocess/Linux/Tests.antt =====
-- The table of sockets and a descriptor as Linux shows them.
use system_abstractions.Base.{◌≡◌, refl, [], ◌∷◌, text}
use system_abstractions.Subprocess.Linux.{
  sscanf, skip_white, digits_from, digit_value, number_at, row_format,
}

row_read :
    sscanf row_format (
      text
        "  1: 0100007F:0277 00000000:0000 0A 00000000:00000000 00:00000000 00000000  0  0 23051 1")
    ≡ 1 ∷ 16777343 ∷ 631 ∷ 0 ∷ 0 ∷ 10 ∷ 0 ∷ 0 ∷ 0 ∷ 0 ∷ 0 ∷ 0 ∷ 0 ∷ 23051 ∷ []
unfolding sscanf skip_white digits_from digit_value number_at
row_read = refl
