-- ===== src/StringFile/Tests.antt =====
-- Runs of src/StringFile.cpp at concrete inputs.
use system_abstractions.Base.{◌≡◌, refl, [], ◌∷◌, none, some, arith}
use system_abstractions.StringFile.{
  StringFile, copy_bytes, peek, read, read_raw, write, write_from, grow, resize, remove,
}
use system_abstractions.StringFile.Access.{read_lem, default_amount_overruns}
use system_abstractions.StringFile.Write.{Writes, write_lem}

abbrev hello : StringFile
hello = record { value = 10 ∷ 20 ∷ 30 ∷ 40 ∷ []; position = 1 }

-- A position behind the end
abbrev far : StringFile
far = record { value = 10 ∷ []; position = 3 }

read-hello :
    read hello (1 ∷ 2 ∷ 3 ∷ []) 2 1 ≡ some (1 ∷ 20 ∷ 30 ∷ [], 2, record hello { position = 3 })
unfolding read read_raw copy_bytes
read-hello = refl

write-far :
    write far (7 ∷ 8 ∷ []) 0 0 ≡ some (2, record { value = 10 ∷ 0 ∷ 0 ∷ 7 ∷ 8 ∷ []; position = 5 })
unfolding write write_from grow resize copy_bytes
write-far = refl

remove-hello : remove hello 2 ≡ record { value = 30 ∷ 40 ∷ []; position = 0 }
unfolding remove
remove-hello = refl

read_lem_example :
    read hello (1 ∷ 2 ∷ 3 ∷ []) 2 1 ≡ some (1 ∷ 20 ∷ 30 ∷ [], 2, record hello { position = 3 })
read_lem_example = read_lem hello (1 ∷ 2 ∷ 3 ∷ []) 2 1 (omega arith) (omega arith) (omega arith)

default_amount_overruns_example :
    (read hello (1 ∷ 2 ∷ []) 0 1 ≡ none) × (peek hello (1 ∷ 2 ∷ []) 0 1 ≡ none)
default_amount_overruns_example =
    default_amount_overruns hello (1 ∷ 2 ∷ []) 1 (omega arith) (omega arith) (omega arith)
      (omega arith)

write_lem_example : Writes far (7 ∷ 8 ∷ []) 2 0 (write far (7 ∷ 8 ∷ []) 0 0)
write_lem_example =
    write_lem far (7 ∷ 8 ∷ []) 0 0 (omega arith) (omega arith) (omega arith) (omega arith)
