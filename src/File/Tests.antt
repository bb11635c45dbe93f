-- ===== src/File/Tests.antt =====
-- Files over small operating systems.
use system_abstractions.Base.{
  ℕ, zero, suc, ◌+◌, ◌<◌, ◌≡◌, refl, Bool, true, false, List, [], ◌∷◌, ◌++◌, none, some, min, arith,
  length, take, drop, ltb, if◌then◌else◌, take-append-drop, leb,
}
use system_abstractions.File.{
  Name, created, already_there, no_entry, Calls, File, parent, create_path,
}
use system_abstractions.File.Directories.{DirectoryLaws, Makes, create_path_lem}
use system_abstractions.File.Handle.{SeekLaws, read_raw, write_raw}
use system_abstractions.File.Copying.{CopyLaws, Copied, copy_loop, copy_loop_lem}

-- The bytes of a source from its position on, the bytes written to another file, the position of
-- a third, and the greatest length of a name that exists: a directory is made where its name is at
-- most two characters longer.
abbrev Disk : Type 0
Disk = (List ℕ) × (List ℕ) × ℕ × ℕ

-- A write takes two bytes at most.
abbrev disk : Calls Disk
disk = record {
  mkdir = λ k p.
      if ltb k.3 (length p)
      then if leb (length p) (k.3 + 2) then ((k.0, k.1, k.2, length p), created) else (k, no_entry)
      else (k, already_there);
  open_to_read = λ k p. (k, none);
  open_to_write = λ k p. (k, none);
  close_handle = λ k h. k;
  remove_name = λ k p. k;
  rename = λ k p q. (k, false);
  read = λ k h n. ((drop n k.0, k.1, k.2, k.3), some (take n k.0));
  write = λ k h b. ((k.0, k.1 ++ take (min 2 (length b)) b, k.2, k.3), some (min 2 (length b)));
  tell = λ k h. some k.2;
  seek = λ k h p. (k.0, k.1, p, k.3);
  seek_end = λ k h. ((k.0, k.1, 99, k.3), true);
  truncate = λ k h n. (k, false);
}

disk-SeekLaws : SeekLaws disk
disk-SeekLaws = record { sought = λ k h p. refl }

disk-CopyLaws : CopyLaws disk 3 4 (λ k. k.0) (λ k. k.1)
disk-CopyLaws = record {
  reads = λ k n l. (take-append-drop n k.0, refl);
  ends = λ k n l e. empty_take n k.0 l e;
  writes = λ k b. (refl, refl);
}
  where
    empty_take : (n : ℕ) (xs : List ℕ) → 0 < n → some (take n xs) ≡ some [] → xs ≡ []
    empty_take zero xs l e = absurd (omega arith)
    empty_take (suc n) [] l e = refl
    empty_take (suc n) (x ∷ xs) l e = absurd (cc e)

abbrev third : File
third = record { path = []; handle = some 3; write_access = false }

abbrev at_five : Disk
at_five = ([], [], 5, 0)

abbrev source : File
source = record { path = []; handle = some 3; write_access = false }

abbrev target : File
target = record { path = []; handle = some 4; write_access = true }

-- A short source is copied, and a longer one meets a write that is too short.
copy_loop_lem_example :
    (k' : Disk) × (done : Bool) × (copy_loop disk 3 (7 ∷ 8 ∷ [], 1 ∷ [], 0, 0) source target
      ≡ some (k', done))
    × Copied disk 3 4
        (λ k. k.0)
        (λ k. k.1)
        disk-CopyLaws
        source
        target
        refl
        refl
        (7 ∷ 8 ∷ [], 1 ∷ [], 0, 0)
        k'
        done
copy_loop_lem_example =
    copy_loop_lem disk 3 4 (λ k. k.0) (λ k. k.1) disk-CopyLaws source target refl refl 3
      (7 ∷ 8 ∷ [], 1 ∷ [], 0, 0) (omega arith)

short-copy :
    copy_loop disk 3 (7 ∷ 8 ∷ [], 1 ∷ [], 0, 0) source target
    ≡ some (([], 1 ∷ 7 ∷ 8 ∷ [], 0, 0), true)
unfolding copy_loop read_raw write_raw
short-copy = refl

long-copy :
    copy_loop disk 4 (7 ∷ 8 ∷ 9 ∷ [], [], 0, 0) source target ≡ some (([], 7 ∷ 8 ∷ [], 0, 0), false)
unfolding copy_loop read_raw write_raw
long-copy = refl

-- A directory exists where its name is not too long.
abbrev there : Disk → Name → Bool
there k p = ltb (length p) (k.3 + 1)

disk-DirectoryLaws : DirectoryLaws disk there
disk-DirectoryLaws = record {
  was_created = λ k p e. ground arith;
  was_there = λ k p e. ground arith;
  stays = λ k p q e. ground arith;
}

-- a/b/c
abbrev three_deep : Name
three_deep = 97 ∷ 47 ∷ 98 ∷ 47 ∷ 99 ∷ []

make-three_deep : create_path disk 6 ([], [], 0, 0) three_deep ≡ some (([], [], 0, 3), true)
unfolding create_path parent
make-three_deep = refl

create_path_lem_example :
    (k' : Disk) × (ok : Bool) × (create_path disk 6 ([], [], 0, 0) three_deep ≡ some (k', ok))
    × Makes disk there disk-DirectoryLaws ([], [], 0, 0) three_deep k' ok
create_path_lem_example =
    create_path_lem disk there disk-DirectoryLaws 6 ([], [], 0, 0) three_deep (omega arith)
