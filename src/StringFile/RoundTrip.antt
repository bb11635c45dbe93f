-- ===== src/StringFile/RoundTrip.antt =====
-- What was written through src/StringFile.cpp is read back, and cloned.
use system_abstractions.Base.{
  ℕ, zero, suc, ◌+◌, ◌≤◌, ◌<◌, ◌≡◌, ap, ◌∙◌, List, [], ◌∷◌, ◌++◌, some, min, arith, length,
  length-take, take, drop, ◌==◌, false, size_mod, take-append_le, take_of_length-le,
}
use system_abstractions.StringFile.{StringFile, grow, read_raw, write_raw, set_position}
use system_abstractions.StringFile.Copy.{splice}
use system_abstractions.StringFile.Bytes.{length-grow}
use system_abstractions.StringFile.Access.{Fits, ahead, read_raw_lem}
use system_abstractions.StringFile.Write.{run_of, written, written-Fits, write_from_lem}

-- Behind position `p`, a splice begins with the bytes that were laid there.
drop-splice :
    (p : ℕ) (ys dst : List ℕ)
    → p ≤ length dst
    → drop p (splice p ys dst) ≡ ys ++ drop (p + length ys) dst
drop-splice zero ys dst h = ap (λ k. ys ++ drop k dst) (omega arith)
drop-splice (suc p) ys [] h = absurd (omega arith)
drop-splice (suc p) ys (d ∷ dst) h =
    drop-splice p ys dst (omega arith)
    ∙ ap (λ k. ys ++ drop k (d ∷ dst))
        (let e : suc (p + length ys) ≡ suc p + length ys = omega arith in e)

module _ (f : StringFile) (memory dst : List ℕ) (n : ℕ) (v : Fits f) (some_bytes : 0 < n)
    (room : f.position + n < size_mod) (enough : n ≤ length memory)
    (small : length memory < size_mod) (space : n ≤ length dst)
    (small' : length dst < size_mod) where
  abbrev file_after : StringFile
  file_after = written f memory n 0

  abbrev rewound : StringFile
  rewound = record file_after { position = f.position }

  ahead-rewound :
      ahead rewound
      ≡ run_of f memory n 0 ++ drop (f.position + length (run_of f memory n 0)) (grow f n)
  ahead-rewound =
      drop-splice f.position (run_of f memory n 0) (grow f n) (omega (arith, length-grow f n room))

  take-rewound : take n (ahead rewound) ≡ take n memory
  take-rewound =
      ap (take n) ahead-rewound
      ∙ take-append_le n (run_of f memory n 0)
          (drop (f.position + length (run_of f memory n 0)) (grow f n))
          (omega (arith, length-take n memory))
      ∙ take_of_length-le n (run_of f memory n 0) (omega (arith, length-take n memory))

  all_ahead : min n (length (ahead rewound)) ≡ n
  all_ahead =
      omega (arith, ap length take-rewound, length-take n (ahead rewound), length-take n memory)

  rewound-Fits : Fits rewound
  rewound-Fits = record {
    value_fits = (written-Fits f memory n 0 v room (omega arith) small).value_fits;
    position_fits = v.position_fits;
  }

  write_all : write_raw f memory n ≡ some (n, file_after)
  unfolding write_raw
  write_all =
      let z : (n == 0) ≡ false = ground arith in
      rw (z, write_raw) (write_from_lem f memory n 0 v room (omega arith) small)

  read_all : read_raw rewound dst n ≡ some (take n memory ++ drop n dst, n, file_after)
  read_all = read_raw_lem rewound dst n rewound-Fits space small' ∙ λ i. some (
    take-rewound i ++ drop (all_ahead i) dst,
    all_ahead i,
    record file_after { position = f.position + all_ahead i },
  )

  -- A nonempty run of bytes that is written and then read from the same position comes back as it
  -- was, all of it, and the read leaves the file as the write left it, where both memories hold
  -- that many bytes and sizes fit a `size_t`.
  pub read-write :
      (f' : StringFile) × (write_raw f memory n ≡ some (n, f'))
      × (read_raw (set_position f' f.position) dst n ≡ some (take n memory ++ drop n dst, n, f'))
  unfolding set_position
  read-write = (file_after, write_all, read_all)
