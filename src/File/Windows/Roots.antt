-- ===== src/File/Windows/Roots.antt =====
-- `GetDirectoryRoots` of src/Win32/FileWin32.cpp reads the drives that the operating system lists.
use system_abstractions.Base.{
  ℕ, zero, suc, ◌<◌, ◌≡◌, refl, ap, Bool, true, false, ◌&&◌, List, [], ◌∷◌, ◌++◌, map, some, ◌==◌,
  not, length, length-append, arith, List-cases, Bool-cases, inl, inr,
}
use system_abstractions.File.{Name}
use system_abstractions.File.Windows.{
  is_separator, up_to_zero, trim, directory_roots, get_directory_roots,
}

-- What the operating system writes: each drive with a zero behind it, and one more zero.
unfoldable pub listed : List Name → List ℕ
listed [] = 0 ∷ []
listed (drive ∷ drives) = drive ++ 0 ∷ listed drives

unfoldable pub has_no_zero : Name → Bool
has_no_zero [] = true
has_no_zero (c ∷ cs) = not (c == 0) && has_no_zero cs

-- A drive has a name, and no zero in it.
abbrev pub is_drive : Name → Bool
is_drive [] = false
is_drive (c ∷ cs) = has_no_zero (c ∷ cs)

unfoldable pub are_drives : List Name → Bool
are_drives [] = true
are_drives (drive ∷ drives) = is_drive drive && are_drives drives

unfoldable pub ends_with_separator : Name → Bool
ends_with_separator [] = false
ends_with_separator (c ∷ []) = is_separator c
ends_with_separator (c ∷ d ∷ cs) = ends_with_separator (d ∷ cs)

unfoldable pub all_separators : Name → Bool
all_separators [] = true
all_separators (c ∷ cs) = is_separator c && all_separators cs

up_to_zero-append :
    (name : Name) (rest : List ℕ)
    → has_no_zero name ≡ true
    → up_to_zero (name ++ 0 ∷ rest) ≡ some (name, rest)
unfolding up_to_zero has_no_zero
up_to_zero-append [] rest h = refl
up_to_zero-append (c ∷ cs) rest h = ground (arith, up_to_zero-append cs rest)

both-true : (a b : Bool) → a && b ≡ true → (a ≡ true) × (b ≡ true)
both-true true b h = (refl, h)
both-true false b h = cc

roots-listed :
    (drives : List Name) (fuel : ℕ)
    → are_drives drives ≡ true
    → length drives < fuel
    → directory_roots fuel (listed drives) ≡ some (map trim drives)
unfolding directory_roots listed are_drives has_no_zero
roots-listed drives zero h l = absurd (omega arith)
roots-listed [] (suc fuel) h l = rw (up_to_zero-append [] [] refl, directory_roots)
roots-listed ([] ∷ drives) (suc fuel) h l = cc
roots-listed ((c ∷ cs) ∷ drives) (suc fuel) h l =
    let (d, ds) = both-true (has_no_zero (c ∷ cs)) (are_drives drives) h in
    rw (
      up_to_zero-append (c ∷ cs) (listed drives) d,
      roots-listed drives fuel ds (omega arith),
      directory_roots,
    )

length-listed : (drives : List Name) → length drives < length (listed drives)
unfolding listed
length-listed [] = omega arith
length-listed (drive ∷ drives) =
    rw (length-append drive (0 ∷ listed drives)) (omega (arith, length-listed drives))

trim_lem :
    (name : Name)
    → (tail : Name) × (name ≡ trim name ++ tail)
      × (all_separators tail ≡ true)
      × (ends_with_separator (trim name) ≡ false)
unfolding trim all_separators ends_with_separator
trim_lem [] = ([], refl, refl, refl)
trim_lem (c ∷ cs) =
    let (tail, e, a, n) = trim_lem cs in
    elim (List-cases (trim cs)) [
      | inl t ↦
          let whole : cs ≡ tail = rw (t) at e in
          elim (Bool-cases (is_separator c)) [
            | inl s ↦ (c ∷ cs, rw (t, s), rw (s, whole, a), rw (t, s))
            | inr s ↦ (cs, rw (t, s), rw (whole) a, rw (t, s) s)
          ]
      | inr (d, ds, t) ↦ (tail, rw (t) (ap (◌∷◌ c) (rw (t) at e)), a, rw (t) (rw (t) at n))
    ]

-- Over a buffer in which the operating system lists drives, each with a name and no zero in it,
-- `GetDirectoryRoots` ends, reads nothing behind the buffer, and gives all drives in their order,
-- without the separators at their ends.
pub get_directory_roots_lem :
    (drives : List Name)
    → are_drives drives ≡ true
    → get_directory_roots true (listed drives) ≡ some (map trim drives)
unfolding get_directory_roots
get_directory_roots_lem drives h =
    roots-listed drives (length (listed drives)) h (length-listed drives)
