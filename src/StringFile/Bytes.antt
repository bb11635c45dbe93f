-- ===== src/StringFile/Bytes.antt =====
-- The contents of a file of src/StringFile.cpp byte by byte, under the steps of a write.
use system_abstractions.Base.{
  ◌%◌, ◌^◌, ℕ, zero, suc, ◌+◌, ◌-◌, ◌≤◌, ◌<◌, ◌≡◌, refl, ◌∙◌, ◌&&◌, List, [], ◌∷◌, ◌++◌, max, arith,
  length, length-append, length-take, length-replicate, get_or, take, replicate, leb, ltb,
  if◌then◌else◌,
}
use system_abstractions.StringFile.{StringFile, resize, grow}
use system_abstractions.StringFile.Copy.{splice}

pub length-resize : (v : List ℕ) (n : ℕ) → length (resize v n) ≡ n
unfolding resize
length-resize v n = omega (
  arith,
  length-append (take n v) (replicate (n - length v) 0),
  length-take n v,
  length-replicate {A = ℕ} (n - length v) 0,
)

get_or-replicate : (n i : ℕ) → get_or {A = ℕ} (replicate n 0) i 0 ≡ 0
get_or-replicate zero i = refl
get_or-replicate (suc n) zero = refl
get_or-replicate (suc n) (suc i) = get_or-replicate n i

get_or-append-zeros : (v : List ℕ) (n i : ℕ) → get_or (v ++ replicate n 0) i 0 ≡ get_or v i 0
get_or-append-zeros [] n i = get_or-replicate n i
get_or-append-zeros (x ∷ v) n zero = refl
get_or-append-zeros (x ∷ v) n (suc i) = get_or-append-zeros v n i

pub get_or-take :
    (v : List ℕ) (n i : ℕ) → get_or (take n v) i 0 ≡ (if ltb i n then get_or v i 0 else 0)
get_or-take v zero i = ground arith
get_or-take [] (suc n) i = ground arith
get_or-take (x ∷ v) (suc n) zero = ground arith
get_or-take (x ∷ v) (suc n) (suc i) = ground (arith, get_or-take v n i)

-- A resized file has its old bytes below the new size, and zeros above the old one.
pub get_or-resize :
    (v : List ℕ) (n i : ℕ) → get_or (resize v n) i 0 ≡ (if ltb i n then get_or v i 0 else 0)
unfolding resize
get_or-resize v n i = get_or-append-zeros (take n v) (n - length v) i ∙ get_or-take v n i

get_or_past : (v : List ℕ) (i : ℕ) → length v ≤ i → get_or v i 0 ≡ 0
get_or_past [] i h = refl
get_or_past (x ∷ v) zero h = absurd (omega arith)
get_or_past (x ∷ v) (suc i) h = get_or_past v i (omega arith)

-- A byte of a splice lies in the new run or is what it was.
pub get_or-splice :
    (p : ℕ) (ys dst : List ℕ) (i : ℕ)
    → p + length ys ≤ length dst
    → get_or (splice p ys dst) i 0
      ≡ (if leb p i && ltb i (p + length ys) then get_or ys (i - p) 0 else get_or dst i 0)
get_or-splice zero [] dst i h = ground arith
get_or-splice zero (y ∷ ys) [] i h = absurd (omega arith)
get_or-splice zero (y ∷ ys) (d ∷ dst) zero h = ground arith
get_or-splice zero (y ∷ ys) (d ∷ dst) (suc i) h = ground (arith, get_or-splice zero ys dst i)
get_or-splice (suc p) ys [] i h = absurd (omega arith)
get_or-splice (suc p) ys (d ∷ dst) zero h = ground arith
get_or-splice (suc p) ys (d ∷ dst) (suc i) h = ground (arith, get_or-splice p ys dst i)

module _ (f : StringFile) (n : ℕ) where
  pub length-grow :
      f.position + n < 2 ^ 64 → length (grow f n) ≡ max (length f.value) (f.position + n)
  unfolding grow
  length-grow h = ground (arith, length-resize f.value (f.position + n))

  -- Growing adds zeros only.
  pub get_or-grow : (i : ℕ) → get_or (grow f n) i 0 ≡ get_or f.value i 0
  unfolding grow
  get_or-grow i =
      ground (arith, get_or-resize f.value ((f.position + n) % 2 ^ 64) i, get_or_past f.value i)
