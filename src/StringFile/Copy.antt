-- ===== src/StringFile/Copy.antt =====
-- The copying loops of src/StringFile.cpp: they lay a run of the source over the destination.
use system_abstractions.Base.{
  ℕ, zero, suc, ◌+◌, ◌-◌, ◌≤◌, ◌<◌, ◌≡◌, refl, sym, ap, ◌∙◌, List, [], ◌∷◌, ◌++◌, none, some, arith,
  length, length-append, length-drop, get_elem?, set, length-set, take, drop, ltb, lt→ltb, ltb→lt,
  Option-cases, Bool-cases, inl, inr, size_mod, add_size,
}
use system_abstractions.StringFile.{copy_bytes}

-- `ys` laid over `dst` from position `p` on.
abbrev pub splice : ℕ → List ℕ → List ℕ → List ℕ
splice zero ys dst = ys ++ drop (length ys) dst
splice (suc p) ys [] = []
splice (suc p) ys (d ∷ dst) = d ∷ splice p ys dst

pub splice-nil : (p : ℕ) (dst : List ℕ) → splice p [] dst ≡ dst
splice-nil zero dst = refl
splice-nil (suc p) [] = refl
splice-nil (suc p) (d ∷ dst) = ap (◌∷◌ d) (splice-nil p dst)

splice-set :
    (p x : ℕ) (ys dst : List ℕ)
    → p < length dst
    → splice (suc p) ys (set dst p x) ≡ splice p (x ∷ ys) dst
splice-set p x ys [] h = absurd (omega arith)
splice-set zero x ys (d ∷ dst) h = refl
splice-set (suc p) x ys (d ∷ dst) h = ap (◌∷◌ d) (splice-set p x ys dst (omega arith))

-- The splice is the part before `p`, the new bytes, and the part behind them.
pub splice_parts :
    (p : ℕ) (ys dst : List ℕ)
    → p ≤ length dst
    → splice p ys dst ≡ take p dst ++ (ys ++ drop (p + length ys) dst)
splice_parts zero ys dst h = ap (λ k. ys ++ drop k dst) (omega arith)
splice_parts (suc p) ys [] h = absurd (omega arith)
splice_parts (suc p) ys (d ∷ dst) h = ap (◌∷◌ d) (
    splice_parts p ys dst (omega arith)
    ∙ ap (λ k. take p dst ++ (ys ++ drop k (d ∷ dst)))
        (let e : suc (p + length ys) ≡ suc p + length ys = omega arith in e))

pub length-splice :
    (p : ℕ) (ys dst : List ℕ) → p + length ys ≤ length dst → length (splice p ys dst) ≡ length dst
length-splice zero ys dst h =
    omega (arith, length-append ys (drop (length ys) dst), length-drop (length ys) dst)
length-splice (suc p) ys [] h = absurd (omega arith)
length-splice (suc p) ys (d ∷ dst) h = ap suc (length-splice p ys dst (omega arith))

pub drop-get :
    (i : ℕ) (xs : List ℕ)
    → i < length xs
    → (x : ℕ) × (get_elem? xs i ≡ some x) × (drop i xs ≡ x ∷ drop (suc i) xs)
drop-get i [] h = absurd (omega arith)
drop-get zero (x ∷ xs) h = (x, refl, refl)
drop-get (suc i) (x ∷ xs) h = drop-get i xs (omega arith)

copy-step :
    (r i : ℕ) (src : List ℕ) (src_at : ℕ) (dst : List ℕ) (dst_at x : ℕ)
    → get_elem? src (add_size src_at i) ≡ some x
    → add_size dst_at i < length dst
    → copy_bytes (suc r) i src src_at dst dst_at
      ≡ copy_bytes r (i + 1) src src_at (set dst (add_size dst_at i) x) dst_at
unfolding copy_bytes
copy-step r i src src_at dst dst_at x e h = rw (e, lt→ltb _ _ h, copy_bytes)

copy-laid :
    (r : ℕ) (src dst : List ℕ) {s s' p p' q : ℕ} (x : ℕ)
    → s' ≡ suc s
    → p' ≡ suc p
    → q ≡ p
    → drop s src ≡ x ∷ drop (suc s) src
    → p < length dst
    → splice p' (take r (drop s' src)) (set dst q x) ≡ splice p (take (suc r) (drop s src)) dst
copy-laid r src dst {s} {p = p} x es ep eq d h =
    rw (es, ep, eq, d) (splice-set p x (take r (drop (suc s) src)) dst h)

-- Within range, the loop lays the rest of its run over the destination.
pub copy_lem :
    (r i : ℕ) (src : List ℕ) (src_at : ℕ) (dst : List ℕ) (dst_at : ℕ)
    → r ≤ length src - (src_at + i)
    → dst_at + i + r ≤ length dst
    → length src < size_mod
    → length dst < size_mod
    → copy_bytes r i src src_at dst dst_at
      ≡ some (splice (dst_at + i) (take r (drop (src_at + i) src)) dst)
unfolding copy_bytes
copy_lem zero i src src_at dst dst_at hs hd fs fd = ap some (sym (splice-nil (dst_at + i) dst))
copy_lem (suc r) i src src_at dst dst_at hs hd fs fd =
    let (x, e, d) = drop-get (src_at + i) src (omega arith) in
    let es : add_size src_at i ≡ src_at + i = omega arith in
    let ed : add_size dst_at i ≡ dst_at + i = omega arith in
    let at : get_elem? src (add_size src_at i) ≡ some x = rw es e in
    copy-step r i src src_at dst dst_at x at (omega arith)
    ∙ copy_lem r (i + 1) src src_at (set dst (add_size dst_at i) x) dst_at (omega arith)
        (omega (arith, length-set dst (add_size dst_at i) x)) fs
        (omega (arith, length-set dst (add_size dst_at i) x))
    ∙ ap some (copy-laid r src dst x (omega arith) (omega arith) ed d (omega arith))

-- A loop that runs past the end of its destination is undefined.
pub copy_overrun :
    (r i : ℕ) (src : List ℕ) (src_at : ℕ) (dst : List ℕ) (dst_at : ℕ)
    → dst_at + i ≤ length dst
    → length dst < dst_at + i + r
    → length dst < size_mod
    → copy_bytes r i src src_at dst dst_at ≡ none
unfolding copy_bytes
copy_overrun zero i src src_at dst dst_at lo hi f = absurd (omega arith)
copy_overrun (suc r) i src src_at dst dst_at lo hi f =
    elim (Option-cases (get_elem? src (add_size src_at i))) [
      | inl e ↦ rw (e, copy_bytes)
      | inr (x, e) ↦ elim (Bool-cases (ltb (add_size dst_at i) (length dst))) [
        | inr t ↦ rw (e, t, copy_bytes)
        | inl t ↦
            let at : add_size dst_at i < length dst = ltb→lt _ _ t in
            let same : length (set dst (add_size dst_at i) x) ≡ length dst =
              length-set dst (add_size dst_at i) x in
            copy-step r i src src_at dst dst_at x e at
            ∙ copy_overrun r (i + 1) src src_at (set dst (add_size dst_at i) x) dst_at (omega arith)
                (omega arith) (omega arith)
      ]
    ]
