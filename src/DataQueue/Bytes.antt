-- ===== src/DataQueue/Bytes.antt =====
-- The bytes that a queue holds, and what makes its counters right.
use system_abstractions.Base.{
  ◌+◌, ◌-◌, ◌≤◌, ◌<◌, ◌≡◌, refl, ap, List, [], ◌∷◌, ◌++◌, append-nil, append_assoc, arith, length,
  length-append, length-drop, drop, size_mod,
}
use system_abstractions.DataQueue.{Buffer, Element, DataQueue, new, enqueue}

-- The bytes of an element that are not consumed yet.
abbrev pub element_bytes : Element → Buffer
element_bytes e = drop e.consumed e.buf

abbrev pub bytes : List Element → Buffer
bytes [] = []
bytes (e ∷ es) = element_bytes e ++ bytes es

-- What a client sees of a queue.
abbrev pub contents : DataQueue → Buffer
contents q = bytes q.elements

abbrev pub AllFit : List Element → Type 0
AllFit [] = Unit {0}
AllFit (e ∷ es) = (e.consumed ≤ length e.buf) × (length e.buf < size_mod) × AllFit es

-- No element is consumed beyond its end, and `totalBytes` counts the bytes that are held.
pub record IsValid (q : DataQueue) : Type 0 where
  pub fits : AllFit q.elements
  pub counted : q.total_bytes ≡ length (contents q)
  pub small : q.total_bytes < size_mod

pub bytes-append : (es fs : List Element) → bytes (es ++ fs) ≡ bytes es ++ bytes fs
bytes-append [] fs = refl
bytes-append (e ∷ es) fs =
    rw (bytes-append es fs, append_assoc (element_bytes e) (bytes es) (bytes fs))

pub AllFit-append : (es fs : List Element) → AllFit es → AllFit fs → AllFit (es ++ fs)
AllFit-append [] fs h k = k
AllFit-append (e ∷ es) fs h k = (h.0, h.1, AllFit-append es fs h.2 k)

pub length-element_bytes : (e : Element) → length (element_bytes e) ≡ length e.buf - e.consumed
length-element_bytes e = length-drop e.consumed e.buf

pub length-bytes-cons :
    (e : Element) (es : List Element)
    → length (bytes (e ∷ es)) ≡ length e.buf - e.consumed + length (bytes es)
length-bytes-cons e es =
    omega (arith, length-append (element_bytes e) (bytes es), length-element_bytes e)

pub new-IsValid : IsValid new
unfolding new
new-IsValid = omega arith

pub contents-new : contents new ≡ []
unfolding new
contents-new = refl

-- What is enqueued stands behind what the queue held.
pub contents-enqueue : (q : DataQueue) (b : Buffer) → contents (enqueue q b) ≡ contents q ++ b
unfolding enqueue
contents-enqueue q b =
    rw (bytes-append q.elements (record { buf = b; consumed = 0 } ∷ []), append-nil b)

-- `Enqueue` keeps a queue valid, as long as its bytes are still fewer than a `size_t` can count.
pub enqueue-IsValid :
    {q : DataQueue} (b : Buffer)
    → IsValid q
    → q.total_bytes + length b < size_mod
    → IsValid (enqueue q b)
unfolding enqueue
enqueue-IsValid {q} b v h = record {
  fits = AllFit-append q.elements (record { buf = b; consumed = 0 } ∷ []) v.fits (omega arith);
  counted = omega (arith, ap length (contents-enqueue q b), length-append (contents q) b);
  small = omega arith;
}
