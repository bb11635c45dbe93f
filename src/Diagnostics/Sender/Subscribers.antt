-- ===== src/Diagnostics/Sender/Subscribers.antt =====
-- The map of subscribers of src/DiagnosticsSender.cpp: its order, its entries, its least level.
use system_abstractions.Base.{
  ℕ, ◌+◌, ◌≤◌, ◌<◌, ◌≡◌, refl, min, [], ◌∷◌, ◌++◌, none, some, arith, ◌==◌, if◌then◌else◌, size_max,
}
use system_abstractions.Diagnostics.Sender.{
  Subscription, Subscribers, assign, find, erase, least_from,
}

-- The tokens rise along the map, from `lo` on.
abbrev pub Rising : ℕ → Subscribers → Type 0
Rising lo [] = Unit {0}
Rising lo ((t, s) ∷ m) = (lo ≤ t) × Rising (t + 1) m

abbrev pub AllBelow : ℕ → Subscribers → Type 0
AllBelow hi [] = Unit {0}
AllBelow hi ((t, s) ∷ m) = (t < hi) × AllBelow hi m

-- The least of the levels, as large as can be where there is none.
abbrev pub least : Subscribers → ℕ
least [] = size_max
least ((t, s) ∷ m) = min s.min_level (least m)

pub least_from-least :
    (acc : ℕ) (m : Subscribers) → acc ≤ size_max → least_from acc m ≡ min acc (least m)
unfolding least_from
least_from-least acc [] h = omega arith
least_from-least acc ((t, s) ∷ m) h =
    omega (arith, least_from-least (min acc s.min_level) m (omega arith))

-- A token above all others goes to the end.
pub assign_last :
    (t : ℕ) (s : Subscription) (m : Subscribers) → AllBelow t m → assign t s m ≡ m ++ ((t, s) ∷ [])
unfolding assign
assign_last t s [] h = refl
assign_last t s ((u, r) ∷ m) h = ground (arith, assign_last t s m h.1)

pub Rising-append :
    (lo t : ℕ) (s : Subscription) (m : Subscribers)
    → lo ≤ t
    → Rising lo m
    → AllBelow t m
    → Rising lo (m ++ ((t, s) ∷ []))
Rising-append lo t s [] l h b = (l, tt)
Rising-append lo t s ((u, r) ∷ m) l h b = (h.0, Rising-append (u + 1) t s m (omega arith) h.1 b.1)

pub AllBelow-append :
    (hi t : ℕ) (s : Subscription) (m : Subscribers)
    → t < hi
    → AllBelow t m
    → AllBelow hi (m ++ ((t, s) ∷ []))
AllBelow-append hi t s [] l b = (l, tt)
AllBelow-append hi t s ((u, r) ∷ m) l b = (omega arith, AllBelow-append hi t s m l b.1)

pub least-append :
    (t : ℕ) (s : Subscription) (m : Subscribers)
    → s.min_level ≤ size_max
    → least (m ++ ((t, s) ∷ [])) ≡ min (least m) s.min_level
least-append t s [] h = omega arith
least-append t s ((u, r) ∷ m) h = omega (arith, least-append t s m h)

pub least-le : (m : Subscribers) → least m ≤ size_max
least-le [] = omega arith
least-le ((t, s) ∷ m) = omega (arith, least-le m)

Rising-mono : (lo lo' : ℕ) (m : Subscribers) → lo' ≤ lo → Rising lo m → Rising lo' m
Rising-mono lo lo' [] l h = tt
Rising-mono lo lo' ((t, s) ∷ m) l h = (omega arith, h.1)

pub erase-Rising : (t lo : ℕ) (m : Subscribers) → Rising lo m → Rising lo (erase t m)
unfolding erase
erase-Rising t lo [] h = tt
erase-Rising t lo ((u, r) ∷ m) h =
    ground (arith, Rising-mono (u + 1) lo m, erase-Rising t (u + 1) m h.1)

pub erase-AllBelow : (t hi : ℕ) (m : Subscribers) → AllBelow hi m → AllBelow hi (erase t m)
unfolding erase
erase-AllBelow t hi [] h = tt
erase-AllBelow t hi ((u, r) ∷ m) h = ground (arith, erase-AllBelow t hi m h.1)

-- The least level is that of the entry found, or that of the others.
pub least-erase :
    (t : ℕ) (m : Subscribers) (s : Subscription)
    → find t m ≡ some s
    → least m ≡ min s.min_level (least (erase t m))
unfolding find erase
least-erase t [] s e = ground arith
least-erase t ((u, r) ∷ m) s e = ground (arith, least-erase t m s)

pub find_below : (t lo : ℕ) (m : Subscribers) → Rising lo m → t < lo → find t m ≡ none
unfolding find
find_below t lo [] h l = refl
find_below t lo ((u, r) ∷ m) h l = ground (arith, find_below t (u + 1) m h.1)

-- What is erased is gone, and nothing else is.
pub find-erase :
    (t u lo : ℕ) (m : Subscribers)
    → Rising lo m
    → find u (erase t m) ≡ (if u == t then none else find u m)
unfolding find erase
find-erase t u lo [] h = ground arith
find-erase t u lo ((w, r) ∷ m) h =
    ground (arith, find-erase t u (w + 1) m h.1, find_below u (w + 1) m h.1)
