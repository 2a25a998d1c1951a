-- ===== src/Linemap/Segments.antt =====
-- The segment table of go-llvm-linemap.cpp: searching it, and what appending to it keeps.
use dragongo.Common.{ℕ, ◌<◌, ◌≤◌, ◌≡◌, refl, ◌++◌, none, some, List, [], ◌∷◌, arith, All}
use dragongo.Linemap.{Segment, lower_bound}

abbrev pub Below : ℕ → List Segment → Type 0
Below n ss = All (λ (s : Segment). s.hi < n) ss

-- `hi` strictly ascends: what `std::lower_bound` needs of the table.
abbrev pub IsSorted : List Segment → Type 0
IsSorted [] = Unit {0}
IsSorted (s ∷ ss) = All (λ (t : Segment). s.hi < t.hi) ss × IsSorted ss

pub lower_bound-append_some :
    (ss ts : List Segment) (h : ℕ) (s : Segment)
    → lower_bound ss h ≡ some s
    → lower_bound (ss ++ ts) h ≡ some s
unfolding lower_bound
lower_bound-append_some [] ts h s e = ground arith
lower_bound-append_some (r ∷ ss) ts h s e = ground (arith, lower_bound-append_some ss ts h s)

pub lower_bound-append_none :
    (ss ts : List Segment) (h : ℕ)
    → lower_bound ss h ≡ none
    → lower_bound (ss ++ ts) h ≡ lower_bound ts h
unfolding lower_bound
lower_bound-append_none [] ts h e = refl
lower_bound-append_none (s ∷ ss) ts h e = ground (arith, lower_bound-append_none ss ts h)

-- A handle above every segment is found in none.
pub lower_bound-Below : (ss : List Segment) (h : ℕ) → Below h ss → lower_bound ss h ≡ none
unfolding lower_bound
lower_bound-Below [] h b = refl
lower_bound-Below (s ∷ ss) h b = ground (arith, lower_bound-Below ss h b.1)

pub Below-weaken : {m n : ℕ} (ss : List Segment) → m ≤ n → Below m ss → Below n ss
Below-weaken [] h b = tt
Below-weaken (s ∷ ss) h b = (omega arith, Below-weaken ss h b.1)

pub Below-append :
    {n : ℕ} (ss : List Segment) (s : Segment) → Below n ss → s.hi < n → Below n (ss ++ (s ∷ []))
Below-append [] s b h = (h, tt)
Below-append (t ∷ ss) s b h = (b.0, Below-append ss s b.1 h)

above-append :
    {a : ℕ} (ss : List Segment) (s : Segment)
    → a < s.hi
    → All (λ (t : Segment). a < t.hi) ss
    → All (λ (t : Segment). a < t.hi) (ss ++ (s ∷ []))
above-append [] s h b = (h, tt)
above-append (t ∷ ss) s h b = (b.0, above-append ss s h b.1)

-- A segment that ends above all others goes to the end of the table.
pub IsSorted-append :
    (ss : List Segment) (s : Segment) → IsSorted ss → Below s.hi ss → IsSorted (ss ++ (s ∷ []))
IsSorted-append [] s b h = (tt, tt)
IsSorted-append (t ∷ ss) s b h = (above-append ss s h.0 b.0, IsSorted-append ss s b.1 h.1)
