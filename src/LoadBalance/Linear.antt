-- ===== src/LoadBalance/Linear.antt =====
-- A search that does what the binary search of the standard library promises.
use pavis.Prelude.{ℕ, suc, List, [], ◌∷◌, ◌++◌, All, length, ◌≡◌, refl}
use pavis.LoadBalance.{Ordering, less, greater, BinarySearch}
use pavis.LoadBalance.Owner.{IsSearch}

abbrev found_at : Ordering → ℕ → ℕ
found_at less rest = suc rest
found_at _ rest = 0

-- A search from the left.
abbrev pub linear_search : BinarySearch
linear_search test [] = 0
linear_search test (x ∷ xs) = found_at (test x) (linear_search test xs)

linear_search_place :
    (test : ℕ → Ordering) (xs ys : List ℕ)
    → All (λ x. test x ≡ less) xs
    → All (λ y. test y ≡ greater) ys
    → linear_search test (xs ++ ys) ≡ length xs
linear_search_place test [] [] b a = refl
linear_search_place test [] (y ∷ ys) b (g, a) = rw g refl
linear_search_place test (x ∷ xs) ys (l, b) a = rw (l, linear_search_place test xs ys b a) refl

pub linear_search-IsSearch : IsSearch linear_search
linear_search-IsSearch = record { place = linear_search_place }
