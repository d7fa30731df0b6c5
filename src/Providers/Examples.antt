-- ===== src/Providers/Examples.antt =====
-- internal/backup/priority_queue.go: two providers pushed, swapped and popped.
use fa.Prelude.{ℕ, ◌≡◌, refl, some, List, [], ◌∷◌, arith}
use fa.Prelude.Int.{ℤ, pos}
use fa.Providers.{ProviderItem, Op, swaps, pushes, assigns, run}
use fa.Providers.Indices.{IsIndexed, run-IsIndexed}

abbrev item : ℕ → ℤ → ℤ → ProviderItem
item n p i = record { name = n; value = n; priority = p; index = i }

abbrev ops : List Op
ops =
    pushes (item 1 (pos 1) (pos 0))
    ∷ pushes (item 2 (pos 5) (pos 0))
    ∷ swaps 0 1
    ∷ assigns 1 3 (pos 4)
    ∷ []

ops_queue :
    run ops [] ≡ some (item 2 (pos 5) (pos 0) ∷ record (item 1 (pos 4) (pos 1)) { value = 3 } ∷ [])
unfolding run
ops_queue = refl

empty-IsIndexed : IsIndexed []
empty-IsIndexed i x h = cc

run-IsIndexed_example : (r : List ProviderItem) × (run ops [] ≡ some r) × IsIndexed r
run-IsIndexed_example =
    run-IsIndexed ops [] empty-IsIndexed (tt, (tt, ((omega arith, omega arith), (omega arith, tt))))
