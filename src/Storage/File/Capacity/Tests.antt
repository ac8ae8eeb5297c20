-- ===== src/Storage/File/Capacity/Tests.antt =====
-- Tests of the capacity leases.
use loomctl.Base.{ℕ, ◌≤◌, Bool, true, String, List, [], ◌∷◌, arith}
use loomctl.Storage.File.Capacity.{Call, acquires, releases, run}
use loomctl.Storage.File.Capacity.Bound.{held, capacity_bound}

abbrev first_come : String → String → Bool
first_come a b = true

abbrev calls : List (Call ℕ)
calls =
    acquires "tenant" "a" "run:a" 2 50 4 10 10
    ∷ acquires "tenant" "b" "run:b" 2 50 5 11 11
    ∷ acquires "tenant" "c" "run:c" 1 50 6 12 12
    ∷ releases "tenant" "a" "run:a"
    ∷ []

capacity_bound_example : held first_come "tenant" (run first_come [] calls) ≤ 2
capacity_bound_example =
    capacity_bound first_come "tenant" 2 calls
      ((λ same. omega arith), ((λ same. omega arith), ((λ same. omega arith), (tt, tt))))
