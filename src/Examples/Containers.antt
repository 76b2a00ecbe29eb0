-- ===== src/Examples/Containers.antt =====
-- Array containers at concrete inputs.
use pilosa.Common.{ℕ, ◌≡◌, List, [], ◌∷◌, not, ◌&&◌, arith, if◌then◌else◌}
use pilosa.Roaring.Sorted.{AscendingFrom, mem}
use pilosa.Roaring.Search.{search32}
use pilosa.Roaring.Search.Binary.{Answer, search32-Answer}
use pilosa.Roaring.Array.{xor_array_array}
use pilosa.Roaring.Array.Merge
use pilosa.Roaring.Container.Kinds.{IsArray}
use pilosa.Roaring.Intersect.Values.{Holds}
use pilosa.Roaring.Difference.{difference_array_array}
use pilosa.Roaring.Difference.Sets.{difference_array_array-Holds}

abbrev odds : List ℕ
odds = 1 ∷ 3 ∷ 5 ∷ 7 ∷ []

abbrev primes : List ℕ
primes = 2 ∷ 3 ∷ 5 ∷ []

odds-AscendingFrom : AscendingFrom 0 odds
odds-AscendingFrom = omega arith

primes-AscendingFrom : AscendingFrom 0 primes
primes-AscendingFrom = omega arith

search32-Answer_example : search32 odds 5 ≡ Answer odds 5 odds-AscendingFrom
search32-Answer_example = search32-Answer odds 5 odds-AscendingFrom

mem-xor_array_array_example :
    mem 3 (xor_array_array odds primes) ≡ (if mem 3 odds then not (mem 3 primes) else mem 3 primes)
mem-xor_array_array_example =
    Merge.mem-xor_array_array 3 0 odds primes odds-AscendingFrom primes-AscendingFrom

odds-IsArray : IsArray odds
odds-IsArray = (odds-AscendingFrom, λ c e. ground arith)

primes-IsArray : IsArray primes
primes-IsArray = (primes-AscendingFrom, λ c e. ground arith)

difference_array_array-Holds_example :
    Holds (λ (u : ℕ). mem u odds && not (mem u primes)) (difference_array_array odds primes)
difference_array_array-Holds_example =
    difference_array_array-Holds odds primes odds-IsArray primes-IsArray
