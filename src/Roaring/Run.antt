-- ===== src/Roaring/Run.antt =====
-- The run containers of roaring/roaring.go: intervals of 16-bit values, both ends included. A
-- function that builds a container returns its runs with the cardinality that it sets; the change
-- to another kind of container that may follow is left out.
pub mod Sets
pub mod Append
pub mod Outputs
pub mod Union
pub mod Intersect
pub mod Count
pub mod Arrays
pub mod Update
pub mod Range
use pilosa.Common.{
  ℕ, zero, suc, ◌+◌, ◌-◌, ◌%◌, List, [], ◌∷◌, ◌++◌, Bool, true, false, ◌&&◌, ◌||◌, ltb, leb, ◌==◌,
  if◌then◌else◌, length,
}

abbrev pub max_container_val : ℕ
max_container_val = 0xffff

pub record Interval16 : Type 0 where
  pub start : ℕ
  pub last : ℕ

-- `x + 1` and `x - 1` on uint16.
abbrev pub next16 : ℕ → ℕ
next16 x = (x + 1) % 0x1_0000

abbrev pub prev16 : ℕ → ℕ
prev16 x = (x + 0xffff) % 0x1_0000

-- `int32(iv.last - iv.start) + 1`.
abbrev pub runlen : Interval16 → ℕ
runlen iv = iv.last - iv.start + 1

-- `runAppendInterval`: the runs, and the growth of the cardinality.
unfoldable pub run_append_interval : List Interval16 → Interval16 → List Interval16 × ℕ
run_append_interval [] v = (v ∷ [], v.last - v.start + 1)
run_append_interval (r ∷ []) v =
    if r.last == max_container_val
    then (r ∷ [], 0)
    else if leb v.start (next16 r.last) && ltb r.last v.last
    then (record r { last = v.last } ∷ [], v.last - r.last)
    else if ltb (next16 r.last) v.start
    then (r ∷ v ∷ [], v.last - v.start + 1)
    else (r ∷ [], 0)
run_append_interval (r ∷ s ∷ rs) v = let (rest, n) = run_append_interval (s ∷ rs) v in (r ∷ rest, n)

-- An output container under construction: its runs and cardinality so far.
abbrev pub Output : Type 0
Output = List Interval16 × ℕ

unfoldable pub append_to : Output → Interval16 → Output
append_to (runs, n) v = let (runs', k) = run_append_interval runs v in (runs', n + k)

unfoldable pub union_loop : List Interval16 → List Interval16 → Output → Output
union_loop [] [] out = out
union_loop [] (b ∷ bs) out = union_loop [] bs (append_to out b)
union_loop (a ∷ as') [] out = union_loop as' [] (append_to out a)
union_loop (a ∷ as') (b ∷ bs) out =
    let first = union_loop as' (b ∷ bs) (append_to out a) in
    let second = union_loop (a ∷ as') bs (append_to out b) in
    if ltb a.start b.start then first else second

pub union_run_run : List Interval16 → List Interval16 → Output
union_run_run ra rb = union_loop ra rb ([], 0)

-- `unionArrayRun`: a value of the array goes in as an interval of its own.
unfoldable pub union_array_loop : List ℕ → List Interval16 → Output → Output
union_array_loop [] [] out = out
union_array_loop [] (b ∷ bs) out = union_array_loop [] bs (append_to out b)
union_array_loop (a ∷ as') [] out =
    union_array_loop as' [] (append_to out (record { start = a; last = a }))
union_array_loop (a ∷ as') (b ∷ bs) out =
    let first = union_array_loop as' (b ∷ bs) (append_to out (record { start = a; last = a })) in
    let second = union_array_loop (a ∷ as') bs (append_to out b) in
    if ltb a b.start then first else second

pub union_array_run : List ℕ → List Interval16 → Output
union_array_run aa rb = union_array_loop aa rb ([], 0)

-- `intersectRunRun`: the six cases of its loop.
unfoldable pub intersect_loop : List Interval16 → List Interval16 → Output → Output
intersect_loop [] bs out = out
intersect_loop (a ∷ as') [] out = out
intersect_loop (a ∷ as') (b ∷ bs) out =
    let skip_a = intersect_loop as' (b ∷ bs) out in
    let skip_b = intersect_loop (a ∷ as') bs out in
    let tail_of_b =
      intersect_loop (a ∷ as') bs (append_to out (record { start = a.start; last = b.last })) in
    let all_of_b = intersect_loop (a ∷ as') bs (append_to out b) in
    let all_of_a = intersect_loop as' (b ∷ bs) (append_to out a) in
    let tail_of_a =
      intersect_loop as' (b ∷ bs) (append_to out (record { start = b.start; last = a.last })) in
    if ltb a.last b.start
    then skip_a
    else if ltb b.last a.start
    then skip_b
    else if ltb b.last a.last && leb b.start a.start
    then tail_of_b
    else if ltb b.last a.last && ltb a.start b.start
    then all_of_b
    else if leb a.last b.last && leb b.start a.start
    then all_of_a
    else if leb a.last b.last && ltb a.start b.start
    then tail_of_a
    else out

pub intersect_run_run : List Interval16 → List Interval16 → Output
intersect_run_run ra rb = intersect_loop ra rb ([], 0)

-- `intersectionCountRunRun`.
unfoldable pub intersection_count_loop : List Interval16 → List Interval16 → ℕ → ℕ
intersection_count_loop [] bs n = n
intersection_count_loop (a ∷ as') [] n = n
intersection_count_loop (a ∷ as') (b ∷ bs) n =
    let next_a = λ (k : ℕ). intersection_count_loop as' (b ∷ bs) (n + k) in
    let next_b = λ (k : ℕ). intersection_count_loop (a ∷ as') bs (n + k) in
    if ltb a.last b.start
    then next_a 0
    else if ltb b.last a.start
    then next_b 0
    else if ltb b.last a.last && leb b.start a.start
    then next_b (1 + (b.last - a.start))
    else if ltb b.last a.last && ltb a.start b.start
    then next_b (1 + (b.last - b.start))
    else if leb a.last b.last && leb b.start a.start
    then next_a (1 + (a.last - a.start))
    else if leb a.last b.last && ltb a.start b.start
    then next_a (1 + (a.last - b.start))
    else n

pub intersection_count_run_run : List Interval16 → List Interval16 → ℕ
intersection_count_run_run ra rb = intersection_count_loop ra rb 0

-- `intersectArrayRun`.
unfoldable pub intersect_array_run : List ℕ → List Interval16 → List ℕ
intersect_array_run [] rb = []
intersect_array_run (a ∷ as') [] = []
intersect_array_run (a ∷ as') (b ∷ rb) =
    let skip_a = intersect_array_run as' (b ∷ rb) in
    let skip_b = intersect_array_run (a ∷ as') rb in
    let keep_a = a ∷ intersect_array_run as' (b ∷ rb) in
    if ltb a b.start then skip_a else if ltb b.last a then skip_b else keep_a
