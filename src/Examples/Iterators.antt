-- ===== src/Examples/Iterators.antt =====
-- Iterators at concrete inputs.
use pilosa.Common.{ℕ, ◌≡◌, refl, List, [], ◌∷◌, none, some}
use pilosa.Iterator.{SliceIterator, slice_ops, new_limit_iterator, new_buf_iterator, limit_ops}
use pilosa.Iterator.Pairs.{within, from_pair, zip_pairs}
use pilosa.Iterator.Readers.{slice_reader, limit_reader}
use pilosa.Iterator.Buffer.{
  Call, call_next, call_peek, run_calls, list_calls, run_calls-eq-list_calls,
}

abbrev rows : List ℕ
rows = 1 ∷ 1 ∷ 4 ∷ 6 ∷ []

abbrev columns : List ℕ
columns = 3 ∷ 8 ∷ 2 ∷ 5 ∷ []

abbrev pairs : SliceIterator
pairs = record { row_ids = rows; column_ids = columns; i = 0; n = 4 }

within_test : within 4 9 (from_pair 1 5 (zip_pairs rows columns)) ≡ ((1, 8) ∷ (4, 2) ∷ [])
within_test = refl

abbrev calls : List Call
calls = call_peek ∷ call_next ∷ call_next ∷ call_peek ∷ call_peek ∷ call_next ∷ call_next ∷ []

run_calls_example :
    run_calls calls
      (new_buf_iterator {T = limit_ops slice_ops} (new_limit_iterator {T = slice_ops} pairs 4 9))
    ≡ some (
        list_calls calls
          ((limit_reader slice_reader).rest (new_limit_iterator {T = slice_ops} pairs 4 9)))
run_calls_example =
    run_calls-eq-list_calls (limit_reader slice_reader) calls
      (new_limit_iterator {T = slice_ops} pairs 4 9)

list_calls_test :
    list_calls calls ((1, 3) ∷ (1, 8) ∷ [])
    ≡ (some (1, 3) ∷ some (1, 3) ∷ some (1, 8) ∷ none ∷ none ∷ none ∷ none ∷ [])
list_calls_test = refl
