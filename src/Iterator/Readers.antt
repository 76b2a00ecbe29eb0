-- ===== src/Iterator/Readers.antt =====
-- The iterator over slices and the one with a limit return the pairs that they should.
use pilosa.Common.{
  ℕ, zero, suc, ◌-◌, ◌≡◌, refl, sym, List, [], ◌∷◌, true, false, leb, if◌then◌else◌, length, arith,
  Bool-cases, inl, inr, get_or,
}
use mathlib.Core.Path.{subst}
use pilosa.Iterator.{
  IteratorOps, Item, SliceIterator, slice_next, slice_ops, LimitIterator, past_limit, limit_read,
  limit_next, limit_ops,
}
use pilosa.Iterator.Pairs.{Pair, Reads, Reader, within, if_lem}

-- The pairs of two lists from an index on, for a number of rounds.
abbrev pub pairs_at : List ℕ → List ℕ → ℕ → ℕ → List Pair
pairs_at rows columns zero i = []
pairs_at rows columns (suc rounds) i =
    (get_or rows i 0, get_or columns i 0) ∷ pairs_at rows columns rounds (suc i)

abbrev pub slice_rest : SliceIterator → List Pair
slice_rest it = pairs_at it.row_ids it.column_ids (it.n - it.i) it.i

pub slice_next-Reads : (it : SliceIterator) → Reads slice_rest (slice_rest it) (slice_next it)
unfolding slice_next
slice_next-Reads it = elim (Bool-cases (leb it.n it.i)) [
  | inl done ↦
      let none_left : it.n - it.i ≡ 0 = ground arith in
      rw (done, none_left) (refl, rw none_left refl)
  | inr more ↦
      let left : it.n - it.i ≡ suc (it.n - suc it.i) = ground arith in
      rw (more, left) (refl, (refl, refl), refl)
]

abbrev pub slice_reader : Reader slice_ops
slice_reader = record { rest = slice_rest; next-rest = slice_next-Reads }

abbrev slice_start : List ℕ → List ℕ → SliceIterator
slice_start rows columns = record { row_ids = rows; column_ids = columns; i = 0; n = length rows }

-- The iterator with a limit.
abbrev pub limit_rest : {T : IteratorOps} (R : Reader T) → LimitIterator T → List Pair
limit_rest R l = if l.eof then [] else within l.max_row_id l.max_column_id (R.rest l.itr)

limit_read-Reads :
    {T : IteratorOps} (R : Reader T) (l : LimitIterator T) (ps : List Pair) (out : T.Iter × Item)
    → l.eof ≡ false
    → Reads R.rest ps out
    → Reads (limit_rest R) (within l.max_row_id l.max_column_id ps) (limit_read l out)
unfolding limit_read
limit_read-Reads R l [] (it, (row, column, eof)) open_ (e, left) = rw e (refl, refl)
limit_read-Reads R l ((r, c) ∷ ps) (it, (row, column, eof)) open_ (e, same, left) =
    elim (Bool-cases (past_limit l.max_row_id l.max_column_id r c)) [
      | inl past ↦ rw (e, same.0, same.1, past) (refl, refl)
      | inr inside ↦ rw (e, same.0, same.1, inside) (refl, (refl, refl), rw (open_, left) refl)
    ]

pub limit_next-Reads :
    {T : IteratorOps} (R : Reader T) (l : LimitIterator T)
    → Reads (limit_rest R) (limit_rest R l) (limit_next l)
unfolding limit_next
limit_next-Reads {T = T} R l = elim (Bool-cases l.eof) [
  | inl done ↦ rw done (refl, refl)
  | inr open_ ↦
      let ps = within l.max_row_id l.max_column_id (R.rest l.itr) in
      let left : limit_rest R l ≡ ps = if_lem l.eof [] ps open_ in
      let made : limit_next l ≡ limit_read l (T.next l.itr) =
        if_lem l.eof (l, (0, 0, true)) (limit_read l (T.next l.itr)) open_ in
      subst (λ (qs : List Pair). Reads (limit_rest R) qs (limit_next l)) (sym left)
        (subst (λ (out : LimitIterator T × Item). Reads (limit_rest R) ps out) (sym made)
          (limit_read-Reads R l (R.rest l.itr) (T.next l.itr) open_ (R.next-rest l.itr)))
]

abbrev pub limit_reader : {T : IteratorOps} (R : Reader T) → Reader (limit_ops T)
limit_reader R = record { rest = limit_rest R; next-rest = limit_next-Reads R }
