-- ===== src/Iterator/Buffer.antt =====
-- The iterator with a buffer reads and peeks like a list.
use mathlib.Core.Path.{subst}
use pilosa.Common.{
  ◌≡◌, refl, sym, ap, ◌∙◌, List, [], ◌∷◌, true, false, if◌then◌else◌, ◌⊎◌, inl, inr, Option, none,
  some,
}
use pilosa.Iterator.{
  IteratorOps, Item, BufIterator, new_buf_iterator, buf_read, buf_next, peeked, peek,
}
use pilosa.Iterator.Pairs.{Pair, Reads, Reader, if_lem}

-- A call on the iterator, and what it answers: a pair, or none at the end.
pub data Call : Type 0 where
  call_next : Call
  call_peek : Call

abbrev pub answer : Item → Option Pair
answer (row, column, eof) = if eof then none else some (row, column)

abbrev pub with_answer : Item → Option (List (Option Pair)) → Option (List (Option Pair))
with_answer item none = none
with_answer item (some answers) = some (answer item ∷ answers)

module _ {T : IteratorOps} where
  abbrev pub after_peek :
      (BufIterator T → Option (List (Option Pair)))
      → Option (BufIterator T × Item)
      → Option (List (Option Pair))
  after_peek later none = none
  after_peek later (some (b, item)) = with_answer item (later b)

  -- The answers to calls, where `none` is a panic.
  abbrev pub run_calls : List Call → BufIterator T → Option (List (Option Pair))
  run_calls [] b = some []
  run_calls (call_next ∷ calls) b = after_peek (run_calls calls) (some (buf_next b))
  run_calls (call_peek ∷ calls) b = after_peek (run_calls calls) (peek b)

abbrev pub head_pair : List Pair → Option Pair
head_pair [] = none
head_pair (p ∷ ps) = some p

abbrev pub tail_pairs : List Pair → List Pair
tail_pairs [] = []
tail_pairs (p ∷ ps) = ps

-- The answers of a list.
abbrev pub list_calls : List Call → List Pair → List (Option Pair)
list_calls [] ps = []
list_calls (call_next ∷ calls) ps = head_pair ps ∷ list_calls calls (tail_pairs ps)
list_calls (call_peek ∷ calls) ps = head_pair ps ∷ list_calls calls ps

module _ {T : IteratorOps} (R : Reader T) where
  -- The pairs that are left: behind the buffer, or with the buffer as the first.
  abbrev Left : List Pair → BufIterator T → Type 0
  Left ps b =
      ((b.full ≡ false) × (R.rest b.itr ≡ ps))
      ⊎ ((b.full ≡ true) × Reads R.rest ps (b.itr, b.buffer))

  answer_lem :
      (ps : List Pair) (itr : T.Iter) (item : Item)
      → Reads R.rest ps (itr, item)
      → (answer item ≡ head_pair ps) × (R.rest itr ≡ tail_pairs ps)
  answer_lem [] itr (row, column, eof) (e, left) = (rw e refl, left)
  answer_lem ((r, c) ∷ ps) itr (row, column, eof) (e, same, left) =
      (rw (e, same.0, same.1) refl, left)

  -- What `Next` leaves: the pair that it returns is in the buffer too.
  abbrev AfterNext : List Pair → BufIterator T × Item → Type 0
  AfterNext ps (b, item) = (b.full ≡ false) × (item ≡ b.buffer) × Reads R.rest ps (b.itr, b.buffer)

  buf_read-AfterNext :
      (ps : List Pair) (b : BufIterator T) (out : T.Iter × Item)
      → b.full ≡ false
      → Reads R.rest ps out
      → AfterNext ps (buf_read b out)
  unfolding buf_read
  buf_read-AfterNext ps b (itr, item) e p = (e, refl, p)

  buf_next-AfterNext : (ps : List Pair) (b : BufIterator T) → Left ps b → AfterNext ps (buf_next b)
  unfolding buf_next
  buf_next-AfterNext ps b (inl (empty, same)) =
      let made : buf_next b ≡ buf_read b (T.next b.itr) =
        if_lem b.full (record b { full = false }, b.buffer) (buf_read b (T.next b.itr)) empty in
      subst (λ (out : BufIterator T × Item). AfterNext ps out) (sym made)
        (buf_read-AfterNext ps b (T.next b.itr) empty
          (subst (λ (l : List Pair). Reads R.rest l (T.next b.itr)) same (R.next-rest b.itr)))
  buf_next-AfterNext ps b (inr (full, p)) = rw full (refl, refl, p)

  answers_lem :
      (later : BufIterator T → Option (List (Option Pair))) (b : BufIterator T) (item : Item)
      (first : Option Pair) (answers : List (Option Pair))
      → answer item ≡ first
      → later b ≡ some answers
      → after_peek later (some (b, item)) ≡ some (first ∷ answers)
  answers_lem later b item first answers e h =
      ap (with_answer item) h ∙ ap (λ (x : Option Pair). some (x ∷ answers)) e

  -- `Peek` does not panic.
  peek_lem :
      (ps : List Pair) (b : BufIterator T)
      → AfterNext ps (buf_next b)
      → peek b ≡ some (record (buf_next b).0 { full = true }, (buf_next b).1)
  unfolding peek peeked
  peek_lem ps b (empty, same, reads) =
      if_lem (buf_next b).0.full none (some (record (buf_next b).0 { full = true }, (buf_next b).1))
        empty

  run_calls_lem :
      (calls : List Call) (ps : List Pair) (b : BufIterator T)
      → Left ps b
      → run_calls calls b ≡ some (list_calls calls ps)
  run_calls_lem [] ps b p = refl
  run_calls_lem (call_next ∷ calls) ps b p =
      let (empty, same, reads) = buf_next-AfterNext ps b p in
      let (b', item) = buf_next b in
      let (first, left) = answer_lem ps b'.itr b'.buffer reads in
      answers_lem (run_calls calls) b' item (head_pair ps) (list_calls calls (tail_pairs ps))
        (ap answer same ∙ first) (run_calls_lem calls (tail_pairs ps) b' (inl (empty, left)))
  run_calls_lem (call_peek ∷ calls) ps b p =
      let (empty, same, reads) = buf_next-AfterNext ps b p in
      let (b', item) = buf_next b in
      let (first, left) = answer_lem ps b'.itr b'.buffer reads in
      ap (after_peek (run_calls calls)) (peek_lem ps b (buf_next-AfterNext ps b p))
      ∙ answers_lem (run_calls calls) (record b' { full = true }) item (head_pair ps)
          (list_calls calls ps) (ap answer same ∙ first)
          (run_calls_lem calls ps (record b' { full = true }) (inr (refl, reads)))

  -- Over an iterator whose reads return a list of pairs one after the other and then its end, any
  -- sequence of Next and Peek on a new bufIterator answers like a list, where Next takes the first
  -- pair and Peek leaves it, and no Peek panics.
  pub run_calls-eq-list_calls :
      (calls : List Call) (itr : T.Iter)
      → run_calls calls (new_buf_iterator {T = T} itr) ≡ some (list_calls calls (R.rest itr))
  unfolding new_buf_iterator
  run_calls-eq-list_calls calls itr =
      run_calls_lem calls (R.rest itr) (new_buf_iterator {T = T} itr) (inl (refl, refl))
