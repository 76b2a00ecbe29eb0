-- ===== src/Iterator.antt =====
-- iterator.go: iterators over the pairs of a row and a column. A pair is returned with whether the
-- iterator was at its end.
pub mod Pairs
pub mod Readers
pub mod Buffer
use pilosa.Common.{
  ℕ, zero, suc, List, [], ◌∷◌, Bool, true, false, ◌&&◌, ◌||◌, ltb, leb, ◌==◌, if◌then◌else◌, length,
  get_or, Option, none, some,
}

abbrev pub Item : Type 0
Item = ℕ × ℕ × Bool

-- `iterator`.
pub record IteratorOps : Type 1 where
  pub Iter : Type 0
  pub seek : Iter → ℕ → ℕ → Iter
  pub next : Iter → Iter × Item

pub record SliceIterator : Type 0 where
  pub row_ids : List ℕ
  pub column_ids : List ℕ
  pub i : ℕ
  pub n : ℕ

-- `newSliceIterator`; `none` is its panic.
unfoldable pub new_slice_iterator : List ℕ → List ℕ → Option SliceIterator
new_slice_iterator rows columns =
    if length columns == length rows
    then some (record { row_ids = rows; column_ids = columns; i = 0; n = length rows })
    else none

-- The loop of `Seek` of a slice iterator from `i` on, with the rounds left.
unfoldable pub seek_from : SliceIterator → ℕ → ℕ → ℕ → ℕ → ℕ
seek_from itr bseek pseek zero i = itr.n
seek_from itr bseek pseek (suc rounds) i =
    let row = get_or itr.row_ids i 0 in
    let column = get_or itr.column_ids i 0 in
    let later = seek_from itr bseek pseek rounds (suc i) in
    if (bseek == row && leb pseek column) || ltb bseek row then i else later

unfoldable pub slice_seek : SliceIterator → ℕ → ℕ → SliceIterator
slice_seek itr bseek pseek = record itr { i = seek_from itr bseek pseek itr.n 0 }

unfoldable pub slice_next : SliceIterator → SliceIterator × Item
slice_next itr = if leb itr.n itr.i then (itr, (0, 0, true)) else (
  record itr { i = suc itr.i },
  (get_or itr.row_ids itr.i 0, get_or itr.column_ids itr.i 0, false),
)

abbrev pub slice_ops : IteratorOps
slice_ops = record { Iter = SliceIterator; seek = slice_seek; next = slice_next }

pub record LimitIterator (T : IteratorOps) : Type 0 where
  pub itr : T.Iter
  pub max_row_id : ℕ
  pub max_column_id : ℕ
  pub eof : Bool

pub record BufIterator (T : IteratorOps) : Type 0 where
  pub itr : T.Iter
  pub buffer : Item
  pub full : Bool

-- Whether a pair is past the limit.
abbrev pub past_limit : ℕ → ℕ → ℕ → ℕ → Bool
past_limit max_row max_column row column =
    ltb max_row row || (row == max_row && ltb max_column column)

module _ {T : IteratorOps} where
  unfoldable pub new_limit_iterator : T.Iter → ℕ → ℕ → LimitIterator T
  new_limit_iterator itr max_row max_column = record {
    itr = itr;
    max_row_id = max_row;
    max_column_id = max_column;
    eof = false;
  }

  unfoldable pub limit_seek : LimitIterator T → ℕ → ℕ → LimitIterator T
  limit_seek l row column = record l { itr = T.seek l.itr row column }

  unfoldable pub limit_read : LimitIterator T → T.Iter × Item → LimitIterator T × Item
  limit_read l (itr, (row, column, eof)) =
      if eof || past_limit l.max_row_id l.max_column_id row column
      then (record l { itr = itr; eof = true }, (0, 0, true))
      else (record l { itr = itr }, (row, column, false))

  unfoldable pub limit_next : LimitIterator T → LimitIterator T × Item
  limit_next l = if l.eof then (l, (0, 0, true)) else limit_read l (T.next l.itr)

  unfoldable pub new_buf_iterator : T.Iter → BufIterator T
  new_buf_iterator itr = record { itr = itr; buffer = (0, 0, false); full = false }

  unfoldable pub buf_seek : BufIterator T → ℕ → ℕ → BufIterator T
  buf_seek b row column = record b { itr = T.seek b.itr row column; full = false }

  unfoldable pub buf_read : BufIterator T → T.Iter × Item → BufIterator T × Item
  buf_read b (itr, item) = (record b { itr = itr; buffer = item }, item)

  unfoldable pub buf_next : BufIterator T → BufIterator T × Item
  buf_next b = if b.full then (record b { full = false }, b.buffer) else buf_read b (T.next b.itr)

  -- `Unread`; `none` is its panic.
  unfoldable pub unread : BufIterator T → Option (BufIterator T)
  unread b = if b.full then none else some (record b { full = true })

  unfoldable pub peeked : BufIterator T × Item → Option (BufIterator T × Item)
  unfolding unread
  peeked (b, item) = if b.full then none else some (record b { full = true }, item)

  unfoldable pub peek : BufIterator T → Option (BufIterator T × Item)
  unfolding peeked
  peek b = peeked (buf_next b)

-- An iterator with a limit is an iterator.
abbrev pub limit_ops : IteratorOps → IteratorOps
limit_ops T = record { Iter = LimitIterator T; seek = limit_seek; next = limit_next }
