-- ===== src/Fragment/Storage.antt =====
-- What fragment.go uses of the roaring bitmap that stores it, and of its row-count cache. `add`
-- and `remove` answer `none` when the op log cannot be written, and then the bitmap is unchanged;
-- else they answer whether the bitmap changed, with the new bitmap.
use pilosa.Common.{ℕ, ◌≡◌, Bool, not, ◌&&◌, ◌||◌, ◌==◌, Option, some}

pub record StorageOps : Type 1 where
  pub Bitmap : Type 0
  pub Cache : Type 0
  pub contains : Bitmap → ℕ → Bool
  pub add : Bitmap → ℕ → Option (Bool × Bitmap)
  pub remove : Bitmap → ℕ → Option (Bool × Bitmap)
  pub count_range : Bitmap → ℕ → ℕ → ℕ
  pub cache_add : Cache → ℕ → ℕ → Cache
  pub contains-add :
      (b : Bitmap) (p : ℕ) (changed : Bool) (b' : Bitmap)
      → add b p ≡ some (changed, b')
      → (q : ℕ) → contains b' q ≡ (q == p || contains b q)
  pub changed-add :
      (b : Bitmap) (p : ℕ) (changed : Bool) (b' : Bitmap)
      → add b p ≡ some (changed, b')
      → changed ≡ not (contains b p)
  pub contains-remove :
      (b : Bitmap) (p : ℕ) (changed : Bool) (b' : Bitmap)
      → remove b p ≡ some (changed, b')
      → (q : ℕ) → contains b' q ≡ (not (q == p) && contains b q)
  pub changed-remove :
      (b : Bitmap) (p : ℕ) (changed : Bool) (b' : Bitmap)
      → remove b p ≡ some (changed, b')
      → changed ≡ contains b p
