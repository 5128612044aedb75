-- ===== src/Kernel/Memory/Pmm/Count.antt =====
-- How many of the first `n` frames are free, and how one bit changes that number.
use aion_os.Prelude.{ℕ, zero, suc, ◌+◌, ◌≤◌, ◌≡◌, refl, true, false, arith, ltb, if◌then◌else◌}
use aion_os.Kernel.Memory.Bitmap.{
  Bitmap, bitmap_set_free, bitmap_set_used, bitmap_is_free, IsBytes, is_free-set_free,
  is_free-set_used,
}

unfoldable pub count_free : ℕ → Bitmap → ℕ
count_free zero m = 0
count_free (suc n) m = (if bitmap_is_free m n then 1 else 0) + count_free n m

pub count_free-le : (n : ℕ) (m : Bitmap) → count_free n m ≤ n
unfolding count_free
count_free-le zero m = omega arith
count_free-le (suc n) m = ground (arith, count_free-le n m)

-- The number depends on which frames are free, and on nothing else.
pub count_free-ext :
    (n : ℕ) (m m' : Bitmap)
    → ((q : ℕ) → bitmap_is_free m q ≡ bitmap_is_free m' q)
    → count_free n m ≡ count_free n m'
unfolding count_free
count_free-ext zero m m' h = refl
count_free-ext (suc n) m m' h = ground (arith, h n, count_free-ext n m m' h)

module _ (m : Bitmap) (bytes : IsBytes m) (p : ℕ) where
  pub count_free-set_used :
      bitmap_is_free m p ≡ true
      → (n : ℕ) → count_free n (bitmap_set_used m p) + (if ltb p n then 1 else 0) ≡ count_free n m
  unfolding count_free
  count_free-set_used h zero = ground arith
  count_free-set_used h (suc n) =
      ground (arith, is_free-set_used m bytes p n, count_free-set_used h n)

  pub count_free-set_free :
      bitmap_is_free m p ≡ false
      → (n : ℕ) → count_free n (bitmap_set_free m p) ≡ count_free n m + (if ltb p n then 1 else 0)
  unfolding count_free
  count_free-set_free h zero = ground arith
  count_free-set_free h (suc n) =
      ground (arith, is_free-set_free m bytes p n, count_free-set_free h n)
