-- ===== src/Kernel/Memory/Bitmap.antt =====
-- The bitmap of physical frames of kernel/memory/memory.c: one bit for each frame, 1 for free.
-- The array is a function from byte indices. `BITMAP_SIZE` bytes of it exist; `Bitmap.in_bounds`
-- is the condition under which an access stays inside them.
use aion_os.Prelude.{ℕ, ◌/◌, ◌%◌, ◌^◌, ◌<◌, ◌≡◌, Bool, true, false, arith, ◌==◌, if◌then◌else◌}
use aion_os.Prelude.Bytes.{
  bit, set_bit, clear_bit, set_bit-lt, clear_bit-lt, bit-set_bit, bit-clear_bit,
}

abbrev pub page_size : ℕ
page_size = 4096

-- 128 GB
abbrev pub max_phys_mem : ℕ
max_phys_mem = 2 ^ 37

abbrev pub max_pages : ℕ
max_pages = max_phys_mem / page_size

abbrev pub bitmap_size : ℕ
bitmap_size = max_phys_mem / page_size / 8

abbrev pub Bitmap : Type 0
Bitmap = ℕ → ℕ

-- `phys_bitmap[i] = v`
abbrev pub write : Bitmap → ℕ → ℕ → Bitmap
write m i v j = if i == j then v else m j

unfoldable pub bitmap_set_free : Bitmap → ℕ → Bitmap
bitmap_set_free m page_idx = write m (page_idx / 8) (set_bit (m (page_idx / 8)) (page_idx % 8))

unfoldable pub bitmap_set_used : Bitmap → ℕ → Bitmap
bitmap_set_used m page_idx = write m (page_idx / 8) (clear_bit (m (page_idx / 8)) (page_idx % 8))

unfoldable pub bitmap_is_free : Bitmap → ℕ → Bool
bitmap_is_free m page_idx = bit (m (page_idx / 8)) (page_idx % 8)

-- Every entry of the array is a `uint8_t`.
abbrev pub IsBytes : Bitmap → Type 0
IsBytes m = (i : ℕ) → m i < 256

-- The byte of a tracked frame lies in the array.
pub in_bounds : (page_idx : ℕ) → page_idx < max_pages → page_idx / 8 < bitmap_size
in_bounds page_idx h = omega arith

module _ (m : Bitmap) (bytes : IsBytes m) (p : ℕ) where
  pub set_free-IsBytes : IsBytes (bitmap_set_free m p)
  unfolding bitmap_set_free
  set_free-IsBytes i =
      ground (arith, bytes i, set_bit-lt (m (p / 8)) (p % 8) (bytes (p / 8)) (omega arith))

  pub set_used-IsBytes : IsBytes (bitmap_set_used m p)
  unfolding bitmap_set_used
  set_used-IsBytes i =
      ground (arith, bytes i, clear_bit-lt (m (p / 8)) (p % 8) (bytes (p / 8)) (omega arith))

  -- Setting the bit of frame `p` makes `p` free and leaves every other frame as it was.
  pub is_free-set_free :
      (q : ℕ)
      → bitmap_is_free (bitmap_set_free m p) q ≡ (if p == q then true else bitmap_is_free m q)
  unfolding bitmap_is_free bitmap_set_free
  is_free-set_free q =
      ground (arith, bit-set_bit (m (p / 8)) (p % 8) (bytes (p / 8)) (omega arith) (q % 8))

  pub is_free-set_used :
      (q : ℕ)
      → bitmap_is_free (bitmap_set_used m p) q ≡ (if p == q then false else bitmap_is_free m q)
  unfolding bitmap_is_free bitmap_set_used
  is_free-set_used q =
      ground (arith, bit-clear_bit (m (p / 8)) (p % 8) (bytes (p / 8)) (omega arith) (q % 8))
