-- ===== src/Kernel/Memory/Pmm/State.antt =====
-- What the frame manager's state means: which frames are free, and how the counter
-- `phys_free_pages` relates to them; and what taking a run of frames does to both.
use aion_os.Prelude.{
  ℕ, zero, suc, ◌+◌, ◌%◌, ◌^◌, ◌≤◌, ◌<◌, ◌≡◌, Bool, true, false, ◌&&◌, inl, inr, arith, ltb, leb,
  ◌==◌, ==_iff, if◌then◌else◌, Bool-cases,
}
use aion_os.Prelude.Words.{sub64}
use aion_os.Kernel.Memory.Bitmap.{
  max_pages, bitmap_is_free, IsBytes, set_used-IsBytes, is_free-set_used,
}
use aion_os.Kernel.Memory.Pmm.{Pmm, take_page, take_pages}
use aion_os.Kernel.Memory.Pmm.Count.{count_free, count_free-set_used}

abbrev pub is_free : Pmm → ℕ → Bool
is_free s q = bitmap_is_free s.bitmap q

-- `q` is one of the `n` frames from `p` on.
abbrev pub in_run : ℕ → ℕ → ℕ → Bool
in_run p n q = leb p q && ltb q (p + n)

-- The counter is off by a constant `drift` from the number of free frames, modulo 2 ^ 64.
pub record IsValid (drift : ℕ) (s : Pmm) : Type 0 where
  pub bytes : IsBytes s.bitmap
  pub word : s.free_pages < 2 ^ 64
  pub tracked : s.total_pages ≤ max_pages
  pub counted : (s.free_pages + drift) % 2 ^ 64 ≡ count_free max_pages s.bitmap

abbrev pub AllFree : Pmm → ℕ → ℕ → Type 0
AllFree s p n = (q : ℕ) → p ≤ q → q < p + n → is_free s q ≡ true

pub extend :
    (s : Pmm) (st i len : ℕ)
    → st + len ≡ i
    → AllFree s st len
    → is_free s i ≡ true
    → AllFree s st (len + 1)
extend s st i len e free f q lo hi = elim (Bool-cases (q == i)) [
  | inl same ↦ rw ((==_iff q i).0 same) f
  | inr other ↦ free q lo (ground arith)
]

pub resize : (s : Pmm) {st a b : ℕ} → a ≡ b → AllFree s st a → AllFree s st b
resize s e free q lo hi = free q lo (omega arith)

-- Some frame of the run is in use.
abbrev pub HasUsed : Pmm → ℕ → ℕ → Type 0
HasUsed s p n = (q : ℕ) × (p ≤ q) × (q < p + n) × (is_free s q ≡ false)

count_step : (i a b : ℕ) {n : ℕ} → i < n → a + (if ltb i n then 1 else 0) ≡ b → a + 1 ≡ b
count_step i a b h e = ground arith

counter_down : (f a b d : ℕ) → (f + d) % 2 ^ 64 ≡ b → a + 1 ≡ b → (sub64 f 1 + d) % 2 ^ 64 ≡ a
counter_down f a b d h e = omega arith

pub take_page-IsValid :
    {d : ℕ} {s : Pmm} (i : ℕ)
    → IsValid d s
    → i < max_pages
    → is_free s i ≡ true
    → IsValid d (take_page i s)
unfolding take_page
take_page-IsValid {d} {s} i v h e = record {
  bytes = set_used-IsBytes s.bitmap v.bytes i;
  word = omega arith;
  tracked = v.tracked;
  counted =
      counter_down s.free_pages _ _ d v.counted
        (count_step i _ _ h (count_free-set_used s.bitmap v.bytes i e max_pages));
}

pub is_free-take_page :
    (s : Pmm) (i q : ℕ)
    → IsBytes s.bitmap
    → is_free (take_page i s) q ≡ (if i == q then false else is_free s q)
unfolding take_page
is_free-take_page s i q b = is_free-set_used s.bitmap b i q

pub is_free-take_pages :
    (n : ℕ) (s : Pmm) (i q : ℕ)
    → IsBytes s.bitmap
    → is_free (take_pages n i s) q ≡ (if in_run i n q then false else is_free s q)
unfolding take_pages take_page
is_free-take_pages zero s i q b = ground arith
is_free-take_pages (suc n) s i q b = ground (
  arith,
  is_free-take_pages n (take_page i s) (i + 1) q (set_used-IsBytes s.bitmap b i),
  is_free-set_used s.bitmap b i q,
)

pub total-take_pages : (n i : ℕ) (s : Pmm) → (take_pages n i s).total_pages ≡ s.total_pages
unfolding take_pages take_page
total-take_pages zero i s = ground arith
total-take_pages (suc n) i s = total-take_pages n (i + 1) (take_page i s)

pub take_pages-IsValid :
    (n : ℕ) {d : ℕ} {s : Pmm} (i : ℕ)
    → IsValid d s
    → i + n ≤ max_pages
    → AllFree s i n
    → IsValid d (take_pages n i s)
unfolding take_pages
take_pages-IsValid zero i v h free = v
take_pages-IsValid (suc n) {s} i v h free =
    take_pages-IsValid n (i + 1)
      (take_page-IsValid i v (omega arith) (free i (omega arith) (omega arith))) (omega arith)
      λ q lo hi. ground (arith, is_free-take_page s i q v.bytes, free q)

pub take_pages-IsBytes : (n i : ℕ) (s : Pmm) → IsBytes s.bitmap → IsBytes (take_pages n i s).bitmap
unfolding take_pages take_page
take_pages-IsBytes zero i s b = b
take_pages-IsBytes (suc n) i s b =
    take_pages-IsBytes n (i + 1) (take_page i s) (set_used-IsBytes s.bitmap b i)
