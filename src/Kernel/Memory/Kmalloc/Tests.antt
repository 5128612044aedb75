-- ===== src/Kernel/Memory/Kmalloc/Tests.antt =====
-- The bump allocator on a heap of 4 KB.
use aion_os.Prelude.{ℕ, ◌≡◌, refl, [], ◌∷◌, arith}
use aion_os.Kernel.Memory.Kmalloc.{Heap, kmalloc, kmalloc_all}
use aion_os.Kernel.Memory.Kmalloc.Blocks.{IsHeap, Laid, kmalloc_all-Laid}
use aion_os.Kernel.Memory.Bitmap.{max_pages}
use aion_os.Kernel.Memory.Pmm.{Pmm}
use aion_os.Kernel.Memory.Pmm.Count.{count_free}

abbrev small_heap : Heap
small_heap = record { heap_ptr = 0x20_0010; heap_end = 0x20_1000 }

small_heap-IsHeap : IsHeap small_heap
small_heap-IsHeap = omega arith

kmalloc_all-small_heap :
    (kmalloc_all (20 ∷ 5000 ∷ 1 ∷ []) small_heap).0 ≡ 0x20_0010 ∷ 0 ∷ 0x20_0030 ∷ []
unfolding kmalloc_all kmalloc
kmalloc_all-small_heap = refl

kmalloc_all-Laid_example :
    Laid 0x20_1000 0x20_0010 (20 ∷ 5000 ∷ 1 ∷ []) (kmalloc_all (20 ∷ 5000 ∷ 1 ∷ []) small_heap).0
kmalloc_all-Laid_example = kmalloc_all-Laid (20 ∷ 5000 ∷ 1 ∷ []) small_heap-IsHeap (omega arith)

-- 8192 frames, all free.
abbrev frames : Pmm
frames = record { bitmap = λ i. 255; total_pages = 8192; free_pages = 0 }

abbrev drift : ℕ
drift = count_free max_pages (λ i. 255)
