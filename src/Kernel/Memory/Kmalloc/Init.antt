-- ===== src/Kernel/Memory/Kmalloc/Init.antt =====
-- The heap that the frame manager's state gives.
use aion_os.Prelude.{ℕ, ◌+◌, ◌*◌, ◌≤◌, ◌≡◌, false, if◌then◌else◌}
use aion_os.Prelude.Words.{add64}
use aion_os.Kernel.Memory.Bitmap.{page_size}
use aion_os.Kernel.Memory.Pmm.{Pmm, first_frame}
use aion_os.Kernel.Memory.Pmm.State.{is_free, in_run, IsValid, AllFree, HasUsed}
use aion_os.Kernel.Memory.Kmalloc.{Heap, heap_initial_size, virt_phys_map_base}
use aion_os.Kernel.Memory.Kmalloc.Blocks.{IsHeap}

-- The outcome of `kmalloc_init`: no run of 4096 free frames, and nothing changed; or a heap of 16 MB
-- that is the direct map of a run of 4096 frames, which were free and are now in use.
pub data Started (d : ℕ) (s : Pmm) (h : Heap) : Pmm × Heap → Type 0 where
  full :
      ((p : ℕ) → first_frame ≤ p → p + 4096 ≤ s.total_pages → HasUsed s p 4096)
      → Started d s h (s, h)
  granted :
      (p : ℕ) (t : Pmm) (g : Heap)
      → first_frame ≤ p
      → p + 4096 ≤ s.total_pages
      → AllFree s p 4096
      → ((q : ℕ) → is_free t q ≡ (if in_run p 4096 q then false else is_free s q))
      → IsValid d t
      → g.heap_ptr ≡ add64 (p * page_size) virt_phys_map_base
      → g.heap_end ≡ g.heap_ptr + heap_initial_size
      → IsHeap g
      → Started d s h (t, g)
