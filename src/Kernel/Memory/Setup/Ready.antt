-- ===== src/Kernel/Memory/Setup/Ready.antt =====
-- What `memory_init` of kernel/memory/memory.c leaves: page tables and a heap.
use aion_os.Prelude.{ℕ, ◌+◌, ◌*◌, ◌/◌, ◌≤◌, ◌<◌, ◌≡◌, false, some, ◌⊎◌}
use aion_os.Prelude.Words.{add64}
use aion_os.Kernel.Io.{Ports}
use aion_os.Kernel.Memory.Bitmap.{page_size}
use aion_os.Kernel.Memory.Pmm.{Pmm, first_frame, pmm_alloc}
use aion_os.Kernel.Memory.Pmm.State.{is_free, in_run, IsValid, HasUsed}
use aion_os.Kernel.Memory.Kmalloc.{Heap, heap_initial_size, virt_phys_map_base}
use aion_os.Kernel.Memory.Kmalloc.Blocks.{IsHeap}
use aion_os.Kernel.Memory.Vmm.{Vmm}
use aion_os.Kernel.Memory.Vmm.Path.{path}
use aion_os.Kernel.Memory.Vmm.Walk.{IsVmm}
use aion_os.Kernel.Memory.Vmm.Range.{low_pages, Reached}
use aion_os.Kernel.Memory.Swap.{swap_init}
use aion_os.Kernel.Memory.Setup.{Managers, give_heap, give_swap}

-- No page table below `r` lies in the `n` frames from `p` on.
abbrev pub Apart : (ℕ → ℕ) → ℕ → ℕ → ℕ → Type 0
Apart words r p n = (v k t : ℕ) → k ≤ 3 → path words r v k ≡ some t → in_run p n (t / 4096) ≡ false

-- The heap is the direct map of 4096 frames that are in use and hold no page table.
pub record HasRoom (r : ℕ) (s : Vmm) (h : Heap) : Type 0 where
  pub frame : ℕ
  pub low : first_frame ≤ frame
  pub high : frame + 4096 ≤ s.pmm.total_pages
  pub start : h.heap_ptr ≡ add64 (frame * page_size) virt_phys_map_base
  pub size : h.heap_end ≡ h.heap_ptr + heap_initial_size
  pub heap : IsHeap h
  pub taken : (q : ℕ) → frame ≤ q → q < frame + 4096 → is_free s.pmm q ≡ false
  pub apart : Apart s.words r frame 4096

-- There is no run of 4096 free frames.
abbrev pub HasNone : Pmm → Type 0
HasNone q = (p : ℕ) → first_frame ≤ p → p + 4096 ≤ q.total_pages → HasUsed q p 4096

-- The state behind `kmalloc_init`, when the page tables below `r` are active.
pub record Ready (d r : ℕ) (heap : Heap) (s : Vmm) (h : Heap) : Type 0 where
  pub root : s.kernel_pml4 ≡ r
  pub active : s.cr3 ≡ r
  pub tables : IsVmm d r s
  pub reached : (w : ℕ) → Reached low_pages r s w
  pub room : ((h ≡ heap) × HasNone s.pmm) ⊎ HasRoom r s h

module _ {d r : ℕ} (s : Vmm) (root : s.kernel_pml4 ≡ r) (active : s.cr3 ≡ r) (tree : IsVmm d r s)
    (reached : (w : ℕ) → Reached low_pages r s w) where
  module _ (q : Pmm) where
    abbrev after : Vmm
    after = record s { pmm = q }

-- What `memory_init` leaves, from the frame manager `p` on that `pmm_init` left.
pub data Initialised {D : Type 0} (d : ℕ) (p : Pmm) (s : Managers D) (t : Managers D) : Type 0 where
  no_tables :
      (pmm_alloc p).0 ≡ 0
      → t.vmm ≡ record s.vmm { pmm = p; kernel_pml4 = 0 }
      → t.heap ≡ s.heap
      → Initialised d p s t
  ready : (r : ℕ) → r ≡ (pmm_alloc p).0 → Ready d r s.heap t.vmm t.heap → Initialised d p s t

module _ {D : Type 0} (io : Ports D) (handler : ℕ → ℕ → D → D) {d : ℕ} (s : Managers D) (p : Pmm)
    (valid : IsValid d p) (enough : first_frame ≤ p.total_pages) where
  abbrev with_heap : Vmm → Pmm × Heap → Managers D
  with_heap v out = give_heap out (record s { vmm = v })

  abbrev with_swap : Managers D → Managers D
  with_swap t = give_swap (swap_init io handler t.handlers t.devices t.swap) t

  unpaged : Vmm
  unpaged = record s.vmm { pmm = p }
