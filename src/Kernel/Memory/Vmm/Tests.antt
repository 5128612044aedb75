-- ===== src/Kernel/Memory/Vmm/Tests.antt =====
-- Page tables and page faults below frame 700 of a machine with four free frames.
use aion_os.Prelude.{ℕ, true, ◌*◌, ◌≤◌, ◌≡◌, refl, false, [], arith, ◌==◌, if◌then◌else◌}
use aion_os.Kernel.Memory.Bitmap.{page_size, max_pages, bitmap_is_free}
use aion_os.Kernel.Memory.Pmm.{Pmm, first_frame, release_page}
use aion_os.Kernel.Memory.Pmm.State.{is_free, IsValid}
use aion_os.Kernel.Memory.Pmm.Release.{Freed, release_page-Freed}
use aion_os.Kernel.Memory.Pmm.Exact.{count_free-none}
use aion_os.Kernel.Memory.Vmm.{
  Vmm, zero_table, pte_writable, vmm_virt_to_phys, vmm_map, vmm_unmap, vmm_init,
}
use aion_os.Kernel.Memory.Swap.{Swap, swap_page_fault_handler}
use aion_os.Kernel.Memory.Swap.Fault.{Faulted, swap_page_fault_handler-Faulted}
use aion_os.Kernel.Memory.Vmm.Walk.{IsVmm}
use aion_os.Kernel.Memory.Vmm.Root.{root-IsTree}
use aion_os.Kernel.Memory.Vmm.Map.{page_of, Mapped, vmm_map-Mapped, vmm_unmap-Unmapped}
use aion_os.Kernel.Memory.Vmm.Init.{Started, vmm_init-Started}

abbrev all_used : Pmm
all_used = record { bitmap = λ i. 0; total_pages = 1024; free_pages = 0 }

nothing_free : (q : ℕ) → bitmap_is_free (λ i. 0) q ≡ false
unfolding bitmap_is_free
nothing_free q = ground arith

all_used-IsValid : IsValid 0 all_used
all_used-IsValid = record {
  bytes = λ i. omega arith;
  word = omega arith;
  tracked = omega arith;
  counted = omega (arith, count_free-none max_pages (λ i. 0) nothing_free);
}

-- Frames 600 to 603 released, one after the other.
one : Freed 0 all_used 600 (release_page 600 all_used)
one = release_page-Freed 600 all_used-IsValid (omega arith)

abbrev two_free : Pmm
two_free = release_page 601 (release_page 600 all_used)

two : Freed 0 (release_page 600 all_used) 601 two_free
two = release_page-Freed 601 one.valid (omega arith)

three : Freed 0 two_free 602 (release_page 602 two_free)
three = release_page-Freed 602 two.valid (omega arith)

abbrev four_free : Pmm
four_free = release_page 603 (release_page 602 two_free)

four : Freed 0 (release_page 602 two_free) 603 four_free
four = release_page-Freed 603 three.valid (omega arith)

room : first_frame ≤ four_free.total_pages
room = omega (arith, one.total, two.total, three.total, four.total)

root_used : is_free four_free 700 ≡ false
root_used =
    ground
      (arith, one.frames 700, two.frames 700, three.frames 700, four.frames 700, nothing_free 700)

abbrev root : ℕ
root = 700 * page_size

abbrev empty : Vmm
empty = record {
  words = zero_table 512 root 0 (λ a. a);
  pmm = four_free;
  kernel_pml4 = root;
  cr3 = 0;
  flushed = [];
}

empty-IsVmm : IsVmm 0 root empty
empty-IsVmm = root-IsTree (λ a. a) (omega arith, omega arith) root_used four.valid room

vmm_map-Mapped_example :
    IsVmm 0 root (vmm_map root 0x40_1234 0x12_3000 pte_writable empty).1
    × Mapped root 0x40_1234 0x12_3000 empty (vmm_map root 0x40_1234 0x12_3000 pte_writable empty)
vmm_map-Mapped_example = vmm_map-Mapped 0x40_1234 0x12_3000 pte_writable refl empty empty-IsVmm

vmm_unmap-Unmapped_example :
    IsVmm 0 root (vmm_unmap root 0x40_1234 empty)
    × ((w : ℕ)
        → vmm_virt_to_phys root w (vmm_unmap root 0x40_1234 empty)
          ≡ (if page_of 0x40_1234 == page_of w then 0 else vmm_virt_to_phys root w empty))
vmm_unmap-Unmapped_example = vmm_unmap-Unmapped 0x40_1234 empty empty-IsVmm

vmm_init-Started_example : Started 0 empty (vmm_init empty)
vmm_init-Started_example = vmm_init-Started empty four.valid room

abbrev swap : Swap
swap = record { active = true; capacity = 16777216; used = 1 }

swap_page_fault_handler-Faulted_example :
    Faulted 0 0x40_1234 empty swap (swap_page_fault_handler 0x40_1234 empty swap)
swap_page_fault_handler-Faulted_example =
    swap_page_fault_handler-Faulted 0x40_1234 empty swap empty-IsVmm
