-- ===== src/Kernel/Memory/Swap.antt =====
-- The swap manager of kernel/memory/memory.c: its page fault handler and `swap_init`.
-- The transfer of the page itself is commented out in the source, so no contents move here.
pub mod Fault
use aion_os.Prelude.{
  ℕ, ◌+◌, ◌-◌, ◌*◌, ◌/◌, ◌%◌, ◌^◌, Bool, true, false, Option, none, some, ◌∷◌, bit_or, ◌==◌,
  if◌then◌else◌,
}
use aion_os.Prelude.Words.{sub64}
use aion_os.Kernel.Io.{Ports}
use aion_os.Kernel.Arch.Idt.{UserHandlers, idt_register_handler}
use aion_os.Kernel.Memory.Bitmap.{page_size, write}
use aion_os.Kernel.Memory.Pmm.{Pmm, pmm_alloc}
use aion_os.Kernel.Memory.Vmm.{Vmm, pte_present, pte_writable, vmm_get_pte}

-- The static variables `swap_active`, `swap_capacity` and `swap_used`.
pub record Swap : Type 0 where
  pub active : Bool
  pub capacity : ℕ
  pub used : ℕ

-- 64 GB
abbrev pub swap_max_pages : ℕ
swap_max_pages = 64 * 1024 * 1024 * 1024 / page_size

-- `e & PTE_SWAPPED`
abbrev pub is_swapped : ℕ → Bool
is_swapped e = e / 2 ^ 9 % 2 == 1

-- `(e & PTE_SWAP_IDX) >> 12`
abbrev pub swap_index : ℕ → ℕ
swap_index e = e / 2 ^ 12 % 2 ^ 36

-- How the handler ends: without an entry for the address, and without a frame, it executes `hlt`
-- and returns after the next interrupt.
pub data FaultOutcome : Type 0 where
  no_entry : FaultOutcome
  swapped_in : ℕ → FaultOutcome
  no_frame_free : FaultOutcome
  unexpected : ℕ → FaultOutcome

-- The swap-in, from the result of the allocation on.
pub swap_in : ℕ → ℕ → ℕ × Pmm → Vmm → Swap → FaultOutcome × Vmm × Swap
swap_in fault_addr pte (frame, pmm) s w =
    if frame == 0 then (no_frame_free, record s { pmm = pmm }, w) else (
      swapped_in (swap_index (s.words pte)),
      record s {
        pmm = pmm;
        words = write s.words pte (bit_or (bit_or frame pte_present) pte_writable);
        flushed = fault_addr / 2 ^ 12 * 2 ^ 12 ∷ s.flushed;
      },
      record w { used = sub64 w.used 1 },
    )

pub resolve : ℕ → Swap → Option ℕ × Vmm → FaultOutcome × Vmm × Swap
resolve fault_addr w (none, s) = (no_entry, s, w)
resolve fault_addr w (some pte, s) =
    if is_swapped (s.words pte)
    then swap_in fault_addr pte (pmm_alloc s.pmm) s w
    else (unexpected (s.words pte), s, w)

-- `fault_addr` is what CR2 holds. The handler's two arguments are not read.
pub swap_page_fault_handler : ℕ → Vmm → Swap → FaultOutcome × Vmm × Swap
unfolding resolve
swap_page_fault_handler fault_addr s w =
    resolve fault_addr w (vmm_get_pte s.kernel_pml4 fault_addr 1 false s)

-- `handler` is the page fault handler on the machine's state.
unfoldable pub swap_init :
    {D : Type 0} → Ports D → (ℕ → ℕ → D → D) → UserHandlers D → D → Swap → UserHandlers D × D × Swap
swap_init io handler h d w =
    let (h', d') = idt_register_handler io 14 handler 0 h d in
    (h', d', record w { capacity = swap_max_pages; active = true })
