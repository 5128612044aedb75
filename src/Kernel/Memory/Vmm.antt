-- ===== src/Kernel/Memory/Vmm.antt =====
-- The virtual memory manager of kernel/memory/memory.c: `vmm_get_pte`, `vmm_map`, `vmm_unmap`,
-- `vmm_virt_to_phys` and `vmm_init` over the words of memory.
-- Memory is a function from the address of a `uint64_t` to its value. The tables start on page
-- boundaries, so the words that the code reads and writes do not overlap.
pub mod Path
pub mod Tree
pub mod Fresh
pub mod Grow
pub mod Walk
pub mod Translate
pub mod Map
pub mod Full
pub mod Root
pub mod Range
pub mod Init
mod Tests
use aion_os.Prelude.{
  ℕ, zero, suc, ◌+◌, ◌-◌, ◌*◌, ◌/◌, ◌%◌, ◌^◌, Bool, true, false, Option, none, some, List, ◌∷◌,
  bit_or, ◌==◌, if◌then◌else◌,
}
use aion_os.Prelude.Words.{add64}
use aion_os.Kernel.Memory.Bitmap.{page_size, write}
use aion_os.Kernel.Memory.Pmm.{Pmm, pmm_alloc}
use aion_os.Kernel.Memory.Kmalloc.{virt_phys_map_base}

abbrev pub pte_present : ℕ
pte_present = 2 ^ 0

abbrev pub pte_writable : ℕ
pte_writable = 2 ^ 1

abbrev pub pte_global : ℕ
pte_global = 2 ^ 8

abbrev pub pte_nx : ℕ
pte_nx = 2 ^ 63

-- `e & PTE_PRESENT`
abbrev pub is_present : ℕ → Bool
is_present e = e % 2 == 1

-- `e & PTE_ADDR_MASK`, the bits 12 to 51
abbrev pub pte_addr : ℕ → ℕ
pte_addr e = e / 2 ^ 12 % 2 ^ 40 * 2 ^ 12

-- Memory, the frame manager, `kernel_pml4`, the register CR3, and the addresses that `invlpg` was
-- given, the latest first.
pub record Vmm : Type 0 where
  pub words : ℕ → ℕ
  pub pmm : Pmm
  pub kernel_pml4 : ℕ
  pub cr3 : ℕ
  pub flushed : List ℕ

-- `indices[l]`
pub index_of : ℕ → ℕ → ℕ
index_of vaddr l =
    if l == 4
    then vaddr / 2 ^ 39 % 512
    else if l == 3
    then vaddr / 2 ^ 30 % 512
    else if l == 2
    then vaddr / 2 ^ 21 % 512
    else vaddr / 2 ^ 12 % 512

-- The address of `table[i]`, for the table at the physical address `phys`.
pub entry_at : ℕ → ℕ → ℕ
entry_at phys i = add64 (add64 phys virt_phys_map_base) (8 * i)

-- `for (int i = 0; i < 512; i++) nt[i] = 0`, with the rounds left, from entry `i` on.
pub zero_table : ℕ → ℕ → ℕ → (ℕ → ℕ) → ℕ → ℕ
zero_table zero phys i m = m
zero_table (suc n) phys i m = zero_table n phys (i + 1) (write m (entry_at phys i) 0)

-- The new table of `vmm_get_pte`, from the result of the allocation on; whether there is one.
pub install : ℕ → ℕ × Pmm → Vmm → Bool × Vmm
install entry (new_table, pmm) s = if new_table == 0 then (false, record s { pmm = pmm }) else (
  true,
  record s {
    pmm = pmm;
    words =
        write (zero_table 512 new_table 0 s.words) entry
          (bit_or (bit_or new_table pte_present) pte_writable);
  },
)

-- The body of the loop of `vmm_get_pte` up to the descent: the entry points to a table, or not.
pub ensure : ℕ → Bool → Vmm → Bool × Vmm
ensure entry create s =
    if is_present (s.words entry)
    then (true, s)
    else if create
    then install entry (pmm_alloc s.pmm) s
    else (false, s)

-- `table = ...`, and the rounds from there on; or the return of NULL.
pub descend : (ℕ → Vmm → Option ℕ × Vmm) → ℕ → Bool × Vmm → Option ℕ × Vmm
descend next entry (true, s) = next (pte_addr (s.words entry)) s
descend next entry (false, s) = (none, s)

-- The loop of `vmm_get_pte`, with the rounds left, from level `l` on: the last table, by its
-- physical address. The pointer of the source is that address plus VIRT_PHYS_MAP_BASE.
pub walk : ℕ → ℕ → ℕ → ℕ → Bool → Vmm → Option ℕ × Vmm
unfolding descend
walk zero l table vaddr create s = (some table, s)
walk (suc n) l table vaddr create s =
    descend (λ table' s'. walk n (l - 1) table' vaddr create s') (entry_at table (index_of vaddr l))
      (ensure (entry_at table (index_of vaddr l)) create s)

-- The pointer that `vmm_get_pte` returns, from the table that the loop ends with on.
unfoldable pub entry_in : ℕ → ℕ → Option ℕ × Vmm → Option ℕ × Vmm
entry_in vaddr level (none, s) = (none, s)
entry_in vaddr level (some table, s) = (some (entry_at table (index_of vaddr level)), s)

-- `none` is NULL.
pub vmm_get_pte : ℕ → ℕ → ℕ → Bool → Vmm → Option ℕ × Vmm
unfolding entry_in
vmm_get_pte pml4_phys vaddr level create s =
    entry_in vaddr level (walk (4 - level) 4 pml4_phys vaddr create s)

-- `vmm_map` from the pointer on; whether it returns 0 and not -1.
pub store_pte : ℕ → ℕ → ℕ → Option ℕ × Vmm → Bool × Vmm
store_pte vaddr phys flags (none, s) = (false, s)
store_pte vaddr phys flags (some pte, s) = (
  true,
  record s {
    words = write s.words pte (bit_or (bit_or (pte_addr phys) flags) pte_present);
    flushed = vaddr ∷ s.flushed;
  },
)

pub vmm_map : ℕ → ℕ → ℕ → ℕ → Vmm → Bool × Vmm
unfolding store_pte
vmm_map pml4_phys vaddr phys flags s =
    store_pte vaddr phys flags (vmm_get_pte pml4_phys vaddr 1 true s)

pub clear_pte : ℕ → Option ℕ × Vmm → Vmm
clear_pte vaddr (none, s) = s
clear_pte vaddr (some pte, s) =
    if is_present (s.words pte)
    then record s { words = write s.words pte 0; flushed = vaddr ∷ s.flushed }
    else s

pub vmm_unmap : ℕ → ℕ → Vmm → Vmm
unfolding clear_pte
vmm_unmap pml4_phys vaddr s = clear_pte vaddr (vmm_get_pte pml4_phys vaddr 1 false s)

-- `(*pte & PTE_ADDR_MASK) | (vaddr & 0xFFF)`
pub translated : ℕ → Option ℕ × Vmm → ℕ
translated vaddr (none, s) = 0
translated vaddr (some pte, s) =
    if is_present (s.words pte) then bit_or (pte_addr (s.words pte)) (vaddr % 2 ^ 12) else 0

pub vmm_virt_to_phys : ℕ → ℕ → Vmm → ℕ
unfolding translated
vmm_virt_to_phys pml4_phys vaddr s = translated vaddr (vmm_get_pte pml4_phys vaddr 1 false s)

-- The two mapping loops of `vmm_init`, with the rounds left: `offset + addr` is mapped to `addr`.
-- What `vmm_map` returns is not looked at.
pub map_range : ℕ → ℕ → ℕ → ℕ → Vmm → Vmm
map_range zero offset addr flags s = s
map_range (suc n) offset addr flags s =
    map_range n offset (addr + page_size) flags
      (vmm_map s.kernel_pml4 (add64 offset addr) addr flags s).1

abbrev pub identity_flags : ℕ
identity_flags = bit_or (bit_or pte_present pte_writable) pte_global

abbrev pub direct_flags : ℕ
direct_flags = bit_or (bit_or (bit_or pte_present pte_writable) pte_nx) pte_global

-- The tables of `vmm_init`: 2 GB mapped to themselves, and 4 GB at VIRT_PHYS_MAP_BASE.
pub map_kernel : ℕ → ℕ → Vmm → Vmm
map_kernel identity direct s =
    map_range direct virt_phys_map_base 0 direct_flags (map_range identity 0 0 identity_flags s)

-- `vmm_init` from the result of the allocation on. The two numbers are those of the pages to map.
pub vmm_tables : ℕ → ℕ → ℕ × Pmm → Vmm → Vmm
unfolding map_kernel
vmm_tables identity direct (pml4, pmm) s =
    if pml4 == 0
    then record s { kernel_pml4 = 0; pmm = pmm }
    else let t =
        map_kernel identity direct
          (record s { kernel_pml4 = pml4; pmm = pmm; words = zero_table 512 pml4 0 s.words }) in
      record t { cr3 = t.kernel_pml4 }

pub vmm_init : Vmm → Vmm
unfolding vmm_tables
vmm_init s = vmm_tables (2 ^ 31 / page_size) (2 ^ 32 / page_size) (pmm_alloc s.pmm) s
