-- ===== src/Kernel/Memory/Status.antt =====
-- `memory_get_status` of kernel/memory/memory.c, and the system call that reports it,
-- kernel/syscall/syscall.c.
use aion_os.Prelude.{
  ℕ, ◌+◌, ◌-◌, ◌*◌, ◌^◌, ◌≤◌, ◌<◌, ◌≡◌, ◌≢◌, ◌↔◌, arith, ltb, ◌==◌, if◌then◌else◌,
}
use aion_os.Prelude.Words.{sub64, mul64}
use aion_os.Kernel.Memory.Bitmap.{page_size}
use aion_os.Kernel.Memory.Pmm.{Pmm}
use aion_os.Kernel.Memory.Swap.{Swap}

pub record MemoryStatus : Type 0 where
  pub total_physical : ℕ
  pub free_physical : ℕ
  pub used_physical : ℕ
  pub swap_total : ℕ
  pub swap_used : ℕ
  pub pressure_level : ℕ

pub memory_get_status : Pmm → Swap → MemoryStatus
memory_get_status s w =
    let total = mul64 s.total_pages page_size in
    let free = mul64 s.free_pages page_size in
    record {
      total_physical = total;
      free_physical = free;
      used_physical = sub64 total free;
      swap_total = mul64 w.capacity page_size;
      swap_used = mul64 w.used page_size;
      pressure_level =
          if ltb free (256 * 1024 * 1024) then 2 else if ltb free (512 * 1024 * 1024) then 1 else 0;
    }

abbrev pub sys_mem_status : ℕ
sys_mem_status = 1

-- The arguments `a`, `b` and `c` are not read.
pub syscall_handle : ℕ → ℕ → ℕ → ℕ → Pmm → Swap → ℕ
syscall_handle num a b c s w =
    if num == sys_mem_status then (memory_get_status s w).free_physical else 2 ^ 64 - 1

-- While the counter of free frames is right, used and free memory make up the total, nothing wraps,
-- and the pressure level falls from 2 to 1 at 65536 free frames and to 0 at 131072.
pub memory_get_status_lem :
    (s : Pmm) (w : Swap)
    → s.total_pages < 2 ^ 52
    → s.free_pages ≤ s.total_pages
    → let m = memory_get_status s w in
      (m.used_physical + m.free_physical ≡ m.total_physical)
      × (m.free_physical ≡ s.free_pages * page_size)
      × ((m.pressure_level ≡ 2) ↔ (s.free_pages < 65536))
      × ((m.pressure_level ≡ 1) ↔ ((65536 ≤ s.free_pages) × (s.free_pages < 131072)))
      × ((m.pressure_level ≡ 0) ↔ (131072 ≤ s.free_pages))
unfolding memory_get_status
memory_get_status_lem s w big le =
    let free : mul64 s.free_pages page_size ≡ s.free_pages * page_size = omega arith in
    (
      omega arith,
      free,
      (ground arith, ground arith),
      (ground arith, ground arith),
      (ground arith, ground arith),
    )

-- Any call but SYS_MEM_STATUS is answered by (uint64_t)-1, which the status call never returns.
pub syscall_handle-eq_error :
    (num a b c : ℕ) (s : Pmm) (w : Swap)
    → (syscall_handle num a b c s w ≡ 2 ^ 64 - 1) ↔ (num ≢ sys_mem_status)
unfolding syscall_handle memory_get_status
syscall_handle-eq_error num a b c s w = (ground arith, ground arith)
