-- ===== src/Kernel/Arch/Gdt/Tests.antt =====
-- The descriptor table that the kernel builds.
use aion_os.Prelude.{◌+◌, ◌*◌, ◌%◌, ◌^◌, ◌≡◌, refl, arith, length, replicate}
use aion_os.Kernel.Arch.Gdt.{Tables, no_entry, gdt_init, gdt_get_tss_rsp0}
use aion_os.Kernel.Arch.Gdt.Decode.{IsTable, gdt_init-IsTable}

abbrev zeroed : Tables
zeroed = record {
  entries = replicate 7 no_entry;
  tss_rsp0 = 0;
  tss_iopb_offset = 0;
  gdtr_limit = 0;
  gdtr_base = 0;
  task_register = 0;
}

gdt_init-IsTable_example :
    let u = gdt_init 0x9000 0xffff_8000_0001_2340 0x5000 zeroed in
    IsTable 0xffff_8000_0001_2340 u.entries
    × (u.gdtr_limit + 1 ≡ 8 * length zeroed.entries)
    × (u.gdtr_base ≡ 0x5000)
    × (u.task_register ≡ 8 * 5)
    × (gdt_get_tss_rsp0 u ≡ (0x9000 + 8192) % 2 ^ 64)
gdt_init-IsTable_example =
    gdt_init-IsTable 0x9000 0xffff_8000_0001_2340 0x5000 zeroed (omega arith) refl
