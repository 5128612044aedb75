-- ===== src/Kernel/Arch/Gdt.antt =====
-- The global descriptor table, kernel/arch/x86_64/gdt.c.
pub mod Decode
mod Tests
use aion_os.Prelude.{
  ℕ, ◌+◌, ◌-◌, ◌*◌, ◌/◌, ◌%◌, ◌^◌, List, [], ◌∷◌, bit_and, bit_or, set, replicate,
}
use aion_os.Prelude.Words.{add64}

pub record GdtEntry : Type 0 where
  pub limit_low : ℕ
  pub base_low : ℕ
  pub base_mid : ℕ
  pub access : ℕ
  pub granularity : ℕ
  pub base_high : ℕ

-- The static tables, with the registers that `lgdt` and `ltr` load. `entries` is `gdt`; of
-- `kernel_tss` the two fields that the code writes.
pub record Tables : Type 0 where
  pub entries : List GdtEntry
  pub tss_rsp0 : ℕ
  pub tss_iopb_offset : ℕ
  pub gdtr_limit : ℕ
  pub gdtr_base : ℕ
  pub task_register : ℕ

abbrev pub no_entry : GdtEntry
no_entry = record {
  limit_low = 0;
  base_low = 0;
  base_mid = 0;
  access = 0;
  granularity = 0;
  base_high = 0;
}

abbrev pub gdt_entries : ℕ
gdt_entries = 7

-- `sizeof(Tss)` of the packed structure: 4 + 3 * 8 + 8 + 7 * 8 + 8 + 2 + 2.
abbrev pub sizeof_tss : ℕ
sizeof_tss = 104

abbrev pub access_present : ℕ
access_present = 0x80

abbrev pub access_ring3 : ℕ
access_ring3 = 0x60

abbrev pub access_type_code : ℕ
access_type_code = 0x1a

abbrev pub access_type_data : ℕ
access_type_data = 0x12

abbrev pub access_type_tss : ℕ
access_type_tss = 0x09

abbrev pub gran_64bit : ℕ
gran_64bit = 0x20

abbrev pub gran_4k : ℕ
gran_4k = 0x80

-- The six fields that `gdt_set_entry` computes.
pub gdt_entry : ℕ → ℕ → ℕ → ℕ → GdtEntry
gdt_entry base limit access granularity = record {
  limit_low = limit % 2 ^ 16;
  base_low = base % 2 ^ 16;
  base_mid = base / 2 ^ 16 % 2 ^ 8;
  access = access;
  granularity = bit_or (bit_and granularity 0xf0) (limit / 2 ^ 16 % 2 ^ 4);
  base_high = base / 2 ^ 24 % 2 ^ 8;
}

pub gdt_set_entry : ℕ → ℕ → ℕ → ℕ → ℕ → List GdtEntry → List GdtEntry
gdt_set_entry idx base limit access granularity gdt =
    set gdt idx (gdt_entry base limit access granularity)

-- The 16-byte descriptor of the TSS lies over slots 5 and 6. Its first eight bytes have the layout
-- of an entry; its last eight hold `base_upper` (4 bytes) and `reserved` (4 bytes, 0).
pub gdt_set_tss : ℕ → ℕ → List GdtEntry → List GdtEntry
gdt_set_tss tss_addr tss_limit gdt =
    let base_upper = tss_addr / 2 ^ 32 % 2 ^ 32 in
    let low : GdtEntry = record {
      limit_low = tss_limit % 2 ^ 16;
      base_low = tss_addr % 2 ^ 16;
      base_mid = tss_addr / 2 ^ 16 % 2 ^ 8;
      access = bit_or access_present access_type_tss;
      granularity = tss_limit / 2 ^ 16 % 2 ^ 4;
      base_high = tss_addr / 2 ^ 24 % 2 ^ 8;
    } in
    let high : GdtEntry = record {
      limit_low = base_upper % 2 ^ 16;
      base_low = base_upper / 2 ^ 16;
      base_mid = 0;
      access = 0;
      granularity = 0;
      base_high = 0;
    } in
    set (set gdt 5 low) 6 high

-- The writes of `gdt_init` to the table. The argument is the address of `kernel_tss`.
pub gdt_fill : ℕ → List GdtEntry → List GdtEntry
unfolding gdt_set_entry gdt_set_tss gdt_entry
gdt_fill kernel_tss gdt =
    let e1 = gdt_set_entry 0 0 0 0 0 gdt in
    let e2 =
      gdt_set_entry 1 0 0xfffff (bit_or access_present access_type_code) (bit_or gran_64bit gran_4k)
        e1 in
    let e3 = gdt_set_entry 2 0 0xfffff (bit_or access_present access_type_data) gran_4k e2 in
    let e4 =
      gdt_set_entry 3 0 0xfffff (bit_or (bit_or access_present access_ring3) access_type_code)
        (bit_or gran_64bit gran_4k) e3 in
    let e5 =
      gdt_set_entry 4 0 0xfffff (bit_or (bit_or access_present access_ring3) access_type_data)
        gran_4k e4 in
    gdt_set_tss kernel_tss (sizeof_tss - 1) e5

-- The arguments are the addresses of `interrupt_stack`, `kernel_tss` and `gdt`.
pub gdt_init : ℕ → ℕ → ℕ → Tables → Tables
gdt_init interrupt_stack kernel_tss gdt t = record {
  entries = gdt_fill kernel_tss t.entries;
  tss_rsp0 = add64 interrupt_stack 8192;
  tss_iopb_offset = sizeof_tss;
  gdtr_limit = gdt_entries * 8 - 1;
  gdtr_base = gdt;
  task_register = 0x28;
}

pub gdt_get_tss_rsp0 : Tables → ℕ
gdt_get_tss_rsp0 t = t.tss_rsp0

pub gdt_set_tss_rsp0 : ℕ → Tables → Tables
gdt_set_tss_rsp0 rsp0 t = record t { tss_rsp0 = rsp0 }
