-- ===== src/Kernel/Arch/Gdt/Decode.antt =====
-- What the processor reads out of the descriptors that gdt.c writes.
use aion_os.Prelude.{
  ℕ, ◌+◌, ◌*◌, ◌/◌, ◌%◌, ◌^◌, ◌<◌, ◌≡◌, refl, List, [], ◌∷◌, arith, bit_and, bit_or, length,
}
use aion_os.Prelude.Bits.{or_fields, and_high}
use aion_os.Kernel.Arch.Gdt.{
  GdtEntry, Tables, gdt_entry, gdt_fill, gdt_init, gdt_get_tss_rsp0, no_entry, sizeof_tss,
}

-- The layout of a segment descriptor in the processor's manual.
abbrev pub base_of : GdtEntry → ℕ
base_of e = e.base_low + e.base_mid * 2 ^ 16 + e.base_high * 2 ^ 24

abbrev pub limit_of : GdtEntry → ℕ
limit_of e = e.limit_low + e.granularity % 16 * 2 ^ 16

abbrev pub flags_of : GdtEntry → ℕ
flags_of e = e.granularity / 16

-- Of a system descriptor over two slots.
abbrev pub base_of_tss : GdtEntry → GdtEntry → ℕ
base_of_tss low high = base_of low + (high.limit_low + high.base_low * 2 ^ 16) * 2 ^ 32

granularity_byte : (g l : ℕ) → g < 256 → l < 16 → bit_or (bit_and g 0xf0) l ≡ g / 16 * 16 + l
granularity_byte g l hg hl = rw (and_high 4 4 g (omega arith), or_fields 4 (g / 16) l hl)

-- The processor reads back the base, the low 20 bits of the limit, the access byte and the high
-- nibble of the flags that were given to `gdt_set_entry`.
pub gdt_entry-decode :
    (base limit access granularity : ℕ)
    → base < 2 ^ 32
    → granularity < 256
    → let e = gdt_entry base limit access granularity in
      (base_of e ≡ base)
      × (limit_of e ≡ limit % 2 ^ 20)
      × (e.access ≡ access)
      × (flags_of e ≡ granularity / 16)
unfolding gdt_entry
gdt_entry-decode base limit access g hb hg =
    let byte = granularity_byte g (limit / 2 ^ 16 % 2 ^ 4) hg (omega arith) in
    (omega arith, omega (arith, byte), refl, omega (arith, byte))

-- A segment over the whole address space, for the given ring: `type` is the access byte's type
-- field with the S bit, `flags` the high nibble of the granularity byte.
pub record IsSegment (ring type flags : ℕ) (e : GdtEntry) : Type 0 where
  pub base : base_of e ≡ 0
  pub limit : limit_of e ≡ 0xfffff
  pub access : e.access ≡ 0x80 + ring * 32 + type
  pub granularity : flags_of e ≡ flags

-- An available 64-bit TSS of `size` bytes at `address`.
pub record IsTss (address size : ℕ) (low high : GdtEntry) : Type 0 where
  pub base : base_of_tss low high ≡ address
  pub limit : limit_of low + 1 ≡ size
  pub access : low.access ≡ 0x89

-- The seven slots that the comments of `gdt_init` describe.
pub data IsTable (tss : ℕ) : List GdtEntry → Type 0 where
  table :
      {null kcode kdata ucode udata low high : GdtEntry}
      → null ≡ no_entry
      → IsSegment 0 0x1a 0xa kcode
      → IsSegment 0 0x12 0x8 kdata
      → IsSegment 3 0x1a 0xa ucode
      → IsSegment 3 0x12 0x8 udata
      → IsTss tss sizeof_tss low high
      → IsTable tss (null ∷ kcode ∷ kdata ∷ ucode ∷ udata ∷ low ∷ high ∷ [])

gdt_fill-IsTable :
    (tss : ℕ) (l : List GdtEntry) → tss < 2 ^ 64 → length l ≡ 7 → IsTable tss (gdt_fill tss l)
unfolding gdt_fill
gdt_fill-IsTable tss (a ∷ b ∷ c ∷ d ∷ e ∷ f ∷ g ∷ []) h n =
    table refl (record { base = refl; limit = refl; access = refl; granularity = refl })
      (record { base = refl; limit = refl; access = refl; granularity = refl })
      (record { base = refl; limit = refl; access = refl; granularity = refl })
      (record { base = refl; limit = refl; access = refl; granularity = refl })
      (record { base = omega arith; limit = refl; access = refl })
gdt_fill-IsTable tss _ h n = absurd (omega arith)

-- After `gdt_init` the seven slots hold the null descriptor, ring 0 code and data and ring 3 code
-- and data over the whole address space, and a TSS descriptor with the full 64-bit address and the
-- size of the task state segment; the GDTR covers exactly these slots, the task register selects
-- the TSS, and `rsp0` is the end of the interrupt stack.
pub gdt_init-IsTable :
    (stack tss gdt : ℕ) (t : Tables)
    → tss < 2 ^ 64
    → length t.entries ≡ 7
    → let u = gdt_init stack tss gdt t in
      IsTable tss u.entries
      × (u.gdtr_limit + 1 ≡ 8 * length t.entries)
      × (u.gdtr_base ≡ gdt)
      × (u.task_register ≡ 8 * 5)
      × (gdt_get_tss_rsp0 u ≡ (stack + 8192) % 2 ^ 64)
unfolding gdt_init gdt_get_tss_rsp0
gdt_init-IsTable stack tss gdt t h e =
    (gdt_fill-IsTable tss t.entries h e, omega arith, refl, refl, refl)
