-- ===== src/Gdt.antt =====
-- kernel/src/hal/cpu/gdt.cpp: the segment descriptors, and the pointer to them. The instructions that
-- load them are outside the modelled language.
pub mod Laws
use system.Base.{ℕ, ◌+◌, ◌-◌, ◌*◌, ◌^◌}

-- SegmentDescriptor, a packed structure of 64 bits.
pub record SegmentDescriptor : Type 0 where
  pub limit : ℕ
  pub base0 : ℕ
  pub base1 : ℕ
  pub access : ℕ
  pub granularity : ℕ
  pub base2 : ℕ

pub record GdtStructure : Type 0 where
  pub null : SegmentDescriptor
  pub kernel_code : SegmentDescriptor
  pub kernel_data : SegmentDescriptor
  pub user_code : SegmentDescriptor
  pub user_data : SegmentDescriptor

pub record Gdtr : Type 0 where
  pub size : ℕ
  pub addr : ℕ

-- A descriptor of the table: the fields that the initializers do not leave 0.
abbrev pub descriptor : (limit access granularity : ℕ) → SegmentDescriptor
descriptor limit access granularity = record {
  limit = limit;
  base0 = 0;
  base1 = 0;
  access = access;
  granularity = granularity;
  base2 = 0;
}

unfoldable pub gdt : GdtStructure
gdt = record {
  null = descriptor 0 0 0;
  kernel_code = descriptor 0xFF 0x9A 0xA0;
  kernel_data = descriptor 0xFF 0x92 0xC0;
  user_code = descriptor 0xFF 0xFA 0xA0;
  user_data = descriptor 0xFF 0xF2 0xC0;
}

-- The 64 bits of a descriptor in memory.
unfoldable pub descriptor_bits : SegmentDescriptor → ℕ
descriptor_bits d =
    d.limit
    + d.base0 * 2 ^ 16
    + d.base1 * 2 ^ 32
    + d.access * 2 ^ 40
    + d.granularity * 2 ^ 48
    + d.base2 * 2 ^ 56

-- `sizeof(GDT) - 1` for five descriptors of eight bytes.
unfoldable pub gdt_ptr : (address : ℕ) → Gdtr
gdt_ptr address = record { size = 5 * 8 - 1; addr = address }
