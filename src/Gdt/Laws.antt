-- ===== src/Gdt/Laws.antt =====
-- What the processor reads from the segment descriptors.
use system.Base.{ℕ, ◌+◌, ◌*◌, ◌/◌, ◌%◌, ◌^◌, ◌≡◌, refl}
use system.Gdt.{SegmentDescriptor, gdt, descriptor_bits, gdt_ptr}

-- The bits of a descriptor by the processor's manual: present, the privilege level, code or data, and
-- 64-bit code.
record Segment (d : SegmentDescriptor) (level code long : ℕ) : Type 0 where
  present : descriptor_bits d / 2 ^ 47 % 2 ≡ 1
  privilege : descriptor_bits d / 2 ^ 45 % 4 ≡ level
  kind : descriptor_bits d / 2 ^ 43 % 2 ≡ code
  long_mode : descriptor_bits d / 2 ^ 53 % 2 ≡ long
  base : descriptor_bits d / 2 ^ 16 % 2 ^ 24 ≡ 0

-- The kernel's segments have privilege level 0 and the user's level 3, and both code segments are for 64
-- bits.
gdt-segments :
    Segment gdt.kernel_code 0 1 1
    × Segment gdt.kernel_data 0 0 0
    × Segment gdt.user_code 3 1 1
    × Segment gdt.user_data 3 0 0
unfolding gdt descriptor_bits
gdt-segments = (
  record { present = refl; privilege = refl; kind = refl; long_mode = refl; base = refl },
  record { present = refl; privilege = refl; kind = refl; long_mode = refl; base = refl },
  record { present = refl; privilege = refl; kind = refl; long_mode = refl; base = refl },
  record { present = refl; privilege = refl; kind = refl; long_mode = refl; base = refl },
)

-- The last byte of the fifth descriptor is the last one within the limit.
gdt_ptr-size : (address : ℕ) → (gdt_ptr address).size + 1 ≡ 5 * 8
unfolding gdt_ptr
gdt_ptr-size address = refl
