-- ===== src/Vmm.antt =====
-- kernel/src/hal/vmm.cpp: the page tables. A table is the 4096 bytes from its (virtual) address on,
-- an entry is a 64-bit word, and a bit-field of an entry is written by reading the word, replacing
-- the field and writing the word back. A null pointer is 0.
pub mod Entry
pub mod Tree
pub mod Written
pub mod Rewrite
pub mod NewTable
pub mod Descend
pub mod Translate
pub mod Walk
pub mod Map
pub mod Fresh
pub mod Region
pub mod Range
pub mod Boot
use system.Base.{
  ℕ, zero, suc, ◌+◌, ◌-◌, ◌*◌, ◌/◌, ◌%◌, ◌^◌, Bool, true, false, not, Option, none, some, List, [],
  ◌∷◌, ◌==◌, if◌then◌else◌, add64, sub64,
}
use system.Memory.{Memory, load64, store64}
use system.Machine.{Machine, hhdm_virt_to_phys, hhdm_phys_to_virt}
use system.Pmm.{MemmapEntry, allocate_page}

-- The bit-field of `width` bits from bit `low` on.
abbrev pub field : (low width entry : ℕ) → ℕ
field low width entry = entry / 2 ^ low % 2 ^ width

abbrev pub set_field : (low width value entry : ℕ) → ℕ
set_field low width value entry =
    entry - field low width entry * 2 ^ low + value % 2 ^ width * 2 ^ low

-- The fields of struct PageTableEntry that the code uses.
abbrev pub present : ℕ → ℕ
present e = field 0 1 e

abbrev pub page_size : ℕ → ℕ
page_size e = field 7 1 e

abbrev pub physical_addr : ℕ → ℕ
physical_addr e = field 12 40 e

abbrev pub set_present : ℕ → ℕ → ℕ
set_present v e = set_field 0 1 v e

abbrev pub set_rw : ℕ → ℕ → ℕ
set_rw v e = set_field 1 1 v e

abbrev pub set_page_size : ℕ → ℕ → ℕ
set_page_size v e = set_field 7 1 v e

abbrev pub set_physical_addr : ℕ → ℕ → ℕ
set_physical_addr v e = set_field 12 40 v e

-- `&table->entries[entry]`
abbrev pub slot : (table entry : ℕ) → ℕ
slot table entry = table + 8 * entry

pub update64 : Memory → ℕ → (ℕ → ℕ) → Memory
update64 m p f = store64 m p (f (load64 m p))

-- The three writes that make an entry point to the page at `phys`.
unfoldable pub link : Memory → (slot phys : ℕ) → Memory
unfolding update64
link m p phys =
    let addressed = update64 m p (set_physical_addr (phys / 2 ^ 12)) in
    let usable = update64 addressed p (set_present 1) in update64 usable p (set_rw 1)

unfoldable pub is_aligned : (addr boundary : ℕ) → Bool
is_aligned addr boundary = if addr % boundary == 0 then true else false

unfoldable pub get_next_level : (hhdm : ℕ) → Machine → (current_level entry : ℕ) → Machine × ℕ
unfolding link is_aligned
get_next_level hhdm s current_level entry =
    if current_level == 0
    then (s, 0)
    else (let e = load64 s.mem (slot current_level entry) in
        if present e == 0
        then (let (s', new_entry) = allocate_page hhdm s in
            if new_entry == 0
            then (s', 0)
            else (if not (is_aligned new_entry 0x1000) then (s', 0) else (
              record s' { mem = link s'.mem (slot current_level entry) new_entry },
              hhdm_phys_to_virt hhdm new_entry,
            )))
        else (s, hhdm_phys_to_virt hhdm (physical_addr e * 2 ^ 12)))

-- `(virt & (0x1FF << low)) >> low`
abbrev pub index : (low virt : ℕ) → ℕ
index low virt = virt / 2 ^ low % 2 ^ 9

-- The lowest table and the entry in it: `pml2` itself for a large page, which is marked at once.
pub lowest_level :
    (hhdm : ℕ) → Machine → (pml2 pml2_entry pml1_entry : ℕ) → (large_page : Bool) → Machine × ℕ × ℕ
unfolding update64
lowest_level hhdm s pml2 pml2_entry pml1_entry large_page =
    if large_page
    then (
      record s { mem = update64 s.mem (slot pml2 pml2_entry) (set_page_size 1) },
      pml2,
      pml2_entry,
    )
    else (let (s', pml1) = get_next_level hhdm s pml2 pml2_entry in (s', pml1, pml1_entry))

pub map_levels : (hhdm : ℕ) → Machine → (pml4 virt phys : ℕ) → (large_page : Bool) → Machine × Bool
unfolding lowest_level
map_levels hhdm s pml4 virt phys large_page =
    let (s3, pml3) = get_next_level hhdm s pml4 (index 39 virt) in
    let (s2, pml2) = get_next_level hhdm s3 pml3 (index 30 virt) in
    let (s1, lowest, lowest_entry) =
      lowest_level hhdm s2 pml2 (index 21 virt) (index 12 virt) large_page in
    if lowest == 0
    then (s1, false)
    else (record s1 { mem = link s1.mem (slot lowest lowest_entry) phys }, true)

-- A null page map stands for the kernel's own.
unfoldable pub memory_map :
    (hhdm : ℕ) → Machine → (target_pagemap virt phys : ℕ) → (large_page : Bool) → Machine × Bool
unfolding map_levels
memory_map hhdm s target_pagemap virt phys large_page =
    if target_pagemap == 0
    then (if s.kernel_pml4 == 0
        then (s, false)
        else map_levels hhdm s s.kernel_pml4 virt phys large_page)
    else map_levels hhdm s target_pagemap virt phys large_page

-- `for (j = 0; j < length; j += 4096)`, from `j` on, with the rounds left. The results of the calls
-- are dropped, as in the source.
unfoldable pub map_range : ℕ → (hhdm : ℕ) → Machine → (pml4 virt phys j : ℕ) → Machine
unfolding memory_map
map_range zero hhdm s pml4 virt phys j = s
map_range (suc rounds) hhdm s pml4 virt phys j =
    map_range rounds hhdm (memory_map hhdm s pml4 (add64 virt j) (add64 phys j) false).0 pml4 virt
      phys (j + 4096)

-- How often that loop runs.
abbrev pub page_count : ℕ → ℕ
page_count length = (length + 4095) / 4096

-- LIMINE_MEMMAP_KERNEL_AND_MODULES
abbrev pub kernel_and_modules : ℕ
kernel_and_modules = 6

-- Where an entry of the memory map is mapped to: `base + kaddr.virtual_base - kaddr.physical_base`
-- for the kernel and its modules, and the direct map for all else.
unfoldable pub entry_virt : (hhdm virtual_base physical_base : ℕ) → MemmapEntry → ℕ
entry_virt hhdm virtual_base physical_base e =
    if e.kind == kernel_and_modules
    then sub64 (add64 e.base virtual_base) physical_base
    else add64 e.base hhdm

pub map_entries : (hhdm virtual_base physical_base pml4 : ℕ) → Machine → List MemmapEntry → Machine
map_entries hhdm virtual_base physical_base pml4 s [] = s
map_entries hhdm virtual_base physical_base pml4 s (e ∷ es) =
    let virt = entry_virt hhdm virtual_base physical_base e in
    let s' = map_range (page_count e.length) hhdm s pml4 virt e.base 0 in
    map_entries hhdm virtual_base physical_base pml4 s' es

-- `none` is the panic when no page can be had.
unfoldable pub init_paging :
    (hhdm virtual_base physical_base : ℕ) → Machine → List MemmapEntry → Option Machine
unfolding map_entries
init_paging hhdm virtual_base physical_base s es =
    let (s', allocation) = allocate_page hhdm s in
    if allocation == 0
    then none
    else (let pml4 = hhdm_phys_to_virt hhdm allocation in
        some
          (record (map_entries hhdm virtual_base physical_base pml4 s' es) { kernel_pml4 = pml4 }))

-- The physical address that LoadKernelCR3 gives to the processor.
unfoldable pub load_kernel_cr3 : (hhdm : ℕ) → Machine → ℕ
load_kernel_cr3 hhdm s = hhdm_virt_to_phys hhdm s.kernel_pml4
