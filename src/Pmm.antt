-- ===== src/Pmm.antt =====
-- kernel/src/mm/pmm.cpp: the physical page allocator. `head.next` is `page_head` of the machine,
-- and a null pointer is 0.
pub mod Invariant
pub mod Init
pub mod Pages
pub mod Stack
use system.Base.{ℕ, true, ◌+◌, ◌≡◌, List, [], ◌∷◌, ltb, leb, ◌==◌, if◌then◌else◌, add64, sub64}
use system.Memory.{Memory, load64, store64}
use system.Blocks.{write_node}
use system.Mem.{memset}
use system.Machine.{Machine, hhdm_virt_to_phys, hhdm_phys_to_virt}

-- struct limine_memmap_entry
pub record MemmapEntry : Type 0 where
  pub base : ℕ
  pub length : ℕ
  pub kind : ℕ

-- LIMINE_MEMMAP_USABLE
abbrev pub usable : ℕ
usable = 0

unfoldable pub insert_node : Machine → (block size : ℕ) → Machine
insert_node s block size = record s {
  mem = write_node s.mem block size s.page_head;
  page_head = block;
}

-- What follows the unlinking of `ret`: the rest of a block larger than a page goes back.
pub split_page : Machine → (ret : ℕ) → Machine
unfolding insert_node
split_page s ret =
    let size = load64 s.mem ret in
    if ltb 4096 size
    then (let s' = insert_node s (add64 ret 4096) (sub64 size 4096) in
        record s' { mem = store64 s'.mem ret 4096 })
    else s

unfoldable pub remove_page : Machine → Machine × ℕ
unfolding split_page
remove_page s =
    if s.page_head == 0
    then (s, 0)
    else (let ret = s.page_head in
        (split_page (record s { page_head = load64 s.mem (ret + 8) }) ret, ret))

-- Returns a physical address. Without a free page, memset is given the null pointer and faults.
unfoldable pub allocate_page : (hhdm : ℕ) → Machine → Machine × ℕ
unfolding remove_page
allocate_page hhdm s =
    let (s', page) = remove_page s in
    (
      record s' {
        mem = memset s'.mem page 0 0x1000;
        faulted = if page == 0 then true else s'.faulted;
      },
      hhdm_virt_to_phys hhdm page,
    )

unfoldable pub free_page : (hhdm : ℕ) → Machine → (addr : ℕ) → Machine
unfolding insert_node
free_page hhdm s addr = insert_node s (hhdm_phys_to_virt hhdm addr) 0x1000

-- One round of the loop over the memory map.
pub add_entry : (hhdm : ℕ) → Machine → MemmapEntry → Machine
unfolding insert_node
add_entry hhdm s e =
    let counted = record s { total_memory = add64 s.total_memory e.length } in
    if e.kind == usable
    then (let s' = record counted {
      total_usable_memory = add64 counted.total_usable_memory e.length;
    } in
        if leb 4096 e.length then insert_node s' (hhdm_phys_to_virt hhdm e.base) e.length else s')
    else counted

-- The two log lines at the end are left out.
unfoldable pub initialize_pmm : (hhdm : ℕ) → Machine → List MemmapEntry → Machine
unfolding add_entry
initialize_pmm hhdm s [] = s
initialize_pmm hhdm s (e ∷ entries) = initialize_pmm hhdm (add_entry hhdm s e) entries
