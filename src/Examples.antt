-- ===== src/Examples.antt =====
-- The theorems on memory at concrete inputs: a machine with sixteen free pages behind page 0, seen
-- through a direct map at 2 ^ 32.
mod Heap
mod Text
mod Devices
mod Concurrency
mod Boot
mod Reports
mod Structures
use system.Base.{
  true, false, ℕ, ◌+◌, ◌-◌, ◌*◌, ◌/◌, ◌%◌, ◌^◌, ◌≤◌, ◌<◌, ◌≡◌, ◌≢◌, suc, refl, arith, inl, inr,
  true, false, some, [], ◌∷◌, ◌++◌, length, ap,
}
use system.Memory.{Memory}
use system.Machine.{Machine}
use system.Blocks.{Blocks}
use system.Pmm.{MemmapEntry, initialize_pmm, allocate_page, free_page}
use system.Pmm.Invariant.{IsHhdm, FreeList, split}
use system.Pmm.Init.{usable_blocks, IsMemmap, initialize_pmm-FreeList}
use system.Pmm.Pages.{
  Allocated, allocate_page-Allocated, allocate_page-free_page, free_page-FreeList,
}
use system.Pmm.Stack.{
  pages, pages_from, pages-nil, FreePages, allocate_page-pop, free_page-push,
  allocate_pages-faulted, allocate_pages, allocate_pages-take,
}
use system.Vmm.{memory_map, map_range, get_next_level, entry_virt, page_count, kernel_and_modules}
use system.Vmm.Descend.{Paging, Descended, get_next_level-Descended}
use system.Vmm.Translate.{translate}
use system.Vmm.Map.{memory_map-Paging, memory_map-maps, memory_map-others}
use system.Vmm.Walk.{page_number}
use system.Vmm.Fresh.{Allocated-Paging}
use system.Vmm.Range.{map_range-maps}
use system.Start.{BootloaderData}
use system.Start.Mapped.{Runs, start_memory-direct_map}
use system.Vmm.Boot.{tables_of, Booted, init_paging-Booted}

abbrev hhdm : ℕ
hhdm = 2 ^ 32

hhdm-IsHhdm : IsHhdm hhdm
hhdm-IsHhdm = omega arith

abbrev cold : Machine
cold = record {
  mem = λ b. 0;
  page_head = 0;
  total_memory = 0;
  total_usable_memory = 0;
  heap_head = 0;
  kernel_pml4 = 0;
  faulted = false;
}

abbrev ram : MemmapEntry
ram = record { base = 4096; length = 16 * 4096; kind = 0 }

cold-FreeList : FreeList hhdm cold []
cold-FreeList = record { chain = refl; pages = tt; apart = tt }

ram-IsMemmap : IsMemmap hhdm [] (ram ∷ [])
ram-IsMemmap = (
  λ e. record {
    aligned = refl;
    whole = refl;
    above = omega arith;
    below = omega arith;
    apart = tt;
  },
  tt,
)

initialize_pmm-FreeList_example :
    FreeList hhdm (initialize_pmm hhdm cold (ram ∷ [])) (usable_blocks hhdm [] (ram ∷ []))
initialize_pmm-FreeList_example =
    initialize_pmm-FreeList (ram ∷ []) [] hhdm-IsHhdm ram-IsMemmap cold-FreeList

abbrev warm : Machine
warm = initialize_pmm hhdm cold (ram ∷ [])

abbrev block : ℕ
block = 4096 + hhdm

warm-FreeList : FreeList hhdm warm ((block, 16 * 4096) ∷ [])
unfolding usable_blocks
warm-FreeList = initialize_pmm-FreeList (ram ∷ []) [] hhdm-IsHhdm ram-IsMemmap cold-FreeList

allocate_page-Allocated_example : Allocated hhdm warm block (16 * 4096) [] (allocate_page hhdm warm)
allocate_page-Allocated_example =
    allocate_page-Allocated [] block (16 * 4096) hhdm-IsHhdm warm-FreeList

abbrev cold-FreePages : FreePages hhdm cold []
cold-FreePages = record { blocks = []; list = cold-FreeList; listed = pages-nil hhdm }

free_page-push_example : FreePages hhdm (free_page hhdm cold 8192) (8192 ∷ [])
free_page-push_example =
    free_page-push 8192 hhdm-IsHhdm refl (omega arith) (omega arith) cold-FreePages tt

abbrev one_block : Blocks
one_block = (8192 + hhdm, 4096) ∷ []

one-listed : pages hhdm one_block ≡ 8192 ∷ []
unfolding pages pages_from
one-listed = refl

abbrev one-FreePages : FreePages hhdm (free_page hhdm cold 8192) (8192 ∷ [])
one-FreePages = record {
  blocks = one_block;
  list = free_page-FreeList hhdm-IsHhdm [] 8192 refl (omega arith) (omega arith) tt cold-FreeList;
  listed = one-listed;
}

two_pages : FreePages hhdm (free_page hhdm (free_page hhdm cold 8192) 4096) (4096 ∷ 8192 ∷ [])
two_pages =
    free_page-push 4096 hhdm-IsHhdm refl (omega arith) (omega arith) one-FreePages (omega arith, tt)

allocate_pages-take_example :
    ((allocate_pages 2 hhdm (free_page hhdm (free_page hhdm cold 8192) 4096)).1 ≡ 4096 ∷ 8192 ∷ [])
    × FreePages hhdm (allocate_pages 2 hhdm (free_page hhdm (free_page hhdm cold 8192) 4096)).0 []
allocate_pages-take_example = allocate_pages-take (4096 ∷ 8192 ∷ []) [] hhdm-IsHhdm two_pages

abbrev paged : Machine
paged = (allocate_page hhdm warm).0

sixteen : length (pages hhdm ((block, 16 * 4096) ∷ [])) ≡ 16
unfolding pages pages_from
sixteen = refl

paged-Paging : Paging hhdm paged block 15
paged-Paging =
    Allocated-Paging 15 warm-FreeList
      (allocate_page-Allocated [] block (16 * 4096) hhdm-IsHhdm warm-FreeList)
      (omega (arith, sixteen))

abbrev virtual : ℕ
virtual = 2 ^ 39 + 4096

memory_map-Paging_example :
    ((memory_map hhdm paged block virtual 8192 false).1 ≡ true)
    × Paging hhdm (memory_map hhdm paged block virtual 8192 false).0 block 12
    × ((memory_map hhdm paged block virtual 8192 false).0.kernel_pml4 ≡ paged.kernel_pml4)
memory_map-Paging_example = memory_map-Paging block virtual 8192 hhdm-IsHhdm paged-Paging

memory_map-maps_example :
    translate hhdm (memory_map hhdm paged block virtual 8192 false).0.mem block (virtual + 5)
    ≡ some 8197
memory_map-maps_example =
    memory_map-maps block virtual 8192 hhdm-IsHhdm paged-Paging (virtual + 5) refl

memory_map-others_example :
    translate hhdm (memory_map hhdm paged block virtual 8192 false).0.mem block (virtual + 4096)
    ≡ translate hhdm paged.mem block (virtual + 4096)
memory_map-others_example =
    memory_map-others block virtual 8192 hhdm-IsHhdm paged-Paging (virtual + 4096) (omega arith)

abbrev kernel_code : MemmapEntry
kernel_code = record { base = 2 ^ 20; length = 2 * 4096; kind = 6 }

two_rounds : tables_of (kernel_code ∷ []) ≡ 6
unfolding tables_of
two_rounds = refl

kernel_virt : entry_virt hhdm (2 ^ 63) (2 ^ 20) kernel_code ≡ 2 ^ 63
unfolding entry_virt
kernel_virt = refl

init_paging-Booted_example :
    Booted hhdm (2 ^ 63) (2 ^ 20) warm (kernel_code ∷ []) kernel_code 1 9 (2 ^ 63 + 4096 + 7)
init_paging-Booted_example =
    init_paging-Booted (2 ^ 63) (2 ^ 20) [] [] kernel_code 1 9 (2 ^ 63 + 4096 + 7) block (16 * 4096)
      [] hhdm-IsHhdm warm-FreeList (omega (arith, sixteen, two_rounds)) (omega arith)
      (omega (arith, kernel_virt)) (omega arith) (omega (arith, kernel_virt)) tt

-- What the bootloader reports of that machine.
abbrev report : BootloaderData
report = record {
  memmap = ram ∷ [];
  virtual_base = 2 ^ 63;
  physical_base = 2 ^ 20;
  offset = hhdm;
  rsdp = 0;
}

report-tables : tables_of (ram ∷ []) ≡ 6
unfolding tables_of
report-tables = refl

report-pages : length (pages hhdm (usable_blocks hhdm [] (ram ∷ []))) ≡ 16
unfolding pages pages_from usable_blocks
report-pages = refl

start_memory-direct_map_example :
    (r : Runs report cold ram ((5000 - 4096) / 4096) (5000 + hhdm)) × (translate hhdm r.machine.mem
        (r.cr3 + hhdm)
        (5000 + hhdm)
      ≡ some 5000)
start_memory-direct_map_example =
    start_memory-direct_map report cold [] [] ram 5000 refl hhdm-IsHhdm refl ram-IsMemmap
      (omega (arith, report-tables, report-pages)) (omega arith) refl (omega arith) (omega arith)
      (omega arith) tt

allocate_pages-faulted_example :
    (allocate_pages 3 hhdm (free_page hhdm (free_page hhdm cold 8192) 4096)).0.faulted ≡ true
unfolding free_page
allocate_pages-faulted_example =
    allocate_pages-faulted 3 (4096 ∷ 8192 ∷ []) hhdm-IsHhdm two_pages refl
