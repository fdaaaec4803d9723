-- ===== src/Vmm/Boot.antt =====
-- InitPaging of vmm.cpp: the page tables that the kernel switches to.
use system.Base.{
  ℕ, suc, ◌+◌, ◌*◌, ◌/◌, ◌%◌, ◌^◌, ◌≤◌, ◌<◌, ◌≡◌, ◌≢◌, refl, ◌∙◌, arith, some, List, [], ◌∷◌, ◌++◌,
  length, ==-false, add64,
}
use system.Machine.{Machine, hhdm_phys_to_virt}
use system.Blocks.{Blocks}
use system.Pmm.{MemmapEntry, allocate_page}
use system.Pmm.Invariant.{IsHhdm, FreeList}
use system.Pmm.Pages.{allocate_page-Allocated}
use system.Pmm.Stack.{pages}
use system.Vmm.{map_range, page_count, entry_virt, map_entries, init_paging}
use system.Vmm.Descend.{Paging}
use system.Vmm.Translate.{translate}
use system.Vmm.Walk.{page_number}
use system.Vmm.Fresh.{Allocated-Paging}
use system.Vmm.Region.{Paging-weaken}
use system.Vmm.Range.{table_pages, map_range-Paging, map_range-others, map_range-maps}

-- The free pages that are enough for the tables of all entries of a memory map.
unfoldable pub tables_of : List MemmapEntry → ℕ
tables_of [] = 0
tables_of (e ∷ es) = table_pages (page_count e.length) + tables_of es

module _ (hhdm virtual_base physical_base : ℕ) where
  -- The address that the i-th page of an entry is mapped to.
  abbrev pub page_virt : MemmapEntry → ℕ → ℕ
  page_virt e i = add64 (entry_virt hhdm virtual_base physical_base e) (0 + 4096 * i)

  -- No page of the entries is mapped to the virtual page of `v`.
  abbrev pub Away : ℕ → List MemmapEntry → Type 0
  Away v [] = Unit
  Away v (e ∷ es) =
      ((i : ℕ) → i < page_count e.length → page_number v ≢ page_number (page_virt e i)) × Away v es

module _ {hhdm : ℕ} (virtual_base physical_base : ℕ) (off : IsHhdm hhdm) where
  abbrev run : ℕ → Machine → List MemmapEntry → Machine
  run root s es = map_entries hhdm virtual_base physical_base root s es

  abbrev map_one : ℕ → Machine → MemmapEntry → Machine
  map_one root s e =
      map_range (page_count e.length) hhdm s root (entry_virt hhdm virtual_base physical_base e)
        e.base 0

  one-Paging :
      {s : Machine} {root : ℕ} (e : MemmapEntry) (es : List MemmapEntry) (k : ℕ)
      → Paging hhdm s root (tables_of (e ∷ es) + k)
      → Paging hhdm (map_one root s e) root (tables_of es + k)
  unfolding tables_of
  one-Paging e es k g =
      map_range-Paging (page_count e.length) (entry_virt hhdm virtual_base physical_base e) e.base 0
        (tables_of es + k) off
        (Paging-weaken (tables_of (e ∷ es) + k)
          (table_pages (page_count e.length) + (tables_of es + k)) (omega arith) g)

  map_entries-Paging :
      (es : List MemmapEntry) {s : Machine} {root : ℕ} (k : ℕ)
      → Paging hhdm s root (tables_of es + k)
      → Paging hhdm (run root s es) root k
  unfolding map_entries tables_of
  map_entries-Paging [] k g = Paging-weaken (3 * 0 + k) k (omega arith) g
  map_entries-Paging (e ∷ es) k g = map_entries-Paging es k (one-Paging e es k g)

  map_entries-others :
      (es : List MemmapEntry) {s : Machine} {root : ℕ} (k v : ℕ)
      → Paging hhdm s root (tables_of es + k)
      → Away hhdm virtual_base physical_base v es
      → translate hhdm (run root s es).mem root v ≡ translate hhdm s.mem root v
  unfolding map_entries tables_of
  map_entries-others [] k v g away = refl
  map_entries-others (e ∷ es) k v g away =
      map_entries-others es k v (one-Paging e es k g) away.1
      ∙ map_range-others (page_count e.length) (entry_virt hhdm virtual_base physical_base e) e.base
          0 (tables_of es + k) v off
          (Paging-weaken (tables_of (e ∷ es) + k)
            (table_pages (page_count e.length) + (tables_of es + k)) (omega arith) g)
          away.0

  map_entries-maps :
      (before after : List MemmapEntry) (e : MemmapEntry) {s : Machine} {root : ℕ} (i k v : ℕ)
      → Paging hhdm s root (tables_of (before ++ e ∷ after) + k)
      → page_count e.length ≤ 2 ^ 36
      → entry_virt hhdm virtual_base physical_base e + 4096 * page_count e.length ≤ 2 ^ 64
      → i < page_count e.length
      → page_number v ≡ page_number (page_virt hhdm virtual_base physical_base e i)
      → Away hhdm virtual_base physical_base v after
      → translate hhdm (run root s (before ++ e ∷ after)).mem root v
        ≡ some (add64 e.base (0 + 4096 * i) / 2 ^ 12 % 2 ^ 40 * 2 ^ 12 + v % 2 ^ 12)
  unfolding map_entries tables_of
  map_entries-maps [] after e i k v g few fits lt eq away =
      map_entries-others after k v (one-Paging e after k g) away
      ∙ map_range-maps (page_count e.length) i (entry_virt hhdm virtual_base physical_base e) e.base
          0 (tables_of after + k) v off
          (Paging-weaken (tables_of (e ∷ after) + k)
            (table_pages (page_count e.length) + (tables_of after + k)) (omega arith) g)
          few (omega arith) lt eq
  map_entries-maps (b ∷ before) after e i k v g few fits lt eq away =
      map_entries-maps before after e i k v (one-Paging b (before ++ e ∷ after) k g) few fits lt eq
        away

-- While a page is free, InitPaging maps the entries into the page that it allocates.
pub init_paging_run :
    {hhdm : ℕ} (virtual_base physical_base : ℕ) {s : Machine} (es : List MemmapEntry) (bs : Blocks)
    (a n : ℕ)
    → IsHhdm hhdm
    → FreeList hhdm s ((a, n) ∷ bs)
    → init_paging hhdm virtual_base physical_base s es
      ≡ some (record (map_entries hhdm virtual_base physical_base a (allocate_page hhdm s).0 es) {
        kernel_pml4 = a;
      })
unfolding init_paging
init_paging_run {hhdm} virtual_base physical_base {s} es bs a n off l =
    let got = allocate_page-Allocated bs a n off l in
    let block = l.pages.0 in
    let p = (allocate_page hhdm s).1 in
    let to : hhdm_phys_to_virt hhdm p ≡ a = omega (arith, got.page) in
    rw (==-false p 0 (omega (arith, got.page, block.above)), to)

-- What InitPaging sets up: it does not panic, the kernel's page map is a tree with at least `k` free
-- pages left, its root lies in the direct map, and the i-th page of entry `e` of the memory map can be reached at its virtual address.
pub record Booted (hhdm virtual_base physical_base : ℕ) (s : Machine) (es : List MemmapEntry)
    (e : MemmapEntry) (i k v : ℕ) : Type 0 where
  pub result : Machine
  pub returned : init_paging hhdm virtual_base physical_base s es ≡ some result
  pub direct : (hhdm ≤ result.kernel_pml4) × (result.kernel_pml4 < 2 ^ 64)
  pub paging : Paging hhdm result result.kernel_pml4 k
  pub mapped :
      translate hhdm result.mem result.kernel_pml4 v
      ≡ some (add64 e.base (0 + 4096 * i) / 2 ^ 12 % 2 ^ 40 * 2 ^ 12 + v % 2 ^ 12)

-- InitPaging over a memory map, with three free pages for each 512 pages of an entry, six more for each
-- entry, and one for the root, does not panic and leaves a tree of page tables; and an address in the i-th virtual page of an entry of at
-- most 2 ^ 36 pages, whose virtual range does not wrap around and which no later entry maps again, is
-- translated to the same offset in the entry's i-th page.
pub init_paging-Booted :
    {hhdm : ℕ} (virtual_base physical_base : ℕ) {s : Machine} (before after : List MemmapEntry)
    (e : MemmapEntry) (i k v a n : ℕ) (bs : Blocks)
    → IsHhdm hhdm
    → FreeList hhdm s ((a, n) ∷ bs)
    → suc (tables_of (before ++ e ∷ after) + k) ≤ length (pages hhdm ((a, n) ∷ bs))
    → page_count e.length ≤ 2 ^ 36
    → entry_virt hhdm virtual_base physical_base e + 4096 * page_count e.length ≤ 2 ^ 64
    → i < page_count e.length
    → page_number v ≡ page_number (page_virt hhdm virtual_base physical_base e i)
    → Away hhdm virtual_base physical_base v after
    → Booted hhdm virtual_base physical_base s (before ++ e ∷ after) e i k v
init_paging-Booted {hhdm} virtual_base physical_base {s} before after e i k v a n bs off l enough
      few fits lt eq away =
    let es = before ++ e ∷ after in
    let got = allocate_page-Allocated bs a n off l in
    let g = Allocated-Paging (tables_of es + k) l got enough in
    let done = map_entries-Paging virtual_base physical_base off es k g in
    record {
      result = record (map_entries hhdm virtual_base physical_base a (allocate_page hhdm s).0 es) {
        kernel_pml4 = a;
      };
      returned = init_paging_run virtual_base physical_base es bs a n off l;
      direct = (omega (arith, l.pages.0.above), omega (arith, l.pages.0));
      paging = record {
        blocks = done.blocks;
        list = record { chain = done.list.chain; pages = done.list.pages; apart = done.list.apart };
        tables = done.tables;
        enough = done.enough;
      };
      mapped =
          map_entries-maps virtual_base physical_base off before after e i k v g few fits lt eq
            away;
    }
