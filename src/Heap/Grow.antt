-- ===== src/Heap/Grow.antt =====
-- ExpandHeap of heap.cpp against the free pages and the free blocks.
use system.Base.{
  ℕ, zero, suc, ◌+◌, ◌-◌, ◌*◌, ◌^◌, ◌≤◌, ◌<◌, ◌≡◌, refl, ap, ◌∙◌, arith, ◌∷◌, false, ◌==◌, ==-false,
  if◌then◌else◌, sub64,
}
use system.Machine.{Machine, hhdm_phys_to_virt}
use system.Blocks.{Blocks, Apart, ChangedOnly, Apart-part}
use system.Pmm.{allocate_page}
use system.Pmm.Invariant.{IsHhdm, FreeList, FreeList-frame, split}
use system.Pmm.Pages.{allocate_page-Allocated}
use system.Heap.{insert_node, more_pages, expand_heap}
use system.Heap.Lists.{HeapList, HeapList-frame, insert_node-HeapList, insert_node-changed}

-- A block that may be empty, in front of others.
abbrev pub block : (a n : ℕ) → Blocks → Blocks
block a n bs = if n == 0 then bs else (a, n) ∷ bs

-- What a row of page allocations from the block of `n` bytes at `a` leaves behind.
record Took (hhdm : ℕ) (s : Machine) (a n : ℕ) (bs : Blocks) (rounds i : ℕ) (r : Machine × ℕ)
    : Type 0 where
  count : r.1 ≡ i + rounds
  free : FreeList hhdm r.0 (block (a + 4096 * rounds) (n - 4096 * rounds) bs)
  changed : ChangedOnly a n s.mem r.0.mem
  heap : r.0.heap_head ≡ s.heap_head

split-block : (a n : ℕ) (bs : Blocks) → 4096 ≤ n → split a n bs ≡ block (a + 4096) (n - 4096) bs
split-block a n bs h = ground arith

more_pages-Took :
    {hhdm : ℕ} (rounds : ℕ) {s : Machine} (bs : Blocks) (a n i : ℕ)
    → IsHhdm hhdm
    → 4096 * rounds ≤ n
    → FreeList hhdm s (block a n bs)
    → Took hhdm s a n bs rounds i (more_pages rounds hhdm s i)
unfolding more_pages
more_pages-Took zero {s} bs a n i off fits l =
    let here : a + 4096 * 0 ≡ a = omega arith in
    let all : n - 4096 * 0 ≡ n = omega arith in
    record { count = omega arith; free = rw (here, all) l; changed = λ b out. refl; heap = refl }
more_pages-Took {hhdm} (suc rounds) {s} bs a n i off fits l =
    let some_page : (n == 0) ≡ false = ==-false n 0 (omega arith) in
    let l' : FreeList hhdm s ((a, n) ∷ bs) = rw some_page at l in
    let got = allocate_page-Allocated bs a n off l' in
    let page = l'.pages.0 in
    let r = allocate_page hhdm s in
    let rest =
      more_pages-Took rounds bs (a + 4096) (n - 4096) (i + 1) off (omega arith)
        (rw (split-block a n bs page.some_page) at got.rest) in
    let null = ==-false r.1 0 (omega (arith, got.page, page.above)) in
    let at_end : a + 4096 + 4096 * rounds ≡ a + 4096 * suc rounds = omega arith in
    let left : n - 4096 - 4096 * rounds ≡ n - 4096 * suc rounds = omega arith in
    rw null (record {
      count = omega (arith, rest.count);
      free = rw (at_end, left) at rest.free;
      changed = λ b out. rest.changed b (omega arith) ∙ got.changed b out;
      heap = rest.heap ∙ ap (λ (x : Machine). x.heap_head) got.kept;
    })

-- What ExpandHeap by `count` pages does: the pages become one free block of the heap, in front of the
-- others, the rest of the first free block of pages stays free, and no byte outside that block changes.
pub record Grown (hhdm : ℕ) (s : Machine) (a n : ℕ) (bs hs : Blocks) (count : ℕ) (r : Machine × ℕ)
    : Type 0 where
  pub pages : r.1 ≡ count
  pub list : HeapList r.0 ((a, 4096 * count) ∷ hs)
  pub free : FreeList hhdm r.0 (block (a + 4096 * count) (n - 4096 * count) bs)
  pub changed : ChangedOnly a n s.mem r.0.mem

rest-apart :
    (bs : Blocks) (a n k : ℕ)
    → 4096 ≤ 4096 * k
    → Apart a n bs
    → 4096 * k ≤ n
    → Apart a (4096 * k) (block (a + 4096 * k) (n - 4096 * k) bs)
rest-apart bs a n k some_page u fits =
    let part = Apart-part bs a n a (4096 * k) (omega arith) (omega arith) u in ground arith

expand_heap-run :
    (hhdm : ℕ) (s : Machine) (count a : ℕ)
    → 0 < count
    → count < 2 ^ 52
    → 0 < a
    → hhdm_phys_to_virt hhdm (allocate_page hhdm s).1 ≡ a
    → expand_heap hhdm s count ≡ (
      insert_node
          (more_pages (count - 1) hhdm (allocate_page hhdm s).0 0).0
          a
          (((more_pages (count - 1) hhdm (allocate_page hhdm s).0 0).1 + 1) * 4096),
      (more_pages (count - 1) hhdm (allocate_page hhdm s).0 0).1 + 1,
    )
unfolding expand_heap
expand_heap-run hhdm s count a some_count few some_start start =
    let more : sub64 count 1 ≡ count - 1 = omega arith in
    rw (start, ==-false a 0 (omega arith), more)

insert_node-page_head : (s : Machine) (a n : ℕ) → (insert_node s a n).page_head ≡ s.page_head
unfolding insert_node
insert_node-page_head s a n = refl

-- ExpandHeap by at least one page, when the first free block of the page allocator is at least that
-- large and meets no free block of the heap: it takes exactly that many pages, which join the heap's
-- free list as one block in front of the others, the rest of the pages' block stays with the page
-- allocator, and nothing outside the pages' block is written.
pub expand_heap-Grown :
    {hhdm : ℕ} {s : Machine} (bs hs : Blocks) (a n count : ℕ)
    → IsHhdm hhdm
    → 0 < count
    → 4096 * count ≤ n
    → FreeList hhdm s ((a, n) ∷ bs)
    → HeapList s hs
    → Apart a n hs
    → Grown hhdm s a n bs hs count (expand_heap hhdm s count)
expand_heap-Grown {hhdm} {s} bs hs a n count off some_count fits l heap u =
    let page = l.pages.0 in
    let got = allocate_page-Allocated bs a n off l in
    let r = allocate_page hhdm s in
    let took =
      more_pages-Took (count - 1) bs (a + 4096) (n - 4096) 0 off (omega arith)
        (rw (split-block a n bs page.some_page) at got.rest) in
    let t = (more_pages (count - 1) hhdm r.0 0).0 in
    let start : hhdm_phys_to_virt hhdm r.1 ≡ a = omega (arith, got.page) in
    let size : ((more_pages (count - 1) hhdm r.0 0).1 + 1) * 4096 ≡ 4096 * count =
      omega (arith, took.count) in
    let pages : (more_pages (count - 1) hhdm r.0 0).1 + 1 ≡ count = omega (arith, took.count) in
    let changed : ChangedOnly a n s.mem t.mem =
      λ b out. took.changed b (omega arith) ∙ got.changed b out in
    let kept : t.heap_head ≡ s.heap_head = took.heap ∙ ap (λ (x : Machine). x.heap_head) got.kept in
    let moved = HeapList-frame s t hs a n kept changed u heap in
    let at_end : a + 4096 + 4096 * (count - 1) ≡ a + 4096 * count = omega arith in
    let left : n - 4096 - 4096 * (count - 1) ≡ n - 4096 * count = omega arith in
    let free : FreeList hhdm t (block (a + 4096 * count) (n - 4096 * count) bs) =
      rw (at_end, left) at took.free in
    let rest = block (a + 4096 * count) (n - 4096 * count) bs in
    let away = rest-apart bs a n count (omega arith) l.apart.0 fits in
    rw (expand_heap-run hhdm s count a some_count (omega arith) (omega arith) start, size, pages)
      (record {
        pages = refl;
        list =
            insert_node-HeapList hs a (4096 * count) (omega arith)
              (Apart-part hs a n a (4096 * count) (omega arith) (omega arith) u) moved;
        free =
            FreeList-frame hhdm t (insert_node t a (4096 * count)) rest a 16
              (insert_node-page_head t a (4096 * count)) (insert_node-changed t a (4096 * count))
              (Apart-part rest a (4096 * count) a 16 (omega arith) (omega arith) away) free;
        changed = λ b out. insert_node-changed t a (4096 * count) b (omega arith) ∙ changed b out;
      })
