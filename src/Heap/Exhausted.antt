-- ===== src/Heap/Exhausted.antt =====
-- Allocate of heap.cpp when no free block has room: the heap grows by ten pages.
use mathlib.Core.List.{append_assoc}
use system.Base.{
  ℕ, suc, ◌+◌, ◌^◌, ◌≤◌, ◌<◌, ◌≡◌, ◌∙◌, arith, Option, none, some, [], ◌∷◌, ◌++◌, length,
}
use system.Machine.{Machine}
use system.Blocks.{Blocks, Apart}
use system.Pmm.Invariant.{IsHhdm, FreeList}
use system.Heap.{next_of, find_from, expand_heap, allocate}
use system.Heap.Lists.{HeapList, AllBlocks-at}
use system.Heap.Carve.{Splits}
use system.Heap.FirstFit.{AllSmall, next_at, fits-false, find_from-skip, allocate-first_fit}
use system.Heap.Serve.{Served, Chain-next}
use system.Heap.Grow.{expand_heap-Grown}

find_from-grow :
    (fuel hhdm : ℕ) (s : Machine) (size : ℕ) (current : Option ℕ)
    → next_of s current ≡ 0
    → (expand_heap hhdm s 10).1 ≡ 10
    → find_from (suc fuel) hhdm s size current
      ≡ find_from fuel hhdm (expand_heap hhdm s 10).0 size none
unfolding find_from
find_from-grow fuel hhdm s size current end grown = rw (end, grown)

end_at :
    {s : Machine} (d : Blocks) (c k : ℕ) → HeapList s (d ++ (c, k) ∷ []) → next_of s (some c) ≡ 0
unfolding next_of
end_at {s} d c k l = Chain-next d [] s.mem s.heap_head c k l.chain

-- From a block on, all blocks behind it being too small, the search ends in a growth of the heap.
search_on :
    {s : Machine} (fuel hhdm : ℕ) (d pre : Blocks) (c k size : ℕ)
    → 16 + size < 2 ^ 64
    → AllSmall size pre
    → HeapList s (d ++ (c, k) ∷ pre)
    → (expand_heap hhdm s 10).1 ≡ 10
    → find_from (suc (length pre + fuel)) hhdm s size (some c)
      ≡ find_from fuel hhdm (expand_heap hhdm s 10).0 size none
search_on {s} fuel hhdm d [] c k size size_fits small l grown =
    let same : suc (0 + fuel) ≡ suc fuel = omega arith in
    rw same (find_from-grow fuel hhdm s size (some c) (end_at d c k l) grown)
search_on {s} fuel hhdm d ((b, m) ∷ pre) c k size size_fits small l grown =
    let at_c = next_at d pre c k b m l in
    let d' = d ++ (c, k) ∷ [] in
    let moved : HeapList s (d' ++ ((b, m) ∷ pre)) =
      rw (append_assoc d ((c, k) ∷ []) ((b, m) ∷ pre)) l in
    let here = AllBlocks-at d' pre b m moved.blocks in
    let same : suc (suc (length pre) + fuel) ≡ suc (suc (length pre + fuel)) = omega arith in
    rw same (
      find_from-skip (suc (length pre + fuel)) hhdm s size (some c) b at_c.0 (omega arith)
        (fits-false s b m size at_c.1 small.0 size_fits)
      ∙ search_on fuel hhdm d' pre b m size size_fits small.1 moved grown)

search_all :
    {s : Machine} (fuel hhdm : ℕ) (hs : Blocks) (size : ℕ)
    → 16 + size < 2 ^ 64
    → AllSmall size hs
    → HeapList s hs
    → (expand_heap hhdm s 10).1 ≡ 10
    → find_from (suc (length hs + fuel)) hhdm s size none
      ≡ find_from fuel hhdm (expand_heap hhdm s 10).0 size none
unfolding next_of
search_all {s} fuel hhdm [] size size_fits small l grown =
    let same : suc (0 + fuel) ≡ suc fuel = omega arith in
    rw same (find_from-grow fuel hhdm s size none l.chain grown)
search_all {s} fuel hhdm ((b, m) ∷ hs) size size_fits small l grown =
    let here = l.blocks.0 in
    let same : suc (suc (length hs) + fuel) ≡ suc (suc (length hs + fuel)) = omega arith in
    rw same (
      find_from-skip (suc (length hs + fuel)) hhdm s size none b l.chain.0 (omega arith)
        (fits-false s b m size l.chain.1 small.0 size_fits)
      ∙ search_on fuel hhdm [] hs b m size size_fits small.1 l grown)

allocate_by :
    (f f' hhdm : ℕ) (s s' : Machine) (size : ℕ)
    → find_from f hhdm s size none ≡ find_from f' hhdm s' size none
    → allocate f hhdm s size ≡ allocate f' hhdm s' size
unfolding allocate
allocate_by f f' hhdm s s' size e = rw (allocate, e)

-- When every free block of the heap is too small, and the first free block of pages has at least ten
-- pages and meets no free block of the heap, Allocate of up to 40960 bytes with their header ends, once
-- the fuel exceeds the number of free blocks by two: it takes the object from the start of those ten
-- pages, and the rest of them joins the free blocks. No byte outside the free blocks of the heap and
-- that block of pages is written.
pub allocate-grows :
    {hhdm : ℕ} {s : Machine} (fuel : ℕ) (bs hs : Blocks) (a n size : ℕ)
    → IsHhdm hhdm
    → FreeList hhdm s ((a, n) ∷ bs)
    → 40960 ≤ n
    → HeapList s hs
    → Apart a n hs
    → AllSmall size hs
    → Splits 40960 size
    → (s' : Machine) × (allocate (suc (length hs + suc fuel)) hhdm s size ≡ some (s', a + 16))
      × Served s a 40960 size ((a, n) ∷ hs) hs s'
allocate-grows {hhdm} {s} fuel bs hs a n size off l enough heap u small splits =
    let g = (expand_heap hhdm s 10).0 in
    let grown = expand_heap-Grown bs hs a n 10 off (omega arith) (omega arith) l heap u in
    let again = search_all (suc fuel) hhdm hs size (omega arith) small heap grown.pages in
    let (s', e, r) =
      allocate-first_fit {s = g} (suc fuel) hhdm [] hs a 40960 size (omega arith) tt splits
        grown.list in
    (
      s',
      allocate_by (suc (length hs + suc fuel)) (suc fuel) hhdm s g size again ∙ e,
      record {
        list = r.list;
        header = r.header;
        untouched = λ x out. r.untouched x (omega arith, out.1) ∙ grown.changed x out.0;
      },
    )
