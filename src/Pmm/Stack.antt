-- ===== src/Pmm/Stack.antt =====
-- The promise of the page allocator: a stack of free pages, which forgets the blocks and the nodes.
use system.Base.{
  ℕ, zero, suc, ◌+◌, ◌-◌, ◌%◌, ◌/◌, ◌^◌, ◌≤◌, ◌<◌, ◌≡◌, length, refl, arith, List, [], ◌∷◌, ◌++◌,
  ltb-false, lt→ltb, ltb, true, false, if◌then◌else◌, ◌==◌, ap, sym, ◌∙◌,
}
use native.Mathlib.Decide.{dec_lt}
use system.Machine.{Machine}
use system.Blocks.{Blocks, Apart}
use system.Pmm.{allocate_page, free_page}
use system.Pmm.Invariant.{IsPages, IsHhdm, FreeList, split}
use system.Pmm.Pages.{allocate_page-Allocated, free_page-FreeList}

-- The `k` pages from the physical address `p` on.
unfoldable pub pages_from : (k p : ℕ) → List ℕ
pages_from zero p = []
pages_from (suc k) p = p ∷ pages_from k (p + 4096)

-- The physical addresses of the pages of the blocks, in order.
unfoldable pub pages : (hhdm : ℕ) → Blocks → List ℕ
unfolding pages_from
pages hhdm [] = []
pages hhdm ((a, n) ∷ bs) = pages_from (n / 4096) (a - hhdm) ++ pages hhdm bs

-- The allocator of the machine holds these free pages, first the one that is handed out next.
pub record FreePages (hhdm : ℕ) (s : Machine) (ps : List ℕ) : Type 0 where
  pub blocks : Blocks
  pub list : FreeList hhdm s blocks
  pub listed : pages hhdm blocks ≡ ps

pub pages-split :
    (hhdm a n : ℕ) (bs : Blocks)
    → IsPages hhdm a n
    → pages hhdm ((a, n) ∷ bs) ≡ (a - hhdm) ∷ pages hhdm (split a n bs)
unfolding pages
pages-split hhdm a n bs p = elim (dec_lt 4096 n) [
  | yes large ↦
      let more : n / 4096 ≡ suc ((n - 4096) / 4096) = omega arith in
      let next : a - hhdm + 4096 ≡ a + 4096 - hhdm = omega arith in
      rw (lt→ltb 4096 n large, more, next)
  | no small ↦ let one : n / 4096 ≡ suc 0 = omega arith in rw (ltb-false 4096 n (omega arith), one)
]

pub pages-nil : (hhdm : ℕ) → pages hhdm [] ≡ []
unfolding pages
pages-nil hhdm = refl

-- A fault of AllocatePage, in terms of the list's head.
allocate_page-faulted :
    (hhdm : ℕ) (s : Machine)
    → (allocate_page hhdm s).0.faulted ≡ (if s.page_head == 0 then true else s.faulted)
unfolding allocate_page
allocate_page-faulted hhdm s = ground arith

allocate_blocks :
    {hhdm : ℕ} {s : Machine} {p : ℕ} {ps : List ℕ} (bs : Blocks)
    → IsHhdm hhdm
    → FreeList hhdm s bs
    → pages hhdm bs ≡ p ∷ ps
    → ((allocate_page hhdm s).1 ≡ p)
      × FreePages hhdm (allocate_page hhdm s).0 ps
      × ((allocate_page hhdm s).0.faulted ≡ s.faulted)
allocate_blocks {hhdm} [] off l e = cc (pages-nil hhdm)
allocate_blocks {hhdm} {s} {p} {ps} ((a, n) ∷ bs) off l e =
    let r = allocate_page-Allocated bs a n off l in
    let e' = pages-split hhdm a n bs l.pages.0 in
    let first : a - hhdm ≡ p = cc in
    let others : pages hhdm (split a n bs) ≡ ps = cc in
    (
      omega (arith, r.page),
      record { blocks = split a n bs; list = r.rest; listed = others },
      ap (λ (x : Machine). x.faulted) r.kept,
    )

-- While pages are free, AllocatePage returns the next one and takes it off the free pages.
pub allocate_page-pop :
    {hhdm : ℕ} {s : Machine} {p : ℕ} {ps : List ℕ}
    → IsHhdm hhdm
    → FreePages hhdm s (p ∷ ps)
    → ((allocate_page hhdm s).1 ≡ p) × FreePages hhdm (allocate_page hhdm s).0 ps
allocate_page-pop off f = let r = allocate_blocks f.blocks off f.list f.listed in (r.0, r.1)

-- FreePage of a page other than page 0 that no free block holds pushes it onto the free pages.
pub free_page-push :
    {hhdm : ℕ} {s : Machine} {ps : List ℕ} (addr : ℕ)
    → IsHhdm hhdm
    → addr % 4096 ≡ 0
    → 0 < addr
    → addr + 4096 ≤ 2 ^ 52
    → (f : FreePages hhdm s ps) → Apart (addr + hhdm) 4096 f.blocks
    → FreePages hhdm (free_page hhdm s addr) (addr ∷ ps)
free_page-push {hhdm} {ps} addr off aligned pos low f u = record {
  blocks = (addr + hhdm, 4096) ∷ f.blocks;
  list = free_page-FreeList off f.blocks addr aligned pos low u f.list;
  listed = pushed;
}
  where
    here : addr + hhdm - hhdm ≡ addr
    here = omega arith

    pushed : pages hhdm ((addr + hhdm, 4096) ∷ f.blocks) ≡ addr ∷ ps
    pushed = rw (pages-split hhdm (addr + hhdm) 4096 f.blocks (omega arith), here, f.listed)

-- `k` calls of AllocatePage, and the addresses that they return.
unfoldable pub allocate_pages : ℕ → (hhdm : ℕ) → Machine → Machine × List ℕ
allocate_pages zero hhdm s = (s, [])
allocate_pages (suc k) hhdm s =
    let r = allocate_page hhdm s in let rs = allocate_pages k hhdm r.0 in (rs.0, r.1 ∷ rs.1)

-- While enough pages are free, a row of calls of AllocatePage returns the free pages in their
-- order, and leaves the others.
pub allocate_pages-take :
    {hhdm : ℕ} (ps qs : List ℕ) {s : Machine}
    → IsHhdm hhdm
    → FreePages hhdm s (ps ++ qs)
    → ((allocate_pages (length ps) hhdm s).1 ≡ ps)
      × FreePages hhdm (allocate_pages (length ps) hhdm s).0 qs
unfolding allocate_pages
allocate_pages-take [] qs off f = (refl, f)
allocate_pages-take (p ∷ ps) qs off f =
    let (e, g) = allocate_page-pop off f in let (es, h) = allocate_pages-take ps qs off g in (cc, h)

no_block :
    {hhdm : ℕ} {s : Machine} (bs : Blocks)
    → FreeList hhdm s bs
    → pages hhdm bs ≡ []
    → s.page_head ≡ 0
no_block [] l e = l.chain
no_block {hhdm} ((a, n) ∷ bs) l e = cc (pages-split hhdm a n bs l.pages.0)

-- After a fault the flag stays.
allocate_pages-stays :
    (k hhdm : ℕ) (s : Machine) → s.faulted ≡ true → (allocate_pages k hhdm s).0.faulted ≡ true
unfolding allocate_pages
allocate_pages-stays zero hhdm s e = e
allocate_pages-stays (suc k) hhdm s e =
    allocate_pages-stays k hhdm (allocate_page hhdm s).0
      (ground (arith, allocate_page-faulted hhdm s))

-- A row of `k` calls of AllocatePage faults, in a memset of the null pointer, exactly when fewer than `k`
-- pages are free; before that nothing has faulted.
pub allocate_pages-faulted :
    {hhdm : ℕ} (k : ℕ) (ps : List ℕ) {s : Machine}
    → IsHhdm hhdm
    → FreePages hhdm s ps
    → s.faulted ≡ false
    → (allocate_pages k hhdm s).0.faulted ≡ ltb (length ps) k
unfolding allocate_pages
allocate_pages-faulted zero ps off f e = e ∙ sym (ltb-false (length ps) 0 (omega arith))
allocate_pages-faulted {hhdm} (suc k) [] {s} off f e =
    allocate_pages-stays k hhdm (allocate_page hhdm s).0
      (allocate_page-faulted hhdm s ∙ rw (no_block f.blocks f.list f.listed))
    ∙ sym (lt→ltb 0 (suc k) (omega arith))
allocate_pages-faulted {hhdm} (suc k) (p ∷ ps) off f e =
    let r = allocate_blocks f.blocks off f.list f.listed in
    allocate_pages-faulted k ps off r.1 (r.2 ∙ e) ∙ ground arith
