-- ===== src/Pmm/Pages.antt =====
-- AllocatePage and FreePage of pmm.cpp against the free blocks.
use system.Base.{==-false, add64-eq, ℕ, ◌+◌, ◌%◌, ◌^◌, ◌≤◌, ◌<◌, ◌≡◌, refl, ◌∙◌, ap, arith, ◌∷◌}
use system.Memory.{Outside}
use system.Mem.{memset, memset-frame, memset_lem}
use system.Machine.{Machine}
use system.Blocks.{Blocks, Apart, ChangedOnly, Apart-part}
use system.Pmm.{remove_page, allocate_page, free_page}
use system.Pmm.Invariant.{
  IsHhdm, FreeList, split, remove_page-Removed, FreeList-frame, insert_node-FreeList,
}

-- What a page allocation does when the list starts with the block of `n` bytes at `a`.
pub record Allocated (hhdm : ℕ) (s : Machine) (a n : ℕ) (bs : Blocks) (r : Machine × ℕ)
    : Type 0 where
  pub page : r.1 + hhdm ≡ a
  pub zeroed : (b : ℕ) → a ≤ b → b < a + 4096 → r.0.mem b ≡ 0
  pub rest : FreeList hhdm r.0 (split a n bs)
  pub apart : Apart a 4096 (split a n bs)
  pub changed : ChangedOnly a n s.mem r.0.mem
  pub kept : r.0 ≡ record s { mem = r.0.mem; page_head = r.0.page_head }

split-apart : (bs : Blocks) (a n : ℕ) → 4096 ≤ n → Apart a n bs → Apart a 4096 (split a n bs)
split-apart bs a n h u =
    let rest = Apart-part bs a n a 4096 (omega arith) (omega arith) u in ground arith

-- AllocatePage on a list that is not empty returns the physical address of the first free page,
-- filled with zeros; the rest of its block stays free, the page meets no block that is still free,
-- memory outside the block is unchanged, and so are the other globals.
pub allocate_page-Allocated :
    {hhdm : ℕ} {s : Machine} (bs : Blocks) (a n : ℕ)
    → IsHhdm hhdm
    → FreeList hhdm s ((a, n) ∷ bs)
    → Allocated hhdm s a n bs (allocate_page hhdm s)
unfolding allocate_page
allocate_page-Allocated {hhdm} {s} bs a n off l =
    let r = remove_page-Removed bs a n off l in
    let p = l.pages.0 in
    let s' = (remove_page s).0 in
    let t = record s' { mem = memset s'.mem a 0 4096 } in
    let u = split-apart bs a n p.some_page l.apart.0 in
    let wiped = λ (b : ℕ) (out : Outside b a 4096). memset-frame s'.mem a 0 4096 b out in
    rw (r.page, ==-false a 0 (omega (arith, p)))
      (record {
        page = omega arith;
        zeroed = λ b lo hi. ground (arith, memset_lem s'.mem a 0 4096 b);
        rest = FreeList-frame hhdm s' t (split a n bs) a 4096 refl wiped u r.rest;
        apart = u;
        changed = λ b out. wiped b (omega arith) ∙ r.changed b out;
        kept = ap (λ (x : Machine). record x { mem = memset s'.mem a 0 4096 }) r.kept;
      })

module _ {hhdm : ℕ} {s : Machine} (off : IsHhdm hhdm) where
  -- FreePage of a page in the direct map that meets no free block puts it in front of the list.
  pub free_page-FreeList :
      (bs : Blocks) (addr : ℕ)
      → addr % 4096 ≡ 0
      → 0 < addr
      → addr + 4096 ≤ 2 ^ 52
      → Apart (addr + hhdm) 4096 bs
      → FreeList hhdm s bs
      → FreeList hhdm (free_page hhdm s addr) ((addr + hhdm, 4096) ∷ bs)
  unfolding free_page
  free_page-FreeList bs addr aligned pos low u l =
      rw (add64-eq addr hhdm (omega arith))
        (insert_node-FreeList off bs (addr + hhdm) 4096 (omega arith) u l)

-- A page that is freed is the next to be allocated: the pages that AllocatePage returns are reused
-- last in, first out, and the free blocks are the same again.
pub allocate_page-free_page :
    {hhdm : ℕ} {s : Machine} (bs : Blocks) (addr : ℕ)
    → IsHhdm hhdm
    → addr % 4096 ≡ 0
    → 0 < addr
    → addr + 4096 ≤ 2 ^ 52
    → Apart (addr + hhdm) 4096 bs
    → FreeList hhdm s bs
    → ((allocate_page hhdm (free_page hhdm s addr)).1 ≡ addr)
      × FreeList hhdm (allocate_page hhdm (free_page hhdm s addr)).0 bs
allocate_page-free_page {hhdm} {s} bs addr off aligned pos low u l =
    let freed = free_page-FreeList off bs addr aligned pos low u l in
    let again = allocate_page-Allocated bs (addr + hhdm) 4096 off freed in
    (omega (arith, again.page), again.rest)
