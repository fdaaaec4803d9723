-- ===== src/Vmm/Map.antt =====
-- MemoryMap of vmm.cpp for a page of 4096 bytes: three steps down, and the write of the last entry.
use system.Base.{
  ℕ, suc, ◌+◌, ◌*◌, ◌/◌, ◌%◌, ◌^◌, ◌<◌, ◌≡◌, ◌≢◌, ◌⊎◌, inl, inr, refl, ◌∙◌, arith, true, false,
  some, [], ◌∷◌, ◌==◌, if◌then◌else◌,
}
use system.Machine.{Machine}
use system.Pmm.Invariant.{IsHhdm}
use system.Vmm.{index, map_levels, memory_map}
use system.Vmm.Tree.{word, child, Reach}
use system.Vmm.Rewrite.{Reach-rewritten}
use system.Vmm.Descend.{Paging, get_next_level-present}
use system.Vmm.Translate.{translate, path3}
use system.Vmm.Walk.{
  last, last-Paging, last-Rewritten, last-mapped, last-other, page_number, Walked, walk,
  walk-Walked, map_levels-walk,
}

-- The page map that a call of MemoryMap works on.
abbrev pub pagemap_of : Machine → ℕ → ℕ
pagemap_of s target = if target == 0 then s.kernel_pml4 else target

memory_map-levels :
    (hhdm : ℕ) (s : Machine) (target virt phys : ℕ)
    → 0 < pagemap_of s target
    → memory_map hhdm s target virt phys false
      ≡ map_levels hhdm s (pagemap_of s target) virt phys false
unfolding memory_map
memory_map-levels hhdm s target virt phys h = ground arith

-- The tables on the way to the lowest one are there, or three pages are free to make them.
abbrev pub Ready : (hhdm : ℕ) → Machine → (root virt k : ℕ) → Type 0
Ready hhdm s root virt k =
    Paging hhdm s root (suc (suc (suc k)))
    ⊎ (Paging hhdm s root k × (t : ℕ) × Reach hhdm s.mem root (path3 virt) t)

walk-there :
    (hhdm : ℕ) (s : Machine) (root virt t : ℕ)
    → Reach hhdm s.mem root (path3 virt) t
    → 0 < root
    → 0 < child hhdm (word s.mem root (index 39 virt))
    → 0 < child hhdm (word s.mem (child hhdm (word s.mem root (index 39 virt))) (index 30 virt))
    → walk hhdm s root virt ≡ (s, t)
unfolding walk
walk-there hhdm s root virt t reach h h3 h2 = rw (
  get_next_level-present hhdm s root (index 39 virt) h reach.0,
  get_next_level-present hhdm s (child hhdm (word s.mem root (index 39 virt))) (index 30 virt) h3
      reach.1.0,
  get_next_level-present hhdm s
      (child hhdm (word s.mem (child hhdm (word s.mem root (index 39 virt))) (index 30 virt)))
      (index 21 virt) h2 reach.1.1.0,
  reach.1.1.1,
)

there-Walked :
    {hhdm : ℕ} {s : Machine} {root k : ℕ} (virt t : ℕ)
    → Paging hhdm s root k
    → Reach hhdm s.mem root (path3 virt) t
    → Walked hhdm s root k virt (walk hhdm s root virt)
there-Walked {hhdm} {s} {root} virt t g reach =
    let i4 = index 39 virt in
    let i3 = index 30 virt in
    let x3 = child hhdm (word s.mem root i4) in
    let x2 = child hhdm (word s.mem x3 i3) in
    let top = g.tables.page [] root (omega arith) refl in
    let third = g.tables.page (i4 ∷ []) x3 (omega arith) (reach.0, refl) in
    let second = g.tables.page (i4 ∷ i3 ∷ []) x2 (omega arith) (reach.0, (reach.1.0, refl)) in
    let low = g.tables.page (path3 virt) t (omega arith) reach in
    rw
      (walk-there hhdm s root virt t reach (omega (arith, top.above)) (omega (arith, third.above))
        (omega (arith, second.above)))
      (record {
        paging = g;
        reach = reach;
        nonnull = omega (arith, low.above);
        kernel = refl;
        same = λ v. refl;
      })

Ready-Walked :
    {hhdm : ℕ} {s : Machine} {root k : ℕ} (virt : ℕ)
    → IsHhdm hhdm
    → Ready hhdm s root virt k
    → Walked hhdm s root k virt (walk hhdm s root virt)
Ready-Walked virt off (inl g) = walk-Walked virt off g
Ready-Walked virt off (inr there) = there-Walked virt there.1 there.0 there.2

pub Ready-root :
    {hhdm : ℕ} {s : Machine} {root k : ℕ} (virt : ℕ) → Ready hhdm s root virt k → 0 < root
Ready-root {root = root} virt (inl g) =
    let top = g.tables.page [] root (omega arith) refl in omega (arith, top.above)
Ready-root {root = root} virt (inr there) =
    let top = there.0.tables.page [] root (omega arith) refl in omega (arith, top.above)

module _ {hhdm : ℕ} {s : Machine} {k : ℕ} (target virt phys : ℕ) (off : IsHhdm hhdm)
    (g : Ready hhdm s (pagemap_of s target) virt k) where
  walked : Walked hhdm s (pagemap_of s target) k virt (walk hhdm s (pagemap_of s target) virt)
  walked = Ready-Walked virt off g

  memory_map_run :
      memory_map hhdm s target virt phys false
      ≡ (record (walk hhdm s (pagemap_of s target) virt).0 { mem = last phys walked }, true)
  memory_map_run =
      memory_map-levels hhdm s target virt phys (Ready-root virt g)
      ∙ map_levels-walk hhdm s (pagemap_of s target) virt phys walked.nonnull

  pub Ready-Paging :
      ((memory_map hhdm s target virt phys false).1 ≡ true)
      × Paging hhdm (memory_map hhdm s target virt phys false).0 (pagemap_of s target) k
      × ((memory_map hhdm s target virt phys false).0.kernel_pml4 ≡ s.kernel_pml4)
  Ready-Paging = rw memory_map_run (refl, last-Paging phys walked, walked.kernel)

  -- The lowest table is there after the call.
  pub Ready-Reach :
      (t : ℕ) × Reach hhdm
        (memory_map hhdm s target virt phys false).0.mem
        (pagemap_of s target)
        (path3 virt)
        t
  Ready-Reach = rw memory_map_run (
    (walk hhdm s (pagemap_of s target) virt).1,
    Reach-rewritten walked.paging.tables (last-Rewritten phys walked),
  )

  pub Ready-maps :
      (v : ℕ)
      → page_number v ≡ page_number virt
      → translate hhdm (memory_map hhdm s target virt phys false).0.mem (pagemap_of s target) v
        ≡ some (phys / 2 ^ 12 % 2 ^ 40 * 2 ^ 12 + v % 2 ^ 12)
  Ready-maps v eq = rw memory_map_run (last-mapped phys walked v eq)

  pub Ready-others :
      (v : ℕ)
      → page_number v ≢ page_number virt
      → translate hhdm (memory_map hhdm s target virt phys false).0.mem (pagemap_of s target) v
        ≡ translate hhdm s.mem (pagemap_of s target) v
  Ready-others v ne = rw memory_map_run (last-other phys walked v ne)

module _ {hhdm : ℕ} {s : Machine} {k : ℕ} (target virt phys : ℕ) (off : IsHhdm hhdm)
    (g : Paging hhdm s (pagemap_of s target) (suc (suc (suc k)))) where
  -- MemoryMap of a small page into a tree of page tables, while three pages are free, succeeds; the
  -- tables are a tree again, at most three pages fewer are free, and the kernel's page map is the same.
  pub memory_map-Paging :
      ((memory_map hhdm s target virt phys false).1 ≡ true)
      × Paging hhdm (memory_map hhdm s target virt phys false).0 (pagemap_of s target) k
      × ((memory_map hhdm s target virt phys false).0.kernel_pml4 ≡ s.kernel_pml4)
  memory_map-Paging = Ready-Paging target virt phys off (inl g)

  -- After MemoryMap of a small page into a tree of page tables, while three pages are free, every
  -- address of that virtual page is translated to the address at the same offset in the physical page.
  pub memory_map-maps :
      (v : ℕ)
      → page_number v ≡ page_number virt
      → translate hhdm (memory_map hhdm s target virt phys false).0.mem (pagemap_of s target) v
        ≡ some (phys / 2 ^ 12 % 2 ^ 40 * 2 ^ 12 + v % 2 ^ 12)
  memory_map-maps = Ready-maps target virt phys off (inl g)

  -- MemoryMap of a small page into a tree of page tables, while three pages are free, leaves the
  -- translation of every address of every other page alone, whether it is mapped or not.
  pub memory_map-others :
      (v : ℕ)
      → page_number v ≢ page_number virt
      → translate hhdm (memory_map hhdm s target virt phys false).0.mem (pagemap_of s target) v
        ≡ translate hhdm s.mem (pagemap_of s target) v
  memory_map-others = Ready-others target virt phys off (inl g)
