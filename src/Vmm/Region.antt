-- ===== src/Vmm/Region.antt =====
-- The loops over a run of pages, with the cost of their tables counted by regions of 2 MiB.
use system.Base.{
  ℕ, zero, suc, ◌+◌, ◌*◌, ◌/◌, ◌%◌, ◌^◌, ◌≤◌, ◌<◌, ◌≡◌, ◌≢◌, refl, subst, inl, inr, Bool-cases,
  ==_iff, ◌==◌, if◌then◌else◌, ◌∙◌, arith, false, some, [], add64,
}
use system.Machine.{Machine}
use system.Pmm.Invariant.{IsHhdm}
use system.Vmm.{memory_map, map_range}
use system.Vmm.Descend.{Paging}
use system.Vmm.Tree.{Reach}
use system.Vmm.Translate.{translate, path3}
use system.Vmm.Map.{
  pagemap_of, Ready, Ready-root, Ready-Paging, Ready-Reach, Ready-maps, Ready-others,
}
use system.Vmm.Walk.{page_number}

pub Paging-weaken :
    {hhdm : ℕ} {s : Machine} {root : ℕ} (j k : ℕ)
    → k ≤ j
    → Paging hhdm s root j
    → Paging hhdm s root k
Paging-weaken j k le g = record {
  blocks = g.blocks;
  list = g.list;
  tables = g.tables;
  enough = omega arith;
}

root-pos : {hhdm : ℕ} {s : Machine} {root k : ℕ} → Paging hhdm s root k → 0 < root
root-pos {root} {k} g =
    let page = g.tables.page [] root (omega arith) refl in omega (arith, page.above)

pagemap_of-root : (s : Machine) (root : ℕ) → 0 < root → pagemap_of s root ≡ root
pagemap_of-root s root h = ground arith

-- The state after one call of MemoryMap.
abbrev step : (hhdm : ℕ) → Machine → (root virt phys j : ℕ) → Machine
step hhdm s root virt phys j = (memory_map hhdm s root (add64 virt j) (add64 phys j) false).0

-- MemoryMap on a page map that is given, and not null.
module _ {hhdm : ℕ} {s : Machine} {root : ℕ} (virt phys j k : ℕ) (off : IsHhdm hhdm)
    (g : Ready hhdm s root (add64 virt j) k) where
  given : pagemap_of s root ≡ root
  given = pagemap_of-root s root (Ready-root (add64 virt j) g)

  given-Ready : Ready hhdm s (pagemap_of s root) (add64 virt j) k
  given-Ready = rw given g

  step-Paging : Paging hhdm (step hhdm s root virt phys j) root k
  step-Paging = rw given at (Ready-Paging root (add64 virt j) (add64 phys j) off given-Ready).1

  step-Reach : (t : ℕ) × Reach hhdm (step hhdm s root virt phys j).mem root (path3 (add64 virt j)) t
  step-Reach = rw given at (Ready-Reach root (add64 virt j) (add64 phys j) off given-Ready)

  step-maps :
      (v : ℕ)
      → page_number v ≡ page_number (add64 virt j)
      → translate hhdm (step hhdm s root virt phys j).mem root v
        ≡ some (add64 phys j / 2 ^ 12 % 2 ^ 40 * 2 ^ 12 + v % 2 ^ 12)
  step-maps v e = rw given at (Ready-maps root (add64 virt j) (add64 phys j) off given-Ready v e)

  step-others :
      (v : ℕ)
      → page_number v ≢ page_number (add64 virt j)
      → translate hhdm (step hhdm s root virt phys j).mem root v ≡ translate hhdm s.mem root v
  step-others v ne =
      rw given at (Ready-others root (add64 virt j) (add64 phys j) off given-Ready v ne)

-- The number, from 1 on, of the 2 MiB region that the page at `j` lies in: its pages share their tables.
abbrev pub region : (virt j : ℕ) → ℕ
region virt j = suc ((virt + j) / 2 ^ 21)

-- The tables of the region `known` are there; there is no region 0.
abbrev pub Knows : (hhdm : ℕ) → Machine → (root known : ℕ) → Type 0
Knows hhdm s root known =
    (w : ℕ) → suc (w / 2 ^ 21) ≡ known → (t : ℕ) × Reach hhdm s.mem root (path3 (w % 2 ^ 64)) t

-- The free pages that the loop may need: three whenever it comes to another region.
unfoldable pub cost : (rounds virt j known : ℕ) → ℕ
cost zero virt j known = 0
cost (suc n) virt j known =
    (if region virt j == known then 0 else 3) + cost n virt (j + 4096) (region virt j)

path3-region : (v w : ℕ) → v / 2 ^ 21 ≡ w / 2 ^ 21 → path3 (v % 2 ^ 64) ≡ path3 (w % 2 ^ 64)
path3-region v w e = ground arith

module _ {hhdm : ℕ} {s : Machine} {root : ℕ} (n virt phys j known k : ℕ) (off : IsHhdm hhdm)
    (g : Paging hhdm s root (cost (suc n) virt j known + k)) (knows : Knows hhdm s root known) where
  round-Ready : Ready hhdm s root (add64 virt j) (cost n virt (j + 4096) (region virt j) + k)
  unfolding cost
  round-Ready = elim (Bool-cases (region virt j == known)) [
    | inl same ↦
        let there = knows (virt + j) ((==_iff (region virt j) known).0 same) in
        inr (
          Paging-weaken (cost (suc n) virt j known + k) (cost n virt (j + 4096) (region virt j) + k)
              (omega arith) g,
          there.0,
          there.1,
        )
    | inr other ↦
        let price : cost (suc n) virt j known ≡ 3 + cost n virt (j + 4096) (region virt j) =
          rw other in
        inl (
          Paging-weaken (cost (suc n) virt j known + k)
            (suc (suc (suc (cost n virt (j + 4096) (region virt j) + k)))) (omega (arith, price)) g)
  ]

  round-Knows : Knows hhdm (step hhdm s root virt phys j) root (region virt j)
  round-Knows w e =
      let (t, r) =
        step-Reach virt phys j (cost n virt (j + 4096) (region virt j) + k) off round-Ready in
      (
        t,
        subst (λ js. Reach hhdm (step hhdm s root virt phys j).mem root js t)
            (path3-region (virt + j) w (omega arith)) r,
      )

-- The loop keeps the tree, and uses no more free pages than its cost.
pub range-Paging :
    {hhdm : ℕ} (rounds : ℕ) {s : Machine} {root : ℕ} (virt phys j known k : ℕ)
    → IsHhdm hhdm
    → Paging hhdm s root (cost rounds virt j known + k)
    → Knows hhdm s root known
    → Paging hhdm (map_range rounds hhdm s root virt phys j) root k
unfolding map_range cost
range-Paging zero virt phys j known k off g knows = Paging-weaken (0 + k) k (omega arith) g
range-Paging (suc n) virt phys j known k off g knows =
    range-Paging n virt phys (j + 4096) (region virt j) k off
      (step-Paging virt phys j (cost n virt (j + 4096) (region virt j) + k) off
        (round-Ready n virt phys j known k off g knows))
      (round-Knows n virt phys j known k off g knows)

pub range-others :
    {hhdm : ℕ} (rounds : ℕ) {s : Machine} {root : ℕ} (virt phys j known k v : ℕ)
    → IsHhdm hhdm
    → Paging hhdm s root (cost rounds virt j known + k)
    → Knows hhdm s root known
    → ((i : ℕ) → i < rounds → page_number v ≢ page_number (add64 virt (j + 4096 * i)))
    → translate hhdm (map_range rounds hhdm s root virt phys j).mem root v
      ≡ translate hhdm s.mem root v
unfolding map_range
range-others zero virt phys j known k v off g knows away = refl
range-others (suc n) virt phys j known k v off g knows away =
    let ready = round-Ready n virt phys j known k off g knows in
    let rest = cost n virt (j + 4096) (region virt j) + k in
    range-others n virt phys (j + 4096) (region virt j) k v off
      (step-Paging virt phys j rest off ready) (round-Knows n virt phys j known k off g knows)
      (λ i lt e. away (suc i) (omega arith) (omega arith))
    ∙ step-others virt phys j rest off ready v (λ e. away 0 (omega arith) (omega arith))

pub range-maps :
    {hhdm : ℕ} (rounds i : ℕ) {s : Machine} {root : ℕ} (virt phys j known k v : ℕ)
    → IsHhdm hhdm
    → Paging hhdm s root (cost rounds virt j known + k)
    → Knows hhdm s root known
    → rounds ≤ 2 ^ 36
    → virt + j + 4096 * rounds ≤ 2 ^ 64
    → i < rounds
    → page_number v ≡ page_number (add64 virt (j + 4096 * i))
    → translate hhdm (map_range rounds hhdm s root virt phys j).mem root v
      ≡ some (add64 phys (j + 4096 * i) / 2 ^ 12 % 2 ^ 40 * 2 ^ 12 + v % 2 ^ 12)
unfolding map_range
range-maps zero i virt phys j known k v off g knows few fits lt e = absurd (omega arith)
range-maps {hhdm} (suc n) zero virt phys j known k v off g knows few fits lt e =
    let ready = round-Ready n virt phys j known k off g knows in
    let rest = cost n virt (j + 4096) (region virt j) + k in
    let first : j + 4096 * 0 ≡ j = omega arith in
    rw first (
      range-others n virt phys (j + 4096) (region virt j) k v off
        (step-Paging virt phys j rest off ready) (round-Knows n virt phys j known k off g knows)
        (λ i' lt' e'. omega arith)
      ∙ step-maps virt phys j rest off ready v (omega arith))
range-maps (suc n) (suc i) virt phys j known k v off g knows few fits lt e =
    let ready = round-Ready n virt phys j known k off g knows in
    let rest = cost n virt (j + 4096) (region virt j) + k in
    let next : j + 4096 * suc i ≡ j + 4096 + 4096 * i = omega arith in
    rw next (
      range-maps n i virt phys (j + 4096) (region virt j) k v off
        (step-Paging virt phys j rest off ready) (round-Knows n virt phys j known k off g knows)
        (omega arith) (omega arith) (omega arith) (omega arith))
