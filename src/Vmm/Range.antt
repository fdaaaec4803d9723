-- ===== src/Vmm/Range.antt =====
-- The loops of InitPaging: a run of pages, and the entries of the memory map.
use system.Base.{ℕ, zero, suc, ◌+◌, ◌*◌, ◌/◌, ◌%◌, ◌^◌, ◌≤◌, ◌<◌, ◌≡◌, ◌≢◌, arith, some, add64}
use system.Machine.{Machine}
use system.Pmm.Invariant.{IsHhdm}
use system.Vmm.{map_range}
use system.Vmm.Descend.{Paging}
use system.Vmm.Translate.{translate}
use system.Vmm.Walk.{page_number}
use system.Vmm.Region.{Paging-weaken, region, Knows, cost, range-Paging, range-others, range-maps}

-- From a region on, the loop costs three pages for each region that it comes to.
cost-region :
    (n virt j known : ℕ)
    → region virt j ≤ suc known
    → known ≤ region virt j
    → cost n virt j known + 3 * known ≤ 3 * region virt (j + 4096 * n)
unfolding cost
cost-region zero virt j known lo hi = omega arith
cost-region (suc n) virt j known lo hi =
    let rest = cost-region n virt (j + 4096) (region virt j) (omega arith) (omega arith) in
    let upto : region virt (j + 4096 + 4096 * n) ≡ region virt (j + 4096 * suc n) = omega arith in
    ground (arith, rest, upto)

-- The pages that the tables of `n` pages in a row may take.
abbrev pub table_pages : ℕ → ℕ
table_pages n = 3 * (n / 512 + 2)

cost-le : (n virt j : ℕ) → cost n virt j 0 ≤ table_pages n
unfolding cost
cost-le zero virt j = omega arith
cost-le (suc n) virt j =
    let rest = cost-region n virt (j + 4096) (region virt j) (omega arith) (omega arith) in
    let upto : region virt (j + 4096 + 4096 * n) ≤ region virt j + n / 512 + 1 = omega arith in
    ground (arith, rest, upto)

-- At the start of the loop nothing is known of the tables.
none-known : (hhdm : ℕ) (s : Machine) (root : ℕ) → Knows hhdm s root 0
none-known hhdm s root w e = absurd (omega arith)

start-Paging :
    {hhdm : ℕ} {s : Machine} {root : ℕ} (rounds virt j k : ℕ)
    → Paging hhdm s root (table_pages rounds + k)
    → Paging hhdm s root (cost rounds virt j 0 + k)
start-Paging rounds virt j k g =
    Paging-weaken (table_pages rounds + k) (cost rounds virt j 0 + k)
      (omega (arith, cost-le rounds virt j)) g

-- The loop keeps the tree, and uses at most three free pages for each 512 pages, and six more.
pub map_range-Paging :
    {hhdm : ℕ} (rounds : ℕ) {s : Machine} {root : ℕ} (virt phys j k : ℕ)
    → IsHhdm hhdm
    → Paging hhdm s root (table_pages rounds + k)
    → Paging hhdm (map_range rounds hhdm s root virt phys j) root k
map_range-Paging {hhdm} rounds {s} {root} virt phys j k off g =
    range-Paging rounds virt phys j 0 k off (start-Paging rounds virt j k g)
      (none-known hhdm s root)

-- Pages that the loop does not come by keep their translation.
pub map_range-others :
    {hhdm : ℕ} (rounds : ℕ) {s : Machine} {root : ℕ} (virt phys j k v : ℕ)
    → IsHhdm hhdm
    → Paging hhdm s root (table_pages rounds + k)
    → ((i : ℕ) → i < rounds → page_number v ≢ page_number (add64 virt (j + 4096 * i)))
    → translate hhdm (map_range rounds hhdm s root virt phys j).mem root v
      ≡ translate hhdm s.mem root v
map_range-others {hhdm} rounds {s} {root} virt phys j k v off g away =
    range-others rounds virt phys j 0 k v off (start-Paging rounds virt j k g)
      (none-known hhdm s root) away

-- After the loop over at most 2 ^ 36 pages, with neither address range wrapping around and free pages
-- for its tables, three for each 512 pages and six more, every address in the i-th virtual page is
-- translated to the same offset in the i-th physical page.
pub map_range-maps :
    {hhdm : ℕ} (rounds i : ℕ) {s : Machine} {root : ℕ} (virt phys j k v : ℕ)
    → IsHhdm hhdm
    → Paging hhdm s root (table_pages rounds + k)
    → rounds ≤ 2 ^ 36
    → virt + j + 4096 * rounds ≤ 2 ^ 64
    → i < rounds
    → page_number v ≡ page_number (add64 virt (j + 4096 * i))
    → translate hhdm (map_range rounds hhdm s root virt phys j).mem root v
      ≡ some (add64 phys (j + 4096 * i) / 2 ^ 12 % 2 ^ 40 * 2 ^ 12 + v % 2 ^ 12)
map_range-maps {hhdm} rounds i {s} {root} virt phys j k v off g few fits lt e =
    range-maps rounds i virt phys j 0 k v off (start-Paging rounds virt j k g)
      (none-known hhdm s root) few fits lt e
