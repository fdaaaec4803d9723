-- ===== src/Heap/Reuse.antt =====
-- What delete gives back, and that new finds it again.
use system.Base.{
  ℕ, ◌+◌, ◌-◌, ◌≤◌, ◌<◌, ◌≡◌, ◌∙◌, ◌⊎◌, inl, inr, refl, arith, some, [], ◌∷◌, ◌++◌, length, ◌==◌,
  Bool-cases,
}
use system.Machine.{Machine}
use system.Blocks.{Blocks, Apart-part, ChangedOnly, total}
use system.Heap.New.{operator_new, operator_delete}
use system.Heap.Lists.{HeapList, AllBlocks-at, Apart-removed}
use system.Heap.Carve.{remainder, Splits}
use system.Heap.FirstFit.{AllSmall, allocate-first_fit, free-HeapList}
use system.Heap.Serve.{OutsideAll, Served}
use system.Heap.Resize.{Apart-remainder}

total-append : (xs ys : Blocks) → total (xs ++ ys) ≡ total xs + total ys
unfolding total
total-append [] ys = omega arith
total-append (x ∷ xs) ys = omega (arith, total-append xs ys)

total-remainder : (a n size : ℕ) → total (remainder a n size) ≡ n - (16 + size)
unfolding total
total-remainder a n size = ground arith

OutsideAll-at :
    (pre post : Blocks) (a n x : ℕ) → OutsideAll x (pre ++ (a, n) ∷ post) → (x < a) ⊎ (a + n ≤ x)
OutsideAll-at [] post a n x out = omega arith
OutsideAll-at (b ∷ pre) post a n x out = OutsideAll-at pre post a n x out.1

OutsideAll-remove :
    (pre post : Blocks) (a n x : ℕ)
    → OutsideAll x (pre ++ (a, n) ∷ post)
    → OutsideAll x (pre ++ post)
OutsideAll-remove [] post a n x out = out.1
OutsideAll-remove (b ∷ pre) post a n x out = (out.0, OutsideAll-remove pre post a n x out.1)

-- The state after new, delete and new again.
pub record Reused (s s2 s3 : Machine) (a n size : ℕ) (before after : Blocks) : Type 0 where
  pub freed : HeapList s2 ((a, 16 + size) ∷ (remainder a n size ++ after))
  pub conserved : total ((a, 16 + size) ∷ (remainder a n size ++ after)) ≡ total before
  pub reused : HeapList s3 (remainder a n size ++ after)
  pub untouched : (x : ℕ) → OutsideAll x before → s3.mem x ≡ s.mem x

operator_delete-HeapList :
    {s s1 : Machine} (pre post : Blocks) (a n size : ℕ)
    → Splits n size
    → HeapList s (pre ++ (a, n) ∷ post)
    → Served s a n size (pre ++ (a, n) ∷ post) (pre ++ post) s1
    → HeapList
        (operator_delete s1 (a + 16))
        ((a, 16 + size) ∷ (remainder a n size ++ (pre ++ post)))
      × ChangedOnly a (16 + size) s1.mem (operator_delete s1 (a + 16)).mem
unfolding operator_delete
operator_delete-HeapList {s} {s1} pre post a n size splits l served =
    let block = AllBlocks-at pre post a n l.blocks in
    let u = Apart-removed pre post a n l.apart in
    free-HeapList (remainder a n size ++ (pre ++ post)) a (16 + size) served.header (omega arith)
      (Apart-remainder (pre ++ post) a n size a (16 + size) (inr (omega arith))
        (Apart-part (pre ++ post) a n a (16 + size) (omega arith) (omega arith) u) splits)
      served.list

total-Reused :
    (pre post : Blocks) (a n size : ℕ)
    → Splits n size
    → total ((a, 16 + size) ∷ (remainder a n size ++ (pre ++ post))) ≡ total (pre ++ (a, n) ∷ post)
unfolding total
total-Reused pre post a n size splits = omega (
  arith,
  total-append (remainder a n size) (pre ++ post),
  total-append pre post,
  total-append pre ((a, n) ∷ post),
  total-remainder a n size,
)

-- What is in none of the blocks is in none of them after a block is cut.
OutsideAll-cut :
    (pre post : Blocks) (a n size x : ℕ)
    → Splits n size
    → OutsideAll x (pre ++ (a, n) ∷ post)
    → OutsideAll x ((a, 16 + size) ∷ (remainder a n size ++ (pre ++ post)))
OutsideAll-cut pre post a n size x splits out =
    let whole = OutsideAll-at pre post a n x out in
    let others = OutsideAll-remove pre post a n x out in
    elim (Bool-cases (n - (16 + size) == 0)) [
      | inl exact ↦ rw exact (omega arith, others)
      | inr more ↦ rw more (omega arith, (omega arith, others))
    ]

-- First fit finds a block for `size` bytes: new returns the address after its header; delete of that object
-- puts the block, cut to size, in front of the free blocks, which hold as many bytes together as before;
-- and new of the same size then returns the same address again. No byte outside the blocks that were
-- free is written. The fuel exceeds the number of blocks before the one found.
pub operator_new-operator_delete :
    {s : Machine} (fuel fuel' hhdm : ℕ) (pre post : Blocks) (a n size : ℕ)
    → length pre < fuel
    → 0 < fuel'
    → AllSmall size pre
    → Splits n size
    → HeapList s (pre ++ (a, n) ∷ post)
    → (s1 s3 : Machine) × (operator_new fuel hhdm s size ≡ some (s1, a + 16))
      × (operator_new fuel' hhdm (operator_delete s1 (a + 16)) size ≡ some (s3, a + 16))
      × Reused s (operator_delete s1 (a + 16)) s3 a n size (pre ++ (a, n) ∷ post) (pre ++ post)
unfolding operator_new
operator_new-operator_delete {s} fuel fuel' hhdm pre post a n size enough enough' small splits l =
    let (s1, e1, served) = allocate-first_fit fuel hhdm pre post a n size enough small splits l in
    let deleted = operator_delete-HeapList pre post a n size splits l served in
    let s2 = operator_delete s1 (a + 16) in
    let rest = remainder a n size ++ (pre ++ post) in
    let (s3, e3, again) =
      allocate-first_fit fuel' hhdm [] rest a (16 + size) size enough' tt (inl refl) deleted.0 in
    let exact : 16 + size - (16 + size) ≡ 0 = omega arith in
    let list = again.list in
    (
      s1,
      s3,
      e1,
      e3,
      record {
        freed = deleted.0;
        conserved = total-Reused pre post a n size splits;
        reused = rw exact at list;
        untouched = λ x out.
            let cut = OutsideAll-cut pre post a n size x splits out in
            again.untouched x cut ∙ deleted.1 x (omega (arith, cut.0)) ∙ served.untouched x out;
      },
    )
