-- ===== src/Heap/Resize.antt =====
-- Reallocate of heap.cpp: the new object has the old one's contents.
use system.Base.{
  ℕ, ◌+◌, ◌-◌, ◌^◌, ◌≤◌, ◌<◌, ◌≡◌, ◌⊎◌, inl, inr, refl, ◌∙◌, arith, some, [], ◌∷◌, ◌++◌, length,
  ◌==◌, ==-false, Bool-cases, sub64,
}
use system.Memory.{Memory, load8, load64, load64-same}
use system.Mem.{memcpy, memcpy_lem}
use system.Machine.{Machine}
use system.Blocks.{Blocks, Apart, AllApart, Apart-part, ChangedOnly}
use system.Heap.{node_size, allocate, free, reallocate}
use system.Heap.Lists.{
  IsBlock, HeapList, HeapList-frame, AllBlocks-at, Apart-removed, Apart-at, Apart-remove,
}
use system.Heap.Carve.{remainder, Splits}
use system.Heap.FirstFit.{AllSmall, allocate-first_fit, free-HeapList}
use system.Heap.Serve.{OutsideAll, Served}

-- A byte of a range that no block meets is in none of the blocks.
Apart-OutsideAll : (bs : Blocks) (b k x : ℕ) → Apart b k bs → b ≤ x → x < b + k → OutsideAll x bs
Apart-OutsideAll [] b k x u lo hi = tt
Apart-OutsideAll ((a, n) ∷ bs) b k x u lo hi = (omega arith, Apart-OutsideAll bs b k x u.1 lo hi)

-- What is apart from the whole block is apart from its rest.
pub Apart-remainder :
    (bs : Blocks) (a n size x k : ℕ)
    → ((x + k ≤ a) ⊎ (a + n ≤ x)) ⊎ (x + k ≤ a + 16 + size)
    → Apart x k bs
    → Splits n size
    → Apart x k (remainder a n size ++ bs)
Apart-remainder bs a n size x k meet u splits = elim (Bool-cases (n - (16 + size) == 0)) [
  | inl e ↦ rw e u
  | inr e ↦ rw e (omega arith, u)
]

memcpy-changed :
    (m : Memory) (d s n : ℕ) → (d ≤ s) ⊎ (s + n ≤ d) → ChangedOnly d n m (memcpy m d s n)
memcpy-changed m d s n apart b out = ground (arith, memcpy_lem m d s n b apart)

reallocate-run :
    (fuel hhdm : ℕ) (s s' : Machine) (b old new_size a : ℕ)
    → load64 s.mem b ≡ 16 + old
    → b + 16 + old < 2 ^ 64
    → 0 < a
    → allocate fuel hhdm s new_size ≡ some (s', a + 16)
    → reallocate fuel hhdm s (b + 16) new_size
      ≡ some (free (record s' { mem = memcpy s'.mem (a + 16) (b + 16) old }) (b + 16), a + 16)
unfolding reallocate
reallocate-run fuel hhdm s s' b old new_size a header fits some_block e =
    let node : sub64 (b + 16) node_size ≡ b = omega arith in
    let size : sub64 (16 + old) node_size ≡ old = omega arith in
    rw (e, reallocate, ==-false (a + 16) 0 (omega arith), node, header, size)

-- The object at `b + 16` was moved to `a + 16`: its block is free, and the new object starts with its
-- bytes.
pub record Moved (s : Machine) (a n b old size : ℕ) (after : Blocks) (s' : Machine) : Type 0 where
  pub list : HeapList s' ((b, 16 + old) ∷ (remainder a n size ++ after))
  pub contents : (i : ℕ) → i < old → load8 s'.mem (a + 16 + i) ≡ load8 s.mem (b + 16 + i)

Apart-all :
    (pre post : Blocks) (a n size b k : ℕ)
    → Splits n size
    → Apart b k (pre ++ (a, n) ∷ post)
    → Apart b k (remainder a n size ++ (pre ++ post))
Apart-all pre post a n size b k splits u =
    Apart-remainder (pre ++ post) a n size b k (inl (Apart-at pre post b k a n u))
      (Apart-remove pre post b k a n u) splits

Apart-object :
    (pre post : Blocks) (a n size old : ℕ)
    → old ≤ size
    → Splits n size
    → AllApart (pre ++ (a, n) ∷ post)
    → Apart (a + 16) old (remainder a n size ++ (pre ++ post))
Apart-object pre post a n size old fits splits u =
    Apart-remainder (pre ++ post) a n size (a + 16) old (inr (omega arith))
      (Apart-part (pre ++ post) a n (a + 16) old (omega arith) (omega arith)
        (Apart-removed pre post a n u))
      splits

copied :
    (m : Memory) (d s n i : ℕ)
    → (d ≤ s) ⊎ (s + n ≤ d)
    → i < n
    → memcpy m d s n (d + i) ≡ load8 m (s + i)
copied m d s n i apart lt = ground (arith, memcpy_lem m d s n (d + i) (omega arith))

-- The copy and the release, on the machine after the allocation.
moved :
    {s s' : Machine} (pre post : Blocks) (a n b old size : ℕ)
    → Splits n size
    → old ≤ size
    → IsBlock b (16 + old)
    → load64 s.mem b ≡ 16 + old
    → Apart b (16 + old) (pre ++ (a, n) ∷ post)
    → AllApart (pre ++ (a, n) ∷ post)
    → Served s a n size (pre ++ (a, n) ∷ post) (pre ++ post) s'
    → Moved s a n b old size
        (pre ++ post)
        (free (record s' { mem = memcpy s'.mem (a + 16) (b + 16) old }) (b + 16))
unfolding load8
moved {s} {s'} pre post a n b old size splits fits block header u apart served =
    let bs = remainder a n size ++ (pre ++ post) in
    let m = memcpy s'.mem (a + 16) (b + 16) old in
    let meet = Apart-at pre post b (16 + old) a n u in
    let change = memcpy-changed s'.mem (a + 16) (b + 16) old (omega arith) in
    let same : (x : ℕ) → b ≤ x → x < b + (16 + old) → s'.mem x ≡ s.mem x = λ x lo hi.
      served.untouched x (Apart-OutsideAll (pre ++ (a, n) ∷ post) b (16 + old) x u lo hi) in
    let kept : (x : ℕ) → b ≤ x → x < b + (16 + old) → m x ≡ s'.mem x =
      λ x lo hi. change x (omega arith) in
    let header' : load64 m b ≡ 16 + old =
      load64-same s.mem m b (λ x lo hi. kept x lo (omega arith) ∙ same x lo (omega arith))
      ∙ header in
    let list =
      HeapList-frame s' (record s' { mem = m }) bs (a + 16) old refl change
        (Apart-object pre post a n size old fits splits apart) served.list in
    let released =
      free-HeapList bs b (16 + old) header' block
        (Apart-all pre post a n size b (16 + old) splits u) list in
    record {
      list = released.0;
      contents = λ i lt.
          rw
            (
              released.1 (a + 16 + i) (omega arith),
              copied s'.mem (a + 16) (b + 16) old i (omega arith) lt,
              same (b + 16 + i) (omega arith) (omega arith),
            )
            (omega arith);
    }

-- Reallocate to a size that is at least the old one, while the first free block that is large enough,
-- `(a, n)`, is as large as asked or larger by a header: the new object stands in that block, and its
-- bytes are those of the old object before the call, whose block, apart from the free ones, joins the
-- free list. The fuel exceeds the number of blocks before that one.
pub reallocate-Moved :
    {s : Machine} (fuel hhdm : ℕ) (pre post : Blocks) (a n b old size : ℕ)
    → length pre < fuel
    → AllSmall size pre
    → Splits n size
    → old ≤ size
    → HeapList s (pre ++ (a, n) ∷ post)
    → load64 s.mem b ≡ 16 + old
    → IsBlock b (16 + old)
    → Apart b (16 + old) (pre ++ (a, n) ∷ post)
    → (s' : Machine) × (reallocate fuel hhdm s (b + 16) size ≡ some (s', a + 16))
      × Moved s a n b old size (pre ++ post) s'
reallocate-Moved {s} fuel hhdm pre post a n b old size enough small splits fits l header block u =
    let got = allocate-first_fit fuel hhdm pre post a n size enough small splits l in
    let free_block = AllBlocks-at pre post a n l.blocks in
    let header' : load64 got.0.mem b ≡ 16 + old =
      load64-same s.mem got.0.mem b (λ x lo hi.
        got.2.untouched x
          (Apart-OutsideAll (pre ++ (a, n) ∷ post) b (16 + old) x u lo (omega arith)))
      ∙ header in
    (
      free (record got.0 { mem = memcpy got.0.mem (a + 16) (b + 16) old }) (b + 16),
      reallocate-run fuel hhdm s got.0 b old size a header (omega arith) (omega arith) got.1,
      moved pre post a n b old size splits fits block header u l.apart got.2,
    )
