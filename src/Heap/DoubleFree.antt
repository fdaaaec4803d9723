-- ===== src/Heap/DoubleFree.antt =====
-- What the second release of a block does to the heap.
use system.Base.{
  ℕ, zero, suc, ◌+◌, ◌^◌, ◌<◌, ◌≡◌, ◌∙◌, refl, arith, Option, none, some, [], ◌∷◌, sub64,
}
use system.Memory.{load64}
use system.Machine.{Machine}
use system.Blocks.{Blocks, Chain, Apart, write_node-size, write_node-next}
use system.Heap.{node_size, next_of, insert_node, find_from, allocate, free}
use system.Heap.New.{destroy_tar_object}
use system.Heap.Lists.{IsBlock, HeapList}
use system.Heap.FirstFit.{free-HeapList, fits-false, find_from-skip}

-- The list's head leads to a node of size `n` at `a` whose next node is the node itself.
record IsCycle (s : Machine) (a n : ℕ) : Type 0 where
  head : s.heap_head ≡ a
  size : load64 s.mem a ≡ n
  next : load64 s.mem (a + 8) ≡ a

free-IsCycle :
    (s : Machine) (a n : ℕ)
    → IsBlock a n
    → load64 s.mem a ≡ n
    → s.heap_head ≡ a
    → IsCycle (free s (a + 16)) a n
unfolding free insert_node
free-IsCycle s a n b size head =
    let node : sub64 (a + 16) node_size ≡ a = omega arith in
    rw (node, size, head)
      (record {
        head = refl;
        size = write_node-size s.mem a n a (omega arith);
        next = write_node-next s.mem a n a (omega arith);
      })

-- No list of blocks is what the head of a cycle leads to.
cycle_unlisted :
    (s : Machine) (a n : ℕ) (bs : Blocks) → 0 < a → load64 s.mem (a + 8) ≡ a → ¬ Chain s.mem a bs
cycle_unlisted s a n [] pos next c = absurd (omega arith)
cycle_unlisted s a n ((b, k) ∷ bs) pos next c =
    let on : Chain s.mem (load64 s.mem (b + 8)) bs = c.2 in
    let here : load64 s.mem (b + 8) ≡ a = rw (← c.0) next in
    let again : Chain s.mem a bs = rw here at on in cycle_unlisted s a n bs pos next again

module _ {s : Machine} {a n : ℕ} (cycle : IsCycle s a n) (pos : 0 < a) where
  search-stuck :
      (fuel hhdm size : ℕ) (current : Option ℕ)
      → n < 16 + size
      → 16 + size < 2 ^ 64
      → next_of s current ≡ a
      → find_from fuel hhdm s size current ≡ none
  unfolding next_of find_from
  search-stuck zero hhdm size current small fits at = refl
  search-stuck (suc fuel) hhdm size current small fits at =
      find_from-skip fuel hhdm s size current a at pos (fits-false s a n size cycle.size small fits)
      ∙ search-stuck fuel hhdm size (some a) small fits cycle.next

  allocate-stuck :
      (fuel hhdm size : ℕ) → n < 16 + size → 16 + size < 2 ^ 64 → allocate fuel hhdm s size ≡ none
  unfolding allocate next_of
  allocate-stuck fuel hhdm size small fits =
      rw (search-stuck fuel hhdm size none small fits cycle.head, allocate)

destroyed-IsCycle :
    {s : Machine} (bs : Blocks) (a n : ℕ)
    → load64 s.mem a ≡ n
    → IsBlock a n
    → Apart a n bs
    → HeapList s bs
    → IsCycle (destroy_tar_object s (a + 16)) a n
unfolding destroy_tar_object
destroyed-IsCycle {s} bs a n header b u l =
    let once = free-HeapList bs a n header b u l in
    free-IsCycle (free s (a + 16)) a n b once.0.chain.1 once.0.chain.0

-- The destructor of TarObject, on a heap in order, releases the block of the vector's files twice and ruins
-- the heap: the free blocks are no list any more, since their first node points to itself, and an
-- Allocate of more bytes than that block has room for never comes back, whatever its fuel.
pub destroy_tar_object-corrupts :
    {s : Machine} (bs bs' : Blocks) (a n fuel hhdm size : ℕ)
    → load64 s.mem a ≡ n
    → IsBlock a n
    → Apart a n bs
    → HeapList s bs
    → n < 16 + size
    → 16 + size < 2 ^ 64
    → (¬ HeapList (destroy_tar_object s (a + 16)) bs')
      × (allocate fuel hhdm (destroy_tar_object s (a + 16)) size ≡ none)
destroy_tar_object-corrupts {s} bs bs' a n fuel hhdm size header b u l small fits =
    let cycle = destroyed-IsCycle bs a n header b u l in
    let s2 = destroy_tar_object s (a + 16) in
    let head = cycle.head in
    (
      λ l'.
          let c : Chain s2.mem a bs' = rw head at (l'.chain) in
          cycle_unlisted s2 a n bs' b.0 cycle.next c,
      allocate-stuck cycle b.0 fuel hhdm size small fits,
    )
