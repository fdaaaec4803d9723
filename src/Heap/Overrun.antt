-- ===== src/Heap/Overrun.antt =====
-- FindSuitableNode of heap.cpp on a block with a few bytes to spare.
use system.Base.{ℕ, ◌+◌, ◌-◌, ◌^◌, ◌<◌, ◌≡◌, ◌∙◌, arith}
use system.Memory.{load64, load64-store64_apart}
use system.Machine.{Machine}
use system.Blocks.{write_node-next}
use system.Heap.{insert_node, carve}
use system.Heap.Lists.{IsBlock}
use system.Heap.Carve.{carve-more}

insert_node-next :
    (s : Machine) (a n : ℕ)
    → s.heap_head < 2 ^ 64
    → load64 (insert_node s a n).mem (a + 8) ≡ s.heap_head
unfolding insert_node
insert_node-next s a n fits = write_node-next s.mem a n s.heap_head fits

-- A block that exceeds the request and its header by 1 to 15 bytes, which is less than a header, still
-- gives the excess back as a free block: the list's head is written past the end of the block, over
-- what follows it.
pub carve-overrun :
    (s : Machine) (a n size : ℕ)
    → load64 s.mem a ≡ n
    → IsBlock a n
    → 16 + size < n
    → n < 16 + size + 16
    → a + 16 + size + 16 < 2 ^ 64
    → s.heap_head < 2 ^ 64
    → (a + n < a + 16 + size + 8 + 8)
      × (load64 (carve s a size).mem (a + 16 + size + 8) ≡ s.heap_head)
carve-overrun s a n size e b more short room fits = (
  omega arith,
  rw (carve-more s a n size e (omega arith) more) (
      load64-store64_apart (insert_node s (a + 16 + size) (n - (16 + size))).mem a (16 + size)
        (a + 16 + size + 8) (omega arith)
      ∙ insert_node-next s (a + 16 + size) (n - (16 + size)) fits),
)
