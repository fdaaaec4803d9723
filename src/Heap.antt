-- ===== src/Heap.antt =====
-- kernel/src/mm/heap.cpp: the kernel heap, a first-fit free list. `head.next` is `heap_head` of the
-- machine; a pointer to the node whose `next` is read or written is `none` for `&head`. The search
-- runs on fuel, and `none` means that the fuel ran out.
pub mod Lists
pub mod Carve
pub mod Serve
pub mod FirstFit
pub mod Grow
pub mod Exhausted
pub mod Resize
pub mod Overrun
pub mod New
pub mod Reuse
pub mod DoubleFree
use system.Base.{
  ℕ, zero, suc, ◌+◌, ◌*◌, ◌/◌, Bool, ◌&&◌, Option, none, some, ltb, leb, ◌==◌, if◌then◌else◌, add64,
  sub64,
}
use system.Memory.{load64, store64}
use system.Mem.{memcpy}
use system.Blocks.{write_node}
use system.Machine.{Machine, hhdm_phys_to_virt}
use system.Pmm.{allocate_page}

-- sizeof(Node)
abbrev pub node_size : ℕ
node_size = 16

unfoldable pub insert_node : Machine → (base size : ℕ) → Machine
insert_node s base size = record s {
  mem = write_node s.mem base size s.heap_head;
  heap_head = base;
}

-- The loop of ExpandHeap, from `i` on, with its rounds left.
more_pages : ℕ → (hhdm : ℕ) → Machine → (i : ℕ) → Machine × ℕ
more_pages zero hhdm s i = (s, i)
more_pages (suc rounds) hhdm s i =
    let (s', page) = allocate_page hhdm s in
    let rest = more_pages rounds hhdm s' (i + 1) in if page == 0 then (s', i) else rest

-- Returns the number of pages by which the heap grew.
unfoldable pub expand_heap : (hhdm : ℕ) → Machine → (page_count : ℕ) → Machine × ℕ
unfolding more_pages insert_node
expand_heap hhdm s page_count =
    let (s', page) = allocate_page hhdm s in
    let start = hhdm_phys_to_virt hhdm page in
    if start == 0
    then (s', 0)
    else (let (s'', i) = more_pages (sub64 page_count 1) hhdm s' 0 in
        (insert_node s'' start ((i + 1) * 4096), i + 1))

-- `current->next`
pub next_of : Machine → Option ℕ → ℕ
next_of s none = s.heap_head
next_of s (some current) = load64 s.mem (current + 8)

-- `current->next = node`
pub set_next : Machine → Option ℕ → ℕ → Machine
set_next s none node = record s { heap_head = node }
set_next s (some current) node = record s { mem = store64 s.mem (current + 8) node }

-- What is left of the block goes back to the list, and the header takes the size that is asked for.
pub carve : Machine → (ret size : ℕ) → Machine
unfolding insert_node
carve s ret size =
    let required_size = add64 node_size size in
    let node_top = add64 (add64 ret node_size) size in
    let extra_size = sub64 (load64 s.mem ret) required_size in
    let s' = if extra_size == 0 then s else insert_node s node_top extra_size in
    record s' { mem = store64 s'.mem ret required_size }

-- The two tests on the block that `current->next` points to.
pub fits : Machine → (node size : ℕ) → Bool
fits s node size = ltb size (load64 s.mem node) && leb (add64 node_size size) (load64 s.mem node)

-- FindSuitableNode from `current` on. The address 0 is a null pointer.
unfoldable pub find_from :
    (fuel hhdm : ℕ) → Machine → (size : ℕ) → (current : Option ℕ) → Option (Machine × ℕ)
unfolding next_of set_next carve fits expand_heap
find_from zero hhdm s size current = none
find_from (suc fuel) hhdm s size current =
    let node = next_of s current in
    let grown = expand_heap hhdm s 10 in
    let again = find_from fuel hhdm grown.0 size none in
    let onward = find_from fuel hhdm s size (some node) in
    let found = carve (set_next s current (load64 s.mem (node + 8))) node size in
    if node == 0
    then if grown.1 == 0 then some (grown.0, 0) else again
    else (if fits s node size then some (found, node) else onward)

-- A heap size below one page asks for 2 ^ 64 - 1 pages and more.
unfoldable pub initialize_heap : (hhdm : ℕ) → Machine → (heap_size : ℕ) → Machine
unfolding expand_heap
initialize_heap hhdm s heap_size =
    if heap_size == 0 then s else (expand_heap hhdm s (heap_size / 4096)).0

unfoldable pub allocate : (fuel hhdm : ℕ) → Machine → (size : ℕ) → Option (Machine × ℕ)
unfolding find_from
allocate fuel hhdm s size = elim (find_from fuel hhdm s size none) [
  | none ↦ none
  | some (s', node) ↦ some (s', add64 node node_size)
]

unfoldable pub free : Machine → (base : ℕ) → Machine
unfolding insert_node
free s base = let node = sub64 base node_size in insert_node s node (load64 s.mem node)

unfoldable pub reallocate : (fuel hhdm : ℕ) → Machine → (object new_size : ℕ) → Option (Machine × ℕ)
reallocate fuel hhdm s object new_size =
    let node = sub64 object node_size in
    let old_size = sub64 (load64 s.mem node) node_size in
    elim (allocate fuel hhdm s new_size) [
      | none ↦ none
      | some (s', new_object) ↦
          if new_object == 0
          then some (s', new_object)
          else (some (
            free (record s' { mem = memcpy s'.mem new_object object old_size }) object,
            new_object,
          ))
    ]
