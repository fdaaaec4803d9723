-- ===== src/Heap/FirstFit.antt =====
-- Allocate and Free of heap.cpp against the free blocks.
use mathlib.Core.List.{append_assoc}
use system.Base.{
  ℕ, zero, suc, ◌+◌, ◌^◌, ◌≤◌, ◌<◌, ◌≡◌, subst, ◌∙◌, arith, true, false, Option, none, some, [],
  ◌∷◌, ◌++◌, length, ==-false, leb, add64, sub64,
}
use system.Memory.{load64}
use system.Machine.{Machine}
use system.Blocks.{Blocks, Apart, ChangedOnly}
use system.Heap.{node_size, next_of, set_next, carve, fits, find_from, allocate, free}
use system.Heap.Lists.{IsBlock, HeapList, insert_node-HeapList, insert_node-changed, AllBlocks-at}
use system.Heap.Carve.{Splits}
use system.Heap.Serve.{Served, Chain-next, serve_behind, serve_head}

-- The blocks passed are too small for `size` bytes and a header.
abbrev pub AllSmall : ℕ → Blocks → Type 0
AllSmall size [] = Unit
AllSmall size ((a, n) ∷ bs) = (n < 16 + size) × AllSmall size bs

fits-lem :
    (s : Machine) (a n size : ℕ)
    → load64 s.mem a ≡ n
    → 16 + size < 2 ^ 64
    → fits s a size ≡ leb (16 + size) n
unfolding fits
fits-lem s a n size e small = ground arith

pub fits-true :
    (s : Machine) (a n size : ℕ)
    → load64 s.mem a ≡ n
    → n < 2 ^ 64
    → 16 + size ≤ n
    → fits s a size ≡ true
fits-true s a n size e fit room = ground (arith, fits-lem s a n size e (omega arith))

pub fits-false :
    (s : Machine) (a n size : ℕ)
    → load64 s.mem a ≡ n
    → n < 16 + size
    → 16 + size < 2 ^ 64
    → fits s a size ≡ false
fits-false s a n size e small fit = ground (arith, fits-lem s a n size e fit)

pub find_from-skip :
    (fuel hhdm : ℕ) (s : Machine) (size : ℕ) (current : Option ℕ) (b : ℕ)
    → next_of s current ≡ b
    → 0 < b
    → fits s b size ≡ false
    → find_from (suc fuel) hhdm s size current ≡ find_from fuel hhdm s size (some b)
unfolding find_from
find_from-skip fuel hhdm s size current b e h no_room = rw (e, ==-false b 0 (omega arith), no_room)

pub find_from-found :
    (fuel hhdm : ℕ) (s : Machine) (size : ℕ) (current : Option ℕ) (a : ℕ)
    → next_of s current ≡ a
    → 0 < a
    → fits s a size ≡ true
    → find_from (suc fuel) hhdm s size current
      ≡ some (carve (set_next s current (load64 s.mem (a + 8))) a size, a)
unfolding find_from
find_from-found fuel hhdm s size current a e h room = rw (e, ==-false a 0 (omega arith), room)

-- FindSuitableNode ends at the block.
abbrev pub FindsAt :
    (fuel hhdm : ℕ) (s : Machine) (current : Option ℕ) (a n size : ℕ)
    → (before after : Blocks) → Type 0
FindsAt fuel hhdm s current a n size before after =
    (s' : Machine) × (find_from fuel hhdm s size current ≡ some (s', a))
    × Served s a n size before after s'

pub next_at :
    {s : Machine} (d post : Blocks) (c k a n : ℕ)
    → HeapList s (d ++ (c, k) ∷ (a, n) ∷ post)
    → (next_of s (some c) ≡ a) × (load64 s.mem a ≡ n)
unfolding next_of
next_at {s} d post c k a n l =
    let chain = Chain-next d ((a, n) ∷ post) s.mem s.heap_head c k l.chain in (chain.0, chain.1)

search_behind :
    {s : Machine} (fuel hhdm : ℕ) (d pre post : Blocks) (c k a n size : ℕ)
    → length pre < fuel
    → 16 + size < 2 ^ 64
    → AllSmall size pre
    → Splits n size
    → HeapList s (d ++ (c, k) ∷ (pre ++ (a, n) ∷ post))
    → FindsAt fuel hhdm s
        (some c)
        a
        n
        size
        (d ++ (c, k) ∷ (pre ++ (a, n) ∷ post))
        (d ++ (c, k) ∷ (pre ++ post))
search_behind zero hhdm d pre post c k a n size enough size_fits small splits l =
    absurd (omega arith)
search_behind {s} (suc fuel) hhdm d [] post c k a n size enough size_fits small splits l =
    let at_c = next_at d post c k a n l in
    let block =
      AllBlocks-at (d ++ (c, k) ∷ []) post a n
        (rw (append_assoc d ((c, k) ∷ []) ((a, n) ∷ post)) l.blocks) in
    (
      carve (set_next s (some c) (load64 s.mem (a + 8))) a size,
      find_from-found fuel hhdm s size (some c) a at_c.0 (omega arith)
          (fits-true s a n size at_c.1 (omega arith) (omega arith)),
      serve_behind d post c k a n size splits l,
    )
search_behind {s} (suc fuel) hhdm d ((b, m) ∷ pre) post c k a n size enough size_fits small splits
      l =
    let at_c = next_at d (pre ++ (a, n) ∷ post) c k b m l in
    let assoc = append_assoc d ((c, k) ∷ []) in
    let block =
      AllBlocks-at (d ++ (c, k) ∷ []) (pre ++ (a, n) ∷ post) b m
        (rw (assoc ((b, m) ∷ (pre ++ (a, n) ∷ post))) l.blocks) in
    let d' = d ++ (c, k) ∷ [] in
    let moved : HeapList s (d' ++ ((b, m) ∷ (pre ++ (a, n) ∷ post))) =
      rw (append_assoc d ((c, k) ∷ []) ((b, m) ∷ (pre ++ (a, n) ∷ post))) l in
    let found =
      search_behind fuel hhdm d' pre post b m a n size (omega arith) size_fits small.1 splits
        moved in
    let skip =
      find_from-skip fuel hhdm s size (some c) b at_c.0 (omega arith)
        (fits-false s b m size at_c.1 small.0 size_fits) in
    (
      found.0,
      skip ∙ found.1,
      subst (λ bs. Served s a n size bs (d ++ (c, k) ∷ ((b, m) ∷ (pre ++ post))) found.0)
          (append_assoc d ((c, k) ∷ []) ((b, m) ∷ (pre ++ (a, n) ∷ post)))
          (subst (λ bs. Served s a n size (d' ++ ((b, m) ∷ (pre ++ (a, n) ∷ post))) bs found.0)
            (append_assoc d ((c, k) ∷ []) ((b, m) ∷ (pre ++ post))) found.2),
    )

pub allocate-found :
    (s s' : Machine) (fuel hhdm size a : ℕ)
    → a + 16 < 2 ^ 64
    → find_from fuel hhdm s size none ≡ some (s', a)
    → allocate fuel hhdm s size ≡ some (s', a + 16)
unfolding allocate
allocate-found s s' fuel hhdm size a fit e =
    let top : add64 a node_size ≡ a + 16 = omega arith in rw (e, top, allocate)

-- First fit: the first free block with room for the header and `size` bytes is carved up, when it
-- has exactly that room or room for another header; Allocate returns the address after its header.
-- The fuel that this takes is the number of blocks up to it. No byte outside the free blocks is
-- written, the rest of the block is put in front of the free blocks, and those stay a list of
-- disjoint blocks.
pub allocate-first_fit :
    {s : Machine} (fuel hhdm : ℕ) (pre post : Blocks) (a n size : ℕ)
    → length pre < fuel
    → AllSmall size pre
    → Splits n size
    → HeapList s (pre ++ (a, n) ∷ post)
    → (s' : Machine) × (allocate fuel hhdm s size ≡ some (s', a + 16))
      × Served s a n size (pre ++ (a, n) ∷ post) (pre ++ post) s'
unfolding next_of
allocate-first_fit zero hhdm pre post a n size enough small splits l = absurd (omega arith)
allocate-first_fit {s} (suc fuel) hhdm [] post a n size enough small splits l =
    let block = l.blocks.0 in
    let e =
      find_from-found fuel hhdm s size none a l.chain.0 (omega arith)
        (fits-true s a n size l.chain.1 (omega arith) (omega arith)) in
    (
      carve (set_next s none (load64 s.mem (a + 8))) a size,
      allocate-found s _ (suc fuel) hhdm size a (omega arith) e,
      serve_head post a n size splits l,
    )
allocate-first_fit {s} (suc fuel) hhdm ((b, m) ∷ pre) post a n size enough small splits l =
    let here = l.blocks.0 in
    let block = AllBlocks-at ((b, m) ∷ pre) post a n l.blocks in
    let (s', e, r) =
      search_behind fuel hhdm [] pre post b m a n size (omega arith) (omega arith) small.1 splits
        l in
    let skip =
      find_from-skip fuel hhdm s size none b l.chain.0 (omega arith)
        (fits-false s b m size l.chain.1 small.0 (omega arith)) in
    (s', allocate-found s _ (suc fuel) hhdm size a (omega arith) (skip ∙ e), r)

-- Free of an object whose block is apart from the free blocks puts the block, its header included, in front
-- of them, and writes nothing outside it.
pub free-HeapList :
    {s : Machine} (bs : Blocks) (a n : ℕ)
    → load64 s.mem a ≡ n
    → IsBlock a n
    → Apart a n bs
    → HeapList s bs
    → HeapList (free s (a + 16)) ((a, n) ∷ bs) × ChangedOnly a n s.mem (free s (a + 16)).mem
unfolding free
free-HeapList {s} bs a n header b u l =
    let node : sub64 (a + 16) node_size ≡ a = omega arith in
    rw (node, header)
      (insert_node-HeapList bs a n b u l, λ x out. insert_node-changed s a n x (omega arith))
