-- ===== src/Heap/Lists.antt =====
-- The free list of the heap against the list of blocks that it stands for.
use mathlib.Core.List.{append_assoc}
use system.Base.{ℕ, ◌+◌, ◌^◌, ◌≤◌, ◌<◌, ◌≡◌, ◌⊎◌, ◌∙◌, arith, Option, none, some, [], ◌∷◌, ◌++◌}
use system.Memory.{
  Memory, load64, store64, load64-store64, load64-store64_apart, load64-lt, store64-frame,
}
use system.Machine.{Machine}
use system.Blocks.{
  Blocks, Chain, Apart, AllApart, AllRoomy, ChangedOnly, Apart-part, Chain-frame,
  write_node-changed, Chain-write_node,
}
use system.Heap.{insert_node, set_next}

-- A block of the heap has room for its header, and does not reach the end of the address space.
abbrev pub IsBlock : ℕ → ℕ → Type 0
IsBlock a n = (0 < a) × (16 ≤ n) × (a + n < 2 ^ 64)

abbrev pub AllBlocks : Blocks → Type 0
AllBlocks [] = Unit
AllBlocks ((a, n) ∷ bs) = IsBlock a n × AllBlocks bs

pub record HeapList (s : Machine) (bs : Blocks) : Type 0 where
  pub chain : Chain s.mem s.heap_head bs
  pub blocks : AllBlocks bs
  pub apart : AllApart bs

pub AllBlocks-roomy : (bs : Blocks) → AllBlocks bs → AllRoomy bs
AllBlocks-roomy [] h = tt
AllBlocks-roomy ((a, n) ∷ bs) h = (omega arith, AllBlocks-roomy bs h.1)

pub Chain-lt : (m : Memory) (p : ℕ) (bs : Blocks) → AllBlocks bs → Chain m p bs → p < 2 ^ 64
Chain-lt m p [] h c = omega arith
Chain-lt m p ((a, n) ∷ bs) h c = omega arith

-- A free list survives a change apart from its blocks.
pub HeapList-frame :
    (s s' : Machine) (bs : Blocks) (c k : ℕ)
    → s'.heap_head ≡ s.heap_head
    → ChangedOnly c k s.mem s'.mem
    → Apart c k bs
    → HeapList s bs
    → HeapList s' bs
HeapList-frame s s' bs c k head same u l = record {
  chain = rw head (Chain-frame bs s.heap_head c k same u (AllBlocks-roomy bs l.blocks) l.chain);
  blocks = l.blocks;
  apart = l.apart;
}

pub insert_node-changed : (s : Machine) (a n : ℕ) → ChangedOnly a 16 s.mem (insert_node s a n).mem
unfolding insert_node
insert_node-changed s a n = write_node-changed s.mem a n s.heap_head

pub insert_node-HeapList :
    {s : Machine} (bs : Blocks) (a n : ℕ)
    → IsBlock a n
    → Apart a n bs
    → HeapList s bs
    → HeapList (insert_node s a n) ((a, n) ∷ bs)
unfolding insert_node
insert_node-HeapList {s} bs a n b u l = record {
  chain =
      Chain-write_node bs s.mem a n s.heap_head (omega arith) (omega arith)
        (Chain-lt s.mem s.heap_head bs l.blocks l.chain) u (AllBlocks-roomy bs l.blocks) l.chain;
  blocks = (b, l.blocks);
  apart = (u, l.apart);
}

-- The block at `a` is taken out of the list.
pub Apart-remove :
    (pre post : Blocks) (x k a n : ℕ) → Apart x k (pre ++ (a, n) ∷ post) → Apart x k (pre ++ post)
Apart-remove [] post x k a n u = u.1
Apart-remove (b ∷ pre) post x k a n u = (u.0, Apart-remove pre post x k a n u.1)

pub AllApart-remove :
    (pre post : Blocks) (a n : ℕ) → AllApart (pre ++ (a, n) ∷ post) → AllApart (pre ++ post)
AllApart-remove [] post a n u = u.1
AllApart-remove ((b, k) ∷ pre) post a n u =
    (Apart-remove pre post b k a n u.0, AllApart-remove pre post a n u.1)

pub Apart-at :
    (pre post : Blocks) (x k a n : ℕ) → Apart x k (pre ++ (a, n) ∷ post) → (x + k ≤ a) ⊎ (a + n ≤ x)
Apart-at [] post x k a n u = u.0
Apart-at (b ∷ pre) post x k a n u = Apart-at pre post x k a n u.1

pub Apart-removed :
    (pre post : Blocks) (a n : ℕ) → AllApart (pre ++ (a, n) ∷ post) → Apart a n (pre ++ post)
Apart-removed [] post a n u = u.0
Apart-removed ((b, k) ∷ pre) post a n u =
    let meet = Apart-at pre post b k a n u.0 in (omega arith, Apart-removed pre post a n u.1)

pub AllBlocks-remove :
    (pre post : Blocks) (a n : ℕ) → AllBlocks (pre ++ (a, n) ∷ post) → AllBlocks (pre ++ post)
AllBlocks-remove [] post a n h = h.1
AllBlocks-remove (b ∷ pre) post a n h = (h.0, AllBlocks-remove pre post a n h.1)

pub AllBlocks-at : (pre post : Blocks) (a n : ℕ) → AllBlocks (pre ++ (a, n) ∷ post) → IsBlock a n
AllBlocks-at [] post a n h = h.0
AllBlocks-at (b ∷ pre) post a n h = AllBlocks-at pre post a n h.1

-- The node at the end of the blocks passed, `none` for the list's head.
abbrev pub last_of : Option ℕ → Blocks → Option ℕ
last_of current [] = current
last_of current ((a, n) ∷ bs) = last_of (some a) bs

-- The size in the header of a block in the list, and the pointer that leads to it.
pub Chain-at :
    (pre post : Blocks) (m : Memory) (p a n : ℕ) → Chain m p (pre ++ (a, n) ∷ post) → load64 m a ≡ n
Chain-at [] post m p a n c = c.1
Chain-at ((b, k) ∷ pre) post m p a n c = Chain-at pre post m (load64 m (b + 8)) a n c.2

-- `current->next = current->next->next`, in the memory.
unlink_memory :
    (pre post : Blocks) (m : Memory) (p c k a n : ℕ)
    → AllBlocks (pre ++ (c, k) ∷ (a, n) ∷ post)
    → AllApart (pre ++ (c, k) ∷ (a, n) ∷ post)
    → Chain m p (pre ++ (c, k) ∷ (a, n) ∷ post)
    → Chain (store64 m (c + 8) (load64 m (a + 8))) p (pre ++ (c, k) ∷ post)
unlink_memory [] post m p c k a n h u chain =
    let v = load64 m (a + 8) in
    (
      chain.0,
      load64-store64_apart m (c + 8) v c (omega arith) ∙ chain.1,
      rw (load64-store64 m (c + 8) v (load64-lt m (a + 8))) (
          Chain-frame post v (c + 8) 8 (λ b out. store64-frame m (c + 8) v b out)
            (Apart-part post c k (c + 8) 8 (omega arith) (omega arith) u.0.1)
            (AllBlocks-roomy post h.1.1) chain.2.2),
    )
unlink_memory ((b, l) ∷ pre) post m p c k a n h u chain =
    let v = load64 m (a + 8) in
    let meet = Apart-at pre ((a, n) ∷ post) b l c k u.0 in
    let other = AllBlocks-at pre ((a, n) ∷ post) c k h.1 in
    let here = h.0 in
    (
      chain.0,
      load64-store64_apart m (c + 8) v b (omega arith) ∙ chain.1,
      rw (load64-store64_apart m (c + 8) v (b + 8) (omega arith))
          (unlink_memory pre post m (load64 m (b + 8)) c k a n h.1 u.1 chain.2),
    )

-- Taking the block at `a` out of the list, at the list's head.
pub unlink_head :
    {s : Machine} (post : Blocks) (a n : ℕ)
    → HeapList s ((a, n) ∷ post)
    → HeapList (set_next s none (load64 s.mem (a + 8))) post
unfolding set_next
unlink_head post a n l = record { chain = l.chain.2; blocks = l.blocks.1; apart = l.apart.1 }

-- And behind the node at `c`.
pub unlink_behind :
    {s : Machine} (pre post : Blocks) (c k a n : ℕ)
    → HeapList s (pre ++ (c, k) ∷ (a, n) ∷ post)
    → HeapList (set_next s (some c) (load64 s.mem (a + 8))) (pre ++ (c, k) ∷ post)
unfolding set_next
unlink_behind {s} pre post c k a n l = record {
  chain = unlink_memory pre post s.mem s.heap_head c k a n l.blocks l.apart l.chain;
  blocks = rw (append_assoc pre ((c, k) ∷ []) post) at (
      AllBlocks-remove (pre ++ (c, k) ∷ []) post a n
        (rw (append_assoc pre ((c, k) ∷ []) ((a, n) ∷ post)) l.blocks));
  apart = rw (append_assoc pre ((c, k) ∷ []) post) at (
      AllApart-remove (pre ++ (c, k) ∷ []) post a n
        (rw (append_assoc pre ((c, k) ∷ []) ((a, n) ∷ post)) l.apart));
}
