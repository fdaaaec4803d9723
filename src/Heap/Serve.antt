-- ===== src/Heap/Serve.antt =====
-- What is left of the heap when a block of the list has been handed out.
use mathlib.Core.List.{append_assoc}
use system.Base.{ℕ, ◌+◌, ◌≤◌, ◌≡◌, ◌⊎◌, ◌∙◌, arith, none, some, [], ◌∷◌, ◌++◌}
use system.Memory.{Memory, load64, Outside, load64-store64_apart, store64-frame}
use system.Machine.{Machine}
use system.Blocks.{Blocks, Chain, AllApart}
use system.Heap.{set_next, carve}
use system.Heap.Lists.{HeapList, AllBlocks-at, Apart-removed, unlink_head, unlink_behind}
use system.Heap.Carve.{remainder, Splits, carve-Carved}

-- The address is in none of the blocks.
abbrev pub OutsideAll : ℕ → Blocks → Type 0
OutsideAll x [] = Unit
OutsideAll x ((a, n) ∷ bs) = Outside x a n × OutsideAll x bs

-- The block at `a` was handed out for `size` bytes: what is left of it is in the list with the blocks
-- `after`, its header holds the size with the header, and no byte outside the blocks that were free
-- `before` is written.
pub record Served (s : Machine) (a n size : ℕ) (before after : Blocks) (s' : Machine) : Type 0 where
  pub list : HeapList s' (remainder a n size ++ after)
  pub header : load64 s'.mem a ≡ 16 + size
  pub untouched : (x : ℕ) → OutsideAll x before → s'.mem x ≡ s.mem x

OutsideAll-at :
    (pre post : Blocks) (x a n : ℕ) → OutsideAll x (pre ++ (a, n) ∷ post) → Outside x a n
OutsideAll-at [] post x a n out = out.0
OutsideAll-at (b ∷ pre) post x a n out = OutsideAll-at pre post x a n out.1

pub Chain-next :
    (d bs : Blocks) (m : Memory) (p c k : ℕ)
    → Chain m p (d ++ (c, k) ∷ bs)
    → Chain m (load64 m (c + 8)) bs
Chain-next [] bs m p c k chain = chain.2
Chain-next ((b, l) ∷ d) bs m p c k chain = Chain-next d bs m (load64 m (b + 8)) c k chain.2

AllApart-next :
    (d post : Blocks) (c k a n : ℕ)
    → AllApart (d ++ (c, k) ∷ (a, n) ∷ post)
    → (c + k ≤ a) ⊎ (a + n ≤ c)
AllApart-next [] post c k a n u = u.0.0
AllApart-next (b ∷ d) post c k a n u = AllApart-next d post c k a n u.1

pub serve_behind :
    {s : Machine} (d post : Blocks) (c k a n size : ℕ)
    → Splits n size
    → HeapList s (d ++ (c, k) ∷ (a, n) ∷ post)
    → Served s a n size
        (d ++ (c, k) ∷ (a, n) ∷ post)
        (d ++ (c, k) ∷ post)
        (carve (set_next s (some c) (load64 s.mem (a + 8))) a size)
unfolding set_next
serve_behind {s} d post c k a n size splits l =
    let v = load64 s.mem (a + 8) in
    let meet = AllApart-next d post c k a n l.apart in
    let block =
      AllBlocks-at (d ++ (c, k) ∷ []) post a n
        (rw (append_assoc d ((c, k) ∷ []) ((a, n) ∷ post)) l.blocks) in
    let here = AllBlocks-at d ((a, n) ∷ post) c k l.blocks in
    let free =
      Apart-removed (d ++ (c, k) ∷ []) post a n
        (rw (append_assoc d ((c, k) ∷ []) ((a, n) ∷ post)) l.apart) in
    let chain = Chain-next d ((a, n) ∷ post) s.mem s.heap_head c k l.chain in
    let r =
      carve-Carved (d ++ (c, k) ∷ post) a n size
        (load64-store64_apart s.mem (c + 8) v a (omega arith) ∙ chain.1) block splits
        (rw (append_assoc d ((c, k) ∷ []) post) at free) (unlink_behind d post c k a n l) in
    record {
      list = r.list;
      header = r.header;
      untouched = λ x out.
          let out_a = OutsideAll-at d ((a, n) ∷ post) x c k out in
          r.changed x (
            OutsideAll-at (d ++ (c, k) ∷ []) post x a n
              (rw (append_assoc d ((c, k) ∷ []) ((a, n) ∷ post)) out))
          ∙ store64-frame s.mem (c + 8) v x (omega arith);
    }

pub serve_head :
    {s : Machine} (post : Blocks) (a n size : ℕ)
    → Splits n size
    → HeapList s ((a, n) ∷ post)
    → Served s a n size ((a, n) ∷ post) post (carve (set_next s none (load64 s.mem (a + 8))) a size)
unfolding set_next
serve_head {s} post a n size splits l =
    let r =
      carve-Carved post a n size l.chain.1 l.blocks.0 splits l.apart.0 (unlink_head post a n l) in
    record { list = r.list; header = r.header; untouched = λ x out. r.changed x out.0 }
