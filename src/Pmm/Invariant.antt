-- ===== src/Pmm/Invariant.antt =====
-- The free list of pmm.cpp against the list of blocks that it stands for.
use native.Mathlib.Decide.{dec_lt}
use system.Base.{
  ℕ, ◌+◌, ◌-◌, ◌%◌, ◌^◌, ◌≤◌, ◌<◌, ◌≡◌, refl, ◌∙◌, arith, ltb, lt→ltb, ltb-false, add64-eq,
  sub64-eq, [], ◌∷◌, if◌then◌else◌,
}
use system.Memory.{Memory, load64, store64, store64-frame}
use system.Machine.{Machine}
use system.Blocks.{
  Blocks, Chain, Apart, AllApart, AllRoomy, ChangedOnly, Chain-frame, Chain-write_node,
  write_node-changed, Apart-part,
}
use system.Pmm.{insert_node, split_page, remove_page}

-- Blocks are made of whole pages, and lie in the direct map of the first 2 ^ 52 bytes, above the
-- physical page 0, whose address callers would take for a null pointer.
pub record IsPages (hhdm a n : ℕ) : Type 0 where
  pub aligned : a % 4096 ≡ 0
  pub whole : n % 4096 ≡ 0
  pub some_page : 4096 ≤ n
  pub above : hhdm < a
  pub below : a + n ≤ hhdm + 2 ^ 52

abbrev pub AllPages : ℕ → Blocks → Type 0
AllPages hhdm [] = Unit
AllPages hhdm ((a, n) ∷ bs) = IsPages hhdm a n × AllPages hhdm bs

-- The direct map starts at a page boundary above 0 and does not wrap around.
pub record IsHhdm (hhdm : ℕ) : Type 0 where
  pub aligned : hhdm % 4096 ≡ 0
  pub high : 0 < hhdm
  pub fits : hhdm + 2 ^ 52 < 2 ^ 64

-- The first block after a page is taken from it.
abbrev pub split : ℕ → ℕ → Blocks → Blocks
split a n bs = if ltb 4096 n then (a + 4096, n - 4096) ∷ bs else bs

-- What is apart from a block is apart from what is left of it.
pub Apart-split : (bs : Blocks) (x k a n : ℕ) → Apart x k ((a, n) ∷ bs) → Apart x k (split a n bs)
Apart-split bs x k a n u = ground arith

-- The free list of the machine stands for these blocks.
pub record FreeList (hhdm : ℕ) (s : Machine) (bs : Blocks) : Type 0 where
  pub chain : Chain s.mem s.page_head bs
  pub pages : AllPages hhdm bs
  pub apart : AllApart bs

pub AllPages-roomy : (hhdm : ℕ) (bs : Blocks) → AllPages hhdm bs → AllRoomy bs
AllPages-roomy hhdm [] p = tt
AllPages-roomy hhdm ((a, n) ∷ bs) p = (omega arith, AllPages-roomy hhdm bs p.1)

pub Chain-lt :
    (hhdm : ℕ) (m : Memory) (p : ℕ) (bs : Blocks)
    → IsHhdm hhdm
    → AllPages hhdm bs
    → Chain m p bs
    → p < 2 ^ 64
Chain-lt hhdm m p [] off pages c = omega arith
Chain-lt hhdm m p ((a, n) ∷ bs) off pages c = omega arith

-- What `remove_page` leaves behind when the list starts with the block of `n` bytes at `a`.
pub record Removed (hhdm : ℕ) (s : Machine) (a n : ℕ) (bs : Blocks) (r : Machine × ℕ) : Type 0 where
  pub page : r.1 ≡ a
  pub rest : FreeList hhdm r.0 (split a n bs)
  pub changed : ChangedOnly a n s.mem r.0.mem
  pub kept : r.0 ≡ record s { mem = r.0.mem; page_head = r.0.page_head }

remove_page-at :
    (s : Machine) (a : ℕ)
    → s.page_head ≡ a
    → 0 < a
    → remove_page s ≡ (split_page (record s { page_head = load64 s.mem (a + 8) }) a, a)
unfolding remove_page
remove_page-at s a e h = ground arith

split_page-kept :
    (s : Machine) (a : ℕ)
    → split_page s a
      ≡ record s { mem = (split_page s a).mem; page_head = (split_page s a).page_head }
unfolding split_page
split_page-kept s a = ground arith

split_page-large :
    (s : Machine) (a n : ℕ)
    → load64 s.mem a ≡ n
    → 4096 < n
    → n < 2 ^ 64
    → a + 4096 < 2 ^ 64
    → split_page s a ≡ record (insert_node s (a + 4096) (n - 4096)) {
      mem = store64 (insert_node s (a + 4096) (n - 4096)).mem a 4096;
    }
unfolding split_page
split_page-large s a n size large fits fits' =
    rw (size, lt→ltb 4096 n large, add64-eq a 4096 fits', sub64-eq n 4096 fits (omega arith))

split_page-small : (s : Machine) (a n : ℕ) → load64 s.mem a ≡ n → n ≤ 4096 → split_page s a ≡ s
unfolding split_page
split_page-small s a n size small = ground arith

-- A free list survives a change apart from its blocks.
pub FreeList-frame :
    (hhdm : ℕ) (s s' : Machine) (bs : Blocks) (c k : ℕ)
    → s'.page_head ≡ s.page_head
    → ChangedOnly c k s.mem s'.mem
    → Apart c k bs
    → FreeList hhdm s bs
    → FreeList hhdm s' bs
FreeList-frame hhdm s s' bs c k head same u l = record {
  chain = rw head (Chain-frame bs s.page_head c k same u (AllPages-roomy hhdm bs l.pages) l.chain);
  pages = l.pages;
  apart = l.apart;
}

insert_node-changed : (s : Machine) (a n : ℕ) → ChangedOnly a 16 s.mem (insert_node s a n).mem
unfolding insert_node
insert_node-changed s a n = write_node-changed s.mem a n s.page_head

module _ {hhdm : ℕ} (off : IsHhdm hhdm) {s : Machine} where
  -- A block that meets no free block is added in front.
  pub insert_node-FreeList :
      (bs : Blocks) (a n : ℕ)
      → IsPages hhdm a n
      → Apart a n bs
      → FreeList hhdm s bs
      → FreeList hhdm (insert_node s a n) ((a, n) ∷ bs)
  unfolding insert_node
  insert_node-FreeList bs a n p u l = record {
    chain =
        Chain-write_node bs s.mem a n s.page_head (omega arith) (omega arith)
          (Chain-lt hhdm s.mem s.page_head bs off l.pages l.chain) u
          (AllPages-roomy hhdm bs l.pages) l.chain;
    pages = (p, l.pages);
    apart = (u, l.apart);
  }

  pub split_page-FreeList :
      (bs : Blocks) (a n : ℕ)
      → load64 s.mem a ≡ n
      → IsPages hhdm a n
      → Apart a n bs
      → FreeList hhdm s bs
      → FreeList hhdm (split_page s a) (split a n bs) × ChangedOnly a n s.mem (split_page s a).mem
  split_page-FreeList bs a n size p u l = elim (dec_lt 4096 n) [
    | no small ↦
        rw (split_page-small s a n size (omega arith), ltb-false 4096 n (omega arith))
          (l, λ b out. refl)
    | yes large ↦
        let s' = insert_node s (a + 4096) (n - 4096) in
        let inserted =
          insert_node-FreeList bs (a + 4096) (n - 4096) (omega arith)
            (Apart-part bs a n (a + 4096) (n - 4096) (omega arith) (omega arith) u) l in
        rw (split_page-large s a n size large (omega arith) (omega arith), lt→ltb 4096 n large)
          (
            FreeList-frame hhdm s' (record s' { mem = store64 s'.mem a 4096 })
                ((a + 4096, n - 4096) ∷ bs) a 8 refl (λ b out. store64-frame s'.mem a 4096 b out)
                (omega arith, Apart-part bs a n a 8 (omega arith) (omega arith) u) inserted,
            λ b out.
                store64-frame s'.mem a 4096 b (omega arith)
                ∙ insert_node-changed s (a + 4096) (n - 4096) b (omega arith),
          )
  ]

pub remove_page-Removed :
    {hhdm : ℕ} {s : Machine} (bs : Blocks) (a n : ℕ)
    → IsHhdm hhdm
    → FreeList hhdm s ((a, n) ∷ bs)
    → Removed hhdm s a n bs (remove_page s)
remove_page-Removed {hhdm} {s} bs a n off l =
    let t = record s { page_head = load64 s.mem (a + 8) } in
    let tail : FreeList hhdm t bs = record {
      chain = l.chain.2;
      pages = l.pages.1;
      apart = l.apart.1;
    } in
    let unlinked = split_page-FreeList off {s = t} bs a n l.chain.1 l.pages.0 l.apart.0 tail in
    rw (remove_page-at s a l.chain.0 (omega arith))
      (record { page = refl; rest = unlinked.0; changed = unlinked.1; kept = split_page-kept t a })
