-- ===== src/Heap/Carve.antt =====
-- A block that is carved up.
use system.Base.{
  ℕ, ◌+◌, ◌-◌, ◌^◌, ◌≤◌, ◌<◌, ◌≡◌, ◌⊎◌, inl, inr, refl, ◌∙◌, arith, [], ◌∷◌, ◌++◌, ◌==◌,
  if◌then◌else◌, ==-false, add64, sub64,
}
use system.Memory.{load64, store64, load64-store64, store64-frame}
use system.Machine.{Machine}
use system.Blocks.{Blocks, Apart, ChangedOnly, Apart-part}
use system.Heap.Lists.{IsBlock, HeapList, HeapList-frame, insert_node-HeapList, insert_node-changed}
use system.Heap.{node_size, insert_node, carve}

-- What is left of a block after `size` bytes and their header.
abbrev pub remainder : (a n size : ℕ) → Blocks
remainder a n size = if n - (16 + size) == 0 then [] else (a + 16 + size, n - (16 + size)) ∷ []

-- The block is as large as is asked for with its header, or larger by a header at least.
abbrev pub Splits : (n size : ℕ) → Type 0
Splits n size = (n ≡ 16 + size) ⊎ (16 + size + 16 ≤ n)

carve-exact :
    (s : Machine) (a n size : ℕ)
    → load64 s.mem a ≡ n
    → n < 2 ^ 64
    → n ≡ 16 + size
    → carve s a size ≡ record s { mem = store64 s.mem a n }
unfolding carve
carve-exact s a n size e fits exact =
    let r : add64 node_size size ≡ n = omega arith in
    let z : sub64 n n ≡ 0 = omega arith in rw (e, r, z)

pub carve-more :
    (s : Machine) (a n size : ℕ)
    → load64 s.mem a ≡ n
    → a + n < 2 ^ 64
    → 16 + size < n
    → carve s a size ≡ record (insert_node s (a + 16 + size) (n - (16 + size))) {
      mem = store64 (insert_node s (a + 16 + size) (n - (16 + size))).mem a (16 + size);
    }
unfolding carve
carve-more s a n size e fits more =
    let r : add64 node_size size ≡ 16 + size = omega arith in
    let t : add64 (add64 a node_size) size ≡ a + 16 + size = omega arith in
    let x : sub64 n (16 + size) ≡ n - (16 + size) = omega arith in
    rw (e, r, t, x, ==-false (n - (16 + size)) 0 (omega arith))

-- A block that is out of the list is carved up: the rest goes back, the header says how much is in
-- use, and nothing outside the block is written.
pub record Carved (s : Machine) (a n size : ℕ) (bs : Blocks) (s' : Machine) : Type 0 where
  pub list : HeapList s' (remainder a n size ++ bs)
  pub header : load64 s'.mem a ≡ 16 + size
  pub changed : ChangedOnly a n s.mem s'.mem

pub carve-Carved :
    {s : Machine} (bs : Blocks) (a n size : ℕ)
    → load64 s.mem a ≡ n
    → IsBlock a n
    → Splits n size
    → Apart a n bs
    → HeapList s bs
    → Carved s a n size bs (carve s a size)
carve-Carved {s} bs a n size e b (inl exact) u l =
    let z : n - (16 + size) ≡ 0 = omega arith in
    rw (carve-exact s a n size e (omega arith) exact) (record {
      list = rw z (
          HeapList-frame s (record s { mem = store64 s.mem a n }) bs a 8 refl
            (λ x out. store64-frame s.mem a n x out)
            (Apart-part bs a n a 8 (omega arith) (omega arith) u) l);
      header = load64-store64 s.mem a n (omega arith) ∙ exact;
      changed = λ x out. store64-frame s.mem a n x (omega arith);
    })
carve-Carved {s} bs a n size e b (inr more) u l =
    let top = a + 16 + size in
    let extra = n - (16 + size) in
    let t = insert_node s top extra in
    let inserted =
      insert_node-HeapList bs top extra (omega arith)
        (Apart-part bs a n top extra (omega arith) (omega arith) u) l in
    rw (carve-more s a n size e (omega arith) (omega arith)) (record {
      list = rw (==-false extra 0 (omega arith)) (
          HeapList-frame t (record t { mem = store64 t.mem a (16 + size) }) ((top, extra) ∷ bs) a 8
            refl (λ x out. store64-frame t.mem a (16 + size) x out)
            (omega arith, Apart-part bs a n a 8 (omega arith) (omega arith) u) inserted);
      header = load64-store64 t.mem a (16 + size) (omega arith);
      changed = λ x out.
          store64-frame t.mem a (16 + size) x (omega arith)
          ∙ insert_node-changed s top extra x (omega arith);
    })
