-- ===== src/Blocks.antt =====
-- What a free list in memory stands for: a list of disjoint blocks. Both allocators keep such a
-- list, of nodes `{size_t size; Node *next;}` at the start of each free block.
use system.Base.{ℕ, ◌+◌, ◌≤◌, ◌<◌, ◌≡◌, ◌⊎◌, refl, ◌∙◌, ◌^◌, List, [], ◌∷◌, arith}
use system.Memory.{
  Memory, load64, store64, load64-same, load64-store64, load64-store64_apart, store64-frame,
  Outside,
}

-- Address and size of each free block, in the order of the list.
abbrev pub Blocks : Type 0
Blocks = List (ℕ × ℕ)

-- From `p` the `next` pointers lead through nodes at these addresses with these sizes.
abbrev pub Chain : Memory → ℕ → Blocks → Type 0
Chain m p [] = p ≡ 0
Chain m p ((a, n) ∷ bs) = (p ≡ a) × (load64 m a ≡ n) × Chain m (load64 m (a + 8)) bs

-- The `n` bytes from `a` on meet none of the blocks.
abbrev pub Apart : ℕ → ℕ → Blocks → Type 0
Apart a n [] = Unit
Apart a n ((b, k) ∷ bs) = ((a + n ≤ b) ⊎ (b + k ≤ a)) × Apart a n bs

-- No two of the blocks meet.
abbrev pub AllApart : Blocks → Type 0
AllApart [] = Unit
AllApart ((a, n) ∷ bs) = Apart a n bs × AllApart bs

-- Each block has room for its node.
abbrev pub AllRoomy : Blocks → Type 0
AllRoomy [] = Unit
AllRoomy ((a, n) ∷ bs) = (16 ≤ n) × AllRoomy bs

-- `m'` differs from `m` at most at the `n` addresses from `a` on.
abbrev pub ChangedOnly : ℕ → ℕ → Memory → Memory → Type 0
ChangedOnly a n m m' = (b : ℕ) → Outside b a n → m' b ≡ m b

-- The bytes that the blocks hold together.
unfoldable pub total : Blocks → ℕ
total [] = 0
total ((a, n) ∷ bs) = n + total bs

-- A part of a range is apart from what the range is apart from.
pub Apart-part : (bs : Blocks) (a n b k : ℕ) → a ≤ b → b + k ≤ a + n → Apart a n bs → Apart b k bs
Apart-part [] a n b k lo hi u = tt
Apart-part ((c, l) ∷ bs) a n b k lo hi u = (omega arith, Apart-part bs a n b k lo hi u.1)

-- What is apart from a range is outside it, and the other way round.
pub Apart-range :
    (x k a n : ℕ) → (x + k ≤ a) ⊎ (a + n ≤ x) → (b : ℕ) → x ≤ b → b < x + k → Outside b a n
Apart-range x k a n u b lo hi = omega arith

-- A list survives a change apart from its blocks.
pub Chain-frame :
    (bs : Blocks) {m m' : Memory} (p a n : ℕ)
    → ChangedOnly a n m m'
    → Apart a n bs
    → AllRoomy bs
    → Chain m p bs
    → Chain m' p bs
Chain-frame [] p a n same u r c = c
Chain-frame ((b, k) ∷ bs) {m} {m'} p a n same u r c =
    let size = load64-same m m' b (λ x lo hi. same x (omega arith)) in
    let next = load64-same m m' (b + 8) (λ x lo hi. same x (omega arith)) in
    (c.0, rw size c.1, rw next (Chain-frame bs (load64 m (b + 8)) a n same u.1 r.1 c.2))

-- `node->size = size; node->next = next;`
unfoldable pub write_node : Memory → (node size next : ℕ) → Memory
write_node m node size next = store64 (store64 m node size) (node + 8) next

pub write_node-changed : (m : Memory) (a n q : ℕ) → ChangedOnly a 16 m (write_node m a n q)
unfolding write_node
write_node-changed m a n q b out =
    store64-frame (store64 m a n) (a + 8) q b (omega arith) ∙ store64-frame m a n b (omega arith)

pub write_node-size : (m : Memory) (a n q : ℕ) → n < 2 ^ 64 → load64 (write_node m a n q) a ≡ n
unfolding write_node
write_node-size m a n q fits =
    load64-store64_apart (store64 m a n) (a + 8) q a (omega arith) ∙ load64-store64 m a n fits

pub write_node-next :
    (m : Memory) (a n q : ℕ) → q < 2 ^ 64 → load64 (write_node m a n q) (a + 8) ≡ q
unfolding write_node
write_node-next m a n q fits = load64-store64 (store64 m a n) (a + 8) q fits

-- A new node in front of a list.
pub Chain-write_node :
    (bs : Blocks) (m : Memory) (a n q : ℕ)
    → 16 ≤ n
    → n < 2 ^ 64
    → q < 2 ^ 64
    → Apart a n bs
    → AllRoomy bs
    → Chain m q bs
    → Chain (write_node m a n q) a ((a, n) ∷ bs)
Chain-write_node bs m a n q roomy fits fits' u r c = (
  refl,
  write_node-size m a n q fits,
  rw (write_node-next m a n q fits') (
      Chain-frame bs q a 16 (write_node-changed m a n q)
        (Apart-part bs a n a 16 (omega arith) (omega arith) u) r c),
)
