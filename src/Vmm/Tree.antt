-- ===== src/Vmm/Tree.antt =====
-- The page tables as a tree: which tables a path of indices reaches, and what its last entry is.
use system.Base.{
  ℕ, ◌*◌, ◌^◌, ◌≤◌, ◌<◌, ◌≡◌, refl, arith, List, [], ◌∷◌, ◌++◌, length, length-append, All, ◌==◌,
  if◌then◌else◌,
}
use system.Memory.{Memory, load64}
use system.Machine.{hhdm_phys_to_virt}
use system.Blocks.{Blocks, Apart}
use system.Pmm.Invariant.{IsPages}
use system.Vmm.{present, page_size, physical_addr, slot}

abbrev pub word : Memory → (table entry : ℕ) → ℕ
word m table entry = load64 m (slot table entry)

module _ (hhdm : ℕ) where
  -- The table that an entry points to.
  abbrev pub child : ℕ → ℕ
  child e = hhdm_phys_to_virt hhdm (physical_addr e * 2 ^ 12)

  -- From table `u` the indices lead through present entries to table `x`.
  abbrev pub Reach : Memory → ℕ → List ℕ → ℕ → Type 0
  Reach m u [] x = u ≡ x
  Reach m u (j ∷ js) x = (present (word m u j) ≡ 1) × Reach m (child (word m u j)) js x

  -- The entry at the end of a path from table `u`, and 0 if an entry on the way there is not
  -- present.
  abbrev pub view : Memory → ℕ → List ℕ → ℕ
  view m u [] = 0
  view m u (j ∷ []) = word m u j
  view m u (j ∷ k ∷ ks) =
      let rest = view m (child (word m u j)) (k ∷ ks) in
      if present (word m u j) == 0 then 0 else rest

-- A path to a table: at most three indices, each below 512.
abbrev pub IsPath : List ℕ → Type 0
IsPath js = (length js ≤ 3) × All (λ j. j < 512) js

-- The tables that can be reached from `root` are whole pages in the direct map, no two paths share
-- one, and none meets a free block. An entry that is not present is empty, and no entry above the
-- lowest level is a large page.
pub record Tables (hhdm : ℕ) (m : Memory) (root : ℕ) (bs : Blocks) : Type 0 where
  pub page : (js : List ℕ) (x : ℕ) → IsPath js → Reach hhdm m root js x → IsPages hhdm x 4096
  pub unique :
      (js ks : List ℕ) (x : ℕ)
      → IsPath js
      → IsPath ks
      → Reach hhdm m root js x
      → Reach hhdm m root ks x
      → js ≡ ks
  pub free : (js : List ℕ) (x : ℕ) → IsPath js → Reach hhdm m root js x → Apart x 4096 bs
  pub clean :
      (js : List ℕ) (x i : ℕ)
      → IsPath js
      → Reach hhdm m root js x
      → i < 512
      → present (word m x i) ≡ 0
      → word m x i ≡ 0
  pub small :
      (js : List ℕ) (x i : ℕ)
      → IsPath js
      → length js ≤ 2
      → Reach hhdm m root js x
      → i < 512
      → page_size (word m x i) ≡ 0

pub Reach-snoc :
    (hhdm : ℕ) (m : Memory) (js : List ℕ) (u x j : ℕ)
    → Reach hhdm m u js x
    → present (word m x j) ≡ 1
    → Reach hhdm m u (js ++ j ∷ []) (child hhdm (word m x j))
Reach-snoc hhdm m [] u x j r here = rw r (here, refl)
Reach-snoc hhdm m (k ∷ ks) u x j r here =
    (r.0, Reach-snoc hhdm m ks (child hhdm (word m u k)) x j r.1 here)

pub view-snoc :
    (hhdm : ℕ) (m : Memory) (js : List ℕ) (u x j : ℕ)
    → Reach hhdm m u js x
    → view hhdm m u (js ++ j ∷ []) ≡ word m x j
view-snoc hhdm m [] u x j r = rw r
view-snoc hhdm m (k ∷ []) u x j r = rw (r.0, r.1)
view-snoc hhdm m (k ∷ l ∷ ks) u x j r =
    rw r.0 (view-snoc hhdm m (l ∷ ks) (child hhdm (word m u k)) x j r.1)

All-snoc :
    (js : List ℕ) (j : ℕ) → All (λ x. x < 512) js → j < 512 → All (λ x. x < 512) (js ++ j ∷ [])
All-snoc [] j h lt = (lt, tt)
All-snoc (k ∷ ks) j h lt = (h.0, All-snoc ks j h.1 lt)

pub IsPath-snoc :
    (js : List ℕ) (j : ℕ) → IsPath js → length js ≤ 2 → j < 512 → IsPath (js ++ j ∷ [])
IsPath-snoc js j p high lt = (omega (arith, length-append js (j ∷ [])), All-snoc js j p.1 lt)
