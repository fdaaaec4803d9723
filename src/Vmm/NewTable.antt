-- ===== src/Vmm/NewTable.antt =====
-- The new, empty table that GetNextLevel makes for an empty entry.
use system.Base.{ℕ, ◌+◌, ◌≤◌, ◌<◌, ◌≡◌, inr, ap, ◌∙◌, arith, List, ◌∷◌, length}
use system.Memory.{Memory, load64, load64-same, load64-zero}
use system.Machine.{Machine}
use system.Blocks.{Blocks}
use system.Pmm.Invariant.{IsHhdm, FreeList, split, Apart-split}
use system.Pmm.Pages.{Allocated}
use system.Vmm.{present, slot, link}
use system.Vmm.Entry.{
  linked, present-linked, physical_addr-linked, page_size-linked, link-changed, link-word,
}
use system.Vmm.Tree.{word, child, Reach, IsPath, Tables}
use system.Vmm.Written.{Rewritten}
use system.Vmm.Rewrite.{Tables-rewritten}

-- The situation in which entry `i` of table `t` is empty, and the page at `a` is allocated for it.
pub record NewTable (hhdm : ℕ) (s : Machine) (root : ℕ) (is : List ℕ) (t i a n : ℕ) (bs : Blocks)
    (s' : Machine) (p : ℕ) : Type 0 where
  pub off : IsHhdm hhdm
  pub tables : Tables hhdm s.mem root ((a, n) ∷ bs)
  pub list : FreeList hhdm s ((a, n) ∷ bs)
  pub path : IsPath is
  pub high : length is ≤ 2
  pub below : i < 512
  pub reach : Reach hhdm s.mem root is t
  pub absent : present (word s.mem t i) ≡ 0
  pub got : Allocated hhdm s a n bs (s', p)

module _ {hhdm : ℕ} {s : Machine} {root : ℕ} {is : List ℕ} {t i a n : ℕ} {bs : Blocks}
    {s' : Machine} {p : ℕ} (new : NewTable hhdm s root is t i a n bs s' p) where
  open new use {off, tables, list, path, high, below, reach, absent, got}

  abbrev pub after : Memory
  after = link s'.mem (slot t i) p

  abbrev pub e' : ℕ
  e' = linked p 0

  -- Bytes of the old tables are unchanged, but for the entry.
  old-bytes :
      (js : List ℕ) (x : ℕ)
      → IsPath js
      → Reach hhdm s.mem root js x
      → (b : ℕ) → x ≤ b
      → b < x + 4096
      → s'.mem b ≡ s.mem b
  old-bytes js x q r b lo hi = let u = tables.free js x q r in got.changed b (omega arith)

  entry-empty : load64 s'.mem (slot t i) ≡ 0
  entry-empty =
      load64-same s.mem s'.mem (slot t i)
        (λ b lo hi. old-bytes is t path reach b (omega arith) (omega arith))
      ∙ tables.clean is t i path reach below absent

  pub written : word after t i ≡ e'
  written = link-word s'.mem (slot t i) p ∙ ap (linked p) entry-empty

  pub target : child hhdm e' ≡ a
  target =
      let pages = list.pages.0 in
      omega (
        arith,
        got.page,
        physical_addr-linked p 0 (omega arith),
        pages.above,
        pages.below,
        pages.aligned,
        off.fits,
        off.aligned,
      )

  new-empty : (j : ℕ) → j < 512 → word after (child hhdm e') j ≡ 0
  new-empty j lt =
      let u = tables.free is t path reach in
      rw target (
        load64-zero after (slot a j) (λ b lo hi.
          link-changed s'.mem (slot t i) p b (omega arith)
          ∙ got.zeroed b (omega arith) (omega arith)))

  pub rewritten : Rewritten hhdm s.mem after root is t i e'
  rewritten = record {
    path = path;
    reach = reach;
    below = below;
    same =
        λ js x q r b lo hi out. link-changed s'.mem (slot t i) p b out ∙ old-bytes js x q r b lo hi;
    new = written;
    lit = present-linked p 0;
    kind = inr (absent, new-empty);
  }

  pub new-Tables : Tables hhdm after root (split a n bs)
  new-Tables =
      let page = list.pages.0 in
      Tables-rewritten tables rewritten (split a n bs)
        (λ js x q r. Apart-split bs x 4096 a n (tables.free js x q r))
        (λ _. rw target (omega arith)) (λ _. rw target got.apart)
        (λ js x q r _. let u = tables.free js x q r in omega (arith, target))
        (λ _. page_size-linked p 0)
