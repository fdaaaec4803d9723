-- ===== src/Vmm/Descend.antt =====
-- GetNextLevel of vmm.cpp: one step down the tree, which makes the table if there is none.
use system.Base.{
  ℕ, suc, ◌%◌, ◌≤◌, ◌<◌, ◌≡◌, ◌≢◌, ◌⊎◌, inl, inr, refl, ap, subst, ◌∙◌, arith, List, [], ◌∷◌, ◌++◌,
  length, All, ==-false,
}
use system.Machine.{Machine, hhdm_phys_to_virt}
use system.Blocks.{Blocks, Apart-part}
use system.Pmm.{allocate_page}
use system.Pmm.Invariant.{IsHhdm, FreeList, FreeList-frame, split, Apart-split}
use system.Pmm.Pages.{allocate_page-Allocated}
use system.Pmm.Stack.{pages, pages-split, pages-nil}
use system.Vmm.{present, page_size, slot, link, get_next_level}
use system.Vmm.Entry.{present-linked, page_size-linked, link-changed}
use system.Vmm.Tree.{word, child, Reach, view, IsPath, Tables, Reach-snoc, view-snoc, IsPath-snoc}
use system.Vmm.Written.{present-cases}
use system.Vmm.Rewrite.{view-new, view-other, Reach-rewritten}
use system.Vmm.NewTable.{NewTable, new-Tables, rewritten, target, written}

-- The page tables under `root` are a tree, and at least `k` pages are free.
pub record Paging (hhdm : ℕ) (s : Machine) (root k : ℕ) : Type 0 where
  pub blocks : Blocks
  pub list : FreeList hhdm s blocks
  pub tables : Tables hhdm s.mem root blocks
  pub enough : k ≤ length (pages hhdm blocks)

-- What one step down leaves behind, and the table that it returns.
pub record Descended (hhdm : ℕ) (s : Machine) (root k : ℕ) (is : List ℕ) (i : ℕ) (r : Machine × ℕ)
    : Type 0 where
  pub paging : Paging hhdm r.0 root k
  pub reach : Reach hhdm r.0.mem root (is ++ i ∷ []) r.1
  pub nonnull : 0 < r.1
  pub other :
      (j : ℕ) (js : List ℕ)
      → length js ≤ 3
      → All (λ x. x < 512) (j ∷ js)
      → j ∷ js ≢ is ++ i ∷ []
      → view hhdm r.0.mem root (j ∷ js) ≡ view hhdm s.mem root (j ∷ js)
  pub entry :
      (view hhdm r.0.mem root (is ++ i ∷ []) ≡ view hhdm s.mem root (is ++ i ∷ []))
      ⊎ ((present (view hhdm s.mem root (is ++ i ∷ [])) ≡ 0)
          × (page_size (view hhdm r.0.mem root (is ++ i ∷ [])) ≡ 0))
  pub kernel : r.0.kernel_pml4 ≡ s.kernel_pml4

pub get_next_level-present :
    (hhdm : ℕ) (s : Machine) (t i : ℕ)
    → 0 < t
    → present (word s.mem t i) ≡ 1
    → get_next_level hhdm s t i ≡ (s, child hhdm (word s.mem t i))
unfolding get_next_level
get_next_level-present hhdm s t i h e = rw (==-false t 0 (omega arith), e)

get_next_level-absent :
    (hhdm : ℕ) (s : Machine) (t i : ℕ)
    → 0 < t
    → present (word s.mem t i) ≡ 0
    → 0 < (allocate_page hhdm s).1
    → (allocate_page hhdm s).1 % 4096 ≡ 0
    → get_next_level hhdm s t i ≡ (
      record (allocate_page hhdm s).0 {
        mem = link (allocate_page hhdm s).0.mem (slot t i) (allocate_page hhdm s).1;
      },
      hhdm_phys_to_virt hhdm (allocate_page hhdm s).1,
    )
unfolding get_next_level
get_next_level-absent hhdm s t i h e some_page aligned =
    rw (==-false t 0 (omega arith), e, ==-false (allocate_page hhdm s).1 0 (omega arith), aligned)

descend-new :
    {hhdm : ℕ} {s : Machine} {root : ℕ} {is : List ℕ} {t i a n : ℕ} {bs : Blocks} (k : ℕ)
    → NewTable hhdm s root is t i a n bs (allocate_page hhdm s).0 (allocate_page hhdm s).1
    → suc k ≤ length (pages hhdm ((a, n) ∷ bs))
    → Descended hhdm s root k is i (get_next_level hhdm s t i)
descend-new {hhdm} {s} {root} {is} {t} {i} {a} {n} {bs} k new enough =
    let block = new.list.pages.0 in
    let here = new.tables.page is t new.path new.reach in
    let got = new.got in
    let (s', p) = allocate_page hhdm s in
    let m = link s'.mem (slot t i) p in
    let some_page : 0 < p = omega (arith, got.page, block.above) in
    let aligned : p % 4096 ≡ 0 = omega (arith, got.page, block.aligned, new.off.aligned) in
    let away =
      Apart-part (split a n bs) t 4096 (slot t i) 8 (omega arith) (omega (arith, new.below))
        (Apart-split bs t 4096 a n (new.tables.free is t new.path new.reach)) in
    let to : child hhdm (word m t i) ≡ hhdm_phys_to_virt hhdm p =
      ap (child hhdm) (written new) ∙ target new ∙ omega (arith, got.page) in
    rw (get_next_level-absent hhdm s t i (omega arith) new.absent some_page aligned) (record {
      paging = record {
        blocks = split a n bs;
        list =
            FreeList-frame hhdm s' (record s' { mem = m }) (split a n bs) (slot t i) 8 refl
              (link-changed s'.mem (slot t i) p) away got.rest;
        tables = new-Tables new;
        enough = omega (arith, ap length (pages-split hhdm a n bs block));
      };
      reach = subst (Reach hhdm m root (is ++ i ∷ [])) to (
          Reach-snoc hhdm m is root t i (Reach-rewritten new.tables (rewritten new))
            (rw (written new) (present-linked p 0)));
      nonnull = omega (arith, got.page, block.above, block.below, new.off.fits);
      other = view-other new.tables (rewritten new);
      entry = inr (
        rw (view-snoc hhdm s.mem is root t i new.reach) new.absent,
        rw (view-new new.tables (rewritten new)) (page_size-linked p 0),
      );
      kernel = ap (λ (x : Machine). x.kernel_pml4) got.kept;
    })

descend-absent :
    {hhdm : ℕ} {s : Machine} {root : ℕ} (k : ℕ) (is : List ℕ) (t i : ℕ) (bs : Blocks)
    → IsHhdm hhdm
    → Tables hhdm s.mem root bs
    → FreeList hhdm s bs
    → suc k ≤ length (pages hhdm bs)
    → IsPath is
    → length is ≤ 2
    → i < 512
    → Reach hhdm s.mem root is t
    → present (word s.mem t i) ≡ 0
    → Descended hhdm s root k is i (get_next_level hhdm s t i)
descend-absent {hhdm} k is t i [] off tables list enough path high below reach absent =
    absurd (omega (arith, ap length (pages-nil hhdm)))
descend-absent k is t i ((a, n) ∷ bs) off tables list enough path high below reach absent =
    descend-new k
      (record {
        off = off;
        tables = tables;
        list = list;
        path = path;
        high = high;
        below = below;
        reach = reach;
        absent = absent;
        got = allocate_page-Allocated bs a n off list;
      })
      enough

-- GetNextLevel on a table of the tree, while a page is free, returns the table that the entry leads
-- to; an empty entry first gets a new, empty table, and nothing else is changed in the tree.
pub get_next_level-Descended :
    {hhdm : ℕ} {s : Machine} {root k : ℕ} (is : List ℕ) (t i : ℕ)
    → IsHhdm hhdm
    → Paging hhdm s root (suc k)
    → IsPath is
    → length is ≤ 2
    → i < 512
    → Reach hhdm s.mem root is t
    → Descended hhdm s root k is i (get_next_level hhdm s t i)
get_next_level-Descended {hhdm} {s} {root} {k} is t i off g path high below reach =
    elim (present-cases (word s.mem t i)) [
      | inl absent ↦
          descend-absent k is t i g.blocks off g.tables g.list g.enough path high below reach absent
      | inr here ↦
          let page = g.tables.page is t path reach in
          let onward = Reach-snoc hhdm s.mem is root t i reach here in
          let next =
            g.tables.page (is ++ i ∷ []) (child hhdm (word s.mem t i))
              (IsPath-snoc is i path high below) onward in
          rw (get_next_level-present hhdm s t i (omega arith) here) (record {
            paging = record {
              blocks = g.blocks;
              list = g.list;
              tables = g.tables;
              enough = omega arith;
            };
            reach = onward;
            nonnull = omega (arith, next.above);
            other = λ j js short lt ne. refl;
            entry = inl refl;
            kernel = refl;
          })
    ]
