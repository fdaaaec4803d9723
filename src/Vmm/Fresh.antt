-- ===== src/Vmm/Fresh.antt =====
-- A page map with no entry: the tree that InitPaging starts from.
use system.Base.{ℕ, suc, ◌+◌, ◌≤◌, ◌<◌, ◌≡◌, refl, sym, ◌∙◌, ap, arith, List, [], ◌∷◌, length}
use system.Memory.{Memory, load64-zero}
use system.Machine.{Machine}
use system.Blocks.{Blocks, Apart}
use system.Pmm.Invariant.{IsPages, FreeList, split}
use system.Pmm.Pages.{Allocated}
use system.Pmm.Stack.{pages, pages-split}
use system.Vmm.{slot}
use system.Vmm.Tree.{word, Reach, IsPath, Tables}
use system.Vmm.Descend.{Paging}

module _ (hhdm : ℕ) {m : Memory} {root : ℕ}
    (zeroed : (b : ℕ) → root ≤ b → b < root + 4096 → m b ≡ 0) where
  empty-word : (i : ℕ) → i < 512 → word m root i ≡ 0
  empty-word i lt = load64-zero m (slot root i) (λ b lo hi. zeroed b (omega arith) (omega arith))

  -- Only the page map itself can be reached.
  only-root : (js : List ℕ) (x : ℕ) → IsPath js → Reach hhdm m root js x → (js ≡ []) × (x ≡ root)
  only-root [] x p r = (refl, sym r)
  only-root (j ∷ js) x p r = absurd (omega (arith, empty-word j p.1.0))

  pub empty-Tables :
      (bs : Blocks) → IsPages hhdm root 4096 → Apart root 4096 bs → Tables hhdm m root bs
  empty-Tables bs page apart = record {
    page = λ js x p r. rw (only-root js x p r).1 page;
    unique = λ js ks x p q r r'. (only-root js x p r).0 ∙ sym (only-root ks x q r').0;
    free = λ js x p r. rw (only-root js x p r).1 apart;
    clean = λ js x i p r lt absent. rw (only-root js x p r).1 (empty-word i lt);
    small = λ js x i p high r lt. rw ((only-root js x p r).1, empty-word i lt);
  }

-- A page that AllocatePage has just returned is such a page map.
pub Allocated-Paging :
    {hhdm : ℕ} {s : Machine} {a n : ℕ} {bs : Blocks} {r : Machine × ℕ} (k : ℕ)
    → FreeList hhdm s ((a, n) ∷ bs)
    → Allocated hhdm s a n bs r
    → suc k ≤ length (pages hhdm ((a, n) ∷ bs))
    → Paging hhdm r.0 a k
Allocated-Paging {hhdm} {a} {n} {bs} k list got enough =
    let block = list.pages.0 in
    record {
      blocks = split a n bs;
      list = got.rest;
      tables = empty-Tables hhdm got.zeroed (split a n bs) (omega arith) got.apart;
      enough = omega (arith, ap length (pages-split hhdm a n bs block));
    }
