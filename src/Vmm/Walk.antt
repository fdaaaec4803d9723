-- ===== src/Vmm/Walk.antt =====
-- The steps of MemoryMap down the tree for a small page, and the write of the last entry.
use system.Base.{
  ℕ, suc, ◌+◌, ◌*◌, ◌/◌, ◌%◌, ◌^◌, ◌<◌, ◌≡◌, ◌≢◌, inl, refl, sym, ap, subst, ◌∙◌, arith, true,
  false, some, [], ◌∷◌, length, ==-false,
}
use system.Memory.{Memory, load64-lt}
use system.Machine.{Machine}
use system.Blocks.{Blocks, Apart-part}
use system.Pmm.Invariant.{IsHhdm, FreeList-frame}
use system.Vmm.{present, page_size, physical_addr, slot, link, get_next_level, index, map_levels}
use system.Vmm.Entry.{linked, present-linked, physical_addr-linked, link-changed, link-word}
use system.Vmm.Tree.{word, child, Reach, view, IsPath, Tables}
use system.Vmm.Written.{Rewritten}
use system.Vmm.Rewrite.{Tables-rewritten, view-other, Reach-rewritten}
use system.Vmm.Descend.{Paging, get_next_level-Descended}
use system.Vmm.Translate.{
  resolve, translate, path2, path3, path4, resolve-cong, translate-Descended,
}

-- The number of the page that an address lies in, as far as the processor translates it.
abbrev pub page_number : ℕ → ℕ
page_number virt = virt / 2 ^ 12 % 2 ^ 36

path4-page_number : (v w : ℕ) → path4 v ≡ path4 w → page_number v ≡ page_number w
path4-page_number v w e = ground arith

page_number-path4 :
    (v w : ℕ) → page_number v ≡ page_number w → (path3 v ≡ path3 w) × (index 12 v ≡ index 12 w)
page_number-path4 v w e = ground arith

-- The walk through present tables ends at the entry of the lowest one.
resolve-Reach :
    (hhdm : ℕ) (m : Memory) (root t v : ℕ)
    → Reach hhdm m root (path3 v) t
    → page_size (view hhdm m root (path2 v)) ≡ 0
    → page_size (view hhdm m root (path3 v)) ≡ 0
    → present (word m t (index 12 v)) ≡ 1
    → translate hhdm m root v ≡ some (physical_addr (word m t (index 12 v)) * 2 ^ 12 + v % 2 ^ 12)
unfolding translate resolve
resolve-Reach hhdm m root t v reach small3 small2 here =
    let h4 = reach.0 in
    let h3 = reach.1.0 in
    let h2 = reach.1.1.0 in
    let e = reach.1.1.1 in
    let here' : present (
          word m
            (child hhdm (
              word m (child hhdm (word m (child hhdm (word m root (index 39 v))) (index 30 v)))
                (index 21 v)))
            (index 12 v))
        ≡ 1 =
      rw (← e) at here in
    let small3' = rw h4 at small3 in
    let small2' = rw (h4, h3) at small2 in rw (← e) (rw (h4, h3, small3', h2, small2', here'))

-- No entry on the way to a lowest table is a large page.
small-views :
    {hhdm : ℕ} {m : Memory} {bs : Blocks} (root t v : ℕ)
    → Tables hhdm m root bs
    → Reach hhdm m root (path3 v) t
    → (page_size (view hhdm m root (path2 v)) ≡ 0) × (page_size (view hhdm m root (path3 v)) ≡ 0)
small-views {hhdm} {m} root t v tables reach =
    let i4 = index 39 v in
    let i3 = index 30 v in
    let x3 = child hhdm (word m root i4) in
    let x2 = child hhdm (word m x3 i3) in
    (
      rw reach.0
          (tables.small (i4 ∷ []) x3 i3 (omega arith) (omega arith) (reach.0, refl) (omega arith)),
      rw (reach.0, reach.1.0)
          (tables.small (i4 ∷ i3 ∷ []) x2 (index 21 v) (omega arith) (omega arith)
            (reach.0, (reach.1.0, refl)) (omega arith)),
    )

-- The state before the last write.
pub record Walked (hhdm : ℕ) (s : Machine) (root k virt : ℕ) (r : Machine × ℕ) : Type 0 where
  pub paging : Paging hhdm r.0 root k
  pub reach : Reach hhdm r.0.mem root (path3 virt) r.1
  pub nonnull : 0 < r.1
  pub kernel : r.0.kernel_pml4 ≡ s.kernel_pml4
  pub same : (v : ℕ) → translate hhdm r.0.mem root v ≡ translate hhdm s.mem root v

-- The three steps down.
unfoldable pub walk : (hhdm : ℕ) → Machine → (root virt : ℕ) → Machine × ℕ
walk hhdm s root virt =
    let (s3, pml3) = get_next_level hhdm s root (index 39 virt) in
    let (s2, pml2) = get_next_level hhdm s3 pml3 (index 30 virt) in
    get_next_level hhdm s2 pml2 (index 21 virt)

pub walk-Walked :
    {hhdm : ℕ} {s : Machine} {root k : ℕ} (virt : ℕ)
    → IsHhdm hhdm
    → Paging hhdm s root (suc (suc (suc k)))
    → Walked hhdm s root k virt (walk hhdm s root virt)
unfolding walk
walk-Walked {hhdm} {s} {root} virt off g =
    let i4 = index 39 virt in
    let i3 = index 30 virt in
    let r3 = get_next_level hhdm s root i4 in
    let r2 = get_next_level hhdm r3.0 r3.1 i3 in
    let d3 =
      get_next_level-Descended [] root i4 off g (omega arith) (omega arith) (omega arith) refl in
    let d2 =
      get_next_level-Descended (i4 ∷ []) r3.1 i3 off d3.paging (omega arith) (omega arith)
        (omega arith) d3.reach in
    let d1 =
      get_next_level-Descended (i4 ∷ i3 ∷ []) r2.1 (index 21 virt) off d2.paging (omega arith)
        (omega arith) (omega arith) d2.reach in
    record {
      paging = d1.paging;
      reach = d1.reach;
      nonnull = d1.nonnull;
      kernel = d1.kernel ∙ d2.kernel ∙ d3.kernel;
      same = λ v.
          translate-Descended d1 (omega arith) v
          ∙ translate-Descended d2 (omega arith) v
          ∙ translate-Descended d3 (omega arith) v;
    }

pub map_levels-walk :
    (hhdm : ℕ) (s : Machine) (root virt phys : ℕ)
    → 0 < (walk hhdm s root virt).1
    → map_levels hhdm s root virt phys false ≡ (
      record (walk hhdm s root virt).0 {
        mem =
            link
              (walk hhdm s root virt).0.mem
              (slot (walk hhdm s root virt).1 (index 12 virt))
              phys;
      },
      true,
    )
unfolding map_levels walk
map_levels-walk hhdm s root virt phys h = rw (==-false (walk hhdm s root virt).1 0 (omega arith))

-- The tree after the last write, of an entry at the lowest level.
module _ {hhdm : ℕ} {s : Machine} {root k virt : ℕ} {r : Machine × ℕ} (phys : ℕ)
    (w : Walked hhdm s root k virt r) where
  abbrev pub last : Memory
  last = link r.0.mem (slot r.1 (index 12 virt)) phys

  abbrev entry : ℕ
  entry = linked phys (word r.0.mem r.1 (index 12 virt))

  path3-IsPath : IsPath (path3 virt)
  path3-IsPath = omega arith

  pub last-Rewritten : Rewritten hhdm r.0.mem last root (path3 virt) r.1 (index 12 virt) entry
  last-Rewritten = record {
    path = path3-IsPath;
    reach = w.reach;
    below = omega arith;
    same = λ js x p q b lo hi out. link-changed r.0.mem (slot r.1 (index 12 virt)) phys b out;
    new = link-word r.0.mem (slot r.1 (index 12 virt)) phys;
    lit = present-linked phys (word r.0.mem r.1 (index 12 virt));
    kind = inl refl;
  }

  low : {A : Type 0} → length (path3 virt) ≢ 3 → A
  low h = absurd (h refl)

  last-Tables : Tables hhdm last root w.paging.blocks
  last-Tables =
      Tables-rewritten w.paging.tables last-Rewritten w.paging.blocks w.paging.tables.free
        (λ h. low h) (λ h. low h) (λ js x p q h. low h) (λ h. absurd (omega arith))

  pub last-Paging : Paging hhdm (record r.0 { mem = last }) root k
  last-Paging =
      let here = w.paging.tables.page (path3 virt) r.1 path3-IsPath w.reach in
      record {
        blocks = w.paging.blocks;
        list =
            FreeList-frame hhdm r.0 (record r.0 { mem = last }) w.paging.blocks
              (slot r.1 (index 12 virt)) 8 refl
              (link-changed r.0.mem (slot r.1 (index 12 virt)) phys)
              (Apart-part w.paging.blocks r.1 4096 (slot r.1 (index 12 virt)) 8 (omega arith)
                (omega arith) (w.paging.tables.free (path3 virt) r.1 path3-IsPath w.reach))
              w.paging.list;
        tables = last-Tables;
        enough = w.paging.enough;
      }

  pub last-other :
      (v : ℕ)
      → page_number v ≢ page_number virt
      → translate hhdm last root v ≡ translate hhdm s.mem root v
  unfolding translate
  last-other v ne =
      let other = view-other w.paging.tables last-Rewritten in
      let i4 = index 39 v in
      let i3 = index 30 v in
      let i2 = index 21 v in
      let i1 = index 12 v in
      resolve-cong v (other i4 [] (omega arith) (omega arith) (λ e. omega (arith, ap length e)))
        (other i4 (i3 ∷ []) (omega arith) (omega arith) (λ e. omega (arith, ap length e)))
        (other i4 (i3 ∷ i2 ∷ []) (omega arith) (omega arith) (λ e. omega (arith, ap length e)))
        (other i4 (i3 ∷ i2 ∷ i1 ∷ []) (omega arith) (omega arith)
          (λ e. ne (path4-page_number v virt e)))
      ∙ w.same v

  pub last-mapped :
      (v : ℕ)
      → page_number v ≡ page_number virt
      → translate hhdm last root v ≡ some (phys / 2 ^ 12 % 2 ^ 40 * 2 ^ 12 + v % 2 ^ 12)
  last-mapped v eq =
      let same = page_number-path4 v virt eq in
      let reach : Reach hhdm last root (path3 v) r.1 =
        subst (λ js. Reach hhdm last root js r.1) (sym same.0)
          (Reach-rewritten w.paging.tables last-Rewritten) in
      let small = small-views root r.1 v last-Tables reach in
      let e : word last r.1 (index 12 v) ≡ entry = ap (word last r.1) same.1 ∙ last-Rewritten.new in
      resolve-Reach hhdm last root r.1 v reach small.0 small.1
        (rw e (present-linked phys (word r.0.mem r.1 (index 12 virt))))
      ∙ ap (λ (x : ℕ). some (physical_addr x * 2 ^ 12 + v % 2 ^ 12)) e
      ∙ ap (λ (x : ℕ). some (x * 2 ^ 12 + v % 2 ^ 12))
          (physical_addr-linked phys (word r.0.mem r.1 (index 12 virt))
            (load64-lt r.0.mem (slot r.1 (index 12 virt))))
