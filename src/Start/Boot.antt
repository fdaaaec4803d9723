-- ===== src/Start/Boot.antt =====
-- The page map that the processor is given at the start of the kernel.
use system.Base.{ℕ, ◌+◌, ◌≡◌, ◌^◌, ◌<◌, refl, sym, subst, ◌∙◌, ap, arith, some, List, [], ◌∷◌}
use system.Machine.{Machine}
use system.Blocks.{Blocks}
use system.Pmm.{allocate_page, initialize_pmm}
use system.Pmm.Invariant.{IsHhdm, FreeList}
use system.Pmm.Init.{usable_blocks, IsMemmap, initialize_pmm-FreeList}
use system.Pmm.Stack.{pages, pages-split}
use system.Vmm.{map_entries, load_kernel_cr3, init_paging}
use system.Vmm.Boot.{init_paging_run}
use system.Start.{BootloaderData, start_memory}

first_block :
    (hhdm p : ℕ) (bs : Blocks) (ps : List ℕ)
    → pages hhdm bs ≡ p ∷ ps
    → (a : ℕ) × (n : ℕ) × (rest : Blocks) × (bs ≡ (a, n) ∷ rest)
unfolding pages
first_block hhdm p [] ps e = ground arith
first_block hhdm p ((a, n) ∷ rest) ps e = (a, n, rest, refl)

pub start_memory-run :
    (b : BootloaderData) (s s' : Machine)
    → init_paging b.offset b.virtual_base b.physical_base
        (initialize_pmm b.offset s b.memmap)
        b.memmap
      ≡ some s'
    → start_memory b s ≡ some (s', load_kernel_cr3 b.offset s')
unfolding start_memory
start_memory-run b s s' e = rw (e, start_memory)

cr3-root :
    (hhdm : ℕ) (s : Machine) (a p : ℕ)
    → s.kernel_pml4 ≡ a
    → a ≡ p + hhdm
    → a < 2 ^ 64
    → load_kernel_cr3 hhdm s ≡ p
unfolding load_kernel_cr3
cr3-root hhdm s a p e e' hi = omega arith

-- The start of the kernel on a machine whose page list is empty, with a memory map whose usable entries
-- are whole, disjoint pages and hold at least one: it does not panic, the processor is given the page
-- that stands first on the stack of free pages that InitializePMM builds, and the kernel's page map is
-- that page as the direct map shows it.
pub start_memory-first_page :
    (b : BootloaderData) (s : Machine) (p : ℕ) (ps : List ℕ)
    → IsHhdm b.offset
    → s.page_head ≡ 0
    → IsMemmap b.offset [] b.memmap
    → pages b.offset (usable_blocks b.offset [] b.memmap) ≡ p ∷ ps
    → (s' : Machine) × (start_memory b s ≡ some (s', p)) × (s'.kernel_pml4 ≡ p + b.offset)
start_memory-first_page b s p ps off cold map enough =
    let hhdm = b.offset in
    let (a, n, bs, usable) = first_block hhdm p (usable_blocks hhdm [] b.memmap) ps enough in
    let empty : FreeList hhdm s [] = record { chain = cold; pages = tt; apart = tt } in
    let l : FreeList hhdm (initialize_pmm hhdm s b.memmap) ((a, n) ∷ bs) =
      subst (FreeList hhdm (initialize_pmm hhdm s b.memmap)) usable
        (initialize_pmm-FreeList b.memmap [] off map empty) in
    let listed = sym (ap (pages hhdm) usable ∙ pages-split hhdm a n bs l.pages.0) ∙ enough in
    let first : a ≡ p + hhdm = ground (arith, listed, l.pages.0.above) in
    let booted : Machine =
      record (map_entries hhdm b.virtual_base b.physical_base a
        (allocate_page hhdm (initialize_pmm hhdm s b.memmap)).0 b.memmap) { kernel_pml4 = a } in
    (
      booted,
      start_memory-run b s booted
            (init_paging_run b.virtual_base b.physical_base b.memmap bs a n off l)
          ∙ ap (λ q. some (booted, q)) (cr3-root hhdm booted a p refl first (omega arith)),
      first,
    )
