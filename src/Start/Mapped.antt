-- ===== src/Start/Mapped.antt =====
-- What the page map that the processor is given at the start of the kernel translates.
use system.Base.{
  ℕ, suc, ◌+◌, ◌*◌, ◌/◌, ◌%◌, ◌^◌, ◌≤◌, ◌<◌, ◌≡◌, ◌≢◌, ◌-◌, ==-false, add64-eq, refl, sym, ap,
  subst, ◌∙◌, arith, some, List, [], ◌∷◌, ◌++◌, length, add64,
}
use system.Machine.{Machine}
use system.Blocks.{Blocks}
use system.Pmm.{MemmapEntry, initialize_pmm}
use system.Pmm.Invariant.{IsHhdm, FreeList}
use system.Pmm.Init.{usable_blocks, IsMemmap, initialize_pmm-FreeList}
use system.Pmm.Stack.{pages}
use system.Vmm.{page_count, kernel_and_modules, entry_virt, load_kernel_cr3}
use system.Vmm.Translate.{translate}
use system.Vmm.Walk.{page_number}
use system.Vmm.Boot.{tables_of, page_virt, Away, Booted, init_paging-Booted}
use system.Start.{BootloaderData, start_memory}
use system.Start.Boot.{start_memory-run}

some_block :
    (hhdm k : ℕ) (bs : Blocks)
    → suc k ≤ length (pages hhdm bs)
    → (a : ℕ) × (n : ℕ) × (rest : Blocks) × (bs ≡ (a, n) ∷ rest)
unfolding pages
some_block hhdm k [] some_page = absurd (omega arith)
some_block hhdm k ((a, n) ∷ rest) some_page = (a, n, rest, refl)

cr3-direct :
    (hhdm : ℕ) (s : Machine)
    → hhdm ≤ s.kernel_pml4
    → s.kernel_pml4 < 2 ^ 64
    → load_kernel_cr3 hhdm s + hhdm ≡ s.kernel_pml4
unfolding load_kernel_cr3
cr3-direct hhdm s lo hi = omega arith

-- What a boot comes to: the processor is given the physical address of a page map which, seen through
-- the direct map, translates `v` to the same offset in the i-th page of the entry `e`.
pub record Runs (b : BootloaderData) (s : Machine) (e : MemmapEntry) (i v : ℕ) : Type 0 where
  pub machine : Machine
  pub cr3 : ℕ
  pub returned : start_memory b s ≡ some (machine, cr3)
  pub root : cr3 + b.offset ≡ machine.kernel_pml4
  pub mapped :
      translate b.offset machine.mem (cr3 + b.offset) v
      ≡ some (add64 e.base (0 + 4096 * i) / 2 ^ 12 % 2 ^ 40 * 2 ^ 12 + v % 2 ^ 12)

Booted-Runs :
    (b : BootloaderData) (s : Machine) (e : MemmapEntry) (i k v : ℕ)
    → Booted b.offset b.virtual_base b.physical_base
        (initialize_pmm b.offset s b.memmap)
        b.memmap
        e
        i
        k
        v
    → Runs b s e i v
Booted-Runs b s e i k v g =
    let root = cr3-direct b.offset g.result g.direct.0 g.direct.1 in
    record {
      machine = g.result;
      cr3 = load_kernel_cr3 b.offset g.result;
      returned = start_memory-run b s g.result g.returned;
      root = root;
      mapped = rw root g.mapped;
    }

-- The start of the kernel on a machine whose page list is empty, with a memory map whose usable entries
-- are whole, disjoint pages and hold enough of them for the page tables (three for each 512 pages of
-- an entry, six more for each entry, and one): it does not panic, and the page map whose physical address the processor is given translates each address in
-- the i-th virtual page of an entry, of at most 2 ^ 36 pages whose virtual range does not wrap around
-- and which no later entry maps again, to the same offset in the entry's i-th page.
pub start_memory-Runs :
    (b : BootloaderData) (s : Machine) (before after : List MemmapEntry) (e : MemmapEntry)
    (i k v : ℕ)
    → b.memmap ≡ before ++ e ∷ after
    → IsHhdm b.offset
    → s.page_head ≡ 0
    → IsMemmap b.offset [] b.memmap
    → suc (tables_of b.memmap + k) ≤ length (pages b.offset (usable_blocks b.offset [] b.memmap))
    → page_count e.length ≤ 2 ^ 36
    → entry_virt b.offset b.virtual_base b.physical_base e + 4096 * page_count e.length ≤ 2 ^ 64
    → i < page_count e.length
    → page_number v ≡ page_number (page_virt b.offset b.virtual_base b.physical_base e i)
    → Away b.offset b.virtual_base b.physical_base v after
    → Runs b s e i v
start_memory-Runs b s before after e i k v es off cold map enough few fits lt eq away =
    let hhdm = b.offset in
    let (a, n, bs, usable) =
      some_block hhdm (tables_of b.memmap + k) (usable_blocks hhdm [] b.memmap) enough in
    let empty : FreeList hhdm s [] = record { chain = cold; pages = tt; apart = tt } in
    let l : FreeList hhdm (initialize_pmm hhdm s b.memmap) ((a, n) ∷ bs) =
      subst (FreeList hhdm (initialize_pmm hhdm s b.memmap)) usable
        (initialize_pmm-FreeList b.memmap [] off map empty) in
    let enough' : suc (tables_of (before ++ e ∷ after) + k) ≤ length (pages hhdm ((a, n) ∷ bs)) =
      subst (λ xs. suc (tables_of xs + k) ≤ length (pages hhdm ((a, n) ∷ bs))) es
        (subst (λ xs. suc (tables_of b.memmap + k) ≤ length (pages hhdm xs)) usable enough) in
    Booted-Runs b s e i k v (
      subst
        (λ xs.
          Booted hhdm b.virtual_base b.physical_base (initialize_pmm hhdm s b.memmap) xs e i k v)
        (sym es)
        (init_paging-Booted b.virtual_base b.physical_base before after e i k v a n bs off l enough'
          few fits lt eq away))

-- The entry's virtual range, for every type but the kernel and its modules: the direct map.
entry_virt-direct :
    (hhdm virtual_base physical_base : ℕ) (e : MemmapEntry)
    → e.kind ≢ kernel_and_modules
    → e.base + hhdm < 2 ^ 64
    → entry_virt hhdm virtual_base physical_base e ≡ e.base + hhdm
unfolding entry_virt
entry_virt-direct hhdm virtual_base physical_base e kind fits =
    rw (==-false e.kind kernel_and_modules kind, add64-eq e.base hhdm fits)

-- An address in an entry, from its page on.
page_start :
    (base p : ℕ) → base ≤ p → base % 4096 ≡ 0 → base + 4096 * ((p - base) / 4096) ≡ p / 4096 * 4096
page_start base p lo aligned = omega arith

page_of :
    (base hhdm p : ℕ)
    → base ≤ p
    → base % 4096 ≡ 0
    → hhdm % 4096 ≡ 0
    → p + hhdm < 2 ^ 64
    → page_number (p + hhdm) ≡ page_number (add64 (base + hhdm) (0 + 4096 * ((p - base) / 4096)))
page_of base hhdm p lo aligned off fits =
    let start = page_start base p lo aligned in
    let sum : add64 (base + hhdm) (0 + 4096 * ((p - base) / 4096)) ≡ p / 4096 * 4096 + hhdm =
      omega arith in
    let page : (p + hhdm) / 4096 ≡ (p / 4096 * 4096 + hhdm) / 4096 = omega arith in rw (sum, page)

offset_of :
    (base hhdm p : ℕ)
    → base ≤ p
    → base % 4096 ≡ 0
    → hhdm % 4096 ≡ 0
    → p < 2 ^ 48
    → add64 base (0 + 4096 * ((p - base) / 4096)) / 2 ^ 12 % 2 ^ 40 * 2 ^ 12 + (p + hhdm) % 2 ^ 12
      ≡ p
offset_of base hhdm p lo aligned off small =
    let start = page_start base p lo aligned in
    let sum : add64 base (0 + 4096 * ((p - base) / 4096)) ≡ p / 4096 * 4096 = omega arith in
    let low : (p + hhdm) % 2 ^ 12 ≡ p % 4096 = omega arith in rw (sum, low) (omega arith)

-- The start of the kernel on a machine whose page list is empty, with a memory map whose usable entries
-- are whole, disjoint pages and hold enough of them for the page tables (three for each 512 pages of
-- an entry, six more for each entry, and one): it does not panic, and the page map whose physical
-- address the processor is given translates `p` in the direct map to the physical address `p`, for
-- every `p` in an entry that is neither the kernel nor a module, starts at a page boundary and ends
-- below 2 ^ 48, unless a later entry maps that virtual page again.
pub start_memory-direct_map :
    (b : BootloaderData) (s : Machine) (before after : List MemmapEntry) (e : MemmapEntry) (p : ℕ)
    → b.memmap ≡ before ++ e ∷ after
    → IsHhdm b.offset
    → s.page_head ≡ 0
    → IsMemmap b.offset [] b.memmap
    → suc (tables_of b.memmap + 0) ≤ length (pages b.offset (usable_blocks b.offset [] b.memmap))
    → e.kind ≢ kernel_and_modules
    → e.base % 4096 ≡ 0
    → e.base + e.length < 2 ^ 48
    → e.base ≤ p
    → p < e.base + e.length
    → Away b.offset b.virtual_base b.physical_base (p + b.offset) after
    → (r : Runs b s e ((p - e.base) / 4096) (p + b.offset)) × (translate b.offset r.machine.mem
          (r.cr3 + b.offset)
          (p + b.offset)
        ≡ some p)
start_memory-direct_map b s before after e p es off cold map enough kind aligned small lo hi away =
    let virt = entry_virt-direct b.offset b.virtual_base b.physical_base e kind (omega arith) in
    let i = (p - e.base) / 4096 in
    let r =
      start_memory-Runs b s before after e i 0 (p + b.offset) es off cold map enough (omega arith)
        (omega (arith, virt)) (omega arith)
        (page_of e.base b.offset p lo aligned off.aligned (omega arith)
          ∙ ap (λ x. page_number (add64 x (0 + 4096 * i))) (sym virt))
        away in
    (r, r.mapped ∙ ap some (offset_of e.base b.offset p lo aligned off.aligned (omega arith)))
