-- ===== src/Pmm/Init.antt =====
-- InitializePMM of pmm.cpp against the memory map of the bootloader.
use system.Base.{
  ℕ, ◌+◌, ◌%◌, ◌^◌, ◌≤◌, ◌<◌, ◌≡◌, refl, inl, inr, ◌&&◌, arith, leb, ◌==◌, ==_iff, leb→le,
  Bool-cases, if◌then◌else◌, List, [], ◌∷◌, add64, add64-eq,
}
use system.Machine.{Machine}
use system.Blocks.{Blocks, Apart}
use system.Pmm.{MemmapEntry, usable, insert_node, add_entry, initialize_pmm}
use system.Pmm.Invariant.{IsHhdm, FreeList, insert_node-FreeList}

-- The free blocks after one more entry of the memory map.
abbrev pub add_block : (hhdm : ℕ) → MemmapEntry → Blocks → Blocks
add_block hhdm e bs =
    if e.kind == usable && leb 4096 e.length then (e.base + hhdm, e.length) ∷ bs else bs

unfoldable pub usable_blocks : (hhdm : ℕ) → Blocks → List MemmapEntry → Blocks
usable_blocks hhdm bs [] = bs
usable_blocks hhdm bs (e ∷ es) = usable_blocks hhdm (add_block hhdm e bs) es

-- A usable entry consists of whole pages between page 0 and 2 ^ 52, and does not meet the blocks before it.
pub record IsUsable (hhdm : ℕ) (bs : Blocks) (e : MemmapEntry) : Type 0 where
  pub aligned : e.base % 4096 ≡ 0
  pub whole : e.length % 4096 ≡ 0
  pub above : 0 < e.base
  pub below : e.base + e.length ≤ 2 ^ 52
  pub apart : Apart (e.base + hhdm) e.length bs

abbrev pub IsMemmap : (hhdm : ℕ) → Blocks → List MemmapEntry → Type 0
IsMemmap hhdm bs [] = Unit
IsMemmap hhdm bs (e ∷ es) =
    (e.kind ≡ usable → IsUsable hhdm bs e) × IsMemmap hhdm (add_block hhdm e bs) es

-- The sum of the lengths of all entries, as a 64-bit word.
unfoldable pub sum_lengths : ℕ → List MemmapEntry → ℕ
sum_lengths t [] = t
sum_lengths t (e ∷ es) = sum_lengths (add64 t e.length) es

add_entry-FreeList :
    {hhdm : ℕ} (e : MemmapEntry) (bs : Blocks) {s : Machine}
    → IsHhdm hhdm
    → (e.kind ≡ usable → IsUsable hhdm bs e)
    → FreeList hhdm s bs
    → FreeList hhdm (add_entry hhdm s e) (add_block hhdm e bs)
unfolding add_entry
add_entry-FreeList {hhdm} e bs {s} off ok l = elim (Bool-cases (e.kind == usable)) [
  | inr other ↦ rw other (record { chain = l.chain; pages = l.pages; apart = l.apart })
  | inl kind ↦ elim (Bool-cases (leb 4096 e.length)) [
    | inr short ↦ rw (kind, short) (record { chain = l.chain; pages = l.pages; apart = l.apart })
    | inl long ↦
        let u = ok ((==_iff e.kind usable).0 kind) in
        let room = leb→le 4096 e.length long in
        rw (kind, long, add64-eq e.base hhdm (omega arith))
          (insert_node-FreeList off bs (e.base + hhdm) e.length (omega arith) u.apart
            (record { chain = l.chain; pages = l.pages; apart = l.apart }))
  ]
]

-- InitializePMM of a memory map whose usable entries are whole, disjoint pages puts exactly the usable
-- entries that hold a page on the free list, the last one first.
pub initialize_pmm-FreeList :
    {hhdm : ℕ} (es : List MemmapEntry) (bs : Blocks) {s : Machine}
    → IsHhdm hhdm
    → IsMemmap hhdm bs es
    → FreeList hhdm s bs
    → FreeList hhdm (initialize_pmm hhdm s es) (usable_blocks hhdm bs es)
unfolding initialize_pmm usable_blocks
initialize_pmm-FreeList [] bs off h l = l
initialize_pmm-FreeList {hhdm} (e ∷ es) bs off h l =
    initialize_pmm-FreeList es (add_block hhdm e bs) off h.1 (add_entry-FreeList e bs off h.0 l)

add_entry-total_memory :
    (hhdm : ℕ) (s : Machine) (e : MemmapEntry)
    → (add_entry hhdm s e).total_memory ≡ add64 s.total_memory e.length
unfolding add_entry insert_node
add_entry-total_memory hhdm s e = ground arith

-- TotalMemory is the sum of the lengths of all entries, modulo 2 ^ 64.
pub initialize_pmm-total_memory :
    (hhdm : ℕ) (es : List MemmapEntry) (s : Machine)
    → (initialize_pmm hhdm s es).total_memory ≡ sum_lengths s.total_memory es
unfolding initialize_pmm sum_lengths
initialize_pmm-total_memory hhdm [] s = refl
initialize_pmm-total_memory hhdm (e ∷ es) s =
    rw (← add_entry-total_memory hhdm s e)
      (initialize_pmm-total_memory hhdm es (add_entry hhdm s e))
