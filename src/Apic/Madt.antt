-- ===== src/Apic/Madt.antt =====
-- The search of the MADT against the list of interrupt controllers that it holds.
use system.Base.{
  ℕ, zero, suc, ◌+◌, ◌<◌, ◌^◌, ◌≡◌, refl, arith, some, List, [], ◌∷◌, ◌==◌, ==-false, length,
  Bool-cases, inl, inr, if◌then◌else◌, add64, sub64,
}
use system.Memory.{Memory, load8, load32}
use system.Apic.{push_front, find_controllers, find_all_interrupt_controllers}

-- From `p` on stand structures of these types and lengths.
abbrev pub Controllers : Memory → ℕ → List (ℕ × ℕ) → Type 0
Controllers m p [] = Unit
Controllers m p ((kind, size) ∷ cs) =
    (load8 m p ≡ kind) × (load8 m (p + 1) ≡ size) × (0 < size) × Controllers m (p + size) cs

unfoldable pub total_size : List (ℕ × ℕ) → ℕ
total_size [] = 0
total_size ((kind, size) ∷ cs) = size + total_size cs

-- The addresses of those of one type.
unfoldable pub addresses : (kind p : ℕ) → List (ℕ × ℕ) → List ℕ
addresses kind p [] = []
addresses kind p ((kind', size) ∷ cs) =
    let rest = addresses kind (p + size) cs in if kind' == kind then p ∷ rest else rest

find_controllers_lem :
    (fuel : ℕ) (m : Memory) (kind p : ℕ) (cs : List (ℕ × ℕ))
    → Controllers m p cs
    → length cs < fuel
    → total_size cs < 2 ^ 64
    → find_controllers fuel m kind p (total_size cs) ≡ some (addresses kind p cs)
unfolding find_controllers total_size addresses push_front
find_controllers_lem zero m kind p cs held enough fits = absurd (omega arith)
find_controllers_lem (suc fuel) m kind p [] held enough fits = refl
find_controllers_lem (suc fuel) m kind p ((kind', size) ∷ cs) held enough fits =
    let ih = find_controllers_lem fuel m kind (p + size) cs held.3 (omega arith) (omega arith) in
    let left : sub64 (size + total_size cs) size ≡ total_size cs = omega arith in
    let more = ==-false (size + total_size cs) 0 (omega arith) in
    elim (Bool-cases (kind' == kind)) [
      | inl this ↦ rw (held.0, held.1, left, more, this, ih)
      | inr other ↦ rw (held.0, held.1, left, more, other, ih)
    ]

-- FindAllInterruptControllers ends, once the fuel exceeds the number of the structures in the MADT, and
-- finds exactly the structures of the type, in order, when the length of the MADT covers its header and
-- the structures.
pub find_all_interrupt_controllers_lem :
    (fuel : ℕ) (m : Memory) (madt kind : ℕ) (cs : List (ℕ × ℕ))
    → Controllers m (madt + 44) cs
    → length cs < fuel
    → load32 m (madt + 4) ≡ 44 + total_size cs
    → total_size cs < 2 ^ 32
    → find_all_interrupt_controllers fuel m madt kind ≡ some (addresses kind (madt + 44) cs)
unfolding find_all_interrupt_controllers
find_all_interrupt_controllers_lem fuel m madt kind cs held enough len fits =
    let covered : add64 (sub64 (44 + total_size cs) 46) 2 ≡ total_size cs = omega arith in
    rw (len, covered) (find_controllers_lem fuel m kind (madt + 44) cs held enough (omega arith))
