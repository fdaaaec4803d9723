-- ===== src/Vector/Growth.antt =====
-- A Vector (kernel/include/libs/kernel.hpp) that only push_back has filled, as the kernel's two vectors are.
use system.Base.{
  ℕ, ◌+◌, ◌*◌, ◌^◌, ◌≤◌, ◌<◌, ◌≡◌, ◌⊎◌, inl, inr, refl, sym, ap, ◌∙◌, arith, Bool-cases, ==_iff,
  Option, some, List, [], ◌∷◌, ◌++◌, ◌==◌, length, length-append,
}
use system.Vector.{Vector, largest, created, push_back}
use system.Vector.Laws.{IsVector, contents, length-contents, push_back-Pushed}

-- The heap answers every request that its blocks are large enough for.
abbrev pub Served {ℓ} : {A : Type ℓ} → (ℕ → Option (ℕ → A)) → Type ℓ
Served {A} blocks = (k : ℕ) → (fresh : ℕ → A) × (blocks k ≡ some fresh)

module _ {ℓ} {A : Type ℓ} where
  -- The vector holds these elements, in a block that is at most twice as large, and one more.
  pub record Holds (v : Vector A) (xs : List A) : Type ℓ where
    pub is_vector : IsVector v
    pub small : v.current_capacity ≤ 2 * length xs + 1
    pub elements : contents v ≡ xs

  pub created-Holds : (fresh : ℕ → A) → Holds (created fresh) []
  unfolding created contents
  created-Holds fresh = record {
    is_vector = record { fits = omega arith; room = omega arith; bound = omega arith };
    small = omega arith;
    elements = refl;
  }

  pub Holds-count : {v : Vector A} {xs : List A} → Holds v xs → v.current_element_count ≡ length xs
  Holds-count {v} h = sym (length-contents v) ∙ ap length h.elements

  -- One more element, while a block for twice as many elements can be served.
  pub push_back-Holds :
      (size : ℕ) (fresh : ℕ → A) (v : Vector A) (xs : List A) (x : A)
      → length xs < 2 ^ 60
      → size * (length xs * 2) ≤ largest
      → Holds v xs
      → (w : Vector A) × (push_back size (some fresh) v x ≡ some w) × Holds w (xs ++ x ∷ [])
  push_back-Holds size fresh v xs x few served h =
      let count = Holds-count h in
      let room : (v.current_element_count < v.current_capacity)
          ⊎ (size * (v.current_capacity * 2) ≤ largest) =
        elim (Bool-cases (v.current_capacity == v.current_element_count)) [
          | inl full ↦
              let e : v.current_capacity ≡ length xs =
                (==_iff v.current_capacity v.current_element_count).0 full ∙ count in
              inr (rw e served)
          | inr space ↦ inl (ground (arith, h.is_vector.fits))
        ] in
      let p = push_back-Pushed size fresh v x h.is_vector (omega (arith, h.small)) room in
      let longer : length (xs ++ x ∷ []) ≡ length xs + 1 = length-append xs (x ∷ []) in
      (
        p.result,
        p.pushed,
        record {
          is_vector = p.is_vector;
          small = grind (arith, h.small, p.capacity, longer, count, h.is_vector.fits);
          elements = p.elements ∙ ap (λ ys. ys ++ x ∷ []) h.elements;
        },
      )
