-- ===== src/Vector/Remove.antt =====
-- What remove does to the elements of the vector.
use system.Base.{
  ℕ, zero, suc, ◌+◌, ◌-◌, ◌≤◌, ◌<◌, ◌≡◌, ◌≢◌, refl, ◌∙◌, ap, arith, Bool-cases, inl, inr, none,
  some, ◌==◌, sub64, lt→ltb, ltb-false, ==-false, ==_iff, leb-false, ==_iff, leb-false,
}
use system.Vector.{Vector, write_cell, at, set_at, remove_loop, remove}
use system.Vector.Laws.{cells, contents, remove_at, IsVector, cells-removed}

module _ {ℓ} {A : Type ℓ} where
  -- Where the loop of remove ends: the cells of its rounds are moved down by one.
  record Shifted (v : Vector A) (rounds i : ℕ) (v' : Vector A) : Type ℓ where
    capacity : v'.current_capacity ≡ v.current_capacity
    count : v'.current_element_count ≡ v.current_element_count
    moved : (j : ℕ) → i ≤ j → j < i + rounds → v'.array j ≡ v.array (j + 1)
    below : (j : ℕ) → j < i → v'.array j ≡ v.array j
    above : (j : ℕ) → i + rounds ≤ j → v'.array j ≡ v.array j

  remove_loop-step :
      (rounds : ℕ) (v : Vector A) (i : ℕ)
      → i + 1 < v.current_capacity
      → remove_loop (suc rounds) v i ≡ remove_loop rounds (write_cell v i (v.array (i + 1))) (i + 1)
  unfolding remove_loop at set_at
  remove_loop-step rounds v i lt =
      rw (lt→ltb (i + 1) v.current_capacity lt, lt→ltb i v.current_capacity (omega arith))

  remove_loop-Shifted :
      (rounds : ℕ) (v : Vector A) (i : ℕ)
      → i + rounds < v.current_capacity
      → (v' : Vector A) × (remove_loop rounds v i ≡ some v') × Shifted v rounds i v'
  unfolding remove_loop write_cell
  remove_loop-Shifted zero v i lt = (
    v,
    refl,
    record {
      capacity = refl;
      count = refl;
      moved = λ j lo hi. absurd (omega arith);
      below = λ j lt. refl;
      above = λ j le. refl;
    },
  )
  remove_loop-Shifted (suc rounds) v i lt =
      let w = write_cell v i (v.array (i + 1)) in
      let (v', e, r) = remove_loop-Shifted rounds w (i + 1) (omega arith) in
      let same : (j : ℕ) → j ≢ i → w.array j ≡ v.array j = λ j ne. rw (==-false j i ne) in
      (
        v',
        remove_loop-step rounds v i (omega arith) ∙ e,
        record {
          capacity = r.capacity;
          count = r.count;
          moved = λ j lo hi. elim (Bool-cases (j == i)) [
            | inl here ↦ let e = (==_iff j i).0 here in r.below j (omega arith) ∙ rw (here, e)
            | inr on ↦ r.moved j (ground arith) (omega arith) ∙ same (j + 1) (omega arith)
          ];
          below = λ j lt. r.below j (omega arith) ∙ same j (omega arith);
          above = λ j le. r.above j (omega arith) ∙ same j (omega arith);
        },
      )

  remove-run :
      (v v' : Vector A) (index : ℕ)
      → index < v.current_element_count
      → remove_loop (v.current_element_count - index) v index ≡ some v'
      → remove v index
        ≡ some (record v' { current_element_count = sub64 v'.current_element_count 1 })
  unfolding remove
  remove-run v v' index lt e = rw (leb-false v.current_element_count index lt, e)

  Shifted-contents :
      (v w : Vector A) (index n : ℕ)
      → v.current_element_count ≡ suc n
      → index ≤ n
      → Shifted v (v.current_element_count - index) index w
      → cells w.array 0 n ≡ remove_at index (contents v)
  unfolding contents
  Shifted-contents v w index n all le r = rw all (
      cells-removed n v.array w.array 0 index le (λ j lo. r.below j (omega arith))
        (λ j lo hi. r.moved j (omega arith) (omega arith)))

  shortened :
      (v w : Vector A) (index : ℕ)
      → IsVector v
      → index < v.current_element_count
      → Shifted v (v.current_element_count - index) index w
      → IsVector (record w { current_element_count = sub64 w.current_element_count 1 })
        × (contents (record w { current_element_count = sub64 w.current_element_count 1 })
            ≡ remove_at index (contents v))
  unfolding contents
  shortened v w index ok lt r =
      let n = v.current_element_count - 1 in
      let one_less : sub64 w.current_element_count 1 ≡ n =
        omega (arith, r.count, ok.bound, ok.fits) in
      (
        record {
          fits = omega (arith, r.capacity, ok.fits);
          room = omega (arith, r.capacity, ok.room);
          bound = omega (arith, r.capacity, ok.bound);
        },
        ap (cells w.array 0) one_less ∙ Shifted-contents v w index n (omega arith) (omega arith) r,
      )

  -- remove at the index of an element, in a vector that has a cell to spare behind its elements, does
  -- not panic and takes exactly that element out.
  pub remove-contents :
      (v : Vector A) (index : ℕ)
      → IsVector v
      → index < v.current_element_count
      → v.current_element_count < v.current_capacity
      → (v' : Vector A) × (remove v index ≡ some v')
        × IsVector v'
        × (contents v' ≡ remove_at index (contents v))
  remove-contents v index ok lt spare =
      let (w, e, r) = remove_loop-Shifted (v.current_element_count - index) v index (omega arith) in
      let short = shortened v w index ok lt r in
      (
        record w { current_element_count = sub64 w.current_element_count 1 },
        remove-run v w index lt e,
        short.0,
        short.1,
      )

  remove_loop-full :
      (rounds : ℕ) (v : Vector A) (i : ℕ)
      → i + suc rounds ≡ v.current_capacity
      → remove_loop (suc rounds) v i ≡ none
  unfolding write_cell remove_loop at
  remove_loop-full zero v i full = rw (ltb-false (i + 1) v.current_capacity (omega arith))
  remove_loop-full (suc rounds) v i full =
      remove_loop-step (suc rounds) v i (omega arith)
      ∙ remove_loop-full rounds (write_cell v i (v.array (i + 1))) (i + 1) (omega arith)

  -- A vector that is full panics on the removal of any of its elements: the loop reads the cell behind
  -- the last one.
  pub remove-full :
      (v : Vector A) (index : ℕ)
      → v.current_element_count ≡ v.current_capacity
      → index < v.current_element_count
      → remove v index ≡ none
  unfolding remove
  remove-full v index full lt =
      let rounds : v.current_element_count - index ≡ suc (v.current_element_count - index - 1) =
        omega arith in
      rw (
        leb-false v.current_element_count index lt,
        rounds,
        remove_loop-full (v.current_element_count - index - 1) v index (omega arith),
      )
