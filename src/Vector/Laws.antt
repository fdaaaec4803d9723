-- ===== src/Vector/Laws.antt =====
-- The vector against the list of its elements.
use system.Base.{
  ℕ, zero, suc, ◌+◌, ◌*◌, ◌%◌, ◌^◌, ◌≤◌, ◌<◌, ◌≡◌, refl, ◌∙◌, ap, arith, Bool-cases, inl, inr, ◌⊎◌,
  leb, ltb, true, false, Option, none, some, List, [], ◌∷◌, ◌++◌, length, ◌==◌, if◌then◌else◌,
  lt→ltb, ==-false, ==_true, ==_iff, add64-eq, ==_true, ==_iff, add64-eq,
}
use system.Vector.{Vector, largest, write_cell, double, put, push_back, at}

module _ {ℓ} {A : Type ℓ} where
  -- The cells from `i` on.
  unfoldable pub cells : (ℕ → A) → (i n : ℕ) → List A
  cells f i zero = []
  cells f i (suc n) = f i ∷ cells f (i + 1) n

  -- The elements that the vector holds, the first one first.
  unfoldable pub contents : Vector A → List A
  unfolding cells
  contents v = cells v.array 0 v.current_element_count

  -- A list without the element at an index.
  unfoldable pub remove_at : ℕ → List A → List A
  remove_at k [] = []
  remove_at zero (x ∷ xs) = xs
  remove_at (suc k) (x ∷ xs) = x ∷ remove_at k xs

  -- The element at an index of a list.
  unfoldable pub get_elem? : List A → ℕ → Option A
  get_elem? [] k = none
  get_elem? (x ∷ xs) zero = some x
  get_elem? (x ∷ xs) (suc k) = get_elem? xs k

  -- The elements fit, and the capacity can be doubled.
  pub record IsVector (v : Vector A) : Type 0 where
    pub fits : v.current_element_count ≤ v.current_capacity
    pub room : 0 < v.current_capacity
    pub bound : v.current_capacity < 2 ^ 64

  cells-same :
      (n : ℕ) (f g : ℕ → A) (i : ℕ)
      → ((j : ℕ) → i ≤ j → j < i + n → f j ≡ g j)
      → cells f i n ≡ cells g i n
  unfolding cells
  cells-same zero f g i same = refl
  cells-same (suc n) f g i same = rw (
    same i (omega arith) (omega arith),
    cells-same n f g (i + 1) (λ j lo hi. same j (omega arith) (omega arith)),
  )

  cells-last : (n : ℕ) (f : ℕ → A) (i : ℕ) → cells f i (suc n) ≡ cells f i n ++ f (i + n) ∷ []
  unfolding cells
  cells-last zero f i = let e : i + 0 ≡ i = omega arith in rw e
  cells-last (suc n) f i =
      let e : i + 1 + n ≡ i + suc n = omega arith in
      ap (λ xs. f i ∷ xs) (cells-last n f (i + 1) ∙ rw e)

  length-cells : (n : ℕ) (f : ℕ → A) (i : ℕ) → length (cells f i n) ≡ n
  unfolding cells
  length-cells zero f i = refl
  length-cells (suc n) f i = rw (length-cells n f (i + 1))

  pub length-contents : (v : Vector A) → length (contents v) ≡ v.current_element_count
  unfolding contents
  length-contents v = length-cells v.current_element_count v.array 0

  get_elem?-cells :
      (n : ℕ) (f : ℕ → A) (i k : ℕ) → k < n → get_elem? (cells f i n) k ≡ some (f (i + k))
  unfolding cells get_elem?
  get_elem?-cells zero f i k lt = absurd (omega arith)
  get_elem?-cells (suc n) f i zero lt = let e : i + 0 ≡ i = omega arith in rw e
  get_elem?-cells (suc n) f i (suc k) lt =
      let e : i + 1 + k ≡ i + suc k = omega arith in
      get_elem?-cells n f (i + 1) k (omega arith) ∙ rw e

  cells-shifted :
      (n : ℕ) (f g : ℕ → A) (i : ℕ)
      → ((j : ℕ) → i ≤ j → j < i + n → g j ≡ f (j + 1))
      → cells g i n ≡ cells f (i + 1) n
  unfolding cells
  cells-shifted zero f g i after = refl
  cells-shifted (suc n) f g i after = rw (
    after i (omega arith) (omega arith),
    cells-shifted n f g (i + 1) (λ j lo hi. after j (omega arith) (omega arith)),
  )

  -- Cells that are moved down by one from `i + k` on are the cells without the one there.
  pub cells-removed :
      (n : ℕ) (f g : ℕ → A) (i k : ℕ)
      → k ≤ n
      → ((j : ℕ) → j < i + k → g j ≡ f j)
      → ((j : ℕ) → i + k ≤ j → j < i + n → g j ≡ f (j + 1))
      → cells g i n ≡ remove_at k (cells f i (suc n))
  unfolding cells remove_at
  cells-removed n f g i zero le before after =
      cells-shifted n f g i (λ j lo hi. after j (omega arith) (omega arith))
  cells-removed zero f g i (suc k) le before after = absurd (omega arith)
  cells-removed (suc n) f g i (suc k) le before after = rw (
    before i (omega arith),
    cells-removed n f g (i + 1) k (omega arith) (λ j lt. before j (omega arith))
        (λ j lo hi. after j (omega arith) (omega arith)),
  )

  put-pushed :
      (v : Vector A) (x : A)
      → v.current_element_count < v.current_capacity
      → v.current_capacity < 2 ^ 64
      → IsVector (put v x) × (contents (put v x) ≡ contents v ++ x ∷ [])
  unfolding contents write_cell put
  put-pushed v x room bound =
      let n = v.current_element_count in
      let next : n + 1 ≡ suc n = omega arith in
      rw (add64-eq n 1 (omega arith)) (
        record { fits = omega arith; room = omega arith; bound = bound },
        rw next (
            cells-last n (write_cell v n x).array 0
            ∙ rw (
              cells-same n (write_cell v n x).array v.array 0
                  (λ j lo hi. rw (==-false j n (omega arith))),
              ==_true (0 + n) n (omega arith),
            )),
      )

  -- The vector with its block doubled.
  abbrev doubled : (ℕ → A) → Vector A → Vector A
  doubled fresh v = record v {
    array = λ i. if ltb i v.current_capacity then v.array i else fresh i;
    current_capacity = v.current_capacity * 2 % 2 ^ 64;
  }

  doubled-kept :
      (fresh : ℕ → A) (v : Vector A)
      → v.current_element_count ≤ v.current_capacity
      → contents (doubled fresh v) ≡ contents v
  unfolding contents
  doubled-kept fresh v fits =
      cells-same v.current_element_count (doubled fresh v).array v.array 0
        (λ j lo hi. rw (lt→ltb j v.current_capacity (omega arith)))

  push_back-full :
      (size : ℕ) (fresh : ℕ → A) (v : Vector A) (x : A)
      → v.current_element_count ≡ v.current_capacity
      → size * (v.current_capacity * 2) ≤ largest
      → push_back size (some fresh) v x ≡ some (put (doubled fresh v) x)
  unfolding push_back double
  push_back-full size fresh v x full served =
      let enough : leb (size * (v.current_capacity * 2) % 2 ^ 64) largest ≡ true = ground arith in
      rw (==_true v.current_capacity v.current_element_count (omega arith), enough)

  push_back-room :
      (size : ℕ) (fresh : Option (ℕ → A)) (v : Vector A) (x : A)
      → (v.current_capacity == v.current_element_count) ≡ false
      → push_back size fresh v x ≡ some (put v x)
  unfolding push_back
  push_back-room size fresh v x room = rw room

  -- What push_back leaves: the value behind the elements, in a block that was doubled if it was full.
  pub record Pushed (size : ℕ) (fresh : ℕ → A) (v : Vector A) (x : A) : Type ℓ where
    pub result : Vector A
    pub pushed : push_back size (some fresh) v x ≡ some result
    pub is_vector : IsVector result
    pub elements : contents result ≡ contents v ++ x ∷ []
    pub capacity : result.current_capacity ≡ (
        if v.current_capacity == v.current_element_count
        then v.current_capacity * 2
        else v.current_capacity)
    pub count : result.current_element_count ≡ v.current_element_count + 1

  -- push_back onto a vector of fewer than 2 ^ 63 cells, which has room or whose doubled block, for elements
  -- of `size` bytes, is at most what the heap's blocks hold, puts the value behind the elements, in a block
  -- that was doubled if it was full; what the new block holds besides does not matter, as long as the heap
  -- has pages for it.
  pub push_back-Pushed :
      (size : ℕ) (fresh : ℕ → A) (v : Vector A) (x : A)
      → IsVector v
      → v.current_capacity < 2 ^ 63
      → (v.current_element_count < v.current_capacity) ⊎ (size * (v.current_capacity * 2) ≤ largest)
      → Pushed size fresh v x
  unfolding put write_cell
  push_back-Pushed size fresh v x ok small served =
      elim (Bool-cases (v.current_capacity == v.current_element_count)) [
        | inl full ↦
            let e = (==_iff v.current_capacity v.current_element_count).0 full in
            let large : size * (v.current_capacity * 2) ≤ largest = elim served [
              | inl room ↦ absurd (omega arith)
              | inr enough ↦ enough
            ] in
            let p = put-pushed (doubled fresh v) x (omega (arith, ok.room)) (omega arith) in
            record {
              result = put (doubled fresh v) x;
              pushed = push_back-full size fresh v x (omega arith) large;
              is_vector = p.0;
              elements = p.1 ∙ rw (doubled-kept fresh v ok.fits);
              capacity = rw full (omega arith);
              count = omega (arith, ok.fits, ok.bound);
            }
        | inr room ↦
            let p = put-pushed v x (ground (arith, ok.fits)) ok.bound in
            record {
              result = put v x;
              pushed = push_back-room size (some fresh) v x room;
              is_vector = p.0;
              elements = p.1;
              capacity = rw room;
              count = omega (arith, ok.fits, ok.bound);
            }
      ]

  -- push_back onto a full vector fails when the doubled block is larger than what the heap's blocks hold.
  pub push_back-fails :
      (size : ℕ) (fresh : Option (ℕ → A)) (v : Vector A) (x : A)
      → v.current_element_count ≡ v.current_capacity
      → largest < size * (v.current_capacity * 2)
      → size * (v.current_capacity * 2) < 2 ^ 64
      → push_back size fresh v x ≡ none
  unfolding push_back double
  push_back-fails size none v x full large fits =
      rw (==_true v.current_capacity v.current_element_count (omega arith))
  push_back-fails size (some fresh) v x full large fits =
      let refused : leb (size * (v.current_capacity * 2) % 2 ^ 64) largest ≡ false = ground arith in
      rw (==_true v.current_capacity v.current_element_count (omega arith), refused)

  -- at gives the element at an index below the number of elements.
  pub at-get_elem? :
      (v : Vector A) (index : ℕ)
      → IsVector v
      → index < v.current_element_count
      → at v index ≡ get_elem? (contents v) index
  unfolding at contents
  at-get_elem? v index ok lt =
      let below = ok.fits in
      rw
        (
          lt→ltb index v.current_capacity (omega arith),
          get_elem?-cells v.current_element_count v.array 0 index lt,
        )
        (ap (λ k. some (v.array k)) (omega arith))
