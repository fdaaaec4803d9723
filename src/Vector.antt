-- ===== src/Vector.antt =====
-- The class Lib::Vector of kernel/include/libs/kernel.hpp, with the heap block behind `Array` as a
-- function of the index. `none` is the panic on an index out of bounds, or a request that the heap cannot
-- serve. The heap's own bytes, which lie apart from what a vector's elements point to, are not shown.

pub mod Laws
pub mod Remove
pub mod Growth
use system.Base.{
  ◌>>=◌, ℕ, zero, suc, ◌-◌, ◌+◌, ◌*◌, ◌%◌, ◌^◌, Option, none, some, ltb, leb, ◌==◌, if◌then◌else◌,
  add64, sub64,
}

-- The heap grows by blocks of ten pages, which it never joins, and an object has a header of 16 bytes in its
-- block (kernel/src/mm/heap.cpp).
abbrev pub largest : ℕ
largest = 10 * 0x1000 - 16

pub record Vector {ℓ} (A : Type ℓ) : Type ℓ where
  pub array : ℕ → A
  pub current_capacity : ℕ
  pub current_element_count : ℕ

module _ {ℓ} {A : Type ℓ} where
  -- What a new block holds past the bytes that were copied to it is the parameter `fresh`.
  unfoldable pub created : (fresh : ℕ → A) → Vector A
  created fresh = record { array = fresh; current_capacity = 1; current_element_count = 0 }

  -- `Array[index] = value`
  pub write_cell : Vector A → (index : ℕ) → A → Vector A
  write_cell v index value = record v { array = λ i. if i == index then value else v.array i }

  -- Reallocate to a block of twice the size, for elements of `size` bytes. `fresh` is what the new block holds,
  -- or nothing when the heap is out of pages; a request above `largest` is never served.
  pub double : (size : ℕ) → (fresh : Option (ℕ → A)) → Vector A → Option (Vector A)
  double size none v = none
  double size (some fresh) v =
      if leb (size * (v.current_capacity * 2) % 2 ^ 64) largest
      then some (record v {
        array = λ i. if ltb i v.current_capacity then v.array i else fresh i;
        current_capacity = v.current_capacity * 2 % 2 ^ 64;
      })
      else none

  -- `Array[CurrentElementCount] = value`, and the count.
  pub put : Vector A → A → Vector A
  unfolding write_cell
  put v value = record (write_cell v v.current_element_count value) {
    current_element_count = add64 v.current_element_count 1;
  }

  unfoldable pub push_back :
      (size : ℕ) → (fresh : Option (ℕ → A)) → Vector A → A → Option (Vector A)
  unfolding double put
  push_back size fresh v value = do
    v' ← if v.current_capacity == v.current_element_count then double size fresh v else some v
    some (put v' value)

  unfoldable pub at : Vector A → (index : ℕ) → Option A
  at v index = if ltb index v.current_capacity then some (v.array index) else none

  -- `at(index) = value`
  pub set_at : Vector A → (index : ℕ) → A → Option (Vector A)
  unfolding write_cell
  set_at v index value =
      if ltb index v.current_capacity then some (write_cell v index value) else none

  unfoldable pub pop_back : Vector A → Vector A
  pop_back v = record v { current_element_count = sub64 v.current_element_count 1 }

  unfoldable pub size : Vector A → ℕ
  size v = v.current_element_count % 2 ^ 16

  unfoldable pub front : Vector A → Option A
  unfolding at
  front v = at v 0

  unfoldable pub back : Vector A → Option A
  unfolding at
  back v = at v (sub64 v.current_element_count 1)

  -- The loop of remove from `i` on, with its rounds left.
  pub remove_loop : (rounds : ℕ) → Vector A → (i : ℕ) → Option (Vector A)
  unfolding at set_at
  remove_loop zero v i = some v
  remove_loop (suc rounds) v i = do
    next ← at v (i + 1)
    v' ← set_at v i next
    remove_loop rounds v' (i + 1)

  unfoldable pub remove : Vector A → (index : ℕ) → Option (Vector A)
  unfolding remove_loop
  remove v index = if leb v.current_element_count index then none else (do
    v' ← remove_loop (v.current_element_count - index) v index
    some (record v' { current_element_count = sub64 v'.current_element_count 1 }))
