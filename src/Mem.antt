-- ===== src/Mem.antt =====
-- kernel/src/mm/mem.c: memcpy and memset. Both return their first argument, which is left out, so
-- that the result is the memory alone. Lengths and addresses stay below 2 ^ 64.
use native.Mathlib.Nat.{add-zero}
use system.Base.{
  ℕ, zero, suc, ◌+◌, ◌-◌, ◌%◌, ◌≤◌, ◌≡◌, refl, ◌⊎◌, ◌&&◌, arith, ltb, leb, if◌then◌else◌,
}
use system.Memory.{Memory, load8, store8, Outside}

-- The loop from index `i` on, with its rounds left.
pub memcpy_loop : ℕ → Memory → (destination source i : ℕ) → Memory
memcpy_loop zero m destination source i = m
memcpy_loop (suc k) m destination source i =
    memcpy_loop k (store8 m (destination + i) (load8 m (source + i))) destination source (i + 1)

unfoldable pub memcpy : Memory → (destination source n : ℕ) → Memory
unfolding memcpy_loop
memcpy m destination source n = memcpy_loop n m destination source 0

memset_loop : ℕ → Memory → (destination val i : ℕ) → Memory
memset_loop zero m destination val i = m
memset_loop (suc k) m destination val i =
    memset_loop k (store8 m (destination + i) val) destination val (i + 1)

-- `val` is the bit pattern of an `int`, and its low byte is written.
unfoldable pub memset : Memory → (destination val n : ℕ) → Memory
unfolding memset_loop
memset m destination val n = memset_loop n m destination val 0

memset_loop_lem :
    (k : ℕ) (m : Memory) (d v i b : ℕ)
    → memset_loop k m d v i b ≡ (if leb (d + i) b && ltb b (d + i + k) then v % 256 else m b)
unfolding memset_loop store8
memset_loop_lem zero m d v i b = ground arith
memset_loop_lem (suc k) m d v i b =
    ground (arith, memset_loop_lem k (store8 m (d + i) v) d v (i + 1) b)

-- After memset every byte of the block is the low byte of the value, and every byte outside the
-- block is what it was.
pub memset_lem :
    (m : Memory) (d v n b : ℕ)
    → memset m d v n b ≡ (if leb d b && ltb b (d + n) then v % 256 else m b)
unfolding memset
memset_lem m d v n b = ground (arith, memset_loop_lem n m d v 0 b)

pub memset-frame : (m : Memory) (d v n b : ℕ) → Outside b d n → memset m d v n b ≡ m b
memset-frame m d v n b out = ground (arith, memset_lem m d v n b)

pub memcpy_loop_lem :
    (k : ℕ) (m : Memory) (d s i b : ℕ)
    → (d ≤ s) ⊎ (s + i + k ≤ d)
    → memcpy_loop k m d s i b
      ≡ (if leb (d + i) b && ltb b (d + i + k) then load8 m (s + (b - d)) else m b)
unfolding memcpy_loop store8 load8
memcpy_loop_lem zero m d s i b apart = ground arith
memcpy_loop_lem (suc k) m d s i b apart =
    ground
      (arith, memcpy_loop_lem k (store8 m (d + i) (load8 m (s + i))) d s (i + 1) b (omega arith))

-- memcpy gives the destination the bytes that the source had before the call and leaves every
-- other byte alone, provided that the destination starts at or below the source, or that the source
-- ends before the destination starts.
pub memcpy_lem :
    (m : Memory) (d s n b : ℕ)
    → (d ≤ s) ⊎ (s + n ≤ d)
    → memcpy m d s n b ≡ (if leb d b && ltb b (d + n) then load8 m (s + (b - d)) else m b)
unfolding memcpy
memcpy_lem m d s n b apart = ground (arith, memcpy_loop_lem n m d s 0 b (omega arith))

memcpy_loop-shift :
    (k : ℕ) (m : Memory) (d s i : ℕ)
    → memcpy_loop k m d s (i + 1) ≡ memcpy_loop k m (d + 1) (s + 1) i
unfolding memcpy_loop
memcpy_loop-shift zero m d s i = refl
memcpy_loop-shift (suc k) m d s i =
    let e : d + (i + 1) ≡ d + 1 + i = omega arith in
    let e' : s + (i + 1) ≡ s + 1 + i = omega arith in
    rw (memcpy_loop-shift k (store8 m (d + (i + 1)) (load8 m (s + (i + 1)))) d s (i + 1), e, e')

-- Copying one byte more is copying the first byte, and then the others.
pub memcpy-suc :
    (n : ℕ) (m : Memory) (d s : ℕ)
    → memcpy m d s (suc n) ≡ memcpy (store8 m d (load8 m s)) (d + 1) (s + 1) n
unfolding memcpy memcpy_loop
memcpy-suc n m d s = rw (add-zero, add-zero) (memcpy_loop-shift n (store8 m d (load8 m s)) d s 0)

pub memcpy-zero : (m : Memory) (d s : ℕ) → memcpy m d s 0 ≡ m
unfolding memcpy memcpy_loop
memcpy-zero m d s = refl
