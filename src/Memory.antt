-- ===== src/Memory.antt =====
-- Byte-addressed memory, and little-endian words in it.
use native.Mathlib.Nat.{pow-suc}
use system.Base.{
  ℕ, zero, suc, ◌+◌, ◌*◌, ◌/◌, ◌%◌, ◌^◌, ◌≤◌, ◌<◌, ◌≡◌, refl, ◌≢◌, ◌⊎◌, arith, ◌==◌, if◌then◌else◌,
}

-- The byte at address `a` is `m a % 256`.
abbrev pub Memory : Type 0
Memory = ℕ → ℕ

unfoldable pub load8 : Memory → ℕ → ℕ
load8 m a = m a % 256

unfoldable pub store8 : Memory → ℕ → ℕ → Memory
store8 m a v b = if a == b then v % 256 else m b

-- The `n` bytes from `a` on, as a little-endian number.
unfoldable pub load : ℕ → Memory → ℕ → ℕ
load zero m a = 0
load (suc n) m a = load8 m a + 256 * load n m (a + 1)

pub store : ℕ → Memory → ℕ → ℕ → Memory
store zero m a v = m
store (suc n) m a v = store8 (store n m (a + 1) (v / 256)) a v

unfoldable pub load64 : Memory → ℕ → ℕ
load64 = load 8

unfoldable pub load32 : Memory → ℕ → ℕ
load32 = load 4

unfoldable pub store64 : Memory → ℕ → ℕ → Memory
store64 = store 8

-- `m'` holds the same as `m` at the `n` addresses from `a` on.
abbrev pub SameOn : ℕ → ℕ → Memory → Memory → Type 0
SameOn a n m m' = (b : ℕ) → a ≤ b → b < a + n → m' b ≡ m b

-- `b` is none of the `n` addresses from `a` on.
abbrev pub Outside : ℕ → ℕ → ℕ → Type 0
Outside b a n = (b < a) ⊎ (a + n ≤ b)

pub store8-frame : (m : Memory) (a v b : ℕ) → a ≢ b → store8 m a v b ≡ m b
unfolding store8
store8-frame m a v b h = ground arith

pub load8-store8 : (m : Memory) (a v : ℕ) → load8 (store8 m a v) a ≡ v % 256
unfolding load8 store8
load8-store8 m a v = ground arith

pub store-frame : (n : ℕ) (m : Memory) (a v b : ℕ) → Outside b a n → store n m a v b ≡ m b
unfolding store
store-frame zero m a v b h = refl
store-frame (suc n) m a v b h =
    rw (store8-frame (store n m (a + 1) (v / 256)) a v b (omega arith))
      (store-frame n m (a + 1) (v / 256) b (omega arith))

pub load-same : (n : ℕ) (m m' : Memory) (a : ℕ) → SameOn a n m m' → load n m' a ≡ load n m a
unfolding load load8
load-same zero m m' a same = refl
load-same (suc n) m m' a same =
    rw (same a (omega arith) (omega arith))
      (omega (arith, load-same n m m' (a + 1) (λ b p q. same b (omega arith) (omega arith))))

pub load-lt : (n : ℕ) (m : Memory) (a : ℕ) → load n m a < 256 ^ n
unfolding load load8
load-lt zero m a = omega arith
load-lt (suc n) m a = omega (arith, pow-suc 256 n, load-lt n m (a + 1))

-- What was stored is read back, if it fits.
pub load-store : (n : ℕ) (m : Memory) (a v : ℕ) → v < 256 ^ n → load n (store n m a v) a ≡ v
unfolding load store
load-store zero m a v fits = omega arith
load-store (suc n) m a v fits = omega (
  arith,
  pow-suc 256 n,
  load8-store8 (store n m (a + 1) (v / 256)) a v,
  load-same n (store n m (a + 1) (v / 256)) (store8 (store n m (a + 1) (v / 256)) a v) (a + 1)
      (λ b p q. store8-frame (store n m (a + 1) (v / 256)) a v b (omega arith)),
  load-store n m (a + 1) (v / 256) (omega arith),
)

pub load64-same : (m m' : Memory) (a : ℕ) → SameOn a 8 m m' → load64 m' a ≡ load64 m a
unfolding load64
load64-same m m' a same = load-same 8 m m' a same

pub load32-lt : (m : Memory) (a : ℕ) → load32 m a < 2 ^ 32
unfolding load32
load32-lt m a = load-lt 4 m a

pub load64-lt : (m : Memory) (a : ℕ) → load64 m a < 2 ^ 64
unfolding load64
load64-lt m a = load-lt 8 m a

pub load64-store64 : (m : Memory) (a v : ℕ) → v < 2 ^ 64 → load64 (store64 m a v) a ≡ v
unfolding load64 store64
load64-store64 m a v fits = load-store 8 m a v fits

pub store64-frame : (m : Memory) (a v b : ℕ) → Outside b a 8 → store64 m a v b ≡ m b
unfolding store64
store64-frame m a v b out = store-frame 8 m a v b out

-- A word is not changed by a write to a word that it does not overlap.
pub load64-store64_apart :
    (m : Memory) (a v b : ℕ) → (a + 8 ≤ b) ⊎ (b + 8 ≤ a) → load64 (store64 m a v) b ≡ load64 m b
load64-store64_apart m a v b apart =
    load64-same m (store64 m a v) b (λ c p q. store64-frame m a v c (omega arith))

pub load8-lt : (m : Memory) (a : ℕ) → load8 m a < 256
unfolding load8
load8-lt m a = omega arith

load-zero : (n : ℕ) (m : Memory) (a : ℕ) → ((b : ℕ) → a ≤ b → b < a + n → m b ≡ 0) → load n m a ≡ 0
unfolding load load8
load-zero zero m a z = refl
load-zero (suc n) m a z =
    rw (z a (omega arith) (omega arith))
      (omega (arith, load-zero n m (a + 1) (λ b lo hi. z b (omega arith) (omega arith))))

-- Eight zero bytes are the word 0.
pub load64-zero : (m : Memory) (a : ℕ) → ((b : ℕ) → a ≤ b → b < a + 8 → m b ≡ 0) → load64 m a ≡ 0
unfolding load64
load64-zero m a z = load-zero 8 m a z
