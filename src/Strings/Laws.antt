-- ===== src/Strings/Laws.antt =====
-- The functions of string.c against the string that stands in memory.
use system.Base.{
  ℕ, zero, suc, ◌+◌, ◌≤◌, ◌<◌, ◌≡◌, refl, ◌↔◌, ◌⊎◌, inl, inr, some, ◌∷◌, ap, arith, ◌==◌,
  Bool-cases, length,
}
use system.Base.Int.{pos, signed_char-eq, signed_char-sub_self}
use system.Memory.{Memory, load8, store8, load8-lt, store8-frame, SameOn}
use system.Mem.{memcpy, memcpy-suc, memcpy-zero}
use system.Strings.{
  strncmp_loop, strncmp, strlen_loop, strlen, strnlen_loop, strnlen, strcpy, c_string,
}

strncmp_loop-eq :
    (n : ℕ) (m : Memory) (p q : ℕ) → strncmp_loop n m p q ≡ pos 0 → c_string m p n ≡ c_string m q n
unfolding strncmp_loop c_string
strncmp_loop-eq zero m p q h = refl
strncmp_loop-eq (suc n) m p q h = ground (
  arith,
  load8-lt m p,
  load8-lt m q,
  signed_char-eq (load8 m p) (load8 m q),
  strncmp_loop-eq n m (p + 1) (q + 1),
)

strncmp_loop-zero :
    (n : ℕ) (m : Memory) (p q : ℕ) → c_string m p n ≡ c_string m q n → strncmp_loop n m p q ≡ pos 0
unfolding strncmp_loop c_string
strncmp_loop-zero zero m p q h = refl
strncmp_loop-zero (suc n) m p q h =
    ground (arith, signed_char-sub_self (load8 m p), strncmp_loop-zero n m (p + 1) (q + 1))

-- strncmp returns 0 exactly when the two strings, cut to `n` characters, are equal.
pub strncmp-zero_iff :
    (m : Memory) (p q n : ℕ) → (strncmp m p q n ≡ pos 0) ↔ (c_string m p n ≡ c_string m q n)
unfolding strncmp
strncmp-zero_iff m p q n = (strncmp_loop-eq n m p q, strncmp_loop-zero n m p q)

strnlen_loop_lem :
    (k : ℕ) (m : Memory) (p i : ℕ) → strnlen_loop k m p i ≡ i + length (c_string m p k)
unfolding strnlen_loop c_string
strnlen_loop_lem zero m p i = omega arith
strnlen_loop_lem (suc k) m p i = ground (arith, strnlen_loop_lem k m (p + 1) (i + 1))

-- strnlen is the length of the string, cut to `n` characters.
pub strnlen_lem : (m : Memory) (p n : ℕ) → strnlen m p n ≡ length (c_string m p n)
unfolding strnlen
strnlen_lem m p n = ground (arith, strnlen_loop_lem n m p 0)

strlen_loop_lem :
    (k : ℕ) (m : Memory) (p i : ℕ)
    → length (c_string m p k) < k
    → strlen_loop k m p i ≡ some (i + length (c_string m p k))
unfolding strlen_loop c_string
strlen_loop_lem zero m p i h = absurd (omega arith)
strlen_loop_lem (suc k) m p i h = ground (arith, strlen_loop_lem k m (p + 1) (i + 1))

-- strlen ends and returns the length of the string, once the fuel exceeds that length.
pub strlen_lem :
    (m : Memory) (p fuel : ℕ)
    → length (c_string m p fuel) < fuel
    → strlen fuel m p ≡ some (length (c_string m p fuel))
unfolding strlen
strlen_lem m p fuel h = ground (arith, strlen_loop_lem fuel m p 0)

-- The cut string is no longer than the cut.
pub length-c_string : (n : ℕ) (m : Memory) (p : ℕ) → length (c_string m p n) ≤ n
unfolding c_string
length-c_string zero m p = omega arith
length-c_string (suc n) m p = ground (arith, length-c_string n m (p + 1))

pub c_string-same :
    (n : ℕ) (m m' : Memory) (p : ℕ)
    → SameOn p (length (c_string m p n) + 1) m m'
    → c_string m' p n ≡ c_string m p n
unfolding c_string load8
c_string-same zero m m' p same = refl
c_string-same (suc n) m m' p same = elim (Bool-cases (load8 m p == 0)) [
  | inl done ↦ rw (same p (omega arith) (omega arith), done)
  | inr more ↦
      let same' : SameOn p (suc (length (c_string m (p + 1) n)) + 1) m m' = rw more at same in
      rw (same' p (omega arith) (omega arith), more)
        (ap (λ r. load8 m p ∷ r)
          (c_string-same n m m' (p + 1) (λ b lo hi. same' b (omega arith) (omega arith))))
]

-- strcpy ends, once the fuel exceeds the length of the source string, and leaves the memory that
-- memcpy of the string and its terminator leaves, provided that the destination starts at or below
-- the source, or that the source and its terminator end before the destination starts.
pub strcpy-memcpy :
    (fuel : ℕ) (m : Memory) (d s : ℕ)
    → length (c_string m s fuel) < fuel
    → (d ≤ s) ⊎ (s + length (c_string m s fuel) + 1 ≤ d)
    → strcpy fuel m d s ≡ some (memcpy m d s (suc (length (c_string m s fuel))))
unfolding strcpy c_string
strcpy-memcpy zero m d s h apart = absurd (omega arith)
strcpy-memcpy (suc n) m d s h apart = elim (Bool-cases (load8 m s == 0)) [
  | inl done ↦ rw (done, memcpy-suc, memcpy-zero)
  | inr more ↦
      let m' = store8 m d (load8 m s) in
      let h' : suc (length (c_string m (s + 1) n)) < suc n = rw more at h in
      let apart' : (d ≤ s) ⊎ (s + suc (length (c_string m (s + 1) n)) + 1 ≤ d) = rw more at apart in
      let same : c_string m' (s + 1) n ≡ c_string m (s + 1) n =
        c_string-same n m m' (s + 1) (λ b lo hi. store8-frame m d (load8 m s) b (omega arith)) in
      rw (more, memcpy-suc, ← same)
        (strcpy-memcpy n m' (d + 1) (s + 1) (rw same (omega arith)) (rw same (omega arith)))
]
