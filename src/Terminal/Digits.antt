-- ===== src/Terminal/Digits.antt =====
-- The two loops of itoa: over the digits, and the reversal.
use system.Base.{
  ℕ, zero, suc, ◌+◌, ◌-◌, ◌/◌, ◌%◌, ◌^◌, ◌≤◌, ◌<◌, ◌≡◌, ◌≢◌, inl, inr, refl, ◌∙◌, arith, ◌==◌,
  ==_iff, Bool-cases,
}
use native.Mathlib.Nat.{pow-suc}
use system.Memory.{Memory, load8, store8, load8-store8, store8-frame}
use system.Terminal.{digit_char, itoa_digits}

-- The number without its last `j` decimal digits.
abbrev pub tail : ℕ → ℕ → ℕ
tail zero num = num
tail (suc j) num = tail j (num / 10)

pub tail-suc : (j num : ℕ) → tail (suc j) num ≡ tail j num / 10
tail-suc zero num = refl
tail-suc (suc j) num = tail-suc j (num / 10)

pub load8-store8_other : (m : Memory) (a v b : ℕ) → a ≢ b → load8 (store8 m a v) b ≡ load8 m b
unfolding load8
load8-store8_other m a v b ne = rw (store8-frame m a v b ne)

-- Where the loop over the digits ends, from the index `i` on.
pub record Digits (m : Memory) (num str i k : ℕ) (m' : Memory) (c : ℕ) : Type 0 where
  pub above : i ≤ c
  pub room : c ≤ i + k
  pub all : tail (c - i) num ≡ 0
  pub some_digit : 0 < num → i < c
  pub digit : (j : ℕ) → j < c - i → load8 m' (str + i + j) ≡ 48 + tail j num % 10
  pub same : (b : ℕ) → b < str + i → load8 m' b ≡ load8 m b

digit_at :
    {m' : Memory} {c : ℕ} (m : Memory) (num str i k j : ℕ)
    → Digits (store8 m (str + i) (digit_char (num % 10))) (num / 10) str (i + 1) k m' c
    → j < c - i
    → load8 m' (str + i + j) ≡ 48 + tail j num % 10
digit_at m num str i k zero r lt =
    let here : str + i + 0 ≡ str + i = omega arith in
    let c = digit_char (num % 10) in
    let code : c % 256 ≡ 48 + num % 10 = ground arith in
    rw here (r.same (str + i) (omega arith) ∙ load8-store8 m (str + i) c ∙ code)
digit_at m num str i k (suc j) r lt =
    let here : str + i + suc j ≡ str + (i + 1) + j = omega arith in
    rw here (r.digit j (omega arith))

next_digit :
    {m' : Memory} {c : ℕ} (m : Memory) (num str i k : ℕ)
    → 0 < num
    → Digits (store8 m (str + i) (digit_char (num % 10))) (num / 10) str (i + 1) k m' c
    → Digits m num str i (suc k) m' c
next_digit {m'} {c} m num str i k more r =
    let count : c - i ≡ suc (c - (i + 1)) = omega (arith, r.above) in
    record {
      above = omega (arith, r.above);
      room = omega (arith, r.room);
      all = rw count r.all;
      some_digit = λ lt. omega (arith, r.above);
      digit = λ j lt. digit_at m num str i k j r lt;
      same = λ b lt.
          r.same b (omega arith)
          ∙ load8-store8_other m (str + i) (digit_char (num % 10)) b (omega arith);
    }

no_digit : (m : Memory) (str i k : ℕ) → Digits m 0 str i k m i
no_digit m str i k =
    let none_left : i - i ≡ 0 = omega arith in
    record {
      above = omega arith;
      room = omega arith;
      all = rw none_left;
      some_digit = λ lt. absurd (omega arith);
      digit = λ j lt. absurd (omega arith);
      same = λ b lt. refl;
    }

itoa_digits-zero : (rounds : ℕ) (m : Memory) (str i : ℕ) → itoa_digits rounds m 0 str 10 i ≡ (m, i)
unfolding itoa_digits
itoa_digits-zero zero m str i = refl
itoa_digits-zero (suc rounds) m str i = refl

pub itoa_digits-Digits :
    (rounds k : ℕ) (m : Memory) (num str i : ℕ)
    → k ≤ rounds
    → num < 10 ^ k
    → Digits m num str i k
        (itoa_digits rounds m num str 10 i).0
        (itoa_digits rounds m num str 10 i).1
unfolding itoa_digits
itoa_digits-Digits rounds zero m num str i le small =
    let null : num ≡ 0 = omega arith in
    rw (null, itoa_digits-zero rounds m str i) (no_digit m str i 0)
itoa_digits-Digits zero (suc k) m num str i le small = absurd (omega arith)
itoa_digits-Digits (suc rounds) (suc k) m num str i le small = elim (Bool-cases (num == 0)) [
  | inl end ↦ let null = (==_iff num 0).0 end in rw (end, null) (no_digit m str i (suc k))
  | inr more ↦ rw more (
      next_digit m num str i k (ground arith) (
        itoa_digits-Digits rounds k (store8 m (str + i) (digit_char (num % 10))) (num / 10) str
          (i + 1) (omega arith) (omega (arith, pow-suc 10 k))))
]
