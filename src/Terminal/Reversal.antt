-- ===== src/Terminal/Reversal.antt =====
-- The reversal of itoa.
use system.Base.{
  ℕ, zero, suc, ◌+◌, ◌-◌, ◌*◌, ◌≤◌, ◌<◌, ◌≡◌, ◌≢◌, ◌⊎◌, inl, inr, refl, ◌∙◌, arith, ltb, ◌==◌,
  ==_iff, ltb→lt, Bool-cases,
}
use system.Memory.{Memory, load8, store8, load8-store8}
use system.Terminal.{swap, reverse_loop}
use system.Terminal.Digits.{load8-store8_other}

-- The loop of the reversal.
pub record Reversed (m : Memory) (str start last : ℕ) (m' : Memory) : Type 0 where
  pub inside :
      (j : ℕ) → start ≤ j → j ≤ last → load8 m' (str + j) ≡ load8 m (str + (start + last - j))
  pub outside : (j : ℕ) → (j < start) ⊎ (last < j) → load8 m' (str + j) ≡ load8 m (str + j)

swap-last :
    (m : Memory) (str start last : ℕ)
    → load8 (swap m str start last) (str + last) ≡ load8 m (str + start)
unfolding swap load8
swap-last m str start last =
    load8-store8 (store8 m (str + start) (load8 m (str + last))) (str + last)
      (load8 m (str + start))
    ∙ omega arith

swap-start :
    (m : Memory) (str start last : ℕ)
    → start ≢ last
    → load8 (swap m str start last) (str + start) ≡ load8 m (str + last)
unfolding swap load8
swap-start m str start last ne =
    load8-store8_other (store8 m (str + start) (load8 m (str + last))) (str + last)
      (load8 m (str + start)) (str + start) (omega arith)
    ∙ load8-store8 m (str + start) (load8 m (str + last))
    ∙ omega arith

swap-other :
    (m : Memory) (str start last j : ℕ)
    → j ≢ start
    → j ≢ last
    → load8 (swap m str start last) (str + j) ≡ load8 m (str + j)
unfolding swap
swap-other m str start last j ne ne' =
    load8-store8_other (store8 m (str + start) (load8 m (str + last))) (str + last)
      (load8 m (str + start)) (str + j) (omega arith)
    ∙ load8-store8_other m (str + start) (load8 m (str + last)) (str + j) (omega arith)

swapped :
    (m m' : Memory) (str start last : ℕ)
    → start < last
    → Reversed (swap m str start last) str (start + 1) (last - 1) m'
    → Reversed m str start last m'
swapped m m' str start last lt r = record {
  inside = λ j lo hi. elim (Bool-cases (j == start)) [
    | inl first ↦
        let e = (==_iff j start).0 first in
        let there : start + last - start ≡ last = omega arith in
        rw (e, there) (r.outside start (omega arith) ∙ swap-start m str start last (omega arith))
    | inr later ↦ elim (Bool-cases (j == last)) [
      | inl final ↦
          let e = (==_iff j last).0 final in
          let there : start + last - last ≡ start = omega arith in
          rw (e, there) (r.outside last (omega arith) ∙ swap-last m str start last)
      | inr between ↦
          let there : start + 1 + (last - 1) - j ≡ start + last - j = omega arith in
          r.inside j (ground arith) (ground arith)
          ∙ rw there (swap-other m str start last (start + last - j) (ground arith) (ground arith))
    ]
  ];
  outside = λ j out.
      r.outside j (omega arith) ∙ swap-other m str start last j (omega arith) (omega arith);
}

pub reverse_loop-Reversed :
    (rounds : ℕ) (m : Memory) (str start last : ℕ)
    → last < start + 2 * rounds
    → Reversed m str start last (reverse_loop rounds m str start last)
unfolding reverse_loop
reverse_loop-Reversed zero m str start last enough = record {
  inside = λ j lo hi. absurd (omega arith);
  outside = λ j out. refl;
}
reverse_loop-Reversed (suc rounds) m str start last enough = elim (Bool-cases (ltb start last)) [
  | inl more ↦
      let lt = ltb→lt start last more in
      rw more (
        swapped m (reverse_loop rounds (swap m str start last) str (start + 1) (last - 1)) str start
          last lt
          (reverse_loop-Reversed rounds (swap m str start last) str (start + 1) (last - 1)
            (omega arith)))
  | inr met ↦ rw met (record {
    inside = λ j lo hi. let e : start + last - j ≡ j = ground arith in rw e;
    outside = λ j out. refl;
  })
]
