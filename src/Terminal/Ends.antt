-- ===== src/Terminal/Ends.antt =====
-- The string that itoa leaves in its buffer, by the digits of the number.
use system.Base.{
  ℕ, suc, ◌+◌, ◌-◌, ◌%◌, ◌<◌, ◌≡◌, sym, ◌∙◌, ap, arith, true, false, [], ◌∷◌, ==-false, lt→ltb,
}
use system.Memory.{Memory, load8, store8, load8-store8}
use system.Strings.{c_string}
use system.Terminal.{reverse_loop, finish}
use system.Terminal.Digits.{tail, load8-store8_other, Digits}
use system.Terminal.Reversal.{reverse_loop-Reversed}

-- A string that consists of the last `j` digits of a number.
unfoldable pub Ends : Memory → (p j num : ℕ) → Type 0
Ends m p j num =
    ((x : ℕ) → x < j → load8 m (p + x) ≡ 48 + tail (j - 1 - x) num % 10) × (load8 m (p + j) ≡ 0)

pub c_string-nil : (m : Memory) (p e : ℕ) → load8 m p ≡ 0 → c_string m p (suc e) ≡ []
unfolding c_string
c_string-nil m p e z = rw z

pub c_string-cons :
    (m : Memory) (p e c : ℕ)
    → load8 m p ≡ c
    → 0 < c
    → c_string m p (suc e) ≡ c ∷ c_string m (p + 1) e
unfolding c_string
c_string-cons m p e c z lt = rw (z, ==-false c 0 (omega arith))

pub Ends-next : (m : Memory) (p j num : ℕ) → Ends m p (suc j) num → Ends m (p + 1) j num
unfolding Ends
Ends-next m p j num ends = (
  λ x lt.
      let there : p + 1 + x ≡ p + suc x = omega arith in
      let left : suc j - 1 - suc x ≡ j - 1 - x = omega arith in
      rw there (ends.0 (suc x) (omega arith) ∙ rw left),
  (let there : p + 1 + j ≡ p + suc j = omega arith in rw there ends.1),
)

pub Ends-first :
    (m : Memory) (p j num : ℕ) → Ends m p (suc j) num → load8 m p ≡ 48 + tail j num % 10
unfolding Ends
Ends-first m p j num ends =
    let here : p + 0 ≡ p = omega arith in
    let left : suc j - 1 - 0 ≡ j = omega arith in
    ap (load8 m) (sym here) ∙ ends.0 0 (omega arith) ∙ rw left

-- The terminator is put behind the characters and they are reversed.
reversed_at :
    (m : Memory) (str i x : ℕ)
    → x < i
    → load8 (reverse_loop i (store8 m (str + i) 0) str 0 (i - 1)) (str + x)
      ≡ load8 m (str + (i - 1 - x))
reversed_at m str i x lt =
    let r = reverse_loop-Reversed i (store8 m (str + i) 0) str 0 (i - 1) (omega arith) in
    let there : 0 + (i - 1) - x ≡ i - 1 - x = omega arith in
    r.inside x (omega arith) (omega arith)
    ∙ rw there (load8-store8_other m (str + i) 0 (str + (i - 1 - x)) (omega arith))

reversed_end :
    (m : Memory) (str i : ℕ)
    → 0 < i
    → load8 (reverse_loop i (store8 m (str + i) 0) str 0 (i - 1)) (str + i) ≡ 0
reversed_end m str i lt =
    (reverse_loop-Reversed i (store8 m (str + i) 0) str 0 (i - 1) (omega arith)).outside i
      (omega arith)
    ∙ load8-store8 m (str + i) 0
    ∙ omega arith

pub finish-positive :
    {m m' : Memory} {num k c : ℕ} (str n : ℕ)
    → 0 < num
    → Digits m num str 0 k m' c
    → Ends (finish m' false str n c) str c num
unfolding finish Ends
finish-positive {m} {m'} {num} {k} {c} str n more r = (
  λ x lt.
      let here : str + 0 + (c - 1 - x) ≡ str + (c - 1 - x) = omega arith in
      reversed_at m' str c x lt ∙ ap (load8 m') (sym here) ∙ r.digit (c - 1 - x) (omega arith),
  reversed_end m' str c (omega (arith, r.some_digit)),
)

pub finish-negative :
    {m m' : Memory} {num k c : ℕ} (str n : ℕ)
    → c < n - 1
    → Digits m num str 0 k m' c
    → (load8 (finish m' true str n c) str ≡ 45) × Ends (finish m' true str n c) (str + 1) c num
unfolding finish Ends
finish-negative {m} {m'} {num} {k} {c} str n room r =
    let m'' = store8 m' (str + c) 45 in
    let signed = lt→ltb c (n - 1) room in
    rw signed (
      (let here : str + 0 ≡ str = omega arith in
          let there : c + 1 - 1 - 0 ≡ c = omega arith in
          ap (load8 (reverse_loop (c + 1) (store8 m'' (str + (c + 1)) 0) str 0 (c + 1 - 1)))
            (sym here)
          ∙ reversed_at m'' str (c + 1) 0 (omega arith)
          ∙ rw there (load8-store8 m' (str + c) 45)),
      (
        λ x lt.
            let from : str + 1 + x ≡ str + suc x = omega arith in
            let to : c + 1 - 1 - suc x ≡ c - 1 - x = omega arith in
            let here : str + 0 + (c - 1 - x) ≡ str + (c - 1 - x) = omega arith in
            rw from (
              reversed_at m'' str (c + 1) (suc x) (omega arith)
              ∙ rw to (
                  load8-store8_other m' (str + c) 45 (str + (c - 1 - x)) (omega arith)
                  ∙ ap (load8 m') (sym here)
                  ∙ r.digit (c - 1 - x) (omega arith))),
        (let there : str + 1 + c ≡ str + (c + 1) = omega arith in
            rw there (reversed_end m'' str (c + 1) (omega arith))),
      ),
    )
