-- ===== src/Terminal/Itoa.antt =====
-- The digits that itoa writes.
use system.Base.{
  ℕ, zero, suc, ◌+◌, ◌-◌, ◌*◌, ◌%◌, ◌^◌, ◌<◌, ◌≡◌, ◌≢◌, sym, ◌∙◌, ap, arith, true, false, List, [],
  ◌∷◌, ◌==◌, ==-false, if◌then◌else◌,
}
use system.Base.Int.{ℤ, pos, negsuc}
use system.Memory.{Memory, load8, store8, load8-store8}
use system.Strings.{c_string}
use system.Terminal.{itoa_digits, is_negative, magnitude, finish, itoa}
use system.Terminal.Digits.{tail, tail-suc, load8-store8_other, itoa_digits-Digits}
use system.Terminal.Ends.{
  Ends, c_string-nil, c_string-cons, Ends-next, Ends-first, finish-positive, finish-negative,
}

-- The value of a string of decimal digits behind the number `a`, and of one with an optional sign.
unfoldable pub decimal_value : List ℕ → ℕ → ℕ
decimal_value [] a = a
decimal_value (c ∷ cs) a = decimal_value cs (a * 10 + (c - 48))

abbrev pub minus : ℕ → ℤ
minus zero = pos 0
minus (suc n) = negsuc n

unfoldable pub int_value : List ℕ → ℤ
unfolding decimal_value
int_value [] = pos 0
int_value (c ∷ cs) = if c == 45 then minus (decimal_value cs 0) else pos (decimal_value (c ∷ cs) 0)

decimal_value-Ends :
    (j e : ℕ) (m : Memory) (p num : ℕ)
    → Ends m p j num
    → decimal_value (c_string m p (j + suc e)) (tail j num) ≡ num
unfolding decimal_value Ends
decimal_value-Ends zero e m p num ends =
    let end : load8 m p ≡ 0 =
      (let here : p + 0 ≡ p = omega arith in ap (load8 m) (sym here) ∙ ends.1) in
    let room : 0 + suc e ≡ suc e = omega arith in rw (room, c_string-nil m p e end)
decimal_value-Ends (suc j) e m p num ends =
    let first = Ends-first m p j num ends in
    let room : suc j + suc e ≡ suc (j + suc e) = omega arith in
    let together : tail (suc j) num * 10 + (48 + tail j num % 10 - 48) ≡ tail j num =
      omega (arith, tail-suc j num) in
    rw (room, c_string-cons m p (j + suc e) (48 + tail j num % 10) first (omega arith))
      (ap (decimal_value (c_string m (p + 1) (j + suc e))) together
        ∙ decimal_value-Ends j e m (p + 1) num (Ends-next m p j num ends))

int_value-cons :
    (c : ℕ) (cs : List ℕ) → c ≢ 45 → int_value (c ∷ cs) ≡ pos (decimal_value (c ∷ cs) 0)
unfolding int_value
int_value-cons c cs ne = rw (==-false c 45 ne)

int_value-positive :
    (j e : ℕ) (m : Memory) (p num : ℕ)
    → Ends m p j num
    → 0 < j
    → tail j num ≡ 0
    → int_value (c_string m p (j + suc e)) ≡ pos num
int_value-positive zero e m p num ends lt all = absurd (omega arith)
int_value-positive (suc j) e m p num ends lt all =
    let first = Ends-first m p j num ends in
    let room : suc j + suc e ≡ suc (j + suc e) = omega arith in
    let c = 48 + tail j num % 10 in
    let cs = c_string m (p + 1) (j + suc e) in
    let string : c_string m p (suc j + suc e) ≡ c ∷ cs =
      rw room (c_string-cons m p (j + suc e) c first (omega arith)) in
    ap int_value string
    ∙ int_value-cons c cs (omega arith)
    ∙ ap pos (
        ap (λ l. decimal_value l 0) (sym string)
        ∙ ap (decimal_value (c_string m p (suc j + suc e))) (sym all)
        ∙ decimal_value-Ends (suc j) e m p num ends)

int_value-negative :
    (j e : ℕ) (m : Memory) (p num : ℕ)
    → load8 m p ≡ 45
    → Ends m (p + 1) j num
    → tail j num ≡ 0
    → int_value (c_string m p (suc (j + suc e))) ≡ minus num
unfolding int_value
int_value-negative j e m p num sign ends all =
    let value = decimal_value-Ends j e m (p + 1) num ends in
    rw (c_string-cons m p (j + suc e) 45 sign (omega arith))
      (ap minus (ap (decimal_value (c_string m (p + 1) (j + suc e))) (sym all) ∙ value))

pub itoa-zero :
    (m : Memory) (str k : ℕ)
    → itoa m (pos 0) str (suc (suc k)) ≡ store8 (store8 m str 48) (str + 1) 0
unfolding itoa
itoa-zero m str k = rw (==-false (suc (suc k)) 0 (omega arith))

pub itoa-finish :
    (m : Memory) (num : ℤ) (str k : ℕ)
    → 0 < magnitude num
    → itoa m num str (suc (suc k))
      ≡ finish
          (itoa_digits (suc k) m (magnitude num) str 10 0).0
          (is_negative num)
          str
          (suc (suc k))
          (itoa_digits (suc k) m (magnitude num) str 10 0).1
unfolding itoa
itoa-finish m num str k more =
    let rounds : suc (suc k) - 1 ≡ suc k = omega arith in
    rw (==-false (suc (suc k)) 0 (omega arith), ==-false (magnitude num) 0 (omega arith), rounds)

int_value-zero :
    (m : Memory) (str k : ℕ)
    → int_value (c_string (store8 (store8 m str 48) (str + 1) 0) str (suc (suc k))) ≡ pos 0
unfolding int_value
int_value-zero m str k =
    let m' = store8 (store8 m str 48) (str + 1) 0 in
    let first : load8 m' str ≡ 48 =
      load8-store8_other (store8 m str 48) (str + 1) 0 str (omega arith) ∙ load8-store8 m str 48 in
    let end : load8 m' (str + 1) ≡ 0 = load8-store8 (store8 m str 48) (str + 1) 0 in
    rw (c_string-cons m' str (suc k) 48 first (omega arith), c_string-nil m' (str + 1) k end)

-- itoa writes a number above -2 ^ 31 in decimal: the string in the buffer reads as the number again,
-- with a minus sign in front if it is negative, when the number has at most two digits fewer than the
-- buffer has characters.
pub itoa-int_value :
    (m : Memory) (num : ℤ) (str k : ℕ)
    → magnitude num < 10 ^ k
    → int_value (c_string (itoa m num str (suc (suc k))) str (suc (suc k))) ≡ num
itoa-int_value m (pos zero) str k small = rw (itoa-zero m str k) (int_value-zero m str k)
itoa-int_value m (pos (suc n)) str k small =
    let r = itoa_digits-Digits (suc k) k m (suc n) str 0 (omega arith) (omega arith) in
    let c = (itoa_digits (suc k) m (suc n) str 10 0).1 in
    let count : c ≡ c - 0 = omega arith in
    let none_left : tail c (suc n) ≡ 0 = ap (λ l. tail l (suc n)) count ∙ r.all in
    let size : suc (suc k) ≡ c + suc (suc k - c) = omega (arith, r.room) in
    let m' = finish (itoa_digits (suc k) m (suc n) str 10 0).0 false str (suc (suc k)) c in
    rw (itoa-finish m (pos (suc n)) str k (omega arith)) (
      ap (λ l. int_value (c_string m' str l)) size
      ∙ int_value-positive c (suc k - c) m' str (suc n)
          (finish-positive str (suc (suc k)) (omega arith) r) (r.some_digit (omega arith))
          none_left)
itoa-int_value m (negsuc n) str k small =
    let r = itoa_digits-Digits (suc k) k m (suc n) str 0 (omega arith) (omega arith) in
    let c = (itoa_digits (suc k) m (suc n) str 10 0).1 in
    let count : c ≡ c - 0 = omega arith in
    let none_left : tail c (suc n) ≡ 0 = ap (λ l. tail l (suc n)) count ∙ r.all in
    let size : suc (suc k) ≡ suc (c + suc (k - c)) = omega (arith, r.room) in
    let m' = finish (itoa_digits (suc k) m (suc n) str 10 0).0 true str (suc (suc k)) c in
    let done = finish-negative str (suc (suc k)) (omega (arith, r.room)) r in
    rw (itoa-finish m (negsuc n) str k (omega arith)) (
      ap (λ l. int_value (c_string m' str l)) size
      ∙ int_value-negative c (k - c) m' str (suc n) done.0 done.1 none_left)
