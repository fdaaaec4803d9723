-- ===== src/Terminal/Numerals.antt =====
-- The text of a number, and that itoa and hexToString write it.
use mathlib.Core.List.{append_assoc, append-nil}
use native.Mathlib.Nat.{pow-suc}
use system.Base.{
  ℕ, zero, suc, ◌+◌, ◌-◌, ◌/◌, ◌%◌, ◌^◌, ◌≤◌, ◌<◌, ◌≡◌, inl, inr, refl, sym, ◌∙◌, ap, arith, true,
  false, List, [], ◌∷◌, ◌++◌, length, length-append, ◌==◌, ==-false, Bool-cases, if◌then◌else◌,
}
use system.Base.Int.{ℤ, pos, negsuc}
use system.Memory.{Memory, load8, store8, load8-store8}
use system.Strings.{c_string}
use system.Terminal.{
  digit_char, itoa_digits, magnitude, finish, itoa, hex_char, hex_loop, hex_to_string,
}
use system.Terminal.Digits.{tail, load8-store8_other, itoa_digits-Digits}
use system.Terminal.Laws.{c_string-front, c_string-end, hex_to_string-zero, hex_to_string-loop}
use system.Terminal.Itoa.{itoa-zero, itoa-finish}
use system.Terminal.Ends.{
  Ends, Ends-first, Ends-next, c_string-cons, c_string-nil, finish-positive, finish-negative,
}
use system.Terminal.Buffers.{c_string-stops, hex_to_string-Filled}

-- The digits of a number of at most `k` digits, without a leading zero.
unfoldable pub numeral : (k base value : ℕ) → List ℕ
numeral zero base value = []
numeral (suc k) base value =
    let rest = numeral k base (value / base) in
    if value == 0 then [] else rest ++ digit_char (value % base) ∷ []

-- The text of a number, which is "0" for zero, and of a number with a sign.
unfoldable pub natural : (k base value : ℕ) → List ℕ
natural k base value = if value == 0 then 48 ∷ [] else numeral k base value

unfoldable pub decimal : (k : ℕ) → ℤ → List ℕ
decimal k (pos n) = natural k 10 n
decimal k (negsuc n) = 45 ∷ natural k 10 (suc n)

natural-suc : (k base n : ℕ) → natural k base (suc n) ≡ numeral k base (suc n)
unfolding natural
natural-suc k base n = rw (==-false (suc n) 0 (omega arith))

hex_loop-numeral :
    (k : ℕ) (m : Memory) (buffer value j : ℕ)
    → value < 16 ^ k
    → c_string
        (hex_loop k m buffer value).0
        (hex_loop k m buffer value).1
        (buffer + k + j - (hex_loop k m buffer value).1)
      ≡ numeral k 16 value ++ c_string m (buffer + k) j
unfolding hex_loop numeral
hex_loop-numeral zero m buffer value j small =
    let room : buffer + 0 + j - buffer ≡ j = omega arith in
    let here : buffer + 0 ≡ buffer = omega arith in rw (room, here)
hex_loop-numeral (suc k) m buffer value j small = elim (Bool-cases (value == 0)) [
  | inl end ↦ let room : buffer + suc k + j - (buffer + suc k) ≡ j = omega arith in rw (end, room)
  | inr more ↦
      let c = hex_char value in
      let limit : buffer + suc k + j ≡ buffer + k + suc j = omega arith in
      let smaller : value / 16 < 16 ^ k = omega (arith, pow-suc 16 k) in
      let next : buffer + k + 1 ≡ buffer + suc k = omega arith in
      rw (more, limit)
        (hex_loop-numeral k (store8 m (buffer + k) c) buffer (value / 16) (suc j) smaller
          ∙ rw (c_string-front j m (buffer + k) c (ground arith) (ground arith), next)
              (sym (
                append_assoc (numeral k 16 (value / 16)) (c ∷ []) (c_string m (buffer + suc k) j))))
]

-- hexToString writes the number's text: with enough fuel, the string at the returned pointer is it.
pub hex_to_string-natural :
    (m : Memory) (value buffer k fuel : ℕ)
    → value < 16 ^ suc k
    → suc k < fuel
    → c_string
        (hex_to_string m value buffer (suc (suc k))).0
        (hex_to_string m value buffer (suc (suc k))).1
        fuel
      ≡ natural (suc k) 16 value
unfolding natural
hex_to_string-natural m value buffer k fuel small enough =
    let m' = store8 m (buffer + suc k) 0 in
    let r = hex_to_string m value buffer (suc (suc k)) in
    let f = hex_to_string-Filled m value buffer k in
    let cut =
      c_string-stops f.size fuel (buffer + suc k + 1 - r.1) r.0 r.1 f.end
        (omega (arith, f.from, f.room)) (omega (arith, f.room)) in
    cut ∙ elim (Bool-cases (value == 0)) [
      | inl none_left ↦
          let room : buffer + suc k + 1 - (buffer + k) ≡ 2 = omega arith in
          let next : buffer + k + 1 ≡ buffer + suc k = omega arith in
          let null : value ≡ 0 = ground arith in
          rw (
            null,
            hex_to_string-zero m buffer k,
            room,
            c_string-front 1 m' (buffer + k) 48 (omega arith) (omega arith),
            next,
            c_string-end m (buffer + suc k),
          )
      | inr more ↦
          rw (hex_to_string-loop m value buffer k more, more)
            (hex_loop-numeral (suc k) m' buffer value 1 small
              ∙ rw (c_string-end m (buffer + suc k), append-nil))
    ]

itoa_digits-length :
    (k : ℕ) (m : Memory) (num str i : ℕ)
    → (itoa_digits k m num str 10 i).1 ≡ i + length (numeral k 10 num)
unfolding itoa_digits numeral
itoa_digits-length zero m num str i = omega arith
itoa_digits-length (suc k) m num str i = elim (Bool-cases (num == 0)) [
  | inl end ↦ rw end (omega arith)
  | inr more ↦
      let c = digit_char (num % 10) in
      rw (more, length-append (numeral k 10 (num / 10)) (c ∷ []))
        (omega (arith, itoa_digits-length k (store8 m (str + i) c) (num / 10) str (i + 1)))
]

-- The last `j` decimal digits.
last_digits : (j num : ℕ) → List ℕ
last_digits zero num = []
last_digits (suc j) num = (48 + tail j num % 10) ∷ last_digits j num

last_digits-suc :
    (j num : ℕ) → last_digits (suc j) num ≡ last_digits j (num / 10) ++ (48 + num % 10) ∷ []
unfolding last_digits
last_digits-suc zero num = refl
last_digits-suc (suc j) num = ap (λ l. (48 + tail j (num / 10) % 10) ∷ l) (last_digits-suc j num)

last_digits-numeral : (k num : ℕ) → last_digits (length (numeral k 10 num)) num ≡ numeral k 10 num
unfolding last_digits numeral
last_digits-numeral zero num = refl
last_digits-numeral (suc k) num = elim (Bool-cases (num == 0)) [
  | inl end ↦ rw end
  | inr more ↦
      let c = digit_char (num % 10) in
      let code : c ≡ 48 + num % 10 = ground arith in
      let count : length (numeral k 10 (num / 10) ++ c ∷ [])
          ≡ suc (length (numeral k 10 (num / 10))) =
        omega (arith, length-append (numeral k 10 (num / 10)) (c ∷ [])) in
      rw (more, count)
        (last_digits-suc (length (numeral k 10 (num / 10))) num
          ∙ rw (last_digits-numeral k (num / 10), code))
]

c_string-Ends :
    (j e : ℕ) (m : Memory) (p num : ℕ)
    → Ends m p j num
    → c_string m p (j + suc e) ≡ last_digits j num
unfolding last_digits Ends
c_string-Ends zero e m p num ends =
    let end : load8 m p ≡ 0 =
      (let here : p + 0 ≡ p = omega arith in ap (load8 m) (sym here) ∙ ends.1) in
    let room : 0 + suc e ≡ suc e = omega arith in rw (room, c_string-nil m p e end)
c_string-Ends (suc j) e m p num ends =
    let first = Ends-first m p j num ends in
    let room : suc j + suc e ≡ suc (j + suc e) = omega arith in
    rw (room, c_string-cons m p (j + suc e) (48 + tail j num % 10) first (omega arith))
      (ap (λ l. (48 + tail j num % 10) ∷ l)
        (c_string-Ends j e m (p + 1) num (Ends-next m p j num ends)))

module _ (m : Memory) (str k fuel : ℕ) (enough : suc k < fuel) where
  digits_text :
      (m' : Memory) (p num room : ℕ)
      → num < 10 ^ k
      → suc k ≤ room
      → Ends m' p (itoa_digits (suc k) m num str 10 0).1 num
      → c_string m' p room ≡ numeral (suc k) 10 num
  digits_text m' p num room small fits ends =
      let c = (itoa_digits (suc k) m num str 10 0).1 in
      let r = itoa_digits-Digits (suc k) k m num str 0 (omega arith) small in
      let count : c ≡ length (numeral (suc k) 10 num) =
        omega (arith, itoa_digits-length (suc k) m num str 0) in
      let size : room ≡ c + suc (room - c - 1) = omega (arith, r.room) in
      ap (c_string m' p) size
      ∙ c_string-Ends c (room - c - 1) m' p num ends
      ∙ ap (λ j. last_digits j num) count
      ∙ last_digits-numeral (suc k) num

  -- itoa writes the number's text, when it has at most two digits fewer than the buffer has characters.
  pub itoa-decimal :
      (num : ℤ)
      → magnitude num < 10 ^ k
      → c_string (itoa m num str (suc (suc k))) str fuel ≡ decimal (suc k) num
  unfolding decimal natural
  itoa-decimal (pos zero) small =
      let m' = store8 (store8 m str 48) (str + 1) 0 in
      let first : load8 m' str ≡ 48 =
        load8-store8_other (store8 m str 48) (str + 1) 0 str (omega arith)
        ∙ load8-store8 m str 48 in
      let end : load8 m' (str + 1) ≡ 0 = load8-store8 (store8 m str 48) (str + 1) 0 in
      let size : fuel ≡ suc (suc (fuel - 2)) = omega arith in
      rw (itoa-zero m str k, size, c_string-cons m' str (suc (fuel - 2)) 48 first (omega arith))
        (rw (c_string-nil m' (str + 1) (fuel - 2) end))
  itoa-decimal (pos (suc n)) small =
      let r = itoa_digits-Digits (suc k) k m (suc n) str 0 (omega arith) small in
      let d = itoa_digits (suc k) m (suc n) str 10 0 in
      let m' = finish d.0 false str (suc (suc k)) d.1 in
      rw (itoa-finish m (pos (suc n)) str k (omega arith)) (
        digits_text m' str (suc n) fuel small (omega arith)
          (finish-positive str (suc (suc k)) (omega arith) r)
        ∙ sym (natural-suc (suc k) 10 n))
  itoa-decimal (negsuc n) small =
      let r = itoa_digits-Digits (suc k) k m (suc n) str 0 (omega arith) small in
      let d = itoa_digits (suc k) m (suc n) str 10 0 in
      let m' = finish d.0 true str (suc (suc k)) d.1 in
      let done = finish-negative str (suc (suc k)) (omega (arith, r.room)) r in
      let size : fuel ≡ suc (fuel - 1) = omega arith in
      rw
        (
          itoa-finish m (negsuc n) str k (omega arith),
          size,
          c_string-cons m' str (fuel - 1) 45 done.0 (omega arith),
        )
        (ap (λ l. 45 ∷ l)
          (digits_text m' (str + 1) (suc n) (fuel - 1) small (omega arith) done.1
            ∙ sym (natural-suc (suc k) 10 n)))
