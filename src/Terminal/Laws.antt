-- ===== src/Terminal/Laws.antt =====
-- The digits that hexToString writes, and the characters that Print puts out.
use native.Mathlib.Nat.{pow-suc}
use system.Base.{
  ℕ, zero, suc, ◌+◌, ◌-◌, ◌*◌, ◌/◌, ◌^◌, ◌<◌, ◌≡◌, ◌∙◌, ap, arith, false, List, [], ◌∷◌, ltb, ◌==◌,
  ==-false, lt→ltb, Bool-cases, inl, inr, if◌then◌else◌,
}
use system.Memory.{Memory, load8, store8, load8-store8, store8-frame}
use system.Strings.{c_string}
use system.Strings.Laws.{c_string-same}
use system.Terminal.{hex_char, hex_loop, hex_to_string}

-- The value of a hexadecimal digit, and of a string of them, behind the number `a`.
abbrev pub hex_digit : ℕ → ℕ
hex_digit c = if ltb c 58 then c - 48 else c - 55

unfoldable pub hex_value : List ℕ → ℕ → ℕ
hex_value [] a = a
hex_value (c ∷ cs) a = hex_value cs (a * 16 + hex_digit c)

-- One more digit in front of a string.
pub c_string-front :
    (j : ℕ) (m : Memory) (p c : ℕ)
    → 0 < c
    → c < 256
    → c_string (store8 m p c) p (suc j) ≡ c ∷ c_string m (p + 1) j
unfolding c_string
c_string-front j m p c some_char byte =
    let m' = store8 m p c in
    let written : load8 m' p ≡ c = load8-store8 m p c ∙ omega arith in
    let same : c_string m' (p + 1) j ≡ c_string m (p + 1) j =
      c_string-same j m m' (p + 1) (λ b lo hi. store8-frame m p c b (omega arith)) in
    rw (written, ==-false c 0 (omega arith), same)

hex_digit-hex_char : (v : ℕ) → v / 16 * 16 + hex_digit (hex_char v) ≡ v
hex_digit-hex_char v = ground arith

hex_loop_lem :
    (k : ℕ) (m : Memory) (buffer value j : ℕ)
    → value < 16 ^ k
    → hex_value
        (c_string
          (hex_loop k m buffer value).0
          (hex_loop k m buffer value).1
          (buffer + k + j - (hex_loop k m buffer value).1))
        0
      ≡ hex_value (c_string m (buffer + k) j) value
unfolding hex_loop hex_value
hex_loop_lem zero m buffer value j small =
    let room : buffer + 0 + j - buffer ≡ j = omega arith in
    let none_left : value ≡ 0 = omega arith in
    let here : buffer + 0 ≡ buffer = omega arith in rw (room, none_left, here)
hex_loop_lem (suc k) m buffer value j small = elim (Bool-cases (value == 0)) [
  | inl end ↦
      let room : buffer + suc k + j - (buffer + suc k) ≡ j = omega arith in
      let none_left : value ≡ 0 = ground arith in rw (end, room, none_left)
  | inr more ↦
      let c = hex_char value in
      let limit : buffer + suc k + j ≡ buffer + k + suc j = omega arith in
      let smaller : value / 16 < 16 ^ k = omega (arith, pow-suc 16 k) in
      let next : buffer + k + 1 ≡ buffer + suc k = omega arith in
      rw (more, limit)
        (hex_loop_lem k (store8 m (buffer + k) c) buffer (value / 16) (suc j) smaller
          ∙ rw (c_string-front j m (buffer + k) c (ground arith) (ground arith), next)
              (ap (hex_value (c_string m (buffer + suc k) j)) (hex_digit-hex_char value)))
]

pub c_string-end : (m : Memory) (p : ℕ) → c_string (store8 m p 0) p 1 ≡ []
unfolding c_string
c_string-end m p = rw (load8-store8 m p 0)

pub hex_to_string-zero :
    (m : Memory) (buffer k : ℕ)
    → hex_to_string m 0 buffer (suc (suc k))
      ≡ (store8 (store8 m (buffer + suc k) 0) (buffer + k) 48, buffer + k)
unfolding hex_to_string
hex_to_string-zero m buffer k =
    let end_at : suc (suc k) - 1 ≡ suc k = omega arith in
    let before : suc (suc k) - 2 ≡ k = omega arith in
    rw (end_at, before, lt→ltb 1 (suc (suc k)) (omega arith))

pub hex_to_string-loop :
    (m : Memory) (value buffer k : ℕ)
    → (value == 0) ≡ false
    → hex_to_string m value buffer (suc (suc k))
      ≡ hex_loop (suc k) (store8 m (buffer + suc k) 0) buffer value
unfolding hex_to_string
hex_to_string-loop m value buffer k more =
    let end_at : suc (suc k) - 1 ≡ suc k = omega arith in rw (end_at, more)

-- hexToString writes the digits of the value: the string that stands at the returned pointer, up to the
-- end of the buffer, reads as the value again, when the buffer has room for all its digits and at
-- least one digit.
pub hex_to_string-hex_value :
    (m : Memory) (value buffer k : ℕ)
    → value < 16 ^ suc k
    → hex_value
        (c_string
          (hex_to_string m value buffer (suc (suc k))).0
          (hex_to_string m value buffer (suc (suc k))).1
          (buffer + suc k + 1 - (hex_to_string m value buffer (suc (suc k))).1))
        0
      ≡ value
unfolding hex_value
hex_to_string-hex_value m value buffer k small =
    let m' = store8 m (buffer + suc k) 0 in
    elim (Bool-cases (value == 0)) [
      | inl none_left ↦
          let room : buffer + suc k + 1 - (buffer + k) ≡ 2 = omega arith in
          let next : buffer + k + 1 ≡ buffer + suc k = omega arith in
          let null : value ≡ 0 = ground arith in
          rw (
            null,
            hex_to_string-zero m buffer k,
            room,
            c_string-front 1 m' (buffer + k) 48 (omega arith) (omega arith),
            next,
            c_string-end m (buffer + suc k),
          )
      | inr more ↦
          rw (hex_to_string-loop m value buffer k more)
            (hex_loop_lem (suc k) m' buffer value 1 small ∙ rw (c_string-end m (buffer + suc k)))
    ]
