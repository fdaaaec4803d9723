-- ===== src/Terminal/Buffers.antt =====
-- The buffer that hexToString of kernel/src/terminal/terminal.cpp fills: nothing else is written, and a
-- string ends in it.
use system.Base.{
  ℕ, zero, suc, ◌+◌, ◌-◌, ◌/◌, ◌%◌, ◌≤◌, ◌<◌, ◌≡◌, inl, inr, refl, ◌∙◌, ap, arith, length, ◌==◌,
  Bool-cases,
}
use system.Memory.{Memory, load8, store8, load8-store8, store8-frame, Outside}
use system.Strings.{c_string}
use system.Terminal.{hex_char, hex_loop, hex_to_string}
use system.Terminal.Digits.{load8-store8_other}
use system.Terminal.Laws.{hex_to_string-zero, hex_to_string-loop}

-- With a terminator below both cuts, a string is the same cut at either.
pub c_string-stops :
    (j a b : ℕ) (m : Memory) (p : ℕ)
    → load8 m (p + j) ≡ 0
    → j < a
    → j < b
    → c_string m p a ≡ c_string m p b
unfolding c_string
c_string-stops j zero b m p end lt lt' = absurd (omega arith)
c_string-stops j (suc a) zero m p end lt lt' = absurd (omega arith)
c_string-stops zero (suc a) (suc b) m p end lt lt' =
    let here : p + 0 ≡ p = omega arith in let z : load8 m p ≡ 0 = rw here at end in rw z
c_string-stops (suc j) (suc a) (suc b) m p end lt lt' =
    let there : p + suc j ≡ p + 1 + j = omega arith in
    let end' : load8 m (p + 1 + j) ≡ 0 = rw there at end in
    rw (c_string-stops j a b m (p + 1) end' (omega arith) (omega arith))

pub length-c_string-stops :
    (j a : ℕ) (m : Memory) (p : ℕ) → load8 m (p + j) ≡ 0 → length (c_string m p a) ≤ j
unfolding c_string
length-c_string-stops j zero m p end = omega arith
length-c_string-stops zero (suc a) m p end =
    let here : p + 0 ≡ p = omega arith in
    let z : load8 m p ≡ 0 = rw here at end in rw z (omega arith)
length-c_string-stops (suc j) (suc a) m p end =
    let there : p + suc j ≡ p + 1 + j = omega arith in
    let end' : load8 m (p + 1 + j) ≡ 0 = rw there at end in
    ground (arith, length-c_string-stops j a m (p + 1) end')

-- What a call leaves that turns a number into text in the `n` bytes at `buff`, with the string at `ptr`.
pub record Filled (m : Memory) (buff n : ℕ) (m' : Memory) (ptr : ℕ) : Type 0 where
  pub frame : (b : ℕ) → Outside b buff n → m' b ≡ m b
  pub from : buff ≤ ptr
  pub size : ℕ
  pub room : ptr + size < buff + n
  pub end : load8 m' (ptr + size) ≡ 0

hex_loop-frame :
    (k : ℕ) (m : Memory) (buffer value b : ℕ)
    → Outside b buffer k
    → (hex_loop k m buffer value).0 b ≡ m b
unfolding hex_loop
hex_loop-frame zero m buffer value b out = refl
hex_loop-frame (suc k) m buffer value b out = elim (Bool-cases (value == 0)) [
  | inl end ↦ rw end
  | inr more ↦ rw more (
      hex_loop-frame k (store8 m (buffer + k) (hex_char value)) buffer (value / 16) b (omega arith)
      ∙ store8-frame m (buffer + k) (hex_char value) b (omega arith))
]

hex_loop-pointer :
    (k : ℕ) (m : Memory) (buffer value : ℕ)
    → (buffer ≤ (hex_loop k m buffer value).1) × ((hex_loop k m buffer value).1 ≤ buffer + k)
unfolding hex_loop
hex_loop-pointer zero m buffer value = omega arith
hex_loop-pointer (suc k) m buffer value = elim (Bool-cases (value == 0)) [
  | inl end ↦ rw end (omega arith)
  | inr more ↦ rw more (
      omega
        (arith, hex_loop-pointer k (store8 m (buffer + k) (hex_char value)) buffer (value / 16)))
]

pub hex_to_string-Filled :
    (m : Memory) (value buffer k : ℕ)
    → Filled m buffer
        (suc (suc k))
        (hex_to_string m value buffer (suc (suc k))).0
        (hex_to_string m value buffer (suc (suc k))).1
unfolding load8
hex_to_string-Filled m value buffer k =
    let m' = store8 m (buffer + suc k) 0 in
    elim (Bool-cases (value == 0)) [
      | inl none_left ↦
          let null : value ≡ 0 = ground arith in
          let next : buffer + k + 1 ≡ buffer + suc k = omega arith in
          rw (null, hex_to_string-zero m buffer k)
            (record {
              frame = λ b out.
                  store8-frame m' (buffer + k) 48 b (omega arith)
                  ∙ store8-frame m (buffer + suc k) 0 b (omega arith);
              from = omega arith;
              size = 1;
              room = omega arith;
              end = rw next (
                  load8-store8_other m' (buffer + k) 48 (buffer + suc k) (omega arith)
                  ∙ load8-store8 m (buffer + suc k) 0);
            })
      | inr more ↦
          let at = hex_loop-pointer (suc k) m' buffer value in
          let ptr = (hex_loop (suc k) m' buffer value).1 in
          let last : ptr + (buffer + suc k - ptr) ≡ buffer + suc k = omega arith in
          let kept = hex_loop-frame (suc k) m' buffer value (buffer + suc k) (omega arith) in
          rw (hex_to_string-loop m value buffer k more) (record {
            frame = λ b out.
                hex_loop-frame (suc k) m' buffer value b (omega arith)
                ∙ store8-frame m (buffer + suc k) 0 b (omega arith);
            from = at.0;
            size = buffer + suc k - ptr;
            room = omega arith;
            end = rw last (ap (λ c. c % 256) kept ∙ load8-store8 m (buffer + suc k) 0);
          })
    ]
