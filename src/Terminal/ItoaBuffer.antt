-- ===== src/Terminal/ItoaBuffer.antt =====
-- The buffer that itoa of kernel/src/terminal/terminal.cpp fills.
use system.Base.{
  ℕ, zero, suc, ◌+◌, ◌-◌, ◌/◌, ◌%◌, ◌^◌, ◌<◌, ◌≡◌, ◌⊎◌, inl, inr, refl, ◌∙◌, ap, arith, Bool, true,
  false, ltb, ◌==◌, ltb→lt, Bool-cases,
}
use system.Base.Int.{ℤ, pos, negsuc}
use system.Memory.{Memory, load8, store8, load8-store8, store8-frame, Outside}
use system.Terminal.{
  digit_char, itoa_digits, swap, reverse_loop, is_negative, magnitude, finish, itoa,
}
use system.Terminal.Digits.{itoa_digits-Digits}
use system.Terminal.Itoa.{itoa-zero, itoa-finish}
use system.Terminal.Buffers.{Filled}

itoa_digits-frame :
    (k : ℕ) (m : Memory) (num str i b : ℕ)
    → Outside b (str + i) k
    → (itoa_digits k m num str 10 i).0 b ≡ m b
unfolding itoa_digits
itoa_digits-frame zero m num str i b out = refl
itoa_digits-frame (suc k) m num str i b out = elim (Bool-cases (num == 0)) [
  | inl end ↦ rw end
  | inr more ↦
      let c = digit_char (num % 10) in
      rw more (
        itoa_digits-frame k (store8 m (str + i) c) (num / 10) str (i + 1) b (omega arith)
        ∙ store8-frame m (str + i) c b (omega arith))
]

reverse_loop-frame :
    (rounds : ℕ) (m : Memory) (str start last b : ℕ)
    → (b < str + start) ⊎ (str + last < b)
    → reverse_loop rounds m str start last b ≡ m b
unfolding reverse_loop swap
reverse_loop-frame zero m str start last b out = refl
reverse_loop-frame (suc rounds) m str start last b out = elim (Bool-cases (ltb start last)) [
  | inl more ↦
      let lt = ltb→lt start last more in
      let m' = store8 m (str + start) (load8 m (str + last)) in
      rw more (
        reverse_loop-frame rounds (swap m str start last) str (start + 1) (last - 1) b (omega arith)
        ∙ store8-frame m' (str + last) (load8 m (str + start)) b (omega arith)
        ∙ store8-frame m (str + start) (load8 m (str + last)) b (omega arith))
  | inr met ↦ rw met
]

-- The terminator behind `i` characters, and the reversal of these.
ended :
    (m : Memory) (str i n : ℕ)
    → 0 < i
    → i < n
    → Filled m str n (reverse_loop i (store8 m (str + i) 0) str 0 (i - 1)) str
unfolding load8
ended m str i n lt room = record {
  frame = λ b out.
      reverse_loop-frame i (store8 m (str + i) 0) str 0 (i - 1) b (omega arith)
      ∙ store8-frame m (str + i) 0 b (omega arith);
  from = omega arith;
  size = i;
  room = omega arith;
  end =
      ap (λ c. c % 256)
        (reverse_loop-frame i (store8 m (str + i) 0) str 0 (i - 1) (str + i) (omega arith))
      ∙ load8-store8 m (str + i) 0;
}

-- An earlier write into the buffer.
after_write :
    {m' : Memory} {ptr : ℕ} (m before : Memory) (buff n : ℕ)
    → ((b : ℕ) → Outside b buff n → before b ≡ m b)
    → Filled before buff n m' ptr
    → Filled m buff n m' ptr
after_write m before buff n same f = record {
  frame = λ b out. f.frame b out ∙ same b out;
  from = f.from;
  size = f.size;
  room = f.room;
  end = f.end;
}

finish-Filled :
    (m : Memory) (negative : Bool) (str n i : ℕ)
    → 0 < i
    → i < n
    → Filled m str n (finish m negative str n i) str
unfolding finish
finish-Filled m false str n i lt room = ended m str i n lt room
finish-Filled m true str n i lt room = elim (Bool-cases (ltb i (n - 1))) [
  | inl signed ↦
      let fits = ltb→lt i (n - 1) signed in
      rw signed (
        after_write m (store8 m (str + i) 45) str n
          (λ b out. store8-frame m (str + i) 45 b (omega arith))
          (ended (store8 m (str + i) 45) str (i + 1) n (omega arith) (omega arith)))
  | inr full ↦ rw full (ended m str i n lt room)
]

itoa_more :
    (m : Memory) (num : ℤ) (str k : ℕ)
    → 0 < magnitude num
    → magnitude num < 10 ^ k
    → Filled m str (suc (suc k)) (itoa m num str (suc (suc k))) str
itoa_more m num str k more small =
    let d = itoa_digits-Digits (suc k) k m (magnitude num) str 0 (omega arith) small in
    let digits = itoa_digits (suc k) m (magnitude num) str 10 0 in
    rw (itoa-finish m num str k more) (
      after_write m digits.0 str (suc (suc k))
        (λ b out. itoa_digits-frame (suc k) m (magnitude num) str 0 b (omega arith))
        (finish-Filled digits.0 (is_negative num) str (suc (suc k)) digits.1 (d.some_digit more)
          (omega (arith, d.room))))

itoa_zero :
    (m : Memory) (str k : ℕ) → Filled m str (suc (suc k)) (itoa m (pos 0) str (suc (suc k))) str
itoa_zero m str k = rw (itoa-zero m str k) (record {
  frame = λ b out.
      store8-frame (store8 m str 48) (str + 1) 0 b (omega arith)
      ∙ store8-frame m str 48 b (omega arith);
  from = omega arith;
  size = 1;
  room = omega arith;
  end = load8-store8 (store8 m str 48) (str + 1) 0;
})

pub itoa-Filled :
    (m : Memory) (num : ℤ) (str k : ℕ)
    → magnitude num < 10 ^ k
    → Filled m str (suc (suc k)) (itoa m num str (suc (suc k))) str
itoa-Filled m (pos zero) str k small = itoa_zero m str k
itoa-Filled m (pos (suc n)) str k small = itoa_more m (pos (suc n)) str k (omega arith) small
itoa-Filled m (negsuc n) str k small = itoa_more m (negsuc n) str k (omega arith) small
