-- ===== src/Terminal.antt =====
-- kernel/src/terminal/terminal.cpp: itoa, hexToString, the output of characters, and Log. What is handed
-- to the flanterm library and to the serial port is kept as two lists of bytes.
pub mod Laws
pub mod Digits
pub mod Reversal
pub mod Ends
pub mod Itoa
pub mod Log
pub mod Buffers
pub mod ItoaBuffer
pub mod Numerals
pub mod Printing
pub mod Rendering
use system.Base.{
  ℕ, zero, suc, ◌+◌, ◌-◌, ◌*◌, ◌/◌, ◌%◌, Bool, true, false, not, ◌&&◌, Option, none, some, List, [],
  ◌∷◌, ◌++◌, ◌==◌, ltb, if◌then◌else◌,
}
use system.Base.Int.{ℤ, pos, negsuc}
use system.Memory.{Memory, load8, store8}

-- `(digit < 10) ? ('0' + digit) : ('A' + digit - 10)`
abbrev pub digit_char : ℕ → ℕ
digit_char digit = if ltb digit 10 then 48 + digit else 55 + digit

-- The digits of itoa, the least first, with `k = n - 1 - i`. Returns the memory and `i`.
unfoldable pub itoa_digits : (k : ℕ) → Memory → (num str base i : ℕ) → Memory × ℕ
itoa_digits zero m num str base i = (m, i)
itoa_digits (suc k) m num str base i =
    let rest =
      itoa_digits k (store8 m (str + i) (digit_char (num % base))) (num / base) str base (i + 1) in
    if num == 0 then (m, i) else rest

-- The exchange of the characters at `start` and `last`.
pub swap : Memory → (str start last : ℕ) → Memory
swap m str start last =
    store8 (store8 m (str + start) (load8 m (str + last))) (str + last) (load8 m (str + start))

-- The reversal of itoa. A round brings the two ends together by two, so as many rounds as there are
-- characters are enough.
pub reverse_loop : (rounds : ℕ) → Memory → (str start last : ℕ) → Memory
unfolding swap
reverse_loop zero m str start last = m
reverse_loop (suc rounds) m str start last =
    let rest = reverse_loop rounds (swap m str start last) str (start + 1) (last - 1) in
    if ltb start last then rest else m

abbrev pub is_negative : ℤ → Bool
is_negative (pos n) = false
is_negative (negsuc n) = true

-- `num` after `num = -num`.
abbrev pub magnitude : ℤ → ℕ
magnitude (pos n) = n
magnitude (negsuc n) = suc n

-- What itoa does after the digits.
unfoldable pub finish : Memory → (negative : Bool) → (str n i : ℕ) → Memory
unfolding reverse_loop
finish m negative str n i =
    let signed = negative && ltb i (n - 1) in
    let m' = if signed then store8 m (str + i) 45 else m in
    let i' = if signed then i + 1 else i in reverse_loop i' (store8 m' (str + i') 0) str 0 (i' - 1)

-- itoa for `base == 10`, the only base it is called with, and a number above -2 ^ 31.
unfoldable pub itoa : Memory → (num : ℤ) → (str n : ℕ) → Memory
itoa m num str n =
    let digits = itoa_digits (n - 1) m (magnitude num) str 10 0 in
    if n == 0
    then m
    else (if magnitude num == 0
        then store8 (store8 m str 48) (str + 1) 0
        else finish digits.0 (is_negative num) str n digits.1)

-- `hexChars[value & 0xF]`
abbrev pub hex_char : ℕ → ℕ
hex_char value = if ltb (value % 16) 10 then 48 + value % 16 else 55 + value % 16

-- The loop of hexToString with `ptr = buffer + k`. Returns the memory and `ptr`.
pub hex_loop : (k : ℕ) → Memory → (buffer value : ℕ) → Memory × ℕ
hex_loop zero m buffer value = (m, buffer)
hex_loop (suc k) m buffer value =
    let rest = hex_loop k (store8 m (buffer + k) (hex_char value)) buffer (value / 16) in
    if value == 0 then (m, buffer + suc k) else rest

-- hexToString, for `n` at least 1.
unfoldable pub hex_to_string : Memory → (value buffer n : ℕ) → Memory × ℕ
unfolding hex_loop
hex_to_string m value buffer n =
    let ptr = buffer + (n - 1) in
    let m' = store8 m ptr 0 in
    if value == 0
    then (if ltb 1 n then (store8 m' (buffer + (n - 2)) 48, buffer + (n - 2)) else (m', ptr))
    else hex_loop (n - 1) m' buffer value

-- What was written to the terminal and to the serial port, and whether there is a serial port.
pub record Output : Type 0 where
  pub terminal : List ℕ
  pub serial : List ℕ
  pub has_port : Bool

abbrev pub write_character : Output → (c : ℕ) → Output
write_character o c = record o { serial = o.serial ++ c ∷ [] }

-- SetSerialOutputPort, with the address of a port or a null pointer.
pub set_serial_output_port : Output → (port : ℕ) → Output
set_serial_output_port o port = record o { has_port = not (port == 0) }

unfoldable pub put_char : Output → (c : ℕ) → Output
put_char o c =
    let shown = record o { terminal = o.terminal ++ c ∷ [] } in
    if o.has_port
    then (if c == 10 then write_character (write_character shown 13) c else write_character shown c)
    else shown

unfoldable pub print : (fuel : ℕ) → Memory → Output → (string : ℕ) → Option Output
unfolding put_char
print zero m o string = none
print (suc fuel) m o string =
    let rest = print fuel m (put_char o (load8 m string)) (string + 1) in
    if load8 m string == 0 then some o else rest
