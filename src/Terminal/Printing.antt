-- ===== src/Terminal/Printing.antt =====
-- What Print and Log put out.
use system.Base.{
  ℕ, zero, suc, ◌+◌, ◌^◌, ◌≤◌, ◌<◌, ◌≡◌, ◌≢◌, ◌⊎◌, refl, arith, some, List, [], ◌∷◌, ◌++◌, length,
  ◌==◌, ==-false, Bool-cases, inl, inr,
}
use system.Base.Int.{ℤ}
use system.Memory.{Memory, load8, Outside}
use system.Strings.{c_string}
use system.Terminal.{Output, put_char, print, magnitude, itoa, hex_to_string}
use system.Terminal.Log.{put_string, Argument, int, uintptr, string, to_char, directive, log_loop}
use system.Terminal.Buffers.{length-c_string-stops, hex_to_string-Filled}
use system.Terminal.ItoaBuffer.{itoa-Filled}
use system.Terminal.Numerals.{decimal, natural, itoa-decimal, hex_to_string-natural}

pub put_string-append :
    (cs ds : List ℕ) (o : Output) → put_string o (cs ++ ds) ≡ put_string (put_string o cs) ds
unfolding put_string
put_string-append [] ds o = refl
put_string-append (c ∷ cs) ds o = put_string-append cs ds (put_char o c)

-- Print puts out the characters of the string up to its terminator, in their order, when the fuel
-- exceeds their number.
pub print-put_string :
    (fuel : ℕ) (m : Memory) (o : Output) (str : ℕ)
    → length (c_string m str fuel) < fuel
    → print fuel m o str ≡ some (put_string o (c_string m str fuel))
unfolding print c_string put_string
print-put_string zero m o str enough = absurd (omega arith)
print-put_string (suc fuel) m o str enough = elim (Bool-cases (load8 m str == 0)) [
  | inl end ↦ rw end
  | inr more ↦
      let shorter : length (c_string m (str + 1) fuel) < fuel = ground arith in
      rw more (print-put_string fuel m (put_char o (load8 m str)) (str + 1) shorter)
]

-- The `n` bytes from `p` on, and the one behind them, are none of the 128 of the buffer.
abbrev pub Apart : (p n buff : ℕ) → Type 0
Apart p n buff = (p + n < buff) ⊎ (buff + 128 ≤ p)

-- The memory is the same outside the buffer.
abbrev pub SameOutside : (buff : ℕ) → Memory → Memory → Type 0
SameOutside buff m m' = (b : ℕ) → Outside b buff 128 → m' b ≡ m b

-- What the format stands for with the arguments: a character other than `%` for itself, `%c` for the next
-- argument, `%d` and `%x` for its decimal and hexadecimal text, `%s` for the string that it points to,
-- and `%` with a character that is no directive for nothing.
pub data Renders (m : Memory) (fuel buff : ℕ) : List ℕ → List Argument → List ℕ → Type 0 where
  end : {args : List Argument} → Renders m fuel buff [] args []
  text :
      {c : ℕ} {cs : List ℕ} {args : List Argument} {out : List ℕ}
      → c ≢ 37
      → Renders m fuel buff cs args out
      → Renders m fuel buff (c ∷ cs) args (c ∷ out)
  char_at :
      {c : ℤ} {cs : List ℕ} {args : List Argument} {out : List ℕ}
      → Renders m fuel buff cs args out
      → Renders m fuel buff (37 ∷ 99 ∷ cs) (int c ∷ args) (to_char c ∷ out)
  int_at :
      {n : ℤ} {cs : List ℕ} {args : List Argument} {out : List ℕ}
      → magnitude n < 2 ^ 31
      → Renders m fuel buff cs args out
      → Renders m fuel buff (37 ∷ 100 ∷ cs) (int n ∷ args) (decimal 127 n ++ out)
  hex_at :
      {n : ℕ} {cs : List ℕ} {args : List Argument} {out : List ℕ}
      → n < 2 ^ 64
      → Renders m fuel buff cs args out
      → Renders m fuel buff (37 ∷ 120 ∷ cs) (uintptr n ∷ args) (natural 127 16 n ++ out)
  string_at :
      {s : ℕ} {cs : List ℕ} {args : List Argument} {out : List ℕ}
      → length (c_string m s fuel) < fuel
      → Apart s (length (c_string m s fuel)) buff
      → Renders m fuel buff cs args out
      → Renders m fuel buff (37 ∷ 115 ∷ cs) (string s ∷ args) (c_string m s fuel ++ out)
  no_directive :
      {k : ℕ} {cs : List ℕ} {args : List Argument} {out : List ℕ}
      → (k ≢ 99) × (k ≢ 100) × (k ≢ 120) × (k ≢ 115)
      → Renders m fuel buff cs args out
      → Renders m fuel buff (37 ∷ k ∷ cs) args out

module _ (fuel buff : ℕ) (m : Memory) where
  pub log_loop-end :
      (rounds : ℕ) (o : Output) (format : ℕ) (args : List Argument)
      → load8 m format ≡ 0
      → log_loop (suc rounds) fuel buff m o format args ≡ some (m, o)
  unfolding log_loop
  log_loop-end rounds o format args e = rw e

  pub log_loop-text :
      (rounds : ℕ) (o : Output) (format c : ℕ) (args : List Argument)
      → load8 m format ≡ c
      → 0 < c
      → c ≢ 37
      → log_loop (suc rounds) fuel buff m o format args
        ≡ log_loop rounds fuel buff m (put_char o c) (format + 1) args
  unfolding log_loop
  log_loop-text rounds o format c args e lt ne =
      rw (e, ==-false c 0 (omega arith), ==-false c 37 ne)

  pub log_loop-directive :
      (rounds : ℕ) (o o' : Output) (m' : Memory) (format k : ℕ) (args args' : List Argument)
      → load8 m format ≡ 37
      → load8 m (format + 1) ≡ k
      → directive fuel buff m o k args ≡ some (m', o', args')
      → log_loop (suc rounds) fuel buff m o format args
        ≡ log_loop rounds fuel buff m' o' (format + 2) args'
  unfolding log_loop
  log_loop-directive rounds o o' m' format k args args' e e' d = rw (e, e', d)

  pub directive-string :
      (o : Output) (s : ℕ) (args : List Argument)
      → length (c_string m s fuel) < fuel
      → directive fuel buff m o 115 (string s ∷ args)
        ≡ some (m, put_string o (c_string m s fuel), args)
  unfolding directive
  directive-string o s args enough = rw (print-put_string fuel m o s enough)

  pub directive-none :
      (o : Output) (k : ℕ) (args : List Argument)
      → (k ≢ 99) × (k ≢ 100) × (k ≢ 120) × (k ≢ 115)
      → directive fuel buff m o k args ≡ some (m, o, args)
  unfolding directive
  directive-none o k args ne =
      rw (==-false k 99 ne.0, ==-false k 100 ne.1, ==-false k 120 ne.2, ==-false k 115 ne.3)

  pub directive-int :
      (o : Output) (n : ℤ) (args : List Argument)
      → magnitude n < 2 ^ 31
      → 128 ≤ fuel
      → directive fuel buff m o 100 (int n ∷ args)
        ≡ some (itoa m n buff 128, put_string o (decimal 127 n), args)
  unfolding directive
  directive-int o n args small enough =
      let m' = itoa m n buff 128 in
      let f = itoa-Filled m n buff 126 (omega arith) in
      let text = itoa-decimal m buff 126 fuel (omega arith) n (omega arith) in
      let short = length-c_string-stops f.size fuel m' buff f.end in
      rw (print-put_string fuel m' o buff (omega (arith, f.room)), text)

  pub directive-hex :
      (o : Output) (n : ℕ) (args : List Argument)
      → n < 2 ^ 64
      → 128 ≤ fuel
      → directive fuel buff m o 120 (uintptr n ∷ args)
        ≡ some ((hex_to_string m n buff 128).0, put_string o (natural 127 16 n), args)
  unfolding directive
  directive-hex o n args small enough =
      let r = hex_to_string m n buff 128 in
      let f = hex_to_string-Filled m n buff 126 in
      let text = hex_to_string-natural m n buff 126 fuel (omega arith) (omega arith) in
      let short = length-c_string-stops f.size fuel r.0 r.1 f.end in
      rw (print-put_string fuel r.0 o r.1 (omega (arith, f.room, f.from)), text)
