-- ===== src/Terminal/Rendering.antt =====
-- Log of terminal.cpp on a whole format: a directive for a number changes its buffer, and the rest of the
-- format and the strings are read from the changed memory.
use system.Base.{
  ℕ, zero, suc, ◌+◌, ◌%◌, ◌^◌, ◌≤◌, ◌<◌, ◌≡◌, ◌∙◌, refl, ap, arith, some, List, [], ◌∷◌, ◌++◌,
  length,
}
use system.Base.Int.{ℤ}
use system.Memory.{Memory, load8}
use system.Strings.{c_string, Spells}
use system.Strings.Laws.{c_string-same}
use system.Terminal.{Output, put_char, magnitude, itoa, hex_to_string}
use system.Terminal.Log.{
  KernelLogType, prefix, put_string, Argument, int, uintptr, string, to_char, directive, log_loop,
  log,
}
use system.Terminal.Buffers.{hex_to_string-Filled}
use system.Terminal.ItoaBuffer.{itoa-Filled}
use system.Terminal.Numerals.{decimal, natural}
use system.Terminal.Printing.{
  Apart, SameOutside, Renders, end, text, char_at, int_at, hex_at, string_at, no_directive,
  put_string-append, log_loop-end, log_loop-text, log_loop-directive, directive-string,
  directive-none, directive-int, directive-hex,
}

pub Spells-same :
    (m m' : Memory) (buff p : ℕ) (cs : List ℕ)
    → SameOutside buff m m'
    → Apart p (length cs) buff
    → Spells m p cs
    → Spells m' p cs
unfolding Spells load8
Spells-same m m' buff p [] same apart spells = ap (λ c. c % 256) (same p (omega arith)) ∙ spells
Spells-same m m' buff p (c ∷ cs) same apart spells = (
  ap (λ c. c % 256) (same p (omega arith)) ∙ spells.0,
  spells.1,
  Spells-same m m' buff (p + 1) cs same (omega arith) spells.2,
)

after :
    (m : Memory) (format : ℕ) (cs : List ℕ)
    → Spells m (format + 1 + 1) cs
    → Spells m (format + 2) cs
after m format cs spells = let e : format + 2 ≡ format + 1 + 1 = omega arith in rw e spells

itoa-same :
    {m m' : Memory} {buff : ℕ} (n : ℤ)
    → SameOutside buff m m'
    → magnitude n < 2 ^ 31
    → SameOutside buff m (itoa m' n buff 128)
itoa-same {m} {m'} {buff} n same small b out =
    (itoa-Filled m' n buff 126 (omega arith)).frame b out ∙ same b out

hex_to_string-same :
    {m m' : Memory} {buff : ℕ} (n : ℕ)
    → SameOutside buff m m'
    → SameOutside buff m (hex_to_string m' n buff 128).0
hex_to_string-same {m} {m'} {buff} n same b out =
    (hex_to_string-Filled m' n buff 126).frame b out ∙ same b out

-- A string apart from the buffer is read from the changed memory as from `m`.
string-same :
    (fuel s : ℕ) {m m' : Memory} {buff : ℕ}
    → SameOutside buff m m'
    → Apart s (length (c_string m s fuel)) buff
    → c_string m' s fuel ≡ c_string m s fuel
string-same fuel s {m} {m'} same apart = c_string-same fuel m m' s (λ b lo hi. same b (omega arith))

-- What the loop leaves, by what it puts out.
record Leaves (fuel buff : ℕ) (m : Memory) (rounds : ℕ) (m' : Memory) (o : Output) (format : ℕ)
    (args : List Argument) (out : List ℕ) : Type 0 where
  left : Memory
  printed : log_loop rounds fuel buff m' o format args ≡ some (left, put_string o out)
  same : SameOutside buff m left

-- A directive that puts out `cs`, and the loop over what follows it.
Leaves-step :
    {fuel buff rounds format : ℕ} {m m' m1 : Memory} {args args' : List Argument} {out : List ℕ}
    (o : Output) (cs : List ℕ)
    → log_loop (suc rounds) fuel buff m' o format args
      ≡ log_loop rounds fuel buff m1 (put_string o cs) (format + 2) args'
    → Leaves fuel buff m rounds m1 (put_string o cs) (format + 2) args' out
    → Leaves fuel buff m (suc rounds) m' o format args (cs ++ out)
Leaves-step {out = out} o cs step r = record {
  left = r.left;
  printed = step ∙ r.printed ∙ rw (put_string-append cs out o);
  same = r.same;
}

module _ (fuel buff : ℕ) (m : Memory) (room : 128 ≤ fuel) where
  -- The loop over a format, from a memory that differs from `m` in the buffer alone.
  log_loop-Renders :
      (rounds : ℕ) (m' : Memory) (o : Output) (format : ℕ) {cs : List ℕ} {args : List Argument}
      {out : List ℕ}
      → SameOutside buff m m'
      → Spells m format cs
      → Apart format (length cs) buff
      → length cs < rounds
      → Renders m fuel buff cs args out
      → Leaves fuel buff m rounds m' o format args out
  unfolding put_string Spells directive
  log_loop-Renders zero m' o format same spells apart enough r = absurd (omega arith)
  log_loop-Renders (suc rounds) m' o format {args = args} same spells apart enough end =
      let here = Spells-same m m' buff format [] same apart spells in
      record {
        left = m';
        printed = log_loop-end fuel buff m' rounds o format args here;
        same = same;
      }
  log_loop-Renders (suc rounds) m' o format same spells apart enough (text {c} {cs} {args} ne r) =
      let here = Spells-same m m' buff format (c ∷ cs) same apart spells in
      let rest =
        log_loop-Renders rounds m' (put_char o c) (format + 1) same spells.2 (omega arith)
          (omega arith) r in
      record {
        left = rest.left;
        printed = log_loop-text fuel buff m' rounds o format c args here.0 here.1 ne ∙ rest.printed;
        same = rest.same;
      }
  log_loop-Renders (suc rounds) m' o format same spells apart enough (char_at {c} {cs} {args} r) =
      let here = Spells-same m m' buff format (37 ∷ 99 ∷ cs) same apart spells in
      let o' = put_char o (to_char c) in
      Leaves-step o (to_char c ∷ [])
        (log_loop-directive fuel buff m' rounds o o' m' format 99 (int c ∷ args) args here.0
          here.2.0 refl)
        (log_loop-Renders rounds m' o' (format + 2) same (after m format cs spells.2.2)
          (omega arith) (omega arith) r)
  log_loop-Renders (suc rounds) m' o format same spells apart enough
        (int_at {n} {cs} {args} small r) =
      let here = Spells-same m m' buff format (37 ∷ 100 ∷ cs) same apart spells in
      let o' = put_string o (decimal 127 n) in
      let m1 = itoa m' n buff 128 in
      Leaves-step o (decimal 127 n)
        (log_loop-directive fuel buff m' rounds o o' m1 format 100 (int n ∷ args) args here.0
          here.2.0 (directive-int fuel buff m' o n args small room))
        (log_loop-Renders rounds m1 o' (format + 2) (itoa-same n same small)
          (after m format cs spells.2.2) (omega arith) (omega arith) r)
  log_loop-Renders (suc rounds) m' o format same spells apart enough
        (hex_at {n} {cs} {args} small r) =
      let here = Spells-same m m' buff format (37 ∷ 120 ∷ cs) same apart spells in
      let o' = put_string o (natural 127 16 n) in
      let m1 = (hex_to_string m' n buff 128).0 in
      Leaves-step o (natural 127 16 n)
        (log_loop-directive fuel buff m' rounds o o' m1 format 120 (uintptr n ∷ args) args here.0
          here.2.0 (directive-hex fuel buff m' o n args small room))
        (log_loop-Renders rounds m1 o' (format + 2) (hex_to_string-same n same)
          (after m format cs spells.2.2) (omega arith) (omega arith) r)
  log_loop-Renders (suc rounds) m' o format same spells apart enough
        (string_at {s} {cs} {args} fits away r) =
      let here = Spells-same m m' buff format (37 ∷ 115 ∷ cs) same apart spells in
      let o' = put_string o (c_string m s fuel) in
      let read = string-same fuel s same away in
      let fits' : length (c_string m' s fuel) < fuel = rw read fits in
      let printed : directive fuel buff m' o 115 (string s ∷ args) ≡ some (m', o', args) =
        directive-string fuel buff m' o s args fits' ∙ rw read in
      Leaves-step o (c_string m s fuel)
        (log_loop-directive fuel buff m' rounds o o' m' format 115 (string s ∷ args) args here.0
          here.2.0 printed)
        (log_loop-Renders rounds m' o' (format + 2) same (after m format cs spells.2.2)
          (omega arith) (omega arith) r)
  log_loop-Renders (suc rounds) m' o format same spells apart enough
        (no_directive {k} {cs} {args} ne r) =
      let here = Spells-same m m' buff format (37 ∷ k ∷ cs) same apart spells in
      Leaves-step o []
        (log_loop-directive fuel buff m' rounds o o m' format k args args here.0 here.2.0
          (directive-none fuel buff m' o k args ne))
        (log_loop-Renders rounds m' o (format + 2) same (after m format cs spells.2.2) (omega arith)
          (omega arith) r)

  pub log-Renders_from :
      (rounds : ℕ) (m' : Memory) (o : Output) (kind : KernelLogType) (format : ℕ) {cs : List ℕ}
      {args : List Argument} {out : List ℕ}
      → SameOutside buff m m'
      → Spells m format cs
      → Apart format (length cs) buff
      → length cs < rounds
      → Renders m fuel buff cs args out
      → (m'' : Memory) × (log rounds fuel buff m' o kind format args
          ≡ some (m'', put_string o (prefix kind ++ out)))
        × SameOutside buff m m''
  unfolding log
  log-Renders_from rounds m' o kind format {out = out} same spells apart enough r =
      let done =
        log_loop-Renders rounds m' (put_string o (prefix kind)) format same spells apart enough r in
      (done.left, done.printed ∙ rw (put_string-append (prefix kind) out o), done.same)

  -- Log of any format that its arguments fit ends, once the fuel for strings is at least 128 and the fuel
  -- for the format exceeds its length: it puts out the prefix of the line's type and then what the format
  -- stands for, and changes no byte outside its buffer. The format and the strings that it prints are
  -- apart from the buffer, the strings are shorter than their fuel, an int is above -2 ^ 31, and a number
  -- printed in hexadecimal has 64 bits.
  pub log-Renders :
      (rounds : ℕ) (o : Output) (kind : KernelLogType) (format : ℕ) {cs : List ℕ}
      {args : List Argument} {out : List ℕ}
      → Spells m format cs
      → Apart format (length cs) buff
      → length cs < rounds
      → Renders m fuel buff cs args out
      → (m' : Memory) × (log rounds fuel buff m o kind format args
          ≡ some (m', put_string o (prefix kind ++ out)))
        × SameOutside buff m m'
  log-Renders rounds o kind format spells apart enough r =
      log-Renders_from rounds m o kind format (λ b out. refl) spells apart enough r
