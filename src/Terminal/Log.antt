-- ===== src/Terminal/Log.antt =====
-- Log of terminal.cpp: the prefix of a log line, and the loop over the format.
use system.Base.{
  ℕ, zero, suc, ◌+◌, ◌-◌, ◌%◌, Option, none, some, ◌>>=◌, List, [], ◌∷◌, ◌++◌, ◌==◌, if◌then◌else◌,
}
use system.Base.Int.{ℤ, pos, negsuc}
use system.Memory.{Memory, load8}
use system.Terminal.{Output, put_char, print, itoa, hex_to_string}

pub data KernelLogType : Type 0 where
  success : KernelLogType
  fail : KernelLogType
  info : KernelLogType
  print_only : KernelLogType
  debug : KernelLogType
  event : KernelLogType

-- "LOG  " and the escape character before a name's colour, and the end of the colour behind it.
abbrev pub named : List ℕ → List ℕ
named name = 76 ∷ 79 ∷ 71 ∷ 32 ∷ 32 ∷ 27 ∷ 91 ∷ (name ++ 27 ∷ 91 ∷ 48 ∷ 109 ∷ 32 ∷ [])

-- The literal that comes before a line of this type.
unfoldable pub prefix : KernelLogType → List ℕ
prefix success = named (51 ∷ 50 ∷ 109 ∷ 79 ∷ 75 ∷ 32 ∷ 32 ∷ 32 ∷ 32 ∷ [])
prefix fail = named (51 ∷ 49 ∷ 109 ∷ 70 ∷ 65 ∷ 73 ∷ 76 ∷ 32 ∷ 32 ∷ [])
prefix info = named (57 ∷ 52 ∷ 109 ∷ 73 ∷ 78 ∷ 70 ∷ 79 ∷ 32 ∷ 32 ∷ [])
prefix debug = named (51 ∷ 56 ∷ 59 ∷ 53 ∷ 59 ∷ 52 ∷ 56 ∷ 109 ∷ 68 ∷ 69 ∷ 66 ∷ 85 ∷ 71 ∷ 32 ∷ [])
prefix event = named (48 ∷ 59 ∷ 51 ∷ 54 ∷ 109 ∷ 69 ∷ 86 ∷ 69 ∷ 78 ∷ 84 ∷ 32 ∷ [])
prefix print_only = []

-- Print of a string that is given by its characters.
unfoldable pub put_string : Output → List ℕ → Output
put_string o [] = o
put_string o (c ∷ cs) = put_string (put_char o c) cs

-- An argument behind the format, with the type it is read at.
pub data Argument : Type 0 where
  int : ℤ → Argument
  uintptr : ℕ → Argument
  string : ℕ → Argument

-- `(char)c`
abbrev pub to_char : ℤ → ℕ
to_char (pos c) = c % 256
to_char (negsuc c) = 255 - c % 256

abbrev pub Logged : Type 0
Logged = Memory × Output × List Argument

-- What is read at `%c`. `none` is an argument of another type or none at all, which C leaves
-- undefined, and the end of the fuel.
pub take_char : Memory → Output → List Argument → Option Logged
take_char m o (int c ∷ args) = some (m, put_char o (to_char c), args)
take_char m o args = none

pub take_int : (fuel buff : ℕ) → Memory → Output → List Argument → Option Logged
take_int fuel buff m o (int n ∷ args) =
    let m' = itoa m n buff 128 in print fuel m' o buff >>= λ o'. some (m', o', args)
take_int fuel buff m o args = none

pub take_hex : (fuel buff : ℕ) → Memory → Output → List Argument → Option Logged
take_hex fuel buff m o (uintptr n ∷ args) =
    let (m', ptr) = hex_to_string m n buff 128 in print fuel m' o ptr >>= λ o'. some (m', o', args)
take_hex fuel buff m o args = none

pub take_string : (fuel : ℕ) → Memory → Output → List Argument → Option Logged
take_string fuel m o (string str ∷ args) = print fuel m o str >>= λ o'. some (m, o', args)
take_string fuel m o args = none

-- The directive `%` followed by `kind`, with the local buffer at `buff`.
unfoldable pub directive :
    (fuel buff : ℕ) → Memory → Output → (kind : ℕ) → List Argument → Option Logged
unfolding take_char take_int take_hex take_string
directive fuel buff m o kind args =
    if kind == 99
    then take_char m o args
    else (if kind == 100
        then take_int fuel buff m o args
        else (if kind == 120
            then take_hex fuel buff m o args
            else (if kind == 115 then take_string fuel m o args else some (m, o, args))))

-- The loop over the format, a round for each character or directive.
unfoldable pub log_loop :
    (rounds fuel buff : ℕ)
    → Memory
    → Output
    → (format : ℕ) → List Argument
    → Option (Memory × Output)
unfolding directive
log_loop zero fuel buff m o format args = none
log_loop (suc rounds) fuel buff m o format args =
    let done = directive fuel buff m o (load8 m (format + 1)) args >>= λ (r : Logged).
    log_loop rounds fuel buff r.0 r.1 (format + 2) r.2 in
    let onward = log_loop rounds fuel buff m (put_char o (load8 m format)) (format + 1) args in
    if load8 m format == 0 then some (m, o) else (if load8 m format == 37 then done else onward)

unfoldable pub log :
    (rounds fuel buff : ℕ)
    → Memory
    → Output
    → KernelLogType
    → (format : ℕ) → List Argument
    → Option (Memory × Output)
unfolding put_string prefix log_loop
log rounds fuel buff m o kind format args =
    log_loop rounds fuel buff m (put_string o (prefix kind)) format args
