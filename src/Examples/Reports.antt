-- ===== src/Examples/Reports.antt =====
-- The theorems on Log and on the panics at concrete inputs.
use system.Base.{
  ℕ, ◌+◌, ◌*◌, ◌%◌, ◌^◌, ◌<◌, ◌≤◌, ◌≡◌, refl, inl, inr, arith, Bool, true, false, ◌&&◌, some, List,
  [], ◌∷◌, ◌++◌, length, ltb, ◌==◌, if◌then◌else◌, codes,
}
use system.Base.Int.{negsuc}
use system.Memory.{Memory, load8}
use system.Strings.{Spells}
use system.Terminal.{Output}
use system.Terminal.Log.{info, prefix, put_string, int, uintptr, log}
use system.Terminal.Numerals.{decimal, natural}
use system.Terminal.Printing.{SameOutside, end, text, int_at, hex_at}
use system.Terminal.Rendering.{log-Renders}
use system.Panic.{Core, ended, PanicTexts, interrupt_registers, exception_handler2}
use system.Panic.Report.{HasText, HasTexts, exception_report}
use system.Panic.Laws.{unlocked, exception_handler2-Reports}

spells : Memory → ℕ → List ℕ → Bool
spells m p [] = load8 m p == 0
spells m p (c ∷ cs) = (load8 m p == c) && ltb 0 c && spells m (p + 1) cs

spells-Spells : (m : Memory) (p : ℕ) (cs : List ℕ) → spells m p cs ≡ true → Spells m p cs
unfolding spells Spells
spells-Spells m p [] h = ground arith
spells-Spells m p (c ∷ cs) h =
    (ground arith, ground arith, spells-Spells m (p + 1) cs (ground arith))

-- The text from `p` on, in front of what the memory holds.
text_at : (p : ℕ) → List ℕ → Memory → Memory
text_at p [] m b = if b == p then 0 else m b
text_at p (c ∷ cs) m b = if b == p then c else text_at (p + 1) cs m b

abbrev silent : Output
silent = record { terminal = []; serial = []; has_port = false }

abbrev empty : Memory
empty b = 0

abbrev format : Memory
format = text_at 8 (codes "a%d %x") empty

log-Renders_example :
    (m' : Memory) × (log 7 128 64 format silent info 8 (int (negsuc 41) ∷ uintptr 255 ∷ [])
      ≡ some (
        m',
        put_string silent
            (prefix info ++ 97 ∷ (decimal 127 (negsuc 41) ++ 32 ∷ (natural 127 16 255 ++ []))),
      ))
    × SameOutside 64 format m'
unfolding spells load8 text_at
log-Renders_example =
    log-Renders 128 64 format (omega arith) 7 silent info 8
      (spells-Spells format 8 (codes "a%d %x") refl) (inl (omega arith)) (omega arith)
      (text (omega arith) (int_at (omega arith) (text (omega arith) (hex_at (omega arith) end))))

-- The literals of the panics, from 4096 on, and an error string at 5120.
abbrev panic_texts : PanicTexts
panic_texts = record { stop = 4096; serious = 4224; reason = 4352; exception = 4480; values = 4608 }

abbrev literals : Memory
literals = text_at 4096 (codes "** STOP !! **\n") (
    text_at 4224 (codes "A serious error has occured in the kernel component.\n") (
      text_at 4352 (codes "Error string = %s\n") (
        text_at 4480 (codes "CPU Exception in kernel!!\n") (
          text_at 4608 (codes "{IP=0x%x, CS=0x%x, Flags=0x%x, SP=0x%x, SS=0x%x, ERR_CODE=0x%x}\n")
            (text_at 5120 (codes "Vector out of bounds") empty)))))

literal-HasText :
    (p : ℕ) (cs : List ℕ)
    → spells literals p cs ≡ true
    → 2176 ≤ p
    → length cs < 80
    → HasText literals 80 2048 p cs
literal-HasText p cs s away short = record {
  spells = spells-Spells literals p cs s;
  apart = inr away;
  short = short;
}

literals-HasTexts : HasTexts literals 80 2048 panic_texts
unfolding spells text_at load8
literals-HasTexts = record {
  stop = literal-HasText 4096 _ refl (omega arith) (omega arith);
  serious = literal-HasText 4224 _ refl (omega arith) (omega arith);
  reason = literal-HasText 4352 _ refl (omega arith) (omega arith);
  exception = literal-HasText 4480 _ refl (omega arith) (omega arith);
  values = literal-HasText 4608 _ refl (omega arith) (omega arith);
}

abbrev core : Core
core = record { mem = literals; output = silent; interrupts = true; locks = unlocked }

exception_handler2-Reports_example :
    (m' : Memory) × (exception_handler2 80 128 2048 panic_texts 7 8192 13 core
      ≡ ended (record {
        mem = m';
        output =
            put_string silent
              (exception_report (interrupt_registers literals 8192) (13 % 2 ^ 32 + 7 * 2 ^ 32));
        interrupts = false;
        locks = unlocked;
      }))
    × SameOutside 2048 literals m'
exception_handler2-Reports_example =
    exception_handler2-Reports 80 128 2048 panic_texts (omega arith) 7 8192 13 core refl
      literals-HasTexts (inr (omega arith)) (omega arith)
