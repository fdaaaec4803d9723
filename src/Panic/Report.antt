-- ===== src/Panic/Report.antt =====
-- The text of a panic's report, and of the formats that it is printed by.
use mathlib.Core.List.{append-nil}
use system.Base.{
  ℕ, ◌+◌, ◌*◌, ◌^◌, ◌<◌, ◌≡◌, refl, arith, Bool, true, not, ◌&&◌, List, [], ◌∷◌, ◌++◌, length, ◌==◌,
  codes,
}
use system.Memory.{Memory}
use system.Strings.{Spells}
use system.Terminal.Log.{fail, prefix, Argument}
use system.Terminal.Numerals.{natural}
use system.Terminal.Printing.{Apart, Renders, end, text, hex_at}
use system.Panic.{PanicTexts, InterruptRegisters, register_arguments}

-- No character is a `%`.
unfoldable pub plain : List ℕ → Bool
plain [] = true
plain (c ∷ cs) = not (c == 37) && plain cs

pub Renders-plain :
    (m : Memory) (fuel buff : ℕ) (cs : List ℕ) {ds : List ℕ} {args : List Argument} {out : List ℕ}
    → plain cs ≡ true
    → Renders m fuel buff ds args out
    → Renders m fuel buff (cs ++ ds) args (cs ++ out)
unfolding plain
Renders-plain m fuel buff [] p r = r
Renders-plain m fuel buff (c ∷ cs) p r =
    text (ground arith) (Renders-plain m fuel buff cs (ground arith) r)

-- The text stands at `p`, apart from Log's buffer, and is shorter than Log's fuel for a format.
pub record HasText (m : Memory) (rounds buff p : ℕ) (cs : List ℕ) : Type 0 where
  pub spells : Spells m p cs
  pub apart : Apart p (length cs) buff
  pub short : length cs < rounds

-- The literals are in memory.
pub record HasTexts (m : Memory) (rounds buff : ℕ) (texts : PanicTexts) : Type 0 where
  pub stop : HasText m rounds buff texts.stop (codes "** STOP !! **\n")
  pub serious :
      HasText m rounds buff texts.serious
        (codes "A serious error has occured in the kernel component.\n")
  pub reason : HasText m rounds buff texts.reason (codes "Error string = %s\n")
  pub exception : HasText m rounds buff texts.exception (codes "CPU Exception in kernel!!\n")
  pub values :
      HasText m rounds buff texts.values
        (codes "{IP=0x%x, CS=0x%x, Flags=0x%x, SP=0x%x, SS=0x%x, ERR_CODE=0x%x}\n")

-- The hexadecimal text of a number.
abbrev pub hexadecimal : ℕ → List ℕ
hexadecimal n = natural 127 16 n

-- A line of Log.
abbrev pub fail_line : List ℕ → List ℕ
fail_line cs = prefix fail ++ cs

abbrev pub panic_report : (error : List ℕ) → List ℕ
panic_report error =
    fail_line (codes "** STOP !! **\n")
    ++ (fail_line (codes "A serious error has occured in the kernel component.\n")
        ++ fail_line (codes "Error string = " ++ (error ++ codes "\n")))

abbrev pub values_text : InterruptRegisters → (error_code : ℕ) → List ℕ
values_text r error_code =
    codes "{IP=0x"
    ++ (hexadecimal r.ip
        ++ (codes ", CS=0x"
            ++ (hexadecimal r.cs
                ++ (codes ", Flags=0x"
                    ++ (hexadecimal r.flags
                        ++ (codes ", SP=0x"
                            ++ (hexadecimal r.sp
                                ++ (codes ", SS=0x"
                                    ++ (hexadecimal r.ss
                                        ++ (codes ", ERR_CODE=0x"
                                            ++ (hexadecimal error_code ++ codes "}\n")))))))))))

abbrev pub exception_report : InterruptRegisters → (error_code : ℕ) → List ℕ
exception_report r error_code =
    fail_line (codes "** STOP !! **\n")
    ++ (fail_line (codes "CPU Exception in kernel!!\n") ++ fail_line (values_text r error_code))

module _ (m : Memory) (fuel buff : ℕ) where
  pub Renders-values :
      (r : InterruptRegisters) (slot error_code : ℕ)
      → (r.ip < 2 ^ 64) × (r.cs < 2 ^ 64) × (r.flags < 2 ^ 64) × (r.sp < 2 ^ 64) × (r.ss < 2 ^ 64)
      → error_code < 2 ^ 32
      → slot < 2 ^ 32
      → Renders m fuel buff
          (codes "{IP=0x%x, CS=0x%x, Flags=0x%x, SP=0x%x, SS=0x%x, ERR_CODE=0x%x}\n")
          (register_arguments slot r error_code)
          (values_text r (error_code + slot * 2 ^ 32))
  unfolding register_arguments plain
  Renders-values r slot error_code small small' small'' =
      Renders-plain m fuel buff (codes "{IP=0x") refl (
        hex_at small.0 (
          Renders-plain m fuel buff (codes ", CS=0x") refl (
            hex_at small.1 (
              Renders-plain m fuel buff (codes ", Flags=0x") refl (
                hex_at small.2 (
                  Renders-plain m fuel buff (codes ", SP=0x") refl (
                    hex_at small.3 (
                      Renders-plain m fuel buff (codes ", SS=0x") refl (
                        hex_at small.4 (
                          Renders-plain m fuel buff (codes ", ERR_CODE=0x") refl (
                            hex_at (omega arith)
                              (Renders-plain m fuel buff (codes "}\n") refl end))))))))))))

  -- The text of a format without a directive.
  pub Renders-literal : (cs : List ℕ) → plain cs ≡ true → Renders m fuel buff cs [] cs
  Renders-literal cs p =
      let r = Renders-plain m fuel buff cs {ds = []} {args = []} {out = []} p end in
      let e : cs ++ [] ≡ cs = append-nil cs in rw e at r
