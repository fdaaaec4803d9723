-- ===== src/Panic/Laws.antt =====
-- What a panic reports.
use system.Base.{
  Bool-cases, inl, inr, ℕ, ◌+◌, ◌*◌, ◌%◌, ◌^◌, ◌≤◌, ◌<◌, ◌≡◌, ◌∙◌, refl, sym, ap, arith, true,
  false, List, [], ◌++◌, length, codes,
}
use system.Memory.{Memory, load64-lt, load64-same}
use system.Strings.{c_string}
use system.Terminal.{Output}
use system.Terminal.Log.{KernelLogType, fail, prefix, put_string, Argument}
use system.Terminal.Printing.{Apart, SameOutside, put_string-append, Renders, end, string_at}
use system.Terminal.Rendering.{log-Renders_from}
use system.Panic.Report.{
  plain, fail_line, HasText, HasTexts, panic_report, exception_report, values_text, Renders-plain,
  Renders-values, Renders-literal,
}
use system.Panic.{
  Core, ReportLocks, ended, waiting, onward, logged, PanicTexts, interrupt_registers,
  register_arguments, say, panic, panic_from_exception, exception_handler2,
}

-- No lock on the way of a report is held.
abbrev pub unlocked : ReportLocks
unlocked = record {
  panic_lock = false;
  panic_lock2 = false;
  log_lock = false;
  print_lock = false;
  put_char_lock = false;
}

abbrev pub Free : Core → Type 0
Free c = c.locks ≡ unlocked

-- Log and what it calls find their locks free.
abbrev CanSay : Core → Type 0
CanSay c =
    (c.locks.log_lock ≡ false) × (c.locks.print_lock ≡ false) × (c.locks.put_char_lock ≡ false)

module _ (rounds fuel buff : ℕ) (texts : PanicTexts) (m : Memory) (room : 128 ≤ fuel) where
  -- The core after a line.
  record Said (c : Core) (kind : KernelLogType) (format : ℕ) (args : List Argument) (out : List ℕ)
      : Type 0 where
    left : Memory
    said :
        say rounds fuel buff texts kind format args c
        ≡ ended (record c { mem = left; output = put_string c.output (prefix kind ++ out) })
    same : SameOutside buff m left

  say-Said :
      (c : Core) (kind : KernelLogType) (format : ℕ) {cs : List ℕ} {args : List Argument}
      {out : List ℕ}
      → CanSay c
      → SameOutside buff m c.mem
      → HasText m rounds buff format cs
      → Renders m fuel buff cs args out
      → Said c kind format args out
  unfolding say logged
  say-Said c kind format free same has r =
      let done =
        log-Renders_from fuel buff m room rounds c.mem c.output kind format same has.spells
          has.apart has.short r in
      record { left = done.0; said = rw (free.0, free.1, free.2, done.1); same = done.2 }

-- The registers are read from a memory that differs in the buffer alone.
interrupt_registers-same :
    (buff : ℕ) (m m' : Memory) (registers : ℕ)
    → SameOutside buff m m'
    → Apart registers 40 buff
    → interrupt_registers m' registers ≡ interrupt_registers m registers
unfolding interrupt_registers
interrupt_registers-same buff m m' registers same apart =
    let word = λ (p : ℕ) (lo : registers ≤ p) (hi : p + 8 ≤ registers + 40).
      load64-same m m' p (λ b l h. same b (omega arith)) in
    rw (
      word registers (omega arith) (omega arith),
      word (registers + 8) (omega arith) (omega arith),
      word (registers + 16) (omega arith) (omega arith),
      word (registers + 24) (omega arith) (omega arith),
      word (registers + 32) (omega arith) (omega arith),
    )

interrupt_registers-lt :
    (m : Memory) (registers : ℕ)
    → let r = interrupt_registers m registers in
      (r.ip < 2 ^ 64) × (r.cs < 2 ^ 64) × (r.flags < 2 ^ 64) × (r.sp < 2 ^ 64) × (r.ss < 2 ^ 64)
unfolding interrupt_registers
interrupt_registers-lt m registers = (
  load64-lt m registers,
  load64-lt m (registers + 8),
  load64-lt m (registers + 16),
  load64-lt m (registers + 24),
  load64-lt m (registers + 32),
)

three_lines :
    (o : Output) (xs ys zs : List ℕ)
    → put_string (put_string (put_string o xs) ys) zs ≡ put_string o (xs ++ (ys ++ zs))
three_lines o xs ys zs =
    sym (put_string-append ys zs (put_string o xs)) ∙ sym (put_string-append xs (ys ++ zs) o)

module _ (rounds fuel buff : ℕ) (texts : PanicTexts) (room : 128 ≤ fuel) where
  -- Panic, while the literals stand in memory and Log's fuel is enough for them, ends in its last loop with
  -- two fixed lines put out and the error string behind "Error string = " on a third, each after the mark
  -- of a failure, no byte outside Log's buffer changed, and the locks, which were free, free again; the error string is shorter than its fuel and
  -- apart from the buffer.
  pub panic-Reports :
      (error : ℕ) (c : Core)
      → Free c
      → HasTexts c.mem rounds buff texts
      → length (c_string c.mem error fuel) < fuel
      → Apart error (length (c_string c.mem error fuel)) buff
      → (m' : Memory) × (panic rounds fuel buff texts error c
          ≡ ended (record c {
            mem = m';
            output = put_string c.output (panic_report (c_string c.mem error fuel));
          }))
        × SameOutside buff c.mem m'
  unfolding panic onward plain
  panic-Reports error c free has short apart =
      let literal = Renders-literal c.mem fuel buff in
      let c0 = record c { locks = record unlocked { panic_lock = true } } in
      let s1 =
        say-Said rounds fuel buff texts c.mem room c0 fail texts.stop (refl, refl, refl)
          (λ b out. refl) has.stop (literal _ refl) in
      let o1 = put_string c.output (fail_line (codes "** STOP !! **\n")) in
      let c1 = record c0 { mem = s1.left; output = o1 } in
      let s2 =
        say-Said rounds fuel buff texts c.mem room c1 fail texts.serious (refl, refl, refl) s1.same
          has.serious (literal _ refl) in
      let o2 =
        put_string o1
          (fail_line (codes "A serious error has occured in the kernel component.\n")) in
      let c2 = record c0 { mem = s2.left; output = o2 } in
      let rendered =
        Renders-plain c.mem fuel buff (codes "Error string = ") refl (
          string_at {args = []} short apart
            (Renders-plain c.mem fuel buff (codes "\n") refl end)) in
      let s3 =
        say-Said rounds fuel buff texts c.mem room c2 fail texts.reason (refl, refl, refl) s2.same
          has.reason rendered in
      (s3.left, rw (free, s1.said, s2.said, s3.said, ← three_lines c.output), s3.same)

  exception_calls :
      (slot registers error_code : ℕ) (c c1 c2 c3 : Core)
      → c.locks.panic_lock2 ≡ false
      → say rounds fuel buff texts fail texts.stop []
          (record c { locks = record c.locks { panic_lock2 = true } })
        ≡ ended c1
      → say rounds fuel buff texts fail texts.exception [] c1 ≡ ended c2
      → say rounds fuel buff texts fail texts.values
          (register_arguments slot (interrupt_registers c2.mem registers) error_code)
          c2
        ≡ ended c3
      → panic_from_exception rounds fuel buff texts slot registers error_code c
        ≡ ended (record c3 { locks = record c3.locks { panic_lock2 = false } })
  unfolding panic_from_exception onward
  exception_calls slot registers error_code c c1 c2 c3 free e1 e2 e3 = rw (free, e1, e2, e3)

  -- An exception with an error code, while the locks of the report are free, the literals stand in memory and
  -- Log's fuel is enough for them, takes the core's interrupts off and ends in the last loop of PanicFromException, with a line put
  -- out that holds the five saved registers in hexadecimal and, as error code, the low 32 bits of the real
  -- one together with whatever the upper half of the argument's place on the stack holds; no byte outside
  -- Log's buffer is changed. The saved registers are apart from the buffer.
  pub exception_handler2-Reports :
      (slot registers error_code : ℕ) (c : Core)
      → Free c
      → HasTexts c.mem rounds buff texts
      → Apart registers 40 buff
      → slot < 2 ^ 32
      → (m' : Memory) × (exception_handler2 rounds fuel buff texts slot registers error_code c
          ≡ ended (record {
            mem = m';
            output = put_string c.output (
                exception_report
                  (interrupt_registers c.mem registers)
                  (error_code % 2 ^ 32 + slot * 2 ^ 32));
            interrupts = false;
            locks = unlocked;
          }))
        × SameOutside buff c.mem m'
  unfolding exception_handler2 plain
  exception_handler2-Reports slot registers error_code c free has apart small =
      let literal = Renders-literal c.mem fuel buff in
      let c0 = record c { interrupts = false; locks = record unlocked { panic_lock2 = true } } in
      let s1 =
        say-Said rounds fuel buff texts c.mem room c0 fail texts.stop (refl, refl, refl)
          (λ b out. refl) has.stop (literal _ refl) in
      let o1 = put_string c.output (fail_line (codes "** STOP !! **\n")) in
      let c1 = record c0 { mem = s1.left; output = o1 } in
      let s2 =
        say-Said rounds fuel buff texts c.mem room c1 fail texts.exception (refl, refl, refl)
          s1.same has.exception (literal _ refl) in
      let o2 = put_string o1 (fail_line (codes "CPU Exception in kernel!!\n")) in
      let c2 = record c0 { mem = s2.left; output = o2 } in
      let regs = interrupt_registers-same buff c.mem s2.left registers s2.same apart in
      let r = interrupt_registers c.mem registers in
      let e = error_code % 2 ^ 32 + slot * 2 ^ 32 in
      let rendered =
        Renders-values c.mem fuel buff r slot (error_code % 2 ^ 32)
          (interrupt_registers-lt c.mem registers) (omega arith) small in
      let s3 =
        say-Said rounds fuel buff texts c.mem room c2 fail texts.values (refl, refl, refl) s2.same
          has.values rendered in
      let o3 = put_string o2 (fail_line (values_text r e)) in
      let c3 = record c0 { mem = s3.left; output = o3 } in
      let third =
        ap
          (λ l.
            say rounds fuel buff texts fail texts.values
              (register_arguments slot l (error_code % 2 ^ 32)) c2)
          regs
        ∙ s3.said in
      (
        s3.left,
        rw free (
            exception_calls slot registers (error_code % 2 ^ 32)
              (record c { interrupts = false; locks = unlocked }) c1 c2 c3 refl s1.said s2.said
              third
            ∙ rw (← three_lines c.output)),
        s3.same,
      )

  -- An exception with an error code while LogSpinlock is held, as by the same core inside Log, takes
  -- PanicLock2 if it is free, and gets no further than the loop of a SpinlockAquire: nothing is put out.
  pub exception_handler2-waits :
      (slot registers error_code : ℕ) (c : Core)
      → c.locks.log_lock ≡ true
      → (w : Core) × (exception_handler2 rounds fuel buff texts slot registers error_code c
          ≡ waiting w)
        × (w.output ≡ c.output)
        × (w.locks.panic_lock2 ≡ true)
  unfolding exception_handler2 panic_from_exception say onward
  exception_handler2-waits slot registers error_code c held =
      elim (Bool-cases c.locks.panic_lock2) [
        | inl taken ↦ (record c { interrupts = false }, rw taken, refl, taken)
        | inr free ↦ (
          record c { interrupts = false; locks = record c.locks { panic_lock2 = true } },
          rw (free, held),
          refl,
          refl,
        )
      ]
