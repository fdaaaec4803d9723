-- ===== src/Panic.antt =====
-- kernel/src/libs/kernel.cpp: Panic and PanicFromException, with the two exception handlers of
-- kernel/src/hal/cpu/interrupt/idt.cpp that call the latter. The addresses of the string literals are
-- parameters, and so is the address of the buffer in Log's frame.
pub mod Report
pub mod Laws
use system.Base.{
  ℕ, ◌+◌, ◌*◌, ◌%◌, ◌^◌, Bool, true, false, if◌then◌else◌, Option, none, some, List, [], ◌∷◌,
}
use system.Memory.{Memory, load64}
use system.Terminal.{Output}
use system.Terminal.Log.{KernelLogType, fail, Argument, uintptr, string, log}

-- The spinlocks on the way of a report, and whether each is held, by whichever core.
pub record ReportLocks : Type 0 where
  pub panic_lock : Bool
  pub panic_lock2 : Bool
  pub log_lock : Bool
  pub print_lock : Bool
  pub put_char_lock : Bool

-- A core in the kernel: the memory, what was put out, whether it takes interrupts, and the locks.
pub record Core : Type 0 where
  pub mem : Memory
  pub output : Output
  pub interrupts : Bool
  pub locks : ReportLocks

-- Where a report gets to: its end, or the loop of SpinlockAquire for a lock that is held, with what was
-- done before. `running` is the end of the fuel.
pub data Reported : Type 0 where
  ended : Core → Reported
  waiting : Core → Reported
  running : Reported

pub onward : Reported → (Core → Reported) → Reported
onward (ended c) f = f c
onward (waiting c) f = waiting c
onward running f = running

pub logged : Core → Option (Memory × Output) → Reported
logged c none = running
logged c (some r) = ended (record c { mem = r.0; output = r.1 })

pub record PanicTexts : Type 0 where
  pub stop : ℕ  -- "** STOP !! **\n"
  pub serious : ℕ  -- "A serious error has occured in the kernel component.\n"
  pub reason : ℕ  -- "Error string = %s\n"
  pub exception : ℕ  -- "CPU Exception in kernel!!\n"
  pub values : ℕ  -- "{IP=0x%x, CS=0x%x, Flags=0x%x, SP=0x%x, SS=0x%x, ERR_CODE=0x%x}\n"

-- CInterruptRegisters, and what stands at the address of one.
pub record InterruptRegisters : Type 0 where
  pub ip : ℕ
  pub cs : ℕ
  pub flags : ℕ
  pub sp : ℕ
  pub ss : ℕ

unfoldable pub interrupt_registers : Memory → (registers : ℕ) → InterruptRegisters
interrupt_registers m registers = record {
  ip = load64 m registers;
  cs = load64 m (registers + 8);
  flags = load64 m (registers + 16);
  sp = load64 m (registers + 24);
  ss = load64 m (registers + 32);
}

-- The arguments behind the last format. The error code is an `int` that Log reads as a `uintptr_t`: `slot`
-- is what stands in the upper half of its place on the stack, which the call does not write.
unfoldable pub register_arguments :
    (slot : ℕ) → InterruptRegisters → (error_code : ℕ) → List Argument
register_arguments slot r error_code =
    uintptr r.ip
    ∷ uintptr r.cs
    ∷ uintptr r.flags
    ∷ uintptr r.sp
    ∷ uintptr r.ss
    ∷ uintptr (error_code + slot * 2 ^ 32)
    ∷ []

module _ (rounds fuel buff : ℕ) (texts : PanicTexts) where
  -- A call of Log with a mark to print: it takes its lock, then Print takes its own for the mark, and PutChar
  -- its own for a character. All three are given back in the end.
  pub say : KernelLogType → (format : ℕ) → List Argument → Core → Reported
  unfolding logged
  say kind format args c =
      let l = c.locks in
      if l.log_lock
      then waiting c
      else (if l.print_lock
          then waiting (record c { locks = record l { log_lock = true } })
          else (if l.put_char_lock
              then waiting (record c { locks = record l { log_lock = true; print_lock = true } })
              else logged c (log rounds fuel buff c.mem c.output kind format args)))

  -- Panic, up to its last loop, in which the core halts for ever.
  unfoldable pub panic : (error : ℕ) → Core → Reported
  unfolding say onward
  panic error c =
      if c.locks.panic_lock
      then waiting c
      else onward
          (say fail texts.stop [] (record c { locks = record c.locks { panic_lock = true } }))
          (λ (c1 : Core). onward (say fail texts.serious [] c1) (λ (c2 : Core).
            onward (say fail texts.reason (string error ∷ []) c2) (λ (c3 : Core).
              ended (record c3 { locks = record c3.locks { panic_lock = false } }))))

  -- PanicFromException, up to its last loop. `error_code` is the bit pattern of an `int`.
  unfoldable pub panic_from_exception : (slot registers error_code : ℕ) → Core → Reported
  unfolding say onward register_arguments interrupt_registers
  panic_from_exception slot registers error_code c =
      if c.locks.panic_lock2
      then waiting c
      else onward
          (say fail texts.stop [] (record c { locks = record c.locks { panic_lock2 = true } }))
          (λ (c1 : Core). onward (say fail texts.exception [] c1) (λ (c2 : Core).
            onward
              (say fail texts.values
                (register_arguments slot (interrupt_registers c2.mem registers) error_code) c2)
              (λ (c3 : Core).
                ended (record c3 { locks = record c3.locks { panic_lock2 = false } }))))

  -- ExceptionHandler and ExceptionHandler2.
  unfoldable pub exception_handler : (slot registers : ℕ) → Core → Reported
  unfolding panic_from_exception
  exception_handler slot registers c =
      panic_from_exception slot registers 0 (record c { interrupts = false })

  unfoldable pub exception_handler2 : (slot registers error_code : ℕ) → Core → Reported
  unfolding panic_from_exception
  exception_handler2 slot registers error_code c =
      panic_from_exception slot registers (error_code % 2 ^ 32) (record c { interrupts = false })
