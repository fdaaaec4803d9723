-- ===== src/Idt.antt =====
-- kernel/src/hal/cpu/interrupt/idt.cpp: the interrupt descriptor table, and the keyboard handler.
-- The handlers' addresses, the loading of the table and the two calls that the keyboard handler makes
-- outside this file stand as parameters or as the actions that the handler takes.
pub mod Laws
use system.Base.{
  ℕ, zero, suc, ◌+◌, ◌/◌, ◌%◌, ◌^◌, Bool, true, false, ◌||◌, ◌&&◌, List, [], ◌∷◌, ◌++◌, ◌==◌,
  if◌then◌else◌,
}

pub record IdtEntry : Type 0 where
  pub offset0 : ℕ
  pub selector : ℕ
  pub ist : ℕ
  pub types_attrib : ℕ
  pub offset1 : ℕ
  pub offset2 : ℕ
  pub reserved : ℕ

-- IDT, by the number of the interrupt.
abbrev pub Idt : Type 0
Idt = ℕ → IdtEntry

unfoldable pub create_idt_entry : Idt → (interrupt handler gate_type : ℕ) → Idt
create_idt_entry idt interrupt handler gate_type i =
    if i == interrupt
    then record {
      offset0 = handler % 2 ^ 16;
      selector = 0x08;
      ist = 0;
      types_attrib = gate_type;
      offset1 = handler / 2 ^ 16 % 2 ^ 16;
      offset2 = handler / 2 ^ 32 % 2 ^ 32;
      reserved = 0;
    }
    else idt i

-- The exceptions that Initialize gives the handler with an error code.
abbrev pub has_error_code : ℕ → Bool
has_error_code i =
    (i == 0x8)
    || (i == 0xA)
    || (i == 0xB)
    || (i == 0xC)
    || (i == 0xE)
    || (i == 0x11)
    || (i == 0x15)
    || (i == 0x1D)
    || (i == 0x1E)

module _ (exception_handler exception_handler2 : ℕ) where
  -- One round of Initialize.
  pub create_exception : Idt → (i : ℕ) → Idt
  create_exception idt i =
      if has_error_code i
      then create_idt_entry idt i exception_handler2 0x8F
      else create_idt_entry idt i exception_handler 0x8F

  -- The loop of Initialize from `i` on, with its rounds left.
  pub create_exceptions : ℕ → Idt → (i : ℕ) → Idt
  unfolding create_exception
  create_exceptions zero idt i = idt
  create_exceptions (suc k) idt i = create_exceptions k (create_exception idt i) (i + 1)

  unfoldable pub initialize : (timer_interrupt keyboard_interrupt : ℕ) → Idt → Idt
  unfolding create_exceptions
  initialize timer_interrupt keyboard_interrupt idt =
      create_idt_entry (create_idt_entry (create_exceptions 0x1f idt 0) 0x20 timer_interrupt 0x8E)
        0x21 keyboard_interrupt 0x8E

-- IDTR
pub record Idtr : Type 0 where
  pub limit : ℕ
  pub addr : ℕ

abbrev pub idt_ptr : (idt : ℕ) → Idtr
idt_ptr idt = record { limit = 0xfff; addr = idt }

-- What the keyboard handler does besides setting DeletePressed. PerformACPIReboot comes back only
-- when it fails.
pub data Action : Type 0 where
  log_hint : Action
  acpi_reboot : Action
  log_failure : Action
  lapic_eoi : Action

abbrev pub delete_scancode : ℕ
delete_scancode = 0x53

abbrev pub escape_scancode : ℕ
escape_scancode = 0x01

-- KeyboardInterrupt on DeletePressed and the scan code that it reads.
unfoldable pub keyboard_interrupt : (delete_pressed : Bool) → (scan : ℕ) → Bool × List Action
keyboard_interrupt delete_pressed scan =
    let pressed = if scan == delete_scancode then true else delete_pressed in
    let hint = if scan == delete_scancode then log_hint ∷ [] else [] in
    let reboot =
      if (scan == escape_scancode) && pressed then acpi_reboot ∷ log_failure ∷ [] else [] in
    (pressed, hint ++ reboot ++ lapic_eoi ∷ [])
