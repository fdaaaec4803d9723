-- ===== src/Idt/Laws.antt =====
-- The gates of the interrupt table, and the key sequence that reboots.
use system.Base.{
  ℕ, ◌+◌, ◌*◌, ◌^◌, ◌/◌, ◌%◌, ◌<◌, ◌≡◌, inl, inr, refl, arith, Bool, true, false, ◌||◌, ◌&&◌, List,
  [], ◌∷◌, ◌++◌, ◌==◌, if◌then◌else◌, leb, Bool-cases,
}
use system.Idt.{
  IdtEntry, Idt, has_error_code, Action, log_hint, acpi_reboot, log_failure, lapic_eoi,
  delete_scancode, escape_scancode, keyboard_interrupt,
}

-- A gate as the processor reads it: the handler's address and code segment, the stack, whether the gate is
-- present, the privilege that may call it, and whether it is a trap gate, which leaves interrupts on.
pub record Gate : Type 0 where
  pub handler : ℕ
  pub segment : ℕ
  pub stack : ℕ
  pub present : Bool
  pub privilege : ℕ
  pub trap : Bool

abbrev pub gate_of : IdtEntry → Gate
gate_of e = record {
  handler = e.offset0 + e.offset1 * 2 ^ 16 + e.offset2 * 2 ^ 32;
  segment = e.selector;
  stack = e.ist % 8;
  present = leb 128 (e.types_attrib % 256);
  privilege = e.types_attrib / 32 % 4;
  trap = e.types_attrib % 16 == 15;
}

-- A present gate of the kernel, in its code segment, on the current stack.
abbrev pub kernel_gate : (handler : ℕ) → (trap : Bool) → Gate
kernel_gate handler trap = record {
  handler = handler;
  segment = 8;
  stack = 0;
  present = true;
  privilege = 0;
  trap = trap;
}

-- The interrupts whose handler expects an error code.
abbrev pub with_error_code : List ℕ
with_error_code = 8 ∷ 10 ∷ 11 ∷ 12 ∷ 14 ∷ 17 ∷ 21 ∷ 29 ∷ 30 ∷ []

abbrev pub contains : ℕ → List ℕ → Bool
contains x [] = false
contains x (y ∷ ys) = (y == x) || contains x ys

module _ (h1 h2 : ℕ) (fit1 : h1 < 2 ^ 64) (fit2 : h2 < 2 ^ 64) where
  abbrev exception_of : ℕ → Gate
  exception_of j = kernel_gate (if has_error_code j then h2 else h1) true

-- A run of the keyboard handler over scan codes.
unfoldable pub keys : Bool → List ℕ → List Action
keys pressed [] = []
keys pressed (scan ∷ scans) = let r = keyboard_interrupt pressed scan in r.1 ++ keys r.0 scans

-- An escape after a delete.
abbrev pub escapes : List ℕ → Bool
escapes [] = false
escapes (x ∷ xs) = ((x == delete_scancode) && contains escape_scancode xs) || escapes xs

abbrev is_reboot : Action → Bool
is_reboot log_hint = false
is_reboot acpi_reboot = true
is_reboot log_failure = false
is_reboot lapic_eoi = false

unfoldable pub reboots : List Action → Bool
reboots [] = false
reboots (x ∷ xs) = is_reboot x || reboots xs

keys-pressed : (scans : List ℕ) → reboots (keys true scans) ≡ contains escape_scancode scans
unfolding reboots keys keyboard_interrupt
keys-pressed [] = refl
keys-pressed (scan ∷ scans) = elim (Bool-cases (scan == delete_scancode)) [
  | inl del ↦ elim (Bool-cases (scan == escape_scancode)) [
    | inl esc ↦ rw (del, esc)
    | inr other ↦ rw (del, other) (keys-pressed scans)
  ]
  | inr not_del ↦ elim (Bool-cases (scan == escape_scancode)) [
    | inl esc ↦ rw (not_del, esc)
    | inr other ↦ rw (not_del, other) (keys-pressed scans)
  ]
]

contains-escapes :
    (xs : List ℕ) → (contains escape_scancode xs || escapes xs) ≡ contains escape_scancode xs
contains-escapes [] = refl
contains-escapes (x ∷ xs) = ground (arith, contains-escapes xs)

-- A run of key presses, from the start, attempts the ACPI reboot exactly when an escape comes at some
-- time after a delete.
pub keys-reboots : (scans : List ℕ) → reboots (keys false scans) ≡ escapes scans
unfolding reboots keys keyboard_interrupt
keys-reboots [] = refl
keys-reboots (scan ∷ scans) = elim (Bool-cases (scan == delete_scancode)) [
  | inl del ↦
      let other : (scan == escape_scancode) ≡ false = ground arith in
      rw (del, other, contains-escapes scans) (keys-pressed scans)
  | inr not_del ↦ elim (Bool-cases (scan == escape_scancode)) [
    | inl esc ↦ rw (not_del, esc) (keys-reboots scans)
    | inr other ↦ rw (not_del, other) (keys-reboots scans)
  ]
]
