-- ===== src/Apic/Keyboard.antt =====
-- What InitializeIOAPIC leaves: the keyboard's line leads to its interrupt vector.
use system.Base.{
  ℕ, suc, ◌+◌, ◌*◌, ◌%◌, ◌^◌, ◌<◌, ◌≡◌, arith, some, List, [], ◌∷◌, length, ==-false, add64,
}
use system.Memory.{load32}
use system.Machine.{Machine}
use system.Acpi.{Run, done, panicked}
use system.Apic.{
  Device, create_redirection_entry, read_redirection_entry, override_irq,
  find_all_interrupt_controllers,
}
use system.Apic.Laws.{IsEntry, IsWindow, read_redirection_entry-write_redirection_entry}
use system.Apic.Madt.{Controllers, total_size, addresses, find_all_interrupt_controllers_lem}
use system.Apic.Setup.{
  ioapic_base_of, keyboard_entry, IoapicState, use_ioapic, choose_ioapic, initialize_ioapic,
}

keyboard_entry-IsEntry : IsEntry keyboard_entry
keyboard_entry-IsEntry = record {
  vector = omega arith;
  delivery_mode = omega arith;
  destination_mode = omega arith;
  busy = omega arith;
  polarity = omega arith;
  lti_status = omega arith;
  trigger_mode = omega arith;
  interrupt_mask = omega arith;
  reserved = omega arith;
  destination = omega arith;
}

module _ {S : Type 0} (d : Device S) where
  pub initialize_ioapic-found :
      (fuel hhdm madt : ℕ) (s : Machine) (dev : S) (a : ℕ) (rest isos : List ℕ)
      → find_all_interrupt_controllers fuel s.mem madt 1 ≡ some (a ∷ rest)
      → find_all_interrupt_controllers fuel s.mem madt 2 ≡ some isos
      → suc (length rest) < 2 ^ 16
      → initialize_ioapic d fuel hhdm s madt dev ≡ done (use_ioapic d hhdm s dev a isos)
  unfolding initialize_ioapic choose_ioapic
  initialize_ioapic-found fuel hhdm madt s dev a rest isos e e' few =
      rw (e, initialize_ioapic, e', ==-false (suc (length rest) % 2 ^ 16) 0 (omega arith))

  pub initialize_ioapic-none :
      (fuel hhdm madt : ℕ) (s : Machine) (dev : S)
      → find_all_interrupt_controllers fuel s.mem madt 1 ≡ some []
      → initialize_ioapic d fuel hhdm s madt dev ≡ panicked
  unfolding initialize_ioapic choose_ioapic
  initialize_ioapic-none fuel hhdm madt s dev e = rw (e, initialize_ioapic)

  pub use_ioapic-keyboard :
      (hhdm : ℕ) (s : Machine) (dev : S) (a : ℕ) (isos : List ℕ) (register : S → ℕ → ℕ)
      → (w : IsWindow d (add64 (ioapic_base_of s.mem a) hhdm) register)
      → (read_redirection_entry d
          (use_ioapic d hhdm s dev a isos).ioapic_base
          (use_ioapic d hhdm s dev a isos).device
          (override_irq (use_ioapic d hhdm s dev a isos).overrides 1 * 2 % 2 ^ 32)).1
        ≡ keyboard_entry
  unfolding use_ioapic create_redirection_entry
  use_ioapic-keyboard hhdm s dev a isos register w =
      let base = add64 (ioapic_base_of s.mem a) hhdm in
      let line = override_irq (use_ioapic d hhdm s dev a isos).overrides 1 * 2 % 2 ^ 32 in
      read_redirection_entry-write_redirection_entry d base register w dev line keyboard_entry
        keyboard_entry-IsEntry (omega arith)

-- What InitializeIOAPIC comes to on a MADT that holds the structures `cs`: a panic without a structure of
-- an I/O APIC, else the first I/O APIC, whose entry for the keyboard's line, the overrides applied,
-- reads back as the keyboard's vector.
abbrev pub KeyboardSet : {S : Type 0} → Device S → (first : List ℕ) → Run (IoapicState S) → Type 0
KeyboardSet d [] run = run ≡ panicked
KeyboardSet {S} d (a ∷ rest) run =
    (r : IoapicState S) × (run ≡ done r)
    × ((read_redirection_entry d r.ioapic_base r.device (override_irq r.overrides 1 * 2 % 2 ^ 32)).1
        ≡ keyboard_entry)

-- At the address that the first I/O APIC is seen at stands a device with a register window.
abbrev pub FirstWindow :
    {S : Type 0} → Device S → (hhdm : ℕ) → Machine → List ℕ → (S → ℕ → ℕ) → Type 0
FirstWindow d hhdm s [] register = Unit
FirstWindow d hhdm s (a ∷ rest) register = IsWindow d (add64 (ioapic_base_of s.mem a) hhdm) register

chosen :
    {S : Type 0} (d : Device S) (fuel hhdm madt : ℕ) (s : Machine) (dev : S) (found isos : List ℕ)
    (register : S → ℕ → ℕ)
    → find_all_interrupt_controllers fuel s.mem madt 1 ≡ some found
    → find_all_interrupt_controllers fuel s.mem madt 2 ≡ some isos
    → length found < 2 ^ 16
    → FirstWindow d hhdm s found register
    → KeyboardSet d found (initialize_ioapic d fuel hhdm s madt dev)
chosen d fuel hhdm madt s dev [] isos register e e' few w =
    initialize_ioapic-none d fuel hhdm madt s dev e
chosen d fuel hhdm madt s dev (a ∷ rest) isos register e e' few w = (
  use_ioapic d hhdm s dev a isos,
  initialize_ioapic-found d fuel hhdm madt s dev a rest isos e e' few,
  use_ioapic-keyboard d hhdm s dev a isos register w,
)

-- InitializeIOAPIC on a MADT whose structures follow each other, each of at least one byte, and fill its
-- length, ends: without an I/O APIC among them it panics, and else the redirection entry of the
-- keyboard's line, the interrupt source overrides applied, reads back as vector 0x21. The fuel exceeds
-- the number of structures, there are fewer than 2 ^ 16 I/O APICs, and at the address that the first one
-- is seen at stands a device with a register window.
pub initialize_ioapic-KeyboardSet :
    {S : Type 0} (d : Device S) (fuel hhdm madt : ℕ) (s : Machine) (dev : S) (cs : List (ℕ × ℕ))
    (register : S → ℕ → ℕ)
    → Controllers s.mem (madt + 44) cs
    → length cs < fuel
    → load32 s.mem (madt + 4) ≡ 44 + total_size cs
    → total_size cs < 2 ^ 32
    → length (addresses 1 (madt + 44) cs) < 2 ^ 16
    → FirstWindow d hhdm s (addresses 1 (madt + 44) cs) register
    → KeyboardSet d (addresses 1 (madt + 44) cs) (initialize_ioapic d fuel hhdm s madt dev)
initialize_ioapic-KeyboardSet d fuel hhdm madt s dev cs register held enough len fits few w =
    chosen d fuel hhdm madt s dev (addresses 1 (madt + 44) cs) (addresses 2 (madt + 44) cs) register
      (find_all_interrupt_controllers_lem fuel s.mem madt 1 cs held enough len fits)
      (find_all_interrupt_controllers_lem fuel s.mem madt 2 cs held enough len fits) few w
