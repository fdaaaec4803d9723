-- ===== src/Apic/Setup.antt =====
-- InitializeMADT and InitializeIOAPIC of apic.cpp.
use system.Base.{
  ℕ, ◌+◌, ◌%◌, ◌^◌, false, Option, none, some, List, [], ◌∷◌, length, map, ◌==◌, if◌then◌else◌,
  add64,
}
use system.Memory.{Memory, load8, load32}
use system.Machine.{Machine}
use system.Vmm.{memory_map}
use system.Acpi.{Acpi, Run, done, panicked, running, get_acpi_table}
use system.Apic.{
  Device, RedirectionEntry, SourceOverride, create_redirection_entry,
  find_all_interrupt_controllers,
}

-- `IOAPICBase` of an IOAPICStructure, and the override that a structure of type 2 holds.
abbrev pub ioapic_base_of : Memory → (structure : ℕ) → ℕ
ioapic_base_of m structure = load32 m (structure + 4)

abbrev pub override_of : Memory → (structure : ℕ) → SourceOverride
override_of m structure = record {
  source = load8 m (structure + 3);
  gsi = load32 m (structure + 4);
}

-- `MADTHeader::LAPICAddress`
abbrev pub lapic_address : Memory → (madt : ℕ) → ℕ
lapic_address m madt = load32 m (madt + 36)

-- What is known of the interrupt controllers: GlobalMADT and LocalAPICBase.
pub record MadtState : Type 0 where
  pub machine : Machine
  pub madt : ℕ
  pub local_apic_base : ℕ

-- What InitializeMADT does with the answer of GetACPITable.
unfoldable pub take_madt : (hhdm : ℕ) → Run (Machine × ℕ) → Run MadtState
take_madt hhdm panicked = panicked
take_madt hhdm running = running
take_madt hhdm (done (s, madt)) =
    let lapic = lapic_address s.mem madt in
    let base = add64 lapic hhdm in
    if madt == 0
    then panicked
    else done (record {
      machine = (memory_map hhdm s 0 base lapic false).0;
      madt = madt;
      local_apic_base = base;
    })

-- `apic` is the address of the text "APIC".
unfoldable pub initialize_madt : (fuel hhdm : ℕ) → Acpi → (apic : ℕ) → Run MadtState
unfolding take_madt
initialize_madt fuel hhdm a apic = take_madt hhdm (get_acpi_table fuel hhdm a apic)

-- The entry that the keyboard is given.
abbrev pub keyboard_entry : RedirectionEntry
keyboard_entry = record {
  vector = 0x21;
  delivery_mode = 0;
  destination_mode = 0;
  busy = 0;
  polarity = 0;
  lti_status = 0;
  trigger_mode = 0;
  interrupt_mask = 0;
  reserved = 0;
  destination = 0;
}

-- The I/O APIC: GetIOAPICBase, and the registers of the device.
pub record IoapicState (S : Type 0) : Type 0 where
  pub machine : Machine
  pub ioapic_base : ℕ
  pub overrides : List SourceOverride
  pub device : S

module _ {S : Type 0} (d : Device S) where
  -- From the set-up of the I/O APIC object on, with the structures found.
  unfoldable pub use_ioapic :
      (hhdm : ℕ) → Machine → S → (structure : ℕ) → (iso_structures : List ℕ) → IoapicState S
  use_ioapic hhdm s dev structure iso_structures =
      let base = ioapic_base_of s.mem structure in
      let s' = (memory_map hhdm s 0 (add64 base hhdm) base false).0 in
      let overrides = map (override_of s'.mem) iso_structures in
      record {
        machine = s';
        ioapic_base = add64 base hhdm;
        overrides = overrides;
        device = create_redirection_entry d (add64 base hhdm) overrides dev keyboard_entry 1;
      }

  -- The size of a vector has 16 bits.
  unfoldable pub choose_ioapic :
      (hhdm : ℕ)
      → Machine
      → S
      → (ioapic_structures : List ℕ) → Option (List ℕ)
      → Run (IoapicState S)
  choose_ioapic hhdm s dev [] iso_structures = panicked
  choose_ioapic hhdm s dev (first ∷ rest) none =
      if length (first ∷ rest) % 2 ^ 16 == 0 then panicked else running
  choose_ioapic hhdm s dev (first ∷ rest) (some iso_structures) =
      if length (first ∷ rest) % 2 ^ 16 == 0
      then panicked
      else done (use_ioapic hhdm s dev first iso_structures)

  unfoldable pub initialize_ioapic :
      (fuel hhdm : ℕ) → Machine → (madt : ℕ) → S → Run (IoapicState S)
  initialize_ioapic fuel hhdm s madt dev =
      elim (find_all_interrupt_controllers fuel s.mem madt 0x1) [
        | none ↦ running
        | some ioapic_structures ↦
            choose_ioapic hhdm s dev ioapic_structures
              (find_all_interrupt_controllers fuel s.mem madt 0x2)
      ]
