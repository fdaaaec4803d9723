-- ===== src/Apic.antt =====
-- kernel/src/hal/cpu/interrupt/apic.cpp: the redirection table of the I/O APIC, the interrupt source
-- overrides, and the search of the MADT. The device behind the I/O APIC's two registers is a parameter.
pub mod Laws
pub mod Madt
pub mod Local
pub mod Setup
pub mod Keyboard
use system.Base.{
  length, ℕ, zero, suc, ◌+◌, ◌*◌, ◌/◌, ◌%◌, ◌^◌, Option, none, some, List, [], ◌∷◌, ◌==◌, not,
  if◌then◌else◌, add64, sub64,
}
use system.Memory.{Memory, load8, load32}

-- IOAPIC::RedirectionEntry, a packed structure of 64 bits.
pub record RedirectionEntry : Type 0 where
  pub vector : ℕ
  pub delivery_mode : ℕ
  pub destination_mode : ℕ
  pub busy : ℕ
  pub polarity : ℕ
  pub lti_status : ℕ
  pub trigger_mode : ℕ
  pub interrupt_mask : ℕ
  pub reserved : ℕ
  pub destination : ℕ

-- `*(uint64_t*)&redirEntry`
unfoldable pub pack : RedirectionEntry → ℕ
pack e =
    e.vector
    + e.delivery_mode * 2 ^ 8
    + e.destination_mode * 2 ^ 11
    + e.busy * 2 ^ 12
    + e.polarity * 2 ^ 13
    + e.lti_status * 2 ^ 14
    + e.trigger_mode * 2 ^ 15
    + e.interrupt_mask * 2 ^ 16
    + e.reserved * 2 ^ 17
    + e.destination * 2 ^ 56

-- `*(RedirectionEntry*)&val`
unfoldable pub unpack : ℕ → RedirectionEntry
unpack val = record {
  vector = val % 2 ^ 8;
  delivery_mode = val / 2 ^ 8 % 2 ^ 3;
  destination_mode = val / 2 ^ 11 % 2;
  busy = val / 2 ^ 12 % 2;
  polarity = val / 2 ^ 13 % 2;
  lti_status = val / 2 ^ 14 % 2;
  trigger_mode = val / 2 ^ 15 % 2;
  interrupt_mask = val / 2 ^ 16 % 2;
  reserved = val / 2 ^ 17 % 2 ^ 39;
  destination = val / 2 ^ 56 % 2 ^ 8;
}

-- Accesses of 32 bits to the registers of a device.
pub record Device (S : Type 0) : Type 0 where
  pub write32 : S → (addr value : ℕ) → S
  pub read32 : S → (addr : ℕ) → ℕ

-- Register_RedirEntries
abbrev pub register_redir_entries : ℕ
register_redir_entries = 0x10

module _ {S : Type 0} (d : Device S) (base : ℕ) where
  -- Write and Read of the class IOAPIC: `ptr[0]` selects a register, `ptr[4]` is its value.
  unfoldable pub write : S → (reg value : ℕ) → S
  write s reg value = d.write32 (d.write32 s base (reg % 256)) (base + 16) value

  unfoldable pub read : S → (reg : ℕ) → S × ℕ
  read s reg = let s' = d.write32 s base (reg % 256) in (s', d.read32 s' (base + 16))

  unfoldable pub read_redirection_entry : S → (entry : ℕ) → S × RedirectionEntry
  unfolding read unpack
  read_redirection_entry s entry =
      let low = read s ((register_redir_entries + entry) % 2 ^ 32) in
      let high = read low.0 ((register_redir_entries + (entry + 1)) % 2 ^ 32) in
      if not (entry % 2 == 0) then (s, unpack 0) else (high.0, unpack (high.1 * 2 ^ 32 + low.1))

  unfoldable pub write_redirection_entry : S → (entry : ℕ) → RedirectionEntry → S
  unfolding write pack
  write_redirection_entry s entry e =
      let value = pack e in
      let s' = write s ((register_redir_entries + entry) % 2 ^ 32) (value % 2 ^ 32) in
      if not (entry % 2 == 0)
      then s
      else write s' ((register_redir_entries + (entry + 1)) % 2 ^ 32) (value / 2 ^ 32)

-- InterruptSourceOverride, by the two fields that are read.
pub record SourceOverride : Type 0 where
  pub source : ℕ
  pub gsi : ℕ

-- The loop of CreateRedirectionEntry over the overrides, with its rounds left.
unfoldable pub override_loop : ℕ → List SourceOverride → (irq : ℕ) → ℕ
override_loop zero isos irq = irq
override_loop (suc k) [] irq = irq
override_loop (suc k) (iso ∷ isos) irq =
    override_loop k isos (if iso.source == irq then iso.gsi else irq)

-- size() of the vector has 16 bits.
unfoldable pub override_irq : List SourceOverride → (irq : ℕ) → ℕ
unfolding override_loop
override_irq isos irq = override_loop (length isos % 2 ^ 16) isos irq

unfoldable pub create_redirection_entry :
    {S : Type 0}
    → Device S
    → (base : ℕ) → List SourceOverride
    → S
    → RedirectionEntry
    → (irq : ℕ) → S
unfolding write_redirection_entry override_irq
create_redirection_entry d base isos s e irq =
    write_redirection_entry d base s (override_irq isos irq * 2 % 2 ^ 32) e

pub push_front : ℕ → Option (List ℕ) → Option (List ℕ)
push_front x none = none
push_front x (some xs) = some (x ∷ xs)

-- The loop of FindAllInterruptControllers: the addresses that it pushes, in order.
unfoldable pub find_controllers : (fuel : ℕ) → Memory → (kind current length : ℕ) → Option (List ℕ)
unfolding push_front
find_controllers zero m kind current length = none
find_controllers (suc fuel) m kind current length =
    let size = load8 m (current + 1) in
    let rest = find_controllers fuel m kind (current + size) (sub64 length size) in
    if length == 0
    then some []
    else (if load8 m current == kind then push_front current rest else rest)

-- FindAllInterruptControllers on the MADT: the first structure stands at byte 44, and sizeof(MADTHeader)
-- is 46.
unfoldable pub find_all_interrupt_controllers :
    (fuel : ℕ) → Memory → (madt kind : ℕ) → Option (List ℕ)
unfolding find_controllers
find_all_interrupt_controllers fuel m madt kind =
    find_controllers fuel m kind (madt + 44) (add64 (sub64 (load32 m (madt + 4)) 46) 2)
