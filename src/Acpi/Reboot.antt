-- ===== src/Acpi/Reboot.antt =====
-- PerformACPIReboot of kernel/src/hal/acpi.cpp. After the write to the reset register the code halts;
-- the outcome says which write that was.
use system.Base.{
  ℕ, zero, suc, ◌+◌, ◌%◌, ◌^◌, ◌<◌, ◌≡◌, false, ◌==◌, ltb, if◌then◌else◌, add64, ◌-◌, ◌≤◌, ◌≢◌, ◌⊎◌,
}
use system.Memory.{Memory, load8, load64, store8}
use system.Machine.{Machine}
use system.Vmm.{memory_map}
use system.Acpi.{Run, done, panicked, running, Acpi, align_down}

-- The fields of the FADT that are read: Revision, and ResetReg with its value.
abbrev pub fadt_revision : Memory → ℕ → ℕ
fadt_revision m fadt = load8 m (fadt + 8)

abbrev pub reset_space : Memory → ℕ → ℕ
reset_space m fadt = load8 m (fadt + 116)

abbrev pub reset_address : Memory → ℕ → ℕ
reset_address m fadt = load64 m (fadt + 120)

abbrev pub reset_value : Memory → ℕ → ℕ
reset_value m fadt = load8 m (fadt + 128)

pub data Reboot : Type 0 where
  failed : Reboot
  wrote_memory : Machine → Reboot
  wrote_port : (port value : ℕ) → Reboot

-- The loop that maps the reset register at its own address, from `i` on.
unfoldable pub map_register : (fuel hhdm : ℕ) → Machine → (i end : ℕ) → Run Machine
map_register zero hhdm s i end = running
map_register (suc fuel) hhdm s i end =
    let rest = map_register fuel hhdm (memory_map hhdm s 0 i i false).0 (add64 i 4096) end in
    if ltb i end then rest else done s

-- `*reset = GlobalFADT->ResetValue`
pub reset_memory : (address fadt : ℕ) → Run Machine → Run Reboot
reset_memory address fadt panicked = panicked
reset_memory address fadt running = running
reset_memory address fadt (done s) =
    done (wrote_memory (record s { mem = store8 s.mem address (reset_value s.mem fadt) }))

unfoldable pub perform_acpi_reboot : (fuel hhdm : ℕ) → Acpi → Run Reboot
unfolding map_register reset_memory
perform_acpi_reboot fuel hhdm a =
    let m = a.machine.mem in
    let address = reset_address m a.fadt in
    let by_memory =
      reset_memory address a.fadt
        (map_register fuel hhdm a.machine (align_down address) (add64 address 1)) in
    if a.fadt == 0
    then done failed
    else (if ltb (fadt_revision m a.fadt) 2
        then done failed
        else (if reset_space m a.fadt == 0
            then by_memory
            else (if reset_space m a.fadt == 1
                then done (wrote_port (address % 2 ^ 16) (reset_value m a.fadt))
                else done failed)))

-- The register of the FADT: none that the code can write, a byte of memory, or a port.
pub data Register (a : Acpi) : Type 0 where
  unusable :
      (a.fadt ≡ 0)
        ⊎ ((fadt_revision a.machine.mem a.fadt < 2) ⊎ (2 ≤ reset_space a.machine.mem a.fadt))
      → Register a
  in_memory :
      a.fadt ≢ 0
      → 2 ≤ fadt_revision a.machine.mem a.fadt
      → reset_space a.machine.mem a.fadt ≡ 0
      → Register a
  at_port :
      a.fadt ≢ 0
      → 2 ≤ fadt_revision a.machine.mem a.fadt
      → reset_space a.machine.mem a.fadt ≡ 1
      → Register a

-- What the call does for each: it comes back; or one byte of memory becomes the reset value, once the page
-- around it is mapped at its own address; or the reset value goes out to the port.
abbrev pub Resets : (hhdm : ℕ) (a : Acpi) → Register a → Run Reboot → Type 0
Resets hhdm a (unusable why) r = r ≡ done failed
Resets hhdm a (in_memory fadt new memory) r =
    let address = reset_address a.machine.mem a.fadt in
    let page = address - address % 4096 in
    let mapped = (memory_map hhdm a.machine 0 page page false).0 in
    (s : Machine) × (r ≡ done (wrote_memory s))
    × (load8 s.mem address ≡ reset_value mapped.mem a.fadt)
    × ((b : ℕ) → b ≢ address → s.mem b ≡ mapped.mem b)
Resets hhdm a (at_port fadt new port) r =
    r
    ≡ done (
        wrote_port (reset_address a.machine.mem a.fadt % 2 ^ 16) (reset_value a.machine.mem a.fadt))
