-- ===== src/Kernel.antt =====
-- _start of kernel/src/early/start.cpp from the bootloader's answers to its last loop, on the first core. Left
-- out are the terminal and the serial port, which only show what happens, CPU::Initialize, whose descriptor
-- tables Cpu has, and the waiting loop of SetupAllCPUs, which Smp has as steps of all cores.
use system.Base.{ℕ, Option, none, some, List}
use system.Machine.{Machine}
use system.Start.{start}
use system.Acpi.{Run, done, panicked, running}
use system.Apic.{Device}
use system.Apic.Local.{TimerFlags}
use system.Modules.{LimineFile, HeapAnswers, Handled, handle_module_objects}
use system.Bootloader.{
  RequestId, get_bootloader_data, read_bootloader_data, read_core_count, read_modules,
}
use system.Smp.Setup.{Setup, setup_all_cpus}

-- The addresses of the literals that are looked for in tables, and of CPUStartPayload.
pub record Addresses : Type 0 where
  pub facp : ℕ
  pub apic : ℕ
  pub ustar : ℕ
  pub cpu_start_payload : ℕ

-- What the kernel cannot know: the device and what it does during a sleep, the readings of the timer, and
-- what the heap answers to vectors.
pub record Surroundings (S : Type 0) : Type 0 where
  pub device : Device S
  pub elapse : S → S
  pub readings : ℕ → ℕ
  pub blocks : HeapAnswers

-- What is left before the last loop: the set-up of the first core, and the modules, if the bootloader has
-- answered that request. Their inner `none` is a panic of the vector or the end of the fuel.
pub record Booted (S : Type 0) : Type 0 where
  pub setup : Setup S
  pub modules : Option (Option Handled)

module _ {S : Type 0} (w : Surroundings S) (at : Addresses) (fuel : ℕ) where
  unfoldable pub start_modules : (hhdm : ℕ) → Setup S → Option (List LimineFile) → Booted S
  start_modules hhdm r none = record { setup = r; modules = none }
  start_modules hhdm r (some files) = record {
    setup = r;
    modules = some (handle_module_objects fuel at.ustar w.blocks hhdm r.ioapic.machine files);
  }

  unfoldable pub kernel_start :
      (answer : RequestId → ℕ) → Machine → (goto_address : ℕ → ℕ) → TimerFlags → S → Run (Booted S)
  unfolding start_modules
  kernel_start answer s goto_address flags dev =
      let r = get_bootloader_data answer in
      let b = read_bootloader_data s.mem r in
      elim (start fuel b s at.facp) [
        | panicked ↦ panicked
        | running ↦ running
        | done a ↦
            elim (setup_all_cpus w.device fuel b.offset at.apic (read_core_count a.machine.mem r)
              at.cpu_start_payload goto_address a w.readings w.elapse flags dev) [
                | panicked ↦ panicked
                | running ↦ running
                | done c ↦ done (start_modules b.offset c (read_modules c.ioapic.machine.mem r))
              ]
      ]
