-- ===== src/Cpu.antt =====
-- kernel/src/hal/cpu.cpp, with the loading of the tables by gdt.cpp and idt.cpp, and what CPUStartPayload of
-- smp.cpp sets up on a core before it counts itself. The instructions that load a register are assignments
-- to it here.
use system.Base.{ℕ, ◌+◌, ◌≡◌, refl, Bool, true}
use system.Machine.{Machine}
use system.Vmm.{load_kernel_cr3}
use system.Gdt.{Gdtr, gdt_ptr}
use system.Idt.{Idt, Idtr, idt_ptr, initialize}
use system.Apic.{Device}
use system.Apic.Local.{
  TimerFlags, IsRegisters, IsFlags, lvt_timer, timer_init_count, initialize_lapic,
  initialize_lapic_lem,
}

-- The registers of a core that the kernel loads, and its interrupt flag.
pub record CpuRegisters : Type 0 where
  pub gdtr : Gdtr
  pub idtr : Idtr
  pub cr3 : ℕ
  pub interrupts : Bool

-- GDT::Load, by InstallGDT, with the table at `gdt`.
unfoldable pub load_gdt : (gdt : ℕ) → CpuRegisters → CpuRegisters
load_gdt gdt c = record c { gdtr = gdt_ptr gdt }

-- Interrupts::Install, with the table at `idt`.
unfoldable pub install : (idt : ℕ) → CpuRegisters → CpuRegisters
install idt c = record c { idtr = idt_ptr idt; interrupts = true }

-- CPU::Initialize, with the addresses of the four handlers.
unfoldable pub initialize_cpu :
    (gdt idt exception_handler exception_handler2 timer_interrupt keyboard_interrupt : ℕ)
    → Idt
    → CpuRegisters
    → Idt × CpuRegisters
unfolding load_gdt install
initialize_cpu gdt idt exception_handler exception_handler2 timer_interrupt keyboard_interrupt table
      c =
    (
      initialize exception_handler exception_handler2 timer_interrupt keyboard_interrupt table,
      install idt (load_gdt gdt c),
    )

module _ {S : Type 0} (d : Device S) (base : ℕ) where
  -- CPUStartPayload up to its log line.
  unfoldable pub cpu_start_payload :
      (gdt idt hhdm : ℕ) → Machine → TimerFlags → CpuRegisters → S → CpuRegisters × S
  unfolding load_gdt install
  cpu_start_payload gdt idt hhdm s flags c dev =
      let installed = install idt (load_gdt gdt c) in
      (record installed { cr3 = load_kernel_cr3 hhdm s }, initialize_lapic d base flags dev)

-- A core that has been started runs on the kernel's page map and takes the interrupts of the same periodic
-- timer as the first core.
cpu_start_payload_lem :
    {S : Type 0} (d : Device S) (base : ℕ)
    → IsRegisters d base
    → (gdt idt hhdm : ℕ) (s : Machine) (flags : TimerFlags) (c : CpuRegisters) (dev : S)
    → IsFlags flags
    → let (c', dev') = cpu_start_payload d base gdt idt hhdm s flags c dev in
      (c'.cr3 ≡ load_kernel_cr3 hhdm s)
      × (c'.interrupts ≡ true)
      × (d.read32 dev' (base + lvt_timer) ≡ flags.lvt_register)
      × (d.read32 dev' (base + timer_init_count) ≡ flags.init_count_register)
unfolding cpu_start_payload
cpu_start_payload_lem d base regs gdt idt hhdm s flags c dev fit =
    let set = initialize_lapic_lem d base regs flags dev fit in (refl, refl, set.0, set.2)
