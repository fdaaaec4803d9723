-- ===== src/Examples/Devices.antt =====
-- The theorems on interrupts, ACPI, the I/O APIC, the ramdisk and the terminal at concrete inputs.
use system.Base.{ℕ, ◌*◌, ◌≡◌, refl, arith, true, false, [], ◌∷◌, ◌==◌, if◌then◌else◌}
use system.Memory.{Memory, load, load8, load32}
use system.Idt.{Idt}
use system.Idt.Laws.{keys, reboots, keys-reboots}
use system.Acpi.{running, Acpi, pmtmr_sleep}
use system.Acpi.Timer.{HasTimer, pmtmr_sleep-stuck}
use system.Apic.{Device, read_redirection_entry, write_redirection_entry}
use system.Apic.Laws.{IsWindow, read_redirection_entry-write_redirection_entry}
use system.Apic.Setup.{keyboard_entry}
use system.Examples.{cold}

abbrev blank : Idt
blank i = record {
  offset0 = 0;
  selector = 0;
  ist = 0;
  types_attrib = 0;
  offset1 = 0;
  offset2 = 0;
  reserved = 0;
}

keys-reboots_example : reboots (keys false (0x53 ∷ 0x1E ∷ 0x01 ∷ [])) ≡ true
keys-reboots_example = keys-reboots (0x53 ∷ 0x1E ∷ 0x01 ∷ [])

-- A FADT at 256 with a timer at port 0x408.
abbrev firmware : Memory
firmware b = if b == 347 then 4 else (if b == 332 then 8 else (if b == 333 then 4 else 0))

abbrev board : Acpi
board = record { machine = record cold { mem = firmware }; rsdt = 4096; fadt = 256 }

board-HasTimer : HasTimer board
unfolding load8 load32 load
board-HasTimer = (refl, omega arith)

-- A timer that moves on by 4000 ticks between two readings.
abbrev ticks : ℕ → ℕ
ticks k = k * 4000

pmtmr_sleep-stuck_example : pmtmr_sleep 1000000 board ticks 5000000 ≡ running
pmtmr_sleep-stuck_example =
    pmtmr_sleep-stuck 1000000 board ticks 5000000 board-HasTimer (omega arith)

-- A window at 4096 on registers that are kept beside the number of the one selected.
abbrev window : Device (ℕ × (ℕ → ℕ))
window = record {
  write32 = λ s addr value.
      if addr == 4096 then (value, s.1) else (s.0, λ q. if q == s.0 then value else s.1 q);
  read32 = λ s addr. s.1 s.0;
}

window-IsWindow : IsWindow window 4096 (λ s. s.1)
window-IsWindow = record { selects = λ s r q. refl; reads = λ s r. refl; writes = λ s r v q. refl }

read_redirection_entry-write_redirection_entry_example :
    (read_redirection_entry window 4096
      (write_redirection_entry window 4096 (0, λ q. 0) 2 keyboard_entry)
      2).1
    ≡ keyboard_entry
read_redirection_entry-write_redirection_entry_example =
    read_redirection_entry-write_redirection_entry window 4096 (λ s. s.1) window-IsWindow
      (0, λ q. 0) 2 keyboard_entry (omega arith) refl

-- A FADT at 256 of revision 2 with a reset register in memory, at 0xCF9, for the value 6.
abbrev resettable : Memory
resettable b =
    if b == 264
    then 2
    else (if b == 376 then 0xF9 else (if b == 377 then 0x0C else (if b == 384 then 6 else 0)))

abbrev reset_board : Acpi
reset_board = record { machine = record cold { mem = resettable }; rsdt = 4096; fadt = 256 }
