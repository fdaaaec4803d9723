-- ===== src/Examples/Boot.antt =====
-- The theorems on the set-up of the first core at concrete inputs.
use system.Base.{ℕ, ◌+◌, ◌-◌, ◌^◌, ◌≡◌, refl, List, [], ◌∷◌, ◌==◌, if◌then◌else◌}
use system.Memory.{Memory}
use system.Acpi.{Acpi}
use system.Apic.{Device, SourceOverride}
use system.Apic.Local.{TimerFlags}
use system.Apic.Madt.{addresses}
use system.Smp.Setup.{Setup}
use system.Examples.{hhdm, cold}

-- The MADT at 4096 in physical memory, with a local APIC of 8 bytes, an I/O APIC of 12, and an
-- override of 10 that leads interrupt 1 to line 9; a RSDT with one
-- entry at 8192, a FADT at 256, and the text "APIC" at 1024.
abbrev table : ℕ
table = 4096 + hhdm

abbrev override_bytes : Memory → Memory
override_bytes m b =
    if b == table + 64
    then 2
    else (if b == table + 65
        then 10
        else (if b == table + 67 then 1 else (if b == table + 68 then 9 else m b)))

abbrev madt_bytes : Memory → Memory
madt_bytes m b =
    if b == table
    then 65
    else (if b == table + 1
        then 80
        else (if b == table + 2
            then 73
            else (if b == table + 3
                then 67
                else (if b == table + 4
                    then 74
                    else (if b == table + 37
                        then 16
                        else (if b == table + 45
                            then 8
                            else (if b == table + 52
                                then 1
                                else (if b == table + 53 then 12 else override_bytes m b))))))))

abbrev firmware : Memory
firmware = madt_bytes (λ b.
    if b == 347
    then 4
    else (if b == 332
        then 8
        else (if b == 333
            then 4
            else (if b == 1024
                then 65
                else (if b == 1025
                    then 80
                    else (if b == 1026
                        then 73
                        else (if b == 1027
                            then 67
                            else (if b == 8196 then 40 else (if b == 8229 then 16 else 0)))))))))

abbrev board : Acpi
board = record { machine = record cold { mem = firmware }; rsdt = 8192; fadt = 256 }

abbrev fuel : ℕ
fuel = 2 ^ 20 + 1

-- The I/O APIC's two registers at the start of the direct map, with the selected register and the others, and
-- the registers of the local APIC, which keep what is written to them.
abbrev apics : Device (ℕ × (ℕ → ℕ) × (ℕ → ℕ))
apics = record {
  write32 = λ s addr value.
      if addr == hhdm
      then (value, s.1, s.2)
      else (if addr == hhdm + 16
          then (s.0, (λ q. if q == s.0 then value else s.1 q), s.2)
          else (s.0, s.1, (λ q. if q == addr then value else s.2 q)));
  read32 = λ s addr. if addr == hhdm + 16 then s.1 s.0 else s.2 addr;
}

-- The counter has moved on by 1000.
abbrev elapse : ℕ × (ℕ → ℕ) × (ℕ → ℕ) → ℕ × (ℕ → ℕ) × (ℕ → ℕ)
elapse s = (s.0, s.1, (λ q. if q == 4096 + hhdm + 0x390 then 0xffffffff - 1000 else s.2 q))

abbrev unset : TimerFlags
unset = record { lvt_register = 0; divisor_register = 0; init_count_register = 0 }

abbrev reset : ℕ × (ℕ → ℕ) × (ℕ → ℕ)
reset = (0, (λ q. 0), (λ q. 0))

abbrev structures : List (ℕ × ℕ)
structures = (0, 8) ∷ (1, 12) ∷ (2, 10) ∷ []

madt-overrides : addresses 2 (table + 44) structures ≡ (table + 64) ∷ []
unfolding addresses
madt-overrides = refl

-- Interrupt 1 is led to line 9.
abbrev line_nine : List SourceOverride
line_nine = record { source = 1; gsi = 9 } ∷ []
