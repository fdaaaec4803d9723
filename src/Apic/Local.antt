-- ===== src/Apic/Local.antt =====
-- kernel/src/hal/cpu/interrupt/apic.cpp: the local APIC and its timer. The device is a parameter, and so
-- is what PMTMRSleep does to it while time passes.
use system.Base.{
  refl, ◌||◌, ℕ, ◌+◌, ◌-◌, ◌*◌, ◌/◌, ◌%◌, ◌^◌, ◌<◌, ◌≡◌, ◌≢◌, ◌∙◌, arith, Bool, true, false, ◌==◌,
  ==-false, if◌then◌else◌,
}
use system.Apic.{Device}

-- LAPICRegisters, and the two flags of the timer.
abbrev pub lapic_id : ℕ
lapic_id = 0x20

abbrev pub eoi : ℕ
eoi = 0xB0

abbrev pub spurious : ℕ
spurious = 0xF0

abbrev pub lvt_timer : ℕ
lvt_timer = 0x320

abbrev pub timer_div : ℕ
timer_div = 0x3E0

abbrev pub timer_init_count : ℕ
timer_init_count = 0x380

abbrev pub timer_current_count : ℕ
timer_current_count = 0x390

abbrev pub apic_tmr_masked : ℕ
apic_tmr_masked = 0x10000

abbrev pub apic_tmr_mode_periodic : ℕ
apic_tmr_mode_periodic = 0x20000

-- GlobalTimerFlags
pub record TimerFlags : Type 0 where
  pub lvt_register : ℕ
  pub divisor_register : ℕ
  pub init_count_register : ℕ

-- `value | (1 << 8) | 0xff`
abbrev pub enable_spurious : ℕ → ℕ
enable_spurious value = value / 512 * 512 + 511

module _ {S : Type 0} (d : Device S) (base : ℕ) where
  abbrev pub lapic_write : S → (reg value : ℕ) → S
  lapic_write s reg value = d.write32 s (base + reg) value

  abbrev pub lapic_read : S → (reg : ℕ) → ℕ
  lapic_read s reg = d.read32 s (base + reg)

  -- LAPIC_EOI and TimerReset, with `LAPICAddress` of the MADT.
  unfoldable pub lapic_eoi : (lapic_address : ℕ) → S → S
  lapic_eoi lapic_address s = if lapic_address == 0 then s else lapic_write s eoi 0

  unfoldable pub timer_reset : (lapic_address : ℕ) → TimerFlags → S → S
  timer_reset lapic_address flags s =
      if lapic_address == 0 then s else lapic_write s timer_init_count flags.init_count_register

  -- TimerInterrupt of idt.cpp
  unfoldable pub timer_interrupt : (lapic_address : ℕ) → TimerFlags → S → S
  unfolding lapic_eoi timer_reset
  timer_interrupt lapic_address flags s =
      lapic_eoi lapic_address (timer_reset lapic_address flags s)

  unfoldable pub initialize_lapic : TimerFlags → S → S
  initialize_lapic flags s =
      let enabled = lapic_write s spurious (enable_spurious (lapic_read s spurious)) in
      let timed = lapic_write enabled lvt_timer flags.lvt_register in
      let divided = lapic_write timed timer_div flags.divisor_register in
      lapic_write divided timer_init_count flags.init_count_register

  -- CalibrateTimer. `sleep` is PMTMRSleep(50000), and its result says whether it worked.
  unfoldable pub calibrate_timer : (sleep : S → S × Bool) → TimerFlags → S → (S × TimerFlags) × Bool
  calibrate_timer sleep flags s =
      let divided = lapic_write s timer_div 0x3 in
      let started = lapic_write divided timer_init_count 0xffffffff in
      let slept = sleep started in
      let stopped = lapic_write slept.0 lvt_timer apic_tmr_masked in
      let calibration = (0xffffffff + 2 ^ 32 - lapic_read stopped timer_current_count) % 2 ^ 32 in
      if slept.1
      then (
        (
          stopped,
          record {
            lvt_register = 0x20 + apic_tmr_mode_periodic;
            divisor_register = 0x3;
            init_count_register = calibration;
          },
        ),
        true,
      )
      else ((slept.0, flags), false)

  unfoldable pub get_apic_id : S → ℕ
  get_apic_id s = lapic_read s lapic_id / 2 ^ 24 % 2 ^ 8

-- The registers that hold a setting, and those that are written.
abbrev pub is_setting : ℕ → Bool
is_setting reg =
    (reg == spurious) || (reg == lvt_timer) || (reg == timer_div) || (reg == timer_init_count)

-- A value for the timer's vector register: a vector, the mask and the mode.
abbrev pub IsLvt : ℕ → Type 0
IsLvt value = (value < 2 ^ 18) × (value % 2 ^ 16 < 2 ^ 8)

-- How the registers at an address behave. The settings keep what the code may write to them, in the bits
-- that exist, and a write to a register does not change the other settings.
pub record IsRegisters {S : Type 0} (d : Device S) (base : ℕ) : Type 0 where
  pub lvt :
      (s : S) (value : ℕ)
      → IsLvt value
      → d.read32 (d.write32 s (base + lvt_timer) value) (base + lvt_timer) ≡ value
  pub divisor :
      (s : S) (value : ℕ)
      → value < 4
      → d.read32 (d.write32 s (base + timer_div) value) (base + timer_div) ≡ value
  pub count :
      (s : S) (value : ℕ)
      → value < 2 ^ 32
      → d.read32 (d.write32 s (base + timer_init_count) value) (base + timer_init_count) ≡ value
  pub enabled :
      (s : S)
      → let value = enable_spurious (d.read32 s (base + spurious)) in
        d.read32 (d.write32 s (base + spurious) value) (base + spurious) ≡ value
  pub others :
      (s : S) (reg value reg' : ℕ)
      → (is_setting reg || (reg == eoi)) ≡ true
      → is_setting reg' ≡ true
      → reg' ≢ reg
      → d.read32 (d.write32 s (base + reg) value) (base + reg') ≡ d.read32 s (base + reg')

-- Flags that fit into the registers.
pub record IsFlags (flags : TimerFlags) : Type 0 where
  pub lvt : IsLvt flags.lvt_register
  pub divisor : flags.divisor_register < 4
  pub count : flags.init_count_register < 2 ^ 32

module _ {S : Type 0} (d : Device S) (base : ℕ) (w : IsRegisters d base) where
  -- InitializeLAPIC leaves the timer's registers as the flags say, and the local APIC enabled with the
  -- spurious vector 0xff; the other bits of that register are kept.
  pub initialize_lapic_lem :
      (flags : TimerFlags) (s : S)
      → IsFlags flags
      → (d.read32 (initialize_lapic d base flags s) (base + lvt_timer) ≡ flags.lvt_register)
        × (d.read32 (initialize_lapic d base flags s) (base + timer_div) ≡ flags.divisor_register)
        × (d.read32 (initialize_lapic d base flags s) (base + timer_init_count)
            ≡ flags.init_count_register)
        × (d.read32 (initialize_lapic d base flags s) (base + spurious)
            ≡ d.read32 s (base + spurious) / 512 * 512 + 511)
  unfolding initialize_lapic
  initialize_lapic_lem flags s f =
      let enabled =
        lapic_write d base s spurious (enable_spurious (lapic_read d base s spurious)) in
      let timed = lapic_write d base enabled lvt_timer flags.lvt_register in
      let divided = lapic_write d base timed timer_div flags.divisor_register in
      let last = λ (reg : ℕ) (e : is_setting reg ≡ true) (h : reg ≢ timer_init_count).
        w.others divided timer_init_count flags.init_count_register reg refl e h in
      let third = λ (reg : ℕ) (e : is_setting reg ≡ true) (h : reg ≢ timer_div).
        w.others timed timer_div flags.divisor_register reg refl e h in
      let second = w.others enabled lvt_timer flags.lvt_register spurious refl refl (omega arith) in
      (
        last lvt_timer refl (omega arith)
            ∙ third lvt_timer refl (omega arith)
            ∙ w.lvt enabled flags.lvt_register f.lvt,
        last timer_div refl (omega arith) ∙ w.divisor timed flags.divisor_register f.divisor,
        w.count divided flags.init_count_register f.count,
        last spurious refl (omega arith) ∙ third spurious refl (omega arith) ∙ second ∙ w.enabled s,
      )

  -- The timer's interrupt restarts its count.
  timer_interrupt_lem :
      (lapic_address : ℕ) (flags : TimerFlags) (s : S)
      → 0 < lapic_address
      → flags.init_count_register < 2 ^ 32
      → d.read32 (timer_interrupt d base lapic_address flags s) (base + timer_init_count)
        ≡ flags.init_count_register
  unfolding timer_interrupt
  timer_interrupt_lem lapic_address flags s lt fits =
      let reset = lapic_write d base s timer_init_count flags.init_count_register in
      rw (==-false lapic_address 0 (omega arith)) (
        w.others reset eoi 0 timer_init_count refl refl (omega arith)
        ∙ w.count s flags.init_count_register fits)
