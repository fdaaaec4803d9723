-- ===== src/Acpi.antt =====
-- kernel/src/hal/acpi.cpp: the ACPI tables, and the power-management timer. A table
-- is read where it lies in memory, at the offsets of the packed structures of
-- kernel/include/hal/acpi.hpp. The timer's port is a sequence of readings. Log lines are left out.
pub mod Laws
pub mod Timer
pub mod Reboot
pub mod Profile
use system.Base.{
  ℕ, zero, suc, ◌+◌, ◌-◌, ◌*◌, ◌/◌, ◌%◌, ◌^◌, Bool, true, false, not, ◌||◌, ◌==◌, ltb,
  if◌then◌else◌, add64, sub64,
}
use system.Base.Int.{is_zero}
use system.Memory.{Memory, load8, load32, load64, store8}
use system.Strings.{strncmp}
use system.Machine.{Machine}
use system.Vmm.{memory_map}

-- How a call ends: with a value, in a panic, or not within the fuel.
pub data Run {ℓ} (A : Type ℓ) : Type ℓ where
  done : A → Run A
  panicked : Run A
  running : Run A

-- `s`, with GlobalRSDT and GlobalFADT, 0 for a null pointer.
pub record Acpi : Type 0 where
  pub machine : Machine
  pub rsdt : ℕ
  pub fadt : ℕ

-- sizeof(SDTHeader), and the fields that are read: `Length` of a header, `RSDTPtr` of the RSDP, and
-- fields of the FADT.
abbrev pub sdt_header_size : ℕ
sdt_header_size = 36

abbrev pub sdt_length : Memory → ℕ → ℕ
sdt_length m table = load32 m (table + 4)

abbrev pub rsdt_ptr : Memory → ℕ → ℕ
rsdt_ptr m rsdp = load32 m (rsdp + 16)

abbrev pub pm_tmr_blk : Memory → ℕ → ℕ
pm_tmr_blk m fadt = load32 m (fadt + 76)

abbrev pub pm_tmr_len : Memory → ℕ → ℕ
pm_tmr_len m fadt = load8 m (fadt + 91)

-- The loop of SDTChecksum from `i` on, with its rounds left, on a sum of 8 bits.
pub checksum_loop : ℕ → Memory → (table i sum : ℕ) → ℕ
checksum_loop zero m table i sum = sum
checksum_loop (suc k) m table i sum =
    checksum_loop k m table (i + 1) ((sum + load8 m (table + i)) % 256)

unfoldable pub sdt_checksum : Memory → (table : ℕ) → Bool
unfolding checksum_loop
sdt_checksum m table = checksum_loop (sdt_length m table) m table 0 0 == 0

-- ALIGN_DOWN to a page
abbrev pub align_down : ℕ → ℕ
align_down value = value / 4096 * 4096

-- The two loops of MemoryMapACPITable, from `i` on: over the header, and over the whole table, whose
-- length is read anew in each round.
pub map_header : (fuel hhdm : ℕ) → Machine → (phys i : ℕ) → Run Machine
map_header zero hhdm s phys i = running
map_header (suc fuel) hhdm s phys i =
    let rest =
      map_header fuel hhdm (memory_map hhdm s 0 (add64 hhdm i) i false).0 phys (i + 4096) in
    if ltb i (phys + sdt_header_size) then rest else done s

pub map_table : (fuel hhdm : ℕ) → Machine → (table phys i : ℕ) → Run Machine
map_table zero hhdm s table phys i = running
map_table (suc fuel) hhdm s table phys i =
    let rest =
      map_table fuel hhdm (memory_map hhdm s 0 (add64 hhdm i) i false).0 table phys (i + 4096) in
    if ltb i (phys + sdt_length s.mem table) then rest else done s

-- Returns the table's address in the direct map. A table lies below 2 ^ 32, since pointers to tables
-- have 32 bits.
unfoldable pub memory_map_acpi_table : (fuel hhdm : ℕ) → Machine → (table : ℕ) → Run (Machine × ℕ)
unfolding map_header map_table
memory_map_acpi_table fuel hhdm s phys =
    let table = add64 phys hhdm in
    elim (map_header fuel hhdm s phys (align_down phys)) [
      | panicked ↦ panicked
      | running ↦ running
      | done s' ↦ elim (map_table fuel hhdm s' table phys (align_down phys)) [
        | panicked ↦ panicked
        | running ↦ running
        | done s'' ↦ done (s'', table)
      ]
    ]

-- A round of GetACPITable, on the mapped table of the entry: the table is returned, or the loop goes on
-- with `rest`.
pub match_table :
    (rest : Machine → Run (Machine × ℕ)) (signature : ℕ) → Run (Machine × ℕ) → Run (Machine × ℕ)
match_table rest signature panicked = panicked
match_table rest signature running = running
match_table rest signature (done (s, header)) =
    if is_zero (strncmp s.mem signature header 4) then done (s, header) else rest s

-- The loop of GetACPITable from entry `i` on, with its rounds left.
pub find_table : ℕ → (fuel hhdm : ℕ) → Machine → (table_start signature i : ℕ) → Run (Machine × ℕ)
unfolding memory_map_acpi_table match_table
find_table zero fuel hhdm s table_start signature i = done (s, 0)
find_table (suc k) fuel hhdm s table_start signature i =
    let entry = load32 s.mem (add64 table_start (i * 4 % 2 ^ 32)) in
    match_table (λ s'. find_table k fuel hhdm s' table_start signature (i + 1)) signature
      (memory_map_acpi_table fuel hhdm s entry)

unfoldable pub get_acpi_table : (fuel hhdm : ℕ) → Acpi → (signature : ℕ) → Run (Machine × ℕ)
unfolding find_table
get_acpi_table fuel hhdm a signature =
    if a.rsdt == 0
    then done (a.machine, 0)
    else (let entry_count = sub64 (sdt_length a.machine.mem a.rsdt) sdt_header_size / 4 % 2 ^ 32 in
        find_table entry_count fuel hhdm a.machine (add64 a.rsdt 36) signature 0)

unfoldable pub set_rsdp : (fuel hhdm : ℕ) → Acpi → (rsdp : ℕ) → Run Acpi
unfolding memory_map_acpi_table sdt_checksum
set_rsdp fuel hhdm a rsdp =
    elim (memory_map_acpi_table fuel hhdm a.machine (rsdt_ptr a.machine.mem rsdp)) [
      | panicked ↦ panicked
      | running ↦ running
      | done (s', table) ↦
          if sdt_checksum s'.mem table
          then done (record a { machine = s'; rsdt = table })
          else panicked
    ]

-- The FADT is taken over when it is found and its checksum is right. `facp` is the address of the
-- string "FACP".
pub take_fadt : Acpi → Run (Machine × ℕ) → Run Acpi
unfolding sdt_checksum
take_fadt a panicked = panicked
take_fadt a running = running
take_fadt a (done (s', fadt)) =
    if fadt == 0
    then panicked
    else (if sdt_checksum s'.mem fadt
        then done (record a { machine = s'; fadt = fadt })
        else panicked)

unfoldable pub initialize_acpi : (fuel hhdm : ℕ) → Acpi → (rsdp facp : ℕ) → Run Acpi
unfolding set_rsdp get_acpi_table take_fadt
initialize_acpi fuel hhdm a rsdp facp = elim (set_rsdp fuel hhdm a rsdp) [
  | panicked ↦ panicked
  | running ↦ running
  | done a' ↦ take_fadt a' (get_acpi_table fuel hhdm a' facp)
]

-- PMT_TMR_RATE
abbrev pub pmt_tmr_rate : ℕ
pmt_tmr_rate = 3579545

abbrev pub sleep_target : (us : ℕ) → ℕ
sleep_target us = us * pmt_tmr_rate % 2 ^ 64 / 1000000

-- The loop of PMTMRSleep, with the number of the next reading.
pub pm_wait : (fuel : ℕ) → (readings : ℕ → ℕ) → (count target current k : ℕ) → Run Bool
pm_wait zero readings count target current k = running
pm_wait (suc fuel) readings count target current k =
    let rest = pm_wait fuel readings count target (sub64 (readings k) count % 2 ^ 24) (k + 1) in
    if ltb current target then rest else done true

unfoldable pub pmtmr_sleep : (fuel : ℕ) → Acpi → (readings : ℕ → ℕ) → (us : ℕ) → Run Bool
unfolding pm_wait
pmtmr_sleep fuel a readings us =
    let m = a.machine.mem in
    if not (pm_tmr_len m a.fadt == 4) || (pm_tmr_blk m a.fadt == 0)
    then done false
    else pm_wait fuel readings (readings 0) (sleep_target us) 0 1
