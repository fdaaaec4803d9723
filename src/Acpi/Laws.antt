-- ===== src/Acpi/Laws.antt =====
-- The checksum, and the search for a table, of acpi.cpp.
use native.Mathlib.Nat.{zero-add}
use system.Base.{
  ℕ, zero, suc, ◌+◌, ◌*◌, ◌/◌, ◌%◌, ◌^◌, ◌≤◌, ◌<◌, ◌≡◌, ◌⊎◌, inl, inr, refl, ◌∙◌, arith, ◌==◌, ltb,
  ltb-false, Bool-cases, add64, sub64,
}
use system.Base.Int.{is_zero, is_zero-pos}
use system.Memory.{Memory, load8, load32, load32-lt}
use system.Strings.{strncmp, c_string}
use system.Strings.Laws.{strncmp-zero_iff}
use system.Machine.{Machine}
use system.Acpi.{
  Run, done, panicked, running, Acpi, checksum_loop, sdt_length, sdt_checksum,
  memory_map_acpi_table, match_table, find_table, get_acpi_table, map_header, map_table, align_down,
}

-- The sum of the `n` bytes from `a` on.
unfoldable pub sum_bytes : ℕ → Memory → ℕ → ℕ
sum_bytes zero m a = 0
sum_bytes (suc n) m a = load8 m a + sum_bytes n m (a + 1)

checksum_loop_lem :
    (k : ℕ) (m : Memory) (table i sum : ℕ)
    → sum < 256
    → checksum_loop k m table i sum ≡ (sum + sum_bytes k m (table + i)) % 256
unfolding checksum_loop sum_bytes
checksum_loop_lem zero m table i sum h = omega arith
checksum_loop_lem (suc k) m table i sum h =
    let next : table + (i + 1) ≡ table + i + 1 = omega arith in
    let ih =
      rw next at
        (checksum_loop_lem k m table (i + 1) ((sum + load8 m (table + i)) % 256) (omega arith)) in
    ih ∙ omega arith

-- SDTChecksum accepts a table exactly when the sum of its bytes, as many as its length field says, is
-- a multiple of 256.
pub sdt_checksum_lem :
    (m : Memory) (table : ℕ)
    → sdt_checksum m table ≡ (sum_bytes (sdt_length m table) m table % 256 == 0)
unfolding sdt_checksum
sdt_checksum_lem m table =
    let start : table + 0 ≡ table = omega arith in
    rw (checksum_loop_lem (sdt_length m table) m table 0 0 (omega arith), start, zero-add)

-- What GetACPITable returns: no table, or one whose four-character signature is the one asked for.
abbrev pub HasSignature : Run (Machine × ℕ) → ℕ → Type 0
HasSignature (done (s, header)) signature =
    (header ≡ 0) ⊎ (c_string s.mem signature 4 ≡ c_string s.mem header 4)
HasSignature panicked signature = Unit
HasSignature running signature = Unit

match_table-HasSignature :
    (rest : Machine → Run (Machine × ℕ)) (signature : ℕ) (mapped : Run (Machine × ℕ))
    → ((s : Machine) → HasSignature (rest s) signature)
    → HasSignature (match_table rest signature mapped) signature
unfolding match_table
match_table-HasSignature rest signature panicked onward = tt
match_table-HasSignature rest signature running onward = tt
match_table-HasSignature rest signature (done (s, header)) onward =
    elim (Bool-cases (is_zero (strncmp s.mem signature header 4))) [
      | inl same ↦ rw same (
          inr (
            (strncmp-zero_iff s.mem signature header 4).0
              (is_zero-pos (strncmp s.mem signature header 4) same)))
      | inr other ↦ rw other (onward s)
    ]

find_table-HasSignature :
    (k fuel hhdm : ℕ) (s : Machine) (table_start signature i : ℕ)
    → HasSignature (find_table k fuel hhdm s table_start signature i) signature
unfolding find_table
find_table-HasSignature zero fuel hhdm s table_start signature i = inl refl
find_table-HasSignature (suc k) fuel hhdm s table_start signature i =
    let entry = load32 s.mem (add64 table_start (i * 4 % 2 ^ 32)) in
    match_table-HasSignature (λ s'. find_table k fuel hhdm s' table_start signature (i + 1))
      signature (memory_map_acpi_table fuel hhdm s entry)
      (λ s'. find_table-HasSignature k fuel hhdm s' table_start signature (i + 1))

-- The call comes to an end, without a panic.
abbrev pub Returns {ℓ} : {A : Type ℓ} → Run A → Type ℓ
Returns {A} r = (x : A) × (r ≡ done x)

map_header-Returns :
    (fuel hhdm : ℕ) (s : Machine) (phys i : ℕ)
    → phys + 36 ≤ i + 4096 * fuel
    → Returns (map_header (suc fuel) hhdm s phys i)
unfolding map_header
map_header-Returns zero hhdm s phys i enough = (s, rw (ltb-false i (phys + 36) (omega arith)))
map_header-Returns (suc fuel) hhdm s phys i enough = elim (Bool-cases (ltb i (phys + 36))) [
  | inl more ↦ rw more (map_header-Returns fuel hhdm _ phys (i + 4096) (omega arith))
  | inr end ↦ (s, rw end)
]

map_table-Returns :
    (fuel hhdm : ℕ) (s : Machine) (table phys i : ℕ)
    → phys + 2 ^ 32 ≤ i + 4096 * fuel
    → Returns (map_table (suc fuel) hhdm s table phys i)
unfolding map_table
map_table-Returns zero hhdm s table phys i enough = (
  s,
  rw (ltb-false i (phys + sdt_length s.mem table) (omega (arith, load32-lt s.mem (table + 4)))),
)
map_table-Returns (suc fuel) hhdm s table phys i enough =
    elim (Bool-cases (ltb i (phys + sdt_length s.mem table))) [
      | inl more ↦ rw more (map_table-Returns fuel hhdm _ table phys (i + 4096) (omega arith))
      | inr end ↦ (s, rw end)
    ]

memory_map_acpi_table-Returns :
    (fuel hhdm : ℕ) (s : Machine) (phys : ℕ)
    → 2 ^ 20 + 1 ≤ fuel
    → Returns (memory_map_acpi_table (suc fuel) hhdm s phys)
unfolding memory_map_acpi_table
memory_map_acpi_table-Returns fuel hhdm s phys enough =
    let (s', e) = map_header-Returns fuel hhdm s phys (align_down phys) (omega arith) in
    let (s'', e') =
      map_table-Returns fuel hhdm s' (add64 phys hhdm) phys (align_down phys) (omega arith) in
    ((s'', add64 phys hhdm), rw (memory_map_acpi_table, e, e'))

find_table-Returns :
    (k fuel hhdm : ℕ) (s : Machine) (table_start signature i : ℕ)
    → 2 ^ 20 + 1 ≤ fuel
    → Returns (find_table k (suc fuel) hhdm s table_start signature i)
unfolding find_table match_table
find_table-Returns zero fuel hhdm s table_start signature i enough = ((s, 0), refl)
find_table-Returns (suc k) fuel hhdm s table_start signature i enough =
    let (r, e) =
      memory_map_acpi_table-Returns fuel hhdm s (load32 s.mem (add64 table_start (i * 4 % 2 ^ 32)))
        enough in
    elim (Bool-cases (is_zero (strncmp r.0.mem signature r.1 4))) [
      | inl same ↦ (r, rw (e, same))
      | inr other ↦
          rw (e, other) (find_table-Returns k fuel hhdm r.0 table_start signature (i + 1) enough)
    ]

pub get_acpi_table-Returns :
    (fuel hhdm : ℕ) (a : Acpi) (signature : ℕ)
    → 2 ^ 20 + 1 ≤ fuel
    → Returns (get_acpi_table (suc fuel) hhdm a signature)
      × HasSignature (get_acpi_table (suc fuel) hhdm a signature) signature
unfolding get_acpi_table
get_acpi_table-Returns fuel hhdm a signature enough = elim (Bool-cases (a.rsdt == 0)) [
  | inl null ↦ rw null (((a.machine, 0), refl), inl refl)
  | inr some_table ↦
      let count = sub64 (sdt_length a.machine.mem a.rsdt) 36 / 4 % 2 ^ 32 in
      rw some_table (
        find_table-Returns count fuel hhdm a.machine (add64 a.rsdt 36) signature 0 enough,
        find_table-HasSignature count (suc fuel) hhdm a.machine (add64 a.rsdt 36) signature 0,
      )
]
