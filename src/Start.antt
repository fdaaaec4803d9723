-- ===== src/Start.antt =====
-- The part of _start (kernel/src/early/start.cpp) that sets up memory, ACPI and the heap, on what the
-- bootloader reports.
pub mod Boot
pub mod Mapped
use system.Base.{ℕ, ◌*◌, Option, none, some, List}
use system.Machine.{Machine}
use system.Pmm.{MemmapEntry, initialize_pmm}
use system.Vmm.{init_paging, load_kernel_cr3}
use system.Heap.{initialize_heap}
use system.Acpi.{Acpi, Run, done, panicked, running, initialize_acpi}

-- What GetBootloaderData collects and the code below uses.
pub record BootloaderData : Type 0 where
  pub memmap : List MemmapEntry
  pub virtual_base : ℕ
  pub physical_base : ℕ
  pub offset : ℕ  -- of the direct map
  pub rsdp : ℕ

-- From InitializePMM to LoadKernelCR3, with the address that the processor is given. `none` is a panic.
unfoldable pub start_memory : BootloaderData → Machine → Option (Machine × ℕ)
start_memory b s =
    elim (init_paging b.offset b.virtual_base b.physical_base (initialize_pmm b.offset s b.memmap)
      b.memmap) [ none ↦ none | some s' ↦ some (s', load_kernel_cr3 b.offset s') ]

-- From InitializePMM to InitializeHeap.
unfoldable pub start : (fuel : ℕ) → BootloaderData → Machine → (facp : ℕ) → Run Acpi
start fuel b s facp = elim (start_memory b s) [
  | none ↦ panicked
  | some (s', cr3) ↦
      elim (initialize_acpi fuel b.offset (record { machine = s'; rsdt = 0; fadt = 0 }) b.rsdp
        facp) [
          | panicked ↦ panicked
          | running ↦ running
          | done a ↦ done (record a { machine = initialize_heap b.offset a.machine (0x1000 * 10) })
        ]
]
