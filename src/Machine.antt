-- ===== src/Machine.antt =====
-- The state that the kernel's memory components share: memory, and the globals of pmm.cpp,
-- heap.cpp and vmm.cpp. Memory is indexed by the kernel's virtual addresses, and everything that the
-- kernel touches here lies in the higher-half direct map (HHDM), which the bootloader sets up: the
-- physical address `p` is seen at `p + hhdm`. A code section under a spinlock is one step.
use system.Base.{ℕ, Bool, add64, sub64}
use system.Memory.{Memory}

pub record Machine : Type 0 where
  pub mem : Memory
  pub page_head : ℕ  -- `head.next` of pmm.cpp, 0 for nullptr
  pub total_memory : ℕ
  pub total_usable_memory : ℕ
  pub heap_head : ℕ  -- `head.next` of heap.cpp
  pub kernel_pml4 : ℕ
  -- Whether memset was given the null pointer, behind which no page is mapped: the code ends there, in the
  -- handler of the page fault, and what the model does after it does not happen.
  pub faulted : Bool

-- The conversions of vmm.cpp, with the offset that the bootloader reports.
abbrev pub hhdm_virt_to_phys : (hhdm virt : ℕ) → ℕ
hhdm_virt_to_phys hhdm virt = sub64 virt hhdm

abbrev pub hhdm_phys_to_virt : (hhdm phys : ℕ) → ℕ
hhdm_phys_to_virt hhdm phys = add64 phys hhdm
