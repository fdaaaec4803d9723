-- ===== src/Smp/Apart.antt =====
-- The loop of SetupAllCPUs over the cores, and writes to the I/O APIC beside the local APIC.
use system.Base.{
  ◌≤◌, ◌^◌, ℕ, zero, suc, ◌+◌, ◌-◌, ◌%◌, ◌<◌, ◌≡◌, ◌⊎◌, inl, inr, refl, ◌∙◌, arith, true, not, ◌&&◌,
  ◌==◌, ltb, Bool-cases, if◌then◌else◌,
}
use system.Apic.{Device, RedirectionEntry, write, write_redirection_entry}
use system.Smp.{cpu_jump}
use system.Smp.Setup.{jump_all, start_cores}

jump_all_lem :
    (rounds target : ℕ) (goto_address : ℕ → ℕ) (i j : ℕ)
    → 0 < i
    → i + rounds ≤ 2 ^ 32
    → jump_all rounds target goto_address i j
      ≡ (if not (ltb j i) && ltb j (i + rounds) then target else goto_address j)
unfolding jump_all cpu_jump
jump_all_lem zero target goto_address i j lt fits = ground arith
jump_all_lem (suc rounds) target goto_address i j lt fits =
    let whole : i % 2 ^ 32 ≡ i = omega arith in
    rw whole (
      jump_all_lem rounds target (cpu_jump true goto_address i target) (i + 1) j (omega arith)
        (omega arith)
      ∙ ground arith)

-- Every core but the first one is sent to the target, and no other address is written.
pub start_cores_lem :
    (cores target : ℕ) (goto_address : ℕ → ℕ) (j : ℕ)
    → cores < 2 ^ 32
    → start_cores cores target goto_address j
      ≡ (if ltb 0 j && ltb j cores then target else goto_address j)
unfolding start_cores
start_cores_lem cores target goto_address j fits = elim (Bool-cases (cores == 1)) [
  | inl one ↦ rw one (ground arith)
  | inr other ↦ elim (Bool-cases (cores == 0)) [
    | inl none ↦ ground arith
    | inr some ↦ rw other (
        jump_all_lem (cores - 1) target goto_address 1 j (omega arith) (ground arith)
        ∙ ground arith)
  ]
]

-- The registers at `base` are others than the two at `ioapic`.
pub record IsApart {S : Type 0} (d : Device S) (base ioapic : ℕ) : Type 0 where
  pub keeps :
      (s : S) (addr value reg : ℕ)
      → (addr ≡ ioapic) ⊎ (addr ≡ ioapic + 16)
      → d.read32 (d.write32 s addr value) (base + reg) ≡ d.read32 s (base + reg)

module _ {S : Type 0} (d : Device S) (base ioapic : ℕ) (apart : IsApart d base ioapic) where
  write-apart :
      (s : S) (reg value reg' : ℕ)
      → d.read32 (write d ioapic s reg value) (base + reg') ≡ d.read32 s (base + reg')
  unfolding write
  write-apart s reg value reg' =
      apart.keeps (d.write32 s ioapic (reg % 256)) (ioapic + 16) value reg' (inr refl)
      ∙ apart.keeps s ioapic (reg % 256) reg' (inl refl)

  pub write_redirection_entry-apart :
      (s : S) (entry : ℕ) (e : RedirectionEntry) (reg : ℕ)
      → d.read32 (write_redirection_entry d ioapic s entry e) (base + reg) ≡ d.read32 s (base + reg)
  unfolding write_redirection_entry
  write_redirection_entry-apart s entry e reg = elim (Bool-cases (entry % 2 == 0)) [
    | inl even ↦ rw even (write-apart _ _ _ reg ∙ write-apart s _ _ reg)
    | inr odd ↦ rw odd
  ]
