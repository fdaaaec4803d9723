-- ===== src/Apic/Laws.antt =====
-- The redirection table as a table of entries, and the interrupt source overrides.
use system.Base.{
  length, length-append, zero, suc, ◌<◌, ℕ, ◌+◌, ◌*◌, ◌/◌, ◌%◌, ◌^◌, ◌<◌, ◌≡◌, ◌≢◌, refl, ◌∙◌,
  arith, List, [], ◌∷◌, ◌++◌, true, false, All, ◌==◌, ==-false, if◌then◌else◌,
}
use system.Apic.{
  RedirectionEntry, pack, unpack, Device, register_redir_entries, write, read,
  read_redirection_entry, write_redirection_entry, SourceOverride, override_irq, override_loop,
}

-- Each field fits its bits.
pub record IsEntry (e : RedirectionEntry) : Type 0 where
  pub vector : e.vector < 2 ^ 8
  pub delivery_mode : e.delivery_mode < 2 ^ 3
  pub destination_mode : e.destination_mode < 2
  pub busy : e.busy < 2
  pub polarity : e.polarity < 2
  pub lti_status : e.lti_status < 2
  pub trigger_mode : e.trigger_mode < 2
  pub interrupt_mask : e.interrupt_mask < 2
  pub reserved : e.reserved < 2 ^ 39
  pub destination : e.destination < 2 ^ 8

unpack-pack : (e : RedirectionEntry) → IsEntry e → unpack (pack e) ≡ e
unfolding unpack pack
unpack-pack e h = λ i. record {
  vector = bits.0 i;
  delivery_mode = bits.1 i;
  destination_mode = bits.2 i;
  busy = bits.3 i;
  polarity = bits.4 i;
  lti_status = bits.5 i;
  trigger_mode = bits.6 i;
  interrupt_mask = bits.7 i;
  reserved = bits.8 i;
  destination = bits.9 i;
}
  where
    v : ℕ
    v = pack e

    bits :
        (v % 2 ^ 8 ≡ e.vector)
        × (v / 2 ^ 8 % 2 ^ 3 ≡ e.delivery_mode)
        × (v / 2 ^ 11 % 2 ≡ e.destination_mode)
        × (v / 2 ^ 12 % 2 ≡ e.busy)
        × (v / 2 ^ 13 % 2 ≡ e.polarity)
        × (v / 2 ^ 14 % 2 ≡ e.lti_status)
        × (v / 2 ^ 15 % 2 ≡ e.trigger_mode)
        × (v / 2 ^ 16 % 2 ≡ e.interrupt_mask)
        × (v / 2 ^ 17 % 2 ^ 39 ≡ e.reserved)
        × (v / 2 ^ 56 % 2 ^ 8 ≡ e.destination)
    bits = omega arith

-- How the I/O APIC's two registers behave: `base` selects one of the registers behind them, and
-- `base + 16` reads or writes the one that is selected.
pub record IsWindow {S : Type 0} (d : Device S) (base : ℕ) (register : S → ℕ → ℕ) : Type 0 where
  pub selects : (s : S) (r q : ℕ) → register (d.write32 s base r) q ≡ register s q
  pub reads : (s : S) (r : ℕ) → d.read32 (d.write32 s base r) (base + 16) ≡ register s r
  pub writes :
      (s : S) (r v q : ℕ)
      → register (d.write32 (d.write32 s base r) (base + 16) v) q
        ≡ (if q == r then v else register s q)

module _ {S : Type 0} (d : Device S) (base : ℕ) (register : S → ℕ → ℕ)
    (w : IsWindow d base register) where
  read-value : (s : S) (r : ℕ) → (read d base s r).1 ≡ register s (r % 256)
  unfolding read
  read-value s r = w.reads s (r % 256)

  read-register : (s : S) (r q : ℕ) → register (read d base s r).0 q ≡ register s q
  unfolding read
  read-register s r q = w.selects s (r % 256) q

  write-register :
      (s : S) (r v q : ℕ)
      → register (write d base s r v) q ≡ (if q == r % 256 then v else register s q)
  unfolding write
  write-register s r v q = w.writes s (r % 256) v q

  -- The registers of the lower and of the upper half of an entry.
  abbrev low_register : ℕ → ℕ
  low_register entry = (register_redir_entries + entry) % 2 ^ 32

  abbrev high_register : ℕ → ℕ
  high_register entry = (register_redir_entries + (entry + 1)) % 2 ^ 32

  read_entry :
      (s : S) (entry : ℕ)
      → entry % 2 ≡ 0
      → (read_redirection_entry d base s entry).1
        ≡ unpack (
            register s (high_register entry % 256) * 2 ^ 32 + register s (low_register entry % 256))
  unfolding read_redirection_entry
  read_entry s entry even = rw (
    even,
    read-value (read d base s (low_register entry)).0 (high_register entry),
    read-register s (low_register entry) (high_register entry % 256),
    read-value s (low_register entry),
  )

  write_entry-low :
      (s : S) (entry : ℕ) (e : RedirectionEntry)
      → entry % 2 ≡ 0
      → register (write_redirection_entry d base s entry e) (low_register entry % 256)
        ≡ pack e % 2 ^ 32
  unfolding write_redirection_entry
  write_entry-low s entry e even =
      let s' = write d base s (low_register entry) (pack e % 2 ^ 32) in
      let apart : (low_register entry % 256 == high_register entry % 256) ≡ false =
        ==-false (low_register entry % 256) (high_register entry % 256) (omega arith) in
      let same : (low_register entry % 256 == low_register entry % 256) ≡ true = ground arith in
      rw even (
        write-register s' (high_register entry) (pack e / 2 ^ 32) (low_register entry % 256)
        ∙ rw apart (
            write-register s (low_register entry) (pack e % 2 ^ 32) (low_register entry % 256)
            ∙ rw same))

  write_entry-high :
      (s : S) (entry : ℕ) (e : RedirectionEntry)
      → entry % 2 ≡ 0
      → register (write_redirection_entry d base s entry e) (high_register entry % 256)
        ≡ pack e / 2 ^ 32
  unfolding write_redirection_entry
  write_entry-high s entry e even =
      let s' = write d base s (low_register entry) (pack e % 2 ^ 32) in
      let same : (high_register entry % 256 == high_register entry % 256) ≡ true = ground arith in
      rw even (
        write-register s' (high_register entry) (pack e / 2 ^ 32) (high_register entry % 256)
        ∙ rw same)

  -- An entry of the redirection table that is written, at an even index, is read back, if the two
  -- registers of the I/O APIC behave as a window on its other registers.
  pub read_redirection_entry-write_redirection_entry :
      (s : S) (entry : ℕ) (e : RedirectionEntry)
      → IsEntry e
      → entry % 2 ≡ 0
      → (read_redirection_entry d base (write_redirection_entry d base s entry e) entry).1 ≡ e
  read_redirection_entry-write_redirection_entry s entry e h even =
      let whole : pack e / 2 ^ 32 * 2 ^ 32 + pack e % 2 ^ 32 ≡ pack e = omega arith in
      read_entry (write_redirection_entry d base s entry e) entry even
      ∙ rw (write_entry-low s entry e even, write_entry-high s entry e even, whole)
          (unpack-pack e h)

override_loop-none :
    (k : ℕ) (isos : List SourceOverride) (irq : ℕ)
    → All (λ iso. iso.source ≢ irq) isos
    → override_loop k isos irq ≡ irq
unfolding override_loop
override_loop-none zero isos irq a = refl
override_loop-none (suc k) [] irq a = refl
override_loop-none (suc k) (iso ∷ isos) irq a =
    rw (override_loop, ==-false iso.source irq a.0) (override_loop-none k isos irq a.1)

override_loop-first :
    (k : ℕ) (before after : List SourceOverride) (irq gsi : ℕ)
    → length before < k
    → All (λ iso. iso.source ≢ irq) before
    → All (λ iso. iso.source ≢ gsi) after
    → override_loop k (before ++ record { source = irq; gsi = gsi } ∷ after) irq ≡ gsi
unfolding override_loop
override_loop-first zero before after irq gsi lt b a = absurd (omega arith)
override_loop-first (suc k) [] after irq gsi lt b a =
    let here : (irq == irq) ≡ true = ground arith in
    rw (override_loop, here) (override_loop-none k after gsi a)
override_loop-first (suc k) (iso ∷ before) after irq gsi lt b a =
    rw (override_loop, ==-false iso.source irq b.0)
      (override_loop-first k before after irq gsi (omega arith) b.1 a)

-- The line of an interrupt by the overrides: its own number, if none has it as its source; or the one
-- that the first such override gives, if no later override has that one as its source.
pub data LineOf (irq : ℕ) : List SourceOverride → ℕ → Type 0 where
  direct : (isos : List SourceOverride) → All (λ iso. iso.source ≢ irq) isos → LineOf irq isos irq
  overridden :
      (before after : List SourceOverride) (gsi : ℕ)
      → All (λ iso. iso.source ≢ irq) before
      → All (λ iso. iso.source ≢ gsi) after
      → LineOf irq (before ++ record { source = irq; gsi = gsi } ∷ after) gsi

-- CreateRedirectionEntry finds the line, while there are fewer than 2 ^ 16 overrides.
pub override_irq-LineOf :
    {irq line : ℕ} {isos : List SourceOverride}
    → length isos < 2 ^ 16
    → LineOf irq isos line
    → override_irq isos irq ≡ line
unfolding override_irq
override_irq-LineOf {irq} few (direct isos a) = override_loop-none (length isos % 2 ^ 16) isos irq a
override_irq-LineOf {irq} few (overridden before after gsi b a) =
    let longer = length-append before (record { source = irq; gsi = gsi } ∷ after) in
    override_loop-first (length (before ++ record { source = irq; gsi = gsi } ∷ after) % 2 ^ 16)
      before after irq gsi (omega (arith, longer)) b a
