-- ===== src/Serial/Laws.antt =====
-- The wait for the serial port, and what WriteString sends.
use system.Base.{
  ℕ, zero, suc, ◌+◌, ◌%◌, ◌/◌, ◌<◌, ◌≡◌, ◌≢◌, ◌∙◌, refl, arith, none, some, List, [], ◌∷◌, length,
  ==-false, ==_true,
}
use system.Memory.{Memory, load8}
use system.Strings.{Spells}
use system.Serial.{
  Ports, SerialPortValue, port_id, block_until_empty, write_character, write_string,
}

module _ {S : Type 0} (io : Ports S) (port : SerialPortValue) where
  -- The state after `k` readings of the line status.
  unfoldable pub polled : ℕ → S → S
  polled zero s = s
  polled (suc k) s = polled k (io.inb s (port_id port + 5)).0

  -- Bit 5 of the line status, as the next reading shows it.
  unfoldable pub empty_bit : S → ℕ
  empty_bit s = (io.inb s (port_id port + 5)).1 / 0x20 % 2

  -- The k-th reading, counted from 0, is the first one that shows the port empty.
  pub record EmptyAt (k : ℕ) (s : S) : Type 0 where
    pub busy : (j : ℕ) → j < k → empty_bit (polled j s) ≡ 0
    pub ready : empty_bit (polled k s) ≢ 0

  -- BlockUntilEmpty returns after the first reading that shows the port empty, when the fuel exceeds the
  -- number of readings before it.
  pub block_until_empty-EmptyAt :
      (fuel k : ℕ) (s : S)
      → k < fuel
      → EmptyAt k s
      → block_until_empty io fuel s port ≡ some (polled (suc k) s)
  unfolding block_until_empty polled empty_bit
  block_until_empty-EmptyAt zero k s lt e = absurd (omega arith)
  block_until_empty-EmptyAt (suc fuel) zero s lt e =
      rw (==-false ((io.inb s (port_id port + 5)).1 / 0x20 % 2) 0 e.ready)
  block_until_empty-EmptyAt (suc fuel) (suc k) s lt e =
      rw (==_true ((io.inb s (port_id port + 5)).1 / 0x20 % 2) 0 (e.busy 0 (omega arith))) (
        block_until_empty-EmptyAt fuel k (io.inb s (port_id port + 5)).0 (omega arith)
          (record { busy = λ j j_lt. e.busy (suc j) (omega arith); ready = e.ready }))

  -- BlockUntilEmpty never returns from a port that no reading shows empty.
  pub block_until_empty-stuck :
      (fuel : ℕ) (s : S)
      → ((j : ℕ) → empty_bit (polled j s) ≡ 0)
      → block_until_empty io fuel s port ≡ none
  unfolding block_until_empty polled empty_bit
  block_until_empty-stuck zero s busy = refl
  block_until_empty-stuck (suc fuel) s busy =
      rw (==_true ((io.inb s (port_id port + 5)).1 / 0x20 % 2) 0 (busy 0))
        (block_until_empty-stuck fuel (io.inb s (port_id port + 5)).0 (λ j. busy (suc j)))

  -- The characters are sent one after the other, each after a wait that some reading ends.
  pub data Sends (fuel : ℕ) : S → List ℕ → S → Type 0 where
    none_left : {s : S} → Sends fuel s [] s
    sent :
        {s s' : S} {c k : ℕ} {cs : List ℕ}
        → k < fuel
        → EmptyAt k s
        → Sends fuel (io.outb (polled (suc k) s) (port_id port) c) cs s'
        → Sends fuel s (c ∷ cs) s'

  write_character-EmptyAt :
      (fuel k : ℕ) (s : S) (c : ℕ)
      → k < fuel
      → EmptyAt k s
      → write_character io fuel s port c ≡ some (io.outb (polled (suc k) s) (port_id port) c)
  unfolding write_character
  write_character-EmptyAt fuel k s c lt e = rw (block_until_empty-EmptyAt fuel k s lt e)

  write_string-end :
      (rounds fuel : ℕ) (m : Memory) (s : S) (string : ℕ)
      → load8 m string ≡ 0
      → write_string io (suc rounds) fuel m s port string ≡ some s
  unfolding write_string
  write_string-end rounds fuel m s string e = rw e

  write_string-step :
      (rounds fuel : ℕ) (m : Memory) (s s' : S) (string : ℕ)
      → load8 m string ≢ 0
      → write_character io fuel s port (load8 m string) ≡ some s'
      → write_string io (suc rounds) fuel m s port string
        ≡ write_string io rounds fuel m s' port (string + 1)
  unfolding write_string
  write_string-step rounds fuel m s s' string ne e = rw (==-false (load8 m string) 0 ne, e)

  -- WriteString sends the characters of a string up to its terminator, in their order, each once and
  -- after the port was seen empty, when every wait ends within its fuel and there are more rounds than
  -- characters.
  pub write_string-Sends :
      (rounds fuel : ℕ) (m : Memory) (string : ℕ) {s s' : S} {cs : List ℕ}
      → Spells m string cs
      → length cs < rounds
      → Sends fuel s cs s'
      → write_string io rounds fuel m s port string ≡ some s'
  unfolding Spells
  write_string-Sends zero fuel m string spells enough sends = absurd (omega arith)
  write_string-Sends (suc rounds) fuel m string spells enough (none_left {s}) =
      write_string-end rounds fuel m s string spells
  write_string-Sends (suc rounds) fuel m string spells enough (sent {s} {s'} {c} {k} lt e rest) =
      let next = io.outb (polled (suc k) s) (port_id port) c in
      write_string-step rounds fuel m s next string (omega (arith, spells.0, spells.1))
        (rw spells.0 (write_character-EmptyAt fuel k s c lt e))
      ∙ write_string-Sends rounds fuel m (string + 1) spells.2 (omega arith) rest
