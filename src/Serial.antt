-- ===== src/Serial.antt =====
-- kernel/src/hal/debug/serial.cpp: the serial port. The processor's port instructions are a parameter;
-- a reading may change the state of the device. The wait runs on fuel, and `none` means that the fuel
-- ran out.
pub mod Laws
use system.Base.{
  ℕ, zero, suc, ◌+◌, ◌%◌, ◌/◌, ◌^◌, Bool, true, false, Option, none, some, ◌>>=◌, ◌==◌,
  if◌then◌else◌,
}
use system.Memory.{Memory, load8}

-- The enumeration SerialPortValue.
pub data SerialPortValue : Type 0 where
  no_port : SerialPortValue
  com1 : SerialPortValue
  com2 : SerialPortValue
  com3 : SerialPortValue
  com4 : SerialPortValue
  com5 : SerialPortValue
  com6 : SerialPortValue
  com7 : SerialPortValue
  com8 : SerialPortValue

unfoldable pub port_id : SerialPortValue → ℕ
port_id no_port = 0x000
port_id com1 = 0x3F8
port_id com2 = 0x2F8
port_id com3 = 0x3E8
port_id com4 = 0x2E8
port_id com5 = 0x5F8
port_id com6 = 0x4F8
port_id com7 = 0x5E8
port_id com8 = 0x4E8

-- The instructions `outb` and `inb`.
pub record Ports (S : Type 0) : Type 0 where
  pub outb : S → (port val : ℕ) → S
  pub inb : S → (port : ℕ) → S × ℕ

module _ {S : Type 0} (io : Ports S) where
  unfoldable pub program_serial : S → SerialPortValue → S × Bool
  unfolding port_id
  program_serial s port =
      let id = port_id port in
      let s1 = io.outb s (id + 1) 0x00 in
      let s2 = io.outb s1 (id + 3) 0x80 in
      let s3 = io.outb s2 (id + 0) 0x03 in
      let s4 = io.outb s3 (id + 1) 0x00 in
      let s5 = io.outb s4 (id + 3) 0x03 in
      let s6 = io.outb s5 (id + 2) 0xC7 in
      let s7 = io.outb s6 (id + 4) 0x0B in
      let s8 = io.outb s7 (id + 4) 0x0F in if id == 0 then (s, false) else (s8, true)

  -- The constructor with a port: the answer of ProgramSerial is not looked at.
  unfoldable pub serial_port : S → SerialPortValue → S × SerialPortValue
  unfolding program_serial
  serial_port s port = ((program_serial s port).0, port)

  -- The constructor without one.
  unfoldable pub default_serial_port : S → S × SerialPortValue
  unfolding program_serial
  default_serial_port s = ((program_serial s com1).0, com1)

  unfoldable pub block_until_empty : (fuel : ℕ) → S → SerialPortValue → Option S
  unfolding port_id
  block_until_empty zero s port = none
  block_until_empty (suc fuel) s port =
      let (s', status) = io.inb s (port_id port + 5) in
      let rest = block_until_empty fuel s' port in if status / 0x20 % 2 == 0 then rest else some s'

  unfoldable pub write_character : (fuel : ℕ) → S → SerialPortValue → (character : ℕ) → Option S
  unfolding block_until_empty port_id
  write_character fuel s port character = do
    s' ← block_until_empty fuel s port
    some (io.outb s' (port_id port) character)

  -- The loop of WriteString, with the fuel of each wait and a round for each character.
  unfoldable pub write_string :
      (rounds fuel : ℕ) → Memory → S → SerialPortValue → (string : ℕ) → Option S
  unfolding write_character
  write_string zero fuel m s port string = none
  write_string (suc rounds) fuel m s port string =
      let onward = write_character fuel s port (load8 m string) >>= λ s'.
      write_string rounds fuel m s' port (string + 1) in
      if load8 m string == 0 then some s else onward
