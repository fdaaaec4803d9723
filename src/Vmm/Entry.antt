-- ===== src/Vmm/Entry.antt =====
-- Page table entries: what the three writes of `link` make of one.
use system.Base.{ℕ, ◌+◌, ◌*◌, ◌/◌, ◌%◌, ◌^◌, ◌<◌, ◌≡◌, ◌∙◌, ap, arith}
use system.Memory.{Memory, load64, load64-store64, store64-frame, load64-lt}
use system.Blocks.{ChangedOnly}
use system.Vmm.{
  present, page_size, physical_addr, set_present, set_rw, set_physical_addr, update64, link,
}

-- The entry that `link` leaves in place of `e`.
abbrev pub linked : (phys e : ℕ) → ℕ
linked phys e = set_rw 1 (set_present 1 (set_physical_addr (phys / 2 ^ 12) e))

-- A link put into an empty entry.
pub linked-zero : (phys : ℕ) → linked phys 0 ≡ phys / 4096 % 2 ^ 40 * 4096 + 3
linked-zero phys = omega arith

set_field_addr-lt : (v e : ℕ) → e < 2 ^ 64 → set_physical_addr v e < 2 ^ 64
set_field_addr-lt v e h = omega arith

set_present-lt : (e : ℕ) → e < 2 ^ 64 → set_present 1 e < 2 ^ 64
set_present-lt e h = omega arith

set_rw-lt : (e : ℕ) → e < 2 ^ 64 → set_rw 1 e < 2 ^ 64
set_rw-lt e h = omega arith

physical_addr-set : (v e : ℕ) → e < 2 ^ 64 → physical_addr (set_physical_addr v e) ≡ v % 2 ^ 40
physical_addr-set v e h = omega arith

physical_addr-set_low : (e : ℕ) → physical_addr (set_rw 1 (set_present 1 e)) ≡ physical_addr e
physical_addr-set_low e = omega arith

present-set_rw : (e : ℕ) → present (set_rw 1 (set_present 1 e)) ≡ 1
present-set_rw e = omega arith

page_size-set_low : (e : ℕ) → page_size (set_rw 1 (set_present 1 e)) ≡ page_size e
page_size-set_low e = omega arith

page_size-set_addr : (v e : ℕ) → page_size (set_physical_addr v e) ≡ page_size e
page_size-set_addr v e = omega arith

pub linked-lt : (phys e : ℕ) → e < 2 ^ 64 → linked phys e < 2 ^ 64
linked-lt phys e h =
    set_rw-lt (set_present 1 (set_physical_addr (phys / 2 ^ 12) e))
      (set_present-lt (set_physical_addr (phys / 2 ^ 12) e) (set_field_addr-lt (phys / 2 ^ 12) e h))

-- A linked entry is present and holds the page's number; its page size bit is the old one.
pub present-linked : (phys e : ℕ) → present (linked phys e) ≡ 1
present-linked phys e = present-set_rw (set_physical_addr (phys / 2 ^ 12) e)

pub physical_addr-linked :
    (phys e : ℕ) → e < 2 ^ 64 → physical_addr (linked phys e) ≡ phys / 2 ^ 12 % 2 ^ 40
physical_addr-linked phys e h =
    physical_addr-set_low (set_physical_addr (phys / 2 ^ 12) e)
    ∙ physical_addr-set (phys / 2 ^ 12) e h

pub page_size-linked : (phys e : ℕ) → page_size (linked phys e) ≡ page_size e
page_size-linked phys e =
    page_size-set_low (set_physical_addr (phys / 2 ^ 12) e) ∙ page_size-set_addr (phys / 2 ^ 12) e

update64-changed : (m : Memory) (p : ℕ) (f : ℕ → ℕ) → ChangedOnly p 8 m (update64 m p f)
unfolding update64
update64-changed m p f b out = store64-frame m p (f (load64 m p)) b out

update64-word :
    (m : Memory) (p : ℕ) (f : ℕ → ℕ)
    → f (load64 m p) < 2 ^ 64
    → load64 (update64 m p f) p ≡ f (load64 m p)
unfolding update64
update64-word m p f h = load64-store64 m p (f (load64 m p)) h

pub link-changed : (m : Memory) (p phys : ℕ) → ChangedOnly p 8 m (link m p phys)
unfolding link
link-changed m p phys b out =
    let m' = update64 m p (set_physical_addr (phys / 2 ^ 12)) in
    update64-changed (update64 m' p (set_present 1)) p (set_rw 1) b out
    ∙ update64-changed m' p (set_present 1) b out
    ∙ update64-changed m p (set_physical_addr (phys / 2 ^ 12)) b out

pub link-word : (m : Memory) (p phys : ℕ) → load64 (link m p phys) p ≡ linked phys (load64 m p)
unfolding link
link-word m p phys =
    let v = phys / 2 ^ 12 in
    let e = load64 m p in
    let m' = update64 m p (set_physical_addr v) in
    let m'' = update64 m' p (set_present 1) in
    let lt = set_field_addr-lt v e (load64-lt m p) in
    let first = update64-word m p (set_physical_addr v) lt in
    let second =
      update64-word m' p (set_present 1) (set_present-lt (load64 m' p) (load64-lt m' p)) in
    let third = update64-word m'' p (set_rw 1) (set_rw-lt (load64 m'' p) (load64-lt m'' p)) in
    third ∙ ap (set_rw 1) (second ∙ ap (set_present 1) first)
