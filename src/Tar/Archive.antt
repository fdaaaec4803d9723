-- ===== src/Tar/Archive.antt =====
-- The walk over the headers of a ramdisk, against the archive that stands in memory.
use mathlib.Core.List.{append_assoc, append-nil}
use system.Base.{
  length-append, ℕ, zero, suc, ◌+◌, ◌-◌, ◌*◌, ◌/◌, ◌^◌, ◌<◌, ◌≡◌, ◌≢◌, arith, sym, ◌≤◌, some, List,
  [], ◌∷◌, ◌++◌, All, length, ==-false, add64, sub64, ◌∙◌,
}
use system.Memory.{Memory, load8}
use system.Strings.{c_string}
use system.Strings.Laws.{strncmp-zero_iff, strnlen_lem, length-c_string}
use system.Vector.{Vector, created, push_back}
use system.Vector.Laws.{IsVector, contents}
use system.Vector.Growth.{Served, Holds, created-Holds, push_back-Holds}
use system.Tar.{
  File, file_bytes, FileBlocks, cut_slash, file_at, header_step, read_headers, tar_object, get,
}
use system.Tar.Laws.{Octal, decode_tar_numeral_lem, get-first}

-- The last character of a file name of at most 100 characters.
abbrev last_character : Memory → ℕ → ℕ
last_character m header = load8 m (header + length (c_string m header 100) - 1)

-- From `header` on the archive holds these files: each header starts with a name that does not end in a
-- slash, has the size as eleven octal digits, and is followed by the content in whole blocks of 512
-- bytes; a zero byte stands behind the last one.
unfoldable pub Archive : Memory → (header : ℕ) → List File → Type 0
Archive m header [] = load8 m header ≡ 0
Archive m header (f ∷ fs) =
    (load8 m header ≢ 0)
    × (last_character m header ≢ 47)
    × Octal 11 m (header + 124) f.file_size
    × (f ≡ record {
      path = header;
      links_to = 0;
      file_size = f.file_size;
      kind = load8 m (header + 156);
      file_address = header + 512;
    })
    × (f.file_size < 2 ^ 33)
    × (header + 2 ^ 34 < 2 ^ 64)
    × Archive m (header + 512 + (f.file_size + 511) / 512 * 512) fs

some_name : (m : Memory) (header : ℕ) → load8 m header ≢ 0 → 0 < length (c_string m header 100)
unfolding c_string
some_name m header ne = rw (==-false (load8 m header) 0 ne) (omega arith)

cut_slash-none :
    (m : Memory) (header : ℕ)
    → load8 m header ≢ 0
    → last_character m header ≢ 47
    → header + 2 ^ 34 < 2 ^ 64
    → cut_slash m header ≡ m
unfolding cut_slash
cut_slash-none m header ne other fits =
    let n = length (c_string m header 100) in
    let short : n ≤ 100 = length-c_string 100 m header in
    let place : sub64 (add64 header n) 1 ≡ header + n - 1 = omega (arith, some_name m header ne) in
    rw (strnlen_lem m header 100, place, ==-false (load8 m (header + n - 1)) 47 other)

read_headers-end :
    (fuel : ℕ) (blocks : FileBlocks) (m : Memory) (v : Vector File) (header : ℕ)
    → load8 m header ≡ 0
    → read_headers (suc fuel) blocks m v header ≡ some (m, v)
unfolding read_headers
read_headers-end fuel blocks m v header e = rw e

read_headers-step :
    (fuel : ℕ) (blocks : FileBlocks) (m : Memory) (v w : Vector File) (header : ℕ)
    → load8 m header ≢ 0
    → cut_slash m header ≡ m
    → push_back file_bytes (blocks v.current_element_count) v (file_at m header) ≡ some w
    → read_headers (suc fuel) blocks m v header
      ≡ read_headers fuel blocks m w (add64 header (header_step m header))
unfolding read_headers
read_headers-step fuel blocks m v w header ne cut e = rw (cut, ==-false (load8 m header) 0 ne, e)

-- The files that are read behind those of the vector.
record Found (fuel : ℕ) (blocks : FileBlocks) (m : Memory) (v : Vector File) (header : ℕ)
    (fs : List File) : Type 0 where
  result : Vector File
  read : read_headers fuel blocks m v header ≡ some (m, result)
  held : Holds result fs

read_headers-Archive :
    (fuel : ℕ) (blocks : FileBlocks) (m : Memory) (v : Vector File) (header : ℕ) (gs fs : List File)
    → Archive m header fs
    → length fs < fuel
    → length gs + length fs ≤ 512
    → Served blocks
    → Holds v gs
    → Found fuel blocks m v header (gs ++ fs)
unfolding Archive
read_headers-Archive zero blocks m v header gs fs h enough few served files = absurd (omega arith)
read_headers-Archive (suc fuel) blocks m v header gs [] h enough few served files = record {
  result = v;
  read = read_headers-end fuel blocks m v header h;
  held = rw (append-nil gs) files;
}
read_headers-Archive (suc fuel) blocks m v header gs (f ∷ fs) h enough few served files =
    let size = decode_tar_numeral_lem m (header + 124) f.file_size h.2 in
    let onward : add64 header (header_step m header)
        ≡ header + 512 + (f.file_size + 511) / 512 * 512 =
      rw size (omega (arith, h.4, h.5)) in
    let file : file_at m header ≡ f = rw size (sym h.3) in
    let (fresh, block) = served v.current_element_count in
    let (w, pushed, files') =
      push_back-Holds file_bytes fresh v gs f (omega arith) (omega arith) files in
    let longer : length (gs ++ f ∷ []) ≡ length gs + 1 = length-append gs (f ∷ []) in
    let rest =
      read_headers-Archive fuel blocks m w (header + 512 + (f.file_size + 511) / 512 * 512)
        (gs ++ f ∷ []) fs h.6 (omega arith) (omega (arith, longer)) served files' in
    record {
      result = rest.result;
      read =
          read_headers-step fuel blocks m v w header h.0 (cut_slash-none m header h.0 h.1 h.5)
            (rw (block, file) pushed)
          ∙ rw onward rest.read;
      held = rw (← append_assoc gs (f ∷ []) fs) rest.held;
    }

-- A ramdisk with the USTAR mark, whose files are these.
pub record IsRamdisk (m : Memory) (ramdisk ustar : ℕ) (fs : List File) : Type 0 where
  pub mark : c_string m (ramdisk + 257) 5 ≡ c_string m ustar 5
  pub archive : Archive m ramdisk fs
  pub few : length fs ≤ 512

-- The constructor over a ramdisk: the vector that it makes.
pub tar_object-contents :
    (fuel : ℕ) (first : ℕ → File) (blocks : FileBlocks) (m : Memory) (ramdisk ustar : ℕ)
    (fs : List File)
    → IsRamdisk m ramdisk ustar fs
    → length fs < fuel
    → Served blocks
    → (v : Vector File) × (tar_object fuel first blocks m ramdisk ustar ≡ some (m, v))
      × IsVector v
      × (contents v ≡ fs)
unfolding tar_object
tar_object-contents fuel first blocks m ramdisk ustar fs disk enough served =
    let r =
      read_headers-Archive fuel blocks m (created first) ramdisk [] fs disk.archive enough
        (omega (arith, disk.few)) served (created-Holds first) in
    (
      r.result,
      rw ((strncmp-zero_iff m (ramdisk + 257) ustar 5).1 disk.mark) r.read,
      r.held.is_vector,
      r.held.elements,
    )

-- The constructor of TarObject over a ramdisk with the USTAR mark and at most 512 files, whose names do not
-- end in a slash and whose sizes, below 2 ^ 33, stand in octal, reads exactly its files, in their order,
-- and changes no byte of the ramdisk, once the fuel exceeds their number and while the heap has pages for
-- the vector; and Get of a path then returns the first file whose path agrees with it in its first 100
-- characters.
pub tar_object-get :
    (fuel : ℕ) (first : ℕ → File) (blocks : FileBlocks) (m : Memory) (ramdisk ustar path : ℕ)
    (before after : List File) (f : File)
    → IsRamdisk m ramdisk ustar (before ++ f ∷ after)
    → length (before ++ f ∷ after) < fuel
    → Served blocks
    → All (λ g. c_string m g.path 100 ≢ c_string m path 100) before
    → c_string m f.path 100 ≡ c_string m path 100
    → (v : Vector File) × (tar_object fuel first blocks m ramdisk ustar ≡ some (m, v))
      × (contents v ≡ before ++ f ∷ after)
      × (get m v path ≡ some f)
tar_object-get fuel first blocks m ramdisk ustar path before after f disk enough served others
      this =
    let (v, e, ok, read) =
      tar_object-contents fuel first blocks m ramdisk ustar (before ++ f ∷ after) disk enough
        served in
    (v, e, read, get-first m v before after f path ok read (omega (arith, disk.few)) others this)
