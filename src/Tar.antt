-- ===== src/Tar.antt =====
-- kernel/src/obj/tar.cpp: the USTAR ramdisk. A header is read where it lies in memory, at the offsets of
-- USTARHeader: FileName 0, Size 124, Typeflag 156, Magic 257. `none` is the end of the fuel, or a failure
-- of the vector of files.
pub mod Laws
pub mod Archive
use system.Base.{
  ℕ, zero, suc, ◌+◌, ◌-◌, ◌*◌, ◌/◌, ◌%◌, ◌^◌, Option, none, some, ◌>>=◌, ◌==◌, ltb, if◌then◌else◌,
  add64, sub64,
}
use system.Base.Int.{is_zero}
use system.Memory.{Memory, load8, store8}
use system.Strings.{strncmp, strnlen}
use system.Vector.{Vector, created, push_back, at, size}

-- TarObject::File, with addresses in the place of pointers.
pub record File : Type 0 where
  pub path : ℕ
  pub links_to : ℕ
  pub file_size : ℕ
  pub kind : ℕ
  pub file_address : ℕ

-- `value[j - 1] - '0'`, converted to size_t; a `char` is signed.
abbrev pub digit : ℕ → ℕ
digit c = if ltb c 128 then sub64 c 48 else sub64 c 304

-- The loop of DecodeTarNumeral, from `j` down.
pub decode_loop : (j : ℕ) → Memory → (value ret count : ℕ) → ℕ
decode_loop zero m value ret count = ret
decode_loop (suc k) m value ret count =
    decode_loop k m value ((ret + digit (load8 m (value + k)) * count) % 2 ^ 64)
      (count * 8 % 2 ^ 64)

unfoldable pub decode_tar_numeral : Memory → (value : ℕ) → ℕ
unfolding decode_loop
decode_tar_numeral m value = decode_loop 11 m value 0 1

-- A trailing slash of the file name is cut off. The name is not empty, since the loop has looked at its
-- first byte.
pub cut_slash : Memory → (header : ℕ) → Memory
cut_slash m header =
    let last = sub64 (add64 header (strnlen m header 100)) 1 in
    if load8 m last == 47 then store8 m last 0 else m

abbrev pub file_at : Memory → (header : ℕ) → File
file_at m header = record {
  path = header;
  links_to = 0;
  file_size = decode_tar_numeral m (header + 124);
  kind = load8 m (header + 156);
  file_address = header + 512;
}

-- ALIGN_UP(DecodeTarNumeral(Header->Size) + 512, 512)
abbrev pub header_step : Memory → (header : ℕ) → ℕ
header_step m header = add64 (decode_tar_numeral m (header + 124) + 512) 511 / 512 * 512

-- sizeof(TarObject::File)
abbrev pub file_bytes : ℕ
file_bytes = 40

-- What the heap answers when the vector of files, holding so many, asks for a larger block.
abbrev pub FileBlocks : Type 0
FileBlocks = ℕ → Option (ℕ → File)

-- The loop of the constructor over the headers.
unfoldable pub read_headers :
    (fuel : ℕ) → FileBlocks → Memory → Vector File → (header : ℕ) → Option (Memory × Vector File)
unfolding cut_slash push_back
read_headers zero blocks m files header = none
read_headers (suc fuel) blocks m files header =
    let m' = cut_slash m header in
    let rest : Vector File → Option (Memory × Vector File) =
      λ files'. read_headers fuel blocks m' files' (add64 header (header_step m' header)) in
    if load8 m header == 0
    then some (m, files)
    else (push_back file_bytes (blocks files.current_element_count) files (file_at m' header)
        >>= rest)

-- The constructor, with what the first block of the vector holds. `ustar` is the address of the string
-- "ustar".
unfoldable pub tar_object :
    (fuel : ℕ)
    → (first : ℕ → File) → FileBlocks
    → Memory
    → (ramdisk ustar : ℕ) → Option (Memory × Vector File)
unfolding read_headers created
tar_object fuel first blocks m ramdisk ustar =
    if is_zero (strncmp m (ramdisk + 257) ustar 5)
    then read_headers fuel blocks m (created first) ramdisk
    else some (m, created first)

abbrev pub no_file : File
no_file = record { path = 0; links_to = 0; file_size = 0; kind = 0; file_address = 0 }

-- The loop of Get from file `i` on, with its rounds left.
pub get_loop : ℕ → Memory → Vector File → (path i : ℕ) → Option File
unfolding at
get_loop zero m files path i = some no_file
get_loop (suc k) m files path i =
    let rest = get_loop k m files path (i + 1) in
    at files i >>= λ f. if is_zero (strncmp m f.path path 100) then some f else rest

unfoldable pub get : Memory → Vector File → (path : ℕ) → Option File
unfolding get_loop size
get m files path = get_loop (size files) m files path 0

-- GetAll. The copy shares the vector's block.
unfoldable pub get_all : Vector File → Vector File
get_all files = files
