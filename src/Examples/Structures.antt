-- ===== src/Examples/Structures.antt =====
-- The theorems on the vector, the modules, the terminal and the serial port at concrete inputs.
use system.Base.{
  ◌+◌, leb, ltb, ◌&&◌, ◌==◌, if◌then◌else◌, ℕ, suc, ◌≡◌, inr, refl, arith, some, none, List, ◌∷◌,
  [],
}
use system.Base.Int.{negsuc}
use system.Memory.{Memory, load8}
use system.Strings.{c_string, Spells}
use system.Vector.{Vector, remove}
use system.Vector.Remove.{remove-contents, remove-full}
use system.Vector.Laws.{IsVector, contents, remove_at, Pushed, push_back-Pushed}
use system.Vector.Growth.{Served}
use system.Machine.{Machine}
use system.Terminal.{itoa}
use system.Terminal.Itoa.{int_value, itoa-int_value}
use system.Serial.{Ports, com1, write_string}
use system.Serial.Laws.{EmptyAt, Sends, none_left, sent, polled, empty_bit, write_string-Sends}
use system.Tar.{File, FileBlocks, no_file, tar_object, get}
use system.Tar.Laws.{Octal}
use system.Tar.Archive.{Archive, IsRamdisk, tar_object-get}
use system.Modules.{LimineFile, HeapAnswers}
use system.Examples.{cold}

abbrev fives : ℕ → ℕ
fives i = 5

-- One element in a block for one, and two elements in a block for four.
abbrev one_of_one : Vector ℕ
one_of_one = record { array = fives; current_capacity = 1; current_element_count = 1 }

one_of_one-IsVector : IsVector one_of_one
one_of_one-IsVector = record { fits = omega arith; room = omega arith; bound = omega arith }

push_back-Pushed_example : Pushed 40 (λ i. 9) one_of_one 7
push_back-Pushed_example =
    push_back-Pushed 40 (λ i. 9) one_of_one 7 one_of_one-IsVector (omega arith) (inr (omega arith))

remove-full_example : remove one_of_one 0 ≡ none
remove-full_example = remove-full one_of_one 0 refl (omega arith)

abbrev two_of_four : Vector ℕ
two_of_four = record { array = λ i. i; current_capacity = 4; current_element_count = 2 }

two_of_four-IsVector : IsVector two_of_four
two_of_four-IsVector = record { fits = omega arith; room = omega arith; bound = omega arith }

remove-contents_example :
    (v : Vector ℕ) × (remove two_of_four 0 ≡ some v)
    × IsVector v
    × (contents v ≡ remove_at 0 (contents two_of_four))
remove-contents_example =
    remove-contents two_of_four 0 two_of_four-IsVector (omega arith) (omega arith)

itoa-int_value_example :
    int_value (c_string (itoa (λ b. 0) (negsuc 41) 64 (suc (suc 126))) 64 (suc (suc 126)))
    ≡ negsuc 41
itoa-int_value_example = itoa-int_value (λ b. 0) (negsuc 41) 64 126 (omega arith)

-- A port that keeps what is written to it, and is empty at each reading.
abbrev recorder : Ports (List ℕ)
recorder = record { outb = λ s port val. val ∷ s; inb = λ s port. (s, 0x20) }

recorder-EmptyAt : (s : List ℕ) → EmptyAt recorder com1 0 s
unfolding polled empty_bit
recorder-EmptyAt s = record { busy = λ j lt. absurd (omega arith); ready = omega arith }

-- The string "ab" at 8.
abbrev letters : Memory
letters b = if b == 8 then 97 else (if b == 9 then 98 else 0)

letters-Spells : Spells letters 8 (97 ∷ 98 ∷ [])
unfolding Spells load8
letters-Spells = (refl, omega arith, (refl, omega arith, refl))

letters-Sends : Sends recorder com1 1 [] (97 ∷ 98 ∷ []) (98 ∷ 97 ∷ [])
unfolding polled
letters-Sends =
    sent (omega arith) (recorder-EmptyAt [])
      (sent (omega arith) (recorder-EmptyAt (97 ∷ [])) none_left)

write_string-Sends_example : write_string recorder 3 1 letters [] com1 8 ≡ some (98 ∷ 97 ∷ [])
write_string-Sends_example =
    write_string-Sends recorder com1 3 1 letters 8 letters-Spells (omega arith) letters-Sends

-- The characters "ustar" from an address on.
abbrev ustar_at : (p b : ℕ) → ℕ
ustar_at p b =
    if b == p
    then 117
    else (if b == p + 1
        then 115
        else (if b == p + 2
            then 116
            else (if b == p + 3 then 97 else (if b == p + 4 then 114 else 0))))

-- A ramdisk at 1024 with an empty file "a".
abbrev archive : Memory
archive b =
    if b == 1024
    then 97
    else (if leb 1148 b && ltb b 1159
        then 48
        else (if b == 1180 then 48 else ustar_at 1281 b + ustar_at 8 b))

abbrev empty_file : File
empty_file = record { path = 1024; links_to = 0; file_size = 0; kind = 48; file_address = 1536 }

archive-Octal : Octal 11 archive 1148 0
unfolding load8
archive-Octal =
    (refl, (refl, (refl, (refl, (refl, (refl, (refl, (refl, (refl, (refl, (refl, (refl))))))))))))

archive-Archive : Archive archive 1024 (empty_file ∷ [])
unfolding Archive load8 c_string
archive-Archive = (omega arith, omega arith, archive-Octal, refl, omega arith, omega arith, refl)

archive-mark : c_string archive (1024 + 257) 5 ≡ c_string archive 8 5
unfolding load8 c_string
archive-mark = refl

archive-IsRamdisk : IsRamdisk archive 1024 8 (empty_file ∷ [])
archive-IsRamdisk = record { mark = archive-mark; archive = archive-Archive; few = omega arith }

abbrev file_blocks : FileBlocks
file_blocks k = some (λ i. empty_file)

file_blocks-Served : Served file_blocks
file_blocks-Served k = (λ i. empty_file, refl)

tar_object-get_example :
    (v : Vector File) × (tar_object 2 (λ i. no_file) file_blocks archive 1024 8 ≡ some (archive, v))
    × (contents v ≡ empty_file ∷ [])
    × (get archive v 1024 ≡ some empty_file)
tar_object-get_example =
    tar_object-get 2 (λ i. no_file) file_blocks archive 1024 8 1024 [] [] empty_file
      archive-IsRamdisk (omega arith) file_blocks-Served tt refl

-- Two modules, the first one over the ramdisk and the second one empty.
abbrev disk_module : LimineFile
disk_module = record { address = 1024; size = 2048; path = 7 }

abbrev other_module : LimineFile
other_module = record { address = 64; size = 0; path = 9 }

abbrev loaded : Machine
loaded = record cold { mem = archive }

abbrev blocks : HeapAnswers
blocks = record {
  first_module = λ i. record { virtual_address = 0; path = 0 };
  module_blocks = λ k. some (λ i. record { virtual_address = 5; path = 5 });
  first_file = λ i. no_file;
  file_blocks = file_blocks;
}
