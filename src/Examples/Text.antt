-- ===== src/Examples/Text.antt =====
-- The theorems on mem.c and string.c at concrete inputs: the string "ustar" at address 100.
use system.Base.{◌≡◌, ◌↔◌, refl, if◌then◌else◌, ◌==◌, length}
use system.Base.Int.{pos}
use system.Memory.{Memory, load8}
use system.Strings.{strncmp, c_string}
use system.Strings.Laws.{strncmp-zero_iff}

-- "ustar", and zeros everywhere else.
abbrev ustar : Memory
ustar b =
    if b == 100
    then 117
    else (if b == 101
        then 115
        else (if b == 102 then 116 else (if b == 103 then 97 else (if b == 104 then 114 else 0))))

ustar-length : length (c_string ustar 100 6) ≡ 5
unfolding c_string load8
ustar-length = refl

strncmp-zero_iff_example :
    (strncmp ustar 100 101 5 ≡ pos 0) ↔ (c_string ustar 100 5 ≡ c_string ustar 101 5)
strncmp-zero_iff_example = strncmp-zero_iff ustar 100 101 5
