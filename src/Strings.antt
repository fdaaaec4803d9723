-- ===== src/Strings.antt =====
-- kernel/src/libs/string.c: strncmp, strlen, strnlen and strcpy on strings in memory. The counts `n`
-- are `int`s that are not negative (the callers pass 4, 5 and 100). The two loops with no bound run
-- on fuel, and `none` means that the fuel ran out before the terminator.
pub mod Laws
use system.Base.{
  ℕ, zero, suc, ◌+◌, ◌<◌, ◌≡◌, Bool, not, ◌&&◌, Option, none, some, List, [], ◌∷◌, ◌==◌,
  if◌then◌else◌,
}
use system.Base.Int.{ℤ, pos, ◌-ℤ◌, signed_char}
use system.Memory.{Memory, load8, store8}

-- The loop of strncmp, with `n - i` rounds left.
strncmp_loop : ℕ → Memory → (str1 str2 : ℕ) → ℤ
strncmp_loop zero m str1 str2 = pos 0
strncmp_loop (suc k) m str1 str2 =
    let rest = strncmp_loop k m (str1 + 1) (str2 + 1) in
    if not (load8 m str1 == 0) && (load8 m str1 == load8 m str2)
    then rest
    else signed_char (load8 m str1) -ℤ signed_char (load8 m str2)

unfoldable pub strncmp : Memory → (str1 str2 n : ℕ) → ℤ
unfolding strncmp_loop
strncmp m str1 str2 n = strncmp_loop n m str1 str2

strlen_loop : ℕ → Memory → (str i : ℕ) → Option ℕ
strlen_loop zero m str i = none
strlen_loop (suc fuel) m str i =
    let rest = strlen_loop fuel m (str + 1) (i + 1) in if load8 m str == 0 then some i else rest

unfoldable pub strlen : (fuel : ℕ) → Memory → (str : ℕ) → Option ℕ
unfolding strlen_loop
strlen fuel m str = strlen_loop fuel m str 0

strnlen_loop : ℕ → Memory → (str i : ℕ) → ℕ
strnlen_loop zero m str i = i
strnlen_loop (suc k) m str i =
    let rest = strnlen_loop k m (str + 1) (i + 1) in if load8 m str == 0 then i else rest

unfoldable pub strnlen : Memory → (str n : ℕ) → ℕ
unfolding strnlen_loop
strnlen m str n = strnlen_loop n m str 0

-- `while ((*dest++ = *src++) != '\0');` and the memory that it leaves.
unfoldable pub strcpy : (fuel : ℕ) → Memory → (dest src : ℕ) → Option Memory
strcpy zero m dest src = none
strcpy (suc fuel) m dest src =
    let c = load8 m src in
    let m' = store8 m dest c in
    let rest = strcpy fuel m' (dest + 1) (src + 1) in if c == 0 then some m' else rest

-- The string at `str`: its bytes up to a terminator, and at most `n` of them.
unfoldable pub c_string : Memory → (str n : ℕ) → List ℕ
c_string m str zero = []
c_string m str (suc n) =
    let rest = c_string m (str + 1) n in if load8 m str == 0 then [] else load8 m str ∷ rest

-- The bytes from `p` on are the characters and a terminator.
unfoldable pub Spells : Memory → (p : ℕ) → List ℕ → Type 0
Spells m p [] = load8 m p ≡ 0
Spells m p (c ∷ cs) = (load8 m p ≡ c) × (0 < c) × Spells m (p + 1) cs
