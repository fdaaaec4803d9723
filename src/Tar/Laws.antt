-- ===== src/Tar/Laws.antt =====
-- The octal numbers of a header, and the look-up of a file by its path.
use system.Base.{
  ℕ, zero, suc, ◌+◌, ◌/◌, ◌%◌, ◌^◌, ◌<◌, ◌≡◌, ◌≢◌, arith, sym, ap, ◌∙◌, some, List, [], ◌∷◌, ◌++◌,
  All, length, length-append, Bool-cases, inl, inr,
}
use system.Base.Int.{is_zero, is_zero-pos}
use system.Memory.{Memory, load8}
use system.Strings.{strncmp, c_string}
use system.Strings.Laws.{strncmp-zero_iff}
use system.Vector.{Vector, at, size}
use system.Vector.Laws.{IsVector, contents, length-contents, get_elem?, at-get_elem?}
use system.Tar.{File, digit, decode_loop, decode_tar_numeral, get_loop, get}

-- The `k` characters from `value` on are the octal digits of `n`, the lowest one last.
abbrev pub Octal : ℕ → Memory → ℕ → ℕ → Type 0
Octal zero m value n = n ≡ 0
Octal (suc k) m value n = (load8 m (value + k) ≡ 48 + n % 8) × Octal k m value (n / 8)

digit-octal : (c n : ℕ) → c ≡ 48 + n % 8 → digit c ≡ n % 8
digit-octal c n e = ground arith

-- DecodeTarNumeral of a field that holds the eleven octal digits of a number returns the number.
pub decode_tar_numeral_lem :
    (m : Memory) (value n : ℕ) → Octal 11 m value n → decode_tar_numeral m value ≡ n
unfolding decode_tar_numeral decode_loop
decode_tar_numeral_lem m value n h =
    let d10 : digit (load8 m (value + 10)) ≡ n % 8 = digit-octal (load8 m (value + 10)) (n) h.0 in
    let d9 : digit (load8 m (value + 9)) ≡ n / 8 % 8 =
      digit-octal (load8 m (value + 9)) (n / 8) h.1.0 in
    let d8 : digit (load8 m (value + 8)) ≡ n / 8 / 8 % 8 =
      digit-octal (load8 m (value + 8)) (n / 8 / 8) h.1.1.0 in
    let d7 : digit (load8 m (value + 7)) ≡ n / 8 / 8 / 8 % 8 =
      digit-octal (load8 m (value + 7)) (n / 8 / 8 / 8) h.1.1.1.0 in
    let d6 : digit (load8 m (value + 6)) ≡ n / 8 / 8 / 8 / 8 % 8 =
      digit-octal (load8 m (value + 6)) (n / 8 / 8 / 8 / 8) h.1.1.1.1.0 in
    let d5 : digit (load8 m (value + 5)) ≡ n / 8 / 8 / 8 / 8 / 8 % 8 =
      digit-octal (load8 m (value + 5)) (n / 8 / 8 / 8 / 8 / 8) h.1.1.1.1.1.0 in
    let d4 : digit (load8 m (value + 4)) ≡ n / 8 / 8 / 8 / 8 / 8 / 8 % 8 =
      digit-octal (load8 m (value + 4)) (n / 8 / 8 / 8 / 8 / 8 / 8) h.1.1.1.1.1.1.0 in
    let d3 : digit (load8 m (value + 3)) ≡ n / 8 / 8 / 8 / 8 / 8 / 8 / 8 % 8 =
      digit-octal (load8 m (value + 3)) (n / 8 / 8 / 8 / 8 / 8 / 8 / 8) h.1.1.1.1.1.1.1.0 in
    let d2 : digit (load8 m (value + 2)) ≡ n / 8 / 8 / 8 / 8 / 8 / 8 / 8 / 8 % 8 =
      digit-octal (load8 m (value + 2)) (n / 8 / 8 / 8 / 8 / 8 / 8 / 8 / 8) h.1.1.1.1.1.1.1.1.0 in
    let d1 : digit (load8 m (value + 1)) ≡ n / 8 / 8 / 8 / 8 / 8 / 8 / 8 / 8 / 8 % 8 =
      digit-octal (load8 m (value + 1)) (n / 8 / 8 / 8 / 8 / 8 / 8 / 8 / 8 / 8)
        h.1.1.1.1.1.1.1.1.1.0 in
    let d0 : digit (load8 m (value + 0)) ≡ n / 8 / 8 / 8 / 8 / 8 / 8 / 8 / 8 / 8 / 8 % 8 =
      digit-octal (load8 m (value + 0)) (n / 8 / 8 / 8 / 8 / 8 / 8 / 8 / 8 / 8 / 8)
        h.1.1.1.1.1.1.1.1.1.1.0 in
    rw (d10, d9, d8, d7, d6, d5, d4, d3, d2, d1, d0) (omega arith)

-- The loop of Get at a file of the vector, which is not the one asked for or is.
get_loop-other :
    (k : ℕ) (m : Memory) (v : Vector File) (g : File) (path i : ℕ)
    → at v i ≡ some g
    → c_string m g.path 100 ≢ c_string m path 100
    → get_loop (suc k) m v path i ≡ get_loop k m v path (i + 1)
unfolding get_loop
get_loop-other k m v g path i e other = elim (Bool-cases (is_zero (strncmp m g.path path 100))) [
  | inl same ↦ absurd (
      other ((strncmp-zero_iff m g.path path 100).0 (is_zero-pos (strncmp m g.path path 100) same)))
  | inr differs ↦ rw (e, differs)
]

get_loop-first :
    (k : ℕ) (m : Memory) (v : Vector File) (before after : List File) (f : File) (path i : ℕ)
    → length before < k
    → ((j : ℕ)
        → j < length (before ++ f ∷ after)
        → at v (i + j) ≡ get_elem? (before ++ f ∷ after) j)
    → All (λ g. c_string m g.path 100 ≢ c_string m path 100) before
    → c_string m f.path 100 ≡ c_string m path 100
    → get_loop k m v path i ≡ some f
unfolding get_loop get_elem?
get_loop-first zero m v before after f path i enough held others this = absurd (omega arith)
get_loop-first (suc k) m v [] after f path i enough held others this =
    let here : i + 0 ≡ i = omega arith in
    let e : at v i ≡ some f = rw here at (held 0 (omega arith)) in
    rw (e, (strncmp-zero_iff m f.path path 100).1 this)
get_loop-first (suc k) m v (g ∷ before) after f path i enough held others this =
    let here : i + 0 ≡ i = omega arith in
    let e : at v i ≡ some g = rw here at (held 0 (omega arith)) in
    get_loop-other k m v g path i e others.0
    ∙ get_loop-first k m v before after f path (i + 1) (omega arith)
        (λ j lt.
          let next : i + 1 + j ≡ i + suc j = omega arith in rw next (held (suc j) (omega arith)))
        others.1 this

-- Get returns the first file whose path agrees with the one asked for in its first 100 characters, if
-- there is one among fewer than 2 ^ 16 files.
pub get-first :
    (m : Memory) (v : Vector File) (before after : List File) (f : File) (path : ℕ)
    → IsVector v
    → contents v ≡ before ++ f ∷ after
    → length (before ++ f ∷ after) < 2 ^ 16
    → All (λ g. c_string m g.path 100 ≢ c_string m path 100) before
    → c_string m f.path 100 ≡ c_string m path 100
    → get m v path ≡ some f
unfolding get size
get-first m v before after f path ok e few others this =
    let count : v.current_element_count ≡ length (before ++ f ∷ after) =
      sym (length-contents v) ∙ ap length e in
    get_loop-first (v.current_element_count % 2 ^ 16) m v before after f path 0
      (omega (arith, length-append before (f ∷ after), count))
      (λ j lt.
        let here : 0 + j ≡ j = omega arith in
        rw here (at-get_elem? v j ok (omega (arith, count)) ∙ ap (λ xs. get_elem? xs j) e))
      others this
