-- ===== src/Strings.antt =====
-- What the program uses of Go's packages `strings`, `path/filepath` and `fmt`: `TrimSpace`, `Split`,
-- `Join`, `Contains`, `HasPrefix`, `TrimSuffix`, `Replace`, `Base`, and `%d`. A text is the sequence
-- of its code points, so the byte offsets of Go and the positions here agree on ASCII text, and
-- every function here agrees with Go's on well-formed UTF-8.
pub mod Trim
pub mod Split
pub mod Search
pub mod Decimal
use bpfd.Prelude.{
  ℕ, zero, suc, ◌-◌, ◌/◌, ◌%◌, ◌+◌, Bool, true, false, ◌&&◌, ◌||◌, List, [], ◌∷◌, ◌++◌, Text, leb,
  nat_beq, length, is_empty, if◌then◌else◌, ℤ, pos, negsuc, any,
}

abbrev pub newline : ℕ
newline = 10

abbrev pub tab : ℕ
tab = 9

abbrev pub blank : ℕ
blank = 32

-- `unicode.IsSpace`
unfoldable pub is_space : ℕ → Bool
is_space c =
    (leb 9 c && leb c 13)
    || nat_beq c 32
    || nat_beq c 0x85
    || nat_beq c 0xA0
    || nat_beq c 0x1680
    || (leb 0x2000 c && leb c 0x200a)
    || nat_beq c 0x2028
    || nat_beq c 0x2029
    || nat_beq c 0x202f
    || nat_beq c 0x205f
    || nat_beq c 0x3000

unfoldable pub trim_left : Text → Text
trim_left [] = []
trim_left (c ∷ s) = if is_space c then trim_left s else c ∷ s

unfoldable pub trim_right : Text → Text
trim_right [] = []
trim_right (c ∷ s) = let r = trim_right s in if is_empty r && is_space c then [] else c ∷ r

unfoldable pub trim_space : Text → Text
unfolding trim_left trim_right is_space
trim_space s = trim_right (trim_left s)

unfoldable pub has_prefix : Text → Text → Bool
has_prefix s [] = true
has_prefix [] (d ∷ p) = false
has_prefix (c ∷ s) (d ∷ p) = nat_beq c d && has_prefix s p

-- `strings.Contains(s, sub)`
unfoldable pub contains : Text → Text → Bool
unfolding has_prefix
contains [] sub = has_prefix [] sub
contains (c ∷ s) sub = has_prefix (c ∷ s) sub || contains s sub

abbrev pub on_head : ℕ → List Text → List Text
on_head c [] = []
on_head c (p ∷ ps) = (c ∷ p) ∷ ps

-- `parts[0]`
abbrev pub first_part : List Text → Text
first_part [] = []
first_part (p ∷ ps) = p

-- `strings.Split(s, sep)` at a separator of one character; it always returns a part
unfoldable pub split : Text → ℕ → List Text
split [] sep = [] ∷ []
split (c ∷ s) sep = let rest = split s sep in if nat_beq c sep then [] ∷ rest else on_head c rest

-- what follows the first part
unfoldable pub separated : List Text → Text → Text
separated [] sep = []
separated (p ∷ ps) sep = sep ++ p ++ separated ps sep

-- `strings.Join(parts, sep)`
unfoldable pub join : List Text → Text → Text
unfolding separated
join [] sep = []
join (p ∷ ps) sep = p ++ separated ps sep

-- `strings.Replace(s, old, new, -1)` for an `old` that is not empty; the number counts what is left
-- to skip of the occurrence just replaced
unfoldable pub replace_from : Text → Text → ℕ → Text → Text
replace_from old new k [] = []
replace_from old new (suc k) (c ∷ s) = replace_from old new k s
replace_from old new zero (c ∷ s) =
    let hit = new ++ replace_from old new (length old - 1) s in
    let miss = c ∷ replace_from old new zero s in if has_prefix (c ∷ s) old then hit else miss

unfoldable pub replace_all : Text → Text → Text → Text
unfolding replace_from has_prefix
replace_all s old new = replace_from old new 0 s

-- `strings.TrimSuffix(s, suffix)`
unfoldable pub trim_suffix : Text → Text → Text
trim_suffix [] suffix = []
trim_suffix (c ∷ s) suffix =
    let rest = c ∷ trim_suffix s suffix in
    if has_prefix (c ∷ s) suffix && nat_beq (length (c ∷ s)) (length suffix) then [] else rest

unfoldable pub strip_slashes : Text → Text
strip_slashes [] = []
strip_slashes (c ∷ s) =
    let r = strip_slashes s in if is_empty r && nat_beq c b'/' then [] else c ∷ r

abbrev last_part : List Text → Text
last_part [] = []
last_part (p ∷ []) = p
last_part (p ∷ q ∷ ps) = last_part (q ∷ ps)

-- `filepath.Base`
unfoldable pub base : Text → Text
unfolding strip_slashes split
base [] = b'.' ∷ []
base (c ∷ s) =
    let stripped = strip_slashes (c ∷ s) in
    if is_empty stripped then b'/' ∷ [] else last_part (split stripped b'/')

unfoldable pub digits : ℕ → ℕ → Text → Text
digits zero n out = out
digits (suc f) n out =
    let out' = (b'0' + n % 10) ∷ out in
    let rest = digits f (n / 10) out' in if nat_beq (n / 10) 0 then out' else rest

-- `%d` of an unsigned number; a number has fewer digits than its successor counts
unfoldable pub format_nat : ℕ → Text
unfolding digits
format_nat n = digits (suc n) n []

-- `%d` of a signed number
unfoldable pub format_int : ℤ → Text
unfolding format_nat
format_int (pos n) = format_nat n
format_int (negsuc n) = b'-' ∷ format_nat (suc n)

-- `for _, b := range a { if b == s { return true } }; return false`, over `strings.HasPrefix`
unfoldable pub any_prefix : Text → List Text → Bool
unfolding has_prefix
any_prefix s ps = any (λ p. has_prefix s p) ps
