-- ===== src/Wire.antt =====
-- What the tracers use of Go's packages `encoding/binary` and `bytes` on the buffers that the kernel
-- sends: little-endian fields one behind the other, with no padding, and C strings.
pub mod Laws
use bpfd.Prelude.{
  ℕ, zero, suc, ◌+◌, ◌-◌, ◌*◌, ◌^◌, Option, none, some, [], ◌∷◌, ltb, nat_beq, if◌then◌else◌, Eq,
  nat_eq, take, ℤ, pos, negsuc, Text, text_eq,
}

abbrev pub Reader : Type 0 → Type 0
Reader A = Text → Option (A × Text)

infixl 5 ◌>>=◌
abbrev pub ◌>>=◌ : {A B : Type 0} → Reader A → (A → Reader B) → Reader B
◌>>=◌ m f s = elim (m s) [ none ↦ none | some (a, rest) ↦ f a rest ]

abbrev pub pure : {A : Type 0} → A → Reader A
pure a s = some (a, s)

abbrev cons_byte : ℕ → Option (Text × Text) → Option (Text × Text)
cons_byte c none = none
cons_byte c (some (bs, rest)) = some (c ∷ bs, rest)

-- `n` bytes, or an unexpected end of the buffer
unfoldable pub read_bytes : ℕ → Reader Text
read_bytes zero s = some ([], s)
read_bytes (suc n) [] = none
read_bytes (suc n) (c ∷ s) = cons_byte c (read_bytes n s)

unfoldable pub little_endian : Text → ℕ
little_endian [] = 0
little_endian (b ∷ bs) = b + 256 * little_endian bs

-- an unsigned field of `n` bytes
unfoldable pub read_uint : ℕ → Reader ℕ
unfolding read_bytes little_endian
read_uint n = do bs ← read_bytes n; pure (little_endian bs)

abbrev pub to_int32 : ℕ → ℤ
to_int32 n = if ltb n (2 ^ 31) then pos n else negsuc (2 ^ 32 - 1 - n)

unfoldable pub read_int32 : Reader ℤ
unfolding read_uint
read_int32 = do n ← read_uint 4; pure (to_int32 n)

-- `bytes.IndexByte(s, 0)`, `none` for -1
unfoldable pub index_nul : Text → Option ℕ
index_nul [] = none
index_nul (c ∷ s) =
    let next = index_nul s in
    if nat_beq c 0 then some 0 else elim next [ none ↦ none | some i ↦ some (suc i) ]

-- `index := bytes.IndexByte(b[:], 0); if index <= -1 { index = size }; string(b[:index])`
unfoldable pub bounded_string : ℕ → Text → Text
unfolding index_nul
bounded_string size b = elim (index_nul b) [ none ↦ take size b | some i ↦ take i b ]

-- `string(b[:bytes.IndexByte(b[:], 0)])`; `none` is the panic of a slice that ends at -1
unfoldable pub strict_string : Text → Option Text
unfolding index_nul
strict_string b = elim (index_nul b) [ none ↦ none | some i ↦ some (take i b) ]
