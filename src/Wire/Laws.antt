-- ===== src/Wire/Laws.antt =====
-- Reading back what the kernel wrote.
use bpfd.Prelude.{
  ℕ, zero, suc, ◌/◌, ◌%◌, ◌^◌, ◌<◌, ◌≡◌, refl, ap, ◌∙◌, ◌≢◌, none, some, [], ◌∷◌, ◌++◌,
  append_assoc, arith, subst, nat_eq, length, take-append, All, Text, text_eq,
}
use bpfd.Wire.{
  little_endian, Reader, ◌>>=◌, pure, to_int32, read_int32, read_bytes, read_uint, index_nul,
  bounded_string, strict_string,
}

-- The `n` bytes of a number, the lowest first.
abbrev pub le_bytes : ℕ → ℕ → Text
le_bytes zero v = []
le_bytes (suc n) v = v % 256 ∷ le_bytes n (v / 256)

pub read_bytes-append : (bs rest : Text) → read_bytes (length bs) (bs ++ rest) ≡ some (bs, rest)
unfolding read_bytes
read_bytes-append [] rest = refl
read_bytes-append (b ∷ bs) rest = rw (read_bytes-append bs rest)

-- A field read back is the number, if it fits.
pub read_uint-one :
    (v : ℕ) (rest : Text) → v < 256 → read_uint 1 (le_bytes 1 v ++ rest) ≡ some (v, rest)
unfolding read_uint
read_uint-one v rest h = ground arith

pub read_uint-two :
    (v : ℕ) (rest : Text) → v < 2 ^ 16 → read_uint 2 (le_bytes 2 v ++ rest) ≡ some (v, rest)
unfolding read_uint
read_uint-two v rest h = ground arith

pub read_uint-four :
    (v : ℕ) (rest : Text) → v < 2 ^ 32 → read_uint 4 (le_bytes 4 v ++ rest) ≡ some (v, rest)
unfolding read_uint
read_uint-four v rest h = ground arith

-- A buffer with no NUL has no place to cut.
pub index_nul-none : (b : Text) → All (λ c. c ≢ 0) b → index_nul b ≡ none
unfolding index_nul
index_nul-none [] h = refl
index_nul-none (c ∷ b) (hc, h) = ground (arith, index_nul-none b h)

pub index_nul_lem :
    (s rest : Text) → All (λ c. c ≢ 0) s → index_nul (s ++ 0 ∷ rest) ≡ some (length s)
unfolding index_nul
index_nul_lem [] rest h = refl
index_nul_lem (c ∷ s) rest (hc, h) = ground (arith, index_nul_lem s rest h)

-- A C string is what stands before its NUL.
pub bounded_string_lem :
    (size : ℕ) (s rest : Text) → All (λ c. c ≢ 0) s → bounded_string size (s ++ 0 ∷ rest) ≡ s
unfolding bounded_string
bounded_string_lem size s rest h =
    rw (index_nul_lem s rest h, bounded_string) (take-append s (0 ∷ rest))

pub strict_string_lem :
    (s rest : Text) → All (λ c. c ≢ 0) s → strict_string (s ++ 0 ∷ rest) ≡ some s
unfolding strict_string
strict_string_lem s rest h =
    rw (index_nul_lem s rest h, strict_string) (ap some (take-append s (0 ∷ rest)))

pub bind_lem :
    {A B : Type 0} (m : Reader A) (f : A → Reader B) (s rest : Text) (a : A)
    → m s ≡ some (a, rest)
    → (m >>= f) s ≡ f a rest
bind_lem m f s rest a h = ap (λ o. elim o [ none ↦ none | some (x, r) ↦ f x r ]) h

pub read_int32_lem :
    (v : ℕ) (rest : Text) → v < 2 ^ 32 → read_int32 (le_bytes 4 v ++ rest) ≡ some (to_int32 v, rest)
unfolding read_int32
read_int32_lem v rest b =
    bind_lem (read_uint 4) (λ n. pure (to_int32 n)) (le_bytes 4 v ++ rest) rest v
      (read_uint-four v rest b)

-- A field of known size.
pub read_bytes_lem :
    (n : ℕ) (bs rest : Text) → length bs ≡ n → read_bytes n (bs ++ rest) ≡ some (bs, rest)
read_bytes_lem n bs rest h =
    subst (λ k. read_bytes k (bs ++ rest) ≡ some (bs, rest)) h (read_bytes-append bs rest)

-- The bytes of a number give the number.
pub little_endian-four : (v : ℕ) → v < 2 ^ 32 → little_endian (le_bytes 4 v) ≡ v
unfolding little_endian
little_endian-four v h = omega arith

-- Two fields of known sizes at the end of a record.
pub two_arrays :
    {B : Type 0} (n m : ℕ) (k : Text → Text → B) (a b rest : Text)
    → length a ≡ n
    → length b ≡ m
    → (read_bytes n >>= (λ x. read_bytes m >>= (λ y. pure (k x y)))) (a ++ b ++ rest)
      ≡ some (k a b, rest)
two_arrays n m k a b rest ha hb =
    ap (read_bytes n >>= (λ x. read_bytes m >>= (λ y. pure (k x y)))) (append_assoc a b rest)
    ∙ bind_lem (read_bytes n) (λ x. read_bytes m >>= (λ y. pure (k x y))) (a ++ (b ++ rest))
        (b ++ rest) a (read_bytes_lem n a (b ++ rest) ha)
    ∙ bind_lem (read_bytes m) (λ y. pure (k a y)) (b ++ rest) rest b (read_bytes_lem m b rest hb)
