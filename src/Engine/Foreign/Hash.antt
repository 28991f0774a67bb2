-- ===== src/Engine/Foreign/Hash.antt =====
-- The hash in the name of a compiled wrapper: the number that it shows.
use Prim.Native.Char.{Char, code}
use Prim.Native.String.{[], ◌∷◌}
use Prim.Native.String.append
use falcon_lib.Base.{
  ℕ, zero, suc, ◌+◌, ◌-◌, ◌*◌, ◌/◌, ◌%◌, ◌^◌, ◌<◌, String, ◌≡◌, refl, ap, ◌∙◌, some, arith, ltb,
  leb, if◌then◌else◌, Bool-cases, inl, inr,
}
use falcon_lib.Base.Text.{◌⊹◌, text_length}
use falcon_lib.Files.{FileSystem, read}
use falcon_lib.Engine.Foreign.{
  compute_file_hash, hash_text, hex, hex_digit, nth_char, pad, zeros, djb2,
}

-- The value of a hexadecimal digit.
pub digit_value : Char → ℕ
digit_value c = if leb (code c) b'9' then code c - b'0' else code c - 87

-- The number that hexadecimal digits show, behind digits that show n.
pub read_hex : ℕ → String → ℕ
read_hex n [] = n
read_hex n (x ∷ s) = read_hex (n * 16 + digit_value x) s

-- The bytes of a text as the digits of a number to the base 33, behind 5381.
pub base_33 : ℕ → String → ℕ
base_33 n [] = n
base_33 n (x ∷ s) = base_33 (n * 33 + code x) s

-- The characters show the numbers from k on.
Counts : ℕ → String → Type 0
Counts k [] = Unit
Counts k (x ∷ s) = (digit_value x ≡ k) × Counts (k + 1) s

digit_value-nth_char :
    (n k : ℕ) (s : String) → Counts k s → n < text_length s → digit_value (nth_char n s) ≡ k + n
unfolding nth_char Counts
digit_value-nth_char n k [] c h = absurd (omega (arith, h))
digit_value-nth_char zero k (x ∷ s) c h = omega (arith, c.0)
digit_value-nth_char (suc n) k (x ∷ s) c h =
    omega (arith, digit_value-nth_char n (k + 1) s c.1 (omega (arith, h)))

hex_digits_count : Counts 0 "0123456789abcdef"
unfolding Counts digit_value
hex_digits_count = (
  refl,
  (
    refl,
    (
      refl,
      (
        refl,
        (
          refl,
          (
            refl,
            (refl, (refl, (refl, (refl, (refl, (refl, (refl, (refl, (refl, (refl, tt)))))))))),
          ),
        ),
      ),
    ),
  ),
)

digit_value-hex_digit : (n : ℕ) → n < 16 → digit_value (hex_digit n) ≡ n
unfolding hex_digit
digit_value-hex_digit n h =
    omega (arith, digit_value-nth_char n 0 "0123456789abcdef" hex_digits_count (omega (arith, h)))

read_hex-digit :
    (n m : ℕ) (s : String) → m < 16 → read_hex n (hex_digit m ∷ s) ≡ read_hex (n * 16 + m) s
unfolding read_hex
read_hex-digit n m s h = ap (λ d. read_hex (n * 16 + d) s) (digit_value-hex_digit m h)

read_hex-hex :
    (fuel n : ℕ) (done : String) → n < fuel → read_hex 0 (hex fuel n done) ≡ read_hex n done
unfolding hex read_hex
read_hex-hex zero n done h = absurd (omega (arith, h))
read_hex-hex (suc fuel) n done h = elim (Bool-cases (ltb n 16)) [
  | inl small ↦
      rw (hex, small)
        (read_hex-digit 0 n done (ground (arith, small)) ∙ ap (λ m. read_hex m done) (omega arith))
  | inr large ↦
      rw (hex, large)
        (read_hex-hex fuel (n / 16) (hex_digit (n % 16) ∷ done) (ground (arith, large, h))
          ∙ read_hex-digit (n / 16) (n % 16) done (omega arith)
          ∙ ap (λ m. read_hex m done) (omega arith))
]

zero_digit : (s : String) → read_hex 0 ("0" ∷ s) ≡ read_hex 0 s
unfolding read_hex digit_value
zero_digit s = ap (λ n. read_hex n s) (omega arith)

read_hex-zeros : (k : ℕ) (s : String) → read_hex 0 (zeros k ⊹ s) ≡ read_hex 0 s
unfolding zeros
read_hex-zeros zero s = ap (read_hex 0) (append.nil s)
read_hex-zeros (suc k) s =
    ap (read_hex 0) (append.cons "0" (zeros k) s) ∙ zero_digit (zeros k ⊹ s) ∙ read_hex-zeros k s

djb2-base_33 : (n m : ℕ) (s : String) → n ≡ m % 2 ^ 64 → djb2 n s ≡ base_33 m s % 2 ^ 64
unfolding djb2 base_33
djb2-base_33 n m [] h = h
djb2-base_33 n m (x ∷ s) h =
    djb2-base_33 ((n * 33 + code x) % 2 ^ 64) (m * 33 + code x) s (omega (arith, h))

-- The hash of a file that can be read shows, in hexadecimal digits, the number whose digits to the
-- base 33 are 5381 and the bytes of the file, modulo 2 ^ 64.
pub read_hex-compute_file_hash :
    (fs : FileSystem) (path text : String)
    → read fs path ≡ some text
    → read_hex 0 (compute_file_hash fs path) ≡ base_33 5381 text % 2 ^ 64
unfolding compute_file_hash hash_text pad read_hex base_33
read_hex-compute_file_hash fs path text e =
    let h = djb2 5381 text in
    rw e (
      read_hex-zeros (16 - text_length (hex (suc h) h "")) (hex (suc h) h "")
      ∙ read_hex-hex (suc h) h "" (omega arith)
      ∙ djb2-base_33 5381 5381 text refl)
