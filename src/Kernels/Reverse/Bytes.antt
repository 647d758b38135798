-- ===== src/Kernels/Reverse/Bytes.antt =====
-- The methods that work byte by byte, by a run on all 256 bytes.
use volk.Base.{
  ℕ, ◌+◌, ◌*◌, ◌/◌, ◌%◌, ◌^◌, ◌<◌, ◌≡◌, refl, sym, ap, ◌∙◌, arith, some, true, bit_and, bit_or,
  get_elem?,
}
use volk.Base.{for_all_under, byte_table, ◌==◌, for_all_under_lem, Bool, false, Option, none, ==→eq}
use mathlib.Core.Path.{ap₂}
use volk.Base.Bits.{u8, ◌<<<◌, ◌>>>◌}
use volk.Base.Bits.Masks.{bit_and_mask, bit_or-high_low}
use volk.Kernels.Reverse.{
  in8, bytewise, mirrored_bits, magic_2001, magic_1972, bit_reverse_table256, by_table,
}
use volk.Kernels.Reverse.Words.{reflected, reflected-lt, reflected_bytes}

-- A function that reverses every byte reverses the word.
bytewise-reflected :
    (f : ℕ → ℕ)
    → ((b : ℕ) → b < 256 → u8 (f b) ≡ reflected 8 b)
    → (x : ℕ) → x < 2 ^ 32
    → bytewise f x ≡ reflected 32 x
bytewise-reflected f same x h =
    ap₂ (λ a d. a * 2 ^ 24 + d) (same (in8 x 0) (omega arith))
      (ap₂ (λ a d. a * 2 ^ 16 + d) (same (in8 x 1) (omega arith))
        (ap₂ (λ a d. a * 2 ^ 8 + d) (same (in8 x 2) (omega arith)) (same (in8 x 3) (omega arith))))
    ∙ ap₂
        (λ i j.
          reflected 8 i * 2 ^ 24
          + (reflected 8 (in8 x 1) * 2 ^ 16 + (reflected 8 (in8 x 2) * 2 ^ 8 + reflected 8 j)))
        first last
    ∙ sym (reflected_bytes x)
  where
    first : in8 x 0 ≡ x % 256
    first = omega arith

    last : in8 x 3 ≡ x / 16777216
    last = omega arith

pub shuffle-reflected : (x : ℕ) → x < 2 ^ 32 → bytewise (mirrored_bits 8 7) x ≡ reflected 32 x
unfolding mirrored_bits reflected for_all_under
shuffle-reflected =
    bytewise-reflected (mirrored_bits 8 7)
      (byte_table (λ b. u8 (mirrored_bits 8 7 b)) (reflected 8) refl)

pub magic_2001-reflected : (x : ℕ) → x < 2 ^ 32 → bytewise magic_2001 x ≡ reflected 32 x
unfolding reflected for_all_under
magic_2001-reflected =
    bytewise-reflected magic_2001 (byte_table (λ b. u8 (magic_2001 b)) (reflected 8) refl)

pub magic_1972-reflected : (x : ℕ) → x < 2 ^ 32 → bytewise magic_1972 x ≡ reflected 32 x
unfolding reflected for_all_under
magic_1972-reflected =
    bytewise-reflected magic_1972 (byte_table (λ b. u8 (magic_1972 b)) (reflected 8) refl)

-- Whether the table's entry for a byte is the byte reversed.
entry_reversed : ℕ → Bool
entry_reversed b = elim (get_elem? bit_reverse_table256 b) [
  | none ↦ false
  | some t ↦ t == reflected 8 b
]

is_some : (o : Option ℕ) (t : ℕ) → elim o [ none ↦ false | some v ↦ v == t ] ≡ true → o ≡ some t
is_some none t h = cc h
is_some (some v) t h = ap some (==→eq v t h)

table_entry : (b : ℕ) → b < 256 → get_elem? bit_reverse_table256 b ≡ some (reflected 8 b)
unfolding entry_reversed for_all_under reflected
table_entry b h =
    is_some (get_elem? bit_reverse_table256 b) (reflected 8 b)
      (for_all_under_lem entry_reversed 256 b h refl)

-- A disjunction of bytes that are shifted to places of their own.
joined :
    (t0 t1 t2 t3 : ℕ)
    → t1 < 256
    → t2 < 256
    → t3 < 256
    → bit_or (bit_or (bit_or (t0 <<< 24) (t1 <<< 16)) (t2 <<< 8)) t3
      ≡ t0 * 2 ^ 24 + (t1 * 2 ^ 16 + (t2 * 2 ^ 8 + t3))
joined t0 t1 t2 t3 h1 h2 h3 =
    let p1 : bit_or (t0 <<< 24) (t1 <<< 16) ≡ (t0 * 256 + t1) <<< 16 =
      bit_or-high_low 24 t0 (t1 <<< 16) (omega arith) ∙ omega arith in
    let p2 : bit_or ((t0 * 256 + t1) <<< 16) (t2 <<< 8) ≡ ((t0 * 256 + t1) * 256 + t2) <<< 8 =
      bit_or-high_low 16 (t0 * 256 + t1) (t2 <<< 8) (omega arith) ∙ omega arith in
    ap (λ d. bit_or (bit_or d (t2 <<< 8)) t3) p1
    ∙ ap (λ d. bit_or d t3) p2
    ∙ bit_or-high_low 8 ((t0 * 256 + t1) * 256 + t2) t3 h3
    ∙ omega arith

pub by_table-reflected : (x : ℕ) → x < 2 ^ 32 → by_table x ≡ some (reflected 32 x)
unfolding by_table
by_table-reflected x h =
    rw
      (
        entry x (x % 256) (omega arith) (bit_and_mask 8 x),
        entry (x >>> 8) (x / 256 % 256) (omega arith) (bit_and_mask 8 (x >>> 8)),
        entry (x >>> 16) (x / 65536 % 256) (omega arith) (bit_and_mask 8 (x >>> 16)),
        entry (x >>> 24) (x / 16777216) (omega arith) (bit_and_mask 8 (x >>> 24) ∙ omega arith),
      )
      (ap some (
        joined (reflected 8 (x % 256)) (reflected 8 (x / 256 % 256)) (reflected 8 (x / 65536 % 256))
          (reflected 8 (x / 16777216)) (reflected-lt 8 (x / 256 % 256))
          (reflected-lt 8 (x / 65536 % 256)) (reflected-lt 8 (x / 16777216))
        ∙ sym (reflected_bytes x)))
  where
    entry :
        (y b : ℕ)
        → b < 256
        → bit_and y 0xff ≡ b
        → get_elem? bit_reverse_table256 (bit_and y 0xff) ≡ some (reflected 8 b)
    entry y b lt e = ap (get_elem? bit_reverse_table256) e ∙ table_entry b lt
