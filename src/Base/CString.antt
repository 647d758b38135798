-- ===== src/Base/CString.antt =====
-- C strings as the bytes before their NUL, and the comparisons of <string.h> that the library calls.
use Prim.Native.Char.{code}
use Prim.Native.String.{String}
use volk.Base.{ℕ, zero, suc, ◌≡◌, refl, Bool, true, false, ◌&&◌, List, [], ◌∷◌, ◌==◌, arith}

abbrev pub CString : Type 0
CString = List ℕ

-- The bytes of a literal in ASCII.
abbrev pub c_string : String → CString
c_string String.[] = []
c_string (String.◌∷◌ c s) = code c ∷ c_string s

-- `strncmp(s, t, n) == 0`
unfoldable pub strncmp_zero : ℕ → CString → CString → Bool
strncmp_zero zero s t = true
strncmp_zero (suc n) [] [] = true
strncmp_zero (suc n) [] (y ∷ t) = false
strncmp_zero (suc n) (x ∷ s) [] = false
strncmp_zero (suc n) (x ∷ s) (y ∷ t) = x == y && strncmp_zero n s t

-- `strcmp(s, t) == 0`
unfoldable pub strcmp_zero : CString → CString → Bool
strcmp_zero [] [] = true
strcmp_zero [] (y ∷ t) = false
strcmp_zero (x ∷ s) [] = false
strcmp_zero (x ∷ s) (y ∷ t) = x == y && strcmp_zero s t

pub strcmp_zero_sound : (s t : CString) → strcmp_zero s t ≡ true → s ≡ t
unfolding strcmp_zero
strcmp_zero_sound [] [] h = refl
strcmp_zero_sound [] (y ∷ t) h = ground arith
strcmp_zero_sound (x ∷ s) [] h = ground arith
strcmp_zero_sound (x ∷ s) (y ∷ t) h = ground (arith, strcmp_zero_sound s t)
