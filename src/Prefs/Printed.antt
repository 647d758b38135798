-- ===== src/Prefs/Printed.antt =====
-- The entries that apps/volk_profile.cc writes, read again.
use volk.Base.{
  ℕ, ◌+◌, ◌<◌, ◌≡◌, refl, ap, ◌∙◌, Bool, true, List, [], ◌∷◌, ◌++◌, map, Option, some, arith,
}
use volk.Base.{length, ltb}
use volk.Base.CString.{CString, strncmp_zero}
use volk.Dispatch.RankArchs.{ArchPref}
use volk.Prefs.{
  Process, volk_get_config_path, words, volk_prefix, parse_words, load_loop, volk_load_preferences,
}
use volk.Prefs.Words.{NoSpace, words_step, words_last}

-- A word that sscanf reads whole and that fits a field.
pub record IsWord (w : CString) : Type 0 where
  pub first : ℕ
  pub others : CString
  pub split : w ≡ first ∷ others
  pub no_space : NoSpace (first ∷ others)
  pub short : length (first ∷ others) < 128

-- An entry whose three fields are words, the first of which begins with "volk_".
pub record IsPlain (p : ArchPref) : Type 0 where
  pub name_word : IsWord p.name
  pub a_word : IsWord p.impl_a
  pub u_word : IsWord p.impl_u
  pub prefixed : strncmp_zero 5 p.name volk_prefix ≡ true

-- `name impl_a impl_u` and a newline
abbrev pub line_of : ArchPref → CString
line_of p = p.name ++ (32 ∷ (p.impl_a ++ (32 ∷ (p.impl_u ++ (10 ∷ [])))))

abbrev pub AllPlain : List ArchPref → Type 0
AllPlain [] = Unit {0}
AllPlain (p ∷ ps) = IsPlain p × AllPlain ps

word_step : (w : CString) (rest : CString) → IsWord w → words (w ++ (32 ∷ rest)) ≡ w ∷ words rest
word_step w rest h = rw h.split (words_step h.first h.others 32 rest h.no_space refl)

word_last : (w : CString) → IsWord w → words (w ++ (10 ∷ [])) ≡ w ∷ []
word_last w h = rw h.split (words_last h.first h.others 10 h.no_space refl)

words-line_of : (p : ArchPref) → IsPlain p → words (line_of p) ≡ p.name ∷ p.impl_a ∷ p.impl_u ∷ []
words-line_of p h =
    word_step p.name _ h.name_word
    ∙ ap (λ ws. p.name ∷ ws) (word_step p.impl_a _ h.a_word)
    ∙ ap (λ ws. p.name ∷ p.impl_a ∷ ws) (word_last p.impl_u h.u_word)

fits_lem : (w : CString) → IsWord w → ltb (length w) 128 ≡ true
fits_lem w h = rw h.split (let s = h.short in ground arith)

parse-line_of : (p : ArchPref) → IsPlain p → parse_words (words (line_of p)) ≡ some (some p)
unfolding parse_words
parse-line_of p h =
    ap parse_words (words-line_of p h)
    ∙ rw
        (
          fits_lem p.name h.name_word,
          fits_lem p.impl_a h.a_word,
          fits_lem p.impl_u h.u_word,
          h.prefixed,
        )
        refl

load_loop-lines :
    (realloc : ℕ → Bool) (n : ℕ) (prefs : List ArchPref)
    → ((k : ℕ) → realloc k ≡ true)
    → AllPlain prefs
    → load_loop realloc n (map line_of prefs) ≡ some prefs
unfolding load_loop
load_loop-lines realloc n [] ok h = refl
load_loop-lines realloc n (p ∷ ps) ok h =
    rw (ok n, parse-line_of p h.0, load_loop-lines realloc (n + 1) ps ok h.1) refl

-- Entries that are printed to the file, whose fields are words of less than 128 characters and whose
-- names begin with "volk_", are read as they were, if a path is found, the file opens and there is
-- memory.
pub load_preferences-printed :
    (p : Process) (fopen : CString → Option (List CString)) (realloc : ℕ → Bool) (c : ℕ)
    (path : CString) (prefs : List ArchPref)
    → volk_get_config_path p 512 true ≡ some (c ∷ path)
    → fopen (c ∷ path) ≡ some (map line_of prefs)
    → ((k : ℕ) → realloc k ≡ true)
    → AllPlain prefs
    → volk_load_preferences p fopen realloc ≡ some prefs
unfolding volk_load_preferences
load_preferences-printed p fopen realloc c path prefs found opened ok h =
    rw (found, volk_load_preferences)
      (rw (opened, volk_load_preferences) (load_loop-lines realloc 0 prefs ok h))
