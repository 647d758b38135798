-- ===== src/Prefs/Overflow.antt =====
-- Lines with a word that is too long for its field.
use volk.Base.{
  ℕ, ◌≤◌, ◌≡◌, refl, ap, ◌∙◌, Bool, true, List, [], ◌∷◌, ◌++◌, Option, none, some, arith,
}
use volk.Base.{length}
use volk.Base.CString.{CString}
use volk.Prefs.{
  Process, is_space, volk_get_config_path, words, parse_words, load_loop, volk_load_preferences,
}
use volk.Prefs.Words.{NoSpace, words_step}

parse_long : (w : CString) (ws : List CString) → 128 ≤ length w → parse_words (w ∷ ws) ≡ none
unfolding parse_words
parse_long w [] long = ground arith
parse_long w (a ∷ []) long = ground arith
parse_long w (a ∷ u ∷ ws) long = ground arith

load_loop_long :
    (realloc : ℕ → Bool) (line : CString) (lines : List CString)
    → realloc 0 ≡ true
    → parse_words (words line) ≡ none
    → load_loop realloc 0 (line ∷ lines) ≡ none
unfolding load_loop
load_loop_long realloc line lines ok long = rw (ok, load_loop) (rw (long, load_loop) refl)

-- If a path is found, the file opens, and the first reallocation succeeds, then a first line that begins
-- with a word of 128 characters or more, with white space after it, makes the parser write past the end of
-- a field.
pub load_preferences_overflows :
    (p : Process) (fopen : CString → Option (List CString)) (realloc : ℕ → Bool) (c : ℕ)
    (path : CString) (d : ℕ) (w : CString) (sep : ℕ) (rest : CString) (lines : List CString)
    → volk_get_config_path p 512 true ≡ some (c ∷ path)
    → fopen (c ∷ path) ≡ some (((d ∷ w) ++ (sep ∷ rest)) ∷ lines)
    → realloc 0 ≡ true
    → NoSpace (d ∷ w)
    → is_space sep ≡ true
    → 128 ≤ length (d ∷ w)
    → volk_load_preferences p fopen realloc ≡ none
unfolding volk_load_preferences
load_preferences_overflows p fopen realloc c path d w sep rest lines found opened ok plain space
      long =
    rw (found, volk_load_preferences)
      (rw (opened, volk_load_preferences)
        (load_loop_long realloc ((d ∷ w) ++ (sep ∷ rest)) lines ok (
          ap parse_words (words_step d w sep rest plain space)
          ∙ parse_long (d ∷ w) (words rest) long)))
