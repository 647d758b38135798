-- ===== src/Prefs/Words.antt =====
-- The words of a line.
use volk.Base.{ℕ, ◌≡◌, refl, ap, ◌∙◌, true, false, [], ◌∷◌, ◌++◌}
use volk.Base.CString.{CString}
use volk.Prefs.{is_space, words_from, words}
use mathlib.Core.List.{append-nil, append_assoc}

-- No white space in the word.
abbrev pub NoSpace : CString → Type 0
NoSpace [] = Unit {0}
NoSpace (c ∷ cs) = (is_space c ≡ false) × NoSpace cs

-- A word that follows what is read of it ends at the next space.
words_from_word :
    (a : ℕ) (read w : CString) (sep : ℕ) (rest : CString)
    → NoSpace w
    → is_space sep ≡ true
    → words_from (a ∷ read) (w ++ (sep ∷ rest)) ≡ ((a ∷ read) ++ w) ∷ words_from [] rest
unfolding words_from
words_from_word a read [] sep rest h e = rw (e, append-nil read) refl
words_from_word a read (c ∷ w) sep rest h e = rw (h.0) (
    words_from_word a (read ++ (c ∷ [])) w sep rest h.1 e
    ∙ ap (λ r. (a ∷ r) ∷ words_from [] rest) (append_assoc read (c ∷ []) w))

-- A word and the space after it.
pub words_step :
    (c : ℕ) (w : CString) (sep : ℕ) (rest : CString)
    → NoSpace (c ∷ w)
    → is_space sep ≡ true
    → words ((c ∷ w) ++ (sep ∷ rest)) ≡ (c ∷ w) ∷ words rest
unfolding words words_from
words_step c w sep rest h e = rw h.0 (words_from_word c [] w sep rest h.1 e)

-- The last word of a line, before its newline.
pub words_last :
    (c : ℕ) (w : CString) (sep : ℕ)
    → NoSpace (c ∷ w)
    → is_space sep ≡ true
    → words ((c ∷ w) ++ (sep ∷ [])) ≡ (c ∷ w) ∷ []
unfolding words words_from
words_last c w sep h e = words_step c w sep [] h e
