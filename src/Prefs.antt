-- ===== src/Prefs.antt =====
-- lib/volk_prefs.c: where the configuration file is, and what is read from it. The path's
-- buffer is the caller's, of `size` bytes; the fields' sizes are those of the source. A write past the end of
-- a buffer, or a string without its end, is `none`. A null `path`, for which the function returns at once,
-- is left out.
pub mod Path
pub mod Words
pub mod Printed
pub mod Overflow
use volk.Base.{
  ℕ, zero, suc, ◌+◌, ◌≡◌, Bool, true, false, ◌&&◌, ◌||◌, not, List, [], ◌∷◌, ◌++◌, Option, none,
  some,
}
use volk.Base.{length, ltb, leb, ◌==◌, ◌>>=◌, if◌then◌else◌}
use volk.Base.CString.{CString, strncmp_zero}
use volk.Dispatch.RankArchs.{ArchPref}

-- What the process gives: its environment, and `access(path, F_OK) != -1`.
pub record Process : Type 0 where
  pub getenv : CString → Option CString
  pub access : CString → Bool

-- "VOLK_CONFIGPATH", "HOME", "APPDATA"
abbrev pub volk_configpath : CString
volk_configpath =
    b'V' ∷ b'O' ∷ b'L' ∷ b'K' ∷ b'_' ∷ b'C' ∷ b'O' ∷ b'N' ∷ b'F' ∷ b'I' ∷ b'G' ∷ b'P' ∷ b'A' ∷ b'T'
    ∷ b'H' ∷ []

abbrev pub home_name : CString
home_name = b'H' ∷ b'O' ∷ b'M' ∷ b'E' ∷ []

abbrev pub appdata : CString
appdata = b'A' ∷ b'P' ∷ b'P' ∷ b'D' ∷ b'A' ∷ b'T' ∷ b'A' ∷ []

-- "/volk/volk_config", "/.volk/volk_config", "/etc"
abbrev pub suffix2 : CString
suffix2 =
    b'/' ∷ b'v' ∷ b'o' ∷ b'l' ∷ b'k' ∷ b'/' ∷ b'v' ∷ b'o' ∷ b'l' ∷ b'k' ∷ b'_' ∷ b'c' ∷ b'o' ∷ b'n'
    ∷ b'f' ∷ b'i' ∷ b'g' ∷ []

abbrev pub suffix : CString
suffix =
    b'/' ∷ b'.' ∷ b'v' ∷ b'o' ∷ b'l' ∷ b'k' ∷ b'/' ∷ b'v' ∷ b'o' ∷ b'l' ∷ b'k' ∷ b'_' ∷ b'c' ∷ b'o'
    ∷ b'n' ∷ b'f' ∷ b'i' ∷ b'g' ∷ []

abbrev pub etc : CString
etc = b'/' ∷ b'e' ∷ b't' ∷ b'c' ∷ []

-- `strncpy(path, home, 512); strcat(path, suffix);` on the caller's buffer of `size` bytes: strncpy writes
-- 512 bytes and does not terminate a longer value, of which strcat would then look for the end in bytes that
-- are not the string's; and the two strings with their NUL must fit.
unfoldable pub join : ℕ → CString → CString → Option CString
join size home tail =
    if leb 512 size && (ltb (length home) 512 && ltb (length home + length tail) size)
    then some (home ++ tail)
    else none

module _ (p : Process) (size : ℕ) (read : Bool) where
  -- The candidate is the answer if `!read || access(path, F_OK) != -1`; else the search goes on.
  unfoldable pub candidate : CString → CString → Option CString → Option CString
  candidate home tail rest =
      join size home tail >>= λ path. if not read || p.access path then some path else rest

  unfoldable pub from_variable : CString → CString → Option CString → Option CString
  from_variable name tail rest = elim (p.getenv name) [
    | some home ↦ candidate home tail rest
    | none ↦ rest
  ]

  unfoldable pub system_wide : Option CString
  system_wide = if p.access (etc ++ suffix2) then candidate etc suffix2 (some []) else some []

  -- The path that is written; the empty one says that there is none.
  unfoldable pub volk_get_config_path : Option CString
  volk_get_config_path =
      from_variable volk_configpath suffix2
        (from_variable home_name suffix (from_variable appdata suffix system_wide))

-- `isspace`
abbrev pub is_space : ℕ → Bool
is_space c = c == 32 || (leb 9 c && leb c 13)

-- `sscanf(line, "%s %s %s", …)`: the words of the line, `word` being the one that is read.
unfoldable pub words_from : CString → CString → List CString
words_from [] [] = []
words_from (w ∷ ws) [] = (w ∷ ws) ∷ []
words_from [] (c ∷ line) = if is_space c then words_from [] line else words_from (c ∷ []) line
words_from (w ∷ ws) (c ∷ line) =
    if is_space c then (w ∷ ws) ∷ words_from [] line else words_from ((w ∷ ws) ++ (c ∷ [])) line

unfoldable pub words : CString → List CString
words line = words_from [] line

-- A word and its NUL in a field of 128 bytes.
abbrev pub fits_field : CString → Bool
fits_field word = ltb (length word) 128

-- "volk_"
abbrev pub volk_prefix : CString
volk_prefix = b'v' ∷ b'o' ∷ b'l' ∷ b'k' ∷ b'_' ∷ []

-- The entry that a line gives: `none` is a word that overflows its field, `some none` a line that does not
-- count.
unfoldable pub parse_words : List CString → Option (Option ArchPref)
parse_words [] = some none
parse_words (n ∷ []) = if fits_field n then some none else none
parse_words (n ∷ a ∷ []) = if fits_field n && fits_field a then some none else none
parse_words (n ∷ a ∷ u ∷ more) =
    if fits_field n && fits_field a && fits_field u
    then some (
        if strncmp_zero 5 n volk_prefix
        then some (record { name = n; impl_a = a; impl_u = u })
        else none)
    else none

-- The loop over the lines, as fgets gives them; `realloc n` is whether the n-th call of it succeeds, and
-- the loop ends where one fails. The result is the entries that count.
unfoldable pub load_loop : (ℕ → Bool) → ℕ → List CString → Option (List ArchPref)
load_loop realloc n [] = some []
load_loop realloc n (line ∷ lines) =
    let rest = load_loop realloc (n + 1) lines in
    elim (realloc n) [
      | false ↦ some []
      | true ↦ parse_words (words line) >>= λ entry. elim entry [
        | some pref ↦ rest >>= λ prefs. some (pref ∷ prefs)
        | none ↦ rest
      ]
    ]

-- `volk_load_preferences`, whose `char path[512]` is the buffer; `fopen` gives the lines of a file.
pub volk_load_preferences :
    Process → (CString → Option (List CString)) → (ℕ → Bool) → Option (List ArchPref)
volk_load_preferences p fopen realloc = volk_get_config_path p 512 true >>= λ path. elim path [
  | [] ↦ some []
  | c ∷ cs ↦ elim (fopen (c ∷ cs)) [ none ↦ some [] | some lines ↦ load_loop realloc 0 lines ]
]
