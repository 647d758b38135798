-- ===== src/Tests/Prefs.antt =====
-- A home directory with a configuration file of two entries.
use volk.Base.{
  ℕ, zero, suc, ◌+◌, ◌<◌, inr, ◌≡◌, refl, true, ◌||◌, not, [], ◌∷◌, ◌++◌, map, none, some, arith,
}
use volk.Base.{length, if◌then◌else◌}
use volk.Base.CString.{CString, strncmp_zero, strcmp_zero}
use mathlib.Core.Option.{some-injective}
use mathlib.Core.Path.{subst}
use volk.Dispatch.RankArchs.{ArchPref, generic_name}
use volk.Prefs.{Process, home_name, volk_get_config_path, volk_load_preferences}
use volk.Prefs.{join, candidate, from_variable}
use volk.Prefs.Words.{NoSpace}
use volk.Prefs.Path.{
  candidates, first_such, volk_get_config_path_lem, volk_get_config_path_overflows,
}
use volk.Prefs.Printed.{IsWord, IsPlain, line_of, load_preferences-printed}
use volk.Prefs.Overflow.{load_preferences_overflows}

-- "/h"
abbrev home : CString
home = b'/' ∷ b'h' ∷ []

-- Only HOME is set, and all files exist.
abbrev user : CString → Process
user value = record {
  getenv = λ v. if strcmp_zero v home_name then some value else none;
  access = λ path. true;
}

volk_get_config_path_lem_example :
    volk_get_config_path (user home) 512 true
    ≡ some (first_such (λ path. not true || (user home).access path) (candidates (user home)))
unfolding strcmp_zero
volk_get_config_path_lem_example =
    volk_get_config_path_lem (user home) 512 true (omega arith) (λ v e. cc)
      (λ v e.
        subst (λ (t : CString). (length t < 512) × (length t + 18 < 512)) (some-injective home v e)
          (omega arith, omega arith))
      (λ v e. cc)

-- A string of `n` letters.
abbrev letters : ℕ → CString
letters zero = []
letters (suc n) = b'x' ∷ letters n

letters-NoSpace : (n : ℕ) → NoSpace (letters n)
letters-NoSpace zero = tt
letters-NoSpace (suc n) = (refl, letters-NoSpace n)

volk_get_config_path_overflows_example : volk_get_config_path (user (letters 500)) 512 true ≡ none
unfolding strcmp_zero
volk_get_config_path_overflows_example =
    volk_get_config_path_overflows (user (letters 500)) 512 true (letters 500) refl refl
      (inr (omega arith))

-- "volk_k"
abbrev kern_name : CString
kern_name = b'v' ∷ b'o' ∷ b'l' ∷ b'k' ∷ b'_' ∷ b'k' ∷ []

abbrev pref : ArchPref
pref = record { name = kern_name; impl_a = generic_name; impl_u = generic_name }

pref-IsPlain : IsPlain pref
unfolding strncmp_zero
pref-IsPlain = record {
  name_word = record {
    first = _;
    others = _;
    split = refl;
    no_space = (refl, (refl, (refl, (refl, (refl, (refl, tt))))));
    short = omega arith;
  };
  a_word = generic_word;
  u_word = generic_word;
  prefixed = refl;
}
  where
    generic_word : IsWord generic_name
    generic_word = record {
      first = _;
      others = _;
      split = refl;
      no_space = (refl, (refl, (refl, (refl, (refl, (refl, (refl, tt)))))));
      short = omega arith;
    }

load_preferences-printed_example :
    volk_load_preferences (user home) (λ path. some (map line_of (pref ∷ pref ∷ []))) (λ n. true)
    ≡ some (pref ∷ pref ∷ [])
unfolding strcmp_zero volk_get_config_path from_variable candidate join
load_preferences-printed_example =
    load_preferences-printed (user home) (λ path. some (map line_of (pref ∷ pref ∷ []))) (λ n. true)
      _ _ (pref ∷ pref ∷ []) refl refl (λ k. refl) (pref-IsPlain, (pref-IsPlain, tt))

load_preferences_overflows_example :
    volk_load_preferences
      (user home)
      (λ path. some ((letters 128 ++ (b'\n' ∷ [])) ∷ []))
      (λ n. true)
    ≡ none
unfolding strcmp_zero volk_get_config_path from_variable candidate join
load_preferences_overflows_example =
    load_preferences_overflows (user home) (λ path. some ((letters 128 ++ (b'\n' ∷ [])) ∷ []))
      (λ n. true) _ _ _ (letters 127) _ [] [] refl refl refl (letters-NoSpace 128) refl
      (omega arith)
