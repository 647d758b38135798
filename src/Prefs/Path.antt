-- ===== src/Prefs/Path.antt =====
-- Which path `volk_get_config_path` gives.
use volk.Base.{
  ℕ, ◌+◌, ◌⊎◌, ◌∙◌, ap, ◌≤◌, ◌<◌, ◌≡◌, refl, Bool, true, false, ◌||◌, not, List, [], ◌∷◌, ◌++◌,
  Option, none, some, arith,
}
use volk.Base.{length, if◌then◌else◌, inl, inr, Option-cases, Bool-cases}
use volk.Base.CString.{CString}
use volk.Prefs.{
  Process, volk_configpath, home_name, appdata, suffix, suffix2, etc, join, candidate,
  from_variable,
}
use volk.Prefs.{system_wide, volk_get_config_path}

-- The path below a variable's value, if the variable is set.
abbrev pub below : Option CString → CString → List CString
below none tail = []
below (some home) tail = (home ++ tail) ∷ []

-- The paths in the order of the search.
abbrev pub candidates : Process → List CString
candidates p =
    below (p.getenv volk_configpath) suffix2
    ++ (below (p.getenv home_name) suffix
        ++ (below (p.getenv appdata) suffix
            ++ (if p.access (etc ++ suffix2) then (etc ++ suffix2) ∷ [] else [])))

-- The first path that passes the test, or the empty one.
abbrev pub first_such : (CString → Bool) → List CString → CString
first_such test [] = []
first_such test (path ∷ paths) = if test path then path else first_such test paths

-- The value of the variable, if it is set, is terminated by the copy and leaves room for the suffix in a
-- buffer of `size` bytes.
abbrev pub Short : ℕ → Option CString → Type 0
Short size value =
    (home : CString) → value ≡ some home → (length home < 512) × (length home + 18 < size)

module _ (p : Process) (size : ℕ) (read : Bool) where
  abbrev test : CString → Bool
  test path = not read || p.access path

  candidate_lem :
      (home tail : CString) (paths : List CString)
      → 512 ≤ size
      → (length home < 512) × (length home + 18 < size)
      → length tail ≤ 18
      → candidate p size read home tail (some (first_such test paths))
        ≡ some (first_such test ((home ++ tail) ∷ paths))
  unfolding candidate join
  candidate_lem home tail paths room short le =
      rw (joined, candidate) (choose (test (home ++ tail)))
    where
      joined : join size home tail ≡ some (home ++ tail)
      joined = ground (arith, short.0, short.1)

      choose :
          (b : Bool)
          → (if b then some (home ++ tail) else some (first_such test paths))
            ≡ some (if b then home ++ tail else first_such test paths)
      choose true = refl
      choose false = refl

  from_variable_lem :
      (name tail : CString) (paths : List CString)
      → 512 ≤ size
      → Short size (p.getenv name)
      → length tail ≤ 18
      → from_variable p size read name tail (some (first_such test paths))
        ≡ some (first_such test (below (p.getenv name) tail ++ paths))
  unfolding from_variable
  from_variable_lem name tail paths room short le = elim (Option-cases (p.getenv name)) [
    | inl e ↦ rw (e, from_variable) refl
    | inr (home, e) ↦ rw (e, from_variable) (candidate_lem home tail paths room (short home e) le)
  ]

  system_wide_lem :
      512 ≤ size
      → system_wide p size read
        ≡ some (first_such test (if p.access (etc ++ suffix2) then (etc ++ suffix2) ∷ [] else []))
  unfolding system_wide
  system_wide_lem room = elim (Bool-cases (p.access (etc ++ suffix2))) [
    | inl e ↦
        rw (e, system_wide)
          (candidate_lem etc suffix2 [] room (omega arith, omega arith) (omega arith))
    | inr e ↦ rw (e, system_wide) refl
  ]

  -- In a buffer of 512 bytes or more, if the values of the three variables, where these are set, have less
  -- than 512 characters and leave 19 bytes of the buffer, the path is written without overflow, and it is the first of the candidates that exists or, for writing, the
  -- first of all; it is empty if there is none.
  pub volk_get_config_path_lem :
      512 ≤ size
      → Short size (p.getenv volk_configpath)
      → Short size (p.getenv home_name)
      → Short size (p.getenv appdata)
      → volk_get_config_path p size read
        ≡ some (first_such (λ path. not read || p.access path) (candidates p))
  unfolding volk_get_config_path
  volk_get_config_path_lem room s1 s2 s3 =
      let system : List CString = if p.access (etc ++ suffix2) then (etc ++ suffix2) ∷ [] else [] in
      let third = below (p.getenv appdata) suffix ++ system in
      let second = below (p.getenv home_name) suffix ++ third in
      ap
        (λ r.
          from_variable p size read volk_configpath suffix2 (
            from_variable p size read home_name suffix
              (from_variable p size read appdata suffix r)))
        (system_wide_lem room)
      ∙ ap
          (λ r.
            from_variable p size read volk_configpath suffix2
              (from_variable p size read home_name suffix r))
          (from_variable_lem appdata suffix system room s3 (omega arith))
      ∙ ap (λ r. from_variable p size read volk_configpath suffix2 r)
          (from_variable_lem home_name suffix third room s2 (omega arith))
      ∙ from_variable_lem volk_configpath suffix2 second room s1 (omega arith)

  -- If VOLK_CONFIGPATH is not set, the search faults, for reading and for writing, on a value in HOME of
  -- 512 characters or more, which the copy leaves without its end, and on one that leaves less than 19
  -- bytes of the caller's buffer of `size` bytes, which the suffix overflows.
  pub volk_get_config_path_overflows :
      (home : CString)
      → p.getenv volk_configpath ≡ none
      → p.getenv home_name ≡ some home
      → (512 ≤ length home) ⊎ (size ≤ length home + 18)
      → volk_get_config_path p size read ≡ none
  unfolding volk_get_config_path from_variable candidate join
  volk_get_config_path_overflows home unset set long = ground arith
