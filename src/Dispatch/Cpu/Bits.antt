-- ===== src/Dispatch/Cpu/Bits.antt =====
-- The bits of the mask.
use volk.Base.{ℕ, zero, suc, ◌+◌, ◌*◌, ◌/◌, ◌%◌, ◌^◌, ◌≤◌, ◌<◌, ◌≡◌, sym, ap, ◌∙◌, List, [], ◌∷◌}
use volk.Base.{some, arith, length, get_elem?}
use native.Mathlib.Nat.{pow-suc, pow-le-pow_right, div-div-eq-div-mul}
use mathlib.Core.Option.{some-injective}
use volk.Base.Bits.{u32, ◌<<<◌, next_power}
use volk.Dispatch.Cpu.{Arch, i_can_has, lvarch_from, volk_get_lvarch}

-- The architectures are numbered from `k` on, as tmpl/volk_config_fixed.tmpl.h numbers them.
abbrev pub Numbered : ℕ → List Arch → Type 0
Numbered k [] = Unit {0}
Numbered k (a ∷ archs) = (a.lv ≡ k) × Numbered (suc k) archs

i_can_has-le-one : (fs : List ℕ) → i_can_has fs ≤ 1
unfolding i_can_has
i_can_has-le-one [] = omega arith
i_can_has-le-one (f ∷ fs) = ground (arith, i_can_has-le-one fs)

-- The answers as binary digits, the first the lowest.
digits_of : List Arch → ℕ
digits_of [] = 0
digits_of (a ∷ archs) = i_can_has a.features + 2 * digits_of archs

power_below : (k : ℕ) → k < 32 → 2 ^ k * 2 ≤ 2 ^ 32
power_below k h =
    omega (arith, pow-suc 2 k, pow-le-pow_right {n = 2} (omega arith) {i = suc k} {j = 32} h)

-- One more answer, without a wrap.
add_answer :
    (k retval has : ℕ)
    → has ≤ 1
    → retval < 2 ^ k
    → k < 32
    → (u32 (retval + u32 (has <<< k)) ≡ retval + has * 2 ^ k) × (retval + has * 2 ^ k < 2 ^ suc k)
add_answer k retval zero h small lt = omega (arith, power_below k lt, pow-suc 2 k)
add_answer k retval (suc zero) h small lt = omega (arith, power_below k lt, pow-suc 2 k)
add_answer k retval (suc (suc has)) h small lt = absurd (omega arith)

lvarch_from-digits_of :
    (k retval : ℕ) (archs : List Arch)
    → retval < 2 ^ k
    → Numbered k archs
    → k + length archs ≤ 32
    → lvarch_from retval archs ≡ retval + 2 ^ k * digits_of archs
unfolding lvarch_from digits_of
lvarch_from-digits_of k retval [] small num le = omega arith
lvarch_from-digits_of k retval (a ∷ archs) small num le =
    let has = i_can_has a.features in
    let (same, bound) = add_answer k retval has (i_can_has-le-one a.features) small (omega arith) in
    ap (λ n. lvarch_from (u32 (retval + u32 (has <<< n))) archs) num.0
    ∙ ap (λ v. lvarch_from v archs) same
    ∙ lvarch_from-digits_of (suc k) (retval + has * 2 ^ k) archs bound num.1 (omega arith)
    ∙ grind (arith, next_power (digits_of archs) k)

digit :
    (archs : List Arch) (j : ℕ) (a : Arch)
    → get_elem? archs j ≡ some a
    → digits_of archs / 2 ^ j % 2 ≡ i_can_has a.features
unfolding digits_of
digit [] j a e = cc e
digit (b ∷ archs) zero a e =
    let h = i_can_has-le-one b.features in
    let low : (i_can_has b.features + 2 * digits_of archs) / 1 % 2 ≡ i_can_has b.features =
      omega arith in
    low ∙ ap (λ (t : Arch). i_can_has t.features) (some-injective b a e)
digit (b ∷ archs) (suc j) a e =
    let h = i_can_has-le-one b.features in
    let n = i_can_has b.features + 2 * digits_of archs in
    let half : n / 2 ≡ digits_of archs = omega arith in
    ap (λ p. n / p % 2) (pow-suc 2 j ∙ omega arith)
    ∙ ap (λ q. q % 2) (sym (div-div-eq-div-mul n 2 (2 ^ j)))
    ∙ ap (λ q. q / 2 ^ j % 2) half
    ∙ digit archs j a e

-- With at most 32 architectures, which are numbered from 0 on, bit `j` of the mask is the answer of the
-- check of architecture `j`.
pub get_lvarch-bit :
    (archs : List Arch) (j : ℕ) (a : Arch)
    → Numbered 0 archs
    → length archs ≤ 32
    → get_elem? archs j ≡ some a
    → volk_get_lvarch archs / 2 ^ j % 2 ≡ i_can_has a.features
unfolding volk_get_lvarch
get_lvarch-bit archs j a num le e =
    ap (λ v. v / 2 ^ j % 2)
      (lvarch_from-digits_of 0 0 archs (omega arith) num (omega arith) ∙ omega arith)
    ∙ digit archs j a e
