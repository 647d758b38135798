-- ===== src/Memory/Loop.antt =====
-- The loops of the kernels, whose body may fault, and the rules that their proofs use.
use mathlib.Core.Path.{subst}
use volk.Base.{refl, ℕ, zero, suc, ◌+◌, ◌≤◌, ◌<◌, ◌≡◌, ap, Option, some}
use volk.Base.{arith, ◌>>=◌}

-- `for (; i < i + rounds; i++) s = body i s`
unfoldable pub for_loop {ℓ} : {S : Type ℓ} → ℕ → ℕ → (ℕ → S → Option S) → S → Option S
for_loop zero i body s = some s
for_loop (suc n) i body s = body i s >>= λ s'. for_loop n (i + 1) body s'

-- If each round takes the state of a sequence to the next one, so does the whole loop.
pub for_loop_chain {ℓ} :
    {S : Type ℓ} (state : ℕ → S) (body : ℕ → S → Option S) (n i j : ℕ)
    → i + n ≡ j
    → ((r : ℕ) → i ≤ r → r < j → body r (state r) ≡ some (state (r + 1)))
    → for_loop n i body (state i) ≡ some (state j)
unfolding for_loop
for_loop_chain state body zero i j e step = ap (λ k. some (state k)) (omega arith)
for_loop_chain state body (suc n) i j e step =
    rw (step i (omega arith) (omega arith))
      (for_loop_chain state body n (i + 1) j (omega arith) (λ r lo hi. step r (omega arith) hi))

-- A property that every round keeps, and whose rounds run without a fault: so does the whole loop.
pub for_loop_keeps {ℓ} :
    {S : Type ℓ} (P : ℕ → S → Type ℓ) (body : ℕ → S → Option S) (n i : ℕ) (s : S)
    → P i s
    → ((r : ℕ) (s : S) → i ≤ r → r < i + n → P r s → (s' : S) × (body r s ≡ some s') × P (r + 1) s')
    → (s' : S) × (for_loop n i body s ≡ some s') × P (i + n) s'
unfolding for_loop
for_loop_keeps P body zero i s p step = (s, refl, subst (λ k. P k s) (omega arith) p)
for_loop_keeps P body (suc n) i s p step =
    let (s', e, p') = step i s (omega arith) (omega arith) p in
    let (t, e', q) =
      for_loop_keeps P body n (i + 1) s' p' (λ r s lo hi. step r s (omega arith) (omega arith)) in
    (t, rw e e', subst (λ k. P k t) (omega arith) q)
