-- ===== src/Base/Bits/Xor.antt =====
-- Exclusive or undoes itself.
use volk.Base.{ℕ, zero, suc, ◌+◌, ◌*◌, ◌/◌, ◌%◌, ◌≤◌, ◌<◌, ◌≡◌, refl, ◌∙◌, ap, bit_xor, arith}
use mathlib.Core.Path.{ap₂}
use Prim.Native.Nat.{differ}
use volk.Base.Bits.{bit_xor_step}

differ_cancel : (x y : ℕ) → x < 2 → y < 2 → (differ (differ x y) y ≡ x) × (differ x y < 2)
differ_cancel zero zero hx hy = (refl, omega arith)
differ_cancel zero (suc zero) hx hy = (refl, omega arith)
differ_cancel (suc zero) zero hx hy = (refl, omega arith)
differ_cancel (suc zero) (suc zero) hx hy = (refl, omega arith)
differ_cancel (suc (suc x)) y hx hy = absurd (omega arith)
differ_cancel zero (suc (suc y)) hx hy = absurd (omega arith)
differ_cancel (suc zero) (suc (suc y)) hx hy = absurd (omega arith)

cancel_below : (m a b : ℕ) → a ≤ m → b ≤ m → bit_xor (bit_xor a b) b ≡ a
cancel_below zero a b ha hb =
    let a_zero : a ≡ 0 = omega arith in let b_zero : b ≡ 0 = omega arith in rw (a_zero, b_zero) refl
cancel_below (suc m) a b ha hb =
    let d = differ_cancel (a % 2) (b % 2) (omega arith) (omega arith) in
    let s = bit_xor_step a b in
    let half : bit_xor a b / 2 ≡ bit_xor (a / 2) (b / 2) = omega arith in
    let low : bit_xor a b % 2 ≡ differ (a % 2) (b % 2) = omega arith in
    bit_xor_step (bit_xor a b) b
    ∙ ap₂ (λ q r. q * 2 + r)
        (ap (λ q. bit_xor q (b / 2)) half
          ∙ cancel_below m (a / 2) (b / 2) (omega arith) (omega arith))
        (ap (λ r. differ r (b % 2)) low ∙ d.0)
    ∙ omega arith

pub xor_cancel : (a b : ℕ) → bit_xor (bit_xor a b) b ≡ a
xor_cancel a b = cancel_below (a + b) a b (omega arith) (omega arith)
