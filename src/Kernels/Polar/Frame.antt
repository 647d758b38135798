-- ===== src/Kernels/Polar/Frame.antt =====
-- All stages: the frame is the polar transform.
use volk.Base.{ℕ, zero, suc, ◌*◌, ◌/◌, ◌^◌, ◌≤◌, ◌<◌, ◌≡◌, refl, sym, ap, ◌∙◌, some, arith}
use volk.Base.{ltb, le→leb, if◌then◌else◌, lt→ltb}
use mathlib.Core.Path.{ap₂, subst}
use native.Mathlib.Nat.{pow-suc, mul-le-mul_left}
use volk.Base.Bits.{u32, next_power}
use volk.Base.Bits.Masks.{pow_pos}
use volk.Memory.{Buf, memcpy}
use volk.Memory.Fill.{fill, fill_cong, cell_ext}
use volk.Kernels.Polar.{encodepolar_single_stage, polar_stages}
use volk.Kernels.Polar.Transform.{transform}
use volk.Kernels.Polar.Stage.{stage_value, single_stage_lem}
use volk.Kernels.Polar.Pending.{Pending, Pending-cong, stage_Pending}

pub fill_twice : (f g : ℕ → ℕ) (n : ℕ) (b : Buf) → fill f n (fill g n b) ≡ fill f n b
fill_twice f g n b =
    cell_ext b (λ j. if ltb j n then f j else if ltb j n then g j else b.cell j)
      (λ j. if ltb j n then f j else b.cell j) (λ j. ground arith)

pub fill_below : (f : ℕ → ℕ) (n : ℕ) (b : Buf) (j : ℕ) → j < n → (fill f n b).cell j ≡ f j
fill_below f n b j lt = rw (lt→ltb j n lt) refl

-- The copy of a frame that is filled fills the other array.
memcpy-fill :
    (f : ℕ → ℕ) (n : ℕ) (dst src : Buf)
    → n ≤ dst.size
    → n ≤ src.size
    → memcpy dst (fill f n src) n ≡ some (fill f n dst)
unfolding memcpy
memcpy-fill f n dst src hd hs =
    rw (le→leb n dst.size hd, le→leb n src.size hs)
      (ap some (fill_cong (fill f n src).cell f n dst (λ j lt. fill_below f n src j lt)))

-- What the loop needs of its state, and what it leaves.
module _ (target : ℕ → ℕ) (n : ℕ) (small : n < 2 ^ 32) where
  pub record Ready (stage branches half : ℕ) (frame temp : Buf) : Type 0 where
    pub whole : n ≡ 2 ^ suc stage * branches
    pub halved : half ≡ 2 ^ stage
    pub fits_frame : n ≤ frame.size
    pub fits_temp : n ≤ temp.size
    pub pending : Pending (suc stage) branches temp.cell target

  after : ℕ → Buf → ℕ → ℕ
  after stage temp = stage_value (2 ^ stage) temp.cell

  one_stage :
      (stage branches half : ℕ) (frame temp : Buf)
      → Ready stage branches half frame temp
      → (encodepolar_single_stage frame temp branches half ≡ some (fill (after stage temp) n frame))
        × (memcpy temp (fill (after stage temp) n frame) n ≡ some (fill (after stage temp) n temp))
        × Pending stage (branches * 2) (fill (after stage temp) n temp).cell target
  unfolding after
  one_stage stage branches half frame temp r = (
    ap (encodepolar_single_stage frame temp branches) r.halved
        ∙ single_stage_lem frame temp (2 ^ stage) branches (omega (arith, all, r.fits_frame))
            (omega (arith, all, r.fits_temp))
        ∙ ap (λ k. some (fill (stage_value (2 ^ stage) temp.cell) k frame)) all,
    memcpy-fill (stage_value (2 ^ stage) temp.cell) n temp frame r.fits_temp r.fits_frame,
    Pending-cong stage (branches * 2) (fill (stage_value (2 ^ stage) temp.cell) n temp).cell
        (stage_value (2 ^ stage) temp.cell) target
        (λ i lt. fill_below (stage_value (2 ^ stage) temp.cell) n temp i (omega (arith, all)))
        (stage_Pending stage branches temp.cell target r.pending),
  )
    where
      all : 2 * 2 ^ stage * branches ≡ n
      all = omega (arith, r.whole, next_power branches stage)

  next_Ready :
      (stage branches half : ℕ) (frame temp : Buf)
      → Ready (suc stage) branches half frame temp
      → Ready stage
          (u32 (branches * 2))
          (half / 2)
          (fill (after (suc stage) temp) n frame)
          (fill (after (suc stage) temp) n temp)
  next_Ready stage branches half frame temp r = record {
    whole = split ∙ ap (λ b. 2 ^ suc stage * b) (sym same);
    halved = omega (arith, r.halved, pow-suc 2 stage);
    fits_frame = r.fits_frame;
    fits_temp = r.fits_temp;
    pending =
        subst (λ b. Pending (suc stage) b (fill (after (suc stage) temp) n temp).cell target)
          (sym same) (one_stage (suc stage) branches half frame temp r).2;
  }
    where
      all : n ≡ 2 * (branches * 2 ^ suc stage)
      all = omega (arith, r.whole, next_power branches (suc stage))

      split : n ≡ 2 ^ suc stage * (branches * 2)
      split = omega (arith, all)

      some_branches : branches * 1 ≤ branches * 2 ^ suc stage
      some_branches = mul-le-mul_left branches (pow_pos (suc stage))

      same : u32 (branches * 2) ≡ branches * 2
      same = omega (arith, some_branches, all)

  -- The invariant of the encoder's loop: if the transforms of the blocks of `temp` are the target, then a
  -- stage and the copy run without a fault, and with the parameters that the loop computes next the
  -- transforms of the blocks, half as long and twice as many, are the target again.
  pub encodepolar_single_stage-Ready :
      (stage branches half : ℕ) (frame temp : Buf)
      → Ready (suc stage) branches half frame temp
      → (frame' : Buf) × (temp' : Buf) × (encodepolar_single_stage frame temp branches half
          ≡ some frame')
        × (memcpy temp frame' n ≡ some temp')
        × Ready stage (u32 (branches * 2)) (half / 2) frame' temp'
  encodepolar_single_stage-Ready stage branches half frame temp r =
      let (e, c, p) = one_stage (suc stage) branches half frame temp r in
      (
        fill (after (suc stage) temp) n frame,
        fill (after (suc stage) temp) n temp,
        e,
        c,
        next_Ready stage branches half frame temp r,
      )

  -- After the last stage every block is a bit of the target.
  ended :
      (branches half : ℕ) (frame temp : Buf)
      → Ready zero branches half frame temp
      → Pending zero (branches * 2) (fill (after zero temp) n temp).cell target
      → (j : ℕ) → j < n
      → after zero temp j ≡ target j
  unfolding transform
  ended branches half frame temp r p j lt =
      sym (fill_below (after zero temp) n temp j lt)
      ∙ ap (fill (after zero temp) n temp).cell (omega arith)
      ∙ p j 0 (omega (arith, r.whole)) (omega arith)
      ∙ ap target (omega arith)

  pub stages_lem :
      (stage branches half : ℕ) (frame temp : Buf)
      → Ready stage branches half frame temp
      → polar_stages (suc stage) n branches half frame temp
        ≡ some (fill target n frame, fill target n temp)
  unfolding polar_stages
  stages_lem zero branches half frame temp r =
      let (e, c, p) = one_stage zero branches half frame temp r in
      rw (e, c)
        (ap₂ (λ x y. some (x, y))
          (fill_cong (after zero temp) target n frame (ended branches half frame temp r p))
          (fill_cong (after zero temp) target n temp (ended branches half frame temp r p)))
  stages_lem (suc stage) branches half frame temp r =
      let (e, c, p) = one_stage (suc stage) branches half frame temp r in
      rw (e, c)
        (stages_lem stage (u32 (branches * 2)) (half / 2) _ _
            (next_Ready stage branches half frame temp r)
          ∙ ap₂ (λ x y. some (x, y)) (fill_twice target (after (suc stage) temp) n frame)
              (fill_twice target (after (suc stage) temp) n temp))
