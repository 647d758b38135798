-- ===== src/Tests/Kernels.antt =====
-- The kernels on small arrays.
use volk.Base.{ℕ, ◌+◌, ◌*◌, ◌≡◌, refl, some, bit_and, bit_or, arith, min}
use volk.Memory.{Buf}
use volk.Memory.Fill.{fill}
use volk.Simd.Unary.{LaneOp1}
use volk.Simd.{LaneOp2, SetVl, Fits, StartAt}
use volk.Kernels.And32i
use volk.Kernels.Or32i
use volk.Kernels.AddSaturated.U8
use volk.Kernels.AddSaturated.U16
use volk.Kernels.AddSaturated.I8
use volk.Kernels.AddSaturated.I16
use volk.Kernels.AddSaturated.Points.{add_sat_u, add_sat_i, generic_8u, generic_8i, tail_8i}

-- An instruction that works lane by lane.
abbrev pub lanewise : (k : ℕ) (f : ℕ → ℕ → ℕ) → LaneOp2 k f
lanewise k f = record { apply = λ x y l. f (x l) (y l); lanes = λ x y l h. refl }

abbrev pub lanewise_1 : (k : ℕ) (f : ℕ → ℕ) → LaneOp1 k f
lanewise_1 k f = record { apply = λ x l. f (x l); lanes = λ x l h. refl }

-- A processor whose vectors hold four elements.
abbrev pub four_lanes : SetVl
four_lanes = record { vl = min 4; vl_pos = λ n h. omega arith; vl_le = λ n. omega arith }

abbrev pub buf : ℕ → (ℕ → ℕ) → Buf
buf base f = record { base = base; size = 40; cell = f }

abbrev pub out : Buf
out = buf 0 (λ j. 7)

abbrev pub in_a : Buf
in_a = buf 1024 (λ j. 100 + j)

abbrev pub in_b : Buf
in_b = buf 2048 (λ j. 6 * j)

pub fit_37 : Fits out in_a in_b 37
fit_37 = record { fit_c = omega arith; fit_a = omega arith; fit_b = omega arith }

pub start_64 : StartAt 64 out in_a in_b
start_64 = record { start_c = refl; start_a = refl; start_b = refl }

fit_a : Fits out in_a in_a 37
fit_a = record { fit_c = omega arith; fit_a = omega arith; fit_b = omega arith }

start_a : StartAt 32 out in_a in_a
start_a = record { start_c = refl; start_a = refl; start_b = refl }

abbrev pub and_instructions : And32i.Instructions
and_instructions = record {
  and_si512 = lanewise 16 bit_and;
  and_si256 = lanewise 8 bit_and;
  and_ps = lanewise 4 bit_and;
  vandq_s32 = lanewise 4 bit_and;
  setvl_e32m8 = four_lanes;
  vand = λ vl. lanewise vl bit_and;
}

and_run_lem_example :
    And32i.run and_instructions And32i.a_avx512f out in_a in_b 37
    ≡ some (fill (λ j. bit_and (in_a.cell j) (in_b.cell j)) 37 out)
and_run_lem_example =
    And32i.and_run_lem and_instructions And32i.a_avx512f out in_a in_b 37 fit_37 start_64

abbrev or_instructions : Or32i.Instructions
or_instructions = record {
  or_si512 = lanewise 16 bit_or;
  or_si256 = lanewise 8 bit_or;
  or_ps = lanewise 4 bit_or;
  vorrq_s32 = lanewise 4 bit_or;
  setvl_e32m8 = four_lanes;
  vor = λ vl. lanewise vl bit_or;
}

or_run_lem_example :
    Or32i.run or_instructions Or32i.a_avx512f out in_a in_b 37
    ≡ some (fill (λ j. bit_or (in_a.cell j) (in_b.cell j)) 37 out)
or_run_lem_example =
    Or32i.or_run_lem or_instructions Or32i.a_avx512f out in_a in_b 37 fit_37 start_64

abbrev u8_instructions : U8.Instructions
u8_instructions = record {
  mm_adds_epu8 = lanewise 16 (add_sat_u 8);
  mm256_adds_epu8 = lanewise 32 (add_sat_u 8);
  mm512_adds_epu8 = lanewise 64 (add_sat_u 8);
  vqaddq_u8 = lanewise 16 (add_sat_u 8);
  setvl = four_lanes;
  vsaddu = λ vl. lanewise vl (add_sat_u 8);
}

u8_run_lem_example :
    U8.run u8_instructions U8.a_avx2 out in_a in_a 37
    ≡ some (fill (λ j. add_sat_u 8 (in_a.cell j) (in_a.cell j)) 37 out)
u8_run_lem_example =
    U8.u8_run_lem u8_instructions U8.a_avx2 out in_a in_a 37 fit_a start_a
      (λ j h. (omega arith, omega arith))

abbrev u16_instructions : U16.Instructions
u16_instructions = record {
  mm_adds_epu16 = lanewise 8 (add_sat_u 16);
  mm256_adds_epu16 = lanewise 16 (add_sat_u 16);
  mm512_adds_epu16 = lanewise 32 (add_sat_u 16);
  vqaddq_u16 = lanewise 8 (add_sat_u 16);
  setvl = four_lanes;
  vsaddu = λ vl. lanewise vl (add_sat_u 16);
}

u16_run_lem_example :
    U16.run u16_instructions U16.a_avx2 out in_a in_a 37
    ≡ some (fill (λ j. add_sat_u 16 (in_a.cell j) (in_a.cell j)) 37 out)
u16_run_lem_example =
    U16.u16_run_lem u16_instructions U16.a_avx2 out in_a in_a 37 fit_a start_a
      (λ j h. (omega arith, omega arith))

abbrev i8_instructions : I8.Instructions
i8_instructions = record {
  mm_adds_epi8 = lanewise 16 (add_sat_i 7);
  mm256_adds_epi8 = lanewise 32 (add_sat_i 7);
  mm512_adds_epi8 = lanewise 64 (add_sat_i 7);
  vqaddq_s8 = lanewise 16 (add_sat_i 7);
  setvl = four_lanes;
  vsadd = λ vl. lanewise vl (add_sat_i 7);
}

i8_run_lem_example :
    I8.run i8_instructions I8.a_avx2 out in_a in_a 37
    ≡ some (fill (λ j. add_sat_i 7 (in_a.cell j) (in_a.cell j)) 37 out)
i8_run_lem_example =
    I8.i8_run_lem i8_instructions I8.a_avx2 out in_a in_a 37 fit_a start_a
      (λ j h. (omega arith, omega arith))

abbrev i16_instructions : I16.Instructions
i16_instructions = record {
  mm_adds_epi16 = lanewise 8 (add_sat_i 15);
  mm256_adds_epi16 = lanewise 16 (add_sat_i 15);
  mm512_adds_epi16 = lanewise 32 (add_sat_i 15);
  vqaddq_s16 = lanewise 8 (add_sat_i 15);
  setvl = four_lanes;
  vsadd = λ vl. lanewise vl (add_sat_i 15);
}

i16_run_lem_example :
    I16.run i16_instructions I16.a_avx2 out in_a in_a 37
    ≡ some (fill (λ j. add_sat_i 15 (in_a.cell j) (in_a.cell j)) 37 out)
i16_run_lem_example =
    I16.i16_run_lem i16_instructions I16.a_avx2 out in_a in_a 37 fit_a start_a
      (λ j h. (omega arith, omega arith))

-- Single points, with a saturation in each direction.
test_8i :
    (generic_8i 100 100 ≡ 127)
    × (generic_8i 0x80 0xff ≡ 0x80)
    × (generic_8i 5 0xff ≡ 4)
    × (add_sat_i 7 0x80 0xff ≡ 0x80)
    × (tail_8i 0xff 0xff ≡ 0xfe)
    × (generic_8u 200 100 ≡ 255)
unfolding generic_8i tail_8i generic_8u
test_8i = (refl, refl, refl, refl, refl, refl)
