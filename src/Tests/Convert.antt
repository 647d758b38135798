-- ===== src/Tests/Convert.antt =====
-- The conversions on arrays of forty elements, of which 37 are converted.
use volk.Base.{ℕ, ◌+◌, ◌*◌, ◌/◌, ◌≡◌, refl, some, arith, ◌>>=◌, ◌-◌, ltb, if◌then◌else◌}
use volk.Base.Bits.{u8, u16, ◌<<<◌}
use volk.Memory.{Buf}
use volk.Memory.Fill.{fill}
use volk.Simd.Reshape.{PackOp}
use volk.Kernels.Convert.Widen
use volk.Kernels.Convert.Narrow
use volk.Kernels.Convert.Inverse.{narrow-widen}
use volk.Tests.Kernels.{lanewise_1, four_lanes, buf, out}

abbrev wide : Widen.Instructions
wide = record {
  cvtepi8_epi16_256 = lanewise_1 16 Widen.sign_extended;
  slli_epi16_256 = lanewise_1 16 (λ x. u16 (x <<< 8));
  cvtepi8_epi16_512 = lanewise_1 32 Widen.sign_extended;
  slli_epi16_512 = lanewise_1 32 (λ x. u16 (x <<< 8));
  cvtepi8_epi16 = lanewise_1 8 Widen.sign_extended;
  slli_epi16 = lanewise_1 8 (λ x. u16 (x <<< 8));
  srli_si128_8 = λ x l. x (8 + l);
  srli_si128_8_lanes = λ x l h. refl;
  vmovl_s8 = lanewise_1 8 Widen.sign_extended;
  vshlq_n_s16 = lanewise_1 8 (λ x. u16 (x <<< 8));
  vshll_n_s8 = record {
    low = λ x l. Widen.widened (x l);
    high = λ x l. Widen.widened (x (8 + l));
    low_lanes = λ x l h. refl;
    high_lanes = λ x l h. refl;
  };
  setvl_e8m4 = four_lanes;
  vsext_vf2 = λ vl. lanewise_1 vl Widen.sign_extended;
  vsll_8 = λ vl. lanewise_1 vl (λ x. u16 (x <<< 8));
}

abbrev packed : (k : ℕ) (f : ℕ → ℕ) → PackOp k f
packed k f = record {
  apply = λ x y l. f (if ltb l k then x l else y (l - k));
  lanes = λ x y l h. refl;
}

abbrev slim : Narrow.Instructions
slim = record {
  srai_epi16_256 = lanewise_1 16 Narrow.srai_8;
  packs_epi16_256 = λ x y l. Narrow.saturated_8 (Narrow.packs_lane x y l);
  packs_epi16_256_lanes = λ x y l h. refl;
  permute4x64 = λ x l. x (Narrow.permute_lane l);
  permute4x64_lanes = λ x l h. refl;
  srai_epi16_512 = lanewise_1 32 Narrow.srai_8;
  cvtsepi16_epi8 = lanewise_1 32 Narrow.saturated_8;
  srai_epi16 = lanewise_1 8 Narrow.srai_8;
  packs_epi16 = packed 8 Narrow.saturated_8;
  vshrn_n_s16 = lanewise_1 8 (λ x. u8 (Narrow.srai_8 x));
  vcombine_s8 = packed 8 (λ x. x);
  setvl_e16m8 = four_lanes;
  vnsra_8 = λ vl. lanewise_1 vl (λ x. u8 (Narrow.srai_8 x));
}

abbrev bytes : Buf
bytes = buf 1024 (λ j. 100 + j)

abbrev words : Buf
words = buf 2048 (λ j. 7)

narrow-widen_example :
    (Widen.run wide Widen.a_avx512bw words bytes 37
      ≡ some (fill (λ k. bytes.cell k * 256) 37 words))
    × ((Widen.run wide Widen.a_avx512bw words bytes 37 >>= λ c'.
          Narrow.run slim Narrow.a_avx2 out c' 37)
        ≡ some (fill bytes.cell 37 out))
narrow-widen_example =
    narrow-widen wide slim Widen.a_avx512bw Narrow.a_avx2 out words bytes 37
      (record { fit_c = omega arith; fit_a = omega arith })
      (record { start_c = refl; start_a = refl })
      (record { fit_c = omega arith; fit_a = omega arith })
      (record { start_c = refl; start_a = refl }) (λ k h. omega arith)

narrow_run_lem_example :
    Narrow.run slim Narrow.a_avx2 out words 37 ≡ some (fill (λ j. words.cell j / 256) 37 out)
narrow_run_lem_example =
    Narrow.narrow_run_lem slim Narrow.a_avx2 out words 37
      (record { fit_c = omega arith; fit_a = omega arith })
      (record { start_c = refl; start_a = refl }) (λ j h. omega arith)
