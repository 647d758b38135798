-- ===== src/Tests/Polar.antt =====
-- The encoder of polar codes on frames of eight bits.
use volk.Base.{◌+◌, ◌*◌, ◌^◌, ◌/◌, ◌%◌, ◌≡◌, some, arith, ◌>>=◌, ◌==◌, if◌then◌else◌}
use volk.Base.Bits.{u32}
use volk.Memory.{Buf, memcpy}
use volk.Memory.Fill.{fill}
use volk.Kernels.Polar.{
  log2_of_power_of_2, encodepolar_single_stage, volk_8u_x2_encodeframepolar_8u_generic,
  volk_8u_x3_encodepolar_8u_x2_generic,
}
use volk.Kernels.Polar.Transform.{transform}
use volk.Kernels.Polar.Frame.{Ready, encodepolar_single_stage-Ready}
use volk.Kernels.Polar.Encode.{log2_lem, start_Ready, encodeframe_lem, encodeframe-encodeframe}
use volk.Kernels.Polar.Interleave.{interleaved, encodepolar_lem}
use volk.Tests.Kernels.{buf, out}

-- The bits 1, 0, 1, 0, …
abbrev bits : Buf
bits = buf 1024 (λ j. (j + 1) % 2)

-- Frozen but for every fourth.
abbrev mask : Buf
mask = buf 2048 (λ j. if j % 4 == 3 then 0 else 1)

log2_lem_example : log2_of_power_of_2 (2 ^ 7) ≡ 7
log2_lem_example = log2_lem 7 (omega arith)

encodeframe_lem_example :
    volk_8u_x2_encodeframepolar_8u_generic out bits (2 ^ 3)
    ≡ some (fill (transform 3 bits.cell) (2 ^ 3) out, fill (transform 3 bits.cell) (2 ^ 3) bits)
encodeframe_lem_example =
    encodeframe_lem 3 out bits (omega arith) (omega arith) (omega arith) (omega arith)

encodeframe-encodeframe_example :
    (volk_8u_x2_encodeframepolar_8u_generic out bits (2 ^ 3) >>= λ (frame', temp').
    volk_8u_x2_encodeframepolar_8u_generic frame' temp' (2 ^ 3))
    ≡ some (fill bits.cell (2 ^ 3) out, bits)
encodeframe-encodeframe_example =
    encodeframe-encodeframe 3 out bits (omega arith) (omega arith) (omega arith) (omega arith)

encodepolar_single_stage-Ready_example :
    (frame' : Buf) × (temp' : Buf) × (encodepolar_single_stage out bits 1 (2 ^ 3 / 2) ≡ some frame')
    × (memcpy bits frame' (2 ^ 3) ≡ some temp')
    × Ready
        (transform 3 bits.cell)
        (2 ^ 3)
        (omega arith)
        1
        (u32 (1 * 2))
        (2 ^ 3 / 2 / 2)
        frame'
        temp'
encodepolar_single_stage-Ready_example =
    encodepolar_single_stage-Ready (transform 3 bits.cell) (2 ^ 3) (omega arith) 1 1 (2 ^ 3 / 2) out
      bits (start_Ready 2 out bits (omega arith) (omega arith) (omega arith))

encodepolar_lem_example :
    (temp' : Buf) × (volk_8u_x3_encodepolar_8u_x2_generic out bits mask bits bits (2 ^ 3)
      ≡ some (fill (transform 3 (interleaved mask.cell bits.cell bits.cell)) (2 ^ 3) out, temp'))
encodepolar_lem_example =
    encodepolar_lem 3 out bits mask bits bits (omega arith) (omega arith) (omega arith)
      (omega arith) (omega arith) (omega arith) (omega arith)
