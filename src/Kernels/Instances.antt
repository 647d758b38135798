-- ===== src/Kernels/Instances.antt =====
-- Each kernel as the dispatcher sees it.
use volk.Base.{◌<◌, ◌≡◌, bit_and, bit_or}
use volk.Kernels.Interface.{X2Kernel}
use volk.Kernels.And32i
use volk.Kernels.Or32i
use volk.Kernels.AddSaturated.U8
use volk.Kernels.AddSaturated.U16
use volk.Kernels.AddSaturated.I8
use volk.Kernels.AddSaturated.I16
use volk.Kernels.AddSaturated.Points.{add_sat_u, add_sat_i}

abbrev pub and_kernel : And32i.Instructions → X2Kernel
and_kernel o = record {
  Impl = And32i.Impl;
  run = And32i.run o;
  alignment = And32i.alignment;
  impl_name = And32i.impl_name;
  unprefixed = And32i.impl_name-alignment;
  value = bit_and;
  InRange = λ x. x ≡ x;
  correct = λ i c a b n fits s h. And32i.and_run_lem o i c a b n fits s;
}

abbrev pub or_kernel : Or32i.Instructions → X2Kernel
or_kernel o = record {
  Impl = Or32i.Impl;
  run = Or32i.run o;
  alignment = Or32i.alignment;
  impl_name = Or32i.impl_name;
  unprefixed = Or32i.impl_name-alignment;
  value = bit_or;
  InRange = λ x. x ≡ x;
  correct = λ i c a b n fits s h. Or32i.or_run_lem o i c a b n fits s;
}

abbrev pub u8_kernel : U8.Instructions → X2Kernel
u8_kernel o = record {
  Impl = U8.Impl;
  run = U8.run o;
  alignment = U8.alignment;
  impl_name = U8.impl_name;
  unprefixed = U8.impl_name-alignment;
  value = add_sat_u 8;
  InRange = λ x. x < 256;
  correct = U8.u8_run_lem o;
}

abbrev pub u16_kernel : U16.Instructions → X2Kernel
u16_kernel o = record {
  Impl = U16.Impl;
  run = U16.run o;
  alignment = U16.alignment;
  impl_name = U16.impl_name;
  unprefixed = U16.impl_name-alignment;
  value = add_sat_u 16;
  InRange = λ x. x < 65536;
  correct = U16.u16_run_lem o;
}

abbrev pub i8_kernel : I8.Instructions → X2Kernel
i8_kernel o = record {
  Impl = I8.Impl;
  run = I8.run o;
  alignment = I8.alignment;
  impl_name = I8.impl_name;
  unprefixed = I8.impl_name-alignment;
  value = add_sat_i 7;
  InRange = λ x. x < 256;
  correct = I8.i8_run_lem o;
}

abbrev pub i16_kernel : I16.Instructions → X2Kernel
i16_kernel o = record {
  Impl = I16.Impl;
  run = I16.run o;
  alignment = I16.alignment;
  impl_name = I16.impl_name;
  unprefixed = I16.impl_name-alignment;
  value = add_sat_i 15;
  InRange = λ x. x < 65536;
  correct = I16.i16_run_lem o;
}
