-- ===== src/Lib.antt =====
-- VOLK, the Vector-Optimized Library of Kernels, modelled from its C sources.
--
-- A kernel is a function on arrays of which the library holds several implementations: one in plain C
-- (`generic`) and others for the vector instructions of a processor. The build compiles them into
-- machines, tables of the implementations that a set of architectures can run. The first call of a
-- kernel chooses the machine that suits the processor, ranks the kernel's implementations in its table,
-- once for aligned and once for unaligned arguments, and sets the kernel's function pointers; from then
-- on the dispatcher looks at the addresses of the arguments and calls one of the two. Arrays that meet
-- the machine's alignment come from `volk_malloc`.
--
-- The parts, with the files that they model:
--   Memory           arrays with their address and size, the reads and writes of C code, and the loads and
--                    stores of vectors. An access out of bounds, or an aligned access at an address that
--                    is not a multiple of the vector's size, is `none`. The cells of an array hold the bit
--                    patterns of its elements.
--   Simd             the loop shapes that the kernels of kernels/volk share: whole vectors with a scalar
--                    rest, two vectors a round (neonv8), and the vector length of RISC-V. Simd itself
--                    has those with two inputs, Simd/Unary those with one, and Simd/Reshape those that
--                    pack two vectors into one or split one into two. An instruction is a parameter,
--                    bound by what its manual says of each lane.
--   Kernels          each function of a file of kernels/volk under its name in C. And32i and Or32i are
--                    volk_32i_x2_and_32i.h and …_or_32i.h, AddSaturated volk_8u_x2_add_saturated_8u.h
--                    and the files for 16u, 8i and 16i. Floats has the kernels with two real inputs in a
--                    file each (Add32 is volk_32f_x2_add_32f.h); C's arithmetic, with its rounding, is a
--                    parameter, and the comparisons of maxima and minima are those of IEEE 754.
--                    Interface says what the dispatcher needs of a kernel with two inputs, the names of
--                    the implementations included, in which gen/volk_kernel_defs.py looks for "a_";
--                    Instances gives it for the first six, and Floats/All for the ten of Floats. Unary
--                    is volk_32f_s32f_multiply_32f.h, volk_32f_s32f_add_32f.h and volk_32f_sqrt_32f.h,
--                    Slicer volk_32f_binary_slicer_32i.h, and Convert volk_8i_convert_16i.h (Widen) and
--                    volk_16i_convert_8i.h (Narrow). The generic implementations of volk_16u_byteswap.h
--                    and volk_32u_byteswap.h are Byteswap, those of volk_32u_popcnt.h and
--                    volk_64u_popcnt.h Popcnt, those of volk_32f_index_max_32u.h and the three files
--                    like it IndexBest, and the methods in plain C of volk_32u_reverse_32u.h Reverse.
--                    Polar is the generic implementations of volk_8u_x2_encodeframepolar_8u.h and
--                    volk_8u_x3_encodepolar_8u_x2.h: Transform states the polar transform, Stage,
--                    Pending, Frame and Encode are about the stages of the encoder, Interleave about its
--                    input.
--   Dispatch         RankArchs is lib/volk_rank_archs.c (Decided is about the order of its
--                    criteria); Cpu is tmpl/volk_cpu.tmpl.c; Machine and Kernel are
--                    tmpl/volk_dynamic_dispatch.tmpl.c, the first for `get_machine` and the functions
--                    beside it (Answers is about `volk_get_alignment`), the second for what the build
--                    repeats for each kernel; X2 joins it with the table of tmpl/volk_machine_xxx.tmpl.c
--                    and the kernels.
--   Malloc           lib/volk_malloc.c; the C library's allocators are a parameter.
--   Prefs            lib/volk_prefs.c; the environment, the file system and the size of the caller's buffer
--                    are parameters. Path, Words, Printed and Overflow are about the search for the file,
--                    its lines, and words that are too long.
--   Base             what these share: bits, bytes, integers, lists, C strings, C's comparisons of numbers of
--                    single and double precision.
--   Tests            runs at concrete inputs.
--
-- State is passed explicitly: the static variables of a C file are a record (Statics, Loaded, World), and
-- an operation returns the record after it. Words are natural numbers with the wrap-around written out;
-- signed values are read off their bit patterns. `volk_get_index` calls itself once at most, so that it
-- runs on two calls, and the loop of RISC-V takes at least one point a round, so that it runs on as many
-- rounds as there are points. The arrays of a call are taken as distinct.
--
-- Not modelled: most kernels on floating-point numbers, whose results depend on the order of rounding;
-- of some kernels the implementations that shuffle vectors, which the files name; code in assembler and
-- Orc (generated or not C); the profiling and configuration programs in apps, the tests, the generators in
-- gen, and the processor's features, which the cpu_features library reports. The machine's tables are taken
-- as the templates write them, and kernels with a dispatcher of their own are left out. So are what the
-- functions print, and data races on the static variables.
pub mod Base
pub mod Memory
pub mod Simd
pub mod Kernels
pub mod Dispatch
pub mod Malloc
pub mod Prefs
pub mod Tests
