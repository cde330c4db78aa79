-- ===== src/Lib.antt =====
-- A model of parts of a graphics driver for Intel Gen5 on Haiku, with theorems about it.
--
-- Modelled are the CPU side of its video decoder, the ways to submit work to the GPU, and the
-- buffer objects:
--   * Mpeg2: intel_extreme/accelerant/mpeg2_parser.cpp. Mpeg2.Bits is the bit reader
--     (mpeg2_bits), Mpeg2.StartCode the scanners mpeg2_find_start_code and
--     mpeg2_resync_to_next_slice, Mpeg2.Vlc the code tables, Mpeg2.Ac the coefficient decoders
--     decode_ac_coeff_b14 and _b15, Mpeg2.Dc the DC decoders, Mpeg2.Headers
--     mpeg2_parse_sequence_header and the quantiser scale, Mpeg2.Block the block decoders
--     decode_intra_block and decode_non_intra_block over the orders of Mpeg2.ScanOrder,
--     Mpeg2.Motion decode_motion_vector, Mpeg2.Pattern decode_coded_block_pattern and
--     decode_macroblock_type_i, _p and _b, Mpeg2.Picture the headers of pictures and slices,
--     Mpeg2.Address decode_macroblock_address_increment, and Mpeg2.Macroblock the decoders
--     mpeg2_decode_intra_macroblock, _p_ and _b_, composed of the parts before. A decoder is a
--     function of the reader that returns the reader behind the code; its C error values are constructors or `none`.
--   * GpuRing: intel_extreme/accelerant/gpu_ring.cpp, the submission layer over the ring
--     buffer. `GpuRing.GpuRing` is struct gpu_ring, and there is one function for each of
--     gpu_ring_init, _begin, _emit, _advance, _submit and _wait_idle.
--   * Gem: intel_gfx_server/GemManager.cpp. Gem.Buffers is the table of buffer objects,
--     Gem.Ring the helpers of the shared ring buffer, Gem.Exec the submissions ExecCommands and
--     ExecBatch.
--   * Gem2d: intel_extreme/accelerant/gem2d.cpp, the 2D commands that go to the kernel in two
--     batch buffers in turns. There is one function for each of gem2d_init, _uninit, _begin,
--     _end, _add, _wait_idle and _available; Gem2d.Refine has the specification.
--   * Engine: intel_extreme/accelerant/engine.cpp, the classes QueueCommands, over the ring
--     that the accelerant shares with the GPU, and BatchCommands, whose destructor has the
--     ring start the batch.
--     Engine.Draw has the drawing operations intel_screen_to_screen_blit, _fill_rectangle,
--     _invert_rectangle and _fill_span, through gem2d and, where that is off, on the ring; the
--     fills are those with the render engine off. Engine.Idle is intel_wait_engine_idle.
--   * GpuBo: intel_extreme/accelerant/gpu_bo.cpp, the named buffer objects of the media
--     pipeline with the table of live ones.
--
-- Prelude has the Boolean tests, lists, integers, bit operations and mapped memories that the
-- parts share.
--
-- State and environment. Machine integers are natural numbers with the wrap-around of their
-- width written out. In GpuRing and Gem a ring's memory is the list of its 32-bit words; in Engine
-- it is, as a map or a machine's memory is everywhere, a function from addresses to bytes. The
-- registers that the GPU moves, the kernel's answers to ioctls and the time are arguments: a loop that waits is
-- given the values it reads before its deadline, and their end is the time-out. Locks are held over a whole operation and are not in
-- the state.
--
-- Fuel. read_loop takes the number of bits, since each round takes one at least; find_loop and
-- resync_loop take the size of the buffer, since each round moves on by a byte; the loops of
-- the blocks take 64, since each round moves on by a coefficient; extra_loop and address_loop take
-- the bits of the buffer, since each round moves on by nine or eleven bits and none goes on behind
-- the end of the buffer; chunks takes the number of spans, since a chunk has one at least. The
-- other loops count down or go through a list.
--
-- Not modelled: the lock of the engine and the set-up of its batch buffer, assertions (the model is
-- of a build without them), the rest of the accelerant and the drivers beside it, logging, the opening of devices and areas, cache flushes, register set-up, GPU
-- kernels, mode setting, audio and the assembler that the repository has a copy of.
pub mod Prelude
pub mod Mpeg2
pub mod GpuRing
pub mod Gem
pub mod Gem2d
pub mod Engine
pub mod GpuBo
