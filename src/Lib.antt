-- ===== src/Lib.antt =====
-- A verification library for my-nn-engine, a compiler and runtime for neural networks.
--
-- The program reads an ONNX graph, infers the type of every value, rewrites and lowers the graph
-- to kernels, schedules the kernels on devices, prints C++ or CUDA for them, and runs the result.
-- This library models the parts that decide where data lies: the tensor types of src/tensor, whose
-- strides say how a view reads its storage, and the scheduling of src/schedule, which gives every
-- value a chunk of an arena and every chunk an offset. It also models the inference of types.
--
-- Prelude: the shared names, with Prelude.Tests (Boolean tests on numbers), Prelude.Lists (lists
-- and their lengths), Prelude.Outcome (Option as the result of code that may panic),
-- Prelude.Numbers (division and products) and Prelude.Int (signed integers and their conversion to
-- usize).
--
-- Tensor: src/tensor/types.rs.
--   Tensor.Dims models ResolvedTensorDims, a vector of axis sizes.
--   Tensor.Broadcast models broadcast_shape; Tensor.Broadcast.Rule states the numpy rule.
--   Tensor.Types models the element types and ResolvedTensorType with new, broadcast, transpose,
--     is_contiguous and storage_num_elements. Tensor.Types.Layout is about row-major strides,
--     Tensor.Types.Contiguous about is_contiguous, Tensor.Types.Views about the places that a view
--     reads, Tensor.Types.Storage about the storage.
--   Tensor.Data models Tensor of src/tensor.rs, with its integers only.
--   Tensor.Reshape models try_reshape. Its outer loop runs on fuel, one round for every target axis
--     other than 1: each round pops a target axis, so that the fuel is enough. Address reads an
--     element's place off the axes, Cuts says which targets can be cut from the axes, Blocks follows
--     the loop, Places gives the strides it finds, Sound states the outcome, and
--     Overlap is about shapes where target sizes are multiplied together.
--
-- Schedule: src/schedule and src/schedule/scheduler.
--   Schedule.Ir models the types of src/schedule/ir.rs.
--   Schedule.Alloc models ChunkAllocator of src/schedule/scheduler/common.rs; its children state
--     the invariant (Counts), what an operation does to it (Effects, Lifetime, Reuse, Take).
--   Schedule.Layout models the offsets that into_plan of src/schedule/scheduler/memory_aware.rs
--     gives to the chunks; Disjoint is about one arena, Arenas about all of them.
--   Schedule.Kernels models Kernel and Schedule of src/schedule.rs, with the size of a value;
--     Arguments is about the positions of the arguments.
--   Schedule.Placement models src/schedule/placement.rs, which splits the kernels over the devices;
--     Touched and Spans follow the spans of the session states, Weights adds up the weights, Budget
--     states what resident_budget gives, Tiers relates it to the tier that the scheduler gives to a
--     session state, and Structural is about structural_kv_touch.
--   Schedule.Deps models Deps of src/schedule/scheduler/common.rs; Links is about one kernel, Sums
--     and Entries about the loops over the kernels, Complete about the whole of Deps::new.
--   Schedule.Order models the ready set of src/schedule/scheduler/memory_aware.rs, as a step relation
--     whose steps are the rounds of run: Advance is about the loop that ends a round, Topological about
--     the order of the kernels done, Runs about the invariant, Outcome about whole runs. Pick
--     models pick_best, and Growth relates its pick to the bytes that a kernel adds and frees.
--   Schedule.Aliases models output_aliases of src/schedule.rs. Its loop runs on fuel, one round for
--     each output and for each kernel that passes a value on, which is enough; Closure is about
--     one round, Settled about the whole.
--   Schedule.Scheduler models Scheduler of src/schedule/scheduler/memory_aware.rs. Its record Fixed
--     has the fields that no method changes, its record Scheduler those that change; a method takes
--     the state and returns it with its result. OnTier models ensure_value_on_tier, Bind models
--     bind_kernel, Round models schedule_kernel and the loop of run, and Plan models finalize_outputs,
--     into_plan, build and the pass. The loop of run has fuel for one round per kernel and the last
--     test, which Ending shows to be enough. Trace says what the steps record and wait for, Extends
--     how a method extends them, Sound has the invariant between two rounds with the proof that a
--     round keeps it, Beginning is about new and the pick, Ending about how often the
--     loop goes round, Run about the loop, Delivery and Finish about the outputs and the plan.
--   Schedule.Prefetch models PrefetchPolicy and select_host_resident of src/schedule/scheduler/prefetch.rs;
--     Entered is about the candidates, Budgeted about what is kept resident.
--
-- Graph: src/graph/operator.rs and the types of src/graph.rs.
--   Graph.Operator models Operator with the attributes that decide the type of a result, Graph.Geometry
--     the output_shape of Conv and of Pooling, normalize_axes, Split::split and Transpose::perm.
--     The loop of Split::split runs on fuel, one round more than the size that is split, which is
--     enough unless its step is 0; then the loop of the source does not end. Cut is about that loop.
--   Graph.Slices models collect_slices and slices; Sizes is about the sizes they give.
--   Graph.Nodes keeps the types of the values and a function for get_initializer, which can read a
--     file.
--
-- Transform: src/transform/shape.rs, whose infer_node_output gives the types of the outputs of a node.
--   Transform.Attempt has its results: a value, a TypeError, or a panic.
--   Transform.Shape models reshape and transpose; Matrix models the arms for products, attention,
--     quantization and convolution, Axes those that move, join, drop or add axes, Arms the rest, and
--     Infer the match itself. Joined is about Concat, Flags and Inserted about Squeeze after Unsqueeze,
--     Products about MatMul. Resize, NonZero and Range, which read floating-point numbers or all the
--     data of a tensor, are the parameter rest of infer_operator.
--
-- UnionFind: src/utils.rs. representative runs on fuel, the greatest rank and one more, which is enough
--   since every parent has a greater rank. Forest is about the roots and representative, Hang and Merge
--   about merge, Start about new and append.
--
-- Numbers are unbounded: a usize is a natural number, and an overflow, which takes a tensor of
-- 2 ^ 64 elements, is not modelled. An index out of range, a failed assertion, a division by zero
-- and an unwrap of nothing are the result none, or panic in Transform. A conversion between usize and
-- isize wraps. The element type of a value plays no part in its
-- strides. Not modelled: the printing of code, the ONNX reader, sessions and their foreign calls,
-- and the arithmetic on tensor data.
pub mod Prelude
pub mod Tensor
pub mod Graph
pub mod Schedule
pub mod Transform
pub mod UnionFind
