-- ===== src/Schedule/Scheduler/Tests.antt =====
-- The scheduler on three kernels.
use my_nn_engine.Prelude.{
  ◌≤◌, All, Any, ℕ, Option, zero, suc, ◌<◌, ◌≡◌, refl, Bool, true, false, List, [], ◌∷◌, none, some,
  arith, replicate, take, drop, get_elem?, ap, ◌++◌, ◌↔◌,
}
use my_nn_engine.Schedule.Ir.{KernelId, cpu, cuda, AllocPlace, Step, ExecutionPlan}
use my_nn_engine.Schedule.Deps
use my_nn_engine.Schedule.Aliases.{first_pair, alias_loop, seed, passthrough, output_aliases}
use my_nn_engine.Schedule.Alloc.{
  chunk_tier, new_chunks, take_chunk, mark_as_first_use, release_if_dead, alloc, free, add_uses,
  new_arena, consume, align_up,
}
use my_nn_engine.Schedule.Deps.{
  Deps, lookup, count_use, link, insert_at, produce, produce_all, link_all, link_inputs,
}
use my_nn_engine.Graph.Operator.{relu}
use my_nn_engine.Schedule.Kernels.{opaque, Schedule, contains, must_in_place_input, value_byte_size}
use my_nn_engine.Schedule.Layout.{layout_chunks, layout, layout_arenas}
use my_nn_engine.Schedule.Order.{Run, start, zeros_from, advance}
use my_nn_engine.Schedule.Order.Pick.{score, freed, pick_best, best_of, added}
use my_nn_engine.Schedule.Placement.{Placement, device_of}
use my_nn_engine.Schedule.Scheduler.{
  Fixed, Scheduler, KernelInfo, wait_step, arena_for, streams_of, pick_stream, alloc_chunk,
  fresh_event, mark_place, tiers_of, latest_of, new,
}
use my_nn_engine.Schedule.Order.Topological.{preds_of}
use my_nn_engine.Schedule.Scheduler.Trace.{recorded, before, Follows}
use my_nn_engine.Schedule.Scheduler.Sound.{IsSynced}
use my_nn_engine.Schedule.Scheduler.Run.{
  run_loop-ends, run_loop-refines, run_loop-IsSynced, run_loop_complete,
}
use my_nn_engine.Schedule.Scheduler.Ending.{Rounds, Stops}
use my_nn_engine.Schedule.Scheduler.Delivery.{is_elsewhere, IsDelivery, DeliversOne}
use my_nn_engine.Schedule.Scheduler.Finish.Planned.{build-Follows, finalize_outputs-delivers}
use my_nn_engine.Schedule.Scheduler.Bind.{
  bind_input, must_in_place_place, post_transfer, bind_outputs, bind_output, aliased_input,
  bind_kernel, bind_inputs, input_place, is_workspace, output_place, place_in_chunk,
  try_in_place_identity,
}
use my_nn_engine.Schedule.Scheduler.OnTier.{
  is_launch_argument, transfer_to, reuse, needs_transfer, ensure_value_on_tier,
}
use my_nn_engine.Schedule.Scheduler.Plan.{
  finalize_loop, sort_events, run, build, into_plan, deliver, finalize_output, finalize_outputs,
  delivered, producer_context,
}
use my_nn_engine.Schedule.Scheduler.Round.{
  enter_kernel, advance_order, wait_for, schedule_next, kernel_step, schedule_kernel, use_all,
  run_loop, wait_all, schedule_entered, post_all,
}
use my_nn_engine.Tensor.Types.{float, f32, storage_num_elements}

-- Two kernels on the GPU that read an input each, and one on the host that reads their values. The
-- second output is an initializer.
abbrev sample : Schedule
sample = record {
  inputs = 0 ∷ 1 ∷ [];
  outputs = 4 ∷ 5 ∷ [];
  initializers = 5 ∷ [];
  session_states = [];
  kernels =
      record { inputs = some 0 ∷ []; outputs = 2 ∷ []; body = opaque relu }
      ∷ record { inputs = some 1 ∷ []; outputs = 3 ∷ []; body = opaque relu }
      ∷ record { inputs = some 2 ∷ some 3 ∷ []; outputs = 4 ∷ []; body = opaque relu }
      ∷ [];
  types = replicate 6 (some (record { elem_type = float f32; dims = 10 ∷ []; stride = 1 ∷ [] }));
}

abbrev sample_placement : Placement
sample_placement = cuda ∷ cuda ∷ cpu ∷ []

abbrev sample_deps : Deps
sample_deps = record {
  value2producer = (4, 2) ∷ (3, 1) ∷ (2, 0) ∷ [];
  value_uses_count = (0, 1) ∷ (1, 1) ∷ (2, 1) ∷ (3, 1) ∷ [];
  kernel_preds = [] ∷ [] ∷ (1 ∷ 0 ∷ []) ∷ [];
  kernel_consumers = (2 ∷ []) ∷ (2 ∷ []) ∷ [] ∷ [];
}

abbrev sample_fixed : Fixed
sample_fixed = record {
  schedule = sample;
  deps = sample_deps;
  output_alias = (5, 5) ∷ (4, 4) ∷ [];
  placement = sample_placement;
  session_state_tier = [];
  num_streams = 2;
}

abbrev sample_start : Scheduler
sample_start = record {
  allocator = record { arena2chunks = []; all_chunks = [] };
  value_on_tier = [];
  next_event_id = 0;
  value2place =
      (1, AllocPlace.input 1) ∷ (0, AllocPlace.input 0) ∷ (5, AllocPlace.initializer 5) ∷ [];
  value_remaining_uses = (0, 1) ∷ (1, 1) ∷ (2, 1) ∷ (3, 1) ∷ [];
  order = record { kernel_pending = 0 ∷ 0 ∷ 2 ∷ []; ready = 0 ∷ 1 ∷ [] };
  kernel_info = [];
  stream_load = 0 ∷ 0 ∷ [];
  steps = [];
}

sample-new : new sample 2 sample_placement ≡ some (sample_fixed, sample_start)
unfolding new Deps.new link_all link_inputs link insert_at count_use produce_all produce
    output_aliases alias_loop passthrough first_pair seed tiers_of streams_of start zeros_from
sample-new = refl

-- What a call returns, or a default.
abbrev result_of : {A : Type 0} → A → Option A → A
result_of a none = a
result_of a (some b) = b

abbrev is_some : {A : Type 0} → Option A → Bool
is_some none = false
is_some (some b) = true

is_some-result_of :
    {A : Type 0} (a : A) (o : Option A) → is_some o ≡ true → o ≡ some (result_of a o)
is_some-result_of a none h = cc
is_some-result_of a (some b) h = refl

abbrev sample_end : Scheduler
sample_end = result_of sample_start (run_loop 4 sample_fixed sample_start)

sample-run_loop : run_loop 4 sample_fixed sample_start ≡ some sample_end
unfolding run_loop pick_best best_of score added freed value_byte_size storage_num_elements
    schedule_next schedule_kernel schedule_entered pick_stream latest_of fresh_event enter_kernel
    wait_all wait_for bind_kernel bind_inputs bind_input input_place is_workspace place_in_chunk
    mark_place alloc_chunk arena_for alloc take_chunk new_arena new_chunks ensure_value_on_tier
    needs_transfer is_launch_argument transfer_to chunk_tier mark_as_first_use add_uses consume free
    release_if_dead reuse try_in_place_identity aliased_input must_in_place_place
    must_in_place_input bind_outputs bind_output output_place post_transfer kernel_step post_all
    use_all advance_order advance device_of
sample-run_loop = is_some-result_of sample_start (run_loop 4 sample_fixed sample_start) refl

abbrev no_plan : ExecutionPlan
no_plan = record { steps = []; chunks = []; arenas = []; events = []; stream_count = 0 }

abbrev sample_plan : ExecutionPlan
sample_plan = result_of no_plan (build sample 2 sample_placement)

sample-build : build sample 2 sample_placement ≡ some sample_plan
unfolding build run into_plan layout layout_arenas layout_chunks align_up sort_events
    finalize_outputs finalize_loop finalize_output deliver producer_context delivered run_loop
    pick_best best_of score added freed value_byte_size storage_num_elements schedule_next
    schedule_kernel schedule_entered pick_stream latest_of fresh_event enter_kernel wait_all
    wait_for bind_kernel bind_inputs bind_input input_place is_workspace place_in_chunk mark_place
    alloc_chunk arena_for alloc take_chunk new_arena new_chunks ensure_value_on_tier needs_transfer
    is_launch_argument transfer_to chunk_tier mark_as_first_use add_uses consume free
    release_if_dead reuse try_in_place_identity aliased_input must_in_place_place
    must_in_place_input bind_outputs bind_output output_place post_transfer kernel_step post_all
    use_all advance_order advance device_of new Deps.new link_all link_inputs link insert_at
    count_use produce_all produce output_aliases alias_loop passthrough first_pair seed tiers_of
    streams_of start zeros_from
sample-build = is_some-result_of no_plan (build sample 2 sample_placement) refl

-- The plan up to the wait of the third kernel's stream, and from there on.
abbrev first_steps : List Step
first_steps = take 4 sample_plan.steps

abbrev last_steps : List Step
last_steps = drop 5 sample_plan.steps

sample_wait : get_elem? sample_plan.steps 4 ≡ some (wait_step cpu 1 0)
unfolding build run into_plan layout layout_arenas layout_chunks align_up sort_events
    finalize_outputs finalize_loop finalize_output deliver producer_context delivered run_loop
    pick_best best_of score added freed value_byte_size storage_num_elements schedule_next
    schedule_kernel schedule_entered pick_stream latest_of fresh_event enter_kernel wait_all
    wait_for bind_kernel bind_inputs bind_input input_place is_workspace place_in_chunk mark_place
    alloc_chunk arena_for alloc take_chunk new_arena new_chunks ensure_value_on_tier needs_transfer
    is_launch_argument transfer_to chunk_tier mark_as_first_use add_uses consume free
    release_if_dead reuse try_in_place_identity aliased_input must_in_place_place
    must_in_place_input bind_outputs bind_output output_place post_transfer kernel_step post_all
    use_all advance_order advance device_of new Deps.new link_all link_inputs link insert_at
    count_use produce_all produce output_aliases alias_loop passthrough first_pair seed tiers_of
    streams_of start zeros_from
sample_wait = refl

get_elem?-split :
    {A : Type 0} (xs : List A) (i : ℕ) (x : A)
    → get_elem? xs i ≡ some x
    → xs ≡ take i xs ++ x ∷ drop (suc i) xs
get_elem?-split [] i x e = cc
get_elem?-split (y ∷ xs) zero x e = let same : y ≡ x = cc in ap (λ z. z ∷ xs) same
get_elem?-split (y ∷ xs) (suc i) x e = ap (λ l. y ∷ l) (get_elem?-split xs i x e)

build-Follows_example : Follows sample_plan.stream_count (wait_step cpu 1 0) first_steps
build-Follows_example =
    build-Follows sample 2 sample_placement sample_plan first_steps last_steps (wait_step cpu 1 0)
      sample-build (get_elem?-split sample_plan.steps 4 (wait_step cpu 1 0) sample_wait)

run_loop-ends_example :
    ((n : ℕ) (u : Scheduler) → Rounds sample_fixed n sample_start u → n ≤ 3)
    × Stops sample_fixed 9 sample_start
    × (run_loop 9 sample_fixed sample_start ≡ run_loop 4 sample_fixed sample_start)
run_loop-ends_example =
    run_loop-ends sample 2 sample_placement sample_fixed sample_start sample-new 9 (omega arith)

run_loop-refines_example :
    (done : List KernelId) × Run sample_deps done sample_end.order
    × (sample_end.order.ready ≡ [])
    × ((k : KernelId)
        → (contains done k ≡ true)
          ↔ ((info : KernelInfo) × (lookup k sample_end.kernel_info ≡ some info)))
run_loop-refines_example =
    run_loop-refines sample 2 sample_placement sample_fixed sample_start sample-new 4 sample_end
      sample-run_loop

-- The third kernel, on the second stream, and the first kernel, on the first stream.
abbrev third : KernelInfo
third = record { order = 2; stream = 1; event = 4; device = cpu }

abbrev first : KernelInfo
first = record { order = 0; stream = 0; event = 0; device = cuda }

sample-third : lookup 2 sample_end.kernel_info ≡ some third
unfolding run_loop pick_best best_of score added freed value_byte_size storage_num_elements
    schedule_next schedule_kernel schedule_entered pick_stream latest_of fresh_event enter_kernel
    wait_all wait_for bind_kernel bind_inputs bind_input input_place is_workspace place_in_chunk
    mark_place alloc_chunk arena_for alloc take_chunk new_arena new_chunks ensure_value_on_tier
    needs_transfer is_launch_argument transfer_to chunk_tier mark_as_first_use add_uses consume free
    release_if_dead reuse try_in_place_identity aliased_input must_in_place_place
    must_in_place_input bind_outputs bind_output output_place post_transfer kernel_step post_all
    use_all advance_order advance device_of
sample-third = refl

sample-first : lookup 0 sample_end.kernel_info ≡ some first
unfolding run_loop pick_best best_of score added freed value_byte_size storage_num_elements
    schedule_next schedule_kernel schedule_entered pick_stream latest_of fresh_event enter_kernel
    wait_all wait_for bind_kernel bind_inputs bind_input input_place is_workspace place_in_chunk
    mark_place alloc_chunk arena_for alloc take_chunk new_arena new_chunks ensure_value_on_tier
    needs_transfer is_launch_argument transfer_to chunk_tier mark_as_first_use add_uses consume free
    release_if_dead reuse try_in_place_identity aliased_input must_in_place_place
    must_in_place_input bind_outputs bind_output output_place post_transfer kernel_step post_all
    use_all advance_order advance device_of
sample-first = refl

run_loop-IsSynced_example : IsSynced third first (before 4 sample_end.steps)
run_loop-IsSynced_example =
    run_loop-IsSynced sample 2 sample_placement sample_fixed sample_start sample-new 4 sample_end
      sample-run_loop 2 0 third first sample-third sample-first refl

sample_falls : (i j : KernelId) → contains (preds_of sample_deps i) j ≡ true → j < i
sample_falls zero j h = cc
sample_falls (suc zero) j h = cc
sample_falls (suc (suc zero)) j h = ground arith
sample_falls (suc (suc (suc i))) j h = cc

run_loop_complete_example :
    (info : KernelInfo) × (lookup 2 sample_end.kernel_info ≡ some info)
    × (info.stream < streams_of 2 sample_placement)
    × (recorded info.event sample_end.steps ≡ true)
run_loop_complete_example =
    run_loop_complete sample 2 sample_placement sample_fixed sample_start sample-new 4 sample_end
      sample-run_loop (λ k. k) sample_falls 2 (omega arith)

finalize_outputs-delivers_example :
    (u : Scheduler) × (added : List Step) × (finalize_outputs sample_fixed sample_end ≡ some u)
    × (u.steps ≡ added ++ sample_end.steps)
    × All
        (DeliversOne sample_fixed sample_end.value2place sample_end.kernel_info
          (delivered sample_end.steps)
          sample.outputs)
        added
    × ((v : ℕ)
        → contains sample.outputs v ≡ true
        → contains (delivered sample_end.steps) v ≡ false
        → is_elsewhere v sample_end ≡ true
        → Any (IsDelivery sample_fixed sample_end.value2place sample_end.kernel_info v) added)
finalize_outputs-delivers_example =
    finalize_outputs-delivers sample 2 sample_placement sample_fixed sample_start sample_end 4
      sample-new sample-run_loop (λ k. k) sample_falls
