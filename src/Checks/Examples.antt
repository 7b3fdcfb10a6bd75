-- ===== src/Checks/Examples.antt =====
-- The theorems at concrete inputs.
use nxu.Base.{
  state_of, ℕ, ◌+◌, ◌*◌, ◌%◌, ◌^◌, ◌≤◌, ◌<◌, ◌≡◌, refl, true, false, arith, List, [], ◌∷◌, take, ok,
  Returns, Returns-value, if◌then◌else◌, ◌==◌,
}
use mathlib.Core.List.{reverse}
use mathlib.Core.Logic.{◌↔◌}
use nxu.Codes
use nxu.Word.{page_size, page_up, page_up_bounds, add32}
use nxu.Range.{range, range_ok, range_contains, range_overlap}
use nxu.Range.Membership.{Within, range_contains_iff, range_overlap_iff}
use nxu.Mmu.{mmu_map, map_page, mmu_leaf, mmu_init_pool, map_rx, map_rw, map_user_rw, is_valid}
use nxu.Mmu.Tree.{Tree}
use nxu.Mmu.Walk.{view, mmu_leaf-view}
use nxu.Mmu.MapPage.{Mapped, leaf_of, map_page-Mapped}
use nxu.Mmu.MapRange.{RangeMapped, mmu_map-RangeMapped}
use nxu.Mmu.Perm.{rights, rights-leaf_of}
use nxu.Mmu.Pool.{mmu_init_pool-Tree}
use nxu.Observe.{bbox_cap, dump_records}
use nxu.Observe.History.{Call, note, failure, after, bbox_history}
use nxu.Observe.History.Kept.{Shows, after-Shows}
use nxu.Observe.Dump.{dump-after}
use nxu.World.{World, Space, word_at, log}
use nxu.Space.{space_owner}
use nxu.Space.Owner.{Best, space_owner-Best}
use nxu.Facts.{merge_ctl}
use nxu.Facts.Merge.{Merged, merge_ctl-Merged}
use nxu.Room.{Event, store, sync, interval, pulse, consume, user_open, inside}
use nxu.Room.Pulse.{Pulsed, pulse-Pulsed, pulse-straddle}
use nxu.Room.Grant.{Consumed, consume-Consumed, start, pulsed, entered, Balance, History-Balance}
use nxu.Room.Isolation.{Confined, interval-Confined}
use nxu.Room.Open.Fence.{Entered, user_open-Fenced}
use nxu.Interrupt.{s14_freeze}
use nxu.Interrupt.Freeze.{Frozen, kernel_ready, s14_freeze-Frozen}
use nxu.Checks.Zero.{zero_space, zero_cpu}
use nxu.Checks.Kernel.{
  clear_pool, first_pool, clear_pool-Fresh, first_tree, room_tables, kernel, kernel-Placed,
  kernel-Reserved,
}

user_open-Fenced_example : Returns (λ _ w'. Entered kernel 0 w') (user_open 0 kernel)
user_open-Fenced_example =
    user_open-Fenced kernel 0 (omega arith) refl room_tables.1 kernel-Placed kernel-Reserved

-- the kernel with room 0 entered
abbrev entered_kernel : (a : Unit {0}) × (s : World) × Entered kernel 0 s
entered_kernel =
    Returns-value
      (user_open-Fenced kernel 0 (omega arith) refl room_tables.1 kernel-Placed kernel-Reserved)

-- room 0 stores into its page and into that of room 1, sends a pulse, and calls the kernel to leave
abbrev room_events : List Event
room_events = store 0x40011020 7 ∷ sync (0x15 * 2 ^ 26 + 1) 0x40011000 ∷ store 0x40013020 7 ∷ []

interval-Confined_example : Confined entered_kernel.1 0 (interval room_events entered_kernel.1)
interval-Confined_example = interval-Confined room_events entered_kernel.2.fenced

map_page-Mapped_example :
    Mapped first_tree 0x40000000 map_rx (map_page 0x40000000 map_rx first_pool)
map_page-Mapped_example = map_page-Mapped first_tree 0x40000000 map_rx

mmu_map-RangeMapped_example :
    RangeMapped first_tree 0x40010000 4 map_rw
      (mmu_map 0x40010000 (4 * page_size) map_rw first_pool)
mmu_map-RangeMapped_example =
    mmu_map-RangeMapped first_tree 0x40010000 4 map_rw refl (omega arith) (omega arith)

pulse-Pulsed_example : Returns (λ _ w'. Pulsed kernel 0x40011000 w') (pulse 0x40011000 kernel)
pulse-Pulsed_example = pulse-Pulsed kernel 0x40011000

pulse-straddle_example : Returns (λ _ w'. w'.rooms.delivered ≡ add32 0 1) (pulse 0x40011ff8 kernel)
unfolding word_at
pulse-straddle_example = pulse-straddle kernel refl (omega arith) refl refl

abbrev sent : World
sent = state_of (pulse 0x40011000 kernel)

sent_runs : pulse 0x40011000 kernel ≡ ok tt sent
unfolding pulse inside word_at log
sent_runs = refl

root_runs : consume 0 sent ≡ ok tt sent
unfolding consume
root_runs = refl

History-Balance_example : Balance 1 0 sent
unfolding inside word_at
History-Balance_example =
    History-Balance refl (entered 0 (pulsed 0x40011000 start sent_runs) (omega arith) root_runs)

consume-Consumed_example : Consumed kernel 1 (consume 1 kernel)
consume-Consumed_example = consume-Consumed kernel 1

abbrev calls : List Call
calls = failure 0 13 7 0 ∷ note 1 5 1 2 ∷ note 0 4 3 2 ∷ []

after-Shows_example : Shows 0 calls (after calls kernel.observe)
after-Shows_example = after-Shows 0 calls kernel.observe

dump-after_example :
    dump_records ((after calls kernel.observe).bbox 0)
    ≡ reverse (take bbox_cap (bbox_history 0 calls))
unfolding bbox_history
dump-after_example = dump-after 0 calls kernel.observe (omega arith)

mmu_leaf-view_example :
    mmu_leaf 0x40011000 room_tables.0 ≡ ok (view room_tables.0 0x40011000) room_tables.0
mmu_leaf-view_example = mmu_leaf-view room_tables.1 0x40011000

rights-leaf_of_example : rights (leaf_of 0x40011000 map_user_rw) ≡ (true, false, true, true, false)
rights-leaf_of_example = rights-leaf_of 0x40011000 map_user_rw

mmu_init_pool-Tree_example :
    Returns
      (λ _ m'. Tree m' × ((x : ℕ) → is_valid (view m' x) ≡ false))
      (mmu_init_pool 1 clear_pool)
mmu_init_pool-Tree_example = mmu_init_pool-Tree clear_pool 1 clear_pool-Fresh

-- the memory of the machine and the image in it
abbrev two_regions : Space
two_regions = record zero_space {
  count = 2;
  region = λ i.
      if i == 0
      then record { range = range 0x40000000 0x8000000; owner = Codes.owner_nxu }
      else record { range = range 0x40000000 0x10000; owner = Codes.owner_image };
}

two_regions_words : (k : ℕ) → (two_regions.region k).range.size < 2 ^ 64
two_regions_words k = ground arith

space_owner-Best_example :
    (b : ℕ) × Best two_regions.region 0x40000000 0x1000 2
      (b, space_owner two_regions 0x40000000 0x1000)
space_owner-Best_example = space_owner-Best two_regions 0x40000000 0x1000 two_regions_words

merge_ctl-Merged_example :
    Merged
      (λ c f. record f { gicd = c })
      kernel
      (range 0x08000000 0x10000)
      (range 0x08000000 0x10000)
      Codes.ctl_gicd
      true
      true
      true
      (merge_ctl
        (λ c f. record f { gicd = c })
        (range 0x08000000 0x10000)
        true
        (range 0x08000000 0x10000)
        true
        Codes.ctl_gicd
        true
        kernel)
merge_ctl-Merged_example =
    merge_ctl-Merged (λ c f. record f { gicd = c }) kernel (range 0x08000000 0x10000)
      (range 0x08000000 0x10000) Codes.ctl_gicd true true true

range_contains_iff_example : (range_contains 0x40000000 0x8000000 0x40010000 0x4000 ≡ true) ↔ (
    (range_ok 0x40000000 0x8000000 ≡ true)
    × (range_ok 0x40010000 0x4000 ≡ true)
    × ((x : ℕ) → Within 0x40010000 0x4000 x → Within 0x40000000 0x8000000 x))
range_contains_iff_example =
    range_contains_iff 0x40000000 0x8000000 0x40010000 0x4000 (omega arith) (omega arith)
      (omega arith) (omega arith)

range_overlap_iff_example :
    (range_overlap 0x1000 0x2000 0x2000 0x2000 ≡ true)
    ↔ ((x : ℕ) × Within 0x1000 0x2000 x × Within 0x2000 0x2000 x)
unfolding range_ok
range_overlap_iff_example =
    range_overlap_iff 0x1000 0x2000 0x2000 0x2000 (omega arith) (omega arith) (omega arith)
      (omega arith) refl refl

page_up_bounds_example :
    (0x40000123 ≤ page_up 0x40000123)
    × (page_up 0x40000123 < 0x40000123 + page_size)
    × (page_up 0x40000123 % page_size ≡ 0)
page_up_bounds_example = page_up_bounds 0x40000123 (omega arith)

-- a state that is ready for the rooms: one CPU, online, in the kernel's translation
abbrev ready_kernel : World
ready_kernel = record kernel {
  intake = record (kernel.intake) { currentel = 4 };
  space = record (kernel.space) { armed = true };
  cpu = λ _. record zero_cpu {
    state = Codes.cpu_online;
    ctx = record (zero_cpu.ctx) { life = Codes.ctx_running; el = 1; ttbr = kernel.mmu.ttbr0 };
  };
}

s14_freeze-Frozen_example :
    Frozen ready_kernel (kernel_ready ready_kernel) (s14_freeze ready_kernel)
s14_freeze-Frozen_example = s14_freeze-Frozen ready_kernel
