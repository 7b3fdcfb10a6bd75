-- ===== src/Checks/Staffing.antt =====
-- The theorems on S4, S6 and S9, and on the stages from S3 to S9, at concrete inputs.
use nxu.Base.{
  [], ℕ, ◌*◌, ◌+◌, ◌≡◌, refl, arith, MayHalt, Returns, Bool, true, false, Outcome, ok, halted,
  state_of, for_range, if◌then◌else◌, ◌==◌, ◌<◌, Bool-cases, inl, inr,
}
use nxu.Range.{range, range_contains, range_eq, range_ok}
use nxu.Silicon.{timer_cntfrq, current_el}
use nxu.Facts.{
  affinity, merge_mem, merge_ctls, merge_ctl, merge_cpu, board_cpu, add_cpu_fact, boot_found,
  has_affinity,
}
use nxu.Facts.Stage.{s4_facts, merge_psci, merge_timer}
use nxu.Facts.Processors.Merge.{SourcesAreLawful}
use nxu.Facts.Settled.Stage.{FactsAreSettled, s4_facts-Settled}
use nxu.Foundation.{Outside, admit_stages}
use nxu.Foundation.Staffed.{Staffed, admit_stages-Staffed}
use nxu.Board.{fvp_base}
use nxu.Board.Apart.{fvp_base-BoardIsApart}
use nxu.World.{World, put, ask, tell, log, log3, fail, fail_with, in_mmu}
use nxu.Cpus.{s9_init}
use nxu.Cpus.Available.Stage.{Binding, s9_init-Bound}
use nxu.Mmu.Guarded.{Guarded}
use nxu.Space.{s6_mmu, map_image, map_region, mmu_enable, note_mmu, space_owner}
use nxu.Mmu.{mmu_init_pool, mmu_map, map_pages, map_page}
use nxu.Mmu.Laid.{Laid}
use nxu.Space.Plan.{InPlan}
use nxu.Space.Guarded.{s6_mmu-Planned}
use nxu.Space.Covered.{Covers, s6_mmu-Covers}
use nxu.Codes
use nxu.Checks.Zero.{zero_space, zero_intake}
use nxu.Word.{u64_mod}
use nxu.Checks.Kernel.{kernel, clear_pool, clear_pool-Fresh}

-- the kernel on the board FVP Base, without a device tree
abbrev on_fvp : World
on_fvp = record kernel { board = fvp_base }

on_fvp-Lawful : SourcesAreLawful on_fvp.dtb_cand on_fvp.board
on_fvp-Lawful = record {
  bound = omega arith;
  cand_apart = λ j k jk h. absurd (omega arith);
  board_apart = fvp_base-BoardIsApart;
}

s4_facts-Settled_example : MayHalt (λ _. FactsAreSettled on_fvp) (s4_facts on_fvp)
s4_facts-Settled_example = s4_facts-Settled on_fvp on_fvp-Lawful

-- two CPUs are present, with stacks from 0x40100000 on
abbrev two_present : World
two_present = record kernel { cpu_present_count = 2 }

abbrev stacks : ℕ → ℕ
stacks i = 0x40100000 + i * 0x10000

s9_init-Bound_example :
    Returns
      (λ _ v. Binding stacks (affinity two_present.intake.mpidr) 0 2 two_present v)
      (s9_init stacks two_present)
s9_init-Bound_example = s9_init-Bound stacks two_present

-- has the run come to its end?
abbrev comes_back : {A : Type 0} → Outcome World A → Bool
comes_back (ok a w) = true
comes_back (halted f w) = false

-- the image is at the start of the memory, and the machine answers every read with 1
abbrev loaded : World
loaded = record on_fvp {
  image = record { base = 0x80000000; size = 0x10000; text_end = 0; rodata_end = 0; data_end = 0 };
  machine = λ past a. 1;
}

s4_facts-comes_back : comes_back (s4_facts loaded) ≡ true
unfolding s4_facts merge_mem merge_ctls merge_ctl merge_psci merge_cpu merge_timer put
    range_contains range_eq for_range board_cpu timer_cntfrq add_cpu_fact boot_found ask range_ok
    has_affinity
s4_facts-comes_back = refl

s4_facts_count : (state_of (s4_facts loaded)).facts.cpu_count ≡ 8
unfolding s4_facts merge_mem merge_ctls merge_ctl merge_psci merge_cpu merge_timer put
    range_contains range_eq for_range board_cpu timer_cntfrq add_cpu_fact boot_found ask range_ok
    has_affinity
s4_facts_count = refl

-- no interrupt, no other CPU and no program of a room
abbrev nobody : Outside
nobody = record {
  link = record { image_end = 0; text_end = 0; rodata_end = 0; data_end = 0; vec_full = 0 };
  stack_of = stacks;
  sre3 = 7;
  cpu_entry = 0x40080000;
  while_timer = λ n w. w;
  while_start = λ n w. w;
  while_ipi = λ n w. w;
  blobs = record {
    fault = [];
    store = [];
    exec = [];
    steal = [];
    send = [];
    mal = [];
    pay = [];
    bad = [];
    recv = [];
    reply = [];
    spin = [];
  };
  life = λ w id n. [];
}

admit_stages-Staffed_example :
    MayHalt
      (λ ended v. ended ≡ true → Staffed nobody on_fvp.intake v)
      (admit_stages 100 nobody on_fvp)
admit_stages-Staffed_example = admit_stages-Staffed 100 nobody on_fvp fvp_base-BoardIsApart

-- an image of two pages and a UART, on a machine that is at EL1
abbrev placed : World
placed = record kernel {
  mmu = clear_pool;
  intake = record zero_intake { currentel = 4 };
  image = record {
    base = 0x40080000;
    size = 0x2000;
    text_end = 0x40081000;
    rodata_end = 0x40081000;
    data_end = 0x40082000;
  };
  space = record zero_space {
    count = 2;
    region = λ i.
        if i == 0
        then record { range = range 0x40080000 0x2000; owner = Codes.owner_image }
        else record { range = range 0x9000000 0x1000; owner = Codes.owner_mmio };
  };
  machine = λ past a. 4;
}

placed_starts : (k : ℕ) → k < 2 → (placed.space.region k).range.base < u64_mod
placed_starts k h = elim (Bool-cases (k == 0)) [
  | inl e ↦ rw e (omega arith)
  | inr e ↦ rw e (omega arith)
]

s6_mmu-Planned_example :
    MayHalt
      (λ _ v. Laid (InPlan placed.image 2 placed.space.region) v.mmu × Guarded v.mmu)
      (s6_mmu placed)
s6_mmu-Planned_example = s6_mmu-Planned placed clear_pool-Fresh (omega arith) placed_starts

s6_mmu-Covers_example : MayHalt (λ _ v. Covers placed v.mmu) (s6_mmu placed)
s6_mmu-Covers_example = s6_mmu-Covers placed clear_pool-Fresh (omega arith) placed_starts

s6_mmu-comes_back : comes_back (s6_mmu placed) ≡ true
unfolding s6_mmu current_el in_mmu mmu_init_pool map_image map_region mmu_enable note_mmu
    space_owner mmu_map map_pages map_page for_range put log log3 fail fail_with ask tell
s6_mmu-comes_back = refl
