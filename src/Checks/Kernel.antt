-- ===== src/Checks/Kernel.antt =====
-- A kernel whose rooms have their pages from 0x40010000 on, with page tables in which these four pages are
-- mapped for EL1 alone.
use nxu.Base.{
  ℕ, ◌+◌, ◌*◌, ◌%◌, ◌^◌, ◌≤◌, ◌<◌, ◌≡◌, refl, true, false, none, [], arith, if◌then◌else◌, ◌==◌,
  Bool, Outcome, ap,
}
use native.Mathlib.Decide.{dec_lt}
use nxu.Word.{page_size}
use nxu.Mmu.{Mmu, map_rw}
use nxu.Mmu.Tree.{Tree}
use nxu.Mmu.Walk.{view, walk}
use nxu.Mmu.MapRange.{RangeMapped, RemapsRange, range_mapped, range_full, mmu_map-RangeMapped}
use nxu.Mmu.Perm.{el0_reads, rights-leaf_of, leaf_of-valid}
use nxu.Mmu.Pool.{Fresh, one_table}
use nxu.Observe.{chronicle_init}
use nxu.World.{World}
use nxu.Room.Open.{Page, Placed, Reserved}
use nxu.Checks.Zero.{
  zero_intake, zero_image, zero_facts, zero_dtb_cand, zero_board_facts, zero_space, zero_cpu,
  zero_signal, zero_rooms,
}

-- the pool at 0x40008000 before and after `nxu_mmu_init_pool`
abbrev pub clear_pool : Mmu
clear_pool = record {
  table = λ _ _. 0;
  used = 0;
  ttbr0 = 0;
  tcr_val = 0;
  mair_val = 0;
  pool = 0x40008000;
}

abbrev pub first_pool : Mmu
first_pool = record clear_pool { used = 1 }

pub clear_pool-Fresh : Fresh clear_pool
clear_pool-Fresh = record { aligned = refl; placed = omega arith; clear = λ _ _. refl }

pub first_tree : Tree first_pool
first_tree = one_table (record { aligned = refl; placed = omega arith; clear = λ _ _. refl }) refl

abbrev pub rooms_base : ℕ
rooms_base = 0x40010000

abbrev RoomTables : Type 0
RoomTables = (m : Mmu) × Tree m × RemapsRange first_pool m rooms_base (4 * page_size) map_rw

abbrev tables_of :
    {o : Outcome Mmu (Unit {0})} → RangeMapped first_tree rooms_base 4 map_rw o → RoomTables
tables_of (range_mapped {m'} T rm u k) = (m', T, rm)
tables_of (range_full c np few) = absurd (omega (arith, few))

-- the tables after the four pages are mapped
abbrev pub room_tables : RoomTables
room_tables =
    tables_of (mmu_map-RangeMapped first_tree rooms_base 4 map_rw refl (omega arith) (omega arith))

-- a message of room 0 to room 1 at 0x40011000, and another in the last word of that page
abbrev messages : ℕ → ℕ
messages x =
    if x == 0x40011000
    then 1
    else if x == 0x40011008
    then 0x55
    else if x == 0x40011009
    then 0x50
    else if x == 0x40011ff8
    then 1
    else if x == 0x40012000
    then 0x55
    else if x == 0x40012001
    then 0x50
    else 0

abbrev pub kernel : World
kernel = record {
  observe = chronicle_init (record {
    chronicle = λ _. record {
      next = 0;
      count = 0;
      fail_code = 0;
      fail_a = 0;
      fail_b = 0;
      fail_site = none;
      fail_valid = false;
      rec = λ _. record { seq = 0; code = 0; a = 0; b = 0 };
    };
    bbox = λ _. record {
      next = 0;
      count = 0;
      fail_code = 0;
      fail_valid = false;
      fail_a = 0;
      fail_b = 0;
      rec = λ _. record { code = 0; cpu = 0; a = 0; b = 0 };
    };
  });
  sink = record { ready = true; base = 0x09000000; output = [] };
  intake = zero_intake;
  image = zero_image;
  board = zero_board_facts;
  dtb_cand = zero_dtb_cand;
  facts = record zero_facts { timer_ppi = 30; timer_freq = 62500000 };
  space = zero_space;
  mmu = room_tables.0;
  cpu = λ _. zero_cpu;
  cpu_present_count = 1;
  cpu_present_frozen = true;
  sig_timer = zero_signal;
  sig_ipi = zero_signal;
  rooms = record zero_rooms {
    code_pa = λ i. rooms_base + i * 0x2000;
    data_pa = λ i. rooms_base + page_size + i * 0x2000;
    grant = 2;
  };
  cpu_gate = λ _. record { mpidr = 0; context = 0; ready = 0 };
  ipi_echo = 0;
  mem = messages;
  tpidr = 0;
  machine = λ _ _. 30;
  trace = [];
  site_of = λ _. record { func = []; file = []; line = 0 };
}

room-Page :
    (pa : ℕ)
    → pa % page_size ≡ 0
    → rooms_base ≤ pa
    → pa + page_size ≤ rooms_base + 4 * page_size
    → Page (view kernel.mmu) pa
room-Page pa al low high = record {
  aligned = al;
  placed = omega (arith, high);
  mapped = λ x h. rw (room_tables.2.within x (omega arith)) (leaf_of-valid x map_rw);
}

pub kernel-Placed : Placed kernel.rooms (view kernel.mmu)
kernel-Placed = record {
  code0 = room-Page rooms_base refl (omega arith) (omega arith);
  data0 = room-Page 0x40011000 refl (omega arith) (omega arith);
  code1 = room-Page 0x40012000 refl (omega arith) (omega arith);
  data1 = room-Page 0x40013000 refl (omega arith) (omega arith);
}

clash : {b : Bool} → b ≡ true → b ≡ false → ⊥
clash u v = cc

kernel_closed : (x : ℕ) → x < 2 ^ 48 → el0_reads (view kernel.mmu x) ≡ false
unfolding walk
kernel_closed x small = elim (dec_lt x rooms_base) [
  | yes h ↦ rw (room_tables.2.outside x small (λ w. omega arith)) refl
  | no h ↦ elim (dec_lt x (rooms_base + 4 * page_size)) [
    | yes k ↦ rw (room_tables.2.within x (omega arith)) (ap (λ t. t.2) (rights-leaf_of x map_rw))
    | no k ↦ rw (room_tables.2.outside x small (λ w. omega arith)) refl
  ]
]

pub kernel-Reserved : Reserved kernel.rooms (view kernel.mmu)
kernel-Reserved x small h = absurd (clash h (kernel_closed x small))
