-- ===== src/Signals/Redist.antt =====
-- `nxu_s10_gic` of foundation/signal/signal.c: the redistributor frame of each CPU.
pub mod Stage
use nxu.Base.{
  ℕ, zero, suc, ◌+◌, ◌*◌, ◌/◌, ◌%◌, ◌^◌, ◌≤◌, ◌<◌, ◌≡◌, ◌≢◌, ◌⊎◌, inl, inr, refl, Bool, true, false,
  List, ◌∷◌, pure, ◌==◌, ◌!=◌, arith, Bool-cases, eq_of_==, ne_of_==, subst, sym, ap, ◌∙◌, update,
  Cmd, ◌>>◌, when, for_range, MayHalt, goes_on, halts, MayHalt-and_then, MayHalt-stop, MayHalt-when,
  MayHalt-mono, eq_or_lt,
}
use nxu.Codes
use nxu.Hardware.{Access, Machine, load64}
use nxu.Word.{add64, u64_mod}
use nxu.Boot.{control_el}
use nxu.Silicon.Gic.{
  gic_r32, gic_w32, gic_r64, gic_icc_sre_el1, gic_icc_pmr, gic_icc_bpr, gic_icc_igrpen, gicd_enable,
  sync_loop, gicr_frame_sync, wake_loop, clear_sleep, gicr_wake, gicr_typer, gicd_iidr, gicd_typer,
}
use nxu.World.Halting.{guard-keeps}
use nxu.World.{World, Cpu, ask, tell, put, log, log3, fail, fail_with}
use nxu.Signals.{
  gicr_stride, typer_affinity, match_loop, note_redist, redist, redist_loop, check_redist,
  enable_interface, enable_gic, observe_gicd, s10_gic,
}

-- the frame `k` of a region
abbrev pub frame_at : ℕ → ℕ → ℕ
frame_at base k = add64 base (k * gicr_stride)

-- `g` is a frame of the first `n` from `base`, and the machine has answered the affinity of the CPU `i`
-- when its GICR_TYPER was read
abbrev pub Frame : World → ℕ → ℕ → ℕ → ℕ → Type 0
Frame w base n i g =
    (k : ℕ) × (k < n)
    × (g ≡ frame_at base k)
    × ((past : List Access) × (w.machine past (load64 (add64 g 0x08)) / 2 ^ 32 % 2 ^ 32
          ≡ typer_affinity (w.cpu i).mpidr))

next_frame : (base k : ℕ) → add64 (frame_at base k) gicr_stride ≡ frame_at base (k + 1)
next_frame base k = omega arith

module _ (w : World) (base n : ℕ) where
  -- what the scan keeps: each CPU has the frame that it had, or one of its own
  pub record Keeps (m : Machine) (present : ℕ) (cpu : ℕ → Cpu) : Type 0 where
    pub machine : m ≡ w.machine
    pub count : present ≡ w.cpu_present_count
    pub mpidr : (i : ℕ) → (cpu i).mpidr ≡ (w.cpu i).mpidr
    pub gicr : (i : ℕ) → ((cpu i).gicr ≡ (w.cpu i).gicr) ⊎ Frame w base n i (cpu i).gicr

  abbrev pub Kept : World → Type 0
  Kept u = Keeps u.machine u.cpu_present_count u.cpu

  given :
      (i gicr : ℕ) (m : Machine) (present : ℕ) (cpu : ℕ → Cpu)
      → Keeps m present cpu
      → Frame w base n i gicr
      → Keeps m present (update cpu i (record (cpu i) { gicr = gicr }))
  given i gicr m present cpu k own = record {
    machine = k.machine;
    count = k.count;
    mpidr = λ j. elim (Bool-cases (j == i)) [
      | inl e ↦ rw e (k.mpidr i ∙ ap (λ x. (w.cpu x).mpidr) (sym (eq_of_== j i e)))
      | inr e ↦ rw e (k.mpidr j)
    ];
    gicr = λ j. elim (Bool-cases (j == i)) [
      | inl e ↦ rw e (inr (subst (λ x. Frame w base n x gicr) (sym (eq_of_== j i e)) own))
      | inr e ↦ rw e (k.gicr j)
    ];
  }

  match_loop-Kept :
      (rounds i gicr aff : ℕ) (found : Bool) (u : World)
      → Kept u
      → ((j : ℕ) → typer_affinity (w.cpu j).mpidr ≡ aff → Frame w base n j gicr)
      → MayHalt (λ _. Kept) (match_loop rounds i gicr aff found u)
  unfolding match_loop log3
  match_loop-Kept zero i gicr aff found u k f = goes_on k
  match_loop-Kept (suc rounds) i gicr aff found u k f =
      elim (Bool-cases (typer_affinity (u.cpu i).mpidr == aff)) [
        | inr e ↦ rw e (match_loop-Kept rounds (i + 1) gicr aff found u k f)
        | inl e ↦ rw e (
            match_loop-Kept rounds (i + 1) gicr aff true _
              (given i gicr u.machine u.cpu_present_count u.cpu k
                (f i (ap typer_affinity (sym (k.mpidr i)) ∙ eq_of_== _ _ e)))
              f)
      ]

  note_redist-Kept :
      (aff : ℕ) (found : Bool) (u : World) → Kept u → MayHalt (λ _. Kept) (note_redist aff found u)
  unfolding note_redist put log3
  note_redist-Kept aff true u k = goes_on k
  note_redist-Kept aff false u k = goes_on k

  redist-Kept :
      (k : ℕ) (u : World) → Kept u → k < n → MayHalt (λ _. Kept) (redist (frame_at base k) u)
  unfolding redist gicr_typer gic_r64 ask
  redist-Kept k u kept h =
      let gicr = frame_at base k in
      let asked = load64 (add64 gicr 0x08) in
      let t = u.machine u.trace asked in
      let aff = t / 2 ^ 32 % 2 ^ 32 in
      let last = t / 2 ^ 4 % 2 == 1 in
      MayHalt-and_then {k = λ found. note_redist aff found >> pure (last, found)}
        (match_loop-Kept u.cpu_present_count 0 gicr aff false (record u { trace = asked ∷ u.trace })
          kept
          (λ j e. (
            k,
            h,
            refl,
            (u.trace, ap (λ m. m u.trace asked / 2 ^ 32 % 2 ^ 32) (sym kept.machine) ∙ sym e),
          )))
        (λ found v q.
          MayHalt-and_then {k = λ _. pure (last, found)} (note_redist-Kept aff found v q)
            (λ _ t p. goes_on p))

  pub redist_loop-Kept :
      (left k nrd : ℕ) (u : World)
      → Kept u
      → k + left ≡ n
      → MayHalt (λ _. Kept) (redist_loop left (frame_at base k) nrd u)
  unfolding redist_loop fail fail_with
  redist_loop-Kept zero k nrd u kept e = MayHalt-stop (redist (frame_at base k) u) (λ _ _. halts)
  redist_loop-Kept (suc left) k nrd u kept e =
      MayHalt-and_then (redist-Kept k u kept (omega arith)) (λ (last, found) v q.
        elim (Bool-cases last) [
          | inl f ↦ rw f (goes_on q)
          | inr f ↦
              rw f (rw (next_frame base k) (redist_loop-Kept left (k + 1) _ v q (omega arith)))
        ])

-- each CPU of the range has a frame
pub check_loop-given :
    (rounds i : ℕ) (u : World)
    → MayHalt
        (λ _ v. (v ≡ u) × ((j : ℕ) → i ≤ j → j < i + rounds → (u.cpu j).gicr ≢ 0))
        (for_range rounds i check_redist u)
unfolding for_range check_redist fail fail_with
check_loop-given zero i u = goes_on (refl, λ j le lt. absurd (omega arith))
check_loop-given (suc rounds) i u = elim (Bool-cases ((u.cpu i).gicr == 0)) [
  | inl e ↦ rw e halts
  | inr e ↦ rw e (
      MayHalt-mono (check_loop-given rounds (i + 1) u) (λ _ v (same, rest). (
        same,
        λ j le lt. elim (eq_or_lt i j le) [
          | inl here ↦ subst (λ x. (u.cpu x).gicr ≢ 0) here (ne_of_== _ _ e)
          | inr past ↦ rest j (omega arith) (omega arith)
        ],
      )))
]

-- what the register accesses behind the scan leave alone
module _ (P : (ℕ → Cpu) → Type 0) where
  sync_loop-On :
      (left gicr : ℕ) (u : World) → P u.cpu → MayHalt (λ _ v. P v.cpu) (sync_loop left gicr u)
  unfolding sync_loop gic_r32 ask
  sync_loop-On zero gicr u p = goes_on p
  sync_loop-On (suc left) gicr u p =
      MayHalt-when _ (sync_loop left gicr) _ p (λ _. sync_loop-On left gicr _ p)

  wake_loop-On :
      (left gicr : ℕ) (u : World) → P u.cpu → MayHalt (λ _ v. P v.cpu) (wake_loop left gicr u)
  unfolding wake_loop gic_r32 ask
  wake_loop-On zero gicr u p = goes_on p
  wake_loop-On (suc left) gicr u p =
      MayHalt-when _ (wake_loop left gicr) _ p (λ _. wake_loop-On left gicr _ p)

  clear_sleep-On : (gicr : ℕ) (u : World) → P u.cpu → MayHalt (λ _ v. P v.cpu) (clear_sleep gicr u)
  unfolding clear_sleep gic_r32 gic_w32 ask tell
  clear_sleep-On gicr u p = goes_on p

  gicr_frame_sync-On :
      (gicr : ℕ) (u : World) → P u.cpu → MayHalt (λ _ v. P v.cpu) (gicr_frame_sync gicr u)
  unfolding gicr_frame_sync
  gicr_frame_sync-On gicr u p = sync_loop-On 100000 gicr u p

  gicr_wake-On : (gicr : ℕ) (u : World) → P u.cpu → MayHalt (λ _ v. P v.cpu) (gicr_wake gicr u)
  unfolding gicr_wake
  gicr_wake-On gicr u p =
      MayHalt-and_then {k = λ _. gicr_frame_sync gicr >> wake_loop 10000 gicr}
        (clear_sleep-On gicr u p)
        (λ _ v q.
          MayHalt-and_then {k = λ _. wake_loop 10000 gicr} (gicr_frame_sync-On gicr v q)
            (λ _ t r. wake_loop-On 10000 gicr t r))

  enable_interface-On :
      (gicd : ℕ) (u : World) → P u.cpu → MayHalt (λ _ v. P v.cpu) (enable_interface gicd u)
  unfolding enable_interface gic_icc_sre_el1 gic_icc_pmr gic_icc_bpr gic_icc_igrpen gicd_enable
      gic_w32 tell
  enable_interface-On gicd u p = elim (Bool-cases (control_el u == Codes.el1)) [
    | inl e ↦ rw e (goes_on p)
    | inr e ↦ rw e (goes_on p)
  ]

  pub enable_gic-On :
      (gicd nrd sre3 : ℕ) (u : World)
      → P u.cpu
      → MayHalt (λ _ v. P v.cpu) (enable_gic gicd nrd sre3 u)
  unfolding enable_gic put log log3
  enable_gic-On gicd nrd sre3 u p =
      MayHalt-and_then (enable_interface-On gicd u p)
        (λ _ v q. MayHalt-and_then (gicr_wake-On (v.cpu 0).gicr v q) (λ _ t r. goes_on r))
