-- ===== src/Signals/Redist/Stage.antt =====
-- `nxu_s10_gic` of foundation/signal/signal.c as a whole.
use nxu.Base.{
  ℕ, ◌/◌, ◌<◌, ◌≡◌, ◌≢◌, inl, inr, refl, ◌!=◌, arith, subst, sym, ◌∙◌, Cmd, ◌>>◌, when, for_range,
  MayHalt, goes_on, MayHalt-and_then, MayHalt-mono,
}
use nxu.Codes
use nxu.Word.{u64_mod}
use nxu.Silicon.Gic.{gic_r32, gicd_iidr, gicd_typer}
use nxu.World.Halting.{guard-keeps}
use nxu.World.{World, Cpu, ask, put, log, log3, fail}
use nxu.Signals.{gicr_stride, redist_loop, check_redist, enable_gic, observe_gicd, s10_gic}
use nxu.Signals.Redist.{frame_at, Frame, Kept, redist_loop-Kept, check_loop-given, enable_gic-On}

-- the result of S10
abbrev pub HasFrames : World → ℕ → (ℕ → Cpu) → Type 0
HasFrames w count cpu =
    (i : ℕ)
    → i < count
    → Frame w w.facts.gicr.range.base (w.facts.gicr.range.size / gicr_stride) i (cpu i).gicr

observe_gicd-Kept :
    (w : World) (base n gicd : ℕ) → MayHalt (λ _. Kept w base n) (observe_gicd gicd w)
unfolding observe_gicd gicd_iidr gicd_typer gic_r32 ask put log log3
observe_gicd-Kept w base n gicd =
    goes_on (record { machine = refl; count = refl; mpidr = λ i. refl; gicr = λ i. inl refl })

-- a frame that is not 0 was found by the scan
was_found :
    (w : World) (base n : ℕ) (u : World)
    → Kept w base n u
    → ((i : ℕ) → i < w.cpu_present_count → (w.cpu i).gicr ≡ 0)
    → (i : ℕ) → i < w.cpu_present_count
    → (u.cpu i).gicr ≢ 0
    → Frame w base n i (u.cpu i).gicr
was_found w base n u k none_yet i l h = elim (k.gicr i) [
  | inl e ↦ absurd (h (e ∙ none_yet i l))
  | inr f ↦ f
]

module _ (w : World) (base n gicd nrd sre3 : ℕ)
    (none_yet : (i : ℕ) → i < w.cpu_present_count → (w.cpu i).gicr ≡ 0) where
  -- the end of S10, with the number of the frames found
  abbrev scan_end : Cmd World (Unit {0})
  scan_end v =
      (when (nrd != v.cpu_present_count) (fail Codes.fail_gic nrd v.cpu_present_count)
          >> (for_range v.cpu_present_count 0 check_redist >> enable_gic gicd nrd sre3))
        v

  abbrev Given : (ℕ → Cpu) → Type 0
  Given cpu = (i : ℕ) → i < w.cpu_present_count → Frame w base n i (cpu i).gicr

  checked-Given :
      (v : World)
      → Kept w base n v
      → MayHalt (λ _ t. Given t.cpu) (for_range v.cpu_present_count 0 check_redist v)
  checked-Given v q =
      MayHalt-mono (check_loop-given v.cpu_present_count 0 v) (λ _ t (same, all) i h.
        subst (λ x. Frame w base n i (x.cpu i).gicr) (sym same)
          (was_found w base n v q none_yet i h (all i (omega arith) (omega (arith, q.count)))))

  scan_end-Given : (v : World) → Kept w base n v → MayHalt (λ _ t. Given t.cpu) (scan_end v)
  scan_end-Given v q =
      MayHalt-and_then
        {k = λ _. for_range v.cpu_present_count 0 check_redist >> enable_gic gicd nrd sre3}
        (guard-keeps (nrd != v.cpu_present_count) Codes.fail_gic nrd v.cpu_present_count v)
        (λ _ u same.
          subst
            (λ x.
              MayHalt (λ _ t. Given t.cpu)
                ((for_range v.cpu_present_count 0 check_redist >> enable_gic gicd nrd sre3) x))
            (sym same)
            (MayHalt-and_then {k = λ _. enable_gic gicd nrd sre3} (checked-Given v q)
              (λ _ t g. enable_gic-On Given gicd nrd sre3 t g)))

-- When the redistributor frames start at an address below 2 ^ 64 and no present CPU has a frame yet,
-- and S10 returns: every present CPU has a frame of the region, and when the GICR_TYPER of this frame
-- was read, it held the affinity of this CPU.
pub s10_gic-Frame :
    (w : World) (sre3 : ℕ)
    → w.facts.gicr.range.base < u64_mod
    → ((i : ℕ) → i < w.cpu_present_count → (w.cpu i).gicr ≡ 0)
    → MayHalt (λ _ v. HasFrames w w.cpu_present_count v.cpu) (s10_gic sre3 w)
unfolding s10_gic
s10_gic-Frame w sre3 below none_yet =
    let gicd = w.facts.gicd.range.base in
    let base = w.facts.gicr.range.base in
    let n = w.facts.gicr.range.size / gicr_stride in
    MayHalt-and_then (observe_gicd-Kept w base n gicd) (λ _ u k.
      MayHalt-and_then {k = λ nrd. scan_end w base n gicd nrd sre3 none_yet}
        (subst (λ g. MayHalt (λ _. Kept w base n) (redist_loop n g 0 u)) {x = frame_at base 0}
          {y = base} (omega arith) (redist_loop-Kept w base n n 0 0 u k (omega arith)))
        (λ nrd v q. scan_end-Given w base n gicd nrd sre3 none_yet v q))
