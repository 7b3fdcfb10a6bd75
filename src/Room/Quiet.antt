-- ===== src/Room/Quiet.antt =====
-- The commands of foundation/room/room.c that leave memory alone, also where they halt.
use nxu.Base.{
  ℕ, ◌%◌, ◌^◌, ◌≡◌, refl, subst, inl, inr, Bool, true, false, ◌∷◌, Outcome, ok, halted, Failure,
  ◌>>◌, and_then, Cmd, Bool-cases, if◌then◌else◌, ltb, leb, ◌!=◌,
}
use nxu.Hardware.{mrs, icc_iar1_el1}
use nxu.Word.{page_size}
use nxu.Mmu.{Mmu, mmu_map, map_rw}
use nxu.World.{World, ask, tell, in_mmu, fail_with}
use nxu.Silicon.{mmu_tlbi, timer_mask_el1, gic_iar, gic_eoi}
use nxu.Room.{exit_fault, exit_irq, exit_foreign, room_irq, seal, priv, tlbi_icache, leave, room_n}

-- A command that leaves memory alone, also where it halts.
pub data SameMem {A : Type 0} (m : ℕ → ℕ) : Outcome World A → Type 0 where
  same_ok : {a : A} {w' : World} → w'.mem ≡ m → SameMem m (ok a w')
  same_halted : {f : Failure} {w' : World} → w'.mem ≡ m → SameMem m (halted f w')

abbrev pub Quiet : {A : Type 0} → Cmd World A → Type 0
Quiet c = (w : World) → SameMem w.mem (c w)

module _ {A B : Type 0} {m : ℕ → ℕ} where
  Quiet-and_then :
      {o : Outcome World A} {k : A → Cmd World B}
      → SameMem m o
      → ((a : A) → Quiet (k a))
      → SameMem m (and_then o k)
  Quiet-and_then {k = k} (same_ok {a} {w'} e) q = subst (λ n. SameMem {A = B} n (k a w')) e (q a w')
  Quiet-and_then (same_halted e) q = same_halted e

in_mmu-Quiet : {A : Type 0} (c : Cmd Mmu A) → Quiet (in_mmu c)
unfolding in_mmu fail_with
in_mmu-Quiet {A} c w = through (c w.mmu)
  where
    through :
        (o : Outcome Mmu A)
        → SameMem w.mem (elim o [
          | ok a m ↦ ok a (record w { mmu = m })
          | halted f m ↦ fail_with f (record w { mmu = m })
        ])
    through (ok a m) = same_ok refl
    through (halted f m) = same_halted refl

priv-Quiet : (id : ℕ) → Quiet (priv id)
unfolding priv
priv-Quiet id w =
    Quiet-and_then (in_mmu-Quiet (mmu_map (w.rooms.code_pa id) page_size map_rw) w)
      λ _ w'. in_mmu-Quiet (mmu_map (w'.rooms.data_pa id) page_size map_rw) w'

Quiet-tail : Quiet (timer_mask_el1 >> tlbi_icache)
unfolding timer_mask_el1 tlbi_icache mmu_tlbi tell
Quiet-tail w = same_ok refl

pub seal-Quiet : Quiet seal
unfolding seal
seal-Quiet w = elim (Bool-cases (ltb w.rooms.cur room_n)) [
  | inl a ↦ rw a (Quiet-and_then (priv-Quiet _ w) λ _ w'. Quiet-tail w')
  | inr a ↦ rw a (Quiet-tail w)
]

pub leave-Quiet : (why : ℕ) → Quiet (leave why)
leave-Quiet why w = seal-Quiet (record w { rooms = record (w.rooms) { reason = why } })

if_Quiet :
    {A : Type 0} {c d : Cmd World A} (b : Bool) → Quiet c → Quiet d → Quiet (if b then c else d)
if_Quiet true q r = q
if_Quiet false q r = r

gic_eoi-Quiet : (intid : ℕ) → Quiet (gic_eoi intid)
unfolding gic_eoi tell
gic_eoi-Quiet intid w = same_ok refl

reply-Quiet : (why intid : ℕ) → Quiet (leave why >> gic_eoi intid)
reply-Quiet why intid w = Quiet-and_then (leave-Quiet why w) λ _ w'. gic_eoi-Quiet intid w'

pub room_irq-Quiet : Quiet room_irq
unfolding room_irq gic_iar ask
room_irq-Quiet w =
    let intid = w.machine w.trace (mrs icc_iar1_el1) % 2 ^ 32 in
    if_Quiet (leb 1020 intid) (leave-Quiet exit_fault)
      (if_Quiet (intid != w.facts.timer_ppi) (reply-Quiet exit_foreign intid)
        (reply-Quiet exit_irq intid))
      (record w { trace = mrs icc_iar1_el1 ∷ w.trace })
