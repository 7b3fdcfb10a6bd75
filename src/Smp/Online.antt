-- ===== src/Smp/Online.antt =====
-- `nxu_s12_smp` of foundation/cpu/smp.c: every present CPU is online when it returns.
use nxu.Base.{
  ℕ, zero, suc, ◌+◌, ◌-◌, ◌<◌, ◌≡◌, ◌≢◌, inl, inr, refl, Bool, true, false, ◌&&◌, ltb, leb, ◌==◌,
  ◌!=◌, arith, Bool-cases, eq_of_==, eq_or_lt, lt_of_not_leb, subst, sym, ap, ◌∙◌, update_at,
  update_ne, when, ◌>>=◌, ◌>>◌, MayHalt, goes_on, MayHalt-and_then, MayHalt-mono,
}
use nxu.Codes
use nxu.Silicon.{timer_cntpct}
use nxu.Silicon.Gic.{psci_cpu_on}
use nxu.World.Halting.{guard-keeps}
use nxu.World.{World, Cpu, ask, tell, put, log, log3, fail}
use nxu.Smp.{
  release, wait_online, mark_starting, turn_on, note_online, note_set, start_cpu, start_loop,
  freeze_tables, boot_online, start_others, s12_smp,
}

-- the first `j` CPUs are online
abbrev pub Online : ℕ → (ℕ → Cpu) → Type 0
Online j cpu = (i : ℕ) → i < j → (cpu i).state ≡ Codes.cpu_online

-- what happens during a wait takes no CPU off line
abbrev pub StaysOnline : (ℕ → World → World) → Type 0
StaysOnline meanwhile =
    (n : ℕ) (w : World) (i : ℕ)
    → (w.cpu i).state ≡ Codes.cpu_online
    → ((meanwhile n w).cpu i).state ≡ Codes.cpu_online

zero_of : (k : ℕ) → k < 1 → k ≡ 0
zero_of k h = omega arith

le_of_leb : (i n : ℕ) → leb n 1 ≡ true → i < n → i < 1
le_of_leb i n e h = ground arith

lt_ne : (a b : ℕ) → a < b → a ≢ b
lt_ne a b h = omega arith

release-keeps :
    (P : (ℕ → Cpu) → Type 0) (entry id : ℕ) (w : World)
    → P w.cpu
    → MayHalt (λ _ v. P v.cpu) (release entry id w)
unfolding release tell psci_cpu_on ask
release-keeps P entry id w p = elim (Bool-cases (w.facts.pwrc.size != 0)) [
  | inl e ↦ rw e (goes_on p)
  | inr e ↦ rw e (elim (Bool-cases (w.facts.psci_conduit == 2)) [
    | inl f ↦ rw f (goes_on p)
    | inr f ↦ rw f (goes_on p)
  ])
]

-- the answer of a wait for the CPU `id`
abbrev Waited : ℕ → Bool → World → Type 0
Waited id online w = Online id w.cpu × (online ≡ true → (w.cpu id).state ≡ Codes.cpu_online)

wait_online-Waited :
    (fuel round : ℕ) (meanwhile : ℕ → World → World) (id deadline : ℕ) (w : World)
    → StaysOnline meanwhile
    → Online id w.cpu
    → MayHalt (Waited id) (wait_online fuel round meanwhile id deadline w)
unfolding wait_online timer_cntpct tell ask
wait_online-Waited zero round meanwhile id deadline w stays up = goes_on (up, λ e. absurd cc)
wait_online-Waited (suc fuel) round meanwhile id deadline w stays up =
    let v = meanwhile round w in
    let up' : Online id v.cpu = λ i h. stays round w i (up i h) in
    elim (Bool-cases ((v.cpu id).state == Codes.cpu_online)) [
      | inl e ↦ rw e (goes_on (up', λ _. eq_of_== _ _ e))
      | inr e ↦ rw e (
          MayHalt-and_then {k = λ _. wait_online fuel (round + 1) meanwhile id deadline}
            (guard-keeps (ltb deadline _) Codes.fail_timeout id (v.cpu id).mpidr _)
            (λ _ t same.
              wait_online-Waited fuel (round + 1) meanwhile id deadline t stays
                (subst (λ x. Online id x.cpu) (sym same) up')))
    ]

mark_starting-keeps :
    (id : ℕ) (w : World) → Online id w.cpu → MayHalt (λ _ v. Online id v.cpu) (mark_starting id w)
unfolding mark_starting put
mark_starting-keeps id w up = goes_on λ i h.
    rw (update_ne w.cpu (record (w.cpu id) { state = Codes.cpu_starting }) (lt_ne i id h)) (up i h)

turn_on-keeps :
    (entry id : ℕ) (w : World)
    → Online id w.cpu
    → MayHalt (λ _ v. Online id v.cpu) (turn_on entry id w)
unfolding turn_on
turn_on-keeps entry id w up =
    MayHalt-and_then
      {k = λ _. release entry id >>= (λ ret. when (ret != 0) (fail Codes.fail_psci ret id))}
      (mark_starting-keeps id w up)
      (λ _ u p.
        MayHalt-and_then {k = λ ret. when (ret != 0) (fail Codes.fail_psci ret id)}
          (release-keeps (Online id) entry id u p)
          (λ ret v q.
            MayHalt-mono (guard-keeps (ret != 0) Codes.fail_psci ret id v)
              (λ _ t same. subst (λ x. Online id x.cpu) (sym same) q)))

-- one more CPU
one_more :
    (id : ℕ) (cpu : ℕ → Cpu)
    → Online id cpu
    → (cpu id).state ≡ Codes.cpu_online
    → Online (id + 1) cpu
one_more id cpu up e i h = elim (eq_or_lt i id (omega arith)) [
  | inl same ↦ subst (λ x. (cpu x).state ≡ Codes.cpu_online) (sym same) e
  | inr l ↦ up i l
]

note_online-Online :
    (id : ℕ) (online : Bool) (w : World)
    → Waited id online w
    → MayHalt (λ r v. r ≡ true → Online (id + 1) v.cpu) (note_online id online w)
unfolding note_online log log3
note_online-Online id true w (up, e) = goes_on (λ _. one_more id w.cpu up (e refl))
note_online-Online id false w h = goes_on (λ e. absurd cc)

start_cpu-Online :
    (fuel entry : ℕ) (meanwhile : ℕ → World → World) (id : ℕ) (w : World)
    → StaysOnline meanwhile
    → Online id w.cpu
    → MayHalt (λ r v. r ≡ true → Online (id + 1) v.cpu) (start_cpu fuel entry meanwhile id w)
unfolding start_cpu timer_cntpct tell ask
start_cpu-Online fuel entry meanwhile id w stays up =
    MayHalt-and_then (turn_on-keeps entry id w up) (λ _ v q.
      MayHalt-and_then {k = note_online id} (wait_online-Waited fuel 0 meanwhile id _ _ stays q)
        (λ r t h. note_online-Online id r t h))

start_loop-Online :
    (fuel entry : ℕ) (meanwhile : ℕ → World → World) (rounds id : ℕ) (w : World)
    → StaysOnline meanwhile
    → Online id w.cpu
    → MayHalt
        (λ r v. r ≡ true → Online (id + rounds) v.cpu)
        (start_loop fuel entry meanwhile rounds id w)
unfolding start_loop
start_loop-Online fuel entry meanwhile zero id w stays up = goes_on (λ _ i h. up i (omega arith))
start_loop-Online fuel entry meanwhile (suc rounds) id w stays up =
    MayHalt-and_then (start_cpu-Online fuel entry meanwhile id w stays up) (λ r v h.
      elim (Bool-cases r) [
        | inl e ↦ rw e (
            MayHalt-mono (start_loop-Online fuel entry meanwhile rounds (id + 1) v stays (h e))
              (λ r' t g e' i l. g e' i (omega arith)))
        | inr e ↦ rw e (goes_on (λ f. absurd cc))
      ])

note_set-keeps :
    (n count : ℕ) (r : Bool) (w : World)
    → (r ≡ true → Online n w.cpu)
    → MayHalt (λ a v. a ≡ true → Online n v.cpu) (note_set count r w)
unfolding note_set put
note_set-keeps n count true w h = goes_on h
note_set-keeps n count false w h = goes_on h

start_others-Online :
    (fuel entry : ℕ) (meanwhile : ℕ → World → World) (w : World)
    → StaysOnline meanwhile
    → Online 1 w.cpu
    → MayHalt
        (λ r v. r ≡ true → Online w.cpu_present_count v.cpu)
        (start_others fuel entry meanwhile w)
unfolding start_others
start_others-Online fuel entry meanwhile w stays up =
    elim (Bool-cases (leb w.cpu_present_count 1)) [
      | inl e ↦ rw e (
          note_set-keeps w.cpu_present_count 1 true w
            (λ _ i h. up i (le_of_leb i w.cpu_present_count e h)))
      | inr e ↦ rw e (
          MayHalt-and_then {k = note_set w.cpu_present_count}
            (start_loop-Online fuel entry meanwhile (w.cpu_present_count - 1) 1 w stays up)
            (λ r v g.
              note_set-keeps w.cpu_present_count w.cpu_present_count r v
                (λ f i h. g f i (omega (arith, lt_of_not_leb 1 w.cpu_present_count e)))))
    ]

boot_online-Online :
    (w : World)
    → MayHalt (λ _ v. Online 1 v.cpu × (v.cpu_present_count ≡ w.cpu_present_count)) (boot_online w)
unfolding boot_online log log3
boot_online-Online w = goes_on (
  (λ i h. rw (update_at w.cpu (record (w.cpu 0) { state = Codes.cpu_online }) (zero_of i h)) refl),
  refl,
)

-- When nothing that happens during its waits takes a CPU off line, and S12 comes to its end: every CPU
-- of the present set is online.
pub s12_smp-Online :
    (fuel entry : ℕ) (meanwhile : ℕ → World → World) (w : World)
    → StaysOnline meanwhile
    → MayHalt (λ r v. r ≡ true → Online w.cpu_present_count v.cpu) (s12_smp fuel entry meanwhile w)
unfolding s12_smp
s12_smp-Online fuel entry meanwhile w stays =
    MayHalt-and_then {k = λ _. boot_online >> start_others fuel entry meanwhile}
      (guard-keeps ((w.facts.psci_conduit == Codes.psci_none) && (w.facts.pwrc.size == 0))
        Codes.fail_psci 0 0 (freeze_tables w))
      (λ _ u same.
        MayHalt-and_then {k = λ _. start_others fuel entry meanwhile} (boot_online-Online u)
          (λ _ v (up, count).
            subst
              (λ n.
                MayHalt (λ r t. r ≡ true → Online n t.cpu) (start_others fuel entry meanwhile v))
              (count ∙ ap (λ x. x.cpu_present_count) same)
              (start_others-Online fuel entry meanwhile v stays up)))
