-- ===== src/Cpus/PresentSet.antt =====
-- `nxu_s8_present` of foundation/cpu/cpu.c: the present set that it builds from the CPU facts.
pub mod Stage
use nxu.Base.{
  ℕ, zero, suc, ◌+◌, ◌≤◌, ◌<◌, ◌≡◌, ◌≢◌, ◌⊎◌, inl, inr, refl, Bool, true, false, ◌||◌, ltb, leb,
  ◌==◌, arith, Bool-cases, eq_of_==, ne_of_==, eq_or_lt, lt_eq_gt, lt→not_leb, subst, sym, ap, ◌∙◌,
  update, update_at, update_ne, Returns, returns, Returns-and_then, for_range,
}
use nxu.Codes
use nxu.Observe.{cpu_bound}
use nxu.Facts.{affinity}
use nxu.World.{World, Facts, Cpu, put, log3}
use nxu.Cpus.{present_loop, found_loop, Clusters, cluster_loop, report_clusters, s8_present}

-- The CPU facts `m` of the kernel, `n` of them, are listed: the boot CPU is first, and the array has a
-- CPU for each fact, once, at the logical id that the fact names.
pub record Listed (m : ℕ → ℕ) (n boot : ℕ) (cpu : ℕ → Cpu) (facts : Facts) (count : ℕ)
    : Type 0 where
  pub size : count ≡ n
  pub kept : (j : ℕ) → (facts.cpu j).mpidr ≡ m j
  pub boot_first : (cpu 0).mpidr ≡ boot
  pub numbered : (k : ℕ) → k < count → ((cpu k).logical ≡ k) × ((cpu k).state ≡ Codes.cpu_present)
  pub listed :
      (j : ℕ) → j < n → ((facts.cpu j).logical < count) × ((cpu (facts.cpu j).logical).mpidr ≡ m j)
  pub distinct : (i k : ℕ) → i < k → k < count → (cpu i).mpidr ≢ (cpu k).mpidr

lt_ne : (a b : ℕ) → a < b → a ≢ b
lt_ne a b h = omega arith

pub count_ok : (n : ℕ) → 0 < n → n ≤ cpu_bound → ((n == 0) || ltb cpu_bound n) ≡ false
count_ok n h k = ground arith

module _ (m : ℕ → ℕ) (boot b n : ℕ) where
  -- the first `i` facts are listed, and `dst` is the next place
  pub record Listing (cpu : ℕ → Cpu) (facts : Facts) (i dst : ℕ) : Type 0 where
    pub kept : (j : ℕ) → (facts.cpu j).mpidr ≡ m j
    pub early : i ≤ b → dst ≡ i + 1
    pub late : b < i → dst ≡ i
    pub boot_first : (cpu 0).mpidr ≡ boot
    pub numbered : (k : ℕ) → k < dst → ((cpu k).logical ≡ k) × ((cpu k).state ≡ Codes.cpu_present)
    pub listed :
        (j : ℕ) → j < i → ((facts.cpu j).logical < dst) × ((cpu (facts.cpu j).logical).mpidr ≡ m j)
    pub from : (k : ℕ) → 0 < k → k < dst → (j : ℕ) × (j < i) × ((cpu k).mpidr ≡ m j)
    pub distinct : (k l : ℕ) → k < l → l < dst → (cpu k).mpidr ≢ (cpu l).mpidr

  -- the facts after a store of a logical id, and the CPUs after a placement
  abbrev named : Facts → ℕ → ℕ → Facts
  named f i id = record f { cpu = update f.cpu i (record (f.cpu i) { logical = id }) }

  abbrev placed : (ℕ → Cpu) → ℕ → ℕ → ℕ → Cpu
  placed cpu id mpidr =
      update cpu id (record (cpu id) { mpidr = mpidr; logical = id; state = Codes.cpu_present })

  module _ (cpu : ℕ → Cpu) (f : Facts) (i dst : ℕ) (v : Listing cpu f i dst) where
    named_listed :
        (id : ℕ) (cpu' : ℕ → Cpu) (dst' : ℕ)
        → dst ≤ dst'
        → id < dst'
        → (cpu' id).mpidr ≡ m i
        → ((k : ℕ) → k < dst → (cpu' k).mpidr ≡ (cpu k).mpidr)
        → (j : ℕ) → j < i + 1
        → (((named f i id).cpu j).logical < dst')
          × ((cpu' ((named f i id).cpu j).logical).mpidr ≡ m j)
    named_listed id cpu' dst' le lt new old j h = elim (eq_or_lt j i (omega arith)) [
      | inl e ↦ rw (update_at f.cpu (record (f.cpu i) { logical = id }) e) (lt, new ∙ ap m (sym e))
      | inr l ↦ rw (update_ne f.cpu (record (f.cpu i) { logical = id }) (lt_ne j i l)) (
        omega (arith, (v.listed j l).0),
        old ((f.cpu j).logical) (v.listed j l).0 ∙ (v.listed j l).1,
      )
    ]

    named_kept : (id j : ℕ) → ((named f i id).cpu j).mpidr ≡ m j
    named_kept id j = ground (arith, v.kept j, v.kept i)

    skip : b ≡ i → m i ≡ boot → Listing cpu (named f i 0) (i + 1) dst
    skip at e = record {
      kept = named_kept 0;
      early = omega arith;
      late = λ h. omega (arith, v.early);
      boot_first = v.boot_first;
      numbered = v.numbered;
      listed =
          named_listed 0 cpu dst (omega arith) (omega (arith, v.early)) (v.boot_first ∙ sym e)
            (λ k h. refl);
      from = λ k p h. (let (j, l, e) = v.from k p h in (j, omega arith, e));
      distinct = v.distinct;
    }

    old_cpu : (x k : ℕ) → k < dst → placed cpu dst x k ≡ cpu k
    old_cpu x k h = update_ne cpu _ (lt_ne k dst h)

    new_cpu :
        (x k : ℕ)
        → k ≡ dst
        → placed cpu dst x k
          ≡ record (cpu dst) { mpidr = x; logical = dst; state = Codes.cpu_present }
    new_cpu x k e = update_at cpu _ e

    module _ (first : 0 < dst) (mb : m b ≡ boot) (apart : (j k : ℕ) → j < k → k ≤ i → m j ≢ m k)
        (other : m i ≢ boot) where
      -- a CPU of the list is not that of the fact `i`
      not_yet : (k : ℕ) → k < dst → (cpu k).mpidr ≢ m i
      not_yet zero h e = other (sym e ∙ v.boot_first)
      not_yet (suc k) h e =
          (let (j, l, e') = v.from (suc k) (omega arith) h in
            apart j i l (omega arith) (sym e' ∙ e))

      add : Listing (placed cpu dst (m i)) (named f i dst) (i + 1) (dst + 1)
      add = record {
        kept = named_kept dst;
        early = λ h. omega (arith, v.early);
        late = λ h. elim (eq_or_lt b i (omega arith)) [
          | inl e ↦ absurd (other (ap m (sym e) ∙ mb))
          | inr l ↦ omega (arith, v.late l)
        ];
        boot_first = ap (λ c. c.mpidr) (old_cpu (m i) 0 first) ∙ v.boot_first;
        numbered = λ k h. elim (eq_or_lt k dst (omega arith)) [
          | inl e ↦ rw (new_cpu (m i) k e) (sym e, refl)
          | inr l ↦ rw (old_cpu (m i) k l) (v.numbered k l)
        ];
        listed =
            named_listed dst (placed cpu dst (m i)) (dst + 1) (omega arith) (omega arith)
              (ap (λ c. c.mpidr) (new_cpu (m i) dst refl))
              (λ k h. ap (λ c. c.mpidr) (old_cpu (m i) k h));
        from = λ k p h. elim (eq_or_lt k dst (omega arith)) [
          | inl e ↦ (i, omega arith, ap (λ c. c.mpidr) (new_cpu (m i) k e))
          | inr l ↦
              (let (j, q, e) = v.from k p l in
                (j, omega arith, ap (λ c. c.mpidr) (old_cpu (m i) k l) ∙ e))
        ];
        distinct = λ k l kl h. elim (eq_or_lt l dst (omega arith)) [
          | inl e ↦ rw (new_cpu (m i) l e, old_cpu (m i) k (omega arith)) (not_yet k (omega arith))
          | inr q ↦ rw (old_cpu (m i) l q, old_cpu (m i) k (omega arith)) (v.distinct k l kl q)
        ];
      }

  -- no other fact is that of the boot CPU
  pub only : (i : ℕ) → i < n → ((j k : ℕ) → j < k → k < n → m j ≢ m k) → b < n → m b ≡ m i → b ≡ i
  only i h apart bn e = elim (lt_eq_gt b i) [
    | inl (inl l) ↦ absurd (apart b i l h e)
    | inl (inr g) ↦ absurd (apart i b g bn (sym e))
    | inr q ↦ q
  ]

  dst_room :
      (cpu : ℕ → Cpu) (f : Facts) (i dst : ℕ)
      → Listing cpu f i dst
      → m i ≢ boot
      → m b ≡ boot
      → i < n
      → n ≤ cpu_bound
      → b < n
      → (0 < dst) × (leb cpu_bound dst ≡ false)
  dst_room cpu f i dst v other mb h small bn = elim (lt_eq_gt b i) [
    | inl (inl l) ↦ (omega (arith, v.late l), lt→not_leb dst cpu_bound (omega (arith, v.late l)))
    | inl (inr g) ↦ (omega (arith, v.early), lt→not_leb dst cpu_bound (omega (arith, v.early)))
    | inr q ↦ absurd (other (ap m (sym q) ∙ mb))
  ]

  -- the loop lists the facts from `i` on
  pub present_loop-Listing :
      (rounds i dst : ℕ) (w : World)
      → Listing w.cpu w.facts i dst
      → i + rounds ≡ n
      → n ≤ cpu_bound
      → b < n
      → m b ≡ boot
      → ((j k : ℕ) → j < k → k < n → m j ≢ m k)
      → Returns (λ d w'. Listing w'.cpu w'.facts n d) (present_loop rounds i dst boot w)
  unfolding present_loop
  present_loop-Listing zero i dst w v e small bn mb apart =
      returns (subst (λ x. Listing w.cpu w.facts x dst) (omega arith) v)
  present_loop-Listing (suc rounds) i dst w v e small bn mb apart =
      elim (Bool-cases ((w.facts.cpu i).mpidr == boot)) [
        | inl same ↦
            (let mi = sym (v.kept i) ∙ eq_of_== _ _ same in
              rw same (
                present_loop-Listing rounds (i + 1) dst _
                  (skip w.cpu w.facts i dst v (only i (omega arith) apart bn (mb ∙ sym mi)) mi)
                  (omega arith) small bn mb apart))
        | inr differs ↦
            (let other : m i ≢ boot = λ q. ne_of_== _ _ differs (v.kept i ∙ q) in
              let room = dst_room w.cpu w.facts i dst v other mb (omega arith) small bn in
              rw (differs, room.1)
                (present_loop-Listing rounds (i + 1) (dst + 1) _
                  (subst (λ x. Listing (placed w.cpu dst x) (named w.facts i dst) (i + 1) (dst + 1))
                    (sym (v.kept i))
                    (add w.cpu w.facts i dst v room.0 mb (λ j k jk h. apart j k jk (omega arith))
                      other))
                  (omega arith) small bn mb apart))
      ]

pub complete :
    (m : ℕ → ℕ) (boot b n : ℕ) (cpu : ℕ → Cpu) (f : Facts) (d : ℕ)
    → b < n
    → Listing m boot b n cpu f n d
    → Listed m n boot cpu f d
complete m boot b n cpu f d bn v = record {
  size = v.late bn;
  kept = v.kept;
  boot_first = v.boot_first;
  numbered = v.numbered;
  listed = v.listed;
  distinct = v.distinct;
}
