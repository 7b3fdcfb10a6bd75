-- ===== src/Cpus/Available.antt =====
-- `nxu_s9_init` of foundation/cpu/cpu.c: every present CPU has its stack, is bound to its context and
-- is available.
pub mod Stage
use nxu.Base.{
  ℕ, zero, suc, ◌∷◌, ◌+◌, ◌≤◌, ◌<◌, ◌≡◌, ◌≢◌, inl, inr, refl, Bool, true, false, ◌==◌, arith,
  Bool-cases, eq_or_lt, if◌then◌else◌, subst, sym, ap, ◌∙◌, update, update_self, update_ne, Cmd,
  ◌>>◌, Returns, returns, Returns-and_then, Returns-mono, for_range, modify,
}
use nxu.Codes
use nxu.Hardware.{isb}
use nxu.Word.{sub64, add64}
use nxu.Facts.{affinity}
use nxu.Boot.{stack_size, context_bind}
use nxu.World.{World, Cpu, Facts, Intake, tell, put, log3, set_cpu}
use nxu.Cpus.{clear_cpu, bind_cpu, avail_cpu, init_cpu, s9_init, set_this_logical}

-- what a round for the CPU `i` leaves alone
record Elsewhere (i : ℕ) (w v : World) : Type 0 where
  others : (j : ℕ) → j ≢ i → v.cpu j ≡ w.cpu j
  mpidr : (v.cpu i).mpidr ≡ (w.cpu i).mpidr
  count : v.cpu_present_count ≡ w.cpu_present_count
  intake : v.intake ≡ w.intake
  facts : v.facts ≡ w.facts

-- The CPU with the id `id` is available on its own stack, its context is bound to it, and it waits for
-- its redistributor frame. The boot CPU keeps the stack below `sp` on which it entered.
pub record Bound (stack_of : ℕ → ℕ) (boot sp id : ℕ) (c : Cpu) : Type 0 where
  pub available : c.state ≡ Codes.cpu_available
  pub no_frame : c.gicr ≡ 0
  pub context : c.ctx.cpu_id ≡ id
  pub life : c.ctx.life ≡ (if c.mpidr == boot then Codes.ctx_running else Codes.ctx_armed)
  pub base : c.ctx.stack_base ≡ (if c.mpidr == boot then sub64 sp stack_size else stack_of id)
  pub limit : c.ctx.stack_limit ≡ (if c.mpidr == boot then sp else add64 (stack_of id) stack_size)

then-Elsewhere : (i : ℕ) (w u v : World) → Elsewhere i w u → Elsewhere i u v → Elsewhere i w v
then-Elsewhere i w u v p q = record {
  others = λ j h. q.others j h ∙ p.others j h;
  mpidr = q.mpidr ∙ p.mpidr;
  count = q.count ∙ p.count;
  intake = q.intake ∙ p.intake;
  facts = q.facts ∙ p.facts;
}

-- a store into the CPU `i` that leaves its affinity alone
module _ (i : ℕ) (f : Cpu → Cpu) (w : World) (kept : (f (w.cpu i)).mpidr ≡ (w.cpu i).mpidr) where
  abbrev stored : World
  stored = record w { cpu = update w.cpu i (f (w.cpu i)) }

  stored_cpu : stored.cpu i ≡ f (w.cpu i)
  stored_cpu = update_self w.cpu i _

  store-Elsewhere : Elsewhere i w stored
  store-Elsewhere = record {
    others = λ j h. update_ne w.cpu _ h;
    mpidr = ap (λ c. c.mpidr) stored_cpu ∙ kept;
    count = refl;
    intake = refl;
    facts = refl;
  }

-- the context `i` is bound with the life `l` on the stack from `b` to `t`
record Binds (i l b t : ℕ) (w v : World) : Type 0 where
  elsewhere : Elsewhere i w v
  gicr : (v.cpu i).gicr ≡ (w.cpu i).gicr
  context : (v.cpu i).ctx.cpu_id ≡ i
  life : (v.cpu i).ctx.life ≡ l
  base : (v.cpu i).ctx.stack_base ≡ b
  limit : (v.cpu i).ctx.stack_limit ≡ t

context_bind-Binds :
    (i l : ℕ) (w : World)
    → Returns
        (λ _ v. Binds i l (w.cpu i).stack_base (w.cpu i).stack_limit w v)
        (context_bind i i l w)
unfolding context_bind
context_bind-Binds i l w = returns (record {
  elsewhere = record {
    others = λ j h. update_ne w.cpu _ h;
    mpidr = ap (λ c. c.mpidr) (update_self w.cpu i _);
    count = refl;
    intake = refl;
    facts = refl;
  };
  gicr = ap (λ c. c.gicr) (update_self w.cpu i _);
  context = ap (λ c. c.ctx.cpu_id) (update_self w.cpu i _);
  life = ap (λ c. c.ctx.life) (update_self w.cpu i _);
  base = ap (λ c. c.ctx.stack_base) (update_self w.cpu i _);
  limit = ap (λ c. c.ctx.stack_limit) (update_self w.cpu i _);
})

-- the boot CPU has the stack on which it entered
abbrev entry_stack : World → Cpu → Cpu
entry_stack w c = record c {
  stack_base = sub64 w.intake.sp_nxu stack_size;
  stack_limit = w.intake.sp_nxu;
}

-- the state in which the context of the boot CPU is bound
abbrev entered : World → ℕ → World
entered w i = record (stored i (entry_stack w) w refl) { tpidr = i; trace = isb ∷ w.trace }

entered-Elsewhere : (w : World) (i : ℕ) → Elsewhere i w (entered w i)
entered-Elsewhere w i =
    let e = store-Elsewhere i (entry_stack w) w refl in
    record { others = e.others; mpidr = e.mpidr; count = refl; intake = refl; facts = refl }

entered-Binds :
    (i l : ℕ) (w v : World)
    → Binds i l ((entered w i).cpu i).stack_base ((entered w i).cpu i).stack_limit (entered w i) v
    → Binds i l (sub64 w.intake.sp_nxu stack_size) w.intake.sp_nxu w v
entered-Binds i l w v b =
    let same = stored_cpu i (entry_stack w) w refl in
    record {
      elsewhere = then-Elsewhere i w (entered w i) v (entered-Elsewhere w i) b.elsewhere;
      gicr = b.gicr ∙ ap (λ c. c.gicr) same;
      context = b.context;
      life = b.life;
      base = b.base ∙ ap (λ c. c.stack_base) same;
      limit = b.limit ∙ ap (λ c. c.stack_limit) same;
    }

bind_cpu-Binds :
    (boot i : ℕ) (w : World)
    → Returns
        (λ _ v.
          Binds i
            (if (w.cpu i).mpidr == boot then Codes.ctx_running else Codes.ctx_armed)
            (if (w.cpu i).mpidr == boot
              then sub64 w.intake.sp_nxu stack_size
              else (w.cpu i).stack_base)
            (if (w.cpu i).mpidr == boot then w.intake.sp_nxu else (w.cpu i).stack_limit)
            w
            v)
        (bind_cpu boot i w)
unfolding bind_cpu set_this_logical tell
bind_cpu-Binds boot i w = elim (Bool-cases ((w.cpu i).mpidr == boot)) [
  | inl e ↦ rw e (
      Returns-mono (context_bind-Binds i Codes.ctx_running (entered w i))
        (λ _ v b. entered-Binds i Codes.ctx_running w v b))
  | inr e ↦ rw e (context_bind-Binds i _ w)
]

-- the CPU `i` is available, and all else about it is as it was
record Avails (i : ℕ) (w v : World) : Type 0 where
  elsewhere : Elsewhere i w v
  gicr : (v.cpu i).gicr ≡ (w.cpu i).gicr
  state : (v.cpu i).state ≡ Codes.cpu_available
  ctx : (v.cpu i).ctx ≡ (w.cpu i).ctx

avail_cpu-Avails : (i : ℕ) (w : World) → Returns (λ _ v. Avails i w v) (avail_cpu i w)
unfolding avail_cpu log3 put
avail_cpu-Avails i w =
    let set : ℕ → Cpu → Cpu = λ s c. record c { state = s } in
    let mid = stored i (set Codes.cpu_initialized) w refl in
    let p = store-Elsewhere i (set Codes.cpu_initialized) w refl in
    let q = store-Elsewhere i (set Codes.cpu_available) mid refl in
    let e = then-Elsewhere i w mid (stored i (set Codes.cpu_available) mid refl) p q in
    let same =
      stored_cpu i (set Codes.cpu_available) mid refl
      ∙ ap (set Codes.cpu_available) (stored_cpu i (set Codes.cpu_initialized) w refl) in
    returns (record {
      elsewhere = record {
        others = e.others;
        mpidr = e.mpidr;
        count = refl;
        intake = refl;
        facts = refl;
      };
      gicr = ap (λ c. c.gicr) same;
      state = ap (λ c. c.state) same;
      ctx = ap (λ c. c.ctx) same;
    })

-- the CPU `i` is cleared, with a stack of its own
record Clears (stack_of : ℕ → ℕ) (i : ℕ) (w v : World) : Type 0 where
  elsewhere : Elsewhere i w v
  gicr : (v.cpu i).gicr ≡ 0
  base : (v.cpu i).stack_base ≡ stack_of i
  limit : (v.cpu i).stack_limit ≡ add64 (stack_of i) stack_size

clear_cpu-Clears :
    (stack_of : ℕ → ℕ) (i : ℕ) (w : World)
    → Returns (λ _ v. Clears stack_of i w v) (clear_cpu stack_of i w)
unfolding clear_cpu
clear_cpu-Clears stack_of i w = returns (record {
  elsewhere = record {
    others = λ j h. update_ne w.cpu _ h;
    mpidr = ap (λ c. c.mpidr) (update_self w.cpu i _);
    count = refl;
    intake = refl;
    facts = refl;
  };
  gicr = ap (λ c. c.gicr) (update_self w.cpu i _);
  base = ap (λ c. c.stack_base) (update_self w.cpu i _);
  limit = ap (λ c. c.stack_limit) (update_self w.cpu i _);
})

-- the three parts of a round together
round-Bound :
    (stack_of : ℕ → ℕ) (boot i : ℕ) (w t u v : World)
    → Clears stack_of i w t
    → Binds i
        (if (t.cpu i).mpidr == boot then Codes.ctx_running else Codes.ctx_armed)
        (if (t.cpu i).mpidr == boot then sub64 t.intake.sp_nxu stack_size else (t.cpu i).stack_base)
        (if (t.cpu i).mpidr == boot then t.intake.sp_nxu else (t.cpu i).stack_limit)
        t
        u
    → Avails i u v
    → Bound stack_of boot w.intake.sp_nxu i (v.cpu i)
round-Bound stack_of boot i w t u v c b a =
    let m : (v.cpu i).mpidr ≡ (t.cpu i).mpidr = a.elsewhere.mpidr ∙ b.elsewhere.mpidr in
    let sp : t.intake.sp_nxu ≡ w.intake.sp_nxu = ap (λ x. x.sp_nxu) c.elsewhere.intake in
    record {
      available = a.state;
      no_frame = a.gicr ∙ (b.gicr ∙ c.gicr);
      context = ap (λ x. x.cpu_id) a.ctx ∙ b.context;
      life = rw m (ap (λ x. x.life) a.ctx ∙ b.life);
      base = rw (m, ← sp, ← c.base) (ap (λ x. x.stack_base) a.ctx ∙ b.base);
      limit = rw (m, ← sp, ← c.limit) (ap (λ x. x.stack_limit) a.ctx ∙ b.limit);
    }

-- a round of the loop binds its CPU, and leaves the others alone
init_cpu-Bound :
    (stack_of : ℕ → ℕ) (boot i : ℕ) (w : World)
    → Returns
        (λ _ v. Elsewhere i w v × Bound stack_of boot w.intake.sp_nxu i (v.cpu i))
        (init_cpu stack_of boot i w)
unfolding init_cpu
init_cpu-Bound stack_of boot i w =
    Returns-and_then {k = λ _. bind_cpu boot i >> avail_cpu i} (clear_cpu-Clears stack_of i w)
      (λ _ t c. Returns-and_then {k = λ _. avail_cpu i} (bind_cpu-Binds boot i t) (λ _ u b.
        Returns-mono (avail_cpu-Avails i u) (λ _ v a. (
          then-Elsewhere i w u v (then-Elsewhere i w t u c.elsewhere b.elsewhere) a.elsewhere,
          round-Bound stack_of boot i w t u v c b a,
        ))))
