-- ===== src/Space/Steady.antt =====
-- The stages S5 and S6 (foundation/space/ownership.c, foundation/space/mmu_policy.c) leave the facts
-- and the intake alone.
use nxu.Base.{
  ℕ, ◌≡◌, Bool, true, false, not, ◌&&◌, ltb, leb, ◌==◌, ◌!=◌, if◌then◌else◌, Outcome, ok, halted,
  Cmd, MayHalt, goes_on, halts, MayHalt-and_then, MayHalt-when, MayHalt-for_range, when,
}
use nxu.Codes
use nxu.Word.{page_size, page_up, add64}
use nxu.Range.{range_ok}
use nxu.Mmu.{Mmu, mmu_init_pool}
use nxu.Silicon.{current_el}
use nxu.World.{World, OwnerRegion, ask, tell, put, log, log3, fail_with, in_mmu}
use nxu.World.Halting.{after_guard}
use nxu.Space.{
  add_owner, s5_ownership, note_mmu, mmu_enable, map_region, map_image, space_owner, s6_mmu,
}

-- the facts and the intake of `u` are those of `w`
pub record Same (w u : World) : Type 0 where
  pub facts : u.facts ≡ w.facts
  pub intake : u.intake ≡ w.intake

module _ (w : World) where
  put-Same : (code a b : ℕ) (u : World) → Same w u → MayHalt (λ _. Same w) (put code a b u)
  unfolding put
  put-Same code a b u s = goes_on (record { facts = s.facts; intake = s.intake })

  log-Same :
      (event sub a b : ℕ) (u : World) → Same w u → MayHalt (λ _. Same w) (log event sub a b u)
  unfolding log log3
  log-Same event sub a b u s = goes_on (record { facts = s.facts; intake = s.intake })

  add_owner-Same :
      (base size owner : ℕ) (u : World)
      → Same w u
      → MayHalt (λ _. Same w) (add_owner base size owner u)
  unfolding add_owner
  add_owner-Same base size owner u s =
      after_guard (not (range_ok base size)) Codes.fail_wrap base size _ u (λ _.
        after_guard (leb Codes.owner_max u.space.count) Codes.fail_invariant owner 0 _ u
          (λ _. put-Same _ _ _ _ (record { facts = s.facts; intake = s.intake })))

  add_if-Same :
      (b : Bool) (base size owner : ℕ) (u : World)
      → Same w u
      → MayHalt (λ _. Same w) (when b (add_owner base size owner) u)
  add_if-Same b base size owner u s =
      MayHalt-when b (add_owner base size owner) u s (λ _. add_owner-Same base size owner u s)

  -- S5 from the state `u` in which its table is empty
  pub s5_ownership-Same : (u : World) → Same w u → MayHalt (λ _. Same w) (s5_ownership u)
  unfolding s5_ownership
  s5_ownership-Same u s =
      MayHalt-and_then
        (MayHalt-for_range (λ _. Same w) u.facts.mem_count 0
          (λ i. add_owner (u.facts.mem i).range.base (u.facts.mem i).range.size Codes.owner_nxu) _
          (λ k v _ _ p. add_owner-Same _ _ _ v p) (record { facts = s.facts; intake = s.intake }))
        (λ _ v p. MayHalt-and_then (add_owner-Same _ _ _ v p) (λ _ v p.
          MayHalt-and_then (add_if-Same (u.facts.dtb_valid && (u.facts.dtb_size != 0)) _ _ _ v p)
            (λ _ v p. MayHalt-and_then (add_owner-Same _ _ _ v p) (λ _ v p.
              MayHalt-and_then (add_owner-Same _ _ _ v p) (λ _ v p.
                MayHalt-and_then (add_if-Same u.facts.uart_valid _ _ _ v p)
                  (λ _ v p. add_if-Same (u.facts.pwrc.size != 0) _ _ _ v p))))))

  -- a command of mmu.c reaches only its tables
  in_mmu-Same :
      {A : Type 0} (c : Cmd Mmu A) (u : World) → Same w u → MayHalt (λ _. Same w) (in_mmu c u)
  unfolding in_mmu fail_with
  in_mmu-Same {A} c u s = ended (c u.mmu)
    where
      ended :
          (r : Outcome Mmu A)
          → MayHalt
              (λ _. Same w)
              (elim r as (λ _. Outcome World A) [
                | ok a m ↦ ok a (record u { mmu = m })
                | halted f m ↦ fail_with f (record u { mmu = m })
              ])
      ended (ok a m) = goes_on (record { facts = s.facts; intake = s.intake })
      ended (halted f m) = halts

  map_region-Same :
      (r : OwnerRegion) (u : World) → Same w u → MayHalt (λ _. Same w) (map_region r u)
  unfolding map_region
  map_region-Same r u s = MayHalt-when (r.owner == Codes.owner_mmio) _ u s (λ _. in_mmu-Same _ u s)

  map_if-Same :
      (b : Bool) (c : Cmd Mmu (Unit {0})) (u : World)
      → Same w u
      → MayHalt (λ _. Same w) (when b (in_mmu c) u)
  map_if-Same b c u s = MayHalt-when b (in_mmu c) u s (λ _. in_mmu-Same c u s)

  map_image-Same : (u : World) → Same w u → MayHalt (λ _. Same w) (map_image u)
  unfolding map_image
  map_image-Same u s =
      let i = u.image in
      let img_end = page_up (add64 i.base i.size) in
      let text_end =
        if leb (page_up i.text_end) i.base then add64 i.base page_size else page_up i.text_end in
      let ro_end = if ltb (page_up i.rodata_end) text_end then text_end else page_up i.rodata_end in
      MayHalt-and_then (in_mmu-Same _ u s) (λ _ v p.
        MayHalt-and_then (map_if-Same (ltb text_end ro_end) _ v p)
          (λ _ v p. map_if-Same (ltb ro_end img_end) _ v p))

  mmu_enable-Same : (el : ℕ) (u : World) → Same w u → MayHalt (λ _. Same w) (mmu_enable el u)
  unfolding mmu_enable ask tell
  mmu_enable-Same el u s =
      after_guard (el != Codes.el1) Codes.fail_bad_el el 3 _ u
        (λ _. goes_on (record { facts = s.facts; intake = s.intake }))

  current_el-Same : (u : World) → Same w u → MayHalt (λ _. Same w) (current_el u)
  unfolding current_el ask
  current_el-Same u s = goes_on (record { facts = s.facts; intake = s.intake })

  either-Same :
      (b : Bool) (m n : Cmd World (Unit {0})) (u : World)
      → MayHalt (λ _. Same w) (m u)
      → MayHalt (λ _. Same w) (n u)
      → MayHalt (λ _. Same w) ((if b then m else n) u)
  either-Same true m n u p q = p
  either-Same false m n u p q = q

  -- the end of S6, where translation is on
  note_mmu-Same : (el : ℕ) (u : World) → Same w u → MayHalt (λ _. Same w) (note_mmu el u)
  unfolding note_mmu
  note_mmu-Same el u s =
      MayHalt-and_then (put-Same _ _ _ _ (record { facts = s.facts; intake = s.intake })) (λ _ v p.
        MayHalt-and_then
          (MayHalt-when v.facts.uart_valid _ v p
            (λ _. goes_on (record { facts = p.facts; intake = p.intake })))
          (λ _ x q. MayHalt-and_then (log-Same _ _ _ _ x q) (λ _ y r.
            MayHalt-and_then
              (either-Same v.facts.dtb_valid _ _ y (log-Same _ _ _ _ y r) (log-Same _ _ _ _ y r))
              (λ _ z t. MayHalt-and_then (log-Same _ _ _ _ z t) (λ _ x q. log-Same _ _ _ _ x q)))))

  pub s6_mmu-Same : (u : World) → Same w u → MayHalt (λ _. Same w) (s6_mmu u)
  unfolding s6_mmu
  s6_mmu-Same u s = MayHalt-and_then (current_el-Same u s) (λ now v p.
      MayHalt-and_then (in_mmu-Same (mmu_init_pool now) v p) (λ _ x q.
        MayHalt-and_then (map_image-Same x q) (λ _ v p.
          MayHalt-and_then
            (MayHalt-for_range (λ _. Same w) v.space.count 0 (λ i. map_region (v.space.region i)) v
              (λ k t _ _ r. map_region-Same _ t r) p)
            (λ _ v p.
              after_guard (space_owner v.space v.image.base page_size != Codes.owner_image)
                Codes.fail_invariant 5 0 _ v
                (λ _. MayHalt-and_then (mmu_enable-Same _ v p) (λ _ x q. note_mmu-Same _ x q))))))
