-- ===== src/Room/Open/Fence.antt =====
-- What EL0 can reach after `user_open` of foundation/room/room.c, by the rights of the leaves it leaves.
use nxu.Base.{
  ℕ, ◌^◌, ◌<◌, ◌≡◌, refl, ap, ◌∙◌, subst, ◌⊎◌, inl, inr, Bool, true, false, arith, if◌then◌else◌,
  Returns, Returns-mono,
}
use nxu.Word.{page_size}
use nxu.Range.Membership.{Within}
use nxu.Mmu.{map_rw, map_user_rx}
use nxu.Mmu.Tree.{Tree}
use nxu.Mmu.Walk.{view}
use nxu.Mmu.MapPage.{leaf_of}
use nxu.Mmu.Perm.{rights-leaf_of, el0_reads, el0_writes}
use nxu.World.{World, Rooms}
use nxu.Room.{user_open, room_n}
use nxu.Room.Isolation.{Fenced}
use nxu.Room.Open.{in_page, Placed, closed, opened, user_open-Shown, Reserved}

clash : {b : Bool} → b ≡ true → b ≡ false → ⊥
clash u v = cc

-- a right that the new leaf does not give
hidden :
    (g : ℕ → Bool) (b : Bool) {u v : ℕ}
    → g u ≡ false
    → g (if b then u else v) ≡ true
    → (b ≡ false) × (g v ≡ true)
hidden g true h k = absurd (clash k h)
hidden g false h k = (refl, k)

shown_or :
    (g : ℕ → Bool) (b : Bool) (u v : ℕ) → g (if b then u else v) ≡ true → (b ≡ true) ⊎ (g v ≡ true)
shown_or g true u v k = inl refl
shown_or g false u v k = inr k

writes_reads : (u : ℕ) → el0_writes u ≡ true → el0_reads u ≡ true
writes_reads u h = ground arith

module _ (r : Rooms) (f : ℕ → ℕ) (res : Reserved r f) (x : ℕ) (small : x < 2 ^ 48) where
  private_leaf : el0_reads (leaf_of x map_rw) ≡ false
  private_leaf = ap (λ t. t.2) (rights-leaf_of x map_rw)

  closed_reads : ¬ (el0_reads (closed r 1 (closed r 0 f) x) ≡ true)
  closed_reads h =
      let h1 = hidden el0_reads (in_page (r.data_pa 1) x) private_leaf h in
      let h2 = hidden el0_reads (in_page (r.code_pa 1) x) private_leaf h1.1 in
      let h3 = hidden el0_reads (in_page (r.data_pa 0) x) private_leaf h2.1 in
      let h4 = hidden el0_reads (in_page (r.code_pa 0) x) private_leaf h3.1 in
      clash (res x small h4.1) (rw (h1.0, h2.0, h3.0, h4.0) refl)

  opened_reads :
      (id : ℕ)
      → el0_reads (opened r id f x) ≡ true
      → Within (r.code_pa id) page_size x ⊎ Within (r.data_pa id) page_size x
  opened_reads id h = elim (shown_or el0_reads (in_page (r.data_pa id) x) _ _ h) [
    | inl a ↦ inr (ground arith)
    | inr k ↦ elim (shown_or el0_reads (in_page (r.code_pa id) x) _ _ k) [
      | inl a ↦ inl (ground arith)
      | inr l ↦ absurd (closed_reads l)
    ]
  ]

  opened_writes : (id : ℕ) → el0_writes (opened r id f x) ≡ true → Within (r.data_pa id) page_size x
  opened_writes id h = elim (shown_or el0_writes (in_page (r.data_pa id) x) _ _ h) [
    | inl a ↦ ground arith
    | inr k ↦ absurd (
        closed_reads (
          writes_reads (closed r 1 (closed r 0 f) x)
            (hidden el0_writes (in_page (r.code_pa id) x)
              (ap (λ t. t.3) (rights-leaf_of x map_user_rx)) k).1))
  ]

-- What holds when `user_open` has opened room `id` in `w`.
pub record Entered (w : World) (id : ℕ) (w' : World) : Type 0 where
  pub fenced : Fenced w' id
  pub readable :
      (x : ℕ)
      → x < 2 ^ 48
      → el0_reads (view w'.mmu x) ≡ true
      → Within (w.rooms.code_pa id) page_size x ⊎ Within (w.rooms.data_pa id) page_size x
  pub tree : Tree w'.mmu
  pub mem : w'.mem ≡ w.mem
  pub rooms : w'.rooms ≡ w.rooms

-- With room `id` current, the four pages placed and mapped, and no other page open to EL0, `user_open`
-- returns, and then EL0 can store only to the data page of the room and can read only its two pages.
-- Memory and the rooms are as before, and the tables form a tree.
pub user_open-Fenced :
    (w : World) (id : ℕ)
    → id < room_n
    → w.rooms.cur ≡ id
    → Tree w.mmu
    → Placed w.rooms (view w.mmu)
    → Reserved w.rooms (view w.mmu)
    → Returns (λ _ w'. Entered w id w') (user_open id w)
user_open-Fenced w id lt cur T p res =
    Returns-mono
      (user_open-Shown {r = w} id lt p
        (record { tree = T; leaves = λ x _. refl; rooms = refl; mem = refl }))
      λ _ w' s. record {
        fenced = record {
          active = ap (λ q. q.cur) s.rooms ∙ cur;
          fence = λ x small h. rw (ap (λ q. q.data_pa id) s.rooms) (
              opened_writes w.rooms (view w.mmu) res x small id
                (subst (λ u. el0_writes u ≡ true) (s.leaves x small) h));
        };
        readable = λ x small h.
            opened_reads w.rooms (view w.mmu) res x small id
              (subst (λ u. el0_reads u ≡ true) (s.leaves x small) h);
        tree = s.tree;
        mem = s.mem;
        rooms = s.rooms;
      }
