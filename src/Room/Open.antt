-- ===== src/Room/Open.antt =====
-- `user_open` of foundation/room/room.c: what EL0 can reach when a room is entered.
pub mod Fence
use nxu.Base.{
  ℕ, zero, suc, ◌+◌, ◌%◌, ◌^◌, ◌≤◌, ◌<◌, ◌≡◌, refl, ap, ◌∙◌, subst, ◌⊎◌, inl, inr, Bool, true,
  false, ◌&&◌, ◌||◌, arith, Outcome, ok, halted, Bool-cases, if◌then◌else◌, ltb, leb, Returns,
  returns, Returns-and_then, Returns-mono, for_range,
}
use nxu.Word.{page_size}
use nxu.Range.Membership.{Within}
use nxu.Mmu.{Mmu, mmu_map, map_rw, map_user_rx, map_user_rw, is_valid}
use nxu.Mmu.Tree.{Tree}
use nxu.Mmu.Walk.{view}
use nxu.Mmu.MapPage.{leaf_of}
use nxu.Mmu.MapRange.{RangeMapped, RemapsRange, range_mapped, range_full, mmu_map-RangeMapped}
use nxu.Mmu.Perm.{rights-leaf_of, leaf_of-valid, el0_reads, el0_writes}
use nxu.World.{World, Rooms, in_mmu, fail_with}
use nxu.World.{tell}
use nxu.Silicon.{mmu_tlbi}
use nxu.Room.{user_open, priv, tlbi_icache, room_n}
use nxu.Room.Isolation.{Fenced}

abbrev pub in_page : ℕ → ℕ → Bool
in_page pa x = leb pa x && ltb x (pa + page_size)

-- the leaves after the page at `pa` is mapped with `perm`
abbrev pub paint : ℕ → ℕ → (ℕ → ℕ) → ℕ → ℕ
paint pa perm f x = if in_page pa x then leaf_of x perm else f x

-- A page that `nxu_mmu_map` takes, and that has a leaf.
pub record Page (f : ℕ → ℕ) (pa : ℕ) : Type 0 where
  pub aligned : pa % page_size ≡ 0
  pub placed : pa + page_size ≤ 2 ^ 48
  pub mapped : (x : ℕ) → Within pa page_size x → is_valid (f x) ≡ true

-- The tables of `w` give every address the leaf of `f`; its rooms, and its memory, are those of `r`.
pub record Shown (r : World) (f : ℕ → ℕ) (w : World) : Type 0 where
  pub tree : Tree w.mmu
  pub leaves : (x : ℕ) → x < 2 ^ 48 → view w.mmu x ≡ f x
  pub rooms : w.rooms ≡ r.rooms
  pub mem : w.mem ≡ r.mem

paint-Page : {f : ℕ → ℕ} {pa : ℕ} (qa perm : ℕ) → Page f pa → Page (paint qa perm f) pa
paint-Page {f} {pa} qa perm p = record {
  aligned = p.aligned;
  placed = p.placed;
  mapped = λ x h. still x h;
}
  where
    still : (x : ℕ) → Within pa page_size x → is_valid (paint qa perm f x) ≡ true
    still x h = elim (Bool-cases (in_page qa x)) [
      | inl a ↦ rw a (leaf_of-valid x perm)
      | inr a ↦ rw a (p.mapped x h)
    ]

map-Shown :
    {r w : World} {f : ℕ → ℕ} (pa perm : ℕ)
    → Page f pa
    → Shown r f w
    → Returns (λ _ w'. Shown r (paint pa perm f) w') (in_mmu (mmu_map pa page_size perm) w)
unfolding in_mmu
map-Shown {r} {w} {f} pa perm p s =
    through (mmu_map-RangeMapped s.tree pa 1 perm p.aligned (omega arith) (omega (arith, p.placed)))
  where
    painted :
        {m : Mmu} (T : Tree m)
        → RemapsRange w.mmu m pa page_size perm
        → (x : ℕ) → x < 2 ^ 48
        → view m x ≡ paint pa perm f x
    painted T rm x lt = elim (Bool-cases (in_page pa x)) [
      | inl a ↦ rw a (rm.within x (ground arith))
      | inr a ↦ rw a (rm.outside x lt (λ h. ground arith) ∙ s.leaves x lt)
    ]

    through :
        {o : Outcome Mmu (Unit {0})}
        → RangeMapped s.tree pa 1 perm o
        → Returns
            (λ _ w'. Shown r (paint pa perm f) w')
            (elim o [
              | ok a m ↦ ok a (record w { mmu = m })
              | halted e m ↦ fail_with e (record w { mmu = m })
            ])
    through (range_mapped T' rm u k) =
        returns (record { tree = T'; leaves = painted T' rm; rooms = s.rooms; mem = s.mem })
    through (range_full c np u) =
        absurd (np λ x h. rw (s.leaves x (omega (arith, p.placed))) (p.mapped x h))

-- the pages of the two rooms
pub record Placed (r : Rooms) (f : ℕ → ℕ) : Type 0 where
  pub code0 : Page f (r.code_pa 0)
  pub data0 : Page f (r.data_pa 0)
  pub code1 : Page f (r.code_pa 1)
  pub data1 : Page f (r.data_pa 1)

paint-Placed : {r : Rooms} {f : ℕ → ℕ} (qa perm : ℕ) → Placed r f → Placed r (paint qa perm f)
paint-Placed qa perm p = record {
  code0 = paint-Page qa perm p.code0;
  data0 = paint-Page qa perm p.data0;
  code1 = paint-Page qa perm p.code1;
  data1 = paint-Page qa perm p.data1;
}

-- the leaves after `priv`
abbrev pub closed : Rooms → ℕ → (ℕ → ℕ) → ℕ → ℕ
closed r id f = paint (r.data_pa id) map_rw (paint (r.code_pa id) map_rw f)

-- the leaves after `user_open`
abbrev pub opened : Rooms → ℕ → (ℕ → ℕ) → ℕ → ℕ
opened r id f =
    paint (r.data_pa id) map_user_rw (paint (r.code_pa id) map_user_rx (closed r 1 (closed r 0 f)))

code-Page : {r : Rooms} {f : ℕ → ℕ} (id : ℕ) → id < room_n → Placed r f → Page f (r.code_pa id)
code-Page {r} {f} zero lt p = p.code0
code-Page {r} {f} (suc id) lt p = subst (λ i. Page f (r.code_pa i)) (omega arith) p.code1

data-Page : {r : Rooms} {f : ℕ → ℕ} (id : ℕ) → id < room_n → Placed r f → Page f (r.data_pa id)
data-Page {r} {f} zero lt p = p.data0
data-Page {r} {f} (suc id) lt p = subst (λ i. Page f (r.data_pa i)) (omega arith) p.data1

closed-Placed : {r : Rooms} {f : ℕ → ℕ} (id : ℕ) → Placed r f → Placed r (closed r id f)
closed-Placed id p = paint-Placed _ map_rw (paint-Placed _ map_rw p)

module _ {r : World} where
  map_code :
      {w : World} {f : ℕ → ℕ} (id perm : ℕ)
      → id < room_n
      → Placed r.rooms f
      → Shown r f w
      → Returns
          (λ _ w'. Shown r (paint (r.rooms.code_pa id) perm f) w')
          (in_mmu (mmu_map (w.rooms.code_pa id) page_size perm) w)
  map_code id perm lt p s =
      rw (ap (λ q. q.code_pa id) s.rooms) (map-Shown _ perm (code-Page id lt p) s)

  map_data :
      {w : World} {f : ℕ → ℕ} (id perm : ℕ)
      → id < room_n
      → Placed r.rooms f
      → Shown r f w
      → Returns
          (λ _ w'. Shown r (paint (r.rooms.data_pa id) perm f) w')
          (in_mmu (mmu_map (w.rooms.data_pa id) page_size perm) w)
  map_data id perm lt p s =
      rw (ap (λ q. q.data_pa id) s.rooms) (map-Shown _ perm (data-Page id lt p) s)

  priv-Shown :
      {w : World} {f : ℕ → ℕ} (id : ℕ)
      → id < room_n
      → Placed r.rooms f
      → Shown r f w
      → Returns (λ _ w'. Shown r (closed r.rooms id f) w') (priv id w)
  unfolding priv
  priv-Shown id lt p s =
      Returns-and_then (map_code id map_rw lt p s)
        λ _ w1 s1. map_data id map_rw lt (paint-Placed _ map_rw p) s1

  tlbi-Shown :
      {w : World} {f : ℕ → ℕ} → Shown r f w → Returns (λ _ w'. Shown r f w') (tlbi_icache w)
  unfolding tlbi_icache mmu_tlbi tell
  tlbi-Shown s = returns (record { tree = s.tree; leaves = s.leaves; rooms = s.rooms; mem = s.mem })

  both-Shown :
      {w : World} {f : ℕ → ℕ}
      → Placed r.rooms f
      → Shown r f w
      → Returns
          (λ _ w'. Shown r (closed r.rooms 1 (closed r.rooms 0 f)) w')
          (for_range room_n 0 priv w)
  unfolding for_range
  both-Shown p s = Returns-and_then (priv-Shown 0 (omega arith) p s) λ _ w0 s0.
      Returns-and_then (priv-Shown 1 (omega arith) (closed-Placed 0 p) s0) λ _ w1 s1. returns s1

  pub user_open-Shown :
      {w : World} {f : ℕ → ℕ} (id : ℕ)
      → id < room_n
      → Placed r.rooms f
      → Shown r f w
      → Returns (λ _ w'. Shown r (opened r.rooms id f) w') (user_open id w)
  unfolding user_open
  user_open-Shown id lt p s =
      let p1 = closed-Placed 1 (closed-Placed 0 p) in
      Returns-and_then (both-Shown p s) λ _ w1 s1.
        Returns-and_then (map_code id map_user_rx lt p1 s1) λ _ w2 s2.
          Returns-and_then (map_data id map_user_rw lt (paint-Placed _ map_user_rx p1) s2)
            λ _ w3 s3. tlbi-Shown s3

-- Only the four pages of the rooms are open to EL0.
abbrev pub Reserved : Rooms → (ℕ → ℕ) → Type 0
Reserved r f =
    (x : ℕ)
    → x < 2 ^ 48
    → el0_reads (f x) ≡ true
    → (in_page (r.data_pa 0) x
        || (in_page (r.code_pa 0) x || (in_page (r.data_pa 1) x || in_page (r.code_pa 1) x)))
      ≡ true
