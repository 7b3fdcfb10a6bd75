-- ===== src/Dtb/Lawful.antt =====
-- The blobs on which the loop of `nxu_s3_dtb` (foundation/facts/fdt.c) comes to its end: where their
-- tokens are, and what their properties may be.
use nxu.Base.{ℕ, ◌+◌, ◌-◌, ◌^◌, ◌≤◌, ◌<◌, ◌≡◌, Option, none, some, ◌==◌, if◌then◌else◌}
use nxu.Word.{add32}
use nxu.Dtb.{
  fdt_nop, fdt_end, fdt_begin_node, fdt_end_node, fdt_prop, dtb_probe_cap, Blob, struct_end, be32,
  align4, scan,
}

-- where the name of a node that begins at `p` ends
abbrev pub name_end : Blob → ℕ → ℕ
name_end b p = align4 (add32 p (scan (struct_end b - p) b.byte p + 1))

-- where the value of a property ends: at `p` stand its length, the offset of its name and the value
abbrev pub value_end : ℕ → ℕ → ℕ
value_end p len = align4 (add32 (add32 p 8) len)

-- the offset of the token behind that at `p`; none is behind FDT_END or what is not a token
unfoldable pub next_token : Blob → ℕ → Option ℕ
next_token b p =
    let word = be32 b.byte p in
    if word == fdt_nop
    then some (add32 p 4)
    else if word == fdt_end
    then none
    else if word == fdt_begin_node
    then some (name_end b (add32 p 4))
    else if word == fdt_end_node
    then some (add32 p 4)
    else if word == fdt_prop
    then some (value_end (add32 p 4) (be32 b.byte (add32 p 4)))
    else none

-- The offsets of the tokens: the start of the structure block, and what stands behind a token in it.
pub data TokenAt (b : Blob) : ℕ → Type 0 where
  first : TokenAt b b.off_struct
  behind : {p q : ℕ} → TokenAt b p → p + 4 ≤ struct_end b → next_token b p ≡ some q → TokenAt b q

-- A blob whose structure block ends within the cap, and in which the value of every property (a token
-- FDT_PROP at the offset of a token) ends below 2 ^ 32.
pub record BlobIsLawful (b : Blob) : Type 0 where
  pub block : b.off_struct + b.size_struct ≤ dtb_probe_cap
  pub values :
      (p : ℕ)
      → TokenAt b p
      → p + 4 ≤ struct_end b
      → be32 b.byte p ≡ fdt_prop
      → p + 12 + be32 b.byte (p + 4) < 2 ^ 32
