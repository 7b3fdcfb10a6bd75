-- ===== src/Checks/Tree.antt =====
-- The theorems on the device tree, at concrete inputs.
use nxu.Base.{
  ℕ, ◌+◌, ◌*◌, ◌/◌, ◌^◌, ◌<◌, ◌≡◌, ◌≢◌, ◌↔◌, refl, true, arith, subst, List, [], ◌∷◌, ◌++◌, length,
  get_or, get_elem?, none, some, Leaves, MayHalt, Returns,
}
use nxu.Range.{Range, range, range_ok}
use nxu.Console.{txt}
use nxu.World.{World}
use nxu.Dtb.{
  align4, scan, fdt_prop, Bytes, Blob, Node, be32, str_eq, str_has, parse_reg, dtb_probe_cap,
}
use nxu.Dtb.Parser.{token_loop, start, root_node}
use nxu.Dtb.Stage.{no_cand, check_header}
use nxu.Dtb.Header.{HeaderIsLawful, Apart, check_header-Apart}
use nxu.Dtb.Valid.{ParseIsValid}
use nxu.Dtb.Valid.Tokens.{parser-Valid}
use nxu.Dtb.Lawful.{BlobIsLawful, TokenAt, first, behind, next_token}
use nxu.Dtb.Ends.Loop.{Ended, parser-Ended}
use nxu.Dtb.Wrap.{TurnsBack, Astray, loop-Astray}
use nxu.Dtb.Names.{Has, str_has-Has}
use nxu.Dtb.Reg.{write_regs, parse_reg-write_regs}
use nxu.Checks.Zero.{zero_dtb_cand}
use nxu.Checks.Kernel.{kernel}

abbrev bytes : List ℕ → Bytes
bytes l i = get_or l i 0

-- a tree of one node with `reg = <3 0x80000000>`, and its strings behind the structure block
abbrev tree : List ℕ
tree =
    (0 ∷ (0 ∷ (0 ∷ (1 ∷ (0 ∷ (0 ∷ (0 ∷ (0 ∷ []))))))))
    ++ ((0 ∷ (0 ∷ (0 ∷ (1 ∷ (109 ∷ (0 ∷ (0 ∷ (0 ∷ []))))))))
        ++ ((0 ∷ (0 ∷ (0 ∷ (3 ∷ (0 ∷ (0 ∷ (0 ∷ (8 ∷ (0 ∷ (0 ∷ (0 ∷ (0 ∷ []))))))))))))
            ++ ((0 ∷ (0 ∷ (0 ∷ (3 ∷ (128 ∷ (0 ∷ (0 ∷ (0 ∷ []))))))))
                ++ ((0 ∷ (0 ∷ (0 ∷ (2 ∷ (0 ∷ (0 ∷ (0 ∷ (2 ∷ (0 ∷ (0 ∷ (0 ∷ (9 ∷ []))))))))))))
                    ++ (txt "reg" ++ (0 ∷ []))))))

abbrev tree_blob : Blob
tree_blob = record {
  byte = bytes tree;
  off_struct = 0;
  size_struct = 48;
  off_strings = 48;
  size_strings = 4;
}

parser-Valid_example :
    Leaves ParseIsValid (token_loop 20 tree_blob (start tree_blob (no_cand zero_dtb_cand)))
parser-Valid_example = parser-Valid 20 tree_blob zero_dtb_cand

-- a kernel of 64 KiB at 0x40200000
abbrev with_image : World
with_image = record kernel {
  image = record { base = 0x40200000; size = 0x10000; text_end = 0; rodata_end = 0; data_end = 0 };
}

check_header-Apart_example :
    MayHalt
      (λ total v.
        (v ≡ with_image)
        × HeaderIsLawful with_image 0x44000000 total
        × Apart with_image 0x44000000 total)
      (check_header 0x44000000 with_image)
unfolding range_ok
check_header-Apart_example =
    check_header-Apart with_image 0x44000000 (omega arith) (omega arith) (omega arith) refl

-- the tokens of the tree, from one to the next
data TreeToken : ℕ → Type 0 where
  at_root : TreeToken 0
  at_node : TreeToken 8
  at_reg : TreeToken 16
  at_node_end : TreeToken 36
  at_root_end : TreeToken 40
  at_end : TreeToken 44

same_some : {p q : ℕ} → some p ≡ some q → p ≡ q
same_some e = cc

next-TreeToken : {p q : ℕ} → TreeToken p → next_token tree_blob p ≡ some q → TreeToken q
unfolding next_token be32 align4 scan
next-TreeToken at_root e = subst TreeToken (same_some e) at_node
next-TreeToken at_node e = subst TreeToken (same_some e) at_reg
next-TreeToken at_reg e = subst TreeToken (same_some e) at_node_end
next-TreeToken at_node_end e = subst TreeToken (same_some e) at_root_end
next-TreeToken at_root_end e = subst TreeToken (same_some e) at_end
next-TreeToken at_end e = absurd cc

token-TreeToken : {p : ℕ} → TokenAt tree_blob p → TreeToken p
token-TreeToken first = at_root
token-TreeToken (behind t h e) = next-TreeToken (token-TreeToken t) e

tree_values :
    {p : ℕ}
    → TreeToken p
    → be32 tree_blob.byte p ≡ fdt_prop
    → p + 12 + be32 tree_blob.byte (p + 4) < 2 ^ 32
unfolding be32
tree_values at_root e = omega arith
tree_values at_node e = omega arith
tree_values at_reg e = omega arith
tree_values at_node_end e = omega arith
tree_values at_root_end e = omega arith
tree_values at_end e = omega arith

tree_blob-Lawful : BlobIsLawful tree_blob
tree_blob-Lawful = record {
  block = omega arith;
  values = λ p t h e. tree_values (token-TreeToken t) e;
}

parser-Ended_example :
    MayHalt Ended
      (token_loop (dtb_probe_cap / 4 + 2) tree_blob (start tree_blob (no_cand zero_dtb_cand)))
parser-Ended_example = parser-Ended tree_blob zero_dtb_cand tree_blob-Lawful

-- a property of the length 2 ^ 32 - 12
abbrev astray_blob : Blob
astray_blob = record {
  byte = bytes (0 ∷ (0 ∷ (0 ∷ (3 ∷ (255 ∷ (255 ∷ (255 ∷ (244 ∷ []))))))));
  off_struct = 0;
  size_struct = 12;
  off_strings = 12;
  size_strings = 4;
}

astray_blob-TurnsBack : TurnsBack astray_blob 0
unfolding be32 str_eq
astray_blob-TurnsBack = record {
  is_prop = refl;
  length = refl;
  name_in = omega arith;
  name = refl;
  aligned = refl;
  within = omega arith;
}

loop-Astray_example :
    Returns (Astray 0) (token_loop 1000 astray_blob (start astray_blob (no_cand zero_dtb_cand)))
loop-Astray_example =
    loop-Astray 1000 astray_blob 0 (start astray_blob (no_cand zero_dtb_cand)) astray_blob-TurnsBack
      refl

-- the names of a UART
abbrev uart_list : List ℕ
uart_list = txt "arm,pl011" ++ (0 ∷ (txt "arm,primecell" ++ (0 ∷ [])))

str_has-Has_example :
    (str_has (bytes uart_list) 0 24 (txt "arm,primecell") ≢ none)
    × ((str_has (bytes uart_list) 0 24 (txt "arm,primecell") ≡ some true)
        ↔ Has (bytes uart_list) 0 24 (txt "arm,primecell"))
str_has-Has_example = str_has-Has (bytes uart_list) 0 24 (txt "arm,primecell") (omega arith)

abbrev one_range : List Range
one_range = range 0x80000000 0x40000000 ∷ []

abbrev reg_node : Node
reg_node = record root_node { reg_ac = 2; reg_sc = 2 }

parse_reg-write_regs_example :
    ((parse_reg (bytes (write_regs one_range)) 0 (16 * length one_range) reg_node).nreg ≡ 1)
    × ((k : ℕ) (r : Range)
        → get_elem? one_range k ≡ some r
        → (parse_reg (bytes (write_regs one_range)) 0 (16 * length one_range) reg_node).regs k ≡ r)
unfolding write_regs
parse_reg-write_regs_example =
    parse_reg-write_regs (bytes (write_regs one_range)) 0 one_range reg_node refl refl (omega arith)
      (omega arith, (omega arith, tt))
      (
        refl,
        (
          refl,
          (
            refl,
            (
              refl,
              (
                refl,
                (
                  refl,
                  (
                    refl,
                    (refl, (refl, (refl, (refl, (refl, (refl, (refl, (refl, (refl, tt))))))))),
                  ),
                ),
              ),
            ),
          ),
        ),
      )
