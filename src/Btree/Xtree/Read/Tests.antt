-- ===== src/Btree/Xtree/Read/Tests.antt =====
-- A read through the extent tree, from a concrete store.
use jfsfuse.Prelude.{
  ℕ, ◌≡◌, refl, List, ◌∷◌, take, length-replicate, replicate, if◌then◌else◌, ltb, lt→ltb, some,
  none, arith,
}
use jfsfuse.Types.Xad
use jfsfuse.Types.Xad.{Xad}
use jfsfuse.Types.XtRoot
use jfsfuse.Types.XtRoot.{XtRoot}
use jfsfuse.Storage.Sample
use jfsfuse.Storage.Sample.{empty_world, store}
use jfsfuse.Types.Pxd
use jfsfuse.Storage.Trait.{Storage}
use jfsfuse.Btree.Xtree.{map_blocks, map_loop, lookup, lookup_in}
use jfsfuse.Btree.Xtree.Read.{ReadAnswer, read_data}
use jfsfuse.Btree.Xtree.Read.Contents.{image, read_data-image}

-- three blocks from block 7 of the file on, at block 40
abbrev three_blocks : Xad
three_blocks = record {
  flag = 1;
  rsvrd = 0;
  off1 = 0;
  off2 = 7;
  loc = record { len_addr = 3; addr2 = 40 };
}

abbrev root : XtRoot
root = record {
  header = record XtRoot.default.header { nextindex = 3 };
  xad = Xad.default ∷ Xad.default ∷ three_blocks ∷ replicate 15 Xad.default;
}

-- Each block is filled with its own number.
abbrev block_data : ℕ → List ℕ
block_data b = replicate 4096 b

abbrev filled : Sample.World
filled = record empty_world { blocks = block_data }

-- a store that fails from block 100 on
abbrev hundred_blocks : Storage Sample.World
hundred_blocks = record store { read_block = λ w b. if ltb b 100 then some (w.blocks b) else none }

-- 5000 bytes from block 8 on lie in the blocks 41 and 42.
read_data-image_example :
    read_data hundred_blocks filled root 32768 5000
    ≡ ReadAnswer.read (take 5000 (image block_data (map_blocks root 8 2)))
unfolding map_blocks map_loop lookup lookup_in Xad.offset Xad.length_of Xad.address Pxd.length_of
    Pxd.address
read_data-image_example =
    read_data-image hundred_blocks filled block_data 100 root 32768 5000
      (λ b h. (rw (lt→ltb b 100 h) refl, length-replicate 4096 b)) refl (omega arith, tt)
