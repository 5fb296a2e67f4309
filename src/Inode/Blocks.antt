-- ===== src/Inode/Blocks.antt =====
-- The block count that a reply carries.
use cultivate.Common.{◌+◌, ◌*◌, ◌^◌, ◌<◌, ◌≤◌, arith}
use cultivate.Inode.{InodeAttributes, file_attr, block_size}

-- Unless the size is within a block of 2 ^ 64, the blocks of a reply cover the size, and one block
-- fewer does not.
blocks_cover :
    (a : InodeAttributes)
    → a.size + block_size < 2 ^ 64
    → (a.size ≤ (file_attr a).blocks * block_size)
      × ((file_attr a).blocks * block_size < a.size + block_size)
unfolding file_attr
blocks_cover a h = omega arith
