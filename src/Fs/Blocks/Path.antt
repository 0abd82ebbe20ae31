-- ===== src/Fs/Blocks/Path.antt =====
-- The path of a block of a file.
use oslab_2024fall.Prelude.{ℕ, ◌+◌, ◌*◌, ◌≤◌, ◌<◌, ◌≡◌, arith}
use oslab_2024fall.Fs.Blocks.{
  BlockPath, direct, single, double, triple, too_far, path_of, direct_block_num, nblock_lv1,
  nblock_lv2, nblock_lv3,
}

-- The indices are within their tables and make up the number of the block again.
abbrev pub PathSays : ℕ → BlockPath → Type 0
PathSays block_id (direct k) = (k < direct_block_num) × (block_id ≡ k)
PathSays block_id (single i1) = (i1 < nblock_lv1) × (block_id ≡ direct_block_num + i1)
PathSays block_id (double i2 i1) =
    (i2 < nblock_lv1)
    × (i1 < nblock_lv1)
    × (block_id ≡ direct_block_num + nblock_lv1 + i2 * nblock_lv1 + i1)
PathSays block_id (triple i3 i2 i1) =
    (i3 < nblock_lv1)
    × (i2 < nblock_lv1)
    × (i1 < nblock_lv1)
    × (block_id
        ≡ direct_block_num + nblock_lv1 + nblock_lv2 + i3 * nblock_lv2 + i2 * nblock_lv1 + i1)
PathSays block_id too_far = direct_block_num + nblock_lv1 + nblock_lv2 + nblock_lv3 ≤ block_id

-- The path of a block of a file through the direct, single, double or triple indirect blocks
-- has each index within its table and makes up the number of the block again; a block without a
-- path is behind the largest file.
pub path_of-says : (block_id : ℕ) → PathSays block_id (path_of block_id)
unfolding path_of
path_of-says block_id = ground arith
