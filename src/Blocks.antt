-- ===== src/Blocks.antt =====
-- blocks/DataBlock.{hpp,cpp}, blocks/Blocks.{hpp,cpp} and mpi/DataBlockManager.cpp: the index of the
-- blocks of each inode. The size of a block is a constant of each of the two programs, 131072 in the
-- client-server one and 512 in the peer-to-peer one: it is the parameter `block_size`.
use dagon_fs.Prelude.{
  ℕ, zero, suc, ◌+◌, ◌*◌, ◌%◌, Bool, true, false, Option, none, some, List, [], ◌∷◌, ◌++◌, length,
  ◌==◌, if◌then◌else◌,
}
use dagon_fs.Map.{Map, find, insert}
use dagon_fs.Map.Keys.{nat_ord}

-- `unsigned int` and `int` keep 32 bits.
abbrev pub u32 : ℕ → ℕ
u32 n = n % 4294967296

-- `FILE_SYSTEM_SINGLE_BLOCK_SIZE` of the client-server program.
abbrev pub cs_block_size : ℕ
cs_block_size = 131072

-- `FILE_SYSTEM_SINGLE_BLOCK_SIZE` of the peer-to-peer program.
abbrev pub p2p_block_size : ℕ
p2p_block_size = 512

-- A `void *` to a block: the place of the block in its process's heap. `none` is a null pointer.
abbrev pub Address : Type 0
Address = Option ℕ

pub record DataBlock : Type 0 where
  pub inode : ℕ
  pub data_block_address : Address
  pub used_bytes : ℕ
  pub absolute_bytes : ℕ
  pub process_rank : ℕ
  pub progressive_number : ℕ

-- `DataBlock::DataBlock(inode)`
abbrev pub new_data_block : ℕ → DataBlock
new_data_block inode = record {
  inode = inode;
  data_block_address = none;
  used_bytes = 0;
  absolute_bytes = 0;
  process_rank = 0;
  progressive_number = 0;
}

-- `FileSystemDataBlocks`
abbrev pub Blocks : Type 0
Blocks = Map ℕ (List DataBlock)

-- `blockListExistForInode`: it tests `find(inode) == end()`.
unfoldable pub block_list_exist_for_inode : ℕ → Blocks → Bool
block_list_exist_for_inode inode bs = elim (find inode bs) [ none ↦ true | some l ↦ false ]

unfoldable pub create_empty_block_list_for_inode : ℕ → Blocks → Blocks
create_empty_block_list_for_inode inode bs = elim (find inode bs) [
  | none ↦ insert inode [] bs
  | some l ↦ bs
]

-- `getDataBlockListOfInode`: `operator[]` on a missing key makes an empty list.
unfoldable pub get_data_block_list_of_inode : ℕ → Blocks → List DataBlock
get_data_block_list_of_inode inode bs = elim (find inode bs) [ none ↦ [] | some l ↦ l ]

-- The rank of the last block of the list, or 0.
abbrev pub last_rank : List DataBlock → ℕ
last_rank [] = 0
last_rank (b ∷ []) = b.process_rank
last_rank (b ∷ c ∷ l) = last_rank (c ∷ l)

-- `if (++rank_i == mpi_world_size) rank_i = 0;`
abbrev pub next_rank : ℕ → ℕ → ℕ
next_rank world rank = if (rank + 1) == world then 0 else rank + 1

module _ (block_size : ℕ) where
  -- The body of the loop of `addDataBlocksTo`: block `i`.
  abbrev pub numbered_block : ℕ → ℕ → ℕ → DataBlock
  numbered_block inode rank i = record {
    inode = inode;
    data_block_address = none;
    used_bytes = 0;
    absolute_bytes = u32 (i * block_size);
    process_rank = rank;
    progressive_number = i;
  }

  -- The loop from block `i` on, with the blocks left to add.
  unfoldable pub new_blocks : (world inode i rank left : ℕ) → List DataBlock
  new_blocks world inode i rank zero = []
  new_blocks world inode i rank (suc left) =
      numbered_block inode rank i ∷ new_blocks world inode (i + 1) (next_rank world rank) left

  unfoldable pub add_data_blocks_to :
      (world : ℕ) → List DataBlock → (nblocks inode : ℕ) → List DataBlock
  unfolding new_blocks
  add_data_blocks_to world l nblocks inode =
      l ++ new_blocks world inode (length l) (last_rank l) nblocks

-- `dataBlock->setData(addresses[i].address)` for the first blocks of the list.
unfoldable pub set_addresses : List DataBlock → List Address → List DataBlock
set_addresses l [] = l
set_addresses [] (a ∷ rest) = []
set_addresses (b ∷ l) (a ∷ rest) = record b { data_block_address = a } ∷ set_addresses l rest

-- `addressesToScat[i].address = dataBlockList[i]->getData()` for the first `n` blocks; a list that
-- is too short is read out of bounds.
unfoldable pub get_addresses : ℕ → List DataBlock → Option (List Address)
get_addresses zero l = some []
get_addresses (suc n) [] = none
get_addresses (suc n) (b ∷ l) = elim (get_addresses n l) [
  | none ↦ none
  | some rest ↦ some (b.data_block_address ∷ rest)
]

-- `setBlockListForInode`
unfoldable pub set_block_list_for_inode : ℕ → List DataBlock → Blocks → Blocks
set_block_list_for_inode inode l bs = insert inode l bs

-- `addDataBlockToInode(inode, dataBlock)`
unfoldable pub push_data_block_to_inode : ℕ → DataBlock → Blocks → Blocks
unfolding get_data_block_list_of_inode
push_data_block_to_inode inode b bs =
    insert inode (get_data_block_list_of_inode inode bs ++ b ∷ []) bs

-- The offset behind the last block of a list, or 0.
abbrev pub next_offset : (block_size : ℕ) → List DataBlock → ℕ
next_offset block_size [] = 0
next_offset block_size (b ∷ []) = u32 (b.absolute_bytes + block_size)
next_offset block_size (b ∷ c ∷ l) = next_offset block_size (c ∷ l)

-- `addDataBlockToInode(inode)`: the new block and the index with it.
unfoldable pub add_data_block_to_inode : (block_size inode : ℕ) → Blocks → DataBlock × Blocks
unfolding push_data_block_to_inode
add_data_block_to_inode block_size inode bs =
    let l = get_data_block_list_of_inode inode bs in
    let b = record (new_data_block inode) { absolute_bytes = next_offset block_size l } in
    (b, push_data_block_to_inode inode b bs)

-- `getNumberOfUsedBlocksOfInode`
unfoldable pub get_number_of_used_blocks_of_inode : ℕ → Blocks → ℕ
get_number_of_used_blocks_of_inode inode bs = u32 (length (get_data_block_list_of_inode inode bs))

-- `getTotalBlockBytesOfInode`
unfoldable pub get_total_block_bytes_of_inode : (block_size inode : ℕ) → Blocks → ℕ
unfolding get_number_of_used_blocks_of_inode
get_total_block_bytes_of_inode block_size inode bs =
    u32 (get_number_of_used_blocks_of_inode inode bs * block_size)

-- `hasNoBlocks`
unfoldable pub has_no_blocks : ℕ → Blocks → Bool
has_no_blocks inode bs = length (get_data_block_list_of_inode inode bs) == 0
