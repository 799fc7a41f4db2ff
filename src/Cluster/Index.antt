-- ===== src/Cluster/Index.antt =====
-- The master's index of blocks: after a write the first blocks of the inode have the addresses of
-- that write, in order, and no other inode's list has changed.
use dagon_fs.Prelude.{
  ℕ, zero, suc, ◌+◌, ◌-◌, ◌≤◌, ◌≡◌, refl, ap, ◌∙◌, some, List, [], ◌∷◌, arith, length,
  length-append, ltb, if◌then◌else◌,
}
use dagon_fs.Map.{insert}
use dagon_fs.Map.Keys.{nat_ord}
use dagon_fs.Map.Laws.{find-insert_self}
use dagon_fs.Blocks.{
  Address, DataBlock, Blocks, get_data_block_list_of_inode, set_addresses, get_addresses,
  new_blocks, add_data_blocks_to,
}
use dagon_fs.Cluster.{save_addresses}

pub get_addresses-set_addresses :
    (l : List DataBlock) (addresses : List Address) (n : ℕ)
    → length addresses ≡ n
    → n ≤ length l
    → get_addresses n (set_addresses l addresses) ≡ some addresses
unfolding get_addresses set_addresses
get_addresses-set_addresses l [] zero e h = refl
get_addresses-set_addresses l [] (suc n) e h = absurd (omega arith)
get_addresses-set_addresses l (a ∷ rest) zero e h = absurd (omega arith)
get_addresses-set_addresses [] (a ∷ rest) (suc n) e h = absurd (omega arith)
get_addresses-set_addresses (b ∷ l) (a ∷ rest) (suc n) e h =
    ground (arith, get_addresses-set_addresses l rest n)

length-new_blocks :
    (block_size world inode i rank left : ℕ)
    → length (new_blocks block_size world inode i rank left) ≡ left
unfolding new_blocks
length-new_blocks b w inode i rank zero = refl
length-new_blocks b w inode i rank (suc left) = ap suc (length-new_blocks b w inode (i + 1) _ left)

length-add_data_blocks_to :
    (block_size world inode k : ℕ) (l : List DataBlock)
    → length (add_data_blocks_to block_size world l k inode) ≡ length l + k
unfolding add_data_blocks_to
length-add_data_blocks_to b w inode k l =
    length-append l _ ∙ ap (◌+◌ (length l)) (length-new_blocks b w inode (length l) _ k)

pub grown-length :
    (block_size world inode n : ℕ) (l : List DataBlock)
    → n
      ≤ length (
          if ltb (length l) n
          then add_data_blocks_to block_size world l (n - length l) inode
          else l)
grown-length b w inode n l = ground (arith, length-add_data_blocks_to b w inode (n - length l) l)

pub list-insert_self :
    (inode : ℕ) (l : List DataBlock) (bs : Blocks)
    → get_data_block_list_of_inode inode (insert inode l bs) ≡ l
unfolding get_data_block_list_of_inode
list-insert_self inode l bs = ground (arith, find-insert_self inode l bs)

-- After a write has saved n addresses, the first n addresses read from the index of the inode are
-- these.
pub get_addresses-save_addresses :
    (block_size world inode n : ℕ) (addresses : List Address) (bs : Blocks)
    → length addresses ≡ n
    → get_addresses n
        (get_data_block_list_of_inode inode (save_addresses block_size world inode n addresses bs))
      ≡ some addresses
unfolding save_addresses
get_addresses-save_addresses b w inode n addresses bs e =
    rw list-insert_self (get_addresses-set_addresses _ addresses n e (grown-length b w inode n _))
