-- ===== src/Tests/Transfers.antt =====
-- Three processes, blocks of 8 bytes, and an MPI that moves lists.
use dagon_fs.Prelude.{
  ℕ, ◌+◌, ◌*◌, ◌/◌, ◌<◌, ◌≤◌, ◌≡◌, refl, Option, none, some, List, [], ◌∷◌, ◌++◌, arith, get_elem?,
  take, drop, replicate, flatten,
}
use dagon_fs.Map.{find, insert}
use dagon_fs.Blocks.{
  DataBlock, add_data_blocks_to, new_blocks, get_data_block_list_of_inode, get_addresses,
  set_addresses, block_list_exist_for_inode, create_empty_block_list_for_inode,
}
use dagon_fs.Cluster.{
  Byte, NodeProcess, Cluster, effective_blocks, part_counts, displacements, load_blocks,
  node_blocks, number_of_blocks, store_blocks, save_addresses, blocks_for_request, node_read,
  nodes_read, node_write, nodes_write, cluster_write, cluster_read,
}
use dagon_fs.Cluster.Collectives.{Mpi, IsMpi}
use dagon_fs.Cluster.ReadBack.{cluster_read-cluster_write}
use dagon_fs.Cluster.Frame.{cluster_read-cluster_write_ne}
use dagon_fs.Cluster.Owner.{IsKeptBy, rank-ne-keeper}
use dagon_fs.Cluster.Size.{number_of_blocks_bounds}
use dagon_fs.Cluster.Index.{}
use dagon_fs.Cluster.Memory.{}
use dagon_fs.Cluster.Protocol.{
  Job, write_job, read_job, terminate_job, awaits_request, stopped, master_calls, run_master,
  run_node, run_node-run_master,
}

abbrev pub list_scatterv :
    (A : Type 0) (size : ℕ) (buffer : List A) (counts displs : List ℕ) (rank : ℕ) → List A
list_scatterv A size buffer counts displs rank = elim (get_elem? counts rank) [
  | none ↦ []
  | some c ↦ elim (get_elem? displs rank) [
    | none ↦ []
    | some d ↦ take (c / size) (drop (d / size) buffer)
  ]
]

abbrev pub list_mpi : Mpi
list_mpi = record {
  scatterv = list_scatterv;
  gatherv = λ A size parts counts displs. flatten parts;
  allgatherv = λ A size parts counts displs. flatten parts;
}

list_scatterv_lem :
    (A : Type 0) (size : ℕ) (buffer : List A) (counts displs : List ℕ) (rank c d : ℕ)
    → get_elem? counts rank ≡ some c
    → get_elem? displs rank ≡ some d
    → list_scatterv A size buffer counts displs rank ≡ take (c / size) (drop (d / size) buffer)
list_scatterv_lem A size buffer counts displs rank c d e f = rw (e, f, list_scatterv) refl

pub list_mpi-IsMpi : IsMpi list_mpi
list_mpi-IsMpi = record {
  scatterv_lem = λ A size buffer counts displs rank c d h e f g.
      list_scatterv_lem A size buffer counts displs rank c d e f;
  gatherv_lem = λ A size parts counts displs h e f. refl;
  allgatherv_lem = λ A size parts counts displs. refl;
}

abbrev idle_node : NodeProcess
idle_node = record { heap = []; data_block_pointers = [] }

abbrev pub idle : Cluster
idle = record { master_heap = []; blocks = []; nodes = idle_node ∷ idle_node ∷ [] }

abbrev contents : List Byte
contents = replicate 9 (some 1) ++ (replicate 9 (some 2) ++ replicate 6 (some 3))

abbrev other_contents : List Byte
other_contents = replicate 32 (some 4)

cluster_read-cluster_write_example :
    (c' : Cluster) × (cluster_write list_mpi 8 2 20 contents idle ≡ some c')
    × (cluster_read list_mpi 8 2 20 20 c' ≡ some (some (take (number_of_blocks 8 20 * 8) contents)))
unfolding number_of_blocks
cluster_read-cluster_write_example =
    cluster_read-cluster_write list_mpi list_mpi-IsMpi 8 2 20 20 contents idle (omega arith)
      (omega arith) (omega arith) (omega arith) (omega arith)

abbrev or_idle : Option Cluster → Cluster
or_idle none = idle
or_idle (some c) = c

abbrev once : Cluster
once = or_idle (cluster_write list_mpi 8 2 20 contents idle)

abbrev twice : Cluster
twice = or_idle (cluster_write list_mpi 8 3 30 other_contents once)

cluster_read-cluster_write_ne_example : cluster_read list_mpi 8 2 20 20 twice ≡ some (some contents)
unfolding cluster_write cluster_read find insert get_data_block_list_of_inode get_addresses
    set_addresses add_data_blocks_to new_blocks block_list_exist_for_inode
    create_empty_block_list_for_inode effective_blocks part_counts displacements load_blocks
    node_blocks number_of_blocks store_blocks save_addresses blocks_for_request node_read nodes_read
    node_write nodes_write flatten
cluster_read-cluster_write_ne_example =
    cluster_read-cluster_write_ne list_mpi 8 3 30 2 20 20 other_contents once twice (some contents)
      (omega arith) refl refl

rank-ne-keeper_example :
    (b : DataBlock) × (get_elem? (add_data_blocks_to 8 3 [] 7 2) 1 ≡ some b)
    × (b.process_rank ≡ 1)
    × IsKeptBy 7 3 1 0
rank-ne-keeper_example = rank-ne-keeper 8 3 2 7 (omega arith) (omega arith)

number_of_blocks_bounds_example :
    (20 ≤ number_of_blocks 8 20 * 8) × (number_of_blocks 8 20 * 8 < 20 + 8)
number_of_blocks_bounds_example = number_of_blocks_bounds 8 20 (omega arith) (omega arith)

-- A file is written and read, and an empty file is read.
abbrev three_jobs : List Job
three_jobs =
    write_job (record { inode = 2; file_size = 20; req_size = 0; offset = 0 })
    ∷ read_job (record { inode = 3; file_size = 0; req_size = 0; offset = 0 })
    ∷ read_job (record { inode = 2; file_size = 20; req_size = 20; offset = 0 })
    ∷ []

run_node-run_master_example :
    run_node awaits_request (run_master three_jobs ++ master_calls terminate_job) ≡ some stopped
run_node-run_master_example = run_node-run_master three_jobs tt
