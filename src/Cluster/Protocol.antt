-- ===== src/Cluster/Protocol.antt =====
-- The collective calls of a run, in their order: those of the master, which are made for the requests
-- of FUSE, and those that the loop of `NodeProcessCode::start` is ready for. A call that one process
-- makes while another waits in a different one would block the run.
use dagon_fs.Prelude.{
  ℕ, ◌≡◌, refl, Option, some, none, List, [], ◌∷◌, ◌++◌, ◌==◌, if◌then◌else◌, ◌>>=◌, Bool-cases,
  inl, inr,
}

pub data RequestType : Type 0 where
  write read change_dir reduce_blocks terminate : RequestType

-- `IORequestPacket`
pub record IoRequest : Type 0 where
  pub inode : ℕ
  pub file_size : ℕ
  pub req_size : ℕ
  pub offset : ℕ

-- A collective call, with what a broadcast carries.
pub data Call : Type 0 where
  bcast_request : RequestType → Call
  bcast_io : IoRequest → Call
  scatterv gatherv : Call

-- What the file system asks of the master: `sendWriteRequest` and `DAGonFS_Write`, `sendReadRequest`
-- and `DAGonFS_Read`, `sendChangedir`, `sendTermination`.
pub data Job : Type 0 where
  write_job read_job : IoRequest → Job
  change_dir_job terminate_job : Job

-- The calls of `MasterProcessCode::DAGonFS_Read` behind its broadcast.
abbrev pub read_calls : IoRequest → List Call
read_calls io = if io.file_size == 0 then [] else scatterv ∷ gatherv ∷ []

unfoldable pub master_calls : Job → List Call
master_calls (write_job io) = bcast_request write ∷ bcast_io io ∷ scatterv ∷ gatherv ∷ []
master_calls (read_job io) = bcast_request read ∷ bcast_io io ∷ read_calls io
master_calls change_dir_job = bcast_request change_dir ∷ []
master_calls terminate_job = bcast_request terminate ∷ []

unfoldable pub run_master : List Job → List Call
unfolding master_calls
run_master [] = []
run_master (j ∷ jobs) = master_calls j ++ run_master jobs

-- Where a node stands: before the next call it makes.
pub data NodeState : Type 0 where
  awaits_request : NodeState
  awaits_write_io awaits_read_io : NodeState
  awaits_scatterv awaits_gatherv : NodeState
  stopped : NodeState

-- The `switch` of `NodeProcessCode::start`.
abbrev pub after_request : RequestType → NodeState
after_request write = awaits_write_io
after_request read = awaits_read_io
after_request change_dir = awaits_request
after_request reduce_blocks = awaits_request
after_request terminate = stopped

-- One call of the node, if it is the one that the master makes.
unfoldable pub node_call : NodeState → Call → Option NodeState
node_call awaits_request (bcast_request type) = some (after_request type)
node_call awaits_write_io (bcast_io io) = some awaits_scatterv
node_call awaits_read_io (bcast_io io) =
    some (if io.file_size == 0 then awaits_request else awaits_scatterv)
node_call awaits_scatterv scatterv = some awaits_gatherv
node_call awaits_gatherv gatherv = some awaits_request
node_call _ _ = none

unfoldable pub run_node : NodeState → List Call → Option NodeState
unfolding node_call
run_node n [] = some n
run_node n (c ∷ calls) = node_call n c >>= λ m. run_node m calls

-- No job but the last ends the run.
abbrev pub IsRunning : List Job → Type 0
IsRunning [] = Unit {0}
IsRunning (terminate_job ∷ jobs) = ⊥
IsRunning (write_job io ∷ jobs) = IsRunning jobs
IsRunning (read_job io ∷ jobs) = IsRunning jobs
IsRunning (change_dir_job ∷ jobs) = IsRunning jobs

-- Whatever jobs the master does before the one that ends the run, reads of empty files among them, a
-- node is ready for each of its calls, and it stops with the last.
pub run_node-run_master :
    (jobs : List Job)
    → IsRunning jobs
    → run_node awaits_request (run_master jobs ++ master_calls terminate_job) ≡ some stopped
unfolding run_node run_master master_calls node_call
run_node-run_master [] h = refl
run_node-run_master (write_job io ∷ jobs) h = run_node-run_master jobs h
run_node-run_master (read_job io ∷ jobs) h = elim (Bool-cases (io.file_size == 0)) [
  | inl empty ↦ rw empty (run_node-run_master jobs h)
  | inr bytes ↦ rw bytes (run_node-run_master jobs h)
]
run_node-run_master (change_dir_job ∷ jobs) h = run_node-run_master jobs h
run_node-run_master (terminate_job ∷ jobs) h = absurd h
