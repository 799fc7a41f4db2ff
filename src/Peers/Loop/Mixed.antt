-- ===== src/Peers/Loop/Mixed.antt =====
-- Requests whose packets arrive in between each other.
use dagon_fs.Prelude.{Bool, true, [], ◌∷◌}
use dagon_fs.Map.Keys.{Name}
use dagon_fs.Peers.{
  RequestType, write, read, create_file, delete_file, create_dir, delete_dir, rename, terminate,
  Peer,
}
use dagon_fs.Peers.Loop.{Call, mkdir_call, Loop}

-- The bytes of a request up to the first 0.
abbrev pub number_name : RequestType → Name
number_name write = []
number_name read = 1 ∷ []
number_name create_file = 2 ∷ []
number_name delete_file = 3 ∷ []
number_name create_dir = 4 ∷ []
number_name delete_dir = 5 ∷ []
number_name rename = 6 ∷ []
number_name terminate = 7 ∷ []

module _ (kernel : Call → Peer → Bool × Peer) where
  -- The process that has made a directory with the flag of its kind set.
  abbrev after_mkdir : Name → Peer → Peer
  after_mkdir name p =
      (kernel (mkdir_call name)
        (record p { flags = record p.flags { create_dir_from_thread = true } })).1
