-- ===== src/Tests/Threads.antt =====
-- The two threads of a process: the loop makes the directory `b` that another process has announced,
-- while a program makes the file `c`, and then while a program makes the directory `c`.
use dagon_fs.Prelude.{◌≡◌, refl, false, some, List, [], ◌∷◌, ◌++◌}
use dagon_fs.Map.{find, insert, erase}
use dagon_fs.Map.Keys.{Name, name_cmp}
use dagon_fs.Nodes.{
  child_inode_number_with_name, modify_inode, lookup, update_child, add_hard_link, add_inode,
  initialize_inode,
}
use dagon_fs.FileSystem.{register_inode, place_inode}
use dagon_fs.FileSystem.Requests.{Request}
use dagon_fs.Peers.{Peer, create_dir, get_dir_name, send_name_request}
use dagon_fs.FileSystem.Inodes.{fuse_lookup, lookup_child}
use dagon_fs.Peers.Shared.{peer_lookup}
use dagon_fs.Peers.Handlers.{
  peer_handle, peer_mkdir, peer_mkdir_entry, peer_create, peer_create_entry, peer_register,
}
use dagon_fs.Peers.Handlers.Announcing.{packets}
use dagon_fs.Peers.Loop.{raised}
use dagon_fs.Peers.Threads.{
  Event, own, raises, asked, step, run_threads, orderly, granted, all_news,
}
use dagon_fs.Peers.Threads.Flagged.{IsClear}
use dagon_fs.Peers.Threads.Announced.{run_threads-all_news, run_threads-race}
use dagon_fs.Tests.Trees.{b}
use dagon_fs.Tests.Peers.{peer, peer_env, or_peer}

abbrev c : Name
c = 99 ∷ []

-- The directory of the other process.
abbrev theirs : Request
theirs = Request.mkdir 1 b

abbrev between : List Event
between =
    raises create_dir
    ∷ own peer_env (Request.create 1 c false)
    ∷ own peer_env (Request.lookup 1 c)
    ∷ asked peer_env theirs
    ∷ []

peer-IsClear : IsClear (peer 0).flags
peer-IsClear = record {
  no_file = refl;
  no_deletion = refl;
  no_dir = refl;
  no_dir_deletion = refl;
  no_rename = refl;
}

abbrev behind : Peer
behind = or_peer (run_threads between (peer 0))

run_threads-all_news_example :
    (behind.sent ≡ (peer 0).sent ++ all_news between (peer 0)) × (behind.flags ≡ (peer 0).flags)
unfolding run_threads orderly granted peer_lookup fuse_lookup lookup_child peer_handle peer_mkdir
    peer_mkdir_entry peer_create peer_create_entry peer_register register_inode place_inode
    add_inode initialize_inode modify_inode update_child lookup add_hard_link get_dir_name find
    send_name_request insert erase child_inode_number_with_name name_cmp
run_threads-all_news_example =
    run_threads-all_news between (peer 0) behind peer-IsClear refl refl refl

-- The directory of a program on the machine.
abbrev ours : Request
ours = Request.mkdir 1 c

abbrev behind_ours : Peer
behind_ours = or_peer (step (own peer_env ours) (raised create_dir (peer 0)))

abbrev behind_both : Peer
behind_both = or_peer (step (asked peer_env theirs) behind_ours)

run_threads-race_example :
    (run_threads (raises create_dir ∷ own peer_env ours ∷ asked peer_env theirs ∷ []) (peer 0)
      ≡ some behind_both)
    × (behind_both.sent ≡ (peer 0).sent ++ packets theirs behind_ours)
unfolding peer_handle peer_mkdir peer_mkdir_entry peer_create peer_create_entry peer_register
    register_inode place_inode add_inode initialize_inode modify_inode update_child lookup
    add_hard_link get_dir_name find send_name_request insert erase
run_threads-race_example =
    run_threads-race peer_env create_dir ours theirs (peer 0) behind_ours behind_both peer-IsClear
      refl refl refl refl refl refl
