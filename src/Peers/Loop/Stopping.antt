-- ===== src/Peers/Loop/Stopping.antt =====
-- The end of the loop.
use dagon_fs.Prelude.{
  ℕ, ◌≡◌, ◌∙◌, refl, ap, Bool, some, List, [], ◌∷◌, ◌++◌, ◌==◌, if◌then◌else◌, ◌>>=◌,
}
use dagon_fs.Peers.{Packet, request, terminate, Peer}
use dagon_fs.Peers.Loop.{
  Call, unmount_call, awaits_request, stopped, Loop, raised, receive, receive_request, run,
}
use dagon_fs.Peers.Loop.Whole.{
  Message, AllApart, all_arrivals, KeepsRank, perform_all, run-all_arrivals, perform_all-waits,
}

module _ (kernel : Call → Peer → Bool × Peer) where
  -- The loop behind TERMINATE.
  abbrev terminated : ℕ → Loop → Loop
  terminated source l = record l {
    peer =
        if source == l.peer.mpi_rank
        then l.peer
        else (kernel unmount_call (raised terminate l.peer)).1;
    mode = stopped;
  }

  receive_stopped :
      (arrival : ℕ × Packet) (l : Loop) → l.mode ≡ stopped → receive kernel arrival l ≡ some l
  unfolding receive
  receive_stopped arrival l e = rw e refl

  run_stopped :
      (rest : List (ℕ × Packet)) (l : Loop) → l.mode ≡ stopped → run kernel rest l ≡ some l
  unfolding run receive
  run_stopped [] l e = refl
  run_stopped (arrival ∷ rest) l e =
      ap (λ o. o >>= run kernel rest) (receive_stopped arrival l e) ∙ run_stopped rest l e

  receive_terminate :
      (source : ℕ) (l : Loop)
      → l.mode ≡ awaits_request
      → receive kernel (source, request terminate) l ≡ some (terminated source l)
  unfolding receive receive_request
  receive_terminate source l e = rw e refl

  -- Behind whole requests of the other processes that succeed, TERMINATE ends the loop, whoever
  -- sent it: nothing that arrives later is taken, and no transfer but those requested before was
  -- joined; the process itself leaves its mount alone if it sent the TERMINATE.
  pub run-terminate :
      KeepsRank kernel
      → (ms : List (ℕ × Message)) (source : ℕ) (rest : List (ℕ × Packet)) (l l' : Loop)
      → l.mode ≡ awaits_request
      → AllApart l.peer.mpi_rank ms
      → perform_all kernel ms l ≡ some l'
      → run kernel (all_arrivals ms ++ (source, request terminate) ∷ rest) l
        ≡ some (record l' {
          peer =
              if source == l'.peer.mpi_rank
              then l'.peer
              else (kernel unmount_call (raised terminate l'.peer)).1;
          mode = stopped;
        })
  unfolding run
  run-terminate keeps ms source rest l l' waits apart done =
      run-all_arrivals kernel keeps ms ((source, request terminate) ∷ rest) l waits apart
      ∙ ap (λ o. o >>= run kernel ((source, request terminate) ∷ rest)) done
      ∙ ap (λ o. o >>= run kernel rest)
          (receive_terminate source l' (perform_all-waits kernel keeps ms l l' waits done))
      ∙ run_stopped rest (terminated source l') refl
