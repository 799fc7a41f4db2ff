-- ===== src/Peers/Loop/Whole.antt =====
-- The loop of a process takes the requests of the others one by one where their packets arrive
-- together.
use dagon_fs.Prelude.{
  Each, Each-if, Each-some, ℕ, ◌≡◌, ◌≢◌, refl, ap, sym, ◌∙◌, Bool, false, Option, none, some, List,
  [], ◌∷◌, ◌++◌, arith, length, ◌==◌, inl, inr, ◌⊎◌, true, if◌then◌else◌, ◌>>=◌, Option-cases,
  some-injective, >>=-eq-some,
}
use dagon_fs.Map.Keys.{Name}
use dagon_fs.Peers.{
  RequestType, write, read, create_file, delete_file, create_dir, delete_dir, rename, IoRequest,
  Packet, request, io_request, name_packet, rename_packet, Peer, Flags, name_size,
}
use dagon_fs.Peers.Loop.{
  fopen_call, unlink_call, mkdir_call, rmdir_call, rename_call, Call, awaits_request, Loop,
  call_with, rename_with, name_received, receive_packet, receive_request, receive, run,
}

-- What one process asks of the others.
pub data Message : Type 0 where
  write_message read_message : IoRequest → Message
  create_file_message delete_file_message create_dir_message delete_dir_message : Name → Message
  rename_message : Name → Name → Message

abbrev pub type_of : Message → RequestType
type_of (write_message io) = write
type_of (read_message io) = read
type_of (create_file_message name) = create_file
type_of (delete_file_message name) = delete_file
type_of (create_dir_message name) = create_dir
type_of (delete_dir_message name) = delete_dir
type_of (rename_message old_name new_name) = rename

abbrev pub payload : Message → Packet
payload (write_message io) = io_request io
payload (read_message io) = io_request io
payload (create_file_message name) = name_packet name
payload (delete_file_message name) = name_packet name
payload (create_dir_message name) = name_packet name
payload (delete_dir_message name) = name_packet name
payload (rename_message old_name new_name) = rename_packet old_name new_name

-- The call that a process makes for a message, or the transfer that it joins.
abbrev pub call_of : Message → IoRequest ⊎ Call
call_of (write_message io) = inl io
call_of (read_message io) = inl io
call_of (create_file_message name) = inr (fopen_call name)
call_of (delete_file_message name) = inr (unlink_call name)
call_of (create_dir_message name) = inr (mkdir_call name)
call_of (delete_dir_message name) = inr (rmdir_call name)
call_of (rename_message old_name new_name) = inr (rename_call old_name new_name)

-- The flag by which the process knows its own call again.
abbrev pub marked : Message → Flags → Flags
marked (create_file_message name) f = record f { create_file_from_thread = true }
marked (delete_file_message name) f = record f { delete_file_from_thread = true }
marked (create_dir_message name) f = record f { create_dir_from_thread = true }
marked (delete_dir_message name) f = record f { delete_dir_from_thread = true }
marked (rename_message old_name new_name) f = record f { rename_from_thread = true }
marked m f = f

-- Whether a name has no end in its packet.
abbrev pub is_filled : Message → Bool
is_filled (create_file_message name) = length name == name_size
is_filled (delete_file_message name) = length name == name_size
is_filled (create_dir_message name) = length name == name_size
is_filled (delete_dir_message name) = length name == name_size
is_filled (rename_message old_name new_name) =
    if length old_name == name_size then true else length new_name == name_size
is_filled m = false

-- Only a file that could not be opened is of consequence.
abbrev pub must_succeed : Message → Bool → Bool
must_succeed (create_file_message name) succeeded = succeeded
must_succeed m succeeded = true

-- The packets by which a process receives a message.
abbrev pub arrivals : ℕ × Message → List (ℕ × Packet)
arrivals (source, m) = (source, request (type_of m)) ∷ (source, payload m) ∷ []

-- None of the messages comes from the process itself.
abbrev pub AllApart : ℕ → List (ℕ × Message) → Type 0
AllApart rank [] = Unit {0}
AllApart rank ((source, m) ∷ ms) = (source ≢ rank) × AllApart rank ms

-- The packets of messages that arrive one behind the other.
abbrev pub all_arrivals : List (ℕ × Message) → List (ℕ × Packet)
all_arrivals [] = []
all_arrivals (m ∷ ms) = arrivals m ++ all_arrivals ms

-- A call does not change the number of a process.
abbrev pub KeepsRank : (Call → Peer → Bool × Peer) → Type 0
KeepsRank kernel = (c : Call) (p : Peer) → (kernel c p).1.mpi_rank ≡ p.mpi_rank

guarded :
    {A B : Type 0} (b : Bool) (o : Option A) (k : A → Option B)
    → ((if b then none else o) >>= k) ≡ (if b then none else (o >>= k))
guarded true o k = refl
guarded false o k = refl

opens :
    {A B : Type 0} (b : Bool) (a : A) (f : A → B)
    → ((if b then some a else none) >>= λ x. some (f x)) ≡ (if b then some (f a) else none)
opens true a f = refl
opens false a f = refl

guarded_twice :
    {A B : Type 0} (b c : Bool) (a : A) (f : A → B)
    → ((if b then none else if c then none else some a) >>= λ x. some (f x))
      ≡ (if (if b then true else c) then none else some (f a))
guarded_twice true c a f = refl
guarded_twice false true a f = refl
guarded_twice false false a f = refl

module _ (kernel : Call → Peer → Bool × Peer) where
  -- What a message does to a process that waits: it joins the transfer, or it makes the call for
  -- the message with the flag of the message set, unless a name fills its packet, and a file has to
  -- be opened.
  abbrev pub perform : ℕ × Message → Loop → Option Loop
  perform (source, m) l = elim (call_of m) [
    | inl io ↦ some (record l {
      mode = awaits_request;
      transfers = l.transfers ++ (type_of m, source, io) ∷ [];
    })
    | inr call ↦
        let made = kernel call (record l.peer { flags = marked m l.peer.flags }) in
        let now =
          if must_succeed m made.0
          then some (record l { peer = made.1; mode = awaits_request })
          else none in
        if is_filled m then none else now
  ]

  pub run-arrivals :
      (source : ℕ) (m : Message) (l : Loop) (rest : List (ℕ × Packet))
      → l.mode ≡ awaits_request
      → source ≢ l.peer.mpi_rank
      → run kernel (arrivals (source, m) ++ rest) l ≡ (perform (source, m) l >>= run kernel rest)
  unfolding run receive receive_request receive_packet call_with rename_with name_received
  run-arrivals source (write_message io) l rest waits other =
      let apart : (source == l.peer.mpi_rank) ≡ false = ground arith in rw (waits, apart) refl
  run-arrivals source (read_message io) l rest waits other =
      let apart : (source == l.peer.mpi_rank) ≡ false = ground arith in rw (waits, apart) refl
  run-arrivals source (create_file_message name) l rest waits other =
      let apart : (source == l.peer.mpi_rank) ≡ false = ground arith in
      let p = record l.peer { flags = marked (create_file_message name) l.peer.flags } in
      let opened = kernel (fopen_call name) p in
      rw (waits, apart)
        (ap (λ o. o >>= run kernel rest)
          (guarded (length name == name_size) (if opened.0 then some opened.1 else none)
              (λ q. some (record l { peer = q; mode = awaits_request }))
            ∙ ap (λ o. if length name == name_size then none else o)
                (opens opened.0 opened.1 (λ q. record l { peer = q; mode = awaits_request }))))
  run-arrivals source (rename_message old_name new_name) l rest waits other =
      let apart : (source == l.peer.mpi_rank) ≡ false = ground arith in
      let p = record l.peer { flags = marked (rename_message old_name new_name) l.peer.flags } in
      rw (waits, apart)
        (ap (λ o. o >>= run kernel rest)
          (guarded_twice (length old_name == name_size) (length new_name == name_size)
            (kernel (rename_call old_name new_name) p).1
            (λ q. record l { peer = q; mode = awaits_request })))
  run-arrivals source (delete_file_message name) l rest waits other =
      let apart : (source == l.peer.mpi_rank) ≡ false = ground arith in
      rw (waits, apart)
        (ap (λ o. o >>= run kernel rest)
          (guarded (length name == name_size) (some _)
            (λ q. some (record l { peer = q; mode = awaits_request }))))
  run-arrivals source (create_dir_message name) l rest waits other =
      let apart : (source == l.peer.mpi_rank) ≡ false = ground arith in
      rw (waits, apart)
        (ap (λ o. o >>= run kernel rest)
          (guarded (length name == name_size) (some _)
            (λ q. some (record l { peer = q; mode = awaits_request }))))
  run-arrivals source (delete_dir_message name) l rest waits other =
      let apart : (source == l.peer.mpi_rank) ≡ false = ground arith in
      rw (waits, apart)
        (ap (λ o. o >>= run kernel rest)
          (guarded (length name == name_size) (some _)
            (λ q. some (record l { peer = q; mode = awaits_request }))))

  -- The messages one by one.
  abbrev pub perform_all : List (ℕ × Message) → Loop → Option Loop
  perform_all [] l = some l
  perform_all (m ∷ ms) l = perform m l >>= perform_all ms

  -- The loop is back at its first receive, for the same process.
  abbrev Waits : Loop → Loop → Type 0
  Waits l l' = (l'.peer.mpi_rank ≡ l.peer.mpi_rank) × (l'.mode ≡ awaits_request)

  call-Waits :
      KeepsRank kernel
      → (m : Message) (call : Call) (l : Loop)
      → let made = kernel call (record l.peer { flags = marked m l.peer.flags }) in
        Each (Waits l) (
          if is_filled m
          then none
          else if must_succeed m made.0
          then some (record l { peer = made.1; mode = awaits_request })
          else none)
  call-Waits keeps m call l =
      Each-if (Waits l) (is_filled m) _ _ (λ q e. cc)
        (Each-if (Waits l) (must_succeed m _) _ _ (Each-some (Waits l) _ (keeps call _, refl))
          (λ q e. cc))

  perform-Waits :
      KeepsRank kernel
      → (source : ℕ) (m : Message) (l : Loop) → Each (Waits l) (perform (source, m) l)
  perform-Waits keeps source m l = elim m as (λ m. Each (Waits l) (perform (source, m) l)) [
    | write_message io ↦ Each-some (Waits l) _ (refl, refl)
    | read_message io ↦ Each-some (Waits l) _ (refl, refl)
    | create_file_message name ↦ call-Waits keeps (create_file_message name) (fopen_call name) l
    | delete_file_message name ↦ call-Waits keeps (delete_file_message name) (unlink_call name) l
    | create_dir_message name ↦ call-Waits keeps (create_dir_message name) (mkdir_call name) l
    | delete_dir_message name ↦ call-Waits keeps (delete_dir_message name) (rmdir_call name) l
    | rename_message old_name new_name ↦
        call-Waits keeps (rename_message old_name new_name) (rename_call old_name new_name) l
  ]

  pub perform_all-waits :
      KeepsRank kernel
      → (ms : List (ℕ × Message)) (l l' : Loop) → l.mode ≡ awaits_request
      → perform_all ms l ≡ some l'
      → l'.mode ≡ awaits_request
  perform_all-waits keeps [] l l' waits e = ap (λ t. t.mode) (sym (some-injective _ _ e)) ∙ waits
  perform_all-waits keeps ((source, m) ∷ ms) l l' waits e =
      let (t, first, rest) = >>=-eq-some (perform (source, m) l) (perform_all ms) e in
      perform_all-waits keeps ms t l' (perform-Waits keeps source m l t first).1 rest

  -- If the packets of each request of the other processes arrive together, and calls do not change
  -- the number of the process, a loop that waits for a request makes, in their order, the call
  -- for each request (fopen, unlink, mkdir, rmdir or rename of its names), with the flag of its kind
  -- set, and joins the transfer of each write and read, and then takes what arrives behind them; it
  -- returns nothing where a name has no end in its packet or a file could not be opened.
  pub run-all_arrivals :
      KeepsRank kernel
      → (ms : List (ℕ × Message)) (rest : List (ℕ × Packet)) (l : Loop) → l.mode ≡ awaits_request
      → AllApart l.peer.mpi_rank ms
      → run kernel (all_arrivals ms ++ rest) l ≡ (perform_all ms l >>= run kernel rest)
  run-all_arrivals keeps [] rest l waits apart = refl
  run-all_arrivals keeps ((source, m) ∷ ms) rest l waits (other, apart) =
      run-arrivals source m l (all_arrivals ms ++ rest) waits other
      ∙ elim (Option-cases (perform (source, m) l)) [
        | inl failed ↦ rw (failed) refl
        | inr (l', done) ↦
            let (rank, waits') = perform-Waits keeps source m l l' done in
            rw (done, ◌>>=◌) (run-all_arrivals keeps ms rest l' waits' (rw rank apart))
      ]
