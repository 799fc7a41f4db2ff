-- ===== src/Launcher.antt =====
-- DAGonFS_Launcher.cpp: the reading of the configuration file and the command that starts the
-- processes. `std::stoi` and the printing of an `int` are parameters.
pub mod Config
use dagon_fs.Prelude.{
  ℕ, suc, ◌+◌, ◌-◌, Bool, Ordering, true, false, Option, none, some, List, [], ◌∷◌, ◌++◌, length,
  take, drop, leb, ◌==◌, if◌then◌else◌, ◌>>=◌,
}
use dagon_fs.Map.{Map, insert, find}
use dagon_fs.Map.Keys.{Name, name_ord, name_cmp}

-- `line.find(c)`; `none` is `npos`.
unfoldable pub find_char : ℕ → Name → Option ℕ
find_char c [] = none
find_char c (x ∷ line) =
    let rest = find_char c line in if x == c then some 0 else (rest >>= λ pos. some (suc pos))

-- `line.empty() || line[0] == '#'`
unfoldable pub is_skipped : Name → Bool
is_skipped [] = true
is_skipped (x ∷ line) = x == 35

-- `line.substr(0, pos-1)`: at position 0 the length wraps around, and the whole line is taken.
unfoldable pub key_of : Name → ℕ → Name
key_of line pos = if pos == 0 then line else take (pos - 1) line

-- The text after the sign, without its first character.
unfoldable pub value_of : Name → ℕ → Name
value_of line pos =
    let value = drop (pos + 1) line in if leb (length value) 1 then [] else drop 1 value

-- The body of the loop.
unfoldable pub read_line : Name → Map Name Name → Map Name Name
unfolding find_char is_skipped key_of value_of
read_line line config = if is_skipped line then config else (elim (find_char 61 line) [
  | none ↦ config
  | some pos ↦ insert (key_of line pos) (value_of line pos) config
])

unfoldable pub read_lines : List Name → Map Name Name → Map Name Name
unfolding read_line
read_lines [] config = config
read_lines (line ∷ lines) config = read_lines lines (read_line line config)

-- `readConfig`, of the lines of a file that can be opened.
unfoldable pub read_config : List Name → Map Name Name
unfolding read_lines
read_config lines = read_lines lines []

-- `config[key]`
unfoldable pub config_at : Name → Map Name Name → Name
config_at key config = elim (find key config) [ none ↦ [] | some value ↦ value ]

-- `"num_processes"`
abbrev pub num_processes : Name
num_processes = 110 ∷ 117 ∷ 109 ∷ 95 ∷ 112 ∷ 114 ∷ 111 ∷ 99 ∷ 101 ∷ 115 ∷ 115 ∷ 101 ∷ 115 ∷ []

-- `"machinefile"`
abbrev pub machinefile : Name
machinefile = 109 ∷ 97 ∷ 99 ∷ 104 ∷ 105 ∷ 110 ∷ 101 ∷ 102 ∷ 105 ∷ 108 ∷ 101 ∷ []

-- `"dagonfs_model"`
abbrev pub dagonfs_model : Name
dagonfs_model = 100 ∷ 97 ∷ 103 ∷ 111 ∷ 110 ∷ 102 ∷ 115 ∷ 95 ∷ 109 ∷ 111 ∷ 100 ∷ 101 ∷ 108 ∷ []

-- `"client-server"`
abbrev pub client_server : Name
client_server = 99 ∷ 108 ∷ 105 ∷ 101 ∷ 110 ∷ 116 ∷ 45 ∷ 115 ∷ 101 ∷ 114 ∷ 118 ∷ 101 ∷ 114 ∷ []

-- `"fuse_mode"`
abbrev pub fuse_mode : Name
fuse_mode = 102 ∷ 117 ∷ 115 ∷ 101 ∷ 95 ∷ 109 ∷ 111 ∷ 100 ∷ 101 ∷ []

-- `"dagonfs_root_dir"`
abbrev pub dagonfs_root_dir : Name
dagonfs_root_dir =
    100 ∷ 97 ∷ 103 ∷ 111 ∷ 110 ∷ 102 ∷ 115 ∷ 95 ∷ 114 ∷ 111 ∷ 111 ∷ 116 ∷ 95 ∷ 100 ∷ 105 ∷ 114 ∷ []

-- `"enable_logging"`
abbrev pub enable_logging : Name
enable_logging = 101 ∷ 110 ∷ 97 ∷ 98 ∷ 108 ∷ 101 ∷ 95 ∷ 108 ∷ 111 ∷ 103 ∷ 103 ∷ 105 ∷ 110 ∷ 103 ∷ []

-- `"true"`
abbrev pub true_word : Name
true_word = 116 ∷ 114 ∷ 117 ∷ 101 ∷ []

-- `"DAGonFS_CS.exe"`
abbrev pub client_server_executable : Name
client_server_executable =
    68 ∷ 65 ∷ 71 ∷ 111 ∷ 110 ∷ 70 ∷ 83 ∷ 95 ∷ 67 ∷ 83 ∷ 46 ∷ 101 ∷ 120 ∷ 101 ∷ []

-- `"DAGonFS_P2P.exe"`
abbrev pub peer_executable : Name
peer_executable = 68 ∷ 65 ∷ 71 ∷ 111 ∷ 110 ∷ 70 ∷ 83 ∷ 95 ∷ 80 ∷ 50 ∷ 80 ∷ 46 ∷ 101 ∷ 120 ∷ 101 ∷ []

-- `"mpirun -np "`
abbrev pub mpirun : Name
mpirun = 109 ∷ 112 ∷ 105 ∷ 114 ∷ 117 ∷ 110 ∷ 32 ∷ 45 ∷ 110 ∷ 112 ∷ 32 ∷ []

-- `"--hostfile "`
abbrev pub hostfile : Name
hostfile = 45 ∷ 45 ∷ 104 ∷ 111 ∷ 115 ∷ 116 ∷ 102 ∷ 105 ∷ 108 ∷ 101 ∷ 32 ∷ []

-- `" ./"`
abbrev pub here : Name
here = 32 ∷ 46 ∷ 47 ∷ []

-- `" -"`
abbrev pub option : Name
option = 32 ∷ 45 ∷ []

-- `" "`
abbrev pub space : Name
space = 32 ∷ []

-- What becomes of the launcher.
pub data Outcome : Type 0 where
  cannot_open : Outcome
  uncaught : Outcome
  executes : (command : Name) → Outcome

-- `==` of two strings.
abbrev pub name_eq : Name → Name → Bool
name_eq a b = elim (name_cmp a b) [ Ordering.eq ↦ true | _ ↦ false ]

module _ (stoi : Name → Option ℕ) (show : ℕ → Name) where
  -- The command line.
  unfoldable pub command_of : (processes : ℕ) → Map Name Name → Name
  unfolding config_at
  command_of processes config =
      let machines = config_at machinefile config in
      let hosts = if length machines == 0 then [] else hostfile ++ machines in
      let executable =
        if name_eq (config_at dagonfs_model config) client_server
        then client_server_executable
        else peer_executable in
      let logging = if name_eq (config_at enable_logging config) true_word then 1 else 0 in
      mpirun
      ++ (show processes
          ++ (hosts
              ++ (here
                  ++ (executable
                      ++ (option
                          ++ (config_at fuse_mode config
                              ++ (space
                                  ++ (config_at dagonfs_root_dir config
                                      ++ (space ++ show logging)))))))))

  -- `main`; the file is `none` where it cannot be opened.
  unfoldable pub launch : Option (List Name) → Outcome
  unfolding read_config config_at command_of
  launch none = cannot_open
  launch (some lines) =
      let config = read_config lines in
      elim (stoi (config_at num_processes config)) [
        | none ↦ uncaught
        | some processes ↦ executes (command_of processes config)
      ]
