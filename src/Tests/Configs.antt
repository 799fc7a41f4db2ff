-- ===== src/Tests/Configs.antt =====
-- A configuration file of a section, a comment and two entries of the same key.
use dagon_fs.Prelude.{◌≡◌, refl, some, List, [], ◌∷◌}
use dagon_fs.Map.{find}
use dagon_fs.Map.Keys.{Name, name_ord, name_cmp}
use dagon_fs.Launcher.{find_char, is_skipped, read_config, fuse_mode}
use dagon_fs.Launcher.Config.{
  entry_line, Describes, no_line, skipped, without_sign, entry, last_value, find-read_config,
}

-- `[fs]`
abbrev section : Name
section = 91 ∷ 102 ∷ 115 ∷ 93 ∷ []

-- `# Modes`
abbrev comment : Name
comment = 35 ∷ 32 ∷ 77 ∷ 111 ∷ 100 ∷ 101 ∷ 115 ∷ []

-- `f`
abbrev foreground : Name
foreground = 102 ∷ []

-- `d`
abbrev debug : Name
debug = 100 ∷ []

abbrev lines : List Name
lines = section ∷ entry_line fuse_mode foreground ∷ comment ∷ entry_line fuse_mode debug ∷ []

lines-Describes : Describes lines ((fuse_mode, foreground) ∷ (fuse_mode, debug) ∷ [])
unfolding find_char is_skipped
lines-Describes = without_sign section _ _ refl (
    entry fuse_mode foreground _ _ refl refl
      (skipped comment _ _ refl (entry fuse_mode debug [] [] refl refl no_line)))

find-read_config_example : find fuse_mode (read_config lines) ≡ some debug
unfolding last_value name_cmp
find-read_config_example =
    find-read_config lines ((fuse_mode, foreground) ∷ (fuse_mode, debug) ∷ []) fuse_mode
      lines-Describes
