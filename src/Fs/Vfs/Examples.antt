-- ===== src/Fs/Vfs/Examples.antt =====
-- The theorems of the RAM file system at concrete states.
use saturn_os.Prelude.{
  ℕ, ◌<◌, ◌≡◌, true, false, Array, none, some, refl, arith, if◌then◌else◌, ◌==◌, pos, [], ◌∷◌,
  find_first, map_range,
}
use saturn_os.Fs.Paths.{FilePath, path_valid, last_slash, last_slash_from}
use saturn_os.Fs.Vfs.{
  Node, Ramfs, no_kind, file_kind, vfs_init, vfs_mkdir, vfs_remove, vfs_find, alloc_node,
  name_refused, parent_exists, clear_node,
}
use saturn_os.Fs.Vfs.Files.{find_file, ram_create, ram_write, ram_read}
use saturn_os.Fs.Vfs.ReadWrite.{with_written, ram_read-ram_write, read_node-gap}
use saturn_os.Fs.Vfs.Counts.{
  WellFormed, vfs_init-WellFormed, vfs_mkdir-WellFormed, ram_create-WellFormed,
  vfs_remove-WellFormed,
}

abbrev pub no_node : Node
no_node = record { path = []; size = 0; content = λ i. 7; kind = no_kind; used = false }

abbrev no_files : Ramfs
no_files = record { nodes = λ i. no_node; file_count = 0; dir_count = 0 }

-- "/d" and "/f"
abbrev dir_path : FilePath
dir_path = 47 ∷ 100 ∷ []

abbrev pub file_path : FilePath
file_path = 47 ∷ 102 ∷ []

abbrev pub file : Node
file = record { path = file_path; size = 4; content = λ i. i; kind = file_kind; used = true }

abbrev pub one_file : Ramfs
one_file = record { nodes = λ i. if i == 0 then file else no_node; file_count = 1; dir_count = 0 }

vfs_mkdir-WellFormed_example : WellFormed (vfs_mkdir (vfs_init no_files) dir_path).0
vfs_mkdir-WellFormed_example =
    vfs_mkdir-WellFormed (vfs_init no_files) dir_path (vfs_init-WellFormed no_files)

abbrev with_dir : Ramfs
with_dir = (vfs_mkdir (vfs_init no_files) dir_path).0

with_dir-WellFormed : WellFormed with_dir
with_dir-WellFormed =
    vfs_mkdir-WellFormed (vfs_init no_files) dir_path (vfs_init-WellFormed no_files)

ram_create-WellFormed_example : WellFormed (ram_create with_dir file_path (some (λ i. i)) 4).0
ram_create-WellFormed_example =
    ram_create-WellFormed with_dir file_path (some (λ i. i)) 4 with_dir-WellFormed

vfs_remove-WellFormed_example : WellFormed (vfs_remove with_dir dir_path).0
vfs_remove-WellFormed_example = vfs_remove-WellFormed with_dir dir_path with_dir-WellFormed

ram_read-ram_write_example :
    (out : Array ℕ) × (ram_write one_file file_path 2 (some (λ i. 5)) 3
      ≡ (with_written one_file 0 2 (some (λ i. 5)) 3, pos 3))
    × (ram_read (with_written one_file 0 2 (some (λ i. 5)) 3) file_path 2 (some (λ i. 0)) 3
        ≡ some (3, out))
    × ((k : ℕ) → k < 3 → out k ≡ 5)
unfolding find_file vfs_find find_first
ram_read-ram_write_example =
    ram_read-ram_write one_file file_path 0 2 3 (λ i. 5) (λ i. 0) refl (omega arith)

-- A file system whose nodes all hold bytes of 7 that no file has any more.
abbrev emptied : Ramfs
emptied = vfs_init no_files

read_node-gap_example :
    (i : ℕ) × (w : Ramfs) × (out : Array ℕ) × (alloc_node emptied ≡ some i)
    × (ram_write (ram_create emptied file_path none 0).0 file_path 8 (some (λ i. 5)) 2 ≡ (w, pos 2))
    × (ram_read w file_path 0 (some (λ i. 0)) 8 ≡ some (8, out))
    × ((k : ℕ) → k < 8 → out k ≡ (emptied.nodes i).content k)
unfolding ram_create name_refused path_valid parent_exists vfs_find find_first last_slash alloc_node
    vfs_init map_range clear_node last_slash_from
read_node-gap_example =
    read_node-gap emptied (ram_create emptied file_path none 0).0 file_path 8 2 (λ i. 5) (λ i. 0)
      refl (omega arith)
