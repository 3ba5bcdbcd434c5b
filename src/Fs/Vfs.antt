-- ===== src/Fs/Vfs.antt =====
-- kernel/fs/vfs.c and vfs.h: the nodes of the RAM file system and the operations that do not depend
-- on what is mounted.
pub mod Files
pub mod ReadWrite
pub mod Tree
pub mod Removal
pub mod Counts
pub mod Examples
use saturn_os.Prelude.{
  ℕ, zero, suc, ◌+◌, ◌-◌, Bool, true, false, not, ◌&&◌, ◌||◌, Option, none, some, List, [], ◌∷◌,
  ◌++◌, ltb, leb, ◌==◌, if◌then◌else◌, Array, update, find_first, map_range, add64, sub64, ℤ, pos,
  minus_one,
}
use saturn_os.Fs.Paths.{
  FilePath, slash, max_path, length, drop, path_equals, path_valid, last_slash, parent_path,
  is_below, entry_path,
}

abbrev pub max_files : ℕ
max_files = 8

abbrev pub max_dirs : ℕ
max_dirs = 8

abbrev pub max_nodes : ℕ
max_nodes = max_files + max_dirs

abbrev pub max_file_size : ℕ
max_file_size = 4096

-- `enum ramfs_node_kind`; a node that was never used holds neither value.
pub data NodeKind : Type 0 where
  no_kind file_kind directory_kind : NodeKind

abbrev pub is_file : NodeKind → Bool
is_file file_kind = true
is_file _ = false

abbrev pub is_directory : NodeKind → Bool
is_directory directory_kind = true
is_directory _ = false

pub record Node : Type 0 where
  pub path : FilePath
  pub size : ℕ
  pub content : Array ℕ
  pub kind : NodeKind
  pub used : Bool

pub record Ramfs : Type 0 where
  pub nodes : Array Node
  pub file_count : ℕ
  pub dir_count : ℕ

-- Whether the node is used and has the path.
abbrev pub holds : Ramfs → FilePath → ℕ → Bool
holds v path i = (v.nodes i).used && path_equals (v.nodes i).path path

unfoldable pub vfs_find : Ramfs → FilePath → Option ℕ
vfs_find v path = find_first (holds v path) max_nodes 0

abbrev pub is_found : Option ℕ → Bool
is_found none = false
is_found (some i) = true

abbrev pub names_directory : Ramfs → Option ℕ → Bool
names_directory v none = false
names_directory v (some i) = is_directory (v.nodes i).kind

unfoldable pub parent_exists : Ramfs → FilePath → Bool
parent_exists v path = (last_slash path == 0) || names_directory v (vfs_find v (parent_path path))

unfoldable pub alloc_node : Ramfs → Option ℕ
alloc_node v = find_first (λ i. not (v.nodes i).used) max_nodes 0

unfoldable pub clear_node : ℕ → Node → Node
clear_node i n = record n { used = false; size = 0; path = [] }

unfoldable pub vfs_init : Ramfs → Ramfs
vfs_init v = record {
  nodes = map_range clear_node max_nodes 0 v.nodes;
  file_count = 0;
  dir_count = 0;
}

-- The conditions under which neither `vfs_mkdir` nor `vfs_create` makes a node at the path.
unfoldable pub name_refused : Ramfs → FilePath → Bool
name_refused v path =
    not (path_valid path) || is_found (vfs_find v path) || not (parent_exists v path)

unfoldable pub directory_node : FilePath → Node → Node
directory_node path n = record n { path = path; size = 0; kind = directory_kind; used = true }

unfoldable pub vfs_mkdir : Ramfs → FilePath → Ramfs × Bool
vfs_mkdir v path =
    if name_refused v path || leb max_dirs v.dir_count then (v, false) else elim (alloc_node v) [
      | none ↦ (v, false)
      | some i ↦ (
        record v {
          nodes = update v.nodes i (directory_node path (v.nodes i));
          dir_count = add64 v.dir_count 1;
        },
        true,
      )
    ]

-- Another used node below the directory.
abbrev pub child_of : Ramfs → ℕ → FilePath → ℕ → Bool
child_of v node path i = (v.nodes i).used && not (i == node) && is_below path (v.nodes i).path

unfoldable pub drop_node : Ramfs → ℕ → Ramfs
drop_node v i = record v { nodes = update v.nodes i (clear_node i (v.nodes i)) }

unfoldable pub remove_node : Ramfs → FilePath → ℕ → Ramfs × Bool
remove_node v path i =
    if is_directory (v.nodes i).kind
    then (if is_found (find_first (child_of v i path) max_nodes 0)
        then (v, false)
        else (record (drop_node v i) { dir_count = sub64 v.dir_count 1 }, true))
    else (record (drop_node v i) { file_count = sub64 v.file_count 1 }, true)

unfoldable pub vfs_remove : Ramfs → FilePath → Ramfs × Bool
vfs_remove v path = elim (vfs_find v path) [ none ↦ (v, false) | some i ↦ remove_node v path i ]

-- A child whose new path would not fit.
abbrev pub too_long : Ramfs → ℕ → FilePath → FilePath → ℕ → Bool
too_long v node old new i =
    child_of v node old i && leb max_path (length new + (length (v.nodes i).path - length old))

unfoldable pub renamed_child : Ramfs → ℕ → FilePath → FilePath → ℕ → Node → Node
renamed_child v node old new i n =
    if n.used && not (i == node) && is_below old n.path
    then record n { path = new ++ drop (length old) n.path }
    else n

unfoldable pub rename_refused : Ramfs → ℕ → FilePath → FilePath → Bool
rename_refused v node old new =
    name_refused v new
    || (is_directory (v.nodes node).kind && is_below old new)
    || is_found (find_first (too_long v node old new) max_nodes 0)

unfoldable pub rename_nodes : Ramfs → ℕ → FilePath → FilePath → Array Node
rename_nodes v node old new =
    let moved : Array Node = map_range (renamed_child v node old new) max_nodes 0 v.nodes in
    update moved node (record (moved node) { path = new })

unfoldable pub vfs_rename : Ramfs → FilePath → FilePath → Ramfs × Bool
vfs_rename v old new = elim (vfs_find v old) [
  | none ↦ (v, false)
  | some node ↦
      if rename_refused v node old new
      then (v, false)
      else (record v { nodes = rename_nodes v node old new }, true)
]

-- `struct vfs_entry`
pub record Entry : Type 0 where
  pub path : FilePath
  pub size : ℕ
  pub is_dir : Bool

abbrev pub node_entry : Node → Entry
node_entry n = record { path = entry_path n.path; size = n.size; is_dir = is_directory n.kind }

-- The loop of `vfs_list`: the used nodes from `i` on, with `index` more to pass over.
unfoldable pub list_from : Ramfs → ℕ → ℕ → ℕ → Option Entry
list_from v zero i index = none
list_from v (suc n) i index =
    let past = list_from v n (suc i) index in
    let fewer = list_from v n (suc i) (index - 1) in
    if not (v.nodes i).used
    then past
    else if index == 0
    then some (node_entry (v.nodes i))
    else fewer

unfoldable pub vfs_list : Ramfs → ℕ → Option Entry
vfs_list v index = list_from v max_nodes 0 index
