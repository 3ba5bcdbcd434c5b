-- ===== src/Fs/Vfs/Files.antt =====
-- The operations of vfs.c on the contents of files. Those on a path under /disk go to the file
-- system that is mounted there.
use saturn_os.Prelude.{
  ℕ, ◌+◌, ◌-◌, Bool, true, false, not, ◌&&◌, ◌||◌, Option, none, some, ltb, leb, ◌==◌,
  if◌then◌else◌, Array, update, add64, ℤ, pos, minus_one,
}
use saturn_os.Fs.Paths.{FilePath, disk_path, entry_path}
use saturn_os.Fs.Disk.{Buffer, DiskFs, is_null}
use saturn_os.Fs.Vfs.{
  Node, Ramfs, file_kind, is_file, is_directory, vfs_find, alloc_node, name_refused, max_files,
  max_file_size, Entry,
}

-- The bytes of a buffer. A null pointer is never read: the size is 0 then.
abbrev pub bytes : Buffer → Array ℕ
bytes none = λ i. 0
bytes (some b) = b

-- `for (i = 0; i < size; i++) target[offset + i] = source[i];`
unfoldable pub copy_in : Array ℕ → ℕ → Array ℕ → ℕ → Array ℕ
copy_in target offset source size j =
    if leb offset j && ltb j (offset + size) then source (j - offset) else target j

-- The parameter that is null while `size` is not 0.
abbrev pub missing : Buffer → ℕ → Bool
missing b size = not (size == 0) && is_null b

unfoldable pub file_node : FilePath → Buffer → ℕ → Node → Node
file_node path b size n = record n {
  path = path;
  content = copy_in n.content 0 (bytes b) size;
  size = size;
  kind = file_kind;
  used = true;
}

unfoldable pub ram_create : Ramfs → FilePath → Buffer → ℕ → Ramfs × Bool
ram_create v path b size =
    if ltb max_file_size size || missing b size || name_refused v path || leb max_files v.file_count
    then (v, false)
    else elim (alloc_node v) [
      | none ↦ (v, false)
      | some i ↦ (
        record v {
          nodes = update v.nodes i (file_node path b size (v.nodes i));
          file_count = add64 v.file_count 1;
        },
        true,
      )
    ]

-- The node of a file, if the path is one of a file.
unfoldable pub find_file : Ramfs → FilePath → Option ℕ
find_file v path = elim (vfs_find v path) [
  | none ↦ none
  | some i ↦ if is_file (v.nodes i).kind then some i else none
]

-- `offset > limit || size > limit - offset`
abbrev pub outside : ℕ → ℕ → ℕ → Bool
outside limit offset size = ltb limit offset || ltb (limit - offset) size

unfoldable pub written : Node → ℕ → Array ℕ → ℕ → Node
written n offset source size = record n {
  content = copy_in n.content offset source size;
  size = if ltb n.size (offset + size) then offset + size else n.size;
}

abbrev pub ram_write_at : Ramfs → ℕ → ℕ → Buffer → ℕ → Ramfs × ℤ
ram_write_at v i offset b size =
    if missing b size || outside max_file_size offset size then (v, minus_one) else (
      record v { nodes = update v.nodes i (written (v.nodes i) offset (bytes b) size) },
      pos size,
    )

unfoldable pub ram_write : Ramfs → FilePath → ℕ → Buffer → ℕ → Ramfs × ℤ
ram_write v path offset b size = elim (find_file v path) [
  | none ↦ (v, minus_one)
  | some i ↦ ram_write_at v i offset b size
]

unfoldable pub truncated : Node → ℕ → Node
truncated n size = record n {
  content =
      if ltb n.size size then copy_in n.content n.size (λ i. 0) (size - n.size) else n.content;
  size = size;
}

unfoldable pub ram_truncate : Ramfs → FilePath → ℕ → Ramfs × Bool
ram_truncate v path size = elim (find_file v path) [
  | none ↦ (v, false)
  | some i ↦
      if ltb max_file_size size
      then (v, false)
      else (record v { nodes = update v.nodes i (truncated (v.nodes i) size) }, true)
]

-- `size > available ? available : size`
abbrev pub clipped : ℕ → ℕ → ℕ
clipped available size = if ltb available size then available else size

-- The number of bytes and the buffer afterwards, or `none` for an error.
unfoldable pub read_node : Node → ℕ → Buffer → ℕ → Option (ℕ × Array ℕ)
read_node n offset b size =
    if missing b size || ltb n.size offset
    then none
    else let count : ℕ = clipped (n.size - offset) size in
      some (count, copy_in (bytes b) 0 (λ i. n.content (offset + i)) count)

unfoldable pub ram_read : Ramfs → FilePath → ℕ → Buffer → ℕ → Option (ℕ × Array ℕ)
ram_read v path offset b size = elim (find_file v path) [
  | none ↦ none
  | some i ↦ read_node (v.nodes i) offset b size
]

-- `disk` is the state of the file system under /disk, `buffer` is `disk_file_buffer`.
pub record Vfs (S : Type 0) : Type 0 where
  pub ram : Ramfs
  pub disk : S
  pub buffer : Array ℕ

module _ {S : Type 0} (fs : DiskFs S) where
  -- `sfs_read_file(disk_path, disk_file_buffer, sizeof(disk_file_buffer))`
  unfoldable pub load : Vfs S → FilePath → Vfs S × Option ℕ
  load w path =
      let (disk, r) = fs.sfs_read_file w.disk path (some w.buffer) max_file_size in
      elim r [
        | none ↦ (record w { disk = disk }, none)
        | some (size, b) ↦ (record w { disk = disk; buffer = b }, some size)
      ]

  unfoldable pub store : Vfs S → FilePath → ℕ → Vfs S × Bool
  store w path size =
      let (disk, done) = fs.sfs_write_file w.disk path (some w.buffer) size in
      (record w { disk = disk }, done)

  unfoldable pub vfs_create : Vfs S → FilePath → Buffer → ℕ → Vfs S × Bool
  vfs_create w path b size = elim (disk_path path) [
    | some p ↦
        let (disk, done) = fs.sfs_write_file w.disk p b size in (record w { disk = disk }, done)
    | none ↦ let (ram, done) = ram_create w.ram path b size in (record w { ram = ram }, done)
  ]

  -- The end of `vfs_write` under /disk, once the file is in the buffer.
  unfoldable pub write_loaded : Vfs S → FilePath → ℕ → ℕ → Array ℕ → ℕ → Vfs S × ℤ
  write_loaded w path current offset source size =
      let (w', done) =
        store (record w { buffer = copy_in w.buffer offset source size }) path
          (if ltb current (offset + size) then offset + size else current) in
      (w', if done then pos size else minus_one)

  unfoldable pub disk_write : Vfs S → FilePath → ℕ → Buffer → ℕ → Vfs S × ℤ
  disk_write w path offset b size =
      if (size == 0) || is_null b || outside max_file_size offset size
      then (w, minus_one)
      else let (w', r) = load w path in
        elim r [
          | none ↦ (w', minus_one)
          | some current ↦ write_loaded w' path current offset (bytes b) size
        ]

  unfoldable pub vfs_write : Vfs S → FilePath → ℕ → Buffer → ℕ → Vfs S × ℤ
  vfs_write w path offset b size = elim (disk_path path) [
    | some p ↦ disk_write w p offset b size
    | none ↦ let (ram, r) = ram_write w.ram path offset b size in (record w { ram = ram }, r)
  ]

  unfoldable pub disk_truncate : Vfs S → FilePath → ℕ → Vfs S × Bool
  disk_truncate w path size =
      if ltb max_file_size size
      then (w, false)
      else let (w', r) = load w path in
        elim r [
          | none ↦ (w', false)
          | some current ↦
              store (record w' { buffer = copy_in w'.buffer current (λ i. 0) (size - current) })
                path size
        ]

  unfoldable pub vfs_truncate : Vfs S → FilePath → ℕ → Vfs S × Bool
  vfs_truncate w path size = elim (disk_path path) [
    | some p ↦ disk_truncate w p size
    | none ↦ let (ram, done) = ram_truncate w.ram path size in (record w { ram = ram }, done)
  ]

  unfoldable pub disk_read : Vfs S → FilePath → ℕ → Buffer → ℕ → Vfs S × Option (ℕ × Array ℕ)
  disk_read w path offset b size =
      let (w', r) = load w path in
      elim r [
        | none ↦ (w', none)
        | some file_size ↦
            if missing b size || ltb file_size offset
            then (w', none)
            else let count : ℕ = clipped (file_size - offset) size in
              (w', some (count, copy_in (bytes b) 0 (λ i. w'.buffer (offset + i)) count))
      ]

  unfoldable pub vfs_read : Vfs S → FilePath → ℕ → Buffer → ℕ → Vfs S × Option (ℕ × Array ℕ)
  vfs_read w path offset b size = elim (disk_path path) [
    | some p ↦ disk_read w p offset b size
    | none ↦ (w, ram_read w.ram path offset b size)
  ]

  -- The size of the file and its bytes.
  unfoldable pub vfs_file_data : Vfs S → FilePath → Vfs S × Option (ℕ × Array ℕ)
  vfs_file_data w path = elim (disk_path path) [
    | some p ↦
        let (w', r) = load w p in (w', elim r [ none ↦ none | some size ↦ some (size, w'.buffer) ])
    | none ↦ (
      w,
      elim (find_file w.ram path) [
        | none ↦ none
        | some i ↦ some ((w.ram.nodes i).size, (w.ram.nodes i).content)
      ],
    )
  ]

  unfoldable pub vfs_stat : Vfs S → FilePath → Vfs S × Option Entry
  vfs_stat w path = elim (disk_path path) [
    | some p ↦
        let (w', r) = vfs_file_data w path in
        (
          w',
          elim r [
            | none ↦ none
            | some (size, b) ↦ some (record { path = entry_path path; size = size; is_dir = false })
          ],
        )
    | none ↦ (
      w,
      elim (vfs_find w.ram path) [
        | none ↦ none
        | some i ↦ some (record {
          path = entry_path path;
          size = (w.ram.nodes i).size;
          is_dir = is_directory (w.ram.nodes i).kind;
        })
      ],
    )
  ]
