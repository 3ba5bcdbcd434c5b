-- ===== src/Fs/Vfs/Counts.antt =====
-- The counters of the RAM file system in kernel/fs/vfs.c, and its invariant.
use saturn_os.Prelude.{
  ℕ, ◌+◌, ◌≤◌, ◌<◌, ◌≡◌, refl, ap, sym, subst, inl, inr, Bool, true, false, ◌&&◌, ◌||◌, ltb, leb,
  arith, update, Bool-cases, Option-cases, count, count_change, count_none, bit, find_first, add64,
  sub64, map_range_lem,
}
use saturn_os.Fs.Paths.{FilePath}
use saturn_os.Fs.Paths.Laws.{eq_of_path_equals}
use saturn_os.Fs.Disk.{Buffer}
use saturn_os.Fs.Vfs.{
  Ramfs, is_directory, is_file, vfs_find, is_found, max_nodes, max_files, max_dirs, max_file_size,
  child_of, drop_node, clear_node, directory_node, alloc_node, name_refused, vfs_init, vfs_mkdir,
  vfs_remove, remove_node,
}
use saturn_os.Fs.Vfs.Files.{file_node, ram_create, missing}
use saturn_os.Fs.Vfs.Tree.{IsTree, vfs_find-some, alloc_node-some, add_node-IsTree, counts-IsTree}
use saturn_os.Fs.Vfs.Removal.{no_children, drop_node-IsTree}

abbrev pub file_at : Ramfs → ℕ → Bool
file_at v i = (v.nodes i).used && is_file (v.nodes i).kind

abbrev pub dir_at : Ramfs → ℕ → Bool
dir_at v i = (v.nodes i).used && is_directory (v.nodes i).kind

-- The nodes form a tree, every used node is a file or a directory, no file is larger than the
-- limit, and the counters say how many files and directories there are, at most eight of each.
pub record WellFormed (v : Ramfs) : Type 0 where
  pub tree : IsTree v
  pub kinds : (i : ℕ) → i < max_nodes → (v.nodes i).used ≡ true → (file_at v i || dir_at v i) ≡ true
  pub sizes : (i : ℕ) → i < max_nodes → (v.nodes i).size ≤ max_file_size
  pub files : v.file_count ≡ count max_nodes (file_at v)
  pub dirs : v.dir_count ≡ count max_nodes (dir_at v)
  pub limits : (v.file_count ≤ max_files) × (v.dir_count ≤ max_dirs)

-- Adding a node of either kind.
add_directory :
    (v : Ramfs) (i : ℕ) (path : FilePath)
    → WellFormed v
    → (v.nodes i).used ≡ false
    → i < max_nodes
    → name_refused v path ≡ false
    → v.dir_count < max_dirs
    → WellFormed (record v {
      nodes = update v.nodes i (directory_node path (v.nodes i));
      dir_count = add64 v.dir_count 1;
    })
unfolding directory_node
add_directory v i path w free inside accepted room =
    let v' : Ramfs = record v { nodes = update v.nodes i (directory_node path (v.nodes i)) } in
    let files = count_change max_nodes (file_at v) (file_at v') i inside (λ j ne. ground arith) in
    let dirs = count_change max_nodes (dir_at v) (dir_at v') i inside (λ j ne. ground arith) in
    record {
      tree =
          counts-IsTree v' _ _
            (add_node-IsTree v i (directory_node path (v.nodes i)) w.tree inside free accepted);
      kinds = λ j l u. ground (arith, w.kinds j l);
      sizes = λ j l. ground (arith, w.sizes j l);
      files = ground (arith, files, w.files);
      dirs = ground (arith, dirs, w.dirs);
      limits = ground (arith, w.limits);
    }

add_file :
    (v : Ramfs) (i : ℕ) (path : FilePath) (b : Buffer) (size : ℕ)
    → WellFormed v
    → (v.nodes i).used ≡ false
    → i < max_nodes
    → name_refused v path ≡ false
    → v.file_count < max_files
    → size ≤ max_file_size
    → WellFormed (record v {
      nodes = update v.nodes i (file_node path b size (v.nodes i));
      file_count = add64 v.file_count 1;
    })
unfolding file_node
add_file v i path b size w free inside accepted room small =
    let v' : Ramfs = record v { nodes = update v.nodes i (file_node path b size (v.nodes i)) } in
    let files = count_change max_nodes (file_at v) (file_at v') i inside (λ j ne. ground arith) in
    let dirs = count_change max_nodes (dir_at v) (dir_at v') i inside (λ j ne. ground arith) in
    record {
      tree =
          counts-IsTree v' _ _
            (add_node-IsTree v i (file_node path b size (v.nodes i)) w.tree inside free accepted);
      kinds = λ j l u. ground (arith, w.kinds j l);
      sizes = λ j l. ground (arith, w.sizes j l);
      files = ground (arith, files, w.files);
      dirs = ground (arith, dirs, w.dirs);
      limits = ground (arith, w.limits);
    }

-- `vfs_mkdir` keeps the nodes a tree and the counters right, whatever its answer.
pub vfs_mkdir-WellFormed :
    (v : Ramfs) (path : FilePath) → WellFormed v → WellFormed (vfs_mkdir v path).0
unfolding vfs_mkdir
vfs_mkdir-WellFormed v path w =
    elim (Bool-cases (name_refused v path || leb max_dirs v.dir_count)) [
      | inl e ↦ rw e w
      | inr accepted ↦ rw accepted (elim (Option-cases (alloc_node v)) [
        | inl full ↦ rw (full, vfs_mkdir) w
        | inr (i, e) ↦
            rw (e, vfs_mkdir)
              (let (free, inside) = alloc_node-some v i e in
                add_directory v i path w free inside (ground arith) (ground arith))
      ])
    ]

-- Making a file in the RAM file system keeps the nodes a tree, the sizes within the limit and the
-- counters right, whatever the answer.
pub ram_create-WellFormed :
    (v : Ramfs) (path : FilePath) (b : Buffer) (size : ℕ)
    → WellFormed v
    → WellFormed (ram_create v path b size).0
unfolding ram_create
ram_create-WellFormed v path b size w =
    elim (Bool-cases (
      ltb max_file_size size
      || missing b size
      || name_refused v path
      || leb max_files v.file_count)) [
        | inl e ↦ rw e w
        | inr accepted ↦ rw accepted (elim (Option-cases (alloc_node v)) [
          | inl full ↦ rw (full, ram_create) w
          | inr (i, e) ↦
              rw (e, ram_create)
                (let (free, inside) = alloc_node-some v i e in
                  add_file v i path b size w free inside (ground arith) (ground arith)
                    (ground arith))
        ])
      ]

module _ (v : Ramfs) (i : ℕ) (w : WellFormed v) (inside : i < max_nodes)
    (u : (v.nodes i).used ≡ true) where
  files_dropped :
      count max_nodes (file_at (drop_node v i)) + bit (file_at v i) ≡ count max_nodes (file_at v)
  unfolding drop_node clear_node
  files_dropped =
      let c =
        count_change max_nodes (file_at v) (file_at (drop_node v i)) i inside
          (λ j ne. ground arith) in
      ground (arith, c)

  dirs_dropped :
      count max_nodes (dir_at (drop_node v i)) + bit (dir_at v i) ≡ count max_nodes (dir_at v)
  unfolding drop_node clear_node
  dirs_dropped =
      let c =
        count_change max_nodes (dir_at v) (dir_at (drop_node v i)) i inside
          (λ j ne. ground arith) in
      ground (arith, c)

  dropped_kinds :
      (j : ℕ)
      → j < max_nodes
      → ((drop_node v i).nodes j).used ≡ true
      → (file_at (drop_node v i) j || dir_at (drop_node v i) j) ≡ true
  unfolding drop_node clear_node
  dropped_kinds j l h = ground (arith, w.kinds j l)

  dropped_sizes : (j : ℕ) → j < max_nodes → ((drop_node v i).nodes j).size ≤ max_file_size
  unfolding drop_node clear_node
  dropped_sizes j l = ground (arith, w.sizes j l)

  dropped_counts :
      ((drop_node v i).file_count ≡ v.file_count) × ((drop_node v i).dir_count ≡ v.dir_count)
  unfolding drop_node
  dropped_counts = (refl, refl)

  drop_file :
      IsTree (drop_node v i)
      → is_directory (v.nodes i).kind ≡ false
      → WellFormed (record (drop_node v i) { file_count = sub64 v.file_count 1 })
  drop_file t k = record {
    tree = counts-IsTree (drop_node v i) _ _ t;
    kinds = dropped_kinds;
    sizes = dropped_sizes;
    files = ground (arith, files_dropped, w.kinds i inside, w.files, w.limits);
    dirs = ground (arith, dirs_dropped, w.dirs, dropped_counts);
    limits = ground (arith, w.limits, w.files, files_dropped, w.kinds i inside, dropped_counts);
  }

  drop_directory :
      IsTree (drop_node v i)
      → is_directory (v.nodes i).kind ≡ true
      → WellFormed (record (drop_node v i) { dir_count = sub64 v.dir_count 1 })
  drop_directory t k = record {
    tree = counts-IsTree (drop_node v i) _ _ t;
    kinds = dropped_kinds;
    sizes = dropped_sizes;
    files = ground (arith, files_dropped, w.files, dropped_counts);
    dirs = ground (arith, dirs_dropped, w.dirs, w.limits);
    limits = ground (arith, w.limits, w.dirs, dirs_dropped, dropped_counts);
  }

alone_if_file :
    (v : Ramfs) (i : ℕ)
    → is_directory (v.nodes i).kind ≡ false
    → (j : ℕ) → j < max_nodes
    → (is_directory (v.nodes i).kind && child_of v i (v.nodes i).path j) ≡ false
alone_if_file v i e j h = ground arith

-- `vfs_remove` keeps the nodes a tree and the counters right, whatever its answer: no node loses its
-- parent.
pub vfs_remove-WellFormed :
    (v : Ramfs) (path : FilePath) → WellFormed v → WellFormed (vfs_remove v path).0
unfolding vfs_remove remove_node
vfs_remove-WellFormed v path w = elim (Option-cases (vfs_find v path)) [
  | inl e ↦ rw (e, vfs_remove) w
  | inr (i, e) ↦
      rw (e, vfs_remove)
        (let (hit, inside) = vfs_find-some v path i e in
          let u : (v.nodes i).used ≡ true = ground arith in
          let at : (v.nodes i).path ≡ path =
            eq_of_path_equals (v.nodes i).path path (ground arith) in
          elim (Bool-cases (is_directory (v.nodes i).kind)) [
            | inl d ↦
                rw d (elim (Bool-cases (is_found (find_first (child_of v i path) max_nodes 0))) [
                  | inl full ↦ rw full w
                  | inr bare ↦ rw bare (
                      drop_directory v i w inside u
                        (drop_node-IsTree v i w.tree (λ j h.
                          let none_below = no_children v i path bare j h in
                          subst (λ p. (is_directory (v.nodes i).kind && child_of v i p j) ≡ false)
                            (sym at) (ground arith)))
                        d)
                ])
            | inr f ↦
                rw f
                  (drop_file v i w inside u (drop_node-IsTree v i w.tree (alone_if_file v i f)) f)
          ])
]

-- The empty file system.
module _ (v : Ramfs) where
  cleared : (i : ℕ) → i < max_nodes → (vfs_init v).nodes i ≡ clear_node i (v.nodes i)
  unfolding vfs_init
  cleared i l = ground (arith, map_range_lem clear_node max_nodes 0 v.nodes i)

  init_unused : (i : ℕ) → i < max_nodes → ((vfs_init v).nodes i).used ≡ false
  unfolding clear_node
  init_unused i l = ap (λ n. n.used) (cleared i l)

  init_sizes : (i : ℕ) → i < max_nodes → ((vfs_init v).nodes i).size ≡ 0
  unfolding clear_node
  init_sizes i l = ap (λ n. n.size) (cleared i l)

  init_counts : ((vfs_init v).file_count ≡ 0) × ((vfs_init v).dir_count ≡ 0)
  unfolding vfs_init
  init_counts = (refl, refl)

  pub vfs_init-WellFormed : WellFormed (vfs_init v)
  vfs_init-WellFormed = record {
    tree = record {
      unique = λ i j l _ u _. ground (arith, init_unused i l);
      valid = λ i l u. ground (arith, init_unused i l);
      parents = λ i l u. absurd (ground (arith, init_unused i l));
    };
    kinds = λ i l u. ground (arith, init_unused i l);
    sizes = λ i l. ground (arith, init_sizes i l);
    files = ground (
      arith,
      init_counts,
      count_none max_nodes (file_at (vfs_init v)) (λ i l. ground (arith, init_unused i l)),
    );
    dirs = ground (
      arith,
      init_counts,
      count_none max_nodes (dir_at (vfs_init v)) (λ i l. ground (arith, init_unused i l)),
    );
    limits = ground (arith, init_counts);
  }
