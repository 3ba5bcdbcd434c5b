-- ===== src/Fs/Vfs/Tree.antt =====
-- The tree of nodes of kernel/fs/vfs.c, and what adds a node to it.
use saturn_os.Prelude.{
  ℕ, ◌<◌, ◌≡◌, sym, subst, inl, inr, ◌⊎◌, Bool, true, false, not, ◌&&◌, Option, none, some, arith,
  ◌==◌, update, Bool-cases, Option-cases, find_first, Finds, find_first-Finds,
}
use saturn_os.Fs.Paths.{FilePath, path_equals, path_valid, last_slash, parent_path}
use saturn_os.Fs.Paths.Laws.{path_equals_self, eq_of_path_equals}
use saturn_os.Fs.Vfs.{
  Node, Ramfs, is_directory, vfs_find, holds, is_found, parent_exists, name_refused, alloc_node,
  max_nodes,
}

-- Whether the node `j` is a directory with the path.
abbrev pub is_dir_at : Ramfs → FilePath → ℕ → Bool
is_dir_at v path j = holds v path j && is_directory (v.nodes j).kind

abbrev pub HasParent : Ramfs → FilePath → Type 0
HasParent v path =
    (last_slash path ≡ 0) ⊎ ((j : ℕ) × (j < max_nodes) × (is_dir_at v (parent_path path) j ≡ true))

pub record IsTree (v : Ramfs) : Type 0 where
  pub unique :
      (i j : ℕ)
      → i < max_nodes
      → j < max_nodes
      → (v.nodes i).used ≡ true
      → holds v (v.nodes i).path j ≡ true
      → i ≡ j
  pub valid : (i : ℕ) → i < max_nodes → (v.nodes i).used ≡ true → path_valid (v.nodes i).path ≡ true
  pub parents : (i : ℕ) → i < max_nodes → (v.nodes i).used ≡ true → HasParent v (v.nodes i).path

-- What a search for a path finds, and what it means that it finds nothing.
pub vfs_find-some :
    (v : Ramfs) (path : FilePath) (i : ℕ)
    → vfs_find v path ≡ some i
    → (holds v path i ≡ true) × (i < max_nodes)
unfolding vfs_find
vfs_find-some v path i e =
    let (hit, _, inside, _) =
      subst (Finds (holds v path) max_nodes 0) e (find_first-Finds (holds v path) max_nodes 0) in
    (hit, inside)

pub vfs_find_none :
    (v : Ramfs) (path : FilePath)
    → is_found (vfs_find v path) ≡ false
    → (j : ℕ) → j < max_nodes
    → holds v path j ≡ false
unfolding vfs_find
vfs_find_none v path e =
    go (find_first (holds v path) max_nodes 0) (find_first-Finds (holds v path) max_nodes 0) e
  where
    go :
        (r : Option ℕ)
        → Finds (holds v path) max_nodes 0 r
        → is_found r ≡ false
        → (j : ℕ) → j < max_nodes
        → holds v path j ≡ false
    go none f e = λ j h. f j (omega arith) (omega arith)
    go (some i) f e = cc

pub alloc_node-some :
    (v : Ramfs) (i : ℕ) → alloc_node v ≡ some i → ((v.nodes i).used ≡ false) × (i < max_nodes)
unfolding alloc_node
alloc_node-some v i e =
    let (hit, _, inside, _) =
      subst (Finds (λ j. not (v.nodes j).used) max_nodes 0) e
        (find_first-Finds (λ j. not (v.nodes j).used) max_nodes 0) in
    (ground arith, inside)

pub parent_exists-HasParent :
    (v : Ramfs) (path : FilePath) → parent_exists v path ≡ true → HasParent v path
unfolding parent_exists
parent_exists-HasParent v path h = elim (Option-cases (vfs_find v (parent_path path))) [
  | inl e ↦ inl (let h' = rw e at h in ground arith)
  | inr (j, e) ↦ elim (Bool-cases (last_slash path == 0)) [
    | inl root ↦ inl (ground arith)
    | inr deep ↦
        let h' = rw e at h in
        let (hit, inside) = vfs_find-some v (parent_path path) j e in inr (j, inside, ground arith)
  ]
]

-- The path of a new node is valid, not taken, and has a parent.
pub accepted_name :
    (v : Ramfs) (path : FilePath)
    → name_refused v path ≡ false
    → (path_valid path ≡ true)
      × ((j : ℕ) → j < max_nodes → holds v path j ≡ false)
      × HasParent v path
unfolding name_refused
accepted_name v path h = (
  ground arith,
  vfs_find_none v path (ground arith),
  parent_exists-HasParent v path (ground arith),
)

pub holds-path :
    (v : Ramfs) (p q : FilePath) (j : ℕ)
    → holds v p j ≡ true
    → path_equals q p ≡ true
    → holds v q j ≡ true
holds-path v p q j h e =
    let same : q ≡ p = eq_of_path_equals q p e in subst (λ r. holds v r j ≡ true) (sym same) h

holds_self : (v : Ramfs) (j : ℕ) → (v.nodes j).used ≡ true → holds v (v.nodes j).path j ≡ true
holds_self v j u = ground (arith, path_equals_self (v.nodes j).path)

module _ (v : Ramfs) (i : ℕ) (n : Node) (t : IsTree v) (free : (v.nodes i).used ≡ false)
    (fresh : (j : ℕ) → j < max_nodes → holds v n.path j ≡ false) where
  with_node : Ramfs
  with_node = record v { nodes = update v.nodes i n }

  unique_added :
      (a b : ℕ)
      → a < max_nodes
      → b < max_nodes
      → (with_node.nodes a).used ≡ true
      → holds with_node (with_node.nodes a).path b ≡ true
      → a ≡ b
  unfolding with_node
  unique_added a b ha hb ua h = elim (Bool-cases (a == i)) [
    | inl ea ↦ elim (Bool-cases (b == i)) [
      | inl eb ↦ ground arith
      | inr eb ↦ absurd (let h' = rw (ea, eb) at h in let no_one = fresh b hb in cc)
    ]
    | inr ea ↦ elim (Bool-cases (b == i)) [
      | inl eb ↦ absurd (
          let h' : path_equals n.path (v.nodes a).path ≡ true = ground arith in
          let ua' : (v.nodes a).used ≡ true = ground arith in
          let at : holds v n.path a ≡ true =
            holds-path v (v.nodes a).path n.path a (holds_self v a ua') h' in
          let no_one = fresh a ha in cc)
      | inr eb ↦ t.unique a b ha hb (ground arith) (ground arith)
    ]
  ]

  HasParent-added : (path : FilePath) → HasParent v path → HasParent with_node path
  unfolding with_node
  HasParent-added path (inl root) = inl root
  HasParent-added path (inr (j, inside, at)) = inr (j, inside, ground arith)

  parents_added :
      HasParent v n.path
      → (a : ℕ) → a < max_nodes
      → (with_node.nodes a).used ≡ true
      → HasParent with_node (with_node.nodes a).path
  unfolding with_node
  parents_added parent a ha ua = elim (Bool-cases (a == i)) [
    | inl ea ↦
        let e : n.path ≡ (with_node.nodes a).path = ground arith in
        subst (HasParent with_node) e (HasParent-added n.path parent)
    | inr ea ↦
        let e : (v.nodes a).path ≡ (with_node.nodes a).path = ground arith in
        let ua' : (v.nodes a).used ≡ true = ground arith in
        subst (HasParent with_node) e (HasParent-added (v.nodes a).path (t.parents a ha ua'))
  ]

-- Adding a node under an accepted name, in a free place.
pub add_node-IsTree :
    (v : Ramfs) (i : ℕ) (n : Node)
    → IsTree v
    → i < max_nodes
    → (v.nodes i).used ≡ false
    → name_refused v n.path ≡ false
    → IsTree (record v { nodes = update v.nodes i n })
unfolding with_node
add_node-IsTree v i n t inside free accepted =
    let (valid, fresh, parent) = accepted_name v n.path accepted in
    record {
      unique = unique_added v i n t free fresh;
      valid = λ a ha ua. ground (arith, t.valid a);
      parents = parents_added v i n t free fresh parent;
    }

-- Only the nodes matter.
pub counts-IsTree :
    (v : Ramfs) (files dirs : ℕ)
    → IsTree v
    → IsTree (record v { file_count = files; dir_count = dirs })
counts-IsTree v files dirs t = record { unique = t.unique; valid = t.valid; parents = t.parents }
