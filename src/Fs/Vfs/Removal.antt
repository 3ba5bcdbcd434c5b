-- ===== src/Fs/Vfs/Removal.antt =====
-- vfs_remove of kernel/fs/vfs.c and the tree of nodes.
use saturn_os.Prelude.{
  ℕ, ◌<◌, ◌≡◌, sym, subst, inl, inr, true, false, ◌&&◌, Option, none, some, arith, ◌==◌, Bool-cases,
  find_first, Finds, find_first-Finds,
}
use saturn_os.Fs.Paths.{FilePath, last_slash, parent_path, is_below}
use saturn_os.Fs.Paths.Laws.{eq_of_path_equals, is_below-parent_path}
use saturn_os.Fs.Vfs.{Ramfs, is_directory, is_found, max_nodes, child_of, drop_node, clear_node}
use saturn_os.Fs.Vfs.Tree.{IsTree, HasParent}

pub no_children :
    (v : Ramfs) (i : ℕ) (path : FilePath)
    → is_found (find_first (child_of v i path) max_nodes 0) ≡ false
    → (j : ℕ) → j < max_nodes
    → child_of v i path j ≡ false
no_children v i path e =
    go (find_first (child_of v i path) max_nodes 0)
      (find_first-Finds (child_of v i path) max_nodes 0) e
  where
    go :
        (r : Option ℕ)
        → Finds (child_of v i path) max_nodes 0 r
        → is_found r ≡ false
        → (j : ℕ) → j < max_nodes
        → child_of v i path j ≡ false
    go none f e = λ j h. f j (omega arith) (omega arith)
    go (some k) f e = cc

module _ (v : Ramfs) (i : ℕ) (t : IsTree v)
    (alone : (j : ℕ)
      → j < max_nodes
      → (is_directory (v.nodes i).kind && child_of v i (v.nodes i).path j) ≡ false) where
  parent_kept :
      (a : ℕ)
      → a < max_nodes
      → (v.nodes a).used ≡ true
      → (a == i) ≡ false
      → HasParent v (v.nodes a).path
      → HasParent (drop_node v i) (v.nodes a).path
  unfolding drop_node clear_node
  parent_kept a ha ua other (inl root) = inl root
  parent_kept a ha ua other (inr (j, inside, at)) =
      elim (Bool-cases (last_slash (v.nodes a).path == 0)) [
        | inl root ↦ inl (ground arith)
        | inr deep ↦ elim (Bool-cases (j == i)) [
          | inl gone ↦ absurd (
              let same : parent_path (v.nodes a).path ≡ (v.nodes j).path = sym (
                eq_of_path_equals (v.nodes j).path (parent_path (v.nodes a).path) (ground arith)) in
              let below : is_below (v.nodes j).path (v.nodes a).path ≡ true =
                subst (λ p. is_below p (v.nodes a).path ≡ true) same
                  (is_below-parent_path (v.nodes a).path (ground arith)) in
              let here : j ≡ i = ground arith in
              let below' : is_below (v.nodes i).path (v.nodes a).path ≡ true =
                subst (λ k. is_below (v.nodes k).path (v.nodes a).path ≡ true) here below in
              let dir : is_directory (v.nodes i).kind ≡ true =
                subst (λ k. is_directory (v.nodes k).kind ≡ true) here (ground arith) in
              let clash = alone a ha in ground (arith, clash))
          | inr still ↦ inr (j, inside, ground arith)
        ]
      ]

  pub drop_node-IsTree : IsTree (drop_node v i)
  unfolding drop_node clear_node
  drop_node-IsTree = record {
    unique = λ a b ha hb ua h. t.unique a b ha hb (ground arith) (ground arith);
    valid = λ a ha ua. ground (arith, t.valid a);
    parents = λ a ha ua.
        let other : (a == i) ≡ false = ground arith in
        let ua' : (v.nodes a).used ≡ true = ground arith in
        let e : (v.nodes a).path ≡ ((drop_node v i).nodes a).path = ground arith in
        subst (HasParent (drop_node v i)) e (parent_kept a ha ua' other (t.parents a ha ua'));
  }
