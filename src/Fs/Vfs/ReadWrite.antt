-- ===== src/Fs/Vfs/ReadWrite.antt =====
-- Reading back what was written, and what the bytes of a file are otherwise.
use saturn_os.Prelude.{
  ℕ, ◌+◌, ◌-◌, ◌≤◌, ◌<◌, ◌≡◌, ◌∙◌, refl, ap, sym, subst, fun_ext, ◌⊎◌, inl, inr, Bool, true, false,
  ◌&&◌, ◌||◌, Option, none, some, ltb, leb, arith, ◌==◌, if◌then◌else◌, Array, update, pos,
  Bool-cases, Option-cases, find_first, find_first-first, Finds, find_first-Finds, add64, not,
}
use saturn_os.Fs.Paths.{FilePath}
use saturn_os.Fs.Disk.{Buffer}
use saturn_os.Fs.Paths.Laws.{path_equals_self}
use saturn_os.Fs.Vfs.{
  Node, Ramfs, is_file, vfs_find, max_nodes, max_file_size, alloc_node, is_found, holds,
  name_refused, max_files,
}
use saturn_os.Fs.Vfs.Tree.{vfs_find_none}
use saturn_os.Fs.Vfs.Files.{
  bytes, copy_in, missing, find_file, outside, written, ram_write, truncated, clipped, read_node,
  ram_read, file_node, ram_create,
}

-- Two states whose nodes have the same names.
abbrev pub SameNames : Ramfs → Ramfs → Type 0
SameNames v v' =
    (j : ℕ)
    → ((v'.nodes j).used ≡ (v.nodes j).used)
      × ((v'.nodes j).path ≡ (v.nodes j).path)
      × ((v'.nodes j).kind ≡ (v.nodes j).kind)

pub vfs_find_same :
    (v v' : Ramfs) (path : FilePath) → SameNames v v' → vfs_find v' path ≡ vfs_find v path
unfolding vfs_find
vfs_find_same v v' path same =
    ap (λ (test : ℕ → Bool). find_first test max_nodes 0) (fun_ext λ j. rw ((same j).0, (same j).1))

file_or : (v : Ramfs) → Option ℕ → Option ℕ
file_or v none = none
file_or v (some i) = if is_file (v.nodes i).kind then some i else none

find_file-file_or : (v : Ramfs) (path : FilePath) → find_file v path ≡ file_or v (vfs_find v path)
unfolding find_file file_or
find_file-file_or v path = elim (Option-cases (vfs_find v path)) [
  | inl e ↦ rw (e, find_file)
  | inr (i, e) ↦ rw (e, find_file)
]

pub find_file_same :
    (v v' : Ramfs) (path : FilePath) → SameNames v v' → find_file v' path ≡ find_file v path
unfolding file_or
find_file_same v v' path same =
    rw (find_file-file_or v' path, find_file-file_or v path, vfs_find_same v v' path same)
      (go (vfs_find v path))
  where
    go : (r : Option ℕ) → file_or v' r ≡ file_or v r
    go none = refl
    go (some i) = rw (same i).2

-- The state after an accepted write.
abbrev pub with_written : Ramfs → ℕ → ℕ → Buffer → ℕ → Ramfs
with_written v i offset b size = record v {
  nodes = update v.nodes i (written (v.nodes i) offset (bytes b) size);
}

written_names :
    (v : Ramfs) (i offset : ℕ) (b : Buffer) (size : ℕ)
    → SameNames v (with_written v i offset b size)
unfolding written
written_names v i offset b size j = ground arith

with_written_at :
    (v : Ramfs) (i offset : ℕ) (b : Buffer) (size : ℕ)
    → (with_written v i offset b size).nodes i ≡ written (v.nodes i) offset (bytes b) size
with_written_at v i offset b size = let e : (i == i) ≡ true = ground arith in rw e

written_size :
    (n : Node) (offset size : ℕ) (source : Array ℕ)
    → offset + size ≤ (written n offset source size).size
unfolding written
written_size n offset size source = ground arith

-- What a read at `offset` of the node gives when the node holds enough.
abbrev pub out_of : Node → ℕ → Array ℕ → ℕ → Array ℕ
out_of n offset target size = copy_in target 0 (λ k. n.content (offset + k)) size

read_node_full :
    (n : Node) (offset size : ℕ) (target : Array ℕ)
    → offset + size ≤ n.size
    → read_node n offset (some target) size ≡ some (size, out_of n offset target size)
unfolding read_node
read_node_full n offset size target h =
    let a : (missing (some target) size || ltb n.size offset) ≡ false = ground arith in
    let c : clipped (n.size - offset) size ≡ size = ground arith in rw (a, c)

out_of-written :
    (n : Node) (offset size : ℕ) (b target : Array ℕ) (k : ℕ)
    → k < size
    → out_of (written n offset b size) offset target size k ≡ b k
unfolding copy_in written
out_of-written n offset size b target k h =
    let a : (leb 0 k && ltb k (0 + size)) ≡ true = ground arith in
    let c : (leb offset (offset + (k - 0)) && ltb (offset + (k - 0)) (offset + size)) ≡ true =
      ground arith in
    rw (a, c) (ap b (omega arith))

-- For the path of a file and a range within the size limit, a write answers the number of bytes and
-- changes that file only, and a read of the same range afterwards gives the bytes that were written.
pub ram_read-ram_write :
    (v : Ramfs) (path : FilePath) (i offset size : ℕ) (b target : Array ℕ)
    → find_file v path ≡ some i
    → offset + size ≤ max_file_size
    → (out : Array ℕ) × (ram_write v path offset (some b) size
        ≡ (with_written v i offset (some b) size, pos size))
      × (ram_read (with_written v i offset (some b) size) path offset (some target) size
          ≡ some (size, out))
      × ((k : ℕ) → k < size → out k ≡ b k)
unfolding ram_write ram_read
ram_read-ram_write v path i offset size b target at fits =
    let w : Node = written (v.nodes i) offset b size in
    let inside : outside max_file_size offset size ≡ false = ground arith in
    let given : missing (some b) size ≡ false = ground arith in
    let again : find_file (with_written v i offset (some b) size) path ≡ some i =
      find_file_same v _ path (written_names v i offset (some b) size) ∙ at in
    (
      out_of w offset target size,
      rw (at, ram_write) (rw (given, inside)),
      rw (again, ram_read)
          (subst
            (λ n. read_node n offset (some target) size ≡ some (size, out_of w offset target size))
            (sym (with_written_at v i offset (some b) size))
            (read_node_full w offset size target (written_size (v.nodes i) offset size b))),
      λ k h. out_of-written (v.nodes i) offset size b target k h,
    )

-- A write changes no byte of the file outside its range, and no byte of another node.
pub written_outside :
    (v : Ramfs) (i offset size : ℕ) (b : Array ℕ) (j k : ℕ)
    → ((j ≡ i) → (k < offset) ⊎ (offset + size ≤ k))
    → ((with_written v i offset (some b) size).nodes j).content k ≡ (v.nodes j).content k
unfolding written copy_in
written_outside v i offset size b j k h = ground arith

-- After a truncation a file has the new size; its bytes below both sizes are kept, and those from its
-- old size on are zero.
pub truncated_lem :
    (n : Node) (size k : ℕ)
    → k < size
    → ((truncated n size).size ≡ size)
      × ((truncated n size).content k ≡ (if ltb k n.size then n.content k else 0))
unfolding truncated copy_in
truncated_lem n size k h = (
  refl,
  elim (Bool-cases (ltb n.size size)) [ inl e ↦ rw e (ground arith) | inr e ↦ rw e (ground arith) ],
)

read_node_gap :
    (n : Node) (offset size : ℕ) (b target : Array ℕ)
    → n.size ≤ offset
    → (read_node (written n offset b size) 0 (some target) offset
        ≡ some (offset, out_of (written n offset b size) 0 target offset))
      × ((k : ℕ) → k < offset → out_of (written n offset b size) 0 target offset k ≡ n.content k)
unfolding copy_in written
read_node_gap n offset size b target behind = (
  read_node_full _ 0 offset target (ground arith),
  λ k h.
      let a : (leb 0 k && ltb k (0 + offset)) ≡ true = ground arith in
      let c : (leb offset (0 + (k - 0)) && ltb (0 + (k - 0)) (offset + size)) ≡ false =
        ground arith in
      rw (a, c) (ap n.content (omega arith)),
)

-- The state after an accepted creation of a file with no bytes.
abbrev made : Ramfs → FilePath → ℕ → Ramfs
made v path i = record v {
  nodes = update v.nodes i (file_node path none 0 (v.nodes i));
  file_count = add64 v.file_count 1;
}

find_file-made :
    (v : Ramfs) (path : FilePath) (i : ℕ)
    → i < max_nodes
    → is_found (vfs_find v path) ≡ false
    → find_file (made v path i) path ≡ some i
unfolding vfs_find file_node find_file
find_file-made v path i inside missing =
    let here : (i == i) ≡ true = ground arith in
    let first : find_first (holds (made v path i) path) max_nodes 0 ≡ some i =
      find_first-first (holds (made v path i) path) max_nodes i inside
        (rw (here, path_equals_self path) refl)
        (λ j l. rw (not_same j l) (vfs_find_none v path missing j (omega arith))) in
    rw (first, find_file) (rw here refl)
  where
    not_same : (j : ℕ) → j < i → (j == i) ≡ false
    not_same j l = ground arith

alloc_node-inside : (v : Ramfs) (i : ℕ) → alloc_node v ≡ some i → i < max_nodes
unfolding alloc_node
alloc_node-inside v i e =
    let (hit, low, inside, rest) =
      subst (Finds (λ j. not (v.nodes j).used) max_nodes 0) e
        (find_first-Finds (λ j. not (v.nodes j).used) max_nodes 0) in
    inside

ram_create-made :
    (v v' : Ramfs) (path : FilePath)
    → ram_create v path none 0 ≡ (v', true)
    → (i : ℕ) × (alloc_node v ≡ some i)
      × (v' ≡ made v path i)
      × (is_found (vfs_find v path) ≡ false)
unfolding ram_create
ram_create-made v v' path e =
    elim (Bool-cases (name_refused v path || leb max_files v.file_count)) [
      | inl bad ↦
          absurd
            (let r : false ≡ true = ap (λ (q : Ramfs × Bool). q.1) (rw bad at e) in ground arith)
      | inr good ↦ elim (Option-cases (alloc_node v)) [
        | inl full ↦ absurd (
            let r : false ≡ true = ap (λ (q : Ramfs × Bool). q.1) (rw (good, full) at e) in
            ground arith)
        | inr (i, free) ↦ (
          i,
          free,
          sym (ap (λ (q : Ramfs × Bool). q.0) (rw (good, free) at e)),
          unfold name_refused in ground (arith, good),
        )
      ]
    ]

made_node :
    (v : Ramfs) (path : FilePath) (i k : ℕ)
    → (((made v path i).nodes i).size ≡ 0)
      × (((made v path i).nodes i).content k ≡ (v.nodes i).content k)
unfolding file_node copy_in
made_node v path i k = let here : (i == i) ≡ true = ground arith in rw here (refl, ground arith)

-- After a file has been made with no bytes, a write of `size` bytes at `offset` within the size limit
-- succeeds, and a read of the first `offset` bytes gives the bytes that the node held before the file was
-- made, whatever file they are of. The node is the first that is not in use.
pub read_node-gap :
    (v v' : Ramfs) (path : FilePath) (offset size : ℕ) (b target : Array ℕ)
    → ram_create v path none 0 ≡ (v', true)
    → offset + size ≤ max_file_size
    → (i : ℕ) × (w : Ramfs) × (out : Array ℕ) × (alloc_node v ≡ some i)
      × (ram_write v' path offset (some b) size ≡ (w, pos size))
      × (ram_read w path 0 (some target) offset ≡ some (offset, out))
      × ((k : ℕ) → k < offset → out k ≡ (v.nodes i).content k)
unfolding ram_read
read_node-gap v v' path offset size b target e fits =
    let (i, free, same, missing) = ram_create-made v v' path e in
    let at : find_file v' path ≡ some i =
      ap (λ (u : Ramfs). find_file u path) same
      ∙ find_file-made v path i (alloc_node-inside v i free) missing in
    let w : Ramfs = with_written v' i offset (some b) size in
    let again : find_file w path ≡ some i =
      find_file_same v' w path (written_names v' i offset (some b) size) ∙ at in
    let n : Node = written (v'.nodes i) offset b size in
    let none_yet : (v'.nodes i).size ≡ 0 =
      ap (λ (u : Ramfs). (u.nodes i).size) same ∙ (made_node v path i 0).0 in
    let (read, kept) = read_node_gap (v'.nodes i) offset size b target (omega arith) in
    let (_, wrote, _, _) = ram_read-ram_write v' path i offset size b target at fits in
    (
      i,
      w,
      out_of n 0 target offset,
      free,
      wrote,
      rw (again, ram_read)
          (subst (λ m. read_node m 0 (some target) offset ≡ some (offset, out_of n 0 target offset))
            (sym (with_written_at v' i offset (some b) size)) read),
      λ k h. kept k h ∙ ap (λ (u : Ramfs). (u.nodes i).content k) same ∙ (made_node v path i k).1,
    )
