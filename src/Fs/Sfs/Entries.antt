-- ===== src/Fs/Sfs/Entries.antt =====
-- The directory of SaturnFS: what `sfs_write_file` changes of the search for a path.
use saturn_os.Prelude.{
  ℕ, suc, ◌<◌, ◌≡◌, ◌≢◌, ◌∙◌, refl, ap, sym, subst, fun_ext, Bool, true, false, not, Option, none,
  some, [], ◌∷◌, inl, inr, ◌==◌, arith, if◌then◌else◌, Array, find_first, Finds, find_first-Finds,
  find_first-first, Bool-cases, Option-cases, string_length, IsString, text_from, text_from-string,
}
use saturn_os.Fs.Paths.{FilePath, length, path_equals}
use saturn_os.Fs.Paths.Laws.{eq_of_path_equals}
use saturn_os.Fs.Sfs.{
  SfsEntry, SfsDirectory, sfs_max_files, sfs_max_path, entry_used, entry_named, find_entry,
  entry_for, copy_path, sfs_path_valid,
}

string_length_lem : (path : FilePath) → string_length path ≡ length path
string_length_lem [] = refl
string_length_lem (c ∷ cs) = ap suc (string_length_lem cs)

-- A path that is copied into an entry is read back.
pub text_from-copy_path :
    (old : Array ℕ) (path : FilePath)
    → IsString path
    → sfs_path_valid path ≡ true
    → text_from sfs_max_path (copy_path old path) 0 ≡ path
unfolding sfs_path_valid copy_path
text_from-copy_path old path ok valid =
    let same = string_length_lem path in
    text_from-string sfs_max_path (copy_path old path) 0 path ok (ground (arith, same))
      (λ j l. ground arith)

-- What the search for an entry to write promises.
pub record Fits (d : SfsDirectory) (path : FilePath) (i : ℕ) : Type 0 where
  pub inside : i < sfs_max_files
  pub first : (j : ℕ) → j < i → entry_named path (d.entries j) ≡ false
  pub others : (q : FilePath) → path_equals path q ≡ false → entry_named q (d.entries i) ≡ false

named-other :
    (e : SfsEntry) (path q : FilePath)
    → entry_named path e ≡ true
    → path_equals path q ≡ false
    → entry_named q e ≡ false
named-other e path q named other =
    let same : text_from sfs_max_path e.path 0 ≡ path =
      eq_of_path_equals (text_from sfs_max_path e.path 0) path (ground arith) in
    rw same (ground (arith, other))

free_entry : SfsDirectory → ℕ → Bool
free_entry d i = not (entry_used (d.entries i))

found_or_free : Option ℕ → Option ℕ → Option ℕ
found_or_free (some i) free = some i
found_or_free none free = free

entry_for-found_or_free :
    (d : SfsDirectory) (path : FilePath)
    → entry_for d path
      ≡ found_or_free
          (find_first (λ j. entry_named path (d.entries j)) sfs_max_files 0)
          (find_first (free_entry d) sfs_max_files 0)
unfolding entry_for find_entry found_or_free free_entry
entry_for-found_or_free d path =
    elim (Option-cases (find_first (λ j. entry_named path (d.entries j)) sfs_max_files 0)) [
      | inl e ↦ rw (e, entry_for, find_entry) refl
      | inr (k, e) ↦ rw (e, entry_for, find_entry) refl
    ]

pub entry_for-Fits :
    (d : SfsDirectory) (path : FilePath) (i : ℕ) → entry_for d path ≡ some i → Fits d path i
unfolding found_or_free free_entry
entry_for-Fits d path i e =
    go _ _ (find_first-Finds (λ j. entry_named path (d.entries j)) sfs_max_files 0)
      (find_first-Finds (free_entry d) sfs_max_files 0) (sym (entry_for-found_or_free d path) ∙ e)
  where
    go :
        (found free : Option ℕ)
        → Finds (λ j. entry_named path (d.entries j)) sfs_max_files 0 found
        → Finds (free_entry d) sfs_max_files 0 free
        → found_or_free found free ≡ some i
        → Fits d path i
    go (some k) free (hit, low, l, before) g e =
        let same : k ≡ i = ground arith in
        subst (Fits d path) same (record {
          inside = l;
          first = λ j m. before j (omega arith) m;
          others = λ q. named-other (d.entries k) path q hit;
        })
    go none none f g e = absurd (ground arith)
    go none (some k) f (hit, low, l, before) e =
        let same : k ≡ i = ground arith in
        subst (Fits d path) same (record {
          inside = l;
          first = λ j m. f j (omega arith) (omega arith);
          others = λ q other. ground (arith, hit);
        })

-- The search in a directory in which the entry `i` has become one of the path.
pub find_entry-new :
    (d d' : SfsDirectory) (path q : FilePath) (i : ℕ)
    → Fits d path i
    → ((j : ℕ) → j ≢ i → d'.entries j ≡ d.entries j)
    → entry_used (d'.entries i) ≡ true
    → text_from sfs_max_path (d'.entries i).path 0 ≡ path
    → find_entry d' q ≡ (if path_equals path q then some i else find_entry d q)
unfolding find_entry
find_entry-new d d' path q i f rest used text = elim (Bool-cases (path_equals path q)) [
  | inl same ↦
      let at : entry_named q (d'.entries i) ≡ true = rw (used, text, same) refl in
      let q_is : path ≡ q = eq_of_path_equals path q same in
      rw same (
        find_first-first (λ j. entry_named q (d'.entries j)) sfs_max_files i f.inside at
          (λ j l.
            rw (rest j (omega arith))
              (subst (λ p. entry_named p (d.entries j) ≡ false) q_is (f.first j l))))
  | inr other ↦
      let at : entry_named q (d'.entries i) ≡ entry_named q (d.entries i) =
        rw (used, text, other) (sym (f.others q other)) in
      rw other (
        ap (λ (test : ℕ → Bool). find_first test sfs_max_files 0)
          (fun_ext λ j. elim (Bool-cases (j == i)) [
            | inl e ↦ let here : j ≡ i = ground arith in rw here at
            | inr e ↦ ap (entry_named q) (rest j (ground arith))
          ]))
]

pub find_entry-named :
    (d : SfsDirectory) (path : FilePath) (i : ℕ)
    → find_entry d path ≡ some i
    → entry_named path (d.entries i) ≡ true
unfolding find_entry
find_entry-named d path i e =
    go (find_first (λ j. entry_named path (d.entries j)) sfs_max_files 0)
      (find_first-Finds (λ j. entry_named path (d.entries j)) sfs_max_files 0) e
  where
    go :
        (r : Option ℕ)
        → Finds (λ j. entry_named path (d.entries j)) sfs_max_files 0 r
        → r ≡ some i
        → entry_named path (d.entries i) ≡ true
    go none f e = absurd (ground arith)
    go (some k) (hit, low, high, rest) e =
        let same : k ≡ i = ground arith in
        subst (λ m. entry_named path (d.entries m) ≡ true) same hit
