-- ===== src/Fs/Paths.antt =====
-- The helpers on paths of kernel/fs/vfs.c. A path is a C string: the list of its bytes before the
-- closing NUL, none of which is zero.
pub mod Laws
use saturn_os.Prelude.{
  ℕ, zero, suc, ◌+◌, ◌-◌, Bool, true, false, not, ◌&&◌, ◌||◌, Option, none, some, List, [], ◌∷◌,
  ◌++◌, ltb, leb, ◌==◌, if◌then◌else◌,
}

abbrev pub FilePath : Type 0
FilePath = List ℕ

-- `'/'`
abbrev pub slash : ℕ
slash = 47

abbrev pub max_path : ℕ
max_path = 48

abbrev pub length {ℓ} : {A : Type ℓ} → List A → ℕ
length [] = 0
length (x ∷ xs) = suc (length xs)

abbrev pub take {ℓ} : {A : Type ℓ} → ℕ → List A → List A
take zero xs = []
take (suc n) [] = []
take (suc n) (x ∷ xs) = x ∷ take n xs

abbrev pub drop {ℓ} : {A : Type ℓ} → ℕ → List A → List A
drop zero xs = xs
drop (suc n) [] = []
drop (suc n) (x ∷ xs) = drop n xs

-- `vfs_path_equals`
abbrev pub path_equals : FilePath → FilePath → Bool
path_equals [] [] = true
path_equals [] (b ∷ bs) = false
path_equals (a ∷ as') [] = false
path_equals (a ∷ as') (b ∷ bs) = (a == b) && path_equals as' bs

abbrev pub starts_with_slash : FilePath → Bool
starts_with_slash [] = false
starts_with_slash (c ∷ cs) = c == slash

unfoldable pub path_valid : FilePath → Bool
path_valid path = starts_with_slash path && ltb (length path) max_path && ltb 1 (length path)

-- The loop of `vfs_parent_exists`: the place of the last slash, 0 if there is none.
unfoldable pub last_slash_from : FilePath → ℕ → ℕ → ℕ
last_slash_from [] i last = last
last_slash_from (c ∷ cs) i last = last_slash_from cs (suc i) (if c == slash then i else last)

unfoldable pub last_slash : FilePath → ℕ
last_slash path = last_slash_from path 0 0

unfoldable pub parent_path : FilePath → FilePath
parent_path path = take (last_slash path) path

-- Whether `path` is `dir` with a slash behind it and anything behind that: the loops that count
-- `matched` in `vfs_remove` and `vfs_rename`.
abbrev pub is_below : FilePath → FilePath → Bool
is_below [] [] = false
is_below [] (c ∷ cs) = c == slash
is_below (d ∷ ds) [] = false
is_below (d ∷ ds) (c ∷ cs) = (c == d) && is_below ds cs

-- The text behind a prefix.
unfoldable pub strip_prefix : FilePath → FilePath → Option FilePath
strip_prefix [] path = some path
strip_prefix (a ∷ as') [] = none
strip_prefix (a ∷ as') (b ∷ bs) = if a == b then strip_prefix as' bs else none

abbrev pub in_mount : Option FilePath → Option FilePath
in_mount none = none
in_mount (some []) = none
in_mount (some (c ∷ [])) = none
in_mount (some (c ∷ d ∷ rest)) = if c == slash then some (c ∷ d ∷ rest) else none

-- "/disk"
abbrev pub disk_prefix : FilePath
disk_prefix = 47 ∷ 100 ∷ 105 ∷ 115 ∷ 107 ∷ []

unfoldable pub disk_path : FilePath → Option FilePath
disk_path path = in_mount (strip_prefix disk_prefix path)

-- What fits into `entry->path`.
abbrev pub entry_path : FilePath → FilePath
entry_path path = take (max_path - 1) path
