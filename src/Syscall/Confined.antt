-- ===== src/Syscall/Confined.antt =====
-- What the system calls of syscall.c leave alone: the memory that the caller may not write to, the
-- scheduler's invariant, and the counts of calls.
pub mod Calls
pub mod Files
pub mod Whole
use saturn_os.Prelude.{
  ℕ, zero, suc, ◌+◌, ◌-◌, ◌*◌, ◌/◌, ◌%◌, ◌^◌, ◌≤◌, ◌<◌, ◌≡◌, ◌∙◌, refl, sym, subst, ap, Bool, true,
  false, not, ◌&&◌, ◌||◌, Option, none, some, List, [], ◌∷◌, ltb, leb, ◌==◌, arith, inl, inr, ◌⊎◌,
  if◌then◌else◌, Array, update, add64, word, ℤ, pos, negsuc, Bool-cases, Option-cases,
}
use saturn_os.Sched.Task.{AddressSpace, TaskFile}
use saturn_os.Sched.State.{Sched, set_task, task_is_runnable}
use saturn_os.Sched.Invariant.{WellFormed, same_marks-WellFormed}
use saturn_os.Memory.Space.{address_space_user_writable_range_valid}
use saturn_os.Memory.Space.Ranges.{Writable, writable_range_bytes}
use saturn_os.Fs.Paths.{FilePath, max_path}
use saturn_os.Fs.Vfs.{Entry, Ramfs}
use saturn_os.Fs.Vfs.Files.{Vfs, copy_in}
use saturn_os.Syscall.{
  Kernel, SyscallStats, fault, err_inval, syscall_address_space, read_name, store_words, set_files,
  caller, ok_or_inval,
}
use saturn_os.Syscall.Paths.{
  store_entry, entry_bytes, entry_kind, entry_size, can_write, can_read, bad_length, with_path,
  run_ram, give_entry,
}

copy_in_outside :
    (target : Array ℕ) (offset : ℕ) (source : Array ℕ) (size j : ℕ)
    → (j < offset) ⊎ (offset + size ≤ j)
    → copy_in target offset source size j ≡ target j
unfolding copy_in
copy_in_outside target offset source size j h = ground arith

-- The number of words.
unfoldable pub word_count : List ℕ → ℕ
word_count [] = 0
word_count (w ∷ ws) = suc (word_count ws)

store_words_outside :
    (memory : Array ℕ) (address : ℕ) (words : List ℕ) (j : ℕ)
    → (j < address) ⊎ (address + 8 * word_count words ≤ j)
    → store_words memory address words j ≡ memory j
unfolding store_words word_count
store_words_outside memory address [] j h = refl
store_words_outside memory address (w ∷ ws) j h =
    store_words_outside (copy_in memory address (λ i. w / 256 ^ i % 256) 8) (address + 8) ws j
      (ground arith)
    ∙ copy_in_outside memory address (λ i. w / 256 ^ i % 256) 8 j (ground arith)

store_entry_outside :
    (memory : Array ℕ) (address : ℕ) (e : Entry) (j : ℕ)
    → (j < address) ⊎ (address + entry_size ≤ j)
    → store_entry memory address e j ≡ memory j
unfolding store_entry word_count
store_entry_outside memory address e j h =
    store_words_outside (copy_in memory address (entry_bytes e.path) max_path) (address + max_path)
      (e.size ∷ entry_kind e.is_dir ∷ []) j (ground arith)
    ∙ copy_in_outside memory address (entry_bytes e.path) max_path j (ground arith)

module _ {S : Type 0} where
  -- Only bytes that the caller may write are changed, the calls are not counted, and the scheduler
  -- stays well formed.
  pub record Confined (k k' : Kernel S) : Type 0 where
    pub bytes : (a : ℕ) → Writable (syscall_address_space k.sched) a ⊎ (k'.memory a ≡ k.memory a)
    pub total : k'.stats.total ≡ k.stats.total
    pub handled : k'.stats.handled ≡ k.stats.handled
    pub rejected : k'.stats.rejected ≡ k.stats.rejected
    pub tasks : WellFormed k.sched → WellFormed k'.sched

  pub same-Confined : (k : Kernel S) → Confined k k
  same-Confined k = record {
    bytes = λ a. inr refl;
    total = refl;
    handled = refl;
    rejected = refl;
    tasks = λ w. w;
  }

  pub fault-Confined : (k : Kernel S) → Confined k (fault k).0
  unfolding fault
  fault-Confined k = record {
    bytes = λ a. inr refl;
    total = refl;
    handled = refl;
    rejected = refl;
    tasks = λ w. w;
  }

  -- A change of the files before another change.
  pub files-Confined :
      (k k' : Kernel S) (w : Vfs S) → Confined (record k { files = w }) k' → Confined k k'
  files-Confined k k' w c = record {
    bytes = c.bytes;
    total = c.total;
    handled = c.handled;
    rejected = c.rejected;
    tasks = c.tasks;
  }

  pub set_files-Confined : (k : Kernel S) (files : Array TaskFile) → Confined k (set_files k files)
  unfolding set_files
  set_files-Confined k files = record {
    bytes = λ a. inr refl;
    total = refl;
    handled = refl;
    rejected = refl;
    tasks = λ w.
        same_marks-WellFormed k.sched _ refl refl (λ i. ground arith) (λ i. ground arith)
          (unfold task_is_runnable in ground (arith, w.idle)) w;
  }

  -- A store into a range that was checked.
  pub store-Confined :
      (k : Kernel S) (memory : Array ℕ) (address size : ℕ)
      → address < word
      → size < word
      → can_write k address size ≡ true
      → ((j : ℕ) → (j < address) ⊎ (address + size ≤ j) → memory j ≡ k.memory j)
      → Confined k (record k { memory = memory })
  store-Confined k memory address size fits short ok outside = record {
    bytes = λ a. elim (Bool-cases (leb address a && ltb a (address + size))) [
      | inl inside ↦ inl (
          writable_range_bytes (syscall_address_space k.sched) address size a fits short ok
            (ground arith) (ground arith))
      | inr out ↦ inr (outside a (ground arith))
    ];
    total = refl;
    handled = refl;
    rejected = refl;
    tasks = λ w. w;
  }

  pub run_ram-Confined : (k : Kernel S) (r : Ramfs × Bool) → Confined k (run_ram k r).0
  unfolding run_ram
  run_ram-Confined k (ram, done) = files-Confined k _ _ (same-Confined _)

  pub give_entry-Confined :
      (k : Kernel S) (output result : ℕ) (e : Entry)
      → output < word
      → can_write k output entry_size ≡ true
      → Confined k (give_entry k output result e).0
  unfolding give_entry
  give_entry-Confined k output result e fits ok =
      store-Confined k _ output entry_size fits (omega arith) ok
        (λ j h. store_entry_outside k.memory output e j h)

  pub with_path-Confined :
      (k : Kernel S) (address length : ℕ) (refused allowed : Bool) (run : FilePath → Kernel S × ℤ)
      → (allowed ≡ true → (path : FilePath) → Confined k (run path).0)
      → Confined k (with_path k address length refused allowed run).0
  unfolding with_path
  with_path-Confined k address length refused allowed run h =
      elim (Bool-cases (bad_length length || refused)) [
        | inl bad ↦ rw bad (same-Confined k)
        | inr good ↦ rw good (elim (Bool-cases (can_read k address length && allowed)) [
          | inl ok ↦ rw ok (elim (Option-cases (read_name length k.memory address)) [
            | inl e ↦ rw (e, with_path) (same-Confined k)
            | inr (path, e) ↦ rw (e, with_path) (h (ground arith) path)
          ])
          | inr bad ↦ rw bad (fault-Confined k)
        ])
      ]

  -- The two branches of a test, and of a search.
  pub if-Confined :
      (k : Kernel S) (test : Bool) (x y : Kernel S × ℤ)
      → (test ≡ true → Confined k x.0)
      → (test ≡ false → Confined k y.0)
      → Confined k (if test then x else y).0
  if-Confined k true x y yes_case no_case = yes_case refl
  if-Confined k false x y yes_case no_case = no_case refl

  pub found-Confined {ℓ} :
      {A : Type ℓ} (k : Kernel S) (r : Option A) (x : Kernel S × ℤ) (y : A → Kernel S × ℤ)
      → Confined k x.0
      → ((a : A) → r ≡ some a → Confined k (y a).0)
      → Confined k (elim r as (λ _. Kernel S × ℤ) [ none ↦ x | some a ↦ y a ]).0
  found-Confined k none x y missing found = missing
  found-Confined k (some a) x y missing found = found a refl

  -- One change behind another that does not touch the tasks.
  pub then-Confined :
      (k k' k'' : Kernel S) → k'.sched ≡ k.sched → Confined k k' → Confined k' k'' → Confined k k''
  then-Confined k k' k'' same c d = record {
    bytes = λ a. elim (d.bytes a) [
      | inl w ↦ inl (subst (λ s. Writable (syscall_address_space s) a) same w)
      | inr e ↦ elim (c.bytes a) [ inl w ↦ inl w | inr f ↦ inr (e ∙ f) ]
    ];
    total = d.total ∙ c.total;
    handled = d.handled ∙ c.handled;
    rejected = d.rejected ∙ c.rejected;
    tasks = λ w. d.tasks (c.tasks w);
  }
