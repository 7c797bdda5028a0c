-- ===== src/Subdir/Tests.antt =====
-- Runs of `subdir`, and its theorems at a file system that records its calls.
use fuse_nt.Prelude.{ℕ, ◌≡◌, refl, true, false, some, List, [], ◌∷◌}
use fuse_nt.Prelude.Int.{ℤ, pos}
use fuse_nt.Prelude.Memory.{Str}
use fuse_nt.Subdir.{Call, mkdir, rename, prefixed, addpath, on_path, enomem}
use fuse_nt.Subdir.Handlers.{call_next, subdir_oper}
use fuse_nt.Subdir.Forward.{translated, env, subdir_oper-translated, subdir_oper-balanced}

abbrev Log : Type 0
Log = List (Call ℕ)

-- the next file system returns 0 and keeps its calls, the last one first
abbrev logged : Call ℕ → Log → ℤ × Log
logged c log = (pos 0, c ∷ log)

abbrev base : Str
base = b's' ∷ (b'/' ∷ [])

abbrev file : Str
file = b'/' ∷ (b'f' ∷ [])

mkdir_run :
    subdir_oper logged base (mkdir (some file) 7) (record { world = []; mem = []; live = 3 }) ≡ (
      pos 0,
      record { world = mkdir (some (b's' ∷ (b'/' ∷ (b'f' ∷ [])))) 7 ∷ []; mem = []; live = 3 },
    )
unfolding subdir_oper on_path addpath prefixed
mkdir_run = refl

-- the second allocation fails: the next file system is not called
rename_run :
    subdir_oper logged base
      (rename (some file) (some file))
      (record { world = []; mem = true ∷ (false ∷ []); live = 3 })
    ≡ (enomem, record { world = []; mem = []; live = 3 })
unfolding subdir_oper on_path addpath prefixed
rename_run = refl

subdir_oper-translated_example :
    subdir_oper logged base (rename (some file) (some file)) (env logged base [] 3)
    ≡ call_next logged base
        (translated base (rename (some file) (some file)))
        (env logged base [] 3)
subdir_oper-translated_example =
    subdir_oper-translated logged base (rename (some file) (some file)) [] 3

subdir_oper-balanced_example :
    (subdir_oper logged base
      (rename (some file) (some file))
      (record { world = []; mem = true ∷ (false ∷ []); live = 3 })).1.live
    ≡ 3
subdir_oper-balanced_example =
    subdir_oper-balanced logged base (rename (some file) (some file))
      (record { world = []; mem = true ∷ (false ∷ []); live = 3 })
