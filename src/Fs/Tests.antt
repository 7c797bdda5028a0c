-- ===== src/Fs/Tests.antt =====
-- Runs of a file system, and its theorems at one with mkdir and getattr.
use fuse_nt.Prelude.{ℕ, ◌≡◌, refl, none, some, List, [], ◌∷◌}
use fuse_nt.Prelude.Int.{ℤ, pos}
use fuse_nt.Subdir.{PathArg, mkdir, fgetattr}
use fuse_nt.Fs.{FsContext, Fs, in_fs, enosys_code}
use fuse_nt.Fs.Calls.{fs_call}
use fuse_nt.Fs.Context.{no_operations, fs_call-own_data}

-- the world is what the operations saw as private data; the buffers are numbers
abbrev note : ℤ → FsContext ℕ (List ℕ) → ℤ × FsContext ℕ (List ℕ)
note r ctx = (r, record ctx { world = ctx.private_data ∷ ctx.world })

abbrev sample : Fs ℕ ℕ (List ℕ)
sample = record {
  op = record no_operations {
    op_mkdir = some (λ path mode. note (pos mode));
    op_getattr = some (λ path buf. note (pos buf));
  };
  user_data = 5;
}

abbrev set_statfs : ℕ → List ℕ → List ℕ
set_statfs buf world = 255 ∷ (512 ∷ world)

abbrev ctx : FsContext ℕ (List ℕ)
ctx = record { private_data = 9; world = [] }

abbrev file : PathArg
file = some (b'/' ∷ [])

mkdir_run :
    fs_call set_statfs sample (mkdir file 7) ctx
    ≡ (pos 7, record { private_data = 5; world = 5 ∷ [] })
unfolding fs_call in_fs
mkdir_run = refl

-- getattr stands in for fgetattr, where there is a path
fgetattr_run : (fs_call set_statfs sample (fgetattr file 3 4) ctx).0 ≡ pos 3
unfolding fs_call in_fs
fgetattr_run = refl

fgetattr_null_run : (fs_call set_statfs sample (fgetattr none 3 4) ctx).0 ≡ enosys_code
unfolding fs_call in_fs
fgetattr_null_run = refl

fs_call-own_data_example :
    fs_call set_statfs sample (mkdir file 7) (record { private_data = 9; world = [] })
    ≡ fs_call set_statfs sample (mkdir file 7) (record { private_data = 1; world = [] })
fs_call-own_data_example = fs_call-own_data set_statfs sample (mkdir file 7) 9 1 []
