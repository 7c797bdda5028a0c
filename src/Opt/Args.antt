-- ===== src/Opt/Args.antt =====
-- `struct fuse_args` with `fuse_opt_free_args`, `fuse_opt_add_arg` and `fuse_opt_insert_arg` of
-- fuse-2.8.5/lib/fuse_opt.c.
use fuse_nt.Prelude.{
  ℕ, ◌+◌, ◌-◌, Bool, true, false, ◌&&◌, not, Option, none, some, List, [], ◌∷◌, ◌++◌, leb, ◌==◌,
  if◌then◌else◌, take, drop, get_elem?,
}
use fuse_nt.Prelude.Run.{ok, err, abort, Cmd, ◌>>◌, assert}
pub use fuse_nt.Prelude.Memory.{Str, Mem, next_alloc}

-- `argv`: NULL, an array of strings (its closing NULL left out), or a pointer to memory that
-- `realloc` has given back
pub data Argv : Type 0 where
  null : Argv
  array : List Str → Argv
  stale : Argv

pub record FuseArgs : Type 0 where
  pub argc : ℕ
  pub argv : Argv
  pub allocated : Bool

-- FUSE_ARGS_INIT(0, NULL)
abbrev pub no_args : FuseArgs
no_args = record { argc = 0; argv = null; allocated = false }

abbrev pub is_null : Argv → Bool
is_null null = true
is_null _ = false

abbrev pub entries : Argv → List Str
entries (array xs) = xs
entries _ = []

-- the old array once `realloc` has succeeded: the block may have moved
abbrev pub moved : Argv → Argv
moved null = null
moved _ = stale

-- `none` where the code frees memory that is no longer its own
unfoldable pub free_args : FuseArgs → Option FuseArgs
free_args args = elim args.argv [
  | stale ↦ if args.allocated then none else some no_args
  | _ ↦ some no_args
]

-- The two allocations of `fuse_opt_add_arg`, `realloc` and then `strdup`. If only the second fails,
-- `args->argv` still holds the old address.
unfoldable pub append_arg : Str → Cmd (FuseArgs × Mem)
append_arg arg (args, mem) =
    let (grown, mem') = next_alloc mem in
    let (copied, mem'') = next_alloc mem' in
    if grown
    then (if copied
        then ok tt (
          record args {
            argc = args.argc + 1;
            argv = array (take args.argc (entries args.argv) ++ arg ∷ []);
            allocated = true;
          },
          mem'',
        )
        else err (record args { argv = moved args.argv }, mem''))
    else err (args, mem')

unfoldable pub add_arg : Str → Cmd (FuseArgs × Mem)
unfolding append_arg
add_arg arg (args, mem) =
    if not (is_null args.argv) && not args.allocated
    then abort
    else elim args.argv [ stale ↦ abort | _ ↦ append_arg arg (args, mem) ]

-- `memmove` makes room at `pos` for the last element
unfoldable pub move_last : ℕ → Cmd (FuseArgs × Mem)
move_last pos (args, mem) =
    let xs = entries args.argv in
    elim (get_elem? xs (args.argc - 1)) [
      | none ↦ abort
      | some newarg ↦ ok tt (
        record args {
          argv = array (take pos xs ++ newarg ∷ take (args.argc - pos - 1) (drop pos xs));
        },
        mem,
      )
    ]

-- `assert(pos <= args->argc)`
abbrev pub assert_pos : ℕ → Cmd (FuseArgs × Mem)
assert_pos pos (args, mem) = assert (leb pos args.argc) (args, mem)

abbrev pub place_last : ℕ → Cmd (FuseArgs × Mem)
place_last pos (args, mem) =
    if pos == args.argc - 1 then ok tt (args, mem) else move_last pos (args, mem)

unfoldable pub insert_arg : ℕ → Str → Cmd (FuseArgs × Mem)
insert_arg pos arg = assert_pos pos >> (add_arg arg >> place_last pos)
