-- ===== src/LowLevel/Args.antt =====
-- What the handlers of fuse-2.8.5/lib/fuse_lowlevel.c build from their arguments, and how they call
-- an operation, or reply themselves where there is none.
use fuse_nt.Prelude.{
  ℕ, ◌%◌, Bool, true, false, ◌&&◌, not, Option, none, some, ltb, ◌==◌, if◌then◌else◌, drop, take,
}
use fuse_nt.Prelude.Int.{ℤ, pos}
use fuse_nt.Prelude.Run.{Cmd, ◌>>◌}
use fuse_nt.Prelude.Memory.{Str, next_alloc}
use fuse_nt.LowLevel.{Ll, Env, set_req, discard, reply_err}
use fuse_nt.LowLevel.Messages.{OpName, Call, FileInfo, StatVfs, Fi}
use fuse_nt.LowLevel.Input.{u32_at, u64_at, has_bit, c_string, zero_fi, fi_of}

abbrev pub enosys_code : ℤ
enosys_code = pos 38

abbrev pub enomem_int : ℤ
enomem_int = pos 12

abbrev pub default_vfs : StatVfs
default_vfs = record {
  f_bsize = 512;
  f_frsize = 0;
  f_blocks = 0;
  f_bfree = 0;
  f_bavail = 0;
  f_files = 0;
  f_ffree = 0;
  f_namemax = 255;
}

abbrev pub getattr_fi : ℕ → Str → Fi
getattr_fi minor inarg =
    if not (ltb minor 9) && has_bit 0 (u32_at 0 inarg) then some (fi_of (u64_at 8 inarg)) else none

abbrev pub setattr_fi : Str → Fi
setattr_fi inarg = if has_bit 6 (u32_at 0 inarg) then some (fi_of (u64_at 8 inarg)) else none

abbrev pub open_fi : Str → FileInfo
open_fi inarg = record zero_fi { flags = u32_at 0 inarg }

abbrev pub read_fi : ℕ → Str → FileInfo
read_fi minor inarg =
    let fi = fi_of (u64_at 0 inarg) in
    if ltb minor 9 then fi else record fi { lock_owner = u64_at 24 inarg; flags = u32_at 32 inarg }

abbrev pub write_fi : ℕ → Str → FileInfo
write_fi minor inarg =
    let fi = record (fi_of (u64_at 0 inarg)) { writepage = u32_at 20 inarg % 2 } in
    if ltb minor 9 then fi else record fi { lock_owner = u64_at 24 inarg; flags = u32_at 32 inarg }

abbrev pub flush_fi : ℕ → Str → FileInfo
flush_fi minor inarg =
    let fi = record (fi_of (u64_at 0 inarg)) { flush = true } in
    if ltb minor 7 then fi else record fi { lock_owner = u64_at 16 inarg }

abbrev pub release_fi : ℕ → Str → FileInfo
release_fi minor inarg =
    let fi = record (fi_of (u64_at 0 inarg)) { flags = u32_at 8 inarg } in
    if ltb minor 8
    then fi
    else record fi { flush = has_bit 0 (u32_at 12 inarg); lock_owner = u64_at 16 inarg }

abbrev pub releasedir_fi : Str → FileInfo
releasedir_fi inarg = record (fi_of (u64_at 0 inarg)) { flags = u32_at 8 inarg }

-- of a lock request, which leaves `fh_old` 0
abbrev pub lk_fi : Str → FileInfo
lk_fi inarg = record zero_fi { fh = u64_at 0 inarg; lock_owner = u64_at 8 inarg }

abbrev pub in_buf : Str → Option Str
in_buf inarg = if u32_at 24 inarg == 0 then none else some (take (u32_at 24 inarg) (drop 32 inarg))

module _ {D : Type 0} (env : Env D) where
  abbrev pub run_op : Option (Call → ℕ → Cmd (Ll D)) → Call → ℕ → Cmd (Ll D) → Cmd (Ll D)
  run_op none call p other = other
  run_op (some op) call p other = op call p

  -- `if (req->f->op.name) ... else ...`
  abbrev pub call_or : OpName → Call → ℕ → Cmd (Ll D) → Cmd (Ll D)
  call_or name call p other = run_op (env.op name) call p other

  abbrev pub no_op : ℕ → Cmd (Ll D)
  no_op p = discard (reply_err env p enosys_code)

  -- a handler that looks at the minor version
  abbrev pub by_minor : (ℕ → Cmd (Ll D)) → Cmd (Ll D)
  by_minor k f = k f.conn.proto_minor f

  abbrev pub set_umask : ℕ → ℕ → Cmd (Ll D)
  set_umask p umask = set_req p (λ r. record r { umask = umask })

  -- `umask` is set only where the operation is there
  abbrev pub run_create : Option (Call → ℕ → Cmd (Ll D)) → ℕ → ℕ → Str → Cmd (Ll D)
  run_create none p nodeid inarg = no_op p
  run_create (some op) p nodeid inarg =
      set_umask p (u32_at 8 inarg)
      >> op (Call.create nodeid (c_string (drop 16 inarg)) (u32_at 4 inarg) (open_fi inarg)) p

  -- the handle of `FUSE_POLL_SCHEDULE_NOTIFY`, which `malloc` makes
  abbrev pub poll_handle : Bool → (Call → ℕ → Cmd (Ll D)) → ℕ → ℕ → Str → Cmd (Ll D)
  poll_handle false op p nodeid inarg = discard (reply_err env p enomem_int)
  poll_handle true op p nodeid inarg =
      op (Call.poll nodeid (fi_of (u64_at 0 inarg)) (some (u64_at 8 inarg))) p

  abbrev pub poll_with : Option (Call → ℕ → Cmd (Ll D)) → ℕ → ℕ → Str → Cmd (Ll D)
  poll_with none p nodeid inarg f = no_op p f
  poll_with (some op) p nodeid inarg f =
      if has_bit 0 (u32_at 16 inarg)
      then (let (got, mem') = next_alloc f.mem in
          poll_handle got op p nodeid inarg (record f { mem = mem' }))
      else op (Call.poll nodeid (fi_of (u64_at 0 inarg)) none) p f
