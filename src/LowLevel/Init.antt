-- ===== src/LowLevel/Init.antt =====
-- The first and the last request: `do_init` and `do_destroy` of fuse-2.8.5/lib/fuse_lowlevel.c.
use fuse_nt.Prelude.{
  ℕ, ◌-◌, Bool, true, false, ◌&&◌, ◌||◌, not, Option, none, some, ltb, if◌then◌else◌,
}
use fuse_nt.Prelude.Int.{pos}
use fuse_nt.Prelude.Run.{Cmd}
use fuse_nt.Prelude.Memory.{Str}
use fuse_nt.LowLevel.{Ll, Env, Conn, discard, reply_err, send_reply_ok, no_piece}
use fuse_nt.LowLevel.Messages.{Caps, InitOut, Content, OpName, Piece}
use fuse_nt.LowLevel.Input.{u32_at, has_bit}

abbrev pub no_caps : Caps
no_caps = record {
  cap_async_read = false;
  cap_posix_locks = false;
  cap_atomic_o_trunc = false;
  cap_export_support = false;
  cap_big_writes = false;
  cap_dont_mask = false;
}

abbrev pub caps_of : ℕ → Caps
caps_of flags = record {
  cap_async_read = has_bit 0 flags;
  cap_posix_locks = has_bit 1 flags;
  cap_atomic_o_trunc = has_bit 3 flags;
  cap_export_support = has_bit 4 flags;
  cap_big_writes = has_bit 5 flags;
  cap_dont_mask = has_bit 6 flags;
}

abbrev pub kernel_version : ℕ
kernel_version = 7

abbrev pub kernel_minor_version : ℕ
kernel_minor_version = 12

abbrev pub min_read_buffer : ℕ
min_read_buffer = 8192

abbrev pub plain_init_out : InitOut
plain_init_out = record {
  major = kernel_version;
  minor = kernel_minor_version;
  out_max_readahead = 0;
  out_flags = no_caps;
  out_max_write = 0;
}

abbrev pub start_conn : ℕ → ℕ → Conn → Conn
start_conn major minor c = record c {
  proto_major = major;
  proto_minor = minor;
  capable = no_caps;
  want = no_caps;
}

-- what the kernel offers, from minor version 6 on
abbrev pub offered : ℕ → ℕ → ℕ → Conn → Conn
offered minor max_readahead flags c =
    if ltb minor 6 then record c { async_read = false; max_readahead = 0 } else record c {
      async_read = c.async_read && has_bit 0 flags;
      max_readahead = if ltb max_readahead c.max_readahead then max_readahead else c.max_readahead;
      capable = caps_of flags;
    }

abbrev pub usable_bufsize : ℕ → ℕ
usable_bufsize bufsize = (if ltb bufsize min_read_buffer then min_read_buffer else bufsize) - 4096

abbrev pub limit_write : ℕ → Conn → Conn
limit_write bufsize c = record c {
  max_write = if ltb bufsize c.max_write then bufsize else c.max_write;
}

-- what the reply says of the connection
abbrev pub init_reply : Conn → InitOut
init_reply c = record {
  major = kernel_version;
  minor = kernel_minor_version;
  out_max_readahead = c.max_readahead;
  out_flags = record c.want { cap_async_read = c.async_read || c.want.cap_async_read };
  out_max_write = c.max_write;
}

abbrev pub init_piece : ℕ → InitOut → Piece
init_piece size outarg = record { base = Content.init_out outarg; iov_len = size }

abbrev pub is_there : {A : Type 0} → Option A → Bool
is_there none = false
is_there (some a) = true

abbrev pub eproto : ℕ
eproto = 71

module _ {D : Type 0} (env : Env D) where
  abbrev pub wanted : Ll D → Caps
  wanted f = record no_caps {
    cap_atomic_o_trunc = f.atomic_o_trunc;
    cap_posix_locks =
        is_there (env.op OpName.op_getlk)
        && is_there (env.op OpName.op_setlk)
        && not f.no_remote_lock;
    cap_big_writes = f.big_writes;
  }

  abbrev pub call_init : Option (D → Conn → D × Conn) → D → Conn → D × Conn
  call_init none d c = (d, c)
  call_init (some init) d c = init d c

  -- with a version 7 of the protocol
  abbrev pub negotiate : ℕ → ℕ → Str → Cmd (Ll D)
  negotiate p minor inarg f =
      let c = offered minor (u32_at 8 inarg) (u32_at 12 inarg) f.conn in
      let c' = limit_write (usable_bufsize env.bufsize) (record c { want = wanted f }) in
      let (d, c'') = call_init env.init f.userdata c' in
      discard (send_reply_ok env p (init_piece (if ltb minor 5 then 8 else 24) (init_reply c'')))
        (record f { userdata = d; conn = c''; got_init = true })

  unfoldable pub do_init : ℕ → ℕ → Str → Cmd (Ll D)
  unfolding reply_err send_reply_ok
  do_init p nodeid inarg f =
      let major = u32_at 0 inarg in
      let minor = u32_at 4 inarg in
      let f' = record f { conn = start_conn major minor f.conn } in
      if ltb major 7
      then discard (reply_err env p (pos eproto)) f'
      else if ltb 7 major
      then discard (send_reply_ok env p (init_piece 24 plain_init_out)) f'
      else negotiate p minor inarg f'

  abbrev pub call_destroy : Option (D → D) → D → D
  call_destroy none d = d
  call_destroy (some destroy) d = destroy d

  unfoldable pub do_destroy : ℕ → ℕ → Str → Cmd (Ll D)
  unfolding send_reply_ok
  do_destroy p nodeid inarg f =
      discard (send_reply_ok env p no_piece)
        (record f { got_destroy = true; userdata = call_destroy env.destroy f.userdata })
