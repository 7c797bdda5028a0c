-- ===== src/Dir/Read.antt =====
-- `readdir_fill` and `fuse_lib_readdir` of fuse-2.8.5/lib/fuse.c.
use fuse_nt.Prelude.{
  ℕ, ◌+◌, ◌-◌, Bool, true, false, Option, none, some, List, ltb, ◌==◌, if◌then◌else◌, take, drop,
}
use fuse_nt.Prelude.Int.{ℤ, pos, negsuc, ◌==ℤ◌}
use fuse_nt.Prelude.Run.{ok, M, and_then}
use fuse_nt.Prelude.Memory.{Str}
use fuse_nt.Dir.{Stat, Dh, State, u32, Names, fill_dir}

-- What a file system does in its `readdir`: it returns a number, or offers an entry and goes on
-- with the answer of the filler.
pub data Program : Type 0 where
  return : ℤ → Program
  offer : Str → Option Stat → ℕ → (Bool → Program) → Program

unfoldable pub run_readdir : Names → Program → M State ℤ
run_readdir names (return r) st = ok r st
run_readdir names (offer name statp off next) st =
    and_then (fill_dir names name statp off st) (λ full. run_readdir names (next full))

-- `dh->len`, `error`, `needlen` and `filled` before the file system is called
abbrev pub start_fill : ℕ → Dh → Dh
start_fill size dh = record {
  contents = take 0 dh.contents;
  len = 0;
  size = dh.size;
  needlen = u32 size;
  filled = true;
  enomem = false;
}

abbrev pub is_zero : ℤ → Bool
is_zero r = r ==ℤ pos 0

-- -ENOMEM
abbrev pub enomem_code : ℤ
enomem_code = negsuc 11

-- `if (!err) err = dh->error; if (err) dh->filled = 0`
abbrev pub end_fill : ℤ → M State ℤ
end_fill r (dh, mem) =
    let err = if is_zero r then (if dh.enomem then enomem_code else r) else r in
    ok err (if is_zero err then dh else record dh { filled = false }, mem)

-- `get_path` gives an error or the file system's program for the path
unfoldable pub readdir_fill : Names → Option ℤ → Program → ℕ → M State ℤ
readdir_fill names (some e) program size st = ok e st
readdir_fill names none program size (dh, mem) =
    and_then (run_readdir names program (start_fill size dh, mem)) end_fill

-- an error, or bytes
pub data Reply : Type 0 where
  reply_err : ℤ → Reply
  reply_buf : List ℕ → Reply

-- `size` bytes from `off` on
abbrev pub slice : ℕ → ℕ → List ℕ → List ℕ
slice off size bytes = take size (drop off bytes)

-- the reply from the buffer
unfoldable pub reply_from : ℕ → ℕ → Dh → Reply
reply_from size off dh =
    if dh.filled
    then (if ltb off dh.len
        then reply_buf
            (slice off (if ltb dh.len (off + size) then dh.len - off else size) dh.contents)
        else reply_buf (slice off 0 dh.contents))
    else reply_buf (slice 0 dh.len dh.contents)

abbrev pub reply_filled : ℕ → ℕ → ℤ → M State Reply
reply_filled size off r (dh, mem) =
    if is_zero r then ok (reply_from size off dh) (dh, mem) else ok (reply_err r) (dh, mem)

-- a rewound directory is read again
abbrev pub rewound : ℕ → Dh → Dh
rewound off dh = if off == 0 then record dh { filled = false } else dh

unfoldable pub lib_readdir : Names → Option ℤ → Program → ℕ → ℕ → M State Reply
lib_readdir names path program size off (dh, mem) =
    let dh' = rewound off dh in
    if dh'.filled
    then ok (reply_from size off dh') (dh', mem)
    else and_then (readdir_fill names path program size (dh', mem)) (reply_filled size off)
