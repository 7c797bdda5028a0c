-- ===== src/LowLevel.antt =====
-- Requests of the kernel and the replies to them: `struct fuse_req` and `struct fuse_ll` of
-- fuse-2.8.5/lib/fuse_i.h, and `iov_length` to `fuse_reply_err` of
-- fuse-2.8.5/lib/fuse_lowlevel.c. A request is named by its `ptr`; `reqs` are those that are not
-- freed, and `list` and `interrupts` the two linked lists. What is sent to the channel is kept in
-- `sent`, the last first. The locks of the requests and of the `struct fuse_ll` are left out.
pub mod Messages
pub mod Replies
pub mod Input
pub mod Args
pub mod Calls
pub mod Files
pub mod Init
pub mod Interrupts
pub mod Process
pub mod Answered
pub mod Refused
pub mod Done
pub mod Handlers
pub mod Served
pub mod Limits
mod Tests
use fuse_nt.Prelude.{
  ℕ, zero, suc, ◌+◌, ◌-◌, ◌%◌, ◌^◌, Bool, true, false, ◌&&◌, ◌||◌, not, Option, none, some, List,
  [], ◌∷◌, ltb, leb, ◌==◌, if◌then◌else◌,
}
use fuse_nt.Prelude.Int.{ℤ, pos, negsuc, ◌==ℤ◌, pred_int}
use fuse_nt.Prelude.Run.{Run, ok, err, abort, M, Cmd, ◌>>◌, ◌>>=◌, and_then, skip}
use fuse_nt.Prelude.Memory.{Str, Mem, next_alloc}
use fuse_nt.LowLevel.Messages.{Content, Sent, Piece, OutHeader, Caps, Call, OpName}

pub record Req : Type 0 where
  pub ptr : ℕ
  pub unique : ℕ
  pub ctr : ℤ
  pub uid : ℕ
  pub gid : ℕ
  pub pid : ℕ
  pub umask : ℕ
  pub interrupted : Bool
  pub intr_unique : ℕ
  pub intr_func : Option ℕ

-- `struct fuse_conn_info`; the capabilities are the bits of `capable` and `want`
pub record Conn : Type 0 where
  pub proto_major : ℕ
  pub proto_minor : ℕ
  pub async_read : Bool
  pub max_write : ℕ
  pub max_readahead : ℕ
  pub capable : Caps
  pub want : Caps

-- `userdata` is the state of the file system
pub record Ll (D : Type 0) : Type 0 where
  pub userdata : D
  pub allow_root : Bool
  pub atomic_o_trunc : Bool
  pub no_remote_lock : Bool
  pub big_writes : Bool
  pub got_init : Bool
  pub got_destroy : Bool
  pub is_cuse : Bool
  pub owner : ℕ
  pub conn : Conn
  pub reqs : List Req
  pub list : List ℕ
  pub interrupts : List ℕ
  pub sent : List Sent
  pub fresh_ptr : ℕ
  pub mem : Mem

-- What a `struct fuse_ll` calls: the operations of the file system, its interrupt functions, and
-- the channel, with the result of a write to it and the size of its buffer.
pub record Env (D : Type 0) : Type 0 where
  pub op : OpName → Option (Call → ℕ → Cmd (Ll D))
  pub init : Option (D → Conn → D × Conn)
  pub destroy : Option (D → D)
  pub cuse_init : ℕ → Cmd (Ll D)
  pub interrupt_func : ℕ → ℕ → Cmd (Ll D)
  pub send : Sent → ℤ
  pub bufsize : ℕ

abbrev pub find_req : ℕ → List Req → Option Req
find_req p [] = none
find_req p (r ∷ rs) = if r.ptr == p then some r else find_req p rs

abbrev pub change_req : ℕ → (Req → Req) → List Req → List Req
change_req p g [] = []
change_req p g (r ∷ rs) = (if r.ptr == p then g r else r) ∷ change_req p g rs

abbrev pub drop_req : ℕ → List Req → List Req
drop_req p [] = []
drop_req p (r ∷ rs) = if r.ptr == p then drop_req p rs else r ∷ drop_req p rs

abbrev pub unlist : ℕ → List ℕ → List ℕ
unlist p [] = []
unlist p (q ∷ qs) = if q == p then qs else q ∷ unlist p qs

abbrev pub negate : ℤ → ℤ
negate (pos zero) = pos 0
negate (pos (suc n)) = negsuc n
negate (negsuc n) = pos (n + 1)

unfoldable pub iov_length : List Piece → ℕ
iov_length [] = 0
iov_length (p ∷ ps) = p.iov_len + iov_length ps

-- `-ERANGE`
abbrev pub minus_erange : ℤ
minus_erange = negsuc 33

-- `error <= -1000 || error > 0`
abbrev pub bad_error : ℤ → Bool
bad_error (pos n) = ltb 0 n
bad_error (negsuc n) = leb 999 n

abbrev pub good_error : ℤ → ℤ
good_error e = if bad_error e then minus_erange else e

-- `sizeof(struct fuse_out_header)`
abbrev pub out_header_size : ℕ
out_header_size = 16

abbrev pub put_req : Req → Req
put_req r = record r { ctr = pred_int r.ctr; intr_func = none }

-- the first piece of `iov` is the header
unfoldable pub out_message : ℕ → ℤ → List Piece → Sent
unfolding iov_length
out_message unique error iov =
    Sent.message
      (record { unique = unique; error = error; len = (out_header_size + iov_length iov) % 2 ^ 32 })
      iov

abbrev pub piece_if : Piece → List Piece
piece_if arg = if arg.iov_len == 0 then [] else arg ∷ []

abbrev pub no_piece : Piece
no_piece = record { base = Content.null; iov_len = 0 }

module _ {D : Type 0} where
  -- an access to a freed request is undefined
  abbrev pub with_req : {A : Type 0} → Option Req → (Req → M (Ll D) A) → M (Ll D) A
  with_req none k f = abort
  with_req (some r) k f = k r f

  abbrev pub read_req : {A : Type 0} → ℕ → (Req → M (Ll D) A) → M (Ll D) A
  read_req p k f = with_req (find_req p f.reqs) k f

  abbrev pub set_req : ℕ → (Req → Req) → Cmd (Ll D)
  set_req p g f = ok tt (record f { reqs = change_req p g f.reqs })

  -- A request is in one of the lists or in a list of its own.
  unfoldable pub list_del_req : ℕ → Cmd (Ll D)
  list_del_req p f = ok tt (record f { list = unlist p f.list; interrupts = unlist p f.interrupts })

  unfoldable pub destroy_req : ℕ → Cmd (Ll D)
  destroy_req p f = ok tt (record f { reqs = drop_req p f.reqs })

  abbrev pub destroy_last : ℕ → Cmd (Ll D)
  destroy_last p = read_req p λ r. if r.ctr ==ℤ pos 0 then destroy_req p else skip

  unfoldable pub free_req : ℕ → Cmd (Ll D)
  unfolding list_del_req destroy_req
  free_req p = read_req p λ _. list_del_req p >> (set_req p put_req >> destroy_last p)

  abbrev pub discard : {A : Type 0} → M (Ll D) A → Cmd (Ll D)
  discard m f = and_then (m f) (λ _ f'. ok tt f')

module _ {D : Type 0} (env : Env D) where
  -- `fuse_chan_send`
  abbrev pub chan_send : Sent → M (Ll D) ℤ
  chan_send s f = ok (env.send s) (record f { sent = s ∷ f.sent })

  unfoldable pub send_reply_iov_nofree : ℕ → ℤ → List Piece → M (Ll D) ℤ
  unfolding out_message
  send_reply_iov_nofree p error iov =
      read_req p λ r. chan_send (out_message r.unique (good_error error) iov)

  unfoldable pub send_reply_iov : ℕ → ℤ → List Piece → M (Ll D) ℤ
  unfolding send_reply_iov_nofree free_req
  send_reply_iov p error iov =
      send_reply_iov_nofree p error iov >>= λ res. free_req p >> (λ f. ok res f)

  unfoldable pub send_reply : ℕ → ℤ → Piece → M (Ll D) ℤ
  unfolding send_reply_iov
  send_reply p error arg = send_reply_iov p error (piece_if arg)

  unfoldable pub reply_err : ℕ → ℤ → M (Ll D) ℤ
  unfolding send_reply
  reply_err p e = send_reply p (negate e) no_piece

  unfoldable pub send_reply_ok : ℕ → Piece → M (Ll D) ℤ
  unfolding send_reply
  send_reply_ok p arg = send_reply p (pos 0) arg

  unfoldable pub reply_none : ℕ → Cmd (Ll D)
  unfolding free_req
  reply_none p = read_req p λ _. discard (chan_send Sent.empty) >> free_req p
