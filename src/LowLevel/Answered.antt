-- ===== src/LowLevel/Answered.antt =====
-- What each reply of fuse-2.8.5/lib/fuse_lowlevel.c sends, and what becomes of its request.
use mathlib.Core.Option.{some-injective}
use fuse_nt.Prelude.{
  ℕ, zero, suc, leb, true, ◌<◌, ◌+◌, ◌%◌, ◌^◌, ◌≡◌, refl, sym, ap, ◌∙◌, false, ◌&&◌, some, List, [],
  ◌∷◌, ◌++◌, length, ltb, ◌==◌, if◌then◌else◌, arith, Bool-cases, inl, inr,
}
use fuse_nt.Prelude.Int.{ℤ, pos, negsuc}
use fuse_nt.Prelude.Run.{Run, ok, M}
use fuse_nt.Prelude.Memory.{Str, Mem, next_alloc}
use fuse_nt.LowLevel.{
  Req, Ll, Env, find_req, change_req, drop_req, unlist, put_req, good_error, minus_erange,
  out_message, iov_length, out_header_size, free_req, list_del_req, destroy_req,
  send_reply_iov_nofree, send_reply_iov, send_reply, send_reply_ok, reply_err, piece_if, negate,
  no_piece,
}
use fuse_nt.LowLevel.Messages.{
  OutHeader, StatBuf, Timeout, EntryParam, FileInfo, StatVfs, FlockBuf, Piece, Sent, message, bytes,
  entry_out, create_out, attr_out, open_out, write_out, statfs_out, getxattr_out, lk_out, bmap_out,
  ioctl_out, poll_out,
}
use fuse_nt.LowLevel.Replies.{
  reply_entry, reply_create, reply_attr, reply_readlink, reply_open, reply_write, reply_buf,
  reply_statfs, reply_xattr, reply_lock, reply_bmap, reply_ioctl_retry, reply_ioctl, reply_iov,
  reply_ioctl_iov, reply_poll, enoent_code, minus_enomem, padded, sized, fill_entry, fill_open,
  convert_stat, entry_size, attr_size, statfs_size, low32, iovec_pieces, lk_reply,
}

pub find-change_req :
    (p : ℕ) (g : Req → Req) (rs : List Req) (r : Req)
    → ((q : Req) → (g q).ptr ≡ q.ptr)
    → find_req p rs ≡ some r
    → find_req p (change_req p g rs) ≡ some (g r)
find-change_req p g [] r k e = absurd (ground arith)
find-change_req p g (q ∷ rs) r k e = elim (Bool-cases (q.ptr == p)) [
  | inl h ↦
      let e' : q ≡ r =
        some-injective _ _ (sym (ap (λ b. if b then some q else find_req p rs) h) ∙ e) in
      let h' = ap (λ x. x == p) (k q) ∙ h in rw (h, h') (ap (λ x. some (g x)) e')
  | inr h ↦
      let e' = sym (ap (λ b. if b then some q else find_req p rs) h) ∙ e in
      rw (h, h) (find-change_req p g rs r k e')
]

pub drop-change_req :
    (p : ℕ) (g : Req → Req) (rs : List Req)
    → ((q : Req) → (g q).ptr ≡ q.ptr)
    → drop_req p (change_req p g rs) ≡ drop_req p rs
drop-change_req p g [] k = refl
drop-change_req p g (q ∷ rs) k =
    let ih = drop-change_req p g rs k in
    elim (Bool-cases (q.ptr == p)) [
      | inl h ↦ let h' = ap (λ x. x == p) (k q) ∙ h in rw (h, h') ih
      | inr h ↦ rw (h, h, ih) refl
    ]

-- an error code that the kernel takes: 0, or -e for 0 < e < 1000
pub data IsErrno : ℤ → Type 0 where
  no_error : IsErrno (pos 0)
  errno : (n : ℕ) → n < 999 → IsErrno (negsuc n)

good_error-IsErrno : (e : ℤ) → IsErrno (good_error e)
good_error-IsErrno (pos zero) = no_error
good_error-IsErrno (pos (suc n)) =
    let h : ltb 0 (suc n) ≡ true = ground arith in rw h (errno 33 (omega arith))
good_error-IsErrno (negsuc n) = elim (Bool-cases (leb 999 n)) [
  | inl h ↦ rw h (errno 33 (omega arith))
  | inr h ↦ rw h (errno n (ground arith))
]

-- the bytes of the pieces of a message
abbrev pub total_size : List Piece → ℕ
total_size [] = 0
total_size (p ∷ ps) = p.iov_len + total_size ps

iov_length-total_size : (iov : List Piece) → iov_length iov ≡ total_size iov
unfolding iov_length
iov_length-total_size [] = refl
iov_length-total_size (p ∷ ps) = ap (λ n. p.iov_len + n) (iov_length-total_size ps)

-- a message that answers the request with this number: its length counts the 16 bytes of the
-- header and those of all pieces, in 32 bits, and its error code is one that the kernel takes
pub record IsReply (unique : ℕ) (s : Sent) : Type 0 where
  pub header : OutHeader
  pub iov : List Piece
  pub is_message : s ≡ message header iov
  pub same_unique : header.unique ≡ unique
  pub is_errno : IsErrno header.error
  pub whole_len : header.len ≡ (16 + total_size iov) % 2 ^ 32

out_message-IsReply :
    (u : ℕ) (e : ℤ) (iov : List Piece) → IsReply u (out_message u (good_error e) iov)
unfolding out_message
out_message-IsReply u e iov = record {
  header = record { unique = u; error = good_error e; len = (16 + iov_length iov) % 2 ^ 32 };
  iov = iov;
  is_message = refl;
  same_unique = refl;
  is_errno = good_error-IsErrno e;
  whole_len = ap (λ n. (16 + n) % 2 ^ 32) (iov_length-total_size iov);
}

-- the state when a message is sent and its request freed
abbrev pub answered : {D : Type 0} → ℕ → Sent → Ll D → Ll D
answered p s f = record f {
  sent = s ∷ f.sent;
  reqs = drop_req p f.reqs;
  list = unlist p f.list;
  interrupts = unlist p f.interrupts;
}

-- a request with one reference
pub record IsOpen {D : Type 0} (f : Ll D) (p : ℕ) (r : Req) : Type 0 where
  pub there : find_req p f.reqs ≡ some r
  pub one_ref : r.ctr ≡ pos 1

module _ {D : Type 0} (env : Env D) (p : ℕ) (r : Req) where
  pub free_req-last :
      (f : Ll D)
      → IsOpen f p r
      → free_req p f
        ≡ ok tt (record f {
          reqs = drop_req p f.reqs;
          list = unlist p f.list;
          interrupts = unlist p f.interrupts;
        })
  unfolding free_req list_del_req destroy_req
  free_req-last f o =
      rw
        (
          o.there,
          find-change_req p put_req f.reqs r (λ q. refl) o.there,
          o.one_ref,
          drop-change_req p put_req f.reqs (λ q. refl),
        )
        refl

  send_reply_iov-answered :
      (e : ℤ) (iov : List Piece) (f : Ll D)
      → IsOpen f p r
      → (s : Sent) × IsReply r.unique s
        × (send_reply_iov env p e iov f ≡ ok (env.send s) (answered p s f))
  unfolding send_reply_iov send_reply_iov_nofree
  send_reply_iov-answered e iov f o =
      let s = out_message r.unique (good_error e) iov in
      let o' : IsOpen (record f { sent = s ∷ f.sent }) p r = record {
        there = o.there;
        one_ref = o.one_ref;
      } in
      (
        s,
        out_message-IsReply r.unique e iov,
        rw (o.there, free_req-last (record f { sent = s ∷ f.sent }) o') refl,
      )

-- the replies that a file system can give
pub data Reply : Type 0 where
  error_reply : ℤ → Reply
  entry_reply : EntryParam → Reply
  create_reply : EntryParam → FileInfo → Reply
  attr_reply : StatBuf → Timeout → Reply
  readlink_reply : Str → Reply
  open_reply : FileInfo → Reply
  write_reply : ℕ → Reply
  buf_reply : Str → Reply
  statfs_reply : StatVfs → Reply
  xattr_reply : ℕ → Reply
  lock_reply : FlockBuf → Reply
  bmap_reply : ℕ → Reply
  ioctl_retry_reply : ℕ → ℕ → Reply
  ioctl_reply : ℤ → Str → Reply
  iov_reply : List Piece → Reply
  ioctl_iov_reply : ℤ → List Piece → Reply
  poll_reply : ℕ → Reply

abbrev pub run_reply : {D : Type 0} → Env D → ℕ → Reply → M (Ll D) ℤ
run_reply env p (error_reply e) = reply_err env p e
run_reply env p (entry_reply e) = reply_entry env p e
run_reply env p (create_reply e fi) = reply_create env p e fi
run_reply env p (attr_reply st t) = reply_attr env p st t
run_reply env p (readlink_reply s) = reply_readlink env p s
run_reply env p (open_reply fi) = reply_open env p fi
run_reply env p (write_reply n) = reply_write env p n
run_reply env p (buf_reply s) = reply_buf env p s
run_reply env p (statfs_reply st) = reply_statfs env p st
run_reply env p (xattr_reply n) = reply_xattr env p n
run_reply env p (lock_reply l) = reply_lock env p l
run_reply env p (bmap_reply n) = reply_bmap env p n
run_reply env p (ioctl_retry_reply m n) = reply_ioctl_retry env p m n
run_reply env p (ioctl_reply e s) = reply_ioctl env p e s
run_reply env p (iov_reply ps) = reply_iov env p ps
run_reply env p (ioctl_iov_reply e ps) = reply_ioctl_iov env p e ps
run_reply env p (poll_reply n) = reply_poll env p n

-- a run that answers the request, with what is left of the memory
pub record IsAnswer {D : Type 0} (env : Env D) (p : ℕ) (r : Req) (f : Ll D) (m : Run (Ll D) ℤ)
    : Type 0 where
  pub sent : Sent
  pub left : Mem
  pub is_reply : IsReply r.unique sent
  pub runs : m ≡ ok (env.send sent) (answered p sent (record f { mem = left }))

module _ {D : Type 0} (env : Env D) (p : ℕ) (r : Req) where
  iov-IsAnswer :
      (e : ℤ) (iov : List Piece) (f : Ll D)
      → IsOpen f p r
      → IsAnswer env p r f (send_reply_iov env p e iov f)
  iov-IsAnswer e iov f o =
      let (s, i, u) = send_reply_iov-answered env p r e iov f o in
      record { sent = s; left = f.mem; is_reply = i; runs = u }

  pub ok-IsAnswer :
      (arg : Piece) (f : Ll D) → IsOpen f p r → IsAnswer env p r f (send_reply_ok env p arg f)
  unfolding send_reply_ok send_reply
  ok-IsAnswer arg f o = iov-IsAnswer (pos 0) (piece_if arg) f o

  pub err-IsAnswer : (e : ℤ) (f : Ll D) → IsOpen f p r → IsAnswer env p r f (reply_err env p e f)
  unfolding reply_err send_reply
  err-IsAnswer e f o = iov-IsAnswer (negate e) (piece_if no_piece) f o

  -- an answer after an allocation
  later-IsAnswer :
      (mem : Mem) (f : Ll D) (m : Run (Ll D) ℤ)
      → IsAnswer env p r (record f { mem = mem }) m
      → IsAnswer env p r f m
  later-IsAnswer mem f m a = record {
    sent = a.sent;
    left = a.left;
    is_reply = a.is_reply;
    runs = a.runs;
  }

  padded-IsAnswer :
      (iov : List Piece) (f : Ll D)
      → IsOpen f p r
      → IsAnswer env p r f (padded env p (send_reply_iov env p (pos 0) iov) f)
  padded-IsAnswer iov f o =
      let f' = record f { mem = (next_alloc f.mem).1 } in
      let o' : IsOpen f' p r = record { there = o.there; one_ref = o.one_ref } in
      later-IsAnswer (next_alloc f.mem).1 f _ (elim (Bool-cases (next_alloc f.mem).0) [
        | inl a ↦ rw a (iov-IsAnswer (pos 0) iov f' o')
        | inr a ↦ rw a (err-IsAnswer minus_enomem f' o')
      ])

  -- Each reply to a request with one reference sends one message: it has the number of the request,
  -- as its length the 16 bytes of the header and those of all its pieces, in 32 bits, and as its
  -- error code 0 or one between -999 and -1, whatever the file system gave. The request is then freed and in no list, and nothing but the memory left
  -- has changed.
  pub run_reply-IsAnswer :
      (reply : Reply) (f : Ll D) → IsOpen f p r → IsAnswer env p r f (run_reply env p reply f)
  unfolding fill_entry fill_open convert_stat reply_entry reply_create reply_attr reply_readlink
      reply_open reply_write reply_buf reply_statfs reply_xattr reply_lock reply_bmap
      reply_ioctl_retry reply_ioctl reply_iov reply_ioctl_iov reply_poll
  run_reply-IsAnswer (error_reply e) f o = err-IsAnswer e f o
  run_reply-IsAnswer (entry_reply e) f o =
      elim (Bool-cases (e.ino == 0 && ltb f.conn.proto_minor 4)) [
        | inl h ↦ rw (o.there, h) (err-IsAnswer enoent_code f o)
        | inr h ↦
            rw (o.there, h)
              (ok-IsAnswer (sized (entry_out (fill_entry e)) (entry_size f.conn.proto_minor)) f o)
      ]
  run_reply-IsAnswer (create_reply e fi) f o = rw o.there (
      ok-IsAnswer
        (sized (create_out (fill_entry e) (fill_open fi)) (entry_size f.conn.proto_minor + 16)) f o)
  run_reply-IsAnswer (attr_reply st t) f o =
      rw o.there
        (ok-IsAnswer (sized (attr_out t (convert_stat st)) (attr_size f.conn.proto_minor)) f o)
  run_reply-IsAnswer (readlink_reply s) f o = ok-IsAnswer (sized (bytes s) (length s)) f o
  run_reply-IsAnswer (open_reply fi) f o = ok-IsAnswer (sized (open_out (fill_open fi)) 16) f o
  run_reply-IsAnswer (write_reply n) f o = ok-IsAnswer (sized (write_out (low32 n)) 8) f o
  run_reply-IsAnswer (buf_reply s) f o = ok-IsAnswer (sized (bytes s) (length s)) f o
  run_reply-IsAnswer (statfs_reply st) f o =
      rw o.there (ok-IsAnswer (sized (statfs_out st) (statfs_size f.conn.proto_minor)) f o)
  run_reply-IsAnswer (xattr_reply n) f o = ok-IsAnswer (sized (getxattr_out (low32 n)) 8) f o
  run_reply-IsAnswer (lock_reply l) f o = ok-IsAnswer (sized (lk_out (lk_reply l)) 24) f o
  run_reply-IsAnswer (bmap_reply n) f o = ok-IsAnswer (sized (bmap_out n) 8) f o
  run_reply-IsAnswer (ioctl_retry_reply m n) f o =
      iov-IsAnswer (pos 0)
        (sized (ioctl_out (pos 0) 4 (low32 m) (low32 n)) 16 ∷ (iovec_pieces m ++ iovec_pieces n)) f
        o
  run_reply-IsAnswer (ioctl_reply e s) f o =
      iov-IsAnswer (pos 0) (sized (ioctl_out e 0 0 0) 16 ∷ piece_if (sized (bytes s) (length s))) f
        o
  run_reply-IsAnswer (iov_reply ps) f o = padded-IsAnswer ps f o
  run_reply-IsAnswer (ioctl_iov_reply e ps) f o =
      padded-IsAnswer (sized (ioctl_out e 0 0 0) 16 ∷ ps) f o
  run_reply-IsAnswer (poll_reply n) f o = ok-IsAnswer (sized (poll_out n) 8) f o

  -- the reply that a failed allocation of `reply_iov` gives
  abbrev pub no_memory_reply : Sent
  no_memory_reply =
      message (record { unique = r.unique; error = minus_erange; len = out_header_size }) []

  -- Where the padded vector cannot be allocated, `reply_iov` and `reply_ioctl_iov` answer a request
  -- with one reference by the error code -ERANGE, and not by -ENOMEM.
  pub reply_iov-no_memory :
      (iov : List Piece) (result : ℤ) (f : Ll D)
      → IsOpen f p r
      → (next_alloc f.mem).0 ≡ false
      → let f' = answered p no_memory_reply (record f { mem = (next_alloc f.mem).1 }) in
        (reply_iov env p iov f ≡ ok (env.send no_memory_reply) f')
        × (reply_ioctl_iov env p result iov f ≡ ok (env.send no_memory_reply) f')
  unfolding reply_iov reply_ioctl_iov reply_err send_reply send_reply_iov send_reply_iov_nofree
      out_message iov_length
  reply_iov-no_memory iov result f o a =
      let f' = record f { mem = (next_alloc f.mem).1 } in
      let g = record f' { sent = no_memory_reply ∷ f'.sent } in
      let o' : IsOpen g p r = record { there = o.there; one_ref = o.one_ref } in
      let e = free_req-last env p r g o' in (rw (a, o.there, e) refl, rw (a, o.there, e) refl)
