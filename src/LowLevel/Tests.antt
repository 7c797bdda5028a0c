-- ===== src/LowLevel/Tests.antt =====
-- Messages of the kernel, and a file system that finds no name.
use mathlib.Core.Path.{subst}
use mathlib.Core.Option.{some-injective}
use fuse_nt.Prelude.{arith, ℕ, ◌≡◌, refl, Bool, true, false, none, some, List, [], ◌∷◌}
use fuse_nt.Prelude.Int.{pos, negsuc}
use fuse_nt.Prelude.Run.{ok, Cmd}
use fuse_nt.Prelude.Memory.{Str, Mem}
use fuse_nt.LowLevel.{
  Req, Conn, Ll, Env, discard, reply_err, send_reply, send_reply_iov, send_reply_iov_nofree,
  out_message, iov_length, free_req, list_del_req, destroy_req,
}
use fuse_nt.LowLevel.Messages.{Call, message}
use fuse_nt.LowLevel.Init.{no_caps, do_init}
use fuse_nt.LowLevel.Replies.{reply_iov, reply_ioctl_iov}
use fuse_nt.LowLevel.Process.{InHeader, new_req, ll_op, ll_process}
use fuse_nt.LowLevel.Calls.{do_lookup}
use fuse_nt.LowLevel.Interrupts.{check_interrupt, first_req}
use fuse_nt.LowLevel.Answered.{
  IsOpen, IsAnswer, Reply, run_reply, run_reply-IsAnswer, answered, no_memory_reply,
  reply_iov-no_memory,
}
use fuse_nt.LowLevel.Refused.{HasFresh, Refused, stranger, Restricted, ll_process-Refused}
use fuse_nt.LowLevel.Done.{Answering, Finishes, is_forget, reply-Finishes}
use fuse_nt.LowLevel.Served.{Served, ll_process-Served}
use fuse_nt.LowLevel.Limits.{Agreed, do_init-Agreed}

-- without operations; FUSE_INIT of CUSE does nothing here
abbrev quiet : Env ℕ
quiet = record {
  op = λ name. none;
  init = none;
  destroy = none;
  cuse_init = λ p f. ok tt f;
  interrupt_func = λ func p f. ok tt f;
  send = λ s. pos 0;
  bufsize = 135168;
}

-- each operation replies ENOENT
abbrev empty_fs : Env ℕ
empty_fs = record {
  op = λ name. some (λ call p. discard (reply_err quiet p (pos 2)));
  init = none;
  destroy = none;
  cuse_init = λ p. discard (reply_err quiet p (pos 2));
  interrupt_func = λ func p f. ok tt f;
  send = λ s. pos 0;
  bufsize = 135168;
}

empty_fs-Answering : Answering empty_fs
empty_fs-Answering = record {
  op_finishes = λ name op call e.
      subst (λ (o : Call → ℕ → Cmd (Ll ℕ)). Finishes (is_forget name) (o call))
        (some-injective _ _ e) (reply-Finishes quiet (Reply.error_reply (pos 2)));
  cuse_finishes = reply-Finishes quiet (Reply.error_reply (pos 2));
}

abbrev plain_conn : Conn
plain_conn = record {
  proto_major = 0;
  proto_minor = 0;
  async_read = true;
  max_write = 4294967295;
  max_readahead = 4294967295;
  capable = no_caps;
  want = no_caps;
}

abbrev fresh_ll : Bool → Mem → List Req → Ll ℕ
fresh_ll got_init mem reqs = record {
  userdata = 0;
  allow_root = true;
  atomic_o_trunc = false;
  no_remote_lock = false;
  big_writes = false;
  got_init = got_init;
  got_destroy = false;
  is_cuse = false;
  owner = 1000;
  conn = plain_conn;
  reqs = reqs;
  list = [];
  interrupts = [];
  sent = [];
  fresh_ptr = 8;
  mem = mem;
}

fresh_ll-HasFresh : (b : Bool) (mem : Mem) → HasFresh (fresh_ll b mem [])
fresh_ll-HasFresh b mem = record {
  no_req = λ p l. refl;
  not_listed = λ p l. refl;
  not_waiting = λ p l. refl;
}

-- a message of the user with this number
abbrev in_message : ℕ → ℕ → InHeader
in_message opcode uid = record {
  opcode = opcode;
  in_unique = 5;
  nodeid = 1;
  in_uid = uid;
  in_gid = 0;
  in_pid = 9;
}

abbrev one_req : Req
one_req = new_req 3 (in_message 1 1000)

one_req-IsOpen : (mem : Mem) → IsOpen (fresh_ll true mem (one_req ∷ [])) 3 one_req
one_req-IsOpen mem = record { there = refl; one_ref = refl }

-- FUSE_LOOKUP of "a", for which there is no operation
lookup_unknown :
    ll_process quiet (in_message 1 1000) (b'a' ∷ (0 ∷ [])) (fresh_ll true [] [])
    ≡ ok tt (record (fresh_ll true [] []) {
      sent = message (record { unique = 5; error = negsuc 37; len = 16 }) [] ∷ [];
      fresh_ptr = 9;
    })
unfolding ll_process ll_op check_interrupt first_req do_lookup reply_err send_reply send_reply_iov
    send_reply_iov_nofree out_message iov_length free_req list_del_req destroy_req
lookup_unknown = refl

run_reply-IsAnswer_example :
    IsAnswer quiet 3 one_req
      (fresh_ll true [] (one_req ∷ []))
      (run_reply quiet 3 (Reply.buf_reply (b'a' ∷ [])) (fresh_ll true [] (one_req ∷ [])))
run_reply-IsAnswer_example =
    run_reply-IsAnswer quiet 3 one_req (Reply.buf_reply (b'a' ∷ []))
      (fresh_ll true [] (one_req ∷ [])) (one_req-IsOpen [])

reply_iov-no_memory_example :
    (let s = no_memory_reply quiet 3 one_req in
      let f = fresh_ll true (false ∷ []) (one_req ∷ []) in
      let f' = answered 3 s (record f { mem = [] }) in
      (reply_iov quiet 3 [] f ≡ ok (pos 0) f')
      × (reply_ioctl_iov quiet 3 (pos 7) [] f ≡ ok (pos 0) f'))
reply_iov-no_memory_example =
    reply_iov-no_memory quiet 3 one_req [] (pos 7) (fresh_ll true (false ∷ []) (one_req ∷ []))
      (one_req-IsOpen (false ∷ [])) refl

lookup-Restricted : Restricted 1
lookup-Restricted = record {
  no_init = omega arith;
  no_read = omega arith;
  no_write = omega arith;
  no_release = omega arith;
  no_fsync = omega arith;
  no_readdir = omega arith;
  no_releasedir = omega arith;
  no_fsyncdir = omega arith;
}

-- FUSE_LOOKUP of another user, with `allow_root`
ll_process-Refused_example :
    Refused quiet (in_message 1 1001) (b'a' ∷ (0 ∷ [])) (fresh_ll true [] []) (negsuc 12)
ll_process-Refused_example =
    ll_process-Refused quiet (in_message 1 1001) (b'a' ∷ (0 ∷ [])) (fresh_ll true [] []) (negsuc 12)
      (fresh_ll-HasFresh true []) refl
      (stranger refl (omega arith) refl (omega arith) (omega arith) lookup-Restricted)

ll_process-Served_example :
    Served empty_fs empty_fs-Answering (in_message 1 1000) (b'a' ∷ (0 ∷ [])) (fresh_ll true [] [])
ll_process-Served_example =
    ll_process-Served empty_fs empty_fs-Answering (in_message 1 1000) (b'a' ∷ (0 ∷ []))
      (fresh_ll true [] []) (fresh_ll-HasFresh true []) refl refl refl

-- version 7.12, a readahead of 256 and no flags
abbrev init_args : Str
init_args =
    7
    ∷ (0 ∷ (0 ∷ (0 ∷ (12 ∷ (0 ∷ (0 ∷ (0 ∷ (0 ∷ (1 ∷ (0 ∷ (0 ∷ (0 ∷ (0 ∷ (0 ∷ (0 ∷ [])))))))))))))))

do_init-Agreed_example :
    Agreed 135168 256 12 5
      (fresh_ll false [] (one_req ∷ []))
      (do_init quiet 3 0 init_args (fresh_ll false [] (one_req ∷ [])))
do_init-Agreed_example =
    do_init-Agreed quiet 3 one_req 0 init_args (fresh_ll false [] (one_req ∷ []))
      (record { there = refl; one_ref = refl }) refl refl
