-- ===== src/LowLevel/Served.antt =====
-- Each message is served: the table and `fuse_ll_process` of fuse-2.8.5/lib/fuse_lowlevel.c.
use fuse_nt.Prelude.{
  ℕ, ◌+◌, ◌≡◌, refl, sym, ap, ◌∙◌, Bool, true, false, Option, none, some, [], ◌∷◌, ◌++◌, ltb, ◌==◌,
  if◌then◌else◌, arith, Bool-cases, Option-cases, inl, inr, ==_refl,
}
use mathlib.Core.Option.{some-injective}
use mathlib.Core.Path.{subst}
use fuse_nt.Prelude.Int.{ℤ, pos}
use fuse_nt.Prelude.Run.{ok, Cmd, and_then}
use fuse_nt.Prelude.Memory.{Str, next_alloc}
use fuse_nt.LowLevel.{
  Req, Ll, Env, find_req, drop_req, unlist, discard, reply_err, send_reply_ok, no_piece,
}
use fuse_nt.LowLevel.Messages.{Sent}
use fuse_nt.LowLevel.Input.{u32_at}
use fuse_nt.LowLevel.Init.{
  plain_init_out, start_conn, offered, usable_bufsize, limit_write, init_reply, init_piece, eproto,
  wanted, call_init, negotiate, do_init, call_destroy, do_destroy,
}
use fuse_nt.LowLevel.Process.{
  InHeader, new_req, unexpected, forbidden, ll_op, ll_process, enlist, eio_code, eacces_code,
  interrupt_opcode,
}
use fuse_nt.LowLevel.Args.{enosys_code}
use fuse_nt.LowLevel.Interrupts.{do_interrupt, check_interrupt, first_req}
use fuse_nt.LowLevel.Answered.{IsOpen, ok-IsAnswer, err-IsAnswer, Reply}
use fuse_nt.LowLevel.Refused.{
  HasFresh, received, listed, unlist-absent, unlist-append, drop_req-absent,
}
use fuse_nt.LowLevel.Done.{
  Done, Finishes, Answering, IsAnswerTo, Finishes-loud, reply-Finishes, answer-Done, changed-Done,
}
use fuse_nt.LowLevel.Handlers.{
  do_lookup-Finishes, do_forget-Finishes, do_getattr-Finishes, do_setattr-Finishes,
  do_readlink-Finishes, do_symlink-Finishes, do_mknod-Finishes, do_mkdir-Finishes,
  do_unlink-Finishes, do_rmdir-Finishes, do_rename-Finishes, do_link-Finishes, do_open-Finishes,
  do_read-Finishes, do_write-Finishes, do_statfs-Finishes, do_release-Finishes, do_fsync-Finishes,
  do_setxattr-Finishes, do_getxattr-Finishes, do_listxattr-Finishes, do_removexattr-Finishes,
  do_flush-Finishes, do_opendir-Finishes, do_readdir-Finishes, do_releasedir-Finishes,
  do_fsyncdir-Finishes, do_getlk-Finishes, do_setlk-Finishes, do_setlkw-Finishes,
  do_access-Finishes, do_create-Finishes, do_bmap-Finishes, do_ioctl-Finishes, do_poll-Finishes,
}

abbrev forget_opcode : ℕ
forget_opcode = 2

-- a handler of the table that answers each request once
abbrev FinishesAll : {D : Type 0} → Bool → Option (ℕ → ℕ → Str → Cmd (Ll D)) → Type 0
FinishesAll {D} silent o =
    (func : ℕ → ℕ → Str → Cmd (Ll D))
    → o ≡ some func
    → (nodeid : ℕ) (inarg : Str) → Finishes silent (λ p. func p nodeid inarg)

module _ {D : Type 0} where
  here-FinishesAll :
      {silent : Bool} (act : ℕ → ℕ → Str → Cmd (Ll D))
      → ((nodeid : ℕ) (inarg : Str) → Finishes silent (λ p. act p nodeid inarg))
      → FinishesAll silent (some act)
  here-FinishesAll {silent} act fin func e nodeid inarg =
      subst (λ (g : ℕ → ℕ → Str → Cmd (Ll D)). Finishes silent (λ p. g p nodeid inarg))
        (some-injective _ _ e) (fin nodeid inarg)

  case :
      {silent : Bool} (b : Bool) {act : ℕ → ℕ → Str → Cmd (Ll D)}
      {rest : Option (ℕ → ℕ → Str → Cmd (Ll D))}
      → ((nodeid : ℕ) (inarg : Str) → Finishes false (λ p. act p nodeid inarg))
      → FinishesAll silent rest
      → FinishesAll silent (if b then some act else rest)
  case {silent} true {act} fin all =
      here-FinishesAll act
        (λ nodeid inarg. Finishes-loud silent (λ p. act p nodeid inarg) (fin nodeid inarg))
  case false fin all = all

  -- the case that makes a request silent
  case-silent :
      (b : Bool) {act : ℕ → ℕ → Str → Cmd (Ll D)} {rest : Option (ℕ → ℕ → Str → Cmd (Ll D))}
      → ((nodeid : ℕ) (inarg : Str) → Finishes true (λ p. act p nodeid inarg))
      → FinishesAll b rest
      → FinishesAll b (if b then some act else rest)
  case-silent true {act} fin all = here-FinishesAll act fin
  case-silent false fin all = all

  -- a case that does not apply
  case-no :
      {silent b : Bool} (act : ℕ → ℕ → Str → Cmd (Ll D)) {rest : Option (ℕ → ℕ → Str → Cmd (Ll D))}
      → b ≡ false
      → FinishesAll silent rest
      → FinishesAll silent (if b then some act else rest)
  case-no act h all = rw h all

  case-none : {silent : Bool} → FinishesAll {D = D} silent none
  case-none func e nodeid inarg = absurd (ground arith)

module _ {D : Type 0} (env : Env D) (ans : Answering env) where
  do_destroy-Finishes :
      (nodeid : ℕ) (inarg : Str) → Finishes false (λ p. do_destroy env p nodeid inarg)
  unfolding do_destroy
  do_destroy-Finishes nodeid inarg p r f o =
      let f' = record f {
        got_destroy = true;
        userdata = call_destroy env env.destroy f.userdata;
      } in
      let o' : IsOpen f' p r = record { there = o.there; one_ref = o.one_ref } in
      changed-Done env p r.unique f f' (discard (send_reply_ok env p no_piece) f') refl refl refl
        refl refl (answer-Done env p r f' _ (ok-IsAnswer env p r no_piece f' o'))

  negotiate-Done :
      (minor : ℕ) (inarg : Str) (p : ℕ) (r : Req) (f : Ll D)
      → IsOpen f p r
      → Done false p r.unique f (negotiate env p minor inarg f)
  negotiate-Done minor inarg p r f o =
      let c = offered minor (u32_at 8 inarg) (u32_at 12 inarg) f.conn in
      let c' = limit_write (usable_bufsize env.bufsize) (record c { want = wanted env f }) in
      let (d, c'') = call_init env env.init f.userdata c' in
      let out = init_piece (if ltb minor 5 then 8 else 24) (init_reply c'') in
      let f' = record f { userdata = d; conn = c''; got_init = true } in
      let o' : IsOpen f' p r = record { there = o.there; one_ref = o.one_ref } in
      changed-Done env p r.unique f f' (discard (send_reply_ok env p out) f') refl refl refl refl
        refl (answer-Done env p r f' _ (ok-IsAnswer env p r out f' o'))

  do_init-Finishes : (nodeid : ℕ) (inarg : Str) → Finishes false (λ p. do_init env p nodeid inarg)
  unfolding do_init
  do_init-Finishes nodeid inarg p r f o =
      let minor = u32_at 4 inarg in
      let f' = record f { conn = start_conn (u32_at 0 inarg) minor f.conn } in
      let o' : IsOpen f' p r = record { there = o.there; one_ref = o.one_ref } in
      let out = init_piece 24 plain_init_out in
      elim (Bool-cases (ltb (u32_at 0 inarg) 7)) [
        | inl a ↦ rw a (
            changed-Done env p r.unique f f' (discard (reply_err env p (pos eproto)) f') refl refl
              refl refl refl (answer-Done env p r f' _ (err-IsAnswer env p r (pos eproto) f' o')))
        | inr a ↦ elim (Bool-cases (ltb 7 (u32_at 0 inarg))) [
          | inl b ↦
              rw (a, b)
                (changed-Done env p r.unique f f' (discard (send_reply_ok env p out) f') refl refl
                  refl refl refl (answer-Done env p r f' _ (ok-IsAnswer env p r out f' o')))
          | inr b ↦
              rw (a, b)
                (changed-Done env p r.unique f f' (negotiate env p minor inarg f') refl refl refl
                  refl refl (negotiate-Done minor inarg p r f' o'))
        ]
      ]

  ll_op-FinishesAll :
      (n : ℕ) → (n == interrupt_opcode) ≡ false → FinishesAll (n == forget_opcode) (ll_op env n)
  unfolding ll_op
  ll_op-FinishesAll n h =
      (case (n == 1) (do_lookup-Finishes env ans) (
        case-silent (n == 2) (do_forget-Finishes env ans) (
          case (n == 3) (do_getattr-Finishes env ans) (
            case (n == 4) (do_setattr-Finishes env ans) (
              case (n == 5) (do_readlink-Finishes env ans) (
                case (n == 6) (do_symlink-Finishes env ans) (
                  case (n == 8) (do_mknod-Finishes env ans) (
                    case (n == 9) (do_mkdir-Finishes env ans) (
                      case (n == 10) (do_unlink-Finishes env ans) (
                        case (n == 11) (do_rmdir-Finishes env ans) (
                          case (n == 12) (do_rename-Finishes env ans) (
                            case (n == 13) (do_link-Finishes env ans) (
                              case (n == 14) (do_open-Finishes env ans) (
                                case (n == 15) (do_read-Finishes env ans) (
                                  case (n == 16) (do_write-Finishes env ans) (
                                    case (n == 17) (do_statfs-Finishes env ans) (
                                      case (n == 18) (do_release-Finishes env ans) (
                                        case (n == 20) (do_fsync-Finishes env ans) (
                                          case (n == 21) (do_setxattr-Finishes env ans) (
                                            case (n == 22) (do_getxattr-Finishes env ans) (
                                              case (n == 23) (do_listxattr-Finishes env ans) (
                                                case (n == 24) (do_removexattr-Finishes env ans) (
                                                  case (n == 25) (do_flush-Finishes env ans) (
                                                    case (n == 26) do_init-Finishes (
                                                      case (n == 27) (do_opendir-Finishes env ans) (
                                                        case (n == 28) (do_readdir-Finishes env ans)
                                                          (case (n == 29)
                                                            (do_releasedir-Finishes env ans)
                                                            (case (n == 30)
                                                            (do_fsyncdir-Finishes env ans)
                                                            (case (n == 31)
                                                            (do_getlk-Finishes env ans)
                                                            (case (n == 32)
                                                            (do_setlk-Finishes env ans)
                                                            (case (n == 33)
                                                            (do_setlkw-Finishes env ans)
                                                            (case (n == 34)
                                                            (do_access-Finishes env ans)
                                                            (case (n == 35)
                                                            (do_create-Finishes env ans)
                                                            (case-no (do_interrupt env) h (
                                                            case (n == 37)
                                                            (do_bmap-Finishes env ans)
                                                            (case (n == 38) do_destroy-Finishes (
                                                            case (n == 39)
                                                            (do_ioctl-Finishes env ans)
                                                            (case (n == 40)
                                                            (do_poll-Finishes env ans)
                                                            (case (n == 4096)
                                                            (λ nodeid inarg. ans.cuse_finishes)
                                                            case-none)))))))))))))))))))))))))))))))))))))))

  -- what `ll_process` leaves of a message: the request is answered and gone
  pub record Served (h : InHeader) (inarg : Str) (f : Ll D) : Type 0 where
    pub after : Ll D
    pub answer : Sent
    pub runs : ll_process env h inarg f ≡ ok tt after
    pub answers : IsAnswerTo (h.opcode == forget_opcode) h.in_unique answer
    pub sent_one : after.sent ≡ answer ∷ f.sent
    pub same_reqs : after.reqs ≡ f.reqs
    pub same_list : after.list ≡ f.list
    pub same_interrupts : after.interrupts ≡ f.interrupts
    pub next_ptr : after.fresh_ptr ≡ f.fresh_ptr + 1

  -- the request, in the list of those that are worked on
  enlisted : InHeader → Ll D → Ll D
  enlisted h f = record (received h f) { list = f.list ++ (f.fresh_ptr ∷ []) }

  enlist-alone :
      (h : InHeader) (f : Ll D)
      → f.interrupts ≡ []
      → enlist env f.fresh_ptr (received h f) ≡ ok tt (enlisted h f)
  unfolding check_interrupt first_req enlisted
  enlist-alone h f e = rw (==_refl f.fresh_ptr, e) refl

  by-Served :
      (h : InHeader) (inarg : Str) (f : Ll D) (act : ℕ → Cmd (Ll D)) (g : Ll D)
      → HasFresh f
      → f.interrupts ≡ []
      → g.sent ≡ f.sent
      → g.reqs ≡ new_req f.fresh_ptr h ∷ f.reqs
      → unlist f.fresh_ptr g.list ≡ f.list
      → g.interrupts ≡ f.interrupts
      → g.fresh_ptr ≡ f.fresh_ptr + 1
      → Finishes (h.opcode == forget_opcode) act
      → ll_process env h inarg f ≡ act f.fresh_ptr g
      → Served h inarg f
  by-Served h inarg f act g v e a b c i k fin u =
      let p = f.fresh_ptr in
      let o : IsOpen g p (new_req p h) = record {
        there = rw (b, ==_refl p) refl;
        one_ref = refl;
      } in
      let d = fin p (new_req p h) g o in
      record {
        after = d.after;
        answer = d.answer;
        runs = u ∙ d.runs;
        answers = d.answers;
        sent_one = d.sent_one ∙ ap (λ x. d.answer ∷ x) a;
        same_reqs =
            d.freed
            ∙ (ap (drop_req p) b
                ∙ rw (==_refl p) (drop_req-absent p f.reqs (v.no_req p (omega arith))));
        same_list = d.unlisted ∙ c;
        same_interrupts = d.not_waiting ∙ (ap (unlist p) (i ∙ e) ∙ sym e);
        next_ptr = d.same_ptr ∙ k;
      }

  refusal-Served :
      (h : InHeader) (inarg : Str) (f : Ll D) (e : ℤ)
      → HasFresh f
      → f.interrupts ≡ []
      → ll_process env h inarg f ≡ discard (reply_err env f.fresh_ptr e) (received h f)
      → Served h inarg f
  refusal-Served h inarg f e v i u =
      by-Served h inarg f (λ p. discard (reply_err env p e)) (received h f) v i refl refl
        (unlist-absent f.fresh_ptr f.list (v.not_listed f.fresh_ptr (omega arith))) refl refl
        (reply-Finishes env (Reply.error_reply e)) u

  -- Where the operations of the file system answer before they return, each message but
  -- FUSE_INTERRUPT for which there is memory, while no interrupt is waiting, is answered by exactly
  -- one message with its number, whether it is turned down, handled by the library or passed on;
  -- only FUSE_FORGET may be ended by an empty message instead. Its request is then freed and in no
  -- list, and the other requests are as they were.
  pub ll_process-Served :
      (h : InHeader) (inarg : Str) (f : Ll D)
      → HasFresh f
      → f.interrupts ≡ []
      → (next_alloc f.mem).0 ≡ true
      → (h.opcode == interrupt_opcode) ≡ false
      → Served h inarg f
  unfolding ll_process enlisted
  ll_process-Served h inarg f v i m n = elim (Bool-cases (unexpected env f h.opcode)) [
    | inl a ↦ refusal-Served h inarg f eio_code v i (rw (m, a) refl)
    | inr a ↦ elim (Bool-cases (forbidden env f h)) [
      | inl b ↦ refusal-Served h inarg f eacces_code v i (rw (m, a, b) refl)
      | inr b ↦ elim (Option-cases (ll_op env h.opcode)) [
        | inl k ↦ refusal-Served h inarg f enosys_code v i (rw (m, a, b, k) refl)
        | inr (func, k) ↦
            by-Served h inarg f (λ p. func p h.nodeid inarg) (enlisted h f) v i refl refl
              (unlist-append f.fresh_ptr f.list (v.not_listed f.fresh_ptr (omega arith))) refl refl
              (ll_op-FinishesAll h.opcode n func k h.nodeid inarg)
              (rw (m, a, b, k, n)
                (ap (λ x. and_then x (λ _. func f.fresh_ptr h.nodeid inarg)) (enlist-alone h f i)))
      ]
    ]
  ]

  -- The next message finds the state ready.
  pub Served-HasFresh :
      (h : InHeader) (inarg : Str) (f : Ll D) (s : Served h inarg f) → HasFresh f → HasFresh s.after
  Served-HasFresh h inarg f s v = record {
    no_req = λ p l. ap (find_req p) s.same_reqs ∙ v.no_req p (let k = s.next_ptr in omega arith);
    not_listed =
        λ p l. ap (listed p) s.same_list ∙ v.not_listed p (let k = s.next_ptr in omega arith);
    not_waiting = λ p l.
        ap (listed p) s.same_interrupts ∙ v.not_waiting p (let k = s.next_ptr in omega arith);
  }
