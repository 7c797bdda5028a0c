-- ===== src/LowLevel/Done.antt =====
-- When a run has answered a request, of fuse-2.8.5/lib/fuse_lowlevel.c: the contract of an operation
-- that replies before it returns, and what the handlers' own replies do.
use fuse_nt.Prelude.{
  ℕ, Bool, true, false, arith, ◌≡◌, refl, ap, ◌∙◌, some, ◌∷◌, Option-cases, inl, inr,
}
use fuse_nt.Prelude.Int.{ℤ}
use fuse_nt.Prelude.Run.{Run, ok, Cmd, ◌>>◌, and_then}
use fuse_nt.LowLevel.{Req, Ll, Env, change_req, drop_req, unlist, discard, reply_none}
use fuse_nt.LowLevel.Messages.{OpName, Call, Sent, empty}
use fuse_nt.LowLevel.Args.{call_or, no_op, set_umask, enosys_code}
use fuse_nt.LowLevel.Answered.{
  IsReply, answered, IsOpen, IsAnswer, Reply, run_reply, run_reply-IsAnswer, find-change_req,
  drop-change_req, free_req-last,
}

-- a reply with the number of the request, or nothing, if the request is `silent`
pub data IsAnswerTo (silent : Bool) (unique : ℕ) : Sent → Type 0 where
  reply_to : {s : Sent} → IsReply unique s → IsAnswerTo silent unique s
  no_reply : silent ≡ true → IsAnswerTo silent unique empty

-- the request is answered once and freed, and the others are as they were
pub record Done {D : Type 0} (silent : Bool) (p u : ℕ) (f : Ll D) (m : Run (Ll D) Unit)
    : Type 0 where
  pub after : Ll D
  pub answer : Sent
  pub runs : m ≡ ok tt after
  pub answers : IsAnswerTo silent u answer
  pub sent_one : after.sent ≡ answer ∷ f.sent
  pub freed : after.reqs ≡ drop_req p f.reqs
  pub unlisted : after.list ≡ unlist p f.list
  pub not_waiting : after.interrupts ≡ unlist p f.interrupts
  pub same_ptr : after.fresh_ptr ≡ f.fresh_ptr

-- a handler or an operation that answers each request with one reference
abbrev pub Finishes : {D : Type 0} → Bool → (ℕ → Cmd (Ll D)) → Type 0
Finishes {D} silent act =
    (p : ℕ) (r : Req) (f : Ll D) → IsOpen f p r → Done silent p r.unique f (act p f)

-- FUSE_FORGET has no reply
abbrev pub is_forget : OpName → Bool
is_forget OpName.op_forget = true
is_forget _ = false

-- each operation that is there answers before it returns
pub record Answering {D : Type 0} (env : Env D) : Type 0 where
  pub op_finishes :
      (name : OpName) (op : Call → ℕ → Cmd (Ll D)) (call : Call)
      → env.op name ≡ some op
      → Finishes (is_forget name) (op call)
  pub cuse_finishes : Finishes false env.cuse_init

module _ {D : Type 0} (env : Env D) where
  pub answer-Done :
      {silent : Bool} (p : ℕ) (r : Req) (f : Ll D) (m : Run (Ll D) ℤ)
      → IsAnswer env p r f m
      → Done silent p r.unique f (and_then m (λ _ f'. ok tt f'))
  answer-Done p r f m a = record {
    after = answered p a.sent (record f { mem = a.left });
    answer = a.sent;
    runs = ap (λ x. and_then x (λ _ f'. ok tt f')) a.runs;
    answers = reply_to a.is_reply;
    sent_one = refl;
    freed = refl;
    unlisted = refl;
    not_waiting = refl;
    same_ptr = refl;
  }

  pub reply-Finishes :
      {silent : Bool} (reply : Reply) → Finishes silent (λ p. discard (run_reply env p reply))
  reply-Finishes reply p r f o =
      answer-Done p r f (run_reply env p reply f) (run_reply-IsAnswer env p r reply f o)

  pub reply_none-Finishes : Finishes true (reply_none env)
  unfolding reply_none
  reply_none-Finishes p r f o =
      let g = record f { sent = empty ∷ f.sent } in
      let o' : IsOpen g p r = record { there = o.there; one_ref = o.one_ref } in
      record {
        after = answered p empty f;
        answer = empty;
        runs = rw (o.there, free_req-last env p r g o') refl;
        answers = no_reply refl;
        sent_one = refl;
        freed = refl;
        unlisted = refl;
        not_waiting = refl;
        same_ptr = refl;
      }

  module _ (ans : Answering env) where
    pub call_or-Finishes :
        (name : OpName) (call : Call) (other : ℕ → Cmd (Ll D))
        → Finishes (is_forget name) other
        → Finishes (is_forget name) (λ p. call_or env name call p (other p))
    call_or-Finishes name call other fin p r f o = elim (Option-cases (env.op name)) [
      | inl e ↦ rw e (fin p r f o)
      | inr (op, e) ↦ rw e (ans.op_finishes name op call e p r f o)
    ]

    pub call-Finishes :
        (name : OpName) (call : Call)
        → Finishes (is_forget name) (λ p. call_or env name call p (no_op env p))
    call-Finishes name call =
        call_or-Finishes name call (no_op env) (reply-Finishes (Reply.error_reply enosys_code))

  -- a handler that sets the umask of the request first
  pub umask-Finishes :
      {silent : Bool} (umask : ℕ) (act : ℕ → Cmd (Ll D))
      → Finishes silent act
      → Finishes silent (λ p. set_umask env p umask >> act p)
  umask-Finishes umask act fin p r f o =
      let g = λ (q : Req). record q { umask = umask } in
      let f' = record f { reqs = change_req p g f.reqs } in
      let o' : IsOpen f' p (g r) = record {
        there = find-change_req p g f.reqs r (λ q. refl) o.there;
        one_ref = o.one_ref;
      } in
      let d = fin p (g r) f' o' in
      record {
        after = d.after;
        answer = d.answer;
        runs = d.runs;
        answers = d.answers;
        sent_one = d.sent_one;
        freed = d.freed ∙ drop-change_req p g f.reqs (λ q. refl);
        unlisted = d.unlisted;
        not_waiting = d.not_waiting;
        same_ptr = d.same_ptr;
      }

  -- a change of what no request reads
  pub changed-Done :
      {silent : Bool} (p u : ℕ) (f g : Ll D) (m : Run (Ll D) Unit)
      → g.sent ≡ f.sent
      → g.reqs ≡ f.reqs
      → g.list ≡ f.list
      → g.interrupts ≡ f.interrupts
      → g.fresh_ptr ≡ f.fresh_ptr
      → Done silent p u g m
      → Done silent p u f m
  changed-Done p u f g m a b c e h d = record {
    after = d.after;
    answer = d.answer;
    runs = d.runs;
    answers = d.answers;
    sent_one = d.sent_one ∙ ap (λ x. d.answer ∷ x) a;
    freed = d.freed ∙ ap (drop_req p) b;
    unlisted = d.unlisted ∙ ap (unlist p) c;
    not_waiting = d.not_waiting ∙ ap (unlist p) e;
    same_ptr = d.same_ptr ∙ h;
  }

Answer-loud : (silent : Bool) (u : ℕ) (s : Sent) → IsAnswerTo false u s → IsAnswerTo silent u s
Answer-loud silent u s (reply_to i) = reply_to i
Answer-loud silent u s (no_reply e) = absurd (ground (arith, e))

-- a reply is right for a silent request too
pub Finishes-loud :
    {D : Type 0} (silent : Bool) (act : ℕ → Cmd (Ll D)) → Finishes false act → Finishes silent act
Finishes-loud silent act fin p r f o =
    let d = fin p r f o in
    record {
      after = d.after;
      answer = d.answer;
      runs = d.runs;
      answers = Answer-loud silent r.unique d.answer d.answers;
      sent_one = d.sent_one;
      freed = d.freed;
      unlisted = d.unlisted;
      not_waiting = d.not_waiting;
      same_ptr = d.same_ptr;
    }
