-- ===== src/LowLevel/Refused.antt =====
-- Requests that `fuse_ll_process` of fuse-2.8.5/lib/fuse_lowlevel.c turns down.
use fuse_nt.Prelude.{
  ℕ, ◌+◌, ◌≤◌, ◌≡◌, ◌≢◌, ◌⊎◌, refl, sym, ap, ◌∙◌, Bool, true, false, ◌||◌, Option, none, some, List,
  [], ◌∷◌, ◌++◌, ◌==◌, if◌then◌else◌, arith, Bool-cases, inl, inr, ==_refl,
}
use fuse_nt.Prelude.Int.{ℤ, negsuc}
use fuse_nt.Prelude.Run.{ok}
use fuse_nt.Prelude.Memory.{Str, next_alloc}
use fuse_nt.LowLevel.{
  Req, Ll, Env, find_req, drop_req, unlist, negate, discard, reply_err, send_reply, send_reply_iov,
  send_reply_iov_nofree, out_message, iov_length, good_error,
}
use fuse_nt.LowLevel.Messages.{message}
use fuse_nt.LowLevel.Args.{enosys_code}
use fuse_nt.LowLevel.Process.{
  InHeader, new_req, unexpected, forbidden, ll_op, ll_process, eio_code, eacces_code,
}
use fuse_nt.LowLevel.Answered.{IsOpen, free_req-last}

abbrev pub listed : ℕ → List ℕ → Bool
listed p [] = false
listed p (q ∷ qs) = q == p || listed p qs

pub unlist-absent : (p : ℕ) (qs : List ℕ) → listed p qs ≡ false → unlist p qs ≡ qs
unlist-absent p [] h = refl
unlist-absent p (q ∷ qs) h =
    let e : (q == p) ≡ false = ground arith in
    rw e (ap (λ xs. q ∷ xs) (unlist-absent p qs (ground arith)))

pub unlist-append : (p : ℕ) (qs : List ℕ) → listed p qs ≡ false → unlist p (qs ++ (p ∷ [])) ≡ qs
unlist-append p [] h = rw (==_refl p) refl
unlist-append p (q ∷ qs) h =
    let e : (q == p) ≡ false = ground arith in
    rw e (ap (λ xs. q ∷ xs) (unlist-append p qs (ground arith)))

pub drop_req-absent : (p : ℕ) (rs : List Req) → find_req p rs ≡ none → drop_req p rs ≡ rs
drop_req-absent p [] h = refl
drop_req-absent p (r ∷ rs) h = elim (Bool-cases (r.ptr == p)) [
  | inl e ↦
      let h' = sym (ap (λ b. if b then some r else find_req p rs) e) ∙ h in absurd (ground arith)
  | inr e ↦
      let h' = sym (ap (λ b. if b then some r else find_req p rs) e) ∙ h in
      rw e (ap (λ xs. r ∷ xs) (drop_req-absent p rs h'))
]

-- from the next pointer on, no pointer is in use
pub record HasFresh {D : Type 0} (f : Ll D) : Type 0 where
  pub no_req : (p : ℕ) → f.fresh_ptr ≤ p → find_req p f.reqs ≡ none
  pub not_listed : (p : ℕ) → f.fresh_ptr ≤ p → listed p f.list ≡ false
  pub not_waiting : (p : ℕ) → f.fresh_ptr ≤ p → listed p f.interrupts ≡ false

-- the state with the request of a message
abbrev pub received : {D : Type 0} → InHeader → Ll D → Ll D
received h f = record f {
  reqs = new_req f.fresh_ptr h ∷ f.reqs;
  fresh_ptr = f.fresh_ptr + 1;
  mem = (next_alloc f.mem).1;
}

-- not FUSE_INIT, READ, WRITE, RELEASE, FSYNC, READDIR, RELEASEDIR or FSYNCDIR, which any user may
-- send
pub record Restricted (n : ℕ) : Type 0 where
  pub no_init : n ≢ 26
  pub no_read : n ≢ 15
  pub no_write : n ≢ 16
  pub no_release : n ≢ 18
  pub no_fsync : n ≢ 20
  pub no_readdir : n ≢ 28
  pub no_releasedir : n ≢ 29
  pub no_fsyncdir : n ≢ 30

-- the gaps of the protocol, and what is behind its last number but CUSE_INIT
pub data Unknown (n : ℕ) : Type 0 where
  gap : (n ≡ 0) ⊎ ((n ≡ 7) ⊎ (n ≡ 19)) → Unknown n
  behind : 41 ≤ n → n ≢ 4096 → Unknown n

-- a row of the table with another number
past :
    {A : Type 0} (n k : ℕ) (a : A) (rest : Option A)
    → n ≢ k
    → rest ≡ none
    → (if n == k then some a else rest) ≡ none
past n k a rest h e = let z : (n == k) ≡ false = ground arith in rw z e

ll_op-Unknown : {D : Type 0} (env : Env D) (n : ℕ) → Unknown n → ll_op env n ≡ none
unfolding ll_op
ll_op-Unknown env n (gap (inl e)) = rw e refl
ll_op-Unknown env n (gap (inr (inl e))) = rw e refl
ll_op-Unknown env n (gap (inr (inr e))) = rw e refl
ll_op-Unknown env n (behind l k) = past n 1 _ _ (omega arith) (
    past n 2 _ _ (omega arith) (
      past n 3 _ _ (omega arith) (
        past n 4 _ _ (omega arith) (
          past n 5 _ _ (omega arith) (
            past n 6 _ _ (omega arith) (
              past n 8 _ _ (omega arith) (
                past n 9 _ _ (omega arith) (
                  past n 10 _ _ (omega arith) (
                    past n 11 _ _ (omega arith) (
                      past n 12 _ _ (omega arith) (
                        past n 13 _ _ (omega arith) (
                          past n 14 _ _ (omega arith) (
                            past n 15 _ _ (omega arith) (
                              past n 16 _ _ (omega arith) (
                                past n 17 _ _ (omega arith) (
                                  past n 18 _ _ (omega arith) (
                                    past n 20 _ _ (omega arith) (
                                      past n 21 _ _ (omega arith) (
                                        past n 22 _ _ (omega arith) (
                                          past n 23 _ _ (omega arith) (
                                            past n 24 _ _ (omega arith) (
                                              past n 25 _ _ (omega arith) (
                                                past n 26 _ _ (omega arith) (
                                                  past n 27 _ _ (omega arith) (
                                                    past n 28 _ _ (omega arith) (
                                                      past n 29 _ _ (omega arith) (
                                                        past n 30 _ _ (omega arith) (
                                                          past n 31 _ _ (omega arith) (
                                                            past n 32 _ _ (omega arith) (
                                                            past n 33 _ _ (omega arith) (
                                                            past n 34 _ _ (omega arith) (
                                                            past n 35 _ _ (omega arith) (
                                                            past n 36 _ _ (omega arith) (
                                                            past n 37 _ _ (omega arith) (
                                                            past n 38 _ _ (omega arith) (
                                                            past n 39 _ _ (omega arith) (
                                                            past n 40 _ _ (omega arith) (
                                                            past n 4096 _ _ k
                                                            refl))))))))))))))))))))))))))))))))))))))

module _ {D : Type 0} (env : Env D) (h : InHeader) (inarg : Str) (f : Ll D) where
  received-IsOpen : IsOpen (received h f) f.fresh_ptr (new_req f.fresh_ptr h)
  received-IsOpen = record { there = rw (==_refl f.fresh_ptr) refl; one_ref = refl }

  -- why a message is turned down, with its error code
  pub data Reason : ℤ → Type 0 where
    -- the first message is not FUSE_INIT, or CUSE_INIT for a character device: EIO
    early : f.got_init ≡ false → h.opcode ≢ (if f.is_cuse then 4096 else 26) → Reason (negsuc 4)
    -- a second FUSE_INIT or CUSE_INIT: EIO
    repeated : f.got_init ≡ true → (h.opcode ≡ 26) ⊎ (h.opcode ≡ 4096) → Reason (negsuc 4)
    -- with `allow_root`, a user who is neither the owner nor root: EACCES
    stranger :
        f.got_init ≡ true
        → h.opcode ≢ 4096
        → f.allow_root ≡ true
        → h.in_uid ≢ f.owner
        → h.in_uid ≢ 0
        → Restricted h.opcode
        → Reason (negsuc 12)
    -- a number that no message has: ENOSYS
    unknown :
        f.got_init ≡ true
        → (f.allow_root ≡ false) ⊎ ((h.in_uid ≡ f.owner) ⊎ (h.in_uid ≡ 0))
        → Unknown h.opcode
        → Reason (negsuc 37)

  -- the error alone is replied, in the 16 bytes of a header, and nothing else is changed
  pub Refused : ℤ → Type 0
  Refused error =
      ll_process env h inarg f
      ≡ ok tt (record f {
        sent = message (record { unique = h.in_unique; error = error; len = 16 }) [] ∷ f.sent;
        fresh_ptr = f.fresh_ptr + 1;
        mem = (next_alloc f.mem).1;
      })

  refuse :
      (e : ℤ)
      → HasFresh f
      → good_error (negate e) ≡ negate e
      → ll_process env h inarg f ≡ discard (reply_err env f.fresh_ptr e) (received h f)
      → Refused (negate e)
  unfolding reply_err send_reply send_reply_iov send_reply_iov_nofree out_message iov_length Refused
  refuse e v good u =
      let p = f.fresh_ptr in
      let s = message (record { unique = h.in_unique; error = negate e; len = 16 }) [] in
      let g = record (received h f) { sent = s ∷ f.sent } in
      let o : IsOpen g p (new_req p h) = record {
        there = received-IsOpen.there;
        one_ref = received-IsOpen.one_ref;
      } in
      let a = drop_req-absent p f.reqs (v.no_req p (omega arith)) in
      let b = unlist-absent p f.list (v.not_listed p (omega arith)) in
      let c = unlist-absent p f.interrupts (v.not_waiting p (omega arith)) in
      u ∙ rw (==_refl p, good, free_req-last env p (new_req p h) g o, ==_refl p, a, b, c) refl

  -- A message for which there is memory is answered by EIO if it comes before the first FUSE_INIT
  -- (or CUSE_INIT) or is a second one, by EACCES if `allow_root` is set and its user is neither the
  -- owner nor root and it does not just go on with an open file, and by ENOSYS if no message has
  -- its number. No operation of the file system is called, and nothing but the memory and the next
  -- pointer changes.
  pub ll_process-Refused :
      (error : ℤ) → HasFresh f → (next_alloc f.mem).0 ≡ true → Reason error → Refused error
  unfolding ll_process
  ll_process-Refused error v m (early i n) =
      let a : unexpected env f h.opcode ≡ true = ground arith in
      refuse eio_code v refl (rw (m, a) refl)
  ll_process-Refused error v m (repeated i n) =
      let a : unexpected env f h.opcode ≡ true = ground arith in
      refuse eio_code v refl (rw (m, a) refl)
  ll_process-Refused error v m (stranger i c r o z n) =
      let a : unexpected env f h.opcode ≡ false = ground arith in
      let b : forbidden env f h ≡ true = ground arith in
      refuse eacces_code v refl (rw (m, a, b) refl)
  ll_process-Refused error v m (unknown i u n) =
      let a : unexpected env f h.opcode ≡ false = ground arith in
      let b : forbidden env f h ≡ false = ground arith in
      refuse enosys_code v refl (rw (m, a, b, ll_op-Unknown env h.opcode n) refl)
