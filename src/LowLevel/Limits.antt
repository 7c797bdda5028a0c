-- ===== src/LowLevel/Limits.antt =====
-- What `do_init` of fuse-2.8.5/lib/fuse_lowlevel.c agrees on with the kernel.
use fuse_nt.Prelude.{
  ℕ, ◌+◌, ◌%◌, ◌^◌, ◌≤◌, ◌<◌, ◌≡◌, refl, ap, ◌∙◌, true, false, none, [], ◌∷◌, ltb, ◌==◌,
  if◌then◌else◌, arith, Bool-cases, inl, inr,
}
use fuse_nt.Prelude.Int.{pos}
use fuse_nt.Prelude.Run.{Run, ok, and_then}
use fuse_nt.Prelude.Memory.{Str}
use fuse_nt.LowLevel.{
  Req, Ll, Env, Conn, send_reply_ok, send_reply, send_reply_iov, send_reply_iov_nofree, out_message,
  iov_length, out_header_size,
}
use fuse_nt.LowLevel.Messages.{Sent, InitOut, message, init_out}
use fuse_nt.LowLevel.Input.{u32_at}
use fuse_nt.LowLevel.Init.{
  do_init, negotiate, offered, limit_write, usable_bufsize, start_conn, init_piece, init_reply,
  wanted, call_init,
}
use fuse_nt.LowLevel.Answered.{IsOpen, answered, free_req-last}

-- the limits that hold after the negotiation, and the reply that tells them to the kernel
pub record Agreed {D : Type 0} (bufsize wanted_readahead minor unique : ℕ) (f : Ll D)
    (m : Run (Ll D) Unit) : Type 0 where
  pub after : Ll D
  pub out : InitOut
  pub size : ℕ
  pub runs : m ≡ ok tt after
  pub started : after.got_init ≡ true
  pub told :
      after.sent
      ≡ message
          (record { unique = unique; error = pos 0; len = 16 + size })
          (record { base = init_out out; iov_len = size } ∷ [])
        ∷ f.sent
  -- `sizeof(struct fuse_init_out)`
  pub whole : 5 ≤ minor → size ≡ 24
  -- only the version
  pub short : minor < 5 → size ≡ 8
  pub told_version : (out.major ≡ 7) × (out.minor ≡ 12)
  pub told_write : out.out_max_write ≡ after.conn.max_write
  pub told_readahead : out.out_max_readahead ≡ after.conn.max_readahead
  pub write_fits : 8192 ≤ bufsize → after.conn.max_write + 4096 ≤ bufsize
  pub write_limit : after.conn.max_write ≤ f.conn.max_write
  pub readahead_limit : after.conn.max_readahead ≤ f.conn.max_readahead
  pub readahead_wanted : after.conn.max_readahead ≤ wanted_readahead

-- the connection that is agreed on
abbrev agreed_conn : {D : Type 0} → Env D → ℕ → Str → Ll D → Conn
agreed_conn env minor inarg f =
    limit_write (usable_bufsize env.bufsize)
      (record (offered minor (u32_at 8 inarg) (u32_at 12 inarg) f.conn) { want = wanted env f })

offered-limits :
    (minor m flags : ℕ) (c : Conn)
    → ((offered minor m flags c).max_readahead ≤ c.max_readahead)
      × ((offered minor m flags c).max_readahead ≤ m)
      × ((offered minor m flags c).max_write ≡ c.max_write)
offered-limits minor m flags c = elim (Bool-cases (ltb minor 6)) [
  | inl h ↦ rw h (omega arith, omega arith, refl)
  | inr h ↦ rw h (ground arith, ground arith, refl)
]

-- the reply to a request, with what it says
abbrev told_reply : ℕ → ℕ → Conn → Sent
told_reply unique size c =
    message
      (record {
        unique = unique;
        error = pos 0;
        len = (out_header_size + iov_length (init_piece size (init_reply c) ∷ [])) % 2 ^ 32;
      })
      (init_piece size (init_reply c) ∷ [])

module _ {D : Type 0} (env : Env D) (p : ℕ) (r : Req) where
  send_init_reply :
      (size : ℕ) (c : Conn) (f : Ll D)
      → IsOpen f p r
      → (size == 0) ≡ false
      → send_reply_ok env p (init_piece size (init_reply c)) f
        ≡ ok (env.send (told_reply r.unique size c)) (answered p (told_reply r.unique size c) f)
  unfolding send_reply_ok send_reply send_reply_iov send_reply_iov_nofree out_message
  send_init_reply size c f o z =
      let g = record f { sent = told_reply r.unique size c ∷ f.sent } in
      let o' : IsOpen g p r = record { there = o.there; one_ref = o.one_ref } in
      rw (z, o.there, free_req-last env p r g o') refl

  abbrev reply_size : ℕ → ℕ
  reply_size minor = if ltb minor 5 then 8 else 24

  whole_len : (size : ℕ) → size ≤ 24 → (16 + (size + 0)) % 2 ^ 32 ≡ 16 + size
  whole_len size h = omega arith

  reply_size-nonzero : (minor : ℕ) → (reply_size minor == 0) ≡ false
  reply_size-nonzero minor = ground arith

  negotiate-Agreed :
      (minor : ℕ) (inarg : Str) (f : Ll D)
      → IsOpen f p r
      → env.init ≡ none
      → Agreed env.bufsize (u32_at 8 inarg) minor r.unique f (negotiate env p minor inarg f)
  unfolding iov_length
  negotiate-Agreed minor inarg f o i =
      let c = agreed_conn env minor inarg f in
      let g = record f { conn = c; got_init = true } in
      let o' : IsOpen g p r = record { there = o.there; one_ref = o.one_ref } in
      let s = told_reply r.unique (reply_size minor) c in
      let (x, y, z) = offered-limits minor (u32_at 8 inarg) (u32_at 12 inarg) f.conn in
      let w = (offered minor (u32_at 8 inarg) (u32_at 12 inarg) f.conn).max_write in
      record {
        after = answered p s g;
        out = init_reply c;
        size = reply_size minor;
        runs =
            ap
              (λ x.
                let (d, c') = call_init env x f.userdata c in
                and_then
                  (send_reply_ok env p (init_piece (reply_size minor) (init_reply c'))
                    (record f { userdata = d; conn = c'; got_init = true }))
                  (λ _ f'. ok tt f'))
              i
            ∙ ap (λ x. and_then x (λ _ f'. ok tt f'))
                (send_init_reply (reply_size minor) c g o' (reply_size-nonzero minor));
        started = refl;
        told =
            ap
              (λ n.
                message (record { unique = r.unique; error = pos 0; len = n })
                  (init_piece (reply_size minor) (init_reply c) ∷ [])
                ∷ f.sent)
              (whole_len (reply_size minor) (ground arith));
        whole = λ h. ground arith;
        short = λ h. ground arith;
        told_version = (refl, refl);
        told_write = refl;
        told_readahead = refl;
        write_fits = λ h. write_fits-lem env.bufsize w h;
        write_limit = write_limit-lem env.bufsize w f.conn.max_write z;
        readahead_limit = x;
        readahead_wanted = y;
      }
    where
      write_fits-lem :
          (b w : ℕ)
          → 8192 ≤ b
          → (if ltb (usable_bufsize b) w then usable_bufsize b else w) + 4096 ≤ b
      write_fits-lem b w h = ground arith

      write_limit-lem :
          (b w v : ℕ) → w ≡ v → (if ltb (usable_bufsize b) w then usable_bufsize b else w) ≤ v
      write_limit-lem b w v e = ground arith

  -- For a request with one reference and version 7 of the protocol, and a file system without an
  -- operation of its own for it, `do_init` always answers and sets `got_init`. The size of a write
  -- and of the readahead are at most what the program asked for; a write with its header fits into
  -- the buffer of the channel, where that has the least size; the readahead is at most what the
  -- kernel offers. From minor version 5 of the kernel on the reply has 24 bytes and tells the
  -- version, the size of a write and that of the readahead; before, it has the 8 bytes of the
  -- version alone.
  pub do_init-Agreed :
      (nodeid : ℕ) (inarg : Str) (f : Ll D)
      → IsOpen f p r
      → env.init ≡ none
      → u32_at 0 inarg ≡ 7
      → Agreed env.bufsize
          (u32_at 8 inarg)
          (u32_at 4 inarg)
          r.unique
          f
          (do_init env p nodeid inarg f)
  unfolding do_init
  do_init-Agreed nodeid inarg f o i v =
      let minor = u32_at 4 inarg in
      let f' = record f { conn = start_conn (u32_at 0 inarg) minor f.conn } in
      let o' : IsOpen f' p r = record { there = o.there; one_ref = o.one_ref } in
      let a = negotiate-Agreed minor inarg f' o' i in
      let z : ltb (u32_at 0 inarg) 7 ≡ false = ap (λ x. ltb x 7) v in
      let z' : ltb 7 (u32_at 0 inarg) ≡ false = ap (λ x. ltb 7 x) v in
      rw (z, z')
        (record {
          after = a.after;
          out = a.out;
          size = a.size;
          runs = a.runs;
          started = a.started;
          told = a.told;
          whole = a.whole;
          short = a.short;
          told_version = a.told_version;
          told_write = a.told_write;
          told_readahead = a.told_readahead;
          write_fits = a.write_fits;
          write_limit = a.write_limit;
          readahead_limit = a.readahead_limit;
          readahead_wanted = a.readahead_wanted;
        })
