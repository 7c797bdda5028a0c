-- ===== src/Mt/Counts.antt =====
-- The counts `numworker` and `numavail` of fuse-2.8.5/lib/fuse_loop_mt.c, and what a step of one
-- thread does to them.
use fuse_nt.Prelude.{
  ℕ, ◌+◌, ◌≤◌, ◌≡◌, refl, ap, Bool, true, false, not, ◌&&◌, List, [], ◌∷◌, length, All, count,
  arith, if◌then◌else◌,
}
use fuse_nt.Prelude.Int.{ℤ, pos, negsuc, pred_int}
use fuse_nt.Prelude.Memory.{Mem, next_alloc, has_failure}
use native.Mathlib.Numerals.{unary_clauses}
use fuse_nt.Mt.{
  Pc, Worker, Mt, Left, not_started, with_mem, create_thread, alloc_buf, alloc_worker, start_thread,
}

-- not at work on a message other than FUSE_FORGET
abbrev pub free_pc : Pc → Bool
free_pc (Pc.processing forget) = forget
free_pc (Pc.processed forget) = forget
free_pc _ = true

abbrev pub is_free : Worker → Bool
is_free w = free_pc w.pc

-- in the loop
abbrev pub live_pc : Pc → Bool
live_pc Pc.leaving = false
live_pc Pc.paused = false
live_pc Pc.ended = false
live_pc _ = true

abbrev pub is_live : Worker → Bool
is_live w = live_pc w.pc && not w.cancelled

abbrev pub one_if : Bool → ℕ
one_if b = if b then 1 else 0

abbrev pub AllLive : List Worker → Type 0
AllLive ws = All (λ w. is_live w ≡ true) ws

int_value : ℤ → ℕ
int_value (pos a) = a
int_value (negsuc a) = 0

pub pred_int-suc : (a : ℕ) → pred_int (pos (a + 1)) ≡ pos a
pred_int-suc a = simp unary_clauses refl

pub pos-injective : {a b : ℕ} → pos a ≡ pos b → a ≡ b
unfolding int_value
pos-injective e = ap int_value e

-- what `fuse_start_thread` does
pub record Starts (mt : Mt) (l : Left ℤ) : Type 0 where
  pub avail : (a : ℕ) → mt.numavail ≡ pos a → l.mt.numavail ≡ pos (a + count is_free l.started)
  pub total : (a : ℕ) → mt.numworker ≡ pos a → l.mt.numworker ≡ pos (a + length l.started)
  pub few : count is_free l.started ≤ 1
  pub exit : l.mt.exit ≡ mt.exit
  pub exited : l.mt.exited ≡ mt.exited
  pub live : AllLive l.started
  pub fresh : All (λ w. w.pc ≡ Pc.looping) l.started

-- a success, with no failure to come
abbrev pub Succeeds : Left ℤ → Type 0
Succeeds l = (count is_free l.started ≡ 1) × (has_failure l.mt.mem ≡ false)

not_started-Starts : (mt : Mt) (mem : Mem) → Starts mt (not_started (with_mem mt mem))
not_started-Starts mt mem = record {
  avail = λ a e. ground arith;
  total = λ a e. ground arith;
  few = omega arith;
  exit = refl;
  exited = refl;
  live = tt;
  fresh = tt;
}

create_thread-Starts : (mt : Mt) (r : Bool × Mem) → Starts mt (create_thread mt r)
create_thread-Starts mt (true, mem) = record {
  avail = λ a e. rw e refl;
  total = λ a e. rw e refl;
  few = omega arith;
  exit = refl;
  exited = refl;
  live = (refl, tt);
  fresh = (refl, tt);
}
create_thread-Starts mt (false, mem) = not_started-Starts mt mem

alloc_buf-Starts : (mt : Mt) (r : Bool × Mem) → Starts mt (alloc_buf mt r)
alloc_buf-Starts mt (true, mem) = create_thread-Starts mt (next_alloc mem)
alloc_buf-Starts mt (false, mem) = not_started-Starts mt mem

alloc_worker-Starts : (mt : Mt) (r : Bool × Mem) → Starts mt (alloc_worker mt r)
alloc_worker-Starts mt (true, mem) = alloc_buf-Starts mt (next_alloc mem)
alloc_worker-Starts mt (false, mem) = not_started-Starts mt mem

pub start_thread-Starts : (mt : Mt) → Starts mt (start_thread mt)
unfolding start_thread
start_thread-Starts mt = alloc_worker-Starts mt (next_alloc mt.mem)

-- an allocation that succeeds, with no failure to come
abbrev Lucky : Bool × Mem → Type 0
Lucky r = (r.0 ≡ true) × (has_failure r.1 ≡ false)

next_alloc-Lucky : (mem : Mem) → has_failure mem ≡ false → Lucky (next_alloc mem)
next_alloc-Lucky [] h = (refl, refl)
next_alloc-Lucky (true ∷ mem) h = (refl, h)
next_alloc-Lucky (false ∷ mem) h = absurd (ground arith)

create_thread-Succeeds : (mt : Mt) (r : Bool × Mem) → Lucky r → Succeeds (create_thread mt r)
create_thread-Succeeds mt (true, mem) h = (refl, h.1)
create_thread-Succeeds mt (false, mem) h = absurd (ground (arith, h.0))

alloc_buf-Succeeds : (mt : Mt) (r : Bool × Mem) → Lucky r → Succeeds (alloc_buf mt r)
alloc_buf-Succeeds mt (true, mem) h =
    create_thread-Succeeds mt (next_alloc mem) (next_alloc-Lucky mem h.1)
alloc_buf-Succeeds mt (false, mem) h = absurd (ground (arith, h.0))

alloc_worker-Succeeds : (mt : Mt) (r : Bool × Mem) → Lucky r → Succeeds (alloc_worker mt r)
alloc_worker-Succeeds mt (true, mem) h =
    alloc_buf-Succeeds mt (next_alloc mem) (next_alloc-Lucky mem h.1)
alloc_worker-Succeeds mt (false, mem) h = absurd (ground (arith, h.0))

pub start_thread-Succeeds : (mt : Mt) → has_failure mt.mem ≡ false → Succeeds (start_thread mt)
unfolding start_thread
start_thread-Succeeds mt h =
    alloc_worker-Succeeds mt (next_alloc mt.mem) (next_alloc-Lucky mt.mem h)
