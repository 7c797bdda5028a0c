-- ===== src/Locks/Insert.antt =====
-- `locks_insert` writes the range of the new lock and nothing else.
use fuse_nt.Prelude.{
  ℕ, zero, suc, ◌+◌, ◌-◌, ◌≤◌, ◌<◌, ◌≡◌, refl, ◌∙◌, ◌⊎◌, inl, inr, Bool, true, false, Bool-cases,
  ◌&&◌, ◌||◌, List, [], ◌∷◌, ◌==◌, arith, length,
}
use fuse_nt.Locks.{
  LockType, unlck, same_type, Lock, Action, skip, stop, covered, merge, discard, cut_tail, cut_head,
  split, body, place, Walk, done, keep, insert_loop,
}
use fuse_nt.Locks.Table.{covers, holds, IsRange, After, IsTable, overwrite, After-move, holds_clear}
use fuse_nt.Locks.Step.{
  body-skip, body-stop, body-covered, body-merge, body-discard, body-cut_tail, body-cut_head,
  body-split, body_beyond,
}

-- the run `w` ends, and its list is `ls` with `lock` written over it
pub record Outcome (lock : Lock) (ls : List Lock) (w : Walk) : Type 0 where
  pub rows : List Lock
  pub ran : w ≡ done rows
  pub table : IsTable rows
  pub reads :
      (o : ℕ) (t : LockType) (b : ℕ) → holds o t b rows ≡ overwrite lock o t b (holds o t b ls)
  pub after :
      (o k : ℕ) → After o k ls → ((lock.owner == o) ≡ true → k < lock.start) → After o k rows

-- The code behind the loop, where all later locks of the owner are behind the range.
place-Outcome :
    (lock : Lock) (ls : List Lock)
    → IsRange lock
    → IsTable ls
    → After lock.owner lock.end ls
    → Outcome lock ls (done (place lock ls))
unfolding place holds
place-Outcome lock ls r t a = elim (Bool-cases (same_type lock.type unlck)) [
  | inl e ↦ record {
    rows = ls;
    ran = rw e;
    table = t;
    reads = λ o ty b. ground (arith, holds_clear lock.owner lock.end ls a o ty b);
    after = λ o k h _. h;
  }
  | inr e ↦ record {
    rows = lock ∷ ls;
    ran = rw e;
    table = (r.0, r.1, e, a, t);
    reads = λ o ty b. ground (arith, holds_clear lock.owner lock.end ls a o ty b);
    after = λ o k h g. (g, h);
  }
]

-- An element that the range does not touch stays in front.
keep-Outcome :
    (lock l : Lock) (ls : List Lock) (w : Walk)
    → IsTable (l ∷ ls)
    → ((lock.owner == l.owner) ≡ true → l.end < lock.start)
    → Outcome lock ls w
    → Outcome lock (l ∷ ls) (keep l w)
unfolding holds
keep-Outcome lock l ls w t apart r = record {
  rows = l ∷ r.rows;
  ran = rw r.ran;
  table = (t.0, t.1, t.2, r.after l.owner l.end t.3 apart, r.table);
  reads = λ o ty b. ground (arith, apart, r.reads o ty b);
  after = λ o k h g. (h.0, r.after o k h.1 g);
}

-- The list that the loop began with, in place of the one that the rest of the loop saw.
restart-Outcome :
    (lock lock' : Lock) (ls ls' : List Lock) (w : Walk)
    → Outcome lock' ls' w
    → ((o : ℕ) (t : LockType) (b : ℕ)
        → overwrite lock' o t b (holds o t b ls') ≡ overwrite lock o t b (holds o t b ls))
    → ((o k : ℕ)
        → After o k ls
        → ((lock.owner == o) ≡ true → k < lock.start)
        → After o k ls' × ((lock'.owner == o) ≡ true → k < lock'.start))
    → Outcome lock ls w
restart-Outcome lock lock' ls ls' w r same behind = record {
  rows = r.rows;
  ran = r.ran;
  table = r.table;
  reads = λ o t b. r.reads o t b ∙ same o t b;
  after = λ o k h g. r.after o k (behind o k h g).0 (behind o k h g).1;
}

-- what one byte has before and after a split, `rest` being the later elements
split_reads :
    (lock l : Lock) (o : ℕ) (t : LockType) (b : ℕ) (rest : Bool)
    → lock.start ≤ lock.end
    → (l.owner == lock.owner) ≡ true
    → l.start < lock.start
    → lock.end < l.end
    → ((l.owner == o) ≡ true → b ≤ l.end → rest ≡ false)
    → overwrite lock o t b (
        (covers o b (record l { end = lock.start - 1 }) && same_type t l.type)
        || ((covers o b (record l { start = lock.end + 1 }) && same_type t l.type) || rest))
      ≡ overwrite lock o t b ((covers o b l && same_type t l.type) || rest)
split_reads lock l o t b rest le own lo hi clear = ground arith

module _ (lock l : Lock) (ls : List Lock) (range : IsRange lock) (t : IsTable (l ∷ ls)) where
  stop-Outcome : body lock l ≡ stop → Outcome lock (l ∷ ls) (done (place lock (l ∷ ls)))
  stop-Outcome e =
      let (own, lt) = body-stop lock l e in
      place-Outcome lock (l ∷ ls) range t
        ((λ _. lt), After-move l.owner l.end lock.owner lock.end ls t.3 own (omega arith))

  covered-Outcome : body lock l ≡ covered → Outcome lock (l ∷ ls) (done (l ∷ ls))
  unfolding holds
  covered-Outcome e =
      let (own, kind, lo, hi) = body-covered lock l e in
      record {
        rows = l ∷ ls;
        ran = refl;
        table = t;
        reads = λ o ty b. ground (arith, holds_clear l.owner l.end ls t.3 o ty b);
        after = λ o k h _. h;
      }

  merge-Outcome :
      (m : Lock) (w : Walk) → body lock l ≡ merge m → Outcome m ls w → Outcome lock (l ∷ ls) w
  unfolding holds
  merge-Outcome m w e r =
      let (own, kind, o1, t1, near, near', s1, e1) = body-merge lock l m e in
      restart-Outcome lock m (l ∷ ls) ls w r
        (λ o ty b. ground (arith, holds_clear l.owner l.end ls t.3 o ty b))
        (λ o k h g. (h.1, λ q. ground (arith, h.0, g)))

  merge-IsRange : (m : Lock) → body lock l ≡ merge m → IsRange m
  merge-IsRange m e = ground (arith, body-merge lock l m e)

  discard-Outcome : (w : Walk) → body lock l ≡ discard → Outcome lock ls w → Outcome lock (l ∷ ls) w
  unfolding holds
  discard-Outcome w e r =
      let (own, lo, hi) = body-discard lock l e in
      restart-Outcome lock lock (l ∷ ls) ls w r (λ o ty b. ground arith) (λ o k h g. (h.1, g))

  -- The part of `l` in front of the range stays; its end is now in front of the range.
  cut_tail-Outcome :
      (m : Lock) (w : Walk)
      → body lock l ≡ cut_tail m
      → Outcome lock ls w
      → Outcome lock (l ∷ ls) (keep m w)
  unfolding holds
  cut_tail-Outcome m w e r =
      let (own, lo, mid, hi, eq) = body-cut_tail lock l m e in
      let p : l.owner ≡ m.owner = rw eq in
      let table : IsTable (m ∷ ls) = rw eq (
        omega arith,
        omega arith,
        t.2,
        After-move l.owner l.end l.owner (lock.start - 1) ls t.3 (ground arith) (omega arith),
        t.4,
      ) in
      restart-Outcome lock lock (l ∷ ls) (m ∷ ls) (keep m w)
        (keep-Outcome lock m ls w table (rw eq (λ _. omega arith)) r)
        (λ o ty b. rw eq (ground (arith))) (λ o k h g. ((rw eq h.0, h.1), g))

  -- The part of `l` behind the range stays, behind the new lock.
  cut_head-Outcome :
      (m : Lock) → body lock l ≡ cut_head m → Outcome lock (l ∷ ls) (done (place lock (m ∷ ls)))
  unfolding holds
  cut_head-Outcome m e =
      let (own, lo, mid, hi, eq) = body-cut_head lock l m e in
      let table : IsTable (m ∷ ls) = rw eq (omega arith, t.1, t.2, t.3, t.4) in
      let behind : After lock.owner lock.end (m ∷ ls) = rw eq (
        (λ _. omega arith),
        After-move l.owner l.end lock.owner lock.end ls t.3 own (omega arith),
      ) in
      restart-Outcome lock lock (l ∷ ls) (m ∷ ls) _ (place-Outcome lock (m ∷ ls) range table behind)
        (λ o ty b. rw eq (ground (arith, holds_clear l.owner l.end ls t.3 o ty b)))
        (λ o k h g. (((rw eq (λ q. ground (arith, h.0, g))), h.1), g))

  -- Both ends of `l` stay, with the new lock between them.
  split-Outcome :
      (m r : Lock)
      → body lock l ≡ split m r
      → Outcome lock (l ∷ ls) (keep m (done (place lock (r ∷ ls))))
  unfolding holds
  split-Outcome m r e =
      let (own, kind, lo, hi, eqm, eqr) = body-split lock l m r e in
      let rest : IsTable (r ∷ ls) = rw eqr (omega arith, t.1, t.2, t.3, t.4) in
      let behind : After lock.owner lock.end (r ∷ ls) = rw eqr (
        (λ _. omega arith),
        After-move l.owner l.end lock.owner lock.end ls t.3 own (omega arith),
      ) in
      let table : IsTable (m ∷ r ∷ ls) =
        rw (eqm, eqr)
          (
            omega arith,
            omega arith,
            t.2,
            (
              (λ _. omega arith),
              After-move l.owner l.end m.owner m.end ls t.3 (rw eqm (ground arith))
                  (rw eqm (omega arith)),
            ),
            (omega arith, t.1, t.2, t.3, t.4),
          ) in
      restart-Outcome lock lock (l ∷ ls) (m ∷ r ∷ ls) _
        (keep-Outcome lock m (r ∷ ls) _ table (rw eqm (λ _. omega arith))
          (place-Outcome lock (r ∷ ls) range rest behind))
        (λ o ty b.
          rw (eqm, eqr)
            (split_reads lock l o ty b (holds o ty b ls) range.0 own lo hi
              (holds_clear l.owner l.end ls t.3 o ty b)))
        (λ o k h g. ((rw eqm h.0, ((rw eqr (λ q. ground (arith, h.0))), h.1)), g))

-- One round of the loop, given what the rest of the run does.
step-Outcome :
    (fuel : ℕ) (spare : Bool) (lock l : Lock) (ls : List Lock)
    → (spare ≡ true) ⊎ (lock.start ≡ 0)
    → IsRange lock
    → IsTable (l ∷ ls)
    → ((k : Lock)
        → (spare ≡ true) ⊎ (k.start ≡ 0)
        → IsRange k
        → Outcome k ls (insert_loop (suc fuel) spare k ls))
    → (a : Action) → body lock l ≡ a
    → Outcome lock (l ∷ ls) (insert_loop (suc (suc fuel)) spare lock (l ∷ ls))
unfolding insert_loop
step-Outcome fuel spare lock l ls ready range t ih skip e =
    rw (e, insert_loop)
      (keep-Outcome lock l ls _ t (λ q. body-skip lock l e (ground arith)) (ih lock ready range))
step-Outcome fuel spare lock l ls ready range t ih stop e =
    rw (e, insert_loop) (stop-Outcome lock l ls range t e)
step-Outcome fuel spare lock l ls ready range t ih covered e =
    rw (e, insert_loop) (covered-Outcome lock l ls range t e)
step-Outcome fuel spare lock l ls ready range t ih (merge m) e =
    rw (e, insert_loop)
      (merge-Outcome lock l ls range t m _ e
        (ih m (ground (arith, body-merge lock l m e)) (merge-IsRange lock l ls range t m e)))
step-Outcome fuel spare lock l ls ready range t ih discard e =
    rw (e, insert_loop) (discard-Outcome lock l ls range t _ e (ih lock ready range))
step-Outcome fuel spare lock l ls ready range t ih (cut_tail m) e =
    rw (e, insert_loop) (cut_tail-Outcome lock l ls range t m _ e (ih lock ready range))
step-Outcome fuel spare lock l ls ready range t ih (cut_head m) e =
    rw (e, insert_loop) (cut_head-Outcome lock l ls range t m e)
step-Outcome fuel spare lock l ls ready range t ih (split m r) e =
    let (own, kind, lo, hi, eqm, eqr) = body-split lock l m r e in
    let have : spare ≡ true = ground arith in
    let next : body lock r ≡ stop =
      body_beyond lock r (rw eqr own) (rw eqr kind) range.0 (rw eqr (omega arith))
        (rw eqr (omega arith)) in
    rw (e, insert_loop) (rw have (rw (next, insert_loop) (split-Outcome lock l ls range t m r e)))

-- The loop ends without a fault, with the fuel of `locks_insert`.
pub insert_loop-Outcome :
    (fuel : ℕ) (spare : Bool) (lock : Lock) (ls : List Lock)
    → length ls + 1 < fuel
    → (spare ≡ true) ⊎ (lock.start ≡ 0)
    → IsRange lock
    → IsTable ls
    → Outcome lock ls (insert_loop fuel spare lock ls)
unfolding insert_loop
insert_loop-Outcome zero spare lock ls f ready range t = absurd (omega arith)
insert_loop-Outcome (suc zero) spare lock ls f ready range t = absurd (omega arith)
insert_loop-Outcome (suc (suc fuel)) spare lock [] f ready range t =
    place-Outcome lock [] range tt tt
insert_loop-Outcome (suc (suc fuel)) spare lock (l ∷ ls) f ready range t =
    step-Outcome fuel spare lock l ls ready range t
      (λ k q g. insert_loop-Outcome (suc fuel) spare k ls (omega arith) q g t.4) (body lock l) refl
