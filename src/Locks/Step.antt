-- ===== src/Locks/Step.antt =====
-- What each way out of the loop body of `locks_insert` says of the two ranges.
use fuse_nt.Prelude.{◌+◌, ◌-◌, ◌≤◌, ◌<◌, ◌≡◌, true, false, ltb, ◌==◌, if◌then◌else◌, arith}
use fuse_nt.Locks.{
  same_type, Lock, skip, stop, covered, merge, discard, cut_tail, cut_head, split, body,
}

module _ (lock l : Lock) where
  pub body-skip : body lock l ≡ skip → (l.owner == lock.owner) ≡ true → l.end < lock.start
  unfolding body
  body-skip e o = ground arith

  pub body-stop : body lock l ≡ stop → ((l.owner == lock.owner) ≡ true) × (lock.end < l.start)
  unfolding body
  body-stop e = ground arith

  pub body-covered :
      body lock l ≡ covered
      → ((l.owner == lock.owner) ≡ true)
        × (same_type lock.type l.type ≡ true)
        × (l.start ≤ lock.start)
        × (lock.end ≤ l.end)
  unfolding body
  body-covered e = ground arith

  pub body-merge :
      (m : Lock)
      → body lock l ≡ merge m
      → ((l.owner == lock.owner) ≡ true)
        × (same_type lock.type l.type ≡ true)
        × (m.owner ≡ lock.owner)
        × (m.type ≡ lock.type)
        × (lock.start ≤ l.end + 1)
        × (l.start ≤ lock.end + 1)
        × (m.start ≡ (if ltb l.start lock.start then l.start else lock.start))
        × (m.end ≡ (if ltb lock.end l.end then l.end else lock.end))
  unfolding body
  body-merge m e = ground arith

  pub body-discard :
      body lock l ≡ discard
      → ((l.owner == lock.owner) ≡ true) × (lock.start ≤ l.start) × (l.end ≤ lock.end)
  unfolding body
  body-discard e = ground arith

  -- the part of `l` in front of the lock
  pub body-cut_tail :
      (m : Lock)
      → body lock l ≡ cut_tail m
      → ((l.owner == lock.owner) ≡ true)
        × (l.start < lock.start)
        × (lock.start ≤ l.end)
        × (l.end ≤ lock.end)
        × (m ≡ record l { end = lock.start - 1 })
  unfolding body
  body-cut_tail m e = ground arith

  -- the part of `l` behind the lock
  pub body-cut_head :
      (m : Lock)
      → body lock l ≡ cut_head m
      → ((l.owner == lock.owner) ≡ true)
        × (lock.start ≤ l.start)
        × (l.start ≤ lock.end)
        × (lock.end < l.end)
        × (m ≡ record l { start = lock.end + 1 })
  unfolding body
  body-cut_head m e = ground arith

  pub body-split :
      (m r : Lock)
      → body lock l ≡ split m r
      → ((l.owner == lock.owner) ≡ true)
        × (same_type lock.type l.type ≡ false)
        × (l.start < lock.start)
        × (lock.end < l.end)
        × (m ≡ record l { end = lock.start - 1 })
        × (r ≡ record l { start = lock.end + 1 })
  unfolding body
  body-split m r e = ground arith

module _ (lock : Lock) where
  -- the element that a split adds ends the loop
  pub body_beyond :
      (r : Lock)
      → (r.owner == lock.owner) ≡ true
      → same_type lock.type r.type ≡ false
      → lock.start ≤ lock.end
      → lock.end < r.start
      → r.start ≤ r.end
      → body lock r ≡ stop
  unfolding body
  body_beyond r o k a b c = ground arith
