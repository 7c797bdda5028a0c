-- ===== src/Dir/Grow.antt =====
-- `extend_contents` of fuse-2.8.5/lib/fuse.c: the doubling of the buffer.
use fuse_nt.Prelude.{
  ℕ, zero, suc, ◌*◌, ◌≤◌, ◌<◌, ◌≡◌, true, false, some, ltb, leb, ◌==◌, if◌then◌else◌, arith, ◌∙◌,
  Bool-cases, inl, inr,
}
use fuse_nt.Prelude.Run.{ok, err}
use fuse_nt.Prelude.Memory.{Mem, next_alloc, has_failure, has_failure-later, has_failure-now}
use fuse_nt.Dir.{Dh, grow, extend_contents}

-- `n` doublings
abbrev doubled : ℕ → ℕ → ℕ
doubled zero s = s
doubled (suc n) s = doubled n (s * 2)

abbrev pub Grown : ℕ → ℕ → ℕ → Type 0
Grown fuel s minsize =
    (r : ℕ) × (grow fuel s minsize ≡ some r) × (minsize ≤ r) × (s ≤ r) × (r < 4294967296)

grow-fits : (fuel s minsize : ℕ) → ltb s minsize ≡ false → grow (suc fuel) s minsize ≡ some s
unfolding grow
grow-fits fuel s minsize e = rw e

grow-doubles :
    (fuel s minsize : ℕ)
    → ltb s minsize ≡ true
    → leb 2147483648 s ≡ false
    → grow (suc fuel) s minsize ≡ grow fuel (s * 2) minsize
unfolding grow
grow-doubles fuel s minsize e e' = rw (e, e')

grow-ends :
    (fuel s minsize : ℕ)
    → ltb s minsize ≡ true
    → leb 2147483648 s ≡ true
    → grow (suc fuel) s minsize ≡ grow fuel 4294967295 minsize
unfolding grow
grow-ends fuel s minsize e e' = rw (e, e')

-- one round, when the doubled size gets there
grow-Grown :
    (fuel s minsize : ℕ)
    → minsize < 4294967296
    → s < 4294967296
    → (leb 2147483648 s ≡ false → Grown (suc fuel) (s * 2) minsize)
    → Grown (suc (suc fuel)) s minsize
grow-Grown fuel s minsize hm hs again = elim (Bool-cases (ltb s minsize)) [
  | inr e ↦ (s, grow-fits (suc fuel) s minsize e, ground arith, omega arith, hs)
  | inl e ↦ elim (Bool-cases (leb 2147483648 s)) [
    | inl e' ↦ (
      4294967295,
      grow-ends (suc fuel) s minsize e e' ∙ grow-fits fuel 4294967295 minsize (ground arith),
      omega arith,
      omega arith,
      omega arith,
    )
    | inr e' ↦
        let (r, p, a, b, c) = again e' in
        (r, grow-doubles (suc fuel) s minsize e e' ∙ p, a, omega arith, c)
  ]
]

grow_enough :
    (n s minsize : ℕ)
    → minsize < 4294967296
    → s < 4294967296
    → 2147483648 ≤ doubled n s
    → Grown (suc (suc n)) s minsize
grow_enough zero s minsize hm hs h = grow-Grown 0 s minsize hm hs (λ e. absurd (ground arith))
grow_enough (suc n) s minsize hm hs h =
    grow-Grown (suc n) s minsize hm hs (λ e. grow_enough n (s * 2) minsize hm (ground arith) h)

-- from 1 on, 33 rounds suffice
pub grow-some : (s minsize : ℕ) → 1 ≤ s → s < 4294967296 → minsize < 4294967296 → Grown 33 s minsize
grow-some s minsize h hs hm = grow_enough 31 s minsize hm hs (omega arith)

-- the buffer that `extend_contents` leaves
pub data Extended (minsize : ℕ) (dh : Dh) (mem : Mem) : Type 0 where
  extended_to :
      (size : ℕ) (mem' : Mem)
      → extend_contents minsize (dh, mem) ≡ ok tt (record dh { size = size }, mem')
      → minsize ≤ size
      → dh.size ≤ size
      → size < 4294967296
      → (has_failure mem' ≡ true → has_failure mem ≡ true)
      → Extended minsize dh mem
  no_memory :
      (mem' : Mem)
      → extend_contents minsize (dh, mem) ≡ err (record dh { enomem = true }, mem')
      → has_failure mem ≡ true
      → Extended minsize dh mem

-- `extend_contents` ends, with a block of at least the size asked for, or without memory; the old
-- block never shrinks.
pub extend_contents-Extended :
    (minsize : ℕ) (dh : Dh) (mem : Mem)
    → minsize < 4294967296
    → dh.size < 4294967296
    → Extended minsize dh mem
unfolding extend_contents
extend_contents-Extended minsize dh mem hm hs = elim (Bool-cases (ltb dh.size minsize)) [
  | inr e ↦ extended_to dh.size mem (rw e) (ground arith) (omega arith) hs (λ x. x)
  | inl e ↦
      let s = if dh.size == 0 then 1024 else dh.size in
      let (r, p, a, b, c) = grow-some s minsize (ground arith) (ground arith) hm in
      elim (Bool-cases (next_alloc mem).0) [
        | inl e' ↦
            extended_to r (next_alloc mem).1 (rw (e, p, e')) a (ground arith) c
              (has_failure-later mem)
        | inr e' ↦ no_memory (next_alloc mem).1 (rw (e, p, e')) (has_failure-now mem e')
      ]
]
