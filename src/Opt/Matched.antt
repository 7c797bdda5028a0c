-- ===== src/Opt/Matched.antt =====
-- What a match of `match_template` of fuse-2.8.5/lib/fuse_opt.c says of the template and the
-- argument.
use fuse_nt.Prelude.{
  ℕ, suc, ◌+◌, ◌≡◌, refl, sym, ap, ◌∙◌, Bool, true, false, ◌&&◌, none, some, [], ◌∷◌, ◌++◌,
  append_assoc, leb, ◌==◌, if◌then◌else◌, take, drop, length, arith, Bool-cases, Option-cases, inl,
  inr, drop-append, take-append, take-append-drop, ==_iff,
}
use mathlib.Core.Option.{some-injective}
use mathlib.Core.Path.{subst}
use fuse_nt.Opt.Args.{Str}
use fuse_nt.Prelude.Strings.{str_eq, str_eq-eq}
use fuse_nt.Opt.Match.{
  equals, space, strchr, takes_parameter, is_equals, tlen_of, at_separator, whole, match_template,
}
use fuse_nt.Opt.Template.{Lacks, drop-append_add, take-append_add}

-- what may stand behind the separator of a template
pub data IsFormat : Str → Type 0 where
  no_format : IsFormat []
  format : (rest : Str) → IsFormat (b'%' ∷ rest)

-- How a template matches an argument, with the index that tells where the parameter begins: as a
-- whole; by the text up to its first '=', with that '='; or, where it has no '=', by the text
-- before its first space.
pub data Matched (t arg : Str) (sep : ℕ) : Type 0 where
  exact : arg ≡ t → sep ≡ 0 → Matched t arg sep
  assigned :
      (name tail param : Str)
      → t ≡ name ++ b'=' ∷ tail
      → Lacks b'=' name
      → IsFormat tail
      → arg ≡ name ++ b'=' ∷ param
      → sep ≡ length name
      → Matched t arg sep
  spaced :
      (name tail param : Str)
      → t ≡ name ++ b' ' ∷ tail
      → Lacks b'=' t
      → Lacks b' ' name
      → IsFormat tail
      → arg ≡ name ++ param
      → sep ≡ length name
      → Matched t arg sep

-- a string around its first `c`
record Split (c : ℕ) (t : Str) (i : ℕ) : Type 0 where
  name : Str
  tail : Str
  split : t ≡ name ++ c ∷ tail
  lacks : Lacks c name
  at : i ≡ length name

strchr-Split : (c : ℕ) (t : Str) (i : ℕ) → strchr c t ≡ some i → Split c t i
unfolding strchr
strchr-Split c [] i e = absurd (ground arith)
strchr-Split c (d ∷ ds) i e = elim (Bool-cases (d == c)) [
  | inl h ↦
      let z : 0 ≡ i = some-injective 0 i (rw h at e) in
      record {
        name = [];
        tail = ds;
        split = ap (λ x. x ∷ ds) ((==_iff d c).0 h);
        lacks = refl;
        at = sym z;
      }
  | inr h ↦ elim (Option-cases (strchr c ds)) [
    | inl n ↦ absurd (ground (arith, e, h, n))
    | inr (j, n) ↦
        let ih = strchr-Split c ds j n in
        let z : suc j ≡ i = some-injective (suc j) i (rw (h, n) at e) in
        record {
          name = d ∷ ih.name;
          tail = ih.tail;
          split = ap (λ x. d ∷ x) ih.split;
          lacks = rw (h, ih.lacks) refl;
          at = sym z ∙ ap (λ x. suc x) ih.at;
        }
  ]
]

takes_parameter-IsFormat : (s : Str) → takes_parameter s ≡ true → IsFormat s
takes_parameter-IsFormat [] e = no_format
takes_parameter-IsFormat (c ∷ cs) e =
    subst (λ x. IsFormat (x ∷ cs)) (sym ((==_iff c b'%').0 e)) (format cs)

and_parts : (a b : Bool) → (a && b) ≡ true → (a ≡ true) × (b ≡ true)
and_parts true b h = (refl, h)
and_parts false b h = absurd (ground arith)

-- the test at a separator
abbrev agrees : Str → Str → ℕ → Bool
agrees t arg sep =
    takes_parameter (drop (sep + 1) t)
    && (leb (tlen_of t sep) (length arg)
        && str_eq (take (tlen_of t sep) arg) (take (tlen_of t sep) t))

agrees-IsFormat :
    (name tail arg : Str) (c : ℕ)
    → agrees (name ++ c ∷ tail) arg (length name) ≡ true
    → IsFormat tail
agrees-IsFormat name tail arg c h =
    takes_parameter-IsFormat tail
      (ap takes_parameter (sym (drop-append_add name (c ∷ tail) 1)) ∙ (and_parts _ _ h).0)

agrees-text :
    (t arg : Str) (sep : ℕ)
    → agrees t arg sep ≡ true
    → take (tlen_of t sep) arg ≡ take (tlen_of t sep) t
agrees-text t arg sep h = str_eq-eq _ _ (and_parts _ _ (and_parts _ _ h).1).1

agrees-assigned :
    (name tail arg : Str)
    → agrees (name ++ equals ∷ tail) arg (length name) ≡ true
    → arg ≡ name ++ equals ∷ drop (length name + 1) arg
agrees-assigned name tail arg h =
    let t = name ++ equals ∷ tail in
    let k : tlen_of t (length name) ≡ length name + 1 =
      ap (λ x. if is_equals x then length name + 1 else length name)
        (drop-append name (equals ∷ tail)) in
    let e : take (length name + 1) arg ≡ name ++ equals ∷ [] =
      ap (λ n. take n arg) (sym k)
      ∙ (agrees-text t arg (length name) h
          ∙ (ap (λ n. take n t) k ∙ take-append_add name (equals ∷ tail) 1)) in
    sym (take-append-drop (length name + 1) arg)
    ∙ (ap (λ x. x ++ drop (length name + 1) arg) e
        ∙ append_assoc name (equals ∷ []) (drop (length name + 1) arg))

agrees-spaced :
    (name tail arg : Str)
    → agrees (name ++ space ∷ tail) arg (length name) ≡ true
    → arg ≡ name ++ drop (length name) arg
agrees-spaced name tail arg h =
    let t = name ++ space ∷ tail in
    let k : tlen_of t (length name) ≡ length name =
      ap (λ x. if is_equals x then length name + 1 else length name)
        (drop-append name (space ∷ tail)) in
    let e : take (length name) arg ≡ name =
      ap (λ n. take n arg) (sym k)
      ∙ (agrees-text t arg (length name) h
          ∙ (ap (λ n. take n t) k ∙ take-append name (space ∷ tail))) in
    sym (take-append-drop (length name) arg) ∙ ap (λ x. x ++ drop (length name) arg) e

agrees-moved :
    (t t' arg : Str) (i j : ℕ) → t ≡ t' → i ≡ j → agrees t arg i ≡ true → agrees t' arg j ≡ true
agrees-moved t t' arg i j e h a = sym (ap (λ x. agrees x arg i) e ∙ ap (λ k. agrees t' arg k) h) ∙ a

whole-Matched : (t arg : Str) (sep : ℕ) → whole t arg ≡ some sep → Matched t arg sep
whole-Matched t arg sep h = elim (Bool-cases (str_eq t arg)) [
  | inl q ↦ exact (sym (str_eq-eq t arg q)) (sym (some-injective 0 sep (rw q at h)))
  | inr q ↦ absurd (none-ne-some (rw q at h))
]
  where
    none-ne-some : none ≡ some sep → ⊥
    none-ne-some x = cc

found-Matched :
    (t arg : Str) (sep i : ℕ)
    → (agrees t arg i ≡ true → i ≡ sep → Matched t arg sep)
    → at_separator (some i) t arg ≡ some sep
    → Matched t arg sep
found-Matched t arg sep i k h = elim (Bool-cases (agrees t arg i)) [
  | inl a ↦ k a (some-injective i sep (rw a at h))
  | inr a ↦ whole-Matched t arg sep (rw a at h)
]

-- A match says that the argument is the template; or that the template is a name, a first '=' and
-- nothing or a format, and the argument the name, '=' and a parameter; or that the template has no
-- '=' and is a name, a first space and nothing or a format, and the argument the name and a
-- parameter. The index is 0 in the first case, else the length of the name.
pub match_template-Matched :
    (t arg : Str) (sep : ℕ) → match_template t arg ≡ some sep → Matched t arg sep
unfolding match_template
match_template-Matched t arg sep e = elim (Option-cases (strchr equals t)) [
  | inr (i, n) ↦
      let s = strchr-Split equals t i n in
      found-Matched t arg sep i
        (λ a z.
          let a' =
            agrees-moved t (s.name ++ equals ∷ s.tail) arg i (length s.name) s.split s.at a in
          assigned s.name s.tail (drop (length s.name + 1) arg) s.split s.lacks
            (agrees-IsFormat s.name s.tail arg equals a') (agrees-assigned s.name s.tail arg a')
            (sym z ∙ s.at))
        (rw n at e)
  | inl n ↦ elim (Option-cases (strchr space t)) [
    | inl m ↦ whole-Matched t arg sep (rw (n, m) at e)
    | inr (i, m) ↦
        let s = strchr-Split space t i m in
        found-Matched t arg sep i
          (λ a z.
            let a' =
              agrees-moved t (s.name ++ space ∷ s.tail) arg i (length s.name) s.split s.at a in
            spaced s.name s.tail (drop (length s.name) arg) s.split n s.lacks
              (agrees-IsFormat s.name s.tail arg space a') (agrees-spaced s.name s.tail arg a')
              (sym z ∙ s.at))
          (rw (n, m) at e)
  ]
]
