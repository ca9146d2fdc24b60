-- ===== src/Handlers/Fill.antt =====
-- Setting all callbacks of a handle at once.
use libnl.Prelude.{
  Bool, some, ◌⊎◌, ◌<◌, subst, none, inl, inr, ◌∙◌, sym, true, false, Bool-cases, ℕ, zero, suc, ◌+◌,
  ◌≤◌, ◌≡◌, refl, ap, ◌&&◌, Option, ltb, leb, ◌==◌, if◌then◌else◌, arith,
}
use libnl.Errno.{range, error, Outcome, success}
use libnl.Handlers.{
  blank, pos, cb_err_def, nl_cb_custom, nl_cb_err, nl_cb_alloc, default_from, Handler, NlCb,
  handler, set_from, nl_cb_set,
}

-- The callbacks of the n types from i on are those of the kind, with the argument; the rest is as
-- before.
pub record Filled (cb cb' : NlCb) (i n kind : ℕ) (func : Option Handler) (arg : ℕ) : Type 0 where
  pub handlers :
      (j : ℕ)
      → cb'.cb_set j ≡ (if leb i j && ltb j (i + n) then handler j kind func else cb.cb_set j)
  pub args : (j : ℕ) → cb'.cb_args j ≡ (if leb i j && ltb j (i + n) then arg else cb.cb_args j)
  pub same_err : cb'.cb_err ≡ cb.cb_err
  pub same_err_arg : cb'.cb_err_arg ≡ cb.cb_err_arg
  pub same_refcnt : cb'.cb_refcnt ≡ cb.cb_refcnt
  pub same_active : cb'.cb_active ≡ cb.cb_active

in_range :
    (i j n : ℕ)
    → (i == j) ≡ false
    → (leb (suc i) j && ltb j (suc i + n)) ≡ (leb i j && ltb j (i + suc n))
in_range i j n other = ground arith

at_start : (i j n : ℕ) → (i == j) ≡ true → (leb i j && ltb j (i + suc n)) ≡ true
at_start i j n same = ground arith

before : (i j n : ℕ) → (i == j) ≡ true → (leb (suc i) j && ltb j (suc i + n)) ≡ false
before i j n same = ground arith

-- What the first of the types and the rest get, in one test.
choice :
    {A : Type 0} (i j n : ℕ) (a b old : A)
    → (i ≡ j → a ≡ b)
    → (if leb (suc i) j && ltb j (suc i + n) then b else if i == j then a else old)
      ≡ (if leb i j && ltb j (i + suc n) then b else old)
choice i j n a b old e = elim (Bool-cases (i == j)) [
  | inl same ↦ ground (arith, at_start i j n same, before i j n same, same, e (ground arith))
  | inr other ↦ ground (arith, in_range i j n other, other)
]

-- One callback set, and the rest behind it.
module _ (kind : ℕ) (func : Option Handler) (arg : ℕ) where
  abbrev one : ℕ → NlCb → NlCb
  one i cb = record cb {
    cb_set = λ j. if i == j then handler i kind func else cb.cb_set j;
    cb_args = λ j. if i == j then arg else cb.cb_args j;
  }

  Filled-none : (cb : NlCb) (i : ℕ) → Filled cb cb i 0 kind func arg
  Filled-none cb i = record {
    handlers = λ j. ground arith;
    args = λ j. ground arith;
    same_err = refl;
    same_err_arg = refl;
    same_refcnt = refl;
    same_active = refl;
  }

  Filled-one :
      (cb cb' : NlCb) (i n : ℕ)
      → Filled (one i cb) cb' (suc i) n kind func arg
      → Filled cb cb' i (suc n) kind func arg
  Filled-one cb cb' i n f = record {
    handlers = λ j.
        f.handlers j
        ∙ choice i j n (handler i kind func) (handler j kind func) (cb.cb_set j)
            (ap (λ x. handler x kind func));
    args = λ j. f.args j ∙ choice i j n arg arg (cb.cb_args j) (λ e. refl);
    same_err = f.same_err;
    same_err_arg = f.same_err_arg;
    same_refcnt = f.same_refcnt;
    same_active = f.same_active;
  }

  set_one :
      (cb : NlCb) (i : ℕ) → kind ≤ 3 → i ≤ 10 → nl_cb_set cb i kind func arg ≡ (success, one i cb)
  unfolding nl_cb_set
  set_one cb i k h = ground arith

  pub set_from-Filled :
      (n i : ℕ) (cb : NlCb)
      → kind ≤ 3
      → i + n ≤ 11
      → (cb' : NlCb) × (set_from n i kind func arg cb ≡ (success, cb'))
        × Filled cb cb' i n kind func arg
  unfolding set_from
  set_from-Filled zero i cb k h = (cb, refl, Filled-none cb i)
  set_from-Filled (suc n) i cb k h =
      let (cb', run, f) = set_from-Filled n (suc i) (one i cb) k (omega arith) in
      let here = set_one cb i k (omega arith) in
      (
        cb',
        ap
              (λ (r : Outcome × NlCb). elim r.0 [
                | success ↦ set_from n (suc i) kind func arg r.1
                | e ↦ (e, r.1)
              ])
              here
            ∙ run,
        Filled-one cb cb' i n f,
      )

default_from-Filled :
    (kind n i : ℕ) (cb : NlCb)
    → kind ≤ 3
    → i + n ≤ 11
    → Filled cb (default_from n i kind cb) i n kind none 0
unfolding default_from
default_from-Filled kind zero i cb k h = Filled-none kind none 0 cb i
default_from-Filled kind (suc n) i cb k h =
    let here = ap (λ r. r.1) (set_one kind none 0 cb i k (omega arith)) in
    subst (λ x. Filled cb (default_from n (suc i) kind x) i (suc n) kind none 0) (sym here)
      (Filled-one kind none 0 cb (default_from n (suc i) kind (one kind none 0 i cb)) i n
        (default_from-Filled kind n (suc i) (one kind none 0 i cb) k (omega arith)))

pub all_types :
    {A : Type 0} (j : ℕ) (a b : A)
    → (if leb 0 j && ltb j (0 + 11) then a else b) ≡ (if ltb j 11 then a else b)
all_types j a b = ground arith

abbrev with_err : ℕ → NlCb → NlCb
with_err kind cb = record cb {
  cb_err = if kind == nl_cb_custom then none else cb_err_def kind;
  cb_err_arg = 0;
}

nl_cb_err-with_err :
    (kind : ℕ) (cb : NlCb)
    → ltb 3 kind ≡ false
    → nl_cb_err cb kind none 0 ≡ (success, with_err kind cb)
unfolding nl_cb_err
nl_cb_err-with_err kind cb valid =
    ap
      (λ (b : Bool).
        let r : Outcome × NlCb = if b then (error range, cb) else (success, with_err kind cb) in r)
      valid

same_either : {A : Type 0} (b : Bool) (a : A) → (if b then a else a) ≡ a
same_either true a = refl
same_either false a = refl

-- nl_cb_alloc of a kind that does not exist returns NULL. Otherwise the new handle has the defaults of
-- the kind for every type of message and for errors, which are none for NL_CB_CUSTOM, with the
-- argument NULL, one reference and no active callback.
pub nl_cb_alloc_lem :
    (kind : ℕ)
    → ((3 < kind) × (nl_cb_alloc kind ≡ none))
      ⊎ ((kind ≤ 3)
          × ((cb : NlCb) × (nl_cb_alloc kind ≡ some cb)
              × ((j : ℕ) → cb.cb_set j ≡ (if ltb j 11 then handler j kind none else none))
              × ((j : ℕ) → cb.cb_args j ≡ 0)
              × (cb.cb_err ≡ (if kind == nl_cb_custom then none else cb_err_def kind))
              × (cb.cb_refcnt ≡ pos 1)
              × (cb.cb_active ≡ 11)))
unfolding nl_cb_alloc
nl_cb_alloc_lem kind = elim (Bool-cases (ltb 3 kind)) [
  | inl over ↦ inl (
    ground arith,
    ap (λ b. if b then none else some (nl_cb_err (default_from 11 0 kind blank) kind none 0).1)
        over,
  )
  | inr valid ↦
      let made = default_from 11 0 kind blank in
      let f = default_from-Filled kind 11 0 blank (ground arith) (omega arith) in
      inr (
        ground arith,
        (
          with_err kind made,
          ap (λ b. if b then none else some (nl_cb_err made kind none 0).1) valid
              ∙ ap (λ r. some r.1) (nl_cb_err-with_err kind made valid),
          λ j. f.handlers j ∙ all_types j (handler j kind none) none,
          λ j. f.args j ∙ same_either (leb 0 j && ltb j (0 + 11)) 0,
          refl,
          f.same_refcnt,
          f.same_active,
        ),
      )
]
