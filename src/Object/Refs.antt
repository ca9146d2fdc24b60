-- ===== src/Object/Refs.antt =====
-- lib/object.c: the reference counts of objects. An object is referred to by a number.
use libnl.Prelude.{ℕ, ◌≡◌, ◌≢◌, Bool, true, false, ◌==◌, if◌then◌else◌, arith}
use libnl.Prelude.Int.{ℤ, pos, plus, minus, is_neg, is_nonpos}
use libnl.Errno.{Outcome, success, bug}

abbrev pub Ptr : Type 0
Ptr = ℕ

abbrev pub update {ℓ} : {A : Type ℓ} → (Ptr → A) → Ptr → A → Ptr → A
update f p v q = if p == q then v else f q

-- `ce_refcnt`, whether `ce_cache` is set, and whether the memory is not yet freed.
pub record Refs : Type 0 where
  pub ce_refcnt : Ptr → ℤ
  pub in_cache : Ptr → Bool
  pub live : Ptr → Bool

unfoldable pub nl_object_get : Refs → Ptr → Refs
nl_object_get r p = record r { ce_refcnt = update r.ce_refcnt p (plus (r.ce_refcnt p) 1) }

-- At 0 nl_object_free takes the object out of its cache first, which puts it once more: BUG().
unfoldable pub nl_object_put : Refs → Ptr → Outcome × Refs
nl_object_put r p =
    let count = minus (r.ce_refcnt p) 1 in
    let r' = record r { ce_refcnt = update r.ce_refcnt p count } in
    if is_neg count
    then (bug, r')
    else if is_nonpos count
    then if r.in_cache p then (bug, r') else (success, record r' { live = update r.live p false })
    else (success, r')

unfoldable pub nl_object_shared : Refs → Ptr → Bool
nl_object_shared r p = if is_nonpos (minus (r.ce_refcnt p) 1) then false else true

-- A reference that is taken and given back leaves every count, every cache link and every object as
-- it was, if the object was referred to before.
pub put-get :
    (r : Refs) (p q : Ptr) (n : ℕ)
    → r.ce_refcnt p ≡ pos n
    → n ≢ 0
    → let (o, r') = nl_object_put (nl_object_get r p) p in
      (o ≡ success)
      × (r'.ce_refcnt q ≡ r.ce_refcnt q)
      × (r'.in_cache q ≡ r.in_cache q)
      × (r'.live q ≡ r.live q)
unfolding nl_object_put nl_object_get
put-get r p q n e h = ground arith
