-- ===== src/Cache/Heap.antt =====
-- The memory that the caches share: the objects, with what a cache keeps in their headers, and the
-- caches, referred to by numbers. A function that stops the process by BUG() returns `none`.
use libnl.Prelude.{ℕ, Bool, true, false, Option, none, some, List}
use libnl.Prelude.Int.{ℤ}
use libnl.Errno.{Outcome, success}
use libnl.Object.{Object}
use libnl.Object.Refs.{Ptr, Refs, update, nl_object_get, nl_object_put}
use libnl.Hashtable.{HashTable}

-- enum nl_cache actions, NL_ACT_NEW, NL_ACT_DEL, NL_ACT_CHANGE and the others.
pub data Act : Type 0 where
  act_new act_del act_change act_other : Act

-- The fields of struct nl_cache_ops that are data. `co_obj_ops` is the number of the object type.
pub record CacheOps : Type 0 where
  pub co_obj_ops : ℕ
  pub co_hdrsize : ℕ
  pub co_protocol : ℤ
  pub co_hash_size : ℕ
  pub co_msgtypes : List (ℕ × Act)

pub record Cache : Type 0 where
  pub c_items : List Ptr
  pub c_nitems : ℤ
  pub c_refcnt : ℤ
  pub hashtable : Option HashTable
  pub c_ops : CacheOps

-- A call of a change callback: the objects that it is given, the difference and the action.
pub record Event : Type 0 where
  pub on_old : Option Ptr
  pub on_new : Option Ptr
  pub on_diff : ℕ
  pub on_act : Act

-- `ce_cache` of an object is `owner` where `in_cache` of the references says that it is not NULL. An
-- object is `linked` if nl_list_empty is false of its `ce_list`, which nl_list_del does not reset.
pub record World (D : Type 0) : Type 0 where
  pub refs : Refs
  pub owner : Ptr → ℕ
  pub linked : Ptr → Bool
  pub marked : Ptr → Bool
  pub heap : Ptr → Object D
  pub caches : ℕ → Cache
  pub next_ptr : Ptr
  pub next_cache : ℕ
  pub events : List Event

abbrev pub M : Type 0 → Type 0 → Type 0
M D A = World D → Option (A × World D)

abbrev pub pure : {D A : Type 0} → A → M D A
pure a w = some (a, w)

infixl 5 ◌>>=◌ ◌>>◌
abbrev pub ◌>>=◌ : {D A B : Type 0} → M D A → (A → M D B) → M D B
◌>>=◌ m f w = elim (m w) [ none ↦ none | some (a, w') ↦ f a w' ]

abbrev pub ◌>>◌ : {D B : Type 0} → M D (Unit {0}) → M D B → M D B
m >> k = m >>= λ _. k

abbrev pub modify : {D : Type 0} → (World D → World D) → M D (Unit {0})
modify f w = some (tt, f w)

abbrev pub update_cache : {D : Type 0} → ℕ → (Cache → Cache) → World D → World D
update_cache c f w = record w { caches = update w.caches c (f (w.caches c)) }

-- nl_object_get, and nl_object_put on an object or on NULL.
abbrev pub get : {D : Type 0} → Ptr → M D (Unit {0})
get p = modify (λ w. record w { refs = nl_object_get w.refs p })

abbrev pub ran : {D : Type 0} → World D → Outcome × Refs → Option (Unit {0} × World D)
ran w (success, r) = some (tt, record w { refs = r })
ran w (o, r) = none

abbrev pub put : {D : Type 0} → Ptr → M D (Unit {0})
put p w = ran w (nl_object_put w.refs p)

abbrev pub put_any : {D : Type 0} → Option Ptr → M D (Unit {0})
put_any none = pure tt
put_any (some p) = put p

-- `ce_cache = cache` and `ce_cache = NULL`.
abbrev pub attach : {D : Type 0} → Ptr → ℕ → M D (Unit {0})
attach p c = modify λ w. record w {
  refs = record (w.refs) { in_cache = update w.refs.in_cache p true };
  owner = update w.owner p c;
}

abbrev pub detach : {D : Type 0} → Ptr → M D (Unit {0})
detach p =
    modify λ w. record w { refs = record (w.refs) { in_cache = update w.refs.in_cache p false } }
