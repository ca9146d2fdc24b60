-- ===== src/Cache/Include.antt =====
-- lib/cache.c: taking objects that the kernel reported into a cache. A change callback is a record of
-- the calls that it gets; `oo_update` and `co_msg_parser` are functions of the object types.
use libnl.Prelude.{
  ℕ, Bool, true, false, Option, none, some, List, [], ◌∷◌, ◌++◌, ◌==◌, if◌then◌else◌,
}
use libnl.Errno.{obj_mismatch, msgtype_nosupport, Outcome, success, error}
use libnl.Object.{Object, ObjectOps, nl_object_diff64}
use libnl.Object.Refs.{Ptr, update}
use libnl.Cache.Heap.{
  Act, act_new, act_del, act_change, Event, World, M, pure, ◌>>=◌, ◌>>◌, modify, put, put_any,
}
use libnl.Cache.{nl_object_clone, nl_cache_move, nl_cache_remove}
use libnl.Cache.Scan.{nl_cache_search}

-- change_func_t, change_func_v2_t, or none of them.
pub data Change : Type 0 where
  no_cb cb cb_v2 : Change

abbrev pub wants_v2 : Change → Bool
wants_v2 cb_v2 = true
wants_v2 _ = false

abbrev pub wants_any : Change → Bool
wants_any no_cb = false
wants_any _ = true

-- A call of the callback, if there is one.
abbrev pub emit : {D : Type 0} → Event → M D (Unit {0})
emit e = modify λ w. record w { events = w.events ++ e ∷ [] }

-- The callback gets one object, the v2 callback the old and the new one and the difference.
abbrev pub report : {D : Type 0} → Change → Ptr → Option Ptr → Option Ptr → ℕ → Act → M D (Unit {0})
report no_cb p old new diff act = pure tt
report cb p old new diff act =
    emit (record { on_old = none; on_new = some p; on_diff = 0; on_act = act })
report cb_v2 p old new diff act =
    emit (record { on_old = old; on_new = new; on_diff = diff; on_act = act })

module _ {D : Type 0} (ops : ℕ → ObjectOps D)
    (oo_update : ℕ → Option (Object D → Object D → Option (Object D))) where
  -- `none` of the type's function is an error, which leaves the object as it was.
  unfoldable pub nl_object_update : Ptr → Ptr → World D → Bool × World D
  nl_object_update dst src w = elim (oo_update (w.heap dst).ce_ops) [
    | none ↦ (false, w)
    | some f ↦ elim (f (w.heap dst) (w.heap src)) [
      | none ↦ (false, w)
      | some new ↦ (true, record w { heap = update w.heap dst new })
    ]
  ]

  -- The copy of the old object for the v2 callback, and the difference, before it is updated.
  unfoldable pub snapshot : Change → Ptr → Ptr → M D (Option Ptr × ℕ)
  unfolding nl_object_clone
  snapshot change old obj w = elim (oo_update (w.heap old).ce_ops) [
    | none ↦ some ((none, 0), w)
    | some _ ↦
        if wants_v2 change
        then (nl_object_clone old >>= λ clone.
              pure (some clone, nl_object_diff64 ops (w.heap old) (w.heap obj)))
            w
        else some ((none, 0), w)
  ]

  -- The object in the cache took over what the new one says.
  abbrev pub merged : Change → Ptr → Ptr → Option Ptr → ℕ → M D (Unit {0})
  merged change old obj clone diff = do
    report change old clone (some obj) diff act_change
    put_any clone
    put old

  -- NL_ACT_NEW with no identical object in the cache, or after the identical one was removed.
  abbrev replaced : Change → ℕ → Ptr → Option Ptr → M D (Unit {0})
  replaced change c obj none = do
    _ ← nl_cache_move ops c obj
    report change obj none (some obj) 0 act_new
  replaced change c obj (some old) = do
    _ ← nl_cache_move ops c obj
    λ w.
        (let diff =
            if wants_any change then nl_object_diff64 ops (w.heap old) (w.heap obj) else 0 in
          if diff == 0
          then put old w
          else (report change obj (some old) (some obj) diff act_change >> put old) w)

  -- NL_ACT_DEL
  abbrev deleted : Change → Ptr → M D (Unit {0})
  deleted change old = do report change old (some old) none 0 act_del; put old

  abbrev taken_out : Change → Bool → ℕ → Ptr → Ptr → M D (Unit {0})
  taken_out change is_new c obj old = do
    nl_cache_remove ops old
    if is_new then replaced change c obj (some old) else deleted change old

  -- The switch of cache_include for NL_ACT_NEW and NL_ACT_DEL.
  abbrev pub included : Change → Bool → ℕ → Ptr → Option Ptr → M D (Unit {0})
  included change is_new c obj none = if is_new then replaced change c obj none else pure tt
  included change is_new c obj (some old) = do
    (clone, diff) ← snapshot change old obj
    λ w.
        (let (ok, w') = nl_object_update old obj w in
          if ok
          then merged change old obj clone diff w'
          else (put_any clone >> taken_out change is_new c obj old) w')

  unfoldable pub cache_include : ℕ → Ptr → Act → Change → M D Outcome
  unfolding nl_object_update snapshot
  cache_include c obj act_new change = do
    old ← nl_cache_search ops c obj
    included change true c obj old
    pure success
  cache_include c obj act_del change = do
    old ← nl_cache_search ops c obj
    included change false c obj old
    pure success
  cache_include c obj act change = pure success

  -- The loop over `co_msgtypes`.
  unfoldable pub action_of : List (ℕ × Act) → ℕ → Option Act
  action_of [] msgtype = none
  action_of ((mt_id, mt_act) ∷ l) msgtype =
      if mt_id == msgtype then some mt_act else action_of l msgtype

  unfoldable pub nl_cache_include : ℕ → Ptr → Change → M D Outcome
  unfolding cache_include action_of
  nl_cache_include c obj change w =
      let co = (w.caches c).c_ops in
      if co.co_obj_ops == (w.heap obj).ce_ops
      then elim (action_of co.co_msgtypes (w.heap obj).ce_msgtype) [
        | none ↦ some (error msgtype_nosupport, w)
        | some act ↦ cache_include c obj act change w
      ]
      else some (error obj_mismatch, w)
