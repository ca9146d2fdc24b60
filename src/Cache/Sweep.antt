-- ===== src/Cache/Sweep.antt =====
-- The end of nl_cache_resync, which deletes what was not seen again, on a well-formed memory.
use libnl.Prelude.{
  append-nil, ℕ, ◌+◌, ◌≡◌, refl, sym, ap, ◌∙◌, true, false, Option, none, some, List, [], ◌∷◌, ◌++◌,
  ◌==◌, ==_refl, Bool-cases, inl, inr, arith,
}
use libnl.Prelude.Int.{pos}
use libnl.Object.{ObjectOps}
use libnl.Object.Refs.{Refs, Ptr, nl_object_get, nl_object_put}
use libnl.Hashtable.Objects.{object_keys}
use libnl.Hashtable.Lookup.{IsHash}
use libnl.Cache.Heap.{Event, act_del, World, put, ◌>>◌}
use libnl.Cache.{erase}
use libnl.Cache.Include.{Change, no_cb, cb, cb_v2, report}
use libnl.Cache.Pickup.{obsolete}
use libnl.Cache.Valid.{has, held_by, IsWorld}
use libnl.Cache.Remove.{ran-success, put_fine, put_count, put_in_cache, put_live}
use libnl.Cache.Touch.{Touches, Touches-IsWorld}
use libnl.Cache.Clear.{nl_cache_remove_first}

-- What the callback is told of an object that is deleted.
abbrev pub told : Change → Ptr → List Event
told no_cb p = []
told cb p = record { on_old = none; on_new = some p; on_diff = 0; on_act = act_del } ∷ []
told cb_v2 p = record { on_old = some p; on_new = none; on_diff = 0; on_act = act_del } ∷ []

pub get_count :
    (r : Refs) (p : Ptr) (n m : ℕ)
    → r.ce_refcnt p ≡ pos (n + m)
    → (nl_object_get r p).ce_refcnt p ≡ pos (n + 1 + m)
unfolding nl_object_get
get_count r p n m e = ground (arith, ==_refl p)

module _ {D : Type 0} where
  abbrev reported : Change → Ptr → World D → World D
  reported change p w = record w { events = w.events ++ told change p }

  report_lem :
      (change : Change) (p : Ptr) (w : World D)
      → report change p (some p) none 0 act_del w ≡ some (tt, reported change p w)
  report_lem no_cb p w = ap (λ x. some (tt, record w { events = x })) (sym (append-nil w.events))
  report_lem cb p w = refl
  report_lem cb_v2 p w = refl

  -- The memory with a reference taken, and after the report with the reference given back.
  abbrev taken : Ptr → World D → World D
  taken p w = record w { refs = nl_object_get w.refs p }

  abbrev given : Change → Ptr → World D → World D
  given change p w = record (reported change p w) { refs = (nl_object_put w.refs p).1 }

  pub taken-Touches : (p : Ptr) (w : World D) → Touches w (taken p w)
  unfolding nl_object_get
  taken-Touches p w = record {
    same_caches = λ d. refl;
    inside = λ q. refl;
    owners = λ q h. refl;
    links = λ q. refl;
    objects = refl;
    counts = λ q n h count. elim (Bool-cases (p == q)) [
      | inl same ↦ (n + 1, ground (arith, count, ap w.refs.ce_refcnt {x = p} {y = q}))
      | inr other ↦ (n, ground (arith, count))
    ];
    lives = λ q h. refl;
  }

  given-Touches :
      (change : Change) (p : Ptr) (w : World D)
      → w.refs.in_cache p ≡ false
      → Touches w (given change p w)
  given-Touches change p w out = record {
    same_caches = λ d. refl;
    inside = λ q. put_in_cache w.refs p q;
    owners = λ q h. refl;
    links = λ q. refl;
    objects = refl;
    counts = λ q n h count.
        (n, ground (arith, put_count w.refs p q, ap w.refs.in_cache {x = p} {y = q}));
    lives = λ q h. put_live w.refs p q (ground (arith, ap w.refs.in_cache {x = p} {y = q}));
  }

-- The memory w' is w without the object p of the cache c, with the report of its deletion.
pub record Swept {D : Type 0} (ops : ℕ → ObjectOps D) (change : Change) (c : ℕ) (p : Ptr)
    (w w' : World D) : Type 0 where
  pub valid : IsWorld ops w'
  pub items : (w'.caches c).c_items ≡ erase p (w.caches c).c_items
  pub others : (d : ℕ) → (c == d) ≡ false → w'.caches d ≡ w.caches d
  pub marks : w'.marked ≡ w.marked
  pub objects : w'.heap ≡ w.heap
  pub events : w'.events ≡ w.events ++ told change p

module _ {D : Type 0} {ops : ℕ → ObjectOps D} {w : World D} (v : IsWorld ops w)
    (laws : IsHash (object_keys ops w.heap)) (change : Change) (c : ℕ) (p : Ptr)
    (there : has p (w.caches c).c_items ≡ true) where
  pub obsolete_lem :
      (w' : World D) × (obsolete ops change p w ≡ some (tt, w')) × Swept ops change c p w w'
  obsolete_lem =
      let v1 = Touches-IsWorld (taken-Touches p w) v in
      let (w1, run, v2, l) = nl_cache_remove_first v1 laws c p there in
      let (n, count) = (v c).held p there in
      let count1 : w1.refs.ce_refcnt p ≡ pos (n + 1) =
        (l.gives_back (n + 1) (get_count w.refs p n (held_by (w.caches c).hashtable) count)).0 in
      let out : w1.refs.in_cache p ≡ false = l.outside p ∙ ground (arith, ==_refl p) in
      (
        given change p w1,
        ap
              (λ (x : Option (Unit {0} × World D)).
                ((λ (_ : World D). x) >> (report change p (some p) none 0 act_del >> put p)) w)
              run
            ∙ ap (λ (x : Option (Unit {0} × World D)). ((λ (_ : World D). x) >> put p) w)
                (report_lem change p w1)
            ∙ ran-success (reported change p w1) (nl_object_put w1.refs p)
                (put_fine w1.refs p n count1 out),
        record {
          valid = Touches-IsWorld (given-Touches change p w1 out) v2;
          items = l.items;
          others = l.others;
          marks = l.marks;
          objects = l.objects;
          events = ap (λ e. e ++ told change p) l.reports;
        },
      )
