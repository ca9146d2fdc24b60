-- ===== src/Cache/Resync.antt =====
-- The end of nl_cache_resync over all objects of the cache.
use libnl.Prelude.{
  ℕ, ◌≡◌, refl, sym, ap, subst, ◌∙◌, Bool, true, false, Option, some, List, [], ◌∷◌, ◌++◌,
  append-nil, append_assoc, ◌==◌, ==_refl, if◌then◌else◌, Bool-cases, inl, inr, arith,
}
use libnl.Object.{ObjectOps}
use libnl.Object.Refs.{Ptr}
use libnl.Hashtable.Objects.{object_keys}
use libnl.Hashtable.Lookup.{IsHash}
use libnl.Cache.Heap.{Event, World, ◌>>=◌}
use libnl.Cache.{erase}
use libnl.Cache.Include.{Change}
use libnl.Cache.Pickup.{obsolete, sweep}
use libnl.Cache.Valid.{has, Unique, IsWorld}
use libnl.Cache.Sweep.{told, obsolete_lem}

-- The objects of a list that are not marked, and the reports of the others.
abbrev pub unmarked : (Ptr → Bool) → List Ptr → List Ptr
unmarked marked [] = []
unmarked marked (p ∷ l) = if marked p then unmarked marked l else p ∷ unmarked marked l

abbrev pub deletions : Change → (Ptr → Bool) → List Ptr → List Event
deletions change marked [] = []
deletions change marked (p ∷ l) =
    if marked p then told change p ++ deletions change marked l else deletions change marked l

has_middle : (seen : List Ptr) (p : Ptr) (l : List Ptr) → has p (seen ++ p ∷ l) ≡ true
has_middle [] p l = ground (arith, ==_refl p)
has_middle (q ∷ seen) p l = ground (arith, has_middle seen p l)

erase_middle :
    (seen : List Ptr) (p : Ptr) (l : List Ptr)
    → Unique (seen ++ p ∷ l)
    → erase p (seen ++ p ∷ l) ≡ seen ++ l
erase_middle [] p l u = ground (arith, ==_refl p)
erase_middle (q ∷ seen) p l u = elim (Bool-cases (q == p)) [
  | inl same ↦
      let e : q ≡ p = ground arith in
      absurd (ground (arith, has_middle seen p l, u.1, ap (λ x. has x (seen ++ p ∷ l)) e))
  | inr other ↦ rw other (ap (λ x. q ∷ x) (erase_middle seen p l u.1))
]

-- What is left to do when the objects in `seen` were passed.
sweep_from :
    {D : Type 0} {ops : ℕ → ObjectOps D} (change : Change) (c : ℕ) (l seen : List Ptr) {w : World D}
    → IsWorld ops w
    → IsHash (object_keys ops w.heap)
    → (w.caches c).c_items ≡ seen ++ l
    → (w' : World D) × (sweep ops change l w ≡ some (tt, w'))
      × IsWorld ops w'
      × ((w'.caches c).c_items ≡ seen ++ unmarked w.marked l)
      × (w'.events ≡ w.events ++ deletions change w.marked l)
      × ((d : ℕ) → (c == d) ≡ false → w'.caches d ≡ w.caches d)
unfolding sweep
sweep_from change c [] seen {w = w} v laws e =
    (w, refl, v, e, sym (append-nil w.events), λ d other. refl)
sweep_from {ops = ops} change c (p ∷ l) seen {w = w} v laws e = elim (Bool-cases (w.marked p)) [
  | inl marked ↦
      let there = ap (has p) e ∙ has_middle seen p l in
      let (w1, run, s) = obsolete_lem v laws change c p there in
      let (w', runs, v', items, events, others) =
        sweep_from change c l seen s.valid
          (subst (λ h. IsHash (object_keys ops h)) (sym s.objects) laws)
          (s.items ∙ ap (erase p) e ∙ erase_middle seen p l (subst Unique e (v c).unique)) in
      (
        w',
        ap
              (λ (x : Option (Unit {0} × World _)).
                ((λ (_ : World _). x) >>= λ _. sweep ops change l) w)
              (ap (λ (b : Bool). if b then obsolete ops change p w else some (tt, w)) marked ∙ run)
            ∙ runs,
        v',
        items
            ∙ ap (λ m. seen ++ unmarked m l) s.marks
            ∙ ap
                (λ (b : Bool). seen ++ (if b then unmarked w.marked l else p ∷ unmarked w.marked l))
                (sym marked),
        events
            ∙ ap (λ x. x ++ deletions change w1.marked l) s.events
            ∙ ap (λ m. (w.events ++ told change p) ++ deletions change m l) s.marks
            ∙ append_assoc w.events (told change p) (deletions change w.marked l)
            ∙ ap
                (λ (b : Bool).
                  w.events
                  ++ (if b
                      then told change p ++ deletions change w.marked l
                      else deletions change w.marked l))
                (sym marked),
        λ d other. others d other ∙ s.others d other,
      )
  | inr clean ↦
      let (w', runs, v', items, events, others) =
        sweep_from change c l (seen ++ p ∷ []) v laws (e ∙ sym (append_assoc seen (p ∷ []) l)) in
      (
        w',
        ap
              (λ (x : Option (Unit {0} × World _)).
                ((λ (_ : World _). x) >>= λ _. sweep ops change l) w)
              (ap (λ (b : Bool). if b then obsolete ops change p w else some (tt, w)) clean)
            ∙ runs,
        v',
        items
            ∙ append_assoc seen (p ∷ []) (unmarked w.marked l)
            ∙ ap
                (λ (b : Bool). seen ++ (if b then unmarked w.marked l else p ∷ unmarked w.marked l))
                (sym clean),
        events
            ∙ ap
                (λ (b : Bool).
                  w.events
                  ++ (if b
                      then told change p ++ deletions change w.marked l
                      else deletions change w.marked l))
                (sym clean),
        others,
      )
]

-- After the dump was parsed, nl_cache_resync leaves in the cache just the objects that are not marked,
-- in their order, and reports the deletion of each of the others, in their order, to the callback; it
-- does not end in BUG(), the other caches are as they were, and the memory is well formed. The
-- conditions are that it was, and that the objects meet the contract of the hash table.
pub sweep_lem :
    {D : Type 0} {ops : ℕ → ObjectOps D} {w : World D}
    → IsWorld ops w
    → IsHash (object_keys ops w.heap)
    → (change : Change) (c : ℕ)
    → (w' : World D) × (sweep ops change (w.caches c).c_items w ≡ some (tt, w'))
      × IsWorld ops w'
      × ((w'.caches c).c_items ≡ unmarked w.marked (w.caches c).c_items)
      × (w'.events ≡ w.events ++ deletions change w.marked (w.caches c).c_items)
      × ((d : ℕ) → (c == d) ≡ false → w'.caches d ≡ w.caches d)
sweep_lem {w = w} v laws change c = sweep_from change c (w.caches c).c_items [] v laws refl
