-- ===== src/Handlers/Rows.antt =====
-- What nl_cb_set_all puts into a handle, from a table of the default handlers by their kind.
use libnl.Prelude.{
  [], ◌∷◌, List, replicate, get_or, some, ◌⊎◌, ◌<◌, none, inl, inr, ◌∙◌, Bool-cases, ℕ, zero, suc,
  ◌≤◌, ◌≡◌, refl, ap, Option, ltb, if◌then◌else◌, arith,
}
use libnl.Errno.{range, error, success}
use libnl.Handlers.{
  valid_verbose, valid_debug, finish_debug, invalid_verbose, msg_in_debug, msg_out_debug,
  overrun_verbose, skipped_debug, ack_debug, nl_cb_set_all, Handler, NlCb, handler, set_from,
  nl_cb_set,
}
use libnl.Handlers.Fill.{Filled, all_types, set_from-Filled}

-- The handlers in the order of the types NL_CB_VALID, FINISH, OVERRUN, SKIPPED, ACK, MSG_IN, MSG_OUT,
-- INVALID, SEQ_CHECK, SEND_ACK and DUMP_INTR: of NL_CB_DEFAULT, VERBOSE, DEBUG and CUSTOM.
abbrev pub row : ℕ → Option Handler → List (Option Handler)
row zero func = replicate 11 none
row (suc zero) func =
    some valid_verbose
    ∷ none
    ∷ some overrun_verbose
    ∷ none
    ∷ none
    ∷ none
    ∷ none
    ∷ some invalid_verbose
    ∷ none
    ∷ none
    ∷ none
    ∷ []
row (suc (suc zero)) func =
    some valid_debug
    ∷ some finish_debug
    ∷ some overrun_verbose
    ∷ some skipped_debug
    ∷ some ack_debug
    ∷ some msg_in_debug
    ∷ some msg_out_debug
    ∷ some invalid_verbose
    ∷ none
    ∷ none
    ∷ none
    ∷ []
row (suc (suc (suc kind))) func = replicate 11 func

-- A property of the first n numbers, one by one.
abbrev Firsts : ℕ → (ℕ → Type 0) → Type 0
Firsts zero P = Unit
Firsts (suc n) P = P 0 × Firsts n (λ j. P (suc j))

first_n : (n : ℕ) (P : ℕ → Type 0) → Firsts n P → (j : ℕ) → j < n → P j
first_n zero P f j h = absurd (omega arith)
first_n (suc n) P f zero h = f.0
first_n (suc n) P f (suc j) h = first_n n (λ i. P (suc i)) f.1 j (omega arith)

handler-row :
    (kind : ℕ) (func : Option Handler) (j : ℕ)
    → kind ≤ 3
    → j < 11
    → handler j kind func ≡ get_or (row kind func) j none
handler-row zero func j k h =
    first_n 11 (λ i. handler i 0 func ≡ get_or (row 0 func) i none)
      (refl, (refl, (refl, (refl, (refl, (refl, (refl, (refl, (refl, (refl, (refl, tt))))))))))) j h
handler-row (suc zero) func j k h =
    first_n 11 (λ i. handler i 1 func ≡ get_or (row 1 func) i none)
      (refl, (refl, (refl, (refl, (refl, (refl, (refl, (refl, (refl, (refl, (refl, tt))))))))))) j h
handler-row (suc (suc zero)) func j k h =
    first_n 11 (λ i. handler i 2 func ≡ get_or (row 2 func) i none)
      (refl, (refl, (refl, (refl, (refl, (refl, (refl, (refl, (refl, (refl, (refl, tt))))))))))) j h
handler-row (suc (suc (suc zero))) func j k h =
    first_n 11 (λ i. handler i 3 func ≡ get_or (row 3 func) i none)
      (refl, (refl, (refl, (refl, (refl, (refl, (refl, (refl, (refl, (refl, (refl, tt))))))))))) j h
handler-row (suc (suc (suc (suc kind)))) func j k h = absurd (omega arith)

-- All callbacks of the handle are those of the row, with the argument; the rest is as before.
pub record IsFilledWith (cb cb' : NlCb) (l : List (Option Handler)) (arg : ℕ) : Type 0 where
  pub callbacks : (j : ℕ) → cb'.cb_set j ≡ (if ltb j 11 then get_or l j none else cb.cb_set j)
  pub arguments : (j : ℕ) → cb'.cb_args j ≡ (if ltb j 11 then arg else cb.cb_args j)
  pub error_callback : cb'.cb_err ≡ cb.cb_err
  pub error_argument : cb'.cb_err_arg ≡ cb.cb_err_arg
  pub count : cb'.cb_refcnt ≡ cb.cb_refcnt
  pub active : cb'.cb_active ≡ cb.cb_active

Filled-IsFilledWith :
    (cb cb' : NlCb) (kind : ℕ) (func : Option Handler) (arg : ℕ)
    → kind ≤ 3
    → Filled cb cb' 0 11 kind func arg
    → IsFilledWith cb cb' (row kind func) arg
Filled-IsFilledWith cb cb' kind func arg k f = record {
  callbacks = λ j.
      f.handlers j
      ∙ all_types j (handler j kind func) (cb.cb_set j)
      ∙ elim (Bool-cases (ltb j 11)) [
        | inl there ↦
            ap (λ a. if ltb j 11 then a else cb.cb_set j) (handler-row kind func j k (ground arith))
        | inr out ↦ ground (arith, out)
      ];
  arguments = λ j. f.args j ∙ all_types j arg (cb.cb_args j);
  error_callback = f.same_err;
  error_argument = f.same_err_arg;
  count = f.same_refcnt;
  active = f.same_active;
}

-- nl_cb_set_all with a kind that does not exist returns NLE_RANGE and changes nothing. With another
-- kind it succeeds: the callback of each of the eleven types is the function given, if the kind is
-- NL_CB_CUSTOM, and else the handler in the row of the kind, where that of NL_CB_DEFAULT has none; all
-- have the argument given, and the error callback, the count and all else is as before.
pub nl_cb_set_all_lem :
    (cb : NlCb) (kind : ℕ) (func : Option Handler) (arg : ℕ)
    → ((3 < kind) × (nl_cb_set_all cb kind func arg ≡ (error range, cb)))
      ⊎ ((kind ≤ 3)
          × ((cb' : NlCb) × (nl_cb_set_all cb kind func arg ≡ (success, cb'))
              × IsFilledWith cb cb' (row kind func) arg))
unfolding nl_cb_set_all set_from nl_cb_set
nl_cb_set_all_lem cb kind func arg = elim (Bool-cases (ltb 3 kind)) [
  | inl over ↦ inl (ground arith, ground arith)
  | inr valid ↦
      let k : kind ≤ 3 = ground arith in
      let (cb', run, f) = set_from-Filled kind func arg 11 0 cb k (omega arith) in
      inr (k, (cb', run, Filled-IsFilledWith cb cb' kind func arg k f))
]
