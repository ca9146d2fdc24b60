-- ===== src/Handlers.antt =====
-- lib/handlers.c: the handles of callbacks. A callback is one of the default handlers, which print, or
-- a function of the user, which is the number of a place in memory; `none` is NULL. Allocation is
-- taken to succeed, and a kind or type that is negative is a large unsigned number.
pub mod Fill
pub mod Rows
use libnl.Prelude.{ℕ, zero, suc, ◌+◌, Option, none, some, ltb, ◌==◌, if◌then◌else◌}
use libnl.Prelude.Int.{ℤ, pos, negsuc, plus, minus}
use libnl.Errno.{Outcome, success, error, range}

-- The functions nl_valid_handler_verbose and so on.
pub data Handler : Type 0 where
  valid_verbose valid_debug finish_debug invalid_verbose msg_in_debug msg_out_debug : Handler
  overrun_verbose skipped_debug ack_debug error_verbose : Handler
  user : ℕ → Handler

-- NL_CB_DEFAULT and so on.
abbrev pub nl_cb_verbose : ℕ
nl_cb_verbose = 1

abbrev pub nl_cb_debug : ℕ
nl_cb_debug = 2

abbrev pub nl_cb_custom : ℕ
nl_cb_custom = 3

-- NL_CB_TYPE_MAX
abbrev pub nl_cb_type_max : ℕ
nl_cb_type_max = 10

pub record NlCb : Type 0 where
  pub cb_set : ℕ → Option Handler
  pub cb_args : ℕ → ℕ
  pub cb_err : Option Handler
  pub cb_err_arg : ℕ
  pub cb_refcnt : ℤ
  pub cb_active : ℕ

-- An entry of the table: the verbose and the debugging handler.
abbrev pub entry : ℕ → Option Handler → Option Handler → Option Handler
entry kind verbose debug =
    if kind == nl_cb_verbose then verbose else if kind == nl_cb_debug then debug else none

abbrev pub cb_def : ℕ → ℕ → Option Handler
cb_def type kind =
    if type == 0
    then entry kind (some valid_verbose) (some valid_debug)
    else if type == 1
    then entry kind none (some finish_debug)
    else if type == 2
    then entry kind (some overrun_verbose) (some overrun_verbose)
    else if type == 3
    then entry kind none (some skipped_debug)
    else if type == 4
    then entry kind none (some ack_debug)
    else if type == 5
    then entry kind none (some msg_in_debug)
    else if type == 6
    then entry kind none (some msg_out_debug)
    else if type == 7
    then entry kind (some invalid_verbose) (some invalid_verbose)
    else none

abbrev pub cb_err_def : ℕ → Option Handler
cb_err_def kind = entry kind (some error_verbose) (some error_verbose)

-- What is stored for a type: the function given or the default of the kind.
abbrev pub handler : ℕ → ℕ → Option Handler → Option Handler
handler type kind func = if kind == nl_cb_custom then func else cb_def type kind

unfoldable pub nl_cb_set : NlCb → ℕ → ℕ → Option Handler → ℕ → Outcome × NlCb
nl_cb_set cb type kind func arg =
    if ltb nl_cb_type_max type
    then (error range, cb)
    else if ltb nl_cb_custom kind
    then (error range, cb)
    else (
      success,
      record cb {
        cb_set = λ i. if type == i then handler type kind func else cb.cb_set i;
        cb_args = λ i. if type == i then arg else cb.cb_args i;
      },
    )

-- The loop over the types, n of them from i on, that ends at an error.
unfoldable pub set_from : ℕ → ℕ → ℕ → Option Handler → ℕ → NlCb → Outcome × NlCb
unfolding nl_cb_set
set_from zero i kind func arg cb = (success, cb)
set_from (suc n) i kind func arg cb =
    let (o, cb') = nl_cb_set cb i kind func arg in
    elim o [ success ↦ set_from n (suc i) kind func arg cb' | e ↦ (e, cb') ]

unfoldable pub nl_cb_set_all : NlCb → ℕ → Option Handler → ℕ → Outcome × NlCb
unfolding set_from
nl_cb_set_all cb kind func arg = set_from (nl_cb_type_max + 1) 0 kind func arg cb

unfoldable pub nl_cb_err : NlCb → ℕ → Option Handler → ℕ → Outcome × NlCb
nl_cb_err cb kind func arg = if ltb nl_cb_custom kind then (error range, cb) else (
  success,
  record cb { cb_err = if kind == nl_cb_custom then func else cb_err_def kind; cb_err_arg = arg },
)

-- The memory that calloc returns, with the fields set behind it.
abbrev pub blank : NlCb
blank = record {
  cb_set = λ i. none;
  cb_args = λ i. 0;
  cb_err = none;
  cb_err_arg = 0;
  cb_refcnt = pos 1;
  cb_active = 11;
}

-- The loop of nl_cb_alloc, which does not look at what nl_cb_set returns.
unfoldable pub default_from : ℕ → ℕ → ℕ → NlCb → NlCb
unfolding nl_cb_set
default_from zero i kind cb = cb
default_from (suc n) i kind cb = default_from n (suc i) kind (nl_cb_set cb i kind none 0).1

unfoldable pub nl_cb_alloc : ℕ → Option NlCb
unfolding default_from nl_cb_err
nl_cb_alloc kind =
    if ltb nl_cb_custom kind
    then none
    else some (nl_cb_err (default_from (nl_cb_type_max + 1) 0 kind blank) kind none 0).1

-- All of the handle but the count is copied.
unfoldable pub nl_cb_clone : NlCb → NlCb
nl_cb_clone orig = record orig { cb_refcnt = pos 1 }

unfoldable pub nl_cb_get : NlCb → NlCb
nl_cb_get cb = record cb { cb_refcnt = plus cb.cb_refcnt 1 }

-- Nothing to do for NULL, BUG(), or the handle that is left, if it was not freed.
pub data Put : Type 0 where
  nothing stopped freed : Put
  left : NlCb → Put

abbrev pub put_at : ℤ → NlCb → Put
put_at (negsuc n) cb = stopped
put_at (pos zero) cb = freed
put_at (pos (suc n)) cb = left cb

unfoldable pub nl_cb_put : Option NlCb → Put
nl_cb_put none = nothing
nl_cb_put (some cb) = put_at (minus cb.cb_refcnt 1) (record cb { cb_refcnt = minus cb.cb_refcnt 1 })
