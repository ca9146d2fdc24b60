-- ===== src/Tests/Handles.antt =====
-- A handle of callbacks with a function of the user, and the debugging handlers set in it.
use libnl.Prelude.{◌<◌, ◌≤◌, ◌≡◌, ◌⊎◌, none, some}
use libnl.Prelude.Int.{pos}
use libnl.Errno.{success, error, range}
use libnl.Handlers.{NlCb, user, nl_cb_set_all, nl_cb_debug}
use libnl.Handlers.Rows.{IsFilledWith, row, nl_cb_set_all_lem}

abbrev custom : NlCb
custom = record {
  cb_set = λ i. some (user 7);
  cb_args = λ i. 1;
  cb_err = none;
  cb_err_arg = 0;
  cb_refcnt = pos 1;
  cb_active = 11;
}

nl_cb_set_all_lem_example :
    ((3 < nl_cb_debug) × (nl_cb_set_all custom nl_cb_debug none 0 ≡ (error range, custom)))
    ⊎ ((nl_cb_debug ≤ 3)
        × ((cb' : NlCb) × (nl_cb_set_all custom nl_cb_debug none 0 ≡ (success, cb'))
            × IsFilledWith custom cb' (row nl_cb_debug none) 0))
nl_cb_set_all_lem_example = nl_cb_set_all_lem custom nl_cb_debug none 0
