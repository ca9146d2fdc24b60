-- ===== src/Tests/DataTests.antt =====
-- lib/data.c at concrete bytes.
use libnl.Prelude.{◌≡◌, ◌≢◌, refl, some, [], ◌∷◌, arith}
use libnl.Prelude.Int.{pos}
use libnl.Errno.{success}
use libnl.Data.{NlData, nl_data_append, nl_data_cmp}
use libnl.Data.Compare.{IsSized, nl_data_cmp_prefix}

abbrev three_bytes : NlData
three_bytes = record { d_size = 3; d_data = 1 ∷ 2 ∷ 3 ∷ [] }

nl_data_cmp_prefix_example :
    let (o, longer) = nl_data_append three_bytes (some (4 ∷ 5 ∷ [])) 2 in
    (o ≡ success) × (nl_data_cmp three_bytes longer ≡ pos 0) × (longer.d_size ≢ 3) × IsSized longer
nl_data_cmp_prefix_example =
    nl_data_cmp_prefix three_bytes (4 ∷ 5 ∷ []) 2 refl (omega arith) (omega arith) (omega arith)
