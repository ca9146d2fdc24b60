-- ===== src/Errno.antt =====
-- include/netlink/errno.h: the error codes. A function that returns 0 or a negative code, and that
-- may stop the process by BUG(), returns an `Outcome`.
use libnl.Prelude.{ℕ, suc, List, [], ◌∷◌, ◌==◌, if◌then◌else◌}
use libnl.Prelude.Int.{ℤ, pos, negsuc, sub_ℕ}

pub data Errno : Type 0 where
  failure intr bad_sock again nomem exist inval range msgsize opnotsupp : Errno
  af_nosupport obj_notfound noattr missing_attr af_mismatch seq_mismatch : Errno
  msg_overflow msg_trunc noaddr srcrt_nosupport msg_tooshort : Errno
  msgtype_nosupport obj_mismatch nocache busy proto_mismatch noaccess perm : Errno
  pktloc_file parse_err nodev immutable dump_intr attrsize : Errno

pub data Outcome : Type 0 where
  success : Outcome
  error : Errno → Outcome
  bug : Outcome

-- The number behind each NLE_ name.
unfoldable pub code : Errno → ℕ
code failure = 1
code intr = 2
code bad_sock = 3
code again = 4
code nomem = 5
code exist = 6
code inval = 7
code range = 8
code msgsize = 9
code opnotsupp = 10
code af_nosupport = 11
code obj_notfound = 12
code noattr = 13
code missing_attr = 14
code af_mismatch = 15
code seq_mismatch = 16
code msg_overflow = 17
code msg_trunc = 18
code noaddr = 19
code srcrt_nosupport = 20
code msg_tooshort = 21
code msgtype_nosupport = 22
code obj_mismatch = 23
code nocache = 24
code busy = 25
code proto_mismatch = 26
code noaccess = 27
code perm = 28
code pktloc_file = 29
code parse_err = 30
code nodev = 31
code immutable = 32
code dump_intr = 33
code attrsize = 34

-- The numbers of the system's errors on Linux, and the code that nl_syserr2nlerr gives each.
abbrev syserrs : List (ℕ × Errno)
syserrs =
    (9, bad_sock)
    ∷ (98, exist)
    ∷ (17, exist)
    ∷ (99, noaddr)
    ∷ (3, obj_notfound)
    ∷ (2, obj_notfound)
    ∷ (4, intr)
    ∷ (11, again)
    ∷ (88, bad_sock)
    ∷ (92, inval)
    ∷ (14, inval)
    ∷ (13, noaccess)
    ∷ (22, inval)
    ∷ (105, nomem)
    ∷ (12, nomem)
    ∷ (97, af_nosupport)
    ∷ (93, proto_mismatch)
    ∷ (95, opnotsupp)
    ∷ (1, perm)
    ∷ (16, busy)
    ∷ (34, range)
    ∷ (19, nodev)
    ∷ []

find_syserr : ℕ → List (ℕ × Errno) → Errno
find_syserr n [] = failure
find_syserr n ((m, e) ∷ l) = if n == m then e else find_syserr n l

-- abs() of an int.
abbrev abs_int : ℤ → ℕ
abs_int (pos n) = n
abs_int (negsuc n) = suc n

unfoldable pub nl_syserr2nlerr : ℤ → Errno
unfolding find_syserr
nl_syserr2nlerr err = find_syserr (abs_int err) syserrs

-- `-NLE_…`
abbrev pub neg_code : Errno → ℤ
neg_code e = sub_ℕ 0 (code e)
