-- ===== src/Cache/Pickup.antt =====
-- lib/cache.c: filling a cache from the messages that a socket receives. The parser of an object type
-- is a function that calls what it is given with each object that it made of a message.
use libnl.Prelude.{
  ℕ, suc, Bool, true, false, Option, none, some, List, [], ◌∷◌, ◌==◌, if◌then◌else◌,
}
use libnl.Prelude.Int.{ℤ, pos, negsuc}
use libnl.Errno.{
  Errno, Outcome, success, error, bug, neg_code, code, opnotsupp, exist, msg_tooshort,
  msgtype_nosupport, proto_mismatch,
}
use libnl.Object.{Object, ObjectOps}
use libnl.Object.Refs.{Ptr}
use libnl.Msg.{Nlmsghdr, nlmsg_valid_hdr}
use libnl.Msg.Buffer.{NlMsg}
use libnl.Recv.{Cb, valid, Socket, start, recvmsgs, nl_recvmsgs_result}
use libnl.Cache.Heap.{Act, act_del, get, CacheOps, World, M, pure, ◌>>=◌, ◌>>◌, put}
use libnl.Cache.{nl_cache_add, nl_cache_remove}
use libnl.Cache.Scan.{nl_cache_search}
use libnl.Cache.Include.{Change, report, nl_object_update}

-- The int that a function with an Outcome returns.
abbrev pub to_int : Outcome → ℤ
to_int success = pos 0
to_int (error e) = neg_code e
to_int bug = pos 0

abbrev pub is_error : Errno → ℤ → Bool
is_error e (pos n) = false
is_error e (negsuc n) = suc n == code e

abbrev pub same_int : ℤ → ℤ → Bool
same_int (pos a) (pos b) = a == b
same_int (negsuc a) (negsuc b) = a == b
same_int a b = false

module _ {D : Type 0} (ops : ℕ → ObjectOps D)
    (oo_update : ℕ → Option (Object D → Object D → Option (Object D))) where
  -- The loop of nl_cache_parse over `co_msgtypes`.
  unfoldable pub parse_types : (Nlmsghdr → M D ℤ) → List (ℕ × Act) → Nlmsghdr → M D ℤ
  parse_types parser [] nlh = pure (neg_code msgtype_nosupport)
  parse_types parser ((mt_id, mt_act) ∷ l) nlh = elim (mt_id == nlh.nlmsg_type) [
    | false ↦ parse_types parser l nlh
    | true ↦ parser nlh >>= λ err. elim (is_error opnotsupp err) [
      | true ↦ parse_types parser l nlh
      | false ↦ pure err
    ]
  ]

  unfoldable pub nl_cache_parse : CacheOps → (Nlmsghdr → M D ℤ) → Nlmsghdr → M D ℤ
  unfolding parse_types
  nl_cache_parse co parser nlh =
      if nlmsg_valid_hdr nlh co.co_hdrsize
      then parse_types parser co.co_msgtypes nlh
      else pure (neg_code msg_tooshort)

  -- The result for recvmsgs: an object that is there already is skipped.
  unfoldable pub update_msg_parser : CacheOps → (Nlmsghdr → M D ℤ) → Nlmsghdr → M D ℤ
  unfolding nl_cache_parse
  update_msg_parser co parser nlh =
      nl_cache_parse co parser nlh >>= λ ret. pure (if is_error exist ret then pos 1 else ret)

  unfoldable pub pickup_cb : ℕ → Ptr → M D ℤ
  pickup_cb c obj = nl_cache_add ops c obj >>= λ o. pure (to_int o)

  abbrev checked : ℕ → Ptr → Option Ptr → M D ℤ
  checked c obj none w = pickup_cb c obj w
  checked c obj (some old) w =
      let (ok, w') = nl_object_update ops oo_update old obj w in
      if ok
      then (put old >> pure (pos 0)) w'
      else (nl_cache_remove ops old >> put old >> pickup_cb c obj) w'

  unfoldable pub pickup_checkdup_cb : ℕ → Ptr → M D ℤ
  unfolding pickup_cb
  pickup_checkdup_cb c obj = nl_cache_search ops c obj >>= checked c obj

  -- The callback that __cache_pickup sets for valid messages. A world that is `none` was left by
  -- BUG(): nothing happens in it any more.
  unfoldable pub on_valid :
      CacheOps → (Nlmsghdr → M D ℤ) → NlMsg → Option (World D) → ℤ × Option (World D)
  unfolding update_msg_parser
  on_valid co parser msg none = (pos 2, none)
  on_valid co parser msg (some w) = elim (update_msg_parser co parser msg.nm_nlh w) [
    | none ↦ (pos 2, none)
    | some (ret, w') ↦ (ret, some w')
  ]

  abbrev with_valid :
      Cb (Option (World D))
      → (NlMsg → Option (World D) → ℤ × Option (World D))
      → Cb (Option (World D))
  with_valid cb f = record cb { cb_set = λ t. elim t [ valid ↦ some f | t' ↦ cb.cb_set t' ] }

  -- __nl_cache_pickup, with one of the two callbacks in `parser`, on a socket that expects the number
  -- `seq` and will deliver the datagrams.
  unfoldable pub cache_pickup :
      Cb (Option (World D))
      → Socket
      → CacheOps
      → (Nlmsghdr → M D ℤ)
      → ℕ
      → List (List ℕ)
      → ℤ
      → World D
      → Option (ℤ × Option (World D))
  unfolding on_valid
  cache_pickup cb sk co parser seq bufs last w =
      if same_int sk.s_proto co.co_protocol
      then (elim (recvmsgs (with_valid cb (on_valid co parser)) sk bufs last (start seq (some w))) [
        | none ↦ none
        | some (err, s) ↦ some (nl_recvmsgs_result err, s.user)
      ])
      else some (neg_code proto_mismatch, some w)

module _ {D : Type 0} (ops : ℕ → ObjectOps D) where
  -- The end of nl_cache_resync: objects that are still marked are obsolete.
  abbrev pub obsolete : Change → Ptr → M D (Unit {0})
  obsolete change p = do
    get p
    nl_cache_remove ops p
    report change p (some p) none 0 act_del
    put p

  unfoldable pub sweep : Change → List Ptr → M D (Unit {0})
  sweep change [] w = some (tt, w)
  sweep change (p ∷ l) w =
      ((λ w'. if w'.marked p then obsolete change p w' else some (tt, w')) >>= λ _. sweep change l)
        w
