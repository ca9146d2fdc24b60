-- ===== src/Route/Links.antt =====
-- lib/route/link.c and link/api.c: what identifies a link, its comparison and its key. What the
-- address families and the types of links compare are functions that they register; a text is the
-- bytes in front of the one that ends it.
pub mod Contract
pub mod Ops
use Prim.Native.Nat.{bit_and, bit_xor}
use libnl.Prelude.{
  same_text, same_ptr, ℕ, ◌+◌, ◌%◌, ◌^◌, Bool, true, false, not, Option, none, some, List, [], ◌∷◌,
  ◌++◌, ◌==◌, if◌then◌else◌,
}
use libnl.Prelude.Bytes.{to_bytes}
use libnl.Object.{Object, ObjectOps, loose_comparison}
use libnl.Object.Diff.{has_attr, diffs}
use libnl.Addr.{NlAddr, nl_addr_cmp}
use libnl.Route.{nonzero}

-- `l_af_data` says for which families there are data; `l_info_ops` is the number of the link type.
pub record Link : Type 0 where
  pub l_index : ℕ
  pub l_mtu : ℕ
  pub l_link : ℕ
  pub l_link_netnsid : ℕ
  pub l_txqlen : ℕ
  pub l_weight : ℕ
  pub l_master : ℕ
  pub l_family : ℕ
  pub l_operstate : ℕ
  pub l_linkmode : ℕ
  pub l_qdisc : List ℕ
  pub l_name : List ℕ
  pub l_addr : Option NlAddr
  pub l_bcast : Option NlAddr
  pub l_ifalias : List ℕ
  pub l_num_vf : ℕ
  pub l_promiscuity : ℕ
  pub l_num_tx_queues : ℕ
  pub l_num_rx_queues : ℕ
  pub l_group : ℕ
  pub l_flags : ℕ
  pub l_flag_mask : ℕ
  pub l_af_data : ℕ → Bool
  pub l_info_ops : Option ℕ

abbrev pub link_attr_ifindex : ℕ
link_attr_ifindex = 0x800

abbrev pub link_attr_family : ℕ
link_attr_family = 0x1000

-- The comparison up to the flags.
abbrev pub link_base : Link → Link → List (ℕ × Bool)
link_base a b =
    (link_attr_ifindex, not (a.l_index == b.l_index))
    ∷ (0x1, not (a.l_mtu == b.l_mtu))
    ∷ (0x2, not (a.l_link == b.l_link))
    ∷ (0x100000000, not (a.l_link_netnsid == b.l_link_netnsid))
    ∷ (0x4, not (a.l_txqlen == b.l_txqlen))
    ∷ (0x8, not (a.l_weight == b.l_weight))
    ∷ (0x10, not (a.l_master == b.l_master))
    ∷ (link_attr_family, not (a.l_family == b.l_family))
    ∷ (0x10000, not (a.l_operstate == b.l_operstate))
    ∷ (0x20000, not (a.l_linkmode == b.l_linkmode))
    ∷ (0x20, not (same_text a.l_qdisc b.l_qdisc))
    ∷ (0x400, not (same_text a.l_name b.l_name))
    ∷ (0x80, nonzero (nl_addr_cmp a.l_addr b.l_addr))
    ∷ (0x100, nonzero (nl_addr_cmp a.l_bcast b.l_bcast))
    ∷ (0x80000, not (same_text a.l_ifalias b.l_ifalias))
    ∷ (0x100000, not (a.l_num_vf == b.l_num_vf))
    ∷ (0x200000, not (a.l_promiscuity == b.l_promiscuity))
    ∷ (0x400000, not (a.l_num_tx_queues == b.l_num_tx_queues))
    ∷ (0x800000, not (a.l_num_rx_queues == b.l_num_rx_queues))
    ∷ (0x1000000, not (a.l_group == b.l_group))
    ∷ []

-- The functions that are registered: `ao_compare` of a family, if the family is known, and
-- `io_compare` of a type of links; true says that two links differ.
module _ (af_ops : ℕ → Option (Option (Link → Link → Bool)))
    (io_compare : ℕ → Option (Link → Link → ℕ → Bool)) where
  unfoldable pub rtnl_link_af_data_compare : Link → Link → ℕ → Bool
  rtnl_link_af_data_compare a b family =
      if a.l_af_data family
      then if b.l_af_data family
        then elim (af_ops family) [
          | none ↦ true
          | some ops ↦ elim ops [ none ↦ true | some compare ↦ compare a b ]
        ]
        else true
      else b.l_af_data family

  unfoldable pub rtnl_link_info_data_compare : Link → Link → ℕ → Bool
  rtnl_link_info_data_compare a b flags =
      if same_ptr a.l_info_ops b.l_info_ops
      then elim a.l_info_ops [
        | none ↦ false
        | some t ↦ elim (io_compare t) [ none ↦ false | some compare ↦ compare a b flags ]
      ]
      else true

  -- The flags, and the rest behind them.
  abbrev pub link_rest : Link → Link → ℕ → List (ℕ × Bool)
  link_rest a b flags =
      (
        0x200,
        if has_attr flags loose_comparison
            then not (bit_and (bit_xor a.l_flags b.l_flags) b.l_flag_mask == 0)
            else not (a.l_flags == b.l_flags),
      )
      ∷ (if (if a.l_family == b.l_family then rtnl_link_af_data_compare a b a.l_family else false)
          then (0x4000000, true) ∷ []
          else (0x40000, rtnl_link_info_data_compare a b flags) ∷ [])

  unfoldable pub link_compare : Object Link → Object Link → ℕ → ℕ → ℕ
  unfolding rtnl_link_af_data_compare rtnl_link_info_data_compare
  link_compare a b attrs flags =
      diffs attrs a.ce_mask b.ce_mask (link_base a.attrs b.attrs ++ link_rest a.attrs b.attrs flags)

-- The bytes of struct link_hash_key.
unfoldable pub link_hash_key : Link → List ℕ
link_hash_key l = to_bytes 4 l.l_index ++ to_bytes 4 l.l_family

unfoldable pub link_keygen : (List ℕ → ℕ) → Object Link → ℕ → ℕ
unfolding link_hash_key
link_keygen nl_hash l table_sz = nl_hash (link_hash_key l.attrs) % table_sz

abbrev pub link_id_attrs : ℕ
link_id_attrs = 0x1800

unfoldable pub link_obj_ops :
    (ℕ → Option (Option (Link → Link → Bool)))
    → (ℕ → Option (Link → Link → ℕ → Bool))
    → (List ℕ → ℕ)
    → ObjectOps Link
unfolding link_compare link_keygen
link_obj_ops af_ops io_compare nl_hash = record {
  oo_id_attrs = link_id_attrs;
  oo_id_attrs_get = none;
  oo_compare = some (link_compare af_ops io_compare);
  oo_keygen = some (link_keygen nl_hash);
}
