-- ===== src/Plugin/Nft.antt =====
-- internal/plugin: nft_linux.go, ip_helpers.go and cidr.go, the runs of the program `nft`.
use remnaplus_alpine_node.Prelude.{
  Bool, true, false, List, [], ◌∷◌, if◌then◌else◌, Str, str_eq, ◌==◌, lit, Option, none, some, map,
}
use remnaplus_alpine_node.Prelude.Int.{ℤ}
use remnaplus_alpine_node.Prelude.Text.{trim_space}
use remnaplus_alpine_node.Plugin.{Library}
use remnaplus_alpine_node.Plugin.Lists.{format_int}
use remnaplus_alpine_node.Plugin.Script.{
  table_name, table_name_v6, torrent_blocker_set, torrent_blocker_set_v6, ingress_filter_ip_set,
  ingress_filter_ip_set_v6, egress_filter_ip_set, egress_filter_ip_set_v6, egress_filter_port_set,
  egress_filter_port_set_v6, join_by, table_family, format_nft_element, element_script,
  recreate_script,
}

module _ (l : Library) where
  open l use {Kernel, Prefix}

  -- ipTableAndTorrentSet
  unfoldable pub ip_table_and_torrent_set : Str → Option (Str × Str)
  ip_table_and_torrent_set ip = answered (l.parse_ip ip)
    where
      answered : Option Bool → Option (Str × Str)
      answered none = none
      answered (some true) = some (table_name, torrent_blocker_set)
      answered (some false) = some (table_name_v6, torrent_blocker_set_v6)

  -- normalizeFilterPrefixes: what is added to the two builders, in order
  unfoldable pub prefix_of : Str → Option (Bool × Prefix)
  prefix_of item = first_of (l.parse_prefix item) (l.parse_addr item)
    where
      first_of : Option (Bool × Prefix) → Option (Bool × Prefix) → Option (Bool × Prefix)
      first_of none other = other
      first_of (some p) other = some p

  unfoldable pub add_prefix :
      Option (Bool × Prefix) → List Prefix × List Prefix → List Prefix × List Prefix
  add_prefix none built = built
  add_prefix (some (true, p)) (b4, b6) = (p ∷ b4, b6)
  add_prefix (some (false, p)) (b4, b6) = (b4, p ∷ b6)

  unfoldable pub built_of : List Str → List Prefix × List Prefix
  unfolding prefix_of add_prefix
  built_of [] = ([], [])
  built_of (item ∷ items) =
      let rest = built_of items in
      if trim_space item == [] then rest else add_prefix (prefix_of (trim_space item)) rest

  unfoldable pub normalize_filter_prefixes : List Str → List Str × List Str
  unfolding built_of
  normalize_filter_prefixes items = (l.ip_set (built_of items).0, l.ip_set (built_of items).1)

  -- runNFTScript; true where the program succeeds
  unfoldable pub run_nft_script : Str → Kernel → Bool × Kernel
  run_nft_script script k = l.run_nft (trim_space script) k

  module _ (available : Bool) where
    -- recreateTables
    unfoldable pub recreate_tables : Kernel → Bool × Kernel
    unfolding run_nft_script
    recreate_tables k = if available then run_nft_script recreate_script k else (false, k)

    -- newNFTManager, where the process has CAP_NET_ADMIN or has not
    unfoldable new_nft_manager : Kernel → Kernel
    unfolding recreate_tables
    new_nft_manager k = if available then (recreate_tables k).1 else k

    unfoldable pub on_torrent_set : Str → Str → Option (Str × Str) → Kernel → Bool × Kernel
    unfolding run_nft_script element_script table_family
    on_torrent_set verb element none k = (false, k)
    on_torrent_set verb element (some (table, set)) k =
        run_nft_script (element_script verb (table_family table) table set element) k

    -- blockIP
    unfoldable pub block_ip : Str → ℤ → Kernel → Bool × Kernel
    unfolding on_torrent_set
    block_ip ip timeout_seconds k =
        if available
        then on_torrent_set (lit "add") (format_nft_element ip timeout_seconds)
            (ip_table_and_torrent_set ip) k
        else (false, k)

    -- unblockIP
    unfoldable pub unblock_ip : Str → Kernel → Bool × Kernel
    unfolding on_torrent_set
    unblock_ip ip k =
        if available
        then on_torrent_set (lit "delete") ip (ip_table_and_torrent_set ip) k
        else (false, k)

    -- Elements are added where there are some; the steps after a failure are skipped.
    unfoldable pub add_elements : Str → Str → Str → List Str → Bool × Kernel → Bool × Kernel
    unfolding run_nft_script element_script join_by
    add_elements family table set elements (false, k) = (false, k)
    add_elements family table set [] (true, k) = (true, k)
    add_elements family table set (e ∷ es) (true, k) =
        run_nft_script (element_script (lit "add") family table set (join_by (lit ", ") (e ∷ es))) k

    -- syncIngressFilter
    unfoldable pub sync_ingress_filter : List Str → Kernel → Bool × Kernel
    unfolding add_elements
    sync_ingress_filter ips k =
        if available
        then add_elements (lit "ip6") table_name_v6 ingress_filter_ip_set_v6
            (normalize_filter_prefixes ips).1
            (add_elements (lit "ip") table_name ingress_filter_ip_set
              (normalize_filter_prefixes ips).0 (true, k))
        else (true, k)

    -- syncEgressFilter
    unfoldable pub sync_egress_filter : List Str → List ℤ → Kernel → Bool × Kernel
    unfolding add_elements
    sync_egress_filter ips ports k =
        if available
        then add_elements (lit "ip6") table_name_v6 egress_filter_port_set_v6 (map format_int ports)
            (add_elements (lit "ip") table_name egress_filter_port_set (map format_int ports) (
              add_elements (lit "ip6") table_name_v6 egress_filter_ip_set_v6
                (normalize_filter_prefixes ips).1
                (add_elements (lit "ip") table_name egress_filter_ip_set
                  (normalize_filter_prefixes ips).0 (true, k))))
        else (true, k)
