-- ===== src/Plugin/Script.antt =====
-- internal/plugin: nft_linux.go and ip_helpers.go, the text of the scripts for the program `nft`.
use remnaplus_alpine_node.Prelude.{
  zero, suc, List, [], ◌∷◌, ◌++◌, if◌then◌else◌, Str, str_eq, ◌==◌, lit, map,
}
use remnaplus_alpine_node.Prelude.Int.{ℤ, pos, negsuc}
use remnaplus_alpine_node.Plugin.Lists.{format_int}

abbrev pub table_name : Str
table_name = lit "remnanode"

abbrev pub table_name_v6 : Str
table_name_v6 = lit "remnanode6"

abbrev pub torrent_blocker_set : Str
torrent_blocker_set = lit "torrent-blocker"

abbrev pub torrent_blocker_set_v6 : Str
torrent_blocker_set_v6 = lit "torrent-blocker6"

abbrev pub ingress_filter_ip_set : Str
ingress_filter_ip_set = lit "ingress-filter-ip"

abbrev pub ingress_filter_ip_set_v6 : Str
ingress_filter_ip_set_v6 = lit "ingress-filter-ip6"

abbrev pub egress_filter_ip_set : Str
egress_filter_ip_set = lit "egress-filter-ip"

abbrev pub egress_filter_ip_set_v6 : Str
egress_filter_ip_set_v6 = lit "egress-filter-ip6"

abbrev pub egress_filter_port_set : Str
egress_filter_port_set = lit "egress-filter-port"

abbrev pub egress_filter_port_set_v6 : Str
egress_filter_port_set_v6 = lit "egress-filter-port6"

-- `strings.Join(parts, sep)`
unfoldable pub join_by : Str → List Str → Str
join_by sep [] = []
join_by sep (part ∷ []) = part
join_by sep (part ∷ next ∷ parts) = part ++ sep ++ join_by sep (next ∷ parts)

-- tableFamily
unfoldable pub table_family : Str → Str
table_family table = if table == table_name_v6 then lit "ip6" else lit "ip"

-- formatNFTElement
unfoldable pub format_nft_element : Str → ℤ → Str
unfolding format_int
format_nft_element ip (pos (suc n)) = ip ++ lit " timeout " ++ format_int (pos (suc n)) ++ lit "s"
format_nft_element ip (pos zero) = ip
format_nft_element ip (negsuc n) = ip

-- formatPortElements
unfoldable pub format_port_elements : List ℤ → Str
unfolding join_by format_int
format_port_elements ports = join_by (lit ", ") (map format_int ports)

-- `add element <family> <table> <set> { <elements> }`
unfoldable pub element_script : Str → Str → Str → Str → Str → Str
element_script verb family table set elements =
    verb
    ++ lit " element "
    ++ family
    ++ lit " "
    ++ table
    ++ lit " "
    ++ set
    ++ lit " { "
    ++ elements
    ++ lit " }"

-- One of the two tables of recreateTables: its family, its addresses' type and its sets.
unfoldable pub table_script : Str → Str → Str → Str → Str → Str → Str → Str
table_script family table torrent ingress egress ports addresses =
    lit "table "
    ++ family
    ++ lit " "
    ++ table
    ++ lit " {\n"
    ++ lit "\tset "
    ++ torrent
    ++ lit " { type "
    ++ addresses
    ++ lit "; flags timeout; }\n"
    ++ lit "\tset "
    ++ ingress
    ++ lit " { type "
    ++ addresses
    ++ lit "; flags interval; }\n"
    ++ lit "\tset "
    ++ egress
    ++ lit " { type "
    ++ addresses
    ++ lit "; flags interval; }\n"
    ++ lit "\tset "
    ++ ports
    ++ lit " { type inet_service; }\n\n"
    ++ lit "\tchain input {\n\t\ttype filter hook input priority -10; policy accept;\n"
    ++ lit "\t\t"
    ++ family
    ++ lit " saddr @"
    ++ ingress
    ++ lit " drop\n"
    ++ lit "\t\t"
    ++ family
    ++ lit " saddr @"
    ++ torrent
    ++ lit " drop\n\t}\n\n"
    ++ lit "\tchain forward {\n\t\ttype filter hook forward priority -10; policy accept;\n"
    ++ lit "\t\t"
    ++ family
    ++ lit " saddr @"
    ++ ingress
    ++ lit " drop\n"
    ++ lit "\t\t"
    ++ family
    ++ lit " saddr @"
    ++ torrent
    ++ lit " drop\n\t}\n\n"
    ++ lit "\tchain output {\n\t\ttype filter hook output priority -10; policy accept;\n"
    ++ lit "\t\t"
    ++ family
    ++ lit " daddr @"
    ++ egress
    ++ lit " drop\n"
    ++ lit "\t\ttcp dport @"
    ++ ports
    ++ lit " drop\n"
    ++ lit "\t\tudp dport @"
    ++ ports
    ++ lit " drop\n\t}\n}\n"

unfoldable pub recreate_script : Str
unfolding table_script
recreate_script =
    lit "\nadd table ip "
    ++ table_name
    ++ lit "\nadd table ip6 "
    ++ table_name_v6
    ++ lit "\ndelete table ip "
    ++ table_name
    ++ lit "\ndelete table ip6 "
    ++ table_name_v6
    ++ lit "\n"
    ++ table_script (lit "ip") table_name torrent_blocker_set ingress_filter_ip_set
        egress_filter_ip_set egress_filter_port_set (lit "ipv4_addr")
    ++ lit "\n"
    ++ table_script (lit "ip6") table_name_v6 torrent_blocker_set_v6 ingress_filter_ip_set_v6
        egress_filter_ip_set_v6 egress_filter_port_set_v6 (lit "ipv6_addr")
