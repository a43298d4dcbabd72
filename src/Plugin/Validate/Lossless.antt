-- ===== src/Plugin/Validate/Lossless.antt =====
-- A configuration that passes the checks is read without loss.
use remnaplus_alpine_node.Prelude.{
  ℕ, Bool, true, ◌&&◌, ◌||◌, List, [], ◌∷◌, Str, str_eq, lit, some, ◌≡◌, length,
}
use remnaplus_alpine_node.Prelude.Int.{ℤ}
use remnaplus_alpine_node.Prelude.Text.{has_prefix}
use remnaplus_alpine_node.Prelude.Map.{has}
use remnaplus_alpine_node.Prelude.Json.{Json, arr, Fields, get, to_list}
use remnaplus_alpine_node.Plugin.Lists.{ints_of, to_int_slice, to_string_slice, resolve_ip_list}
use remnaplus_alpine_node.Plugin.Checks.{is_port}

unfoldable pub all_ports : List ℤ → Bool
unfolding is_port
all_ports [] = true
all_ports (p ∷ ps) = is_port (some p) && all_ports ps

-- How many items a list has; what is no list has none.
unfoldable pub item_count : Json → ℕ
item_count (arr items) = length (to_list items)
item_count _ = 0

-- Ports in range, and as many as there are items.
Ports : List Json → Type 0
Ports items = (all_ports (ints_of items) ≡ true) × (length (ints_of items) ≡ length items)

-- Every item that names no shared list is in the result.
pub handed : List Str → List Str → Bool
handed [] result = true
handed (item ∷ items) result =
    (has_prefix item (lit "ext:") || has item result) && handed items result

-- What the section of the egress filter gives syncEgressFilter: the ports, and the addresses once the
-- shared lists are looked up.
abbrev pub EgressRead : Fields → List (Str × List Str) → Type 0
EgressRead egress shared =
    (all_ports (to_int_slice (get (lit "blockedPorts") egress)) ≡ true)
    × (length (to_int_slice (get (lit "blockedPorts") egress))
        ≡ item_count (get (lit "blockedPorts") egress))
    × (length (to_string_slice (get (lit "blockedIps") egress))
        ≡ item_count (get (lit "blockedIps") egress))
    × (handed (to_string_slice (get (lit "blockedIps") egress))
          (resolve_ip_list (to_string_slice (get (lit "blockedIps") egress)) shared)
        ≡ true)
