-- ===== src/NodeHandler/Queries/Whitelist.antt =====
-- Which addresses the dropper kills.
use remnaplus_alpine_node.Xtls.Handler.{get_user_ip_list}
use remnaplus_alpine_node.Xtls.Client.{Client}
use remnaplus_alpine_node.NodeHandler.Queries.{drop_users, drop_each_user, drop_listed}
use mathlib.Core.List.{append-nil, append_assoc}
use remnaplus_alpine_node.NodeHandler.Calls.{kill_loop, drop_ips, Dropper, nonempty}
use remnaplus_alpine_node.Prelude.Map.{has}
use remnaplus_alpine_node.NodeHandler.Calls.{drop_ips, Dropper}
use remnaplus_alpine_node.Prelude.{
  sym, refl, str_beq_iff, if◌then◌else◌, ◌==◌, Option, some, none, ◌==◌, if◌then◌else◌, str_eq,
  arith, ◌≡◌, ◌||◌, Str, List, [], ◌∷◌, ◌++◌, Bool, true, false,
}

-- What DropIPs is to kill: the addresses of the list that are not empty and not on the whitelist.
unfoldable pub targets : Dropper → List Str → List Str
targets d [] = []
targets d (ip ∷ ips) = (if ip == [] || d.is_whitelisted ip then [] else ip ∷ []) ++ targets d ips

kill_loop-targets :
    (d : Dropper) (ips killed : List Str) → kill_loop d ips killed ≡ killed ++ targets d ips
unfolding kill_loop targets
kill_loop-targets d [] killed = sym (append-nil killed)
kill_loop-targets d (ip ∷ ips) killed = ground (
  arith,
  kill_loop-targets d ips killed,
  kill_loop-targets d ips (killed ++ ip ∷ []),
  append_assoc killed (ip ∷ []) (targets d ips),
)

-- An available dropper kills the addresses that are not empty and not on the whitelist, in the order
-- of the list, and the answer is a success. An unavailable dropper kills nothing and answers the same.
pub drop_ips-targets :
    (d : Dropper) (ips killed : List Str)
    → drop_ips d ips killed ≡ (true, killed ++ (if d.available then targets d ips else []))
unfolding drop_ips targets
drop_ips-targets d [] killed = ground (arith, append-nil killed)
drop_ips-targets d (ip ∷ ips) killed =
    ground (arith, append-nil killed, kill_loop-targets d (ip ∷ ips) killed)

-- The whitelist is respected by a list of addresses that were killed.
unfoldable pub Spares : Dropper → List Str → Type 0
Spares d killed = (ip : Str) → d.is_whitelisted ip ≡ true → has ip killed ≡ false

has-append : (k : Str) (xs ys : List Str) → has k (xs ++ ys) ≡ (has k xs || has k ys)
unfolding has
has-append k [] ys = refl
has-append k (x ∷ xs) ys = ground (arith, has-append k xs ys)

targets-Spares : (d : Dropper) (ips : List Str) → Spares d (targets d ips)
unfolding targets Spares has
targets-Spares d [] ip listed = refl
targets-Spares d (x ∷ ips) ip listed =
    ground (arith, targets-Spares d ips ip listed, str_beq_iff x ip)

drop_ips-Spares :
    (d : Dropper) (ips killed : List Str) → Spares d killed → Spares d (drop_ips d ips killed).1
unfolding Spares has
drop_ips-Spares d ips killed h ip listed = ground (
  arith,
  drop_ips-targets d ips killed,
  h ip listed,
  targets-Spares d ips ip listed,
  has-append ip killed (targets d ips),
  has-append ip killed [],
)

drop_listed-Spares :
    (d : Dropper) (ips : Option (List Str)) (killed : List Str)
    → Spares d killed
    → Spares d (drop_listed d ips killed).1
unfolding drop_listed
drop_listed-Spares d none killed h = h
drop_listed-Spares d (some []) killed h = h
drop_listed-Spares d (some (ip ∷ ips)) killed h = drop_ips-Spares d (nonempty (ip ∷ ips)) killed h

module _ (c : Client) (d : Dropper) where
  open c use {World}

  drop_each_user-Spares :
      (users : List Str) (success : Bool) (killed : List Str) (w : World)
      → Spares d killed
      → Spares d (drop_each_user c d users success killed w).0.1
  unfolding drop_each_user
  drop_each_user-Spares [] success killed w h = h
  drop_each_user-Spares (user ∷ users) success killed w h =
      let ips = get_user_ip_list c user true w in
      drop_each_user-Spares users _ _ ips.1 (drop_listed-Spares d ips.0 killed h)

  -- Whatever addresses the core lists for the users, dropping their connections kills no address of the
  -- whitelist, where none had been killed before.
  pub drop_users-Spares :
      (users killed : List Str) (w : World)
      → Spares d killed
      → Spares d (drop_users c d users killed w).0.1
  unfolding drop_users Spares
  drop_users-Spares users killed w h ip listed =
      ground (arith, h ip listed, drop_each_user-Spares users true killed w h ip listed)
