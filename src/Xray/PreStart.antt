-- ===== src/Xray/PreStart.antt =====
-- internal/xray/prestart.go: the stale sockets that are removed before the core starts.
pub mod Bound
use remnaplus_alpine_node.Prelude.{
  ℕ, Bool, true, false, ◌||◌, List, [], ◌∷◌, if◌then◌else◌, nat_beq, Str, str_eq, nat_eq, length,
  Option, none, some,
}
use remnaplus_alpine_node.Prelude.Map.{has}

abbrev pub max_pre_start_matches : ℕ
max_pre_start_matches = 256

-- What os.Lstat finds at a path.
pub data Found : Type 0 where
  nothing unknown socket other : Found

-- filepath.Glob, whose error is `none`, os.Lstat, and whether os.Remove succeeds.
pub record Sockets : Type 0 where
  pub glob : Str → Option (List Str)
  pub lstat : Str → Found
  pub removes : Str → Bool

-- `strings.ContainsAny(pattern, "*?[")`
abbrev pub is_glob : Str → Bool
is_glob pattern = has 42 pattern || has 63 pattern || has 91 pattern

abbrev pub matches_or_none : Option (List Str) → List Str
matches_or_none none = []
matches_or_none (some paths) = paths

abbrev pub matches_of : Sockets → Str → List Str
matches_of sockets pattern =
    if is_glob pattern then matches_or_none (sockets.glob pattern) else pattern ∷ []

-- The result so far, latest first, and whether the bound was met. `seen` and `result` have the same paths.
unfoldable pub add_matches : List Str → List Str → List Str × Bool
add_matches [] result = (result, false)
add_matches (path ∷ paths) result =
    let same = add_matches paths result in
    let more = add_matches paths (path ∷ result) in
    if has path result
    then same
    else if nat_beq (length result) max_pre_start_matches
    then (result, true)
    else more

abbrev pub unless_full : (List Str → List Str) → List Str × Bool → List Str
unless_full next (result, true) = result
unless_full next (result, false) = next result

unfoldable pub resolve_from : Sockets → List Str → List Str → List Str
resolve_from sockets [] result = result
resolve_from sockets (pattern ∷ patterns) result =
    unless_full (resolve_from sockets patterns) (add_matches (matches_of sockets pattern) result)

abbrev reversed : List Str → List Str → List Str
reversed [] paths = paths
reversed (path ∷ rest) paths = reversed rest (path ∷ paths)

unfoldable pub resolve_socket_patterns : Sockets → List Str → List Str
resolve_socket_patterns sockets patterns = reversed (resolve_from sockets patterns []) []

abbrev pub is_removed : Sockets → Found → Str → Bool
is_removed sockets socket path = sockets.removes path
is_removed sockets _ path = false

-- The paths that are removed.
unfoldable pub remove_sockets : Sockets → List Str → List Str
remove_sockets sockets [] = []
remove_sockets sockets (path ∷ paths) =
    let rest = remove_sockets sockets paths in
    if is_removed sockets (sockets.lstat path) path then path ∷ rest else rest

-- By what the torrent blocker's provider answers, if there is one.
unfoldable pub run_pre_start : Sockets → Option (Bool × List Str) → List Str
run_pre_start sockets none = []
run_pre_start sockets (some (false, patterns)) = []
run_pre_start sockets (some (true, patterns)) =
    remove_sockets sockets (resolve_socket_patterns sockets patterns)
