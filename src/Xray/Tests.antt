-- ===== src/Xray/Tests.antt =====
-- The module of internal/xray/hashedset.go, hashstate.go and inbounds.go at concrete inputs.
use remnaplus_alpine_node.Xray.LogWriter.Total.{ready, Settled, write_succeeds}
use remnaplus_alpine_node.Xray.LogWriter.Recover.{recover_segment_rotation, recover-seal}
use remnaplus_alpine_node.Prelude.{length}
use remnaplus_alpine_node.Xray.LogWriter.{sync_file, close_file}
use remnaplus_alpine_node.Xray.LogWriter.{
  seal_as, newline, Writer, never, after, write, flush, flush_at, index_byte, write_first,
  write_line, seal, unused_name, free_name, create_journal, create_new, call, effect, rename_active,
  create_active, reset_size, file_write, write_to, write_bytes, grown, drop_pending,
}
use remnaplus_alpine_node.Xray.LogWriter.Conserve.{archived, accepted}
use remnaplus_alpine_node.Xray.LogWriter.Write.{write_accepts, write_beginning}
use remnaplus_alpine_node.Prelude.{none, some, ℕ, ◌++◌}
use remnaplus_alpine_node.Xray.HashedSet.Invariant.{has-new_hashed_set}
use remnaplus_alpine_node.Xray.HashState.Restart.{
  is_need_restart_core_iff, UpToDate, incoming_recorded, no_restart_of_Describes, Describes,
}
use remnaplus_alpine_node.Xray.HashState.Coherent.{extract_users_from_config-IsCoherent, IsCoherent}
use remnaplus_alpine_node.Xray.HashState.{
  find_inbound, extract_client_ids, initial, extract_users_from_config, entries,
  is_need_restart_core, HashState, ConfigHash, InboundHash,
}
use remnaplus_alpine_node.Prelude.{
  str_beq, str_beq_iff, str_eq, arith, ◌↔◌, ◌≡◌, refl, lit, [], ◌∷◌, Str, true, false,
}
use remnaplus_alpine_node.Prelude.Text.{runes, utf16_encode, format_uint, repeat_str}
use remnaplus_alpine_node.Prelude.Map.{has, add, lookup, keys, insert}
use remnaplus_alpine_node.Prelude.Sort.{sort_strings}
use remnaplus_alpine_node.Prelude.Json.{Json, Fields, get, field, end, cons, nil}
use remnaplus_alpine_node.Xray.HashedSet.{
  hash64_from_items, HashedSet, hash64_string, new_hashed_set, add_value, djb2_dual,
}
use remnaplus_alpine_node.Xray.HashedSet.Tracks.{
  added, removed, update_sets, update_users, hash64_string-update_sets,
}

-- The vectors of the repository's tests.
single_uuid :
    hash64_string (new_hashed_set (lit "66ad4540-b58c-4ad2-9926-ea63445a9b57" ∷ []))
    ≡ lit "75ccc662-47b26544"
unfolding hash64_string new_hashed_set add_value has add djb2_dual runes utf16_encode format_uint
    repeat_str
single_uuid = refl

surrogate_pair :
    hash64_string (new_hashed_set ((0xf0 ∷ 0x9f ∷ 0x98 ∷ 0x80 ∷ []) ∷ [])) ≡ lit "00762822096ad59c"
unfolding hash64_string new_hashed_set add_value has add djb2_dual runes utf16_encode format_uint
    repeat_str
surrogate_pair = refl

abbrev ann : Str
ann = lit "ann"

abbrev bob : Str
bob = lit "bob"

abbrev two_users : HashedSet
two_users = new_hashed_set (ann ∷ bob ∷ [])

abbrev swapped_users : HashedSet
swapped_users = new_hashed_set (bob ∷ ann ∷ [])

hash64_string-update_sets_example :
    hash64_string (update_sets (added bob ∷ removed ann ∷ []) (new_hashed_set (ann ∷ [])))
    ≡ hash64_from_items (update_users (added bob ∷ removed ann ∷ []) (ann ∷ []))
hash64_string-update_sets_example =
    hash64_string-update_sets (added bob ∷ removed ann ∷ []) (ann ∷ [])

-- A configuration with one inbound, which has one user, and the dashboard's hashes of it.
abbrev client : Json
client = Json.obj (field (lit "id") (Json.str ann) end)

abbrev settings : Json
settings = Json.obj (field (lit "clients") (Json.arr (cons client nil)) end)

abbrev inbound : Json
inbound = Json.obj (field (lit "tag") (Json.str (lit "in")) (field (lit "settings") settings end))

abbrev config : Fields
config = field (lit "inbounds") (Json.arr (cons inbound nil)) end

abbrev one_inbound : InboundHash
one_inbound = record { users_count = 1; hash = hash64_from_items (ann ∷ []); tag = lit "in" }

abbrev one_hash : ConfigHash
one_hash = record { empty_config = lit "base"; inbounds = one_inbound ∷ [] }

abbrev one_state : HashState
one_state = extract_users_from_config initial one_hash config

one_state-IsCoherent : IsCoherent one_state
one_state-IsCoherent = extract_users_from_config-IsCoherent initial one_hash config

one_state-Describes : Describes one_hash (λ _. ann ∷ []) one_state
unfolding extract_users_from_config extract_client_ids get has lookup find_inbound sort_strings
    new_hashed_set add_value insert add str_beq
one_state-Describes = record {
  started = λ e. cc;
  same_base = refl;
  same_count = refl;
  same_users = λ tag set found k. ground (arith, has-new_hashed_set (ann ∷ []) k);
  hashed = λ tag found. (one_inbound, ground (arith, str_beq_iff (lit "in") tag), refl);
}

is_need_restart_core_iff_example :
    (is_need_restart_core one_state one_hash ≡ false) ↔ UpToDate one_state one_hash
is_need_restart_core_iff_example = is_need_restart_core_iff one_state one_hash one_state-IsCoherent

no_restart_of_Describes_example : is_need_restart_core one_state one_hash ≡ false
no_restart_of_Describes_example =
    no_restart_of_Describes one_state one_hash (λ _. ann ∷ []) one_state-IsCoherent
      one_state-Describes

incoming_recorded_example : has (lit "in") (keys (entries one_state.inbound_hashes)) ≡ true
unfolding has str_beq
incoming_recorded_example =
    incoming_recorded one_state one_hash one_state-IsCoherent (refl, tt)
      (no_restart_of_Describes one_state one_hash (λ _. ann ∷ []) one_state-IsCoherent
        one_state-Describes)
      (lit "in") refl

extract_users_from_config-IsCoherent_example :
    IsCoherent (extract_users_from_config initial one_hash config)
extract_users_from_config-IsCoherent_example =
    extract_users_from_config-IsCoherent initial one_hash config

-- A writer with a full active file, which seals it before the next line.
abbrev date : ℕ → Str
date n = lit "20260101"

abbrev segment_name : Str → Str → ℕ → Str
segment_name path day n = path ++ lit ".segment-" ++ day ++ format_uint 10 n

abbrev writer : Writer
writer = record {
  path = lit "log";
  active = some (lit "old" ++ newline ∷ []);
  sealed = [];
  journal = none;
  size = 4;
  max_size = 5;
  pending = [];
  segment = 0;
  closed = false;
  open_date = lit "20260101";
  ticks = 0;
  faults = never;
}

abbrev log_line : Str
log_line = lit "new" ++ newline ∷ lit "x"

write_accepts_example :
    accepted (write date segment_name log_line writer).1 ≡ accepted writer ++ log_line
unfolding write flush flush_at index_byte write_first write_line seal seal_as unused_name free_name
    create_journal create_new call effect rename_active create_active reset_size file_write write_to
    write_bytes grown drop_pending has str_beq format_uint sync_file close_file
write_accepts_example = write_accepts date segment_name log_line 5 writer refl

-- The third system call fails.
write_beginning_example :
    (rest : Str) × (archived
          (write date segment_name log_line (record writer { faults = after 2 0 })).1
        ++ rest
      ≡ accepted (record writer { faults = after 2 0 }) ++ log_line)
write_beginning_example =
    write_beginning date segment_name log_line (record writer { faults = after 2 0 })

-- Segments are named by their number alone.
abbrev numbered : Str → Str → ℕ → Str
numbered path day n = n ∷ []

write_succeeds_example :
    (text' : Str) × (w' : Writer) × (write date numbered log_line (ready (lit "old") writer)
      ≡ (some (length log_line), ready text' w'))
    × Settled w'
write_succeeds_example =
    write_succeeds date numbered (λ path day m n same_name. cc) log_line (lit "old") writer

recover-seal_example :
    archived
      (recover_segment_rotation
        (λ path. [])
        (λ path. path)
        (record (seal date segment_name (lit "20260102") (record writer { faults = after 7 0 })).1 {
          faults = never;
        })).1
    ≡ archived (record writer { faults = after 7 0 })
recover-seal_example =
    recover-seal (λ path. []) (λ path. path) date segment_name (lit "20260102")
      (record writer { faults = after 7 0 }) never
