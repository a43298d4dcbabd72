-- ===== src/AuditLog/Requests.antt =====
-- internal/httpserver/audit.go: the requests for the audit log, up to the texts of the responses.
use remnaplus_alpine_node.Prelude.{
  ℕ, Bool, true, false, not, ◌&&◌, ◌||◌, List, [], ◌∷◌, ◌++◌, if◌then◌else◌, ltb, Str, str_eq,
  nat_eq, ◌==◌, lit, length, Option, some, none,
}
use remnaplus_alpine_node.Prelude.Int.{ℤ, pos, ltb_ℤ}
use remnaplus_alpine_node.Prelude.Text.{format_uint}
use remnaplus_alpine_node.Prelude.Map.{has, is_some, lookup}
use remnaplus_alpine_node.AuditLog.Files.{
  inode_changed, Checked, good, bad, Files, Source, access_source, error_source, Service,
}
use remnaplus_alpine_node.AuditLog.Chunk.{ChunkRequest, Chunk, read_chunk}
use remnaplus_alpine_node.AuditLog.Catalog.{SourceMetadata, Segment, source_metadata, catalog}
use remnaplus_alpine_node.AuditLog.Retention.{Directory, Answers, CleanResult, Cleaned}
use remnaplus_alpine_node.AuditLog.Cutoff.{clean_logs_older}

abbrev pub max_audit_read_bytes : ℕ
max_audit_read_bytes = 50000000

-- The first value of each key of a query.
abbrev pub Values : Type 0
Values = List (Str × Str)

-- What strconv, strings and time make of a text.
pub record Parsers : Type 0 where
  pub parse_int : Str → Option ℤ
  pub trim_space : Str → Str
  pub parse_rfc3339 : Str → Option ℤ

-- A response: the value that is sent with status 200, or a status and a message.
pub data Response (A : Type 0) : Type 0 where
  sent : A → Response A
  error : ℕ → Str → Response A

-- A decoded part of a request, or the message of an error.
pub data Decoded (A : Type 0) : Type 0 where
  decoded : A → Decoded A
  invalid : Str → Decoded A

infixl 5 ◌>>=◌
abbrev ◌>>=◌ : {A B : Type 0} → Decoded A → (A → Decoded B) → Decoded B
decoded a >>= f = f a
invalid message >>= f = invalid message

abbrev or_empty : Option Str → Str
or_empty none = []
or_empty (some text) = text

-- `values.Get` and `values.Has`
abbrev pub value_of : Str → Values → Str
value_of key values = or_empty (lookup key values)

abbrev pub has_value : Str → Values → Bool
has_value key values = is_some (lookup key values)

unfoldable pub decode_audit_source : Str → Decoded Source
decode_audit_source value =
    if value == lit "access"
    then decoded access_source
    else if value == lit "error"
    then decoded error_source
    else invalid (lit "source must be access or error")

abbrev range_message : Str → ℕ → ℕ → Str
range_message key minimum maximum =
    if ltb 0 maximum
    then key
      ++ lit " must be between "
      ++ format_uint 10 minimum
      ++ lit " and "
      ++ format_uint 10 maximum
    else key ++ lit " must be at least " ++ format_uint 10 minimum

abbrev in_range : ℕ → ℕ → Option ℤ → Bool
in_range minimum maximum none = false
in_range minimum maximum (some value) =
    not (ltb_ℤ value (pos minimum) || (ltb 0 maximum && ltb_ℤ (pos maximum) value))

-- A maximum of 0 is none.
unfoldable pub optional_audit_int : Parsers → Values → Str → ℕ → ℕ → Decoded (Option ℤ)
optional_audit_int parsers values key minimum maximum =
    let value = parsers.parse_int (value_of key values) in
    if not (has_value key values)
    then decoded none
    else if in_range minimum maximum value
    then decoded value
    else invalid (range_message key minimum maximum)

unfoldable pub optional_audit_int_text : Parsers → Values → Str → Str → ℕ → ℕ → Decoded (Option ℤ)
optional_audit_int_text parsers values preferred fallback minimum maximum =
    if has_value preferred values
    then optional_audit_int parsers values preferred minimum maximum
    else optional_audit_int parsers values fallback minimum maximum

abbrev int_or_zero : Option ℤ → ℤ
int_or_zero none = pos 0
int_or_zero (some value) = value

unfoldable pub decode_expected_inode : Parsers → Values → Decoded Str
decode_expected_inode parsers values =
    let inode = parsers.trim_space (value_of (lit "expectedInode") values) in
    if not (has_value (lit "expectedInode") values)
    then decoded []
    else if inode == []
    then invalid (lit "expectedInode must not be empty")
    else decoded inode

abbrev timestamp_or_error : Option ℤ → Decoded (Option ℤ)
timestamp_or_error none = invalid (lit "fromTimestamp must be an RFC3339 timestamp")
timestamp_or_error (some time) = decoded (some time)

unfoldable pub decode_from_timestamp : Parsers → Values → Decoded (Option ℤ)
decode_from_timestamp parsers values =
    if has_value (lit "fromTimestamp") values
    then timestamp_or_error (parsers.parse_rfc3339 (value_of (lit "fromTimestamp") values))
    else decoded none

unfoldable pub decode_audit_chunk_request : Parsers → Values → Decoded ChunkRequest
decode_audit_chunk_request parsers values =
    decode_audit_source (value_of (lit "source") values) >>= λ source.
    optional_audit_int_text parsers values (lit "offsetText") (lit "offset") 0 0 >>= λ offset.
    optional_audit_int_text parsers values (lit "endOffsetText") (lit "endOffset") 0 0
    >>= λ end_offset.
        optional_audit_int parsers values (lit "initialTailBytes") 1 max_audit_read_bytes
        >>= λ tail.
            optional_audit_int parsers values (lit "maxReadBytes") 1 max_audit_read_bytes >>= λ max.
            decode_expected_inode parsers values >>= λ inode.
            decode_from_timestamp parsers values >>= λ from. decoded (record {
              end_offset = end_offset;
              expected_inode = inode;
              from_timestamp = from;
              initial_tail_bytes = int_or_zero tail;
              max_read_bytes = int_or_zero max;
              offset = offset;
              source = source;
              segment_id = parsers.trim_space (value_of (lit "segmentId") values);
            })

abbrev unavailable : {A : Type 0} → Response A
unavailable = error 500 (lit "audit log service unavailable")

-- What a handler answers where the service fails.
abbrev respond : {A : Type 0} → Str → Checked A → Response A
respond message (good value) = sent value
respond message (bad problem) = error 500 message

abbrev respond_chunk : Checked Chunk → Response Chunk
respond_chunk (bad inode_changed) = error 409 (lit "AUDIT_LOG_INODE_CHANGED")
respond_chunk other = respond (lit "failed to read audit log") other

abbrev answer : {A B : Type 0} → Decoded A → (A → Response B) → Response B
answer (decoded a) f = f a
answer (invalid message) f = error 400 message

abbrev with_service : {A : Type 0} → Option Service → (Service → Response A) → Response A
with_service none f = unavailable
with_service (some s) f = f s

unfoldable pub handle_get_audit_log_chunk :
    Files → Parsers → Option Service → Values → Response Chunk
handle_get_audit_log_chunk files parsers service values = with_service service (λ s.
    answer (decode_audit_chunk_request parsers values)
      (λ request. respond_chunk (read_chunk files s request)))

unfoldable pub handle_get_audit_log_source_metadata :
    Files → Option Service → Values → Response SourceMetadata
handle_get_audit_log_source_metadata files service values = with_service service (λ s.
    answer (decode_audit_source (value_of (lit "source") values)) (λ source.
      respond (lit "failed to read audit log metadata") (source_metadata files s source)))

unfoldable pub handle_get_audit_log_catalog :
    Files → Option Service → Values → Response (List Segment)
handle_get_audit_log_catalog files service values = with_service service (λ s.
    answer (decode_audit_source (value_of (lit "source") values))
      (λ source. respond (lit "failed to read audit log catalog") (catalog files s source)))

-- The body of a request to clean: `retentionDays` and `safeSegmentIds`, or `none` where it is not JSON.
abbrev pub CleanBody : Type 0
CleanBody = Option (ℤ × List Str)

abbrev slash : ℕ
slash = 47

abbrev backslash : ℕ
backslash = 92

abbrev is_valid_id : Str → Bool
is_valid_id id = not (id == [] || ltb 255 (length id) || has slash id || has backslash id)

all_valid_ids : List Str → Bool
all_valid_ids [] = true
all_valid_ids (id ∷ ids) = is_valid_id id && all_valid_ids ids

unfoldable pub decode_clean : CleanBody → Decoded (ℕ × List Str)
unfolding all_valid_ids
decode_clean (some (pos days, ids)) =
    if not (ltb 0 days)
    then invalid (lit "retentionDays must be a positive integer")
    else if ltb 10000 (length ids)
    then invalid (lit "safeSegmentIds contains too many entries")
    else if all_valid_ids ids
    then decoded (days, ids)
    else invalid (lit "safeSegmentIds contains an invalid entry")
decode_clean _ = invalid (lit "retentionDays must be a positive integer")

abbrev respond_clean : Cleaned → Directory × Response CleanResult
respond_clean (d, result) = (d, respond (lit "failed to clean audit logs") result)

abbrev answer_clean :
    Files
    → Answers
    → ℤ
    → Service
    → Decoded (ℕ × List Str)
    → Directory
    → Directory × Response CleanResult
answer_clean files answers now s (invalid message) d = (d, error 400 message)
answer_clean files answers now s (decoded (days, ids)) d =
    respond_clean (clean_logs_older files answers now s (pos days) ids d)

unfoldable pub handle_clean_audit_logs :
    Files → Answers → ℤ → Option Service → CleanBody → Directory → Directory × Response CleanResult
handle_clean_audit_logs files answers now none body d = (d, unavailable)
handle_clean_audit_logs files answers now (some s) body d =
    answer_clean files answers now s (decode_clean body) d
