-- ===== src/Lib.antt =====
-- A model of the node agent of this repository: the process that keeps a running Xray core in step with
-- a dashboard. This library covers how the node records which users each inbound has, how it decides
-- whether a configuration needs a restart of the core, what it adds to that configuration, how it starts
-- and stops the core, how it adds and removes users through the core's gRPC service, how it accounts for
-- traffic, how it applies plugins and blocks addresses, how it probes TLS destinations, and how it
-- writes, serves and clears away the core's logs.
--
-- Parts, their files, and the code they model:
--   Xray.HashedSet (internal/xray/hashedset.go): `HashedSet`, a set of UUIDs with the exclusive or of two
--     djb2 hashes of each member. `add_value`, `delete_value`, `hash64_string` and `hash64_from_items` are
--     Add, Delete, Hash64String and hash64FromItems. A Go string is the list of its bytes; Prelude.Text
--     decodes its runes and encodes them as UTF-16, as the standard library documents.
--   Xray.HashState (internal/xray/hashstate.go, internal/xray/inbounds.go): the manager's fields
--     emptyConfigHash, inboundHashes and inboundTags, and each method on them. A nil map is `none`. A write
--     to a nil map is the outcome `panic`.
--   Xtls.Client, Xtls.Handler (internal/xtls/handler.go, internal/xray/handler.go, and GetUserIPList of
--     internal/xtls/stats.go and internal/xray/grpc.go): the calls of the core. The core itself is the
--     parameter `Client`, a world with a state: any answer of it is allowed.
--   Xtls.Stats (internal/xtls/stats.go): the loops that parse the core's counters, whose int64 values are
--     two's complement words, and the queries that use them.
--   NodeHandler (internal/nodehandler/handler.go, internal/connections/dropper.go): the requests that add
--     and remove users, in a monad of the node's state in which a handler may panic. `serve` runs a list
--     of requests.
--   Stats.Accounting (internal/stats/accounting_snapshot.go): Snapshot over the journal on disk. Its
--     `Environment` holds what one call meets: the reader's answer and what becomes of each write, which
--     may fail before or after the new file took the old one's place. `snapshot` is Snapshot up to what
--     it hands to accountingResponse, which is `accounting_response` of Stats.Accounting.Response.
--   NodeHandler.Queries (internal/nodehandler/handler.go, internal/connections/dropper.go): the requests
--     that read the users of an inbound and those that drop connections.
--   Xray.LogWriter (internal/xray/logrotate.go): the writer of the managed logs, over the files it uses
--     and `Faults`, which say which of its system calls fail. A renaming replaces a file of the new name, as
--     os.Rename does, and the operations on a file that was closed fail.
--   Xray.Manager (internal/xray/manager.go, internal/xray/persist.go): Start, Stop, the monitor of the core
--     and Health, each cut where another goroutine may run. `Step` of Xray.Manager.Steps is one such piece,
--     `Run` a sequence of them in any order that the locks allow. Xray.Manager.Saved reads what was saved, and
--     has internal/xray/running_config.go; Xray.PreStart is internal/xray/prestart.go.
--   Xray.Config (internal/xray/apiconfig.go, internal/xray/warp_guard.go): `generate_api_config` is
--     generateAPIConfig; `guard_warp_outbounds` is guardWarpOutbounds.
--   AuditLog (internal/auditlog/service.go, internal/httpserver/audit.go): AuditLog.Chunk is ReadChunk,
--     AuditLog.Catalog SourceMetadata and Catalog, AuditLog.Retention CleanLogsAt, AuditLog.Cutoff CleanLogs,
--     AuditLog.Requests the handlers. AuditLog.Chunk.Poll has a reader that follows a log.
--   BodyLimit (internal/bodylimit/middleware.go): Read of the reader that bounds a decompressed body.
--   Plugin (internal/plugin): Plugin.Hash is objecthash.go, on the tokens of a JSON text (`Raw`), with what
--     `encoding/json` decodes it to; Plugin.Lists reads the lists of a configuration, Plugin.Checks and
--     Plugin.Validate are schema_validate.go, Plugin.Settings is state.go with the configuration of the
--     torrent blocker and of prestart.go, Plugin.Source the pattern for the source of a webhook, Plugin.Script
--     and Plugin.Nft the scripts and runs of nft, Plugin.Service and Plugin.Blocking the handlers.
--     Plugin.Runs has sequences of requests and webhooks; `View` of Plugin.Service.View is what the
--     service promises.
--   SniHealth (internal/snihealth/probe.go, internal/snihealth/network_policy.go): SniHealth.Engine is the
--     probe of a TLS destination, SniHealth.Probe that of one of its addresses, SniHealth.Parts and
--     SniHealth.Checks the checks and the verdict. `Adapters` is ProbeAdapters with the clock.
-- Start of Xray.Manager takes the full configuration from a parameter `Generator`, whose part Xray.Config
-- models, and rebuilds the record of Xray.HashState from it. AuditLog reads the segments that
-- Xray.LogWriter seals.
-- The handlers of NodeHandler call Xtls for the core and Xray.HashState for the record. The dashboard
-- later compares the hashes of that record with its own, by Xray.HashState.
--
-- Choices of the model:
--   A Go map is an association list with distinct keys, or a list of distinct keys. A `range` over a map
--   visits it in an order the world chooses (`range_order`); where the order of visits cannot matter, as
--   in the restart decision, the list order stands for it.
--   Words of 32 bits wrap around by `% 2 ^ 32`. `format_uint` has fuel for 64 digits, more than a number
--   of 64 bits has in any base. `flush` has fuel for one round to each waiting byte, since a round that goes
--   on takes at least one; `free_name` has fuel for one more name than there are sealed files.
--   File names come from `segment_name`, filepath.Dir and filepath.Base, which are parameters.
--   `strings.ToLower` is on ASCII letters, since the texts that are looked for afterwards are ASCII.
--   Journal counters are integers in place of their decimal texts. The identifiers and the time of a call
--   come with its environment. A lock that a method holds makes it one step.
--   netadmin.KillSocketsByIP is recorded by its address; its error only changes a log line here.
--   The files of AuditLog.Chunk are those of one moment, as `Files` has them; AuditLog.Retention has the
--   directory as a state and `Answers`, which say what each call on it gives. A journal line is a gap, a line
--   that is not JSON, or the rest of a write that was cut short.
--   `poll` of AuditLog.Chunk.Poll takes the number of its requests; as many as there are bytes are enough.
--   The adapters of a probe answer by address and by the number of the call; the order in which its workers
--   run makes no difference, since each writes to its own place. A deadline that has passed is a Boolean.
--   In Xray.Manager a core is a number, and `cores` has those that run. RestoreOnBoot is a caller of Start.
--   The `Generator` of full configurations is one for a whole run: the torrent blocker's options and the
--   environment stay as they are. RunningConfig is one step: that it holds
--   the lock while it pings the core, and so may turn a Start away, is left out.
--   The `Library` of Plugin has what its code calls outside: the parsers of addresses, the builder of
--   prefix sets, SHA-256, the reading of a JSON number as a float64, of which `Number` keeps what the code
--   looks at, the program nft and the clock. A conversion of a float64 that does not fit an int gives the
--   least int64, as on amd64. The text of an error that is only logged is left out.
--
-- Not modelled: the pipes that feed the log writer, the targets and the service of the probes, system
-- statistics, most routes of the HTTP server; input and output, TLS and system calls as such.
pub mod AuditLog
pub mod BodyLimit
pub mod NodeHandler
pub mod Plugin
pub mod Prelude
pub mod SniHealth
pub mod Stats
pub mod Xray
pub mod Xtls
