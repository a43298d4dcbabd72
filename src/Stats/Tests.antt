-- ===== src/Stats/Tests.antt =====
-- The module of internal/stats at concrete inputs.
use remnaplus_alpine_node.Prelude.Text.{split}
use remnaplus_alpine_node.Xtls.Stats.{user_counter}
use remnaplus_alpine_node.Stats.Accounting.Names.{
  user_part, parse_accounting_counter_name, user_counter-parse,
}
use remnaplus_alpine_node.Stats.Accounting.Snapshot.{snapshot_durable, snapshot_loses_nothing}
use remnaplus_alpine_node.Prelude.Map.{lookup}
use remnaplus_alpine_node.Prelude.Int.{pos}
use remnaplus_alpine_node.Stats.Accounting.Continuity.{snapshot-IsContinuous, IsContinuous, Follows}
use remnaplus_alpine_node.Stats.Accounting.Baseline.{accounting_response-baseline}
use remnaplus_alpine_node.Stats.Accounting.Response.{accounting_response}
use remnaplus_alpine_node.Stats.Accounting.{
  is_pending, ack_unknown, ack_unknown, is_pending, sample_read, take_sample, acknowledge_pending,
  acknowledge_found, checkpoint_of, written, any_lower, acknowledge_sample, next_pending, snapshot,
  Environment, Journal, Checkpoint, Pending,
}
use remnaplus_alpine_node.Prelude.{
  Str, inl, ◌⊎◌, ◌≡◌, refl, lit, [], ◌∷◌, some, none, str_beq, str_eq,
}

-- A sample that is pending, and a call that meets a counter which grew.
abbrev sample : Pending
sample = record {
  diagnostics = [];
  from = (lit "user>>>ann>>>traffic>>>uplink", pos 5) ∷ [];
  generation = lit "g";
  sample_id = lit "s1";
  sampled_at = lit "t1";
  to = (lit "user>>>ann>>>traffic>>>uplink", pos 8) ∷ [];
}

abbrev before_sample : Checkpoint
before_sample = record {
  counters = (lit "user>>>ann>>>traffic>>>uplink", pos 5) ∷ [];
  generation = lit "g";
  sample_id = lit "s0";
}

abbrev journal : Journal
journal = record { acknowledged = some before_sample; pending = some sample; quarantined = none }

abbrev env : Environment
env = record {
  reading = some ((lit "user>>>ann>>>traffic>>>uplink", pos 11) ∷ [], lit "g");
  fresh_id = lit "s2";
  now = lit "t2";
  first_write = written;
  second_write = written;
}

-- The sample that follows the acknowledgement.
abbrev following : Pending
following =
    next_pending (some (checkpoint_of sample)) ((lit "user>>>ann>>>traffic>>>uplink", pos 11) ∷ [])
      (lit "g") env

snapshot_durable_example : (snapshot env (lit "s1") [] journal).1.pending ≡ some following
unfolding snapshot acknowledge_sample acknowledge_found acknowledge_pending take_sample sample_read
    is_pending str_beq
snapshot_durable_example = snapshot_durable env (lit "s1") [] journal following [] refl

snapshot_loses_nothing_example :
    ((snapshot env (lit "s1") [] journal).1.pending ≡ some sample)
    ⊎ (((lit "s1" ≡ sample.sample_id) ⊎ ([] ≡ sample.sample_id))
        × ((snapshot env (lit "s1") [] journal).1.acknowledged ≡ some (checkpoint_of sample)))
snapshot_loses_nothing_example = snapshot_loses_nothing env (lit "s1") [] journal sample refl

journal-IsContinuous : IsContinuous journal
unfolding Follows any_lower lookup str_beq
journal-IsContinuous = inl (refl, (refl, refl))

snapshot-IsContinuous_example : IsContinuous (snapshot env (lit "s1") [] journal).1
snapshot-IsContinuous_example = snapshot-IsContinuous env (lit "s1") [] journal journal-IsContinuous

-- The traffic of the sample that follows, and a counter with a name of no known form.
response_test :
    (accounting_response
      (record following { to = (lit "user>>>ann>>>other>>>foo>>>uplink", pos 1) ∷ following.to })
      []).users
    ≡ record { name = lit "ann"; downlink = lit "0"; uplink = lit "3" } ∷ []
unfolding accounting_response remnaplus_alpine_node.Stats.Accounting.Response.traffic_with
    remnaplus_alpine_node.Prelude.Sort.sort_strings
    remnaplus_alpine_node.Stats.Accounting.Response.rows_from
    remnaplus_alpine_node.Stats.Accounting.Response.sum_counters next_pending
    parse_accounting_counter_name remnaplus_alpine_node.Stats.Accounting.Names.parse_parts split
    str_beq remnaplus_alpine_node.Xtls.Stats.part
    remnaplus_alpine_node.Stats.Accounting.Response.add_counter
    remnaplus_alpine_node.Prelude.Map.insert lookup
    remnaplus_alpine_node.Stats.Accounting.Response.previous_of any_lower
    remnaplus_alpine_node.Stats.Accounting.Response.same_key remnaplus_alpine_node.Prelude.Int.◌+ℤ◌
    remnaplus_alpine_node.Prelude.Sort.str_le remnaplus_alpine_node.Prelude.Text.format_uint
    remnaplus_alpine_node.Prelude.Text.has_prefix remnaplus_alpine_node.Prelude.Text.split_loop
response_test = refl

-- A baseline with two spellings of one counter.
abbrev first_sample : Pending
first_sample = record sample {
  from = (lit "user>>>ann>>>traffic>>>uplink", pos 5) ∷ (lit "user>>>ann>>>uplink", pos 2) ∷ [];
  to = (lit "user>>>ann>>>traffic>>>uplink", pos 5) ∷ (lit "user>>>ann>>>uplink", pos 2) ∷ [];
}

accounting_response-baseline_example :
    ((accounting_response first_sample []).users ≡ [])
    × ((accounting_response first_sample []).inbounds ≡ [])
    × ((accounting_response first_sample []).outbounds ≡ [])
accounting_response-baseline_example = accounting_response-baseline first_sample [] refl

abbrev counter_name : Str
counter_name = lit "user>>>ann>>>traffic>>>uplink"

user_counter-parse_example :
    user_part (parse_accounting_counter_name counter_name)
    ≡ user_counter (split counter_name (lit ">>>"))
user_counter-parse_example = user_counter-parse counter_name
