-- ===== src/Lineage/Opened.antt =====
-- A name that opens the lineage graph of internal/lineage for evaluation.
use goalrail.Base.{
  all_chars, char_count, byte_length, is_blank, split_slash, join_slash, clean_parts, clean_path,
  any, keep, sort_by, contains, add_key,
}
use goalrail.Lineage.Graph.{
  is_replica_reference, reference_set_key, claims_of, keys_of, claimed_relations, is_conflicting,
  conflict_of, conflicts_of, read_replica, mark_target, mark_targets, mark_events, graph,
  reference_matches, graph_matches, matching, resolve,
}

-- Opens the graph for evaluation.
unfoldable pub run : Unit {0}
unfolding is_replica_reference reference_set_key claims_of keys_of claimed_relations is_conflicting
    conflict_of conflicts_of read_replica mark_target mark_targets mark_events graph
    reference_matches graph_matches matching resolve all_chars char_count byte_length is_blank
    split_slash join_slash clean_parts clean_path any keep sort_by contains add_key
run = tt
