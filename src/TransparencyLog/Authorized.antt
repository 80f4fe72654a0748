-- ===== src/TransparencyLog/Authorized.antt =====
-- The authorised nodes, as src/transparency_log/log.rs reads them from the table.
use pyrsia.Base.{Option, some, none, List, [], ◌∷◌, Bytes, ◌||◌}
use pyrsia.Outcome.{Outcome, ok, ◌>>=◌}
use pyrsia.TransparencyLog.Types.{
  TransparencyLog, TransparencyLogError, add_node, remove_node, same_operation,
}
use pyrsia.TransparencyLog.Database.{Database, Table, process_query, keep}

-- `find_added_nodes`
unfoldable pub find_added_nodes :
    Database → Table → Outcome TransparencyLogError (List TransparencyLog)
unfolding process_query
find_added_nodes db = process_query db [] (λ rows.
    keep (λ (log : TransparencyLog). same_operation log.operation add_node)
      (db.newest_by_node (
        keep
          (λ (log : TransparencyLog).
            same_operation log.operation add_node || same_operation log.operation remove_node)
          rows)))

-- The `flat_map` over `PeerId::from_str`
unfoldable pub parse_peers : (Bytes → Option Bytes) → List TransparencyLog → List Bytes
parse_peers from_str [] = []
parse_peers from_str (node ∷ nodes) =
    let rest = parse_peers from_str nodes in
    elim (from_str node.node_id) [ none ↦ rest | some peer_id ↦ peer_id ∷ rest ]

-- `get_authorized_nodes`
unfoldable pub get_authorized_nodes :
    Database → (Bytes → Option Bytes) → Table → Outcome TransparencyLogError (List Bytes)
unfolding find_added_nodes parse_peers
get_authorized_nodes db from_str table =
    find_added_nodes db table >>= λ nodes. ok (parse_peers from_str nodes)
