-- ===== src/TransparencyLog/Writing/Nodes.antt =====
-- What `add_authorized_node` of src/transparency_log/log.rs does for a new node.
use pyrsia.Base.{
  zero, suc, ◌<◌, ◌≡◌, refl, ap, sym, subst, ◌∙◌, Bool, true, false, some, List, [], ◌∷◌, ◌++◌,
  Bytes, arith, length, get_elem?, get_elem?-append_end, ◌&&◌, ◌||◌, ◌⊎◌, inl, inr,
}
use pyrsia.Outcome.{Outcome, ok, err, panicked}
use pyrsia.TransparencyLog.Types.{
  TransparencyLog, TransparencyLogError, add_node, remove_node, node_already_exists, same_operation,
}
use pyrsia.TransparencyLog.Database.{
  Database, DatabaseLaws, Table, open_db, bytes_eq, bytes_eq_iff, is_plain, keep, keep-append, IsIn,
}
use pyrsia.TransparencyLog.Reading.{node_rows, verify_node_does_not_exist, remove_authorized_node}
use pyrsia.TransparencyLog.Reading.Newest.{IsNewest, NodeAnswer, verify_node_does_not_exist_newest}
use pyrsia.TransparencyLog.Writing.{
  TransparencyLogService, Outside, Draws, has_id, node_log, submit, write_transparency_log,
  add_authorized_node,
}

IsIn-append_end :
    (x y : TransparencyLog) (xs : List TransparencyLog)
    → IsIn x (xs ++ y ∷ [])
    → IsIn x xs ⊎ (y ≡ x)
IsIn-append_end x y [] (zero, e) = inr (ground (arith, e))
IsIn-append_end x y [] (suc i, e) = absurd (cc)
IsIn-append_end x y (z ∷ zs) (zero, e) = inl (0, e)
IsIn-append_end x y (z ∷ zs) (suc i, e) = elim (IsIn-append_end x y zs (i, e)) [
  | inl before ↦ inl (suc before.0, before.1)
  | inr last ↦ inr last
]

module _ (db : Database) (draws : Draws) (peer_id : Bytes) (table : Table)
    (newer : (y : TransparencyLog)
      → IsIn y (node_rows peer_id table)
      → y.timestamp < draws.now) where
  abbrev log : TransparencyLog
  log = node_log draws peer_id

  node_rows-written : node_rows peer_id (table ++ log ∷ []) ≡ node_rows peer_id table ++ log ∷ []
  unfolding keep node_log
  node_rows-written =
      let test : TransparencyLog → Bool = λ r.
        (same_operation r.operation add_node || same_operation r.operation remove_node)
        && bytes_eq r.node_id peer_id in
      let new : keep test (log ∷ []) ≡ log ∷ [] = ground (arith, bytes_eq_iff peer_id peer_id) in
      keep-append test table (log ∷ []) ∙ ap (λ rows. keep test table ++ rows) new

  newest_adds :
      (x : TransparencyLog)
      → IsNewest x (node_rows peer_id (table ++ log ∷ []))
      → x.operation ≡ add_node
  unfolding node_log
  newest_adds x newest =
      let rows = node_rows peer_id table in
      let newest' : IsNewest x (rows ++ log ∷ []) = subst (IsNewest x) node_rows-written newest in
      let last = newest'.1 log (length rows, get_elem?-append_end rows log) in
      elim (IsIn-append_end x log rows newest'.0) [
        | inl before ↦ absurd (omega (arith, newer x before, last))
        | inr same ↦ sym (ap (λ (y : TransparencyLog). y.operation) same)
      ]

  verify_written :
      open_db db ≡ ok tt
      → DatabaseLaws db
      → is_plain peer_id ≡ true
      → verify_node_does_not_exist db peer_id (table ++ log ∷ [])
        ≡ err (node_already_exists peer_id)
  verify_written o laws plain =
      let t : Table = table ++ log ∷ [] in
      let answer = verify_node_does_not_exist_newest db peer_id t o laws plain in
      go (verify_node_does_not_exist db peer_id t) answer
    where
      go :
          (r : Outcome TransparencyLogError (Unit {0}))
          → NodeAnswer peer_id (table ++ log ∷ []) r
          → r ≡ err (node_already_exists peer_id)
      go (ok _) (inl empty) =
          let all : node_rows peer_id table ++ log ∷ [] ≡ [] = sym node_rows-written ∙ empty in
          let at : get_elem? [] (length (node_rows peer_id table)) ≡ some log =
            subst (λ l. get_elem? l (length (node_rows peer_id table)) ≡ some log) all
              (get_elem?-append_end (node_rows peer_id table) log) in
          absurd (cc)
      go (ok _) (inr (x, newest, removes)) = let adds = newest_adds x newest in absurd (cc)
      go (err e) (same, _) = ap err same
      go panicked a = elim a [ ]

-- In a database that opens and orders rows as documented: a peer that may be added, at a time after
-- every row of it, with a record that the table takes under a new identifier, and whose payload the
-- blockchain takes, is added: its payload is submitted and its row written. From then on it counts
-- as a node: adding it again is refused and changes nothing, whatever that call draws. Removing it
-- answers that it is done, but only looks at the table and writes nothing. Peers whose text has a
-- quote or a zero are left out.
pub add_authorized_node-verify_node_does_not_exist :
    (db : Database) (out : Outside) (draws : Draws) (peer_id payload : Bytes)
    (s : TransparencyLogService)
    → open_db db ≡ ok tt
    → DatabaseLaws db
    → is_plain peer_id ≡ true
    → verify_node_does_not_exist db peer_id s.table ≡ ok tt
    → ((y : TransparencyLog) → IsIn y (node_rows peer_id s.table) → y.timestamp < draws.now)
    → db.accepts (node_log draws peer_id) ≡ true
    → has_id draws.id s.table ≡ false
    → out.to_json (node_log draws peer_id) ≡ some payload
    → out.adds_block payload ≡ true
    → (s' : TransparencyLogService) × (add_authorized_node db out draws peer_id s ≡ (ok tt, s'))
      × (s'.submitted ≡ payload ∷ s.submitted)
      × (s'.table ≡ s.table ++ node_log draws peer_id ∷ [])
      × ((later : Draws)
          → add_authorized_node db out later peer_id s' ≡ (err (node_already_exists peer_id), s'))
      × (remove_authorized_node db peer_id s'.table ≡ ok tt)
unfolding add_authorized_node submit write_transparency_log remove_authorized_node
add_authorized_node-verify_node_does_not_exist db out draws peer_id payload s o laws plain free
      newer accepted new json added =
    let there = verify_written db draws peer_id s.table newer o laws plain in
    let s' : TransparencyLogService = record {
      table = s.table ++ node_log draws peer_id ∷ [];
      submitted = payload ∷ s.submitted;
    } in
    (
      s',
      ground (arith, free, json, added, accepted, new, o),
      refl,
      refl,
      (λ later. ground (arith, there)),
      ground (arith, there),
    )
