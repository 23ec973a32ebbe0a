-- ===== src/Tests/Tables.antt =====
-- The theorem on the table of compute nodes at a concrete table.
use paracooba.Prelude.{false, []}
use paracooba.ComputeNode.Table.{
  IsTable, get_node, create_with_connection, empty, got, got_connected, TableReach-IsTable,
}

-- Node 7 connects, and then node 5 and node 7 are asked for.
TableReach-IsTable_example : IsTable (
    get_node 7 (
      get_node 5 (
        create_with_connection 7
          (record { nodes_list = []; nodes_ref_map = λ n. false; nodes_ref_vec = [] }))))
TableReach-IsTable_example = TableReach-IsTable (got 7 (got 5 (got_connected 7 empty)))
