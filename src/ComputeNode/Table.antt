-- ===== src/ComputeNode/Table.antt =====
-- The class ComputeNodeStore of modules/broker/broker_compute_node_store.cpp: the table of compute
-- nodes, and what follows when the work of this node changes.
use paracooba.Prelude.{
  ℕ, ◌+◌, ◌≡◌, refl, sym, ap, ◌∙◌, Bool, true, false, ◌||◌, List, [], ◌∷◌, ◌++◌, map, ◌==◌, ◌*◌,
  ltb, if◌then◌else◌, if_intro, Bool-cases, inl, inr, arith,
}
use paracooba.ComputeNode.{NodeStatus, increment_work, decrement_work, is_parsed, Utilization}

-- parac_compute_node, as far as the store sets it: whether it has the functions of a connection,
-- and how often it was sent the description of this node.
pub record NodeEntry : Type 0 where
  pub id : ℕ
  pub connected : Bool
  pub descriptions : ℕ

-- ComputeNodeStore::Internal. The references of the vector are given by the ids; the unordered map
-- has a reference to the node with an id, or none.
pub record Table : Type 0 where
  pub nodes_list : List NodeEntry
  pub nodes_ref_map : ℕ → Bool
  pub nodes_ref_vec : List ℕ

-- has
unfoldable pub has_node : ℕ → Table → Bool
has_node id t = t.nodes_ref_map id

-- create
unfoldable pub create_node : ℕ → Table → Table
create_node id t = record {
  nodes_list = record { id = id; connected = false; descriptions = 0 } ∷ t.nodes_list;
  nodes_ref_map = λ n. (if id == n then true else t.nodes_ref_map n);
  nodes_ref_vec = t.nodes_ref_vec ++ id ∷ [];
}

-- get; the node is the one with this id.
unfoldable pub get_node : ℕ → Table → Table
unfolding has_node create_node
get_node id t = if has_node id t then t else create_node id t

-- The node with this id gets the functions of its connection and the description of this node.
unfoldable pub connect_entry : ℕ → List NodeEntry → List NodeEntry
connect_entry id [] = []
connect_entry id (e ∷ es) =
    if e.id == id
    then record e { connected = true; descriptions = 1 + e.descriptions } ∷ es
    else e ∷ connect_entry id es

-- create_with_connection
unfoldable pub create_with_connection : ℕ → Table → Table
unfolding get_node connect_entry
create_with_connection id t =
    let t1 = get_node id t in record t1 { nodes_list = connect_entry id t1.nodes_list }

-- Whether the utilization is above n / d.
unfoldable pub is_above : (n d : ℕ) → Utilization → Bool
is_above n d u = ltb (n * u.denominator) (d * u.numerator)

-- What the store does after a change of this node's work.
pub data Reaction : Type 0 where
  status_to_peers : (important : Bool) → Reaction
  offloading : Reaction

-- incrementThisNodeWorkQueueSize; `utilization` is that of this node by then.
unfoldable pub increment_this_node :
    (has_input_file : Bool) → Utilization → ℕ → NodeStatus → NodeStatus × List Reaction
unfolding increment_work is_parsed is_above
increment_this_node has_input_file utilization originator s =
    let s1 = increment_work originator s in
    (
      s1,
      if has_input_file || is_parsed originator s1
          then status_to_peers false ∷ (if is_above 1 2 utilization then offloading ∷ [] else [])
          else [],
    )

-- decrementThisNodeWorkQueueSize
unfoldable pub decrement_this_node :
    (has_input_file : Bool) → ℕ → NodeStatus → NodeStatus × List Reaction
unfolding decrement_work is_parsed
decrement_this_node has_input_file originator s =
    let s1 = decrement_work originator s in
    (s1, if has_input_file || is_parsed originator s1 then status_to_peers false ∷ [] else [])

-- The table after any number of calls, from the empty one; ids are those that were asked for.
pub data TableReach : Table → Type 0 where
  empty : TableReach (record { nodes_list = []; nodes_ref_map = λ n. false; nodes_ref_vec = [] })
  got : {t : Table} (id : ℕ) → TableReach t → TableReach (get_node id t)
  got_connected : {t : Table} (id : ℕ) → TableReach t → TableReach (create_with_connection id t)

abbrev times : ℕ → List ℕ → ℕ
times id [] = 0
times id (x ∷ xs) = (if x == id then 1 else 0) + times id xs

-- How often the node with this id is in the list.
abbrev pub listed : ℕ → List NodeEntry → ℕ
listed id es = times id (map (λ (e : NodeEntry). e.id) es)

-- The list, the map and the vector have the same nodes, each of them once.
pub record IsTable (t : Table) : Type 0 where
  pub once : (id : ℕ) → listed id t.nodes_list ≡ (if t.nodes_ref_map id then 1 else 0)
  pub in_vector : (id : ℕ) → times id t.nodes_ref_vec ≡ listed id t.nodes_list

times-append : (id : ℕ) (xs ys : List ℕ) → times id (xs ++ ys) ≡ times id xs + times id ys
times-append id [] ys = omega arith
times-append id (x ∷ xs) ys = omega (arith, times-append id xs ys)

create_node-IsTable :
    (id : ℕ) (t : Table) → t.nodes_ref_map id ≡ false → IsTable t → IsTable (create_node id t)
unfolding create_node
create_node-IsTable id t h v = record {
  once = λ n. elim (Bool-cases (id == n)) [
    | inl e ↦
        let same : id ≡ n = ground (arith, e) in
        let absent : listed n t.nodes_list ≡ 0 = v.once n ∙ rw (← same) (rw h refl) in
        rw e (omega (arith, absent))
    | inr e ↦
        rw e
          (let z : 0 + listed n t.nodes_list ≡ listed n t.nodes_list = omega arith in z ∙ v.once n)
  ];
  in_vector = λ n. omega (arith, times-append n t.nodes_ref_vec (id ∷ []), v.in_vector n);
}

get_node-IsTable : (id : ℕ) (t : Table) → IsTable t → IsTable (get_node id t)
unfolding get_node has_node
get_node-IsTable id t v =
    if_intro IsTable (t.nodes_ref_map id) t (create_node id t) (λ _. v)
      (λ h. create_node-IsTable id t h v)

connect_entry-ids :
    (id : ℕ) (es : List NodeEntry)
    → map (λ (e : NodeEntry). e.id) (connect_entry id es) ≡ map (λ (e : NodeEntry). e.id) es
unfolding connect_entry
connect_entry-ids id [] = refl
connect_entry-ids id (e ∷ es) =
    if_intro
      (λ (xs : List NodeEntry).
        map (λ (f : NodeEntry). f.id) xs ≡ e.id ∷ map (λ (f : NodeEntry). f.id) es)
      (e.id == id) _ _ (λ _. refl) (λ _. ap (λ ys. e.id ∷ ys) (connect_entry-ids id es))

-- After any sequence of calls of `get` and `create_with_connection` on an empty table of compute
-- nodes, a node is in the list once if its id is in the map, and not at all otherwise, and it is
-- in the vector as often as in the list.
pub TableReach-IsTable : {t : Table} → TableReach t → IsTable t
unfolding create_with_connection
TableReach-IsTable empty = record { once = λ n. refl; in_vector = λ n. refl }
TableReach-IsTable (got {t} id r) = get_node-IsTable id t (TableReach-IsTable r)
TableReach-IsTable (got_connected {t} id r) =
    let v = get_node-IsTable id t (TableReach-IsTable r) in
    let same = connect_entry-ids id (get_node id t).nodes_list in
    record {
      once = λ n. ap (times n) same ∙ v.once n;
      in_vector = λ n. v.in_vector n ∙ ap (times n) (sym same);
    }
