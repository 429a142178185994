-- ===== src/Queue/Tests.antt =====
-- Runs of the queue's operations, and their theorems at a concrete table.
use podarium.Prelude.{
  List, ℕ, ◌≡◌, refl, arith, some, [], ◌∷◌, ◌++◌, filter, contains, length, is_some, if◌then◌else◌,
  take, drop, sort_by, insert_sorted,
}
use podarium.Model.Episode.{QueueItem}
use podarium.Queue.{
  Table, ok, err, not_found, owned, others, before, by_position, ordered, renumber,
  compact_queue_positions, drop_from_queue, is_dropped, add_item, insert_item, find_item, make_room,
  shift, next_position, reorder_queue, remove_from_queue, delete_item, remaining, unknown_ids,
  place,
}
use podarium.Queue.Order.{
  episodes, IsDense, ordered-compact_queue_positions, compact_queue_positions-IsDense,
}
use podarium.Queue.Drop.{stays, drop_from_queue_lem}
use podarium.Queue.Insert.{add_item_lem}
use podarium.Queue.Refine.{
  put, discard, remove, arrange, perform_all-promise_all, perform_all, Command,
}
use podarium.Queue.Once.{IsOnce}
use podarium.Queue.Reorder.{reorder_queue-ok, reorder_queue-IsDense, reorder_queue-contains}

program : Unit {0}
unfolding owned others before by_position ordered renumber compact_queue_positions drop_from_queue
    is_dropped add_item insert_item find_item make_room shift next_position reorder_queue
    remove_from_queue delete_item remaining unknown_ids place sort_by insert_sorted
program = tt

abbrev item : ℕ → ℕ → ℕ → ℕ → QueueItem
item id u e p = record { id = id; user_id = u; episode_id = e; position = p; added_at = 0 }

-- User 1 plays 10, 20, 30; user 2 plays 10.
abbrev table : Table
table = item 3 1 30 2 ∷ item 1 1 10 0 ∷ item 4 2 10 5 ∷ item 2 1 20 1 ∷ []

table-IsDense : IsDense 1 table
unfolding program
table-IsDense = omega arith

add_second : episodes (ordered 1 (add_item 1 40 (some 1) 9 0 table)) ≡ 10 ∷ 40 ∷ 20 ∷ 30 ∷ []
unfolding program
add_second = refl

drop_second : episodes (ordered 1 (drop_from_queue 1 (20 ∷ []) table).0) ≡ 10 ∷ 30 ∷ []
unfolding program
drop_second = refl

remove_missing : remove_from_queue 2 20 table ≡ err not_found
unfolding program
remove_missing = refl

known : unknown_ids (30 ∷ 10 ∷ []) (owned 1 table) ≡ []
unfolding program
known = refl

compact_queue_positions-IsDense_example : IsDense 2 (compact_queue_positions 2 table)
compact_queue_positions-IsDense_example = compact_queue_positions-IsDense 2 table

ordered-compact_queue_positions_example :
    ordered 2 (compact_queue_positions 2 table) ≡ renumber 0 (ordered 2 table)
ordered-compact_queue_positions_example = ordered-compact_queue_positions 2 table

drop_from_queue_lem_example :
    let (t', n) = drop_from_queue 1 (20 ∷ []) table in
    (episodes (ordered 1 t') ≡ episodes (filter (stays (20 ∷ [])) (ordered 1 table)))
    × (n ≡ length (filter (is_dropped 1 (20 ∷ [])) table))
drop_from_queue_lem_example = drop_from_queue_lem 1 (20 ∷ []) table

add_item_lem_example :
    let es = episodes (ordered 1 table) in
    episodes (ordered 1 (add_item 1 40 (some 1) 9 0 table))
    ≡ (if is_some (find_item 1 40 table) then es else take 1 es ++ 40 ∷ drop 1 es)
add_item_lem_example = add_item_lem 1 40 9 0 table table-IsDense (some 1)

reorder_queue-ok_example :
    (t' : Table) × (reorder_queue 1 (30 ∷ 10 ∷ []) table ≡ ok t')
    × (episodes (ordered 1 t') ≡ 30 ∷ 10 ∷ episodes (remaining (30 ∷ 10 ∷ []) (owned 1 table)))
reorder_queue-ok_example = reorder_queue-ok 1 (30 ∷ 10 ∷ []) table known

reorder_queue-IsDense_example :
    (t' : Table) × (reorder_queue 1 (30 ∷ 10 ∷ []) table ≡ ok t') × IsDense 1 t'
reorder_queue-IsDense_example =
    reorder_queue-IsDense 1 (30 ∷ 10 ∷ []) table known (refl, (refl, tt))

reorder_queue-contains_example :
    (t' : Table) × (reorder_queue 1 (30 ∷ 10 ∷ []) table ≡ ok t')
    × (contains 20 (episodes (ordered 1 t')) ≡ contains 20 (episodes (ordered 1 table)))
reorder_queue-contains_example = reorder_queue-contains 1 (30 ∷ 10 ∷ []) table known 20

abbrev commands : List Command
commands =
    put 40 (some 1) 9 0
    ∷ discard (20 ∷ [])
    ∷ arrange (30 ∷ 40 ∷ [])
    ∷ arrange (50 ∷ [])
    ∷ remove 40
    ∷ remove 70
    ∷ []

abbrev Plays : Table → List ℕ → Type 0
Plays t es = IsDense 1 t × (episodes (ordered 1 t) ≡ es) × IsOnce (episodes (ordered 1 t))

table-IsOnce : IsOnce (episodes (ordered 1 table))
unfolding program
table-IsOnce e = ground arith

perform_all-promise_all_example : Plays (perform_all 1 commands table) (30 ∷ 10 ∷ [])
unfolding program
perform_all-promise_all_example =
    perform_all-promise_all 1 commands table table-IsDense table-IsOnce
      (tt, (tt, ((refl, (refl, tt)), ((refl, tt), (tt, (tt, tt))))))
