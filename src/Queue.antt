-- ===== src/Queue.antt =====
-- The listening queue: src/podarium/services.py (`compact_queue_positions`, `drop_from_queue`) and
-- src/podarium/api/queue_routes.py. The table is the list of every user's rows; like the rows of a
-- table it has no order of its own, so a rewritten row may stand elsewhere in the list.
pub mod Order
pub mod Drop
pub mod Insert
pub mod Reorder
pub mod Once
pub mod Remove
pub mod Refine
pub mod Left
mod Tests
use podarium.Prelude.{
  ℕ, zero, suc, ◌+◌, Bool, ◌&&◌, ◌||◌, not, Option, none, some, List, [], ◌∷◌, ◌++◌, map, ltb, leb,
  ◌==◌, if◌then◌else◌, length, filter, any, find, contains, sort_by, max,
}
use podarium.Model.Enums.{Stamp}
use podarium.Model.Episode.{QueueItem}

abbrev pub Table : Type 0
Table = List QueueItem

-- `.where(QueueItem.user_id == user_id)`
unfoldable pub owned : ℕ → Table → Table
owned u = filter (λ r. r.user_id == u)

unfoldable pub others : ℕ → Table → Table
others u = filter (λ r. not (r.user_id == u))

-- `.order_by(QueueItem.position, QueueItem.id)`
unfoldable pub before : QueueItem → QueueItem → Bool
before a b = ltb a.position b.position || a.position == b.position && leb a.id b.id

-- The rows of a user's queue in playing order, as `_load_queue` selects them.
unfoldable pub ordered : ℕ → Table → Table
ordered u t = sort_by before (owned u t)

-- `for index, item in enumerate(items, i): item.position = index`
unfoldable pub renumber : ℕ → Table → Table
renumber i [] = []
renumber i (r ∷ rs) = record r { position = i } ∷ renumber (suc i) rs

unfoldable pub compact_queue_positions : ℕ → Table → Table
compact_queue_positions u t = others u t ++ renumber 0 (ordered u t)

-- A row of the user's that holds one of the episodes.
unfoldable pub is_dropped : ℕ → List ℕ → QueueItem → Bool
is_dropped u ids r = r.user_id == u && contains r.episode_id ids

-- The table afterwards, and how many rows were in the queue.
unfoldable pub drop_from_queue : ℕ → List ℕ → Table → Table × ℕ
drop_from_queue u ids t =
    let kept = compact_queue_positions u (filter (λ x. not (is_dropped u ids x)) t) in
    elim (filter (is_dropped u ids) t) [ [] ↦ (t, 0) | r ∷ rs ↦ (kept, length (r ∷ rs)) ]

-- `func.coalesce(func.max(QueueItem.position), -1)`, plus one.
unfoldable pub next_position : Table → ℕ
next_position [] = 0
next_position (r ∷ rs) = max (suc r.position) (next_position rs)

-- `item.position += 1` for the user's rows at or after the target.
unfoldable pub shift : ℕ → ℕ → QueueItem → QueueItem
shift u p r =
    if r.user_id == u && leb p r.position then record r { position = suc r.position } else r

-- Where the new row goes, and the rows it pushes down.
unfoldable pub make_room : ℕ → Option ℕ → Table → ℕ × Table
make_room u none t = (next_position (owned u t), t)
make_room u (some p) t = (p, map (shift u p) t)

-- The body of `add_to_queue` under `if existing is None`. `id` and `now` are what the database
-- assigns to the new row.
unfoldable pub insert_item : ℕ → ℕ → Option ℕ → ℕ → Stamp → Table → Table
insert_item u episode position id now t =
    let (p, rest) = make_room u position t in
    compact_queue_positions u
      (record { id = id; user_id = u; episode_id = episode; position = p; added_at = now } ∷ rest)

-- `existing` of `add_to_queue`: the user's row for the episode.
unfoldable pub find_item : ℕ → ℕ → Table → Option QueueItem
find_item u episode = find (λ r. r.user_id == u && r.episode_id == episode)

-- The queue part of `add_to_queue`.
unfoldable pub add_item : ℕ → ℕ → Option ℕ → ℕ → Stamp → Table → Table
add_item u episode position id now t = elim (find_item u episode t) [
  | some r ↦ t
  | none ↦ insert_item u episode position id now t
]

pub data Error : Type 0 where
  not_found : Error
  unprocessable : List ℕ → Error

pub data Result {ℓ} (A : Type ℓ) : Type ℓ where
  ok : A → Result A
  err : Error → Result A

-- `session.delete(item)`, of the row that was found.
unfoldable pub delete_item : ℕ → ℕ → Table → Table
delete_item u episode [] = []
delete_item u episode (r ∷ t) =
    let rest = delete_item u episode t in
    if r.user_id == u && r.episode_id == episode then t else r ∷ rest

-- `remove_from_queue`
unfoldable pub remove_from_queue : ℕ → ℕ → Table → Result Table
unfolding delete_item
remove_from_queue u episode t = elim (find_item u episode t) [
  | none ↦ err not_found
  | some r ↦ ok (compact_queue_positions u (delete_item u episode t))
]

-- `for index, episode_id in enumerate(body.episode_ids): items[episode_id].position = index`.
-- A row that is named twice keeps the last index it was given.
unfoldable pub place : ℕ → List ℕ → Table → Table
place i [] items = []
place i (e ∷ es) items =
    let rest = place (suc i) es items in
    if contains e es then rest else elim (find (λ r. r.episode_id == e) items) [
      | none ↦ rest
      | some r ↦ record r { position = i } ∷ rest
    ]

unfoldable pub by_position : QueueItem → QueueItem → Bool
by_position a b = leb a.position b.position

-- The rows that the request leaves out.
unfoldable pub remaining : List ℕ → Table → Table
remaining ids items = sort_by by_position (filter (λ r. not (contains r.episode_id ids)) items)

unfoldable pub unknown_ids : List ℕ → Table → List ℕ
unknown_ids ids items = filter (λ e. not (any (λ r. r.episode_id == e) items)) ids

-- `reorder_queue`
unfoldable pub reorder_queue : ℕ → List ℕ → Table → Result Table
reorder_queue u ids t =
    let items = owned u t in
    elim (unknown_ids ids items) [
      | [] ↦ ok (others u t ++ (place 0 ids items ++ renumber (length ids) (remaining ids items)))
      | e ∷ es ↦ err (unprocessable (e ∷ es))
    ]
