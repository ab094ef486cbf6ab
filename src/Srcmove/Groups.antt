-- ===== src/Srcmove/Groups.antt =====
-- srcdiffvisual/srcmove/move_groups.py: the paths of each move. A set is a list without repetition.
use src_visual.Common.{
  String, ◌≡◌, Bool, false, ◌&&◌, ◌||◌, List, [], ◌∷◌, any, str_eq, get_or, arith, eq_iff,
  Bool-cases, inl, inr,
}
use src_visual.Common.Dict.{Dict, get, put, get-put}
use src_visual.Srcmove.Units.{add_once}
use src_visual.Srcmove.Units.Unique.{add_once_lem}

-- What the dictionary has under an id, or else the empty set.
abbrev pub group_of : String → Dict (List String) → List String
group_of id groups = get_or (get id groups) []

module _ {V : Type 0} (move_id : V → String) where
  -- `groups.setdefault(move.move_id, set()).add(path)`
  unfoldable pub add_to_group : String → V → Dict (List String) → Dict (List String)
  add_to_group path move groups =
      put (move_id move) (add_once path (group_of (move_id move) groups)) groups

  unfoldable pub group_paths : Dict V → Dict (List String) → Dict (List String)
  unfolding add_to_group
  group_paths [] groups = groups
  group_paths ((path, move) ∷ moves) groups = group_paths moves (add_to_group path move groups)

  unfoldable pub group_move_paths_by_move_id : Dict V → Dict (List String)
  unfolding group_paths
  group_move_paths_by_move_id moves = group_paths moves []

  -- Whether a path is one of a move's.
  abbrev pub is_grouped : String → String → Dict (List String) → Bool
  is_grouped path id groups = any (str_eq path) (group_of id groups)

  abbrev pub takes_part : String → String → Dict V → Bool
  takes_part path id [] = false
  takes_part path id ((p, move) ∷ moves) =
      (str_eq path p && str_eq id (move_id move)) || takes_part path id moves

  add_to_group_lem :
      (path id p : String) (move : V) (groups : Dict (List String))
      → is_grouped path id (add_to_group p move groups)
        ≡ ((str_eq path p && str_eq id (move_id move)) || is_grouped path id groups)
  unfolding add_to_group
  add_to_group_lem path id p move groups = elim (Bool-cases (str_eq id (move_id move))) [
    | inl same ↦
        let at = get-put id (move_id move) (add_once p (group_of (move_id move) groups)) groups in
        ground (
          arith,
          at,
          same,
          eq_iff id (move_id move),
          add_once_lem path p (group_of (move_id move) groups),
        )
    | inr other ↦
        rw (get-put id (move_id move) (add_once p (group_of (move_id move) groups)) groups, other)
          (ground arith)
  ]

  group_paths_lem :
      (path id : String) (moves : Dict V) (groups : Dict (List String))
      → is_grouped path id (group_paths moves groups)
        ≡ (is_grouped path id groups || takes_part path id moves)
  unfolding group_paths
  group_paths_lem path id [] groups = ground arith
  group_paths_lem path id ((p, move) ∷ moves) groups = ground (
    arith,
    group_paths_lem path id moves (add_to_group p move groups),
    add_to_group_lem path id p move groups,
  )

  -- A path is in the group of an id exactly if it is the path of a move that has the id.
  pub group_move_paths_by_move_id_lem :
      (path id : String) (moves : Dict V)
      → is_grouped path id (group_move_paths_by_move_id moves) ≡ takes_part path id moves
  unfolding group_move_paths_by_move_id get
  group_move_paths_by_move_id_lem path id moves = group_paths_lem path id moves []
