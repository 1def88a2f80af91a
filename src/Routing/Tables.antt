-- ===== src/Routing/Tables.antt =====
-- A3/router.cpp: `updateDistanceVector` and `updateLsp`, over a QHash. `learn` is one round of either
-- loop; the cost table is `distanceVector.table` or `lsdb.table`.
pub mod Merge
pub mod Walks
pub mod Ibgp
use computer_network_course.Prelude.{
  ℕ, ◌+◌, Bool, true, false, List, [], ◌∷◌, Option, none, some, ltb, ◌==◌, if◌then◌else◌,
}
use computer_network_course.Routing.Qt.{QHash, value_or_zero}

module _ (q : QHash) where
  open q use {Table, find, insert, keys}

  pub record Tables : Type 0 where
    pub costs : Table
    pub forwarding : Table
    pub changed : Bool

  unfoldable pub write : ℕ → ℕ → ℕ → Tables → Tables
  write cost port key s = record {
    costs = insert s.costs key cost;
    forwarding = insert s.forwarding key port;
    changed = true;
  }

  unfoldable pub improve : Option ℕ → ℕ → ℕ → ℕ → Tables → Tables
  unfolding write
  improve none cost port key s = write cost port key s
  improve (some old) cost port key s = if ltb cost old then write cost port key s else s

  unfoldable pub learn : ℕ → Table → ℕ → ℕ → Tables → Tables
  unfolding improve
  learn id received port key s =
      if key == id
      then s
      else improve (find s.costs key) (value_or_zero (find received key) + 1) port key s

  unfoldable pub learn_all : ℕ → Table → ℕ → List ℕ → Tables → Tables
  learn_all id received port [] s = s
  learn_all id received port (key ∷ rest) s =
      learn_all id received port rest (learn id received port key s)

  -- `_id`, the received table and the port that it came through; the result says if anything changed.
  unfoldable pub update_distance_vector : ℕ → Table → ℕ → Table → Table → Tables
  unfolding learn_all
  update_distance_vector id received port costs forwarding =
      learn_all id received port (keys received)
        (record { costs = costs; forwarding = forwarding; changed = false })

  -- `updateLsp` is the same loop with no result.
  unfoldable pub update_lsp : ℕ → Table → ℕ → Table → Table → Table × Table
  unfolding learn_all
  update_lsp id received port costs forwarding =
      let s =
        learn_all id received port (keys received)
          (record { costs = costs; forwarding = forwarding; changed = false }) in
      (s.costs, s.forwarding)
