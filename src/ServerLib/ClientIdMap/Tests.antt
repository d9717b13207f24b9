-- ===== src/ServerLib/ClientIdMap/Tests.antt =====
-- Runs of the map.
use snowflake.Common.{ℕ, ◌≡◌, some, List, [], ◌∷◌, length, take}
use snowflake.Common.Eq.{nat_eq}
use snowflake.ServerLib.ClientIdMap.{ClientIdMap, get_id}
use snowflake.ServerLib.ClientIdMap.Recall.{replay, newest, answer, get_id-replay}

abbrev calls : List (ℕ × ℕ)
calls = (7, 30) ∷ (8, 20) ∷ (7, 10) ∷ []

get_id-replay_example :
    (m : ClientIdMap ℕ ℕ) × (replay 0 99 2 calls ≡ some m)
    × (length m.entries ≡ 2)
    × (get_id 99 m 8 ≡ some (answer 99 (newest 8 (take 2 calls))))
get_id-replay_example = get_id-replay 0 99 2 calls 8
