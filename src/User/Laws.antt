-- ===== src/User/Laws.antt =====
-- Which IDs the user namespace has, and that none of them is another user's.
use mkosi.Base.{ℕ, ◌+◌, ◌≤◌, ◌<◌, ◌≡◌, ◌≢◌, ◌⊎◌, none, some, arith}
use mkosi.User.{subrange, id_map, outside_id, invoking_id}

-- The invoking user's ID is the own one, every other ID below 65536 is the one at its place in the
-- range, and no other ID is mapped.
pub id_map-cases :
    (sub own id : ℕ)
    → ((id ≡ invoking_id) × (outside_id (id_map sub own) id ≡ some own))
      ⊎ ((id ≢ invoking_id) × (id < subrange) × (outside_id (id_map sub own) id ≡ some (sub + id)))
      ⊎ ((subrange ≤ id) × (outside_id (id_map sub own) id ≡ none))
unfolding outside_id id_map
id_map-cases sub own id = ground arith

-- Where the own ID is outside the range, no two IDs are mapped to the same one.
pub id_map-injective :
    (sub own id other outside : ℕ)
    → (own < sub) ⊎ (sub + subrange ≤ own)
    → outside_id (id_map sub own) id ≡ some outside
    → outside_id (id_map sub own) other ≡ some outside
    → id ≡ other
id_map-injective sub own id other outside apart h k =
    ground (arith, apart, h, k, id_map-cases sub own id, id_map-cases sub own other)
