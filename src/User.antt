-- ===== src/User.antt =====
-- mkosi/user.py: the range of IDs that a user has, and the map of the user namespace that
-- `become_root` makes of it. The system calls are not modelled.
pub mod Subrange
pub mod Laws
use mkosi.Base.{
  ℕ, ◌+◌, ◌-◌, ◌≤◌, ◌<◌, Bool, true, false, not, ◌&&◌, ◌||◌, Option, none, some, List, [], ◌∷◌, ltb,
  leb, if◌then◌else◌,
}

abbrev pub subrange : ℕ
subrange = 65536

-- Three arguments of `newuidmap`: an ID inside the namespace, the ID outside it, and how many.
pub record Extent : Type 0 where
  pub inside : ℕ
  pub outside : ℕ
  pub count : ℕ

-- `newuidmap` and `newgidmap` behind the process ID, for the start of the range and the own ID.
unfoldable pub id_map : ℕ → ℕ → List Extent
id_map sub own =
    record { inside = 0; outside = sub; count = subrange - 100 }
    ∷ record { inside = subrange - 100; outside = own; count = 1 }
    ∷ record { inside = subrange - 100 + 1; outside = sub + subrange - 100 + 1; count = 99 }
    ∷ []

-- What the kernel makes of an ID: user_namespaces(7).
unfoldable pub outside_id : List Extent → ℕ → Option ℕ
outside_id [] id = none
outside_id (e ∷ es) id =
    if leb e.inside id && ltb id (e.inside + e.count)
    then some (e.outside + (id - e.inside))
    else outside_id es id

-- `INVOKING_USER.uid` and `INVOKING_USER.gid` behind `become_root`.
abbrev pub invoking_id : ℕ
invoking_id = subrange - 100
