-- ===== src/Worktree/Bounds.antt =====
-- The range of the ports, and when two worktrees share them.
use cellixjs.Base.{
  ℕ, ◌+◌, ◌*◌, ◌%◌, ◌≤◌, ◌<◌, String, Option, none, some, ◌==◌, ◌≡◌, refl, arith, if◌then◌else◌,
}
use cellixjs.Worktree.{
  absolute, hash_from, get_worktree_port_offset, get_mongo_port, get_azurite_ports,
}

-- The offset in hundreds.
abbrev pub bucket : Option String → ℕ
bucket none = 0
bucket (some name) = if name == "" then 0 else absolute (hash_from 0 name) % 49 + 1

offset-bucket : (name : Option String) → get_worktree_port_offset name ≡ bucket name * 100
unfolding get_worktree_port_offset
offset-bucket none = refl
offset-bucket (some name) = ground arith

bucket_bound : (name : Option String) → bucket name ≤ 49
bucket_bound none = omega arith
bucket_bound (some name) = ground arith

-- Every port of a service of Azurite.
pub data IsPortOf (name : Option String) : ℕ → Type 0 where
  blob_port : IsPortOf name (get_azurite_ports name).blob
  queue_port : IsPortOf name (get_azurite_ports name).queue
  table_port : IsPortOf name (get_azurite_ports name).table

port-bucket :
    (name : Option String) (p : ℕ)
    → IsPortOf name p
    → (d : ℕ) × (d < 3) × (p ≡ 10000 + bucket name * 100 + d)
unfolding get_azurite_ports
port-bucket name p blob_port = (0, omega arith, ground (arith, offset-bucket name))
port-bucket name p queue_port = (1, omega arith, ground (arith, offset-bucket name))
port-bucket name p table_port = (2, omega arith, ground (arith, offset-bucket name))

-- Every Azurite port of any worktree is from 10000 to 14902, and every worktree's MongoDB port from
-- 50000 to 54900; and two worktrees that share an Azurite port have the same offset.
pub ports_are_apart :
    (name other : Option String) (p q : ℕ)
    → IsPortOf name p
    → IsPortOf other q
    → (10000 ≤ p)
      × (p ≤ 14902)
      × (50000 ≤ get_mongo_port other)
      × (get_mongo_port other ≤ 54900)
      × (p ≡ q → get_worktree_port_offset name ≡ get_worktree_port_offset other)
unfolding get_mongo_port
ports_are_apart name other p q h k =
    let (d, d_small, p_is) = port-bucket name p h in
    let (e, e_small, q_is) = port-bucket other q k in
    ground (arith, bucket_bound name, bucket_bound other, offset-bucket name, offset-bucket other)
