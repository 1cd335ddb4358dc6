-- ===== src/Worktree/Tests.antt =====
-- The ports of one named worktree and of the default one.
use cellixjs.Base.{◌≤◌, ◌≡◌, none, some, refl}
use cellixjs.Worktree.{
  get_worktree_port_offset, get_azurite_ports, get_mongo_port, hash_from, step, char_code,
}
use cellixjs.Worktree.Bounds.{blob_port, queue_port, ports_are_apart}

hash_of_ab : hash_from 0 "ab" ≡ 3105
unfolding hash_from step char_code
hash_of_ab = refl

ports_are_apart_example :
    (10000 ≤ (get_azurite_ports (some "ab")).blob)
    × ((get_azurite_ports (some "ab")).blob ≤ 14902)
    × (50000 ≤ get_mongo_port none)
    × (get_mongo_port none ≤ 54900)
    × ((get_azurite_ports (some "ab")).blob ≡ (get_azurite_ports none).queue
        → get_worktree_port_offset (some "ab") ≡ get_worktree_port_offset none)
ports_are_apart_example =
    ports_are_apart (some "ab") none (get_azurite_ports (some "ab")).blob
      (get_azurite_ports none).queue blob_port queue_port
