-- ===== src/Worktree.antt =====
-- packages/cellix/local-dev/src/worktree/ports.ts. The worktree's name, which defaults to an
-- environment variable, is an argument: `none` where it is undefined.
pub mod Bounds
pub mod Tests
use Prim.Native.Char.{code}
use Prim.Native.String
use cellixjs.Base.{
  ℕ, ◌+◌, ◌-◌, ◌*◌, ◌/◌, ◌%◌, ◌^◌, Bool, String, Option, none, some, ltb, ◌==◌, if◌then◌else◌,
}

-- `char.charCodeAt(0)` of a code point: itself, or the first of its two UTF-16 units.
unfoldable pub char_code : ℕ → ℕ
char_code c = if ltb c 65536 then c else 55296 + (c - 65536) / 1024

-- `((hash << 5) - hash + charCode) | 0`, with a 32-bit integer as its residue modulo 2 ^ 32.
unfoldable pub step : ℕ → ℕ → ℕ
step hash c = ((hash * 32) % 2 ^ 32 + (2 ^ 32 - hash) + c) % 2 ^ 32

unfoldable pub hash_from : ℕ → String → ℕ
hash_from hash String.[] = hash
hash_from hash (String.◌∷◌ c s) = hash_from (step hash (char_code (code c))) s

-- `Math.abs(hash)`: a residue from 2 ^ 31 on stands for a negative number.
unfoldable pub absolute : ℕ → ℕ
absolute hash = if ltb hash (2 ^ 31) then hash else 2 ^ 32 - hash

unfoldable pub get_worktree_port_offset : Option String → ℕ
get_worktree_port_offset none = 0
get_worktree_port_offset (some name) =
    if name == "" then 0 else (absolute (hash_from 0 name) % 49 + 1) * 100

unfoldable pub get_mongo_port : Option String → ℕ
get_mongo_port name = 50000 + get_worktree_port_offset name

pub record AzuritePorts : Type 0 where
  pub blob : ℕ
  pub queue : ℕ
  pub table : ℕ

unfoldable pub get_azurite_ports : Option String → AzuritePorts
get_azurite_ports name = record {
  blob = 10000 + get_worktree_port_offset name;
  queue = 10001 + get_worktree_port_offset name;
  table = 10002 + get_worktree_port_offset name;
}
