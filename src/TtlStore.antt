-- ===== src/TtlStore.antt =====
-- packages/cellix/server-oauth2-mock-seedwork/src/ttl-store.ts: the closures of createTtlStore and
-- the callback of its timer. The Map is its entries in order; every `Date.now()` is an argument.
pub mod Entries
pub mod Refinement
pub mod Tests
use cellixjs.Base.{
  ℕ, ◌+◌, Bool, true, false, String, List, [], ◌∷◌, Option, none, some, ◌==◌, lookup, ltb,
  if◌then◌else◌,
}

pub record TimedEntry (T : Type 0) : Type 0 where
  pub value : T
  pub expires_at : ℕ

abbrev pub Store : Type 0 → Type 0
Store T = List (String × TimedEntry T)

module _ {T : Type 0} where
  -- Map.prototype.set, which keeps the place of a key that is there.
  abbrev pub put : String → TimedEntry T → Store T → Store T
  put key e [] = (key, e) ∷ []
  put key e ((k, f) ∷ m) = if k == key then (key, e) ∷ m else (k, f) ∷ put key e m

  -- Map.prototype.delete.
  abbrev pub remove : String → Store T → Store T
  remove key [] = []
  remove key ((k, f) ∷ m) = if k == key then remove key m else (k, f) ∷ remove key m

  -- `get` on the entry that the map has for the key.
  abbrev pub read : ℕ → String → Store T → Option (TimedEntry T) → Option T × Store T
  read now key m none = (none, m)
  read now key m (some e) = if ltb e.expires_at now then (none, remove key m) else (some e.value, m)

  unfoldable pub get : ℕ → String → Store T → Option T × Store T
  get now key m = read now key m (lookup key m)

  unfoldable pub set : ℕ → ℕ → String → T → Store T → Store T
  set ttl_ms now key value m = put key (record { value = value; expires_at = now + ttl_ms }) m

  unfoldable pub del : String → Store T → Store T
  del key m = remove key m

  unfoldable pub has : ℕ → String → Store T → Bool × Store T
  has now key m = let r = get now key m in (elim r.0 [ none ↦ false | some value ↦ true ], r.1)

  -- The loop of the timer's callback.
  unfoldable pub sweep : ℕ → Store T → Store T
  sweep now [] = []
  sweep now ((k, e) ∷ m) = if ltb e.expires_at now then sweep now m else (k, e) ∷ sweep now m

-- What can happen to a store, each with the time that the clock then shows.
pub data StoreEvent (T : Type 0) : Type 0 where
  gets has_key : ℕ → String → StoreEvent T
  sets : ℕ → String → T → StoreEvent T
  deletes : ℕ → String → StoreEvent T
  timer : ℕ → StoreEvent T

module _ {T : Type 0} where
  unfoldable pub perform : ℕ → StoreEvent T → Store T → Store T
  perform ttl_ms (gets now key) m = (get now key m).1
  perform ttl_ms (has_key now key) m = (has now key m).1
  perform ttl_ms (sets now key value) m = set ttl_ms now key value m
  perform ttl_ms (deletes now key) m = del key m
  perform ttl_ms (timer now) m = sweep now m

  unfoldable pub run : ℕ → List (StoreEvent T) → Store T → Store T
  run ttl_ms [] m = m
  run ttl_ms (e ∷ es) m = run ttl_ms es (perform ttl_ms e m)
