-- ===== src/TtlStore/Refinement.antt =====
-- The store against a table in which nothing is ever swept or dropped by a read.
use cellixjs.Base.{
  ℕ, ◌+◌, ◌≤◌, String, List, [], ◌∷◌, Option, none, some, ◌==◌, ◌≡◌, refl, ◌∙◌, arith, lookup, ltb,
  if◌then◌else◌, subst, Bool-cases, inl, inr, eq_sound,
}
use cellixjs.TtlStore.{
  TimedEntry, Store, StoreEvent, gets, has_key, sets, deletes, timer, read, get, set, del, has,
  perform, run,
}
use cellixjs.TtlStore.Entries.{
  view, Distinct, lookup-put, lookup-remove, view-sweep, put-Distinct, remove-Distinct,
  sweep-Distinct,
}

-- The table: under each key the last entry that was set and not deleted since.
abbrev pub Table : Type 0 → Type 0
Table T = String → Option (TimedEntry T)

module _ {T : Type 0} where
  abbrev pub time : StoreEvent T → ℕ
  time (gets now key) = now
  time (has_key now key) = now
  time (sets now key value) = now
  time (deletes now key) = now
  time (timer now) = now

  abbrev pub record_event : ℕ → StoreEvent T → Table T → Table T
  record_event ttl_ms (gets now key) s = s
  record_event ttl_ms (has_key now key) s = s
  record_event ttl_ms (sets now key value) s =
      λ j. if key == j then some (record { value = value; expires_at = now + ttl_ms }) else s j
  record_event ttl_ms (deletes now key) s = λ j. if key == j then none else s j
  record_event ttl_ms (timer now) s = s

  abbrev pub record_all : ℕ → List (StoreEvent T) → Table T → Table T
  record_all ttl_ms [] s = s
  record_all ttl_ms (e ∷ es) s = record_all ttl_ms es (record_event ttl_ms e s)

  -- The clock never goes back.
  abbrev pub Ordered : ℕ → List (StoreEvent T) → Type 0
  Ordered t [] = Unit {0}
  Ordered t (e ∷ es) = (t ≤ time e) × Ordered (time e) es

  abbrev pub last_time : ℕ → List (StoreEvent T) → ℕ
  last_time t [] = t
  last_time t (e ∷ es) = last_time (time e) es

  -- From `t` on, each key shows the same in the store and in the table.
  pub record Agrees (t : ℕ) (m : Store T) (s : Table T) : Type 0 where
    pub distinct : Distinct m
    pub same_view : (j : String) (now : ℕ) → t ≤ now → view now (lookup j m) ≡ view now (s j)

  read-view :
      (j key : String) (read_at now : ℕ) (m : Store T) (o : Option (TimedEntry T))
      → lookup key m ≡ o
      → read_at ≤ now
      → view now (lookup j (read read_at key m o).1) ≡ view now (lookup j m)
  read-view j key read_at now m none h later = refl
  read-view j key read_at now m (some e) h later = elim (Bool-cases (ltb e.expires_at read_at)) [
    | inr live ↦ rw live refl
    | inl past ↦ elim (Bool-cases (key == j)) [
      | inl same ↦
          let here = subst (λ x. lookup x m ≡ some e) (eq_sound key j same) h in
          ground (arith, past, same, here, lookup-remove j key m)
      | inr other ↦ ground (arith, past, other, lookup-remove j key m)
    ]
  ]

  read-Distinct :
      (key : String) (now : ℕ) (m : Store T) (o : Option (TimedEntry T))
      → Distinct m
      → Distinct (read now key m o).1
  read-Distinct key now m none d = d
  read-Distinct key now m (some e) d = elim (Bool-cases (ltb e.expires_at now)) [
    | inr live ↦ rw live d
    | inl past ↦ rw past (remove-Distinct key m d)
  ]

  read-value :
      (key : String) (now : ℕ) (m : Store T) (o : Option (TimedEntry T))
      → (read now key m o).0 ≡ view now o
  read-value key now m none = refl
  read-value key now m (some e) = ground arith

  perform-Agrees :
      (ttl_ms t : ℕ) (e : StoreEvent T) (m : Store T) (s : Table T)
      → t ≤ time e
      → Agrees t m s
      → Agrees (time e) (perform ttl_ms e m) (record_event ttl_ms e s)
  unfolding perform get has set del
  perform-Agrees ttl_ms t (gets at key) m s later a = record {
    distinct = read-Distinct key at m (lookup key m) a.distinct;
    same_view =
        λ j now h. read-view j key at now m (lookup key m) refl h ∙ a.same_view j now (omega arith);
  }
  perform-Agrees ttl_ms t (has_key at key) m s later a = record {
    distinct = read-Distinct key at m (lookup key m) a.distinct;
    same_view =
        λ j now h. read-view j key at now m (lookup key m) refl h ∙ a.same_view j now (omega arith);
  }
  perform-Agrees ttl_ms t (sets at key value) m s later a = record {
    distinct = put-Distinct key (record { value = value; expires_at = at + ttl_ms }) m a.distinct;
    same_view = λ j now h. ground (
      arith,
      lookup-put j key (record { value = value; expires_at = at + ttl_ms }) m,
      a.same_view j now (omega arith),
    );
  }
  perform-Agrees ttl_ms t (deletes at key) m s later a = record {
    distinct = remove-Distinct key m a.distinct;
    same_view = λ j now h. ground (arith, lookup-remove j key m, a.same_view j now (omega arith));
  }
  perform-Agrees ttl_ms t (timer at) m s later a = record {
    distinct = sweep-Distinct at m a.distinct;
    same_view = λ j now h. view-sweep j at now m h a.distinct ∙ a.same_view j now (omega arith);
  }

  run-Agrees :
      (ttl_ms t : ℕ) (es : List (StoreEvent T)) (m : Store T) (s : Table T)
      → Ordered t es
      → Agrees t m s
      → Agrees (last_time t es) (run ttl_ms es m) (record_all ttl_ms es s)
  unfolding run
  run-Agrees ttl_ms t [] m s o a = a
  run-Agrees ttl_ms t (e ∷ es) m s (here, later) a =
      run-Agrees ttl_ms (time e) es (perform ttl_ms e m) (record_event ttl_ms e s) later
        (perform-Agrees ttl_ms t e m s here a)

  -- However reads, writes, deletions and the timer's sweeps follow each other on a clock that never
  -- goes back, `get` on a store that began empty returns the value that was last set under the key,
  -- unless it was deleted since or its time is over: neither a sweep nor a read's clean-up is seen.
  pub get-run :
      (ttl_ms : ℕ) (es : List (StoreEvent T)) (now : ℕ) (key : String)
      → Ordered 0 es
      → last_time 0 es ≤ now
      → (get now key (run ttl_ms es [])).0 ≡ view now (record_all ttl_ms es (λ j. none) key)
  unfolding get
  get-run ttl_ms es now key o later =
      let a =
        run-Agrees ttl_ms 0 es [] (λ j. none) o
          (record { distinct = tt; same_view = λ j n h. refl }) in
      read-value key now (run ttl_ms es []) (lookup key (run ttl_ms es []))
      ∙ a.same_view key now later
