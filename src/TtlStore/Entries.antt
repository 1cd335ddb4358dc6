-- ===== src/TtlStore/Entries.antt =====
-- The entries of a store: what each operation leaves under a key, and that keys stay distinct.
use cellixjs.Base.{
  subst, ℕ, ◌≤◌, String, [], ◌∷◌, Option, none, some, ◌==◌, ◌≡◌, refl, arith, lookup, ltb,
  if◌then◌else◌, Bool-cases, inl, inr, eq_left, eq_refl, eq_sound,
}
use cellixjs.TtlStore.{TimedEntry, Store, put, remove, sweep}

-- What an entry shows at a time.
abbrev pub view : {T : Type 0} → ℕ → Option (TimedEntry T) → Option T
view now none = none
view now (some e) = if ltb e.expires_at now then none else some e.value

module _ {T : Type 0} where
  abbrev pub Distinct : Store T → Type 0
  Distinct [] = Unit {0}
  Distinct ((k, e) ∷ m) = (lookup k m ≡ none) × Distinct m

  pub lookup-put :
      (j key : String) (e : TimedEntry T) (m : Store T)
      → lookup j (put key e m) ≡ (if key == j then some e else lookup j m)
  lookup-put j key e [] = refl
  lookup-put j key e ((k, f) ∷ m) = ground (
    arith,
    lookup-put j key e m,
    eq_left k key j,
    eq_left k j key,
    eq_left key j key,
    eq_refl key,
  )

  pub lookup-remove :
      (j key : String) (m : Store T)
      → lookup j (remove key m) ≡ (if key == j then none else lookup j m)
  lookup-remove j key [] = ground arith
  lookup-remove j key ((k, f) ∷ m) = ground (
    arith,
    lookup-remove j key m,
    eq_left k key j,
    eq_left k j key,
    eq_left key j key,
    eq_refl key,
  )

  absent_stays_absent :
      (j : String) (now : ℕ) (m : Store T) → lookup j m ≡ none → lookup j (sweep now m) ≡ none
  unfolding sweep
  absent_stays_absent j now [] h = refl
  absent_stays_absent j now ((k, f) ∷ m) h = ground (arith, absent_stays_absent j now m)

  -- A sweep leaves what every key shows from then on.
  pub view-sweep :
      (j : String) (swept now : ℕ) (m : Store T)
      → swept ≤ now
      → Distinct m
      → view now (lookup j (sweep swept m)) ≡ view now (lookup j m)
  unfolding sweep
  view-sweep j swept now [] later d = refl
  view-sweep j swept now ((k, f) ∷ m) later (fresh, d) = elim (Bool-cases (k == j)) [
    | inl same ↦
        let absent = subst (λ x. lookup x m ≡ none) (eq_sound k j same) fresh in
        ground (arith, same, absent_stays_absent j swept m absent)
    | inr other ↦ ground (arith, other, view-sweep j swept now m later d)
  ]

  pub put-Distinct :
      (key : String) (e : TimedEntry T) (m : Store T) → Distinct m → Distinct (put key e m)
  put-Distinct key e [] d = (refl, tt)
  put-Distinct key e ((k, f) ∷ m) (fresh, d) = elim (Bool-cases (k == key)) [
    | inl same ↦ rw same (subst (λ x. lookup x m ≡ none) (eq_sound k key same) fresh, d)
    | inr other ↦ rw other (
      ground (
        arith,
        lookup-put k key e m,
        other,
        fresh,
        eq_left key k key,
        eq_left k key k,
        eq_refl key,
        eq_refl k,
      ),
      put-Distinct key e m d,
    )
  ]

  pub remove-Distinct : (key : String) (m : Store T) → Distinct m → Distinct (remove key m)
  remove-Distinct key [] d = tt
  remove-Distinct key ((k, f) ∷ m) (fresh, d) = elim (Bool-cases (k == key)) [
    | inl same ↦ rw same (remove-Distinct key m d)
    | inr other ↦ rw other (ground (arith, lookup-remove k key m, fresh), remove-Distinct key m d)
  ]

  pub sweep-Distinct : (now : ℕ) (m : Store T) → Distinct m → Distinct (sweep now m)
  unfolding sweep
  sweep-Distinct now [] d = tt
  sweep-Distinct now ((k, f) ∷ m) (fresh, d) = elim (Bool-cases (ltb f.expires_at now)) [
    | inl past ↦ rw past (sweep-Distinct now m d)
    | inr live ↦ rw live (absent_stays_absent k now m fresh, sweep-Distinct now m d)
  ]
