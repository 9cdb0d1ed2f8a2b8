-- ===== src/Commands/Lookup.antt =====
-- The index of the registry refines a search through its definitions.
use ebiclaw.Prelude.{
  ℕ, suc, ◌≡◌, ◌||◌, Bool, true, false, Option, none, some, List, [], ◌∷◌, if◌then◌else◌, is_empty,
  refl, ap, sym, ◌∙◌, Bool-cases, Option-cases, inl, inr, subst, arith,
}
use ebiclaw.Strings.{Text, text_eq}
use ebiclaw.Strings.Equal.{text_eq-cases}
use ebiclaw.Maps.{Map, get, get-put}
use ebiclaw.Commands.{
  Definition, normalize_command_name, register_command_name, register_names, build_index,
  new_registry, def_at, lookup,
}

-- One of the names is, in its normal form, the key.
abbrev pub names_claim : Text → List Text → Bool
names_claim key [] = false
names_claim key (name ∷ names) = text_eq (normalize_command_name name) key || names_claim key names

abbrev first_of : Option ℕ → Option ℕ → Option ℕ
first_of none b = b
first_of (some a) b = some a

first_of-none : (a : Option ℕ) → first_of a none ≡ a
first_of-none none = refl
first_of-none (some a) = refl

abbrev at_if : Bool → ℕ → Option ℕ
at_if true i = some i
at_if false i = none

empty_claims_nothing :
    (key k : Text) → is_empty key ≡ true → is_empty k ≡ false → text_eq key k ≡ false
unfolding text_eq
empty_claims_nothing [] [] e f = ground arith
empty_claims_nothing [] (c ∷ k) e f = refl
empty_claims_nothing (c ∷ key) k e f = ground arith

-- Where an entry was there, a registration leaves it; else it claims its own name.
get-register_command_name :
    (k : Text) (index : Map ℕ) (name : Text) (i : ℕ)
    → is_empty k ≡ false
    → get k (register_command_name index name i)
      ≡ first_of (get k index) (at_if (text_eq (normalize_command_name name) k) i)
unfolding register_command_name
get-register_command_name k index name i h =
    let key = normalize_command_name name in
    elim (Bool-cases (is_empty key)) [
      | inl e ↦ rw (e, empty_claims_nothing key k e h) (sym (first_of-none (get k index)))
      | inr e ↦ elim (Option-cases (get key index)) [
        | inl n ↦ rw (e, n, register_command_name) (get-put key k i index ∙ new_entry key n)
        | inr (j, p) ↦ rw (e, p, register_command_name) (old_entry key j p)
      ]
    ]
  where
    new_entry :
        (key : Text)
        → get key index ≡ none
        → (if text_eq key k then some i else get k index)
          ≡ first_of (get k index) (at_if (text_eq key k) i)
    new_entry key n = elim (text_eq-cases key k) [
      | inl (same, t) ↦ rw (t, subst (λ x. get x index ≡ none) same n) refl
      | inr (ne, t) ↦ rw t (sym (first_of-none (get k index)))
    ]

    old_entry :
        (key : Text) (j : ℕ)
        → get key index ≡ some j
        → get k index ≡ first_of (get k index) (at_if (text_eq key k) i)
    old_entry key j p = elim (text_eq-cases key k) [
      | inl (same, t) ↦ rw (t, subst (λ x. get x index ≡ some j) same p) refl
      | inr (ne, t) ↦ rw t (sym (first_of-none (get k index)))
    ]

merge :
    (o : Option ℕ) (a b : Bool) (i : ℕ)
    → first_of (first_of o (at_if a i)) (at_if b i) ≡ first_of o (at_if (a || b) i)
merge none true b i = refl
merge none false b i = refl
merge (some j) a b i = refl

get-register_names :
    (k : Text) (index : Map ℕ) (names : List Text) (i : ℕ)
    → is_empty k ≡ false
    → get k (register_names index names i) ≡ first_of (get k index) (at_if (names_claim k names) i)
unfolding register_names
get-register_names k index [] i h = sym (first_of-none (get k index))
get-register_names k index (name ∷ names) i h =
    get-register_names k (register_command_name index name i) names i h
    ∙ (rw (get-register_command_name k index name i h)
        (merge (get k index) (text_eq (normalize_command_name name) k) (names_claim k names) i))

first_of_assoc : (a b c : Option ℕ) → first_of (first_of a b) c ≡ first_of a (first_of b c)
first_of_assoc none b c = refl
first_of_assoc (some a) b c = refl

-- A position behind one more definition.
abbrev shifted : Option ℕ → Option ℕ
shifted none = none
shifted (some i) = some (suc i)

module _ {E R W : Type 0} where
  -- The definition has the key as its name or as an alias.
  abbrev pub claims : Text → Definition E R W → Bool
  claims key d = names_claim key (d.name ∷ d.aliases)

  -- The first definition of the list that claims the key.
  abbrev pub first_claiming : Text → List (Definition E R W) → Option (Definition E R W)
  first_claiming key [] = none
  first_claiming key (d ∷ ds) =
      let rest = first_claiming key ds in if claims key d then some d else rest

  abbrev position : ℕ → Text → List (Definition E R W) → Option ℕ
  position i key [] = none
  position i key (d ∷ ds) = first_of (at_if (claims key d) i) (position (suc i) key ds)

  get-build_index :
      (k : Text) (i : ℕ) (ds : List (Definition E R W)) (index : Map ℕ)
      → is_empty k ≡ false
      → get k (build_index i ds index) ≡ first_of (get k index) (position i k ds)
  unfolding build_index
  get-build_index k i [] index h = sym (first_of-none (get k index))
  get-build_index k i (d ∷ ds) index h =
      get-build_index k (suc i) ds (register_names index (d.name ∷ d.aliases) i) h
      ∙ (rw (get-register_names k index (d.name ∷ d.aliases) i h)
          (first_of_assoc (get k index) (at_if (claims k d) i) (position (suc i) k ds)))

  abbrev found_at : Option ℕ → List (Definition E R W) → Option (Definition E R W)
  found_at none ds = none
  found_at (some i) ds = def_at i ds

  position-suc :
      (i : ℕ) (key : Text) (ds : List (Definition E R W))
      → position (suc i) key ds ≡ shifted (position i key ds)
  position-suc i key [] = refl
  position-suc i key (d ∷ ds) = elim (Bool-cases (claims key d)) [
    | inl e ↦ rw e refl
    | inr e ↦ rw e (position-suc (suc i) key ds)
  ]

  found_behind :
      (o : Option ℕ) (d : Definition E R W) (ds : List (Definition E R W))
      → found_at (shifted o) (d ∷ ds) ≡ found_at o ds
  unfolding def_at
  found_behind none d ds = refl
  found_behind (some i) d ds = refl

  found-position :
      (key : Text) (ds : List (Definition E R W))
      → found_at (position 0 key ds) ds ≡ first_claiming key ds
  unfolding def_at
  found-position key [] = refl
  found-position key (d ∷ ds) = elim (Bool-cases (claims key d)) [
    | inl e ↦ rw e refl
    | inr e ↦ rw e (
        ap (λ o. found_at o (d ∷ ds)) (position-suc 0 key ds)
        ∙ found_behind (position 0 key ds) d ds
        ∙ found-position key ds)
  ]

  -- Lookup finds the first definition in the order of the registration that has the name, or an
  -- alias, equal to the given name up to blanks around it and case; a blank name finds nothing.
  pub lookup-first_claiming :
      (defs : List (Definition E R W)) (name : Text)
      → lookup (new_registry defs) name ≡ (
          if is_empty (normalize_command_name name)
          then none
          else first_claiming (normalize_command_name name) defs)
  unfolding lookup new_registry get
  lookup-first_claiming defs name = elim (Bool-cases (is_empty (normalize_command_name name))) [
    | inl e ↦ rw e refl
    | inr e ↦ rw e (
        found_by (get (normalize_command_name name) (build_index 0 defs []))
        ∙ ap (λ o. found_at o defs) (get-build_index (normalize_command_name name) 0 defs [] e)
        ∙ found-position (normalize_command_name name) defs)
  ]
    where
      found_by :
          (o : Option ℕ)
          → (elim o as (λ x. Option (Definition E R W)) [ none ↦ none | some i ↦ def_at i defs ])
            ≡ found_at o defs
      found_by none = refl
      found_by (some i) = refl
