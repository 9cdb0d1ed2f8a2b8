-- ===== src/Media/Counting.antt =====
-- How many refs a path has, in the map of refs and in the map of states.
use ebiclaw.Prelude.{
  ℕ, ◌+◌, ◌-◌, ◌≡◌, ◌≤◌, Bool, true, false, Option, none, some, [], ◌∷◌, if◌then◌else◌, leb, arith,
  refl, ap, sym, ◌∙◌, Bool-cases, Option-cases, inl, inr,
}
use ebiclaw.Strings.{Text, text_eq}
use ebiclaw.Strings.Equal.{eq_of_text_eq, text_eq_iff}
use ebiclaw.Maps.{Map, get, put, remove, get-put, get-remove}
use ebiclaw.Media.{PathRefState, state_or_zero, one_more, one_less}

abbrev pub bit : Bool → ℕ
bit true = 1
bit false = 0

-- The entries with a value.
unfoldable pub count : Text → Map Text → ℕ
count p [] = 0
count p ((k, v) ∷ m) = bit (text_eq v p) + count p m

abbrev pub ref_count_or_zero : Option PathRefState → ℕ
ref_count_or_zero none = 0
ref_count_or_zero (some state) = state.ref_count

-- The number that a path's state has.
abbrev pub count_of : Text → Map PathRefState → ℕ
count_of p states = ref_count_or_zero (get p states)

module _ {ℓ} {V : Type ℓ} where
  -- Each key stands in the list once.
  abbrev pub IsDistinct : Map V → Type ℓ
  IsDistinct [] = Unit
  IsDistinct ((k, v) ∷ m) = (get k m ≡ none) × IsDistinct m

  pub put-IsDistinct : (k : Text) (v : V) (m : Map V) → IsDistinct m → IsDistinct (put k v m)
  unfolding put get
  put-IsDistinct k v [] d = (refl, tt)
  put-IsDistinct k v ((j, w) ∷ m) d = elim (Bool-cases (text_eq j k)) [
    | inl e ↦ rw e (ap (λ (i : Text). get i m) (sym (eq_of_text_eq j k e)) ∙ d.0, d.1)
    | inr e ↦ rw e (get-put k j v m ∙ (rw (other e) (d.0)), put-IsDistinct k v m d.1)
  ]
    where
      other : text_eq j k ≡ false → text_eq k j ≡ false
      other e = ground (arith, text_eq_iff j k, text_eq_iff k j)

  pub remove-IsDistinct : (k : Text) (m : Map V) → IsDistinct m → IsDistinct (remove k m)
  unfolding remove
  remove-IsDistinct k [] d = tt
  remove-IsDistinct k ((j, w) ∷ m) d = elim (Bool-cases (text_eq j k)) [
    | inl e ↦ rw e (remove-IsDistinct k m d.1)
    | inr e ↦ rw e (get-remove k j m ∙ gone (text_eq k j), remove-IsDistinct k m d.1)
  ]
    where
      gone : (b : Bool) → (if b then none else get j m) ≡ none
      gone true = refl
      gone false = d.0

  pub remove-none : (k : Text) (m : Map V) → get k m ≡ none → remove k m ≡ m
  unfolding remove get
  remove-none k [] e = refl
  remove-none k ((j, w) ∷ m) e = elim (Bool-cases (text_eq j k)) [
    | inl t ↦ absurd (let q : some w ≡ none = rw t at e in cc)
    | inr t ↦ rw t (ap (λ (n : Map V). (j, w) ∷ n) (remove-none k m (rw t at e)))
  ]

pub count-put :
    (p k v : Text) (m : Map Text)
    → get k m ≡ none
    → count p (put k v m) ≡ count p m + bit (text_eq v p)
unfolding count put get
count-put p k v [] e = omega arith
count-put p k v ((j, w) ∷ m) e = elim (Bool-cases (text_eq j k)) [
  | inl t ↦ absurd (let q : some w ≡ none = rw t at e in cc)
  | inr t ↦ rw t (omega (arith, count-put p k v m (rw t at e)))
]

pub count-remove :
    (p k v : Text) (m : Map Text)
    → IsDistinct m
    → get k m ≡ some v
    → count p m ≡ count p (remove k m) + bit (text_eq v p)
unfolding count remove get
count-remove p k v [] d e = absurd (cc)
count-remove p k v ((j, w) ∷ m) d e = elim (Bool-cases (text_eq j k)) [
  | inl t ↦
      rw (t, remove-none k m (ap (λ (i : Text). get i m) (sym (eq_of_text_eq j k t)) ∙ d.0))
        (let q : some w ≡ some v = rw t at e in same q)
  | inr t ↦ rw t (omega (arith, count-remove p k v m d.1 (rw t at e)))
]
  where
    same : some w ≡ some v → bit (text_eq w p) + count p m ≡ count p m + bit (text_eq v p)
    same q = let k : w ≡ v = cc in omega (arith, ap (λ (x : Text). bit (text_eq x p)) k)

pub count-remove-le : (p k : Text) (m : Map Text) → count p (remove k m) ≤ count p m
unfolding count remove
count-remove-le p k [] = omega arith
count-remove-le p k ((j, w) ∷ m) = elim (Bool-cases (text_eq j k)) [
  | inl t ↦ rw t (omega (arith, count-remove-le p k m))
  | inr t ↦ rw t (omega (arith, count-remove-le p k m))
]

-- A path of a ref is counted.
pub count-get : (p k : Text) (m : Map Text) → get k m ≡ some p → 1 ≤ count p m
unfolding count get
count-get p k [] e = absurd (cc)
count-get p k ((j, w) ∷ m) e = elim (Bool-cases (text_eq j k)) [
  | inl t ↦ let q : some w ≡ some p = rw t at e in rw (same q) (omega arith)
  | inr t ↦ omega (arith, count-get p k m (rw t at e))
]
  where
    same : some w ≡ some p → text_eq w p ≡ true
    same q = (text_eq_iff w p).1 (cc)

count_of-put :
    (p q : Text) (state : PathRefState) (states : Map PathRefState)
    → count_of q (put p state states) ≡ (if text_eq p q then state.ref_count else count_of q states)
count_of-put p q state states =
    ap ref_count_or_zero (get-put p q state states) ∙ chosen (text_eq p q)
  where
    chosen :
        (b : Bool)
        → ref_count_or_zero (if b then some state else get q states)
          ≡ (if b then state.ref_count else count_of q states)
    chosen true = refl
    chosen false = refl

pub count_of-one_more :
    (p q policy : Text) (states : Map PathRefState)
    → count_of q (put p (one_more policy (state_or_zero (get p states))) states)
      ≡ count_of q states + bit (text_eq p q)
unfolding one_more
count_of-one_more p q policy states =
    count_of-put p q (one_more policy (state_or_zero (get p states))) states
    ∙ by_eq (text_eq p q) refl
  where
    zero_count : (o : Option PathRefState) → (state_or_zero o).ref_count ≡ ref_count_or_zero o
    zero_count none = refl
    zero_count (some state) = refl

    by_eq :
        (b : Bool)
        → text_eq p q ≡ b
        → (if b then (state_or_zero (get p states)).ref_count + 1 else count_of q states)
          ≡ count_of q states + bit b
    by_eq true e = omega (
      arith,
      zero_count (get p states),
      ap (λ (i : Text). count_of i states) (eq_of_text_eq p q e),
    )
    by_eq false e = omega arith

count_of-remove :
    (p q : Text) (states : Map PathRefState)
    → count_of q (remove p states) ≡ (if text_eq p q then 0 else count_of q states)
count_of-remove p q states = ap ref_count_or_zero (get-remove p q states) ∙ chosen (text_eq p q)
  where
    chosen :
        (b : Bool)
        → ref_count_or_zero (if b then none else get q states)
          ≡ (if b then 0 else count_of q states)
    chosen true = refl
    chosen false = refl

module _ (p : Text) (states : Map PathRefState) where
  pub count_of-one_less :
      (q : Text) → count_of q (one_less p states).1 ≡ count_of q states - bit (text_eq p q)
  unfolding one_less
  count_of-one_less q = elim (Option-cases (get p states)) [
    | inl e ↦ rw (e, one_less) (unknown e (text_eq p q) refl)
    | inr (state, e) ↦ elim (Bool-cases (leb state.ref_count 1)) [
      | inl l ↦ rw (e, l, one_less) (count_of-remove p q states ∙ last state e l (text_eq p q) refl)
      | inr l ↦
          rw (e, l, one_less)
            (count_of-put p q (record state { ref_count = state.ref_count - 1 }) states
              ∙ lower state e (text_eq p q) refl)
    ]
  ]
    where
      at_q : text_eq p q ≡ true → get q states ≡ get p states
      at_q t = ap (λ (i : Text). get i states) (sym (eq_of_text_eq p q t))

      unknown :
          get p states ≡ none
          → (b : Bool) → text_eq p q ≡ b
          → count_of q states ≡ count_of q states - bit b
      unknown e true t = rw (at_q t ∙ e) (omega arith)
      unknown e false t = omega arith

      last :
          (state : PathRefState)
          → get p states ≡ some state
          → leb state.ref_count 1 ≡ true
          → (b : Bool) → text_eq p q ≡ b
          → (if b then 0 else count_of q states) ≡ count_of q states - bit b
      last state e l true t = rw (at_q t ∙ e) (ground arith)
      last state e l false t = omega arith

      lower :
          (state : PathRefState)
          → get p states ≡ some state
          → (b : Bool) → text_eq p q ≡ b
          → (if b then state.ref_count - 1 else count_of q states) ≡ count_of q states - bit b
      lower state e true t = rw (at_q t ∙ e) refl
      lower state e false t = omega arith

  -- A path is given up with its last ref.
  pub one_less-some :
      (q : Text) → (one_less p states).0 ≡ some q → (q ≡ p) × (count_of p states ≤ 1)
  unfolding one_less
  one_less-some q r = elim (Option-cases (get p states)) [
    | inl e ↦ absurd (let k : Option.none ≡ some q = rw (e, one_less) at r in cc)
    | inr (state, e) ↦ elim (Bool-cases (leb state.ref_count 1)) [
      | inl l ↦ rw e (by_flag state l state.delete_eligible (rw (e, l, one_less) at r))
      | inr l ↦ absurd (let k : Option.none ≡ some q = rw (e, l, one_less) at r in cc)
    ]
  ]
    where
      by_flag :
          (state : PathRefState)
          → leb state.ref_count 1 ≡ true
          → (b : Bool) → (if b then some p else none) ≡ some q
          → (q ≡ p) × (state.ref_count ≤ 1)
      by_flag state l true k = (cc, ground arith)
      by_flag state l false k = absurd (cc)
