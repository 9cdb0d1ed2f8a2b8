-- ===== src/Media/Release.antt =====
-- What the release of one ref does to the counts.
use ebiclaw.Prelude.{
  ◌+◌, ◌≡◌, Bool, true, false, Option, none, some, List, [], ◌∷◌, if◌then◌else◌, is_empty, arith,
  refl, ap, sym, ◌∙◌, All, All-append, Bool-cases, inl, inr,
}
use ebiclaw.Strings.{Text, text_eq}
use ebiclaw.Strings.Equal.{text_eq_refl}
use ebiclaw.Maps.{get, remove, get-remove}
use ebiclaw.Media.{
  MediaEntry, FileMediaStore, path_or, one_less, release_ref_locked, add_path, entry_path,
  release_each,
}
use ebiclaw.Media.Counting.{
  bit, count, count_of, IsDistinct, remove-IsDistinct, remove-none, count-remove, count-remove-le,
  count_of-one_less, one_less-some,
}

-- The maps agree: each path's state has the number of its refs.
pub record IsCounted (s : FileMediaStore) : Type 0 where
  pub distinct : IsDistinct s.ref_to_path
  pub entries : IsDistinct s.refs
  pub counted : (p : Text) → is_empty p ≡ false → count_of p s.path_states ≡ count p s.ref_to_path
  pub agree :
      (r : Text) (e : MediaEntry) → get r s.refs ≡ some e → get r s.ref_to_path ≡ some e.path

-- A path that is to be removed, and that no ref has.
abbrev pub IsFree : FileMediaStore → Text → Type 0
IsFree s p = (is_empty p ≡ false) × (count p s.ref_to_path ≡ 0)

abbrev IsFree? : FileMediaStore → Option Text → Type 0
IsFree? s none = Unit
IsFree? s (some p) = IsFree s p

module _ (ref fallback : Text) {s : FileMediaStore} (h : IsCounted s)
    (known : get ref s.ref_to_path ≡ none → fallback ≡ []) where
  forgotten : FileMediaStore
  forgotten = record s {
    refs = remove ref s.refs;
    ref_to_scope = remove ref s.ref_to_scope;
    ref_to_path = remove ref s.ref_to_path;
  }

  own_path : Text
  own_path = path_or fallback (get ref s.ref_to_path)

  agree_after :
      (r : Text) (e : MediaEntry)
      → get r (remove ref s.refs) ≡ some e
      → get r (remove ref s.ref_to_path) ≡ some e.path
  agree_after r e g =
      get-remove ref r s.ref_to_path ∙ by_eq (text_eq ref r) (sym (get-remove ref r s.refs) ∙ g)
    where
      by_eq :
          (b : Bool)
          → (if b then none else get r s.refs) ≡ some e
          → (if b then none else get r s.ref_to_path) ≡ some e.path
      by_eq true k = absurd (cc)
      by_eq false k = h.agree r e k

  -- The refs of a own_path, before and after.
  one_gone :
      (p : Text)
      → is_empty p ≡ false
      → count p s.ref_to_path
        ≡ count p (remove ref s.ref_to_path)
          + (if is_empty own_path then 0 else bit (text_eq own_path p))
  unfolding own_path
  one_gone p e = by_ref (get ref s.ref_to_path) refl
    where
      by_ref :
          (o : Option Text)
          → get ref s.ref_to_path ≡ o
          → count p s.ref_to_path
            ≡ count p (remove ref s.ref_to_path)
              + (if is_empty (path_or fallback o) then 0 else bit (text_eq (path_or fallback o) p))
      by_ref none g = rw (known g, remove-none ref s.ref_to_path g) (omega arith)
      by_ref (some []) g =
          omega (arith, count-remove p ref [] s.ref_to_path h.distinct g, apart p e)
        where
          apart : (q : Text) → is_empty q ≡ false → bit (text_eq [] q) ≡ 0
          apart [] k = absurd (cc)
          apart (c ∷ q) k = unfold text_eq in refl
      by_ref (some (c ∷ q)) g = omega (arith, count-remove p ref (c ∷ q) s.ref_to_path h.distinct g)

  settled : (b : Bool) → Option Text × FileMediaStore
  settled b = if b then (none, forgotten) else (
    (one_less own_path s.path_states).0,
    record forgotten { path_states = (one_less own_path s.path_states).1 },
  )

  release-settled : release_ref_locked ref fallback s ≡ settled (is_empty own_path)
  unfolding release_ref_locked forgotten own_path settled
  release-settled = refl

  settled-IsCounted : (b : Bool) → is_empty own_path ≡ b → IsCounted (settled b).1
  unfolding settled forgotten
  settled-IsCounted true e = record {
    distinct = remove-IsDistinct ref s.ref_to_path h.distinct;
    entries = remove-IsDistinct ref s.refs h.entries;
    counted = λ p k. h.counted p k ∙ one_gone p k ∙ (rw e (omega arith));
    agree = agree_after;
  }
  settled-IsCounted false e = record {
    distinct = remove-IsDistinct ref s.ref_to_path h.distinct;
    entries = remove-IsDistinct ref s.refs h.entries;
    counted = λ p k.
        omega (
          arith,
          count_of-one_less own_path s.path_states p,
          h.counted p k,
          rw e at (one_gone p k),
        );
    agree = agree_after;
  }

  pub release-IsCounted : IsCounted (release_ref_locked ref fallback s).1
  release-IsCounted = rw release-settled (settled-IsCounted (is_empty own_path) refl)

  last_one :
      (p : Text)
      → is_empty own_path ≡ false
      → (one_less own_path s.path_states).0 ≡ some p
      → (is_empty p ≡ false) × (count p (remove ref s.ref_to_path) ≡ 0)
  last_one p e r =
      let (same, one) = one_less-some own_path s.path_states p r in
      let solid : is_empty p ≡ false = rw same e in
      let hit : text_eq own_path p ≡ true = rw same (text_eq_refl own_path) in
      (
        solid,
        omega
            (arith, rw e at (one_gone p solid), h.counted p solid, rw (← same) at one, ap bit hit),
      )

  settled-IsFree : (b : Bool) → is_empty own_path ≡ b → IsFree? (settled b).1 (settled b).0
  unfolding settled forgotten
  settled-IsFree true e = tt
  settled-IsFree false e = by_removed (one_less own_path s.path_states).0 (λ p r. last_one p e r)
    where
      by_removed :
          (o : Option Text)
          → ((p : Text)
              → o ≡ some p
              → (is_empty p ≡ false) × (count p (remove ref s.ref_to_path) ≡ 0))
          → IsFree? (settled false).1 o
      by_removed none f = tt
      by_removed (some p) f = f p refl

  pub release-IsFree :
      IsFree? (release_ref_locked ref fallback s).1 (release_ref_locked ref fallback s).0
  release-IsFree = rw release-settled (settled-IsFree (is_empty own_path) refl)

module _ (ref fallback : Text) (s : FileMediaStore) where
  -- What a release leaves alone.
  pub release-ref_to_path :
      (release_ref_locked ref fallback s).1.ref_to_path ≡ remove ref s.ref_to_path
  unfolding release_ref_locked
  release-ref_to_path = elim (Bool-cases (is_empty (path_or fallback (get ref s.ref_to_path)))) [
    | inl e ↦ rw e refl
    | inr e ↦ rw e refl
  ]

  release-keeps : (p : Text) → IsFree s p → IsFree (release_ref_locked ref fallback s).1 p
  release-keeps p (e, z) =
      (e, rw release-ref_to_path (omega (arith, z, count-remove-le p ref s.ref_to_path)))

  paths-IsFree :
      (paths : List Text)
      → All (IsFree s) paths
      → All (IsFree (release_ref_locked ref fallback s).1) paths
  paths-IsFree [] f = tt
  paths-IsFree (p ∷ paths) f = (release-keeps p f.0, paths-IsFree paths f.1)

add_path-IsFree :
    (s : FileMediaStore) (o : Option Text) (paths : List Text)
    → IsFree? s o
    → All (IsFree s) paths
    → All (IsFree s) (add_path o paths)
add_path-IsFree s none paths f fs = fs
add_path-IsFree s (some p) paths f fs = All-append (IsFree s) paths (p ∷ []) fs (f, tt)

-- What a method that removes files gives: maps that agree, and paths that no ref has.
pub record IsClean (out : List Text × FileMediaStore) : Type 0 where
  pub maps : IsCounted out.1
  pub free : All (IsFree out.1) out.0

pub one-IsClean :
    (ref fallback : Text) (paths : List Text) (s : FileMediaStore)
    → (get ref s.ref_to_path ≡ none → fallback ≡ [])
    → IsClean (paths, s)
    → IsClean (
      add_path (release_ref_locked ref fallback s).0 paths,
      (release_ref_locked ref fallback s).1,
    )
one-IsClean ref fallback paths s known h = record {
  maps = release-IsCounted ref fallback h.maps known;
  free =
      add_path-IsFree (release_ref_locked ref fallback s).1 (release_ref_locked ref fallback s).0
        paths (release-IsFree ref fallback h.maps known) (paths-IsFree ref fallback s paths h.free);
}

pub release_each-IsClean :
    (refs paths : List Text) (s : FileMediaStore)
    → IsClean (paths, s)
    → IsClean (release_each refs paths s)
unfolding release_each
release_each-IsClean [] paths s h = h
release_each-IsClean (ref ∷ refs) paths s h =
    release_each-IsClean refs (add_path (release_ref_locked ref fallback s).0 paths)
      (release_ref_locked ref fallback s).1
      (one-IsClean ref fallback paths s (known (get ref s.refs) refl) h)
  where
    fallback : Text
    fallback = entry_path (get ref s.refs)

    known :
        (o : Option MediaEntry)
        → get ref s.refs ≡ o
        → get ref s.ref_to_path ≡ none
        → entry_path o ≡ []
    known none g n = refl
    known (some e) g n = absurd (let q = h.maps.agree ref e g in cc)
