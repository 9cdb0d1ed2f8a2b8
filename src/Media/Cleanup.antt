-- ===== src/Media/Cleanup.antt =====
-- What a store, a release of a scope and an expiry do to the counts.
use ebiclaw.Prelude.{
  ℕ, ◌+◌, ◌≡◌, Bool, true, false, Option, none, some, List, [], ◌∷◌, if◌then◌else◌, ltb, ◌==◌,
  arith, refl, ap, sym, ◌∙◌, All, Bool-cases, Option-cases, inl, inr,
}
use ebiclaw.Strings.{Text, text_eq}
use ebiclaw.Strings.Equal.{eq_of_text_eq, text_eq_refl, text_eq_iff}
use ebiclaw.Maps.{Map, get, remove, get-put, get-remove}
use ebiclaw.Media.{
  MediaMeta, MediaEntry, FileMediaStore, store, normalize_cleanup_policy, release_ref_locked,
  add_path, release_each, release_all, leave_scope, expire_each, clean_expired,
}
use ebiclaw.Media.Counting.{bit, IsDistinct, put-IsDistinct, count-put, count_of-one_more}
use ebiclaw.Media.Release.{
  IsCounted, release-ref_to_path, IsClean, one-IsClean, release_each-IsClean,
}

-- The scopes say nothing of the counts.
rescoped :
    (scopes : Map (List Text)) (out : List Text × FileMediaStore)
    → IsClean out
    → IsClean (out.0, record out.1 { scope_to_refs = scopes })
rescoped scopes out k = record {
  maps = record {
    distinct = k.maps.distinct;
    entries = k.maps.entries;
    counted = k.maps.counted;
    agree = k.maps.agree;
  };
  free = k.free;
}

pub release_all-IsClean :
    (scope : Text) (s : FileMediaStore) → IsCounted s → IsClean (release_all scope s)
unfolding release_all
release_all-IsClean scope s h = elim (Option-cases (get scope s.scope_to_refs)) [
  | inl e ↦ rw (e, release_all) (record { maps = h; free = tt })
  | inr (refs, e) ↦
      rw (e, release_all)
        (rescoped (remove scope (release_each refs [] s).1.scope_to_refs) (release_each refs [] s)
          (release_each-IsClean refs [] s (record { maps = h; free = tt })))
]

leave_scope-eq :
    (ref : Text) (s : FileMediaStore)
    → leave_scope ref s ≡ record s { scope_to_refs = (leave_scope ref s).scope_to_refs }
unfolding leave_scope
leave_scope-eq ref s = elim (Option-cases (get ref s.ref_to_scope)) [
  | inl e ↦ rw (e, leave_scope) refl
  | inr (scope, e) ↦ elim (Option-cases (get scope s.scope_to_refs)) [
    | inl f ↦ rw (e, f, leave_scope) refl
    | inr (refs, f) ↦ rw (e, f, leave_scope) refl
  ]
]

-- The entries that are still to be looked at have their refs.
abbrev Known : FileMediaStore → Map MediaEntry → Type 0
Known s entries = All (λ (e : Text × MediaEntry). get e.0 s.ref_to_path ≡ some e.1.path) entries

Known-remove :
    (ref : Text) (s s' : FileMediaStore) (entries : Map MediaEntry)
    → s'.ref_to_path ≡ remove ref s.ref_to_path
    → get ref entries ≡ none
    → Known s entries
    → Known s' entries
unfolding get
Known-remove ref s s' [] q n k = tt
Known-remove ref s s' ((r, e) ∷ entries) q n k = elim (Bool-cases (text_eq r ref)) [
  | inl t ↦ absurd (let bad : some e ≡ none = rw t at n in cc)
  | inr t ↦ (
    ap (λ (m : Map Text). get r m) q ∙ get-remove ref r s.ref_to_path ∙ other (flipped t),
    Known-remove ref s s' entries q (rw t at n) k.1,
  )
]
  where
    flipped : text_eq r ref ≡ false → text_eq ref r ≡ false
    flipped t = ground (arith, text_eq_iff r ref, text_eq_iff ref r)

    other :
        text_eq ref r ≡ false → (if text_eq ref r then none else get r s.ref_to_path) ≡ some e.path
    other t = rw t (k.0)

expire_each-IsClean :
    (now : ℕ) (entries : Map MediaEntry) (paths : List Text) (s : FileMediaStore)
    → IsDistinct entries
    → Known s entries
    → IsClean (paths, s)
    → IsClean (expire_each now entries paths s)
unfolding expire_each
expire_each-IsClean now [] paths s d k h = h
expire_each-IsClean now ((ref, entry) ∷ entries) paths s d k h =
    elim (Bool-cases (ltb (entry.stored_at + s.max_age) now)) [
      | inr e ↦ rw e (expire_each-IsClean now entries paths s d.1 k.1 h)
      | inl e ↦ rw e (expire_each-IsClean now entries (add_path out.0 paths) out.1 d.1 left cleaned)
    ]
  where
    scoped : FileMediaStore
    scoped = record s { scope_to_refs = (leave_scope ref s).scope_to_refs }

    out : Option Text × FileMediaStore
    out = release_ref_locked ref entry.path (leave_scope ref s)

    cleaned : IsClean (add_path out.0 paths, out.1)
    cleaned = rw (leave_scope-eq ref s) (
        one-IsClean ref entry.path paths scoped (λ n. absurd (let q = k.0 in cc))
          (rescoped (leave_scope ref s).scope_to_refs (paths, s) h))

    left : Known out.1 entries
    left =
        Known-remove ref s out.1 entries
          (release-ref_to_path ref entry.path (leave_scope ref s)
            ∙ ap (λ (t : FileMediaStore). remove ref t.ref_to_path) (leave_scope-eq ref s))
          d.0 k.1

entries-Known :
    (s : FileMediaStore) (entries : Map MediaEntry)
    → IsDistinct entries
    → ((r : Text) (e : MediaEntry) → get r entries ≡ some e → get r s.ref_to_path ≡ some e.path)
    → Known s entries
unfolding get
entries-Known s [] d f = tt
entries-Known s ((k, v) ∷ entries) d f = (
  f k v (rw (text_eq_refl k) refl),
  entries-Known s entries d.1 (λ r e g. f r e (by_eq r e g (text_eq k r) refl)),
)
  where
    by_eq :
        (r : Text) (e : MediaEntry)
        → get r entries ≡ some e
        → (b : Bool) → text_eq k r ≡ b
        → (if b then some v else get r entries) ≡ some e
    by_eq r e g true t = absurd (
        let bad : none ≡ some e =
          sym d.0 ∙ ap (λ (i : Text). get i entries) (eq_of_text_eq k r t) ∙ g in
        cc)
    by_eq r e g false t = g

pub clean_expired-IsClean :
    (now : ℕ) (s : FileMediaStore) → IsCounted s → IsClean (clean_expired now s)
unfolding clean_expired
clean_expired-IsClean now s h = elim (Bool-cases (s.max_age == 0)) [
  | inl e ↦ rw e (record { maps = h; free = tt })
  | inr e ↦ rw e (
      expire_each-IsClean now s.refs [] s h.entries (entries-Known s s.refs h.entries h.agree)
        (record { maps = h; free = tt }))
]

pub store-IsCounted :
    (exists : Bool) (ref path : Text) (meta : MediaMeta) (scope : Text) (now : ℕ)
    (s : FileMediaStore)
    → get ref s.ref_to_path ≡ none
    → IsCounted s
    → IsCounted (store exists ref path meta scope now s).1
unfolding store
store-IsCounted false ref path meta scope now s n h = h
store-IsCounted true ref path meta scope now s n h = record {
  distinct = put-IsDistinct ref path s.ref_to_path h.distinct;
  entries = put-IsDistinct ref new s.refs h.entries;
  counted = λ p k.
      count_of-one_more path p (normalize_cleanup_policy meta.cleanup_policy) s.path_states
      ∙ ap (λ (n : ℕ). n + bit (text_eq path p)) (h.counted p k)
      ∙ sym (count-put p ref path s.ref_to_path n);
  agree = λ r e g.
      get-put ref r path s.ref_to_path
      ∙ by_eq r e (text_eq ref r) (sym (get-put ref r new s.refs) ∙ g);
}
  where
    new : MediaEntry
    new = record {
      path = path;
      meta = record meta { cleanup_policy = normalize_cleanup_policy meta.cleanup_policy };
      stored_at = now;
    }

    by_eq :
        (r : Text) (e : MediaEntry) (b : Bool)
        → (if b then some new else get r s.refs) ≡ some e
        → (if b then some path else get r s.ref_to_path) ≡ some e.path
    by_eq r e true g =
        ap (λ (o : Option MediaEntry). elim o [ none ↦ none | some x ↦ some x.path ]) g
    by_eq r e false g = h.agree r e g
