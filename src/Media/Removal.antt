-- ===== src/Media/Removal.antt =====
-- A file is removed when its last ref is gone.
use ebiclaw.Prelude.{
  ℕ, ◌≡◌, ◌≢◌, Bool, false, Option, none, some, List, [], ◌∷◌, is_empty, arith, refl, ◌∙◌, All,
  Option-cases, inl, inr,
}
use ebiclaw.Strings.{Text}
use ebiclaw.Maps.{get}
use ebiclaw.Media.{
  MediaMeta, FileMediaStore, new_file_media_store, store, resolve, release_all, clean_expired,
}
use ebiclaw.Media.Counting.{count, count_of, count-get}
use ebiclaw.Media.Release.{IsCounted, IsFree, IsClean}
use ebiclaw.Media.Cleanup.{release_all-IsClean, clean_expired-IsClean, store-IsCounted}

-- The calls on a store.
pub data Call : Type 0 where
  keep : Bool → Text → Text → MediaMeta → Text → ℕ → Call
  release : Text → Call
  expire : ℕ → Call

-- A call, with the paths of the files that it removes.
unfoldable pub call : Call → FileMediaStore → List Text × FileMediaStore
call (keep exists ref path meta scope now) s = ([], (store exists ref path meta scope now s).1)
call (release scope) s = release_all scope s
call (expire now) s = clean_expired now s

pub call_all : List Call → FileMediaStore → FileMediaStore
call_all [] s = s
call_all (c ∷ cs) s = call_all cs (call c s).1

abbrev pub CallIsFresh : Call → FileMediaStore → Type 0
CallIsFresh (keep exists ref path meta scope now) s = get ref s.ref_to_path ≡ none
CallIsFresh (release scope) s = Unit
CallIsFresh (expire now) s = Unit

-- uuid.New gives a ref that the store does not have.
abbrev pub IsFresh : List Call → FileMediaStore → Type 0
IsFresh [] s = Unit
IsFresh (c ∷ cs) s = CallIsFresh c s × IsFresh cs (call c s).1

call-IsClean : (c : Call) (s : FileMediaStore) → CallIsFresh c s → IsCounted s → IsClean (call c s)
unfolding call
call-IsClean (keep exists ref path meta scope now) s n h = record {
  maps = store-IsCounted exists ref path meta scope now s n h;
  free = tt;
}
call-IsClean (release scope) s n h = release_all-IsClean scope s h
call-IsClean (expire now) s n h = clean_expired-IsClean now s h

call_all-IsCounted :
    (cs : List Call) (s : FileMediaStore) → IsFresh cs s → IsCounted s → IsCounted (call_all cs s)
unfolding call_all
call_all-IsCounted [] s n h = h
call_all-IsCounted (c ∷ cs) s n h =
    call_all-IsCounted cs (call c s).1 n.1 (call-IsClean c s n.0 h).maps

new-IsCounted : (max_age : ℕ) → IsCounted (new_file_media_store max_age)
unfolding new_file_media_store get count
new-IsCounted max_age = record {
  distinct = tt;
  entries = tt;
  counted = λ p k. refl;
  agree = λ r e g. absurd (cc);
}

unresolved :
    (s : FileMediaStore) (p r : Text)
    → IsCounted s
    → count p s.ref_to_path ≡ 0
    → resolve r s ≢ some p
unfolding resolve
unresolved s p r h z q = elim (Option-cases (get r s.refs)) [
  | inl e ↦ let bad : Option.none ≡ some p = rw (e, resolve) at q in cc
  | inr (entry, e) ↦
      let hit : some entry.path ≡ some p = rw (e, resolve) at q in
      absurd (omega (arith, z, count-get p r s.ref_to_path (h.agree r entry e ∙ hit)))
]

-- After any calls on a new store and one more: no ref resolves to a path whose file that call
-- removes, and every path's state has the number of the refs that stand for it.
pub record IsSound (out : List Text × FileMediaStore) : Type 0 where
  pub unused : All (λ p. (r : Text) → resolve r out.1 ≢ some p) out.0
  pub counted :
      (p : Text) → is_empty p ≡ false → count_of p out.1.path_states ≡ count p out.1.ref_to_path

-- Whatever files were stored, scopes released and refs expired before, a file is removed by a
-- release of a scope or by an expiry only if no ref resolves to it afterwards; and the number that
-- is kept for a path is the number of its refs, an empty path apart. Each new ref is one that the
-- store does not have yet.
pub call-IsSound :
    (max_age : ℕ) (cs : List Call) (c : Call)
    → IsFresh cs (new_file_media_store max_age)
    → CallIsFresh c (call_all cs (new_file_media_store max_age))
    → IsSound (call c (call_all cs (new_file_media_store max_age)))
call-IsSound max_age cs c fs f = record {
  unused = all_unused (call c s).0 k.free;
  counted = k.maps.counted;
}
  where
    s : FileMediaStore
    s = call_all cs (new_file_media_store max_age)

    k : IsClean (call c s)
    k =
        call-IsClean c s f
          (call_all-IsCounted cs (new_file_media_store max_age) fs (new-IsCounted max_age))

    all_unused :
        (ps : List Text)
        → All (IsFree (call c s).1) ps
        → All (λ p. (r : Text) → resolve r (call c s).1 ≢ some p) ps
    all_unused [] z = tt
    all_unused (p ∷ ps) z = ((λ r. unresolved (call c s).1 p r k.maps z.0.1), all_unused ps z.1)
