-- ===== src/Media.antt =====
-- pkg/media/store.go: the references to files, and which files are removed. What is done under the
-- mutex is one step; the paths of the files that are removed after it are its result. A map of refs
-- is ranged over in the order of its list. The number that CleanExpired returns is left out.
pub mod Counting
pub mod Release
pub mod Cleanup
pub mod Removal
use ebiclaw.Prelude.{
  ℕ, suc, ◌+◌, ◌-◌, Bool, true, false, ◌&&◌, not, Option, none, some, List, [], ◌∷◌, ◌++◌,
  if◌then◌else◌, is_empty, length, leb, ltb, ◌==◌,
}
use ebiclaw.Strings.{Text, codes, text_eq}
use ebiclaw.Maps.{Map, get, put, remove}

abbrev pub delete_on_cleanup : Text
delete_on_cleanup = codes "delete_on_cleanup"

abbrev pub forget_only : Text
forget_only = codes "forget_only"

unfoldable pub normalize_cleanup_policy : Text → Text
normalize_cleanup_policy policy =
    if text_eq policy forget_only then forget_only else delete_on_cleanup

pub record MediaMeta : Type 0 where
  pub filename : Text
  pub content_type : Text
  pub source : Text
  pub cleanup_policy : Text

pub record MediaEntry : Type 0 where
  pub path : Text
  pub meta : MediaMeta
  pub stored_at : ℕ

pub record PathRefState : Type 0 where
  pub ref_count : ℕ
  pub delete_eligible : Bool

pub record FileMediaStore : Type 0 where
  pub refs : Map MediaEntry
  pub scope_to_refs : Map (List Text)
  pub ref_to_scope : Map Text
  pub ref_to_path : Map Text
  pub path_states : Map PathRefState
  pub max_age : ℕ

unfoldable pub new_file_media_store : ℕ → FileMediaStore
new_file_media_store max_age = record {
  refs = [];
  scope_to_refs = [];
  ref_to_scope = [];
  ref_to_path = [];
  path_states = [];
  max_age = max_age;
}

-- The zero value for a path that is not there.
abbrev pub state_or_zero : Option PathRefState → PathRefState
state_or_zero none = record { ref_count = 0; delete_eligible = false }
state_or_zero (some state) = state

unfoldable pub one_more : Text → PathRefState → PathRefState
one_more policy state = record {
  ref_count = state.ref_count + 1;
  delete_eligible =
      if state.ref_count == 0
      then text_eq policy delete_on_cleanup
      else if text_eq policy forget_only
      then false
      else state.delete_eligible;
}

abbrev pub refs_or_none : Option (List Text) → List Text
refs_or_none none = []
refs_or_none (some refs) = refs

-- Store, for the ref that uuid.New gives; `exists` is what os.Stat says of the path.
unfoldable pub store :
    Bool → Text → Text → MediaMeta → Text → ℕ → FileMediaStore → Option Text × FileMediaStore
unfolding normalize_cleanup_policy one_more
store exists ref path meta scope now s =
    let policy = normalize_cleanup_policy meta.cleanup_policy in
    let meta' = record meta { cleanup_policy = policy } in
    let entry : MediaEntry = record { path = path; meta = meta'; stored_at = now } in
    if exists
    then (
      some ref,
      record s {
        refs = put ref entry s.refs;
        scope_to_refs = put scope (ref ∷ refs_or_none (get scope s.scope_to_refs)) s.scope_to_refs;
        ref_to_scope = put ref scope s.ref_to_scope;
        ref_to_path = put ref path s.ref_to_path;
        path_states =
            put path (one_more policy (state_or_zero (get path s.path_states))) s.path_states;
      },
    )
    else (none, s)

unfoldable pub resolve : Text → FileMediaStore → Option Text
resolve ref s = elim (get ref s.refs) [ none ↦ none | some entry ↦ some entry.path ]

unfoldable pub resolve_with_meta : Text → FileMediaStore → Option (Text × MediaMeta)
resolve_with_meta ref s = elim (get ref s.refs) [
  | none ↦ none
  | some entry ↦ some (entry.path, entry.meta)
]

abbrev pub path_or : Text → Option Text → Text
path_or fallback none = fallback
path_or fallback (some path) = path

-- One ref less on a path: the path, if it is to be removed, and the states.
unfoldable pub one_less : Text → Map PathRefState → Option Text × Map PathRefState
one_less path states = elim (get path states) [
  | none ↦ (none, states)
  | some state ↦
      if leb state.ref_count 1
      then ((if state.delete_eligible then some path else none), remove path states)
      else (none, put path (record state { ref_count = state.ref_count - 1 }) states)
]

-- releaseRefLocked
unfoldable pub release_ref_locked : Text → Text → FileMediaStore → Option Text × FileMediaStore
release_ref_locked ref fallback s =
    let path = path_or fallback (get ref s.ref_to_path) in
    let forgotten = record s {
      refs = remove ref s.refs;
      ref_to_scope = remove ref s.ref_to_scope;
      ref_to_path = remove ref s.ref_to_path;
    } in
    let (removed, states) = one_less path s.path_states in
    if is_empty path
    then (none, forgotten)
    else (removed, record forgotten { path_states = states })

abbrev pub add_path : Option Text → List Text → List Text
add_path none paths = paths
add_path (some p) paths = paths ++ (p ∷ [])

abbrev pub entry_path : Option MediaEntry → Text
entry_path none = []
entry_path (some entry) = entry.path

-- The loop of ReleaseAll, with the paths so far.
unfoldable pub release_each : List Text → List Text → FileMediaStore → List Text × FileMediaStore
release_each [] paths s = (paths, s)
release_each (ref ∷ refs) paths s =
    let (removed, s') = release_ref_locked ref (entry_path (get ref s.refs)) s in
    release_each refs (add_path removed paths) s'

-- ReleaseAll
unfoldable pub release_all : Text → FileMediaStore → List Text × FileMediaStore
unfolding release_each
release_all scope s = elim (get scope s.scope_to_refs) [
  | none ↦ ([], s)
  | some refs ↦
      let (paths, s') = release_each refs [] s in
      (paths, record s' { scope_to_refs = remove scope s'.scope_to_refs })
]

unfoldable pub drop_ref : Text → List Text → List Text
drop_ref ref [] = []
drop_ref ref (r ∷ refs) = let rest = drop_ref ref refs in if text_eq r ref then rest else r ∷ rest

-- The ref leaves its scope, and the scope goes with its last ref.
unfoldable pub leave_scope : Text → FileMediaStore → FileMediaStore
unfolding drop_ref
leave_scope ref s = elim (get ref s.ref_to_scope) [
  | none ↦ s
  | some scope ↦ elim (get scope s.scope_to_refs) [
    | none ↦ s
    | some refs ↦ record s {
      scope_to_refs =
          if is_empty (drop_ref ref refs)
          then remove scope s.scope_to_refs
          else put scope (drop_ref ref refs) s.scope_to_refs;
    }
  ]
]

-- The loop of CleanExpired over the entries of refs.
unfoldable pub expire_each :
    ℕ → Map MediaEntry → List Text → FileMediaStore → List Text × FileMediaStore
unfolding leave_scope
expire_each now [] paths s = (paths, s)
expire_each now ((ref, entry) ∷ refs) paths s =
    let (removed, s') = release_ref_locked ref entry.path (leave_scope ref s) in
    let expired = ltb (entry.stored_at + s.max_age) now in
    expire_each now refs (if expired then add_path removed paths else paths)
      (if expired then s' else s)

-- CleanExpired
unfoldable pub clean_expired : ℕ → FileMediaStore → List Text × FileMediaStore
unfolding expire_each
clean_expired now s = if s.max_age == 0 then ([], s) else expire_each now s.refs [] s
