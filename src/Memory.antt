-- ===== src/Memory.antt =====
-- pkg/memory/jsonl.go: the store of messages in files. The mutex of a session is held throughout a
-- method, so each is one step. A metadata file is the value that its JSON stands for. What the
-- operating system makes of a call, a crash included, is told by an argument; after a crash nothing
-- more of the method happens, as after a failure.
pub mod Brackets
pub mod Lines
pub mod Holding
pub mod Meaning
pub mod After
pub mod Faults
pub mod Torn
use ebiclaw.Prelude.{
  ℕ, suc, ◌+◌, ◌-◌, Bool, true, false, ◌&&◌, Option, none, some, List, [], ◌∷◌, ◌++◌, if◌then◌else◌,
  is_empty, length, take, drop, leb, ltb, ◌==◌,
}
use ebiclaw.Strings.{Text}
use ebiclaw.Maps.{Map, get, put}
use ebiclaw.Session.{replace_rune}
use ebiclaw.Protocol.{Message, plain}

-- 10 MB
abbrev pub max_line_size : ℕ
max_line_size = 10485760

-- The zero time is 0.
pub record SessionMeta : Type 0 where
  pub key : Text
  pub summary : Text
  pub skip : ℕ
  pub count : ℕ
  pub created_at : ℕ
  pub updated_at : ℕ

-- The directory of a JSONLStore, by the names of the files without their endings.
pub record JsonlStore : Type 0 where
  pub logs : Map Text
  pub metas : Map SessionMeta

-- json.Marshal and json.Unmarshal of a message. The files and their lines are lists of bytes.
pub record Codec : Type 0 where
  pub marshal : Message → Option Text
  pub unmarshal : Text → Option Message

-- How the append of a line ends: what follows on a failure is the number of bytes in the file.
pub data Append : Type 0 where
  done : Append
  torn : ℕ → Append

-- What the operating system makes of a method's calls, each of which it makes at most once.
pub record System : Type 0 where
  pub reads_meta : Bool
  pub writes_meta : Bool
  pub reads_log : Bool
  pub rewrites_log : Bool
  pub appends : Append

pub data Error : Type 0 where
  io_error : Error
  marshal_error : Error
  too_long : Error

pub data Result (A : Type 0) : Type 0 where
  ok : A → Result A
  err : Error → Result A

unfoldable pub sanitize_key : Text → Text
unfolding replace_rune
sanitize_key key = replace_rune 92 95 (replace_rune 47 95 (replace_rune 58 95 key))

unfoldable pub zero_meta : Text → SessionMeta
zero_meta key = record {
  key = key;
  summary = [];
  skip = 0;
  count = 0;
  created_at = 0;
  updated_at = 0;
}

-- The file of messages; one that is not there is read like an empty one.
unfoldable pub log_of : Text → JsonlStore → Text
log_of key s = elim (get (sanitize_key key) s.logs) [ none ↦ [] | some text ↦ text ]

-- readMeta, where the file can be read
unfoldable pub meta_of : Text → JsonlStore → SessionMeta
unfolding zero_meta
meta_of key s = elim (get (sanitize_key key) s.metas) [ none ↦ zero_meta key | some meta ↦ meta ]

unfoldable pub put_log : Text → Text → JsonlStore → JsonlStore
put_log key text s = record s { logs = put (sanitize_key key) text s.logs }

unfoldable pub put_meta : Text → SessionMeta → JsonlStore → JsonlStore
put_meta key meta s = record s { metas = put (sanitize_key key) meta s.metas }

-- bufio.ScanLines: the lines, the last of which may lack its end.
abbrev pub push_first : ℕ → List Text → List Text
push_first c [] = (c ∷ []) ∷ []
push_first c (l ∷ ls) = (c ∷ l) ∷ ls

unfoldable pub raw_lines : Text → List Text
raw_lines [] = []
raw_lines (c ∷ s) = let rest = raw_lines s in if c == 10 then [] ∷ rest else push_first c rest

-- A carriage return at the end of a line is no part of it.
unfoldable pub drop_cr : Text → Text
drop_cr [] = []
drop_cr (c ∷ []) = if c == 13 then [] else c ∷ []
drop_cr (c ∷ d ∷ s) = c ∷ drop_cr (d ∷ s)

-- The lines that are not empty, if the scanner's buffer holds each line.
unfoldable pub scan : List Text → Option (List Text)
unfolding drop_cr
scan [] = some []
scan (l ∷ ls) =
    let line = drop_cr l in
    let rest = scan ls in
    let kept : Option (List Text) = elim rest [
      | none ↦ none
      | some lines ↦ some (if is_empty line then lines else line ∷ lines)
    ] in
    if leb max_line_size (length l) then none else kept

unfoldable pub decode : Codec → List Text → List Message
decode codec [] = []
decode codec (line ∷ lines) = elim (codec.unmarshal line) [
  | none ↦ decode codec lines
  | some msg ↦ msg ∷ decode codec lines
]

unfoldable pub read_messages : Codec → System → Text → ℕ → Result (List Message)
unfolding raw_lines scan decode
read_messages codec system text skip =
    let scanned : Result (List Message) = elim (scan (raw_lines text)) [
      | none ↦ err too_long
      | some lines ↦ ok (decode codec (drop skip lines))
    ] in
    if system.reads_log then scanned else err io_error

unfoldable pub count_lines : System → Text → Result ℕ
unfolding raw_lines scan
count_lines system text =
    let scanned : Result ℕ = elim (scan (raw_lines text)) [
      | none ↦ err too_long
      | some lines ↦ ok (length lines)
    ] in
    if system.reads_log then scanned else err io_error

-- The writing of the metadata file, which replaces it whole or not at all.
unfoldable pub write_meta : System → Text → SessionMeta → JsonlStore → Result Unit × JsonlStore
unfolding put_meta
write_meta system key meta s =
    if system.writes_meta then (ok tt, put_meta key meta s) else (err io_error, s)

-- The buffer of rewriteJSONL
unfoldable pub encode : Codec → List Message → Option Text
encode codec [] = some []
encode codec (msg ∷ msgs) = elim (codec.marshal msg) [
  | none ↦ none
  | some line ↦ elim (encode codec msgs) [ none ↦ none | some rest ↦ some (line ++ (10 ∷ rest)) ]
]

unfoldable pub rewrite_jsonl :
    Codec → System → Text → List Message → JsonlStore → Result Unit × JsonlStore
unfolding encode put_log
rewrite_jsonl codec system key msgs s = elim (encode codec msgs) [
  | none ↦ (err marshal_error, s)
  | some text ↦ if system.rewrites_log then (ok tt, put_log key text s) else (err io_error, s)
]

-- The metadata after one more message.
unfoldable pub counted : ℕ → SessionMeta → SessionMeta
counted now meta = record meta {
  count = meta.count + 1;
  created_at = if meta.count == 0 && meta.created_at == 0 then now else meta.created_at;
  updated_at = now;
}

abbrev pub append_to : Append → Text → Text → Text
append_to done line text = text ++ line
append_to (torn n) line text = text ++ take n line

abbrev pub is_done : Append → Bool
is_done done = true
is_done (torn n) = false

unfoldable pub add_msg : Codec → System → Text → Message → ℕ → JsonlStore → Result Unit × JsonlStore
unfolding counted put_log write_meta
add_msg codec system key msg now s = elim (codec.marshal msg) [
  | none ↦ (err marshal_error, s)
  | some line ↦
      let appended = put_log key (append_to system.appends (line ++ (10 ∷ [])) (log_of key s)) s in
      if is_done system.appends && system.reads_meta
      then write_meta system key (counted now (meta_of key s)) appended
      else (err io_error, appended)
]

unfoldable pub add_message :
    Codec → System → Text → Text → Text → ℕ → JsonlStore → Result Unit × JsonlStore
unfolding add_msg
add_message codec system key role content now s =
    add_msg codec system key (plain role content) now s

unfoldable pub get_history : Codec → System → Text → JsonlStore → Result (List Message)
unfolding read_messages
get_history codec system key s =
    if system.reads_meta
    then read_messages codec system (log_of key s) (meta_of key s).skip
    else err io_error

unfoldable pub get_summary : System → Text → JsonlStore → Result Text
get_summary system key s = if system.reads_meta then ok (meta_of key s).summary else err io_error

abbrev pub created_by : ℕ → SessionMeta → ℕ
created_by now meta = if meta.created_at == 0 then now else meta.created_at

unfoldable pub set_summary : System → Text → Text → ℕ → JsonlStore → Result Unit × JsonlStore
unfolding write_meta
set_summary system key summary now s =
    let meta = meta_of key s in
    let meta' = record meta {
      summary = summary;
      created_at = created_by now meta;
      updated_at = now;
    } in
    if system.reads_meta then write_meta system key meta' s else (err io_error, s)

-- What TruncateHistory skips of n lines; a negative keepLast is 0.
unfoldable pub skip_after : ℕ → ℕ → ℕ → ℕ
skip_after keep_last n skip =
    if keep_last == 0 then n else if ltb keep_last (n - skip) then n - keep_last else skip

unfoldable pub truncate_history : System → Text → ℕ → ℕ → JsonlStore → Result Unit × JsonlStore
unfolding count_lines skip_after write_meta
truncate_history system key keep_last now s =
    let meta = meta_of key s in
    let truncated : Result Unit × JsonlStore = elim (count_lines system (log_of key s)) [
      | err e ↦ (err e, s)
      | ok n ↦
          write_meta system key
            (record meta { count = n; skip = skip_after keep_last n meta.skip; updated_at = now }) s
    ] in
    if system.reads_meta then truncated else (err io_error, s)

-- A second write, if the first succeeds.
abbrev pub and_then :
    Result Unit × JsonlStore → (JsonlStore → Result Unit × JsonlStore) → Result Unit × JsonlStore
and_then (ok u, s) f = f s
and_then (err e, s) f = (err e, s)

unfoldable pub set_history :
    Codec → System → Text → List Message → ℕ → JsonlStore → Result Unit × JsonlStore
unfolding write_meta rewrite_jsonl
set_history codec system key history now s =
    let meta = meta_of key s in
    let meta' = record meta {
      skip = 0;
      count = length history;
      created_at = created_by now meta;
      updated_at = now;
    } in
    if system.reads_meta
    then and_then (write_meta system key meta' s) (λ s'. rewrite_jsonl codec system key history s')
    else (err io_error, s)

unfoldable pub compact : Codec → System → Text → ℕ → JsonlStore → Result Unit × JsonlStore
unfolding write_meta rewrite_jsonl
compact codec system key now s =
    let meta = meta_of key s in
    let compacted : Result Unit × JsonlStore =
      elim (read_messages codec system (log_of key s) meta.skip) [
        | err e ↦ (err e, s)
        | ok active ↦
            and_then
              (write_meta system key
                (record meta { skip = 0; count = length active; updated_at = now }) s)
              (λ s'. rewrite_jsonl codec system key active s')
      ] in
    if system.reads_meta
    then (if meta.skip == 0 then (ok tt, s) else compacted)
    else (err io_error, s)
