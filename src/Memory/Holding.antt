-- ===== src/Memory/Holding.antt =====
-- What a session's two files hold, and how a read and each write keeps to it.
use ebiclaw.Prelude.{
  ℕ, ◌≡◌, ◌≤◌, true, some, List, [], ◌∷◌, ◌++◌, length, drop, arith, refl, ap, sym, ◌∙◌, append-nil,
  All,
}
use ebiclaw.Strings.{Text}
use ebiclaw.Maps.{get, get-put_self}
use ebiclaw.Protocol.{Message}
use ebiclaw.Memory.{
  Codec, JsonlStore, SessionMeta, System, done, ok, raw_lines, scan, decode, sanitize_key, log_of,
  meta_of, put_log, put_meta, read_messages, count_lines, get_history, zero_meta,
}
use ebiclaw.Memory.Lines.{
  LawfulCodec, Marshals, IsShort, unlines, length-Marshals, decode-Marshals, scan-unlines,
}

-- A message whose line the reader's buffer can hold.
abbrev pub Fits : Codec → Message → Type 0
Fits codec msg = (line : Text) → codec.marshal msg ≡ some line → IsShort line

-- The file has the messages, of which the first ones are skipped.
pub record Holds (codec : Codec) (key : Text) (msgs : List Message) (skip : ℕ) (s : JsonlStore)
    : Type 0 where
  pub lines : List Text
  pub matched : Marshals codec lines msgs
  pub fits : All (Fits codec) msgs
  pub stored : log_of key s ≡ unlines lines
  pub skipped : (meta_of key s).skip ≡ skip
  pub within : skip ≤ length msgs

-- A store with no files.
abbrev pub no_files : JsonlStore
no_files = record { logs = []; metas = [] }

-- The system where nothing fails.
abbrev pub healthy : System
healthy = record {
  reads_meta = true;
  writes_meta = true;
  reads_log = true;
  rewrites_log = true;
  appends = done;
}

pub no_files-Holds : (codec : Codec) (key : Text) → Holds codec key [] 0 no_files
unfolding log_of meta_of zero_meta get unlines
no_files-Holds codec key = record {
  lines = [];
  matched = tt;
  fits = tt;
  stored = refl;
  skipped = refl;
  within = omega arith;
}

pub log_of-put_log :
    (key : Text) (text : Text) (s : JsonlStore) → log_of key (put_log key text s) ≡ text
unfolding log_of put_log
log_of-put_log key text s = rw (get-put_self (sanitize_key key) text s.logs, log_of) refl

pub meta_of-put_meta :
    (key : Text) (meta : SessionMeta) (s : JsonlStore) → meta_of key (put_meta key meta s) ≡ meta
unfolding meta_of put_meta
meta_of-put_meta key meta s = rw (get-put_self (sanitize_key key) meta s.metas, meta_of) refl

pub log_of-put_meta :
    (key : Text) (meta : SessionMeta) (s : JsonlStore)
    → log_of key (put_meta key meta s) ≡ log_of key s
unfolding log_of put_meta
log_of-put_meta key meta s = refl

pub meta_of-put_log :
    (key : Text) (text : Text) (s : JsonlStore) → meta_of key (put_log key text s) ≡ meta_of key s
unfolding meta_of put_log
meta_of-put_log key text s = refl

Marshals-IsShort :
    (codec : Codec) (lines : List Text) (msgs : List Message)
    → Marshals codec lines msgs
    → All (Fits codec) msgs
    → All IsShort lines
Marshals-IsShort codec [] msgs m f = tt
Marshals-IsShort codec (line ∷ lines) [] m f = absurd m
Marshals-IsShort codec (line ∷ lines) (msg ∷ msgs) m f =
    (f.0 line m.0.0, Marshals-IsShort codec lines msgs m.1 f.1)

module _ {codec : Codec} (lawful : LawfulCodec codec) {key : Text} {msgs : List Message} {skip : ℕ}
    {s : JsonlStore} (h : Holds codec key msgs skip s) where
  -- What the scanner gives, when more lines follow in the file.
  pub scan-Holds :
      (tail : Text) (ts : List Text)
      → scan (raw_lines tail) ≡ some ts
      → scan (raw_lines (log_of key s ++ tail)) ≡ some (h.lines ++ ts)
  scan-Holds tail ts e = rw h.stored (
      scan-unlines codec lawful h.lines msgs tail ts h.matched
        (Marshals-IsShort codec h.lines msgs h.matched h.fits) e)

  pub scan_all : scan (raw_lines (log_of key s)) ≡ some h.lines
  scan_all =
      ap (λ (t : Text). scan (raw_lines t)) (sym (append-nil (log_of key s)))
      ∙ scan-Holds [] [] (unfold raw_lines scan in refl)
      ∙ ap (λ (ls : List Text). some ls) (append-nil h.lines)

  pub read-Holds :
      (system : System) (n : ℕ)
      → system.reads_log ≡ true
      → n ≤ length msgs
      → read_messages codec system (log_of key s) n ≡ ok (drop n msgs)
  unfolding read_messages
  read-Holds system n r k =
      rw (r, scan_all)
        (ap (λ (ms : List Message). ok ms)
          (ap (λ (ls : List Text). decode codec (drop n ls)) (sym (append-nil h.lines))
            ∙ decode-Marshals codec lawful n h.lines [] msgs h.matched k
            ∙ (unfold decode in append-nil (drop n msgs))))

  pub count-Holds :
      (system : System)
      → system.reads_log ≡ true
      → count_lines system (log_of key s) ≡ ok (length msgs)
  unfolding count_lines
  count-Holds system r =
      rw (r, scan_all) (ap (λ (n : ℕ). ok n) (length-Marshals codec h.lines msgs h.matched))

  pub get_history-Holds : get_history codec healthy key s ≡ ok (drop skip msgs)
  unfolding get_history
  get_history-Holds =
      ap (λ (n : ℕ). read_messages codec healthy (log_of key s) n) h.skipped
      ∙ read-Holds healthy skip refl h.within

  -- A new metadata file.
  pub put_meta-Holds :
      (meta : SessionMeta)
      → meta.skip ≤ length msgs
      → Holds codec key msgs meta.skip (put_meta key meta s)
  put_meta-Holds meta k = record {
    lines = h.lines;
    matched = h.matched;
    fits = h.fits;
    stored = log_of-put_meta key meta s ∙ h.stored;
    skipped = ap (λ (m : SessionMeta). m.skip) (meta_of-put_meta key meta s);
    within = k;
  }
