-- ===== src/Memory/Faults.antt =====
-- What each call makes of a history, when the operating system may fail at any point.
use ebiclaw.Prelude.{ℕ, ◌≡◌, List, [], ◌∷◌, drop, arith, refl, All}
use ebiclaw.Strings.{Text}
use ebiclaw.Protocol.{Message}
use ebiclaw.Memory.{Codec, JsonlStore, System, ok, log_of, read_messages, get_history}
use ebiclaw.Memory.Lines.{LawfulCodec}
use ebiclaw.Memory.Holding.{Holds, no_files, healthy, no_files-Holds, read-Holds, get_history-Holds}
use ebiclaw.Memory.Meaning.{Call, perform, CallFits, IsWhole, Kept}
use ebiclaw.Memory.After.{perform-After}

-- Calls one after another, each with what the system makes of it and the clock's time.
pub perform_all : Codec → Text → List (System × ℕ × Call) → JsonlStore → JsonlStore
perform_all codec key [] s = s
perform_all codec key ((system, now, c) ∷ cs) s =
    perform_all codec key cs (perform codec system key now c s).1

-- A history of a file's messages that a later read returns.
pub record Readable (codec : Codec) (key : Text) (s : JsonlStore) : Type 0 where
  pub msgs : List Message
  pub skip : ℕ
  pub holds : Holds codec key msgs skip s

abbrev pub Untorn : Codec → System × ℕ × Call → Type 0
Untorn codec (system, now, c) = CallFits codec c × IsWhole system.appends

pub perform_all-Readable :
    (codec : Codec) (key : Text) (cs : List (System × ℕ × Call)) (s : JsonlStore)
    → LawfulCodec codec
    → All (Untorn codec) cs
    → Readable codec key s
    → Readable codec key (perform_all codec key cs s)
unfolding perform_all
perform_all-Readable codec key [] s l u r = r
perform_all-Readable codec key ((system, now, c) ∷ cs) s l u r =
    let out = perform-After l system now r.holds c u.0.0 u.0.1 in
    perform_all-Readable codec key cs (perform codec system key now c s).1 l u.1
      (record { msgs = out.msgs'; skip = out.skip'; holds = out.holds })

-- What reading gives before and after one more call.
pub record Survives (codec : Codec) (key : Text) (now : ℕ) (system : System) (c : Call)
    (s : JsonlStore) : Type 0 where
  pub before : List Message
  pub file : List Message
  pub after : List Message
  pub read_before : get_history codec healthy key s ≡ ok before
  pub whole_file : read_messages codec healthy (log_of key s) 0 ≡ ok file
  pub read_after : get_history codec healthy key (perform codec system key now c s).1 ≡ ok after
  pub kept : Kept (perform codec system key now c s).0 c file before after

-- The files of a session can be read after any calls, whatever reads, writes and appends of the
-- operating system failed in them, or crashed, as long as no append of a line was cut short and no
-- line is over 10 MB. One more such call that reports success has changed the history by what it
-- means: it appends the message without the fields that JSON leaves out, keeps the last messages, puts such others in their place, or leaves the
-- history alone. If it fails, then the history is what it was, or what the call means, or it is
-- every message of the file, those that a truncation had dropped included. The JSON codec keeps to
-- LawfulCodec.
pub perform-Survives :
    (codec : Codec) (key : Text) (cs : List (System × ℕ × Call)) (system : System) (now : ℕ)
    (c : Call)
    → LawfulCodec codec
    → All (Untorn codec) cs
    → Untorn codec (system, now, c)
    → Survives codec key now system c (perform_all codec key cs no_files)
perform-Survives codec key cs system now c l us u =
    let start : Readable codec key no_files = record {
      msgs = [];
      skip = 0;
      holds = no_files-Holds codec key;
    } in
    let r = perform_all-Readable codec key cs no_files l us start in
    let out = perform-After l system now r.holds c u.0 u.1 in
    record {
      before = drop r.skip r.msgs;
      file = r.msgs;
      after = drop out.skip' out.msgs';
      read_before = get_history-Holds l r.holds;
      whole_file = read-Holds l r.holds healthy 0 refl (omega arith);
      read_after = get_history-Holds l out.holds;
      kept = out.kept;
    }
