-- ===== src/Memory/Torn.antt =====
-- A line that was cut short, and the line that is appended to it.
use ebiclaw.Prelude.{
  ℕ, zero, suc, ◌≡◌, ◌≤◌, ◌<◌, true, false, none, some, List, [], ◌∷◌, ◌++◌, is_empty, length, take,
  drop, arith, refl, ap, sym, ◌∙◌, append-nil, append_assoc, All, All-append, All-take,
  take-append_le, Option-cases, inl, inr,
}
use ebiclaw.Strings.{Text}
use ebiclaw.Protocol.{Message}
use ebiclaw.Memory.{
  Codec, JsonlStore, System, torn, ok, err, io_error, raw_lines, scan, decode, log_of, meta_of,
  put_log, put_meta, read_messages, get_history, counted, add_msg, SessionMeta, write_meta,
}
use ebiclaw.Memory.Brackets.{IsObject, run, run-append, outside, run-ne-closed}
use ebiclaw.Memory.Lines.{
  LawfulCodec, IsInLine, IsShort, raw_lines-line, scan-line, decode-Marshals,
}
use ebiclaw.Memory.Holding.{
  Holds, healthy, no_files, no_files-Holds, log_of-put_log, meta_of-put_log, log_of-put_meta,
  meta_of-put_meta, scan-Holds, get_history-Holds,
}
use ebiclaw.Memory.Meaning.{Call}
use ebiclaw.Memory.Faults.{Untorn, Readable, perform_all, perform_all-Readable}

-- The system that writes the first n bytes of an appended line.
abbrev pub cut_short : ℕ → System
cut_short n = record {
  reads_meta = true;
  writes_meta = true;
  reads_log = true;
  rewrites_log = true;
  appends = torn n;
}

nonempty_take : (n : ℕ) (s : Text) → 0 < n → n ≤ length s → is_empty (take n s) ≡ false
nonempty_take zero s p q = absurd (omega arith)
nonempty_take (suc n) [] p q = absurd (omega arith)
nonempty_take (suc n) (c ∷ s) p q = refl

nonempty_append : (s t : Text) → is_empty s ≡ false → is_empty (s ++ t) ≡ false
nonempty_append [] t h = cc
nonempty_append (c ∷ s) t h = refl

-- Two messages whose lines are l and l', where n bytes of the first reached the file.
pub record Joined (codec : Codec) (n : ℕ) (msg msg' : Message) (line line' : Text) : Type 0 where
  pub first : codec.marshal msg ≡ some line
  pub second : codec.marshal msg' ≡ some line'
  pub some_bytes : 0 < n
  pub unended : n ≤ length line
  pub room : IsShort (take n line ++ line')

-- The piece and the line together are not the text of an object.
unread_of_Joined :
    {codec : Codec} (lawful : LawfulCodec codec) {n : ℕ} {msg msg' : Message} {line line' : Text}
    → Joined codec n msg msg' line line'
    → codec.unmarshal (take n line ++ line') ≡ none
unread_of_Joined {codec} lawful {n} {msg} {msg'} {line} {line'} j =
    by_length n (lawful.object msg line j.first) (lawful.object msg' line' j.second) j.some_bytes
  where
    by_length :
        (n : ℕ)
        → IsObject line
        → IsObject line'
        → 0 < n
        → codec.unmarshal (take n line ++ line') ≡ none
    by_length zero o o' p = absurd (omega arith)
    by_length (suc n) o o' p =
        rw (o.starts, o'.starts)
          (elim (Option-cases (codec.unmarshal (123 ∷ (take n o.rest ++ (123 ∷ o'.rest))))) [
            | inl e ↦ e
            | inr (m, e) ↦ absurd (
                run-ne-closed (run (outside 0) (take n o.rest)) o'.rest o'.ends (
                  sym (run-append (outside 0) (take n o.rest) (123 ∷ o'.rest))
                  ∙ lawful.ends (take n o.rest ++ (123 ∷ o'.rest)) m e))
          ])

module _ {codec : Codec} (lawful : LawfulCodec codec) {key : Text} (now now' : ℕ)
    {msgs : List Message} {skip : ℕ} {s : JsonlStore} (h : Holds codec key msgs skip s) {n : ℕ}
    {msg msg' : Message} {line line' : Text} (j : Joined codec n msg msg' line line') where
  part : Text
  part = take n line

  torn_log : JsonlStore
  torn_log = put_log key (log_of key s ++ part) s

  cut_line : add_msg codec (cut_short n) key msg now s ≡ (err io_error, torn_log)
  unfolding add_msg torn_log part
  cut_line = rw (j.first, take-append_le n line (10 ∷ []) j.unended, add_msg) refl

  joined_log : JsonlStore
  joined_log = put_log key (log_of key s ++ ((part ++ line') ++ (10 ∷ []))) torn_log

  next_line :
      add_msg codec healthy key msg' now' torn_log
      ≡ (ok tt, put_meta key (counted now' (meta_of key s)) joined_log)
  unfolding add_msg write_meta joined_log
  next_line =
      rw (j.second, add_msg)
        (ap
            (λ (t : Text).
              (ok tt, put_meta key (counted now' (meta_of key torn_log)) (put_log key t torn_log)))
            text
          ∙ ap (λ (m : SessionMeta). (ok tt, put_meta key (counted now' m) joined_log)) same_meta)
    where
      text :
          log_of key torn_log ++ (line' ++ (10 ∷ []))
          ≡ log_of key s ++ ((part ++ line') ++ (10 ∷ []))
      text =
          unfold torn_log in
          ap (λ (t : Text). t ++ (line' ++ (10 ∷ []))) (log_of-put_log key (log_of key s ++ part) s)
          ∙ append_assoc (log_of key s) part (line' ++ (10 ∷ []))
          ∙ ap (λ (t : Text). log_of key s ++ t) (sym (append_assoc part line' (10 ∷ [])))

      same_meta : meta_of key torn_log ≡ meta_of key s
      same_meta = unfold torn_log in meta_of-put_log key (log_of key s ++ part) s

  joined_scan :
      scan (raw_lines (log_of key s ++ ((part ++ line') ++ (10 ∷ []))))
      ≡ some (h.lines ++ ((part ++ line') ∷ []))
  unfolding part
  joined_scan = scan-Holds lawful h ((part ++ line') ++ (10 ∷ [])) ((part ++ line') ∷ []) (
      ap scan (raw_lines-line (part ++ line') [] flat)
      ∙ scan-line (part ++ line') (raw_lines []) [] flat solid j.room
          (unfold raw_lines scan in refl))
    where
      flat : All IsInLine (part ++ line')
      flat =
          All-append IsInLine part line'
            (All-take IsInLine n line (lawful.one_line msg line j.first))
            (lawful.one_line msg' line' j.second)

      solid : is_empty (part ++ line') ≡ false
      solid = nonempty_append part line' (nonempty_take n line j.some_bytes j.unended)

  joined_decode : decode codec (drop skip (h.lines ++ ((part ++ line') ∷ []))) ≡ drop skip msgs
  unfolding part decode
  joined_decode =
      decode-Marshals codec lawful skip h.lines ((part ++ line') ∷ []) msgs h.matched h.within
      ∙ ap (λ (r : List Message). drop skip msgs ++ r) nothing
      ∙ append-nil (drop skip msgs)
    where
      nothing : decode codec ((part ++ line') ∷ []) ≡ []
      nothing = rw (unread_of_Joined lawful j, decode) refl

  after_both : JsonlStore
  after_both = put_meta key (counted now' (meta_of key s)) joined_log

  read_joined :
      read_messages codec healthy (log_of key s ++ ((part ++ line') ++ (10 ∷ []))) skip
      ≡ ok (drop skip msgs)
  unfolding read_messages
  read_joined = rw joined_scan (ap (λ (ms : List Message). ok ms) joined_decode)

  get_history-after_both : get_history codec healthy key after_both ≡ ok (drop skip msgs)
  unfolding get_history counted after_both
  get_history-after_both =
      ap (λ (t : Text). read_messages codec healthy t (meta_of key after_both).skip) text
      ∙ ap
          (λ (k : ℕ).
            read_messages codec healthy (log_of key s ++ ((part ++ line') ++ (10 ∷ []))) k)
          skipped
      ∙ read_joined
    where
      text : log_of key after_both ≡ log_of key s ++ ((part ++ line') ++ (10 ∷ []))
      text =
          unfold joined_log in
          log_of-put_meta key (counted now' (meta_of key s)) joined_log
          ∙ log_of-put_log key (log_of key s ++ ((part ++ line') ++ (10 ∷ []))) torn_log

      skipped : (meta_of key after_both).skip ≡ skip
      skipped =
          ap (λ (m : SessionMeta). m.skip)
            (meta_of-put_meta key (counted now' (meta_of key s)) joined_log)
          ∙ h.skipped

-- What two calls do: the one whose line was cut short, and the next one.
pub record IsLost (codec : Codec) (key : Text) (n : ℕ) (now now' : ℕ) (msg msg' : Message)
    (s : JsonlStore) : Type 0 where
  pub between : JsonlStore
  pub finally : JsonlStore
  pub failed : add_msg codec (cut_short n) key msg now s ≡ (err io_error, between)
  pub reported : add_msg codec healthy key msg' now' between ≡ (ok tt, finally)
  pub unread : get_history codec healthy key finally ≡ get_history codec healthy key s

-- When an append was cut short after a byte or more, by a crash or a full disk, the message that is
-- added next is lost, although its call reports success: it is written behind the piece on the same
-- line, which then has no JSON value, and the history is read as it was before both. The store has
-- been written by calls that may have failed, none in the middle of an append; the joined line has
-- room in the reader's buffer, and the JSON codec keeps to LawfulCodec.
pub add_msg-IsLost :
    (codec : Codec) (key : Text) (cs : List (System × ℕ × Call)) (n now now' : ℕ)
    (msg msg' : Message) (line line' : Text)
    → LawfulCodec codec
    → All (Untorn codec) cs
    → Joined codec n msg msg' line line'
    → IsLost codec key n now now' msg msg' (perform_all codec key cs no_files)
add_msg-IsLost codec key cs n now now' msg msg' line line' l us j =
    let start : Readable codec key no_files = record {
      msgs = [];
      skip = 0;
      holds = no_files-Holds codec key;
    } in
    let r = perform_all-Readable codec key cs no_files l us start in
    record {
      between = torn_log l now now' r.holds j;
      finally = after_both l now now' r.holds j;
      failed = cut_line l now now' r.holds j;
      reported = unfold after_both in next_line l now now' r.holds j;
      unread = get_history-after_both l now now' r.holds j ∙ sym (get_history-Holds l r.holds);
    }
