-- ===== src/Memory/After.antt =====
-- What one call leaves behind.
use ebiclaw.Prelude.{
  ℕ, zero, suc, ◌≡◌, ◌≤◌, Bool, true, false, ◌&&◌, Option, none, some, List, [], ◌∷◌, ◌++◌,
  if◌then◌else◌, length, drop, ◌==◌, arith, refl, ap, sym, ◌∙◌, append-nil, drop-append_le, All,
  All-append, Bool-cases, inl, inr, length-append,
}
use ebiclaw.Strings.{Text}
use ebiclaw.Protocol.{Message, stored, stored_all, stored_twice}
use ebiclaw.Memory.{
  Codec, JsonlStore, SessionMeta, System, Append, done, torn, Result, ok, err, Error, io_error,
  marshal_error, encode, log_of, meta_of, put_log, put_meta, read_messages, count_lines, write_meta,
  rewrite_jsonl, counted, append_to, and_then, add_msg, set_summary, truncate_history, set_history,
  compact, is_done,
}
use ebiclaw.Memory.Lines.{LawfulCodec, Marshals, unlines-append, Marshals-append, encode-Marshals}
use ebiclaw.Memory.Holding.{
  Fits, Holds, log_of-put_log, meta_of-put_log, meta_of-put_meta, put_meta-Holds, read-Holds,
  count-Holds,
}
use ebiclaw.Memory.Meaning.{
  Call, add, summarize, truncate, replace, compact_log, perform, meaning, CallFits, IsWhole, Kept,
  All-drop, drop-skip_after, skip_after-le,
}

Fits-stored_one :
    (codec : Codec) (lawful : LawfulCodec codec) (msg : Message)
    → Fits codec msg
    → Fits codec (stored msg)
Fits-stored_one codec lawful msg f = λ line e. f line (sym (lawful.blind msg) ∙ e)

Fits-stored :
    (codec : Codec) (lawful : LawfulCodec codec) (msgs : List Message)
    → All (Fits codec) msgs
    → All (Fits codec) (stored_all msgs)
unfolding stored_all
Fits-stored codec lawful [] f = tt
Fits-stored codec lawful (msg ∷ msgs) f =
    (Fits-stored_one codec lawful msg f.0, Fits-stored codec lawful msgs f.1)

Marshals-drop :
    (codec : Codec) (n : ℕ) (lines : List Text) (msgs : List Message)
    → Marshals codec lines msgs
    → Marshals codec (drop n lines) (drop n msgs)
Marshals-drop codec zero lines msgs h = h
Marshals-drop codec (suc n) [] [] h = tt
Marshals-drop codec (suc n) [] (msg ∷ msgs) h = absurd h
Marshals-drop codec (suc n) (line ∷ lines) [] h = absurd h
Marshals-drop codec (suc n) (line ∷ lines) (msg ∷ msgs) h = Marshals-drop codec n lines msgs h.1

-- The messages of a file are as they are stored.
stored_all_id :
    (codec : Codec) (lines : List Text) (msgs : List Message)
    → Marshals codec lines msgs
    → stored_all msgs ≡ msgs
unfolding stored_all
stored_all_id codec [] [] h = refl
stored_all_id codec [] (msg ∷ msgs) h = absurd h
stored_all_id codec (line ∷ lines) [] h = absurd h
stored_all_id codec (line ∷ lines) (msg ∷ msgs) h = cc (h.0.1, stored_all_id codec lines msgs h.1)

-- What a call leaves behind.
pub record After (codec : Codec) (key : Text) (c : Call) (msgs : List Message) (skip : ℕ)
    (out : Result Unit × JsonlStore) : Type 0 where
  pub msgs' : List Message
  pub skip' : ℕ
  pub holds : Holds codec key msgs' skip' out.1
  pub kept : Kept out.0 c msgs (drop skip msgs) (drop skip' msgs')

module _ {codec : Codec} (lawful : LawfulCodec codec) (system : System) {key : Text} (now : ℕ)
    {msgs : List Message} {skip : ℕ} {s : JsonlStore} (h : Holds codec key msgs skip s) where
  unchanged : (c : Call) {e : Error} → After codec key c msgs skip (err e, s)
  unchanged c = record { msgs' = msgs; skip' = skip; holds = h; kept = inl refl }

  write_meta-After :
      (c : Call) (meta : SessionMeta)
      → meta.skip ≤ length msgs
      → drop meta.skip msgs ≡ meaning c (drop skip msgs)
      → After codec key c msgs skip (write_meta system key meta s)
  unfolding write_meta
  write_meta-After c meta le e = elim (Bool-cases system.writes_meta) [
    | inl w ↦ rw w (record {
      msgs' = msgs;
      skip' = meta.skip;
      holds = put_meta-Holds lawful h meta le;
      kept = e;
    })
    | inr w ↦ rw w (unchanged c)
  ]

  summarize-After :
      (text : Text)
      → After codec key (summarize text) msgs skip (perform codec system key now (summarize text) s)
  unfolding perform set_summary meaning
  summarize-After text = elim (Bool-cases system.reads_meta) [
    | inl r ↦ rw r (
        write_meta-After (summarize text) _ (rw h.skipped h.within)
          (ap (λ (n : ℕ). drop n msgs) h.skipped))
    | inr r ↦ rw r (unchanged (summarize text))
  ]

  truncate-After :
      (n : ℕ) → After codec key (truncate n) msgs skip (perform codec system key now (truncate n) s)
  unfolding perform truncate_history meaning
  truncate-After n = elim (Bool-cases system.reads_meta) [
    | inl r ↦ elim (Bool-cases system.reads_log) [
      | inl l ↦
          rw (r, count-Holds lawful h system l, h.skipped)
            (write_meta-After (truncate n) _ (skip_after-le n (length msgs) skip h.within)
              (drop-skip_after n (length msgs) skip msgs refl h.within))
      | inr l ↦ rw (r, unread l) (unchanged (truncate n))
    ]
    | inr r ↦ rw r (unchanged (truncate n))
  ]
    where
      unread : system.reads_log ≡ false → count_lines system (log_of key s) ≡ err io_error
      unread l = unfold count_lines in rw l refl

  -- The file is rewritten after its metadata, which skip nothing any more.
  rewrite-After :
      (c : Call) (meta : SessionMeta) (new : List Message)
      → meta.skip ≡ 0
      → stored_all new ≡ meaning c (drop skip msgs)
      → All (Fits codec) new
      → After codec key c msgs skip
          (and_then (write_meta system key meta s) (λ s'. rewrite_jsonl codec system key new s'))
  unfolding write_meta rewrite_jsonl
  rewrite-After c meta new z e f = elim (Bool-cases system.writes_meta) [
    | inl w ↦ rw w (by_text (encode codec new) system.rewrites_log refl)
    | inr w ↦ rw w (unchanged c)
  ]
    where
      stored_meta : JsonlStore
      stored_meta = put_meta key meta s

      all_kept : {e : Error} → After codec key c msgs skip (err e, stored_meta)
      all_kept = record {
        msgs' = msgs;
        skip' = meta.skip;
        holds = put_meta-Holds lawful h meta (omega (arith, z));
        kept = inr (inr (ap (λ (n : ℕ). drop n msgs) z));
      }

      by_text :
          (o : Option Text) (b : Bool)
          → encode codec new ≡ o
          → After codec key c msgs skip (elim o [
            | none ↦ (err marshal_error, stored_meta)
            | some text ↦
                if b then (ok tt, put_log key text stored_meta) else (err io_error, stored_meta)
          ])
      by_text none b p = all_kept
      by_text (some text) false p = all_kept
      by_text (some text) true p =
          let (lines, m, t) = encode-Marshals codec lawful new text p in
          record {
            msgs' = stored_all new;
            skip' = 0;
            holds = record {
              lines = lines;
              matched = m;
              fits = Fits-stored codec lawful new f;
              stored = log_of-put_log key text stored_meta ∙ t;
              skipped =
                  ap (λ (m : SessionMeta). m.skip) (meta_of-put_log key text stored_meta)
                  ∙ ap (λ (m : SessionMeta). m.skip) (meta_of-put_meta key meta s)
                  ∙ z;
              within = omega arith;
            };
            kept = e;
          }

  replace-After :
      (new : List Message)
      → All (Fits codec) new
      → After codec key (replace new) msgs skip (perform codec system key now (replace new) s)
  unfolding perform set_history meaning
  replace-After new f = elim (Bool-cases system.reads_meta) [
    | inl r ↦ rw r (rewrite-After (replace new) _ new refl refl f)
    | inr r ↦ rw r (unchanged (replace new))
  ]

  compact-After : After codec key compact_log msgs skip (perform codec system key now compact_log s)
  unfolding perform compact meaning
  compact-After = elim (Bool-cases system.reads_meta) [
    | inr r ↦ rw r (unchanged compact_log)
    | inl r ↦ elim (Bool-cases ((meta_of key s).skip == 0)) [
      | inl z ↦ rw (r, z) (record { msgs' = msgs; skip' = skip; holds = h; kept = refl })
      | inr z ↦ elim (Bool-cases system.reads_log) [
        | inl l ↦
            rw (read l, r, z)
              (rewrite-After compact_log _ (drop skip msgs) refl
                (stored_all_id codec (drop skip h.lines) (drop skip msgs)
                  (Marshals-drop codec skip h.lines msgs h.matched))
                (All-drop codec skip msgs h.fits))
        | inr l ↦ rw (unread l, r, z) (unchanged compact_log)
      ]
    ]
  ]
    where
      read :
          system.reads_log ≡ true
          → read_messages codec system (log_of key s) (meta_of key s).skip ≡ ok (drop skip msgs)
      read l =
          ap (λ (n : ℕ). read_messages codec system (log_of key s) n) h.skipped
          ∙ read-Holds lawful h system skip l h.within

      unread :
          system.reads_log ≡ false
          → read_messages codec system (log_of key s) (meta_of key s).skip ≡ err io_error
      unread l = unfold read_messages in rw l refl

  -- The message is in the file, and its metadata may be.
  appended-Holds :
      (msg : Message) (line : Text)
      → codec.marshal msg ≡ some line
      → Fits codec msg
      → Holds codec key
          (msgs ++ (stored msg ∷ []))
          skip
          (put_log key (log_of key s ++ (line ++ (10 ∷ []))) s)
  appended-Holds msg line m f = record {
    lines = h.lines ++ (line ∷ []);
    matched =
        Marshals-append codec h.lines msgs line (stored msg) h.matched (lawful.blind msg ∙ m)
          (stored_twice msg);
    fits =
        All-append (Fits codec) msgs (stored msg ∷ []) h.fits
          (Fits-stored_one codec lawful msg f, tt);
    stored =
        log_of-put_log key (log_of key s ++ (line ++ (10 ∷ []))) s
        ∙ ap (λ (t : Text). t ++ (line ++ (10 ∷ []))) h.stored
        ∙ sym (unlines-append h.lines line);
    skipped =
        ap (λ (m : SessionMeta). m.skip)
          (meta_of-put_log key (log_of key s ++ (line ++ (10 ∷ []))) s)
        ∙ h.skipped;
    within = omega (arith, h.within, length-append msgs (stored msg ∷ []));
  }

  untouched-Holds : Holds codec key msgs skip (put_log key (log_of key s ++ []) s)
  untouched-Holds = record {
    lines = h.lines;
    matched = h.matched;
    fits = h.fits;
    stored = log_of-put_log key (log_of key s ++ []) s ∙ append-nil (log_of key s) ∙ h.stored;
    skipped =
        ap (λ (m : SessionMeta). m.skip) (meta_of-put_log key (log_of key s ++ []) s) ∙ h.skipped;
    within = h.within;
  }

  add-After :
      (msg : Message)
      → Fits codec msg
      → IsWhole system.appends
      → After codec key (add msg) msgs skip (perform codec system key now (add msg) s)
  unfolding perform add_msg write_meta counted meaning
  add-After msg f whole =
      by_line (codec.marshal msg) system.appends system.reads_meta system.writes_meta refl whole
    where
      grown : drop skip (msgs ++ (stored msg ∷ [])) ≡ drop skip msgs ++ (stored msg ∷ [])
      grown = drop-append_le skip msgs (stored msg ∷ []) h.within

      by_line :
          (o : Option Text) (a : Append) (reads writes : Bool)
          → codec.marshal msg ≡ o
          → IsWhole a
          → After codec key (add msg) msgs skip (elim o [
            | none ↦ (err marshal_error, s)
            | some line ↦
                let appended = put_log key (append_to a (line ++ (10 ∷ [])) (log_of key s)) s in
                let meta = counted now (meta_of key s) in
                if is_done a && reads
                then (if writes
                    then (ok tt, put_meta key meta appended)
                    else (err io_error, appended))
                else (err io_error, appended)
          ])
      by_line none a reads writes m w = unchanged (add msg)
      by_line (some line) done true true m w = record {
        msgs' = msgs ++ (stored msg ∷ []);
        skip' = (meta_of key s).skip;
        holds =
            put_meta-Holds lawful (appended-Holds msg line m f) (counted now (meta_of key s))
              (omega (arith, h.skipped, h.within, length-append msgs (stored msg ∷ [])));
        kept = ap (λ (n : ℕ). drop n (msgs ++ (stored msg ∷ []))) h.skipped ∙ grown;
      }
      by_line (some line) done true false m w = record {
        msgs' = msgs ++ (stored msg ∷ []);
        skip' = skip;
        holds = appended-Holds msg line m f;
        kept = inr (inl grown);
      }
      by_line (some line) done false writes m w = record {
        msgs' = msgs ++ (stored msg ∷ []);
        skip' = skip;
        holds = appended-Holds msg line m f;
        kept = inr (inl grown);
      }
      by_line (some line) (torn zero) reads writes m w = record {
        msgs' = msgs;
        skip' = skip;
        holds = untouched-Holds;
        kept = inl refl;
      }
      by_line (some line) (torn (suc n)) reads writes m w = absurd w

  pub perform-After :
      (c : Call)
      → CallFits codec c
      → IsWhole system.appends
      → After codec key c msgs skip (perform codec system key now c s)
  perform-After (add msg) f w = add-After msg f w
  perform-After (summarize text) f w = summarize-After text
  perform-After (truncate n) f w = truncate-After n
  perform-After (replace new) f w = replace-After new f
  perform-After compact_log f w = compact-After
