-- ===== src/Memory/Lines.antt =====
-- What a file of encoded messages is read as.
use ebiclaw.Prelude.{
  ℕ, zero, suc, ◌≡◌, ◌≤◌, ◌<◌, false, Option, none, some, List, [], ◌∷◌, ◌++◌, is_empty, length,
  drop, leb, ◌==◌, arith, refl, ap, sym, ◌∙◌, append_assoc, All,
}
use ebiclaw.Strings.{Text}
use ebiclaw.Protocol.{Message, stored, stored_all, stored_twice}
use ebiclaw.Memory.Brackets.{IsObject, run, outside, closed}
use ebiclaw.Memory.{Codec, max_line_size, push_first, raw_lines, drop_cr, scan, decode, encode}

-- No end of a line, and no carriage return.
abbrev pub IsInLine : ℕ → Type 0
IsInLine c = ((c == 10) ≡ false) × ((c == 13) ≡ false)

-- What encoding/json does with a message: an object on one line, which is read back as the stored
-- part of the message. A text that is read as an object has its brackets closed at its end.
pub record LawfulCodec (codec : Codec) : Type 0 where
  pub decodes :
      (msg : Message) (line : Text)
      → codec.marshal msg ≡ some line
      → codec.unmarshal line ≡ some (stored msg)
  pub blind : (msg : Message) → codec.marshal (stored msg) ≡ codec.marshal msg
  pub one_line : (msg : Message) (line : Text) → codec.marshal msg ≡ some line → All IsInLine line
  pub object : (msg : Message) (line : Text) → codec.marshal msg ≡ some line → IsObject line
  pub ends :
      (rest : Text) (msg : Message)
      → codec.unmarshal (123 ∷ rest) ≡ some msg
      → run (outside 0) rest ≡ closed

-- The lines are the messages, one by one, each with no more than what is stored of it.
abbrev pub Marshals : Codec → List Text → List Message → Type 0
Marshals codec [] [] = Unit
Marshals codec [] (msg ∷ msgs) = ⊥
Marshals codec (line ∷ lines) [] = ⊥
Marshals codec (line ∷ lines) (msg ∷ msgs) =
    ((codec.marshal msg ≡ some line) × (stored msg ≡ msg)) × Marshals codec lines msgs

abbrev pub IsShort : Text → Type 0
IsShort line = length line < max_line_size

unfoldable pub unlines : List Text → Text
unlines [] = []
unlines (line ∷ lines) = line ++ (10 ∷ unlines lines)

pub unlines-append :
    (ls : List Text) (line : Text) → unlines (ls ++ (line ∷ [])) ≡ unlines ls ++ (line ++ (10 ∷ []))
unfolding unlines
unlines-append [] line = refl
unlines-append (l ∷ ls) line =
    ap (λ (r : Text). l ++ (10 ∷ r)) (unlines-append ls line)
    ∙ sym (append_assoc l (10 ∷ unlines ls) (line ++ (10 ∷ [])))

pub raw_lines-line :
    (line s : Text) → All IsInLine line → raw_lines (line ++ (10 ∷ s)) ≡ line ∷ raw_lines s
unfolding raw_lines
raw_lines-line [] s h = refl
raw_lines-line (c ∷ line) s h =
    rw (h.0.0) (ap (λ (ls : List Text). push_first c ls) (raw_lines-line line s h.1))

drop_cr-IsInLine : (line : Text) → All IsInLine line → drop_cr line ≡ line
unfolding drop_cr
drop_cr-IsInLine [] h = refl
drop_cr-IsInLine (c ∷ []) h = rw (h.0.1) refl
drop_cr-IsInLine (c ∷ d ∷ line) h = ap (λ (r : Text). c ∷ r) (drop_cr-IsInLine (d ∷ line) h.1)

pub scan-line :
    (line : Text) (rest ls : List Text)
    → All IsInLine line
    → is_empty line ≡ false
    → IsShort line
    → scan rest ≡ some ls
    → scan (line ∷ rest) ≡ some (line ∷ ls)
unfolding scan
scan-line line rest ls h e k r = rw (fits (length line) k, r, drop_cr-IsInLine line h, e, scan) refl
  where
    fits : (n : ℕ) → n < max_line_size → leb max_line_size n ≡ false
    fits n p = ground arith

pub length-Marshals :
    (codec : Codec) (lines : List Text) (msgs : List Message)
    → Marshals codec lines msgs
    → length lines ≡ length msgs
length-Marshals codec [] [] h = refl
length-Marshals codec [] (msg ∷ msgs) h = absurd h
length-Marshals codec (line ∷ lines) [] h = absurd h
length-Marshals codec (line ∷ lines) (msg ∷ msgs) h = ap suc (length-Marshals codec lines msgs h.1)

pub Marshals-append :
    (codec : Codec) (lines : List Text) (msgs : List Message) (line : Text) (msg : Message)
    → Marshals codec lines msgs
    → codec.marshal msg ≡ some line
    → stored msg ≡ msg
    → Marshals codec (lines ++ (line ∷ [])) (msgs ++ (msg ∷ []))
Marshals-append codec [] [] line msg h e k = ((e, k), tt)
Marshals-append codec [] (m ∷ msgs) line msg h e k = absurd h
Marshals-append codec (l ∷ lines) [] line msg h e k = absurd h
Marshals-append codec (l ∷ lines) (m ∷ msgs) line msg h e k =
    (h.0, Marshals-append codec lines msgs line msg h.1 e k)

-- The buffer of a rewrite is the lines of its messages.
pub encode-Marshals :
    (codec : Codec) (lawful : LawfulCodec codec) (msgs : List Message) (text : Text)
    → encode codec msgs ≡ some text
    → (lines : List Text) × Marshals codec lines (stored_all msgs) × (text ≡ unlines lines)
unfolding encode unlines stored_all
encode-Marshals codec lawful [] text e = ([], tt, cc)
encode-Marshals codec lawful (msg ∷ msgs) text e =
    by_line (codec.marshal msg) (encode codec msgs) refl
      (λ rest r. encode-Marshals codec lawful msgs rest r) e
  where
    by_line :
        (o : Option Text) (p : Option Text)
        → codec.marshal msg ≡ o
        → ((rest : Text)
            → p ≡ some rest
            → (lines : List Text) × Marshals codec lines (stored_all msgs) × (rest ≡ unlines lines))
        → elim o [
          | none ↦ none
          | some line ↦ elim p [ none ↦ none | some rest ↦ some (line ++ (10 ∷ rest)) ]
        ]
          ≡ some text
        → (lines : List Text) × Marshals codec lines (stored_all (msg ∷ msgs))
          × (text ≡ unlines lines)
    by_line none p m ih q = absurd (cc)
    by_line (some line) none m ih q = absurd (cc)
    by_line (some line) (some rest) m ih q =
        let (lines, ms, t) = ih rest refl in
        (line ∷ lines, ((lawful.blind msg ∙ m, stored_twice msg), ms), rw (← t) (cc))

module _ (codec : Codec) (lawful : LawfulCodec codec) where
  pub decode-Marshals :
      (n : ℕ) (lines ts : List Text) (msgs : List Message)
      → Marshals codec lines msgs
      → n ≤ length msgs
      → decode codec (drop n (lines ++ ts)) ≡ drop n msgs ++ decode codec ts
  unfolding decode
  decode-Marshals zero [] ts [] h k = refl
  decode-Marshals zero [] ts (msg ∷ msgs) h k = absurd h
  decode-Marshals zero (line ∷ lines) ts [] h k = absurd h
  decode-Marshals zero (line ∷ lines) ts (msg ∷ msgs) h k =
      rw (lawful.decodes msg line h.0.0 ∙ ap (λ (m : Message). some m) h.0.1)
        (ap (λ (r : List Message). msg ∷ r) (decode-Marshals zero lines ts msgs h.1 (omega arith)))
  decode-Marshals (suc n) lines ts [] h k = absurd (omega arith)
  decode-Marshals (suc n) [] ts (msg ∷ msgs) h k = absurd h
  decode-Marshals (suc n) (line ∷ lines) ts (msg ∷ msgs) h k =
      decode-Marshals n lines ts msgs h.1 (omega arith)

  pub scan-unlines :
      (lines : List Text) (msgs : List Message) (tail : Text) (ts : List Text)
      → Marshals codec lines msgs
      → All IsShort lines
      → scan (raw_lines tail) ≡ some ts
      → scan (raw_lines (unlines lines ++ tail)) ≡ some (lines ++ ts)
  unfolding unlines
  scan-unlines [] msgs tail ts h s e = e
  scan-unlines (line ∷ lines) [] tail ts h s e = absurd h
  scan-unlines (line ∷ lines) (msg ∷ msgs) tail ts h s e =
      ap (λ (r : Text). scan (raw_lines r)) (append_assoc line (10 ∷ unlines lines) tail)
      ∙ ap scan (raw_lines-line line (unlines lines ++ tail) flat)
      ∙ scan-line line (raw_lines (unlines lines ++ tail)) (lines ++ ts) flat
          (ap is_empty (lawful.object msg line h.0.0).starts) s.0
          (scan-unlines lines msgs tail ts h.1 s.1 e)
    where
      flat : All IsInLine line
      flat = lawful.one_line msg line h.0.0
