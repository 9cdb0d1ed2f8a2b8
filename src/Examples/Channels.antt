-- ===== src/Examples/Channels.antt =====
-- pkg/channels/split.go: a message of words, one with a code block, and one with a long first line.
use ebiclaw.Prelude.{◌≡◌, false, ◌∷◌, ◌++◌, suc, length, refl, arith}
use ebiclaw.Strings.{Text, codes, contains, has_prefix, trim_space, trim_right, is_space}
use ebiclaw.Channels.Split.{split_message, still_running, code_fence}
use ebiclaw.Channels.Split.Chunks.{AllShort, split_message-AllShort}
use ebiclaw.Channels.Split.Plain.{IsSplit, split_message-IsSplit}
use ebiclaw.Channels.Split.Endless.{LongLine, split_message-still_running}

abbrev words : Text
words = codes "one two three four five six"

fenceless_words : contains words code_fence ≡ false
unfolding contains has_prefix
fenceless_words = refl

split_message-IsSplit_example : IsSplit 10 words (split_message (suc (length words)) words 10)
split_message-IsSplit_example = split_message-IsSplit words 10 (omega arith) fenceless_words

split_message-AllShort_example :
    AllShort 40 (split_message 9 (codes "say\n```go\nf := 1\n```\n" ++ words) 40)
split_message-AllShort_example =
    split_message-AllShort 9 (codes "say\n```go\nf := 1\n```\n" ++ words) 40 (omega arith)

abbrev long_line : Text
long_line = codes "{\"a\":1,\"b\":2}"

trimmed_header : trim_space (code_fence ++ long_line) ≡ code_fence ++ long_line
unfolding trim_space
trimmed_header = refl

ended_fence : trim_right is_space code_fence ≡ code_fence
unfolding trim_right is_space
ended_fence = refl

LongLine-long_line : LongLine 12 long_line code_fence
LongLine-long_line = record {
  room = omega arith;
  long = omega arith;
  line = (
    (refl, refl),
    (
      (refl, refl),
      (
        (refl, refl),
        (
          (refl, refl),
          (
            (refl, refl),
            (
              (refl, refl),
              (
                (refl, refl),
                (
                  (refl, refl),
                  (
                    (refl, refl),
                    ((refl, refl), ((refl, refl), ((refl, refl), ((refl, refl), tt)))),
                  ),
                ),
              ),
            ),
          ),
        ),
      ),
    ),
  );
  trimmed = trimmed_header;
  more = refl;
  ended = ended_fence;
}

split_message-still_running_example :
    split_message 1000 (code_fence ++ (long_line ++ (10 ∷ code_fence))) 12 ≡ still_running
split_message-still_running_example =
    split_message-still_running 1000 12 long_line code_fence LongLine-long_line
