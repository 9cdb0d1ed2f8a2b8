-- ===== src/Channels/Split/Search.antt =====
-- Where the searches of a chunk's end stop.
use ebiclaw.Prelude.{
  ℕ, zero, suc, ◌+◌, ◌-◌, ◌≡◌, ◌≤◌, ◌<◌, Bool, true, false, Option, none, some, [], ◌∷◌,
  if◌then◌else◌, length, take, drop, arith, refl, Option-cases, inl, inr, length-take,
}
use ebiclaw.Strings.{Text, has_prefix}
use ebiclaw.Channels.Split.{
  code_fence, is_newline, is_blank, last_from, find_last_in_range, toggle, unclosed_from,
  find_last_unclosed, or_if_zero, index_or, natural_split,
}

pub last_from-lt :
    (test : ℕ → Bool) (i j : ℕ) (s : Text) → last_from test i s ≡ some j → j < i + length s
unfolding last_from
last_from-lt test i j [] e = cc
last_from-lt test i j (c ∷ s) e = elim (Option-cases (last_from test (suc i) s)) [
  | inl n ↦ ground arith
  | inr (k, n) ↦ ground (arith, last_from-lt test (suc i) k s n)
]

pub find_last_in_range-lt :
    (test : ℕ → Bool) (runes : Text) (end window j : ℕ)
    → find_last_in_range test runes end window ≡ some j
    → j < end
unfolding find_last_in_range
find_last_in_range-lt test runes end window j e =
    let from = end - window in
    let part = take (end - from) (drop from runes) in
    omega (arith, last_from-lt test from j part e, length-take (end - from) (drop from runes))

index_or-le :
    (d end : ℕ) (o p : Option ℕ)
    → d ≤ end
    → ((j : ℕ) → o ≡ some j → j < end)
    → ((j : ℕ) → p ≡ some j → j < end)
    → index_or d (or_if_zero o p) ≤ end
index_or-le d end none none h f g = h
index_or-le d end none (some zero) h f g = h
index_or-le d end none (some (suc j)) h f g = omega (arith, g (suc j) refl)
index_or-le d end (some zero) none h f g = h
index_or-le d end (some zero) (some zero) h f g = h
index_or-le d end (some zero) (some (suc j)) h f g = omega (arith, g (suc j) refl)
index_or-le d end (some (suc j)) p h f g = omega (arith, f (suc j) refl)

-- A natural split lies before the end that was asked for.
pub natural_split-le :
    (d end : ℕ) (runes : Text) → d ≤ end → index_or d (natural_split runes end) ≤ end
unfolding natural_split
natural_split-le d end runes h =
    index_or-le d end (find_last_in_range is_newline runes end 200)
      (find_last_in_range is_blank runes end 100) h
      (λ j e. find_last_in_range-lt is_newline runes end 200 j e)
      (λ j e. find_last_in_range-lt is_blank runes end 100 j e)

pub index_or_pos : (d : ℕ) (o : Option ℕ) → 0 < d → 0 < index_or d o
index_or_pos d none h = h
index_or_pos d (some zero) h = h
index_or_pos d (some (suc j)) h = omega arith

abbrev Below : ℕ → Option ℕ → Type 0
Below n none = Unit
Below n (some j) = j < n

Below-le : (n m : ℕ) (o : Option ℕ) → n ≤ m → Below n o → Below m o
Below-le n m none h b = tt
Below-le n m (some j) h b = omega arith

toggled :
    (i : ℕ) (b : Bool) (o : Option ℕ) → Below i o → Below (suc i) (if b then toggle i o else o)
toggled i true none h = omega arith
toggled i true (some j) h = tt
toggled i false o h = Below-le i (suc i) o (omega arith) h

unclosed_from-Below :
    (skip i : ℕ) (opened : Option ℕ) (s : Text)
    → Below i opened
    → Below (i + length s) (unclosed_from skip i opened s)
unfolding unclosed_from
unclosed_from-Below skip i opened [] h = Below-le i (i + 0) opened (omega arith) h
unclosed_from-Below (suc skip) i opened (c ∷ s) h =
    Below-le (suc i + length s) (i + suc (length s)) (unclosed_from skip (suc i) opened s)
      (omega arith)
      (unclosed_from-Below skip (suc i) opened s (Below-le i (suc i) opened (omega arith) h))
unclosed_from-Below zero i opened (c ∷ s) h =
    let fenced = has_prefix (c ∷ s) code_fence in
    let next = if fenced then toggle i opened else opened in
    let skip : ℕ = if fenced then 2 else 0 in
    Below-le (suc i + length s) (i + suc (length s)) (unclosed_from skip (suc i) next s)
      (omega arith) (unclosed_from-Below skip (suc i) next s (toggled i fenced opened h))

-- An open code block begins before the end of the text that was looked at.
pub find_last_unclosed-lt :
    (runes : Text) (end u : ℕ) → find_last_unclosed runes end ≡ some u → u < end
unfolding find_last_unclosed
find_last_unclosed-lt runes end u e =
    omega
      (arith, (rw e at (unclosed_from-Below 0 0 none (take end runes) tt)), length-take end runes)
