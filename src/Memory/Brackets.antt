-- ===== src/Memory/Brackets.antt =====
-- The brackets and quotes of a JSON text, as RFC 8259 has them: a text that is a JSON object closes
-- its first bracket at its end, and has backslashes in strings only.
use ebiclaw.Prelude.{
  ℕ, zero, suc, ◌≡◌, ◌≢◌, ◌⊎◌, ◌||◌, [], ◌∷◌, ◌++◌, if◌then◌else◌, ◌==◌, refl, ap, sym, ◌∙◌, inl,
  inr,
}
use ebiclaw.Strings.{Text}

pub data Sign : Type 0 where
  quote : Sign
  backslash : Sign
  opens : Sign
  closes : Sign
  space : Sign
  other : Sign

unfoldable pub sign_of : ℕ → Sign
sign_of c =
    if c == 34
    then quote
    else if c == 92
    then backslash
    else if c == 123 || c == 91
    then opens
    else if c == 125 || c == 93
    then closes
    else if c == 32 || (c == 9 || (c == 10 || c == 13))
    then space
    else other

-- Behind the first bracket, with the number of those inside it that are open; `inside` a string.
pub data Lex : Type 0 where
  outside : ℕ → Lex
  inside : ℕ → Lex
  escaped : ℕ → Lex
  closed : Lex
  broken : Lex

unfoldable pub next : Lex → Sign → Lex
next (outside d) quote = inside d
next (outside d) backslash = broken
next (outside d) opens = outside (suc d)
next (outside zero) closes = closed
next (outside (suc d)) closes = outside d
next (outside d) space = outside d
next (outside d) other = outside d
next (inside d) quote = outside d
next (inside d) backslash = escaped d
next (inside d) s = inside d
next (escaped d) s = inside d
next closed space = closed
next closed s = broken
next broken s = broken

unfoldable pub run : Lex → Text → Lex
unfolding next sign_of
run a [] = a
run a (c ∷ s) = run (next a (sign_of c)) s

-- An opening brace, and what closes it at the end.
pub record IsObject (line : Text) : Type 0 where
  pub rest : Text
  pub starts : line ≡ 123 ∷ rest
  pub ends : run (outside 0) rest ≡ closed

pub run-append : (a : Lex) (s t : Text) → run a (s ++ t) ≡ run (run a s) t
unfolding run
run-append a [] t = refl
run-append a (c ∷ s) t = run-append (next a (sign_of c)) s t

run-broken : (s : Text) → run broken s ≡ broken
unfolding run
run-broken [] = refl
run-broken (c ∷ s) = run-broken s

closed-ne-broken : closed ≢ broken
closed-ne-broken e = cc

never_closed : (s : Text) → run broken s ≢ closed
never_closed s e = let q = run-broken s in cc

-- The same text, behind more brackets.
deeper : ℕ → ℕ → ℕ
deeper zero d = suc d
deeper (suc k) d = suc (deeper k d)

deepen : ℕ → Lex → Lex
unfolding deeper
deepen d (outside k) = outside (deeper k d)
deepen d (inside k) = inside (deeper k d)
deepen d (escaped k) = escaped (deeper k d)
deepen d closed = outside d
deepen d broken = broken

next-deepen :
    (d : ℕ) (a : Lex) (s : Sign) → (next (deepen d a) s ≡ deepen d (next a s)) ⊎ (next a s ≡ broken)
unfolding next deepen
next-deepen d (outside k) quote = inl refl
next-deepen d (outside k) backslash = inl refl
next-deepen d (outside k) opens = inl refl
next-deepen d (outside zero) closes = inl refl
next-deepen d (outside (suc k)) closes = inl refl
next-deepen d (outside k) space = inl refl
next-deepen d (outside k) other = inl refl
next-deepen d (inside k) quote = inl refl
next-deepen d (inside k) backslash = inl refl
next-deepen d (inside k) s = inl refl
next-deepen d (escaped k) s = inl refl
next-deepen d closed space = inl refl
next-deepen d closed s = inr refl
next-deepen d broken s = inl refl

run-deepen : (d : ℕ) (a : Lex) (s : Text) → run a s ≡ closed → run (deepen d a) s ≡ outside d
unfolding run
run-deepen d a [] e = unfold deepen in ap (deepen d) e
run-deepen d a (c ∷ s) e = elim (next-deepen d a (sign_of c)) [
  | inl same ↦ rw same (run-deepen d (next a (sign_of c)) s e)
  | inr gone ↦ absurd (never_closed s (rw gone at e))
]

-- One text read with the strings and what stands between them exchanged.
abbrev Flipped : Lex → Lex → Type 0
Flipped broken b = Unit
Flipped a broken = Unit
Flipped (outside k) (inside d) = Unit
Flipped closed (inside d) = Unit
Flipped (inside k) (outside d) = Unit
Flipped (inside k) closed = Unit
Flipped a b = ⊥

Flipped-broken : (a : Lex) → Flipped a broken
Flipped-broken (outside k) = tt
Flipped-broken (inside k) = tt
Flipped-broken (escaped k) = tt
Flipped-broken closed = tt
Flipped-broken broken = tt

next-Flipped : (a b : Lex) (s : Sign) → Flipped a b → Flipped (next a s) (next b s)
unfolding next
next-Flipped broken b s h = tt
next-Flipped (outside k) (inside d) quote h = tt
next-Flipped (outside k) (inside d) backslash h = tt
next-Flipped (outside k) (inside d) opens h = tt
next-Flipped (outside zero) (inside d) closes h = tt
next-Flipped (outside (suc k)) (inside d) closes h = tt
next-Flipped (outside k) (inside d) space h = tt
next-Flipped (outside k) (inside d) other h = tt
next-Flipped closed (inside d) quote h = tt
next-Flipped closed (inside d) backslash h = tt
next-Flipped closed (inside d) opens h = tt
next-Flipped closed (inside d) closes h = tt
next-Flipped closed (inside d) space h = tt
next-Flipped closed (inside d) other h = tt
next-Flipped (inside k) (outside d) quote h = tt
next-Flipped (inside k) (outside d) backslash h = tt
next-Flipped (inside k) (outside d) opens h = tt
next-Flipped (inside k) (outside zero) closes h = tt
next-Flipped (inside k) (outside (suc d)) closes h = tt
next-Flipped (inside k) (outside d) space h = tt
next-Flipped (inside k) (outside d) other h = tt
next-Flipped (inside k) closed quote h = tt
next-Flipped (inside k) closed backslash h = tt
next-Flipped (inside k) closed opens h = tt
next-Flipped (inside k) closed closes h = tt
next-Flipped (inside k) closed space h = tt
next-Flipped (inside k) closed other h = tt
next-Flipped a broken s h = Flipped-broken (next a s)
next-Flipped a b s h = absurd h

run-Flipped : (a b : Lex) (s : Text) → Flipped a b → Flipped (run a s) (run b s)
unfolding run
run-Flipped a b [] h = h
run-Flipped a b (c ∷ s) h =
    run-Flipped (next a (sign_of c)) (next b (sign_of c)) s (next-Flipped a b (sign_of c) h)

not_closed_of_Flipped : (a b : Lex) → Flipped a b → a ≡ closed → b ≢ closed
not_closed_of_Flipped (outside k) b h e c = cc
not_closed_of_Flipped (inside k) b h e c = cc
not_closed_of_Flipped (escaped k) b h e c = cc
not_closed_of_Flipped broken b h e c = cc
not_closed_of_Flipped closed (inside d) h e c = cc
not_closed_of_Flipped closed broken h e c = cc
not_closed_of_Flipped closed b h e c = absurd h

-- Wherever a text was cut short, an object behind the piece does not close it.
pub run-ne-closed :
    (a : Lex) (rest : Text) → run (outside 0) rest ≡ closed → run a (123 ∷ rest) ≢ closed
unfolding run deepen
run-ne-closed (outside d) rest e h = not_closed (sym (run-deepen d (outside 0) rest e) ∙ h)
  where
    not_closed : outside d ≢ closed
    not_closed q = cc
run-ne-closed (inside d) rest e h =
    not_closed_of_Flipped _ _ (run-Flipped (outside 0) (inside d) rest tt) e h
run-ne-closed (escaped d) rest e h =
    not_closed_of_Flipped _ _ (run-Flipped (outside 0) (inside d) rest tt) e h
run-ne-closed closed rest e h = never_closed rest h
run-ne-closed broken rest e h = never_closed rest h
