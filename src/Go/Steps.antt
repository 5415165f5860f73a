-- ===== src/Go/Steps.antt =====
-- A function on a state that returns early with an error, or goes on with a value.
use cindex.Prelude.{Text}

pub data Step (S A : Type 0) : Type 0 where
  stopped : S → Text → Step S A
  next : S → A → Step S A

infixl 5 ◌>>=◌
abbrev pub ◌>>=◌ : {S A B : Type 0} → Step S A → (S → A → Step S B) → Step S B
stopped r e >>= f = stopped r e
next r a >>= f = f r a
