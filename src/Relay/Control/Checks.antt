-- ===== src/Relay/Control/Checks.antt =====
-- What holds of an answer however far the checks of a handler of crates/relay-server/src/control.rs go.
use teamview.Prelude.{◌≡◌, refl, Bool, true, false, Option, none, some}
use teamview.Protocol.Control.Envelope.{ServerControl}
use teamview.Relay.Control.State.{
  ControlState, Check, passed, refused, ◌>>=◌, some_or, require, answer,
}

module _ (s : ControlState) (G : ControlState × ServerControl → Type 0)
    (unchanged : (e : ServerControl) → G (s, e)) where
  pub answer-some_or :
      {A : Type 0} (o : Option A) (e : ServerControl) (f : A → Check (ControlState × ServerControl))
      → ((a : A) → o ≡ some a → G (answer s (f a)))
      → G (answer s (some_or o e >>= f))
  answer-some_or none e f h = unchanged e
  answer-some_or (some a) e f h = h a refl

  pub answer-require :
      (b : Bool) (e : ServerControl) (f : Unit {0} → Check (ControlState × ServerControl))
      → (b ≡ true → G (answer s (f tt)))
      → G (answer s (require b e >>= f))
  answer-require true e f h = h refl
  answer-require false e f h = unchanged e

  pub answer-check :
      {A : Type 0} (c : Check A) (f : A → Check (ControlState × ServerControl))
      → ((a : A) → c ≡ passed a → G (answer s (f a)))
      → G (answer s (c >>= f))
  answer-check (passed a) f h = h a refl
  answer-check (refused e) f h = unchanged e
