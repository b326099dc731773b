-- ===== src/Relay/Media/Channel.antt =====
-- The bounded `tokio::sync::mpsc` channel as the relay uses it, with its documented behaviour as
-- laws. The crate is not part of the repository, so the definitions take it as an argument.
use teamview.Prelude.{ℕ, ◌≡◌, Option, some, List, [], ◌∷◌, ◌++◌}

-- `Ok(())`, `Err(TrySendError::Full(_))`, `Err(TrySendError::Closed(_))`
pub data SendOutcome : Type 0 where
  sent full closed : SendOutcome

-- `Chan` is the state that the two ends share. `recv` gives nothing where the receiver would wait or
-- where the channel is closed.
pub record Mpsc (Chan A : Type 0) : Type 0 where
  pub channel : ℕ → Chan
  pub try_send : Chan → A → Chan × SendOutcome
  pub recv : Chan → Option (A × Chan)

-- A value that is sent goes behind those that wait, one that is not changes nothing, and the receiver
-- takes the first.
pub record MpscLaws {Chan A : Type 0} (mpsc : Mpsc Chan A) : Type 0 where
  pub waiting : Chan → List A
  pub waiting-channel : (capacity : ℕ) → waiting (mpsc.channel capacity) ≡ []
  pub waiting-sent :
      (c : Chan) (a : A)
      → (mpsc.try_send c a).1 ≡ SendOutcome.sent
      → waiting (mpsc.try_send c a).0 ≡ waiting c ++ (a ∷ [])
  pub waiting-full :
      (c : Chan) (a : A)
      → (mpsc.try_send c a).1 ≡ SendOutcome.full
      → waiting (mpsc.try_send c a).0 ≡ waiting c
  pub waiting-closed :
      (c : Chan) (a : A)
      → (mpsc.try_send c a).1 ≡ SendOutcome.closed
      → waiting (mpsc.try_send c a).0 ≡ waiting c
  pub waiting-recv : (c c' : Chan) (a : A) → mpsc.recv c ≡ some (a, c') → waiting c ≡ a ∷ waiting c'
