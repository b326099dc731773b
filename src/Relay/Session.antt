-- ===== src/Relay/Session.antt =====
-- crates/relay-server/src/session.rs: the identity behind one connection.
use teamview.Prelude.{ℕ, Bool, true, false, ◌&&◌, Option, none, some, ◌++◌}
use teamview.Prelude.Text.{Text, text, decimal}
use teamview.Protocol.Control.Names.{UserId}

pub record Session : Type 0 where
  pub id : ℕ
  pub user_id : Option UserId
  pub display_name : Text
  pub access_granted : Bool

unfoldable pub anonymous : ℕ → Session
anonymous id = record {
  id = id;
  user_id = none;
  display_name = text "session-" ++ decimal id;
  access_granted = false;
}

unfoldable pub establish_identity : Session → UserId → Bool → Text → Session
establish_identity s user_id access_granted display_name = record s {
  user_id = some user_id;
  display_name = display_name;
  access_granted = access_granted;
}

unfoldable pub update_display_name : Session → Text → Session
update_display_name s display_name = record s { display_name = display_name }

unfoldable pub grant_access : Session → Session
grant_access s = record s { access_granted = true }

-- `user_id.is_some()`
unfoldable pub is_some {ℓ} : {A : Type ℓ} → Option A → Bool
is_some none = false
is_some (some a) = true

unfoldable pub has_access : Session → Bool
unfolding is_some
has_access s = is_some s.user_id && s.access_granted
