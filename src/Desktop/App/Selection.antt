-- ===== src/Desktop/App/Selection.antt =====
-- The client's choices in crates/desktop-client/src/app.rs over any sequence of its operations.
use teamview.Prelude.{
  ◌≡◌, refl, Bool, true, not, ◌&&◌, ◌||◌, Option, none, some, List, [], ◌∷◌, map, Bool-cases, subst,
  sym, inl, inr, arith,
}
use teamview.Prelude.Text.{Text}
use teamview.Protocol.Control.Names.{RoomId}
use teamview.Desktop.App.{
  ClientApp, ClientRole, ClientAppDiscovery, ChannelView, VoiceControlState, new_app,
  begin_connecting, mark_connected, mark_disconnected, has_channel, first_channel_id,
  kept_selection, set_channels, select_channel, set_muted, set_deafened, set_push_to_talk,
  set_ptt_active, start_screen_share, stop_screen_share, default_voice_control,
}
use teamview.Desktop.App.Discovery.{
  from_discovery, select_if_some, discovered_selection, discovered_channel,
}

-- Talking by the key needs the key's mode, and is not muted.
abbrev pub IsTalkative : VoiceControlState → Type 0
IsTalkative v = (not v.ptt_active || (v.push_to_talk && not v.muted)) ≡ true

-- What is selected is among the channels.
abbrev pub IsAmong : Option RoomId → List ChannelView → Type 0
IsAmong none cs = Unit {0}
IsAmong (some channel_id) cs = has_channel channel_id cs ≡ true

pub record IsCoherent (app : ClientApp) : Type 0 where
  pub selectable : IsAmong app.selected_channel_id app.channels
  pub talkative : IsTalkative app.local_voice

-- The apps that the operations lead to.
pub data Reachable : ClientApp → Type 0 where
  started : (role : ClientRole) → Reachable (new_app role)
  discovers : (d : ClientAppDiscovery) → IsTalkative d.local_voice → Reachable (from_discovery d)
  connects :
      {app : ClientApp} → (addr : Text) → Reachable app → Reachable (begin_connecting app addr)
  is_connected : {app : ClientApp} → Reachable app → Reachable (mark_connected app)
  disconnects : {app : ClientApp} → Reachable app → Reachable (mark_disconnected app)
  sets_channels :
      {app : ClientApp} → (cs : List ChannelView) → Reachable app → Reachable (set_channels app cs)
  selects :
      {app : ClientApp}
      → (channel_id : RoomId) → Reachable app
      → Reachable (select_channel app channel_id).0
  mutes : {app : ClientApp} → (muted : Bool) → Reachable app → Reachable (set_muted app muted)
  deafens :
      {app : ClientApp} → (deafened : Bool) → Reachable app → Reachable (set_deafened app deafened)
  sets_mode :
      {app : ClientApp}
      → (enabled : Bool) → Reachable app
      → Reachable (set_push_to_talk app enabled)
  talks :
      {app : ClientApp} → (active : Bool) → Reachable app → Reachable (set_ptt_active app active)
  shares :
      {app : ClientApp} → (label : Text) → Reachable app → Reachable (start_screen_share app label)
  stops_sharing : {app : ClientApp} → Reachable app → Reachable (stop_screen_share app)

first_channel_id-IsAmong : (cs : List ChannelView) → IsAmong (first_channel_id cs) cs
unfolding first_channel_id has_channel
first_channel_id-IsAmong [] = tt
first_channel_id-IsAmong (c ∷ cs) = ground arith

kept_selection-IsAmong :
    (selected : Option RoomId) (cs : List ChannelView) → IsAmong (kept_selection selected cs) cs
unfolding kept_selection
kept_selection-IsAmong none cs = first_channel_id-IsAmong cs
kept_selection-IsAmong (some old) cs = elim (Bool-cases (has_channel old cs)) [
  | inl found ↦ rw found found
  | inr gone ↦ rw gone (first_channel_id-IsAmong cs)
]

select_channel-IsAmong :
    (app : ClientApp) (c : RoomId)
    → IsAmong app.selected_channel_id app.channels
    → let app' = (select_channel app c).0 in IsAmong app'.selected_channel_id app'.channels
unfolding select_channel
select_channel-IsAmong app c inv = elim (Bool-cases (has_channel c app.channels)) [
  | inl found ↦ rw found found
  | inr gone ↦ rw gone inv
]

select_if_some-IsAmong :
    (app : ClientApp) (o : Option RoomId)
    → IsAmong app.selected_channel_id app.channels
    → let app' = select_if_some app o in IsAmong app'.selected_channel_id app'.channels
unfolding select_if_some
select_if_some-IsAmong app none inv = inv
select_if_some-IsAmong app (some c) inv = select_channel-IsAmong app c inv

from_discovery-IsAmong :
    (d : ClientAppDiscovery)
    → IsAmong (from_discovery d).selected_channel_id (from_discovery d).channels
unfolding from_discovery set_channels
from_discovery-IsAmong d =
    select_if_some-IsAmong _ (discovered_selection d)
      (kept_selection-IsAmong none (map (discovered_channel d) d.rooms))

select_if_some-voice :
    (app : ClientApp) (o : Option RoomId) → (select_if_some app o).local_voice ≡ app.local_voice
unfolding select_if_some select_channel
select_if_some-voice app none = refl
select_if_some-voice app (some c) = ground arith

from_discovery-voice : (d : ClientAppDiscovery) → (from_discovery d).local_voice ≡ d.local_voice
unfolding from_discovery set_channels
from_discovery-voice d = select_if_some-voice _ (discovered_selection d)

-- In every state that the client's operations lead to, the selected channel is one of the channels,
-- and talking by the key is on only in its mode and while not muted, if the voice state of each
-- discovery was so.
pub reachable-IsCoherent : (app : ClientApp) → Reachable app → IsCoherent app
unfolding begin_connecting mark_connected mark_disconnected set_channels select_channel set_muted
    set_deafened set_push_to_talk set_ptt_active start_screen_share stop_screen_share new_app
    default_voice_control
reachable-IsCoherent app (started role) = record { selectable = tt; talkative = ground arith }
reachable-IsCoherent app (discovers d talkative) = record {
  selectable = from_discovery-IsAmong d;
  talkative = subst IsTalkative (sym (from_discovery-voice d)) talkative;
}
reachable-IsCoherent app (connects {app = a} addr h) =
    let ih = reachable-IsCoherent a h in
    record { selectable = ih.selectable; talkative = ih.talkative }
reachable-IsCoherent app (is_connected {app = a} h) =
    let ih = reachable-IsCoherent a h in
    record { selectable = ih.selectable; talkative = ih.talkative }
reachable-IsCoherent app (disconnects {app = a} h) =
    let ih = reachable-IsCoherent a h in record { selectable = tt; talkative = ih.talkative }
reachable-IsCoherent app (sets_channels {app = a} cs h) =
    let ih = reachable-IsCoherent a h in
    record {
      selectable = kept_selection-IsAmong a.selected_channel_id cs;
      talkative = ih.talkative;
    }
reachable-IsCoherent app (selects {app = a} c h) =
    let ih = reachable-IsCoherent a h in
    record {
      selectable = select_channel-IsAmong a c ih.selectable;
      talkative = ground (arith, ih.talkative);
    }
reachable-IsCoherent app (mutes {app = a} muted h) =
    let ih = reachable-IsCoherent a h in
    record { selectable = ih.selectable; talkative = ground (arith, ih.talkative) }
reachable-IsCoherent app (deafens {app = a} deafened h) =
    let ih = reachable-IsCoherent a h in
    record { selectable = ground (arith, ih.selectable); talkative = ground (arith, ih.talkative) }
reachable-IsCoherent app (sets_mode {app = a} enabled h) =
    let ih = reachable-IsCoherent a h in
    record { selectable = ih.selectable; talkative = ground (arith, ih.talkative) }
reachable-IsCoherent app (talks {app = a} active h) =
    let ih = reachable-IsCoherent a h in
    record { selectable = ih.selectable; talkative = ground arith }
reachable-IsCoherent app (shares {app = a} label h) =
    let ih = reachable-IsCoherent a h in
    record { selectable = ih.selectable; talkative = ih.talkative }
reachable-IsCoherent app (stops_sharing {app = a} h) =
    let ih = reachable-IsCoherent a h in
    record { selectable = ih.selectable; talkative = ih.talkative }
