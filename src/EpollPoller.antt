-- ===== src/EpollPoller.antt =====
-- matelib/EpollPoller.h and matelib/EpollPoller.cc: the channels that epoll watches. A channel is
-- an object at an address; each operation gives the calls of `epoll_ctl` that it makes.
pub mod Registry
pub mod Active
pub mod Apart
mod Tests
use matelib.Prelude.{
  ℕ, zero, suc, ◌+◌, ◌*◌, Bool, true, false, not, ◌&&◌, ◌||◌, List, [], ◌∷◌, ◌++◌, Option, none,
  some, ◌>>=◌, ◌>>◌, assert, ltb, ◌==◌, if◌then◌else◌, length,
}
use matelib.Prelude.Store.{put}
use matelib.Channel.{Channel, Events, ChannelState, new, added, deleted, is_none_event, set_revents}

pub data Ctl : Type 0 where
  add : ℕ → Ctl
  modify : ℕ → Ctl
  delete : ℕ → Ctl

-- `channels_`, the channel objects, and the size of the list that `epoll_wait` fills.
pub record EpollPoller : Type 0 where
  pub channels : ℕ → Option ℕ
  pub store : ℕ → Channel
  pub events_size : ℕ

abbrev pub set_state : EpollPoller → ℕ → ChannelState → EpollPoller
set_state p id s = record p { store = put p.store id (record c { state = s }) }
  where
    c : Channel
    c = p.store id

abbrev pub is_absent : Option ℕ → Bool
is_absent none = true
is_absent (some id) = false

abbrev pub is_channel : Option ℕ → ℕ → Bool
is_channel none id = false
is_channel (some j) id = j == id

update_at : EpollPoller → ℕ → ℕ → ChannelState → Option (List Ctl × EpollPoller)
update_at p id fd new = do
  assert (is_absent (p.channels fd))
  some (add fd ∷ [], set_state (record p { channels = put p.channels fd (some id) }) id added)
update_at p id fd deleted = do
  assert (is_channel (p.channels fd) id)
  some (add fd ∷ [], set_state p id added)
update_at p id fd added = do
  assert (is_channel (p.channels fd) id)
  if is_none_event (p.store id)
      then some (delete fd ∷ [], set_state p id deleted)
      else some (modify fd ∷ [], p)

pub update_channel : EpollPoller → ℕ → Option (List Ctl × EpollPoller)
unfolding update_at
update_channel p id = update_at p id c.fd c.state
  where
    c : Channel
    c = p.store id

abbrev pub is_watched : ChannelState → Bool
is_watched new = false
is_watched _ = true

abbrev pub deletes : ChannelState → ℕ → List Ctl
deletes added fd = delete fd ∷ []
deletes _ fd = []

pub remove_channel : EpollPoller → ℕ → Option (List Ctl × EpollPoller)
remove_channel p id = do
  assert (is_none_event c)
  assert (is_channel (p.channels c.fd) id)
  assert (is_watched c.state)
  some (deletes c.state c.fd, set_state (record p { channels = put p.channels c.fd none }) id new)
  where
    c : Channel
    c = p.store id

-- `fillActiveChannels`: each event carries the address of its channel.
pub fill_active_channels : EpollPoller → List (ℕ × Events) → List ℕ × EpollPoller
fill_active_channels p [] = ([], p)
fill_active_channels p ((id, e) ∷ rest) =
    let (active, p') =
      fill_active_channels (record p { store = put p.store id (set_revents (p.store id) e) })
        rest in
    (id ∷ active, p')

-- `poll`: what `epoll_wait` has delivered, `none` for an error.
pub poll : EpollPoller → Option (List (ℕ × Events)) → List ℕ × EpollPoller
poll p none = ([], p)
poll p (some arrived) =
    let (active, p') = fill_active_channels p arrived in
    if ltb 0 (length arrived) && p.events_size == length arrived
    then (active, record p' { events_size = p.events_size * 2 })
    else (active, p')
