-- ===== src/Channel.antt =====
-- matelib/Channel.h and matelib/Channel.cc: the events of one file descriptor. A mask of epoll
-- events is the record of its bits.
pub mod Interest
use matelib.Prelude.{
  ℕ, Bool, true, false, not, ◌&&◌, ◌||◌, List, [], ◌∷◌, ◌++◌, Option, none, some, ◌>>=◌, ◌>>◌,
  assert, ltb, if◌then◌else◌,
}

-- EPOLLIN, EPOLLPRI, EPOLLOUT, EPOLLERR, EPOLLHUP and EPOLLRDHUP.
pub record Events : Type 0 where
  pub readable : Bool
  pub urgent : Bool
  pub writable : Bool
  pub error : Bool
  pub hang_up : Bool
  pub peer_closed : Bool

abbrev pub none_event : Events
none_event = record {
  readable = false;
  urgent = false;
  writable = false;
  error = false;
  hang_up = false;
  peer_closed = false;
}

-- `kNew`, `kAdded` and `kDeleted` of EpollPoller.cc.
pub data ChannelState : Type 0 where
  new added deleted : ChannelState

pub data Callback : Type 0 where
  on_close on_error on_read on_write : Callback

-- The callbacks are only asked whether they are set.
pub record Channel : Type 0 where
  pub fd : ℕ
  pub events : Events
  pub revents : Events
  pub state : ChannelState
  pub event_handling : Bool
  pub has_read : Bool
  pub has_write : Bool
  pub has_close : Bool
  pub has_error : Bool

-- The constructor.
abbrev pub make : ℕ → Channel
make fd = record {
  fd = fd;
  events = none_event;
  revents = none_event;
  state = new;
  event_handling = false;
  has_read = false;
  has_write = false;
  has_close = false;
  has_error = false;
}

abbrev pub is_none_event : Channel → Bool
is_none_event c = not (
    c.events.readable || c.events.urgent || c.events.writable || c.events.error || c.events.hang_up
    || c.events.peer_closed)

abbrev pub is_writing : Channel → Bool
is_writing c = c.events.writable

unfoldable pub enable_reading : Channel → Channel
enable_reading c = record c { events = record e { readable = true; urgent = true } }
  where
    e : Events
    e = c.events

unfoldable pub disable_reading : Channel → Channel
disable_reading c = record c { events = record e { readable = false; urgent = false } }
  where
    e : Events
    e = c.events

unfoldable pub enable_writing : Channel → Channel
enable_writing c = record c { events = record e { writable = true } }
  where
    e : Events
    e = c.events

unfoldable pub disable_writing : Channel → Channel
disable_writing c = record c { events = record e { writable = false } }
  where
    e : Events
    e = c.events

unfoldable pub disable_all : Channel → Channel
disable_all c = record c { events = none_event }

abbrev pub set_revents : Channel → Events → Channel
set_revents c e = record c { revents = e }

abbrev pub when_ : Bool → Callback → List Callback
when_ true cb = cb ∷ []
when_ false cb = []

-- The callbacks that `handleEvent` calls, in order.
unfoldable pub handle_event : Channel → List Callback
handle_event c =
    when_ (c.revents.hang_up && not c.revents.readable && c.has_close) on_close
    ++ (when_ (c.revents.error && ltb 0 c.fd && c.has_error) on_error
        ++ (when_ ((c.revents.readable || c.revents.urgent || c.revents.peer_closed) && c.has_read)
              on_read
            ++ when_ (c.revents.writable && c.has_write) on_write))
