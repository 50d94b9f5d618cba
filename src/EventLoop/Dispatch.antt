-- ===== src/EventLoop/Dispatch.antt =====
-- The dispatch of events in `loop` of matelib/EventLoop.cc, with what the callbacks of a channel ask
-- the loop to do with channels.
pub mod Registered
use matelib.Prelude.{
  ℕ, Bool, true, false, not, ◌||◌, List, [], ◌∷◌, ◌++◌, Option, none, some, ◌>>=◌, ◌>>◌, assert,
  ◌==◌,
}
use matelib.Prelude.Store.{put}
use matelib.Channel.{Channel, Events, Callback, handle_event}
use matelib.EpollPoller.{Ctl, EpollPoller, update_channel, remove_channel}

-- A change of a channel's events followed by `updateChannel`, and `removeChannel`.
pub data Request : Type 0 where
  change : ℕ → Events → Request
  remove : ℕ → Request

abbrev pub set_events : EpollPoller → ℕ → Events → EpollPoller
set_events p id e = record p { store = put p.store id (record c { events = e }) }
  where
    c : Channel
    c = p.store id

abbrev pub is_among : ℕ → List ℕ → Bool
is_among id [] = false
is_among id (j ∷ js) = id == j || is_among id js

-- While the channel `current` of the active ones is handled. `removeChannel` of the loop lets only
-- that channel go, or one that is not active; `eventHandling_` is set all the time.
unfoldable pub carry_out : List ℕ → ℕ → EpollPoller → Request → Option (List Ctl × EpollPoller)
carry_out active current p (change id e) = update_channel (set_events p id e) id
carry_out active current p (remove id) = do
  assert (current == id || not (is_among id active))
  remove_channel p id

-- The calls of `epoll_ctl` are collected.
unfoldable pub carry_out_all :
    List ℕ → ℕ → EpollPoller → List Request → Option (List Ctl × EpollPoller)
carry_out_all active current p [] = some ([], p)
carry_out_all active current p (r ∷ rs) = do
  (calls, p') ← carry_out active current p r
  (more, p'') ← carry_out_all active current p' rs
  some (calls ++ more, p'')

-- The loop over the active channels: each channel with its object as it is when its turn comes, and
-- the calls of `epoll_ctl`. What its callbacks ask for is a parameter.
unfoldable pub dispatch :
    (ℕ → List Callback → List Request)
    → List ℕ
    → EpollPoller
    → List ℕ
    → Option (List Channel × List Ctl × EpollPoller)
dispatch requests active p [] = some ([], [], p)
dispatch requests active p (id ∷ rest) = do
  (calls, p') ← carry_out_all active id p (requests id (handle_event (p.store id)))
  (handled, more, p'') ← dispatch requests active p' rest
  some (p.store id ∷ handled, calls ++ more, p'')
