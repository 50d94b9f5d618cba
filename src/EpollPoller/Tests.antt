-- ===== src/EpollPoller/Tests.antt =====
-- The poller's theorems at a poller with one channel.
use matelib.Prelude.{ℕ, refl, Bool, true, false, none, some, arith, ◌==◌}
use matelib.Channel.{Channel, Events, make, added, none_event}
use matelib.Prelude.Store.{put}
use matelib.EpollPoller.{EpollPoller, update_channel}
use matelib.EpollPoller.Registry.{IsConsistent, Keeps, update_channel-Keeps}

-- The channel of the descriptor 4 lies at the address 0, and is not known to the poller yet.
abbrev unused : EpollPoller
unused = record { channels = λ fd. none; store = λ id. make 4; events_size = 16 }

abbrev nothing_watched : ℕ → Bool
nothing_watched fd = false

unused-IsConsistent : IsConsistent unused nothing_watched
unused-IsConsistent = record { owner = λ fd id e. cc; known = λ id e. cc; watched = λ fd. refl }

update_channel-Keeps_example : Keeps nothing_watched (update_channel unused 0)
update_channel-Keeps_example =
    update_channel-Keeps unused nothing_watched unused-IsConsistent 0 (λ e. refl)

-- The channel is known, and watched although it asks for nothing.
abbrev silent : Channel
silent = record (make 4) { state = added }

abbrev one_channel : EpollPoller
one_channel = record unused {
  channels = put (λ fd. none) 4 (some 0);
  store = put (λ id. make 5) 0 silent;
}

abbrev four_watched : ℕ → Bool
four_watched fd = 4 == fd

one_channel-IsConsistent : IsConsistent one_channel four_watched
one_channel-IsConsistent = record {
  owner = λ fd id e. ground arith;
  known = λ id e. ground arith;
  watched = λ fd. ground arith;
}

abbrev readable : Events
readable = record none_event { readable = true }
