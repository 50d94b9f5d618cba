-- ===== src/EpollPoller/Active.antt =====
-- The channels that `EpollPoller::poll` hands to the loop.
use matelib.Prelude.{
  ℕ, ◌*◌, ◌≡◌, refl, ap, ◌&&◌, List, [], ◌∷◌, some, arith, ltb, ◌==◌, if◌then◌else◌, length,
}
use matelib.Channel.{Events}
use matelib.Prelude.Store.{put}
use matelib.EpollPoller.{EpollPoller, fill_active_channels, poll}

-- The address of an event's channel.
abbrev pub ids : List (ℕ × Events) → List ℕ
ids [] = []
ids ((id, e) ∷ rest) = id ∷ ids rest

-- The last event reported for a channel.
abbrev pub revents_from : Events → ℕ → List (ℕ × Events) → Events
revents_from old id [] = old
revents_from old id ((j, e) ∷ rest) = revents_from (if j == id then e else old) id rest

fill-active :
    (p : EpollPoller) (arrived : List (ℕ × Events))
    → (fill_active_channels p arrived).0 ≡ ids arrived
unfolding fill_active_channels
fill-active p [] = refl
fill-active p ((id, e) ∷ rest) =
    ap (◌∷◌ id)
      (fill-active (record p { store = put p.store id (record (p.store id) { revents = e }) }) rest)

fill-revents :
    (p : EpollPoller) (arrived : List (ℕ × Events)) (id : ℕ)
    → ((fill_active_channels p arrived).1.store id).revents
      ≡ revents_from (p.store id).revents id arrived
unfolding fill_active_channels
fill-revents p [] id = refl
fill-revents p ((j, e) ∷ rest) id = ground (
  arith,
  fill-revents (record p { store = put p.store j (record (p.store j) { revents = e }) }) rest id,
)

fill-size :
    (p : EpollPoller) (arrived : List (ℕ × Events))
    → (fill_active_channels p arrived).1.events_size ≡ p.events_size
unfolding fill_active_channels
fill-size p [] = refl
fill-size p ((id, e) ∷ rest) =
    fill-size (record p { store = put p.store id (record (p.store id) { revents = e }) }) rest

-- `poll` hands over the channels of all reported events in the order of the kernel, each channel
-- then has the events that were reported for it last and every other channel those it had, and
-- the list of events is doubled if and only if it was filled to its end by one event or more.
pub poll-active :
    (p : EpollPoller) (arrived : List (ℕ × Events))
    → ((poll p (some arrived)).0 ≡ ids arrived)
      × ((id : ℕ)
          → ((poll p (some arrived)).1.store id).revents
            ≡ revents_from (p.store id).revents id arrived)
      × ((poll p (some arrived)).1.events_size ≡ (
          if ltb 0 (length arrived) && p.events_size == length arrived
          then p.events_size * 2
          else p.events_size))
unfolding poll
poll-active p arrived = (
  ground (arith, fill-active p arrived),
  λ id. ground (arith, fill-revents p arrived id),
  ground (arith, fill-size p arrived),
)
