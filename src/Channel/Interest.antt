-- ===== src/Channel/Interest.antt =====
-- What a channel of matelib/Channel.h asks the poller for, and which callbacks an event leads
-- to.
use matelib.Prelude.{◌≡◌, true, false, [], ◌∷◌, arith}
use matelib.Channel.{
  Channel, on_close, is_none_event, is_writing, enable_reading, disable_reading, enable_writing,
  disable_writing, disable_all, handle_event,
}

-- Enabling writing asks for write events and disabling it does not; switching reading on or off
-- changes nothing about writing; a channel asks for no event after all is disabled, and asks for
-- one after reading or writing is enabled.
pub switches_apart :
    (c : Channel)
    → (is_writing (enable_writing c) ≡ true)
      × (is_writing (disable_writing c) ≡ false)
      × (is_writing (enable_reading c) ≡ is_writing c)
      × (is_writing (disable_reading c) ≡ is_writing c)
      × (is_none_event (disable_all c) ≡ true)
      × (is_none_event (enable_reading c) ≡ false)
      × (is_none_event (enable_writing c) ≡ false)
unfolding enable_writing disable_writing enable_reading disable_reading disable_all
switches_apart c = ground arith

-- A hang-up with nothing to read closes, and reads only if the kernel reports another read event.
pub hang_up_closes :
    (c : Channel)
    → c.revents.hang_up ≡ true
    → c.revents.readable ≡ false
    → c.revents.urgent ≡ false
    → c.revents.peer_closed ≡ false
    → c.revents.error ≡ false
    → c.revents.writable ≡ false
    → c.has_close ≡ true
    → handle_event c ≡ on_close ∷ []
unfolding handle_event
hang_up_closes c h r u p e w k = ground arith
