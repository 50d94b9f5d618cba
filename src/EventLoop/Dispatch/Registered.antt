-- ===== src/EventLoop/Dispatch/Registered.antt =====
-- The dispatch of `loop` in matelib/EventLoop.cc to channels whose callbacks only change or remove
-- their own channel.
use matelib.Prelude.{
  ℕ, ◌≡◌, ◌≢◌, refl, Bool, true, false, List, [], ◌∷◌, ◌++◌, append-nil, Option, none, some,
  ==_refl, arith, ◌∙◌, ap, map,
}
use mathlib.Core.Path.{subst}
use matelib.Prelude.Store.{put_ne, put_self}
use matelib.Channel.{Events, none_event, Callback, handle_event}
use matelib.EpollPoller.{Ctl, EpollPoller, is_watched, remove_channel}
use matelib.EpollPoller.Registry.{
  accept, accept-append, IsConsistent, added_in, update_channel-Keeps, remove_channel-Keeps,
}
use matelib.EpollPoller.Apart.{
  Spares, Stays, update_channel-Spares, remove_channel-Spares, update_channel-Stays,
}
use matelib.EventLoop.Dispatch.{
  Request, change, remove, set_events, carry_out, carry_out_all, dispatch, is_among,
}

-- The channel `id` changes its events, and may in the end clear them and be removed.
pub data IsOwn (id : ℕ) : List Request → Type 0 where
  nothing : IsOwn id []
  changes : (e : Events) {rs : List Request} → IsOwn id rs → IsOwn id (change id e ∷ rs)
  leaves : IsOwn id (change id none_event ∷ remove id ∷ [])

-- The objects other than `id` are the same.
abbrev SameElsewhere : ℕ → EpollPoller → EpollPoller → Type 0
SameElsewhere id p q = (j : ℕ) → id ≢ j → q.store j ≡ p.store j

abbrev IsKnown : EpollPoller → ℕ → Type 0
IsKnown p id = is_watched (p.store id).state ≡ true

-- Events do not show in the states.
added_in-events :
    (p : EpollPoller) (id : ℕ) (e : Events) (o : Option ℕ)
    → added_in p.store o ≡ added_in (set_events p id e).store o
added_in-events p id e none = refl
added_in-events p id e (some j) = ground arith

set_events-IsConsistent :
    (p : EpollPoller) (w : ℕ → Bool) (id : ℕ) (e : Events)
    → IsConsistent p w
    → IsConsistent (set_events p id e) w
set_events-IsConsistent p w id e h = record {
  owner = λ f j q. ground (arith, h.owner f j);
  known = λ j q. ground (arith, h.known j);
  watched = λ f. h.watched f ∙ added_in-events p id e (p.channels f);
}

-- The requests succeed, the poller stays consistent, and no other channel is touched.
abbrev Served : List ℕ → ℕ → EpollPoller → (ℕ → Bool) → List Request → Type 0
Served active id p w rs =
    (calls : List Ctl) × (p' : EpollPoller) × (w' : ℕ → Bool) × (carry_out_all active id p rs
      ≡ some (calls, p'))
    × (accept w calls ≡ some w')
    × IsConsistent p' w'
    × SameElsewhere id p p'

-- The same of one change, after which the channel is still known and asks for the new events.
abbrev Changed : List ℕ → ℕ → EpollPoller → (ℕ → Bool) → Events → Type 0
Changed active id p w e =
    (calls : List Ctl) × (p' : EpollPoller) × (w' : ℕ → Bool) × (carry_out active id p (change id e)
      ≡ some (calls, p'))
    × (accept w calls ≡ some w')
    × IsConsistent p' w'
    × SameElsewhere id p p'
    × IsKnown p' id
    × ((p'.store id).events ≡ e)

module _ (active : List ℕ) (id : ℕ) where
  change-Changed :
      (p : EpollPoller) (w : ℕ → Bool) (e : Events)
      → IsConsistent p w
      → IsKnown p id
      → Changed active id p w e
  unfolding carry_out
  change-Changed p w e h k =
      let q = set_events p id e in
      let at = put_self p.store id (record (p.store id) { events = e }) in
      let k' : IsKnown q id = rw at k in
      let (calls, p', w', same, taken, h') =
        update_channel-Keeps q w (set_events-IsConsistent p w id e h) id (λ st. cc) in
      let (known, events) = subst (Stays q id) same (update_channel-Stays q id k') in
      (
        calls,
        p',
        w',
        same,
        taken,
        h',
        λ j ne.
            subst (Spares q j) same (update_channel-Spares q id j ne) ∙ put_ne p.store id _ j ne,
        known,
        events ∙ ap (λ c. c.events) at,
      )

  remove_own : (p : EpollPoller) → carry_out active id p (remove id) ≡ remove_channel p id
  unfolding carry_out
  remove_own p = rw (==_refl id)

  served :
      {rs : List Request}
      → IsOwn id rs
      → (p : EpollPoller) (w : ℕ → Bool) → IsConsistent p w
      → IsKnown p id
      → Served active id p w rs
  unfolding carry_out_all
  served nothing p w h k = ([], p, w, refl, unfold accept in refl, h, λ j ne. refl)
  served (changes e own) p w h k =
      let (calls, p₁, w₁, same₁, taken₁, h₁, others₁, k₁, events₁) = change-Changed p w e h k in
      let (more, p₂, w₂, same₂, taken₂, h₂, others₂) = served own p₁ w₁ h₁ k₁ in
      (
        calls ++ more,
        p₂,
        w₂,
        rw (same₁, same₂),
        accept-append w w₁ w₂ calls more taken₁ taken₂,
        h₂,
        λ j ne. others₂ j ne ∙ others₁ j ne,
      )
  served leaves p w h k =
      let (calls, p₁, w₁, same₁, taken₁, h₁, others₁, k₁, events₁) =
        change-Changed p w none_event h k in
      let (more, p₂, w₂, same₂, taken₂, h₂) = remove_channel-Keeps p₁ w₁ h₁ id (rw events₁) k₁ in
      (
        calls ++ more,
        p₂,
        w₂,
        rw (same₁, remove_own p₁, same₂, append-nil more),
        accept-append w w₁ w₂ calls more taken₁ taken₂,
        h₂,
        λ j ne. subst (Spares p₁ j) same₂ (remove_channel-Spares p₁ id j ne) ∙ others₁ j ne,
      )

abbrev AllKnown : EpollPoller → List ℕ → Type 0
AllKnown p [] = Unit {0}
AllKnown p (id ∷ ids) = IsKnown p id × AllKnown p ids

abbrev IsDistinct : List ℕ → Type 0
IsDistinct [] = Unit {0}
IsDistinct (id ∷ ids) = (is_among id ids ≡ false) × IsDistinct ids

-- What is handled before does not show at the channels whose turn comes later.
later :
    (id : ℕ) (p q : EpollPoller)
    → SameElsewhere id p q
    → (ids : List ℕ) → is_among id ids ≡ false
    → AllKnown p ids
    → (map q.store ids ≡ map p.store ids) × AllKnown q ids
later id p q same [] apart known = (refl, tt)
later id p q same (j ∷ ids) apart (k, known) =
    let ne : id ≢ j = λ e. ground arith in
    let (objects, all) = later id p q same ids (ground arith) known in
    (rw (same j ne, objects), (rw (same j ne) k, all))

module _ (requests : ℕ → List Callback → List Request)
    (own : (id : ℕ) (calls : List Callback) → IsOwn id (requests id calls)) (active : List ℕ) where
  -- The poller, its channels and epoll agree, every channel to be handled is in the map and
  -- comes once, and callbacks change only their own channel, which they may remove in the end.
  -- Then the dispatch passes all asserts, handles each of the channels in order and with the
  -- events that the poll has left in it, epoll takes every call of `epoll_ctl` that is made,
  -- in order, and with the descriptors that it watches after them the three agree again.
  pub dispatch-Served :
      (ids : List ℕ) (p : EpollPoller) (w : ℕ → Bool)
      → IsConsistent p w
      → AllKnown p ids
      → IsDistinct ids
      → (calls : List Ctl) × (p' : EpollPoller) × (w' : ℕ → Bool) × (dispatch requests active p ids
          ≡ some (map p.store ids, calls, p'))
        × (accept w calls ≡ some w')
        × IsConsistent p' w'
  unfolding dispatch
  dispatch-Served [] p w h known distinct = ([], p, w, refl, unfold accept in refl, h)
  dispatch-Served (id ∷ ids) p w h (k, known) (apart, distinct) =
      let (calls, p₁, w₁, same₁, taken₁, h₁, others) =
        served active id (own id (handle_event (p.store id))) p w h k in
      let (objects, known₁) = later id p p₁ others ids apart known in
      let (more, p₂, w₂, same₂, taken₂, h₂) = dispatch-Served ids p₁ w₁ h₁ known₁ distinct in
      (
        calls ++ more,
        p₂,
        w₂,
        rw (same₁, same₂, objects),
        accept-append w w₁ w₂ calls more taken₁ taken₂,
        h₂,
      )
