-- ===== src/EpollPoller/Apart.antt =====
-- What an operation of matelib/EpollPoller.cc on one channel does to the objects of the others.
use matelib.Prelude.{
  ℕ, ◌≡◌, ◌≢◌, refl, true, List, [], ◌∷◌, Option, none, some, Bool-cases, inl, inr,
}
use matelib.Prelude.Store.{put_ne, put_self}
use matelib.Channel.{ChannelState, new, added, deleted, is_none_event}
use matelib.EpollPoller.{
  Ctl, add, delete, EpollPoller, set_state, update_at, update_channel, remove_channel, is_absent,
  is_channel, is_watched,
}

-- Whatever the operation gives, the object at `j` is as it was.
abbrev pub Spares : EpollPoller → ℕ → Option (List Ctl × EpollPoller) → Type 0
Spares p j none = p ≡ p
Spares p j (some (calls, p')) = p'.store j ≡ p.store j

module _ (p : EpollPoller) (id j : ℕ) (ne : id ≢ j) where
  update_at-Spares : (fd : ℕ) (s : ChannelState) → Spares p j (update_at p id fd s)
  unfolding update_at
  update_at-Spares fd new = elim (Bool-cases (is_absent (p.channels fd))) [
    | inl e ↦ rw e (put_ne p.store id _ j ne)
    | inr e ↦ rw e refl
  ]
  update_at-Spares fd deleted = elim (Bool-cases (is_channel (p.channels fd) id)) [
    | inl e ↦ rw e (put_ne p.store id _ j ne)
    | inr e ↦ rw e refl
  ]
  update_at-Spares fd added = elim (Bool-cases (is_channel (p.channels fd) id)) [
    | inl e ↦ elim (Bool-cases (is_none_event (p.store id))) [
      | inl k ↦ rw (e, k) (put_ne p.store id _ j ne)
      | inr k ↦ rw (e, k) refl
    ]
    | inr e ↦ rw e refl
  ]

  pub update_channel-Spares : Spares p j (update_channel p id)
  unfolding update_channel
  update_channel-Spares = update_at-Spares (p.store id).fd (p.store id).state

  pub remove_channel-Spares : Spares p j (remove_channel p id)
  unfolding remove_channel
  remove_channel-Spares = elim (Bool-cases (is_none_event (p.store id))) [
    | inr e ↦ rw e refl
    | inl e ↦ elim (Bool-cases (is_channel (p.channels (p.store id).fd) id)) [
      | inr k ↦ rw (e, k) refl
      | inl k ↦ elim (Bool-cases (is_watched (p.store id).state)) [
        | inr q ↦ rw (e, k, q) refl
        | inl q ↦ rw (e, k, q) (put_ne p.store id _ j ne)
      ]
    ]
  ]

-- The object at `id` stays one of the map, for the same events.
abbrev pub Stays : EpollPoller → ℕ → Option (List Ctl × EpollPoller) → Type 0
Stays p id none = p ≡ p
Stays p id (some (calls, p')) =
    (is_watched (p'.store id).state ≡ true) × ((p'.store id).events ≡ (p.store id).events)

module _ (p : EpollPoller) (id : ℕ) where
  set_state-Stays :
      (s : ChannelState)
      → is_watched s ≡ true
      → (calls : List Ctl) (channels : ℕ → Option ℕ)
      → Stays p id (some (calls, set_state (record p { channels = channels }) id s))
  set_state-Stays s k calls channels =
      rw (put_self p.store id (record (p.store id) { state = s })) (k, refl)

  update_at-Stays :
      (fd : ℕ) (s : ChannelState)
      → (p.store id).state ≡ s
      → is_watched s ≡ true
      → Stays p id (update_at p id fd s)
  unfolding update_at
  update_at-Stays fd new st k = cc
  update_at-Stays fd deleted st k = elim (Bool-cases (is_channel (p.channels fd) id)) [
    | inl e ↦ rw e (set_state-Stays added refl (add fd ∷ []) p.channels)
    | inr e ↦ rw e refl
  ]
  update_at-Stays fd added st k = elim (Bool-cases (is_channel (p.channels fd) id)) [
    | inl e ↦ elim (Bool-cases (is_none_event (p.store id))) [
      | inl q ↦ rw (e, q) (set_state-Stays deleted refl (delete fd ∷ []) p.channels)
      | inr q ↦ rw (e, q) (rw st, refl)
    ]
    | inr e ↦ rw e refl
  ]

  pub update_channel-Stays : is_watched (p.store id).state ≡ true → Stays p id (update_channel p id)
  unfolding update_channel
  update_channel-Stays k = update_at-Stays (p.store id).fd (p.store id).state refl k
