-- ===== src/EpollPoller/Registry.antt =====
-- The map of matelib/EpollPoller.cc, the states of the channels, and the set of descriptors that
-- epoll watches.
use matelib.Prelude.{
  ℕ, ◌≡◌, refl, Bool, true, false, List, [], ◌∷◌, ◌++◌, ap, ◌∙◌, Option, none, some, arith, ◌==◌,
  if◌then◌else◌, ==_refl, Bool-cases, inl, inr,
}
use mathlib.Core.Option.{some_inj}
use matelib.Channel.{Channel, ChannelState, new, added, deleted, is_none_event}
use matelib.Prelude.Store.{put}
use matelib.EpollPoller.{
  Ctl, add, modify, delete, EpollPoller, set_state, update_at, update_channel, is_watched, deletes,
  remove_channel,
}

-- What `epoll_ctl` documents: the descriptors that are watched after the calls, and `none` if one
-- of the calls fails with EEXIST or ENOENT.
unfoldable pub accept : (ℕ → Bool) → List Ctl → Option (ℕ → Bool)
accept w [] = some w
accept w (add fd ∷ calls) = if w fd then none else accept (put w fd true) calls
accept w (modify fd ∷ calls) = if w fd then accept w calls else none
accept w (delete fd ∷ calls) = if w fd then accept (put w fd false) calls else none

-- Calls after calls.
pub accept-append :
    (w w' w'' : ℕ → Bool) (xs ys : List Ctl)
    → accept w xs ≡ some w'
    → accept w' ys ≡ some w''
    → accept w (xs ++ ys) ≡ some w''
unfolding accept
accept-append w w' w'' [] ys h k = ap (λ v. accept v ys) (some_inj.0 h) ∙ k
accept-append w w' w'' (add fd ∷ xs) ys h k = elim (Bool-cases (w fd)) [
  | inl e ↦ cc (rw e at h)
  | inr e ↦ rw e (accept-append (put w fd true) w' w'' xs ys (rw e at h) k)
]
accept-append w w' w'' (modify fd ∷ xs) ys h k = elim (Bool-cases (w fd)) [
  | inl e ↦ rw e (accept-append w w' w'' xs ys (rw e at h) k)
  | inr e ↦ cc (rw e at h)
]
accept-append w w' w'' (delete fd ∷ xs) ys h k = elim (Bool-cases (w fd)) [
  | inl e ↦ rw e (accept-append (put w fd false) w' w'' xs ys (rw e at h) k)
  | inr e ↦ cc (rw e at h)
]

abbrev pub is_added : ChannelState → Bool
is_added added = true
is_added _ = false

abbrev pub added_in : (ℕ → Channel) → Option ℕ → Bool
added_in store none = false
added_in store (some id) = is_added (store id).state

pub record IsConsistent (p : EpollPoller) (w : ℕ → Bool) : Type 0 where
  -- The map leads to channels of that descriptor that are not new.
  pub owner :
      (fd id : ℕ)
      → p.channels fd ≡ some id
      → ((p.store id).fd ≡ fd) × (is_watched (p.store id).state ≡ true)
  -- A channel that is not new is in the map.
  pub known : (id : ℕ) → is_watched (p.store id).state ≡ true → p.channels (p.store id).fd ≡ some id
  -- The kernel watches the channels that are added.
  pub watched : (fd : ℕ) → w fd ≡ added_in p.store (p.channels fd)

-- The operation succeeds, the kernel takes its calls, and the three agree again.
abbrev pub Keeps : (ℕ → Bool) → Option (List Ctl × EpollPoller) → Type 0
Keeps w r =
    (calls : List Ctl) × (p : EpollPoller) × (w' : ℕ → Bool) × (r ≡ some (calls, p))
    × (accept w calls ≡ some w')
    × IsConsistent p w'

module _ (p : EpollPoller) (w : ℕ → Bool) (h : IsConsistent p w) (id : ℕ) where
  abbrev fd : ℕ
  fd = (p.store id).fd

  -- A change of this channel's object does not show at another descriptor.
  elsewhere :
      (c : Channel) (f : ℕ)
      → (fd == f) ≡ false
      → added_in (put p.store id c) (p.channels f) ≡ added_in p.store (p.channels f)
  elsewhere c f ne = go (p.channels f) refl
    where
      go : (o : Option ℕ) → p.channels f ≡ o → added_in (put p.store id c) o ≡ added_in p.store o
      go none e = refl
      go (some j) e = ground (arith, h.owner f j e)

  update_new : (p.store id).state ≡ new → p.channels fd ≡ none → Keeps w (update_at p id fd new)
  unfolding update_at accept
  update_new st free = (
    add fd ∷ [],
    set_state (record p { channels = put p.channels fd (some id) }) id added,
    put w fd true,
    rw free,
    rw (h.watched fd, free),
    record {
      owner = λ f j e. ground (arith, h.owner f j);
      known = λ j e. ground (arith, h.known j, h.owner fd j);
      watched =
          λ f. ground (arith, h.watched f, elsewhere (record (p.store id) { state = added }) f);
    },
  )

  module _ (here : p.channels fd ≡ some id) where
    -- A state that still counts as watched.
    stays_known :
        (s : ChannelState)
        → is_watched s ≡ true
        → (w' : ℕ → Bool) → ((f : ℕ) → w' f ≡ added_in (set_state p id s).store (p.channels f))
        → IsConsistent (set_state p id s) w'
    stays_known s k w' e = record {
      owner = λ f j q. ground (arith, h.owner f j);
      known = λ j q. ground (arith, h.known j);
      watched = e;
    }

    update_deleted : (p.store id).state ≡ deleted → Keeps w (update_at p id fd deleted)
    unfolding update_at accept
    update_deleted st = (
      add fd ∷ [],
      set_state p id added,
      put w fd true,
      rw (here, ==_refl id),
      rw (h.watched fd, here, st),
      stays_known added refl (put w fd true)
          λ f. ground (arith, h.watched f, elsewhere (record (p.store id) { state = added }) f),
    )

    update_added : (p.store id).state ≡ added → Keeps w (update_at p id fd added)
    unfolding update_at accept
    update_added st = elim (Bool-cases (is_none_event (p.store id))) [
      | inl nothing ↦ (
        delete fd ∷ [],
        set_state p id deleted,
        put w fd false,
        rw (here, ==_refl id, nothing),
        rw (h.watched fd, here, st),
        stays_known deleted refl (put w fd false)
            λ f. ground (arith, h.watched f, elsewhere (record (p.store id) { state = deleted }) f),
      )
      | inr something ↦
          (modify fd ∷ [], p, w, rw (here, ==_refl id, something), rw (h.watched fd, here, st), h)
    ]

  update_at-Keeps :
      (s : ChannelState)
      → (p.store id).state ≡ s
      → (s ≡ new → p.channels fd ≡ none)
      → Keeps w (update_at p id fd s)
  update_at-Keeps new st free = update_new st (free refl)
  update_at-Keeps deleted st free = update_deleted (h.known id (rw st)) st
  update_at-Keeps added st free = update_added (h.known id (rw st)) st

  -- Let the map of the poller, the states of the channels and what epoll watches agree, and
  -- let a channel that is new have a descriptor that is not in the map. Then `update_channel`
  -- passes its asserts, epoll accepts its call, and the three agree again.
  pub update_channel-Keeps :
      ((p.store id).state ≡ new → p.channels (p.store id).fd ≡ none) → Keeps w (update_channel p id)
  unfolding update_channel
  update_channel-Keeps free = update_at-Keeps (p.store id).state refl free

  remove_at :
      (s : ChannelState)
      → (p.store id).state ≡ s
      → is_watched s ≡ true
      → (w' : ℕ → Bool) × (accept w (deletes s fd) ≡ some w')
        × ((f : ℕ) → w' f ≡ (if fd == f then false else w f))
  unfolding accept
  remove_at new st k = cc
  remove_at added st k = (put w fd false, rw (h.watched fd, h.known id (rw st), st), λ f. refl)
  remove_at deleted st k = (w, refl, λ f. ground (arith, h.watched f, h.known id (rw st)))

  -- Let the map of the poller, the states of the channels and what epoll watches agree. Then
  -- for a channel that asks for no event and is not new, `remove_channel` passes its asserts,
  -- epoll accepts its call if it makes one, and the three agree again.
  pub remove_channel-Keeps :
      is_none_event (p.store id) ≡ true
      → is_watched (p.store id).state ≡ true
      → Keeps w (remove_channel p id)
  unfolding remove_channel
  remove_channel-Keeps nothing known =
      let here = h.known id known in
      let (w', e, at) = remove_at (p.store id).state refl known in
      (
        deletes (p.store id).state fd,
        set_state (record p { channels = put p.channels fd none }) id new,
        w',
        rw (nothing, here, ==_refl id, known),
        e,
        record {
          owner = λ f j q. ground (arith, h.owner f j);
          known = λ j q. ground (arith, h.known j);
          watched = λ f.
              ground (arith, at f, h.watched f, elsewhere (record (p.store id) { state = new }) f);
        },
      )
