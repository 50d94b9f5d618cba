-- ===== src/EventLoop/Tests.antt =====
-- The event loop's theorems at a loop with one task, and at two channels.
use matelib.Prelude.{
  ℕ, zero, suc, Bool, true, ◌||◌, ◌==◌, none, some, arith, ◌+◌, ◌<◌, ◌≡◌, refl, false, List, [],
  ◌∷◌,
}
use matelib.Prelude.Store.{put}
use matelib.Channel.{Events, Callback, make, added, none_event}
use matelib.EpollPoller.{Ctl, EpollPoller}
use matelib.EpollPoller.Registry.{accept, IsConsistent}
use matelib.EventLoop.Dispatch.{Request, change, remove, dispatch}
use matelib.EventLoop.Dispatch.Registered.{IsOwn, changes, nothing, leaves, dispatch-Served}
use matelib.EventLoop.{fresh, push, do_pending_functors}
use matelib.EventLoop.Steps.{System, polling, Reach, here, next, enters, other_pushes}
use matelib.EventLoop.Wakeup.{no_lost_wakeup}
use matelib.EventLoop.Order.{InOrder, Reach-InOrder, do_pending_functors-Ran}

-- Another thread has pushed the task 4 and not woken the loop yet.
abbrev pushed : System
pushed = record { loop = push fresh 4; phase = polling; waking = 1; submitted = 4 ∷ []; early = 0 }

pushed-Reach : Reach pushed
pushed-Reach = next (next here (enters refl)) (other_pushes 4)

no_lost_wakeup_example : 0 < pushed.loop.wakeup_count + pushed.waking
no_lost_wakeup_example = no_lost_wakeup pushed-Reach refl (λ e. cc) refl

Reach-InOrder_example : InOrder pushed
Reach-InOrder_example = Reach-InOrder pushed-Reach

-- The task `n` queues the task `n + 1`.
abbrev successor : ℕ → List ℕ
successor n = suc n ∷ []

do_pending_functors-Ran_example :
    let t = do_pending_functors successor (push fresh 4) in
    (t.executed ≡ 4 ∷ [])
    × (t.pending_functors ≡ 5 ∷ [])
    × (t.wakeup_count ≡ 1)
    × (t.calling_pending_functors ≡ false)
do_pending_functors-Ran_example = do_pending_functors-Ran successor (push fresh 4)

-- The channels at the addresses 0 and 1, of the descriptors 4 and 5.
abbrev two_channels : EpollPoller
two_channels = record {
  channels = put (put (λ fd. none) 4 (some 0)) 5 (some 1);
  store =
      put (put (λ id. make 6) 0 (record (make 4) { state = added })) 1
        (record (make 5) { state = added });
  events_size = 16;
}

abbrev two_watched : ℕ → Bool
two_watched fd = 4 == fd || 5 == fd

two_channels-IsConsistent : IsConsistent two_channels two_watched
two_channels-IsConsistent = record {
  owner = λ fd id e. ground arith;
  known = λ id e. ground arith;
  watched = λ fd. ground arith;
}

-- The first channel is removed, and the second asks for urgent data.
abbrev urgent_events : Events
urgent_events = record none_event { urgent = true }

abbrev requests : ℕ → List Callback → List Request
requests zero calls = change 0 none_event ∷ (remove 0 ∷ [])
requests (suc id) calls = change (suc id) urgent_events ∷ []

requests-IsOwn : (id : ℕ) (calls : List Callback) → IsOwn id (requests id calls)
requests-IsOwn zero calls = leaves
requests-IsOwn (suc id) calls = changes urgent_events nothing

dispatch-Served_example :
    (calls : List Ctl) × (p : EpollPoller) × (w : ℕ → Bool) × (dispatch requests
        (0 ∷ 1 ∷ [])
        two_channels
        (0 ∷ 1 ∷ [])
      ≡ some (two_channels.store 0 ∷ two_channels.store 1 ∷ [], calls, p))
    × (accept two_watched calls ≡ some w)
    × IsConsistent p w
dispatch-Served_example =
    dispatch-Served requests requests-IsOwn (0 ∷ 1 ∷ []) (0 ∷ 1 ∷ []) two_channels two_watched
      two_channels-IsConsistent (refl, (refl, tt)) (refl, (refl, tt))
