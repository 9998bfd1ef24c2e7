-- ===== src/UploadMachine/Phase.antt =====
-- state_machines/upload-state-machine.h: what is under way. Besides the one event that drives the
-- machine, the queue holds notes of new bundles, which only one state listens to.
use polar_express.Base.{
  ◌≡◌, refl, Bool, true, false, not, List, [], ◌∷◌, ◌++◌, if◌then◌else◌, arith,
}
use polar_express.UploadMachine.{
  State, wait_for_new_bundle, ready_to_upload, Event, new_bundle_pending, no_bundle_pending,
}

-- Nothing is under way, an external callback is outstanding, or an event is queued.
pub data Phase : Type 0 where
  rests : Phase
  waits : Event → Phase
  due : Event → Phase

abbrev pub queued : Phase → List Event
queued (due e) = e ∷ []
queued p = []

abbrev pub outstanding_of : Phase → List Event
outstanding_of (waits e) = e ∷ []
outstanding_of p = []

abbrev pub is_note : Event → Bool
is_note new_bundle_pending = true
is_note e = false

abbrev pub is_no_bundle : Event → Bool
is_no_bundle no_bundle_pending = true
is_no_bundle e = false

-- The queue without the notes.
abbrev pub mains : List Event → List Event
mains [] = []
mains (e ∷ es) = if is_note e then mains es else e ∷ mains es

abbrev pub announced : List Event → Bool
announced [] = false
announced (e ∷ es) = if is_note e then true else announced es

-- A note behind the event that sends the machine to its wait for a bundle; also where that event is
-- not queued.
abbrev pub announced_after : List Event → Bool
announced_after [] = true
announced_after (e ∷ es) = if is_no_bundle e then announced es else announced_after es

-- The machine waits for a bundle, or is about to, and no note will wake it.
abbrev pub unannounced : State → List Event → Bool
unannounced wait_for_new_bundle es = not (announced es)
unannounced ready_to_upload es = not (announced_after es)
unannounced s es = false

pub mains-append : (es fs : List Event) → mains (es ++ fs) ≡ mains es ++ mains fs
mains-append [] fs = refl
mains-append (e ∷ es) fs = ground (arith, mains-append es fs)

announced-note : (es : List Event) → announced (es ++ new_bundle_pending ∷ []) ≡ true
announced-note [] = refl
announced-note (e ∷ es) = ground (arith, announced-note es)

announced_after-note : (es : List Event) → announced_after (es ++ new_bundle_pending ∷ []) ≡ true
announced_after-note [] = refl
announced_after-note (e ∷ es) = ground (arith, announced_after-note es, announced-note es)

-- A note at the end of the queue is heard.
pub unannounced-note :
    (s : State) (es : List Event) → unannounced s (es ++ new_bundle_pending ∷ []) ≡ false
unannounced-note s es = ground (arith, announced_after-note es, announced-note es)

-- Behind notes alone, an event other than the announcement of a wait leaves nothing unannounced.
pub announced_after-other :
    (es : List Event) (e : Event)
    → mains es ≡ []
    → is_no_bundle e ≡ false
    → announced_after (es ++ e ∷ []) ≡ true
announced_after-other [] e m h = ground arith
announced_after-other (x ∷ es) e m h = ground (arith, announced_after-other es e)
