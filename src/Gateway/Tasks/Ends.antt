-- ===== src/Gateway/Tasks/Ends.antt =====
-- How the tasks that answer a request end.
use relay_agent.Base.{
  Bool, Bool-cases, List, Option, String, [], ap, arith, false, if-rule, if◌then◌else◌, inl, inr,
  is_some, leb→le, length, length-append, member, none, refl, some, true, ℕ, ◌&&◌, ◌++◌, ◌+◌, ◌∙◌,
  ◌∷◌, ◌≡◌, ◌≢◌, ◌≤◌, ◌⊎◌,
}
use relay_agent.Base.Dict.{
  AreDistinct, Dict, get, get-keys, keys, keys-pop, member-pop_key_self, pop, put,
}
use relay_agent.Base.Int.{ℤ}
use relay_agent.Gateway.Dispatch.{size}
use relay_agent.Gateway.Frame.{
  ErrorCode, Frame, Reason, answered, error, failed, ok_value, refused, reported, result,
  stream_closed, timed_out,
}
use relay_agent.Gateway.Json.{Value}
use relay_agent.Gateway.Session.{
  Item, Queue, Session, bytes, close, drop_mapping, is_full, owns, pause, put_nowait,
  release_stream, resize, rest, resume,
}
use relay_agent.Gateway.Session.Accounting.{IsAccounted}
use relay_agent.Gateway.Session.Claims.{release_stream-IsAccounted, touch-IsAccounted}
use relay_agent.Gateway.Tasks.{
  AreOrdered, Left, Sized, Startup, Validated, Waited, WorkerEnd, after_startup, bad_size,
  cancelled, closing_frames, code_of, cut_short, expired, finished, handle_host_pty_session,
  handle_pty_session, has_close, not_asked, offer, offered, passes, raising, rejects, reply,
  run_pty_stream, sent_if, serve, signalled, size_overflows, sized, start_cancelled, start_failed,
  submit_worker, validate_container, with_size,
}

sent_if-cases :
    (delivered : Frame → Bool) (f : Frame)
    → (sent_if delivered f ≡ []) ⊎ (sent_if delivered f ≡ f ∷ [])
sent_if-cases delivered f = elim (Bool-cases (delivered f)) [
  | inl e ↦ inr (rw e refl)
  | inr e ↦ inl (rw e refl)
]

abbrev pub AnswersOnce : Value → List Frame → Type 0
AnswersOnce id [] = ⊥
AnswersOnce id (f ∷ fs) = (answered f ≡ some id) × (fs ≡ [])

-- Where frames are delivered and the task is not cancelled, `_execute_and_reply` sends exactly one
-- frame, which answers its request, however the command ends.
pub reply-AnswersOnce :
    (delivered : Frame → Bool) (send_error : String) (id : Value) (timeout : ℕ) (w : Waited)
    → ((f : Frame) → delivered f ≡ true)
    → w ≢ cancelled
    → AnswersOnce id (reply delivered send_error id timeout w)
unfolding reply answered
reply-AnswersOnce delivered send_error id timeout (finished v) d n =
    rw (d (result id v)) (refl, refl)
reply-AnswersOnce delivered send_error id timeout expired d n =
    rw (d (error id refused (timed_out timeout))) (refl, refl)
reply-AnswersOnce delivered send_error id timeout (raising message) d n =
    rw (d (error id failed (reported message))) (refl, refl)
reply-AnswersOnce delivered send_error id timeout cancelled d n = elim (n refl) [ ]

full_nonempty : (m n : ℕ) → 1 ≤ m → m ≤ n → 1 ≤ n
full_nonempty m n a b = omega arith

and_second : (x y : Bool) → x && y ≡ true → y ≡ true
and_second x y h = ground arith

pub has_close-snoc : (items : List Item) → has_close (items ++ close ∷ []) ≡ true
has_close-snoc [] = refl
has_close-snoc (bytes _ ∷ items) = has_close-snoc items
has_close-snoc (resize _ _ ∷ items) = has_close-snoc items
has_close-snoc (pause ∷ items) = has_close-snoc items
has_close-snoc (resume ∷ items) = has_close-snoc items
has_close-snoc (close ∷ items) = refl

abbrev IsClosing : ℕ → Queue × Bool → Type 0
IsClosing bound (q, put) = (put ≡ true) × (has_close q.items ≡ true) × (length q.items ≤ bound)

length-rest : (items : List Item) → 1 ≤ length items → length (rest items) + 1 ≤ length items
length-rest [] h = omega arith
length-rest (_ ∷ items) h = omega arith

room :
    (q : Queue)
    → is_full q ≡ true
    → 1 ≤ q.maxsize
    → length q.items ≤ q.maxsize
    → length (rest q.items ++ close ∷ []) ≤ q.maxsize
unfolding is_full
room q f lo hi = omega (
  arith,
  length-append (rest q.items) (close ∷ []),
  length-rest q.items (full_nonempty q.maxsize (length q.items) lo (leb→le _ _ (and_second _ _ f))),
)

no_room :
    (q : Queue) → is_full q ≡ false → 1 ≤ q.maxsize → length (q.items ++ close ∷ []) ≤ q.maxsize
unfolding is_full
no_room q o lo = ground (arith, length-append q.items (close ∷ []))

-- On a queue with a bound of at least 1 that is kept, `_offer` of a `close` says that it was taken,
-- leaves a `close` in the queue and keeps the bound, be the queue full or not.
pub offer_close :
    (q : Queue)
    → 1 ≤ q.maxsize
    → length q.items ≤ q.maxsize
    → ((offer q close).1 ≡ true)
      × (has_close (offer q close).0.items ≡ true)
      × (length (offer q close).0.items ≤ q.maxsize)
unfolding offer put_nowait is_full
offer_close q lo hi =
    if-rule {A = Option Queue} (λ o. IsClosing q.maxsize (offered q close o)) (is_full q)
      (λ f. (refl, has_close-snoc (rest q.items), room q f lo hi))
      λ o. (refl, has_close-snoc q.items, no_room q o lo)

pub closing-AreOrdered :
    (delivered : Frame → Bool) (id : Value) (k : String) (code : ℤ)
    → AreOrdered id k (result id ok_value ∷ sent_if delivered (stream_closed k code))
closing-AreOrdered delivered id k code =
    if-rule (λ fs. AreOrdered id k (result id ok_value ∷ fs)) (delivered (stream_closed k code))
      (λ _. (refl, refl)) λ _. refl

pub error-AreOrdered :
    (delivered : Frame → Bool) (id : Value) (k : String) (c : ErrorCode) (r : Reason)
    → AreOrdered id k (sent_if delivered (error id c r))
error-AreOrdered delivered id k c r =
    if-rule (AreOrdered id k) (delivered (error id c r)) (λ _. refl) λ _. tt

-- What the end of a stream's task comes to: its mapping is gone, the accounting of the session
-- still holds, the frames are in order, and a stop event that was made is set.
pub record IsEnded (id : Value) (k : String) (tag : ℕ) (l : Left) : Type 0 where
  pub accounted : IsAccounted l.session
  pub released : owns k tag l.session ≡ false
  pub ordered : AreOrdered id k l.frames
  pub stopped : l.stop ≢ some false

not_some : (o : Option Queue) → is_some o ≡ false → o ≡ none
not_some none h = refl
not_some (some q) h = ground arith

none_owned : (k : String) (tag : ℕ) (s : Session) → get k s.streams ≡ none → owns k tag s ≡ false
unfolding owns
none_owned k tag s h = rw (h, owns) refl

get-pop_self : (k : String) (d : Dict Queue) → AreDistinct (keys d) → get k (pop k d) ≡ none
get-pop_self k d h =
    not_some (get k (pop k d))
      (get-keys k (pop k d) ∙ ap (member k) (keys-pop k d) ∙ member-pop_key_self k (keys d) h)

owns-drop_mapping :
    (k : String) (tag : ℕ) {s : Session} → IsAccounted s → owns k tag (drop_mapping k tag s) ≡ false
unfolding drop_mapping
owns-drop_mapping k tag {s} h =
    if-rule (λ v. owns k tag v ≡ false) (owns k tag s)
      (λ _.
        none_owned k tag (record s { streams = pop k s.streams })
          (get-pop_self k s.streams h.distinct))
      λ other. other

owns-release_stream :
    (k : String) (tag : ℕ) {s : Session}
    → IsAccounted s
    → owns k tag (release_stream k tag s) ≡ false
unfolding release_stream owns
owns-release_stream k tag h = owns-drop_mapping k tag h

not_false : (o : Option Bool) → (o ≡ none) ⊎ (o ≡ some true) → o ≢ some false
not_false o h e = ground arith

pub released-IsEnded :
    (id : Value) (k : String) (tag : ℕ) (s : Session) (fs : List Frame) (stop : Option Bool)
    → IsAccounted s
    → AreOrdered id k fs
    → (stop ≡ none) ⊎ (stop ≡ some true)
    → IsEnded id k tag (record { session = release_stream k tag s; frames = fs; stop = stop })
released-IsEnded id k tag s fs stop h f e = record {
  accounted = release_stream-IsAccounted k tag h;
  released = owns-release_stream k tag h;
  ordered = f;
  stopped = not_false stop e;
}

module _ (delivered : Frame → Bool) (others : Session → Session) where
  served-AreOrdered :
      (id : Value) (k : String) (worker : WorkerEnd)
      → AreOrdered id k (
          if delivered (result id ok_value)
          then result id ok_value ∷ closing_frames delivered others k (code_of worker)
          else [])
  served-AreOrdered id k worker =
      if-rule (AreOrdered id k) (delivered (result id ok_value))
        (λ _. closing-AreOrdered delivered id k (code_of worker)) λ _. tt

  submit_worker-IsEnded :
      (id : Value) (k : String) (tag : ℕ) (startup : Startup) (worker : WorkerEnd) (s : Session)
      → ((s : Session) → IsAccounted s → IsAccounted (others s))
      → IsAccounted s
      → IsEnded id k tag (submit_worker delivered others id k tag true startup worker s)
  unfolding serve after_startup
  submit_worker-IsEnded id k tag signalled worker s keep h =
      released-IsEnded id k tag _ _ (some true)
        (keep _ (keep _ (touch-IsAccounted s.pending_commands _ h))) (served-AreOrdered id k worker)
        (inr refl)
  submit_worker-IsEnded id k tag start_cancelled worker s keep h =
      released-IsEnded id k tag _ [] (some true) (keep _ (touch-IsAccounted s.pending_commands _ h))
        tt (inr refl)
  submit_worker-IsEnded id k tag (start_failed message) worker s keep h =
      released-IsEnded id k tag _ _ (some true) (keep _ (touch-IsAccounted s.pending_commands _ h))
        (error-AreOrdered delivered id k _ _) (inr refl)

  -- Whatever else happens in the session meanwhile, if that keeps the accounting, then
  -- `_run_pty_stream` gives its stream back, with a stop event that was made set, and sends at most
  -- one answer, which `stream_closed` may only follow where the answer is a result; provided that
  -- `validate` is neither cancelled nor raises, and that the pool takes the worker.
  pub run_pty_stream-IsEnded :
      (id : Value) (k : String) (tag : ℕ) (validated : Validated) (submits : Bool)
      (startup : Startup) (worker : WorkerEnd) (s : Session)
      → ((s : Session) → IsAccounted s → IsAccounted (others s))
      → IsAccounted s
      → validated ≢ cut_short
      → submits ≡ true
      → IsEnded id k tag
          (run_pty_stream delivered others id k tag validated submits startup worker s)
  unfolding run_pty_stream
  run_pty_stream-IsEnded id k tag not_asked submits startup worker s keep h n takes =
      rw takes (submit_worker-IsEnded id k tag startup worker s keep h)
  run_pty_stream-IsEnded id k tag passes submits startup worker s keep h n takes =
      rw takes (submit_worker-IsEnded id k tag startup worker (others s) keep (keep s h))
  run_pty_stream-IsEnded id k tag (rejects message) submits startup worker s keep h n takes =
      released-IsEnded id k tag (others s) _ none (keep s h) (error-AreOrdered delivered id k _ _)
        (inl refl)
  run_pty_stream-IsEnded id k tag cut_short submits startup worker s keep h n takes =
      absurd (n refl)

  pub with_size-IsEnded :
      (go : Session → Left) (id : Value) (k : String) (tag : ℕ) (size : Sized) (s : Session)
      → size ≢ size_overflows
      → IsAccounted s
      → IsEnded id k tag (go s)
      → IsEnded id k tag (with_size delivered others go id k tag size s)
  unfolding with_size
  with_size-IsEnded go id k tag sized s n h e = e
  with_size-IsEnded go id k tag size_overflows s n h e = absurd (n refl)
  with_size-IsEnded go id k tag (bad_size message) s n h e =
      released-IsEnded id k tag s _ none h (error-AreOrdered delivered id k _ _) (inl refl)

  validates :
      (not_found : String) (named : Bool) (exists : Bool)
      → validate_container delivered others not_found named (some exists) ≢ cut_short
  unfolding validate_container
  validates not_found false exists e = ground (arith, e)
  validates not_found true false e = ground (arith, e)
  validates not_found true true e = ground (arith, e)

  -- `_handle_pty_session`, where the executor answers whether the container exists, and
  -- `_handle_host_pty_session` end in the same way, under the same condition, for every size that
  -- does not overflow.
  pub handle_pty_session-IsEnded :
      (id : Value) (k : String) (tag : ℕ) (size : Sized) (not_found : String) (named exists : Bool)
      (submits : Bool) (startup : Startup) (worker : WorkerEnd) (s : Session)
      → ((s : Session) → IsAccounted s → IsAccounted (others s))
      → IsAccounted s
      → size ≢ size_overflows
      → submits ≡ true
      → IsEnded id k tag (
          handle_pty_session delivered others id k tag size not_found named
            (some exists)
            submits
            startup
            worker
            s)
        × IsEnded id k tag
            (handle_host_pty_session delivered others id k tag size submits startup worker s)
  unfolding handle_pty_session handle_host_pty_session
  handle_pty_session-IsEnded id k tag size not_found named exists submits startup worker s keep h n
        takes =
      (
        with_size-IsEnded _ id k tag size s n h (
            run_pty_stream-IsEnded id k tag _ submits startup worker s keep h
              (validates not_found named exists) takes),
        with_size-IsEnded _ id k tag size s n h (
            run_pty_stream-IsEnded id k tag not_asked submits startup worker s keep h
              (λ e. ground (arith, e)) takes),
      )
