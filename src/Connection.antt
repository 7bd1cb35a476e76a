-- ===== src/Connection.antt =====
-- A TCP connection with its two write queues, tcp_connection.h and tcp_connection.cc.
-- The executor of a connection runs one action at a time, in the order of posting: `posted` holds
-- the actions that wait there. The socket's completions are events. A callback that a session has
-- set is a function from the error flag (and, for reads, the bytes) to the actions that it posts.
pub mod Order
pub mod Failures
pub mod Progress
mod Runs
use simple_rtmp.Base.{
  List, [], ◌∷◌, ◌++◌, map, Bool, true, false, Option, none, some, is_empty, if◌then◌else◌,
}

-- What std::bind posts: safe_write_frame with its frame, or safe_shutdown.
pub data Action {ℓ} (A : Type ℓ) : Type ℓ where
  write : A → Action A
  close : Action A

-- `completed` are the frames of the finished async_write calls, each with its call's error flag: true
-- where the call failed. `writing_queue` are those of the call in flight, and `started` the frames of all
-- calls so far. `reading` says that an async_read_some is pending.
pub record Connection {ℓ} (A : Type ℓ) : Type ℓ where
  pub posted : List (Action A)
  pub write_queue : List A
  pub writing_queue : List A
  pub completed : List (Bool × A)
  pub started : List A
  pub is_open : Bool
  pub reading : Bool
  pub read_cb : Option (Option A → List (Action A))
  pub write_cb : Option (Bool → List (Action A))

module _ {ℓ} {A : Type ℓ} where
  -- The constructor on an accepted socket, before `start`.
  unfoldable pub fresh : Connection A
  fresh = record {
    posted = [];
    write_queue = [];
    writing_queue = [];
    completed = [];
    started = [];
    is_open = true;
    reading = false;
    read_cb = none;
    write_cb = none;
  }

  unfoldable pub post : List (Action A) → Connection A → Connection A
  post actions c = record c { posted = c.posted ++ actions }

  unfoldable pub set_read_cb : (Option A → List (Action A)) → Connection A → Connection A
  set_read_cb cb c = record c { read_cb = some cb }

  unfoldable pub set_write_cb : (Bool → List (Action A)) → Connection A → Connection A
  set_write_cb cb c = record c { write_cb = some cb }

  unfoldable pub do_read : Connection A → Connection A
  do_read c = record c { reading = true }

  unfoldable pub start : Connection A → Connection A
  unfolding do_read
  start c = do_read c

  unfoldable pub shutdown : Connection A → Connection A
  unfolding post
  shutdown c = post (close ∷ []) c

  -- Closing a socket that is closed already changes nothing.
  unfoldable pub safe_shutdown : Connection A → Connection A
  safe_shutdown c = record c { is_open = false; read_cb = none; write_cb = none }

  unfoldable pub write_frame : A → Connection A → Connection A
  unfolding post
  write_frame frame c = post (write frame ∷ []) c

  -- The swap of the two queues and the call of async_write on the frames that now are writing.
  unfoldable pub begin_write : Connection A → Connection A
  begin_write c = record c {
    writing_queue = c.write_queue;
    write_queue = c.writing_queue;
    started = c.started ++ c.write_queue;
  }

  unfoldable pub safe_do_write : Connection A → Connection A
  unfolding begin_write
  safe_do_write c =
      if is_empty c.writing_queue then (if is_empty c.write_queue then c else begin_write c) else c

  unfoldable pub safe_write_frame : A → Connection A → Connection A
  unfolding safe_do_write
  safe_write_frame frame c = safe_do_write (record c { write_queue = c.write_queue ++ frame ∷ [] })

  -- The completion of the async_write in flight, with its error flag.
  unfoldable pub safe_on_write : Bool → Connection A → Connection A
  unfolding safe_do_write shutdown post
  safe_on_write ec c =
      let done = record c {
        writing_queue = [];
        completed = c.completed ++ map (λ frame. (ec, frame)) c.writing_queue;
      } in
      elim c.write_cb [
        | some cb ↦ safe_do_write (post (cb ec) done)
        | none ↦ if ec then shutdown done else safe_do_write done
      ]

  -- The completion of the pending read: `none` is an error. The next read starts also after an
  -- error, unless no callback is set.
  unfoldable pub on_read : Option A → Connection A → Connection A
  unfolding do_read shutdown post
  on_read got c =
      let done = record c { reading = false } in
      elim c.read_cb [
        | some cb ↦ do_read (post (cb got) done)
        | none ↦ elim got [ none ↦ shutdown done | some frame ↦ do_read done ]
      ]

  unfoldable pub run_action : Action A → Connection A → Connection A
  unfolding safe_write_frame safe_shutdown
  run_action (write frame) c = safe_write_frame frame c
  run_action close c = safe_shutdown c

  -- The executor takes the oldest action.
  unfoldable pub run_posted : List (Action A) → Connection A → Connection A
  unfolding run_action
  run_posted [] c = c
  run_posted (a ∷ later) c = run_action a (record c { posted = later })

-- What can happen to a connection: a call of write_frame or shutdown from outside, the executor
-- running its oldest action, and the two completions.
pub data Event {ℓ} (A : Type ℓ) : Type ℓ where
  calls : Action A → Event A
  runs : Event A
  wrote : Bool → Event A
  read : Option A → Event A

module _ {ℓ} {A : Type ℓ} where
  unfoldable pub step : Connection A → Event A → Connection A
  unfolding write_frame shutdown run_posted safe_on_write on_read
  step c (calls (write frame)) = write_frame frame c
  step c (calls close) = shutdown c
  step c runs = run_posted c.posted c
  step c (wrote ec) = safe_on_write ec c
  step c (read got) = on_read got c

  unfoldable pub run : Connection A → List (Event A) → Connection A
  unfolding step
  run c [] = c
  run c (e ∷ es) = run (step c e) es
