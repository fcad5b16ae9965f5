-- ===== src/Acq/Outcome.antt =====
-- How `katherine_acquisition_read` ends: by an abort or its timeout, and always without the lock.
use libkatherine.Base.{
  ℕ, zero, suc, ◌+◌, ◌-◌, ◌*◌, ◌/◌, ◌≡◌, refl, ◌∙◌, ap, arith, true, false, ◌||◌, Bool, ◌&&◌, ltb,
  if◌then◌else◌,
}
use libkatherine.Base.{List, [], ◌∷◌, Option, none, some, etimedout, eagain}
use libkatherine.Px.{Pixel}
use libkatherine.Udp.{
  Udp, Received, err, ok, recv, recv_datagram, recv_pinned, recvfrom, mutex_lock, mutex_unlock,
  lock_next,
}
use libkatherine.Udp.Receive.{recv-KeepsSession}
use libkatherine.Acq.{Acq, State}
use libkatherine.Acq.Handlers.{flush_buffer}
use libkatherine.Acq.Read.{Round, is_running, dried_up, take_datagram, read_loop}
use libkatherine.Acq.Read.{read_code, acquisition_read, read_done, read_locked}

-- The locks that are held after a loop that has ended, else `h`.
abbrev held_after : ℕ → Option (Udp × Acq) → ℕ
held_after h none = h
held_after h (some (u, acq)) = u.held

-- The locks that are held when the call has returned, else `h`.
abbrev pub held_at_end : ℕ → Option (ℕ × Udp × Acq) → ℕ
held_at_end h none = h
held_at_end h (some (code, u, acq)) = u.held

abbrev pub code_at_end : Option (ℕ × Udp × Acq) → Option ℕ
code_at_end none = none
code_at_end (some (code, u, acq)) = some code

-- A pinned session on which nothing has arrived and whose lock is free.
pub record IsIdle (u : Udp) : Type 0 where
  pub pinned : u.remote_pinned ≡ true
  pub silent : u.inbox ≡ []
  pub free : u.locks ≡ []

recv_idle :
    (count : ℕ) (u : Udp) → u.remote_pinned ≡ true → u.inbox ≡ [] → recv count u ≡ (err eagain, u)
unfolding recv recv_datagram recv_pinned recvfrom
recv_idle count u p e = ground arith

-- The time that the acquisition has before it counts as failed, in nanoseconds.
abbrev allowed : Acq → ℕ
allowed acq = acq.requested_frames * acq.requested_frame_duration + acq.fail_timeout * 1000000

abbrev is_expired : ℕ → ℕ → ℕ → Round → Bool
is_expired fail_timeout limit since r =
    ltb 0 fail_timeout && ltb limit ((r.later - since) * 1000000000)

-- What a read without any data returns, by the timeout, the time allowed, the time of the start and
-- the abort flag: none while it waits.
unfoldable pub idle_outcome : ℕ → ℕ → ℕ → Bool → List Round → Option ℕ
idle_outcome fail_timeout limit since aborted [] = none
idle_outcome fail_timeout limit since aborted (r ∷ rounds) =
    let flag = aborted || r.raised in
    let rest = idle_outcome fail_timeout limit since flag rounds in
    if flag then some 0 else if is_expired fail_timeout limit since r then some etimedout else rest

-- A round without data from `acq` to `acq'`.
record Waits (r : Round) (acq acq' : Acq) : Type 0 where
  ends : acq'.state ≡ (
      if acq.aborted
      then State.succeeded
      else if is_expired acq.fail_timeout (allowed acq) acq.acq_start_time r
      then State.timed_out
      else acq.state)
  outcome :
      (rounds : List Round)
      → idle_outcome acq'.fail_timeout (allowed acq') acq'.acq_start_time acq'.aborted rounds
        ≡ idle_outcome acq.fail_timeout (allowed acq) acq.acq_start_time acq.aborted rounds

dried_up-Waits : (r : Round) (last : ℕ) (acq : Acq) → Waits r acq (dried_up r last acq)
unfolding dried_up flush_buffer
dried_up-Waits r last acq = record { ends = ground arith; outcome = λ rounds. ground arith }

module _ (pixel_map : ℕ → ℕ → Pixel) (pixel_size : ℕ) where
  abbrev loop_code : Option (Udp × Acq) → Option ℕ
  loop_code none = none
  loop_code (some (u, acq)) = some (read_code pixel_map pixel_size acq.state)

  round_held :
      (r : Round) (rounds : List Round) (last : ℕ) (u v : Udp) (acq : Acq) (res : Received) (h : ℕ)
      → recv acq.md_buffer_size u ≡ (res, v)
      → u.held ≡ h
      → ((last' : ℕ) (acq' : Acq)
          → held_after h (read_loop pixel_map pixel_size rounds last' v acq') ≡ h)
      → held_after h (read_loop pixel_map pixel_size (r ∷ rounds) last u acq) ≡ h
  unfolding read_loop
  round_held r rounds last u v acq (err e) h eq same later =
      let flagged = record acq { aborted = acq.aborted || r.raised } in
      ground (arith, eq, later last (dried_up r last flagged))
  round_held r rounds last u v acq (ok bytes) h eq same later =
      let flagged = record acq { aborted = acq.aborted || r.raised } in
      ground (arith, eq, later r.now (take_datagram pixel_map pixel_size r bytes flagged))

  loop_held :
      (rounds : List Round) (last : ℕ) (u : Udp) (acq : Acq) (h : ℕ)
      → u.remote_pinned ≡ true
      → u.held ≡ h
      → held_after h (read_loop pixel_map pixel_size rounds last u acq) ≡ h
  unfolding read_loop
  loop_held [] last u acq h p same = ground arith
  loop_held (r ∷ rounds) last u acq h p same =
      let next = recv acq.md_buffer_size u in
      let k = recv-KeepsSession acq.md_buffer_size u p in
      round_held r rounds last u next.1 acq next.0 h refl same
        (λ last' acq'. loop_held rounds last' next.1 acq' h (k.pinned ∙ p) (k.held ∙ same))

  done_held :
      (end h : ℕ) (o : Option (Udp × Acq))
      → held_after (h + 1) o ≡ h + 1
      → held_at_end h (read_done pixel_map pixel_size end o) ≡ h
  unfolding mutex_unlock
  done_held end h none e = refl
  done_held end h (some (u, acq)) e = ap (λ n. n - 1) e ∙ omega arith

  locked_held :
      (start end : ℕ) (rounds : List Round) (ls : List ℕ) (u : Udp) (acq : Acq)
      → u.remote_pinned ≡ true
      → held_at_end u.held (read_locked pixel_map pixel_size start end rounds acq (lock_next ls u))
        ≡ u.held
  unfolding lock_next
  locked_held start end rounds [] u acq p =
      done_held end u.held _
        (loop_held rounds start (record u { held = u.held + 1 }) _ (u.held + 1) p refl)
  locked_held start end rounds (zero ∷ ls) u acq p =
      done_held end u.held _
        (loop_held rounds start (record u { locks = ls; held = u.held + 1 }) _ (u.held + 1) p refl)
  locked_held start end rounds (suc e ∷ ls) u acq p = refl

  -- On a pinned data socket, whatever arrives, whenever the flag is raised, and whether or not the
  -- lock can be had: a read that returns holds as many locks as before the call.
  pub acquisition_read-held :
      (start end : ℕ) (rounds : List Round) (u : Udp) (acq : Acq)
      → u.remote_pinned ≡ true
      → held_at_end u.held (acquisition_read pixel_map pixel_size start end rounds u acq) ≡ u.held
  unfolding acquisition_read mutex_lock
  acquisition_read-held start end rounds u acq p = locked_held start end rounds u.locks u acq p

  stopped :
      (rounds : List Round) (last : ℕ) (u : Udp) (acq : Acq)
      → is_running acq.state ≡ false
      → read_loop pixel_map pixel_size rounds last u acq ≡ some (u, acq)
  unfolding read_loop
  stopped [] last u acq e = ground arith
  stopped (r ∷ rounds) last u acq e = ground arith

  idle_round :
      (r : Round) (rounds : List Round) (last : ℕ) (u : Udp) (acq : Acq)
      → u.remote_pinned ≡ true
      → u.inbox ≡ []
      → acq.state ≡ State.running
      → read_loop pixel_map pixel_size (r ∷ rounds) last u acq
        ≡ read_loop pixel_map pixel_size rounds last u
            (dried_up r last (record acq { aborted = acq.aborted || r.raised }))
  unfolding read_loop
  idle_round r rounds last u acq p e runs = ground (arith, recv_idle acq.md_buffer_size u p e)

  -- A round whose state is known, with what the further rounds come to.
  next_code :
      (a x : Bool) (rounds : List Round) (last : ℕ) (u : Udp) (acq : Acq) (rest : Option ℕ)
      → acq.state ≡ (if a then State.succeeded else if x then State.timed_out else State.running)
      → (a ≡ false
          → acq.state ≡ State.running
          → loop_code (read_loop pixel_map pixel_size rounds last u acq) ≡ rest)
      → loop_code (read_loop pixel_map pixel_size rounds last u acq)
        ≡ (if a then some 0 else if x then some etimedout else rest)
  next_code true x rounds last u acq rest e later =
      ap loop_code (stopped rounds last u acq (ap is_running e))
      ∙ ap (λ s. some (read_code pixel_map pixel_size s)) e
  next_code false true rounds last u acq rest e later =
      ap loop_code (stopped rounds last u acq (ap is_running e))
      ∙ ap (λ s. some (read_code pixel_map pixel_size s)) e
  next_code false false rounds last u acq rest e later = later refl e

  loop_idle :
      (rounds : List Round) (last : ℕ) (u : Udp) (acq : Acq)
      → u.remote_pinned ≡ true
      → u.inbox ≡ []
      → acq.state ≡ State.running
      → loop_code (read_loop pixel_map pixel_size rounds last u acq)
        ≡ idle_outcome acq.fail_timeout (allowed acq) acq.acq_start_time acq.aborted rounds
  unfolding idle_outcome read_loop
  loop_idle [] last u acq p e runs = ground (arith, runs)
  loop_idle (r ∷ rounds) last u acq p e runs =
      let flag = acq.aborted || r.raised in
      let flagged = record acq { aborted = flag } in
      let next = dried_up r last flagged in
      let kept = dried_up-Waits r last flagged in
      ap loop_code (idle_round r rounds last u acq p e runs)
      ∙ next_code flag (is_expired acq.fail_timeout (allowed acq) acq.acq_start_time r) rounds last
          u next _
          (kept.ends
            ∙ ap
                (λ s.
                  if flag
                  then State.succeeded
                  else if is_expired acq.fail_timeout (allowed acq) acq.acq_start_time r
                  then State.timed_out
                  else s)
                runs)
          (λ down still. loop_idle rounds last u next p e still ∙ kept.outcome rounds)

  done_code :
      (end : ℕ) (o : Option (Udp × Acq))
      → code_at_end (read_done pixel_map pixel_size end o) ≡ loop_code o
  done_code end none = refl
  done_code end (some (u, acq)) = refl

  locked_idle :
      (start end : ℕ) (rounds : List Round) (u : Udp) (acq : Acq)
      → IsIdle u
      → acq.state ≡ State.running
      → code_at_end (acquisition_read pixel_map pixel_size start end rounds u acq)
        ≡ loop_code (
            read_loop pixel_map pixel_size rounds start
              (record u { held = u.held + 1 })
              (record acq {
                pixel_buffer = [];
                pixel_buffer_valid = 0;
                pixel_buffer_max_valid = acq.pixel_buffer_size / pixel_size;
              }))
  unfolding acquisition_read mutex_lock lock_next
  locked_idle start end rounds u acq idle runs =
      ap
        (λ ls. code_at_end (read_locked pixel_map pixel_size start end rounds acq (lock_next ls u)))
        idle.free
      ∙ done_code end _

  -- A read of a running acquisition whose lock is free and whose pinned data socket stays idle, over
  -- all rounds of its loop: it returns success at the first round in which the abort flag is up,
  -- before or during the call, unless it has returned ETIMEDOUT at an earlier one, the first at which
  -- fail_timeout is set and more time has passed since the start than the frames take and
  -- fail_timeout. It returns at no other round.
  pub acquisition_read-idle :
      (start end : ℕ) (rounds : List Round) (u : Udp) (acq : Acq)
      → IsIdle u
      → acq.state ≡ State.running
      → code_at_end (acquisition_read pixel_map pixel_size start end rounds u acq)
        ≡ idle_outcome acq.fail_timeout
            (acq.requested_frames * acq.requested_frame_duration + acq.fail_timeout * 1000000)
            acq.acq_start_time
            acq.aborted
            rounds
  acquisition_read-idle start end rounds u acq idle runs =
      locked_idle start end rounds u acq idle runs
      ∙ loop_idle rounds start _ _ idle.pinned idle.silent runs
